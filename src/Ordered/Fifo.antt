-- ===== src/Ordered/Fifo.antt =====
-- The ring of 16 slots as a FIFO queue, and what its compact entries keep.
use roo_wifi.Base.{
  ℕ, zero, suc, ◌+◌, ◌-◌, ◌%◌, ◌≤◌, ◌<◌, ◌≡◌, ◌≢◌, refl, ap, true, List, [], ◌∷◌, ◌++◌,
  if◌then◌else◌, length, get_or, set, arith,
}
use native.Mathlib.Nat.{mod-eq_of_lt}
use roo_wifi.Ordered.Events.{
  EventKind, Event, QueuedEvent, empty_slot, queued, expand, payload_of, expand_payload,
}
use roo_wifi.Ordered.Station.{NativeStation, Adapter}
use roo_wifi.Ordered.Queue.{queue_size, post, front, advance}
use roo_wifi.Ordered.Machine.{
  process, dispatch, process_enabled, process_address, process_disconnected, disconnected_link,
  keep_radio_info,
}

-- The slots from a place on, in the order of the ring.
unfoldable pub window : List QueuedEvent → ℕ → ℕ → List QueuedEvent
window slots head zero = []
window slots head (suc count) =
    get_or slots (head % queue_size) empty_slot ∷ window slots (head + 1) count

-- The queue that the ring stands for.
unfoldable pub pending : {n : NativeStation} → Adapter n → List QueuedEvent
pending s = window s.queue s.head s.count

-- The ring has all its slots, and its indices are in range.
pub record IsRing {n : NativeStation} (s : Adapter n) : Type 0 where
  pub full : length s.queue ≡ queue_size
  pub head_fits : s.head < queue_size
  pub count_fits : s.count ≤ queue_size

get_or-set_same :
    (xs : List QueuedEvent) (k : ℕ) (x d : QueuedEvent)
    → k < length xs
    → get_or (set xs k x) k d ≡ x
get_or-set_same [] k x d h = absurd (omega arith)
get_or-set_same (y ∷ ys) zero x d h = refl
get_or-set_same (y ∷ ys) (suc k) x d h = get_or-set_same ys k x d (omega arith)

get_or-set_other :
    (xs : List QueuedEvent) (k j : ℕ) (x d : QueuedEvent)
    → j ≢ k
    → get_or (set xs k x) j d ≡ get_or xs j d
get_or-set_other [] k j x d h = refl
get_or-set_other (y ∷ ys) zero zero x d h = absurd (h refl)
get_or-set_other (y ∷ ys) zero (suc j) x d h = refl
get_or-set_other (y ∷ ys) (suc k) zero x d h = refl
get_or-set_other (y ∷ ys) (suc k) (suc j) x d h = get_or-set_other ys k j x d (λ e. h (ap suc e))

length-set : (xs : List QueuedEvent) (k : ℕ) (x : QueuedEvent) → length (set xs k x) ≡ length xs
length-set [] k x = refl
length-set (y ∷ ys) zero x = refl
length-set (y ∷ ys) (suc k) x = omega (arith, length-set ys k x)

-- A write outside the window leaves it.
window-set :
    (slots : List QueuedEvent) (head count k : ℕ) (x : QueuedEvent)
    → ((j : ℕ) → j < count → (head + j) % queue_size ≢ k)
    → window (set slots k x) head count ≡ window slots head count
unfolding window
window-set slots head zero k x outside = refl
window-set slots head (suc count) k x outside = rw (
  get_or-set_other slots k (head % queue_size) x empty_slot
      (λ e. outside 0 (omega arith) (omega (arith, e))),
  window-set slots (head + 1) count k x (λ j h e. outside (suc j) (omega arith) (omega (arith, e))),
)

window-append :
    (slots : List QueuedEvent) (head count k : ℕ)
    → k ≡ (head + count) % queue_size
    → window slots head (suc count) ≡ window slots head count ++ get_or slots k empty_slot ∷ []
unfolding window
window-append slots head zero k h =
    ap (λ (j : ℕ). get_or slots j empty_slot ∷ []) (omega (arith, h))
window-append slots head (suc count) k h =
    ap (λ (t : List QueuedEvent). get_or slots (head % queue_size) empty_slot ∷ t)
      (window-append slots (head + 1) count k (omega (arith, h)))

-- The window depends on its start as a slot alone.
window_around :
    (slots : List QueuedEvent) (head start count : ℕ)
    → head % queue_size ≡ start % queue_size
    → window slots head count ≡ window slots start count
unfolding window
window_around slots head start zero h = refl
window_around slots head start (suc count) h =
    rw (h, window_around slots (head + 1) (start + 1) count (omega arith)) refl

window-set_next :
    (slots : List QueuedEvent) (head count : ℕ) (x : QueuedEvent)
    → length slots ≡ queue_size
    → count < queue_size
    → window (set slots ((head + count) % queue_size) x) head (suc count)
      ≡ window slots head count ++ x ∷ []
window-set_next slots head count x full room =
    let k = (head + count) % queue_size in
    rw
      (
        window-append (set slots k x) head count k refl,
        window-set slots head count k x (λ j h e. omega arith),
        get_or-set_same slots k x empty_slot (omega arith),
      )
      refl

pred_suc : (k : ℕ) → suc k - 1 ≡ k
pred_suc k = omega arith

window_first :
    (slots : List QueuedEvent) (head count : ℕ)
    → head < queue_size
    → 1 ≤ count
    → window slots head count
      ≡ get_or slots head empty_slot ∷ window slots ((head + 1) % queue_size) (count - 1)
unfolding window
window_first slots head zero fits some_event = absurd (omega arith)
window_first slots head (suc count) fits some_event =
    rw
      (
        mod-eq_of_lt fits,
        pred_suc count,
        window_around slots ((head + 1) % queue_size) (head + 1) count (omega arith),
      )
      refl

module _ {n : NativeStation} where
  pending-post :
      (e : Event) (s : Adapter n)
      → IsRing s
      → s.count < queue_size
      → pending (post e s) ≡ pending s ++ queued e ∷ []
  unfolding pending post
  pending-post e s ring room =
      ground (arith, window-set_next s.queue s.head s.count (queued e) ring.full room)

  pending-front :
      (s : Adapter n)
      → IsRing s
      → 1 ≤ s.count
      → pending s ≡ get_or s.queue s.head empty_slot ∷ pending (advance s)
  unfolding pending advance
  pending-front s ring some_event = window_first s.queue s.head s.count ring.head_fits some_event

  post-IsRing : (e : Event) (s : Adapter n) → IsRing s → IsRing (post e s)
  unfolding post
  post-IsRing e s ring =
      ground (arith, length-set s.queue ((s.head + s.count) % queue_size) (queued e))

  advance-IsRing : (s : Adapter n) → IsRing s → IsRing (advance s)
  unfolding advance
  advance-IsRing s ring = record {
    full = ring.full;
    head_fits = omega arith;
    count_fits = omega (arith, ring.count_fits);
  }

  post_keeps : (e : Event) (s : Adapter n) → s.count < queue_size → (post e s).overflow ≡ s.overflow
  unfolding post
  post_keeps e s room = ground arith

  post_full :
      (e : Event) (s : Adapter n)
      → s.count ≡ queue_size
      → (pending (post e s) ≡ pending s) × ((post e s).overflow ≡ true)
  unfolding post pending
  post_full e s full = ground arith

  -- The ring is a FIFO queue of at most 16 events. A post keeps the ring in shape and adds the event
  -- at the end, or, on a full ring, leaves the queue and records an overflow; drain takes the first
  -- event off and reads it as it was queued.
  pub IsRing-fifo :
      (e : Event) (s : Adapter n)
      → IsRing s
      → IsRing (post e s)
        × IsRing (advance s)
        × (s.count < queue_size
            → (pending (post e s) ≡ pending s ++ queued e ∷ [])
              × ((post e s).overflow ≡ s.overflow))
        × (s.count ≡ queue_size → (pending (post e s) ≡ pending s) × ((post e s).overflow ≡ true))
        × (1 ≤ s.count
            → (q : QueuedEvent) × (pending s ≡ q ∷ pending (advance s)) × (front s ≡ expand q))
  IsRing-fifo e s ring = (
    post-IsRing e s ring,
    advance-IsRing s ring,
    λ room. (pending-post e s ring room, post_keeps e s room),
    λ full. post_full e s full,
    λ some_event.
        (get_or s.queue s.head empty_slot, pending-front s ring some_event, (unfold front in refl)),
  )

abbrev of_kind : EventKind → Event → Event
of_kind k e = record e { kind = k }

module _ {n : NativeStation} where
  dispatch_compact :
      (k : EventKind) (e : Event) (s : Adapter n)
      → k ≢ EventKind.associated
      → dispatch k (expand (queued (of_kind k e))) s ≡ dispatch k (of_kind k e) s
  unfolding dispatch expand queued payload_of expand_payload process_enabled process_address
      process_disconnected disconnected_link keep_radio_info
  dispatch_compact EventKind.enabled e s h = refl
  dispatch_compact EventKind.disabled e s h = refl
  dispatch_compact EventKind.associated e s h = absurd (h refl)
  dispatch_compact EventKind.address_ready e s h = refl
  dispatch_compact EventKind.address_lost e s h = refl
  dispatch_compact EventKind.disconnected e s h = refl
  dispatch_compact EventKind.scan_done e s h = refl
  dispatch_compact EventKind.prepared e s h = refl

  -- The compact entry of the queue keeps all that the state machine reads: an event of any kind but
  -- kAssociated has the same effect after it went through the queue.
  pub process-expand :
      (e : Event) (s : Adapter n)
      → e.kind ≢ EventKind.associated
      → process (expand (queued e)) s ≡ process e s
  unfolding process expand queued dispatch
  process-expand e s h =
      ap (λ (t : Adapter n). if s.faulted then s else t) (dispatch_compact e.kind e s h)
