-- ===== src/Control/Rounds.antt =====
-- The whole of execute and of checkTimeouts follows the diagram.
use roo_wifi.Base.{
  ◌≡◌, ◌≢◌, refl, sym, ap, ◌∙◌, inl, inr, Bool, true, false, not, ◌&&◌, ◌||◌, ◌==◌, if◌then◌else◌,
  arith, Bool-cases,
}
use mathlib.Core.Path.{subst}
use roo_wifi.Types.{Status, is_ok, ConnectionFailure, is_associated}
use roo_wifi.Control.Interfaces.{Interface, Store}
use roo_wifi.Control.State.{
  Deadline, ScanPhase, is_scan_idle, is_scan_cancelling, Transition, is_no_transition, is_connect,
  is_past, Controller,
}
use roo_wifi.Control.Retry.{changed, fault}
use roo_wifi.Control.Requests.{max_id, cancel_scan}
use roo_wifi.Control.Work.{
  needs_station, clear_scan, reconcile, stop_connection, supersede, execute_active, execute,
  check_stable, check_address, check_station, check_scan, check_deadlines, check_timeouts,
}
use roo_wifi.Control.Diagram.{Progress, Step, view, IsLive, IsTask, Move, Walk, here, one, trans}
use roo_wifi.Control.Frames.{
  view-schedule_timeouts, view-fault, view-check_stable, view-check_address,
}
use roo_wifi.Control.Moves.{
  arrive, stay, path_if, live, path-fault, path-cancel_scan, cancel_scan_cases,
}
use roo_wifi.Control.Tasks.{IsFree, path-advance_station}

-- A view that differs in the scan and in the cancellation alone, or is of a faulted controller.
pub record IsNear (q p : Progress) : Type 0 where
  pub near_running : q.running ≡ p.running
  pub near_transition : q.faulted ≡ false → q.transition ≡ p.transition
  pub near_next : q.next_id ≡ p.next_id

past_tests : (a b c : Bool) → a ≡ true → (a && (not b || c)) ≡ false → b ≡ true
past_tests a b c e h = ground arith

contrary : false ≢ true
contrary e = cc

module _ {r : Interface} {t : Store} where
  cancel_scan-IsNear : (c : Controller r t) → IsNear (view (cancel_scan c).1) (view c)
  cancel_scan-IsNear c = ground (arith, cancel_scan_cases c)

  fault-IsNear : (s : Status) (c : Controller r t) → IsNear (view (fault s c)) (view c)
  fault-IsNear s c = ground (arith, view-fault s c)

  cancel_scan_sound : (c : Controller r t) → (view (cancel_scan c).1).faulted ≡ (view c).faulted
  cancel_scan_sound c = ground (arith, cancel_scan_cases c)

  clear_scan-IsNear : (c : Controller r t) → IsNear (view (clear_scan c)) (view c)
  unfolding clear_scan
  clear_scan-IsNear c = ground (
    arith,
    cancel_scan-IsNear c,
    cancel_scan_sound c,
    view-fault (cancel_scan c).0 (cancel_scan c).1,
  )

  path-clear_scan :
      (c : Controller r t) → IsLive (view c) → Walk Step.executes (view c) (view (clear_scan c))
  unfolding clear_scan
  path-clear_scan c l =
      let c' = (cancel_scan c).1 in
      let near = cancel_scan-IsNear c in
      path_if (needs_station c && not (is_scan_idle c.state.scan)) _ _
        (λ _.
          path_if (is_ok (cancel_scan c).0) _ _ (λ _. path-cancel_scan c)
            (λ _. trans (path-cancel_scan c) (
              path-fault (cancel_scan c).0 c' IsTask.executes (record {
                running = near.near_running ∙ l.running;
                sound = cancel_scan_sound c ∙ l.sound;
              }))))
        (λ _. here)

  unneeded : (c : Controller r t) → needs_station c ≡ false → clear_scan c ≡ c
  unfolding clear_scan
  unneeded c h = ground arith

  scan_idle_of :
      (c : Controller r t) → is_scan_idle c.state.scan ≡ true → (view c).scan ≡ ScanPhase.idle
  unfolding view
  scan_idle_of c h = ground arith

  -- Past the second test of execute for scans, no fault happened.
  settled :
      (c : Controller r t)
      → (needs_station c
          && (not (is_scan_idle (clear_scan c).state.scan) || (clear_scan c).faulted))
        ≡ false
      → IsLive (view c)
      → (view (clear_scan c)).faulted ≡ false
  unfolding view
  settled c h l = ground (arith, unneeded c)

  idle_after :
      (c : Controller r t)
      → (needs_station c
          && (not (is_scan_idle (clear_scan c).state.scan) || (clear_scan c).faulted))
        ≡ false
      → needs_station (clear_scan c) ≡ true
      → (view (clear_scan c)).scan ≡ ScanPhase.idle
  idle_after c h k = elim (Bool-cases (needs_station c)) [
    | inl e ↦ scan_idle_of (clear_scan c) (past_tests _ _ _ e h)
    | inr e ↦ absurd (contrary (sym e ∙ sym (ap needs_station (unneeded c e)) ∙ k))
  ]

  IsFree-after :
      (c d : Controller r t)
      → IsFree c
      → IsNear (view d) (view c)
      → (view d).faulted ≡ false
      → IsFree d
  IsFree-after c d f near sound = record {
    is_live = record { running = near.near_running ∙ f.is_live.running; sound = sound };
    no_transition = near.near_transition sound ∙ f.no_transition;
    room = λ e. f.room (sym near.near_next ∙ e);
  }

  path-reconcile :
      (c : Controller r t) → IsFree c → Walk Step.executes (view c) (view (reconcile c))
  unfolding reconcile
  path-reconcile c f =
      let d = clear_scan c in
      let near = clear_scan-IsNear c in
      let cleared = path-clear_scan c f.is_live in
      path_if (needs_station c && (not (is_scan_idle d.state.scan) || d.faulted)) _ _ (λ _. cleared)
        (λ h. trans cleared (
          path-advance_station d (IsFree-after c d f near (settled c h f.is_live))
            (idle_after c h)))

  stop_connection-view :
      (c : Controller r t) → view (stop_connection c) ≡ record (view c) { cancelling = true }
  unfolding view stop_connection changed
  stop_connection-view c = ground arith

  with_radio : (x : r.Radio) (c : Controller r t) → view (record c { radio = x }) ≡ view c
  unfolding view
  with_radio x c = refl

  -- What the test of execute for a superseded connection says.
  superseded :
      (c : Controller r t)
      → (is_connect c.transition
          && (not (c.active_revision == c.state.revision) && not c.cancelling_connect))
        ≡ true
      → ((view c).transition ≡ Transition.connect) × ((view c).cancelling ≡ false)
  unfolding view
  superseded c h = ground arith

  path-stop_connection :
      {k : Step} (c d : Controller r t)
      → IsTask k
      → view d ≡ view c
      → IsLive (view c)
      → (view c).transition ≡ Transition.connect
      → (view c).cancelling ≡ false
      → Walk k (view c) (view (stop_connection d))
  path-stop_connection c d task e l connecting once =
      arrive (one (Move.stop task l connecting once))
        (stop_connection-view d ∙ ap (λ (p : Progress). record p { cancelling = true }) e)

  path-supersede :
      (c : Controller r t) → IsLive (view c) → Walk Step.executes (view c) (view (supersede c))
  unfolding supersede view
  path-supersede c l =
      let d = record c { radio = (r.cancel_connect c.radio).1 } in
      let same = with_radio (r.cancel_connect c.radio).1 c in
      path_if _ _ _
        (λ h.
          path_if (is_ok (r.cancel_connect c.radio).0) _ _
            (λ _.
              path-stop_connection c d IsTask.executes same l (superseded c h).0 (superseded c h).1)
            (λ _. path-fault (r.cancel_connect c.radio).0 d IsTask.executes l))
        (λ _. here)

  supersede-IsNear : (c : Controller r t) → IsNear (view (supersede c)) (view c)
  unfolding supersede
  supersede-IsNear c =
      let d = record c { radio = (r.cancel_connect c.radio).1 } in
      ground (
        arith,
        with_radio (r.cancel_connect c.radio).1 c,
        stop_connection-view d,
        fault-IsNear (r.cancel_connect c.radio).0 d,
      )

  IsFree-of :
      (c : Controller r t)
      → IsLive (view c)
      → is_no_transition c.transition ≡ true
      → (view c).next_id ≢ max_id
      → IsFree c
  unfolding view
  IsFree-of c l h room = record { is_live = l; no_transition = ground arith; room = room }

  IsLive-near :
      (c d : Controller r t)
      → IsNear (view d) (view c)
      → IsLive (view c)
      → d.faulted ≡ false
      → IsLive (view d)
  unfolding view
  IsLive-near c d near l sound = record { running = near.near_running ∙ l.running; sound = sound }

  path-execute_active :
      (c : Controller r t)
      → IsLive (view c)
      → (view c).next_id ≢ max_id
      → Walk Step.executes (view c) (view (execute_active c))
  unfolding execute_active
  path-execute_active c l room =
      let d = supersede c in
      let near = supersede-IsNear c in
      path_if d.faulted _ _ (λ _. path-supersede c l)
        (λ sound. trans (path-supersede c l) (
          path_if (is_no_transition d.transition) _ _
            (λ free. path-reconcile d (
              IsFree-of d (IsLive-near c d near l sound) free (λ e. room (sym near.near_next ∙ e))))
            (λ _. stay (view-schedule_timeouts d))))

  asleep : (c : Controller r t) → view (record c { work = false }) ≡ view c
  unfolding view
  asleep c = refl

  has_room : (c : Controller r t) → (c.next_id == max_id) ≡ false → (view c).next_id ≢ max_id
  unfolding view
  has_room c h = ground arith

  pub path-execute : (c : Controller r t) → Walk Step.executes (view c) (view (execute c))
  unfolding execute view
  path-execute c =
      let d = record c { work = false } in
      path_if (not c.running || c.faulted) _ _ (λ _. stay (asleep c))
        (λ h.
          path_if (c.next_id == max_id) _ _
            (λ _. path-fault Status.busy d IsTask.executes (live c h))
            (λ k. path-execute_active d (live c h) (has_room c k)))

  -- What the test of checkTimeouts says before it cancels a connection.
  overdue :
      (c : Controller r t)
      → (not (is_connect c.transition) || c.cancelling_connect) ≡ false
      → ((view c).transition ≡ Transition.connect) × ((view c).cancelling ≡ false)
  unfolding view
  overdue c h = ground arith

  timed_out : (c : Controller r t) → Controller r t
  timed_out c = record c {
    radio = (r.cancel_connect c.radio).1;
    station_timed_out = true;
    timeout_failure =
        if is_associated c.state.link.phase
        then ConnectionFailure.address_timeout
        else ConnectionFailure.connection_timeout;
  }

  view-timed_out : (c : Controller r t) → view (timed_out c) ≡ view c
  unfolding view timed_out
  view-timed_out c = refl

  path-check_station :
      (c : Controller r t) → IsLive (view c) → Walk Step.times_out (view c) (view (check_station c))
  unfolding check_station timed_out
  path-check_station c l =
      let d = timed_out c in
      path_if (c.station_id == 0 || not (is_past c.clock c.station_deadline)) _ _ (λ _. here)
        (λ _.
          path_if (not (is_connect c.transition) || c.cancelling_connect) _ _
            (λ _. path-fault Status.timeout c IsTask.times_out l)
            (λ h.
              path_if (is_ok (r.cancel_connect c.radio).0) _ _
                (λ _.
                  path-stop_connection c d IsTask.times_out (view-timed_out c) l (overdue c h).0
                    (overdue c h).1)
                (λ _. trans (stay (view-timed_out c)) (
                  path-fault Status.timeout d IsTask.times_out
                    (subst IsLive (sym (view-timed_out c)) l)))))

  check_station-IsNear : (c : Controller r t) → IsNear (view (check_station c)) (view c)
  unfolding check_station timed_out
  check_station-IsNear c =
      let d = timed_out c in
      ground (
        arith,
        view-timed_out c,
        stop_connection-view d,
        view-fault Status.timeout c,
        view-fault Status.timeout d,
      )

  late : (c : Controller r t) → Controller r t
  late c = record c { scan_timed_out = true }

  view-late : (c : Controller r t) → view (late c) ≡ view c
  unfolding view late
  view-late c = refl

  path-check_scan :
      (c : Controller r t) → IsLive (view c) → Walk Step.times_out (view c) (view (check_scan c))
  unfolding check_scan late
  path-check_scan c l =
      let d = (cancel_scan (late c)).1 in
      let near = cancel_scan-IsNear (late c) in
      let ll = subst IsLive (sym (view-late c)) l in
      let cancelled = trans (stay (view-late c)) (path-cancel_scan (late c)) in
      path_if (c.scan_id == 0 || not (is_past c.clock c.scan_deadline)) _ _ (λ _. here)
        (λ _.
          path_if (is_scan_cancelling c.state.scan) _ _
            (λ _. path-fault Status.timeout c IsTask.times_out l)
            (λ _.
              path_if (is_ok (cancel_scan (late c)).0) _ _ (λ _. cancelled)
                (λ _. trans cancelled (
                  path-fault Status.timeout d IsTask.times_out (record {
                    running = near.near_running ∙ ll.running;
                    sound = cancel_scan_sound (late c) ∙ ll.sound;
                  })))))

  path-check_deadlines :
      (c : Controller r t)
      → IsLive (view c)
      → Walk Step.times_out (view c) (view (check_deadlines c))
  unfolding check_deadlines
  path-check_deadlines c l =
      let c0 = check_address (check_stable c) in
      let c1 = check_station c0 in
      let c2 = check_scan c1 in
      let same = view-check_address (check_stable c) ∙ view-check_stable c in
      let l0 = subst IsLive (sym same) l in
      let arrived = trans (stay same) (path-check_station c0 l0) in
      path_if c1.faulted _ _ (λ _. arrived)
        (λ sound.
          let walked =
            trans arrived
              (path-check_scan c1 (IsLive-near c0 c1 (check_station-IsNear c0) l0 sound)) in
          path_if c2.faulted _ _ (λ _. walked) (λ _. arrive walked (view-schedule_timeouts c2)))

  disarmed : (c : Controller r t) → view (record c { timer = Deadline.never }) ≡ view c
  unfolding view
  disarmed c = refl

  pub path-check_timeouts :
      (c : Controller r t) → Walk Step.times_out (view c) (view (check_timeouts c))
  unfolding check_timeouts view
  path-check_timeouts c =
      let d = record c { timer = Deadline.never } in
      path_if (not c.running || c.faulted) _ _ (λ _. stay (disarmed c))
        (λ h. path-check_deadlines d (live c h))
