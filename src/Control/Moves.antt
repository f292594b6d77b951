-- ===== src/Control/Moves.antt =====
-- The events and the tasks of the controller follow the diagram.
use roo_wifi.Base.{
  ◌≡◌, ◌∙◌, ◌≢◌, refl, sym, ap, ◌⊎◌, inl, inr, Bool, true, false, not, ◌&&◌, ◌||◌, ◌==◌,
  if◌then◌else◌, arith,
}
use mathlib.Core.Path.{subst}
use roo_wifi.Types.{Status, is_ok, OperationKind, kind_eq, OperationResult, no_operation, LinkState}
use roo_wifi.Control.Interfaces.{Interface, Store}
use roo_wifi.Control.State.{ScanPhase, Change, Transition, Controller}
use roo_wifi.Control.Retry.{changed, schedule_timeouts, fault}
use roo_wifi.Control.Requests.{cancel_scan, rescheduled}
use roo_wifi.Control.Events.{
  expected_kind, on_operation_finished, on_link_changed, on_enabled_changed,
}
use roo_wifi.Control.Work.{assign, command, launch}
use roo_wifi.Control.Diagram.{
  Progress, Step, view, launched, retired, scanning, scanned, IsLive, IsTask, MayLaunch, MayScan,
  Move, Walk, here, one,
}
use roo_wifi.Control.Frames.{view-fault, view-finish_transition, view-finish_scan, view-follow_link}

pub arrive : {k : Step} {p q u : Progress} → Walk k p q → u ≡ q → Walk k p u
arrive {k} {p} path e = subst (λ x. Walk k p x) (sym e) path

pub stay : {k : Step} {p u : Progress} → u ≡ p → Walk k p u
stay e = arrive here e

not_scan : (k : Transition) → kind_eq (expected_kind k) OperationKind.scan ≡ false
not_scan Transition.none = refl
not_scan Transition.enable = refl
not_scan Transition.connect = refl
not_scan Transition.disconnect = refl

unscanned :
    (o : OperationKind) (k : Transition)
    → kind_eq o OperationKind.scan ≡ true
    → ¬ (kind_eq o (expected_kind k) ≡ true)
unscanned o k h e = ground arith

data Finish (o : OperationResult) (p q : Progress) : Type 0 where
  ignored : q ≡ p → Finish o p q
  scan :
      IsLive p
      → o.id ≢ 0
      → o.id ≡ p.scan_id
      → kind_eq o.kind OperationKind.scan ≡ true
      → q ≡ scanned p
      → Finish o p q
  station :
      IsLive p
      → o.id ≢ 0
      → o.id ≡ p.station_id
      → kind_eq o.kind (expected_kind p.transition) ≡ true
      → q ≡ retired p
      → Finish o p q

module _ {r : Interface} {t : Store} where
  pub path_if :
      {s : Step} {p : Progress} (b : Bool) (x y : Controller r t)
      → (b ≡ true → Walk s p (view x))
      → (b ≡ false → Walk s p (view y))
      → Walk s p (view (if b then x else y))
  path_if true x y h k = h refl
  path_if false x y h k = k refl

  pub path_if_pair :
      {s : Step} {p : Progress} (b : Bool) (x y : Status × Controller r t)
      → (b ≡ true → Walk s p (view x.1))
      → (b ≡ false → Walk s p (view y.1))
      → Walk s p (view (if b then x else y).1)
  path_if_pair true x y h k = h refl
  path_if_pair false x y h k = k refl

  pub IsLive-of :
      (c : Controller r t) (b : Bool)
      → (not c.running || (c.faulted || b)) ≡ false
      → IsLive (view c) × (b ≡ false)
  unfolding view
  IsLive-of c b h = ground arith

  pub live : (c : Controller r t) → (not c.running || c.faulted) ≡ false → IsLive (view c)
  unfolding view
  live c h = ground arith

  scan_active :
      (o : OperationResult) (c : Controller r t)
      → (o.id == 0) ≡ false
      → (o.id == c.scan_id && kind_eq o.kind OperationKind.scan) ≡ true
      → (o.id ≢ 0) × (o.id ≡ (view c).scan_id) × (kind_eq o.kind OperationKind.scan ≡ true)
  unfolding view
  scan_active o c h k = ground arith

  station_active :
      (o : OperationResult) (c : Controller r t)
      → (o.id == 0) ≡ false
      → (not (o.id == c.station_id) || not (kind_eq o.kind (expected_kind c.transition))) ≡ false
      → (o.id ≢ 0)
        × (o.id ≡ (view c).station_id)
        × (kind_eq o.kind (expected_kind (view c).transition) ≡ true)
  unfolding view
  station_active o c h k = ground arith

  -- What a completion does: the controller ignores it, or it ends the scan or the transition that
  -- has its id and its kind.
  finished_if :
      (A : Progress → Type 0) (b : Bool) (x y : Controller r t)
      → (b ≡ true → A (view x))
      → (b ≡ false → A (view y))
      → A (view (if b then x else y))
  finished_if A true x y h k = h refl
  finished_if A false x y h k = k refl

  finish :
      (o : OperationResult) (c : Controller r t)
      → Finish o (view c) (view (on_operation_finished o c))
  unfolding on_operation_finished
  finish o c =
      finished_if (Finish o (view c)) _ _ _ (λ _. Finish.ignored refl)
        (λ h.
          let (alive, some_id) = IsLive-of c (o.id == 0) h in
          finished_if (Finish o (view c)) _ _ _
            (λ k.
              let (id, own, kind) = scan_active o c some_id k in
              Finish.scan alive id own kind (view-finish_scan o c))
            (λ _.
              finished_if (Finish o (view c)) _ _ _ (λ _. Finish.ignored refl)
                (λ k.
                  let (id, own, kind) = station_active o c some_id k in
                  Finish.station alive id own kind (view-finish_transition o c))))

  pub path-on_operation_finished :
      (o : OperationResult) (c : Controller r t)
      → Walk (Step.finishes o) (view c) (view (on_operation_finished o c))
  path-on_operation_finished o c = elim (finish o c) [
    | ignored e ↦ stay e
    | scan alive id own kind e ↦ arrive (one (Move.end_scan o alive id own kind)) e
    | station alive id own kind e ↦ arrive (one (Move.retire o alive id own kind)) e
  ]

  view-on_link_changed : (l : LinkState) (c : Controller r t) → view (on_link_changed l c) ≡ view c
  unfolding on_link_changed
  view-on_link_changed l c = ground (arith, view-follow_link l c)

  view-on_enabled_changed : (e : Bool) (c : Controller r t) → view (on_enabled_changed e c) ≡ view c
  unfolding view on_enabled_changed changed
  view-on_enabled_changed e c = ground arith

  pub path-on_link_changed :
      {k : Step} (l : LinkState) (c : Controller r t) → Walk k (view c) (view (on_link_changed l c))
  path-on_link_changed l c = stay (view-on_link_changed l c)

  pub path-on_enabled_changed :
      {k : Step} (e : Bool) (c : Controller r t) → Walk k (view c) (view (on_enabled_changed e c))
  path-on_enabled_changed e c = stay (view-on_enabled_changed e c)

  view-rescheduled : (c : Controller r t) → view (rescheduled c) ≡ view c
  unfolding view rescheduled schedule_timeouts changed
  view-rescheduled c = ground arith

  -- What cancelScan does to the diagram's state.
  pub cancel_scan_cases :
      (c : Controller r t)
      → (view (cancel_scan c).1 ≡ view c)
        ⊎ ((((view c).scan ≡ ScanPhase.queued)
              × (view (cancel_scan c).1 ≡ record (view c) { scan = ScanPhase.idle }))
            ⊎ (((view c).scan ≡ ScanPhase.running)
                × (view (cancel_scan c).1 ≡ record (view c) { scan = ScanPhase.cancelling })))
  unfolding view cancel_scan rescheduled schedule_timeouts changed
  cancel_scan_cases c = ground arith

  pub path-cancel_scan : {k : Step} (c : Controller r t) → Walk k (view c) (view (cancel_scan c).1)
  path-cancel_scan c = elim (cancel_scan_cases c) [
    | inl e ↦ stay e
    | inr (inl (q, e)) ↦ arrive (one (Move.drop_scan q)) e
    | inr (inr (q, e)) ↦ arrive (one (Move.stop_scan q)) e
  ]

  pub path-fault :
      {k : Step} (s : Status) (c : Controller r t)
      → IsTask k
      → IsLive (view c)
      → Walk k (view c) (view (fault s c))
  path-fault s c task l = arrive (one (Move.fail task l)) (view-fault s c)

  begun : (k : Transition) (c : Controller r t) → Controller r t
  begun k c = changed Change.station (record (assign k c) { radio = (command k (assign k c)).1 })

  view-begun : (k : Transition) (c : Controller r t) → view (begun k c) ≡ launched k (view c)
  unfolding view begun assign changed
  view-begun k c = ground arith

  refusal : (k : Transition) (c : Controller r t) → OperationResult
  refusal k c = record no_operation {
    id = c.next_id;
    kind = expected_kind k;
    status = (command k (assign k c)).0;
  }

  -- The station refuses the command, and the completion made for it ends the transition.
  path-refused :
      (k : Transition) (c : Controller r t)
      → MayLaunch k (view c)
      → Walk Step.executes (view c) (view (on_operation_finished (refusal k c) (begun k c)))
  unfolding refusal
  path-refused k c may = elim (finish (refusal k c) (begun k c)) [
    | ignored e ↦ arrive (one (Move.launch k may)) (e ∙ view-begun k c)
    | scan alive id own kind e ↦ absurd (cc (not_scan k, kind))
    | station alive id own kind e ↦
        arrive (one (Move.refuse k may)) (e ∙ ap (λ (p : Progress). retired p) (view-begun k c))
  ]

  pub path-launch :
      (k : Transition) (c : Controller r t)
      → MayLaunch k (view c)
      → Walk Step.executes (view c) (view (launch k c))
  unfolding launch begun refusal
  path-launch k c may =
      path_if (is_ok (command k (assign k c)).0) (begun k c)
        (on_operation_finished (refusal k c) (begun k c))
        (λ _. arrive (one (Move.launch k may)) (view-begun k c)) (λ _. path-refused k c may)

  pub path-scan_refused :
      (o : OperationResult) (c d : Controller r t)
      → kind_eq o.kind OperationKind.scan ≡ true
      → MayScan (view c)
      → view d ≡ scanning (view c)
      → Walk Step.executes (view c) (view (on_operation_finished o d))
  path-scan_refused o c d scans may begun_ = elim (finish o d) [
    | ignored e ↦ arrive (one (Move.run_scan may)) (e ∙ begun_)
    | scan alive id own kind e ↦
        arrive (one (Move.refuse_scan may)) (e ∙ ap (λ (p : Progress). scanned p) begun_)
    | station alive id own kind e ↦ absurd (unscanned o.kind (view d).transition scans kind)
  ]

  scan_kept :
      (o : OperationResult) (c : Controller r t)
      → kind_eq o.kind OperationKind.scan ≡ false
      → (view (on_operation_finished o c)).scan ≡ (view c).scan
  unfolding on_operation_finished
  scan_kept o c h = ground (arith, ap (λ (p : Progress). p.scan) (view-finish_transition o c))

  pub scan_of-launch :
      (k : Transition) (c : Controller r t) → (view (launch k c)).scan ≡ (view c).scan
  unfolding launch begun refusal
  scan_of-launch k c = ground (
    arith,
    scan_kept (refusal k c) (begun k c) (not_scan k),
    ap (λ (p : Progress). p.scan) (view-begun k c),
  )
