-- ===== src/Control/Tasks.antt =====
-- The tasks of the controller follow the diagram: execute and checkTimeouts.
use roo_wifi.Base.{
  ◌+◌, ◌%◌, ◌^◌, ◌≡◌, ◌≢◌, refl, sym, ap, ◌∙◌, Bool, true, false, not, ◌&&◌, ◌||◌, arith,
}
use mathlib.Core.Path.{subst}
use roo_wifi.Types.{is_ok, OperationKind, OperationResult, no_operation, is_idle}
use roo_wifi.Control.Interfaces.{Interface, Store}
use roo_wifi.Control.State.{
  ScanPhase, is_scan_queued, Change, Transition, is_no_transition, is_connected, after, is_disabled,
  Controller,
}
use roo_wifi.Control.Retry.{changed}
use roo_wifi.Control.Same.{bool_eq}
use roo_wifi.Control.Requests.{max_id}
use roo_wifi.Control.Events.{on_operation_finished}
use roo_wifi.Control.Work.{
  launch, count_attempt, pursue, restores, restore_profile, launch_scan, finish_work, needs_station,
  advance_station,
}
use roo_wifi.Control.Diagram.{
  Progress, Step, view, scanning, IsLive, MayScan, Move, Walk, here, one, trans,
}
use roo_wifi.Control.Frames.{view-schedule_timeouts, view-restore_profile}
use roo_wifi.Control.Moves.{arrive, stay, path_if, path-launch, scan_of-launch, path-scan_refused}

needed : (a b : Bool) → (not a || b) ≡ false → a ≡ true
needed a b h = ground arith

module _ {r : Interface} {t : Store} where
  -- A live controller without a transition, which may start one.
  pub record IsFree (c : Controller r t) : Type 0 where
    pub is_live : IsLive (view c)
    pub no_transition : (view c).transition ≡ Transition.none
    pub room : (view c).next_id ≢ max_id

  launches :
      (k : Transition) (c : Controller r t)
      → k ≢ Transition.none
      → IsFree c
      → Walk Step.executes (view c) (view (launch k c))
  unfolding view
  launches k c h f =
      path-launch k c (record { real = h; live = f.is_live; free = f.no_transition; room = f.room })

  view-count_attempt : (c : Controller r t) → view (count_attempt c) ≡ view c
  unfolding view count_attempt
  view-count_attempt c = refl

  wanting : (b : Bool) (c : Controller r t) → Controller r t
  wanting b c = record c { transition_enabled = b }

  view-wanting : (b : Bool) (c : Controller r t) → view (wanting b c) ≡ view c
  unfolding view wanting
  view-wanting b c = refl

  attempted : (c : Controller r t) → Controller r t
  attempted c = changed Change.station (record c { attempted_revision = c.state.revision })

  view-attempted : (c : Controller r t) → view (attempted c) ≡ view c
  unfolding view attempted changed
  view-attempted c = ground arith

  IsFree-at : (c d : Controller r t) → view d ≡ view c → IsFree c → IsFree d
  IsFree-at c d e f = record {
    is_live = subst IsLive (sym e) f.is_live;
    no_transition = ap (λ (p : Progress). p.transition) e ∙ f.no_transition;
    room = λ h. f.room (sym (ap (λ (p : Progress). p.next_id) e) ∙ h);
  }

  path-pursue : (c : Controller r t) → IsFree c → Walk Step.executes (view c) (view (pursue c))
  unfolding pursue wanting attempted
  path-pursue c f =
      let wanted = not (is_disabled c.state.desired) in
      let enabling = wanting wanted c in
      let attempt = count_attempt c in
      path_if (not (is_idle c.state.link.phase)) _ _
        (λ _. launches Transition.disconnect c (λ e. cc) f)
        (λ _.
          path_if (not c.initialized || not (bool_eq c.state.enabled wanted)) _ _
            (λ _. trans (stay (view-wanting wanted c)) (
              launches Transition.enable enabling (λ e. cc)
                (IsFree-at c enabling (view-wanting wanted c) f)))
            (λ _.
              path_if (is_connected c.state.desired) _ _
                (λ _. trans (stay (view-count_attempt c)) (
                  launches Transition.connect attempt (λ e. cc)
                    (IsFree-at c attempt (view-count_attempt c) f)))
                (λ _. stay (view-attempted c))))

  scan_of-pursue : (c : Controller r t) → (view (pursue c)).scan ≡ (view c).scan
  unfolding pursue wanting attempted
  scan_of-pursue c =
      let scan = λ (p : Progress). p.scan in
      let wanted = not (is_disabled c.state.desired) in
      ground (
        arith,
        scan_of-launch Transition.disconnect c,
        scan_of-launch Transition.enable (wanting wanted c),
        scan_of-launch Transition.connect (count_attempt c),
        ap scan (view-wanting wanted c),
        ap scan (view-count_attempt c),
        ap scan (view-attempted c),
      )

  scan_begun : (c : Controller r t) → Controller r t
  scan_begun c = changed Change.scan (record c {
    scan_id = c.next_id;
    next_id = (c.next_id + 1) % 2 ^ 64;
    state = record c.state { scan = ScanPhase.running };
    scan_deadline = after c.clock c.options.scan_timeout_ms;
    radio = (r.start_scan c.radio c.next_id c.options.max_scan_results).1;
  })

  view-scan_begun : (c : Controller r t) → view (scan_begun c) ≡ scanning (view c)
  unfolding view scan_begun changed
  view-scan_begun c = ground arith

  scan_refusal : (c : Controller r t) → OperationResult
  scan_refusal c = record no_operation {
    id = c.next_id;
    kind = OperationKind.scan;
    status = (r.start_scan c.radio c.next_id c.options.max_scan_results).0;
  }

  path-launch_scan :
      (c : Controller r t)
      → IsFree c
      → (view c).scan ≡ ScanPhase.queued
      → Walk Step.executes (view c) (view (launch_scan c))
  unfolding launch_scan scan_begun scan_refusal
  path-launch_scan c f queued =
      let may : MayScan (view c) = record {
        live = f.is_live;
        free = f.no_transition;
        queued = queued;
        room = f.room;
      } in
      path_if (is_ok (r.start_scan c.radio c.next_id c.options.max_scan_results).0) (scan_begun c)
        (on_operation_finished (scan_refusal c) (scan_begun c))
        (λ _. arrive (one (Move.run_scan may)) (view-scan_begun c))
        (λ _. path-scan_refused (scan_refusal c) c (scan_begun c) refl may (view-scan_begun c))

  wants_scan : (c : Controller r t) → Bool
  wants_scan c = is_no_transition c.transition && is_scan_queued c.state.scan

  queued_of : (c : Controller r t) → wants_scan c ≡ true → (view c).scan ≡ ScanPhase.queued
  unfolding view wants_scan
  queued_of c h = ground arith

  idle_wants_none : (c : Controller r t) → (view c).scan ≡ ScanPhase.idle → wants_scan c ≡ false
  unfolding view wants_scan
  idle_wants_none c h = ground arith

  path-finish_work :
      (c : Controller r t) → IsFree c → Walk Step.executes (view c) (view (finish_work c))
  unfolding finish_work wants_scan
  path-finish_work c f =
      arrive
        (path_if (wants_scan c) (launch_scan c) c (λ h. path-launch_scan c f (queued_of c h))
          (λ _. here))
        (view-schedule_timeouts _)

  idle_finish_work :
      (c : Controller r t) → (view c).scan ≡ ScanPhase.idle → view (finish_work c) ≡ view c
  unfolding finish_work wants_scan
  idle_finish_work c h = view-schedule_timeouts _ ∙ ground (arith, idle_wants_none c h)

  renewed : (c : Controller r t) → Controller r t
  renewed c = record c { active_revision = c.state.revision; station_timed_out = false }

  view-renewed : (c : Controller r t) → view (renewed c) ≡ view c
  unfolding view renewed
  view-renewed c = refl

  view-awake : (c : Controller r t) → view (record c { work = true }) ≡ view c
  unfolding view
  view-awake c = refl

  pub path-advance_station :
      (c : Controller r t)
      → IsFree c
      → (needs_station c ≡ true → (view c).scan ≡ ScanPhase.idle)
      → Walk Step.executes (view c) (view (advance_station c))
  unfolding advance_station renewed
  path-advance_station c f clear =
      let ready = renewed c in
      let free = IsFree-at c ready (view-renewed c) f in
      path_if (not (needs_station c) || c.state.retry.pending) _ _ (λ _. path-finish_work c f)
        (λ h.
          path_if (restores c) _ _
            (λ _.
              stay
                (view-awake (restore_profile ready) ∙ view-restore_profile ready ∙ view-renewed c))
            (λ _. trans (stay (view-renewed c)) (
              arrive (path-pursue ready free) (
                idle_finish_work (pursue ready) (
                  scan_of-pursue ready
                  ∙ ap (λ (p : Progress). p.scan) (view-renewed c)
                  ∙ clear (needed (needs_station c) c.state.retry.pending h))))))
