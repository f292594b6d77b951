-- ===== src/Control/Runs.antt =====
-- Sequences of requests, events and tasks of the controller.
use roo_wifi.Base.{
  ◌+◌, ◌≡◌, refl, ◌∙◌, inl, inr, Bool, true, false, not, ◌&&◌, List, [], ◌∷◌, if◌then◌else◌, arith,
  Bool-cases,
}
use roo_wifi.Types.{
  Status, is_ok, is_not_found, Result, done, err, Ssid, CredentialUpdate, ProfileSettings,
}
use roo_wifi.Control.Interfaces.{Interface, Store}
use roo_wifi.Control.State.{ScanPhase, Change, Transition, is_disabled, is_connected, Controller}
use roo_wifi.Control.Retry.{changed}
use roo_wifi.Control.Same.{bool_eq}
use roo_wifi.Control.Requests.{
  admission, start, begin_radio, begin_store, begin, shutdown, set_enabled, connect,
  connect_profile, disconnect, scan_admission, start_scan, cancel_scan, save_profile,
  remove_profile, profiles_changed,
}
use roo_wifi.Control.Events.{on_operation_finished, on_enabled_changed, on_link_changed}
use roo_wifi.Control.Work.{execute, retry, check_timeouts}
use roo_wifi.Control.Diagram.{view, IsLive, IsOrderly, Step, Move, Walk, here, one, Walk-IsOrderly}
use roo_wifi.Control.Frames.{
  view-changed, view-new_intent, view-request_connection, view-connect_profile, view-retry,
  view_if_pair,
}
use roo_wifi.Control.Moves.{
  arrive, stay, path_if, path_if_pair, path-on_operation_finished, path-on_link_changed,
  path-on_enabled_changed, path-cancel_scan,
}
use roo_wifi.Control.Rounds.{path-execute, path-check_timeouts}

module _ {r : Interface} {t : Store} where
  unfoldable pub take_step : Step → Controller r t → Controller r t
  take_step Step.begins c = (begin c).1
  take_step Step.shuts_down c = shutdown c
  take_step (Step.enables enabled) c = (set_enabled enabled c).1
  take_step (Step.connects config secret) c = (connect config secret c).1
  take_step (Step.connects_profile ssid) c = (connect_profile ssid c).1
  take_step Step.disconnects c = (disconnect c).1
  take_step Step.scans c = (start_scan c).1
  take_step Step.cancels_scan c = (cancel_scan c).1
  take_step (Step.saves settings update) c = (save_profile settings update c).1
  take_step (Step.removes ssid) c = (remove_profile ssid c).1
  take_step (Step.finishes result) c = on_operation_finished result c
  take_step (Step.switches enabled) c = on_enabled_changed enabled c
  take_step (Step.links link) c = on_link_changed link c
  take_step Step.executes c = execute c
  take_step Step.retries c = retry c
  take_step Step.times_out c = check_timeouts c
  take_step (Step.waits n) c = record c { clock = c.clock + n }

  unfoldable pub take_steps : List Step → Controller r t → Controller r t
  take_steps [] c = c
  take_steps (s ∷ ss) c = take_steps ss (take_step s c)

  path-start :
      (enabled : Bool) (c : Controller r t)
      → (view c).running ≡ false
      → (view c).closed ≡ false
      → Walk Step.begins (view c) (view (start enabled c))
  unfolding start view
  path-start enabled c run open_ =
      arrive (one (Move.start run open_)) (view-new_intent _ ∙ view-changed Change.profiles _)

  path-begin_radio :
      (enabled : Bool) (c : Controller r t)
      → (view c).running ≡ false
      → (view c).closed ≡ false
      → Walk Step.begins (view c) (view (begin_radio enabled c).1)
  unfolding begin_radio view
  path-begin_radio enabled c run open_ =
      let d = record c { radio = (r.begin c.radio).1 } in
      path_if_pair (is_ok (r.begin c.radio).0) _ _ (λ _. path-start enabled d run open_) (λ _. here)

  -- begin, with the result of readEnabled.
  path-begin_with :
      (x : Result Bool) (c : Controller r t)
      → (view c).running ≡ false
      → (view c).closed ≡ false
      → Walk Step.begins (view c) (
          view
            (elim x as (λ _. Status × Controller r t) [
              | done enabled ↦ begin_radio enabled c
              | err s ↦ if is_not_found s then begin_radio false c else (s, c)
            ]).1)
  path-begin_with (done enabled) c run open_ = path-begin_radio enabled c run open_
  path-begin_with (err s) c run open_ =
      path_if_pair (is_not_found s) _ _ (λ _. path-begin_radio false c run open_) (λ _. here)

  path-begin : (c : Controller r t) → Walk Step.begins (view c) (view (begin c).1)
  unfolding begin begin_store view
  path-begin c =
      let d = record c { store = (t.begin c.store).1 } in
      path_if_pair c.closed _ _ (λ _. here)
        (λ open_.
          path_if_pair c.running _ _ (λ _. here)
            (λ run.
              path_if_pair (is_ok (t.begin c.store).0) _ _
                (λ _. path-begin_with (t.read_enabled d.store) d run open_) (λ _. here)))

  path-shutdown : (c : Controller r t) → Walk Step.shuts_down (view c) (view (shutdown c))
  unfolding shutdown view
  path-shutdown c = path_if c.closed _ _ (λ _. here) (λ open_. one (Move.close open_))

  view-set_enabled : (e : Bool) (c : Controller r t) → view (set_enabled e c).1 ≡ view c
  unfolding set_enabled view
  view-set_enabled e c = view_if_pair (not (is_ok (admission c))) _ _ refl (
      view_if_pair (bool_eq e (not (is_disabled c.state.desired)) && is_ok c.state.status) _ _ refl
        (view-new_intent _))

  view-disconnect : (c : Controller r t) → view (disconnect c).1 ≡ view c
  unfolding disconnect view
  view-disconnect c = view_if_pair (not (is_ok (admission c))) _ _ refl (
      view_if_pair (not (is_connected c.state.desired) && is_ok c.state.status) _ _ refl
        (view-new_intent _))

  view-save_profile :
      (s : ProfileSettings) (u : CredentialUpdate) (c : Controller r t)
      → view (save_profile s u c).1 ≡ view c
  unfolding view save_profile profiles_changed changed
  view-save_profile s u c = ground arith

  view-remove_profile : (s : Ssid) (c : Controller r t) → view (remove_profile s c).1 ≡ view c
  unfolding view remove_profile profiles_changed changed
  view-remove_profile s c = ground arith

  scan_ready :
      (c : Controller r t)
      → is_ok (scan_admission c) ≡ true
      → IsLive (view c) × ((view c).transition ≡ Transition.none) × ((view c).scan ≡ ScanPhase.idle)
  unfolding view scan_admission admission is_ok
  scan_ready c h = ground arith

  view-queued :
      (c : Controller r t)
      → is_ok (scan_admission c) ≡ true
      → view (start_scan c).1 ≡ record (view c) { scan = ScanPhase.queued }
  unfolding view start_scan changed
  view-queued c h = ground arith

  view-unqueued :
      (c : Controller r t) → is_ok (scan_admission c) ≡ false → view (start_scan c).1 ≡ view c
  unfolding view start_scan
  view-unqueued c h = ground arith

  path-start_scan : (c : Controller r t) → Walk Step.scans (view c) (view (start_scan c).1)
  path-start_scan c = elim (Bool-cases (is_ok (scan_admission c))) [
    | inl h ↦
        let (alive, free, idle) = scan_ready c h in
        arrive (one (Move.queue_scan alive free idle)) (view-queued c h)
    | inr h ↦ stay (view-unqueued c h)
  ]

  pub take_step_follows : (s : Step) (c : Controller r t) → Walk s (view c) (view (take_step s c))
  unfolding take_step connect
  take_step_follows Step.begins c = path-begin c
  take_step_follows Step.shuts_down c = path-shutdown c
  take_step_follows (Step.enables enabled) c = stay (view-set_enabled enabled c)
  take_step_follows (Step.connects config secret) c =
      stay (view-request_connection config secret _ _ c)
  take_step_follows (Step.connects_profile ssid) c = stay (view-connect_profile ssid c)
  take_step_follows Step.disconnects c = stay (view-disconnect c)
  take_step_follows Step.scans c = path-start_scan c
  take_step_follows Step.cancels_scan c = path-cancel_scan c
  take_step_follows (Step.saves settings update) c = stay (view-save_profile settings update c)
  take_step_follows (Step.removes ssid) c = stay (view-remove_profile ssid c)
  take_step_follows (Step.finishes result) c = path-on_operation_finished result c
  take_step_follows (Step.switches enabled) c = path-on_enabled_changed enabled c
  take_step_follows (Step.links link) c = path-on_link_changed link c
  take_step_follows Step.executes c = path-execute c
  take_step_follows Step.retries c = stay (view-retry c)
  take_step_follows Step.times_out c = path-check_timeouts c
  take_step_follows (Step.waits n) c = stay (unfold view in refl)

  -- Over any steps of an orderly controller, its ids stand for active operations, the transition and
  -- the scan have different ids, only a connection is being cancelled, and a controller that faulted
  -- or shut down has no operation.
  pub take_steps-IsOrderly :
      (ss : List Step) (c : Controller r t)
      → IsOrderly (view c)
      → IsOrderly (view (take_steps ss c))
  unfolding take_steps
  take_steps-IsOrderly [] c o = o
  take_steps-IsOrderly (s ∷ ss) c o =
      take_steps-IsOrderly ss (take_step s c) (Walk-IsOrderly (take_step_follows s c) o)
