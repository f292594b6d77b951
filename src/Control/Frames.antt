-- ===== src/Control/Frames.antt =====
-- What the helpers of the controller leave of the diagram's state.
use roo_wifi.Base.{◌≡◌, refl, ◌∙◌, Bool, true, false, if◌then◌else◌, arith, ℤ}
use roo_wifi.Types.{
  Status, Result, done, err, Profile, is_address_ready, is_idle, Ssid, ConnectionConfig,
  Credentials, OperationResult, ConnectionFailure, LinkPhase, LinkState,
}
use roo_wifi.Control.Interfaces.{Interface, Store}
use roo_wifi.Control.State.{Change, Transition, Controller}
use roo_wifi.Control.Retry.{
  changed, cancel_retry, schedule_timeouts, record_failure, schedule_retry, connection_failed,
  end_scan, fault,
}
use roo_wifi.Control.Requests.{
  new_intent, accept_connection, request_connection, connect_profile, load_profile,
}
use roo_wifi.Control.Events.{
  settle_enable, settle_connect, publish_outcome, settle, continued, finish_transition, finish_scan,
  recover_address, link_ready, link_unready, link_lost, observe_link, follow_link,
}
use roo_wifi.Control.Work.{
  restore_failed, restore_loaded, restore_last, restore_profile, retry_profile, retry_loaded, retry,
  check_stable, check_address,
}
use roo_wifi.Control.Diagram.{Progress, view, retired, scanned, failed}

module _ {r : Interface} {t : Store} where
  pub view-changed : (h : Change) (c : Controller r t) → view (changed h c) ≡ view c
  unfolding view changed
  view-changed h c = ground arith

  pub view-cancel_retry : (c : Controller r t) → view (cancel_retry c) ≡ view c
  unfolding view cancel_retry
  view-cancel_retry c = refl

  pub view-schedule_timeouts : (c : Controller r t) → view (schedule_timeouts c) ≡ view c
  unfolding view schedule_timeouts
  view-schedule_timeouts c = refl

  pub view-connection_failed :
      (s : Status) (f : ConnectionFailure) (n : ℤ) (b : Bool) (c : Controller r t)
      → view (connection_failed s f n b c) ≡ view c
  unfolding view connection_failed record_failure schedule_retry
  view-connection_failed s f n b c = ground arith

  pub view-new_intent : (c : Controller r t) → view (new_intent c) ≡ view c
  unfolding view new_intent changed cancel_retry
  view-new_intent c = ground arith

  pub view-fault : (s : Status) (c : Controller r t) → view (fault s c) ≡ failed (view c)
  unfolding view fault end_scan changed cancel_retry
  view-fault s c = ground arith

  view-settle_enable :
      (k : Transition) (s : Status) (c : Controller r t) → view (settle_enable k s c).1 ≡ view c
  unfolding view settle_enable
  view-settle_enable k s c = ground arith

  view-settle_connect :
      (k : Transition) (s : Status) (c : Controller r t) → view (settle_connect k s c).1 ≡ view c
  unfolding view settle_connect
  view-settle_connect k s c = ground arith

  view-publish_outcome :
      (k : Transition) (s : Status) (o : OperationResult) (c : Controller r t)
      → view (publish_outcome k s o c) ≡ view c
  unfolding view publish_outcome connection_failed record_failure schedule_retry
  view-publish_outcome k s o c = ground arith

  view-settle :
      (k : Transition) (o : OperationResult) (c : Controller r t) → view (settle k o c) ≡ view c
  unfolding settle
  view-settle k o c =
      let s = if c.station_timed_out then Status.timeout else o.status in
      let r1 = settle_enable k s c in
      let r2 = settle_connect k r1.0 r1.1 in
      ground (
        arith,
        view-settle_enable k s c,
        view-settle_connect k r1.0 r1.1,
        view-publish_outcome k r2.0 o r2.1,
      )

  view_if :
      {p : Progress} (b : Bool) (x y : Controller r t)
      → view x ≡ p
      → view y ≡ p
      → view (if b then x else y) ≡ p
  view_if true x y h k = h
  view_if false x y h k = k

  pub view_if_pair :
      {p : Progress} (b : Bool) (x y : Status × Controller r t)
      → view x.1 ≡ p
      → view y.1 ≡ p
      → view (if b then x else y).1 ≡ p
  view_if_pair true x y h k = h
  view_if_pair false x y h k = k

  view-continued : (c : Controller r t) → view (continued c) ≡ view c
  unfolding view schedule_timeouts
  view-continued c = refl

  pub view-finish_transition :
      (o : OperationResult) (c : Controller r t) → view (finish_transition o c) ≡ retired (view c)
  unfolding finish_transition
  view-finish_transition o c =
      view-continued _ ∙ view-changed _ _ ∙ view-settle _ _ _ ∙ (unfold view in refl)

  pub view-finish_scan :
      (o : OperationResult) (c : Controller r t) → view (finish_scan o c) ≡ scanned (view c)
  unfolding finish_scan
  view-finish_scan o c = view-continued _ ∙ view-changed _ _ ∙ (unfold view in refl)

  view-recover_address : (l : LinkPhase) (c : Controller r t) → view (recover_address l c) ≡ view c
  unfolding view recover_address cancel_retry
  view-recover_address l c = ground arith

  view-link_ready : (l : LinkPhase) (c : Controller r t) → view (link_ready l c) ≡ view c
  unfolding view link_ready
  view-link_ready l c = view-recover_address _ _ ∙ refl

  view-link_unready : (l m : LinkPhase) (c : Controller r t) → view (link_unready l m c) ≡ view c
  unfolding link_unready view
  view-link_unready l m c = refl

  view-link_lost :
      (m : LinkPhase) (l : LinkState) (c : Controller r t) → view (link_lost m l c) ≡ view c
  unfolding view link_lost
  view-link_lost m l c = view_if _ _ _ (view-connection_failed _ _ _ _ _ ∙ refl) refl

  view-observe_link :
      (m : LinkPhase) (l : LinkState) (c : Controller r t) → view (observe_link m l c) ≡ view c
  unfolding view observe_link
  view-observe_link m l c =
      let c' = record c { state = record c.state { link = l } } in
      view_if (is_address_ready l.phase) (link_ready m c') (link_unready m l.phase c')
        (view-link_ready m c') (view-link_unready m l.phase c')

  lost_or_not :
      (m : LinkPhase) (l : LinkState) (c : Controller r t)
      → view (if is_idle l.phase then link_lost m l c else c) ≡ view c
  lost_or_not m l c = view_if (is_idle l.phase) (link_lost m l c) c (view-link_lost m l c) refl

  pub view-follow_link : (l : LinkState) (c : Controller r t) → view (follow_link l c) ≡ view c
  unfolding follow_link
  view-follow_link l c =
      let c1 = observe_link c.state.link.phase l c in
      let c2 = if is_idle l.phase then link_lost c.state.link.phase l c1 else c1 in
      view-schedule_timeouts (changed Change.station c2)
      ∙ view-changed Change.station c2
      ∙ lost_or_not c.state.link.phase l c1
      ∙ view-observe_link c.state.link.phase l c

  pub view-check_stable : (c : Controller r t) → view (check_stable c) ≡ view c
  unfolding view check_stable
  view-check_stable c = view_if _ _ _ (view-changed _ _ ∙ refl) refl

  pub view-check_address : (c : Controller r t) → view (check_address c) ≡ view c
  unfolding view check_address
  view-check_address c =
      view_if _ _ _ (view-changed _ _ ∙ view-connection_failed _ _ _ _ _ ∙ refl) refl

  view-accept_connection :
      (g : ConnectionConfig) (s : Credentials) (p : Ssid) (a : Bool) (c : Controller r t)
      → view (accept_connection g s p a c) ≡ view c
  unfolding view accept_connection
  view-accept_connection g s p a c = view_if _ _ _ refl (view-new_intent _ ∙ refl)

  pub view-request_connection :
      (g : ConnectionConfig) (s : Credentials) (p : Ssid) (a : Bool) (c : Controller r t)
      → view (request_connection g s p a c).1 ≡ view c
  unfolding view request_connection
  view-request_connection g s p a c = ground (arith, view-accept_connection g s p a c)

  with_secret :
      (p : Ssid) (f : Profile) (c : Controller r t) (x : Result Credentials)
      → view
          (elim x as (λ _. Status × Controller r t) [
            | err s ↦ (s, c)
            | done secret ↦
                request_connection f.settings.connection secret p f.settings.auto_connect c
          ]).1
        ≡ view c
  with_secret p f c (err s) = refl
  with_secret p f c (done secret) =
      view-request_connection f.settings.connection secret p f.settings.auto_connect c

  pub view-connect_profile : (p : Ssid) (c : Controller r t) → view (connect_profile p c).1 ≡ view c
  unfolding connect_profile
  view-connect_profile p c =
      elim (load_profile p c)
        as (λ x.
          view
            (elim x as (λ _. Status × Controller r t) [
              | err s ↦ (s, c)
              | done f ↦ elim (t.load_credentials c.store p) as (λ _. Status × Controller r t) [
                | err s ↦ (s, c)
                | done secret ↦
                    request_connection f.settings.connection secret p f.settings.auto_connect c
              ]
            ]).1
          ≡ view c) [ err s ↦ refl | done f ↦ with_secret p f c (t.load_credentials c.store p) ]

  view-restore_failed : (s : Status) (c : Controller r t) → view (restore_failed s c) ≡ view c
  unfolding view restore_failed
  view-restore_failed s c = view_if _ _ _ refl (view-changed _ _ ∙ refl)

  view-restore_loaded :
      (p : Ssid) (f : Result Profile) (c : Controller r t) → view (restore_loaded p f c) ≡ view c
  unfolding view restore_loaded
  view-restore_loaded p (err s) c = view-restore_failed s c
  view-restore_loaded p (done f) c =
      view_if f.settings.auto_connect _ _ (view-restore_failed _ _ ∙ view-connect_profile p c) refl

  view-restore_last : (p : Result Ssid) (c : Controller r t) → view (restore_last p c) ≡ view c
  unfolding view restore_last
  view-restore_last (err s) c = view_if _ _ _ refl (view-restore_failed s c)
  view-restore_last (done p) c = view_if _ _ _ refl (view-restore_loaded p _ c)

  pub view-restore_profile : (c : Controller r t) → view (restore_profile c) ≡ view c
  unfolding view restore_profile
  view-restore_profile c = view-restore_last _ _

  view-retry_profile :
      (s : Status) (a : Bool) (c : Controller r t) → view (retry_profile s a c) ≡ view c
  unfolding view retry_profile changed
  view-retry_profile s a c = ground arith

  view-retry_loaded : (f : Result Profile) (c : Controller r t) → view (retry_loaded f c) ≡ view c
  unfolding view retry_loaded
  view-retry_loaded (err s) c = view-retry_profile _ _ c
  view-retry_loaded (done f) c = view-retry_profile _ _ c

  pub view-retry : (c : Controller r t) → view (retry c) ≡ view c
  unfolding view retry
  view-retry c = view_if _ _ _ (view-cancel_retry c) (view-retry_loaded _ _ ∙ view-cancel_retry c)
