-- ===== src/Control/Faults.antt =====
-- A faulted controller.
use roo_wifi.Base.{◌≡◌, ◌≢◌, refl, ◌⊎◌, Bool, true, arith}
use roo_wifi.Types.{
  Status, is_ok, Result, done, err, Ssid, ConnectionConfig, Credentials, CredentialUpdate,
  ProfileSettings, Profile, OperationResult, LinkState,
}
use roo_wifi.Control.Interfaces.{Interface, Store}
use roo_wifi.Control.State.{ScanPhase, Controller}
use roo_wifi.Control.Retry.{changed, cancel_retry, schedule_timeouts}
use roo_wifi.Control.Requests.{
  admission, begin, set_enabled, connection_admission, request_connection, connect, connect_profile,
  load_profile, disconnect, scan_admission, start_scan, cancel_scan, rescheduled, save_profile,
  remove_profile, profiles_changed,
}
use roo_wifi.Control.Events.{on_operation_finished, on_enabled_changed, on_link_changed}
use roo_wifi.Control.Work.{execute, retry, check_timeouts}
use roo_wifi.Control.Diagram.{Step}
use roo_wifi.Control.Runs.{take_step}

module _ {r : Interface} {t : Store} where
  -- The controller runs and is faulted, and no native scan is active.
  pub record IsHalted (c : Controller r t) : Type 0 where
    pub runs : c.running ≡ true
    pub failed : c.faulted ≡ true
    pub scan : (c.state.scan ≡ ScanPhase.idle) ⊎ (c.state.scan ≡ ScanPhase.queued)

  -- The same radio, still faulted.
  record KeepsRadio (d c : Controller r t) : Type 0 where
    same_radio : d.radio ≡ c.radio
    still : IsHalted d

  silent_here : (c : Controller r t) → IsHalted c → KeepsRadio c c
  silent_here c f = record { same_radio = refl; still = f }

  silent_request :
      (g : ConnectionConfig) (s : Credentials) (p : Ssid) (a : Bool) (c : Controller r t)
      → IsHalted c
      → KeepsRadio (request_connection g s p a c).1 c
  unfolding request_connection connection_admission admission is_ok
  silent_request g s p a c f = ground arith

  silent_loaded :
      (p : Ssid) (f : Profile) (c : Controller r t) (x : Result Credentials)
      → IsHalted c
      → KeepsRadio
          (elim x as (λ _. Status × Controller r t) [
            | err s ↦ (s, c)
            | done secret ↦
                request_connection f.settings.connection secret p f.settings.auto_connect c
          ]).1
          c
  silent_loaded p f c (err s) h = silent_here c h
  silent_loaded p f c (done secret) h =
      silent_request f.settings.connection secret p f.settings.auto_connect c h

  silent_connect_profile :
      (p : Ssid) (c : Controller r t) → IsHalted c → KeepsRadio (connect_profile p c).1 c
  unfolding connect_profile
  silent_connect_profile p c h =
      elim (load_profile p c)
        as (λ x.
          KeepsRadio
            (elim x as (λ _. Status × Controller r t) [
              | err s ↦ (s, c)
              | done f ↦ elim (t.load_credentials c.store p) as (λ _. Status × Controller r t) [
                | err s ↦ (s, c)
                | done secret ↦
                    request_connection f.settings.connection secret p f.settings.auto_connect c
              ]
            ]).1
            c) [
              | err s ↦ silent_here c h
              | done f ↦ silent_loaded p f c (t.load_credentials c.store p) h
            ]

  silent_begin : (c : Controller r t) → IsHalted c → KeepsRadio (begin c).1 c
  unfolding begin
  silent_begin c f = ground arith

  silent_set_enabled :
      (e : Bool) (c : Controller r t) → IsHalted c → KeepsRadio (set_enabled e c).1 c
  unfolding set_enabled admission is_ok
  silent_set_enabled e c f = ground arith

  silent_disconnect : (c : Controller r t) → IsHalted c → KeepsRadio (disconnect c).1 c
  unfolding disconnect admission is_ok
  silent_disconnect c f = ground arith

  silent_start_scan : (c : Controller r t) → IsHalted c → KeepsRadio (start_scan c).1 c
  unfolding start_scan scan_admission admission is_ok
  silent_start_scan c f = ground arith

  silent_cancel_scan : (c : Controller r t) → IsHalted c → KeepsRadio (cancel_scan c).1 c
  unfolding cancel_scan rescheduled schedule_timeouts changed
  silent_cancel_scan c f = ground arith

  silent_save_profile :
      (s : ProfileSettings) (u : CredentialUpdate) (c : Controller r t)
      → IsHalted c
      → KeepsRadio (save_profile s u c).1 c
  unfolding save_profile profiles_changed changed
  silent_save_profile s u c f = ground arith

  silent_remove_profile :
      (s : Ssid) (c : Controller r t) → IsHalted c → KeepsRadio (remove_profile s c).1 c
  unfolding remove_profile profiles_changed changed
  silent_remove_profile s c f = ground arith

  silent_finished :
      (o : OperationResult) (c : Controller r t)
      → IsHalted c
      → KeepsRadio (on_operation_finished o c) c
  unfolding on_operation_finished
  silent_finished o c f = ground arith

  silent_switched :
      (e : Bool) (c : Controller r t) → IsHalted c → KeepsRadio (on_enabled_changed e c) c
  unfolding on_enabled_changed
  silent_switched e c f = ground arith

  silent_linked :
      (l : LinkState) (c : Controller r t) → IsHalted c → KeepsRadio (on_link_changed l c) c
  unfolding on_link_changed
  silent_linked l c f = ground arith

  silent_execute : (c : Controller r t) → IsHalted c → KeepsRadio (execute c) c
  unfolding execute
  silent_execute c f = ground arith

  silent_retry : (c : Controller r t) → IsHalted c → KeepsRadio (retry c) c
  unfolding retry cancel_retry
  silent_retry c f = ground arith

  silent_check_timeouts : (c : Controller r t) → IsHalted c → KeepsRadio (check_timeouts c) c
  unfolding check_timeouts
  silent_check_timeouts c f = ground arith

  step-KeepsRadio :
      (s : Step) (c : Controller r t)
      → IsHalted c
      → s ≢ Step.shuts_down
      → KeepsRadio (take_step s c) c
  unfolding take_step connect
  step-KeepsRadio Step.begins c f other = silent_begin c f
  step-KeepsRadio Step.shuts_down c f other = absurd (other refl)
  step-KeepsRadio (Step.enables enabled) c f other = silent_set_enabled enabled c f
  step-KeepsRadio (Step.connects config secret) c f other = silent_request config secret _ _ c f
  step-KeepsRadio (Step.connects_profile ssid) c f other = silent_connect_profile ssid c f
  step-KeepsRadio Step.disconnects c f other = silent_disconnect c f
  step-KeepsRadio Step.scans c f other = silent_start_scan c f
  step-KeepsRadio Step.cancels_scan c f other = silent_cancel_scan c f
  step-KeepsRadio (Step.saves settings update) c f other = silent_save_profile settings update c f
  step-KeepsRadio (Step.removes ssid) c f other = silent_remove_profile ssid c f
  step-KeepsRadio (Step.finishes result) c f other = silent_finished result c f
  step-KeepsRadio (Step.switches enabled) c f other = silent_switched enabled c f
  step-KeepsRadio (Step.links link) c f other = silent_linked link c f
  step-KeepsRadio Step.executes c f other = silent_execute c f
  step-KeepsRadio Step.retries c f other = silent_retry c f
  step-KeepsRadio Step.times_out c f other = silent_check_timeouts c f
  step-KeepsRadio (Step.waits n) c f other = record {
    same_radio = refl;
    still = record { runs = f.runs; failed = f.failed; scan = f.scan };
  }

  -- A faulted controller stays faulted and does not call the radio any more, whatever it is asked and
  -- whatever it hears, until shutdown.
  pub take_step_silent :
      (s : Step) (c : Controller r t)
      → IsHalted c
      → s ≢ Step.shuts_down
      → ((take_step s c).radio ≡ c.radio) × IsHalted (take_step s c)
  take_step_silent s c f other =
      let silent = step-KeepsRadio s c f other in (silent.same_radio, silent.still)
