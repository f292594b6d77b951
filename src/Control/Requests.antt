-- ===== src/Control/Requests.antt =====
-- The requests of class Controller and its lifecycle.
use roo_wifi.Base.{
  ℕ, ◌+◌, ◌-◌, ◌%◌, ◌^◌, Bool, true, false, not, ◌&&◌, ◌||◌, ltb, ◌==◌, if◌then◌else◌, pos,
}
use roo_wifi.Types.{
  Status, is_ok, is_not_found, Result, done, err, Ssid, empty_ssid, ssid_eq, ConnectionConfig,
  Credentials, no_credentials, CredentialUpdate, ProfileSettings, Profile, Support, is_idle,
  is_associated, is_address_ready,
}
use roo_wifi.Configuration.{validate, validate_support}
use roo_wifi.Control.Interfaces.{Interface, Store}
use roo_wifi.Control.State.{
  Deadline, after, no_retry, Target, is_disabled, is_connected, StationPhase, ScanPhase,
  is_scan_idle, is_scan_queued, is_scan_cancelling, State, initial_state, no_snapshot, Change,
  Transition, is_no_transition, is_enable, is_connect, is_disconnect, Controller,
}
use roo_wifi.Control.Same.{bool_eq, same_config, same_secret}
use roo_wifi.Control.Retry.{changed, cancel_retry, schedule_timeouts}

-- The largest OperationId.
abbrev pub max_id : ℕ
max_id = 2 ^ 64 - 1

-- `ssid.size == 0 || ssid.size > sizeof(ssid.bytes)`
abbrev pub is_bad_ssid : Ssid → Bool
is_bad_ssid ssid = ssid.size == 0 || ltb 32 ssid.size

module _ {r : Interface} {t : Store} where
  -- Controller::admission
  unfoldable pub admission : Controller r t → Status
  admission c =
      if not c.running || c.faulted
      then Status.not_started
      else if c.next_id == max_id
      then Status.busy
      else Status.ok

  -- Controller::support
  unfoldable pub support : Controller r t → Support
  support c = r.support c.radio

  -- Controller::state, the station's phase.
  unfoldable pub station_phase : Controller r t → StationPhase
  station_phase c =
      if c.faulted
      then StationPhase.faulted
      else if is_enable c.transition
      then (if c.transition_enabled then StationPhase.enabling else StationPhase.disabling)
      else if is_disconnect c.transition || c.cancelling_connect
      then StationPhase.disconnecting
      else if not c.state.enabled
      then StationPhase.disabled
      else if is_address_ready c.state.link.phase
      then StationPhase.connected
      else if is_associated c.state.link.phase
      then StationPhase.awaiting_ip
      else if is_connect c.transition
      then StationPhase.connecting
      else StationPhase.idle

  -- Controller::state
  unfoldable pub state : Controller r t → State
  state c = if not c.running then c.state else record c.state { station = station_phase c }

  -- Controller::newIntent
  unfoldable pub new_intent : Controller r t → Controller r t
  new_intent c =
      let c1 = cancel_retry (record c {
        state = record c.state {
          revision = (c.state.revision + 1) % 2 ^ 64;
          status = Status.ok;
          native_code = pos 0;
          has_native_code = false;
        };
      }) in
      let c2 = record c1 {
        state = record c1.state { retry = no_retry };
        retry_level = 0;
        stable_deadline = Deadline.never;
        address_deadline = Deadline.never;
      } in
      record (changed Change.station c2) { work = true }

  -- Controller::begin, once it runs.
  unfoldable pub start : Bool → Controller r t → Controller r t
  start enabled c = new_intent (
      changed Change.profiles (record c {
        running = true;
        state = record c.state {
          desired = if enabled then Target.disconnected else Target.disabled;
        };
        restore_profile = enabled;
      }))

  -- Controller::begin, with the setting that readEnabled gave.
  unfoldable pub begin_radio : Bool → Controller r t → Status × Controller r t
  begin_radio enabled c =
      let (status, radio) = r.begin c.radio in
      let c' = record c { radio = radio } in
      if is_ok status then (Status.ok, start enabled c') else (status, c')

  -- Controller::begin, with the opened store.
  unfoldable pub begin_store : Controller r t → Status × Controller r t
  begin_store c = elim (t.read_enabled c.store) [
    | done enabled ↦ begin_radio enabled c
    | err s ↦ if is_not_found s then begin_radio false c else (s, c)
  ]

  -- Controller::begin
  unfoldable pub begin : Controller r t → Status × Controller r t
  begin c =
      let (status, store) = t.begin c.store in
      let c' = record c { store = store } in
      if c.closed
      then (Status.not_started, c)
      else if c.running
      then (Status.busy, c)
      else if is_ok status
      then begin_store c'
      else (status, c')

  -- Controller::shutdown
  unfoldable pub shutdown : Controller r t → Controller r t
  shutdown c = if c.closed then c else record c {
    radio = if c.running then r.shutdown c.radio else c.radio;
    closed = true;
    work = false;
    timer = Deadline.never;
    reconnect = Deadline.never;
    notify = false;
    pending_changes = 0;
    running = false;
    credentials = no_credentials;
    snapshot = no_snapshot;
    state = initial_state;
    station_id = 0;
    scan_id = 0;
    transition = Transition.none;
  }

  -- Controller::setEnabled
  unfoldable pub set_enabled : Bool → Controller r t → Status × Controller r t
  set_enabled enabled c =
      let c' = record c {
        state = record c.state {
          desired = if enabled then Target.disconnected else Target.disabled;
          desired_profile = empty_ssid;
        };
        credentials = no_credentials;
        auto_connect = false;
        restore_profile = enabled;
      } in
      if not (is_ok (admission c))
      then (admission c, c)
      else if bool_eq enabled (not (is_disabled c.state.desired)) && is_ok c.state.status
      then (Status.ok, c)
      else (Status.ok, new_intent c')

  -- The test of requestConnection for the intent that it has already.
  unfoldable pub same_intent : ConnectionConfig → Credentials → Ssid → Controller r t → Bool
  same_intent config secret profile c =
      is_connected c.state.desired
      && (is_ok c.state.status
          && (ssid_eq c.state.desired_profile profile
              && (same_config c.config config && same_secret c.credentials secret)))

  -- requestConnection, after its tests.
  unfoldable pub accept_connection :
      ConnectionConfig → Credentials → Ssid → Bool → Controller r t → Controller r t
  accept_connection config secret profile automatic c =
      if same_intent config secret profile c
      then record c { auto_connect = automatic }
      else new_intent (record c {
        config = config;
        credentials = secret;
        state = record c.state { desired = Target.connected; desired_profile = profile };
        auto_connect = automatic;
        restore_profile = false;
      })

  -- The tests of requestConnection.
  unfoldable pub connection_admission : ConnectionConfig → Credentials → Controller r t → Status
  connection_admission config secret c =
      if not (is_ok (admission c))
      then admission c
      else if is_disabled c.state.desired
      then Status.disabled
      else if not (is_ok (validate config secret))
      then validate config secret
      else validate_support config (support c)

  -- Controller::requestConnection
  unfoldable pub request_connection :
      ConnectionConfig → Credentials → Ssid → Bool → Controller r t → Status × Controller r t
  request_connection config secret profile automatic c =
      let status = connection_admission config secret c in
      if is_ok status
      then (Status.ok, accept_connection config secret profile automatic c)
      else (status, c)

  -- Controller::connect(config, credentials)
  unfoldable pub connect : ConnectionConfig → Credentials → Controller r t → Status × Controller r t
  connect config secret c = request_connection config secret empty_ssid false c

  -- Controller::loadProfile
  unfoldable pub load_profile : Ssid → Controller r t → Result Profile
  load_profile ssid c =
      if not c.running
      then err Status.not_started
      else if is_bad_ssid ssid
      then err Status.invalid_argument
      else t.load_profile c.store ssid

  -- Controller::connect(ssid)
  unfoldable pub connect_profile : Ssid → Controller r t → Status × Controller r t
  connect_profile ssid c = elim (load_profile ssid c) [
    | err s ↦ (s, c)
    | done profile ↦ elim (t.load_credentials c.store ssid) [
      | err s ↦ (s, c)
      | done secret ↦
          request_connection profile.settings.connection secret ssid profile.settings.auto_connect c
    ]
  ]

  -- Controller::disconnect
  unfoldable pub disconnect : Controller r t → Status × Controller r t
  disconnect c =
      let c1 = record c { restore_profile = false; auto_connect = false } in
      let c2 = record c1 {
        state = record c1.state {
          desired = if is_disabled c.state.desired then Target.disabled else Target.disconnected;
          desired_profile = empty_ssid;
        };
        credentials = no_credentials;
      } in
      if not (is_ok (admission c))
      then (admission c, c)
      else if not (is_connected c.state.desired) && is_ok c.state.status
      then (Status.ok, c1)
      else (Status.ok, new_intent c2)

  -- The tests of startScan.
  unfoldable pub scan_admission : Controller r t → Status
  scan_admission c =
      if not (is_ok (admission c))
      then admission c
      else if is_disabled c.state.desired || not c.state.enabled
      then Status.disabled
      else if not (is_scan_idle c.state.scan)
          || (not (is_no_transition c.transition)
              || (not (c.attempted_revision == c.state.revision)
                  || (not (is_idle c.state.link.phase) && not (support c).scan_while_connected)))
      then Status.busy
      else Status.ok

  -- Controller::startScan
  unfoldable pub start_scan : Controller r t → Status × Controller r t
  start_scan c =
      let c' = record c {
        state = record c.state {
          scan = ScanPhase.queued;
          scan_status = Status.ok;
          scan_revision = (c.state.scan_revision + 1) % 2 ^ 64;
        };
        scan_timed_out = false;
      } in
      if is_ok (scan_admission c)
      then (Status.ok, record (changed Change.scan c') { work = true })
      else (scan_admission c, c)

  -- The end of cancelScan.
  unfoldable pub rescheduled : Controller r t → Controller r t
  rescheduled c = schedule_timeouts (record (changed Change.scan c) { work = true })

  -- Controller::cancelScan
  unfoldable pub cancel_scan : Controller r t → Status × Controller r t
  cancel_scan c =
      let (status, radio) = r.cancel_scan c.radio in
      let queued = record c {
        state = record c.state { scan = ScanPhase.idle; scan_status = Status.cancelled };
      } in
      let active = record c {
        radio = radio;
        state = record c.state { scan = ScanPhase.cancelling };
        scan_deadline = after c.clock c.options.transition_timeout_ms;
      } in
      if not c.running
      then (Status.not_started, c)
      else if is_scan_idle c.state.scan || is_scan_cancelling c.state.scan
      then (Status.ok, c)
      else if is_scan_queued c.state.scan
      then (Status.ok, rescheduled queued)
      else if is_ok status
      then (Status.ok, rescheduled active)
      else (status, record c { radio = radio })

  -- The end of saveProfile and of removeProfile.
  unfoldable pub profiles_changed : Status × t.Data → Controller r t → Status × Controller r t
  profiles_changed (status, store) c = (
    status,
    changed Change.profiles (record c {
      store = store;
      state = record c.state { profiles_generation = (c.state.profiles_generation + 1) % 2 ^ 64 };
    }),
  )

  -- Controller::saveProfile
  unfoldable pub save_profile :
      ProfileSettings → CredentialUpdate → Controller r t → Status × Controller r t
  save_profile settings update c =
      if not c.running
      then (Status.not_started, c)
      else if is_bad_ssid settings.connection.ssid
      then (Status.invalid_argument, c)
      else profiles_changed (t.save_profile c.store settings update) c

  -- Controller::removeProfile
  unfoldable pub remove_profile : Ssid → Controller r t → Status × Controller r t
  remove_profile ssid c =
      if not c.running
      then (Status.not_started, c)
      else if is_bad_ssid ssid
      then (Status.invalid_argument, c)
      else profiles_changed (t.remove_profile c.store ssid) c
