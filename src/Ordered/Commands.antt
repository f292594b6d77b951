-- ===== src/Ordered/Commands.antt =====
-- The commands of OrderedInterface.
use roo_wifi.Base.{ℕ, Bool, true, false, not, ◌&&◌, ◌||◌, List, ◌==◌, if◌then◌else◌, pos}
use roo_wifi.Types.{
  Status, is_ok, is_not_found, Result, ScanRecord, Support, ConnectionConfig, Credentials,
  no_credentials, OperationKind, kind_eq, OperationResult, no_operation, LinkState, is_idle,
  idle_link,
}
use roo_wifi.Configuration.{validate, validate_support}
use roo_wifi.Ordered.Events.{EventKind, Event}
use roo_wifi.Ordered.Station.{NativeStation, Adapter}
use roo_wifi.Ordered.Queue.{post}

-- `{id, kind}`
abbrev pub operation : ℕ → OperationKind → OperationResult
operation id kind = record no_operation { id = id; kind = kind }

-- `{NativeStation::Event::kDisconnected, link}`
abbrev pub disconnected_event : LinkState → Event
disconnected_event link = record {
  kind = EventKind.disconnected;
  link = link;
  status = Status.ok;
  native_code = pos 0;
}

module _ {n : NativeStation} where
  -- OrderedInterface::begin
  unfoldable pub begin : Adapter n → Status × Adapter n
  begin s =
      let (status, native) = n.attach s.native in
      let s' = record s {
        native = native;
        scheduled = false;
        has_sink = true;
        faulted = false;
        overflow = false;
        head = 0;
        count = 0;
      } in
      if s.attached
      then (Status.busy, s)
      else if is_ok status
      then (Status.ok, record s' { attached = true })
      else (status, record s' { has_sink = false })

  -- OrderedInterface::support
  unfoldable pub support : Adapter n → Support
  support s = n.support s.native

  -- OrderedInterface::stationAdmission
  unfoldable pub station_admission : ℕ → Adapter n → Status
  station_admission id s =
      if not s.has_sink || s.faulted
      then Status.not_started
      else if id == 0
      then Status.invalid_argument
      else if not (s.station.id == 0) || not (s.scan.id == 0)
      then Status.busy
      else Status.ok

  -- OrderedInterface::setEnabled
  unfoldable pub set_enabled : ℕ → Bool → Adapter n → Status × Adapter n
  set_enabled id on s =
      let (status, native) = n.enable s.native on in
      let s' = record s {
        native = native;
        station = if is_ok status then operation id OperationKind.enable else no_operation;
        desired_enabled = on;
      } in
      if is_ok (station_admission id s) then (status, s') else (station_admission id s, s)

  -- OrderedInterface::startScan
  unfoldable pub start_scan : ℕ → ℕ → Adapter n → Status × Adapter n
  start_scan id capacity s =
      let (status, native) = n.scan s.native capacity in
      let s' = record s {
        native = native;
        scan = if is_ok status then operation id OperationKind.scan else no_operation;
      } in
      if not (is_ok (station_admission id s))
      then (station_admission id s, s)
      else if not s.enabled
      then (Status.disabled, s)
      else if not (is_idle s.link.phase) && not (support s).scan_while_connected
      then (Status.busy, s)
      else (status, s')

  -- connect, after its tests: the wait for the old link, or the deferred start.
  unfoldable pub admit_connect : ℕ → ConnectionConfig → Credentials → Adapter n → Status × Adapter n
  admit_connect id config secret s =
      let s1 = record s {
        station = operation id OperationKind.connect;
        config = config;
        credentials = secret;
      } in
      let (status, native) = n.disconnect s.native in
      let s2 = record s1 { native = native; waiting_disconnect = true } in
      if is_idle s.link.phase
      then (Status.ok, record s1 { scheduled = true })
      else if is_not_found status
      then (Status.ok, post (disconnected_event s.link) s2)
      else if is_ok status
      then (Status.ok, s2)
      else (
        status,
        record s2 {
          station = no_operation;
          waiting_disconnect = false;
          credentials = no_credentials;
        },
      )

  -- OrderedInterface::connect
  unfoldable pub connect : ℕ → ConnectionConfig → Credentials → Adapter n → Status × Adapter n
  connect id config secret s =
      let admission = station_admission id s in
      let valid = validate config secret in
      let supported = validate_support config (support s) in
      if not (is_ok admission)
      then (admission, s)
      else if not s.enabled
      then (Status.disabled, s)
      else if not (is_ok valid)
      then (valid, s)
      else if not (is_ok supported)
      then (supported, s)
      else admit_connect id config secret s

  -- disconnect, after its test.
  unfoldable pub admit_disconnect : ℕ → Adapter n → Status × Adapter n
  admit_disconnect id s =
      let s1 = record s {
        station = operation id OperationKind.disconnect;
        waiting_disconnect = true;
      } in
      let (status, native) = n.disconnect s.native in
      let s2 = record s1 { native = native } in
      if is_idle s.link.phase
      then (Status.ok, post (disconnected_event s.link) s1)
      else if is_not_found status
      then (Status.ok, post (disconnected_event s.link) s2)
      else if is_ok status
      then (Status.ok, s2)
      else (status, record s2 { station = no_operation; waiting_disconnect = false })

  -- OrderedInterface::disconnect
  unfoldable pub disconnect : ℕ → Adapter n → Status × Adapter n
  disconnect id s =
      if is_ok (station_admission id s) then admit_disconnect id s else (station_admission id s, s)

  -- OrderedInterface::cancelScan
  unfoldable pub cancel_scan : Adapter n → Status × Adapter n
  cancel_scan s =
      let (status, native) = n.stop_scan s.native in
      if s.scan.id == 0 || s.scan_cancelling
      then (Status.ok, s)
      else if is_ok status
      then (Status.ok, record s { native = native; scan_cancelling = true })
      else (status, record s { native = native })

  -- OrderedInterface::cancelConnect
  unfoldable pub cancel_connect : Adapter n → Status × Adapter n
  cancel_connect s =
      let (status, native) = n.disconnect s.native in
      let s1 = record s { native = native } in
      let s2 = if is_not_found status then post (disconnected_event s.link) s1 else s1 in
      if s.station.id == 0 || not (kind_eq s.station.kind OperationKind.connect)
      then (Status.not_found, s)
      else if s.cancelling
      then (Status.ok, s)
      else if s.waiting_disconnect || is_idle s.link.phase
      then (Status.ok, record s { cancelling = true; scheduled = true })
      else if is_not_found status || is_ok status
      then (Status.ok, record s2 { waiting_disconnect = true; cancelling = true; scheduled = true })
      else (status, s1)

  -- OrderedInterface::readScanResults
  unfoldable pub read_scan_results : ℕ → Adapter n → Result (List ScanRecord × Bool)
  read_scan_results capacity s = n.read_scan s.native capacity

  -- OrderedInterface::shutdown
  unfoldable pub shutdown : Adapter n → Adapter n
  shutdown s = record s {
    native = if s.attached then n.detach s.native else s.native;
    attached = false;
    scheduled = false;
    has_sink = false;
    station = no_operation;
    scan = no_operation;
    credentials = no_credentials;
    link = idle_link;
    count = 0;
  }
