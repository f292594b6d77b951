-- ===== src/Ordered/Machine.antt =====
-- The scheduler side of OrderedInterface: drain, and what it calls.
use roo_wifi.Base.{
  ℕ, zero, suc, ◌+◌, Bool, true, false, not, ◌&&◌, ◌||◌, ◌∷◌, ◌==◌, if◌then◌else◌, take, bytes_eq,
  ℤ, pos, nonzero,
}
use roo_wifi.Types.{
  Status, is_ok, Ssid, no_credentials, OperationKind, kind_eq, ConnectionFailure, no_operation,
  LinkPhase, is_idle, is_connecting, is_associated, is_address_ready, LinkState, idle_link,
}
use roo_wifi.Ordered.Events.{EventKind, Event}
use roo_wifi.Ordered.Station.{NativeStation, Adapter, Output, emit}
use roo_wifi.Ordered.Queue.{front, advance}

-- The size test and the memcmp of an event's SSID with the link's.
unfoldable pub same_ssid : Ssid → Ssid → Bool
same_ssid theirs ours =
    theirs.size == ours.size && bytes_eq (take ours.size theirs.bytes) (take ours.size ours.bytes)

-- The radio data that a disconnect event brings.
unfoldable pub keep_radio_info : LinkState → LinkState → LinkState
keep_radio_info theirs ours =
    if theirs.has_radio_info
    then record ours {
      bssid = theirs.bssid;
      channel = theirs.channel;
      rssi_dbm = theirs.rssi_dbm;
      has_radio_info = true;
    }
    else ours

-- The link with the addresses of an event.
abbrev pub addressed : LinkState → LinkState → LinkState
addressed theirs ours = record ours {
  address = theirs.address;
  gateway = theirs.gateway;
  dns1 = theirs.dns1;
  dns2 = theirs.dns2;
  has_ipv4 = theirs.has_ipv4;
  has_dns1 = theirs.has_dns1;
  has_dns2 = theirs.has_dns2;
}

-- The link after a disconnect event.
unfoldable pub disconnected_link : Event → LinkState → LinkState
disconnected_link event link =
    record (keep_radio_info event.link (record link {
      phase = LinkPhase.idle;
      has_ipv4 = false;
      reason = if is_ok event.status then Status.connection_failed else event.status;
      failure = event.link.failure;
    })) { native_code = event.native_code; has_native_code = nonzero event.native_code }

module _ {n : NativeStation} where
  -- OrderedInterface::finishStation
  unfoldable pub finish_station : Status → ℤ → ConnectionFailure → Adapter n → Adapter n
  finish_station error code failure s = if s.station.id == 0 then s else record s {
    station = no_operation;
    cancelling = false;
    waiting_disconnect = false;
    credentials = no_credentials;
    outputs =
        Output.finished (record s.station {
          status = if s.cancelling then Status.cancelled else error;
          failure = if s.cancelling then ConnectionFailure.none else failure;
          native_code = code;
          has_native_code = nonzero code;
        })
        ∷ s.outputs;
  }

  -- OrderedInterface::finishScan
  unfoldable pub finish_scan : Status → ℤ → Adapter n → Adapter n
  finish_scan error code s = if s.scan.id == 0 then s else record s {
    scan = no_operation;
    scan_cancelling = false;
    outputs =
        Output.finished (record s.scan {
          status = if s.scan_cancelling then Status.cancelled else error;
          native_code = code;
          has_native_code = nonzero code;
        })
        ∷ s.outputs;
  }

  -- `link_ = link; sink_->onLinkChanged(link_)`
  abbrev pub publish : LinkState → Adapter n → Adapter n
  publish link s = emit (Output.link_changed link) (record s { link = link })

  -- The failure of a native command of a connection.
  unfoldable pub command_failed : Status → Adapter n → Adapter n
  command_failed status s =
      finish_station status (pos 0) ConnectionFailure.none
        (publish (record s.link { phase = LinkPhase.idle; reason = status }) s)

  -- The link that startConnection publishes.
  abbrev pub starting_link : Adapter n → LinkState
  starting_link s = record idle_link {
    connection_id = s.station.id;
    ssid = s.config.ssid;
    security = s.config.security;
    phase = LinkPhase.connecting;
  }

  -- OrderedInterface::startConnection
  unfoldable pub start_connection : Adapter n → Adapter n
  start_connection s =
      let (status, native) = n.connect s.native s.config s.credentials in
      let s' = record (publish (starting_link s) s) {
        native = native;
        credentials = no_credentials;
      } in
      if is_ok status then s' else command_failed status s'

  -- The start of process for kEnabled and kDisabled: the radio and the link.
  unfoldable pub set_radio : Bool → Adapter n → Adapter n
  set_radio on s =
      let s' = emit (Output.enabled_changed on) (record s { enabled = on }) in
      if not on && not (is_idle s.link.phase)
      then publish (record s.link { phase = LinkPhase.idle; has_ipv4 = false }) s'
      else s'

  -- process, for kEnabled and kDisabled.
  unfoldable pub process_enabled : Bool → Event → Adapter n → Adapter n
  process_enabled on event s =
      let s' = set_radio on s in
      if not (s'.station.id == 0)
        && (kind_eq s'.station.kind OperationKind.enable
            && ((on && s'.desired_enabled) || (not on && not s'.desired_enabled)))
      then finish_station event.status event.native_code ConnectionFailure.none s'
      else s'

  -- process, for kPrepared.
  unfoldable pub process_prepared : Adapter n → Adapter n
  process_prepared s =
      let (status, native) = n.continue_connect s.native in
      let s' = record s { native = native } in
      if not (s.station.id == 0)
        && (kind_eq s.station.kind OperationKind.connect
            && (not s.waiting_disconnect && not s.cancelling))
      then (if is_ok status then s' else command_failed status s')
      else s

  -- process, for kAssociated.
  unfoldable pub process_associated : Event → Adapter n → Adapter n
  process_associated event s =
      if not (is_connecting s.link.phase) || not (same_ssid event.link.ssid s.link.ssid)
      then s
      else publish
          (record event.link { connection_id = s.link.connection_id; phase = LinkPhase.associated })
          s

  -- process, for kAddressReady.
  unfoldable pub process_address : Event → Adapter n → Adapter n
  process_address event s =
      let link = addressed event.link s.link in
      let s' = publish (record link { phase = LinkPhase.address_ready }) s in
      if not (event.link.ssid.size == 0)
        && (not (same_ssid event.link.ssid s.link.ssid)
            || not (bytes_eq (take 6 event.link.bssid.octets) (take 6 s.link.bssid.octets)))
      then s
      else if (not (is_associated s.link.phase) && not (is_address_ready s.link.phase))
          || (s.waiting_disconnect || s.cancelling)
      then s
      else if not event.link.has_ipv4
      then record s { link = link }
      else if kind_eq s.station.kind OperationKind.connect && s.station.id == s.link.connection_id
      then finish_station Status.ok (pos 0) ConnectionFailure.none s'
      else s'

  -- process, for kAddressLost.
  unfoldable pub process_lost : Adapter n → Adapter n
  process_lost s =
      if is_address_ready s.link.phase
      then publish (record s.link { phase = LinkPhase.associated; has_ipv4 = false }) s
      else s

  -- process, for kDisconnected.
  unfoldable pub process_disconnected : Event → Adapter n → Adapter n
  process_disconnected event s =
      let link = disconnected_link event s.link in
      let s' = publish link s in
      if not (event.link.ssid.size == 0) && not (same_ssid event.link.ssid s.link.ssid)
      then s
      else if s.station.id == 0
      then s'
      else if s.waiting_disconnect
          && (kind_eq s.station.kind OperationKind.connect && not s.cancelling)
      then record s' { waiting_disconnect = false }
      else if kind_eq s.station.kind OperationKind.enable
      then s'
      else finish_station
          (if kind_eq s.station.kind OperationKind.disconnect then Status.ok else link.reason)
          event.native_code event.link.failure s'

  -- The switch of OrderedInterface::process.
  unfoldable pub dispatch : EventKind → Event → Adapter n → Adapter n
  dispatch EventKind.enabled event s = process_enabled true event s
  dispatch EventKind.disabled event s = process_enabled false event s
  dispatch EventKind.prepared event s = process_prepared s
  dispatch EventKind.scan_done event s = finish_scan event.status event.native_code s
  dispatch EventKind.associated event s = process_associated event s
  dispatch EventKind.address_ready event s = process_address event s
  dispatch EventKind.address_lost event s = process_lost s
  dispatch EventKind.disconnected event s = process_disconnected event s

  -- OrderedInterface::process
  unfoldable pub process : Event → Adapter n → Adapter n
  process event s = if s.faulted then s else dispatch event.kind event s

  -- The overflow branch of drain.
  unfoldable pub fault : Adapter n → Adapter n
  fault s = finish_scan Status.connection_failed (pos 0) (
      finish_station Status.connection_failed (pos 0) ConnectionFailure.none
        (record s { count = 0; faulted = true }))

  -- What drain does once the queue is empty.
  unfoldable pub resume_connection : Adapter n → Adapter n
  resume_connection s =
      if not (s.station.id == 0)
        && (kind_eq s.station.kind OperationKind.connect
            && (not s.waiting_disconnect && is_idle s.link.phase))
      then (if s.cancelling
          then finish_station Status.cancelled (pos 0) ConnectionFailure.none s
          else start_connection s)
      else s

  -- The loop of drain. Each turn takes one event off.
  unfoldable pub drain_loop : ℕ → Adapter n → Adapter n
  drain_loop zero s = s
  drain_loop (suc fuel) s =
      let rest = drain_loop fuel (process (front s) (advance s)) in
      if s.overflow then fault s else if s.count == 0 then resume_connection s else rest

  -- OrderedInterface::drain
  unfoldable pub drain : Adapter n → Adapter n
  drain s =
      let s' = record s { scheduled = false } in
      if not s.has_sink then s' else drain_loop (s.count + 1) s'
