-- ===== src/Control/Events.antt =====
-- The sink of class Controller: onOperationFinished, onEnabledChanged and onLinkChanged.
use roo_wifi.Base.{◌+◌, ◌%◌, ◌^◌, Bool, true, false, not, ◌&&◌, ◌||◌, ltb, ◌==◌, if◌then◌else◌, pos}
use roo_wifi.Types.{
  Status, is_ok, done, err, empty_ssid, OperationKind, kind_eq, OperationResult, ConnectionFailure,
  LinkPhase, LinkState, is_idle, is_associated, is_address_ready,
}
use roo_wifi.Control.Interfaces.{Interface, Store}
use roo_wifi.Control.State.{
  Deadline, after, is_connected, ScanPhase, is_scan_cancelling, ScanSnapshot, Change, Transition,
  is_no_transition, is_enable, is_connect, Controller,
}
use roo_wifi.Control.Retry.{changed, cancel_retry, schedule_timeouts, connection_failed}

abbrev pub is_cancelled : Status → Bool
is_cancelled Status.cancelled = true
is_cancelled _ = false

abbrev pub is_address_timeout : ConnectionFailure → Bool
is_address_timeout ConnectionFailure.address_timeout = true
is_address_timeout _ = false

-- `expected` of onOperationFinished.
abbrev pub expected_kind : Transition → OperationKind
expected_kind Transition.enable = OperationKind.enable
expected_kind Transition.connect = OperationKind.connect
expected_kind _ = OperationKind.disconnect

module _ {r : Interface} {t : Store} where
  -- onOperationFinished, the status of a scan.
  unfoldable pub scan_outcome : Status → Controller r t → Status
  scan_outcome status c =
      if c.scan_timed_out
      then Status.timeout
      else if is_scan_cancelling c.state.scan
      then Status.cancelled
      else status

  -- onOperationFinished, the results of a scan.
  unfoldable pub read_results : Controller r t → Status × ScanSnapshot
  read_results c = elim (r.read_scan_results c.radio c.options.max_scan_results) [
    | err s ↦ (s, c.snapshot)
    | done read ↦
        if ltb c.options.max_scan_results read.count then (Status.corrupt, c.snapshot) else (
          Status.ok,
          record {
            generation = (c.snapshot.generation + 1) % 2 ^ 64;
            records = read.records;
            count = read.count;
            truncated = read.truncated;
          },
        )
  ]

  -- The end of each branch: `work_.scheduleNow(); scheduleTimeouts();`
  abbrev pub continued : Controller r t → Controller r t
  continued c = schedule_timeouts (record c { work = true })

  -- onOperationFinished, for the scan.
  unfoldable pub finish_scan : OperationResult → Controller r t → Controller r t
  finish_scan result c =
      let status = scan_outcome result.status c in
      let (read_status, snapshot) = if is_ok status then read_results c else (status, c.snapshot) in
      continued (
        changed Change.scan (record c {
          snapshot = snapshot;
          scan_id = 0;
          state = record c.state { scan = ScanPhase.idle; scan_status = read_status };
        }))

  -- onOperationFinished, the setting that an enablement stores.
  unfoldable pub settle_enable : Transition → Status → Controller r t → Status × Controller r t
  settle_enable completed status c =
      let (written, store) = t.write_enabled c.store c.state.enabled in
      if is_enable completed && is_ok status
      then (written, record c { initialized = true; store = store })
      else (status, c)

  -- onOperationFinished, the profile that a connection stores.
  unfoldable pub settle_connect : Transition → Status → Controller r t → Status × Controller r t
  settle_connect completed status c =
      let c' = record c {
        state = record c.state { connected_profile = c.state.desired_profile };
      } in
      let (written, store) = t.write_last_profile c.store c.state.desired_profile in
      if is_connect completed && is_ok status
      then (if c.state.desired_profile.size == 0
          then (status, c')
          else (written, record c' { store = store }))
      else (status, c)

  -- onOperationFinished, the outcome of an intent that was not superseded.
  unfoldable pub publish_outcome :
      Transition → Status → OperationResult → Controller r t → Controller r t
  publish_outcome completed status result c =
      let c1 = record c {
        state = record c.state {
          status = status;
          native_code = result.native_code;
          has_native_code = result.has_native_code;
        };
        attempted_revision =
            if is_connect completed || not (is_ok status)
            then c.state.revision
            else c.attempted_revision;
      } in
      if is_connect completed && (not (is_ok status) && not (is_cancelled status))
      then connection_failed status
          (if c.station_timed_out then c.timeout_failure else result.failure) result.native_code
          result.has_native_code c1
      else c1

  -- onOperationFinished, after the transition is retired.
  unfoldable pub settle : Transition → OperationResult → Controller r t → Controller r t
  settle completed result c =
      let (s1, c1) =
        settle_enable completed (if c.station_timed_out then Status.timeout else result.status) c in
      let (s2, c2) = settle_connect completed s1 c1 in
      if c.active_revision == c.state.revision then publish_outcome completed s2 result c2 else c1

  -- onOperationFinished, for the transition.
  unfoldable pub finish_transition : OperationResult → Controller r t → Controller r t
  finish_transition result c = continued (
      changed Change.station (
        settle c.transition result
          (record c { station_id = 0; transition = Transition.none; cancelling_connect = false })))

  -- Controller::onOperationFinished
  unfoldable pub on_operation_finished : OperationResult → Controller r t → Controller r t
  on_operation_finished result c =
      if not c.running || (c.faulted || result.id == 0)
      then c
      else if result.id == c.scan_id && kind_eq result.kind OperationKind.scan
      then finish_scan result c
      else if not (result.id == c.station_id)
          || not (kind_eq result.kind (expected_kind c.transition))
      then c
      else finish_transition result c

  -- Controller::onEnabledChanged
  unfoldable pub on_enabled_changed : Bool → Controller r t → Controller r t
  on_enabled_changed enabled c =
      if not c.running || c.faulted
      then c
      else changed Change.station (record c { state = record c.state { enabled = enabled } })

  -- onLinkChanged, the recovery of an address while waiting to retry.
  unfoldable pub recover_address : LinkPhase → Controller r t → Controller r t
  recover_address previous c =
      let c1 = cancel_retry c in
      if is_no_transition c.transition
        && (c.state.retry.pending
            || (not (is_address_ready previous) && is_address_timeout c.state.retry.failure))
      then record c1 {
        attempted_revision = c.state.revision;
        state = record c1.state {
          status = Status.ok;
          has_native_code = false;
          native_code = pos 0;
        };
      }
      else c

  -- onLinkChanged, for a link with an address.
  unfoldable pub link_ready : LinkPhase → Controller r t → Controller r t
  link_ready previous c = recover_address previous (record c {
    address_deadline = Deadline.never;
    stable_deadline =
        if is_address_ready previous
        then c.stable_deadline
        else after c.clock c.options.retry.stable_connection_ms;
  })

  -- onLinkChanged, for a link without an address.
  unfoldable pub link_unready : LinkPhase → LinkPhase → Controller r t → Controller r t
  link_unready previous phase c = record c {
    stable_deadline = Deadline.never;
    address_deadline =
        if is_address_ready previous && (is_associated phase && is_no_transition c.transition)
        then after c.clock c.options.connect_timeout_ms
        else c.address_deadline;
  }

  -- onLinkChanged, for a link that is lost.
  unfoldable pub link_lost : LinkPhase → LinkState → Controller r t → Controller r t
  link_lost previous link c =
      let c1 = record c {
        address_deadline = Deadline.never;
        state = record c.state { connected_profile = empty_ssid };
      } in
      if is_no_transition c.transition && (not (is_idle previous) && is_connected c.state.desired)
      then connection_failed (if is_ok link.reason then Status.connection_failed else link.reason)
          link.failure link.native_code link.has_native_code c1
      else c1

  -- onLinkChanged, the link and its deadlines.
  unfoldable pub observe_link : LinkPhase → LinkState → Controller r t → Controller r t
  observe_link previous link c =
      let c' = record c { state = record c.state { link = link } } in
      if is_address_ready link.phase
      then link_ready previous c'
      else link_unready previous link.phase c'

  -- onLinkChanged, for a link that it accepts.
  unfoldable pub follow_link : LinkState → Controller r t → Controller r t
  follow_link link c =
      let c1 = observe_link c.state.link.phase link c in
      let c2 = if is_idle link.phase then link_lost c.state.link.phase link c1 else c1 in
      schedule_timeouts (changed Change.station c2)

  -- Controller::onLinkChanged
  unfoldable pub on_link_changed : LinkState → Controller r t → Controller r t
  on_link_changed link c =
      if not c.running || c.faulted
      then c
      else if not (link.connection_id == c.state.link.connection_id)
          && not (is_connect c.transition && link.connection_id == c.station_id)
      then c
      else follow_link link c
