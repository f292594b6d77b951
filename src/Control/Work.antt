-- ===== src/Control/Work.antt =====
-- The tasks of class Controller: execute, retry and checkTimeouts.
use roo_wifi.Base.{◌+◌, ◌-◌, ◌%◌, ◌^◌, Bool, true, false, not, ◌&&◌, ◌||◌, ◌==◌, if◌then◌else◌, pos}
use roo_wifi.Types.{
  Status, is_ok, is_not_found, Result, done, err, Ssid, Profile, OperationKind, no_operation,
  ConnectionFailure, is_idle, is_associated,
}
use roo_wifi.Control.Interfaces.{Interface, Store}
use roo_wifi.Control.State.{
  Deadline, after, is_past, no_retry, is_disabled, is_connected, ScanPhase, is_scan_idle,
  is_scan_queued, is_scan_cancelling, Change, Transition, is_no_transition, is_connect, Controller,
}
use roo_wifi.Control.Retry.{changed, cancel_retry, schedule_timeouts, connection_failed, fault}
use roo_wifi.Control.Same.{bool_eq}
use roo_wifi.Control.Requests.{max_id, load_profile, connect_profile, cancel_scan}
use roo_wifi.Control.Events.{expected_kind, on_operation_finished}

module _ {r : Interface} {t : Store} where
  -- The failure of restoreProfile.
  unfoldable pub restore_failed : Status → Controller r t → Controller r t
  restore_failed status c =
      if is_ok status
      then c
      else changed Change.station (record c { state = record c.state { status = status } })

  -- restoreProfile, with the result of loadProfile.
  unfoldable pub restore_loaded : Ssid → Result Profile → Controller r t → Controller r t
  restore_loaded ssid (err s) c = restore_failed s c
  restore_loaded ssid (done profile) c =
      let (status, c') = connect_profile ssid c in
      if profile.settings.auto_connect then restore_failed status c' else c

  -- restoreProfile, with the result of readLastProfile.
  unfoldable pub restore_last : Result Ssid → Controller r t → Controller r t
  restore_last (err s) c = if is_not_found s then c else restore_failed s c
  restore_last (done ssid) c =
      if ssid.size == 0 then c else restore_loaded ssid (load_profile ssid c) c

  -- Controller::restoreProfile
  unfoldable pub restore_profile : Controller r t → Controller r t
  restore_profile c =
      restore_last (t.read_last_profile c.store) (record c { restore_profile = false })

  -- Controller::retry, with the result of loadProfile.
  unfoldable pub retry_profile : Status → Bool → Controller r t → Controller r t
  retry_profile status automatic c =
      if not (is_ok status) || not automatic
      then changed Change.station (record c {
        auto_connect = false;
        state = record c.state { status = if is_ok status then c.state.status else status };
      })
      else record (changed Change.station (record c {
        attempted_revision = 0;
        state = record c.state { status = Status.ok; native_code = pos 0; has_native_code = false };
      })) { work = true }

  -- Controller::retry, with the profile.
  unfoldable pub retry_loaded : Result Profile → Controller r t → Controller r t
  retry_loaded (err s) c = retry_profile s false c
  retry_loaded (done profile) c = retry_profile Status.ok profile.settings.auto_connect c

  -- Controller::retry
  unfoldable pub retry : Controller r t → Controller r t
  retry c =
      let c' = cancel_retry c in
      if not c.running || (c.faulted || (not (is_connected c.state.desired) || not c.auto_connect))
      then c'
      else retry_loaded (load_profile c.state.desired_profile c') c'

  -- The native command of a transition.
  unfoldable pub command : Transition → Controller r t → Status × r.Radio
  command Transition.enable c = r.set_enabled c.radio c.station_id c.transition_enabled
  command Transition.connect c = r.connect c.radio c.station_id c.config c.credentials
  command _ c = r.disconnect c.radio c.station_id

  -- execute, a transition with a new id.
  unfoldable pub assign : Transition → Controller r t → Controller r t
  assign transition c = record c {
    transition = transition;
    station_id = c.next_id;
    next_id = (c.next_id + 1) % 2 ^ 64;
    station_deadline = after c.clock (
        if is_connect transition
        then c.options.connect_timeout_ms
        else c.options.transition_timeout_ms);
  }

  -- execute, the command and its refusal.
  unfoldable pub launch : Transition → Controller r t → Controller r t
  launch transition c =
      let c1 = assign transition c in
      let (status, radio) = command transition c1 in
      let c2 = changed Change.station (record c1 { radio = radio }) in
      if is_ok status
      then c2
      else on_operation_finished
          (record no_operation { id = c.next_id; kind = expected_kind transition; status = status })
          c2

  -- `++state_.retry.attempt_count`, which saturates.
  unfoldable pub count_attempt : Controller r t → Controller r t
  count_attempt c = record c {
    state = record c.state {
      retry = record c.state.retry {
        attempt_count =
            if c.state.retry.attempt_count == 2 ^ 32 - 1
            then c.state.retry.attempt_count
            else c.state.retry.attempt_count + 1;
      };
    };
  }

  -- execute, the choice of the next transition; `launch` follows it at once.
  unfoldable pub pursue : Controller r t → Controller r t
  pursue c =
      let wanted = not (is_disabled c.state.desired) in
      if not (is_idle c.state.link.phase)
      then launch Transition.disconnect c
      else if not c.initialized || not (bool_eq c.state.enabled wanted)
      then launch Transition.enable (record c { transition_enabled = wanted })
      else if is_connected c.state.desired
      then launch Transition.connect (count_attempt c)
      else changed Change.station (record c { attempted_revision = c.state.revision })

  -- execute, whether it restores the last profile.
  unfoldable pub restores : Controller r t → Bool
  restores c =
      is_idle c.state.link.phase
      && (c.initialized
          && (bool_eq c.state.enabled (not (is_disabled c.state.desired)) && c.restore_profile))

  -- execute, a queued scan.
  unfoldable pub launch_scan : Controller r t → Controller r t
  launch_scan c =
      let c1 = record c {
        scan_id = c.next_id;
        next_id = (c.next_id + 1) % 2 ^ 64;
        state = record c.state { scan = ScanPhase.running };
        scan_deadline = after c.clock c.options.scan_timeout_ms;
      } in
      let (status, radio) = r.start_scan c.radio c.next_id c.options.max_scan_results in
      let c2 = changed Change.scan (record c1 { radio = radio }) in
      if is_ok status
      then c2
      else on_operation_finished
          (record no_operation { id = c.next_id; kind = OperationKind.scan; status = status }) c2

  -- The end of execute.
  unfoldable pub finish_work : Controller r t → Controller r t
  finish_work c =
      schedule_timeouts
        (if is_no_transition c.transition && is_scan_queued c.state.scan then launch_scan c else c)

  -- `needs_station`
  unfoldable pub needs_station : Controller r t → Bool
  needs_station c = not c.initialized || not (c.attempted_revision == c.state.revision)

  -- execute, without a transition and without a scan that is in the way.
  unfoldable pub advance_station : Controller r t → Controller r t
  advance_station c =
      let c' = record c { active_revision = c.state.revision; station_timed_out = false } in
      if not (needs_station c) || c.state.retry.pending
      then finish_work c
      else if restores c
      then record (restore_profile c') { work = true }
      else finish_work (pursue c')

  -- execute, the scan that an intent cancels.
  unfoldable pub clear_scan : Controller r t → Controller r t
  clear_scan c =
      let (status, c') = cancel_scan c in
      if needs_station c && not (is_scan_idle c.state.scan)
      then (if is_ok status then c' else fault status c')
      else c

  -- execute, without a transition.
  unfoldable pub reconcile : Controller r t → Controller r t
  reconcile c =
      let c' = clear_scan c in
      if needs_station c && (not (is_scan_idle c'.state.scan) || c'.faulted)
      then c'
      else advance_station c'

  -- The cancellation of a connection by execute and checkTimeouts.
  unfoldable pub stop_connection : Controller r t → Controller r t
  stop_connection c = changed Change.station (record c {
    cancelling_connect = true;
    station_deadline = after c.clock c.options.transition_timeout_ms;
  })

  -- execute, the connection of a superseded intent.
  unfoldable pub supersede : Controller r t → Controller r t
  supersede c =
      let (status, radio) = r.cancel_connect c.radio in
      let c' = record c { radio = radio } in
      if is_connect c.transition
        && (not (c.active_revision == c.state.revision) && not c.cancelling_connect)
      then (if is_ok status then stop_connection c' else fault status c')
      else c

  -- execute, past its tests.
  unfoldable pub execute_active : Controller r t → Controller r t
  execute_active c =
      let c' = supersede c in
      if c'.faulted
      then c'
      else if is_no_transition c'.transition
      then reconcile c'
      else schedule_timeouts c'

  -- Controller::execute
  unfoldable pub execute : Controller r t → Controller r t
  execute c =
      let c' = record c { work = false } in
      if not c.running || c.faulted
      then c'
      else if c.next_id == max_id
      then fault Status.busy c'
      else execute_active c'

  -- checkTimeouts, the deadlines of a connected link.
  unfoldable pub check_stable : Controller r t → Controller r t
  check_stable c =
      if is_past c.clock c.stable_deadline
      then changed Change.station (record c {
        stable_deadline = Deadline.never;
        state = record c.state { retry = no_retry };
        retry_level = 0;
      })
      else c

  unfoldable pub check_address : Controller r t → Controller r t
  check_address c =
      if is_past c.clock c.address_deadline
      then changed Change.station (
          connection_failed Status.timeout ConnectionFailure.address_timeout (pos 0) false
            (record c { address_deadline = Deadline.never }))
      else c

  -- checkTimeouts, the deadline of the transition.
  unfoldable pub check_station : Controller r t → Controller r t
  check_station c =
      let (status, radio) = r.cancel_connect c.radio in
      let c' = record c {
        radio = radio;
        station_timed_out = true;
        timeout_failure =
            if is_associated c.state.link.phase
            then ConnectionFailure.address_timeout
            else ConnectionFailure.connection_timeout;
      } in
      if c.station_id == 0 || not (is_past c.clock c.station_deadline)
      then c
      else if not (is_connect c.transition) || c.cancelling_connect
      then fault Status.timeout c
      else if is_ok status
      then stop_connection c'
      else fault Status.timeout c'

  -- checkTimeouts, the deadline of the scan.
  unfoldable pub check_scan : Controller r t → Controller r t
  check_scan c =
      let (status, c') = cancel_scan (record c { scan_timed_out = true }) in
      if c.scan_id == 0 || not (is_past c.clock c.scan_deadline)
      then c
      else if is_scan_cancelling c.state.scan
      then fault Status.timeout c
      else if is_ok status
      then c'
      else fault Status.timeout c'

  -- checkTimeouts, past its tests.
  unfoldable pub check_deadlines : Controller r t → Controller r t
  check_deadlines c =
      let c1 = check_station (check_address (check_stable c)) in
      let c2 = check_scan c1 in
      if c1.faulted then c1 else if c2.faulted then c2 else schedule_timeouts c2

  -- Controller::checkTimeouts
  unfoldable pub check_timeouts : Controller r t → Controller r t
  check_timeouts c =
      let c' = record c { timer = Deadline.never } in
      if not c.running || c.faulted then c' else check_deadlines c'
