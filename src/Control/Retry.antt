-- ===== src/Control/Retry.antt =====
-- Notification, timers and the retry policy of the controller.
use roo_wifi.Base.{
  ℕ, ◌+◌, ◌-◌, ◌*◌, ◌/◌, ◌%◌, ◌^◌, min, max, Bool, true, false, not, ◌&&◌, ◌||◌, ltb, leb, ◌==◌,
  if◌then◌else◌, get_or, bit_or, bit_xor, ℤ,
}
use roo_wifi.Types.{Status, ConnectionFailure, no_credentials}
use roo_wifi.Control.Interfaces.{Interface, Store}
use roo_wifi.Control.State.{
  Deadline, after, is_before, earlier, RetryOptions, is_connected, ScanPhase, is_scan_idle, Change,
  change_code, Transition, Controller,
}

abbrev pub is_none : ConnectionFailure → Bool
is_none ConnectionFailure.none = true
is_none _ = false

abbrev pub is_authentication : ConnectionFailure → Bool
is_authentication ConnectionFailure.authentication = true
is_authentication _ = false

abbrev pub is_incompatible : ConnectionFailure → Bool
is_incompatible ConnectionFailure.incompatible_security = true
is_incompatible _ = false

-- `status == kConnectionFailed || status == kTimeout`
abbrev pub is_retryable : Status → Bool
is_retryable Status.connection_failed = true
is_retryable Status.timeout = true
is_retryable _ = false

-- The three shifts on jitter_state_, a uint32_t.
unfoldable pub next_jitter : ℕ → ℕ
next_jitter j0 =
    let j1 = bit_xor j0 (j0 * 2 ^ 13 % 2 ^ 32) in
    let j2 = bit_xor j1 (j1 / 2 ^ 17) in bit_xor j2 (j2 * 2 ^ 5 % 2 ^ 32)

-- The entry of delays_ms that retryDelay takes.
unfoldable pub delay_level : ConnectionFailure → ℕ → ℕ
delay_level failure level =
    if is_incompatible failure || (is_authentication failure && leb 2 level) then 5 else level

-- `base` and `spread` of retryDelay.
unfoldable pub base_delay : RetryOptions → ConnectionFailure → ℕ → ℕ
base_delay o failure level = max 1 (get_or o.delays_ms (delay_level failure level) 0)

unfoldable pub delay_spread : RetryOptions → ℕ → ℕ
delay_spread o base = base * min 50 o.jitter_percent / 100

-- The delay of retryDelay, for the jitter drawn.
unfoldable pub retry_delay : RetryOptions → ConnectionFailure → ℕ → ℕ → ℕ
retry_delay o failure level jitter =
    let base = base_delay o failure level in
    let spread = delay_spread o base in
    min (2 ^ 32 - 1) (max 1 (base - spread + jitter % (2 * spread + 1)))

module _ {r : Interface} {t : Store} where
  -- Controller::changed
  unfoldable pub changed : Change → Controller r t → Controller r t
  changed change c =
      if c.running
      then record c {
        pending_changes = bit_or c.pending_changes (change_code change);
        notify = true;
      }
      else c

  -- Controller::cancelRetry
  unfoldable pub cancel_retry : Controller r t → Controller r t
  cancel_retry c = record c {
    reconnect = Deadline.never;
    state = record c.state {
      retry = record c.state.retry { pending = false; next_attempt = Deadline.never };
    };
  }

  -- Controller::scheduleTimeouts
  unfoldable pub schedule_timeouts : Controller r t → Controller r t
  schedule_timeouts c =
      let d0 = earlier c.stable_deadline c.address_deadline in
      let d1 =
        if not (c.station_id == 0) && is_before c.station_deadline d0
        then c.station_deadline
        else d0 in
      record c {
        timer =
            if not (c.scan_id == 0) && is_before c.scan_deadline d1 then c.scan_deadline else d1;
      }

  -- The diagnostics that connectionFailed retains.
  unfoldable pub record_failure :
      Status → ConnectionFailure → ℤ → Bool → Controller r t → Controller r t
  record_failure status failure code has_code c = record c {
    state = record c.state {
      status = status;
      native_code = code;
      has_native_code = has_code;
      retry = record c.state.retry {
        last_status = status;
        failure = if is_none failure then ConnectionFailure.transient else failure;
        native_code = code;
        has_native_code = has_code;
        bssid = c.state.link.bssid;
        channel = c.state.link.channel;
        rssi_dbm = c.state.link.rssi_dbm;
        has_radio_info = c.state.link.has_radio_info;
      };
    };
    stable_deadline = Deadline.never;
    address_deadline = Deadline.never;
  }

  -- The retry that connectionFailed schedules.
  unfoldable pub schedule_retry : Controller r t → Controller r t
  schedule_retry c =
      let jitter = next_jitter c.jitter_state in
      let next =
        after c.clock (retry_delay c.options.retry c.state.retry.failure c.retry_level jitter) in
      record c {
        state = record c.state {
          retry = record c.state.retry { pending = true; next_attempt = next };
        };
        jitter_state = jitter;
        retry_level = if ltb c.retry_level 5 then c.retry_level + 1 else c.retry_level;
        reconnect = next;
      }

  -- Controller::connectionFailed
  unfoldable pub connection_failed :
      Status → ConnectionFailure → ℤ → Bool → Controller r t → Controller r t
  connection_failed status failure code has_code c =
      let c' = record_failure status failure code has_code c in
      if c.auto_connect && (is_connected c.state.desired && is_retryable status)
      then schedule_retry c'
      else c'

  -- Controller::fault, the scan.
  unfoldable pub end_scan : Status → Controller r t → Controller r t
  end_scan status c =
      if is_scan_idle c.state.scan
      then c
      else changed Change.scan
          (record c { state = record c.state { scan_status = status; scan = ScanPhase.idle } })

  -- Controller::fault
  unfoldable pub fault : Status → Controller r t → Controller r t
  fault status c =
      let c1 =
        end_scan status (record c { faulted = true; state = record c.state { status = status } }) in
      let c2 = cancel_retry (record c1 {
        scan_id = 0;
        station_id = 0;
        transition = Transition.none;
        credentials = no_credentials;
        timer = Deadline.never;
      }) in
      changed Change.station
        (record c2 { stable_deadline = Deadline.never; address_deadline = Deadline.never })
