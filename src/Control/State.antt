-- ===== src/Control/State.antt =====
-- The types of src/roo_wifi/controller.h and the members of class Controller.
use roo_wifi.Base.{
  ℕ, ◌==◌, ◌+◌, ◌*◌, Bool, true, false, List, [], ◌∷◌, leb, ltb, if◌then◌else◌, ℤ, pos, negsuc,
}
use roo_wifi.Types.{
  Status, Ssid, empty_ssid, MacAddress, zero_mac, ConnectionConfig, default_config, Credentials,
  no_credentials, ConnectionFailure, ScanRecord, LinkState, idle_link,
}
use roo_wifi.Control.Interfaces.{Interface, Store}

-- roo_time::Uptime in microseconds. `never` is Uptime::Max(), which the clock does not reach.
pub data Deadline : Type 0 where
  never : Deadline
  at : ℕ → Deadline

-- `now + roo_time::Millis(ms)`
abbrev pub after : ℕ → ℕ → Deadline
after now ms = Deadline.at (now + ms * 1000)

-- `now >= deadline`
abbrev pub is_past : ℕ → Deadline → Bool
is_past now Deadline.never = false
is_past now (Deadline.at d) = leb d now

-- `a < b`
abbrev pub is_before : Deadline → Deadline → Bool
is_before Deadline.never b = false
is_before (Deadline.at a) Deadline.never = true
is_before (Deadline.at a) (Deadline.at b) = ltb a b

-- std::min
abbrev pub earlier : Deadline → Deadline → Deadline
earlier a b = if is_before b a then b else a

-- struct RetryOptions; `delays_ms` has six entries.
pub record RetryOptions : Type 0 where
  pub delays_ms : List ℕ
  pub jitter_percent : ℕ
  pub stable_connection_ms : ℕ

-- struct Options
pub record Options : Type 0 where
  pub max_scan_results : ℕ
  pub scan_timeout_ms : ℕ
  pub connect_timeout_ms : ℕ
  pub transition_timeout_ms : ℕ
  pub retry : RetryOptions

-- The default member initializers of the two.
abbrev pub default_options : Options
default_options = record {
  max_scan_results = 100;
  scan_timeout_ms = 15000;
  connect_timeout_ms = 30000;
  transition_timeout_ms = 5000;
  retry = record {
    delays_ms = 500 ∷ 1000 ∷ 2000 ∷ 5000 ∷ 10000 ∷ 30000 ∷ [];
    jitter_percent = 20;
    stable_connection_ms = 60000;
  };
}

-- struct RetryState
pub record RetryState : Type 0 where
  pub attempt_count : ℕ
  pub pending : Bool
  pub next_attempt : Deadline
  pub last_status : Status
  pub failure : ConnectionFailure
  pub native_code : ℤ
  pub has_native_code : Bool
  pub bssid : MacAddress
  pub rssi_dbm : ℤ
  pub channel : ℕ
  pub has_radio_info : Bool

abbrev pub no_retry : RetryState
no_retry = record {
  attempt_count = 0;
  pending = false;
  next_attempt = Deadline.never;
  last_status = Status.ok;
  failure = ConnectionFailure.none;
  native_code = pos 0;
  has_native_code = false;
  bssid = zero_mac;
  rssi_dbm = negsuc 127;
  channel = 0;
  has_radio_info = false;
}

-- enum class Target
pub data Target : Type 0 where
  disabled disconnected connected : Target

abbrev pub is_disabled : Target → Bool
is_disabled Target.disabled = true
is_disabled _ = false

abbrev pub is_connected : Target → Bool
is_connected Target.connected = true
is_connected _ = false

-- enum class StationPhase
pub data StationPhase : Type 0 where
  disabled enabling idle connecting awaiting_ip connected disconnecting disabling faulted :
      StationPhase

-- enum class ScanPhase
pub data ScanPhase : Type 0 where
  idle queued running cancelling : ScanPhase

abbrev pub is_scan_idle : ScanPhase → Bool
is_scan_idle ScanPhase.idle = true
is_scan_idle _ = false

abbrev pub is_scan_queued : ScanPhase → Bool
is_scan_queued ScanPhase.queued = true
is_scan_queued _ = false

abbrev pub is_scan_cancelling : ScanPhase → Bool
is_scan_cancelling ScanPhase.cancelling = true
is_scan_cancelling _ = false

-- struct State
pub record State : Type 0 where
  pub desired : Target
  pub station : StationPhase
  pub enabled : Bool
  pub link : LinkState
  pub desired_profile : Ssid
  pub connected_profile : Ssid
  pub revision : ℕ
  pub status : Status
  pub native_code : ℤ
  pub has_native_code : Bool
  pub retry : RetryState
  pub scan : ScanPhase
  pub scan_status : Status
  pub scan_revision : ℕ
  pub profiles_generation : ℕ

abbrev pub initial_state : State
initial_state = record {
  desired = Target.disabled;
  station = StationPhase.disabled;
  enabled = false;
  link = idle_link;
  desired_profile = empty_ssid;
  connected_profile = empty_ssid;
  revision = 0;
  status = Status.ok;
  native_code = pos 0;
  has_native_code = false;
  retry = no_retry;
  scan = ScanPhase.idle;
  scan_status = Status.ok;
  scan_revision = 0;
  profiles_generation = 0;
}

-- struct ScanSnapshot, with the records that it points to.
pub record ScanSnapshot : Type 0 where
  pub generation : ℕ
  pub records : List ScanRecord
  pub count : ℕ
  pub truncated : Bool

abbrev pub no_snapshot : ScanSnapshot
no_snapshot = record { generation = 0; records = []; count = 0; truncated = false }

-- enum class Change, by value.
pub data Change : Type 0 where
  station scan profiles : Change

abbrev pub change_code : Change → ℕ
change_code Change.station = 1
change_code Change.scan = 2
change_code Change.profiles = 4

-- enum class Transition
pub data Transition : Type 0 where
  none enable connect disconnect : Transition

abbrev pub is_no_transition : Transition → Bool
is_no_transition Transition.none = true
is_no_transition _ = false

abbrev pub is_enable : Transition → Bool
is_enable Transition.enable = true
is_enable _ = false

abbrev pub is_connect : Transition → Bool
is_connect Transition.connect = true
is_connect _ = false

abbrev pub is_disconnect : Transition → Bool
is_disconnect Transition.disconnect = true
is_disconnect _ = false

-- The members of Controller, with the radio, the store, the clock and the tasks: whether work_ and
-- notify_ are scheduled, and when timer_ and reconnect_ are.
pub record Controller (r : Interface) (t : Store) : Type 0 where
  pub radio : r.Radio
  pub store : t.Data
  pub clock : ℕ
  pub options : Options
  pub work : Bool
  pub timer : Deadline
  pub reconnect : Deadline
  pub notify : Bool
  pub listeners : List ℕ
  pub pending_changes : ℕ
  pub state : State
  pub snapshot : ScanSnapshot
  pub config : ConnectionConfig
  pub credentials : Credentials
  pub transition : Transition
  pub next_id : ℕ
  pub station_id : ℕ
  pub scan_id : ℕ
  pub active_revision : ℕ
  pub attempted_revision : ℕ
  pub station_deadline : Deadline
  pub scan_deadline : Deadline
  pub running : Bool
  pub closed : Bool
  pub initialized : Bool
  pub faulted : Bool
  pub cancelling_connect : Bool
  pub station_timed_out : Bool
  pub scan_timed_out : Bool
  pub transition_enabled : Bool
  pub restore_profile : Bool
  pub auto_connect : Bool
  pub retry_level : ℕ
  pub jitter_state : ℕ
  pub timeout_failure : ConnectionFailure
  pub stable_deadline : Deadline
  pub address_deadline : Deadline

-- Controller::Controller. `seed` is the uptime in microseconds mixed with the controller's address,
-- a uint32_t.
unfoldable pub controller :
    {r : Interface} {t : Store} → r.Radio → t.Data → ℕ → Options → ℕ → Controller r t
controller radio store clock options seed = record {
  radio = radio;
  store = store;
  clock = clock;
  options = options;
  work = false;
  timer = Deadline.never;
  reconnect = Deadline.never;
  notify = false;
  listeners = [];
  pending_changes = 0;
  state = initial_state;
  snapshot = no_snapshot;
  config = default_config;
  credentials = no_credentials;
  transition = Transition.none;
  next_id = 1;
  station_id = 0;
  scan_id = 0;
  active_revision = 0;
  attempted_revision = 0;
  station_deadline = Deadline.at 0;
  scan_deadline = Deadline.at 0;
  running = false;
  closed = false;
  initialized = false;
  faulted = false;
  cancelling_connect = false;
  station_timed_out = false;
  scan_timed_out = false;
  transition_enabled = false;
  restore_profile = false;
  auto_connect = false;
  retry_level = 0;
  jitter_state = if seed == 0 then 1 else seed;
  timeout_failure = ConnectionFailure.none;
  stable_deadline = Deadline.never;
  address_deadline = Deadline.never;
}
