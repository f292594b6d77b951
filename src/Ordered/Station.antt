-- ===== src/Ordered/Station.antt =====
-- The native station, which is a parameter, and the state of OrderedInterface.
use roo_wifi.Base.{ℕ, Bool, false, List, [], ◌∷◌, replicate}
use roo_wifi.Types.{
  Status, Result, ScanRecord, Support, ConnectionConfig, default_config, Credentials,
  no_credentials, OperationResult, no_operation, LinkState, idle_link,
}
use roo_wifi.Ordered.Events.{QueuedEvent, empty_slot}

-- class NativeStation: its commands, with the station that they leave.
pub record NativeStation : Type 1 where
  pub Native : Type 0
  pub attach : Native → Status × Native
  pub detach : Native → Native
  pub support : Native → Support
  pub enable : Native → Bool → Status × Native
  pub scan : Native → ℕ → Status × Native
  pub stop_scan : Native → Status × Native
  pub connect : Native → ConnectionConfig → Credentials → Status × Native
  pub continue_connect : Native → Status × Native
  pub disconnect : Native → Status × Native
  pub read_scan : Native → ℕ → Result (List ScanRecord × Bool)

-- The calls of class Interface::Sink.
pub data Output : Type 0 where
  finished : OperationResult → Output
  link_changed : LinkState → Output
  enabled_changed : Bool → Output

-- The members of OrderedInterface, with the native station, the calls made on the sink, latest
-- first, and whether the dispatch task is scheduled.
pub record Adapter (n : NativeStation) : Type 0 where
  pub native : n.Native
  pub has_sink : Bool
  pub scheduled : Bool
  pub outputs : List Output
  pub queue : List QueuedEvent
  pub head : ℕ
  pub count : ℕ
  pub overflow : Bool
  pub attached : Bool
  pub faulted : Bool
  pub enabled : Bool
  pub cancelling : Bool
  pub scan_cancelling : Bool
  pub waiting_disconnect : Bool
  pub desired_enabled : Bool
  pub station : OperationResult
  pub scan : OperationResult
  pub link : LinkState
  pub config : ConnectionConfig
  pub credentials : Credentials

-- OrderedInterface::OrderedInterface
unfoldable pub adapter : (n : NativeStation) → n.Native → Adapter n
adapter n native = record {
  native = native;
  has_sink = false;
  scheduled = false;
  outputs = [];
  queue = replicate 16 empty_slot;
  head = 0;
  count = 0;
  overflow = false;
  attached = false;
  faulted = false;
  enabled = false;
  cancelling = false;
  scan_cancelling = false;
  waiting_disconnect = false;
  desired_enabled = false;
  station = no_operation;
  scan = no_operation;
  link = idle_link;
  config = default_config;
  credentials = no_credentials;
}

abbrev pub emit : {n : NativeStation} → Output → Adapter n → Adapter n
emit output s = record s { outputs = output ∷ s.outputs }
