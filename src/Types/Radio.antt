-- ===== src/Types/Radio.antt =====
-- src/roo_wifi/radio.h.
use roo_wifi.Base.{ℕ, Bool, true, false, ℤ, pos, negsuc}
use roo_wifi.Types.Results.{Status}
use roo_wifi.Types.Network.{Ssid, empty_ssid, MacAddress, zero_mac, Ipv4Address, zero_ip, AuthMode}
use roo_wifi.Types.Operation.{ConnectionFailure}

-- enum class CipherType : uint8_t
pub data CipherType : Type 0 where
  unknown none wep40 wep104 tkip ccmp tkip_ccmp aes_cmac128 sms4 gcmp gcmp256 : CipherType
  aes_gmac128 aes_gmac256 : CipherType

-- struct ScanRecord
pub record ScanRecord : Type 0 where
  pub pairwise_cipher : CipherType
  pub group_cipher : CipherType
  pub has_radio_metadata : Bool
  pub use_11b : Bool
  pub use_11g : Bool
  pub use_11n : Bool
  pub supports_wps : Bool
  pub ssid : Ssid
  pub bssid : MacAddress
  pub security : AuthMode
  pub rssi_dbm : ℤ
  pub channel : ℕ

-- struct Support
pub record Support : Type 0 where
  pub authentication_modes : ℕ
  pub hidden_networks : Bool
  pub static_ipv4 : Bool
  pub randomized_mac : Bool
  pub scan_while_connected : Bool

-- enum class LinkPhase : uint8_t
pub data LinkPhase : Type 0 where
  idle connecting associated address_ready : LinkPhase

abbrev pub is_idle : LinkPhase → Bool
is_idle LinkPhase.idle = true
is_idle _ = false

abbrev pub is_connecting : LinkPhase → Bool
is_connecting LinkPhase.connecting = true
is_connecting _ = false

abbrev pub is_associated : LinkPhase → Bool
is_associated LinkPhase.associated = true
is_associated _ = false

abbrev pub is_address_ready : LinkPhase → Bool
is_address_ready LinkPhase.address_ready = true
is_address_ready _ = false

-- struct LinkState
pub record LinkState : Type 0 where
  pub connection_id : ℕ
  pub phase : LinkPhase
  pub ssid : Ssid
  pub bssid : MacAddress
  pub station_mac : MacAddress
  pub security : AuthMode
  pub rssi_dbm : ℤ
  pub channel : ℕ
  pub address : Ipv4Address
  pub gateway : Ipv4Address
  pub dns1 : Ipv4Address
  pub dns2 : Ipv4Address
  pub has_radio_info : Bool
  pub has_station_mac : Bool
  pub has_ipv4 : Bool
  pub has_dns1 : Bool
  pub has_dns2 : Bool
  pub has_native_code : Bool
  pub reason : Status
  pub failure : ConnectionFailure
  pub native_code : ℤ

-- LinkState::LinkState() and the default member initializers.
abbrev pub idle_link : LinkState
idle_link = record {
  connection_id = 0;
  phase = LinkPhase.idle;
  ssid = empty_ssid;
  bssid = zero_mac;
  station_mac = zero_mac;
  security = AuthMode.unknown;
  rssi_dbm = negsuc 127;
  channel = 0;
  address = zero_ip;
  gateway = zero_ip;
  dns1 = zero_ip;
  dns2 = zero_ip;
  has_radio_info = false;
  has_station_mac = false;
  has_ipv4 = false;
  has_dns1 = false;
  has_dns2 = false;
  has_native_code = false;
  reason = Status.ok;
  failure = ConnectionFailure.none;
  native_code = pos 0;
}
