-- ===== src/Types/Config.antt =====
-- src/roo_wifi/configuration.h (the types) and src/roo_wifi/profile.h.
use roo_wifi.Base.{ℕ, ◌+◌, ◌-◌, ◌≡◌, Bool, false, List, arith, ◌==◌, if◌then◌else◌, replicate}
use roo_wifi.Types.Network.{Ssid, empty_ssid, Ipv4Address, zero_ip, AuthMode}

-- enum class IpMode : uint8_t
pub data IpMode : Type 0 where
  dhcp static_ipv4 : IpMode
  unnamed : ℕ → IpMode

unfoldable pub ip_mode_code : IpMode → ℕ
ip_mode_code IpMode.dhcp = 0
ip_mode_code IpMode.static_ipv4 = 1
ip_mode_code (IpMode.unnamed n) = n + 2

unfoldable pub ip_mode_of : ℕ → IpMode
ip_mode_of n =
    if n == 0 then IpMode.dhcp else if n == 1 then IpMode.static_ipv4 else IpMode.unnamed (n - 2)

pub ip_mode_of-ip_mode_code : (m : IpMode) → ip_mode_of (ip_mode_code m) ≡ m
unfolding ip_mode_of ip_mode_code
ip_mode_of-ip_mode_code m = ground arith

pub ip_mode_code-ip_mode_of : (n : ℕ) → ip_mode_code (ip_mode_of n) ≡ n
unfolding ip_mode_of ip_mode_code
ip_mode_code-ip_mode_of n = ground arith

-- enum class MacPolicy : uint8_t
pub data MacPolicy : Type 0 where
  device randomized : MacPolicy
  unnamed : ℕ → MacPolicy

unfoldable pub mac_policy_code : MacPolicy → ℕ
mac_policy_code MacPolicy.device = 0
mac_policy_code MacPolicy.randomized = 1
mac_policy_code (MacPolicy.unnamed n) = n + 2

unfoldable pub mac_policy_of : ℕ → MacPolicy
mac_policy_of n =
    if n == 0
    then MacPolicy.device
    else if n == 1
    then MacPolicy.randomized
    else MacPolicy.unnamed (n - 2)

pub mac_policy_of-mac_policy_code : (m : MacPolicy) → mac_policy_of (mac_policy_code m) ≡ m
unfolding mac_policy_of mac_policy_code
mac_policy_of-mac_policy_code m = ground arith

pub mac_policy_code-mac_policy_of : (n : ℕ) → mac_policy_code (mac_policy_of n) ≡ n
unfolding mac_policy_of mac_policy_code
mac_policy_code-mac_policy_of n = ground arith

-- struct StaticIpv4
pub record StaticIpv4 : Type 0 where
  pub address : Ipv4Address
  pub gateway : Ipv4Address
  pub dns1 : Ipv4Address
  pub dns2 : Ipv4Address
  pub prefix_length : ℕ
  pub has_dns2 : Bool

abbrev pub default_static : StaticIpv4
default_static = record {
  address = zero_ip;
  gateway = zero_ip;
  dns1 = zero_ip;
  dns2 = zero_ip;
  prefix_length = 24;
  has_dns2 = false;
}

-- struct ConnectionConfig
pub record ConnectionConfig : Type 0 where
  pub ssid : Ssid
  pub security : AuthMode
  pub hidden : Bool
  pub ip_mode : IpMode
  pub static_ipv4 : StaticIpv4
  pub mac_policy : MacPolicy

abbrev pub default_config : ConnectionConfig
default_config = record {
  ssid = empty_ssid;
  security = AuthMode.unknown;
  hidden = false;
  ip_mode = IpMode.dhcp;
  static_ipv4 = default_static;
  mac_policy = MacPolicy.device;
}

-- enum class CredentialEncoding : uint8_t
pub data CredentialEncoding : Type 0 where
  passphrase raw_psk wep_key : CredentialEncoding
  unnamed : ℕ → CredentialEncoding

unfoldable pub encoding_code : CredentialEncoding → ℕ
encoding_code CredentialEncoding.passphrase = 0
encoding_code CredentialEncoding.raw_psk = 1
encoding_code CredentialEncoding.wep_key = 2
encoding_code (CredentialEncoding.unnamed n) = n + 3

unfoldable pub encoding_of : ℕ → CredentialEncoding
encoding_of n =
    if n == 0
    then CredentialEncoding.passphrase
    else if n == 1
    then CredentialEncoding.raw_psk
    else if n == 2
    then CredentialEncoding.wep_key
    else CredentialEncoding.unnamed (n - 3)

pub encoding_of-encoding_code : (e : CredentialEncoding) → encoding_of (encoding_code e) ≡ e
unfolding encoding_of encoding_code
encoding_of-encoding_code e = ground arith

pub encoding_code-encoding_of : (n : ℕ) → encoding_code (encoding_of n) ≡ n
unfolding encoding_of encoding_code
encoding_code-encoding_of n = ground arith

-- struct Credentials. `bytes` is the array of 64; only the first `size` entries are meaningful.
pub record Credentials : Type 0 where
  pub encoding : CredentialEncoding
  pub bytes : List ℕ
  pub size : ℕ

abbrev pub no_credentials : Credentials
no_credentials = record {
  encoding = CredentialEncoding.passphrase;
  bytes = replicate 64 0;
  size = 0;
}

-- enum class CredentialIntent : uint8_t
pub data CredentialIntent : Type 0 where
  keep replace clear : CredentialIntent
  unnamed : ℕ → CredentialIntent

-- struct CredentialUpdate
pub record CredentialUpdate : Type 0 where
  pub intent : CredentialIntent
  pub replacement : Credentials

-- struct ProfileSettings
pub record ProfileSettings : Type 0 where
  pub connection : ConnectionConfig
  pub auto_connect : Bool

-- struct Profile
pub record Profile : Type 0 where
  pub settings : ProfileSettings
  pub has_credentials : Bool
