-- ===== src/Types/Network.antt =====
-- src/roo_wifi/network.h.
use roo_wifi.Base.{
  ℕ, ◌+◌, ◌-◌, ◌≤◌, ◌≡◌, Bool, true, ◌&&◌, List, arith, leb, ◌==◌, if◌then◌else◌, length, take,
  replicate, All, IsByte, bytes_eq, bytes_eq_self, eq_of-bytes_eq,
}

-- struct Ssid. `bytes` is the array of 32; only the first `size` entries are meaningful.
pub record Ssid : Type 0 where
  pub bytes : List ℕ
  pub size : ℕ

-- The default member initializers.
abbrev pub empty_ssid : Ssid
empty_ssid = record { bytes = replicate 32 0; size = 0 }

abbrev pub ssid_text : Ssid → List ℕ
ssid_text s = take s.size s.bytes

-- Ssid::operator==
unfoldable pub ssid_eq : Ssid → Ssid → Bool
ssid_eq a b =
    leb a.size 32 && (a.size == b.size && bytes_eq (take a.size a.bytes) (take a.size b.bytes))

-- struct MacAddress: the array of six octets.
pub record MacAddress : Type 0 where
  pub octets : List ℕ

abbrev pub zero_mac : MacAddress
zero_mac = record { octets = replicate 6 0 }

-- struct Ipv4Address: the array of four octets, by index.
pub record Ipv4Address : Type 0 where
  pub byte0 : ℕ
  pub byte1 : ℕ
  pub byte2 : ℕ
  pub byte3 : ℕ

abbrev pub zero_ip : Ipv4Address
zero_ip = record { byte0 = 0; byte1 = 0; byte2 = 0; byte3 = 0 }

-- enum class AuthMode : uint8_t
pub data AuthMode : Type 0 where
  unknown open_network wep wpa_personal wpa2_personal wpa_wpa2_personal wpa3_personal : AuthMode
  wpa2_wpa3_personal enterprise wapi_personal other : AuthMode
  unnamed : ℕ → AuthMode

-- static_cast<uint8_t>(mode)
unfoldable pub auth_code : AuthMode → ℕ
auth_code AuthMode.unknown = 0
auth_code AuthMode.open_network = 1
auth_code AuthMode.wep = 2
auth_code AuthMode.wpa_personal = 3
auth_code AuthMode.wpa2_personal = 4
auth_code AuthMode.wpa_wpa2_personal = 5
auth_code AuthMode.wpa3_personal = 6
auth_code AuthMode.wpa2_wpa3_personal = 7
auth_code AuthMode.enterprise = 8
auth_code AuthMode.wapi_personal = 9
auth_code AuthMode.other = 10
auth_code (AuthMode.unnamed n) = n + 11

-- static_cast<AuthMode>(byte)
unfoldable pub auth_of : ℕ → AuthMode
auth_of n =
    if n == 0
    then AuthMode.unknown
    else if n == 1
    then AuthMode.open_network
    else if n == 2
    then AuthMode.wep
    else if n == 3
    then AuthMode.wpa_personal
    else if n == 4
    then AuthMode.wpa2_personal
    else if n == 5
    then AuthMode.wpa_wpa2_personal
    else if n == 6
    then AuthMode.wpa3_personal
    else if n == 7
    then AuthMode.wpa2_wpa3_personal
    else if n == 8
    then AuthMode.enterprise
    else if n == 9
    then AuthMode.wapi_personal
    else if n == 10
    then AuthMode.other
    else AuthMode.unnamed (n - 11)

-- The two casts are inverse to one another.
pub auth_of-auth_code : (m : AuthMode) → auth_of (auth_code m) ≡ m
unfolding auth_of auth_code
auth_of-auth_code m = ground arith

pub auth_code-auth_of : (n : ℕ) → auth_code (auth_of n) ≡ n
unfolding auth_of auth_code
auth_code-auth_of n = ground arith

-- `a == b` on modes.
abbrev pub auth_eq : AuthMode → AuthMode → Bool
auth_eq a b = auth_code a == auth_code b

pub ssid_eq_self : (s : Ssid) → s.size ≤ 32 → ssid_eq s s ≡ true
unfolding ssid_eq
ssid_eq_self s h = ground (arith, bytes_eq_self (take s.size s.bytes))

-- Equal SSIDs have the same length and the same meaningful bytes.
pub ssid_eq_text :
    (a b : Ssid) → ssid_eq a b ≡ true → (a.size ≡ b.size) × (ssid_text a ≡ ssid_text b)
unfolding ssid_eq
ssid_eq_text a b h = ground (arith, eq_of-bytes_eq (take a.size a.bytes) (take a.size b.bytes))

-- An SSID with its array in full and its length within it.
pub record IsSsid (s : Ssid) : Type 0 where
  pub full : length s.bytes ≡ 32
  pub within : s.size ≤ 32
  pub are_bytes : All IsByte s.bytes
