-- ===== src/Codec/Writing.antt =====
-- Writer, EncodeProfile and EncodeSecret of src/roo_wifi/hal/field_store.cpp.
use roo_wifi.Base.{
  ℕ, ◌-◌, ◌/◌, ◌%◌, ◌^◌, Bool, true, false, List, [], ◌∷◌, ◌++◌, ltb, ◌==◌, if◌then◌else◌, length,
  take,
}
use roo_wifi.Types.{
  Ssid, Ipv4Address, auth_code, ip_mode_code, mac_policy_code, encoding_code, Credentials,
  ProfileSettings,
}

abbrev pub profile_magic : ℕ
profile_magic = 0x52575050

abbrev pub secret_magic : ℕ
secret_magic = 0x52575053

abbrev pub format_version : ℕ
format_version = 2

abbrev pub max_profile_size : ℕ
max_profile_size = 61

abbrev pub max_secret_size : ℕ
max_secret_size = 104

-- class Writer: the bytes before `current_`, the room of the buffer, and `ok_`.
pub record Writer : Type 0 where
  pub written : List ℕ
  pub capacity : ℕ
  pub ok : Bool

-- Writer::Writer
abbrev pub writer : ℕ → Writer
writer capacity = record { written = []; capacity = capacity; ok = true }

-- Writer::u8; the parameter is a uint8_t.
unfoldable pub write_u8 : ℕ → Writer → Writer
write_u8 value w =
    if length w.written == w.capacity
    then record w { ok = false }
    else record w { written = w.written ++ value % 256 ∷ [] }

-- Writer::be32
unfoldable pub write_be32 : ℕ → Writer → Writer
write_be32 value w =
    write_u8 value
      (write_u8 (value / 2 ^ 8) (write_u8 (value / 2 ^ 16) (write_u8 (value / 2 ^ 24) w)))

-- Writer::bytes
unfoldable pub write_bytes : List ℕ → ℕ → Writer → Writer
write_bytes source size w =
    if ltb (w.capacity - length w.written) size
    then record w { ok = false }
    else record w { written = w.written ++ take size source }

-- One call on a Writer. An encoder is a list of them, made in order.
pub data Write : Type 0 where
  byte be32 : ℕ → Write
  range : List ℕ → ℕ → Write

unfoldable pub perform : Write → Writer → Writer
perform (Write.byte value) = write_u8 value
perform (Write.be32 value) = write_be32 value
perform (Write.range source size) = write_bytes source size

unfoldable pub perform_all : List Write → Writer → Writer
perform_all [] w = w
perform_all (c ∷ cs) w = perform_all cs (perform c w)

-- `return out.ok() ? out.size() : 0`, with the bytes of that size.
unfoldable pub finish : Writer → List ℕ
finish w = if w.ok then w.written else []

abbrev pub bool_code : Bool → ℕ
bool_code true = 1
bool_code false = 0

-- The array of an Ipv4Address.
abbrev pub ip_bytes : Ipv4Address → List ℕ
ip_bytes ip = ip.byte0 ∷ ip.byte1 ∷ ip.byte2 ∷ ip.byte3 ∷ []

unfoldable pub profile_writes : ProfileSettings → List Write
profile_writes s =
    Write.be32 profile_magic
    ∷ Write.byte format_version
    ∷ Write.byte ssid.size
    ∷ Write.range ssid.bytes ssid.size
    ∷ Write.byte (auth_code security)
    ∷ Write.byte (bool_code hidden)
    ∷ Write.byte (ip_mode_code ip_mode)
    ∷ Write.range (ip_bytes static_ipv4.address) 4
    ∷ Write.range (ip_bytes static_ipv4.gateway) 4
    ∷ Write.range (ip_bytes static_ipv4.dns1) 4
    ∷ Write.range (ip_bytes static_ipv4.dns2) 4
    ∷ Write.byte static_ipv4.prefix_length
    ∷ Write.byte (bool_code static_ipv4.has_dns2)
    ∷ Write.byte (mac_policy_code mac_policy)
    ∷ Write.byte (bool_code s.auto_connect)
    ∷ []
  where
    open s.connection use {ssid, security, hidden, ip_mode, static_ipv4, mac_policy}

-- EncodeProfile
unfoldable pub encode_profile : ProfileSettings → List ℕ
encode_profile s = finish (perform_all (profile_writes s) (writer max_profile_size))

unfoldable pub secret_writes : Ssid → Credentials → List Write
secret_writes ssid secret =
    Write.be32 secret_magic
    ∷ Write.byte format_version
    ∷ Write.byte ssid.size
    ∷ Write.range ssid.bytes ssid.size
    ∷ Write.byte (encoding_code secret.encoding)
    ∷ Write.byte secret.size
    ∷ Write.range secret.bytes secret.size
    ∷ []

-- EncodeSecret
unfoldable pub encode_secret : Ssid → Credentials → List ℕ
encode_secret ssid secret =
    finish (perform_all (secret_writes ssid secret) (writer max_secret_size))
