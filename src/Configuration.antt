-- ===== src/Configuration.antt =====
-- src/roo_wifi/configuration.cpp: validation of connection settings and of credentials.
pub mod Acceptance
pub mod Subnet
pub mod Secrets
use roo_wifi.Base.{
  ℕ, ◌+◌, ◌-◌, ◌*◌, ◌/◌, ◌%◌, ◌^◌, Bool, true, false, not, ◌&&◌, ◌||◌, List, [], ◌∷◌, ltb, leb,
  ◌==◌, if◌then◌else◌, take, bit_and, bit_or,
}
use roo_wifi.Types.{
  Status, Ipv4Address, AuthMode, auth_code, auth_eq, IpMode, ip_mode_code, MacPolicy,
  mac_policy_code, StaticIpv4, ConnectionConfig, CredentialEncoding, encoding_code, Credentials,
  Support,
}

-- Address: the four octets as a uint32_t, most significant first.
unfoldable pub address : Ipv4Address → ℕ
address ip =
    bit_or (bit_or (bit_or (ip.byte0 * 2 ^ 24) (ip.byte1 * 2 ^ 16)) (ip.byte2 * 2 ^ 8)) ip.byte3

-- IsUnicast
unfoldable pub is_unicast : ℕ → Bool
is_unicast ip = not (ip == 0) && (ltb (ip / 2 ^ 24) 224 && not (ip / 2 ^ 24 == 127))

-- The test in the loop of IsHex.
unfoldable pub is_hex_digit : ℕ → Bool
is_hex_digit b =
    (leb b'0' b && leb b b'9') || ((leb b'a' b && leb b b'f') || (leb b'A' b && leb b b'F'))

-- The loop of IsHex, over the bytes that it visits.
unfoldable pub all_hex : List ℕ → Bool
all_hex [] = true
all_hex (b ∷ bs) = if not (is_hex_digit b) then false else all_hex bs

-- IsHex
unfoldable pub is_hex : Credentials → Bool
is_hex c = all_hex (take c.size c.bytes)

-- SecurityAllows
unfoldable pub security_allows : AuthMode → AuthMode → Bool
security_allows policy mode =
    if auth_eq policy AuthMode.unknown || auth_eq mode AuthMode.unknown
    then false
    else if auth_eq policy mode
    then true
    else if auth_eq policy AuthMode.wpa2_wpa3_personal
    then auth_eq mode AuthMode.wpa2_personal || auth_eq mode AuthMode.wpa3_personal
    else if auth_eq policy AuthMode.wpa_wpa2_personal
    then auth_eq mode AuthMode.wpa_personal || auth_eq mode AuthMode.wpa2_personal
    else false

-- The first test of Validate: malformed discriminators and lengths.
unfoldable pub is_malformed : ConnectionConfig → Credentials → Bool
is_malformed c secret =
    (not (encoding_code secret.encoding == encoding_code CredentialEncoding.passphrase)
      && (not (encoding_code secret.encoding == encoding_code CredentialEncoding.raw_psk)
          && not (encoding_code secret.encoding == encoding_code CredentialEncoding.wep_key)))
    || (c.ssid.size == 0
        || (ltb 32 c.ssid.size
            || (ltb 64 secret.size
                || ((not (mac_policy_code c.mac_policy == mac_policy_code MacPolicy.device)
                      && not (mac_policy_code c.mac_policy == mac_policy_code MacPolicy.randomized))
                    || (not (ip_mode_code c.ip_mode == ip_mode_code IpMode.dhcp)
                        && not (ip_mode_code c.ip_mode == ip_mode_code IpMode.static_ipv4))))))

-- `0xffffffffu << (32 - prefix_length)`, and its complement.
abbrev pub subnet_mask : ℕ → ℕ
subnet_mask prefix = (2 ^ 32 - 1) * 2 ^ (32 - prefix) % 2 ^ 32

abbrev pub host_mask : ℕ → ℕ
host_mask prefix = 2 ^ 32 - 1 - subnet_mask prefix

-- `(ip & ~mask) == 0 || (ip & ~mask) == ~mask`: the network or the broadcast address.
unfoldable pub is_reserved : ℕ → ℕ → Bool
is_reserved prefix ip =
    bit_and ip (host_mask prefix) == 0 || bit_and ip (host_mask prefix) == host_mask prefix

-- The tests that Validate makes of static settings: true where it returns kInvalidArgument.
unfoldable pub bad_static : StaticIpv4 → Bool
bad_static s =
    let ip = address s.address in
    let gw = address s.gateway in
    let mask = subnet_mask s.prefix_length in
    if s.prefix_length == 0 || ltb 30 s.prefix_length
    then true
    else (not (is_unicast ip)
        || (is_reserved s.prefix_length ip
            || ((not (gw == 0)
                  && (not (is_unicast gw)
                      || (not (bit_and gw mask == bit_and ip mask)
                          || (is_reserved s.prefix_length gw || gw == ip))))
                || (not (is_unicast (address s.dns1))
                    || (s.has_dns2 && not (is_unicast (address s.dns2)))))))

-- The last loop of Validate: true where a byte is not printable ASCII.
unfoldable pub has_unprintable : List ℕ → Bool
has_unprintable [] = false
has_unprintable (b ∷ bs) = if ltb b 32 || ltb 126 b then true else has_unprintable bs

-- Validate, for WEP.
unfoldable pub validate_wep : Credentials → Status
validate_wep secret =
    if not (encoding_code secret.encoding == encoding_code CredentialEncoding.wep_key)
    then Status.invalid_argument
    else if secret.size == 5
        || (secret.size == 13 || ((secret.size == 10 || secret.size == 26) && is_hex secret))
    then Status.ok
    else Status.invalid_argument

-- Validate, for the personal modes.
unfoldable pub validate_personal : AuthMode → Credentials → Status
validate_personal security secret =
    if encoding_code secret.encoding == encoding_code CredentialEncoding.raw_psk
    then if auth_eq security AuthMode.wpa3_personal || auth_eq security AuthMode.wpa2_wpa3_personal
      then Status.unsupported
      else if secret.size == 64 && is_hex secret
      then Status.ok
      else Status.invalid_argument
    else if not (encoding_code secret.encoding == encoding_code CredentialEncoding.passphrase)
        || (ltb secret.size 8 || ltb 63 secret.size)
    then Status.invalid_argument
    else if has_unprintable (take secret.size secret.bytes)
    then Status.invalid_argument
    else Status.ok

-- Validate, from the test for open networks on.
unfoldable pub validate_secret : AuthMode → Credentials → Status
validate_secret security secret =
    if auth_eq security AuthMode.open_network
    then if secret.size == 0 then Status.ok else Status.invalid_argument
    else if auth_eq security AuthMode.wep
    then validate_wep secret
    else if not (auth_eq security AuthMode.wpa_personal)
        && (not (auth_eq security AuthMode.wpa2_personal)
            && (not (auth_eq security AuthMode.wpa_wpa2_personal)
                && (not (auth_eq security AuthMode.wpa3_personal)
                    && not (auth_eq security AuthMode.wpa2_wpa3_personal))))
    then Status.unsupported
    else validate_personal security secret

-- Validate
unfoldable pub validate : ConnectionConfig → Credentials → Status
validate c secret =
    if is_malformed c secret
    then Status.invalid_argument
    else if ip_mode_code c.ip_mode == ip_mode_code IpMode.static_ipv4 && bad_static c.static_ipv4
    then Status.invalid_argument
    else validate_secret c.security secret

-- ValidateSupport
unfoldable pub validate_support : ConnectionConfig → Support → Status
validate_support c s =
    if leb 32 (auth_code c.security)
      || (bit_and s.authentication_modes (2 ^ auth_code c.security) == 0
          || ((c.hidden && not s.hidden_networks)
              || ((ip_mode_code c.ip_mode == ip_mode_code IpMode.static_ipv4 && not s.static_ipv4)
                  || (mac_policy_code c.mac_policy == mac_policy_code MacPolicy.randomized
                      && not s.randomized_mac))))
    then Status.unsupported
    else Status.ok
