-- ===== src/Tests/Settings.antt =====
-- Validation, the two formats and the keys at the settings of a home network.
use roo_wifi.Base.{◌+◌, ◌≡◌, refl, ◌↔◌, ◌≢◌, true, false, length, arith, ◌≤◌, ◌^◌, All, IsByte}
use roo_wifi.Types.{
  Status, AuthMode, auth_code, ip_mode_code, mac_policy_code, encoding_code, Support, done,
}
use roo_wifi.Configuration.{
  address, is_unicast, is_malformed, is_reserved, validate_personal, has_unprintable, bad_static,
  validate_secret, validate, validate_support, security_allows,
}
use roo_wifi.Configuration.Subnet.{IsStaticPlan, bad_static_iff}
use roo_wifi.Configuration.Secrets.{CredentialFits, validate_secret_iff}
use roo_wifi.Configuration.Acceptance.{
  IsAcceptable, IsSupported, Admits, validate_iff, validate_support_iff, security_allows_order,
}
use roo_wifi.Codec.Writing.{
  perform_all, perform, write_be32, write_u8, write_bytes, finish, profile_writes, encode_profile,
  encode_secret, max_profile_size,
}
use roo_wifi.Codec.Reading.{decode_profile, decode_secret}
use roo_wifi.Codec.Keys.{key, is_profile_key, ssid_hash}
use roo_wifi.Codec.Layout.{length-encode_profile}
use roo_wifi.Codec.RoundTrip.{
  IsStorable, clear_profile, clear_ssid, clear_secret, decode_profile-encode_profile,
  decode_secret-encode_secret,
}
use roo_wifi.Codec.Canonical.{encode_profile-decode_profile}
use roo_wifi.Codec.KeyLaws.{is_profile_key-key, key_iff}
use roo_wifi.Tests.Data.{
  home, home-IsSsid, home_static, home_static-IsAddressed, home_config, home_profile,
  home_profile-IsStorable, passphrase, passphrase-IsSecret,
}

abbrev radio : Support
radio = record {
  authentication_modes = 2 ^ 4;
  hidden_networks = false;
  static_ipv4 = true;
  randomized_mac = false;
  scan_while_connected = true;
}

bad_static_iff_example : (bad_static home_static ≡ false) ↔ IsStaticPlan home_static
bad_static_iff_example = bad_static_iff home_static home_static-IsAddressed

validate_secret_iff_example :
    (validate_secret AuthMode.wpa2_personal passphrase ≡ Status.ok)
    ↔ CredentialFits passphrase AuthMode.wpa2_personal
validate_secret_iff_example = validate_secret_iff AuthMode.wpa2_personal passphrase

validate_iff_example :
    (validate home_config passphrase ≡ Status.ok) ↔ IsAcceptable home_config passphrase
validate_iff_example = validate_iff home_config passphrase home_static-IsAddressed

-- The home network's settings are accepted.
validate_home : validate home_config passphrase ≡ Status.ok
unfolding validate is_malformed encoding_code mac_policy_code ip_mode_code bad_static is_unicast
    address is_reserved validate_secret validate_personal has_unprintable auth_code
validate_home = refl

validate_support_iff_example :
    ((validate_support home_config radio ≡ Status.ok) ↔ IsSupported home_config radio)
    × ((validate_support home_config radio ≢ Status.ok)
        → validate_support home_config radio ≡ Status.unsupported)
validate_support_iff_example = validate_support_iff home_config radio

security_allows_order_example :
    ((security_allows AuthMode.wpa2_wpa3_personal AuthMode.wpa2_personal ≡ true)
      ↔ Admits AuthMode.wpa2_wpa3_personal AuthMode.wpa2_personal)
    × (security_allows AuthMode.wpa2_wpa3_personal AuthMode.wpa2_personal ≡ true
        → security_allows AuthMode.wpa2_personal AuthMode.wpa_personal ≡ true
        → security_allows AuthMode.wpa2_wpa3_personal AuthMode.wpa_personal ≡ true)
    × (security_allows AuthMode.wpa2_wpa3_personal AuthMode.wpa2_personal ≡ true
        → security_allows AuthMode.wpa2_personal AuthMode.wpa2_wpa3_personal ≡ true
        → AuthMode.wpa2_wpa3_personal ≡ AuthMode.wpa2_personal)
security_allows_order_example =
    security_allows_order AuthMode.wpa2_wpa3_personal AuthMode.wpa2_personal AuthMode.wpa_personal

length-encode_profile_example :
    (length (encode_profile home_profile) ≡ 4 + 29)
    × (length (encode_profile home_profile) ≤ max_profile_size)
length-encode_profile_example = length-encode_profile home_profile refl (omega arith)

decode_profile-encode_profile_example :
    decode_profile (encode_profile home_profile) ≡ done (clear_profile home_profile)
decode_profile-encode_profile_example =
    decode_profile-encode_profile home_profile home_profile-IsStorable

decode_secret-encode_secret_example :
    decode_secret (encode_secret home passphrase) ≡ done (clear_ssid home, clear_secret passphrase)
decode_secret-encode_secret_example =
    decode_secret-encode_secret home passphrase home-IsSsid (omega arith) passphrase-IsSecret

home_field_bytes : All IsByte (encode_profile home_profile)
unfolding encode_profile perform_all perform write_be32 write_u8 write_bytes finish profile_writes
    auth_code ip_mode_code mac_policy_code
home_field_bytes = ground arith

encode_profile-decode_profile_example :
    (encode_profile home_profile ≡ encode_profile home_profile) × IsStorable home_profile
encode_profile-decode_profile_example =
    encode_profile-decode_profile (encode_profile home_profile) home_profile home_field_bytes
      decode_profile-encode_profile_example

is_profile_key-key_example :
    (is_profile_key (key b'p' home) ≡ true)
    × (is_profile_key (key b's' home) ≡ false)
    × (length (key b'p' home) ≡ 13)
is_profile_key-key_example = is_profile_key-key home

key_iff_example : (key b'p' home ≡ key b'p' home) ↔ (ssid_hash home ≡ ssid_hash home)
key_iff_example = key_iff b'p' home home
