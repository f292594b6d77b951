-- ===== src/Tests/Fields.antt =====
-- Saving, loading and removing the home network's profile in a store in memory.
use roo_wifi.Base.{◌≡◌, refl, true, false, not, [], ◌∷◌, ◌==◌, arith, bytes_eq}
use roo_wifi.Types.{
  Status, is_ok, is_ok-ok, AuthMode, ProfileSettings, auth_of, ip_mode_of, mac_policy_of,
  encoding_of, is_not_found, auth_code, ip_mode_code, mac_policy_code, encoding_code, done, err,
  Ssid, ssid_eq, Credentials, Profile, CredentialIntent,
}
use roo_wifi.Configuration.{
  address, is_unicast, is_malformed, is_reserved, validate_personal, has_unprintable, bad_static,
  validate_secret, validate,
}
use roo_wifi.Codec.RoundTrip.{clear_profile}
use roo_wifi.FieldStore.{
  last_key, read_both, load_profile, load_credentials, read_secret, read_last_profile,
  write_verified, chosen_secret, save_profile, remove_profile, prepare_save, check_identity,
  check_profile_owner, check_secret_owner, holds, save_secret, clear_field, store_profile,
  forget_last,
}
use roo_wifi.Codec.Writing.{
  encode_profile, encode_secret, perform_all, perform, write_be32, write_u8, write_bytes, finish,
  profile_writes, secret_writes,
}
use roo_wifi.Codec.Reading.{
  decode_profile, decode_secret, decode_with, profile_reads, profile_rest, secret_reads,
  secret_rest, ssid_head, read_u8, next_byte, read_be32, join_be32, read_bytes, is_empty,
  is_complete,
}
use roo_wifi.Codec.Keys.{key, ssid_hash, fnv, fnv_step, base64_char}
use roo_wifi.FieldStore.WriteLaws.{read-write_verified}
use roo_wifi.FieldStore.SaveLoad.{stored_secret, load-save}
use roo_wifi.FieldStore.Ownership.{
  IsAdmitted, load_profile_owned, save_profile_refused, load-remove_profile,
}
use roo_wifi.Tests.Data.{
  Memory, find, discard, memory, memory-IsDurable, home, home_config, home_profile,
  home_profile-IsStorable, passphrase, passphrase-IsSecret, replacing,
}

-- The store after the first save.
abbrev saved : Memory
saved = (save_profile memory [] home_profile replacing).1

saves : (save_profile memory [] home_profile replacing).0 ≡ Status.ok
unfolding save_profile prepare_save check_identity check_profile_owner check_secret_owner
    chosen_secret holds write_verified save_secret clear_field store_profile find is_ok is_not_found
    validate is_malformed bad_static is_unicast address is_reserved validate_secret
    validate_personal has_unprintable auth_code ip_mode_code mac_policy_code encoding_code bytes_eq
    key ssid_hash fnv fnv_step base64_char encode_profile encode_secret perform_all perform
    write_be32 write_u8 write_bytes finish profile_writes secret_writes
saves = refl

pub succeeds : is_ok (save_profile memory [] home_profile replacing).0 ≡ true
succeeds = rw saves is_ok-ok

read-write_verified_example :
    find (write_verified memory [] last_key (1 ∷ b'a' ∷ []) 33).1 last_key 33 ≡ done (1 ∷ b'a' ∷ [])
read-write_verified_example =
    read-write_verified memory memory-IsDurable [] last_key (1 ∷ b'a' ∷ []) 33 (omega arith)
      (unfold write_verified find holds is_ok in refl)

load-save_example :
    (c : Credentials) × (chosen_secret memory [] home CredentialIntent.replace passphrase ≡ done c)
    × (read_both memory saved home
        ≡ done (clear_profile home_profile, stored_secret CredentialIntent.replace c))
load-save_example =
    load-save memory [] home_profile replacing memory-IsDurable home_profile-IsStorable
      passphrase-IsSecret succeeds

abbrev home_loaded : Profile
home_loaded = record { settings = home_profile; has_credentials = true }

loads : load_profile memory saved home ≡ done home_loaded
unfolding load_profile read_both read_secret save_profile prepare_save check_identity
    check_profile_owner check_secret_owner chosen_secret holds write_verified save_secret
    clear_field store_profile find is_ok is_not_found validate is_malformed bad_static is_unicast
    address is_reserved validate_secret validate_personal has_unprintable auth_code ip_mode_code
    mac_policy_code encoding_code bytes_eq key ssid_hash fnv fnv_step base64_char encode_profile
    encode_secret perform_all perform write_be32 write_u8 write_bytes finish profile_writes
    secret_writes decode_profile decode_secret decode_with profile_reads profile_rest secret_reads
    secret_rest ssid_head read_u8 next_byte read_be32 join_be32 read_bytes is_empty is_complete
    auth_of ip_mode_of mac_policy_of encoding_of ssid_eq
loads = refl

load_profile_owned_example :
    (ssid_eq home home ≡ true)
    × (c : Credentials) × (load_credentials memory saved home ≡ done c)
    × (validate home_config c ≡ Status.ok)
    × (true ≡ not (c.size == 0))
load_profile_owned_example = load_profile_owned memory saved home home_loaded loads

-- The home network as an open one, which takes no passphrase.
abbrev opened : ProfileSettings
opened = record home_profile {
  connection = record home_config { security = AuthMode.open_network };
}

not-IsAdmitted : ¬ IsAdmitted memory saved opened replacing
not-IsAdmitted h = cc ((h.open_clears refl).0)

save_profile_refused_example :
    ((save_profile memory saved opened replacing).1 ≡ saved)
    × (is_ok (save_profile memory saved opened replacing).0 ≡ false)
save_profile_refused_example =
    save_profile_refused memory memory-IsDurable saved opened replacing not-IsAdmitted

removes : is_ok (remove_profile memory saved home).0 ≡ true
unfolding remove_profile forget_last read_last_profile discard save_profile prepare_save
    check_identity check_profile_owner check_secret_owner chosen_secret holds write_verified
    save_secret clear_field store_profile find is_ok is_not_found validate is_malformed bad_static
    is_unicast address is_reserved validate_secret validate_personal has_unprintable auth_code
    ip_mode_code mac_policy_code encoding_code bytes_eq key ssid_hash fnv fnv_step base64_char
    encode_profile encode_secret perform_all perform write_be32 write_u8 write_bytes finish
    profile_writes secret_writes decode_profile decode_secret decode_with profile_reads profile_rest
    secret_reads secret_rest ssid_head read_u8 next_byte read_be32 join_be32 read_bytes is_empty
    is_complete auth_of ip_mode_of mac_policy_of encoding_of ssid_eq
removes = refl

load-remove_profile_example :
    (load_profile memory (remove_profile memory saved home).1 home ≡ err Status.not_found)
    × ((l : Ssid)
        → read_last_profile memory (remove_profile memory saved home).1 ≡ done l
        → ssid_eq l home ≡ false)
load-remove_profile_example = load-remove_profile memory memory-IsDurable saved home removes
