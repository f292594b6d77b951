-- ===== src/FieldStore/Writes.antt =====
-- The operations of src/roo_wifi/hal/field_store.cpp that write fields.
use roo_wifi.Base.{
  ℕ, Bool, true, false, not, ◌&&◌, ◌||◌, List, ◌∷◌, ltb, ◌==◌, if◌then◌else◌, length, take,
  bytes_eq,
}
use roo_wifi.Types.{
  Status, is_ok, is_not_found, Result, done, err, status_of, ◌>>=◌, ◌>>◌, Ssid, empty_ssid, ssid_eq,
  AuthMode, auth_eq, no_credentials, Credentials, CredentialIntent, CredentialUpdate,
  ProfileSettings,
}
use roo_wifi.Configuration.{validate}
use roo_wifi.Codec.Writing.{max_profile_size, max_secret_size, encode_profile, encode_secret}
use roo_wifi.Codec.Keys.{key}
use roo_wifi.FieldStore.Backend.{Backend}
use roo_wifi.FieldStore.Reads.{guard, last_key, load_credentials, check_identity, read_last_profile}

-- Whether a read gave the expected bytes.
unfoldable pub holds : Result (List ℕ) → List ℕ → Bool
holds (done actual) expected = length actual == length expected && bytes_eq actual expected
holds (err s) expected = false

-- The outcome of a failed write, by the read after it.
unfoldable pub uncertain : Result (List ℕ) → Status
uncertain (done actual) = Status.storage_failure
uncertain (err s) =
    if is_not_found s || is_ok s then Status.storage_failure else Status.commit_unknown

abbrev pub is_clear : CredentialIntent → Bool
is_clear CredentialIntent.clear = true
is_clear _ = false

abbrev pub is_replace : CredentialIntent → Bool
is_replace CredentialIntent.replace = true
is_replace _ = false

module _ (b : Backend) where
  open b use {Fields, read_field, write_field, erase_field}

  -- FieldStore::writeVerified, with the fields that the call leaves.
  unfoldable pub write_verified : Fields → List ℕ → List ℕ → ℕ → Status × Fields
  write_verified fs name expected capacity =
      if holds (read_field fs name capacity) expected
      then (Status.ok, fs)
      else let (written, fs') = write_field fs name expected in
        let again = read_field fs' name capacity in
        if is_ok written
        then (Status.ok, fs')
        else if holds again expected
        then (Status.ok, fs')
        else (uncertain again, fs')

  -- The switch of FieldStore::saveProfile over the credential intent.
  unfoldable pub chosen_secret : Fields → Ssid → CredentialIntent → Credentials → Result Credentials
  chosen_secret fs ssid CredentialIntent.keep replacement = load_credentials b fs ssid
  chosen_secret fs ssid CredentialIntent.replace replacement = done replacement
  chosen_secret fs ssid CredentialIntent.clear replacement = do
    guard (replacement.size == 0) Status.invalid_argument
    done no_credentials
  chosen_secret fs ssid (CredentialIntent.unnamed n) replacement = err Status.invalid_argument

  -- FieldStore::saveProfile, up to the first write: the secret to store, or the error returned.
  unfoldable pub prepare_save : Fields → ProfileSettings → CredentialUpdate → Result Credentials
  prepare_save fs settings update = do
    check_identity b fs settings.connection.ssid
    guard
        (not (
          auth_eq settings.connection.security AuthMode.open_network
          && (not (is_clear update.intent) || not (update.replacement.size == 0))))
        Status.invalid_argument
    secret ← chosen_secret fs settings.connection.ssid update.intent update.replacement
    let verdict = validate settings.connection secret
    guard (is_ok verdict) verdict
    done secret

  -- The write of the secret, for a replacement.
  unfoldable pub save_secret : Fields → Ssid → CredentialIntent → Credentials → Status × Fields
  save_secret fs ssid intent secret =
      if is_replace intent
      then write_verified fs (key b's' ssid) (encode_secret ssid secret) max_secret_size
      else (Status.ok, fs)

  -- The erasure of the secret, for a clearing.
  unfoldable pub clear_field : Fields → Ssid → CredentialIntent → Status × Fields
  clear_field fs ssid intent =
      let name = key b's' ssid in
      let (erased, fs') = erase_field fs name in
      if is_clear intent && not (is_not_found (status_of (read_field fs name max_secret_size)))
      then (if is_ok erased then Status.ok else Status.storage_failure, fs')
      else (Status.ok, fs)

  -- The writes of FieldStore::saveProfile.
  unfoldable pub store_profile :
      Fields → ProfileSettings → CredentialIntent → Credentials → Status × Fields
  store_profile fs settings intent secret =
      let ssid = settings.connection.ssid in
      let (s1, fs1) = save_secret fs ssid intent secret in
      let (s2, fs2) =
        write_verified fs1 (key b'p' ssid) (encode_profile settings) max_profile_size in
      if not (is_ok s1)
      then (s1, fs1)
      else if not (is_ok s2)
      then (s2, fs2)
      else clear_field fs2 ssid intent

  -- FieldStore::saveProfile
  unfoldable pub save_profile : Fields → ProfileSettings → CredentialUpdate → Status × Fields
  save_profile fs settings update = elim (prepare_save fs settings update) [
    | err s ↦ (s, fs)
    | done secret ↦ store_profile fs settings update.intent secret
  ]

  -- FieldStore::writeLastProfile
  unfoldable pub write_last_profile : Fields → Ssid → Status × Fields
  write_last_profile fs ssid =
      let (erased, fs') = erase_field fs last_key in
      if ltb 32 ssid.size
      then (Status.invalid_argument, fs)
      else if ssid.size == 0
      then (if is_ok erased then Status.ok else Status.storage_failure, fs')
      else write_verified fs last_key (ssid.size ∷ take ssid.size ssid.bytes) 33

  -- The end of FieldStore::removeProfile: the selection of the last profile.
  unfoldable pub forget_last : Fields → Ssid → Status × Fields
  forget_last fs ssid = elim (read_last_profile b fs) [
    | err s ↦ (if is_not_found s then Status.ok else s, fs)
    | done last ↦
        if not (ssid_eq last ssid) then (Status.ok, fs) else write_last_profile fs empty_ssid
  ]

  -- FieldStore::removeProfile
  unfoldable pub remove_profile : Fields → Ssid → Status × Fields
  remove_profile fs ssid = elim (check_identity b fs ssid) [
    | err s ↦ (s, fs)
    | done _ ↦
        let (s1, fs1) = erase_field fs (key b'p' ssid) in
        let (s2, fs2) = erase_field fs1 (key b's' ssid) in
        if not (is_ok s1)
        then (Status.storage_failure, fs1)
        else if not (is_ok s2)
        then (Status.storage_failure, fs2)
        else forget_last fs2 ssid
  ]
