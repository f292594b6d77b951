-- ===== src/FieldStore/Reads.antt =====
-- The operations of src/roo_wifi/hal/field_store.cpp that change nothing.
use roo_wifi.Base.{
  ℕ, suc, ◌+◌, ◌-◌, Bool, true, false, not, ◌||◌, List, [], ◌∷◌, ◌++◌, ltb, ◌==◌, if◌then◌else◌,
  length, take, replicate, bytes_eq,
}
use roo_wifi.Types.{
  Status, is_ok, is_not_found, Result, done, err, ◌>>=◌, ◌>>◌, Ssid, ssid_eq, AuthMode, auth_eq,
  no_credentials, Credentials, ProfileSettings, Profile,
}
use roo_wifi.Configuration.{validate}
use roo_wifi.Codec.Writing.{max_profile_size, max_secret_size}
use roo_wifi.Codec.Reading.{decode_profile, decode_secret}
use roo_wifi.Codec.Keys.{key, is_profile_key}
use roo_wifi.FieldStore.Backend.{Backend}

-- `if (!test) return status;`
abbrev pub guard : Bool → Status → Result (Unit {0})
guard true s = done tt
guard false s = err s

-- `ssid.size == 0 || ssid.size > sizeof(ssid.bytes)`
abbrev pub bad_ssid : Ssid → Bool
bad_ssid ssid = ssid.size == 0 || ltb 32 ssid.size

-- The key "last-ssid".
abbrev pub last_key : List ℕ
last_key = b'l' ∷ b'a' ∷ b's' ∷ b't' ∷ b'-' ∷ b's' ∷ b's' ∷ b'i' ∷ b'd' ∷ []

-- FieldStore::readLastProfile, from the bytes of the field.
unfoldable pub decode_last : List ℕ → Result Ssid
decode_last [] = err Status.corrupt
decode_last (size ∷ text) =
    if ltb (suc (length text)) 2 || (ltb 32 size || not (suc (length text) == size + 1))
    then err Status.corrupt
    else done (record { bytes = take size text ++ replicate (32 - size) 0; size = size })

module _ (b : Backend) where
  open b use {Fields, read_field, enumerate_fields}

  -- FieldStore::read, the secret of a profile that is not open.
  unfoldable pub read_secret : Fields → Ssid → Result Credentials
  read_secret fs ssid = elim (read_field fs (key b's' ssid) max_secret_size) [
    | err s ↦ err (if is_not_found s then Status.corrupt else s)
    | done field ↦ do
      (owner, secret) ← decode_secret field
      guard (ssid_eq owner ssid) Status.hash_collision
      done secret
  ]

  -- FieldStore::read
  unfoldable pub read_both : Fields → Ssid → Result (ProfileSettings × Credentials)
  read_both fs ssid = do
    guard (not (bad_ssid ssid)) Status.invalid_argument
    field ← read_field fs (key b'p' ssid) max_profile_size
    settings ← decode_profile field
    guard (ssid_eq settings.connection.ssid ssid) Status.hash_collision
    secret ←
        if auth_eq settings.connection.security AuthMode.open_network
        then done no_credentials
        else read_secret fs ssid
    guard (is_ok (validate settings.connection secret)) Status.corrupt
    done (settings, secret)

  -- FieldStore::loadProfile
  unfoldable pub load_profile : Fields → Ssid → Result Profile
  load_profile fs ssid = do
    (settings, secret) ← read_both fs ssid
    done (record { settings = settings; has_credentials = not (secret.size == 0) })

  -- FieldStore::loadCredentials
  unfoldable pub load_credentials : Fields → Ssid → Result Credentials
  load_credentials fs ssid = do (settings, secret) ← read_both fs ssid; done secret

  -- FieldStore::checkIdentity, for the settings and for the secret.
  unfoldable pub check_profile_owner : Fields → Ssid → Result (Unit {0})
  check_profile_owner fs ssid = elim (read_field fs (key b'p' ssid) max_secret_size) [
    | err s ↦ guard (is_not_found s) s
    | done field ↦ do
      settings ← decode_profile field
      guard (ssid_eq settings.connection.ssid ssid) Status.hash_collision
  ]

  unfoldable pub check_secret_owner : Fields → Ssid → Result (Unit {0})
  check_secret_owner fs ssid = elim (read_field fs (key b's' ssid) max_secret_size) [
    | err s ↦ guard (is_not_found s) s
    | done field ↦ do
      (owner, secret) ← decode_secret field
      guard (ssid_eq owner ssid) Status.hash_collision
  ]

  -- FieldStore::checkIdentity
  unfoldable pub check_identity : Fields → Ssid → Result (Unit {0})
  check_identity fs ssid = do
    guard (not (bad_ssid ssid)) Status.invalid_argument
    check_profile_owner fs ssid
    check_secret_owner fs ssid

  -- FieldStore::readLastProfile
  unfoldable pub read_last_profile : Fields → Result Ssid
  read_last_profile fs = do field ← read_field fs last_key 33; decode_last field

  -- FieldStore::visitProfile
  unfoldable pub visit_profile :
      (C : Type 0) → Fields → (C → Ssid → Bool × C) → C → List ℕ → Status × C
  visit_profile C fs visitor context name =
      if not (is_profile_key name)
      then (Status.ok, context)
      else elim (read_field fs name max_profile_size) [
        | err s ↦ (s, context)
        | done field ↦ elim (decode_profile field) [
          | err s ↦ (s, context)
          | done settings ↦
              if not (bytes_eq (key b'p' settings.connection.ssid) name)
              then (Status.corrupt, context)
              else let (more, context') = visitor context settings.connection.ssid in
                (if more then Status.ok else Status.stopped, context')
        ]
      ]

  -- The visitor that FieldStore::enumerateProfiles passes on: its context adds `status`.
  unfoldable pub visit_field :
      (C : Type 0) → Fields → (C → Ssid → Bool × C) → C × Status → List ℕ → Bool × (C × Status)
  visit_field C fs visitor (context, status) name =
      let (s, context') = visit_profile C fs visitor context name in (is_ok s, (context', s))

  -- FieldStore::enumerateProfiles, for a visitor that is not null.
  unfoldable pub enumerate_profiles : (C : Type 0) → Fields → (C → Ssid → Bool × C) → C → Status × C
  enumerate_profiles C fs visitor context =
      let (result, state) =
        enumerate_fields (C × Status) fs (visit_field C fs visitor) (context, Status.ok) in
      (if is_ok state.1 then result else state.1, state.0)
