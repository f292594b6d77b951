-- ===== src/FieldStore/SaveLoad.antt =====
-- A profile that was saved is loaded back.
use roo_wifi.Base.{
  ℕ, ◌-◌, ◌≡◌, refl, ap, ◌∙◌, ◌≢◌, inl, inr, true, false, List, if◌then◌else◌, length, take,
  replicate, take-append, length-take, bytes_eq_self, arith, Bool-cases,
}
use mathlib.Core.Path.{subst}
use roo_wifi.Types.{
  Status, is_ok, is_ok-ok, eq_ok, is_not_found, Result, Result-cases, done, err, ◌>>=◌, ◌>>◌, Ssid,
  ssid_text, ssid_eq, IsSsid, AuthMode, auth_code, auth_eq, Credentials, no_credentials,
  CredentialIntent, CredentialUpdate, ProfileSettings,
}
use roo_wifi.Configuration.{
  is_malformed, is_hex, validate_wep, validate_personal, validate_secret, validate,
}
use roo_wifi.Configuration.Secrets.{
  CredentialFits, no_secret, wep_raw, wep_hex, psk, passphrase, validate_secret_iff,
}
use roo_wifi.Codec.Writing.{max_profile_size, max_secret_size, encode_profile, encode_secret}
use roo_wifi.Codec.Reading.{decode_profile, decode_secret}
use roo_wifi.Codec.Layout.{encode_profile_fits, length-encode_secret}
use roo_wifi.Codec.RoundTrip.{
  clear_ssid, clear_secret, clear_profile, IsStorable, IsSecret, decode_profile-encode_profile,
  decode_secret-encode_secret,
}
use roo_wifi.Codec.Keys.{key}
use roo_wifi.FieldStore.Backend.{Backend, IsDurable}
use roo_wifi.FieldStore.Reads.{guard, bad_ssid, read_secret, read_both, load_credentials}
use roo_wifi.FieldStore.Writes.{is_clear, chosen_secret, prepare_save, store_profile, save_profile}
use roo_wifi.FieldStore.Reports.{prepare_save-Reports}
use roo_wifi.FieldStore.WriteLaws.{stored_settings, stored_replacement, stored_keep}

length-ssid_text : (s : Ssid) → IsSsid s → length (ssid_text s) ≡ s.size
length-ssid_text s v = omega (arith, length-take s.size s.bytes)

-- Clearing the unused bytes changes no test of the code.
pub ssid_eq-clear : (s : Ssid) → IsSsid s → ssid_eq (clear_ssid s) s ≡ true
unfolding ssid_eq
ssid_eq-clear s v = ground (
  arith,
  take-append s.size (ssid_text s) (replicate (32 - s.size) 0) (length-ssid_text s v),
  bytes_eq_self (ssid_text s),
)

take-clear :
    (c : Credentials) → IsSecret c → take c.size (clear_secret c).bytes ≡ take c.size c.bytes
take-clear c v =
    take-append c.size (take c.size c.bytes) (replicate (64 - c.size) 0)
      (omega (arith, length-take c.size c.bytes, v.full, v.within))

validate_secret-clear :
    (m : AuthMode) (c : Credentials)
    → IsSecret c
    → validate_secret m (clear_secret c) ≡ validate_secret m c
unfolding validate_secret validate_wep validate_personal is_hex
validate_secret-clear m c v = rw (take-clear c v)

pub validate-clear :
    (s : ProfileSettings) (c : Credentials)
    → IsSecret c
    → validate (clear_profile s).connection (clear_secret c) ≡ validate s.connection c
unfolding validate is_malformed
validate-clear s c v = rw (validate_secret-clear s.connection.security c v)

validate-clear_settings :
    (s : ProfileSettings) (c : Credentials)
    → validate (clear_profile s).connection c ≡ validate s.connection c
unfolding validate is_malformed
validate-clear_settings s c = refl

-- The secret that `read` takes for given settings.
abbrev pub secret_for : (b : Backend) → b.Fields → Ssid → ProfileSettings → Result Credentials
secret_for b fs ssid s =
    if auth_eq s.connection.security AuthMode.open_network
    then done no_credentials
    else read_secret b fs ssid

module _ (b : Backend) (fs : b.Fields) (ssid : Ssid) where
  open b use {read_field}

  read_both_done :
      (field : List ℕ) (s : ProfileSettings) (c : Credentials)
      → bad_ssid ssid ≡ false
      → read_field fs (key b'p' ssid) max_profile_size ≡ done field
      → decode_profile field ≡ done s
      → ssid_eq s.connection.ssid ssid ≡ true
      → secret_for b fs ssid s ≡ done c
      → is_ok (validate s.connection c) ≡ true
      → read_both b fs ssid ≡ done (s, c)
  unfolding read_both
  read_both_done field s c h1 h2 h3 h4 h5 h6 = rw (h1, h2, h3, h4, h5, h6)

  read_secret_done :
      (field : List ℕ) (owner : Ssid) (c : Credentials)
      → read_field fs (key b's' ssid) max_secret_size ≡ done field
      → decode_secret field ≡ done (owner, c)
      → ssid_eq owner ssid ≡ true
      → read_secret b fs ssid ≡ done c
  unfolding read_secret
  read_secret_done field owner c h1 h2 h3 = ground arith

  -- What `read` returns passed every one of its tests.
  pub read_both_parts :
      (s : ProfileSettings) (c : Credentials)
      → read_both b fs ssid ≡ done (s, c)
      → (bad_ssid ssid ≡ false)
        × (ssid_eq s.connection.ssid ssid ≡ true)
        × (secret_for b fs ssid s ≡ done c)
        × (validate s.connection c ≡ Status.ok)
  unfolding read_both
  read_both_parts s c h = ground (arith, eq_ok (validate s.connection c))

-- What a successful save went through.
module _ (b : Backend) (durable : IsDurable b) (fs : b.Fields) (s : ProfileSettings)
    (u : CredentialUpdate) where
  prepared :
      is_ok (save_profile b fs s u).0 ≡ true
      → (c : Credentials) × (prepare_save b fs s u ≡ done c)
        × (save_profile b fs s u ≡ store_profile b fs s u.intent c)
  unfolding save_profile
  prepared h = elim (Result-cases (prepare_save b fs s u)) [
    | inl (c, e) ↦ (c, e, rw (e, save_profile))
    | inr (x, e) ↦
        absurd
          (prepare_save-Reports b durable fs s u (e ∙ ap err (eq_ok x (rw (e, save_profile) at h))))
  ]

  prepare_save_parts :
      (c : Credentials)
      → prepare_save b fs s u ≡ done c
      → (chosen_secret b fs s.connection.ssid u.intent u.replacement ≡ done c)
        × (validate s.connection c ≡ Status.ok)
        × ((auth_eq s.connection.security AuthMode.open_network ≡ true) → is_clear u.intent ≡ true)
  unfolding prepare_save
  prepare_save_parts c h = ground (arith, eq_ok (validate s.connection c))

-- The credential as it is read back after a save: a replacement is cleared behind its length.
abbrev pub stored_secret : CredentialIntent → Credentials → Credentials
stored_secret CredentialIntent.replace c = clear_secret c
stored_secret _ c = c

module _ (b : Backend) (durable : IsDurable b) (fs : b.Fields) (s : ProfileSettings)
    (v : IsStorable s) where
  abbrev owner : Ssid
  owner = s.connection.ssid

  good_owner : bad_ssid owner ≡ false
  good_owner = let n = v.nonempty in let w = v.ssid.within in ground arith

  -- Reading the profile after the writes, given the secret that is found.
  load_stored :
      (i : CredentialIntent) (c d : Credentials)
      → is_ok (store_profile b fs s i c).0 ≡ true
      → secret_for b (store_profile b fs s i c).1 owner s ≡ done d
      → is_ok (validate (clear_profile s).connection d) ≡ true
      → read_both b (store_profile b fs s i c).1 owner ≡ done (clear_profile s, d)
  load_stored i c d h k e =
      read_both_done b _ owner (encode_profile s) (clear_profile s) d good_owner
        (stored_settings b durable fs s i c (encode_profile_fits s v.ssid.within) h)
        (decode_profile-encode_profile s v) (ssid_eq-clear owner v.ssid) k e

  -- A saved replacement is what load_credentials and load_profile find.
  load-save_replace :
      (c : Credentials)
      → IsSecret c
      → validate s.connection c ≡ Status.ok
      → auth_eq s.connection.security AuthMode.open_network ≡ false
      → is_ok (store_profile b fs s CredentialIntent.replace c).0 ≡ true
      → read_both b (store_profile b fs s CredentialIntent.replace c).1 owner
        ≡ done (clear_profile s, clear_secret c)
  load-save_replace c w valid closed h =
      load_stored CredentialIntent.replace c (clear_secret c) h
        (rw closed (
          read_secret_done b _ owner (encode_secret owner c) (clear_ssid owner) (clear_secret c)
            (stored_replacement b durable fs s CredentialIntent.replace c refl
              (length-encode_secret owner c v.ssid.within w.within) h)
            (decode_secret-encode_secret owner c v.ssid v.nonempty w) (ssid_eq-clear owner v.ssid)))
        (rw (validate-clear s c w, valid) is_ok-ok)

  -- Only an open network goes without a credential.
  closed_has_secret :
      (m : AuthMode) (c : Credentials)
      → validate_secret m c ≡ Status.ok
      → auth_eq m AuthMode.open_network ≡ false
      → c.size ≢ 0
  closed_has_secret m c h closed e = fits ((validate_secret_iff m c).0 h) closed
    where
      fits : {n : AuthMode} → CredentialFits c n → auth_eq n AuthMode.open_network ≡ false → ⊥
      fits (no_secret z) k = unfold auth_code in (ground arith)
      fits (wep_raw _ z) k = ground arith
      fits (wep_hex _ z _) k = ground arith
      fits (psk _ _ z _) k = ground arith
      fits (passphrase _ _ z _ _) k = omega arith

  valid_secret :
      (t : ProfileSettings) (c : Credentials)
      → validate t.connection c ≡ Status.ok
      → validate_secret t.connection.security c ≡ Status.ok
  unfolding validate
  valid_secret t c h = ground arith

  load-save_clear :
      validate s.connection no_credentials ≡ Status.ok
      → is_ok (store_profile b fs s CredentialIntent.clear no_credentials).0 ≡ true
      → read_both b (store_profile b fs s CredentialIntent.clear no_credentials).1 owner
        ≡ done (clear_profile s, no_credentials)
  load-save_clear valid h =
      load_stored CredentialIntent.clear no_credentials no_credentials h
        (elim (Bool-cases (auth_eq s.connection.security AuthMode.open_network)) [
          | inl free ↦ rw free
          | inr closed ↦ absurd (
              closed_has_secret s.connection.security no_credentials
                (valid_secret s no_credentials valid) closed refl)
        ])
        (rw (validate-clear_settings s no_credentials, valid) is_ok-ok)

  -- A secret that is kept is still found.
  same_secret :
      (gs : b.Fields)
      → b.read_field gs (key b's' owner) max_secret_size
        ≡ b.read_field fs (key b's' owner) max_secret_size
      → read_secret b gs owner ≡ read_secret b fs owner
  unfolding read_secret
  same_secret gs e = ap (found) e
    where
      found : Result (List ℕ) → Result Credentials
      found x = elim x [
        | err s ↦ err (if is_not_found s then Status.corrupt else s)
        | done field ↦ do
          (o, secret) ← decode_secret field
          guard (ssid_eq o owner) Status.hash_collision
          done secret
      ]

  load-save_keep :
      (old : ProfileSettings) (c : Credentials)
      → read_both b fs owner ≡ done (old, c)
      → validate s.connection c ≡ Status.ok
      → auth_eq s.connection.security AuthMode.open_network ≡ false
      → is_ok (store_profile b fs s CredentialIntent.keep c).0 ≡ true
      → read_both b (store_profile b fs s CredentialIntent.keep c).1 owner
        ≡ done (clear_profile s, c)
  load-save_keep old c loaded valid closed h =
      let (_, _, kept, _) = read_both_parts b fs owner old c loaded in
      let some_secret = closed_has_secret s.connection.security c (valid_secret s c valid) closed in
      load_stored CredentialIntent.keep c c h
        (rw closed (
          same_secret _ (stored_keep b durable fs s CredentialIntent.keep c refl refl h)
          ∙ elim (Bool-cases (auth_eq old.connection.security AuthMode.open_network)) [
            | inl free ↦ absurd (some_secret (ground arith))
            | inr shut ↦ rw shut at kept
          ]))
        (rw (validate-clear_settings s c, valid) is_ok-ok)

  open_uncleared :
      (i : CredentialIntent)
      → ((auth_eq s.connection.security AuthMode.open_network ≡ true) → is_clear i ≡ true)
      → is_clear i ≡ false
      → auth_eq s.connection.security AuthMode.open_network ≡ false
  open_uncleared i h k = ground arith

  load-store :
      (i : CredentialIntent) (r c : Credentials)
      → IsSecret r
      → chosen_secret b fs owner i r ≡ done c
      → validate s.connection c ≡ Status.ok
      → ((auth_eq s.connection.security AuthMode.open_network ≡ true) → is_clear i ≡ true)
      → is_ok (store_profile b fs s i c).0 ≡ true
      → read_both b (store_profile b fs s i c).1 owner ≡ done (clear_profile s, stored_secret i c)
  unfolding chosen_secret load_credentials
  load-store CredentialIntent.keep r c w chosen valid closed h =
      elim (Result-cases (read_both b fs owner)) [
        | inl ((old, d), e) ↦
            load-save_keep old c (ground arith) valid
              (open_uncleared CredentialIntent.keep closed refl) h
        | inr (x, e) ↦ absurd (ground arith)
      ]
  load-store CredentialIntent.replace r c w chosen valid closed h =
      load-save_replace c (subst IsSecret (ground arith) w) valid
        (open_uncleared CredentialIntent.replace closed refl) h
  load-store CredentialIntent.clear r c w chosen valid closed h =
      let e : no_credentials ≡ c = ground arith in
      subst
        (λ d.
          validate s.connection d ≡ Status.ok
          → is_ok (store_profile b fs s CredentialIntent.clear d).0 ≡ true
          → read_both b (store_profile b fs s CredentialIntent.clear d).1 owner
            ≡ done (clear_profile s, d))
        e load-save_clear valid h
  load-store (CredentialIntent.unnamed n) r c w chosen valid closed h = absurd (cc)

-- After a save that returned kOk over a durable backend, reading the profile finds the saved
-- settings with the credential that the update chose: the replacement, the one kept, or none.
pub load-save :
    (b : Backend) (fs : b.Fields) (s : ProfileSettings) (u : CredentialUpdate)
    → IsDurable b
    → IsStorable s
    → IsSecret u.replacement
    → is_ok (save_profile b fs s u).0 ≡ true
    → (c : Credentials) × (chosen_secret b fs s.connection.ssid u.intent u.replacement ≡ done c)
      × (read_both b (save_profile b fs s u).1 s.connection.ssid
          ≡ done (clear_profile s, stored_secret u.intent c))
load-save b fs s u durable v w h =
    let (c, e, same) = prepared b durable fs s u h in
    let (chosen, valid, closed) = prepare_save_parts b durable fs s u c e in
    (
      c,
      chosen,
      rw same (
          load-store b durable fs s v u.intent u.replacement c w chosen valid closed
            (rw same at h)),
    )
