-- ===== src/FieldStore/Ownership.antt =====
-- What a load tells, what a refused save leaves, and what a removal takes away.
use roo_wifi.Base.{
  ℕ, ◌≤◌, ◌≡◌, refl, sym, ap, ◌∙◌, ◌≢◌, inl, inr, Bool, true, false, not, List, [], ◌∷◌, ◌==◌,
  if◌then◌else◌, get_or, arith, Bool-cases,
}
use mathlib.Core.Path.{subst}
use roo_wifi.Types.{
  Status, is_ok, eq_ok, is_not_found, Result, Result-cases, done, err, Ssid, ssid_eq, Credentials,
  CredentialUpdate, CredentialIntent, ProfileSettings, Profile, ◌>>=◌, AuthMode, auth_eq, auth_code,
}
use roo_wifi.Configuration.{validate}
use roo_wifi.Codec.Keys.{key}
use roo_wifi.Codec.Writing.{max_profile_size, max_secret_size}
use roo_wifi.Codec.Reading.{decode_profile, decode_secret}
use roo_wifi.FieldStore.Backend.{Backend, IsDurable}
use roo_wifi.FieldStore.Reads.{
  bad_ssid, last_key, read_both, load_profile, load_credentials, check_identity, decode_last, guard,
  check_profile_owner, check_secret_owner, read_last_profile,
}
use roo_wifi.FieldStore.Writes.{
  chosen_secret, is_clear, prepare_save, save_profile, write_last_profile, forget_last,
  remove_profile,
}
use roo_wifi.FieldStore.WriteLaws.{key-ne}
use roo_wifi.FieldStore.SaveLoad.{read_both_parts}
use roo_wifi.FieldStore.Reports.{check_identity-Reports, prepare_save-Reports}

-- A profile that loads belongs to the SSID that was asked for, its credential loads too, and the
-- two pass Validate.
pub load_profile_owned :
    (b : Backend) (fs : b.Fields) (ssid : Ssid) (p : Profile)
    → load_profile b fs ssid ≡ done p
    → (ssid_eq p.settings.connection.ssid ssid ≡ true)
      × (c : Credentials) × (load_credentials b fs ssid ≡ done c)
      × (validate p.settings.connection c ≡ Status.ok)
      × (p.has_credentials ≡ not (c.size == 0))
unfolding load_profile load_credentials
load_profile_owned b fs ssid p h = elim (Result-cases (read_both b fs ssid)) [
  | inl ((s, c), e) ↦
      let (_, own, _, valid) = read_both_parts b fs ssid s c e in
      subst
        (λ (q : Profile).
          (ssid_eq q.settings.connection.ssid ssid ≡ true)
          × (d : Credentials) × (load_credentials b fs ssid ≡ done d)
          × (validate q.settings.connection d ≡ Status.ok)
          × (q.has_credentials ≡ not (d.size == 0)))
        {x = record { settings = s; has_credentials = not (c.size == 0) }} {y = p} (ground arith)
        (own, c, rw (e, load_credentials), valid, refl)
  | inr (x, e) ↦ absurd (ground arith)
]

-- A field that a profile may use: it is absent, or its record decodes and names the SSID.
pub data IsOwn {A : Type 0} (decode : List ℕ → Result A) (owner : A → Ssid) (ssid : Ssid)
    (read : Result (List ℕ)) : Type 0 where
  missing : read ≡ err Status.not_found → IsOwn decode owner ssid read
  own :
      (field : List ℕ) (a : A)
      → read ≡ done field
      → decode field ≡ done a
      → ssid_eq (owner a) ssid ≡ true
      → IsOwn decode owner ssid read

-- What a save has to pass before it writes.
pub record IsAdmitted (b : Backend) (fs : b.Fields) (s : ProfileSettings) (u : CredentialUpdate)
    : Type 0 where
  pub ssid : (1 ≤ s.connection.ssid.size) × (s.connection.ssid.size ≤ 32)
  pub profile :
      IsOwn decode_profile
        (λ (p : ProfileSettings). p.connection.ssid)
        s.connection.ssid
        (b.read_field fs (key b'p' s.connection.ssid) max_secret_size)
  pub secret :
      IsOwn decode_secret
        (λ (p : Ssid × Credentials). p.0)
        s.connection.ssid
        (b.read_field fs (key b's' s.connection.ssid) max_secret_size)
  pub open_clears :
      s.connection.security ≡ AuthMode.open_network
      → (u.intent ≡ CredentialIntent.clear) × (u.replacement.size ≡ 0)
  pub chosen :
      (c : Credentials) × (chosen_secret b fs s.connection.ssid u.intent u.replacement ≡ done c)
      × (validate s.connection c ≡ Status.ok)

guard-not_found : (x : Status) (t : Unit) → guard (is_not_found x) x ≡ done t → x ≡ Status.not_found
unfolding is_not_found
guard-not_found x t e = ground arith

owned_settings :
    (field : List ℕ) (ssid : Ssid) (t : Unit) (x : Result ProfileSettings)
    → (x >>= (λ p. guard (ssid_eq p.connection.ssid ssid) Status.hash_collision)) ≡ done t
    → (p : ProfileSettings) × (x ≡ done p) × (ssid_eq p.connection.ssid ssid ≡ true)
owned_settings field ssid t (done p) e = (p, refl, ground arith)
owned_settings field ssid t (err x) e = absurd (cc)

owned_secret :
    (field : List ℕ) (ssid : Ssid) (t : Unit) (x : Result (Ssid × Credentials))
    → (x >>= (λ p. guard (ssid_eq p.0 ssid) Status.hash_collision)) ≡ done t
    → (p : Ssid × Credentials) × (x ≡ done p) × (ssid_eq p.0 ssid ≡ true)
owned_secret field ssid t (done p) e = (p, refl, ground arith)
owned_secret field ssid t (err x) e = absurd (cc)

module _ (b : Backend) (fs : b.Fields) where
  check_profile_owner-IsOwn :
      (ssid : Ssid) (t : Unit)
      → check_profile_owner b fs ssid ≡ done t
      → IsOwn decode_profile
          (λ (p : ProfileSettings). p.connection.ssid)
          ssid
          (b.read_field fs (key b'p' ssid) max_secret_size)
  unfolding check_profile_owner
  check_profile_owner-IsOwn ssid t h =
      elim (Result-cases (b.read_field fs (key b'p' ssid) max_secret_size)) [
        | inl (field, e) ↦
            let (p, decoded, same) =
              owned_settings field ssid t (decode_profile field)
                (rw (e, check_profile_owner) at h) in
            IsOwn.own field p e decoded same
        | inr (x, e) ↦
            IsOwn.missing (e ∙ ap err (guard-not_found x t (rw (e, check_profile_owner) at h)))
      ]

  check_secret_owner-IsOwn :
      (ssid : Ssid) (t : Unit)
      → check_secret_owner b fs ssid ≡ done t
      → IsOwn decode_secret
          (λ (p : Ssid × Credentials). p.0)
          ssid
          (b.read_field fs (key b's' ssid) max_secret_size)
  unfolding check_secret_owner
  check_secret_owner-IsOwn ssid t h =
      elim (Result-cases (b.read_field fs (key b's' ssid) max_secret_size)) [
        | inl (field, e) ↦
            let (p, decoded, same) =
              owned_secret field ssid t (decode_secret field) (rw (e, check_secret_owner) at h) in
            IsOwn.own field p e decoded same
        | inr (x, e) ↦
            IsOwn.missing (e ∙ ap err (guard-not_found x t (rw (e, check_secret_owner) at h)))
      ]

  identity_parts :
      (ssid : Ssid) (t : Unit)
      → check_identity b fs ssid ≡ done t
      → (1 ≤ ssid.size)
        × (ssid.size ≤ 32)
        × (check_profile_owner b fs ssid ≡ done tt)
        × (check_secret_owner b fs ssid ≡ done tt)
  unfolding check_identity
  identity_parts ssid t h = ground arith

  save_parts :
      (s : ProfileSettings) (u : CredentialUpdate) (c : Credentials)
      → prepare_save b fs s u ≡ done c
      → (check_identity b fs s.connection.ssid ≡ done tt)
        × (auth_eq s.connection.security AuthMode.open_network ≡ true
            → (is_clear u.intent ≡ true) × (u.replacement.size ≡ 0))
        × (chosen_secret b fs s.connection.ssid u.intent u.replacement ≡ done c)
        × (validate s.connection c ≡ Status.ok)
  unfolding prepare_save
  save_parts s u c h = ground (arith, eq_ok (validate s.connection c))

  is_open : (m : AuthMode) → m ≡ AuthMode.open_network → auth_eq m AuthMode.open_network ≡ true
  unfolding auth_code
  is_open m e = ground arith

  prepare_save-IsAdmitted :
      (s : ProfileSettings) (u : CredentialUpdate) (c : Credentials)
      → prepare_save b fs s u ≡ done c
      → IsAdmitted b fs s u
  prepare_save-IsAdmitted s u c h =
      let (identity, open_, chosen, valid) = save_parts s u c h in
      let (lower, upper, profile, secret) = identity_parts s.connection.ssid tt identity in
      record {
        ssid = (lower, upper);
        profile = check_profile_owner-IsOwn s.connection.ssid tt profile;
        secret = check_secret_owner-IsOwn s.connection.ssid tt secret;
        open_clears = λ e. ground (arith, open_ (is_open s.connection.security e));
        chosen = (c, chosen, valid);
      }

-- A save that fails one of these tests changes no field and returns an error: the SSID has 1 to 32
-- bytes, its two fields are absent or hold records of that SSID, an open network comes with a
-- clearing and no replacement, and the secret that the update chooses passes Validate. This covers
-- a field that cannot be read.
pub save_profile_refused :
    (b : Backend) (durable : IsDurable b) (fs : b.Fields) (s : ProfileSettings)
    (u : CredentialUpdate)
    → ¬ IsAdmitted b fs s u
    → ((save_profile b fs s u).1 ≡ fs) × (is_ok (save_profile b fs s u).0 ≡ false)
unfolding save_profile
save_profile_refused b durable fs s u refused = elim (Result-cases (prepare_save b fs s u)) [
  | inl (c, e) ↦ absurd (refused (prepare_save-IsAdmitted b fs s u c e))
  | inr (x, e) ↦ (
    rw (e, save_profile) refl,
    rw (e, save_profile)
        (elim (Bool-cases (is_ok x)) [
          | inl k ↦ absurd (prepare_save-Reports b durable fs s u (e ∙ ap err (eq_ok x k)))
          | inr k ↦ k
        ]),
  )
]

last_key-ne : (kind : ℕ) (s : Ssid) → kind ≢ b'l' → key kind s ≢ last_key
unfolding key
last_key-ne kind s h e = h (ap (λ (l : List ℕ). get_or l 0 0) e)

decode_last-Reports : (field : List ℕ) → decode_last field ≢ err Status.ok
unfolding decode_last
decode_last-Reports [] = λ e. cc
decode_last-Reports (n ∷ text) = ground arith

erased_ok : (t : Bool) → is_ok (if t then Status.ok else Status.storage_failure) ≡ true → t ≡ true
unfolding is_ok
erased_ok true h = refl
erased_ok false h = cc

module _ (b : Backend) (durable : IsDurable b) where
  read_last_profile-Reports : (fs : b.Fields) → read_last_profile b fs ≢ err Status.ok
  unfolding read_last_profile
  read_last_profile-Reports fs = elim (Result-cases (b.read_field fs last_key 33)) [
    | inl (field, e) ↦ rw (e, read_last_profile) (decode_last-Reports field)
    | inr (x, e) ↦
        rw (e, read_last_profile)
          (λ h. durable.read_reports fs last_key 33 (e ∙ ap err (ground arith)))
  ]

  -- Nothing is selected once the field is erased.
  read_last_erased :
      (fs : b.Fields)
      → is_ok (b.erase_field fs last_key).0 ≡ true
      → read_last_profile b (b.erase_field fs last_key).1 ≡ err Status.not_found
  unfolding read_last_profile
  read_last_erased fs h = rw (durable.read-erase fs last_key 33 h)

  -- The selection is gone, or names another profile.
  module _ (fs : b.Fields) (ssid : Ssid) where
    forget_last_other :
        is_ok (forget_last b fs ssid).0 ≡ true
        → (l : Ssid) → read_last_profile b (forget_last b fs ssid).1 ≡ done l
        → ssid_eq l ssid ≡ false
    unfolding forget_last write_last_profile
    forget_last_other h l e = elim (Result-cases (read_last_profile b fs)) [
      | inr (x, p) ↦ absurd (cc (p, (rw (p, forget_last) at e)))
      | inl (last, p) ↦ elim (Bool-cases (ssid_eq last ssid)) [
        | inr other ↦ ground (arith, p, (rw (p, forget_last, other) at e))
        | inl same ↦
            let erased : is_ok (b.erase_field fs last_key).0 ≡ true =
              erased_ok _ (rw (p, forget_last, same) at h) in
            absurd (cc (read_last_erased fs erased, (rw (p, forget_last, same) at e)))
      ]
    ]

    forget_last_fields :
        (k : List ℕ) (capacity : ℕ)
        → k ≢ last_key
        → b.read_field (forget_last b fs ssid).1 k capacity ≡ b.read_field fs k capacity
    unfolding forget_last write_last_profile
    forget_last_fields k capacity ne = elim (Result-cases (read_last_profile b fs)) [
      | inr (x, e) ↦ rw (e, forget_last)
      | inl (last, e) ↦
          rw (e, forget_last) (ground (arith, durable.read-erase_other fs last_key k capacity ne))
    ]

  identity_ssid :
      (fs : b.Fields) (ssid : Ssid) (t : Unit)
      → check_identity b fs ssid ≡ done t
      → bad_ssid ssid ≡ false
  unfolding check_identity
  identity_ssid fs ssid t e = ground arith

  load_missing :
      (fs : b.Fields) (ssid : Ssid)
      → bad_ssid ssid ≡ false
      → b.read_field fs (key b'p' ssid) max_profile_size ≡ err Status.not_found
      → load_profile b fs ssid ≡ err Status.not_found
  unfolding load_profile read_both
  load_missing fs ssid h e = rw (h, e)

  failure_fails : is_ok Status.storage_failure ≡ false
  unfolding is_ok
  failure_fails = refl

  removal :
      (fs : b.Fields) (ssid : Ssid) (t : Unit)
      → check_identity b fs ssid ≡ done t
      → is_ok (remove_profile b fs ssid).0 ≡ true
      → (is_ok (b.erase_field fs (key b'p' ssid)).0 ≡ true)
        × (is_ok (b.erase_field (b.erase_field fs (key b'p' ssid)).1 (key b's' ssid)).0 ≡ true)
        × (remove_profile b fs ssid
            ≡ forget_last b
                (b.erase_field (b.erase_field fs (key b'p' ssid)).1 (key b's' ssid)).1
                ssid)
  unfolding remove_profile
  removal fs ssid t e h = ground (arith, failure_fails)

  -- After a removal that returned kOk over a durable backend the profile is not found, and it is
  -- not the last profile any more.
  pub load-remove_profile :
      (fs : b.Fields) (ssid : Ssid)
      → is_ok (remove_profile b fs ssid).0 ≡ true
      → (load_profile b (remove_profile b fs ssid).1 ssid ≡ err Status.not_found)
        × ((l : Ssid)
            → read_last_profile b (remove_profile b fs ssid).1 ≡ done l
            → ssid_eq l ssid ≡ false)
  unfolding remove_profile
  load-remove_profile fs ssid h = elim (Result-cases (check_identity b fs ssid)) [
    | inr (x, e) ↦ absurd (
        check_identity-Reports b durable fs ssid
          (e ∙ ap err (eq_ok x (rw (e, remove_profile) at h))))
    | inl (t, e) ↦
        let gs = (b.erase_field fs (key b'p' ssid)).1 in
        let hs = (b.erase_field gs (key b's' ssid)).1 in
        let (e1, e2, last) = removal fs ssid t e h in
        rw last (
          load_missing (forget_last b hs ssid).1 ssid (identity_ssid fs ssid t e) (
              forget_last_fields hs ssid (key b'p' ssid) max_profile_size
                (last_key-ne b'p' ssid (λ q. omega (arith, q)))
              ∙ durable.read-erase_other gs (key b's' ssid) (key b'p' ssid) max_profile_size
                  (λ q. key-ne ssid ssid (sym q))
              ∙ durable.read-erase fs (key b'p' ssid) max_profile_size e1),
          forget_last_other hs ssid (rw last at h),
        )
  ]
