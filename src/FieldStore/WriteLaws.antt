-- ===== src/FieldStore/WriteLaws.antt =====
-- writeVerified over a durable backend, and the fields that a save touches.
use roo_wifi.Base.{
  ℕ, ◌≤◌, ◌≡◌, refl, sym, ap, ◌∙◌, ◌≢◌, inl, inr, true, false, ◌||◌, List, length, eq_of-bytes_eq,
  get_or, arith, Bool-cases,
}
use roo_wifi.Types.{
  Status, is_ok, is_not_found, Result, done, err, Ssid, Credentials, CredentialIntent,
  ProfileSettings,
}
use roo_wifi.Codec.Writing.{max_profile_size, max_secret_size, encode_profile, encode_secret}
use roo_wifi.Codec.Keys.{key}
use roo_wifi.FieldStore.Backend.{Backend, IsDurable}
use roo_wifi.FieldStore.Writes.{
  holds, uncertain, is_clear, is_replace, write_verified, save_secret, clear_field, store_profile,
}

pub holds-eq : (r : Result (List ℕ)) (e : List ℕ) → holds r e ≡ true → r ≡ done e
unfolding holds
holds-eq (done a) e h = ap done (eq_of-bytes_eq a e (ground arith))
holds-eq (err s) e h = absurd (cc)

pub uncertain_fails : (r : Result (List ℕ)) → is_ok (uncertain r) ≡ false
unfolding uncertain is_ok
uncertain_fails (done a) = refl
uncertain_fails (err s) = elim (Bool-cases (is_not_found s || is_ok s)) [
  | inl h ↦ rw h
  | inr h ↦ rw h
]

pub key-ne : (s t : Ssid) → key b's' s ≢ key b'p' t
unfolding key
key-ne s t h = absurd (omega (arith, ap (λ (l : List ℕ). get_or l 0 0) h))

replace_uncleared : (i : CredentialIntent) → is_replace i ≡ true → is_clear i ≡ false
replace_uncleared i h = ground arith

module _ (b : Backend) (durable : IsDurable b) where
  open b use {Fields, read_field, write_field, erase_field}

  -- kOk from writeVerified means that the field holds the expected bytes.
  pub read-write_verified :
      (fs : Fields) (k e : List ℕ) (capacity : ℕ)
      → length e ≤ capacity
      → is_ok (write_verified b fs k e capacity).0 ≡ true
      → read_field (write_verified b fs k e capacity).1 k capacity ≡ done e
  unfolding write_verified
  read-write_verified fs k e capacity fits h = ground (
    arith,
    holds-eq (read_field fs k capacity) e,
    holds-eq (read_field (write_field fs k e).1 k capacity) e,
    durable.read-write fs k e capacity,
    uncertain_fails (read_field (write_field fs k e).1 k capacity),
  )

  pub read-write_verified_other :
      (fs : Fields) (k e j : List ℕ) (capacity c : ℕ)
      → j ≢ k
      → read_field (write_verified b fs k e capacity).1 j c ≡ read_field fs j c
  unfolding write_verified
  read-write_verified_other fs k e j capacity c ne =
      ground (arith, durable.read-write_other fs k e j c ne)

  -- What store_profile leaves in the two fields of its SSID.
  module _ (fs : Fields) (s : ProfileSettings) (i : CredentialIntent) (c : Credentials) where
    abbrev owner : Ssid
    owner = s.connection.ssid

    abbrev after_secret : Fields
    after_secret = (save_secret b fs owner i c).1

    abbrev after_profile : Fields
    after_profile =
        (write_verified b after_secret (key b'p' owner) (encode_profile s) max_profile_size).1

    -- A successful save made each write succeed.
    stages :
        is_ok (store_profile b fs s i c).0 ≡ true
        → (is_ok (save_secret b fs owner i c).0 ≡ true)
          × (is_ok
                (write_verified b after_secret
                  (key b'p' owner)
                  (encode_profile s)
                  max_profile_size).0
              ≡ true)
          × (store_profile b fs s i c ≡ clear_field b after_profile owner i)
    unfolding store_profile
    stages h = ground arith

    clear_field-profile :
        (gs : Fields) (capacity : ℕ)
        → read_field (clear_field b gs owner i).1 (key b'p' owner) capacity
          ≡ read_field gs (key b'p' owner) capacity
    unfolding clear_field
    clear_field-profile gs capacity = ground (
      arith,
      durable.read-erase_other gs (key b's' owner) (key b'p' owner) capacity
          (λ e. key-ne owner owner (sym e)),
    )

    uncleared_field :
        (gs : Fields) → is_clear i ≡ false → clear_field b gs owner i ≡ (Status.ok, gs)
    unfolding clear_field
    uncleared_field gs h = rw h

    unreplaced : is_replace i ≡ false → save_secret b fs owner i c ≡ (Status.ok, fs)
    unfolding save_secret
    unreplaced h = rw h

    -- The secret in front of the write of the profile.
    secret_kept :
        is_clear i ≡ false
        → is_ok (store_profile b fs s i c).0 ≡ true
        → read_field (store_profile b fs s i c).1 (key b's' owner) max_secret_size
          ≡ read_field after_secret (key b's' owner) max_secret_size
    secret_kept h k =
        let (_, _, e) = stages k in
        rw (e, uncleared_field after_profile h)
          (read-write_verified_other after_secret (key b'p' owner) (encode_profile s)
            (key b's' owner) max_profile_size max_secret_size (key-ne owner owner))

    pub stored_settings :
        length (encode_profile s) ≤ max_profile_size
        → is_ok (store_profile b fs s i c).0 ≡ true
        → read_field (store_profile b fs s i c).1 (key b'p' owner) max_profile_size
          ≡ done (encode_profile s)
    stored_settings fits h =
        let (_, wrote, e) = stages h in
        rw e (
          clear_field-profile after_profile max_profile_size
          ∙ read-write_verified after_secret (key b'p' owner) (encode_profile s) max_profile_size
              fits wrote)

    replacement_written :
        is_replace i ≡ true
        → length (encode_secret owner c) ≤ max_secret_size
        → is_ok (save_secret b fs owner i c).0 ≡ true
        → read_field after_secret (key b's' owner) max_secret_size ≡ done (encode_secret owner c)
    unfolding save_secret
    replacement_written replaced fits wrote = ground (
      arith,
      read-write_verified fs (key b's' owner) (encode_secret owner c) max_secret_size fits,
    )

    -- The secret is the replacement, or what it was.
    pub stored_replacement :
        is_replace i ≡ true
        → length (encode_secret owner c) ≤ max_secret_size
        → is_ok (store_profile b fs s i c).0 ≡ true
        → read_field (store_profile b fs s i c).1 (key b's' owner) max_secret_size
          ≡ done (encode_secret owner c)
    stored_replacement replaced fits h =
        let (wrote, _, _) = stages h in
        secret_kept (replace_uncleared i replaced) h ∙ replacement_written replaced fits wrote

    pub stored_keep :
        is_replace i ≡ false
        → is_clear i ≡ false
        → is_ok (store_profile b fs s i c).0 ≡ true
        → read_field (store_profile b fs s i c).1 (key b's' owner) max_secret_size
          ≡ read_field fs (key b's' owner) max_secret_size
    stored_keep kept uncleared h =
        secret_kept uncleared h
        ∙ ap (λ (r : Status × Fields). read_field r.1 (key b's' owner) max_secret_size)
            (unreplaced kept)
