-- ===== src/FieldStore/Reports.antt =====
-- An operation that returns no value returns a status other than kOk.
use roo_wifi.Base.{
  ℕ, ◌≡◌, ◌∙◌, ap, inl, inr, ◌≢◌, Bool, true, false, not, List, ◌==◌, if◌then◌else◌, arith,
}
use roo_wifi.Types.{
  Status, is_ok, is_not_found, Result, done, err, Result-cases, no_credentials, ◌>>=◌, Ssid,
  ssid_eq, AuthMode, auth_eq, Credentials, CredentialIntent, CredentialUpdate, ProfileSettings,
}
use roo_wifi.Configuration.{validate}
use roo_wifi.Codec.Writing.{max_profile_size, max_secret_size}
use roo_wifi.Codec.Reading.{
  Reader, go_on, drop_reader, ssid_head, profile_rest, secret_rest, profile_reads, secret_reads,
  decode_profile, decode_secret,
}
use roo_wifi.Codec.Keys.{key}
use roo_wifi.FieldStore.Backend.{Backend, IsDurable}
use roo_wifi.FieldStore.Reads.{
  guard, bad_ssid, read_secret, read_both, load_credentials, check_profile_owner,
  check_secret_owner, check_identity,
}
use roo_wifi.FieldStore.Writes.{chosen_secret, prepare_save}

abbrev pub Reports : {A : Type 0} → Result A → Type 0
Reports r = r ≢ err Status.ok

ssid_head-Reports : (magic : ℕ) (r : Reader) → Reports (ssid_head magic r)
unfolding ssid_head
ssid_head-Reports magic r = ground arith

profile_rest-Reports : (n : ℕ) (bs : List ℕ) (r : Reader) → Reports (profile_rest n bs r)
unfolding profile_rest
profile_rest-Reports n bs r = ground arith

secret_rest-Reports : (s : Ssid) (r : Reader) → Reports (secret_rest s r)
unfolding secret_rest
secret_rest-Reports s r = ground arith

dropped-Reports : {B : Type 0} (y : Result (B × Reader)) → Reports y → Reports (drop_reader y)
dropped-Reports (err s) m n = m (ground arith)
dropped-Reports (done (c, q)) m n = cc

go_on-Reports :
    {A B : Type 0} (f : A → Reader → Result (B × Reader)) (x : Result (A × Reader))
    → Reports x
    → ((a : A) (r : Reader) → Reports (f a r))
    → Reports (drop_reader (go_on f x))
go_on-Reports f (err s) h k e = h (ground arith)
go_on-Reports f (done (a, r)) h k e = dropped-Reports (f a r) (k a r) e

pub decode_profile-Reports : (field : List ℕ) → Reports (decode_profile field)
unfolding decode_profile profile_reads
decode_profile-Reports field =
    go_on-Reports (λ ssid. profile_rest ssid.size ssid.bytes) _ (ssid_head-Reports _ _)
      (λ ssid. profile_rest-Reports ssid.size ssid.bytes)

pub decode_secret-Reports : (field : List ℕ) → Reports (decode_secret field)
unfolding decode_secret secret_reads
decode_secret-Reports field =
    go_on-Reports secret_rest _ (ssid_head-Reports _ _) secret_rest-Reports

bind-Reports :
    {A B : Type 0} (m : Result A) (f : A → Result B)
    → Reports m
    → ((a : A) → Reports (f a))
    → Reports (m >>= f)
bind-Reports (done a) f h k = k a
bind-Reports (err s) f h k = λ e. h (ground arith)

guard-Reports : (t : Bool) (s : Status) → s ≢ Status.ok → Reports (guard t s)
guard-Reports true s h = λ e. cc
guard-Reports false s h = λ e. h (ground arith)

guard-is_ok : (s : Status) → Reports (guard (is_ok s) s)
unfolding is_ok
guard-is_ok Status.ok = λ e. cc
guard-is_ok _ = λ e. cc

guard-is_not_found : (s : Status) → s ≢ Status.ok → Reports (guard (is_not_found s) s)
guard-is_not_found s h = guard-Reports (is_not_found s) s h

corrupt_or : (t : Bool) (s : Status) → s ≢ Status.ok → (if t then Status.corrupt else s) ≢ Status.ok
corrupt_or true s h = λ e. cc
corrupt_or false s h = h

done-Reports : {A : Type 0} (a : A) → Reports (done a)
done-Reports a = λ e. cc

module _ (b : Backend) (durable : IsDurable b) (fs : b.Fields) where
  open b use {read_field}

  field_error :
      (k : List ℕ) (capacity : ℕ) (s : Status) → read_field fs k capacity ≡ err s → s ≢ Status.ok
  field_error k capacity s h e = durable.read_reports fs k capacity (h ∙ ap err e)

  check_profile_owner-Reports : (ssid : Ssid) → Reports (check_profile_owner b fs ssid)
  unfolding check_profile_owner
  check_profile_owner-Reports ssid =
      elim (Result-cases (read_field fs (key b'p' ssid) max_secret_size)) [
        | inl (field, e) ↦
            rw (e, check_profile_owner)
              (bind-Reports (decode_profile field) _ (decode_profile-Reports field)
                (λ s. guard-Reports _ _ (λ h. cc)))
        | inr (s, e) ↦ rw (e, check_profile_owner) (guard-is_not_found s (field_error _ _ s e))
      ]

  check_secret_owner-Reports : (ssid : Ssid) → Reports (check_secret_owner b fs ssid)
  unfolding check_secret_owner
  check_secret_owner-Reports ssid =
      elim (Result-cases (read_field fs (key b's' ssid) max_secret_size)) [
        | inl (field, e) ↦
            rw (e, check_secret_owner)
              (bind-Reports (decode_secret field) _ (decode_secret-Reports field)
                (λ s. guard-Reports _ _ (λ h. cc)))
        | inr (s, e) ↦ rw (e, check_secret_owner) (guard-is_not_found s (field_error _ _ s e))
      ]

  pub check_identity-Reports : (ssid : Ssid) → Reports (check_identity b fs ssid)
  unfolding check_identity
  check_identity-Reports ssid =
      bind-Reports (guard (not (bad_ssid ssid)) Status.invalid_argument) _
        (guard-Reports _ _ (λ h. cc))
        λ _.
          bind-Reports (check_profile_owner b fs ssid) _ (check_profile_owner-Reports ssid)
            λ _. check_secret_owner-Reports ssid

  read_secret-Reports : (ssid : Ssid) → Reports (read_secret b fs ssid)
  unfolding read_secret
  read_secret-Reports ssid = elim (Result-cases (read_field fs (key b's' ssid) max_secret_size)) [
    | inl (field, e) ↦
        rw (e, read_secret)
          (bind-Reports (decode_secret field) _ (decode_secret-Reports field) λ s.
            bind-Reports (guard (ssid_eq s.0 ssid) Status.hash_collision) _
              (guard-Reports _ _ (λ h. cc)) λ _. done-Reports s.1)
    | inr (s, e) ↦
        rw (e, read_secret)
          (λ h. corrupt_or (is_not_found s) s (field_error _ _ s e) (ground arith))
  ]

  secret_for-Reports :
      (ssid : Ssid) (t : Bool) → Reports (if t then done no_credentials else read_secret b fs ssid)
  secret_for-Reports ssid true = done-Reports no_credentials
  secret_for-Reports ssid false = read_secret-Reports ssid

  pub read_both-Reports : (ssid : Ssid) → Reports (read_both b fs ssid)
  unfolding read_both
  read_both-Reports ssid =
      bind-Reports (guard (not (bad_ssid ssid)) Status.invalid_argument) _
        (guard-Reports _ _ (λ h. cc))
        λ _.
          bind-Reports (read_field fs (key b'p' ssid) max_profile_size) _
            (durable.read_reports fs _ _)
            λ field. bind-Reports (decode_profile field) _ (decode_profile-Reports field) λ s.
              bind-Reports (guard (ssid_eq s.connection.ssid ssid) Status.hash_collision) _
                (guard-Reports _ _ (λ h. cc))
                λ _.
                  bind-Reports _ _
                    (secret_for-Reports ssid (auth_eq s.connection.security AuthMode.open_network))
                    λ c.
                      bind-Reports (guard (is_ok (validate s.connection c)) Status.corrupt) _
                        (guard-Reports _ _ (λ h. cc)) λ _. done-Reports (s, c)

  chosen_secret-Reports :
      (ssid : Ssid) (i : CredentialIntent) (c : Credentials) → Reports (chosen_secret b fs ssid i c)
  unfolding chosen_secret load_credentials
  chosen_secret-Reports ssid CredentialIntent.keep c =
      bind-Reports (read_both b fs ssid) _ (read_both-Reports ssid) (λ s. done-Reports s.1)
  chosen_secret-Reports ssid CredentialIntent.replace c = done-Reports c
  chosen_secret-Reports ssid CredentialIntent.clear c =
      bind-Reports (guard (c.size == 0) Status.invalid_argument) _ (guard-Reports _ _ (λ h. cc))
        (λ _. done-Reports no_credentials)
  chosen_secret-Reports ssid (CredentialIntent.unnamed n) c = λ e. cc

  pub prepare_save-Reports :
      (s : ProfileSettings) (u : CredentialUpdate) → Reports (prepare_save b fs s u)
  unfolding prepare_save
  prepare_save-Reports s u =
      bind-Reports (check_identity b fs s.connection.ssid) _
        (check_identity-Reports s.connection.ssid)
        λ _. bind-Reports _ _ (guard-Reports _ Status.invalid_argument (λ h. cc)) λ _.
          bind-Reports _ _ (chosen_secret-Reports s.connection.ssid u.intent u.replacement)
            λ c. bind-Reports _ _ (guard-is_ok (validate s.connection c)) λ _. done-Reports c
