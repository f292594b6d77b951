-- ===== src/Prefs/Enabled.antt =====
-- The stored radio enablement of PrefsStore beside the fields.
use roo_wifi.Base.{ℕ, ◌≡◌, ◌≢◌, refl, ap, Bool, true, List, get_or, arith}
use roo_wifi.Types.{is_ok, done, Ssid}
use roo_wifi.Codec.Writing.{max_secret_size}
use roo_wifi.Codec.Keys.{key}
use roo_wifi.FieldStore.{read_secret, read_both, load_profile, read_last_profile, last_key}
use roo_wifi.Prefs.Library.{Mode, Collection, IsDocumented}
use roo_wifi.Prefs.Operations.{
  read_status, write_status, enabled_key, read_enabled, write_enabled, read_field, prefs,
}

key_apart : (kind : ℕ) (s : Ssid) → kind ≢ b'e' → key kind s ≢ enabled_key
unfolding key
key_apart kind s h e = absurd (h (ap (λ (l : List ℕ). get_or l 0 0) e))

last_apart : last_key ≢ enabled_key
last_apart e = absurd (omega (arith, ap (λ (l : List ℕ). get_or l 0 0) e))

module _ (l : Collection) (documented : IsDocumented l) where
  open l use {Contents, active}
  open documented use {
    opens_to_read, active-write_bool, active-write_bytes, active-clear, read_bool-write_bool,
    read_bytes-write_bool, read_bool-write_bytes, read_bool-clear,
  }

  -- The enablement that writeEnabled stored with kOk is what readEnabled returns.
  pub read_enabled-write_enabled :
      (m : Contents) (v : Bool)
      → is_ok (write_enabled l m v).0 ≡ true
      → read_enabled l (write_enabled l m v).1 ≡ done v
  unfolding read_enabled write_enabled read_status write_status is_ok
  read_enabled-write_enabled m v h = ground (
    arith,
    opens_to_read m,
    active-write_bool Mode.read_only m enabled_key v,
    read_bool-write_bool m enabled_key v,
  )

  read_field-write_enabled :
      (m : Contents) (v : Bool) (k : List ℕ) (capacity : ℕ)
      → k ≢ enabled_key
      → read_field l (write_enabled l m v).1 k capacity ≡ read_field l m k capacity
  unfolding read_field write_enabled
  read_field-write_enabled m v k capacity h = ground (
    arith,
    active-write_bool Mode.read_only m enabled_key v,
    read_bytes-write_bool m enabled_key k v capacity h,
  )

  module _ (m : Contents) (v : Bool) where
    read_secret-write_enabled :
        (s : Ssid) → read_secret (prefs l) (write_enabled l m v).1 s ≡ read_secret (prefs l) m s
    unfolding read_secret
    read_secret-write_enabled s = ground (
      arith,
      read_field-write_enabled m v (key b's' s) max_secret_size
          (key_apart b's' s (λ e. omega arith)),
    )

    read_both-write_enabled :
        (s : Ssid) → read_both (prefs l) (write_enabled l m v).1 s ≡ read_both (prefs l) m s
    unfolding read_both
    read_both-write_enabled s =
        rw (read_field-write_enabled m v (key b'p' s) _ (key_apart b'p' s (λ e. omega arith)))
          (rw (read_secret-write_enabled s) refl)

    -- Storing the enablement changes no profile and no last profile, whether it succeeds or not.
    pub load_profile-write_enabled :
        (s : Ssid)
        → (load_profile (prefs l) (write_enabled l m v).1 s ≡ load_profile (prefs l) m s)
          × (read_last_profile (prefs l) (write_enabled l m v).1 ≡ read_last_profile (prefs l) m)
    unfolding load_profile read_last_profile
    load_profile-write_enabled s = (
      rw (read_both-write_enabled s) refl,
      rw (read_field-write_enabled m v last_key 33 last_apart) refl,
    )
