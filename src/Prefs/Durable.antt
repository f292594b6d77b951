-- ===== src/Prefs/Durable.antt =====
-- PrefsStore as a durable backend of FieldStore.
use roo_wifi.Base.{ℕ, ◌≤◌, ◌≡◌, ◌≢◌, true, List, length, arith}
use roo_wifi.Types.{Status, is_ok, done, err}
use roo_wifi.FieldStore.Backend.{IsDurable}
use roo_wifi.Prefs.Library.{Mode, Collection, IsDocumented}
use roo_wifi.Prefs.Operations.{
  read_status, write_status, clear_status, read_field, write_field, erase_field, prefs,
}

module _ (l : Collection) (documented : IsDocumented l) where
  open l use {Contents}
  open documented use {
    opens_to_read, active-write_bytes, active-clear, read_bytes-write_bytes,
    read_bytes-write_bytes_other, read_bytes-clear, read_bytes-clear_other, read_bytes-absent,
  }

  read_reports :
      (m : Contents) (k : List ℕ) (capacity : ℕ) → read_field l m k capacity ≢ err Status.ok
  unfolding read_field read_status is_ok
  read_reports m k capacity h = ground arith

  read-write :
      (m : Contents) (k d : List ℕ) (capacity : ℕ)
      → is_ok (write_field l m k d).0 ≡ true
      → length d ≤ capacity
      → read_field l (write_field l m k d).1 k capacity ≡ done d
  unfolding read_field write_field read_status write_status is_ok
  read-write m k d capacity h fits = ground (
    arith,
    opens_to_read m,
    active-write_bytes Mode.read_only m k d,
    read_bytes-write_bytes m k d capacity,
  )

  read-write_other :
      (m : Contents) (k d j : List ℕ) (capacity : ℕ)
      → j ≢ k
      → read_field l (write_field l m k d).1 j capacity ≡ read_field l m j capacity
  unfolding read_field write_field
  read-write_other m k d j capacity h = ground (
    arith,
    active-write_bytes Mode.read_only m k d,
    read_bytes-write_bytes_other m k d j capacity h,
  )

  read-erase :
      (m : Contents) (k : List ℕ) (capacity : ℕ)
      → is_ok (erase_field l m k).0 ≡ true
      → read_field l (erase_field l m k).1 k capacity ≡ err Status.not_found
  unfolding read_field erase_field read_status clear_status is_ok
  read-erase m k capacity h = ground (
    arith,
    opens_to_read m,
    active-clear Mode.read_only m k,
    read_bytes-clear m k capacity,
    read_bytes-absent m k capacity,
  )

  read-erase_other :
      (m : Contents) (k j : List ℕ) (capacity : ℕ)
      → j ≢ k
      → read_field l (erase_field l m k).1 j capacity ≡ read_field l m j capacity
  unfolding read_field erase_field
  read-erase_other m k j capacity h =
      ground (arith, active-clear Mode.read_only m k, read_bytes-clear_other m k j capacity h)

  -- Over a preferences library that keeps its documentation, PrefsStore is a durable backend of
  -- FieldStore: a write or an erasure that returns kOk is seen by the next read, an erased or
  -- absent field reads as not found, and no other field changes.
  pub prefs-IsDurable : IsDurable (prefs l)
  prefs-IsDurable = record {
    read_reports = read_reports;
    read-write = read-write;
    read-write_other = read-write_other;
    read-erase = read-erase;
    read-erase_other = read-erase_other;
  }
