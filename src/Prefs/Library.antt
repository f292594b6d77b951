-- ===== src/Prefs/Library.antt =====
-- roo_prefs::Collection with its transactions and its store, which src/roo_wifi/hal/prefs calls,
-- and what the library documents.
use roo_wifi.Base.{ℕ, ◌≤◌, ◌≡◌, ◌≢◌, Bool, true, false, List, length}

-- The results that the code names, and one for all others.
pub data ReadResult : Type 0 where
  ok not_found wrong_type other : ReadResult

pub data WriteResult : Type 0 where
  ok other : WriteResult

pub data ClearResult : Type 0 where
  ok other : ClearResult

pub data EnumerateResult : Type 0 where
  ok stopped unsupported other : EnumerateResult

-- roo_prefs::Transaction::Mode
pub data Mode : Type 0 where
  read_only read_write : Mode

-- A transaction is open for the length of one operation, so it is whether it can be opened.
pub record Collection : Type 1 where
  pub Contents : Type 0
  pub active : Mode → Contents → Bool
  pub read_bool : Contents → List ℕ → ReadResult × Bool
  pub write_bool : Contents → List ℕ → Bool → WriteResult × Contents
  pub read_bytes : Contents → List ℕ → ℕ → ReadResult × List ℕ
  pub write_bytes : Contents → List ℕ → List ℕ → WriteResult × Contents
  pub is_key : Contents → List ℕ → Bool
  pub clear : Contents → List ℕ → ClearResult × Contents
  pub for_each_key : (C : Type 0) → Contents → (C → List ℕ → Bool × C) → C → EnumerateResult × C

-- What the code relies on: a value that was written is read, a key that was cleared is absent, an
-- operation touches one key, and none of them changes which transactions can be opened.
pub record IsDocumented (l : Collection) : Type 0 where
  pub opens_to_read :
      (m : l.Contents) → l.active Mode.read_write m ≡ true → l.active Mode.read_only m ≡ true
  pub active-write_bool :
      (o : Mode) (m : l.Contents) (k : List ℕ) (v : Bool)
      → l.active o (l.write_bool m k v).1 ≡ l.active o m
  pub active-write_bytes :
      (o : Mode) (m : l.Contents) (k d : List ℕ) → l.active o (l.write_bytes m k d).1 ≡ l.active o m
  pub active-clear :
      (o : Mode) (m : l.Contents) (k : List ℕ) → l.active o (l.clear m k).1 ≡ l.active o m
  pub read_bool-write_bool :
      (m : l.Contents) (k : List ℕ) (v : Bool)
      → (l.write_bool m k v).0 ≡ WriteResult.ok
      → l.read_bool (l.write_bool m k v).1 k ≡ (ReadResult.ok, v)
  pub read_bytes-write_bool :
      (m : l.Contents) (k j : List ℕ) (v : Bool) (capacity : ℕ)
      → j ≢ k
      → l.read_bytes (l.write_bool m k v).1 j capacity ≡ l.read_bytes m j capacity
  pub read_bool-write_bytes :
      (m : l.Contents) (k d j : List ℕ)
      → j ≢ k
      → l.read_bool (l.write_bytes m k d).1 j ≡ l.read_bool m j
  pub read_bool-clear :
      (m : l.Contents) (k j : List ℕ) → j ≢ k → l.read_bool (l.clear m k).1 j ≡ l.read_bool m j
  pub read_bytes-write_bytes :
      (m : l.Contents) (k d : List ℕ) (capacity : ℕ)
      → (l.write_bytes m k d).0 ≡ WriteResult.ok
      → length d ≤ capacity
      → l.read_bytes (l.write_bytes m k d).1 k capacity ≡ (ReadResult.ok, d)
  pub read_bytes-write_bytes_other :
      (m : l.Contents) (k d j : List ℕ) (capacity : ℕ)
      → j ≢ k
      → l.read_bytes (l.write_bytes m k d).1 j capacity ≡ l.read_bytes m j capacity
  pub read_bytes-clear :
      (m : l.Contents) (k : List ℕ) (capacity : ℕ)
      → (l.clear m k).0 ≡ ClearResult.ok
      → (l.read_bytes (l.clear m k).1 k capacity).0 ≡ ReadResult.not_found
  pub read_bytes-clear_other :
      (m : l.Contents) (k j : List ℕ) (capacity : ℕ)
      → j ≢ k
      → l.read_bytes (l.clear m k).1 j capacity ≡ l.read_bytes m j capacity
  pub read_bytes-absent :
      (m : l.Contents) (k : List ℕ) (capacity : ℕ)
      → l.is_key m k ≡ false
      → (l.read_bytes m k capacity).0 ≡ ReadResult.not_found
