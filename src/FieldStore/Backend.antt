-- ===== src/FieldStore/Backend.antt =====
-- The virtual functions of class FieldStore in src/roo_wifi/hal/field_store.h, which a platform
-- implements, and what their documentation promises.
use roo_wifi.Base.{ℕ, ◌≤◌, ◌≡◌, ◌≢◌, Bool, true, List, length}
use roo_wifi.Types.{Status, is_ok, Result, done, err}

pub record Backend : Type 1 where
  pub Fields : Type 0
  -- readField: the value of a key, for a buffer of the given size.
  pub read_field : Fields → List ℕ → ℕ → Result (List ℕ)
  -- writeField and eraseField.
  pub write_field : Fields → List ℕ → List ℕ → Status × Fields
  pub erase_field : Fields → List ℕ → Status × Fields
  -- enumerateFields, with a visitor that carries a context.
  pub enumerate_fields : (C : Type 0) → Fields → (C → List ℕ → Bool × C) → C → Status × C

-- Successful writes and erasures are durable, and touch one field.
pub record IsDurable (b : Backend) : Type 0 where
  -- A read without a value reports an error.
  pub read_reports :
      (fs : b.Fields) (k : List ℕ) (capacity : ℕ) → b.read_field fs k capacity ≢ err Status.ok
  pub read-write :
      (fs : b.Fields) (k d : List ℕ) (capacity : ℕ)
      → is_ok (b.write_field fs k d).0 ≡ true
      → length d ≤ capacity
      → b.read_field (b.write_field fs k d).1 k capacity ≡ done d
  pub read-write_other :
      (fs : b.Fields) (k d j : List ℕ) (capacity : ℕ)
      → j ≢ k
      → b.read_field (b.write_field fs k d).1 j capacity ≡ b.read_field fs j capacity
  pub read-erase :
      (fs : b.Fields) (k : List ℕ) (capacity : ℕ)
      → is_ok (b.erase_field fs k).0 ≡ true
      → b.read_field (b.erase_field fs k).1 k capacity ≡ err Status.not_found
  pub read-erase_other :
      (fs : b.Fields) (k j : List ℕ) (capacity : ℕ)
      → j ≢ k
      → b.read_field (b.erase_field fs k).1 j capacity ≡ b.read_field fs j capacity
