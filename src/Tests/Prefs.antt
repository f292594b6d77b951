-- ===== src/Tests/Prefs.antt =====
-- PrefsStore over a preferences library in memory.
use roo_wifi.Base.{
  ℕ, ◌≤◌, ◌≡◌, refl, ◌≢◌, Bool, true, false, List, [], ◌∷◌, leb, if◌then◌else◌, length, bytes_eq,
  bytes_eq_self, eq_of-bytes_eq, arith,
}
use mathlib.Core.Option.{Option, none, some}
use roo_wifi.Types.{is_ok, done}
use roo_wifi.FieldStore.Backend.{IsDurable}
use roo_wifi.FieldStore.{load_profile, read_last_profile}
use roo_wifi.Prefs.{
  ReadResult, WriteResult, ClearResult, EnumerateResult, Collection, IsDocumented, read_enabled,
  write_enabled, prefs, write_status,
}
use roo_wifi.Prefs.Durable.{prefs-IsDurable}
use roo_wifi.Prefs.Enabled.{read_enabled-write_enabled, load_profile-write_enabled}
use roo_wifi.Tests.Data.{home}

data Value : Type 0 where
  flag : Bool → Value
  blob : List ℕ → Value

record Flash : Type 0 where
  ready : Bool
  entries : List (List ℕ × Value)

look : List (List ℕ × Value) → List ℕ → Option Value
look [] k = none
look ((j, v) ∷ m) k = let rest = look m k in if bytes_eq j k then some v else rest

drop : List (List ℕ × Value) → List ℕ → List (List ℕ × Value)
drop [] k = []
drop ((j, v) ∷ m) k = let rest = drop m k in if bytes_eq j k then rest else (j, v) ∷ rest

look-drop : (m : List (List ℕ × Value)) (k : List ℕ) → look (drop m k) k ≡ none
unfolding look drop
look-drop [] k = refl
look-drop ((j, v) ∷ m) k = ground (arith, look-drop m k)

look-drop_other : (m : List (List ℕ × Value)) (k j : List ℕ) → j ≢ k → look (drop m k) j ≡ look m j
unfolding look drop
look-drop_other [] k j h = refl
look-drop_other ((i, v) ∷ m) k j h =
    ground (arith, look-drop_other m k j h, eq_of-bytes_eq i k, eq_of-bytes_eq i j)

look-put : (m : List (List ℕ × Value)) (k : List ℕ) (v : Value) → look ((k, v) ∷ m) k ≡ some v
unfolding look
look-put m k v = ground (arith, bytes_eq_self k)

look-put_other :
    (m : List (List ℕ × Value)) (k j : List ℕ) (v : Value) → j ≢ k → look ((k, v) ∷ m) j ≡ look m j
unfolding look
look-put_other m k j v h = ground (arith, eq_of-bytes_eq k j)

as_bool : Option Value → ReadResult × Bool
as_bool none = (ReadResult.not_found, false)
as_bool (some (flag b)) = (ReadResult.ok, b)
as_bool (some (blob d)) = (ReadResult.wrong_type, false)

as_bytes : ℕ → Option Value → ReadResult × List ℕ
as_bytes capacity none = (ReadResult.not_found, [])
as_bytes capacity (some (flag b)) = (ReadResult.wrong_type, [])
as_bytes capacity (some (blob d)) =
    if leb (length d) capacity then (ReadResult.ok, d) else (ReadResult.other, [])

is_some : Option Value → Bool
is_some none = false
is_some (some v) = true

put : Flash → List ℕ → Value → WriteResult × Flash
put f k v = (WriteResult.ok, record f { entries = (k, v) ∷ f.entries })

visit_keys :
    (C : Type 0) → List (List ℕ × Value) → (C → List ℕ → Bool × C) → C → EnumerateResult × C
visit_keys C [] visitor context = (EnumerateResult.ok, context)
visit_keys C ((j, v) ∷ m) visitor context =
    let (more, context') = visitor context j in
    let rest = visit_keys C m visitor context' in
    if more then rest else (EnumerateResult.stopped, context')

abbrev flash : Collection
flash = record {
  Contents = Flash;
  active = λ o f. f.ready;
  read_bool = λ f k. as_bool (look f.entries k);
  write_bool = λ f k b. put f k (flag b);
  read_bytes = λ f k capacity. as_bytes capacity (look f.entries k);
  write_bytes = λ f k d. put f k (blob d);
  is_key = λ f k. is_some (look f.entries k);
  clear = λ f k. (ClearResult.ok, record f { entries = drop f.entries k });
  for_each_key = λ C f. visit_keys C f.entries;
}

fits :
    (d : List ℕ) (capacity : ℕ)
    → length d ≤ capacity
    → as_bytes capacity (some (blob d)) ≡ (ReadResult.ok, d)
unfolding as_bytes
fits d capacity h = ground arith

absent :
    (o : Option Value) (capacity : ℕ)
    → is_some o ≡ false
    → (as_bytes capacity o).0 ≡ ReadResult.not_found
unfolding is_some as_bytes
absent o capacity h = ground arith

nothing : (capacity : ℕ) → (as_bytes capacity none).0 ≡ ReadResult.not_found
unfolding as_bytes
nothing capacity = refl

boolean : (b : Bool) → as_bool (some (flag b)) ≡ (ReadResult.ok, b)
unfolding as_bool
boolean b = refl

flash-IsDocumented : IsDocumented flash
unfolding put
flash-IsDocumented = record {
  opens_to_read = λ m h. h;
  active-write_bool = λ o m k v. refl;
  active-write_bytes = λ o m k d. refl;
  active-clear = λ o m k. refl;
  read_bool-write_bool = λ m k v h. rw (look-put m.entries k (flag v)) (boolean v);
  read_bytes-write_bool = λ m k j v capacity h. rw (look-put_other m.entries k j (flag v) h) refl;
  read_bool-write_bytes = λ m k d j h. rw (look-put_other m.entries k j (blob d) h) refl;
  read_bool-clear = λ m k j h. rw (look-drop_other m.entries k j h) refl;
  read_bytes-write_bytes =
      λ m k d capacity h w. rw (look-put m.entries k (blob d)) (fits d capacity w);
  read_bytes-write_bytes_other =
      λ m k d j capacity h. rw (look-put_other m.entries k j (blob d) h) refl;
  read_bytes-clear = λ m k capacity h. rw (look-drop m.entries k) (nothing capacity);
  read_bytes-clear_other = λ m k j capacity h. rw (look-drop_other m.entries k j h) refl;
  read_bytes-absent = λ m k capacity h. absent (look m.entries k) capacity h;
}

abbrev blank : Flash
blank = record { ready = true; entries = [] }

prefs-IsDurable_example : IsDurable (prefs flash)
prefs-IsDurable_example = prefs-IsDurable flash flash-IsDocumented

stores : is_ok (write_enabled flash blank true).0 ≡ true
unfolding write_enabled put write_status is_ok
stores = refl

read_enabled-write_enabled_example :
    read_enabled flash (write_enabled flash blank true).1 ≡ done true
read_enabled-write_enabled_example =
    read_enabled-write_enabled flash flash-IsDocumented blank true stores

load_profile-write_enabled_example :
    (load_profile (prefs flash) (write_enabled flash blank true).1 home
      ≡ load_profile (prefs flash) blank home)
    × (read_last_profile (prefs flash) (write_enabled flash blank true).1
        ≡ read_last_profile (prefs flash) blank)
load_profile-write_enabled_example =
    load_profile-write_enabled flash flash-IsDocumented blank true home
