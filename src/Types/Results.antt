-- ===== src/Types/Results.antt =====
-- src/roo_wifi/status.h, and results that carry a value on success.
use roo_wifi.Base.{Bool, true, false, ◌≡◌, refl, ◌⊎◌, inl, inr}

-- enum class Status
pub data Status : Type 0 where
  ok not_found invalid_argument unsupported busy disabled not_started cancelled timeout : Status
  connection_failed storage_failure commit_unknown corrupt stopped hash_collision : Status

-- `status == Status::kOk`
unfoldable pub is_ok : Status → Bool
is_ok Status.ok = true
is_ok _ = false

-- `status == Status::kNotFound`
unfoldable pub is_not_found : Status → Bool
is_not_found Status.not_found = true
is_not_found _ = false

pub is_ok-ok : is_ok Status.ok ≡ true
unfolding is_ok
is_ok-ok = refl

pub eq_ok : (s : Status) → is_ok s ≡ true → s ≡ Status.ok
unfolding is_ok
eq_ok Status.ok h = refl
eq_ok _ h = cc

pub eq_not_found : (s : Status) → is_not_found s ≡ true → s ≡ Status.not_found
unfolding is_not_found
eq_not_found Status.not_found h = refl
eq_not_found _ h = cc

-- A call that fills its output parameters on kOk alone. `err Status.ok` stands for no call.
pub data Result {ℓ} (A : Type ℓ) : Type ℓ where
  done : A → Result A
  err : Status → Result A

abbrev pub status_of {ℓ} : {A : Type ℓ} → Result A → Status
status_of (done a) = Status.ok
status_of (err s) = s

infixl 5 ◌>>=◌ ◌>>◌
abbrev pub ◌>>=◌ {ℓ κ} : {A : Type ℓ} {B : Type κ} → Result A → (A → Result B) → Result B
done a >>= f = f a
err s >>= f = err s

abbrev pub ◌>>◌ {ℓ} : {B : Type ℓ} → Result (Unit {0}) → Result B → Result B
m >> k = m >>= λ _. k

pub Result-cases {ℓ} :
    {A : Type ℓ} (r : Result A) → ((a : A) × (r ≡ done a)) ⊎ ((s : Status) × (r ≡ err s))
Result-cases (done a) = inl (a, refl)
Result-cases (err s) = inr (s, refl)
