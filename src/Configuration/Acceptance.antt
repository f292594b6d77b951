-- ===== src/Configuration/Acceptance.antt =====
-- Validate as a whole, ValidateSupport and SecurityAllows.
use roo_wifi.Base.{
  ℕ, ◌/◌, ◌%◌, ◌^◌, ◌≤◌, ◌<◌, ◌≡◌, refl, sym, ap, ◌∙◌, ◌≢◌, ◌↔◌, ◌⊎◌, inl, inr, Bool, true, false,
  ◌||◌, ◌==◌, if◌then◌else◌, bit_and, arith,
}
use roo_wifi.Base.Bits.{bit_and-bit}
use native.Mathlib.Nat.{one-le-pow}
use roo_wifi.Types.{
  Status, AuthMode, auth_code, auth_of, auth_of-auth_code, IpMode, ip_mode_code, MacPolicy,
  mac_policy_code, encoding_code, ConnectionConfig, Credentials, Support,
}
use roo_wifi.Configuration.{
  is_malformed, bad_static, validate_secret, validate, validate_support, security_allows,
}
use roo_wifi.Configuration.Subnet.{IsAddressed, IsStaticPlan, bad_static_iff}
use roo_wifi.Configuration.Secrets.{CredentialFits, validate_secret_iff}

-- What Validate promises of the settings that it accepts.
pub record IsAcceptable (c : ConnectionConfig) (secret : Credentials) : Type 0 where
  pub ssid_nonempty : 1 ≤ c.ssid.size
  pub ssid_fits : c.ssid.size ≤ 32
  pub secret_fits : secret.size ≤ 64
  pub encoding_known : encoding_code secret.encoding ≤ 2
  pub mac_policy_known : (c.mac_policy ≡ MacPolicy.device) ⊎ (c.mac_policy ≡ MacPolicy.randomized)
  pub ip_mode_known : (c.ip_mode ≡ IpMode.dhcp) ⊎ (c.ip_mode ≡ IpMode.static_ipv4)
  pub plan : c.ip_mode ≡ IpMode.static_ipv4 → IsStaticPlan c.static_ipv4
  pub credential : CredentialFits secret c.security

module _ (c : ConnectionConfig) (secret : Credentials) (v : IsAddressed c.static_ipv4) where
  shape :
      is_malformed c secret ≡ false
      → (1 ≤ c.ssid.size)
        × (c.ssid.size ≤ 32)
        × (secret.size ≤ 64)
        × (encoding_code secret.encoding ≤ 2)
        × ((c.mac_policy ≡ MacPolicy.device) ⊎ (c.mac_policy ≡ MacPolicy.randomized))
        × ((c.ip_mode ≡ IpMode.dhcp) ⊎ (c.ip_mode ≡ IpMode.static_ipv4))
  unfolding is_malformed encoding_code mac_policy_code ip_mode_code
  shape h = ground arith

  well_shaped : IsAcceptable c secret → is_malformed c secret ≡ false
  unfolding is_malformed encoding_code mac_policy_code ip_mode_code
  well_shaped a = ground arith

  stages :
      validate c secret ≡ Status.ok
      → (is_malformed c secret ≡ false)
        × (c.ip_mode ≡ IpMode.static_ipv4 → bad_static c.static_ipv4 ≡ false)
        × (validate_secret c.security secret ≡ Status.ok)
  unfolding validate ip_mode_code
  stages h = ground arith

  validate-IsAcceptable : validate c secret ≡ Status.ok → IsAcceptable c secret
  validate-IsAcceptable h =
      let (formed, static_ok, fits) = stages h in
      let (one, two, three, four, five, six) = shape formed in
      record {
        ssid_nonempty = one;
        ssid_fits = two;
        secret_fits = three;
        encoding_known = four;
        mac_policy_known = five;
        ip_mode_known = six;
        plan = λ e. (bad_static_iff c.static_ipv4 v).0 (static_ok e);
        credential = (validate_secret_iff c.security secret).0 fits;
      }

  IsAcceptable-validate : IsAcceptable c secret → validate c secret ≡ Status.ok
  unfolding validate ip_mode_code
  IsAcceptable-validate a = ground (
    arith,
    well_shaped a,
    bad_static_iff c.static_ipv4 v,
    a.plan,
    (validate_secret_iff c.security secret).1 a.credential,
  )

-- Validate returns kOk exactly on the settings that it documents as acceptable: known
-- discriminators, lengths within the arrays, a usable static plan and a fitting credential.
pub validate_iff :
    (c : ConnectionConfig) (secret : Credentials)
    → IsAddressed c.static_ipv4
    → (validate c secret ≡ Status.ok) ↔ IsAcceptable c secret
validate_iff c secret v = (validate-IsAcceptable c secret v, IsAcceptable-validate c secret v)

-- Whether the radio's bitset holds the mode.
abbrev pub HasMode : Support → AuthMode → Type 0
HasMode s m = s.authentication_modes / 2 ^ auth_code m % 2 ≡ 1

pub record IsSupported (c : ConnectionConfig) (s : Support) : Type 0 where
  pub code_fits : auth_code c.security < 32
  pub mode : HasMode s c.security
  pub hidden : c.hidden ≡ true → s.hidden_networks ≡ true
  pub static_address : c.ip_mode ≡ IpMode.static_ipv4 → s.static_ipv4 ≡ true
  pub random_mac : c.mac_policy ≡ MacPolicy.randomized → s.randomized_mac ≡ true

has_bit : (k a : ℕ) → ((bit_and a (2 ^ k) == 0) ≡ false) ↔ (a / 2 ^ k % 2 ≡ 1)
has_bit k a = grind (arith, bit_and-bit k a, one-le-pow k 2)

-- ValidateSupport returns kOk exactly when the radio has every feature that is asked for, and
-- kUnsupported otherwise.
pub validate_support_iff :
    (c : ConnectionConfig) (s : Support)
    → ((validate_support c s ≡ Status.ok) ↔ IsSupported c s)
      × ((validate_support c s ≢ Status.ok) → validate_support c s ≡ Status.unsupported)
unfolding validate_support mac_policy_code ip_mode_code
validate_support_iff c s =
    let bit = has_bit (auth_code c.security) s.authentication_modes in
    (ground (arith, bit), ground (arith, bit))

-- The same test on codes.
allows_code : ℕ → ℕ → Bool
allows_code p m =
    if p == 0 || m == 0
    then false
    else if p == m
    then true
    else if p == 7
    then m == 4 || m == 6
    else if p == 5
    then m == 3 || m == 4
    else false

security_allows-allows_code :
    (p m : AuthMode) → security_allows p m ≡ allows_code (auth_code p) (auth_code m)
unfolding security_allows allows_code auth_code
security_allows-allows_code p m = refl

eq_of-auth_code : (p m : AuthMode) → auth_code p ≡ auth_code m → p ≡ m
eq_of-auth_code p m h = sym (auth_of-auth_code p) ∙ ap auth_of h ∙ auth_of-auth_code m

allows_code-order :
    (p m n : ℕ)
    → ((allows_code p m ≡ true) → (allows_code m n ≡ true) → allows_code p n ≡ true)
      × ((allows_code p m ≡ true) → (allows_code m p ≡ true) → p ≡ m)
unfolding allows_code
allows_code-order p m n = (ground arith, ground arith)

-- The modes that a policy stands for: itself, if it is known, and the parts of a mixed policy.
pub data Admits : AuthMode → AuthMode → Type 0 where
  itself : {m : AuthMode} → m ≢ AuthMode.unknown → Admits m m
  wpa_of_mixed : Admits AuthMode.wpa_wpa2_personal AuthMode.wpa_personal
  wpa2_of_mixed : Admits AuthMode.wpa_wpa2_personal AuthMode.wpa2_personal
  wpa2_of_transition : Admits AuthMode.wpa2_wpa3_personal AuthMode.wpa2_personal
  wpa3_of_transition : Admits AuthMode.wpa2_wpa3_personal AuthMode.wpa3_personal

known_code : (m : AuthMode) → m ≢ AuthMode.unknown → auth_code m ≢ 0
unfolding auth_code
known_code m h = ground arith

Admits-allows : {p m : AuthMode} → Admits p m → allows_code (auth_code p) (auth_code m) ≡ true
unfolding allows_code auth_code
Admits-allows (itself {m = m} h) = let k = known_code m h in ground arith
Admits-allows wpa_of_mixed = refl
Admits-allows wpa2_of_mixed = refl
Admits-allows wpa2_of_transition = refl
Admits-allows wpa3_of_transition = refl

allows_code-cases :
    (a b : ℕ)
    → allows_code a b ≡ true
    → ((a ≢ 0) × (a ≡ b))
      ⊎ (((a ≡ 5) × (b ≡ 3)) ⊎ (((a ≡ 5) × (b ≡ 4)) ⊎ (((a ≡ 7) × (b ≡ 4)) ⊎ ((a ≡ 7) × (b ≡ 6)))))
unfolding allows_code
allows_code-cases a b h = ground arith

Admits-at :
    {p m q n : AuthMode}
    → auth_code p ≡ auth_code q
    → auth_code m ≡ auth_code n
    → Admits q n
    → Admits p m
Admits-at {p} {m} {q} {n} e f a = rw (eq_of-auth_code p q e, eq_of-auth_code m n f) a

allows-Admits : (p m : AuthMode) → allows_code (auth_code p) (auth_code m) ≡ true → Admits p m
unfolding auth_code
allows-Admits p m h = elim (allows_code-cases (auth_code p) (auth_code m) h) [
  | inl (k, e) ↦ Admits-at refl (sym e) (itself (λ u. k (ap auth_code u)))
  | inr (inl (e, f)) ↦ Admits-at e f wpa_of_mixed
  | inr (inr (inl (e, f))) ↦ Admits-at e f wpa2_of_mixed
  | inr (inr (inr (inl (e, f)))) ↦ Admits-at e f wpa2_of_transition
  | inr (inr (inr (inr (e, f)))) ↦ Admits-at e f wpa3_of_transition
]

-- A policy allows exactly the modes that it stands for. What it allows is
-- closed under replacing a mode by one that this mode allows, and two policies that allow each
-- other are the same.
pub security_allows_order :
    (p m n : AuthMode)
    → ((security_allows p m ≡ true) ↔ Admits p m)
      × (security_allows p m ≡ true → security_allows m n ≡ true → security_allows p n ≡ true)
      × (security_allows p m ≡ true → security_allows m p ≡ true → p ≡ m)
security_allows_order p m n =
    let order = allows_code-order (auth_code p) (auth_code m) (auth_code n) in
    rw
      (
        security_allows-allows_code p m,
        security_allows-allows_code m n,
        security_allows-allows_code p n,
        security_allows-allows_code m p,
      )
      ((allows-Admits p m, Admits-allows), order.0, λ h k. eq_of-auth_code p m (order.1 h k))
