-- ===== src/Configuration/Secrets.antt =====
-- The credential part of Validate against the rules of each authentication mode.
use roo_wifi.Base.{
  ℕ, ◌≤◌, ◌≡◌, refl, ◌↔◌, ◌⊎◌, inl, inr, true, false, ◌||◌, List, [], ◌∷◌, ◌==◌, take, All, arith,
  Bool-cases,
}
use roo_wifi.Types.{Status, AuthMode, auth_code, CredentialEncoding, encoding_code, Credentials}
use roo_wifi.Configuration.{
  is_hex_digit, all_hex, is_hex, has_unprintable, validate_wep, validate_personal, validate_secret,
}

abbrev pub IsHexDigit : ℕ → Type 0
IsHexDigit b = ((b'0' ≤ b) × (b ≤ b'9')) ⊎ (((b'a' ≤ b) × (b ≤ b'f')) ⊎ ((b'A' ≤ b) × (b ≤ b'F')))

abbrev pub IsPrintable : ℕ → Type 0
IsPrintable b = (32 ≤ b) × (b ≤ 126)

-- The meaningful bytes of a credential.
abbrev pub secret_text : Credentials → List ℕ
secret_text c = take c.size c.bytes

pub data IsPersonal : AuthMode → Type 0 where
  wpa : IsPersonal AuthMode.wpa_personal
  wpa2 : IsPersonal AuthMode.wpa2_personal
  wpa_wpa2 : IsPersonal AuthMode.wpa_wpa2_personal
  wpa3 : IsPersonal AuthMode.wpa3_personal
  wpa2_wpa3 : IsPersonal AuthMode.wpa2_wpa3_personal

-- The modes without SAE.
pub data TakesPsk : AuthMode → Type 0 where
  wpa : TakesPsk AuthMode.wpa_personal
  wpa2 : TakesPsk AuthMode.wpa2_personal
  wpa_wpa2 : TakesPsk AuthMode.wpa_wpa2_personal

-- The credentials that each mode takes.
pub data CredentialFits (c : Credentials) : AuthMode → Type 0 where
  no_secret : c.size ≡ 0 → CredentialFits c AuthMode.open_network
  wep_raw :
      c.encoding ≡ CredentialEncoding.wep_key
      → (c.size ≡ 5) ⊎ (c.size ≡ 13)
      → CredentialFits c AuthMode.wep
  wep_hex :
      c.encoding ≡ CredentialEncoding.wep_key
      → (c.size ≡ 10) ⊎ (c.size ≡ 26)
      → All IsHexDigit (secret_text c)
      → CredentialFits c AuthMode.wep
  psk :
      {m : AuthMode}
      → TakesPsk m
      → c.encoding ≡ CredentialEncoding.raw_psk
      → c.size ≡ 64
      → All IsHexDigit (secret_text c)
      → CredentialFits c m
  passphrase :
      {m : AuthMode}
      → IsPersonal m
      → c.encoding ≡ CredentialEncoding.passphrase
      → 8 ≤ c.size
      → c.size ≤ 63
      → All IsPrintable (secret_text c)
      → CredentialFits c m

pub all_hex_iff : (bs : List ℕ) → (all_hex bs ≡ true) ↔ All IsHexDigit bs
unfolding all_hex is_hex_digit
all_hex_iff [] = ((λ _. tt), (λ _. refl))
all_hex_iff (b ∷ bs) = ground (arith, all_hex_iff bs)

pub IsPrintable-iff : (bs : List ℕ) → (has_unprintable bs ≡ false) ↔ All IsPrintable bs
unfolding has_unprintable
IsPrintable-iff [] = ((λ _. tt), (λ _. refl))
IsPrintable-iff (b ∷ bs) = ground (arith, IsPrintable-iff bs)

is_hex_iff : (c : Credentials) → (is_hex c ≡ true) ↔ All IsHexDigit (secret_text c)
unfolding is_hex
is_hex_iff c = all_hex_iff (secret_text c)

module _ (c : Credentials) where
  validate_wep-fits : validate_wep c ≡ Status.ok → CredentialFits c AuthMode.wep
  unfolding validate_wep encoding_code
  validate_wep-fits h = elim (Bool-cases (c.size == 5 || c.size == 13)) [
    | inl raw ↦ wep_raw (ground arith) (ground arith)
    | inr coded ↦ wep_hex (ground arith) (ground arith) ((is_hex_iff c).0 (ground arith))
  ]

  takes_psk :
      {m : AuthMode}
      → IsPersonal m
      → (encoding_code c.encoding == 1) ≡ true
      → validate_personal m c ≡ Status.ok
      → TakesPsk m
  unfolding validate_personal encoding_code auth_code
  takes_psk IsPersonal.wpa raw h = TakesPsk.wpa
  takes_psk IsPersonal.wpa2 raw h = TakesPsk.wpa2
  takes_psk IsPersonal.wpa_wpa2 raw h = TakesPsk.wpa_wpa2
  takes_psk IsPersonal.wpa3 raw h = absurd (ground arith)
  takes_psk IsPersonal.wpa2_wpa3 raw h = absurd (ground arith)

  psk_parts :
      {m : AuthMode}
      → TakesPsk m
      → (encoding_code c.encoding == 1) ≡ true
      → validate_personal m c ≡ Status.ok
      → (c.encoding ≡ CredentialEncoding.raw_psk) × (c.size ≡ 64) × (is_hex c ≡ true)
  unfolding validate_personal encoding_code auth_code
  psk_parts TakesPsk.wpa raw h = ground arith
  psk_parts _ raw h = ground arith

  passphrase_parts :
      {m : AuthMode}
      → IsPersonal m
      → (encoding_code c.encoding == 1) ≡ false
      → validate_personal m c ≡ Status.ok
      → (c.encoding ≡ CredentialEncoding.passphrase)
        × (8 ≤ c.size)
        × (c.size ≤ 63)
        × (has_unprintable (secret_text c) ≡ false)
  unfolding validate_personal encoding_code auth_code
  passphrase_parts IsPersonal.wpa coded h = ground arith
  passphrase_parts _ coded h = ground arith

  validate_personal-fits :
      {m : AuthMode} → IsPersonal m → validate_personal m c ≡ Status.ok → CredentialFits c m
  validate_personal-fits p h = elim (Bool-cases (encoding_code c.encoding == 1)) [
    | inl raw ↦
        let t = takes_psk p raw h in
        let (e, size, hex) = psk_parts t raw h in psk t e size ((is_hex_iff c).0 hex)
    | inr coded ↦
        let (e, lower, upper, printable) = passphrase_parts p coded h in
        passphrase p e lower upper ((IsPrintable-iff (secret_text c)).0 printable)
  ]

  validate_secret-fits : (m : AuthMode) → validate_secret m c ≡ Status.ok → CredentialFits c m
  unfolding validate_secret auth_code
  validate_secret-fits AuthMode.open_network h = no_secret (ground arith)
  validate_secret-fits AuthMode.wep h = validate_wep-fits h
  validate_secret-fits AuthMode.wpa_personal h = validate_personal-fits IsPersonal.wpa h
  validate_secret-fits AuthMode.wpa2_personal h = validate_personal-fits IsPersonal.wpa2 h
  validate_secret-fits AuthMode.wpa_wpa2_personal h = validate_personal-fits IsPersonal.wpa_wpa2 h
  validate_secret-fits AuthMode.wpa3_personal h = validate_personal-fits IsPersonal.wpa3 h
  validate_secret-fits AuthMode.wpa2_wpa3_personal h = validate_personal-fits IsPersonal.wpa2_wpa3 h
  validate_secret-fits _ h = absurd (ground arith)

  psk_ok :
      {m : AuthMode}
      → TakesPsk m
      → c.encoding ≡ CredentialEncoding.raw_psk
      → c.size ≡ 64
      → is_hex c ≡ true
      → validate_secret m c ≡ Status.ok
  unfolding validate_secret validate_personal encoding_code auth_code
  psk_ok TakesPsk.wpa e size hex = ground arith
  psk_ok _ e size hex = ground arith

  passphrase_ok :
      {m : AuthMode}
      → IsPersonal m
      → c.encoding ≡ CredentialEncoding.passphrase
      → 8 ≤ c.size
      → c.size ≤ 63
      → has_unprintable (secret_text c) ≡ false
      → validate_secret m c ≡ Status.ok
  unfolding validate_secret validate_personal encoding_code auth_code
  passphrase_ok IsPersonal.wpa e lower upper printable = ground arith
  passphrase_ok _ e lower upper printable = ground arith

  fits-validate_secret : {m : AuthMode} → CredentialFits c m → validate_secret m c ≡ Status.ok
  unfolding validate_secret validate_wep encoding_code auth_code
  fits-validate_secret (no_secret h) = ground arith
  fits-validate_secret (wep_raw e size) = ground arith
  fits-validate_secret (wep_hex e size hex) = ground (arith, (is_hex_iff c).1 hex)
  fits-validate_secret (psk t e size hex) = psk_ok t e size ((is_hex_iff c).1 hex)
  fits-validate_secret (passphrase p e lower upper printable) =
      passphrase_ok p e lower upper ((IsPrintable-iff (secret_text c)).1 printable)

-- The last part of Validate, its switch over the authentication mode, returns kOk exactly on the
-- credentials that fit the mode. It comes behind the tests of discriminators and lengths.
pub validate_secret_iff :
    (m : AuthMode) (c : Credentials) → (validate_secret m c ≡ Status.ok) ↔ CredentialFits c m
validate_secret_iff m c = (validate_secret-fits c m, fits-validate_secret c)
