-- ===== src/Codec/KeyLaws.antt =====
-- The field keys: their shape, and that a key determines the hash behind it.
use roo_wifi.Base.{
  ℕ, ◌+◌, ◌-◌, ◌*◌, ◌/◌, ◌%◌, ◌^◌, ◌<◌, ◌≡◌, ◌↔◌, refl, sym, ap, ◌∙◌, true, false, List, [], ◌∷◌,
  ◌==◌, length, take, get_or, passes, test_of-passes, arith,
}
use roo_wifi.Types.{Ssid}
use roo_wifi.Codec.Keys.{
  fnv_step, fnv, ssid_hash, base64_char, key_char, key, base64_place, is_hash_text, is_profile_key,
}

place_table : passes 64 (λ d. base64_place (base64_char d) == d) ≡ true
unfolding passes base64_place base64_char
place_table = refl

place-char : (d : ℕ) → d < 64 → base64_place (base64_char d) ≡ d
place-char d h =
    ground (arith, test_of-passes 64 (λ d. base64_place (base64_char d) == d) d place_table)

digit_step :
    (n c : ℕ) (cs : List ℕ) → is_hash_text (base64_char (n % 64) ∷ (c ∷ cs)) ≡ is_hash_text (c ∷ cs)
unfolding is_hash_text
digit_step n c cs = ground (arith, place-char (n % 64))

last_digit : (n : ℕ) → is_hash_text (base64_char (n % 16 * 4) ∷ []) ≡ true
unfolding is_hash_text
last_digit n = ground (arith, place-char (n % 16 * 4))

-- ProfileKey recognizes every key that Key makes for a profile, and none for a secret.
pub is_profile_key-key :
    (s : Ssid)
    → (is_profile_key (key b'p' s) ≡ true)
      × (is_profile_key (key b's' s) ≡ false)
      × (length (key b'p' s) ≡ 13)
unfolding is_profile_key key
is_profile_key-key s = (simp (digit_step, last_digit), refl, refl)

fnv_bounded : (bs : List ℕ) (hash : ℕ) → hash < 2 ^ 64 → fnv hash bs < 2 ^ 64
unfolding fnv fnv_step
fnv_bounded [] hash h = h
fnv_bounded (b ∷ bs) hash h = fnv_bounded bs _ (omega arith)

ssid_hash-lt : (s : Ssid) → ssid_hash s < 2 ^ 64
unfolding ssid_hash
ssid_hash-lt s = fnv_bounded (take s.size s.bytes) _ (omega arith)

char_digit : (d e : ℕ) → d < 64 → e < 64 → base64_char d ≡ base64_char e → d ≡ e
char_digit d e hd he h = sym (place-char d hd) ∙ ap base64_place h ∙ place-char e he

split_hash : (h : ℕ) → h < 2 ^ 64 → h ≡ h / 2 ^ 34 * 2 ^ 34 + h % 2 ^ 34
split_hash h b = omega arith

same_high :
    (g h : ℕ)
    → g < 2 ^ 64
    → h < 2 ^ 64
    → g / 2 ^ 58 % 64 ≡ h / 2 ^ 58 % 64
    → g / 2 ^ 52 % 64 ≡ h / 2 ^ 52 % 64
    → g / 2 ^ 46 % 64 ≡ h / 2 ^ 46 % 64
    → g / 2 ^ 40 % 64 ≡ h / 2 ^ 40 % 64
    → g / 2 ^ 34 % 64 ≡ h / 2 ^ 34 % 64
    → g / 2 ^ 34 ≡ h / 2 ^ 34
same_high g h bg bh a b c d e = omega arith

same_low :
    (g h : ℕ)
    → g / 2 ^ 28 % 64 ≡ h / 2 ^ 28 % 64
    → g / 2 ^ 22 % 64 ≡ h / 2 ^ 22 % 64
    → g / 2 ^ 16 % 64 ≡ h / 2 ^ 16 % 64
    → g / 2 ^ 10 % 64 ≡ h / 2 ^ 10 % 64
    → g / 2 ^ 4 % 64 ≡ h / 2 ^ 4 % 64
    → g % 16 ≡ h % 16
    → g % 2 ^ 34 ≡ h % 2 ^ 34
same_low g h a b c d e f = omega arith

key_char-eq :
    (g h i : ℕ)
    → key_char g i ≡ key_char h i
    → g / 2 ^ (58 - 6 * i) % 64 ≡ h / 2 ^ (58 - 6 * i) % 64
key_char-eq g h i e =
    let m = 2 ^ (58 - 6 * i) in char_digit (g / m % 64) (h / m % 64) (omega arith) (omega arith) e

eq_of-key : (kind : ℕ) (s t : Ssid) → key kind s ≡ key kind t → ssid_hash s ≡ ssid_hash t
unfolding key
eq_of-key kind s t e =
    let g = ssid_hash s in
    let h = ssid_hash t in
    let at = λ (i : ℕ). ap (λ (l : List ℕ). get_or l i 0) e in
    let high =
      same_high g h (ssid_hash-lt s) (ssid_hash-lt t) (key_char-eq g h 0 (at 2))
        (key_char-eq g h 1 (at 3)) (key_char-eq g h 2 (at 4)) (key_char-eq g h 3 (at 5))
        (key_char-eq g h 4 (at 6)) in
    let last = char_digit (g % 16 * 4) (h % 16 * 4) (omega arith) (omega arith) (at 12) in
    let low =
      same_low g h (key_char-eq g h 5 (at 7)) (key_char-eq g h 6 (at 8)) (key_char-eq g h 7 (at 9))
        (key_char-eq g h 8 (at 10)) (key_char-eq g h 9 (at 11)) (omega (arith, last)) in
    omega (arith, high, low)

-- The keys of two SSIDs are equal exactly when their hashes are: the text keeps all 64 bits.
pub key_iff : (kind : ℕ) (s t : Ssid) → (key kind s ≡ key kind t) ↔ (ssid_hash s ≡ ssid_hash t)
unfolding key
key_iff kind s t = (eq_of-key kind s t, λ e. rw e)
