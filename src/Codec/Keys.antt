-- ===== src/Codec/Keys.antt =====
-- Key and ProfileKey of src/roo_wifi/hal/field_store.cpp.
use roo_wifi.Base.{
  ℕ, ◌+◌, ◌-◌, ◌*◌, ◌/◌, ◌%◌, ◌^◌, Bool, true, false, ◌&&◌, List, [], ◌∷◌, ltb, leb, ◌==◌,
  if◌then◌else◌, length, take, bit_xor,
}
use roo_wifi.Types.{Ssid}

-- `hash ^= byte; hash *= 1099511628211`, on a uint64_t.
unfoldable pub fnv_step : ℕ → ℕ → ℕ
fnv_step hash byte = bit_xor hash byte * 1099511628211 % 2 ^ 64

unfoldable pub fnv : ℕ → List ℕ → ℕ
fnv hash [] = hash
fnv hash (b ∷ bs) = fnv (fnv_step hash b) bs

-- The hash that Key computes.
unfoldable pub ssid_hash : Ssid → ℕ
ssid_hash ssid = fnv 14695981039346656037 (take ssid.size ssid.bytes)

-- kBase64UrlAlphabet[digit]
unfoldable pub base64_char : ℕ → ℕ
base64_char digit =
    if ltb digit 26
    then b'A' + digit
    else if ltb digit 52
    then b'a' + (digit - 26)
    else if ltb digit 62
    then b'0' + (digit - 52)
    else if digit == 62
    then b'-'
    else b'_'

-- kBase64UrlAlphabet[(hash >> (58 - 6 * i)) & 63]
abbrev pub key_char : ℕ → ℕ → ℕ
key_char hash i = base64_char (hash / 2 ^ (58 - 6 * i) % 64)

-- Key: the 13 characters before the terminator.
unfoldable pub key : ℕ → Ssid → List ℕ
key kind ssid =
    let hash = ssid_hash ssid in
    kind
    ∷ b'-'
    ∷ key_char hash 0
    ∷ key_char hash 1
    ∷ key_char hash 2
    ∷ key_char hash 3
    ∷ key_char hash 4
    ∷ key_char hash 5
    ∷ key_char hash 6
    ∷ key_char hash 7
    ∷ key_char hash 8
    ∷ key_char hash 9
    ∷ base64_char (hash % 16 * 4)
    ∷ []

-- strchr in the alphabet: the place of a character, or 64 where there is none.
unfoldable pub base64_place : ℕ → ℕ
base64_place c =
    if leb b'A' c && leb c b'Z'
    then c - b'A'
    else if leb b'a' c && leb c b'z'
    then c - b'a' + 26
    else if leb b'0' c && leb c b'9'
    then c - b'0' + 52
    else if c == b'-'
    then 62
    else if c == b'_'
    then 63
    else 64

-- The loop of ProfileKey: the characters from the third on; the last of the 13 is index 12.
unfoldable pub is_hash_text : List ℕ → Bool
is_hash_text [] = true
is_hash_text (c ∷ []) = ltb (base64_place c) 64 && base64_place c % 4 == 0
is_hash_text (c ∷ (d ∷ cs)) = if ltb (base64_place c) 64 then is_hash_text (d ∷ cs) else false

unfoldable pub is_profile_text : List ℕ → Bool
is_profile_text (a ∷ (b ∷ cs)) = a == b'p' && (b == b'-' && is_hash_text cs)
is_profile_text _ = false

-- ProfileKey
unfoldable pub is_profile_key : List ℕ → Bool
unfolding is_profile_text
is_profile_key k = length k == 13 && is_profile_text k
