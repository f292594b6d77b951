-- ===== src/Codec/Reading.antt =====
-- Reader, DecodeProfile and DecodeSecret of src/roo_wifi/hal/field_store.cpp.
use roo_wifi.Base.{
  ℕ, ◌-◌, ◌*◌, ◌^◌, Bool, true, false, not, ◌&&◌, ◌||◌, List, [], ◌∷◌, ◌++◌, ltb, ◌==◌,
  if◌then◌else◌, length, take, drop, get_or, replicate, bit_or,
}
use roo_wifi.Types.{
  Status, Result, done, err, Ssid, Ipv4Address, auth_of, ip_mode_of, mac_policy_of, encoding_of,
  Credentials, ProfileSettings,
}
use roo_wifi.Codec.Writing.{profile_magic, secret_magic, format_version}

-- class Reader: the bytes from `current_` to `end_`, and `ok_`.
pub record Reader : Type 0 where
  pub rest : List ℕ
  pub ok : Bool

unfoldable pub next_byte : List ℕ → Bool → ℕ × Reader
next_byte [] ok = (0, record { rest = []; ok = false })
next_byte (b ∷ rest) ok = (b, record { rest = rest; ok = ok })

-- Reader::u8
unfoldable pub read_u8 : Reader → ℕ × Reader
unfolding next_byte
read_u8 r = next_byte r.rest r.ok

-- The value that be32 puts together from its four bytes.
unfoldable pub join_be32 : ℕ → ℕ → ℕ → ℕ → ℕ
join_be32 a b c d = bit_or (bit_or (bit_or (a * 2 ^ 24) (b * 2 ^ 16)) (c * 2 ^ 8)) d

-- Reader::be32
unfoldable pub read_be32 : Reader → ℕ × Reader
read_be32 r =
    let (a, r1) = read_u8 r in
    let (b, r2) = read_u8 r1 in
    let (c, r3) = read_u8 r2 in let (d, r4) = read_u8 r3 in (join_be32 a b c d, r4)

-- Reader::bytes, into an array of `capacity` zeros.
unfoldable pub read_bytes : ℕ → ℕ → Reader → List ℕ × Reader
read_bytes capacity size r =
    if ltb (length r.rest) size
    then (replicate capacity 0, record r { ok = false })
    else (take size r.rest ++ replicate (capacity - size) 0, record r { rest = drop size r.rest })

unfoldable pub is_empty : List ℕ → Bool
is_empty [] = true
is_empty (b ∷ rest) = false

-- Reader::complete
unfoldable pub is_complete : Reader → Bool
is_complete r = r.ok && is_empty r.rest

-- A decoder reads on, or returns kCorrupt.
abbrev pub Decode : Type 0 → Type 0
Decode A = Reader → Result (A × Reader)

abbrev pub go_on : {A B : Type 0} → (A → Decode B) → Result (A × Reader) → Result (B × Reader)
go_on f (done (a, r)) = f a r
go_on f (err s) = err s

infixl 5 ◌>>=◌ ◌>>◌
abbrev pub ◌>>=◌ : {A B : Type 0} → Decode A → (A → Decode B) → Decode B
◌>>=◌ m f r = go_on f (m r)

abbrev pub ◌>>◌ : {B : Type 0} → Decode (Unit {0}) → Decode B → Decode B
m >> k = m >>= λ _. k

abbrev pub pure : {A : Type 0} → A → Decode A
pure a r = done (a, r)

-- `if (!test) return Status::kCorrupt;`
abbrev pub require : Bool → Decode (Unit {0})
require true r = done (tt, r)
require false r = err Status.corrupt

abbrev pub u8 : Decode ℕ
u8 r = done (read_u8 r)

abbrev pub be32 : Decode ℕ
be32 r = done (read_be32 r)

abbrev pub bytes : ℕ → ℕ → Decode (List ℕ)
bytes capacity size r = done (read_bytes capacity size r)

abbrev pub complete : Decode Bool
complete r = done (is_complete r, r)

-- The four octets that Reader::bytes left in an address.
abbrev pub ip_of : List ℕ → Ipv4Address
ip_of l = record {
  byte0 = get_or l 0 0;
  byte1 = get_or l 1 0;
  byte2 = get_or l 2 0;
  byte3 = get_or l 3 0;
}

-- DecodeProfile, from the field behind the SSID on.
unfoldable pub profile_rest : ℕ → List ℕ → Decode ProfileSettings
profile_rest ssid_size ssid_bytes = do
  security ← u8
  hidden ← u8
  ip_mode ← u8
  address ← bytes 4 4
  gateway ← bytes 4 4
  dns1 ← bytes 4 4
  dns2 ← bytes 4 4
  prefix_length ← u8
  has_dns2 ← u8
  mac_policy ← u8
  auto_connect ← u8
  whole ← complete
  require (not (ltb 1 hidden || (ltb 1 has_dns2 || (ltb 1 auto_connect || not whole))))
  pure (record {
    connection = record {
      ssid = record { bytes = ssid_bytes; size = ssid_size };
      security = auth_of security;
      hidden = not (hidden == 0);
      ip_mode = ip_mode_of ip_mode;
      static_ipv4 = record {
        address = ip_of address;
        gateway = ip_of gateway;
        dns1 = ip_of dns1;
        dns2 = ip_of dns2;
        prefix_length = prefix_length;
        has_dns2 = not (has_dns2 == 0);
      };
      mac_policy = mac_policy_of mac_policy;
    };
    auto_connect = not (auto_connect == 0);
  })

-- The head that both formats share: magic number, version and SSID.
unfoldable pub ssid_head : ℕ → Decode Ssid
ssid_head expected_magic = do
  magic ← be32
  require (magic == expected_magic)
  version ← u8
  require (version == format_version)
  ssid_size ← u8
  require (not (ssid_size == 0 || ltb 32 ssid_size))
  ssid_bytes ← bytes 32 ssid_size
  pure (record { bytes = ssid_bytes; size = ssid_size })

unfoldable pub profile_reads : Decode ProfileSettings
profile_reads = do ssid ← ssid_head profile_magic; profile_rest ssid.size ssid.bytes

abbrev pub drop_reader : {A : Type 0} → Result (A × Reader) → Result A
drop_reader (done (a, r)) = done a
drop_reader (err s) = err s

-- What a decoder makes of a field.
unfoldable pub decode_with : {A : Type 0} → Decode A → List ℕ → Result A
decode_with m field = drop_reader (m (record { rest = field; ok = true }))

-- DecodeProfile
unfoldable pub decode_profile : List ℕ → Result ProfileSettings
unfolding decode_with
decode_profile = decode_with profile_reads

-- DecodeSecret, from the field behind the SSID on.
unfoldable pub secret_rest : Ssid → Decode (Ssid × Credentials)
secret_rest ssid = do
  encoding ← u8
  secret_size ← u8
  require (not (ltb 64 secret_size))
  secret_bytes ← bytes 64 secret_size
  whole ← complete
  require whole
  pure (ssid, record { encoding = encoding_of encoding; bytes = secret_bytes; size = secret_size })

unfoldable pub secret_reads : Decode (Ssid × Credentials)
secret_reads = do ssid ← ssid_head secret_magic; secret_rest ssid

-- DecodeSecret
unfoldable pub decode_secret : List ℕ → Result (Ssid × Credentials)
unfolding decode_with
decode_secret = decode_with secret_reads
