-- ===== src/Codec/Canonical.antt =====
-- What DecodeProfile accepts: nothing but what EncodeProfile writes.
use roo_wifi.Base.{
  ℕ, ◌-◌, ◌/◌, ◌%◌, ◌^◌, ◌≤◌, ◌≡◌, refl, sym, ap, ◌∙◌, Bool, true, false, not, List, [], ◌∷◌, ◌++◌,
  ltb, ◌==◌, length, take, drop, replicate, length-append, length-take, take-append,
  take-append-drop, All, IsByte, arith,
}
use roo_wifi.Types.{
  Result, err, done, Ssid, ssid_text, IsSsid, Ipv4Address, auth_code, auth_code-auth_of,
  ip_mode_code, ip_mode_code-ip_mode_of, mac_policy_code, mac_policy_code-mac_policy_of,
  ProfileSettings,
}
use mathlib.Core.Path.{subst}
use roo_wifi.Base.{All-of-append, All-append, All-replicate, length-replicate}
use roo_wifi.Configuration.{address}
use roo_wifi.Configuration.Subnet.{address-dotted, IsAddressed}
use roo_wifi.Codec.Writing.{profile_magic, bool_code, ip_bytes, encode_profile}
use roo_wifi.Codec.Reading.{
  Decode, go_on, drop_reader, ◌>>=◌, decode_with, Reader, next_byte, read_u8, join_be32, read_be32,
  read_bytes, is_empty, is_complete, ip_of, ssid_head, profile_reads, profile_rest, decode_profile,
}
use roo_wifi.Codec.Layout.{encode_profile-layout}
use roo_wifi.Codec.RoundTrip.{profile_layout, tail_text, IsStorable}

next_byte_ok :
    (rest : List ℕ) (ok : Bool)
    → (next_byte rest ok).1.ok ≡ true
    → (ok ≡ true) × (rest ≡ (next_byte rest ok).0 ∷ (next_byte rest ok).1.rest)
unfolding next_byte
next_byte_ok [] ok h = absurd (cc)
next_byte_ok (b ∷ rest) ok h = (h, refl)

-- A reader that is still good behind a byte had that byte.
read_u8_ok :
    (r : Reader)
    → (read_u8 r).1.ok ≡ true
    → (r.ok ≡ true) × (r.rest ≡ (read_u8 r).0 ∷ (read_u8 r).1.rest)
unfolding read_u8
read_u8_ok r h = next_byte_ok r.rest r.ok h

drop-four :
    (l : List ℕ) → (ltb (length l) 4 ≡ false) → ip_bytes (ip_of (take 4 l ++ [])) ++ drop 4 l ≡ l
drop-four [] h = absurd (cc)
drop-four (a ∷ []) h = absurd (cc)
drop-four (a ∷ b ∷ []) h = absurd (cc)
drop-four (a ∷ b ∷ c ∷ []) h = absurd (cc)
drop-four (a ∷ b ∷ c ∷ d ∷ l) h = refl

read_ip_ok :
    (r : Reader)
    → (read_bytes 4 4 r).1.ok ≡ true
    → (r.ok ≡ true) × (r.rest ≡ ip_bytes (ip_of (read_bytes 4 4 r).0) ++ (read_bytes 4 4 r).1.rest)
unfolding read_bytes
read_ip_ok r h = ground (arith, drop-four r.rest)

bool_code-not : (n : ℕ) → ltb 1 n ≡ false → bool_code (not (n == 0)) ≡ n
bool_code-not n h = ground arith

module _ (n : ℕ) (bs : List ℕ) (r : Reader) (s : ProfileSettings) (r' : Reader) where
  profile_rest_ok :
      profile_rest n bs r ≡ done (s, r')
      → (r.ok ≡ true)
        × (r.rest ≡ tail_text s)
        × (s.connection.ssid ≡ record { bytes = bs; size = n })
  unfolding profile_rest is_complete is_empty
  profile_rest_ok h =
      let r1 = (read_u8 r).1 in
      let r2 = (read_u8 r1).1 in
      let r3 = (read_u8 r2).1 in
      let r4 = (read_bytes 4 4 r3).1 in
      let r5 = (read_bytes 4 4 r4).1 in
      let r6 = (read_bytes 4 4 r5).1 in
      let r7 = (read_bytes 4 4 r6).1 in
      let r8 = (read_u8 r7).1 in
      let r9 = (read_u8 r8).1 in
      let r10 = (read_u8 r9).1 in
      ground (
        arith,
        read_u8_ok r,
        read_u8_ok r1,
        read_u8_ok r2,
        read_ip_ok r3,
        read_ip_ok r4,
        read_ip_ok r5,
        read_ip_ok r6,
        read_u8_ok r7,
        read_u8_ok r8,
        read_u8_ok r9,
        read_u8_ok r10,
        auth_code-auth_of (read_u8 r).0,
        ip_mode_code-ip_mode_of (read_u8 r2).0,
        mac_policy_code-mac_policy_of (read_u8 r9).0,
        bool_code-not (read_u8 r1).0,
        bool_code-not (read_u8 r8).0,
        bool_code-not (read_u8 r10).0,
      )

take-all :
    (l zeros : List ℕ) (n : ℕ) → ltb (length l) n ≡ false → take n (take n l ++ zeros) ≡ take n l
take-all l zeros n h = take-append n (take n l) zeros (ground (arith, length-take n l))

read_bytes_ok :
    (capacity n : ℕ) (r : Reader)
    → (read_bytes capacity n r).1.ok ≡ true
    → (r.ok ≡ true)
      × (r.rest ≡ take n (read_bytes capacity n r).0 ++ (read_bytes capacity n r).1.rest)
      × ((read_bytes capacity n r).0
          ≡ take n (read_bytes capacity n r).0 ++ replicate (capacity - n) 0)
      × (length (take n (read_bytes capacity n r).0) ≡ n)
unfolding read_bytes
read_bytes_ok capacity n r h = ground (
  arith,
  take-all r.rest (replicate (capacity - n) 0) n,
  take-append-drop n r.rest,
  length-take n r.rest,
)

-- The head of an accepted field.
pub record IsHead (magic : ℕ) (field : List ℕ) (s : Ssid) (rest : List ℕ) : Type 0 where
  pub a : ℕ
  pub b : ℕ
  pub c : ℕ
  pub d : ℕ
  pub split : field ≡ a ∷ b ∷ c ∷ d ∷ 2 ∷ s.size ∷ (ssid_text s ++ rest)
  pub magic_eq : join_be32 a b c d ≡ magic
  pub nonempty : 1 ≤ s.size
  pub within : s.size ≤ 32
  pub cleared : s.bytes ≡ ssid_text s ++ replicate (32 - s.size) 0
  pub text_full : length (ssid_text s) ≡ s.size

module _ (magic : ℕ) (r : Reader) (s : Ssid) (r' : Reader) where
  ssid_head_ok :
      ssid_head magic r ≡ done (s, r')
      → r'.ok ≡ true
      → (r.ok ≡ true) × IsHead magic r.rest s r'.rest
  unfolding ssid_head read_be32
  ssid_head_ok h good =
      let r1 = (read_u8 r).1 in
      let r2 = (read_u8 r1).1 in
      let r3 = (read_u8 r2).1 in
      let r4 = (read_u8 r3).1 in
      let r5 = (read_u8 r4).1 in
      let r6 = (read_u8 r5).1 in
      let facts = read_bytes_ok 32 (read_u8 r5).0 r6 in
      (
        ground (
          arith,
          facts,
          read_u8_ok r,
          read_u8_ok r1,
          read_u8_ok r2,
          read_u8_ok r3,
          read_u8_ok r4,
          read_u8_ok r5,
        ),
        record {
          a = (read_u8 r).0;
          b = (read_u8 r1).0;
          c = (read_u8 r2).0;
          d = (read_u8 r3).0;
          split = ground (
            arith,
            facts,
            read_u8_ok r,
            read_u8_ok r1,
            read_u8_ok r2,
            read_u8_ok r3,
            read_u8_ok r4,
            read_u8_ok r5,
          );
          magic_eq = ground arith;
          nonempty = ground arith;
          within = ground arith;
          cleared = ground (arith, facts);
          text_full = ground (arith, facts);
        },
      )

-- The bytes of a number in network order are determined by it.
join_be32_bytes :
    (a b c d v : ℕ)
    → IsByte a
    → IsByte b
    → IsByte c
    → IsByte d
    → join_be32 a b c d ≡ v
    → (a ≡ v / 2 ^ 24) × (b ≡ v / 2 ^ 16 % 256) × (c ≡ v / 2 ^ 8 % 256) × (d ≡ v % 256)
unfolding join_be32 address
join_be32_bytes a b c d v ha hb hc hd h =
    let ip : Ipv4Address = record { byte0 = a; byte1 = b; byte2 = c; byte3 = d } in
    let e =
      address-dotted ip
        (record { byte0_fits = ha; byte1_fits = hb; byte2_fits = hc; byte3_fits = hd }) in
    omega (arith, e)

module _ {magic : ℕ} {field rest : List ℕ} {s : Ssid} (h : IsHead magic field s rest)
    (v : All IsByte field) where
  head_bytes : All IsByte (h.a ∷ h.b ∷ h.c ∷ h.d ∷ 2 ∷ s.size ∷ (ssid_text s ++ rest))
  head_bytes = subst (All IsByte) h.split v

  parts : All IsByte (ssid_text s) × All IsByte rest
  parts = All-of-append IsByte (ssid_text s) rest head_bytes.1.1.1.1.1.1

  head-IsSsid : IsSsid s
  head-IsSsid = record {
    full = omega (
      arith,
      ap length h.cleared,
      length-append (ssid_text s) (replicate (32 - s.size) 0),
      length-replicate {A = ℕ} (32 - s.size) 0,
      h.text_full,
      h.within,
    );
    within = h.within;
    are_bytes = subst (All IsByte) (sym h.cleared) (
        All-append IsByte (ssid_text s) (replicate (32 - s.size) 0) parts.0
          (All-replicate IsByte (32 - s.size) 0 (omega arith)));
  }

  head_split :
      field
      ≡ magic / 2 ^ 24
        ∷ magic / 2 ^ 16 % 256
        ∷ magic / 2 ^ 8 % 256
        ∷ magic % 256
        ∷ 2
        ∷ s.size
        ∷ (ssid_text s ++ rest)
  head_split =
      let e =
        join_be32_bytes h.a h.b h.c h.d magic head_bytes.0 head_bytes.1.0 head_bytes.1.1.0
          head_bytes.1.1.1.0 h.magic_eq in
      h.split ∙ ground (arith, e)

module _ (s : ProfileSettings) (t : All IsByte (tail_text s)) where
  tail-IsAddressed : IsAddressed s.connection.static_ipv4
  tail-IsAddressed = omega arith

  tail_fits :
      IsByte (auth_code s.connection.security)
      × IsByte (ip_mode_code s.connection.ip_mode)
      × IsByte (mac_policy_code s.connection.mac_policy)
      × IsByte s.connection.static_ipv4.prefix_length
  tail_fits = omega arith

-- A decoder in two stages that accepts a field.
module _ {A B : Type 0} (m : Decode A) (f : A → Decode B) (b : B) where
  last_stage :
      (a : A) (r : Reader) (y : Result (B × Reader))
      → f a r ≡ y
      → drop_reader y ≡ done b
      → (r' : Reader) × (f a r ≡ done (b, r'))
  last_stage a r (err e) p k = absurd (cc)
  last_stage a r (done (c, r')) p k = (r', ground (arith, p))

  second_stage :
      (x : Result (A × Reader))
      → drop_reader (go_on f x) ≡ done b
      → (a : A) × (r : Reader) × (r' : Reader) × (x ≡ done (a, r)) × (f a r ≡ done (b, r'))
  second_stage (err e) h = absurd (cc)
  second_stage (done (a, r)) h = let (r', e) = last_stage a r (f a r) refl h in (a, r, r', refl, e)

  decode_with-stages :
      (field : List ℕ)
      → decode_with (m >>= f) field ≡ done b
      → (a : A) × (r : Reader) × (r' : Reader) × (m (record { rest = field; ok = true })
          ≡ done (a, r))
        × (f a r ≡ done (b, r'))
  unfolding decode_with
  decode_with-stages field h = second_stage (m (record { rest = field; ok = true })) h

decode_profile_parts :
    (field : List ℕ) (s : ProfileSettings)
    → decode_profile field ≡ done s
    → IsHead profile_magic field s.connection.ssid (tail_text s)
unfolding decode_profile profile_reads
decode_profile_parts field s h =
    let f = λ (ssid : Ssid). profile_rest ssid.size ssid.bytes in
    let (ssid, r, r', p, q) = decode_with-stages (ssid_head profile_magic) f s field h in
    let (good, tail, owner) = profile_rest_ok ssid.size ssid.bytes r s r' q in
    let (_, head) = ssid_head_ok profile_magic (record { rest = field; ok = true }) ssid r p good in
    subst (λ o. IsHead profile_magic field o (tail_text s)) (sym owner)
      (subst (IsHead profile_magic field ssid) tail head)

-- A field that DecodeProfile accepts is the one that EncodeProfile writes for the settings it
-- returns, which are in range: no trailing bytes, no other flag values, no second spelling.
pub encode_profile-decode_profile :
    (field : List ℕ) (s : ProfileSettings)
    → All IsByte field
    → decode_profile field ≡ done s
    → (encode_profile s ≡ field) × IsStorable s
encode_profile-decode_profile field s bytes h =
    let head = decode_profile_parts field s h in
    let t = (parts head bytes).1 in
    let (one, two, three, four) = tail_fits s t in
    let v : IsStorable s = record {
      ssid = head-IsSsid head bytes;
      nonempty = head.nonempty;
      security = one;
      ip_mode = two;
      mac_policy = three;
      addresses = tail-IsAddressed s t;
      prefix = four;
    } in
    (encode_profile-layout s head.within ∙ profile_layout s v ∙ sym (head_split head bytes), v)
