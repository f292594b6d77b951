-- ===== src/Codec/RoundTrip.antt =====
-- DecodeProfile after EncodeProfile, and DecodeSecret after EncodeSecret.
use roo_wifi.Base.{
  ℕ, ◌-◌, ◌≤◌, ◌≡◌, refl, Bool, true, List, [], ◌∷◌, ◌++◌, length, take, replicate, length-append,
  length-take, take-append, drop-append, All, IsByte, arith,
}
use mathlib.Core.List.{append-nil}
use roo_wifi.Types.{
  done, Ssid, ssid_text, IsSsid, auth_code, auth_of-auth_code, ip_mode_code,
  ip_mode_of-ip_mode_code, mac_policy_code, mac_policy_of-mac_policy_code, encoding_code,
  encoding_of-encoding_code, Credentials, ProfileSettings,
}
use roo_wifi.Configuration.Subnet.{IsAddressed}
use roo_wifi.Codec.Writing.{
  profile_magic, secret_magic, bool_code, profile_writes, encode_profile, secret_writes,
  encode_secret,
}
use roo_wifi.Codec.Reading.{
  Decode, ◌>>=◌, Reader, read_u8, join_be32, read_be32, read_bytes, is_empty, is_complete,
  ssid_head, profile_rest, secret_rest, profile_reads, decode_with, decode_profile, secret_reads,
  decode_secret,
}
use roo_wifi.Codec.Layout.{write_text, layout, encode_profile-layout, encode_secret-layout}

-- The SSID with the bytes behind its length cleared.
abbrev pub clear_ssid : Ssid → Ssid
clear_ssid s = record s { bytes = ssid_text s ++ replicate (32 - s.size) 0 }

abbrev pub clear_secret : Credentials → Credentials
clear_secret c = record c { bytes = take c.size c.bytes ++ replicate (64 - c.size) 0 }

abbrev pub clear_profile : ProfileSettings → ProfileSettings
clear_profile s = record s {
  connection = record s.connection { ssid = clear_ssid s.connection.ssid };
}

-- Settings in range: the field widths of the C++ structs, and a valid SSID length.
pub record IsStorable (s : ProfileSettings) : Type 0 where
  pub ssid : IsSsid s.connection.ssid
  pub nonempty : 1 ≤ s.connection.ssid.size
  pub security : IsByte (auth_code s.connection.security)
  pub ip_mode : IsByte (ip_mode_code s.connection.ip_mode)
  pub mac_policy : IsByte (mac_policy_code s.connection.mac_policy)
  pub addresses : IsAddressed s.connection.static_ipv4
  pub prefix : IsByte s.connection.static_ipv4.prefix_length

-- What follows the SSID.
abbrev pub tail_text : ProfileSettings → List ℕ
tail_text s =
    auth_code security
    ∷ bool_code hidden
    ∷ ip_mode_code ip_mode
    ∷ address.byte0
    ∷ address.byte1
    ∷ address.byte2
    ∷ address.byte3
    ∷ gateway.byte0
    ∷ gateway.byte1
    ∷ gateway.byte2
    ∷ gateway.byte3
    ∷ dns1.byte0
    ∷ dns1.byte1
    ∷ dns1.byte2
    ∷ dns1.byte3
    ∷ dns2.byte0
    ∷ dns2.byte1
    ∷ dns2.byte2
    ∷ dns2.byte3
    ∷ prefix_length
    ∷ bool_code has_dns2
    ∷ mac_policy_code mac_policy
    ∷ bool_code s.auto_connect
    ∷ []
  where
    open s.connection use {security, hidden, ip_mode, static_ipv4, mac_policy}
    open static_ipv4 use {address, gateway, dns1, dns2, prefix_length, has_dns2}

abbrev pub profile_text : ProfileSettings → List ℕ
profile_text s =
    0x52
    ∷ 0x57
    ∷ 0x50
    ∷ 0x50
    ∷ 2
    ∷ s.connection.ssid.size
    ∷ (ssid_text s.connection.ssid ++ tail_text s)

pub profile_layout :
    (s : ProfileSettings) → IsStorable s → layout (profile_writes s) ≡ profile_text s
unfolding layout profile_writes write_text
profile_layout s v = ground arith

read_bytes-append :
    (capacity n : ℕ) (text more : List ℕ) (ok : Bool)
    → length text ≡ n
    → read_bytes capacity n (record { rest = text ++ more; ok = ok })
      ≡ (text ++ replicate (capacity - n) 0, record { rest = more; ok = ok })
unfolding read_bytes
read_bytes-append capacity n text more ok h =
    ground (arith, length-append text more, take-append n text more h, drop-append n text more h)

length-text : (s : Ssid) → IsSsid s → length (ssid_text s) ≡ s.size
length-text s v = omega (arith, length-take s.size s.bytes)

-- The head in front of any rest.
abbrev pub head_text : ℕ → Ssid → List ℕ → List ℕ
head_text last s more = 0x52 ∷ 0x57 ∷ 0x50 ∷ last ∷ 2 ∷ s.size ∷ (ssid_text s ++ more)

ssid_head-head_text :
    (magic last : ℕ) (s : Ssid) (more : List ℕ)
    → IsSsid s
    → 1 ≤ s.size
    → join_be32 0x52 0x57 0x50 last ≡ magic
    → ssid_head magic (record { rest = head_text last s more; ok = true })
      ≡ done (clear_ssid s, record { rest = more; ok = true })
unfolding ssid_head read_u8 read_be32
ssid_head-head_text magic last s more v h e =
    ground (arith, read_bytes-append 32 s.size (ssid_text s) more true (length-text s v))

profile_rest-tail_text :
    (s : ProfileSettings) (n : ℕ) (bs : List ℕ)
    → profile_rest n bs (record { rest = tail_text s; ok = true })
      ≡ done (
        record s { connection = record s.connection { ssid = record { bytes = bs; size = n } } },
        record { rest = []; ok = true },
      )
unfolding profile_rest read_u8 read_bytes is_complete is_empty
profile_rest-tail_text s n bs = ground (
  arith,
  auth_of-auth_code s.connection.security,
  ip_mode_of-ip_mode_code s.connection.ip_mode,
  mac_policy_of-mac_policy_code s.connection.mac_policy,
)

decode_with->>= :
    {A B : Type 0} (m : Decode A) (f : A → Decode B) (field : List ℕ) {a : A} {b : B}
    {r r' : Reader}
    → m (record { rest = field; ok = true }) ≡ done (a, r)
    → f a r ≡ done (b, r')
    → decode_with (m >>= f) field ≡ done b
unfolding decode_with
decode_with->>= m f field h k = rw (h, ◌>>=◌) (rw k)

decode-profile_text :
    (s : ProfileSettings) → IsStorable s → decode_profile (profile_text s) ≡ done (clear_profile s)
unfolding decode_profile profile_reads
decode-profile_text s v =
    decode_with->>= (ssid_head profile_magic) (λ ssid. profile_rest ssid.size ssid.bytes)
      (profile_text s)
      (ssid_head-head_text profile_magic 0x50 s.connection.ssid (tail_text s) v.ssid v.nonempty
        (unfold join_be32 in refl))
      (profile_rest-tail_text s _ _)

-- Decoding what EncodeProfile wrote gives the settings back, with the unused bytes of the SSID
-- cleared, for all settings within the widths of their fields and a valid SSID length.
pub decode_profile-encode_profile :
    (s : ProfileSettings)
    → IsStorable s
    → decode_profile (encode_profile s) ≡ done (clear_profile s)
decode_profile-encode_profile s v =
    rw (encode_profile-layout s v.ssid.within, profile_layout s v) (decode-profile_text s v)

-- A secret in range: the widths of its fields and a length within the array.
pub record IsSecret (c : Credentials) : Type 0 where
  pub full : length c.bytes ≡ 64
  pub within : c.size ≤ 64
  pub are_bytes : All IsByte c.bytes
  pub encoding : IsByte (encoding_code c.encoding)

abbrev secret_text : Ssid → Credentials → List ℕ
secret_text s c = head_text 0x53 s (encoding_code c.encoding ∷ c.size ∷ take c.size c.bytes)

secret_layout :
    (s : Ssid) (c : Credentials)
    → IsSsid s
    → IsSecret c
    → layout (secret_writes s c) ≡ secret_text s c
unfolding layout secret_writes write_text
secret_layout s c v w = ground (arith, append-nil (take c.size c.bytes))

secret_rest-text :
    (s : Ssid) (c : Credentials)
    → IsSecret c
    → secret_rest s
        (record { rest = encoding_code c.encoding ∷ c.size ∷ take c.size c.bytes; ok = true })
      ≡ done ((s, clear_secret c), record { rest = []; ok = true })
unfolding secret_rest read_u8 is_complete is_empty
secret_rest-text s c w = ground (
  arith,
  encoding_of-encoding_code c.encoding,
  append-nil (take c.size c.bytes),
  read_bytes-append 64 c.size (take c.size c.bytes) [] true
      (omega (arith, length-take c.size c.bytes)),
)

-- Decoding what EncodeSecret wrote gives the owner and the credential back, with the bytes behind
-- their lengths cleared.
pub decode_secret-encode_secret :
    (s : Ssid) (c : Credentials)
    → IsSsid s
    → 1 ≤ s.size
    → IsSecret c
    → decode_secret (encode_secret s c) ≡ done (clear_ssid s, clear_secret c)
unfolding decode_secret secret_reads
decode_secret-encode_secret s c v h w =
    rw (encode_secret-layout s c v.within w.within, secret_layout s c v w)
      (decode_with->>= (ssid_head secret_magic) secret_rest (secret_text s c)
        (ssid_head-head_text secret_magic 0x53 s _ v h (unfold join_be32 in refl))
        (secret_rest-text (clear_ssid s) c w))
