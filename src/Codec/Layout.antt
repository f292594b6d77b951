-- ===== src/Codec/Layout.antt =====
-- What the encoders write, and that their buffers are large enough.
use roo_wifi.Base.{
  ℕ, suc, ◌+◌, ◌/◌, ◌%◌, ◌^◌, ◌<◌, ◌≤◌, ◌≡◌, sym, ap, ◌∙◌, List, [], ◌∷◌, ◌++◌, length, take,
  length-append, length-take, arith,
}
use mathlib.Core.List.{append-nil, append_assoc}
use roo_wifi.Types.{Ssid, Credentials, ProfileSettings}
use roo_wifi.Codec.Writing.{
  Writer, writer, write_u8, write_be32, write_bytes, Write, perform, perform_all, finish,
  profile_writes, encode_profile, secret_writes, encode_secret, max_profile_size, max_secret_size,
}

-- The bytes of one call and of a list of calls.
unfoldable pub write_text : Write → List ℕ
write_text (Write.byte v) = v % 256 ∷ []
write_text (Write.be32 v) = v / 2 ^ 24 % 256 ∷ v / 2 ^ 16 % 256 ∷ v / 2 ^ 8 % 256 ∷ v % 256 ∷ []
write_text (Write.range source size) = take size source

unfoldable pub layout : List Write → List ℕ
layout [] = []
layout (c ∷ cs) = write_text c ++ layout cs

-- The room that a call asks for.
unfoldable pub room : Write → ℕ
room (Write.byte v) = 1
room (Write.be32 v) = 4
room (Write.range source size) = size

unfoldable pub total_room : List Write → ℕ
total_room [] = 0
total_room (c ∷ cs) = room c + total_room cs

write_text-le-room : (c : Write) → length (write_text c) ≤ room c
unfolding write_text room
write_text-le-room (Write.byte v) = omega arith
write_text-le-room (Write.be32 v) = omega arith
write_text-le-room (Write.range source size) = omega (arith, length-take size source)

write_u8-fits :
    (v : ℕ) (w : Writer)
    → length w.written < w.capacity
    → write_u8 v w ≡ record w { written = w.written ++ v % 256 ∷ [] }
unfolding write_u8
write_u8-fits v w h = ground arith

snoc_fits :
    (v : ℕ) (w : Writer) (n : ℕ)
    → length w.written + suc n ≤ w.capacity
    → length (w.written ++ v % 256 ∷ []) + n ≤ w.capacity
snoc_fits v w n h = omega (arith, length-append w.written (v % 256 ∷ []))

write_be32-fits :
    (v : ℕ) (w : Writer)
    → length w.written + 4 ≤ w.capacity
    → write_be32 v w ≡ record w { written = w.written ++ write_text (Write.be32 v) }
unfolding write_be32 write_text
write_be32-fits v w h =
    let w1 = record w { written = w.written ++ v / 2 ^ 24 % 256 ∷ [] } in
    let w2 = record w1 { written = w1.written ++ v / 2 ^ 16 % 256 ∷ [] } in
    let w3 = record w2 { written = w2.written ++ v / 2 ^ 8 % 256 ∷ [] } in
    let h1 = snoc_fits (v / 2 ^ 24) w 3 h in
    let h2 = snoc_fits (v / 2 ^ 16) w1 2 h1 in
    let h3 = snoc_fits (v / 2 ^ 8) w2 1 h2 in
    rw (write_u8-fits (v / 2 ^ 24) w (omega arith)) (
      rw (write_u8-fits (v / 2 ^ 16) w1 (omega arith)) (
        rw (write_u8-fits (v / 2 ^ 8) w2 (omega arith))
          (rw (write_u8-fits v w3 (omega arith)) (simp append_assoc))))

perform-fits :
    (c : Write) (w : Writer)
    → length w.written + room c ≤ w.capacity
    → perform c w ≡ record w { written = w.written ++ write_text c }
unfolding perform write_text room
perform-fits (Write.byte v) w h = write_u8-fits v w (omega arith)
perform-fits (Write.be32 v) w h = write_be32-fits v w (omega arith)
perform-fits (Write.range source size) w h = unfold write_bytes in (ground arith)

perform_all-fits :
    (cs : List Write) (w : Writer)
    → length w.written + total_room cs ≤ w.capacity
    → perform_all cs w ≡ record w { written = w.written ++ layout cs }
unfolding perform_all layout total_room
perform_all-fits [] w h = ap (λ t. record w { written = t }) (sym (append-nil w.written))
perform_all-fits (c ∷ cs) w h = rw (perform-fits c w (omega arith)) (
    perform_all-fits cs (record w { written = w.written ++ write_text c })
      (omega (arith, length-append w.written (write_text c), write_text-le-room c))
    ∙ ap (λ t. record w { written = t }) (append_assoc w.written (write_text c) (layout cs)))

finish-perform_all :
    (cs : List Write) (capacity : ℕ)
    → total_room cs ≤ capacity
    → finish (perform_all cs (writer capacity)) ≡ layout cs
unfolding finish
finish-perform_all cs capacity h = rw (perform_all-fits cs (writer capacity) (omega arith))

profile_room : (s : ProfileSettings) → total_room (profile_writes s) ≡ s.connection.ssid.size + 29
unfolding total_room room profile_writes
profile_room s = omega arith

secret_room :
    (ssid : Ssid) (c : Credentials) → total_room (secret_writes ssid c) ≡ ssid.size + c.size + 8
unfolding total_room room secret_writes
secret_room ssid c = omega arith

-- The buffers hold every profile and every secret of valid lengths, and nothing is cut.
pub encode_profile-layout :
    (s : ProfileSettings)
    → s.connection.ssid.size ≤ 32
    → encode_profile s ≡ layout (profile_writes s)
unfolding encode_profile
encode_profile-layout s h =
    finish-perform_all (profile_writes s) max_profile_size (omega (arith, profile_room s))

pub encode_secret-layout :
    (ssid : Ssid) (c : Credentials)
    → ssid.size ≤ 32
    → c.size ≤ 64
    → encode_secret ssid c ≡ layout (secret_writes ssid c)
unfolding encode_secret
encode_secret-layout ssid c h k =
    finish-perform_all (secret_writes ssid c) max_secret_size (omega (arith, secret_room ssid c))

layout-le-room : (cs : List Write) → length (layout cs) ≤ total_room cs
unfolding layout total_room
layout-le-room [] = omega arith
layout-le-room (c ∷ cs) =
    omega (arith, length-append (write_text c) (layout cs), write_text-le-room c, layout-le-room cs)

pub encode_profile_fits :
    (s : ProfileSettings)
    → s.connection.ssid.size ≤ 32
    → length (encode_profile s) ≤ max_profile_size
encode_profile_fits s h =
    rw (encode_profile-layout s h)
      (omega (arith, layout-le-room (profile_writes s), profile_room s))

layout_size :
    (s : ProfileSettings)
    → length s.connection.ssid.bytes ≡ 32
    → s.connection.ssid.size ≤ 32
    → length (layout (profile_writes s)) ≡ s.connection.ssid.size + 29
unfolding layout write_text profile_writes
layout_size s full h = omega (
  arith,
  length-append (take s.connection.ssid.size s.connection.ssid.bytes),
  length-take s.connection.ssid.size s.connection.ssid.bytes,
)

-- The record of a profile is complete, with 29 bytes besides those of the SSID, and fits its buffer
-- of 61 bytes, for an SSID array of 32 bytes and a valid length.
pub length-encode_profile :
    (s : ProfileSettings)
    → length s.connection.ssid.bytes ≡ 32
    → s.connection.ssid.size ≤ 32
    → (length (encode_profile s) ≡ s.connection.ssid.size + 29)
      × (length (encode_profile s) ≤ max_profile_size)
length-encode_profile s full h =
    (ap length (encode_profile-layout s h) ∙ layout_size s full h, encode_profile_fits s h)

pub length-encode_secret :
    (ssid : Ssid) (c : Credentials)
    → ssid.size ≤ 32
    → c.size ≤ 64
    → length (encode_secret ssid c) ≤ max_secret_size
length-encode_secret ssid c h k =
    rw (encode_secret-layout ssid c h k)
      (omega (arith, layout-le-room (secret_writes ssid c), secret_room ssid c))
