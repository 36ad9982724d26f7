-- ===== src/Protocol/TunnelFrame/RoundTrip.antt =====
-- The tunnel frame and the hexadecimal id of rust/choosh-protocol/src/relay.rs: what is encoded is read back.
use choosh.Prelude.{
  ℕ, ◌+◌, ◌*◌, ◌/◌, ◌%◌, ◌<◌, ◌≡◌, refl, sym, ap, true, false, [], ◌∷◌, ◌++◌, some, arith, ltb,
  length, take, drop, Bytes, length-append, take-append-drop, length-take, ==_iff,
}
use choosh.Protocol.Relay.{TunnelId, tunnel_id_bytes}
use choosh.Protocol.TunnelFrame.{
  encode_tunnel_frame, decode_tunnel_frame, hex_digit, encode_tunnel_id_hex, is_ascii_hexdigit,
  all_hexdigits, digit_value, hex_pairs, decode_tunnel_id_hex,
}

take-append : (xs ys : Bytes) → take (length xs) (xs ++ ys) ≡ xs
take-append [] ys = refl
take-append (x ∷ xs) ys = ap (λ zs. x ∷ zs) (take-append xs ys)

drop-append : (xs ys : Bytes) → drop (length xs) (xs ++ ys) ≡ ys
drop-append [] ys = refl
drop-append (x ∷ xs) ys = drop-append xs ys

-- A tunnel frame is read back as the id and the payload it was made of, whatever the payload, the empty one
-- of a close included.
pub decode-encode_tunnel_frame :
    (tunnel_id : TunnelId) (payload : Bytes)
    → length tunnel_id ≡ tunnel_id_bytes
    → decode_tunnel_frame (encode_tunnel_frame tunnel_id payload) ≡ some (tunnel_id, payload)
unfolding encode_tunnel_frame decode_tunnel_frame
decode-encode_tunnel_frame tunnel_id payload h =
    let enough : ltb (length (tunnel_id ++ payload)) tunnel_id_bytes ≡ false =
      ground (arith, length-append tunnel_id payload) in
    rw (enough, sym h, take-append tunnel_id payload, drop-append tunnel_id payload) refl

-- A frame that is read as a tunnel frame is the encoding of what was read, and its id has eight bytes.
pub encode-decode_tunnel_frame :
    (frame : Bytes) (tunnel_id : TunnelId) (payload : Bytes)
    → decode_tunnel_frame frame ≡ some (tunnel_id, payload)
    → (encode_tunnel_frame tunnel_id payload ≡ frame) × (length tunnel_id ≡ tunnel_id_bytes)
unfolding encode_tunnel_frame decode_tunnel_frame
encode-decode_tunnel_frame [] tunnel_id payload h = ground arith
encode-decode_tunnel_frame (class ∷ rest) tunnel_id payload h =
    ground (
      arith,
      take-append-drop tunnel_id_bytes rest,
      length-take tunnel_id_bytes rest,
      ==_iff class 2,
    )

abbrev pub AllBelow : ℕ → Bytes → Type 0
AllBelow n [] = Unit
AllBelow n (x ∷ xs) = (x < n) × AllBelow n xs

hex_digit-digit : (n : ℕ) → n < 16 → is_ascii_hexdigit (hex_digit n) ≡ true
hex_digit-digit n h = ground arith

digit_value-hex_digit : (n : ℕ) → n < 16 → digit_value (hex_digit n) ≡ n
digit_value-hex_digit n h = ground arith

length-encode_tunnel_id_hex : (id : TunnelId) → length (encode_tunnel_id_hex id) ≡ length id * 2
unfolding encode_tunnel_id_hex
length-encode_tunnel_id_hex [] = refl
length-encode_tunnel_id_hex (byte ∷ id) = omega (arith, length-encode_tunnel_id_hex id)

encode_tunnel_id_hex-digits :
    (id : TunnelId) → AllBelow 256 id → all_hexdigits (encode_tunnel_id_hex id) ≡ true
unfolding encode_tunnel_id_hex
encode_tunnel_id_hex-digits [] h = refl
encode_tunnel_id_hex-digits (byte ∷ id) (h, hs) =
    rw
      (
        hex_digit-digit (byte / 16) (omega arith),
        hex_digit-digit (byte % 16) (omega arith),
        encode_tunnel_id_hex-digits id hs,
      )
      refl

hex_pairs-encode : (id : TunnelId) → AllBelow 256 id → hex_pairs (encode_tunnel_id_hex id) ≡ id
unfolding encode_tunnel_id_hex
hex_pairs-encode [] h = refl
hex_pairs-encode (byte ∷ id) (h, hs) =
    let value : byte / 16 * 16 + byte % 16 ≡ byte = omega arith in
    rw
      (
        digit_value-hex_digit (byte / 16) (omega arith),
        digit_value-hex_digit (byte % 16) (omega arith),
        value,
        hex_pairs-encode id hs,
      )
      refl

-- The hexadecimal form of a tunnel id of eight bytes is read back as the id.
pub decode-encode_tunnel_id_hex :
    (id : TunnelId)
    → length id ≡ tunnel_id_bytes
    → AllBelow 256 id
    → decode_tunnel_id_hex (encode_tunnel_id_hex id) ≡ some id
unfolding decode_tunnel_id_hex
decode-encode_tunnel_id_hex id size bytes =
    rw
      (
        length-encode_tunnel_id_hex id,
        size,
        encode_tunnel_id_hex-digits id bytes,
        hex_pairs-encode id bytes,
      )
      refl
