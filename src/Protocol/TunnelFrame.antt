-- ===== src/Protocol/TunnelFrame.antt =====
-- rust/choosh-protocol/src/relay.rs: the tunnel frame, and the hexadecimal form of a tunnel id. A string of hex
-- digits is the list of its bytes.
pub mod RoundTrip
mod Tests
use choosh.Prelude.{
  ℕ, ◌+◌, ◌-◌, ◌*◌, ◌/◌, ◌%◌, Bool, true, false, not, ◌&&◌, ◌||◌, List, [], ◌∷◌, ◌++◌, Option, none,
  some, ltb, leb, ◌==◌, if◌then◌else◌, length, take, drop, Bytes,
}
use choosh.Protocol.Relay.{TunnelId, frame_class_tunnel, tunnel_id_bytes}

unfoldable pub encode_tunnel_frame : TunnelId → Bytes → Bytes
encode_tunnel_frame tunnel_id payload = frame_class_tunnel ∷ (tunnel_id ++ payload)

unfoldable pub decode_tunnel_frame : Bytes → Option (TunnelId × Bytes)
decode_tunnel_frame [] = none
decode_tunnel_frame (class ∷ rest) =
    if not (class == frame_class_tunnel) || ltb (length rest) tunnel_id_bytes
    then none
    else some (take tunnel_id_bytes rest, drop tunnel_id_bytes rest)

-- The digit of a number below 16, as `{:x}` writes it.
abbrev pub hex_digit : ℕ → ℕ
hex_digit n = if ltb n 10 then n + 48 else n + 87

unfoldable pub encode_tunnel_id_hex : TunnelId → Bytes
encode_tunnel_id_hex [] = []
encode_tunnel_id_hex (byte ∷ id) =
    hex_digit (byte / 16) ∷ hex_digit (byte % 16) ∷ encode_tunnel_id_hex id

-- `u8::is_ascii_hexdigit`
abbrev pub is_ascii_hexdigit : ℕ → Bool
is_ascii_hexdigit c = leb 48 c && leb c 57 || leb 97 c && leb c 102 || leb 65 c && leb c 70

abbrev pub all_hexdigits : Bytes → Bool
all_hexdigits [] = true
all_hexdigits (c ∷ cs) = is_ascii_hexdigit c && all_hexdigits cs

-- The value of one hex digit, in either case.
abbrev pub digit_value : ℕ → ℕ
digit_value c = if leb 97 c then c - 87 else if leb 65 c then c - 55 else c - 48

-- `u8::from_str_radix` of each two digits.
abbrev pub hex_pairs : Bytes → TunnelId
hex_pairs [] = []
hex_pairs (high ∷ []) = []
hex_pairs (high ∷ low ∷ cs) = (digit_value high * 16 + digit_value low) ∷ hex_pairs cs

unfoldable pub decode_tunnel_id_hex : Bytes → Option TunnelId
decode_tunnel_id_hex hex =
    if not (length hex == tunnel_id_bytes * 2) || not (all_hexdigits hex)
    then none
    else some (hex_pairs hex)
