-- ===== src/Protocol/TunnelFrame/Tests.antt =====
-- Runs of the tunnel codec, with the witnesses.
use choosh.Prelude.{◌≡◌, refl, [], ◌∷◌, none, some, arith}
use choosh.Protocol.Relay.{TunnelId}
use choosh.Protocol.TunnelFrame.{
  encode_tunnel_frame, decode_tunnel_frame, encode_tunnel_id_hex, decode_tunnel_id_hex,
}
use choosh.Protocol.TunnelFrame.RoundTrip.{decode-encode_tunnel_frame, decode-encode_tunnel_id_hex}

abbrev an_id : TunnelId
an_id = 0 ∷ 1 ∷ 15 ∷ 16 ∷ 127 ∷ 171 ∷ 254 ∷ 255 ∷ []

decode-encode_tunnel_frame_example :
    decode_tunnel_frame (encode_tunnel_frame an_id (104 ∷ 105 ∷ [])) ≡ some (an_id, 104 ∷ 105 ∷ [])
decode-encode_tunnel_frame_example = decode-encode_tunnel_frame an_id (104 ∷ 105 ∷ []) refl

decode-encode_tunnel_id_hex_example : decode_tunnel_id_hex (encode_tunnel_id_hex an_id) ≡ some an_id
decode-encode_tunnel_id_hex_example = decode-encode_tunnel_id_hex an_id refl (omega arith)

-- Upper case digits are read too.
upper_case :
    decode_tunnel_id_hex
      (65 ∷ 66 ∷ 48 ∷ 48 ∷ 48 ∷ 48 ∷ 48 ∷ 48 ∷ 48 ∷ 48 ∷ 48 ∷ 48 ∷ 48 ∷ 48 ∷ 48 ∷ 48 ∷ [])
    ≡ some (171 ∷ 0 ∷ 0 ∷ 0 ∷ 0 ∷ 0 ∷ 0 ∷ 0 ∷ [])
unfolding decode_tunnel_id_hex
upper_case = refl

too_short : decode_tunnel_frame (2 ∷ 1 ∷ 2 ∷ []) ≡ none
unfolding decode_tunnel_frame
too_short = refl
