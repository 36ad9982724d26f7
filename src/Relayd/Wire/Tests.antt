-- ===== src/Relayd/Wire/Tests.antt =====
-- A witness for the control frames.
use choosh.Prelude.{◌≡◌, refl, sym, [], ◌∷◌, some, Bytes, done}
use choosh.Protocol.Framing.{ok, feed, encode_frame}
use choosh.Relayd.Wire.{Json, new_control_decoder, encode_control, decode_control}
use choosh.Relayd.Wire.RoundTrip.{decode-encode_control}

abbrev raw : Json Bytes
raw = record { to_json = λ bytes. some bytes; from_json = λ bytes. some bytes }

encoded : encode_control raw (123 ∷ 125 ∷ []) ≡ done (0 ∷ 0 ∷ 0 ∷ 3 ∷ 1 ∷ 123 ∷ 125 ∷ [])
unfolding encode_control encode_frame
encoded = refl

decode-encode_control_example :
    (payload : Bytes) × (feed new_control_decoder (0 ∷ 0 ∷ 0 ∷ 3 ∷ 1 ∷ 123 ∷ 125 ∷ [])
      ≡ some (new_control_decoder, ok (payload ∷ [])))
    × (decode_control raw payload ≡ done (123 ∷ 125 ∷ []))
decode-encode_control_example =
    decode-encode_control raw (λ t bytes e. sym e) (123 ∷ 125 ∷ [])
      (0 ∷ 0 ∷ 0 ∷ 3 ∷ 1 ∷ 123 ∷ 125 ∷ []) encoded
