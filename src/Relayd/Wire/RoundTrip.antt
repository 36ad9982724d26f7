-- ===== src/Relayd/Wire/RoundTrip.antt =====
-- The control frames of rust/choosh-relayd/src/wire.rs, through the stream framing and back.
use mathlib.Core.List.{append-nil}
use choosh.Prelude.{◌≡◌, subst, inl, inr, [], ◌∷◌, ◌++◌, some, arith, Bytes, done, Option-cases}
use choosh.Protocol.Framing.{ok, encode_frame, feed, new_decoder}
use choosh.Protocol.Framing.RoundTrip.{nothing, frame, feed-Encodes}
use choosh.Protocol.Relay.{frame_class_control, max_control_frame_bytes}
use choosh.Relayd.Wire.{
  Json, control_frame_limits, new_control_decoder, encode_control, decode_control,
}

module _ {T : Type 0} (json : Json T) where
  encode_control-frame :
      (body : T) (wire : Bytes)
      → encode_control json body ≡ done wire
      → (bytes : Bytes) × (json.to_json body ≡ some bytes)
        × (encode_frame (frame_class_control ∷ bytes) max_control_frame_bytes ≡ ok wire)
  unfolding encode_control
  encode_control-frame body wire h = elim (Option-cases (json.to_json body)) [
    | inl e ↦ absurd (ground arith)
    | inr (bytes, e) ↦ (bytes, e, ground arith)
  ]

  -- A control frame that was encoded comes out of a new decoder as the one frame of the call, and is decoded
  -- to the body it was made of, if serde_json reads back what it wrote.
  pub decode-encode_control :
      ((t : T) (bytes : Bytes) → json.to_json t ≡ some bytes → json.from_json bytes ≡ some t)
      → (body : T) (wire : Bytes) → encode_control json body ≡ done wire
      → (payload : Bytes) × (feed new_control_decoder wire
          ≡ some (new_control_decoder, ok (payload ∷ [])))
        × (decode_control json payload ≡ done body)
  unfolding new_control_decoder decode_control
  decode-encode_control law body wire h =
      let (bytes, written, framed) = encode_control-frame body wire h in
      let read = law body bytes written in
      (
        frame_class_control ∷ bytes,
        subst
            (λ w.
              feed (new_decoder control_frame_limits) w
              ≡ some (new_decoder control_frame_limits, ok ((frame_class_control ∷ bytes) ∷ [])))
            (append-nil wire)
            (feed-Encodes control_frame_limits ((frame_class_control ∷ bytes) ∷ []) (wire ++ [])
              (frame framed nothing) (omega arith)),
        ground arith,
      )
