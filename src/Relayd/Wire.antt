-- ===== src/Relayd/Wire.antt =====
-- rust/choosh-relayd/src/wire.rs: the control frames. serde_json for the type of the body is a parameter.
pub mod RoundTrip
mod Tests
use choosh.Prelude.{
  ℕ, List, [], ◌∷◌, Option, none, some, ◌==◌, if◌then◌else◌, Bytes, Outcome, done, failed,
}
use choosh.Protocol.Framing.{
  FrameError, FrameLimits, FrameDecoder, encode_frame, new_decoder, empty_frame, ok, err,
}
use choosh.Protocol.Relay.{frame_class_control, max_control_frame_bytes}

-- `to_json` and `from_json` give none for an error.
pub record Json (T : Type 0) : Type 0 where
  pub to_json : T → Option Bytes
  pub from_json : Bytes → Option T

-- The literal that `FrameLimits::new` accepts.
abbrev pub control_frame_limits : FrameLimits
control_frame_limits = record { max_frame_bytes = max_control_frame_bytes; max_frames_per_feed = 1 }

unfoldable pub new_control_decoder : FrameDecoder
new_control_decoder = new_decoder control_frame_limits

pub data EncodeError : Type 0 where
  serialize : EncodeError
  frame : FrameError → EncodeError

pub data DecodeError : Type 0 where
  frame : FrameError → DecodeError
  wrong_class : ℕ → DecodeError
  deserialize : DecodeError

module _ {T : Type 0} (json : Json T) where
  unfoldable pub encode_control : T → Outcome EncodeError Bytes
  encode_control body = elim (json.to_json body) [
    | none ↦ failed serialize
    | some bytes ↦ elim (encode_frame (frame_class_control ∷ bytes) max_control_frame_bytes) [
      | ok wire ↦ done wire
      | err e ↦ failed (frame e)
    ]
  ]

  unfoldable pub decode_control : Bytes → Outcome DecodeError T
  decode_control [] = failed (frame empty_frame)
  decode_control (class ∷ body) =
      if class == frame_class_control
      then (elim (json.from_json body) [ none ↦ failed deserialize | some t ↦ done t ])
      else failed (wrong_class class)
