-- ===== src/Protocol/Framing/Stream.antt =====
-- The decoder of rust/choosh-protocol/src/framing.rs as a machine that takes one byte at a time: what
-- the stream means, with no chunks. `Refine` shows that `feed` computes it.
use choosh.Prelude.{
  ℕ, ◌+◌, ◌≤◌, ◌<◌, ◌≡◌, List, [], ◌∷◌, ◌++◌, Option, none, some, ltb, ◌==◌, if◌then◌else◌, length,
  set, Bytes,
}
use choosh.Protocol.Framing.{
  FrameDecoder, FrameError, empty_frame, frame_too_large, batch_limit_exceeded, Result, ok, err,
  failing, expecting, from_be_bytes, zero_header,
}

pub data Next : Type 0 where
  go : FrameDecoder → List Bytes → Next
  halt : FrameDecoder → FrameError → Next

abbrev pub push_payload : FrameDecoder → ℕ → FrameDecoder
push_payload d b = record d { payload = d.payload ++ b ∷ [] }

abbrev pub push_header : FrameDecoder → ℕ → FrameDecoder
push_header d b = record d { header = set d.header d.header_len b; header_len = d.header_len + 1 }

unfoldable pub deliver : FrameDecoder → List Bytes → Next
deliver d frames =
    if length frames == d.limits.max_frames_per_feed
    then halt (failing d) batch_limit_exceeded
    else go
        (record d { payload = []; expected_payload = none; header_len = 0; header = zero_header })
        (frames ++ d.payload ∷ [])

unfoldable pub payload_byte : ℕ → FrameDecoder → List Bytes → ℕ → Next
unfolding deliver
payload_byte expected d frames b =
    if length (d.payload ++ b ∷ []) == expected
    then deliver (push_payload d b) frames
    else go (push_payload d b) frames

-- A whole header: the length that it holds is checked.
unfoldable pub check_header : FrameDecoder → List Bytes → Next
unfolding from_be_bytes
check_header d frames =
    let n = from_be_bytes d.header in
    if n == 0
    then halt (failing d) empty_frame
    else if ltb d.limits.max_frame_bytes n
    then halt (failing d) frame_too_large
    else go (expecting d n) frames

unfoldable pub header_byte : FrameDecoder → List Bytes → ℕ → Next
unfolding check_header
header_byte d frames b =
    if ltb (d.header_len + 1) 4
    then go (push_header d b) frames
    else check_header (push_header d b) frames

unfoldable pub step_byte : FrameDecoder → List Bytes → ℕ → Next
unfolding payload_byte header_byte
step_byte d frames b = elim d.expected_payload [
  | none ↦ header_byte d frames b
  | some expected ↦ payload_byte expected d frames b
]

unfoldable pub run : FrameDecoder → List Bytes → Bytes → FrameDecoder × Result (List Bytes)
unfolding step_byte
run d frames [] = (d, ok frames)
run d frames (b ∷ bs) = elim (step_byte d frames b) [
  | go d' frames' ↦ run d' frames' bs
  | halt d' e ↦ (d', err e)
]

-- What the phase of the decoder says of its fields.
abbrev pub PhaseInv : Option ℕ → FrameDecoder → Type 0
PhaseInv none d = d.payload ≡ []
PhaseInv (some expected) d =
    (d.header_len ≡ 0) × (length d.payload < expected) × (expected ≤ d.limits.max_frame_bytes)

pub record IsValid (d : FrameDecoder) : Type 0 where
  pub header_size : length d.header ≡ 4
  pub header_short : d.header_len < 4
  pub phase : PhaseInv d.expected_payload d
