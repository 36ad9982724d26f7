-- ===== src/Protocol/Framing.antt =====
-- rust/choosh-protocol/src/framing.rs: the length-prefixed stream framing. A byte is a number
-- below 256. `feed` is the source's loop, on fuel: `none` would mean that the fuel ran out.
pub mod Stream
pub mod Refine
pub mod Loop
pub mod Runs
pub mod Shift
pub mod Feed
pub mod RoundTrip
mod Tests
use choosh.Prelude.{
  ℕ, zero, suc, ◌+◌, ◌-◌, ◌*◌, ◌/◌, ◌%◌, min, Bool, true, false, ◌||◌, List, [], ◌∷◌, ◌++◌, Option,
  none, some, ltb, ◌==◌, if◌then◌else◌, length, take, drop, Bytes, u32_max,
}

pub record FrameLimits : Type 0 where
  pub max_frame_bytes : ℕ
  pub max_frames_per_feed : ℕ

pub data FrameError : Type 0 where
  invalid_limits empty_frame frame_too_large batch_limit_exceeded : FrameError
  truncated_frame decoder_failed : FrameError

pub data Result {ℓ} (A : Type ℓ) : Type ℓ where
  ok : A → Result A
  err : FrameError → Result A

-- `FrameLimits::new`
pub new_limits : ℕ → ℕ → Result FrameLimits
new_limits max_frame_bytes max_frames_per_feed =
    if max_frame_bytes == 0 || max_frames_per_feed == 0 || ltb u32_max max_frame_bytes
    then err invalid_limits
    else ok
        (record { max_frame_bytes = max_frame_bytes; max_frames_per_feed = max_frames_per_feed })

-- `u32::to_be_bytes` and `u32::from_be_bytes`; the second is given four bytes.
unfoldable pub to_be_bytes : ℕ → Bytes
to_be_bytes n = (n / 16777216 % 256) ∷ (n / 65536 % 256) ∷ (n / 256 % 256) ∷ (n % 256) ∷ []

abbrev pub be_from : ℕ → Bytes → ℕ
be_from acc [] = acc
be_from acc (b ∷ bs) = be_from (acc * 256 + b) bs

unfoldable pub from_be_bytes : Bytes → ℕ
from_be_bytes = be_from 0

unfoldable pub encode_frame : Bytes → ℕ → Result Bytes
unfolding to_be_bytes
encode_frame [] max_frame_bytes = err empty_frame
encode_frame (b ∷ bs) max_frame_bytes =
    let n = length (b ∷ bs) in
    if ltb max_frame_bytes n || ltb u32_max n
    then err frame_too_large
    else ok (to_be_bytes n ++ b ∷ bs)

pub record FrameDecoder : Type 0 where
  pub limits : FrameLimits
  pub header : Bytes
  pub header_len : ℕ
  pub expected_payload : Option ℕ
  pub payload : Bytes
  pub failed : Bool

abbrev pub zero_header : Bytes
zero_header = 0 ∷ 0 ∷ 0 ∷ 0 ∷ []

-- `FrameDecoder::new`
unfoldable pub new_decoder : FrameLimits → FrameDecoder
new_decoder l = record {
  limits = l;
  header = zero_header;
  header_len = 0;
  expected_payload = none;
  payload = [];
  failed = false;
}

unfoldable pub buffered_bytes : FrameDecoder → ℕ
buffered_bytes d = d.header_len + length d.payload

-- The state that `fail` leaves.
abbrev pub failing : FrameDecoder → FrameDecoder
failing d = record d { failed = true; header_len = 0; expected_payload = none; payload = [] }

-- `header[at..at + xs.len()].copy_from_slice(xs)`
abbrev pub copy_at : Bytes → ℕ → Bytes → Bytes
copy_at xs zero [] = xs
copy_at xs zero (y ∷ ys) = y ∷ copy_at (drop 1 xs) zero ys
copy_at [] (suc n) ys = []
copy_at (x ∷ xs) (suc n) ys = x ∷ copy_at xs n ys

-- How one round of the loop of `feed` ends: it goes on with the rest of the input, or fails.
pub data Round : Type 0 where
  more : FrameDecoder → List Bytes → Bytes → Round
  stop : FrameDecoder → FrameError → Round

unfoldable pub emit : FrameDecoder → List Bytes → Bytes → Round
emit d frames rest =
    if length frames == d.limits.max_frames_per_feed
    then stop (failing d) batch_limit_exceeded
    else more
        (record d { payload = []; expected_payload = none; header_len = 0; header = zero_header })
        (frames ++ d.payload ∷ []) rest

-- A whole payload is a frame.
abbrev pub settle : ℕ → FrameDecoder → List Bytes → Bytes → Round
settle expected filled frames rest =
    if length filled.payload == expected then emit filled frames rest else more filled frames rest

-- The second half of a round: payload bytes are copied.
unfoldable pub payload_phase : ℕ → FrameDecoder → List Bytes → Bytes → Round
unfolding emit
payload_phase expected d frames input =
    let copied = min (expected - length d.payload) (length input) in
    settle expected (record d { payload = d.payload ++ take copied input }) frames
      (drop copied input)

abbrev pub expecting : FrameDecoder → ℕ → FrameDecoder
expecting d n = record d {
  header_len = 0;
  header = zero_header;
  expected_payload = some n;
  payload = [];
}

-- A whole header is checked, and the round goes on to the payload.
unfoldable pub accept_header : FrameDecoder → List Bytes → Bytes → Round
unfolding from_be_bytes payload_phase
accept_header filled frames rest =
    let n = from_be_bytes filled.header in
    if n == 0
    then stop (failing filled) empty_frame
    else if ltb filled.limits.max_frame_bytes n
    then stop (failing filled) frame_too_large
    else payload_phase n (expecting filled n) frames rest

abbrev pub settle_header : FrameDecoder → List Bytes → Bytes → Round
settle_header filled frames rest =
    if ltb filled.header_len 4 then more filled frames rest else accept_header filled frames rest

-- The first half: header bytes are copied.
unfoldable pub header_phase : FrameDecoder → List Bytes → Bytes → Round
header_phase d frames input =
    let copied = min (4 - d.header_len) (length input) in
    settle_header
      (record d {
        header = copy_at d.header d.header_len (take copied input);
        header_len = d.header_len + copied;
      })
      frames (drop copied input)

unfoldable pub feed_round : FrameDecoder → List Bytes → Bytes → Round
feed_round d frames input = elim d.expected_payload [
  | none ↦ header_phase d frames input
  | some expected ↦ payload_phase expected d frames input
]

unfoldable pub feed_loop :
    ℕ → FrameDecoder → List Bytes → Bytes → Option (FrameDecoder × Result (List Bytes))
feed_loop fuel d frames [] = some (d, ok frames)
feed_loop zero d frames (b ∷ input) = none
feed_loop (suc fuel) d frames (b ∷ input) = elim (feed_round d frames (b ∷ input)) [
  | more d' frames' rest ↦ feed_loop fuel d' frames' rest
  | stop d' e ↦ some (d', err e)
]

unfoldable pub feed : FrameDecoder → Bytes → Option (FrameDecoder × Result (List Bytes))
unfolding feed_loop feed_round header_phase accept_header payload_phase
feed d input =
    if d.failed then some (d, err decoder_failed) else feed_loop (length input) d [] input

unfoldable pub finish : FrameDecoder → FrameDecoder × Result (Unit {0})
finish d = if d.failed then (d, err decoder_failed) else elim d.expected_payload [
  | none ↦ if d.header_len == 0 then (d, ok tt) else (failing d, err truncated_frame)
  | some _ ↦ (failing d, err truncated_frame)
]
