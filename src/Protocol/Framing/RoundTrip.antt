-- ===== src/Protocol/Framing/RoundTrip.antt =====
-- `encode_frame` against `FrameDecoder::feed`, of rust/choosh-protocol/src/framing.rs.
use mathlib.Core.List.{append-nil, append_assoc}
use choosh.Prelude.{
  ℕ, ◌+◌, ◌/◌, ◌%◌, ◌≤◌, ◌<◌, ◌≡◌, refl, ap, ◌∙◌, List, [], ◌∷◌, ◌++◌, some, length, Bytes, arith,
  length-append, ◌≢◌, u32_max,
}
use choosh.Protocol.Framing.{
  FrameDecoder, FrameLimits, ok, expecting, feed, to_be_bytes, from_be_bytes, encode_frame,
  new_decoder,
}
use choosh.Protocol.Framing.Stream.{go, check_header, check_header, run, IsValid}
use choosh.Protocol.Framing.Refine.{continue_with, run-cons}
use choosh.Protocol.Framing.Feed.{feed-run}

pub from-to_be_bytes : (n : ℕ) → n ≤ u32_max → from_be_bytes (to_be_bytes n) ≡ n
unfolding from_be_bytes to_be_bytes
from-to_be_bytes n h = omega arith

abbrev reading : FrameLimits → Bytes → ℕ → FrameDecoder
reading l read n = record (new_decoder l) { expected_payload = some n; payload = read }

abbrev whole : FrameLimits → Bytes → FrameDecoder
whole l header = record (new_decoder l) { header = header; header_len = 4 }

run_header_bytes :
    (l : FrameLimits) (frames : List Bytes) (a b c e : ℕ) (rest : Bytes)
    → run (new_decoder l) frames (a ∷ b ∷ c ∷ e ∷ rest)
      ≡ continue_with (check_header (whole l (a ∷ b ∷ c ∷ e ∷ [])) frames) rest
unfolding run new_decoder check_header
run_header_bytes l frames a b c e rest =
    run-cons (record (new_decoder l) { header = a ∷ b ∷ c ∷ 0 ∷ []; header_len = 3 }) frames e rest

check_header_fits :
    (d : FrameDecoder) (frames : List Bytes) (n : ℕ)
    → from_be_bytes d.header ≡ n
    → 0 < n
    → n ≤ d.limits.max_frame_bytes
    → check_header d frames ≡ go (expecting d n) frames
check_header_fits d frames n e p h = unfold check_header in ground (arith, ap (expecting d) e)

run_header :
    (l : FrameLimits) (frames : List Bytes) (n : ℕ) (rest : Bytes)
    → 0 < n
    → n ≤ l.max_frame_bytes
    → n ≤ u32_max
    → run (new_decoder l) frames (to_be_bytes n ++ rest) ≡ run (reading l [] n) frames rest
unfolding new_decoder to_be_bytes
run_header l frames n rest p h k =
    run_header_bytes l frames (n / 16777216 % 256) (n / 65536 % 256) (n / 256 % 256) (n % 256) rest
    ∙ ap (λ m. continue_with m rest)
        (check_header_fits (whole l (to_be_bytes n)) frames n (from-to_be_bytes n k) p h)

-- One byte of a payload that does not complete it, and one that does.
run_payload_part :
    (l : FrameLimits) (read : Bytes) (n x : ℕ) (frames : List Bytes) (rest : Bytes)
    → length read + 1 ≢ n
    → run (reading l read n) frames (x ∷ rest) ≡ run (reading l (read ++ x ∷ []) n) frames rest
unfolding run
run_payload_part l read n x frames rest h = ground (arith, length-append read (x ∷ []))

run_payload_last :
    (l : FrameLimits) (read : Bytes) (n x : ℕ) (frames : List Bytes) (rest : Bytes)
    → length read + 1 ≡ n
    → length frames < l.max_frames_per_feed
    → run (reading l read n) frames (x ∷ rest)
      ≡ run (new_decoder l) (frames ++ (read ++ x ∷ []) ∷ []) rest
unfolding run new_decoder
run_payload_last l read n x frames rest h k = ground (arith, length-append read (x ∷ []))

run_payload :
    (xs : Bytes) (l : FrameLimits) (read : Bytes) (n : ℕ) (frames : List Bytes) (rest : Bytes)
    → xs ≢ []
    → length read + length xs ≡ n
    → length frames < l.max_frames_per_feed
    → run (reading l read n) frames (xs ++ rest)
      ≡ run (new_decoder l) (frames ++ (read ++ xs) ∷ []) rest
run_payload [] l read n frames rest ne h k = absurd (ne refl)
run_payload (x ∷ []) l read n frames rest ne h k = run_payload_last l read n x frames rest h k
run_payload (x ∷ y ∷ xs) l read n frames rest ne h k =
    run_payload_part l read n x frames (y ∷ (xs ++ rest)) (λ e. omega arith)
    ∙ run_payload (y ∷ xs) l (read ++ x ∷ []) n frames rest (λ e. cc)
        (omega (arith, length-append read (x ∷ []))) k
    ∙ rw (append_assoc read (x ∷ []) (y ∷ xs))

-- `wire` is what `encode_frame` gives for each payload under the limit, one behind the other.
pub data Encodes (max_frame_bytes : ℕ) : List Bytes → Bytes → Type 0 where
  nothing : Encodes max_frame_bytes [] []
  frame :
      {payload : Bytes} {payloads : List Bytes} {encoded wire : Bytes}
      → encode_frame payload max_frame_bytes ≡ ok encoded
      → Encodes max_frame_bytes payloads wire
      → Encodes max_frame_bytes (payload ∷ payloads) (encoded ++ wire)

encode_frame-eq_ok :
    (payload : Bytes) (m : ℕ) {encoded : Bytes}
    → encode_frame payload m ≡ ok encoded
    → (payload ≢ [])
      × (0 < length payload)
      × (length payload ≤ m)
      × (length payload ≤ u32_max)
      × (encoded ≡ to_be_bytes (length payload) ++ payload)
unfolding encode_frame
encode_frame-eq_ok [] m h = cc
encode_frame-eq_ok (b ∷ bs) m h = ((λ e. cc), omega arith, ground arith, ground arith, ground arith)

run-Encodes :
    (l : FrameLimits) (frames : List Bytes) {payloads : List Bytes} {wire : Bytes}
    → Encodes l.max_frame_bytes payloads wire
    → length frames + length payloads ≤ l.max_frames_per_feed
    → run (new_decoder l) frames wire ≡ (new_decoder l, ok (frames ++ payloads))
run-Encodes l frames nothing h = unfold run in rw append-nil
run-Encodes l frames (frame {payload} {payloads} {encoded} {wire} e rest) h =
    let (ne, pos, fits, small, shape) = encode_frame-eq_ok payload l.max_frame_bytes e in
    rw (shape, append_assoc (to_be_bytes (length payload)) payload wire)
      (run_header l frames (length payload) (payload ++ wire) pos fits small
        ∙ run_payload payload l [] (length payload) frames wire ne (omega arith) (omega arith)
        ∙ run-Encodes l (frames ++ payload ∷ []) rest
            (omega (arith, length-append frames (payload ∷ [])))
        ∙ rw (append_assoc frames (payload ∷ []) payloads))

pub new_decoder-IsValid : (l : FrameLimits) → IsValid (new_decoder l)
unfolding new_decoder
new_decoder-IsValid l = record { header_size = refl; header_short = omega arith; phase = refl }

-- A new decoder reads back, in one call, any sequence of at most `max_frames_per_feed` payloads that
-- `encode_frame` accepts under the same frame limit: the frames come out as they went in, in their order, and the decoder is again a
-- new one.
pub feed-Encodes :
    (l : FrameLimits) (payloads : List Bytes) (wire : Bytes)
    → Encodes l.max_frame_bytes payloads wire
    → length payloads ≤ l.max_frames_per_feed
    → feed (new_decoder l) wire ≡ some (new_decoder l, ok payloads)
feed-Encodes l payloads wire e h =
    feed-run (new_decoder l) wire (new_decoder-IsValid l) (unfold new_decoder in refl)
    ∙ ap some (run-Encodes l [] e (omega arith))
