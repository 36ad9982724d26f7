-- ===== src/Protocol/Framing/Tests.antt =====
-- Runs of rust/choosh-protocol/src/framing.rs on the inputs of its unit tests, and witnesses.
use choosh.Prelude.{false, ◌≡◌, ◌≢◌, ◌++◌, refl, true, List, [], ◌∷◌, some, none, Bytes, arith}
use choosh.Protocol.Framing.{
  FrameLimits, FrameDecoder, ok, err, empty_frame, frame_too_large, truncated_frame, decoder_failed,
  invalid_limits, new_limits, encode_frame, new_decoder, feed, finish, failing, buffered_bytes,
}
use choosh.Protocol.Framing.Stream.{IsValid, run}
use choosh.Protocol.Framing.Feed.{
  feed-run, feed-IsValid, feed-append, feed_fails_closed, finish_cases,
}
use choosh.Protocol.Framing.RoundTrip.{Encodes, nothing, frame, feed-Encodes, new_decoder-IsValid}

abbrev small : FrameLimits
small = record { max_frame_bytes = 4; max_frames_per_feed = 2 }

abbrev abc_wire : Bytes
abc_wire = 0 ∷ 0 ∷ 0 ∷ 1 ∷ 97 ∷ 0 ∷ 0 ∷ 0 ∷ 2 ∷ 98 ∷ 99 ∷ []

abbrev abc_frames : List Bytes
abc_frames = (97 ∷ []) ∷ (98 ∷ 99 ∷ []) ∷ []

zero_limits : new_limits 0 1 ≡ err invalid_limits
unfolding new_limits
zero_limits = refl

coalesced : feed (new_decoder small) abc_wire ≡ some (new_decoder small, ok abc_frames)
unfolding feed new_decoder
coalesced = refl

oversized :
    feed (new_decoder small) (0 ∷ 0 ∷ 0 ∷ 5 ∷ [])
    ≡ some
        (record (failing (new_decoder small)) { header = 0 ∷ 0 ∷ 0 ∷ 5 ∷ [] }, err frame_too_large)
unfolding feed new_decoder
oversized = refl

truncated : (finish (record (new_decoder small) { header_len = 2 })).1 ≡ err truncated_frame
unfolding finish new_decoder
truncated = refl

abbrev failed_decoder : FrameDecoder
failed_decoder = record {
  limits = small;
  header = 0 ∷ 0 ∷ 0 ∷ 0 ∷ [];
  header_len = 0;
  expected_payload = none;
  payload = [];
  failed = true;
}

empty_header :
    feed (new_decoder small) (0 ∷ 0 ∷ 0 ∷ 0 ∷ []) ≡ some (failed_decoder, err empty_frame)
unfolding feed new_decoder
empty_header = refl

feed-run_example : feed (new_decoder small) abc_wire ≡ some (run (new_decoder small) [] abc_wire)
unfolding new_decoder
feed-run_example = feed-run (new_decoder small) abc_wire (new_decoder-IsValid small) refl

feed-IsValid_example : IsValid (new_decoder small)
unfolding new_decoder
feed-IsValid_example = (feed-IsValid abc_wire (new_decoder-IsValid small) refl coalesced).0

feed-append_example :
    (m : FrameDecoder) × (f : List Bytes) × (g : List Bytes) × (feed
        (new_decoder small)
        (0 ∷ 0 ∷ 0 ∷ [])
      ≡ some (m, ok f))
    × (feed m (1 ∷ 97 ∷ 0 ∷ 0 ∷ 0 ∷ 2 ∷ 98 ∷ 99 ∷ []) ≡ some (new_decoder small, ok g))
    × (abc_frames ≡ f ++ g)
unfolding new_decoder
feed-append_example =
    feed-append (0 ∷ 0 ∷ 0 ∷ []) (1 ∷ 97 ∷ 0 ∷ 0 ∷ 0 ∷ 2 ∷ 98 ∷ 99 ∷ []) (new_decoder-IsValid small)
      refl coalesced

feed_fails_closed_example :
    (buffered_bytes failed_decoder ≡ 0)
    × (feed failed_decoder abc_wire ≡ some (failed_decoder, err decoder_failed))
    × (finish failed_decoder ≡ (failed_decoder, err decoder_failed))
unfolding new_decoder
feed_fails_closed_example =
    feed_fails_closed (0 ∷ 0 ∷ 0 ∷ 0 ∷ []) abc_wire (new_decoder-IsValid small) refl empty_header

abbrev half_header : FrameDecoder
half_header = record failed_decoder { header_len = 2; failed = false }

half_header_ends : (finish half_header).1 ≢ ok tt
unfolding finish
half_header_ends h = ground arith

finish_cases_example : (finish half_header).0.failed ≡ true
finish_cases_example = (finish_cases half_header).2 half_header_ends

abc_Encodes : Encodes small.max_frame_bytes abc_frames abc_wire
unfolding encode_frame
abc_Encodes = frame refl (frame refl nothing)

feed-Encodes_example : feed (new_decoder small) abc_wire ≡ some (new_decoder small, ok abc_frames)
feed-Encodes_example = feed-Encodes small abc_frames abc_wire abc_Encodes (omega arith)
