-- ===== src/Protocol/Framing/Feed.antt =====
-- What `FrameDecoder::feed` and `finish` of rust/choosh-protocol/src/framing.rs promise to a caller.
use mathlib.Core.List.{append-nil}
use choosh.Prelude.{
  ◌≤◌, ◌<◌, ◌≡◌, refl, sym, ap, ◌∙◌, subst, true, false, ◌⊎◌, inl, inr, ◌↔◌, ◌≢◌, List, [], ◌∷◌,
  ◌++◌, none, some, eq_of_some, length, Bytes, arith, Option-cases,
}
use choosh.Protocol.Framing.{
  FrameDecoder, FrameError, Result, ok, err, decoder_failed, failing, feed, finish, buffered_bytes,
}
use choosh.Protocol.Framing.Stream.{Next, go, halt, step_byte, run, PhaseInv, IsValid}
use choosh.Protocol.Framing.Refine.{continue_with, run-cons}
use choosh.Protocol.Framing.Loop.{feed_loop-run, PhaseInv-some}
use choosh.Protocol.Framing.Runs.{Keeps, step_byte-Keeps, run-append, run-append_err}
use choosh.Protocol.Framing.Shift.{run-Unshifted}

-- `feed` on a valid decoder that has not failed ends, and gives what the byte machine gives on the
-- same input: how the loop cuts the input into copies does not matter.
pub feed-run :
    (d : FrameDecoder) (input : Bytes)
    → IsValid d
    → d.failed ≡ false
    → feed d input ≡ some (run d [] input)
feed-run d input v h =
    unfold feed in ground (arith, feed_loop-run (length input) d [] input (omega arith) v)

abbrev Ends : FrameDecoder → FrameDecoder × Result (List Bytes) → Type 0
Ends d (d', ok found) =
    IsValid d'
    × (d'.limits ≡ d.limits)
    × (d'.failed ≡ d.failed)
    × (length found ≤ d.limits.max_frames_per_feed)
Ends d (d', err e) = (d'.limits ≡ d.limits) × (d' ≡ failing d')

continue-Ends :
    (d : FrameDecoder) (n : Next) (bs : Bytes)
    → Keeps d n
    → ((e : FrameDecoder) (g : List Bytes)
        → IsValid e
        → length g ≤ e.limits.max_frames_per_feed
        → Ends e (run e g bs))
    → Ends d (continue_with n bs)
continue-Ends d (go e g) bs k ih = chain (run e g bs) (ih e g k.0 (ground arith))
  where
    chain : (r : FrameDecoder × Result (List Bytes)) → Ends e r → Ends d r
    chain (d', ok found) h = ground arith
    chain (d', err w) h = (h.0 ∙ k.1, h.1)
continue-Ends d (halt e w) bs k ih = k

run-Ends :
    (d : FrameDecoder) (frames : List Bytes) (bs : Bytes)
    → IsValid d
    → length frames ≤ d.limits.max_frames_per_feed
    → Ends d (run d frames bs)
run-Ends d frames [] v h = unfold run in (v, refl, refl, h)
run-Ends d frames (b ∷ bs) v h = rw (run-cons d frames b bs) (
    continue-Ends d (step_byte d frames b) bs (step_byte-Keeps d frames b v h)
      (λ e g. run-Ends e g bs))

-- The result of `feed` on a decoder that has not failed, as an equation about the run.
fed :
    (d : FrameDecoder) (input : Bytes) {r : FrameDecoder × Result (List Bytes)}
    → IsValid d
    → d.failed ≡ false
    → feed d input ≡ some r
    → run d [] input ≡ r
fed d input v f h = eq_of_some (sym (feed-run d input v f) ∙ h)

buffered_cases :
    (d : FrameDecoder)
    → IsValid d
    → (buffered_bytes d ≤ 3) ⊎ (buffered_bytes d < d.limits.max_frame_bytes)
unfolding buffered_bytes
buffered_cases d v = elim (Option-cases d.expected_payload) [
  | inl x ↦
      let empty : d.payload ≡ [] = subst (λ o. PhaseInv o d) x v.phase in
      inl (ground (arith, ap length empty))
  | inr (e, x) ↦ inr (ground (arith, PhaseInv-some e d x v))
]

-- A call of `feed` that succeeds on a valid decoder which has not failed leaves one that is valid
-- and has not failed, under the same limits. It gives at most `max_frames_per_feed` frames, and what stays buffered is
-- a part of a header (three bytes at most) or less than one frame of the largest size.
pub feed-IsValid :
    {d d' : FrameDecoder} {frames : List Bytes} (input : Bytes)
    → IsValid d
    → d.failed ≡ false
    → feed d input ≡ some (d', ok frames)
    → IsValid d'
      × (d'.failed ≡ false)
      × (d'.limits ≡ d.limits)
      × (length frames ≤ d.limits.max_frames_per_feed)
      × ((buffered_bytes d' ≤ 3) ⊎ (buffered_bytes d' < d.limits.max_frame_bytes))
feed-IsValid {d} {d'} input v f h =
    let e = rw (fed d input v f h) at (run-Ends d [] input v (omega arith)) in
    (
      e.0,
      e.2 ∙ f,
      e.1,
      e.3,
      subst (λ l. (buffered_bytes d' ≤ 3) ⊎ (buffered_bytes d' < l.max_frame_bytes)) e.1
          (buffered_cases d' e.0),
    )

-- Cutting a stream in two changes nothing: if `feed` decodes `a ++ b` in one call, then it decodes
-- `a` and then `b` in two calls, into the same frames in the same order, and leaves the same decoder.
pub feed-append :
    {d d' : FrameDecoder} {frames : List Bytes} (a b : Bytes)
    → IsValid d
    → d.failed ≡ false
    → feed d (a ++ b) ≡ some (d', ok frames)
    → (m : FrameDecoder) × (f : List Bytes) × (g : List Bytes) × (feed d a ≡ some (m, ok f))
      × (feed m b ≡ some (d', ok g))
      × (frames ≡ f ++ g)
feed-append {d} {d'} {frames} a b v f h = split (run d [] a) refl
  where
    split :
        (r : FrameDecoder × Result (List Bytes))
        → run d [] a ≡ r
        → (m : FrameDecoder) × (f : List Bytes) × (g : List Bytes) × (feed d a ≡ some (m, ok f))
          × (feed m b ≡ some (d', ok g))
          × (frames ≡ f ++ g)
    split (m, ok p) e =
        let ends = rw e at (run-Ends d [] a v (omega arith)) in
        let joined = sym (run-append d [] a b e) ∙ fed d (a ++ b) v f h in
        let (g, found, parts) =
          run-Unshifted p m [] b ends.0 (rw append-nil (ground arith)) (rw append-nil joined) in
        (
          m,
          p,
          g,
          feed-run d a v f ∙ ap some e,
          feed-run m b ends.0 (ends.2 ∙ f) ∙ ap some found,
          parts,
        )
    split (m, err w) e = cc (run-append_err d [] a b e, fed d (a ++ b) v f h)

-- A failure is final. When `feed` fails on a valid decoder that had not failed, the decoder that it leaves
-- buffers nothing, every later `feed` reports `decoder_failed` and changes nothing, and so does `finish`.
pub feed_fails_closed :
    {d d' : FrameDecoder} {e : FrameError} (input later : Bytes)
    → IsValid d
    → d.failed ≡ false
    → feed d input ≡ some (d', err e)
    → (buffered_bytes d' ≡ 0)
      × (feed d' later ≡ some (d', err decoder_failed))
      × (finish d' ≡ (d', err decoder_failed))
feed_fails_closed {d} {d'} input later v f h =
    let e = rw (fed d input v f h) at (run-Ends d [] input v (omega arith)) in
    let failed : d'.failed ≡ true = ap (λ (x : FrameDecoder). x.failed) e.1 in
    let unread : d'.header_len ≡ 0 = ap (λ (x : FrameDecoder). x.header_len) e.1 in
    let empty : d'.payload ≡ [] = ap (λ (x : FrameDecoder). x.payload) e.1 in
    unfold buffered_bytes feed finish in ground (arith, ap length empty)

-- `finish` succeeds exactly on a decoder that has not failed and holds no part of a header and no
-- frame in progress, and then changes nothing. In all other cases the decoder that it leaves has failed.
pub finish_cases :
    (d : FrameDecoder)
    → (((finish d).1 ≡ ok tt)
        ↔ ((d.failed ≡ false) × (d.header_len ≡ 0) × (d.expected_payload ≡ none)))
      × ((finish d).1 ≡ ok tt → (finish d).0 ≡ d)
      × ((finish d).1 ≢ ok tt → (finish d).0.failed ≡ true)
unfolding finish
finish_cases d =
    (((λ h. ground arith), (λ h. ground arith)), (λ h. ground arith), (λ h. ground arith))
