-- ===== src/Protocol/Framing/Shift.antt =====
-- Runs of the byte machine with frames already found: those frames only use up the batch limit.
use mathlib.Core.List.{append_assoc}
use choosh.Prelude.{
  ℕ, ◌+◌, ◌≤◌, ◌≡◌, refl, sym, ◌∙◌, inl, inr, List, [], ◌∷◌, ◌++◌, ltb, ◌==◌, length, Bytes, arith,
  Bool-cases, length-append, Option-cases,
}
use choosh.Protocol.Framing.{FrameDecoder, Result, ok, from_be_bytes}
use choosh.Protocol.Framing.Stream.{
  Next, go, halt, push_payload, push_header, deliver, payload_byte, check_header, header_byte,
  step_byte, run, IsValid,
}
use choosh.Protocol.Framing.Refine.{continue_with, run-cons}
use choosh.Protocol.Framing.Runs.{Keeps, step_byte-Keeps}

-- The step `m` goes on as the first does, without the frames `p`.
abbrev Shifts : List Bytes → Next → Next → Type 0
Shifts p (go e g) m = (g' : List Bytes) × (m ≡ go e g') × (g ≡ p ++ g')
Shifts p (halt e w) m = Unit {0}

module _ (p : List Bytes) (d : FrameDecoder) (frames : List Bytes) where
  deliver-Shifts :
      length (p ++ frames) ≤ d.limits.max_frames_per_feed
      → Shifts p (deliver d (p ++ frames)) (deliver d frames)
  unfolding deliver
  deliver-Shifts h = elim (Bool-cases (length (p ++ frames) == d.limits.max_frames_per_feed)) [
    | inl full ↦ rw full tt
    | inr room ↦ rw room (
      frames ++ d.payload ∷ [],
      ground (arith, length-append p frames),
      append_assoc p frames (d.payload ∷ []),
    )
  ]

  check_header-Shifts : Shifts p (check_header d (p ++ frames)) (check_header d frames)
  unfolding check_header
  check_header-Shifts = elim (Bool-cases (from_be_bytes d.header == 0)) [
    | inl empty ↦ rw empty tt
    | inr some_bytes ↦ elim (Bool-cases (ltb d.limits.max_frame_bytes (from_be_bytes d.header))) [
      | inl large ↦ rw (some_bytes, large) tt
      | inr fits ↦ rw (some_bytes, fits) (frames, refl, refl)
    ]
  ]

payload_byte-Shifts :
    (p : List Bytes) (e : ℕ) (d : FrameDecoder) (frames : List Bytes) (b : ℕ)
    → length (p ++ frames) ≤ d.limits.max_frames_per_feed
    → Shifts p (payload_byte e d (p ++ frames) b) (payload_byte e d frames b)
unfolding payload_byte
payload_byte-Shifts p e d frames b h = elim (Bool-cases (length (d.payload ++ b ∷ []) == e)) [
  | inl full ↦ rw full (deliver-Shifts p (push_payload d b) frames h)
  | inr part ↦ rw part (frames, refl, refl)
]

header_byte-Shifts :
    (p : List Bytes) (d : FrameDecoder) (frames : List Bytes) (b : ℕ)
    → Shifts p (header_byte d (p ++ frames) b) (header_byte d frames b)
unfolding header_byte
header_byte-Shifts p d frames b = elim (Bool-cases (ltb (d.header_len + 1) 4)) [
  | inl part ↦ rw part (frames, refl, refl)
  | inr full ↦ rw full (check_header-Shifts p (push_header d b) frames)
]

step_byte-Shifts :
    (p : List Bytes) (d : FrameDecoder) (frames : List Bytes) (b : ℕ)
    → length (p ++ frames) ≤ d.limits.max_frames_per_feed
    → Shifts p (step_byte d (p ++ frames) b) (step_byte d frames b)
unfolding step_byte
step_byte-Shifts p d frames b h = elim (Option-cases d.expected_payload) [
  | inl x ↦ ground (arith, header_byte-Shifts p d frames b)
  | inr (e, x) ↦ ground (arith, payload_byte-Shifts p e d frames b h)
]

abbrev pub Unshifted :
    List Bytes → FrameDecoder → List Bytes → FrameDecoder × Result (List Bytes) → Type 0
Unshifted p d' found r = (found' : List Bytes) × (r ≡ (d', ok found')) × (found ≡ p ++ found')

continue-Unshifted :
    (p : List Bytes) (d : FrameDecoder) (n m : Next) (bs : Bytes) {d' : FrameDecoder}
    {found : List Bytes}
    → Keeps d n
    → Shifts p n m
    → ((e : FrameDecoder) (g : List Bytes)
        → IsValid e
        → length (p ++ g) ≤ e.limits.max_frames_per_feed
        → run e (p ++ g) bs ≡ (d', ok found)
        → Unshifted p d' found (run e g bs))
    → continue_with n bs ≡ (d', ok found)
    → Unshifted p d' found (continue_with m bs)
continue-Unshifted p d (go e g) m bs k (g', s, t) ih h =
    rw s (ih e g' k.0 (ground arith) (rw t at h))
continue-Unshifted p d (halt e w) m bs k s ih h = cc

-- A run that succeeds behind the frames `p` succeeds without them, and finds the same frames.
pub run-Unshifted :
    (p : List Bytes) (d : FrameDecoder) (frames : List Bytes) (bs : Bytes) {d' : FrameDecoder}
    {found : List Bytes}
    → IsValid d
    → length (p ++ frames) ≤ d.limits.max_frames_per_feed
    → run d (p ++ frames) bs ≡ (d', ok found)
    → Unshifted p d' found (run d frames bs)
run-Unshifted p d frames [] v h q = (frames, unfold run in ground arith, unfold run in ground arith)
run-Unshifted p d frames (b ∷ bs) v h q = rw (run-cons d frames b bs) (
    continue-Unshifted p d (step_byte d (p ++ frames) b) (step_byte d frames b) bs
      (step_byte-Keeps d (p ++ frames) b v h) (step_byte-Shifts p d frames b h)
      (λ e g. run-Unshifted p e g bs) (sym (run-cons d (p ++ frames) b bs) ∙ q))
