-- ===== src/Protocol/Framing/Runs.antt =====
-- Runs of the byte machine of `Stream`: composition, the invariant, frames found before, failures.
use choosh.Prelude.{
  ℕ, ◌+◌, ◌≤◌, ◌≡◌, refl, sym, ◌∙◌, inl, inr, List, [], ◌∷◌, ◌++◌, none, some, ltb, ◌==◌, length,
  Bytes, arith, Bool-cases, length-append, ltb→lt, Option-cases,
}
use choosh.Protocol.Framing.{FrameDecoder, FrameError, ok, err, failing, from_be_bytes}
use choosh.Protocol.Framing.Stream.{
  Next, go, halt, push_payload, push_header, deliver, payload_byte, check_header, header_byte,
  step_byte, run, IsValid,
}
use choosh.Protocol.Framing.Refine.{continue_with, run-cons}
use choosh.Protocol.Framing.Loop.{
  PhaseInv-some, push_payload-IsValid, push_header-IsValid, expecting-IsValid,
}

continue-append :
    (n : Next) (xs b : Bytes) {d' : FrameDecoder} {found : List Bytes}
    → ((e : FrameDecoder) (g : List Bytes)
        → run e g xs ≡ (d', ok found)
        → run e g (xs ++ b) ≡ run d' found b)
    → continue_with n xs ≡ (d', ok found)
    → continue_with n (xs ++ b) ≡ run d' found b
continue-append (go e g) xs b ih h = ih e g h
continue-append (halt e w) xs b ih h = cc

-- After a run that fails in no place, the machine goes on from where it stands.
pub run-append :
    (d : FrameDecoder) (frames : List Bytes) (a b : Bytes) {d' : FrameDecoder} {found : List Bytes}
    → run d frames a ≡ (d', ok found)
    → run d frames (a ++ b) ≡ run d' found b
run-append d frames [] b h = unfold run in ground arith
run-append d frames (x ∷ xs) b h =
    run-cons d frames x (xs ++ b)
    ∙ continue-append (step_byte d frames x) xs b (λ e g. run-append e g xs b)
        (sym (run-cons d frames x xs) ∙ h)

-- A run that fails has failed once and for all, whatever follows.
continue-append_err :
    (n : Next) (xs b : Bytes) {d' : FrameDecoder} {w : FrameError}
    → ((e : FrameDecoder) (g : List Bytes)
        → run e g xs ≡ (d', err w)
        → run e g (xs ++ b) ≡ (d', err w))
    → continue_with n xs ≡ (d', err w)
    → continue_with n (xs ++ b) ≡ (d', err w)
continue-append_err (go e g) xs b ih h = ih e g h
continue-append_err (halt e w) xs b ih h = h

pub run-append_err :
    (d : FrameDecoder) (frames : List Bytes) (a b : Bytes) {d' : FrameDecoder} {w : FrameError}
    → run d frames a ≡ (d', err w)
    → run d frames (a ++ b) ≡ (d', err w)
run-append_err d frames [] b h = unfold run in ground arith
run-append_err d frames (x ∷ xs) b h =
    run-cons d frames x (xs ++ b)
    ∙ continue-append_err (step_byte d frames x) xs b (λ e g. run-append_err e g xs b)
        (sym (run-cons d frames x xs) ∙ h)

-- What one byte keeps: the limits, the invariant, and the bound on the frames of one call.
abbrev pub Keeps : FrameDecoder → Next → Type 0
Keeps d (go e g) =
    IsValid e
    × (e.limits ≡ d.limits)
    × (e.failed ≡ d.failed)
    × (length g ≤ d.limits.max_frames_per_feed)
Keeps d (halt e w) = (e.limits ≡ d.limits) × (e ≡ failing e)

deliver-Keeps :
    (d : FrameDecoder) (frames : List Bytes)
    → length frames ≤ d.limits.max_frames_per_feed
    → Keeps d (deliver d frames)
unfolding deliver
deliver-Keeps d frames h = elim (Bool-cases (length frames == d.limits.max_frames_per_feed)) [
  | inl full ↦ rw full (refl, refl)
  | inr room ↦ rw room (
    record { header_size = refl; header_short = omega arith; phase = refl },
    refl,
    refl,
    ground (arith, length-append frames (d.payload ∷ [])),
  )
]

check_header-Keeps :
    (d : FrameDecoder) (frames : List Bytes)
    → length frames ≤ d.limits.max_frames_per_feed
    → Keeps d (check_header d frames)
unfolding check_header
check_header-Keeps d frames h = elim (Bool-cases (from_be_bytes d.header == 0)) [
  | inl empty ↦ rw empty (refl, refl)
  | inr some_bytes ↦ elim (Bool-cases (ltb d.limits.max_frame_bytes (from_be_bytes d.header))) [
    | inl large ↦ rw (some_bytes, large) (refl, refl)
    | inr fits ↦ rw (some_bytes, fits) (expecting-IsValid d _ some_bytes fits, refl, refl, h)
  ]
]

payload_byte-Keeps :
    (e : ℕ) (d : FrameDecoder) (frames : List Bytes) (b : ℕ)
    → d.expected_payload ≡ some e
    → IsValid d
    → length frames ≤ d.limits.max_frames_per_feed
    → Keeps d (payload_byte e d frames b)
unfolding payload_byte
payload_byte-Keeps e d frames b x v h = elim (Bool-cases (length (d.payload ++ b ∷ []) == e)) [
  | inl full ↦ rw full (deliver-Keeps (push_payload d b) frames h)
  | inr part ↦ rw part (
    push_payload-IsValid e d b x v
        (ground (arith, length-append d.payload (b ∷ []), PhaseInv-some e d x v)),
    refl,
    refl,
    h,
  )
]

header_byte-Keeps :
    (d : FrameDecoder) (frames : List Bytes) (b : ℕ)
    → d.expected_payload ≡ none
    → IsValid d
    → length frames ≤ d.limits.max_frames_per_feed
    → Keeps d (header_byte d frames b)
unfolding header_byte
header_byte-Keeps d frames b x v h = elim (Bool-cases (ltb (d.header_len + 1) 4)) [
  | inl part ↦ rw part (push_header-IsValid d b x v (ltb→lt _ _ part), refl, refl, h)
  | inr full ↦ rw full (check_header-Keeps (push_header d b) frames h)
]

pub step_byte-Keeps :
    (d : FrameDecoder) (frames : List Bytes) (b : ℕ)
    → IsValid d
    → length frames ≤ d.limits.max_frames_per_feed
    → Keeps d (step_byte d frames b)
unfolding step_byte
step_byte-Keeps d frames b v h = elim (Option-cases d.expected_payload) [
  | inl x ↦ ground (arith, header_byte-Keeps d frames b x v h)
  | inr (e, x) ↦ ground (arith, payload_byte-Keeps e d frames b x v h)
]
