-- ===== src/Protocol/Framing/Refine.antt =====
-- The chunked loop of `feed` computes the byte machine of `Stream`, and its fuel is enough.
use mathlib.Core.List.{append-nil, append_assoc}
use choosh.Prelude.{
  ℕ, zero, suc, ◌+◌, ◌-◌, ◌<◌, min, ◌≡◌, refl, sym, ap, ◌∙◌, true, false, inl, inr, List, [], ◌∷◌,
  ◌++◌, none, some, ltb, ◌==◌, length, set, take, Bytes, arith, Bool-cases, length-append,
  length-set, ltb→lt, lt→ltb, le→ltb, ==_iff, Option-cases,
}
use choosh.Protocol.Framing.{
  FrameDecoder, Result, err, expecting, from_be_bytes, copy_at, Round, more, stop, emit,
  accept_header, payload_phase, header_phase, feed_round,
}
use choosh.Protocol.Framing.Stream.{
  Next, go, halt, push_payload, push_header, deliver, check_header, step_byte, run, IsValid,
}

abbrev pub resume : Round → FrameDecoder × Result (List Bytes)
resume (more d frames rest) = run d frames rest
resume (stop d e) = (d, err e)

abbrev pub continue_with : Next → Bytes → FrameDecoder × Result (List Bytes)
continue_with (go d frames) rest = run d frames rest
continue_with (halt d e) rest = (d, err e)

pub run-cons :
    (d : FrameDecoder) (frames : List Bytes) (b : ℕ) (bs : Bytes)
    → run d frames (b ∷ bs) ≡ continue_with (step_byte d frames b) bs
unfolding run
run-cons d frames b bs = ground arith

take_count-suc : (e l n : ℕ) → l < e → min (e - l) (suc n) ≡ suc (min (e - (l + 1)) n)
take_count-suc e l n h = omega arith

pub payload_phase-cons :
    (e : ℕ) (d : FrameDecoder) (frames : List Bytes) (b : ℕ) (bs : Bytes)
    → length d.payload < e
    → payload_phase e d frames (b ∷ bs) ≡ payload_phase e (push_payload d b) frames bs
unfolding payload_phase
payload_phase-cons e d frames b bs h =
    rw (take_count-suc e (length d.payload) (length bs) h, length-append d.payload (b ∷ []))
      (simp append_assoc)

pub payload_phase-nil :
    (e : ℕ) (d : FrameDecoder) (frames : List Bytes)
    → length d.payload < e
    → payload_phase e d frames [] ≡ more d frames []
unfolding payload_phase
payload_phase-nil e d frames h =
    let none_left : min (e - length d.payload) 0 ≡ 0 = omega arith in
    rw (none_left, append-nil) (ground arith)

pub payload_phase-full :
    (e : ℕ) (d : FrameDecoder) (frames : List Bytes) (rest : Bytes)
    → length d.payload ≡ e
    → payload_phase e d frames rest ≡ emit d frames rest
unfolding payload_phase
payload_phase-full e d frames rest h =
    let none_left : min (e - length d.payload) (length rest) ≡ 0 = omega arith in
    rw (none_left, append-nil) (ground arith)

emit-deliver :
    (d : FrameDecoder) (frames : List Bytes) (rest : Bytes)
    → resume (emit d frames rest) ≡ continue_with (deliver d frames) rest
unfolding emit deliver
emit-deliver d frames rest = ground arith

-- From any point of a payload, the rest of the round reads what the byte machine reads.
payload_phase-run :
    (input : Bytes) (e : ℕ) (d : FrameDecoder) (frames : List Bytes)
    → d.expected_payload ≡ some e
    → length d.payload < e
    → resume (payload_phase e d frames input) ≡ run d frames input
payload_phase-run [] e d frames x h =
    ap resume (payload_phase-nil e d frames h) ∙ unfold run in refl
payload_phase-run (b ∷ bs) e d frames x h =
    ap resume (payload_phase-cons e d frames b bs h)
    ∙ (elim (Bool-cases (length (d.payload ++ b ∷ []) == e)) [
      | inl full ↦
          ap resume (payload_phase-full e (push_payload d b) frames bs ((==_iff _ e).0 full))
          ∙ emit-deliver (push_payload d b) frames bs
          ∙ sym (ap (λ n. continue_with n bs) (step_full full))
      | inr part ↦
          payload_phase-run bs e (push_payload d b) frames x
            (ground (arith, length-append d.payload (b ∷ [])))
          ∙ sym (ap (λ n. continue_with n bs) (step_part part))
    ])
    ∙ sym (run-cons d frames b bs)
  where
    step_full :
        (length (d.payload ++ b ∷ []) == e) ≡ true
        → step_byte d frames b ≡ deliver (push_payload d b) frames
    step_full t = unfold step_byte in ground arith

    step_part :
        (length (d.payload ++ b ∷ []) == e) ≡ false
        → step_byte d frames b ≡ go (push_payload d b) frames
    step_part t = unfold step_byte in ground arith

copy_at-nil : (xs : Bytes) (n : ℕ) → copy_at xs n [] ≡ xs
copy_at-nil xs zero = refl
copy_at-nil [] (suc n) = refl
copy_at-nil (x ∷ xs) (suc n) = ap (◌∷◌ x) (copy_at-nil xs n)

copy_at-set :
    (xs : Bytes) (n b : ℕ) (bs : Bytes)
    → n < length xs
    → copy_at xs n (b ∷ bs) ≡ copy_at (set xs n b) (suc n) bs
copy_at-set [] n b bs h = elim h [ ]
copy_at-set (x ∷ xs) zero b bs h = refl
copy_at-set (x ∷ xs) (suc n) b bs h = ap (◌∷◌ x) (copy_at-set xs n b bs (omega arith))

pub header_phase-cons :
    (d : FrameDecoder) (frames : List Bytes) (b : ℕ) (bs : Bytes)
    → length d.header ≡ 4
    → d.header_len < 4
    → header_phase d frames (b ∷ bs) ≡ header_phase (push_header d b) frames bs
unfolding header_phase
header_phase-cons d frames b bs s h =
    let regroup : d.header_len + suc (min (4 - (d.header_len + 1)) (length bs))
        ≡ d.header_len + 1 + min (4 - (d.header_len + 1)) (length bs) =
      omega arith in
    let next : suc d.header_len ≡ d.header_len + 1 = omega arith in
    rw (take_count-suc 4 d.header_len (length bs) h) (
      rw (
        copy_at-set d.header d.header_len b (take (min (4 - (d.header_len + 1)) (length bs)) bs)
            (omega arith),
        regroup,
        next,
      ))

pub header_phase-nil :
    (d : FrameDecoder) (frames : List Bytes)
    → d.header_len < 4
    → header_phase d frames [] ≡ more d frames []
unfolding header_phase
header_phase-nil d frames h =
    let none_left : min (4 - d.header_len) 0 ≡ 0 = omega arith in
    let same : d.header_len + 0 ≡ d.header_len = omega arith in
    rw (none_left) (rw (copy_at-nil d.header d.header_len, same, lt→ltb _ _ h))

-- A whole header before the round copies anything: the header is checked, and the payload begins.
pub header_phase-full :
    (d : FrameDecoder) (frames : List Bytes) (rest : Bytes)
    → d.header_len ≡ 4
    → header_phase d frames rest ≡ accept_header d frames rest
unfolding header_phase
header_phase-full d frames rest h =
    let none_left : min (4 - d.header_len) (length rest) ≡ 0 = omega arith in
    let same : d.header_len + 0 ≡ d.header_len = omega arith in
    rw (none_left)
      (rw (copy_at-nil d.header d.header_len, same, le→ltb d.header_len 4 (omega arith)))

accept-check :
    (d : FrameDecoder) (frames : List Bytes) (rest : Bytes)
    → resume (accept_header d frames rest) ≡ continue_with (check_header d frames) rest
unfolding accept_header check_header
accept-check d frames rest = ground (
  arith,
  payload_phase-run rest (from_be_bytes d.header) (expecting d (from_be_bytes d.header)) frames
      refl,
)

header_phase-run :
    (input : Bytes) (d : FrameDecoder) (frames : List Bytes)
    → d.expected_payload ≡ none
    → length d.header ≡ 4
    → d.header_len < 4
    → resume (header_phase d frames input) ≡ run d frames input
header_phase-run [] d frames x s h = ap resume (header_phase-nil d frames h) ∙ unfold run in refl
header_phase-run (b ∷ bs) d frames x s h =
    ap resume (header_phase-cons d frames b bs s h)
    ∙ (elim (Bool-cases (ltb (d.header_len + 1) 4)) [
      | inl part ↦
          header_phase-run bs (push_header d b) frames x (length-set d.header d.header_len b ∙ s)
            (ltb→lt _ _ part)
          ∙ sym (ap (λ n. continue_with n bs) (step_part part))
      | inr full ↦
          ap resume (header_phase-full (push_header d b) frames bs (ground arith))
          ∙ accept-check (push_header d b) frames bs
          ∙ sym (ap (λ n. continue_with n bs) (step_full full))
    ])
    ∙ sym (run-cons d frames b bs)
  where
    step_full :
        ltb (d.header_len + 1) 4 ≡ false
        → step_byte d frames b ≡ check_header (push_header d b) frames
    step_full t = unfold step_byte in ground arith

    step_part : ltb (d.header_len + 1) 4 ≡ true → step_byte d frames b ≡ go (push_header d b) frames
    step_part t = unfold step_byte in ground arith

-- One round of the loop, of whatever size, is a run of the byte machine.
pub feed_round-run :
    (d : FrameDecoder) (frames : List Bytes) (input : Bytes)
    → IsValid d
    → resume (feed_round d frames input) ≡ run d frames input
unfolding feed_round
feed_round-run d frames input v = elim (Option-cases d.expected_payload) [
  | inl x ↦ ground (arith, header_phase-run input d frames x v.header_size v.header_short)
  | inr (e, x) ↦ ground (arith, payload_phase-run input e d frames x)
]
