-- ===== src/Protocol/Framing/Loop.antt =====
-- The loop of `feed` in rust/choosh-protocol/src/framing.rs: its fuel, its invariant and its failures.
use choosh.Prelude.{
  ℕ, zero, suc, ◌+◌, ◌-◌, ◌≤◌, ◌<◌, ◌≡◌, refl, sym, subst, ap, ◌∙◌, false, inl, inr, List, [], ◌∷◌,
  ◌++◌, Option, none, some, ltb, ◌==◌, length, Bytes, arith, Bool-cases, length-append, length-set,
  ltb→lt, ==_iff, Option-cases,
}
use choosh.Protocol.Framing.{
  FrameDecoder, Result, err, expecting, from_be_bytes, Round, more, stop, emit, payload_phase,
  header_phase, accept_header, feed_round, feed_loop,
}
use choosh.Protocol.Framing.Stream.{push_payload, push_header, run, PhaseInv, IsValid}
use choosh.Protocol.Framing.Refine.{
  resume, feed_round-run, payload_phase-cons, payload_phase-nil, payload_phase-full,
  header_phase-cons, header_phase-nil, header_phase-full,
}

-- A round that goes on leaves a valid decoder and at most `n` bytes to read.
abbrev Leaves : ℕ → Round → Type 0
Leaves n (more d frames rest) = IsValid d × (length rest ≤ n)
Leaves n (stop d e) = Unit {0}

Leaves-mono : (m n : ℕ) (r : Round) → m ≤ n → Leaves m r → Leaves n r
Leaves-mono m n (more d frames rest) h (v, l) = (v, omega arith)
Leaves-mono m n (stop d e) h l = tt

emit-Leaves :
    (d : FrameDecoder) (frames : List Bytes) (rest : Bytes)
    → Leaves (length rest) (emit d frames rest)
unfolding emit
emit-Leaves d frames rest = elim (Bool-cases (length frames == d.limits.max_frames_per_feed)) [
  | inl full ↦ rw full tt
  | inr room ↦
      rw room (record { header_size = refl; header_short = omega arith; phase = refl }, omega arith)
]

pub PhaseInv-some :
    (e : ℕ) (d : FrameDecoder)
    → d.expected_payload ≡ some e
    → IsValid d
    → (d.header_len ≡ 0) × (length d.payload < e) × (e ≤ d.limits.max_frame_bytes)
PhaseInv-some e d x v = subst (λ o. PhaseInv o d) x v.phase

pub push_payload-IsValid :
    (e : ℕ) (d : FrameDecoder) (b : ℕ)
    → d.expected_payload ≡ some e
    → IsValid d
    → length d.payload + 1 < e
    → IsValid (push_payload d b)
push_payload-IsValid e d b x v h = record {
  header_size = v.header_size;
  header_short = v.header_short;
  phase =
      subst (λ o. PhaseInv o (push_payload d b)) (sym x)
        (
          (PhaseInv-some e d x v).0,
          omega (arith, length-append d.payload (b ∷ [])),
          (PhaseInv-some e d x v).2,
        );
}

payload_phase-Leaves :
    (input : Bytes) (e : ℕ) (d : FrameDecoder) (frames : List Bytes)
    → d.expected_payload ≡ some e
    → IsValid d
    → Leaves (length input - 1) (payload_phase e d frames input)
payload_phase-Leaves [] e d frames x v =
    rw (payload_phase-nil e d frames (PhaseInv-some e d x v).1) (v, omega arith)
payload_phase-Leaves (b ∷ bs) e d frames x v =
    rw (payload_phase-cons e d frames b bs (PhaseInv-some e d x v).1)
      (elim (Bool-cases (length (d.payload ++ b ∷ []) == e)) [
        | inl full ↦
            rw (payload_phase-full e (push_payload d b) frames bs ((==_iff _ e).0 full))
              (Leaves-mono (length bs) _ _ (omega arith) (emit-Leaves (push_payload d b) frames bs))
        | inr part ↦ Leaves-mono (length bs - 1) _ _ (omega arith) (
            payload_phase-Leaves bs e (push_payload d b) frames x (
              push_payload-IsValid e d b x v
                (ground (arith, length-append d.payload (b ∷ []), PhaseInv-some e d x v))))
      ])

pub expecting-IsValid :
    (d : FrameDecoder) (n : ℕ)
    → (n == 0) ≡ false
    → ltb d.limits.max_frame_bytes n ≡ false
    → IsValid (expecting d n)
expecting-IsValid d n h k = record {
  header_size = refl;
  header_short = omega arith;
  phase = (refl, ground arith, ground arith);
}

accept_header-Leaves :
    (d : FrameDecoder) (frames : List Bytes) (rest : Bytes)
    → Leaves (length rest) (accept_header d frames rest)
unfolding accept_header
accept_header-Leaves d frames rest = elim (Bool-cases (from_be_bytes d.header == 0)) [
  | inl empty ↦ rw empty tt
  | inr some_bytes ↦ elim (Bool-cases (ltb d.limits.max_frame_bytes (from_be_bytes d.header))) [
    | inl large ↦ rw (some_bytes, large) tt
    | inr fits ↦
        rw (some_bytes, fits)
          (Leaves-mono (length rest - 1) _ _ (omega arith) (
            payload_phase-Leaves rest _ (expecting d (from_be_bytes d.header)) frames refl
              (expecting-IsValid d _ some_bytes fits)))
  ]
]

pub push_header-IsValid :
    (d : FrameDecoder) (b : ℕ)
    → d.expected_payload ≡ none
    → IsValid d
    → d.header_len + 1 < 4
    → IsValid (push_header d b)
push_header-IsValid d b x v h = record {
  header_size = length-set d.header d.header_len b ∙ v.header_size;
  header_short = h;
  phase = subst (λ o. PhaseInv o (push_header d b)) (sym x) (subst (λ o. PhaseInv o d) x v.phase);
}

header_phase-Leaves :
    (input : Bytes) (d : FrameDecoder) (frames : List Bytes)
    → d.expected_payload ≡ none
    → IsValid d
    → Leaves (length input - 1) (header_phase d frames input)
header_phase-Leaves [] d frames x v = rw (header_phase-nil d frames v.header_short) (v, omega arith)
header_phase-Leaves (b ∷ bs) d frames x v =
    rw (header_phase-cons d frames b bs v.header_size v.header_short)
      (elim (Bool-cases (ltb (d.header_len + 1) 4)) [
        | inl part ↦ Leaves-mono (length bs - 1) _ _ (omega arith) (
            header_phase-Leaves bs (push_header d b) frames x
              (push_header-IsValid d b x v (ltb→lt _ _ part)))
        | inr full ↦ rw (header_phase-full (push_header d b) frames bs (ground arith)) (
            Leaves-mono (length bs) _ _ (omega arith)
              (accept_header-Leaves (push_header d b) frames bs))
      ])

feed_round-Leaves :
    (d : FrameDecoder) (frames : List Bytes) (input : Bytes)
    → IsValid d
    → Leaves (length input - 1) (feed_round d frames input)
unfolding feed_round
feed_round-Leaves d frames input v = elim (Option-cases d.expected_payload) [
  | inl x ↦ ground (arith, header_phase-Leaves input d frames x v)
  | inr (e, x) ↦ ground (arith, payload_phase-Leaves input e d frames x v)
]

-- The loop, with fuel for every byte, computes the byte machine.
pub feed_loop-run :
    (fuel : ℕ) (d : FrameDecoder) (frames : List Bytes) (input : Bytes)
    → length input ≤ fuel
    → IsValid d
    → feed_loop fuel d frames input ≡ some (run d frames input)
unfolding feed_loop
feed_loop-run fuel d frames [] h v = unfold run in refl
feed_loop-run zero d frames (b ∷ bs) h v = absurd (omega arith)
feed_loop-run (suc fuel) d frames (b ∷ bs) h v =
    next (feed_round d frames (b ∷ bs))
      (Leaves-mono (suc (length bs) - 1) _ _ (omega arith) (feed_round-Leaves d frames (b ∷ bs) v))
      (λ d' frames' rest. feed_loop-run fuel d' frames' rest)
    ∙ ap some (feed_round-run d frames (b ∷ bs) v)
  where
    next :
        (r : Round)
        → Leaves (length bs) r
        → ((d' : FrameDecoder) (frames' : List Bytes) (rest : Bytes)
            → length rest ≤ fuel
            → IsValid d'
            → feed_loop fuel d' frames' rest ≡ some (run d' frames' rest))
        → ◌≡◌ {A = Option (FrameDecoder × Result (List Bytes))}
            (elim r [
              | more d' frames' rest ↦ feed_loop fuel d' frames' rest
              | stop d' e ↦ some (d', err e)
            ])
            (some (resume r))
    next (more d' frames' rest) l ih = ih d' frames' rest (omega arith) l.0
    next (stop d' e) l ih = refl
