-- ===== src/Protocol/AgentEvent/Safety.antt =====
-- What the files named by an event of rust/choosh-protocol/src/agent_event.rs are known to be.
use mathlib.Core.List.{append-nil, append_assoc}
use choosh.Prelude.{
  ℕ, zero, suc, ◌+◌, ◌≤◌, ◌<◌, ◌≡◌, refl, sym, ap, ◌∙◌, inl, inr, Bool, true, false, not, ◌||◌,
  List, [], ◌∷◌, ◌++◌, Option, none, some, arith, ltb, ◌==◌, if◌then◌else◌, length, length-append,
  Bytes, Outcome, Outcome-cases, done, failed, eq_of_same, same_bytes, string_eq, bytes_eq,
  Bool-cases,
}
use choosh.Protocol.AgentEvent.{
  max_paths, AgentAdapter, codex, claude, opencode, CandidatePath, AgentEventKind, files_changed,
  NormalizedAgentEvent, AdapterContext, CapturedHook, ValidationError, has_path, add_candidate,
  collect, paths, map_surface, event_of, normalize, validate_context, same_adapter,
  max_capture_bytes, adapter_mismatch, capture_too_large, invalid_timestamp, ChangeOperation,
}
use choosh.Protocol.AgentEvent.Syntax.{
  max_path_bytes, byte_at, path_parts, push_front, is_bad_part, any_bad, validate_candidate_path,
  validate_timestamp,
}

-- The depth below a directory after one part of a path, as a file system reads it; none where it leaves the
-- directory.
unfoldable pub step_into : Bytes → ℕ → Option ℕ
step_into part depth =
    if same_bytes part (46 ∷ 46 ∷ [])
    then (elim depth [ zero ↦ none | suc d ↦ some d ])
    else if same_bytes part [] || same_bytes part (46 ∷ [])
    then some depth
    else some (suc depth)

-- The same for the bytes of a path behind a part of it, where a slash and a backslash end a part.
abbrev pub descend : ℕ → Bytes → Bytes → Option ℕ
descend depth part [] = step_into part depth
descend depth part (b ∷ bs) =
    let next = descend depth (part ++ b ∷ []) bs in
    if b == 47 || b == 92
    then (elim (step_into part depth) [ none ↦ none | some d ↦ descend d [] bs ])
    else next

-- How many slashes and backslashes a path has.
abbrev pub slashes : Bytes → ℕ
slashes [] = 0
slashes (b ∷ bs) = let rest = slashes bs in if b == 47 || b == 92 then suc rest else rest

-- A path that does not start with a slash and stays inside the directory, each of its parts one level further down.
abbrev pub IsSafe : Bytes → Type 0
IsSafe path =
    (length path ≤ max_path_bytes)
    × (byte_at path 0 47 ≡ false)
    × (descend 0 [] path ≡ some (suc (slashes path)))

-- The same for parts.
abbrev walk : ℕ → List Bytes → Option ℕ
walk depth [] = some depth
walk depth (part ∷ parts) = elim (step_into part depth) [ none ↦ none | some d ↦ walk d parts ]

abbrev prepend : Bytes → List Bytes → List Bytes
prepend part [] = []
prepend part (q ∷ qs) = (part ++ q) ∷ qs

prepend-nil : (parts : List Bytes) → prepend [] parts ≡ parts
prepend-nil [] = refl
prepend-nil (q ∷ qs) = refl

prepend-push_front :
    (part : Bytes) (b : ℕ) (parts : List Bytes)
    → 0 < length parts
    → prepend part (push_front b parts) ≡ prepend (part ++ b ∷ []) parts
prepend-push_front part b [] h = absurd (omega arith)
prepend-push_front part b (q ∷ qs) h = ap (λ p. p ∷ qs) (sym (append_assoc part (b ∷ []) q))

length-push_front :
    (b : ℕ) (parts : List Bytes) → 0 < length parts → length (push_front b parts) ≡ length parts
length-push_front b [] h = absurd (omega arith)
length-push_front b (q ∷ qs) h = refl

length-path_parts : (bs : Bytes) → length (path_parts bs) ≡ suc (slashes bs)
length-path_parts [] = refl
length-path_parts (b ∷ bs) =
    let rest = length-path_parts bs in
    let pushed = length-push_front b (path_parts bs) (omega arith) in
    elim (Bool-cases (b == 47 || b == 92)) [
      | inl e ↦ rw (e) (omega arith)
      | inr e ↦ rw (e) (omega arith)
    ]

last_part : (o : Option ℕ) → o ≡ elim o [ none ↦ none | some d ↦ some d ]
last_part none = refl
last_part (some d) = refl

same_after :
    (o : Option ℕ) (f g : ℕ → Option ℕ)
    → ((d : ℕ) → f d ≡ g d)
    → elim o as (λ _. Option ℕ) [ none ↦ none | some d ↦ f d ]
      ≡ elim o as (λ _. Option ℕ) [ none ↦ none | some d ↦ g d ]
same_after none f g h = refl
same_after (some d) f g h = h d

descend-walk :
    (depth : ℕ) (part bs : Bytes)
    → descend depth part bs ≡ walk depth (prepend part (path_parts bs))
descend-walk depth part [] = rw (append-nil part) (last_part (step_into part depth))
descend-walk depth part (b ∷ bs) =
    let here = descend-walk depth (part ++ b ∷ []) bs in
    let below : (d : ℕ) → descend d [] bs ≡ walk d (path_parts bs) =
      λ d. descend-walk d [] bs ∙ ap (walk d) (prepend-nil (path_parts bs)) in
    elim (Bool-cases (b == 47 || b == 92)) [
      | inl e ↦ rw (e, append-nil part) (same_after (step_into part depth) _ _ below)
      | inr e ↦ rw (e) (
          here
          ∙ ap (walk depth) (
              sym
                (prepend-push_front part b (path_parts bs) (omega (arith, length-path_parts bs)))))
    ]

-- Safe paths, none of them twice.
abbrev pub AllSafe : List CandidatePath → Type 0
AllSafe [] = Unit
AllSafe (c ∷ cs) = IsSafe c.path × (has_path c.path cs ≡ false) × AllSafe cs

step_into-good :
    (part : Bytes) (depth : ℕ) → is_bad_part part ≡ false → step_into part depth ≡ some (suc depth)
unfolding step_into
step_into-good part depth h = ground arith

walk-good :
    (parts : List Bytes) (depth : ℕ)
    → any_bad parts ≡ false
    → walk depth parts ≡ some (depth + length parts)
walk-good [] depth h = ap some (omega arith)
walk-good (part ∷ parts) depth h =
    let rest = walk-good parts (suc depth) in
    let down = step_into-good part depth in
    let step = down (ground arith) in
    let end = rest (ground arith) in rw (step, walk) (end ∙ ap some (omega arith))

validate_candidate_path-IsSafe : (path : Bytes) → validate_candidate_path path ≡ true → IsSafe path
unfolding validate_candidate_path
validate_candidate_path-IsSafe path h =
    let deep = walk-good (path_parts path) 0 in
    let read : descend 0 [] path ≡ walk 0 (path_parts path) =
      descend-walk 0 [] path ∙ ap (walk 0) (prepend-nil (path_parts path)) in
    let deepest = length-path_parts path in
    (ground arith, ground arith, read ∙ deep (ground arith) ∙ ap some (omega (arith, deepest)))

has_path-snoc :
    (path other : Bytes) (op : ChangeOperation) (cs : List CandidatePath)
    → has_path path cs ≡ false
    → same_bytes other path ≡ false
    → has_path path (cs ++ record { path = other; operation = op } ∷ []) ≡ false
has_path-snoc path other op [] h d = ground arith
has_path-snoc path other op (c ∷ cs) h d = let rest = has_path-snoc path other op cs in ground arith

same_bytes-flip : (xs ys : Bytes) → same_bytes xs ys ≡ false → same_bytes ys xs ≡ false
same_bytes-flip xs ys h = elim (Bool-cases (same_bytes ys xs)) [
  | inl hit ↦
      let self : same_bytes xs ys ≡ true =
        (bytes_eq.beq_iff xs ys).1 (sym (eq_of_same ys xs hit)) in
      absurd (ground arith)
  | inr miss ↦ miss
]

AllSafe-snoc :
    (path : Bytes) (op : ChangeOperation) (cs : List CandidatePath)
    → IsSafe path
    → has_path path cs ≡ false
    → AllSafe cs
    → AllSafe (cs ++ record { path = path; operation = op } ∷ [])
AllSafe-snoc path op [] safe new all = (safe, refl, tt)
AllSafe-snoc path op (c ∷ cs) safe new all =
    let rest = AllSafe-snoc path op cs safe (ground arith) all.2 in
    (
      all.0,
      has_path-snoc c.path path op cs all.1 (same_bytes-flip c.path path (ground arith)),
      rest,
    )

add_candidate-AllSafe :
    (path : Bytes) (op : ChangeOperation) (cs : List CandidatePath)
    → IsSafe path
    → AllSafe cs
    → AllSafe (add_candidate path op cs) × (length (add_candidate path op cs) ≤ suc (length cs))
add_candidate-AllSafe path op cs safe all = elim (Bool-cases (has_path path cs)) [
  | inl known ↦ rw (known) (all, omega arith)
  | inr new ↦ rw (new) (
    AllSafe-snoc path op cs safe new all,
    rw (length-append cs (record { path = path; operation = op } ∷ [])) omega arith,
  )
]

collect-AllSafe :
    (entries : List (Bytes × ChangeOperation)) (cs out : List CandidatePath)
    → AllSafe cs
    → collect cs entries ≡ done out
    → AllSafe out × (length out ≤ length cs + length entries)
unfolding collect
collect-AllSafe [] cs out all h =
    let same : cs ≡ out = ground arith in rw (sym same) (all, omega arith)
collect-AllSafe (entry ∷ entries) cs out all h =
    elim (Bool-cases (validate_candidate_path entry.0)) [
      | inl good ↦
          let next =
            add_candidate-AllSafe entry.0 entry.1 cs (validate_candidate_path-IsSafe entry.0 good)
              all in
          let rest =
            collect-AllSafe entries (add_candidate entry.0 entry.1 cs) out next.0 (ground arith) in
          (rest.0, omega arith)
      | inr bad ↦ absurd (ground arith)
    ]

paths-AllSafe :
    (hook : CapturedHook) (candidates : List CandidatePath)
    → paths hook ≡ done (files_changed candidates)
    → AllSafe candidates × (length candidates ≤ max_paths)
unfolding paths
paths-AllSafe hook candidates h = elim (Outcome-cases (collect [] hook.candidate_paths)) [
  | inl (out, ran) ↦
      let good = collect-AllSafe hook.candidate_paths [] out tt ran in
      let small : length hook.candidate_paths ≤ max_paths = ground arith in
      let same : out ≡ candidates = ground arith in rw (sym same) (good.0, omega arith)
  | inr (e, bad) ↦ absurd (ground arith)
]

map_surface-AllSafe :
    (adapter : AgentAdapter) (hook : CapturedHook) (candidates : List CandidatePath)
    → map_surface adapter hook ≡ done (files_changed candidates)
    → paths hook ≡ done (files_changed candidates)
unfolding map_surface
map_surface-AllSafe codex hook candidates h = ground arith
map_surface-AllSafe claude hook candidates h = ground arith
map_surface-AllSafe opencode hook candidates h = ground arith

-- An event that passes the checks comes of a kind that the hook maps to.
passed :
    (checked : Outcome ValidationError (Unit {0})) (mismatch large late : Bool)
    (mapped : Outcome ValidationError AgentEventKind) (make : AgentEventKind → NormalizedAgentEvent)
    (event : NormalizedAgentEvent)
    → (elim checked [
      | failed e ↦ failed e
      | done _ ↦
          if mismatch
          then failed adapter_mismatch
          else if large
          then failed capture_too_large
          else if late
          then failed invalid_timestamp
          else (elim mapped [ failed e ↦ failed e | done kind ↦ done (make kind) ])
    ])
      ≡ done event
    → (kind : AgentEventKind) × (mapped ≡ done kind) × (make kind ≡ event)
passed (failed e) mismatch large late mapped make event h = absurd (ground arith)
passed (done u) true large late mapped make event h = absurd (ground arith)
passed (done u) false true late mapped make event h = absurd (ground arith)
passed (done u) false false true mapped make event h = absurd (ground arith)
passed (done u) false false false (failed e) make event h = absurd (ground arith)
passed (done u) false false false (done kind) make event h = (kind, refl, ground arith)

-- Whatever an agent's hook reports, an event of changed files that it becomes names at most a thousand of them,
-- none twice, and each by a path of at most 4096 bytes that does not start with a slash and that leads, part by
-- part, one level further down inside the directory.
pub normalize_safe :
    (adapter : AgentAdapter) (context : AdapterContext) (hook : CapturedHook)
    (event : NormalizedAgentEvent) (candidates : List CandidatePath)
    → normalize adapter context hook ≡ done event
    → event.kind ≡ files_changed candidates
    → AllSafe candidates × (length candidates ≤ max_paths)
unfolding normalize
normalize_safe adapter context hook event candidates ran kind =
    let from =
      passed (validate_context context) (not (same_adapter context.adapter adapter))
        (ltb max_capture_bytes hook.captured_bytes) (not (validate_timestamp hook.occurred_at))
        (map_surface adapter hook) (event_of adapter context hook) event ran in
    let files : from.0 ≡ files_changed candidates = ap (λ e. e.kind) from.2 ∙ kind in
    paths-AllSafe hook candidates
      (map_surface-AllSafe adapter hook candidates (from.1 ∙ ap done files))
