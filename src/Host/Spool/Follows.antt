-- ===== src/Host/Spool/Follows.antt =====
-- The invariant of rust/choosh-hostd/src/agent_event_spool.rs: the retained sequence numbers follow each other
-- without a gap, up to the last one given.
use choosh.Prelude.{
  ℕ, ◌+◌, ◌-◌, ◌≤◌, ◌<◌, ◌≡◌, sym, ap, ◌∙◌, subst, List, [], ◌∷◌, ◌++◌, ltb, length, arith, if_elim,
  if_split,
}
use choosh.Host.Spool.{
  RetainedEvent, SequencedAgentEvent, WorkspaceSpool, SpoolBounds, pop_expired, pop_excess,
  evict_expired, push_event, events_after, oldest_retained_sequence,
}

-- The numbers are `from`, `from + 1`, and so on, and the next one would be `to`.
unfoldable pub Follows : ℕ → List ℕ → ℕ → Type 0
Follows from [] to = from ≡ to
Follows from (n ∷ ns) to = (n ≡ from) × Follows (from + 1) ns to

module _ {E : Type 0} where
  unfoldable pub retained : List (RetainedEvent E) → List ℕ
  retained [] = []
  retained (e ∷ es) = e.sequence ∷ retained es

  unfoldable pub sequences : List (SequencedAgentEvent E) → List ℕ
  sequences [] = []
  sequences (e ∷ es) = e.sequence ∷ sequences es

  abbrev pub Gapless : List (RetainedEvent E) → ℕ → Type 0
  Gapless es next = (from : ℕ) × (0 < from) × Follows from (retained es) next

  pub record IsValid (bound : SpoolBounds) (s : WorkspaceSpool E) : Type 0 where
    pub gapless : Gapless s.events s.next_sequence
    pub bounded : length s.events ≤ bound.max_events

  pop_front :
      (e : RetainedEvent E) (es : List (RetainedEvent E)) (next : ℕ)
      → Gapless (e ∷ es) next
      → Gapless es next
  unfolding Follows retained
  pop_front e es next (from, pos, (_, rest)) = (from + 1, omega arith, rest)

  pop_expired-Gapless :
      (now retention : ℕ) (es : List (RetainedEvent E)) (next : ℕ)
      → Gapless es next
      → Gapless (pop_expired now retention es) next
  unfolding pop_expired
  pop_expired-Gapless now retention [] next g = g
  pop_expired-Gapless now retention (e ∷ es) next g =
      if_elim (λ xs. Gapless xs next) (ltb retention (now - e.recorded_at))
        (pop_expired-Gapless now retention es next (pop_front e es next g)) g

  pop_excess-Gapless :
      (max_events : ℕ) (es : List (RetainedEvent E)) (next : ℕ)
      → Gapless es next
      → Gapless (pop_excess max_events es) next
  unfolding pop_excess
  pop_excess-Gapless max_events [] next g = g
  pop_excess-Gapless max_events (e ∷ es) next g =
      if_elim (λ xs. Gapless xs next) (ltb max_events (length (e ∷ es)))
        (pop_excess-Gapless max_events es next (pop_front e es next g)) g

  length-pop_excess :
      (max_events : ℕ) (es : List (RetainedEvent E))
      → length (pop_excess max_events es) ≤ max_events
  unfolding pop_excess
  length-pop_excess max_events [] = omega arith
  length-pop_excess max_events (e ∷ es) = ground (arith, length-pop_excess max_events es)

  pub evict_expired-IsValid :
      (now : ℕ) (bound : SpoolBounds) (s : WorkspaceSpool E)
      → Gapless s.events s.next_sequence
      → IsValid bound (evict_expired now bound s)
  unfolding evict_expired
  evict_expired-IsValid now bound s g = record {
    gapless =
        pop_excess-Gapless bound.max_events (pop_expired now bound.retention s.events)
          s.next_sequence (pop_expired-Gapless now bound.retention s.events s.next_sequence g);
    bounded = length-pop_excess bound.max_events (pop_expired now bound.retention s.events);
  }

  Follows-snoc :
      (from next now : ℕ) (es : List (RetainedEvent E)) (event : E)
      → Follows from (retained es) next
      → Follows from
          (retained (es ++ record { sequence = next; recorded_at = now; event = event } ∷ []))
          (next + 1)
  unfolding Follows retained
  Follows-snoc from next now [] event f = (sym f, ap (λ n. n + 1) f)
  Follows-snoc from next now (e ∷ es) event (h, f) =
      (h, Follows-snoc (from + 1) next now es event f)

  pub push_event-Gapless :
      (now : ℕ) (event : E) (s : WorkspaceSpool E)
      → Gapless s.events s.next_sequence
      → Gapless (push_event now event s).events (push_event now event s).next_sequence
  unfolding push_event
  push_event-Gapless now event s (from, pos, f) =
      (from, pos, Follows-snoc from s.next_sequence now s.events event f)

  pub oldest-Follows :
      (es : List (RetainedEvent E)) (from next : ℕ)
      → Follows from (retained es) next
      → oldest_retained_sequence (record { next_sequence = next; events = es }) ≡ from
  unfolding oldest_retained_sequence Follows retained
  oldest-Follows [] from next f = sym f
  oldest-Follows (e ∷ es) from next (h, f) = h

  -- Every number that is past `after` stays.
  all_after :
      (after from next : ℕ) (es : List (RetainedEvent E))
      → after < from
      → Follows from (retained es) next
      → Follows from (sequences (events_after after es)) next
  unfolding Follows retained sequences events_after
  all_after after from next [] h f = f
  all_after after from next (e ∷ es) h (k, f) =
      let rest = all_after after (from + 1) next es (omega arith) f in
      if_split (λ xs. Follows from (sequences xs) next) (ltb after e.sequence) (λ _. (k, rest))
        (λ old. absurd (ground arith))

  pub Follows-events_after :
      (after from next : ℕ) (es : List (RetainedEvent E))
      → from ≤ after + 1
      → after + 1 ≤ next
      → Follows from (retained es) next
      → Follows (after + 1) (sequences (events_after after es)) next
  unfolding Follows retained sequences events_after
  Follows-events_after after from next [] h k f = omega arith
  Follows-events_after after from next (e ∷ es) h k (i, f) =
      if_split (λ xs. Follows (after + 1) (sequences xs) next) (ltb after e.sequence)
        (λ newer.
          let first : from ≡ after + 1 = ground arith in
          (
            i ∙ first,
            subst (λ n. Follows (n + 1) (sequences (events_after after es)) next) first
                (all_after after (from + 1) next es (omega arith) f),
          ))
        (λ older. Follows-events_after after (from + 1) next es (ground arith) k f)
