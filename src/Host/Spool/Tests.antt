-- ===== src/Host/Spool/Tests.antt =====
-- Runs of rust/choosh-hostd/src/agent_event_spool.rs on inputs like those of its unit tests, and witnesses.
use choosh.Prelude.{ℕ, ◌≡◌, refl, subst, [], ◌∷◌, Option, some, arith}
use choosh.Host.Spool.{
  WorkspaceId, WorkspaceSpool, AgentEventSpool, RetainedEvent, replay, snapshot_required,
  record_event, resume, pop_excess, pop_expired,
}
use choosh.Host.Spool.Follows.{IsValid, Follows, retained}
use choosh.Host.Spool.Replay.{AllValid, record_event-AllValid}

-- Events are numbers, and all of workspace `a`.
abbrev in_a : ℕ → Option WorkspaceId
in_a n = some (b'a' ∷ [])

abbrev at : ℕ → ℕ → RetainedEvent ℕ
at n x = record { sequence = n; recorded_at = 0; event = x }

-- Events 4 and 5 of workspace `a` are left.
abbrev two_left : WorkspaceSpool ℕ
two_left = record { next_sequence = 6; events = at 4 40 ∷ at 5 50 ∷ [] }

abbrev spool : AgentEventSpool ℕ
spool = record {
  bounds = record { max_events = 2; retention = 10 };
  workspaces = λ _. some two_left;
}

two_left-IsValid : IsValid spool.bounds two_left
unfolding Follows retained
two_left-IsValid = record {
  gapless = (4, omega arith, (refl, (refl, refl)));
  bounded = omega arith;
}

spool-AllValid : AllValid spool
spool-AllValid id s e = subst (IsValid spool.bounds) (ground arith) two_left-IsValid

missed_one :
    (resume 3 (b'a' ∷ []) (some 4) spool).1 ≡ replay (record { sequence = 5; event = 50 } ∷ []) 5
unfolding resume pop_excess pop_expired
missed_one = refl

missed_too_many : (resume 3 (b'a' ∷ []) (some 2) spool).1 ≡ snapshot_required
unfolding resume pop_excess pop_expired
missed_too_many = refl

-- A client from before a restart of the daemon, which had acknowledged event 100, is told that it misses nothing.
ahead_of_restart : (resume 3 (b'a' ∷ []) (some 100) spool).1 ≡ replay [] 5
unfolding resume pop_excess pop_expired
ahead_of_restart = refl

record_event-AllValid_example : AllValid (record_event in_a 3 60 spool).0
record_event-AllValid_example = record_event-AllValid in_a 3 60 spool spool-AllValid
