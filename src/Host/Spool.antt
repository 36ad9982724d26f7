-- ===== src/Host/Spool.antt =====
-- rust/choosh-hostd/src/agent_event_spool.rs: the events that each workspace retains for a client that comes back.
-- An event is of any type `E`; what the source reads of it, its workspace, is an argument. Times are numbers, in
-- any unit. A sequence number is a `u64`, which no run counts through. The lock around the map is held for one
-- operation, so an operation is a function of the map.
pub mod Follows
pub mod Replay
mod Tests
use choosh.Prelude.{
  ℕ, zero, suc, ◌+◌, ◌-◌, Bool, true, false, ◌&&◌, List, [], ◌∷◌, ◌++◌, map, Option, none, some,
  ltb, leb, ◌==◌, if◌then◌else◌, length,
}

-- The id of a workspace, as the list of its characters.
abbrev pub WorkspaceId : Type 0
WorkspaceId = List ℕ

abbrev pub same_id : WorkspaceId → WorkspaceId → Bool
same_id [] [] = true
same_id (x ∷ xs) (y ∷ ys) = (x == y) && same_id xs ys
same_id _ _ = false

pub record RetainedEvent (E : Type 0) : Type 0 where
  pub sequence : ℕ
  pub recorded_at : ℕ
  pub event : E

pub record SequencedAgentEvent (E : Type 0) : Type 0 where
  pub sequence : ℕ
  pub event : E

pub record WorkspaceSpool (E : Type 0) : Type 0 where
  pub next_sequence : ℕ
  pub events : List (RetainedEvent E)

pub record SpoolBounds : Type 0 where
  pub max_events : ℕ
  pub retention : ℕ

pub data ResumeOutcome (E : Type 0) : Type 0 where
  replay : List (SequencedAgentEvent E) → ℕ → ResumeOutcome E
  snapshot_required : ResumeOutcome E

pub record AgentEventSpool (E : Type 0) : Type 0 where
  pub bounds : SpoolBounds
  pub workspaces : WorkspaceId → Option (WorkspaceSpool E)

-- In seconds.
abbrev pub default_bounds : SpoolBounds
default_bounds = record { max_events = 500; retention = 3600 }

-- The number that a caller has acknowledged; `Some(0)` is no acknowledgement either.
abbrev pub acknowledged : Option ℕ → ℕ
acknowledged none = 0
acknowledged (some n) = n

module _ {E : Type 0} where
  unfoldable pub new_workspace : WorkspaceSpool E
  new_workspace = record { next_sequence = 1; events = [] }

  unfoldable pub latest_sequence : WorkspaceSpool E → ℕ
  latest_sequence s = s.next_sequence - 1

  unfoldable pub oldest_retained_sequence : WorkspaceSpool E → ℕ
  oldest_retained_sequence s = elim s.events [ [] ↦ s.next_sequence | e ∷ _ ↦ e.sequence ]

  -- The two loops of `evict_expired`.
  unfoldable pub pop_expired : ℕ → ℕ → List (RetainedEvent E) → List (RetainedEvent E)
  pop_expired now retention [] = []
  pop_expired now retention (e ∷ es) =
      let popped = pop_expired now retention es in
      if ltb retention (now - e.recorded_at) then popped else e ∷ es

  unfoldable pub pop_excess : ℕ → List (RetainedEvent E) → List (RetainedEvent E)
  pop_excess max_events [] = []
  pop_excess max_events (e ∷ es) =
      let popped = pop_excess max_events es in
      if ltb max_events (length (e ∷ es)) then popped else e ∷ es

  unfoldable pub evict_expired : ℕ → SpoolBounds → WorkspaceSpool E → WorkspaceSpool E
  evict_expired now bound s = record s {
    events = pop_excess bound.max_events (pop_expired now bound.retention s.events);
  }

  unfoldable pub new_agent_event_spool : AgentEventSpool E
  new_agent_event_spool = record { bounds = default_bounds; workspaces = λ _. none }

  abbrev pub insert :
      WorkspaceId
      → WorkspaceSpool E
      → (WorkspaceId → Option (WorkspaceSpool E))
      → WorkspaceId
      → Option (WorkspaceSpool E)
  insert id s workspaces id' = if same_id id id' then some s else workspaces id'

  -- `entry(..).or_insert_with(WorkspaceSpool::new)`
  abbrev pub or_new : Option (WorkspaceSpool E) → WorkspaceSpool E
  or_new none = new_workspace
  or_new (some s) = s

  unfoldable pub push_event : ℕ → E → WorkspaceSpool E → WorkspaceSpool E
  push_event now event s = record {
    next_sequence = s.next_sequence + 1;
    events =
        s.events ++ record { sequence = s.next_sequence; recorded_at = now; event = event } ∷ [];
  }

  -- `record`: the sequence number, if the event has a workspace.
  unfoldable pub record_event :
      (E → Option WorkspaceId) → ℕ → E → AgentEventSpool E → AgentEventSpool E × Option ℕ
  unfolding evict_expired push_event
  record_event workspace_id now event spool = elim (workspace_id event) [
    | none ↦ (spool, none)
    | some id ↦
        let s = or_new (spool.workspaces id) in
        let s' = evict_expired now spool.bounds (push_event now event s) in
        (record spool { workspaces = insert id s' spool.workspaces }, some s.next_sequence)
  ]

  abbrev pub sequenced : RetainedEvent E → SequencedAgentEvent E
  sequenced e = record { sequence = e.sequence; event = e.event }

  unfoldable pub events_after : ℕ → List (RetainedEvent E) → List (SequencedAgentEvent E)
  events_after after [] = []
  events_after after (e ∷ es) =
      let rest = events_after after es in if ltb after e.sequence then sequenced e ∷ rest else rest

  -- The answer for a caller that has acknowledged `after`, from a workspace that has just been evicted.
  unfoldable pub resume_after : WorkspaceSpool E → ℕ → ResumeOutcome E
  unfolding latest_sequence oldest_retained_sequence events_after
  resume_after s after =
      if leb (latest_sequence s) after
      then replay [] (latest_sequence s)
      else if ltb (after + 1) (oldest_retained_sequence s)
      then snapshot_required
      else replay (events_after after s.events) (latest_sequence s)

  unfoldable pub resume_workspace : WorkspaceSpool E → Option ℕ → ResumeOutcome E
  unfolding resume_after latest_sequence
  resume_workspace s after_sequence =
      if acknowledged after_sequence == 0
      then replay (map sequenced s.events) (latest_sequence s)
      else resume_after s (acknowledged after_sequence)

  -- The spool after the eviction, and the answer.
  unfoldable pub resume :
      ℕ → WorkspaceId → Option ℕ → AgentEventSpool E → AgentEventSpool E × ResumeOutcome E
  unfolding evict_expired resume_workspace
  resume now id after_sequence spool = elim (spool.workspaces id) [
    | none ↦ (spool, if acknowledged after_sequence == 0 then replay [] 0 else snapshot_required)
    | some s ↦
        let s' = evict_expired now spool.bounds s in
        (
          record spool { workspaces = insert id s' spool.workspaces },
          resume_workspace s' after_sequence,
        )
  ]
