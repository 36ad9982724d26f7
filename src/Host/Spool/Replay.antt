-- ===== src/Host/Spool/Replay.antt =====
-- What a client that comes back to rust/choosh-hostd/src/agent_event_spool.rs is told.
use choosh.Prelude.{
  ℕ, ◌+◌, ◌≤◌, ◌<◌, ◌≡◌, refl, subst, ◌⊎◌, [], Option, none, some, arith, if_split,
}
use choosh.Host.Spool.{
  WorkspaceId, same_id, WorkspaceSpool, SpoolBounds, ResumeOutcome, replay, snapshot_required,
  AgentEventSpool, new_workspace, oldest_retained_sequence, evict_expired, push_event, insert,
  or_new, record_event,
}
use choosh.Host.Spool.Follows.{
  Follows, retained, sequences, Gapless, IsValid, evict_expired-IsValid, push_event-Gapless,
}

module _ {E : Type 0} where
  -- Every workspace of the spool is valid.
  abbrev pub AllValid : AgentEventSpool E → Type 0
  AllValid spool =
      (id : WorkspaceId) (s : WorkspaceSpool E)
      → spool.workspaces id ≡ some s
      → IsValid spool.bounds s

  -- A right answer, from workspace `s`, to a client that has acknowledged `after`: the next event is no longer
  -- retained; or nothing is newer, and nothing is sent; or what is sent begins with the next event and
  -- goes on without a gap to the latest.
  unfoldable pub Answers : WorkspaceSpool E → ℕ → ResumeOutcome E → Type 0
  Answers s after snapshot_required = after + 1 < oldest_retained_sequence s
  Answers s after (replay events latest) =
      (latest + 1 ≡ s.next_sequence)
      × (((latest ≤ after) × (events ≡ [])) ⊎ Follows (after + 1) (sequences events) (latest + 1))

  inserted-AllValid :
      (spool : AgentEventSpool E) (id : WorkspaceId) (s : WorkspaceSpool E)
      → AllValid spool
      → IsValid spool.bounds s
      → AllValid (record spool { workspaces = insert id s spool.workspaces })
  inserted-AllValid spool id s all v id' s' e =
      if_split (λ o. o ≡ some s' → IsValid spool.bounds s') (same_id id id')
        (λ _ h. subst (IsValid spool.bounds) (ground arith) v) (λ _ h. all id' s' h) e

  or_new-Gapless :
      (bound : SpoolBounds) (o : Option (WorkspaceSpool E))
      → ((s : WorkspaceSpool E) → o ≡ some s → IsValid bound s)
      → Gapless (or_new o).events (or_new o).next_sequence
  unfolding new_workspace Follows retained
  or_new-Gapless bound none h = (1, omega arith, refl)
  or_new-Gapless bound (some s) h = (h s refl).gapless

  -- Recording an event keeps every workspace valid: its retained numbers follow each other without a gap up to
  -- the last one given, and they are as many as the bound allows at most.
  pub record_event-AllValid :
      (workspace_id : E → Option WorkspaceId) (now : ℕ) (event : E) (spool : AgentEventSpool E)
      → AllValid spool
      → AllValid (record_event workspace_id now event spool).0
  unfolding record_event
  record_event-AllValid workspace_id now event spool all = recorded (workspace_id event)
    where
      recorded :
          (o : Option WorkspaceId)
          → AllValid
              (elim o as (λ _. AgentEventSpool E × Option ℕ) [
                | none ↦ (spool, none)
                | some id ↦
                    let s = or_new (spool.workspaces id) in
                    let s' = evict_expired now spool.bounds (push_event now event s) in
                    (
                      record spool { workspaces = insert id s' spool.workspaces },
                      some s.next_sequence,
                    )
              ]).0
      recorded none = all
      recorded (some id) =
          let s = or_new (spool.workspaces id) in
          inserted-AllValid spool id _ all (
            evict_expired-IsValid now spool.bounds (push_event now event s) (
              push_event-Gapless now event s
                (or_new-Gapless spool.bounds (spool.workspaces id) (λ s' e. all id s' e))))
