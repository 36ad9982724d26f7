-- ===== src/Protocol/AgentEvent/Tests.antt =====
-- Runs of the hook validation of rust/choosh-protocol/src/agent_event.rs on concrete reports.
use choosh.Prelude.{◌≤◌, ◌≡◌, refl, List, [], ◌∷◌, length, Bytes, done, failed, string_eq}
use choosh.Protocol.AgentEvent.{
  max_paths, codex, claude, added, modified, CandidatePath, ChangeOperation, files_changed,
  NormalizedAgentEvent, AdapterContext, CapturedHook, event_of, normalize, invalid_candidate_path,
  adapter_mismatch,
}
use choosh.Protocol.AgentEvent.Safety.{AllSafe, normalize_safe}

-- "00000000-0000-0000-0000-000000000001"
abbrev uuid : Bytes
uuid =
    48 ∷ 48 ∷ 48 ∷ 48 ∷ 48 ∷ 48 ∷ 48 ∷ 48 ∷ 45 ∷ 48 ∷ 48 ∷ 48 ∷ 48 ∷ 45 ∷ 48 ∷ 48 ∷ 48 ∷ 48 ∷ 45
    ∷ 48 ∷ 48 ∷ 48 ∷ 48 ∷ 45 ∷ 48 ∷ 48 ∷ 48 ∷ 48 ∷ 48 ∷ 48 ∷ 48 ∷ 48 ∷ 48 ∷ 48 ∷ 48 ∷ 49 ∷ []

-- "/w"
abbrev context : AdapterContext
context = record {
  workspace_id = 119 ∷ 115 ∷ 45 ∷ uuid;
  item_id = 105 ∷ 116 ∷ 101 ∷ 109 ∷ 45 ∷ uuid;
  root = 47 ∷ 119 ∷ [];
  adapter = codex;
}

-- "2026-01-02T03:04:05.6Z"
abbrev occurred_at : Bytes
occurred_at =
    50 ∷ 48 ∷ 50 ∷ 54 ∷ 45 ∷ 48 ∷ 49 ∷ 45 ∷ 48 ∷ 50 ∷ 84 ∷ 48 ∷ 51 ∷ 58 ∷ 48 ∷ 52 ∷ 58 ∷ 48 ∷ 53
    ∷ 46 ∷ 54 ∷ 90 ∷ []

-- "a/b"
abbrev file : Bytes
file = 97 ∷ 47 ∷ 98 ∷ []

abbrev hook : List (Bytes × ChangeOperation) → CapturedHook
hook paths = record {
  surface = "PostToolUse";
  occurred_at = occurred_at;
  candidate_paths = paths;
  captured_bytes = 100;
}

abbrev found : List CandidatePath
found = record { path = file; operation = added } ∷ []

abbrev event : NormalizedAgentEvent
event = event_of codex context (hook ((file, added) ∷ (file, modified) ∷ [])) (files_changed found)

normalized : normalize codex context (hook ((file, added) ∷ (file, modified) ∷ [])) ≡ done event
unfolding normalize
normalized = refl

-- "../b"
climbing :
    normalize codex context (hook ((46 ∷ 46 ∷ 47 ∷ 98 ∷ [], added) ∷ []))
    ≡ failed invalid_candidate_path
unfolding normalize
climbing = refl

mismatched : normalize claude context (hook []) ≡ failed adapter_mismatch
unfolding normalize
mismatched = refl

normalize_safe_example : AllSafe found × (length found ≤ max_paths)
normalize_safe_example =
    normalize_safe codex context (hook ((file, added) ∷ (file, modified) ∷ [])) event found
      normalized refl
