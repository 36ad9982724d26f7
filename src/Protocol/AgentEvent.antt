-- ===== src/Protocol/AgentEvent.antt =====
-- rust/choosh-protocol/src/agent_event.rs: the validation of what an agent's hooks report. Ids, times and paths are lists of bytes;
-- the name of a surface is a string.
pub mod Syntax
pub mod Safety
mod Tests
use choosh.Prelude.{
  ℕ, zero, suc, ◌+◌, ◌*◌, Bool, true, false, not, ◌&&◌, ◌||◌, List, [], ◌∷◌, ◌++◌, Option, none,
  some, ltb, leb, ◌==◌, if◌then◌else◌, length, get_elem?, take, drop, String, Bytes, Outcome, done,
  failed, same, same_bytes, string_eq, bytes_eq,
}
use choosh.Protocol.AgentEvent.Syntax.{
  max_path_bytes, is_ascii_control, any_byte, byte_at, is_prefixed_uuid, is_uuid,
  validate_timestamp, validate_candidate_path,
}

abbrev pub max_capture_bytes : ℕ
max_capture_bytes = 64 * 1024

abbrev pub max_paths : ℕ
max_paths = 1000

pub data AgentAdapter : Type 0 where
  codex claude opencode : AgentAdapter

abbrev pub same_adapter : AgentAdapter → AgentAdapter → Bool
same_adapter codex codex = true
same_adapter claude claude = true
same_adapter opencode opencode = true
same_adapter _ _ = false

pub data InputReason : Type 0 where
  approval permission question elicitation next_prompt : InputReason

pub data AgentStatus : Type 0 where
  starting busy waiting stopped failed_status : AgentStatus

pub data ChangeOperation : Type 0 where
  added modified deleted unknown : ChangeOperation

pub record CandidatePath : Type 0 where
  pub path : Bytes
  pub operation : ChangeOperation

pub data CoarseSummary : Type 0 where
  approval_required permission_required question_waiting input_requested : CoarseSummary
  ready_for_next_prompt : CoarseSummary

pub data DiagnosticCode : Type 0 where
  agent_reported_failure : DiagnosticCode

pub data AgentEventKind : Type 0 where
  input_required : InputReason → CoarseSummary → AgentEventKind
  turn_completed : AgentEventKind
  files_changed : List CandidatePath → AgentEventKind
  agent_status : AgentStatus → Option DiagnosticCode → AgentEventKind

pub record NormalizedAgentEvent : Type 0 where
  pub workspace_id : Bytes
  pub item_id : Bytes
  pub adapter : AgentAdapter
  pub adapter_occurred_at : Bytes
  pub kind : AgentEventKind

pub record ReceivedAgentEvent : Type 0 where
  pub event : NormalizedAgentEvent
  pub workspace_sequence : ℕ
  pub received_at : Bytes

pub record AdapterContext : Type 0 where
  pub workspace_id : Bytes
  pub item_id : Bytes
  pub root : Bytes
  pub adapter : AgentAdapter

pub record CapturedHook : Type 0 where
  pub surface : String
  pub occurred_at : Bytes
  pub candidate_paths : List (Bytes × ChangeOperation)
  pub captured_bytes : ℕ

pub data ValidationError : Type 0 where
  missing_context adapter_mismatch capture_too_large invalid_workspace_id : ValidationError
  invalid_item_id invalid_root invalid_timestamp unknown_surface too_many_paths : ValidationError
  invalid_candidate_path invalid_sequence : ValidationError

unfoldable pub validate_context : AdapterContext → Outcome ValidationError (Unit {0})
unfolding is_prefixed_uuid
validate_context context =
    if length context.workspace_id == 0 || length context.item_id == 0 || length context.root == 0
    then failed missing_context
    else if not (is_prefixed_uuid context.workspace_id (119 ∷ 115 ∷ 45 ∷ []))
    then failed invalid_workspace_id
    else if not (is_prefixed_uuid context.item_id (105 ∷ 116 ∷ 101 ∷ 109 ∷ 45 ∷ []))
    then failed invalid_item_id
    else if not (byte_at context.root 0 47)
        || ltb max_path_bytes (length context.root)
        || any_byte is_ascii_control context.root
    then failed invalid_root
    else done tt

abbrev pub has_path : Bytes → List CandidatePath → Bool
has_path path [] = false
has_path path (c ∷ cs) = same_bytes c.path path || has_path path cs

abbrev pub add_candidate : Bytes → ChangeOperation → List CandidatePath → List CandidatePath
add_candidate path operation candidates =
    if has_path path candidates
    then candidates
    else candidates ++ record { path = path; operation = operation } ∷ []

-- The loop of `paths`.
unfoldable pub collect :
    List CandidatePath
    → List (Bytes × ChangeOperation)
    → Outcome ValidationError (List CandidatePath)
unfolding validate_candidate_path
collect candidates [] = done candidates
collect candidates (entry ∷ entries) =
    let rest = collect (add_candidate entry.0 entry.1 candidates) entries in
    if validate_candidate_path entry.0 then rest else failed invalid_candidate_path

unfoldable pub paths : CapturedHook → Outcome ValidationError AgentEventKind
unfolding collect
paths hook =
    if ltb max_paths (length hook.candidate_paths)
    then failed too_many_paths
    else (elim (collect [] hook.candidate_paths) [
      | failed e ↦ failed e
      | done candidates ↦ done (files_changed candidates)
    ])

unfoldable pub map_surface : AgentAdapter → CapturedHook → Outcome ValidationError AgentEventKind
unfolding paths
map_surface codex hook =
    if same hook.surface "PermissionRequest"
    then done (input_required approval approval_required)
    else if same hook.surface "UserPromptSubmit"
    then done (agent_status busy none)
    else if same hook.surface "PostToolUse"
    then paths hook
    else if same hook.surface "Stop"
    then done turn_completed
    else failed unknown_surface
map_surface claude hook =
    if same hook.surface "PermissionRequest"
    then done (input_required permission permission_required)
    else if same hook.surface "Notification"
    then done (input_required question question_waiting)
    else if same hook.surface "UserPromptSubmit"
    then done (agent_status busy none)
    else if same hook.surface "FileChanged" || same hook.surface "PostToolUse"
    then paths hook
    else if same hook.surface "Stop"
    then done turn_completed
    else failed unknown_surface
map_surface opencode hook =
    if same hook.surface "permission.asked"
    then done (input_required permission permission_required)
    else if same hook.surface "permission.replied"
    then done (agent_status busy none)
    else if same hook.surface "file.edited" || same hook.surface "session.diff"
    then paths hook
    else if same hook.surface "session.idle"
    then done turn_completed
    else if same hook.surface "session.error"
    then done (agent_status failed_status (some agent_reported_failure))
    else failed unknown_surface

abbrev pub event_of :
    AgentAdapter → AdapterContext → CapturedHook → AgentEventKind → NormalizedAgentEvent
event_of adapter context hook kind = record {
  workspace_id = context.workspace_id;
  item_id = context.item_id;
  adapter = adapter;
  adapter_occurred_at = hook.occurred_at;
  kind = kind;
}

unfoldable pub normalize :
    AgentAdapter → AdapterContext → CapturedHook → Outcome ValidationError NormalizedAgentEvent
unfolding validate_context validate_timestamp map_surface
normalize expected context hook = elim (validate_context context) [
  | failed e ↦ failed e
  | done _ ↦
      if not (same_adapter context.adapter expected)
      then failed adapter_mismatch
      else if ltb max_capture_bytes hook.captured_bytes
      then failed capture_too_large
      else if not (validate_timestamp hook.occurred_at)
      then failed invalid_timestamp
      else (elim (map_surface expected hook) [
        | failed e ↦ failed e
        | done kind ↦ done (event_of expected context hook kind)
      ])
]

-- `ReceivedAgentEvent::new`
unfoldable pub new_received :
    NormalizedAgentEvent → ℕ → Bytes → Outcome ValidationError ReceivedAgentEvent
unfolding validate_timestamp
new_received event workspace_sequence received_at =
    if not (validate_timestamp received_at)
    then failed invalid_timestamp
    else if workspace_sequence == 0
    then failed invalid_sequence
    else done (record {
      event = event;
      workspace_sequence = workspace_sequence;
      received_at = received_at;
    })
