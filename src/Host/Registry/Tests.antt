-- ===== src/Host/Registry/Tests.antt =====
-- Runs of the registry of projects, with the witnesses.
use choosh.Prelude.{◌≡◌, refl, true, false, [], ◌∷◌, done, failed, string_eq}
use choosh.Host.Registry.{
  Workspace, workspace_name_taken, HostRegistry, find_workspace, reserve_workspace_name,
  register_workspace, record_event, has_recent_event,
}
use choosh.Host.Registry.Names.{IsValid}
use choosh.Host.Registry.Runs.{
  workspace_reserved, workspace_released, workspace_registered, event_recorded, apply, here, next,
  start, then_op, Run-IsValid, reserve_workspace_name_exclusive,
}

abbrev empty : HostRegistry
empty = record {
  state = record { projects = []; workspaces = []; items = [] };
  last_event_at = [];
  reserved_workspace_names = [];
  reserved_item_names = [];
}

abbrev a_workspace : Workspace
a_workspace = record {
  workspace_id = "w1";
  workspace_name = "main";
  project_id = "p1";
  root_path = "/src";
  created_at = "now";
}

empty-IsValid : IsValid empty.state
empty-IsValid = record { workspace_names = tt; item_names = tt; primaries = tt }

-- The name is reserved, the workspace is registered, and the name is released.
abbrev created : HostRegistry
created =
    apply
      (apply (apply empty (workspace_reserved "main"))
        (workspace_registered true a_workspace "project"))
      (workspace_released "main")

Run-IsValid_example : IsValid created.state
unfolding apply reserve_workspace_name find_workspace
Run-IsValid_example =
    Run-IsValid {r = empty}
      (next (workspace_released "main") (
        next (workspace_registered true a_workspace "project")
          (next (workspace_reserved "main") here)))
      (tt, (refl, (tt, tt))) empty-IsValid

abbrev holding : HostRegistry
holding = record empty { reserved_workspace_names = "main" ∷ [] }

granted : reserve_workspace_name empty "main" ≡ (holding, done tt)
unfolding reserve_workspace_name
granted = refl

reserve_workspace_name_exclusive_example :
    reserve_workspace_name (apply holding (event_recorded "w1" 5)) "main"
    ≡ (apply holding (event_recorded "w1" 5), failed (workspace_name_taken "main"))
reserve_workspace_name_exclusive_example =
    reserve_workspace_name_exclusive empty holding (apply holding (event_recorded "w1" 5)) "main"
      granted (then_op (event_recorded "w1" 5) start refl)

-- A registration whose file cannot be written is answered with an error, and the name is taken all the same.
unwritten :
    (register_workspace true
      (register_workspace false empty a_workspace "project").0
      a_workspace
      "project").1
    ≡ failed (workspace_name_taken "main")
unfolding register_workspace
unwritten = refl

recent : has_recent_event (record_event empty "w1" 100) "w1" 160 60 ≡ true
unfolding has_recent_event record_event
recent = refl
