-- ===== src/Host/Registry.antt =====
-- rust/choosh-hostd/src/registry.rs: the projects, workspaces and items of a host. Ids, names and paths are strings, times
-- and durations numbers. Writing the file is an argument: whether `save` succeeds this time. Loading it, and
-- its path, are not modelled.
pub mod Finding
pub mod Names
pub mod Runs
mod Tests
use choosh.Prelude.{
  ℕ, ◌+◌, ◌-◌, Bool, true, false, not, ◌&&◌, ◌||◌, List, [], ◌∷◌, ◌++◌, Option, none, some, leb,
  if◌then◌else◌, String, Outcome, done, failed, Map, get, insert, same, string_eq,
}

pub data ItemType : Type 0 where
  agent_terminal shell web_service : ItemType

pub data AgentKind : Type 0 where
  codex claude opencode : AgentKind

pub data ItemStatus : Type 0 where
  starting running stopped failed_status unknown : ItemStatus

pub record Item : Type 0 where
  pub item_id : String
  pub workspace_id : String
  pub item_type : ItemType
  pub name : String
  pub tab_target : String
  pub status : ItemStatus
  pub agent : Option AgentKind
  pub port : Option ℕ

pub record Project : Type 0 where
  pub project_id : String
  pub name : String
  pub primary_workspace_id : Option String

pub record Workspace : Type 0 where
  pub workspace_id : String
  pub workspace_name : String
  pub project_id : String
  pub root_path : String
  pub created_at : String

pub record RegistryState : Type 0 where
  pub projects : List Project
  pub workspaces : List Workspace
  pub items : List Item

pub data RegistryError : Type 0 where
  io : RegistryError
  corrupt workspace_name_taken item_name_taken project_not_found workspace_not_found :
      String → RegistryError
  workspace_not_in_project : String → String → RegistryError

pub record HostRegistry : Type 0 where
  pub state : RegistryState
  pub last_event_at : Map String ℕ
  pub reserved_workspace_names : List String
  pub reserved_item_names : List (String × String)

abbrev pub Answered : Type 0
Answered = HostRegistry × Outcome RegistryError (Unit {0})

module _ {ℓ} {A : Type ℓ} where
  -- `iter().find`
  abbrev pub find : (A → Bool) → List A → Option A
  find p [] = none
  find p (x ∷ xs) = let rest = find p xs in if p x then some x else rest

  -- A write through `iter_mut().find`.
  abbrev pub update_first : (A → Bool) → (A → A) → List A → List A
  update_first p f [] = []
  update_first p f (x ∷ xs) = let rest = update_first p f xs in if p x then f x ∷ xs else x ∷ rest

  abbrev pub filter : (A → Bool) → List A → List A
  filter p [] = []
  filter p (x ∷ xs) = let rest = filter p xs in if p x then x ∷ rest else rest

abbrev pub is_some {ℓ} : {A : Type ℓ} → Option A → Bool
is_some none = false
is_some (some _) = true

abbrev pub named : String → Workspace → Bool
named name w = same w.workspace_name name

abbrev pub item_named : String → String → Item → Bool
item_named workspace_id name i = same i.workspace_id workspace_id && same i.name name

unfoldable pub find_workspace_by_name : RegistryState → String → Option Workspace
find_workspace_by_name s name = find (named name) s.workspaces

unfoldable pub find_workspace : RegistryState → String → Option Workspace
find_workspace s id = find (λ w. same w.workspace_id id) s.workspaces

unfoldable pub find_project : RegistryState → String → Option Project
find_project s id = find (λ p. same p.project_id id) s.projects

unfoldable pub find_project_by_source : RegistryState → String → Option Project
find_project_by_source s root_path = elim (find (λ w. same w.root_path root_path) s.workspaces) [
  | none ↦ none
  | some w ↦ find (λ p. same p.project_id w.project_id) s.projects
]

unfoldable pub find_item : RegistryState → String → Option Item
find_item s id = find (λ i. same i.item_id id) s.items

unfoldable pub find_item_by_name : RegistryState → String → String → Option Item
find_item_by_name s workspace_id name = find (item_named workspace_id name) s.items

unfoldable pub list_items : RegistryState → String → List Item
list_items s workspace_id = filter (λ i. same i.workspace_id workspace_id) s.items

-- The registry in memory stays as it was changed, whether or not the file is written.
abbrev pub save : Bool → HostRegistry → Answered
save saved r = (r, (if saved then done tt else failed io))

abbrev pub with_state : HostRegistry → RegistryState → HostRegistry
with_state r s = record r { state = s }

abbrev pub set_primary : String → Project → Project
set_primary workspace_id p = record p { primary_workspace_id = some workspace_id }

unfoldable pub set_primary_workspace : Bool → HostRegistry → String → String → Answered
unfolding find_workspace find_project
set_primary_workspace saved r project_id workspace_id = elim (find_workspace r.state workspace_id) [
  | none ↦ (r, failed (workspace_not_found workspace_id))
  | some w ↦
      if not (same w.project_id project_id)
      then (r, failed (workspace_not_in_project project_id workspace_id))
      else if not (is_some (find_project r.state project_id))
      then (r, failed (project_not_found project_id))
      else save saved (
          with_state r (record r.state {
            projects =
                update_first (λ p. same p.project_id project_id) (set_primary workspace_id)
                  r.state.projects;
          }))
]

abbrev pub mem_name : String → List String → Bool
mem_name n [] = false
mem_name n (m ∷ ms) = same n m || mem_name n ms

abbrev pub without_name : String → List String → List String
without_name n = filter (λ m. not (same n m))

unfoldable pub reserve_workspace_name : HostRegistry → String → Answered
unfolding find_workspace_by_name
reserve_workspace_name r name =
    if is_some (find_workspace_by_name r.state name) || mem_name name r.reserved_workspace_names
    then (r, failed (workspace_name_taken name))
    else (record r { reserved_workspace_names = name ∷ r.reserved_workspace_names }, done tt)

unfoldable pub release_workspace_name_reservation : HostRegistry → String → HostRegistry
release_workspace_name_reservation r name = record r {
  reserved_workspace_names = without_name name r.reserved_workspace_names;
}

-- The project of a workspace that is being registered: a new one has it as its primary workspace.
unfoldable pub project_for : RegistryState → String → String → String → List Project
unfolding find_project
project_for s project_id project_name workspace_id =
    if is_some (find_project s project_id)
    then s.projects
    else s.projects
      ++ record {
        project_id = project_id;
        name = project_name;
        primary_workspace_id = some workspace_id;
      }
        ∷ []

unfoldable pub register_workspace : Bool → HostRegistry → Workspace → String → Answered
unfolding find_workspace_by_name project_for
register_workspace saved r w project_name =
    if is_some (find_workspace_by_name r.state w.workspace_name)
    then (r, failed (workspace_name_taken w.workspace_name))
    else save saved (
        with_state r (record r.state {
          projects = project_for r.state w.project_id project_name w.workspace_id;
          workspaces = r.state.workspaces ++ w ∷ [];
        }))

abbrev pub mem_pair : String × String → List (String × String) → Bool
mem_pair n [] = false
mem_pair n (m ∷ ms) = same n.0 m.0 && same n.1 m.1 || mem_pair n ms

unfoldable pub reserve_item_name : HostRegistry → String → String → Answered
unfolding find_item_by_name
reserve_item_name r workspace_id name =
    if is_some (find_item_by_name r.state workspace_id name)
      || mem_pair (workspace_id, name) r.reserved_item_names
    then (r, failed (item_name_taken name))
    else (record r { reserved_item_names = (workspace_id, name) ∷ r.reserved_item_names }, done tt)

unfoldable pub release_item_name_reservation : HostRegistry → String → String → HostRegistry
release_item_name_reservation r workspace_id name = record r {
  reserved_item_names =
      filter (λ m. not (same workspace_id m.0 && same name m.1)) r.reserved_item_names;
}

unfoldable pub register_item : Bool → HostRegistry → Item → Answered
unfolding find_item_by_name
register_item saved r i =
    if is_some (find_item_by_name r.state i.workspace_id i.name)
    then (r, failed (item_name_taken i.name))
    else save saved (with_state r (record r.state { items = r.state.items ++ i ∷ [] }))

abbrev pub set_status : ItemStatus → Item → Item
set_status status i = record i { status = status }

-- The source's message names the item as well.
unfoldable pub set_item_status : Bool → HostRegistry → String → ItemStatus → Answered
unfolding find_item
set_item_status saved r item_id status = elim (find_item r.state item_id) [
  | none ↦ (r, failed (corrupt "item not found"))
  | some _ ↦ save saved (
      with_state r (record r.state {
        items = update_first (λ i. same i.item_id item_id) (set_status status) r.state.items;
      }))
]

unfoldable pub mark_item_stopped : Bool → HostRegistry → String → Answered
unfolding set_item_status
mark_item_stopped saved r item_id = set_item_status saved r item_id stopped

unfoldable pub record_event : HostRegistry → String → ℕ → HostRegistry
record_event r workspace_id at = record r { last_event_at = insert workspace_id at r.last_event_at }

unfoldable pub has_recent_event : HostRegistry → String → ℕ → ℕ → Bool
has_recent_event r workspace_id now window = elim (get r.last_event_at workspace_id) [
  | none ↦ false
  | some at ↦ leb (now - at) window
]
