-- ===== src/Host/Registry/Names.antt =====
-- The well-formed states of rust/choosh-hostd/src/registry.rs, and that every operation keeps them.
use choosh.Prelude.{
  ◌≡◌, refl, sym, ap, ◌∙◌, inl, inr, Bool, false, List, [], ◌∷◌, ◌++◌, Option, none, some, arith,
  Option-cases, Bool-cases, if_elim, String, same, same_refl, eq_of_same, not_same, string_eq,
}
use choosh.Host.Registry.{
  Item, ItemStatus, Project, Workspace, RegistryState, HostRegistry, find, is_some, named,
  item_named, find_workspace, find_workspace_by_name, find_project, find_item, find_item_by_name,
  set_primary, set_primary_workspace, project_for, register_workspace, register_item, set_status,
  set_item_status,
}
use choosh.Host.Registry.Finding.{
  DistinctBy, All, none_of_is_some, find-append-some, find-snoc, DistinctBy-snoc,
  DistinctBy-update_first, All-update_first, All-map, All-snoc,
}

abbrev pub like_workspace : Workspace → Workspace → Bool
like_workspace a b = named b.workspace_name a

abbrev pub like_item : Item → Item → Bool
like_item a b = item_named b.workspace_id b.name a

-- The project's primary workspace, if it has one, is registered and is a workspace of the project.
abbrev pub PrimaryOk : List Workspace → Project → Type 0
PrimaryOk workspaces p = elim p.primary_workspace_id [
  | none ↦ Unit
  | some id ↦
      (w : Workspace) × (find (λ w. same w.workspace_id id) workspaces ≡ some w)
      × (w.project_id ≡ p.project_id)
]

-- Workspace names are unique on the host, item names in their workspace, and primary workspaces belong to their
-- projects.
pub record IsValid (s : RegistryState) : Type 0 where
  pub workspace_names : DistinctBy like_workspace s.workspaces
  pub item_names : DistinctBy like_item s.items
  pub primaries : All (PrimaryOk s.workspaces) s.projects

same_sym : (a b : String) → same a b ≡ false → same b a ≡ false
same_sym a b h = not_same b a (λ e. swap (sym (ap (same a) e) ∙ h))
  where
    swap : same a a ≡ false → ⊥
    swap k = let r = same_refl a in absurd (ground arith)

like_item_sym : (a b : Item) → like_item a b ≡ false → like_item b a ≡ false
like_item_sym a b h = elim (Bool-cases (same a.workspace_id b.workspace_id)) [
  | inr other ↦ let flipped = same_sym a.workspace_id b.workspace_id other in ground arith
  | inl mine ↦
      let flipped = same_sym a.name b.name (ground arith) in
      elim (Bool-cases (same b.workspace_id a.workspace_id)) [
        | inl _ ↦ ground arith
        | inr _ ↦ ground arith
      ]
]

PrimaryOk-append :
    (workspaces more : List Workspace) (p : Project)
    → PrimaryOk workspaces p
    → PrimaryOk (workspaces ++ more) p
PrimaryOk-append workspaces more p h = go p.primary_workspace_id p.project_id h
  where
    go :
        (o : Option String) (project_id : String)
        → PrimaryOk workspaces
            (record { project_id = project_id; name = p.name; primary_workspace_id = o })
        → PrimaryOk
            (workspaces ++ more)
            (record { project_id = project_id; name = p.name; primary_workspace_id = o })
    go none project_id h = tt
    go (some id) project_id (w, found, own) =
        (w, find-append-some (λ w. same w.workspace_id id) workspaces more w found, own)

-- The id of the new workspace is one that is not in use.
pub register_workspace-IsValid :
    (saved : Bool) (r : HostRegistry) (w : Workspace) (project_name : String)
    → find_workspace r.state w.workspace_id ≡ none
    → IsValid r.state
    → IsValid (register_workspace saved r w project_name).0.state
unfolding register_workspace project_for find_workspace find_workspace_by_name find_project
register_workspace-IsValid saved r w project_name fresh v =
    elim (Bool-cases (is_some (find_workspace_by_name r.state w.workspace_name))) [
      | inl taken ↦ rw (register_workspace, taken) v
      | inr free ↦
          rw (register_workspace, free)
            (record {
              workspace_names =
                  DistinctBy-snoc like_workspace r.state.workspaces w
                    (λ a b. same_sym a.workspace_name b.workspace_name)
                    (none_of_is_some (find (named w.workspace_name) r.state.workspaces) free)
                    v.workspace_names;
              item_names = v.item_names;
              primaries =
                  let old =
                    All-map (PrimaryOk r.state.workspaces)
                      (PrimaryOk (r.state.workspaces ++ w ∷ [])) r.state.projects
                      (PrimaryOk-append r.state.workspaces (w ∷ [])) v.primaries in
                  if_elim (All (PrimaryOk (r.state.workspaces ++ w ∷ [])))
                    (is_some (find_project r.state w.project_id)) old
                    (All-snoc (PrimaryOk (r.state.workspaces ++ w ∷ [])) r.state.projects
                      (record {
                        project_id = w.project_id;
                        name = project_name;
                        primary_workspace_id = some w.workspace_id;
                      })
                      old
                      (
                        w,
                        find-snoc (λ z. same z.workspace_id w.workspace_id) r.state.workspaces w
                            fresh (same_refl w.workspace_id),
                        refl,
                      ));
            })
    ]

pub register_item-IsValid :
    (saved : Bool) (r : HostRegistry) (i : Item)
    → IsValid r.state
    → IsValid (register_item saved r i).0.state
unfolding register_item find_item_by_name
register_item-IsValid saved r i v =
    elim (Bool-cases (is_some (find_item_by_name r.state i.workspace_id i.name))) [
      | inl taken ↦ rw (register_item, taken) v
      | inr free ↦
          rw (register_item, free)
            (record {
              workspace_names = v.workspace_names;
              item_names =
                  DistinctBy-snoc like_item r.state.items i like_item_sym
                    (none_of_is_some (find (item_named i.workspace_id i.name) r.state.items) free)
                    v.item_names;
              primaries = v.primaries;
            })
    ]

pub set_item_status-IsValid :
    (saved : Bool) (r : HostRegistry) (item_id : String) (status : ItemStatus)
    → IsValid r.state
    → IsValid (set_item_status saved r item_id status).0.state
unfolding set_item_status
set_item_status-IsValid saved r item_id status v = elim (Option-cases (find_item r.state item_id)) [
  | inl e ↦ rw (set_item_status, e) v
  | inr (i, e) ↦
      rw (set_item_status, e)
        (record {
          workspace_names = v.workspace_names;
          item_names =
              DistinctBy-update_first like_item (λ i. same i.item_id item_id) (set_status status)
                r.state.items (λ a b. refl) (λ a b. refl) v.item_names;
          primaries = v.primaries;
        })
]

pub set_primary_workspace-IsValid :
    (saved : Bool) (r : HostRegistry) (project_id workspace_id : String)
    → IsValid r.state
    → IsValid (set_primary_workspace saved r project_id workspace_id).0.state
unfolding set_primary_workspace find_workspace
set_primary_workspace-IsValid saved r project_id workspace_id v =
    elim (Option-cases (find_workspace r.state workspace_id)) [
      | inl e ↦ rw (set_primary_workspace, e) v
      | inr (w, e) ↦ elim (Bool-cases (same w.project_id project_id)) [
        | inr other ↦ rw (set_primary_workspace, e, other) v
        | inl mine ↦ elim (Bool-cases (is_some (find_project r.state project_id))) [
          | inr unknown ↦ rw (set_primary_workspace, e, mine, unknown) v
          | inl known ↦
              rw (set_primary_workspace, e, mine, known)
                (record {
                  workspace_names = v.workspace_names;
                  item_names = v.item_names;
                  primaries =
                      All-update_first (PrimaryOk r.state.workspaces)
                        (λ p. same p.project_id project_id) (set_primary workspace_id)
                        r.state.projects
                        (λ p hit. (
                          w,
                          e,
                          eq_of_same w.project_id project_id mine
                              ∙ sym (eq_of_same p.project_id project_id hit),
                        ))
                        v.primaries;
                })
        ]
      ]
    ]
