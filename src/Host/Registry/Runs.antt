-- ===== src/Host/Registry/Runs.antt =====
-- Runs of the operations of rust/choosh-hostd/src/registry.rs, from concurrent requests in any order.
use choosh.Prelude.{
  ℕ, ◌≡◌, refl, sym, ap, ◌∙◌, subst, inl, inr, Bool, true, false, ◌||◌, List, [], ◌∷◌, none, arith,
  Bool-cases, String, done, failed, same, same_refl, not_same, same-cases, string_eq,
}
use choosh.Host.Registry.{
  Item, ItemStatus, Workspace, workspace_name_taken, HostRegistry, is_some, mem_name, without_name,
  mem_pair, find_workspace, find_workspace_by_name, find_item_by_name, set_primary_workspace,
  reserve_workspace_name, release_workspace_name_reservation, register_workspace, reserve_item_name,
  release_item_name_reservation, register_item, set_item_status, record_event,
}
use choosh.Host.Registry.Names.{
  IsValid, register_workspace-IsValid, register_item-IsValid, set_item_status-IsValid,
  set_primary_workspace-IsValid,
}

-- One call that changes the registry. The Boolean tells whether the file could be written.
pub data Op : Type 0 where
  primary_set : Bool → String → String → Op
  workspace_reserved workspace_released : String → Op
  workspace_registered : Bool → Workspace → String → Op
  item_reserved item_released : String → String → Op
  item_registered : Bool → Item → Op
  status_set : Bool → String → ItemStatus → Op
  event_recorded : String → ℕ → Op

unfoldable pub apply : HostRegistry → Op → HostRegistry
apply r (primary_set saved p w) = (set_primary_workspace saved r p w).0
apply r (workspace_reserved name) = (reserve_workspace_name r name).0
apply r (workspace_released name) = release_workspace_name_reservation r name
apply r (workspace_registered saved w name) = (register_workspace saved r w name).0
apply r (item_reserved w name) = (reserve_item_name r w name).0
apply r (item_released w name) = release_item_name_reservation r w name
apply r (item_registered saved i) = (register_item saved r i).0
apply r (status_set saved id status) = (set_item_status saved r id status).0
apply r (event_recorded w at) = record_event r w at

-- The registration of a workspace is one under an id that is not in use. The daemon draws the ids at random, and the
-- registry does not look.
abbrev pub FreshId : HostRegistry → Op → Type 0
FreshId r (workspace_registered saved w name) = find_workspace r.state w.workspace_id ≡ none
FreshId r _ = Unit

pub data Run (r : HostRegistry) : HostRegistry → Type 0 where
  here : Run r r
  next : {t : HostRegistry} (op : Op) → Run r t → Run r (apply t op)

-- Every registration of the run is such a one.
abbrev pub AllFresh : {r t : HostRegistry} → Run r t → Type 0
AllFresh here = Unit {0}
AllFresh (next {t} op run) = FreshId t op × AllFresh run

state-reserve_workspace_name :
    (r : HostRegistry) (name : String) → (reserve_workspace_name r name).0.state ≡ r.state
unfolding reserve_workspace_name
state-reserve_workspace_name r name =
    elim (Bool-cases
      (is_some (find_workspace_by_name r.state name) || mem_name name r.reserved_workspace_names)) [
        | inl taken ↦ rw (reserve_workspace_name, taken) refl
        | inr free ↦ rw (reserve_workspace_name, free) refl
      ]

state-reserve_item_name :
    (r : HostRegistry) (w name : String) → (reserve_item_name r w name).0.state ≡ r.state
unfolding reserve_item_name
state-reserve_item_name r w name =
    elim (Bool-cases
      (is_some (find_item_by_name r.state w name) || mem_pair (w, name) r.reserved_item_names)) [
        | inl taken ↦ rw (reserve_item_name, taken) refl
        | inr free ↦ rw (reserve_item_name, free) refl
      ]

apply-IsValid :
    (r : HostRegistry) (op : Op) → FreshId r op → IsValid r.state → IsValid (apply r op).state
unfolding apply release_workspace_name_reservation release_item_name_reservation record_event
apply-IsValid r (primary_set saved p w) f v = set_primary_workspace-IsValid saved r p w v
apply-IsValid r (workspace_reserved name) f v =
    subst IsValid (sym (state-reserve_workspace_name r name)) v
apply-IsValid r (workspace_released name) f v = v
apply-IsValid r (workspace_registered saved w name) f v =
    register_workspace-IsValid saved r w name f v
apply-IsValid r (item_reserved w name) f v =
    subst IsValid (sym (state-reserve_item_name r w name)) v
apply-IsValid r (item_released w name) f v = v
apply-IsValid r (item_registered saved i) f v = register_item-IsValid saved r i v
apply-IsValid r (status_set saved id status) f v = set_item_status-IsValid saved r id status v
apply-IsValid r (event_recorded w at) f v = v

-- In any run from a well-formed registry in which each workspace is registered under an id that no registered workspace
-- has, whether or not the file can be written: no two workspaces of the host have
-- one name, no two items of a workspace have one name, and the primary workspace of a project is a registered
-- workspace of this project.
pub Run-IsValid :
    {r t : HostRegistry} (run : Run r t) → AllFresh run → IsValid r.state → IsValid t.state
Run-IsValid here fresh v = v
Run-IsValid (next {t} op run) (new, fresh) v = apply-IsValid t op new (Run-IsValid run fresh v)

abbrev pub releases : String → Op → Bool
releases name (workspace_released n) = same n name
releases name _ = false

-- A run in which nobody releases the name.
pub data RunHolding (name : String) (r : HostRegistry) : HostRegistry → Type 0 where
  start : RunHolding name r r
  then_op :
      {t : HostRegistry} (op : Op)
      → RunHolding name r t
      → releases name op ≡ false
      → RunHolding name r (apply t op)

mem_name-without_name :
    (n name : String) (ns : List String)
    → ¬ (n ≡ name)
    → mem_name name ns ≡ true
    → mem_name name (without_name n ns) ≡ true
mem_name-without_name n name [] ne h = ground arith
mem_name-without_name n name (m ∷ ms) ne h =
    let rest = mem_name-without_name n name ms ne in
    elim (same-cases n m) [
      | inl hit ↦
          let miss : same name m ≡ false = not_same name m (λ e. ne (hit ∙ sym e)) in
          let drop : same n m ≡ true = subst (λ z. same n z ≡ true) hit (same_refl n) in
          let tail = rest (ground arith) in ground arith
      | inr other ↦
          let keep : same n m ≡ false = not_same n m other in
          elim (Bool-cases (same name m)) [
            | inl mine ↦ ground arith
            | inr miss ↦ let tail = rest (ground arith) in ground arith
          ]
    ]

-- The reserved names of the operations that do not touch them.
reserved-set_primary_workspace :
    (saved : Bool) (r : HostRegistry) (p w : String)
    → (set_primary_workspace saved r p w).0.reserved_workspace_names ≡ r.reserved_workspace_names
unfolding set_primary_workspace
reserved-set_primary_workspace saved r p w = ground arith

reserved-register_workspace :
    (saved : Bool) (r : HostRegistry) (w : Workspace) (name : String)
    → (register_workspace saved r w name).0.reserved_workspace_names ≡ r.reserved_workspace_names
unfolding register_workspace
reserved-register_workspace saved r w name = ground arith

reserved-reserve_item_name :
    (r : HostRegistry) (w name : String)
    → (reserve_item_name r w name).0.reserved_workspace_names ≡ r.reserved_workspace_names
unfolding reserve_item_name
reserved-reserve_item_name r w name = ground arith

reserved-register_item :
    (saved : Bool) (r : HostRegistry) (i : Item)
    → (register_item saved r i).0.reserved_workspace_names ≡ r.reserved_workspace_names
unfolding register_item
reserved-register_item saved r i = ground arith

reserved-set_item_status :
    (saved : Bool) (r : HostRegistry) (id : String) (status : ItemStatus)
    → (set_item_status saved r id status).0.reserved_workspace_names ≡ r.reserved_workspace_names
unfolding set_item_status
reserved-set_item_status saved r id status = ground arith

mem_name-reserve :
    (r : HostRegistry) (n name : String)
    → mem_name name r.reserved_workspace_names ≡ true
    → mem_name name (reserve_workspace_name r n).0.reserved_workspace_names ≡ true
unfolding reserve_workspace_name
mem_name-reserve r n name h =
    elim (Bool-cases
      (is_some (find_workspace_by_name r.state n) || mem_name n r.reserved_workspace_names)) [
        | inl taken ↦ rw (reserve_workspace_name, taken) h
        | inr free ↦ rw (reserve_workspace_name, free) (ground arith)
      ]

apply_holds :
    (name : String) (r : HostRegistry) (op : Op)
    → releases name op ≡ false
    → mem_name name r.reserved_workspace_names ≡ true
    → mem_name name (apply r op).reserved_workspace_names ≡ true
unfolding apply release_workspace_name_reservation release_item_name_reservation record_event
apply_holds name r (primary_set saved p w) k h =
    ap (mem_name name) (reserved-set_primary_workspace saved r p w) ∙ h
apply_holds name r (workspace_reserved n) k h = mem_name-reserve r n name h
apply_holds name r (workspace_released n) k h =
    mem_name-without_name n name r.reserved_workspace_names (other n k) h
  where
    other : (n : String) → same n name ≡ false → ¬ (n ≡ name)
    other n k e =
        let hit : same n name ≡ true = subst (λ z. same n z ≡ true) e (same_refl n) in
        absurd (ground arith)
apply_holds name r (workspace_registered saved w n) k h =
    ap (mem_name name) (reserved-register_workspace saved r w n) ∙ h
apply_holds name r (item_reserved w n) k h =
    ap (mem_name name) (reserved-reserve_item_name r w n) ∙ h
apply_holds name r (item_released w n) k h = h
apply_holds name r (item_registered saved i) k h =
    ap (mem_name name) (reserved-register_item saved r i) ∙ h
apply_holds name r (status_set saved id status) k h =
    ap (mem_name name) (reserved-set_item_status saved r id status) ∙ h
apply_holds name r (event_recorded w at) k h = h

RunHolding-holds :
    {name : String} {r t : HostRegistry}
    → RunHolding name r t
    → mem_name name r.reserved_workspace_names ≡ true
    → mem_name name t.reserved_workspace_names ≡ true
RunHolding-holds start h = h
RunHolding-holds {name = name} (then_op {t} op run k) h =
    apply_holds name t op k (RunHolding-holds run h)

-- Once a request has reserved a workspace name, every other request for the name is refused as taken and changes
-- nothing, whatever the operations between, until the name is released.
pub reserve_workspace_name_exclusive :
    (r r' t : HostRegistry) (name : String)
    → reserve_workspace_name r name ≡ (r', done tt)
    → RunHolding name r' t
    → reserve_workspace_name t name ≡ (t, failed (workspace_name_taken name))
unfolding reserve_workspace_name
reserve_workspace_name_exclusive r r' t name got run =
    elim (Bool-cases
      (is_some (find_workspace_by_name r.state name) || mem_name name r.reserved_workspace_names)) [
        | inl taken ↦ absurd (ground arith)
        | inr free ↦
            let granted : record r { reserved_workspace_names = name ∷ r.reserved_workspace_names }
                ≡ r' =
              ground arith in
            let mine = same_refl name in
            let first : mem_name name r'.reserved_workspace_names ≡ true =
              subst (λ z. mem_name name z.reserved_workspace_names ≡ true) granted (ground arith) in
            let still = RunHolding-holds run first in ground arith
      ]
