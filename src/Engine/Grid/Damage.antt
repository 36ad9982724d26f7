-- ===== src/Engine/Grid/Damage.antt =====
-- The damage flags of rust/choosh-terminal-engine/src/grid.rs against the cells that the operations change.
use choosh.Prelude.{
  ℕ, zero, suc, ◌+◌, ◌-◌, ◌≤◌, ◌<◌, ◌≡◌, ◌≢◌, refl, sym, ap, subst, ◌⊎◌, ◌∙◌, min, Bool, true,
  false, inl, inr, List, [], ◌∷◌, map, replicate, some, set, get_or, length, arith,
}
use choosh.Engine.Grid.{
  Cell, blank, Grid, new_grid, cell, mark_dirty, mark_all_dirty, is_dirty, set_cell, clear_row,
  clear_cols, clear_row_range, copy_row, copy_up, copy_down, clear_rows, scroll_up, scroll_down,
}
use choosh.Engine.Grid.Cells.{IsValid, set_cell-IsValid, cell-set_cell}
use choosh.Engine.Grid.Rows.{
  SameSize-trans, set_cell-SameSize, copy_row-IsValid, copy_row-SameSize, cell-copy_row,
  clear_row-IsValid, clear_row-SameSize, cell-clear_row,
}
use choosh.Engine.Grid.Scroll.{Like}

-- From `g` to `h` the size stays, and a row that is not marked in `h` was not marked in `g` and
-- holds the cells it held there.
pub record Tracks (g h : Grid) : Type 0 where
  pub like : Like g h
  pub unmarked :
      (c r : ℕ)
      → c < g.cols
      → r < g.rows
      → is_dirty h r ≡ false
      → (cell h c r ≡ cell g c r) × (is_dirty g r ≡ false)

pub Tracks-refl : (g : Grid) → IsValid g → Tracks g g
Tracks-refl g v = record {
  like = record { valid = v; same_size = record { same_cols = refl; same_rows = refl } };
  unmarked = λ c r hc hr h. (refl, h);
}

pub Tracks-trans : {g h k : Grid} → Tracks g h → Tracks h k → Tracks g k
Tracks-trans {g} {h} {k} a b = record {
  like = record {
    valid = b.like.valid;
    same_size = SameSize-trans a.like.same_size b.like.same_size;
  };
  unmarked = λ c r hc hr e.
      let later =
        b.unmarked c r (omega (arith, a.like.same_size.same_cols))
          (omega (arith, a.like.same_size.same_rows)) e in
      let sooner = a.unmarked c r hc hr later.1 in (later.0 ∙ sooner.0, sooner.1);
}

get_or-set_self : (bs : List Bool) (i : ℕ) → i < length bs → get_or (set bs i true) i false ≡ true
get_or-set_self [] i h = absurd (omega arith)
get_or-set_self (b ∷ bs) zero h = refl
get_or-set_self (b ∷ bs) (suc i) h = get_or-set_self bs i (omega arith)

get_or-set_ne :
    (bs : List Bool) (i j : ℕ) → i ≢ j → get_or (set bs i true) j false ≡ get_or bs j false
get_or-set_ne [] i j h = refl
get_or-set_ne (b ∷ bs) zero zero h = absurd (h refl)
get_or-set_ne (b ∷ bs) zero (suc j) h = refl
get_or-set_ne (b ∷ bs) (suc i) zero h = refl
get_or-set_ne (b ∷ bs) (suc i) (suc j) h = get_or-set_ne bs i j (λ e. h (ap suc e))

pub set_cell-Tracks : (g : Grid) (c r : ℕ) (x : Cell) → IsValid g → Tracks g (set_cell g c r x)
unfolding set_cell is_dirty
set_cell-Tracks g c r x v = record {
  like = record { valid = set_cell-IsValid g c r x v; same_size = set_cell-SameSize g c r x };
  unmarked = λ c' r' hc hr h. ground (
    arith,
    cell-set_cell g c r x c' r' v,
    get_or-set_self g.dirty r,
    get_or-set_ne g.dirty r r',
    v.dirty_size,
  );
}

pub clear_row-Tracks : (g : Grid) (r : ℕ) → IsValid g → Tracks g (clear_row g r)
unfolding clear_row is_dirty mark_dirty
clear_row-Tracks g r v = record {
  like = record { valid = clear_row-IsValid g r v; same_size = clear_row-SameSize g r };
  unmarked = λ c' r' hc hr h. ground (
    arith,
    cell-clear_row g r c' r' v,
    get_or-set_self g.dirty r,
    get_or-set_ne g.dirty r r',
    v.dirty_size,
  );
}

copy_row-Tracks :
    (g : Grid) (r from : ℕ) → IsValid g → r < g.rows → from < g.rows → Tracks g (copy_row g r from)
unfolding copy_row is_dirty mark_dirty
copy_row-Tracks g r from v hr hf = record {
  like = record { valid = copy_row-IsValid g r from v; same_size = copy_row-SameSize g r from };
  unmarked = λ c' r' hc hr' h. ground (
    arith,
    cell-copy_row g r from c' r' v hr hf hc,
    get_or-set_self g.dirty r,
    get_or-set_ne g.dirty r r',
    v.dirty_size,
  );
}

clear_cols-Tracks : (n col row : ℕ) (g : Grid) → IsValid g → Tracks g (clear_cols n col row g)
unfolding clear_cols
clear_cols-Tracks zero col row g v = Tracks-refl g v
clear_cols-Tracks (suc n) col row g v =
    let one = set_cell-Tracks g col row blank v in
    Tracks-trans one (clear_cols-Tracks n (col + 1) row _ one.like.valid)

pub clear_row_range-Tracks :
    (g : Grid) (row from to : ℕ) → IsValid g → Tracks g (clear_row_range g row from to)
unfolding clear_row_range
clear_row_range-Tracks g row from to v = clear_cols-Tracks (min to g.cols - from) from row g v

pub clear_rows-Tracks : (n row : ℕ) (g : Grid) → IsValid g → Tracks g (clear_rows n row g)
unfolding clear_rows
clear_rows-Tracks zero row g v = Tracks-refl g v
clear_rows-Tracks (suc n) row g v =
    let one = clear_row-Tracks g row v in
    Tracks-trans one (clear_rows-Tracks n (row + 1) _ one.like.valid)

copy_up-Tracks :
    (n row count : ℕ) (g : Grid)
    → IsValid g
    → row + n + count ≤ g.rows
    → Tracks g (copy_up n row count g)
unfolding copy_up
copy_up-Tracks zero row count g v h = Tracks-refl g v
copy_up-Tracks (suc n) row count g v h =
    let one = copy_row-Tracks g row (row + count) v (omega arith) (omega arith) in
    Tracks-trans one (
      copy_up-Tracks n (row + 1) count _ one.like.valid
        (omega (arith, one.like.same_size.same_rows)))

copy_down-Tracks :
    (n row count : ℕ) (g : Grid) → IsValid g → row < g.rows → Tracks g (copy_down n row count g)
unfolding copy_down
copy_down-Tracks zero row count g v h = Tracks-refl g v
copy_down-Tracks (suc n) row count g v h =
    let one = copy_row-Tracks g row (row - count) v h (omega arith) in
    Tracks-trans one (
      copy_down-Tracks n (row - 1) count _ one.like.valid
        (omega (arith, one.like.same_size.same_rows)))

shifted_up :
    (g : Grid) (n row count k from : ℕ)
    → IsValid g
    → row + n + count ≤ g.rows
    → Tracks g (clear_rows k from (copy_up n row count g))
shifted_up g n row count k from v h =
    let copied = copy_up-Tracks n row count g v h in
    Tracks-trans copied (clear_rows-Tracks k from _ copied.like.valid)

shifted_down :
    (g : Grid) (n row count k from : ℕ)
    → IsValid g
    → row < g.rows
    → Tracks g (clear_rows k from (copy_down n row count g))
shifted_down g n row count k from v h =
    let copied = copy_down-Tracks n row count g v h in
    Tracks-trans copied (clear_rows-Tracks k from _ copied.like.valid)

scroll_up_cases :
    (g g' : Grid) (top bottom count : ℕ)
    → scroll_up g top bottom count ≡ some g'
    → let t = min top (g.rows - 1) in
      let b = min bottom (g.rows - 1) in
      let n = min count (b - t + 1) in
      (g' ≡ g)
      ⊎ ((t < b) × (n ≤ b) × (g' ≡ clear_rows n (b - n + 1) (copy_up (b - n + 1 - t) t n g)))
unfolding scroll_up
scroll_up_cases g g' top bottom count h = ground arith

scroll_down_cases :
    (g g' : Grid) (top bottom count : ℕ)
    → scroll_down g top bottom count ≡ some g'
    → let t = min top (g.rows - 1) in
      let b = min bottom (g.rows - 1) in
      let n = min count (b - t + 1) in
      (g' ≡ g) ⊎ ((t < b) × (g' ≡ clear_rows n t (copy_down (b + 1 - (t + n)) b n g)))
unfolding scroll_down
scroll_down_cases g g' top bottom count h = ground arith

pub scroll_up-Tracks :
    (g g' : Grid) (top bottom count : ℕ)
    → IsValid g
    → scroll_up g top bottom count ≡ some g'
    → Tracks g g'
scroll_up-Tracks g g' top bottom count v h = elim (scroll_up_cases g g' top bottom count h) [
  | inl e ↦ subst (Tracks g) (sym e) (Tracks-refl g v)
  | inr (large, fits, e) ↦ subst (Tracks g) (sym e) (shifted_up g _ _ _ _ _ v (omega arith))
]

pub scroll_down-Tracks :
    (g g' : Grid) (top bottom count : ℕ)
    → IsValid g
    → scroll_down g top bottom count ≡ some g'
    → Tracks g g'
scroll_down-Tracks g g' top bottom count v h = elim (scroll_down_cases g g' top bottom count h) [
  | inl e ↦ subst (Tracks g) (sym e) (Tracks-refl g v)
  | inr (large, e) ↦ subst (Tracks g) (sym e) (shifted_down g _ _ _ _ _ v (omega arith))
]

-- A grid whose rows are all marked tracks any of its size.
pub all_marked : {g h : Grid} → Like g h → ((r : ℕ) → r < h.rows → is_dirty h r ≡ true) → Tracks g h
all_marked {g} {h} l marked = record {
  like = l;
  unmarked = λ c r hc hr e. ground (arith, marked r, l.same_size.same_rows);
}

get_or-replicate : (n i : ℕ) → i < n → get_or (replicate n true) i false ≡ true
get_or-replicate zero i h = absurd (omega arith)
get_or-replicate (suc n) zero h = refl
get_or-replicate (suc n) (suc i) h = get_or-replicate n i (omega arith)

pub new_grid_marked :
    (cols rows r : ℕ) → r < (new_grid cols rows).rows → is_dirty (new_grid cols rows) r ≡ true
unfolding new_grid is_dirty
new_grid_marked cols rows r h = get_or-replicate rows r h

get_or-map :
    (bs : List Bool) (i : ℕ) → i < length bs → get_or (map {A = Bool} (λ _. true) bs) i false ≡ true
get_or-map [] i h = absurd (omega arith)
get_or-map (b ∷ bs) zero h = refl
get_or-map (b ∷ bs) (suc i) h = get_or-map bs i (omega arith)

pub mark_all_dirty_marked :
    (g : Grid) (r : ℕ) → IsValid g → r < g.rows → is_dirty (mark_all_dirty g) r ≡ true
unfolding mark_all_dirty is_dirty
mark_all_dirty_marked g r v h = get_or-map g.dirty r (omega (arith, v.dirty_size))

length-map_const : (bs : List Bool) → length (map {A = Bool} (λ _. true) bs) ≡ length bs
length-map_const [] = refl
length-map_const (b ∷ bs) = ap (λ n. suc n) (length-map_const bs)

pub mark_all_dirty-IsValid : (g : Grid) → IsValid g → IsValid (mark_all_dirty g)
unfolding mark_all_dirty
mark_all_dirty-IsValid g v = record {
  cells_size = v.cells_size;
  dirty_size = length-map_const g.dirty ∙ v.dirty_size;
}

pub mark_all_dirty_sizes :
    (g : Grid) → ((mark_all_dirty g).cols ≡ g.cols) × ((mark_all_dirty g).rows ≡ g.rows)
unfolding mark_all_dirty
mark_all_dirty_sizes g = (refl, refl)
