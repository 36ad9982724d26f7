-- ===== src/Engine/Grid/Resize.antt =====
-- `Grid::resize` of rust/choosh-terminal-engine/src/grid.rs: what it keeps.
use choosh.Prelude.{
  ℕ, zero, suc, ◌+◌, ◌*◌, ◌≤◌, ◌<◌, ◌≡◌, refl, sym, ap, subst, ◌∙◌, min, ◌&&◌, List, [], ◌∷◌,
  Option, none, some, ltb, leb, ◌==◌, if◌then◌else◌, get_elem?, length, arith, ◌⊎◌, inl, inr,
  get_elem?-replicate,
}
use choosh.Engine.Grid.{
  Cell, blank, Grid, new_grid, cell, mark_all_dirty, set_cell, copy_cols, copy_rows, is_dirty,
}
use choosh.Engine.Grid
use choosh.Engine.Grid.Cells.{
  IsValid, slot_in_range, cell-eq_get, set_cell-IsValid, cell-set_cell, new_grid-IsValid,
}
use choosh.Engine.Grid.Rows.{SameSize-trans, set_cell-SameSize}
use choosh.Engine.Grid.Scroll.{Like}
use choosh.Engine.Grid.Damage.{mark_all_dirty-IsValid, mark_all_dirty_sizes}

get_elem?-lt : (xs : List Cell) (i : ℕ) → i < length xs → (x : Cell) × (get_elem? xs i ≡ some x)
get_elem?-lt [] i h = elim h [ ]
get_elem?-lt (x ∷ xs) zero h = (x, refl)
get_elem?-lt (x ∷ xs) (suc i) h = get_elem?-lt xs i (omega arith)

cell-eq_some :
    (g : Grid) (c r : ℕ) → IsValid g → c < g.cols → r < g.rows → (x : Cell) × (cell g c r ≡ some x)
cell-eq_some g c r v h k =
    let (x, e) =
      get_elem?-lt g.cells (r * g.cols + c)
        (omega (arith, slot_in_range r c g.cols g.rows h k, v.cells_size)) in
    (x, cell-eq_get g c r h k ∙ e)

copy_cols-Like : (n col row : ℕ) (g h k : Grid) → Like h k → Like h (copy_cols n col row g k)
unfolding copy_cols
copy_cols-Like zero col row g h k l = l
copy_cols-Like (suc n) col row g h k l = copy_cols-Like n (col + 1) row g h _ (put (cell g col row))
  where
    put : (o : Option Cell) → Like h (elim o [ none ↦ k | some c ↦ set_cell k col row c ])
    put none = l
    put (some c) = record {
      valid = set_cell-IsValid k col row c l.valid;
      same_size = SameSize-trans l.same_size (set_cell-SameSize k col row c);
    }

copy_rows-Like : (n cols row : ℕ) (g h k : Grid) → Like h k → Like h (copy_rows n cols row g k)
unfolding copy_rows
copy_rows-Like zero cols row g h k l = l
copy_rows-Like (suc n) cols row g h k l =
    copy_rows-Like n cols (row + 1) g h _ (copy_cols-Like cols 0 row g h k l)

cell-copy_cols :
    (n col row : ℕ) (g k : Grid) (c r : ℕ)
    → IsValid g
    → IsValid k
    → col + n ≤ g.cols
    → col + n ≤ k.cols
    → row < g.rows
    → row < k.rows
    → c < k.cols
    → r < k.rows
    → cell (copy_cols n col row g k) c r
      ≡ (if r == row && (leb col c && ltb c (col + n)) then cell g c row else cell k c r)
unfolding copy_cols
cell-copy_cols zero col row g k c r v w a b d e hc hr = ground arith
cell-copy_cols (suc n) col row g k c r v w a b d e hc hr =
    let (x, ex) = cell-eq_some g col row v (omega arith) d in
    let k' = set_cell k col row x in
    let same = set_cell-SameSize k col row x in
    rw ex (
      cell-copy_cols n (col + 1) row g k' c r v (set_cell-IsValid k col row x w) (omega arith)
        (omega arith) d (omega arith) (omega arith) (omega arith)
      ∙ ground (
        arith,
        cell-set_cell k col row x c r w (omega arith) e hc hr,
        ex,
        ap (λ i. cell g i row) {x = c} {y = col},
      ))

cell-copy_rows :
    (n cols row : ℕ) (g k : Grid) (c r : ℕ)
    → IsValid g
    → IsValid k
    → cols ≤ g.cols
    → cols ≤ k.cols
    → row + n ≤ g.rows
    → row + n ≤ k.rows
    → c < k.cols
    → r < k.rows
    → cell (copy_rows n cols row g k) c r
      ≡ (if (leb row r && ltb r (row + n)) && ltb c cols then cell g c r else cell k c r)
unfolding copy_rows
cell-copy_rows zero cols row g k c r v w a b d e hc hr = ground arith
cell-copy_rows (suc n) cols row g k c r v w a b d e hc hr =
    let start : Like k k = record {
      valid = w;
      same_size = record { same_cols = refl; same_rows = refl };
    } in
    let l = copy_cols-Like cols 0 row g k k start in
    cell-copy_rows n cols (row + 1) g (copy_cols cols 0 row g k) c r v l.valid a
      (omega (arith, l.same_size.same_cols)) (omega arith) (omega (arith, l.same_size.same_rows))
      (omega (arith, l.same_size.same_cols)) (omega (arith, l.same_size.same_rows))
    ∙ ground (
      arith,
      cell-copy_cols cols 0 row g k c r v w (omega arith) (omega arith) (omega arith) (omega arith)
          hc hr,
      ap (cell g c) {x = r} {y = row},
    )

cell-new_grid :
    (cols rows c r : ℕ) → c < cols → r < rows → cell (new_grid cols rows) c r ≡ some blank
unfolding new_grid
cell-new_grid cols rows c r h k =
    cell-eq_get (new_grid cols rows) c r h k
    ∙ get_elem?-replicate (cols * rows) blank (r * cols + c) (slot_in_range r c cols rows h k)

cell-mark_all_dirty : (g : Grid) (c r : ℕ) → cell (mark_all_dirty g) c r ≡ cell g c r
unfolding mark_all_dirty cell
cell-mark_all_dirty g c r = refl

-- A grid of the new size whose rows are all marked, unless the size is the old one, when nothing changes.
resize-eq :
    (g : Grid) (cols rows : ℕ)
    → ((cols ≡ g.cols) × (rows ≡ g.rows) × (Grid.resize g cols rows ≡ g))
      ⊎ (Grid.resize g cols rows
          ≡ mark_all_dirty (copy_rows (min g.rows rows) (min g.cols cols) 0 g (new_grid cols rows)))
unfolding Grid.resize
resize-eq g cols rows = ground arith

abbrev Resized : Grid → ℕ → ℕ → ℕ → ℕ → Grid → Type 0
Resized g cols rows c r h =
    IsValid h
    × (h.cols ≡ cols)
    × (h.rows ≡ rows)
    × (cell h c r ≡ (if ltb c g.cols && ltb r g.rows then cell g c r else some blank))

copied :
    (g : Grid) (cols rows c r : ℕ)
    → IsValid g
    → c < cols
    → r < rows
    → Resized g cols rows c r
        (mark_all_dirty (copy_rows (min g.rows rows) (min g.cols cols) 0 g (new_grid cols rows)))
unfolding new_grid
copied g cols rows c r v hc hr =
    let k = new_grid cols rows in
    let w = new_grid-IsValid cols rows in
    let n = min g.rows rows in
    let m = min g.cols cols in
    let l =
      copy_rows-Like n m 0 g k k
        (record { valid = w; same_size = record { same_cols = refl; same_rows = refl } }) in
    let sizes = mark_all_dirty_sizes (copy_rows n m 0 g k) in
    (
      mark_all_dirty-IsValid (copy_rows n m 0 g k) l.valid,
      sizes.0 ∙ l.same_size.same_cols,
      sizes.1 ∙ l.same_size.same_rows,
      cell-mark_all_dirty (copy_rows n m 0 g k) c r
          ∙ cell-copy_rows n m 0 g k c r v w (omega arith) (omega arith) (omega arith) (omega arith)
              hc hr
          ∙ ground (arith, cell-new_grid cols rows c r hc hr),
    )

-- `resize` of a valid grid gives a valid grid of the new size, in which every cell that lies in both sizes is the old
-- one, and every other cell is blank.
pub cell-resize :
    (g : Grid) (cols rows c r : ℕ)
    → IsValid g
    → c < cols
    → r < rows
    → IsValid (Grid.resize g cols rows)
      × ((Grid.resize g cols rows).cols ≡ cols)
      × ((Grid.resize g cols rows).rows ≡ rows)
      × (cell (Grid.resize g cols rows) c r
          ≡ (if ltb c g.cols && ltb r g.rows then cell g c r else some blank))
cell-resize g cols rows c r v hc hr = elim (resize-eq g cols rows) [
  | inl (ec, er, e) ↦ subst (Resized g cols rows c r) (sym e) (v, sym ec, sym er, ground arith)
  | inr e ↦ subst (Resized g cols rows c r) (sym e) (copied g cols rows c r v hc hr)
]
