-- ===== src/Engine/Grid/Cells.antt =====
-- The cells of the grid (rust/choosh-terminal-engine/src/grid.rs): the flat array as a function of column
-- and row, its invariant, and what each write of one cell or one row does to that function.
use choosh.Prelude.{
  ℕ, ◌+◌, ◌*◌, ◌≤◌, ◌<◌, ◌≡◌, ◌≢◌, true, ◌&&◌, ◌⊎◌, inl, inr, List, some, ◌==◌, if◌then◌else◌,
  length, get_elem?, drop, write_at, arith, length-set, length-take, length-drop, length-replicate,
  length-write_at, get_elem?-set_self, get_elem?-set_ne, get_elem?-write_at,
  get_elem?-write_at_before, get_elem?-write_at_after, get_elem?-take, get_elem?-drop,
}
use choosh.Engine.Grid.{Cell, blank, Grid, new_grid, cell, mark_dirty, set_cell, row_cells}

pub record IsValid (g : Grid) : Type 0 where
  pub cells_size : length g.cells ≡ g.cols * g.rows
  pub dirty_size : length g.dirty ≡ g.rows

pub new_grid-IsValid : (cols rows : ℕ) → IsValid (new_grid cols rows)
unfolding new_grid
new_grid-IsValid cols rows = record {
  cells_size = length-replicate (cols * rows) blank;
  dirty_size = length-replicate rows true;
}

pub slot_in_range : (r c w h : ℕ) → c < w → r < h → r * w + c < w * h
slot_in_range r c w h p q = grind arith

row_in_range : (r w h : ℕ) → r < h → r * w + w ≤ w * h
row_in_range r w h q = grind arith

slot_before : (r r' c c' w : ℕ) → c < w → r < r' → r * w + c < r' * w
slot_before r r' c c' w p q = grind arith

slot_injective : (r r' c c' w : ℕ) → c < w → c' < w → r * w + c ≡ r' * w + c' → (r ≡ r') × (c ≡ c')
slot_injective r r' c c' w p q e =
    ground (arith, slot_before r r' c c' w p, slot_before r' r c' c w q)

slot_after : (r r' w : ℕ) → r < r' → r * w + w ≤ r' * w
slot_after r r' w q = grind arith

pub lt_or_ge : (a b : ℕ) → (a < b) ⊎ (b ≤ a)
lt_or_ge a b = omega arith

pub cell-eq_get :
    (g : Grid) (c r : ℕ) → c < g.cols → r < g.rows → cell g c r ≡ get_elem? g.cells (r * g.cols + c)
unfolding cell
cell-eq_get g c r h k = ground arith

pub set_cell-IsValid : (g : Grid) (c r : ℕ) (x : Cell) → IsValid g → IsValid (set_cell g c r x)
unfolding set_cell
set_cell-IsValid g c r x v =
    ground (arith, length-set g.cells (r * g.cols + c) x, length-set g.dirty r true)

pub mark_dirty-IsValid : (g : Grid) (r : ℕ) → IsValid g → IsValid (mark_dirty g r)
unfolding mark_dirty
mark_dirty-IsValid g r v = ground (arith, length-set g.dirty r true)

-- A write is read back at its place, and changes no other place.
pub cell-set_cell :
    (g : Grid) (c r : ℕ) (x : Cell) (c' r' : ℕ)
    → IsValid g
    → c < g.cols
    → r < g.rows
    → c' < g.cols
    → r' < g.rows
    → cell (set_cell g c r x) c' r' ≡ (if c == c' && r == r' then some x else cell g c' r')
unfolding cell set_cell
cell-set_cell g c r x c' r' v hc hr hc' hr' = ground (
  arith,
  slot_in_range r c g.cols g.rows hc hr,
  slot_injective r r' c c' g.cols hc hc',
  get_elem?-set_self g.cells (r * g.cols + c) x,
  get_elem?-set_ne g.cells {i = r * g.cols + c} {j = r' * g.cols + c'} x,
)

pub row_cells-get :
    (g : Grid) (r c : ℕ) → c < g.cols → r < g.rows → get_elem? (row_cells g r) c ≡ cell g c r
unfolding row_cells cell
row_cells-get g r c hc hr = ground (
  arith,
  get_elem?-take g.cols (drop (r * g.cols) g.cells) c hc,
  get_elem?-drop (r * g.cols) g.cells c,
)

pub length-row_cells : (g : Grid) (r : ℕ) → IsValid g → r < g.rows → length (row_cells g r) ≡ g.cols
unfolding row_cells
length-row_cells g r v h = ground (
  arith,
  length-take g.cols (drop (r * g.cols) g.cells),
  length-drop (r * g.cols) g.cells,
  row_in_range r g.cols g.rows h,
)

-- A whole row is overwritten: the common part of `clear_row` and of the rounds of the scrolls.
abbrev pub write_row : Grid → ℕ → List Cell → Grid
write_row g r xs = mark_dirty (record g { cells = write_at g.cells (r * g.cols) xs }) r

pub write_row-IsValid : (g : Grid) (r : ℕ) (xs : List Cell) → IsValid g → IsValid (write_row g r xs)
unfolding mark_dirty
write_row-IsValid g r xs v =
    ground (arith, length-set g.dirty r true, length-write_at g.cells (r * g.cols) xs)

pub cell-write_row_self :
    (g : Grid) (r : ℕ) (xs : List Cell) (c : ℕ)
    → IsValid g
    → length xs ≡ g.cols
    → r < g.rows
    → c < g.cols
    → cell (write_row g r xs) c r ≡ get_elem? xs c
unfolding cell mark_dirty
cell-write_row_self g r xs c v l hr hc =
    ground (arith, row_in_range r g.cols g.rows hr, get_elem?-write_at g.cells (r * g.cols) xs c)

pub cell-write_row_ne :
    (g : Grid) (r : ℕ) (xs : List Cell) (c r' : ℕ)
    → length xs ≡ g.cols
    → r ≢ r'
    → c < g.cols
    → cell (write_row g r xs) c r' ≡ cell g c r'
unfolding cell mark_dirty
cell-write_row_ne g r xs c r' l ne hc = elim (lt_or_ge r' r) [
  | inl before ↦ ground (
    arith,
    slot_before r' r c 0 g.cols hc before,
    get_elem?-write_at_before g.cells (r * g.cols) xs (r' * g.cols + c),
  )
  | inr after ↦ ground (
    arith,
    slot_after r r' g.cols (omega arith),
    get_elem?-write_at_after g.cells (r * g.cols) xs (r' * g.cols + c),
  )
]
