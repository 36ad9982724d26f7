-- ===== src/Engine/Grid/Rows.antt =====
-- Rows of the grid (rust/choosh-terminal-engine/src/grid.rs): clearing a row or a part of one, and copying
-- one row over another.
use choosh.Prelude.{
  ℕ, zero, suc, ◌+◌, ◌-◌, ◌≤◌, ◌<◌, ◌≡◌, refl, ◌∙◌, min, ◌&&◌, inl, inr, List, Option, some, ltb,
  leb, ◌==◌, if◌then◌else◌, length, get_elem?, replicate, arith, length-replicate,
  get_elem?-replicate, Bool-cases, ==_iff,
}
use choosh.Engine.Grid.{
  Cell, blank, Grid, cell, set_cell, row_cells, clear_row, clear_cols, clear_row_range, copy_row,
}
use choosh.Engine.Grid.Cells.{
  IsValid, lt_or_ge, set_cell-IsValid, cell-set_cell, row_cells-get, length-row_cells, write_row,
  write_row-IsValid, cell-write_row_self, cell-write_row_ne,
}

-- What no operation but a resize changes.
pub record SameSize (g h : Grid) : Type 0 where
  pub same_cols : h.cols ≡ g.cols
  pub same_rows : h.rows ≡ g.rows

pub set_cell-SameSize : (g : Grid) (c r : ℕ) (x : Cell) → SameSize g (set_cell g c r x)
unfolding set_cell
set_cell-SameSize g c r x = ground arith

pub copy_row-IsValid : (g : Grid) (r from : ℕ) → IsValid g → IsValid (copy_row g r from)
unfolding copy_row
copy_row-IsValid g r from v = write_row-IsValid g r (row_cells g from) v

pub copy_row-SameSize : (g : Grid) (r from : ℕ) → SameSize g (copy_row g r from)
unfolding copy_row
copy_row-SameSize g r from = record { same_cols = refl; same_rows = refl }

copy_row-write : (g : Grid) (r from : ℕ) → copy_row g r from ≡ write_row g r (row_cells g from)
unfolding copy_row
copy_row-write g r from = refl

-- Overwriting row `r` by cells that read as `read` does.
cell-write_row :
    (g : Grid) (r : ℕ) (xs : List Cell) (read : Option Cell) (c r' : ℕ)
    → IsValid g
    → length xs ≡ g.cols
    → get_elem? xs c ≡ read
    → r < g.rows
    → c < g.cols
    → cell (write_row g r xs) c r' ≡ (if r == r' then read else cell g c r')
cell-write_row g r xs read c r' v l e hr hc = elim (Bool-cases (r == r')) [
  | inl same ↦ rw (same, ← (==_iff r r').0 same) (cell-write_row_self g r xs c v l hr hc ∙ e)
  | inr other ↦ rw other (cell-write_row_ne g r xs c r' l (λ q. ground arith) hc)
]

-- Row `r` then reads as row `from` did, and every other row as it did.
pub cell-copy_row :
    (g : Grid) (r from c r' : ℕ)
    → IsValid g
    → r < g.rows
    → from < g.rows
    → c < g.cols
    → cell (copy_row g r from) c r' ≡ (if r == r' then cell g c from else cell g c r')
cell-copy_row g r from c r' v hr hf hc = rw (copy_row-write g r from) (
    cell-write_row g r (row_cells g from) (cell g c from) c r' v (length-row_cells g from v hf)
      (row_cells-get g from c hc hf) hr hc)

pub clear_row-IsValid : (g : Grid) (r : ℕ) → IsValid g → IsValid (clear_row g r)
unfolding clear_row
clear_row-IsValid g r v = ground (arith, write_row-IsValid g r (replicate g.cols blank) v)

pub clear_row-SameSize : (g : Grid) (r : ℕ) → SameSize g (clear_row g r)
unfolding clear_row
clear_row-SameSize g r = ground arith

clear_row-write :
    (g : Grid) (r : ℕ) → r < g.rows → clear_row g r ≡ write_row g r (replicate g.cols blank)
unfolding clear_row
clear_row-write g r h = ground arith

-- Row `r` is then blank, and every other row as it was.
pub cell-clear_row :
    (g : Grid) (r c r' : ℕ)
    → IsValid g
    → r < g.rows
    → c < g.cols
    → cell (clear_row g r) c r' ≡ (if r == r' then some blank else cell g c r')
cell-clear_row g r c r' v hr hc = rw (clear_row-write g r hr) (
    cell-write_row g r (replicate g.cols blank) (some blank) c r' v (length-replicate g.cols blank)
      (get_elem?-replicate g.cols blank c hc) hr hc)

pub clear_cols-IsValid : (n col row : ℕ) (g : Grid) → IsValid g → IsValid (clear_cols n col row g)
unfolding clear_cols
clear_cols-IsValid zero col row g v = v
clear_cols-IsValid (suc n) col row g v =
    clear_cols-IsValid n (col + 1) row (set_cell g col row blank)
      (set_cell-IsValid g col row blank v)

pub SameSize-trans : {g h k : Grid} → SameSize g h → SameSize h k → SameSize g k
SameSize-trans a b = record {
  same_cols = b.same_cols ∙ a.same_cols;
  same_rows = b.same_rows ∙ a.same_rows;
}

pub clear_cols-SameSize : (n col row : ℕ) (g : Grid) → SameSize g (clear_cols n col row g)
unfolding clear_cols
clear_cols-SameSize zero col row g = record { same_cols = refl; same_rows = refl }
clear_cols-SameSize (suc n) col row g =
    SameSize-trans (set_cell-SameSize g col row blank)
      (clear_cols-SameSize n (col + 1) row (set_cell g col row blank))

cell-clear_cols :
    (n col row : ℕ) (g : Grid) (c r : ℕ)
    → IsValid g
    → row < g.rows
    → col + n ≤ g.cols
    → c < g.cols
    → r < g.rows
    → cell (clear_cols n col row g) c r
      ≡ (if row == r && (leb col c && ltb c (col + n)) then some blank else cell g c r)
unfolding clear_cols
cell-clear_cols zero col row g c r v hrow hn hc hr = ground arith
cell-clear_cols (suc n) col row g c r v hrow hn hc hr =
    let s = set_cell-SameSize g col row blank in
    cell-clear_cols n (col + 1) row (set_cell g col row blank) c r
      (set_cell-IsValid g col row blank v) (omega arith) (omega arith) (omega arith) (omega arith)
    ∙ ground (arith, cell-set_cell g col row blank c r v (omega arith) hrow hc hr)

-- `clear_row_range` blanks exactly the columns from `from` on and before `to` (and before the edge of the
-- grid) of its row.
pub cell-clear_row_range :
    (g : Grid) (row from to c r : ℕ)
    → IsValid g
    → row < g.rows
    → c < g.cols
    → r < g.rows
    → cell (clear_row_range g row from to) c r
      ≡ (if row == r && (leb from c && ltb c to) then some blank else cell g c r)
unfolding clear_row_range
cell-clear_row_range g row from to c r v hrow hc hr = elim (lt_or_ge from (min to g.cols)) [
  | inl some_cols ↦
      cell-clear_cols (min to g.cols - from) from row g c r v hrow (omega arith) hc hr
      ∙ ground arith
  | inr no_cols ↦
      let nothing : min to g.cols - from ≡ 0 = omega arith in
      rw nothing (unfold clear_cols in ground arith)
]

pub clear_row_range-IsValid :
    (g : Grid) (row from to : ℕ) → IsValid g → IsValid (clear_row_range g row from to)
unfolding clear_row_range
clear_row_range-IsValid g row from to v = clear_cols-IsValid (min to g.cols - from) from row g v

pub clear_row_range-SameSize :
    (g : Grid) (row from to : ℕ) → SameSize g (clear_row_range g row from to)
unfolding clear_row_range
clear_row_range-SameSize g row from to = clear_cols-SameSize (min to g.cols - from) from row g
