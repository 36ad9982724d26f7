-- ===== src/Engine/Terminal/Deletion.antt =====
-- The deletion of characters (`P` in `csi_dispatch` of rust/choosh-terminal-engine/src/terminal.rs): where each
-- cell of the row of the cursor comes from.
use choosh.Prelude.{
  ℕ, suc, ◌+◌, ◌-◌, ◌≤◌, ◌<◌, ◌≡◌, refl, ap, ◌∙◌, subst, min, ◌&&◌, [], ◌∷◌, List, some, ltb, leb,
  ◌==◌, if◌then◌else◌, u16_max, arith, drop, length, get_elem?, length-drop, get_elem?-drop,
}
use choosh.Engine.Grid.{Cell, blank, Grid, cell, set_cell, clear_row_range, row_cells}
use choosh.Engine.Grid.Cells.{
  IsValid as GridIsValid, set_cell-IsValid, cell-set_cell, row_cells-get, length-row_cells,
}
use choosh.Engine.Grid.Rows.{set_cell-SameSize, cell-clear_row_range}
use choosh.Engine.Terminal.{Terminal, grid, saturating_add}
use choosh.Engine.Terminal.Csi.{write_cells, delete_chars}
use choosh.Engine.Terminal.Invariant.{IsValid, grid-GridIsValid, grid-cols, grid-rows}
use choosh.Engine.Terminal.Redraw.{grid-with_grid}
use choosh.Engine.Terminal.Repaint.{write_cells-Tracks}

get_elem?-past :
    (x : Cell) (cs : List Cell) (c col : ℕ)
    → col < c
    → get_elem? (x ∷ cs) (c - col) ≡ get_elem? cs (c - (col + 1))
get_elem?-past x cs c col h =
    subst (λ n. get_elem? (x ∷ cs) n ≡ get_elem? cs (c - (col + 1))) {x = suc (c - (col + 1))}
      {y = c - col} (omega arith) refl

get_elem?-here :
    (x : Cell) (cs : List Cell) (c col : ℕ) → c ≡ col → get_elem? (x ∷ cs) (c - col) ≡ some x
get_elem?-here x cs c col h =
    subst (λ n. get_elem? (x ∷ cs) n ≡ some x) {x = 0} {y = c - col} (omega arith) refl

cell-write_cells :
    (cs : List Cell) (col row : ℕ) (g : Grid) (c r : ℕ)
    → GridIsValid g
    → (0 < length cs → col + length cs ≤ g.cols)
    → row < g.rows
    → c < g.cols
    → r < g.rows
    → cell (write_cells cs col row g) c r ≡ (
        if row == r && (leb col c && ltb c (col + length cs))
        then get_elem? cs (c - col)
        else cell g c r)
unfolding write_cells
cell-write_cells [] col row g c r v h k hc hr = ground arith
cell-write_cells (x ∷ cs) col row g c r v h k hc hr =
    let same = set_cell-SameSize g col row x in
    let fits = h (omega arith) in
    cell-write_cells cs (col + 1) row (set_cell g col row x) c r (set_cell-IsValid g col row x v)
      (λ _. omega arith) (omega arith) (omega arith) (omega arith)
    ∙ ground (
      arith,
      cell-set_cell g col row x c r v (omega arith) k hc hr,
      get_elem?-past x cs c col,
      get_elem?-here x cs c col,
    )

-- The cells behind the deleted ones, which move to the column of the cursor.
abbrev moved_tail : Grid → ℕ → ℕ → ℕ → List Cell
moved_tail g col row n = drop (min (saturating_add col n) g.cols) (row_cells g row)

moved_tail-length :
    (g : Grid) (col row n : ℕ)
    → GridIsValid g
    → row < g.rows
    → length (moved_tail g col row n) ≡ g.cols - min (saturating_add col n) g.cols
moved_tail-length g col row n v h =
    length-drop (min (saturating_add col n) g.cols) (row_cells g row)
    ∙ ap (λ k. k - min (saturating_add col n) g.cols) (length-row_cells g row v h)

moved_tail-get :
    (g : Grid) (col row n i : ℕ)
    → row < g.rows
    → col + n + i < g.cols
    → g.cols ≤ u16_max
    → get_elem? (moved_tail g col row n) i ≡ cell g (col + n + i) row
moved_tail-get g col row n i h k fits =
    get_elem?-drop (min (saturating_add col n) g.cols) (row_cells g row) i
    ∙ ap (get_elem? (row_cells g row)) {y = col + n + i} (omega arith)
    ∙ row_cells-get g row (col + n + i) k h

-- The same on the grid.
cell-deleted :
    (g : Grid) (col row n c r : ℕ)
    → GridIsValid g
    → g.cols ≤ u16_max
    → row < g.rows
    → 0 < n
    → c < g.cols
    → r < g.rows
    → let w = write_cells (moved_tail g col row n) col row g in
      cell (clear_row_range w row (g.cols - n) g.cols) c r ≡ (
        if row == r
        then if leb (g.cols - n) c
          then some blank
          else if leb col c
          then cell g (c + n) r
          else cell g c r
        else cell g c r)
cell-deleted g col row n c r v fits hrow hn hc hr =
    let tail = moved_tail g col row n in
    let len = moved_tail-length g col row n v hrow in
    let w = write_cells-Tracks tail col row g v in
    let size = w.like.same_size in
    let written = cell-write_cells tail col row g c r v (λ h. omega (arith, len)) hrow hc hr in
    let get = moved_tail-get g col row n (c - col) hrow in
    cell-clear_row_range (write_cells tail col row g) row (g.cols - n) g.cols c r w.like.valid
      (omega arith) (omega arith) (omega arith)
    ∙ ground (
      arith,
      written,
      len,
      get,
      ap (λ k. cell g k row) {x = col + n + (c - col)} {y = c + n},
      ap (λ k. cell g (c + n) k) {x = row} {y = r},
    )

-- `P` with a count `n` of one or more, from a valid terminal: in the row of the cursor the last `n` columns become blank, each
-- column from the cursor on that is left takes the cell `n` to its right, and those before the cursor stay, but
-- for the ones that are among the last `n`. The other rows do not change.
pub cell-delete_chars :
    (t : Terminal) (n c r : ℕ)
    → IsValid t
    → 0 < n
    → c < (grid t).cols
    → r < (grid t).rows
    → cell (grid (delete_chars t n)) c r ≡ (
        if t.cursor.row == r
        then if leb ((grid t).cols - n) c
          then some blank
          else if leb t.cursor.col c
          then cell (grid t) (c + n) r
          else cell (grid t) c r
        else cell (grid t) c r)
unfolding delete_chars
cell-delete_chars t n c r v hn hc hr =
    let g = grid t in
    let tail = moved_tail g t.cursor.col t.cursor.row n in
    ap (λ h. cell h c r)
      (grid-with_grid t (
        clear_row_range (write_cells tail t.cursor.col t.cursor.row g) t.cursor.row (g.cols - n)
          g.cols))
    ∙ cell-deleted g t.cursor.col t.cursor.row n c r (grid-GridIsValid t v.shape)
        (omega (arith, grid-cols t v.shape, v.shape.cols_fit))
        (omega (arith, grid-rows t v.shape, v.row_fits)) hn hc hr
