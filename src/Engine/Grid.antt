-- ===== src/Engine/Grid.antt =====
-- rust/choosh-terminal-engine/src/grid.rs: the array of cells, with damage tracking by row. Text is a
-- list of code points. `none` is a panic: an underflow of `u16`. Slices and indices in range are the
-- invariant `IsValid` of `Grid/Cells`; the writes drop what would be out of range.
pub mod Cells
pub mod Rows
pub mod Scroll
pub mod Regions
pub mod Damage
pub mod Resize
use choosh.Prelude.{
  ℕ, zero, suc, ◌+◌, ◌-◌, ◌*◌, min, Bool, true, false, ◌&&◌, ◌||◌, List, [], ◌∷◌, ◌++◌, map, Option,
  none, some, ltb, leb, ◌==◌, if◌then◌else◌, get_elem?, get_or, set, take, drop, replicate,
  write_at,
}
use choosh.Engine.Color.{Color, default_color}

pub record Cell : Type 0 where
  pub text : List ℕ
  pub fg : Color
  pub bg : Color
  pub bold : Bool
  pub italic : Bool
  pub underline : Bool
  pub strikethrough : Bool
  pub inverse : Bool
  pub wide : Bool
  pub wide_continuation : Bool
  pub hyperlink : Option (List ℕ)

-- `Cell::default`
abbrev pub blank : Cell
blank = record {
  text = [];
  fg = default_color;
  bg = default_color;
  bold = false;
  italic = false;
  underline = false;
  strikethrough = false;
  inverse = false;
  wide = false;
  wide_continuation = false;
  hyperlink = none;
}

pub data CursorShape : Type 0 where
  block underline_shape bar : CursorShape

pub record Cursor : Type 0 where
  pub col : ℕ
  pub row : ℕ
  pub visible : Bool
  pub shape : CursorShape
  pub blink : Bool

pub record Grid : Type 0 where
  pub cols : ℕ
  pub rows : ℕ
  pub cells : List Cell
  pub dirty : List Bool

-- `Grid::new`
unfoldable pub new_grid : ℕ → ℕ → Grid
new_grid cols rows = record {
  cols = cols;
  rows = rows;
  cells = replicate (cols * rows) blank;
  dirty = replicate rows true;
}

unfoldable pub index : Grid → ℕ → ℕ → Option ℕ
index g col row = if ltb col g.cols && ltb row g.rows then some (row * g.cols + col) else none

unfoldable pub cell : Grid → ℕ → ℕ → Option Cell
unfolding index
cell g col row = elim (index g col row) [ none ↦ none | some i ↦ get_elem? g.cells i ]

unfoldable pub mark_dirty : Grid → ℕ → Grid
mark_dirty g row = record g { dirty = set g.dirty row true }

unfoldable pub mark_all_dirty : Grid → Grid
mark_all_dirty g = record g { dirty = map (λ _. true) g.dirty }

unfoldable pub is_dirty : Grid → ℕ → Bool
is_dirty g row = get_or g.dirty row false

unfoldable pub clear_dirty : Grid → ℕ → Grid
clear_dirty g row = record g { dirty = set g.dirty row false }

unfoldable pub set_cell : Grid → ℕ → ℕ → Cell → Grid
unfolding index mark_dirty
set_cell g col row c = elim (index g col row) [
  | none ↦ g
  | some i ↦ mark_dirty (record g { cells = set g.cells i c }) row
]

-- `Grid::row`
unfoldable pub row_cells : Grid → ℕ → List Cell
row_cells g row = if leb g.rows row then [] else take g.cols (drop (row * g.cols) g.cells)

unfoldable pub clear_row : Grid → ℕ → Grid
unfolding mark_dirty
clear_row g row =
    if leb g.rows row
    then g
    else mark_dirty (record g { cells = write_at g.cells (row * g.cols) (replicate g.cols blank) })
        row

-- `count` columns from `col` on.
unfoldable pub clear_cols : ℕ → ℕ → ℕ → Grid → Grid
unfolding set_cell
clear_cols zero col row g = g
clear_cols (suc count) col row g = clear_cols count (col + 1) row (set_cell g col row blank)

unfoldable pub clear_row_range : Grid → ℕ → ℕ → ℕ → Grid
unfolding clear_cols
clear_row_range g row from to = clear_cols (min to g.cols - from) from row g

-- One round of the loops of the two scrolls: row `from` is copied over row `row`.
unfoldable pub copy_row : Grid → ℕ → ℕ → Grid
unfolding mark_dirty row_cells
copy_row g row from =
    mark_dirty (record g { cells = write_at g.cells (row * g.cols) (row_cells g from) }) row

unfoldable pub copy_up : ℕ → ℕ → ℕ → Grid → Grid
unfolding copy_row
copy_up zero row count g = g
copy_up (suc n) row count g = copy_up n (row + 1) count (copy_row g row (row + count))

unfoldable pub copy_down : ℕ → ℕ → ℕ → Grid → Grid
unfolding copy_row
copy_down zero row count g = g
copy_down (suc n) row count g = copy_down n (row - 1) count (copy_row g row (row - count))

unfoldable pub clear_rows : ℕ → ℕ → Grid → Grid
unfolding clear_row
clear_rows zero row g = g
clear_rows (suc n) row g = clear_rows n (row + 1) (clear_row g row)

-- `bottom - count` underflows where the whole grid is scrolled out.
unfoldable pub scroll_up : Grid → ℕ → ℕ → ℕ → Option Grid
unfolding copy_up clear_rows
scroll_up g top bottom count =
    let top' = min top (g.rows - 1) in
    let bottom' = min bottom (g.rows - 1) in
    if leb bottom' top'
    then some g
    else let count' = min count (bottom' - top' + 1) in
      if ltb bottom' count'
      then none
      else some (
          clear_rows count' (bottom' - count' + 1)
            (copy_up (bottom' - count' + 1 - top') top' count' g))

-- The loop goes down from `bottom` while `row >= top + count`, and steps below row 0 where
-- `top + count` is 0.
unfoldable pub scroll_down : Grid → ℕ → ℕ → ℕ → Option Grid
unfolding copy_down clear_rows
scroll_down g top bottom count =
    let top' = min top (g.rows - 1) in
    let bottom' = min bottom (g.rows - 1) in
    if leb bottom' top'
    then some g
    else let count' = min count (bottom' - top' + 1) in
      if top' + count' == 0
      then none
      else some
          (clear_rows count' top' (copy_down (bottom' + 1 - (top' + count')) bottom' count' g))

-- `next.set_cell(col, row, cell)` for the `count` columns from `col` on of one row.
unfoldable pub copy_cols : ℕ → ℕ → ℕ → Grid → Grid → Grid
unfolding cell set_cell
copy_cols zero col row g next = next
copy_cols (suc count) col row g next =
    copy_cols count (col + 1) row g
      (elim (cell g col row) [ none ↦ next | some c ↦ set_cell next col row c ])

unfoldable pub copy_rows : ℕ → ℕ → ℕ → Grid → Grid → Grid
unfolding copy_cols
copy_rows zero cols row g next = next
copy_rows (suc count) cols row g next =
    copy_rows count cols (row + 1) g (copy_cols cols 0 row g next)

unfoldable pub resize : Grid → ℕ → ℕ → Grid
unfolding copy_rows mark_all_dirty new_grid
resize g cols rows =
    if cols == g.cols && rows == g.rows
    then g
    else mark_all_dirty (copy_rows (min g.rows rows) (min g.cols cols) 0 g (new_grid cols rows))

-- The text of one row, before its end is trimmed.
unfoldable pub line_text : List Cell → List ℕ
line_text [] = []
line_text (c ∷ cs) =
    let rest = line_text cs in
    if c.wide_continuation then rest else (elim c.text [ [] ↦ b' ' ∷ [] | x ∷ xs ↦ x ∷ xs ]) ++ rest

-- `while line.ends_with(' ') { line.pop(); }`
unfoldable pub trim_end : List ℕ → List ℕ
trim_end [] = []
trim_end (x ∷ xs) = elim (trim_end xs) [
  | [] ↦ if x == b' ' then [] else x ∷ []
  | y ∷ ys ↦ x ∷ y ∷ ys
]

-- `lines.join("\n")`
unfoldable pub join_lines : List (List ℕ) → List ℕ
join_lines [] = []
join_lines (l ∷ []) = l
join_lines (l ∷ m ∷ ls) = l ++ b'\n' ∷ join_lines (m ∷ ls)

unfoldable pub text_lines : ℕ → ℕ → Grid → List (List ℕ)
unfolding row_cells line_text trim_end
text_lines zero row g = []
text_lines (suc n) row g = trim_end (line_text (row_cells g row)) ∷ text_lines n (row + 1) g

unfoldable pub visible_text : Grid → List ℕ
unfolding text_lines join_lines
visible_text g = join_lines (text_lines g.rows 0 g)
