-- ===== src/Engine/Terminal.antt =====
-- rust/choosh-terminal-engine/src/terminal.rs: the state of the terminal, and the operations on it that
-- the escape sequences share. `none` is a panic of the grid below.
pub mod Sgr
pub mod SgrLoop
pub mod Styles
pub mod Csi
pub mod Perform
pub mod Invariant
pub mod Print
pub mod Dispatch
pub mod Safety
pub mod Runs
pub mod Panics
pub mod Redraw
pub mod Repaint
pub mod Screens
pub mod Damage
pub mod Resizing
pub mod Deletion
use choosh.Prelude.{
  ℕ, zero, suc, ◌+◌, ◌-◌, min, max, Bool, true, false, not, ◌&&◌, List, [], ◌∷◌, ◌++◌, Option, none,
  some, ltb, leb, ◌==◌, if◌then◌else◌, u16_max,
}
use choosh.Engine.Color.{Color, default_color}
use choosh.Engine.Modes.{Modes, default_modes}
use choosh.Engine.Grid.{
  Cell, blank, Cursor, block, Grid, new_grid, cell, set_cell, clear_dirty, mark_all_dirty,
  scroll_up, scroll_down,
}
use choosh.Engine.Grid

pub record Pen : Type 0 where
  pub fg : Color
  pub bg : Color
  pub bold : Bool
  pub italic : Bool
  pub underline : Bool
  pub strikethrough : Bool
  pub inverse : Bool
  pub hyperlink : Option (List ℕ)

-- `Pen::default`, but for the hyperlink.
abbrev pub default_pen : Option (List ℕ) → Pen
default_pen link = record {
  fg = default_color;
  bg = default_color;
  bold = false;
  italic = false;
  underline = false;
  strikethrough = false;
  inverse = false;
  hyperlink = link;
}

pub record SavedCursor : Type 0 where
  pub col : ℕ
  pub row : ℕ

pub record Terminal : Type 0 where
  pub primary : Grid
  pub alt : Grid
  pub cursor : Cursor
  pub saved_cursor : SavedCursor
  pub pen : Pen
  pub modes : Modes
  pub scroll_top : ℕ
  pub scroll_bottom : ℕ
  pub title : List ℕ
  pub pending_bell : Bool

-- What the engine takes from outside: the width of a character (the crate unicode-width; `none` for a
-- control character) and the lossy decoding of UTF-8.
pub record Unicode : Type 0 where
  pub width : ℕ → Option ℕ
  pub from_utf8_lossy : List ℕ → List ℕ

abbrev pub saturating_add : ℕ → ℕ → ℕ
saturating_add a b = min (a + b) u16_max

-- `Terminal::new`
unfoldable pub new_terminal : ℕ → ℕ → Terminal
new_terminal cols rows =
    let cols' = max cols 1 in
    let rows' = max rows 1 in
    record {
      primary = new_grid cols' rows';
      alt = new_grid cols' rows';
      cursor = record { col = 0; row = 0; visible = true; shape = block; blink = true };
      saved_cursor = record { col = 0; row = 0 };
      pen = default_pen none;
      modes = default_modes;
      scroll_top = 0;
      scroll_bottom = rows' - 1;
      title = [];
      pending_bell = false;
    }

-- The active grid: `grid` to read, and `with_grid` for what `grid_mut` writes.
unfoldable pub grid : Terminal → Grid
grid t = if t.modes.alt_screen_active then t.alt else t.primary

unfoldable pub with_grid : Terminal → Grid → Terminal
with_grid t g = if t.modes.alt_screen_active then record t { alt = g } else record t { primary = g }

abbrev pub on_grid : (Grid → Grid) → Terminal → Terminal
on_grid f t = with_grid t (f (grid t))

abbrev pub on_grid? : (Grid → Option Grid) → Terminal → Option Terminal
on_grid? f t = elim (f (grid t)) [ none ↦ none | some g ↦ some (with_grid t g) ]

pub clear_row_dirty : Terminal → ℕ → Terminal
clear_row_dirty t row = on_grid (λ g. clear_dirty g row) t

pub mark_all_rows_dirty : Terminal → Terminal
mark_all_rows_dirty t = on_grid mark_all_dirty t

-- `take_bell`: whether the bell rang since the last call.
pub take_bell : Terminal → Terminal × Bool
take_bell t = (record t { pending_bell = false }, t.pending_bell)

abbrev pub move_to : Terminal → ℕ → ℕ → Terminal
move_to t col row = record t { cursor = record t.cursor { col = col; row = row } }

abbrev pub move_col : Terminal → ℕ → Terminal
move_col t col = record t { cursor = record t.cursor { col = col } }

abbrev pub move_row : Terminal → ℕ → Terminal
move_row t row = record t { cursor = record t.cursor { row = row } }

-- `Terminal::resize`
unfoldable pub resize : Terminal → ℕ → ℕ → Terminal
resize t cols rows =
    let cols' = max cols 1 in
    let rows' = max rows 1 in
    move_to
      (record t {
        primary = Grid.resize t.primary cols' rows';
        alt = Grid.resize t.alt cols' rows';
        scroll_top = 0;
        scroll_bottom = rows' - 1;
      })
      (min t.cursor.col (cols' - 1)) (min t.cursor.row (rows' - 1))

unfoldable pub clamp_cursor : Terminal → Terminal
clamp_cursor t =
    move_to t (min t.cursor.col ((grid t).cols - 1)) (min t.cursor.row ((grid t).rows - 1))

unfoldable pub line_feed : Terminal → Option Terminal
line_feed t =
    if t.cursor.row == t.scroll_bottom
    then on_grid? (λ g. scroll_up g t.scroll_top t.scroll_bottom 1) t
    else if ltb (t.cursor.row + 1) (grid t).rows
    then some (move_row t (t.cursor.row + 1))
    else some t

unfoldable pub reverse_index : Terminal → Option Terminal
reverse_index t =
    if t.cursor.row == t.scroll_top
    then on_grid? (λ g. scroll_down g t.scroll_top t.scroll_bottom 1) t
    else if ltb 0 t.cursor.row
    then some (move_row t (t.cursor.row - 1))
    else some t

abbrev pub carriage_return : Terminal → Terminal
carriage_return t = move_col t 0

-- The branch of `put_char` for a combining mark.
unfoldable pub put_combining : Terminal → ℕ → Terminal
put_combining t ch =
    let before = t.cursor.col - 1 in
    let row = t.cursor.row in
    let col : ℕ = elim (cell (grid t) before row) [
      | none ↦ before
      | some c ↦ if c.wide_continuation then before - 1 else before
    ] in
    elim (cell (grid t) col row) [
      | none ↦ t
      | some c ↦ on_grid (λ g. set_cell g col row (record c { text = c.text ++ ch ∷ [] })) t
    ]

-- The wrap before a character is written past the last column.
unfoldable pub wrap_cursor : Terminal → Option Terminal
wrap_cursor t =
    let cols = (grid t).cols in
    if leb cols t.cursor.col
    then (if t.modes.autowrap then line_feed (move_col t 0) else some (move_col t (cols - 1)))
    else some t

abbrev pub pen_cell : Pen → ℕ → Bool → Cell
pen_cell pen ch wide = record {
  text = ch ∷ [];
  fg = pen.fg;
  bg = pen.bg;
  bold = pen.bold;
  italic = pen.italic;
  underline = pen.underline;
  strikethrough = pen.strikethrough;
  inverse = pen.inverse;
  wide = wide;
  wide_continuation = false;
  hyperlink = pen.hyperlink;
}

-- The cell is written at the cursor, and behind it the second half of a wide one.
unfoldable pub write_cell : Terminal → ℕ → Bool → Terminal
write_cell t ch wide =
    let first = on_grid (λ g. set_cell g t.cursor.col t.cursor.row (pen_cell t.pen ch wide)) t in
    if wide && ltb (t.cursor.col + 1) (grid t).cols
    then on_grid
        (λ g.
          set_cell g (t.cursor.col + 1) t.cursor.row (record blank { wide_continuation = true }))
        first
    else first

-- The rest of `put_char`, once the cursor is on a column of the grid.
unfoldable pub write_char : Terminal → ℕ → ℕ → Terminal
write_char t ch width =
    move_col (write_cell t ch (width == 2))
      (saturating_add t.cursor.col (if leb width u16_max then width else 1))

abbrev pub width_or_one : Option ℕ → ℕ
width_or_one none = 1
width_or_one (some w) = w

unfoldable pub put_char : Unicode → Terminal → ℕ → Option Terminal
put_char u t ch =
    let width = width_or_one (u.width ch) in
    if width == 0
    then some (put_combining t ch)
    else elim (wrap_cursor t) [ none ↦ none | some t' ↦ some (write_char t' ch width) ]
