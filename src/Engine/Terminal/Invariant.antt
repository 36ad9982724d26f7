-- ===== src/Engine/Terminal/Invariant.antt =====
-- The invariant of the terminal of rust/choosh-terminal-engine/src/terminal.rs, and the operations that the
-- sequences share.
use choosh.Prelude.{
  ℕ, ◌+◌, ◌≤◌, ◌<◌, ◌≡◌, refl, Option, none, some, ltb, ◌==◌, u16_max, arith, if_split, ltb→lt,
}
use choosh.Engine.Grid.{Cell, Grid, set_cell, scroll_up, scroll_down}
use choosh.Engine.Grid.Cells.{IsValid as GridIsValid, set_cell-IsValid}
use choosh.Engine.Grid.Rows.{set_cell-SameSize}
use choosh.Engine.Grid.Scroll.{Like}
use choosh.Engine.Grid.Regions.{scroll_up_lem, scroll_down_lem}
use choosh.Engine.Terminal.{
  Terminal, grid, with_grid, move_to, clamp_cursor, line_feed, reverse_index,
}

-- The grids and the scroll region: both grids are valid and of one size, with a row and a column at
-- least, and the scroll region lies in them.
pub record Shape (t : Terminal) : Type 0 where
  pub primary_valid : GridIsValid t.primary
  pub alt_valid : GridIsValid t.alt
  pub alt_cols : t.alt.cols ≡ t.primary.cols
  pub alt_rows : t.alt.rows ≡ t.primary.rows
  pub some_cols : 0 < t.primary.cols
  pub some_rows : 0 < t.primary.rows
  pub cols_fit : t.primary.cols ≤ u16_max
  pub rows_fit : t.primary.rows ≤ u16_max
  pub region : t.scroll_top ≤ t.scroll_bottom
  pub region_fits : t.scroll_bottom < t.primary.rows

-- Moreover the cursor stands on a row of the grid, and at most three columns past the last one.
pub record IsValid (t : Terminal) : Type 0 where
  pub shape : Shape t
  pub row_fits : t.cursor.row < t.primary.rows
  pub col_fits : t.cursor.col ≤ t.primary.cols + 2

-- What holds of the terminal that an operation leaves, if it does not panic.
abbrev pub Safe : (Terminal → Type 0) → Option Terminal → Type 0
Safe P none = Unit {0}
Safe P (some t) = P t

pub grid-GridIsValid : (t : Terminal) → Shape t → GridIsValid (grid t)
unfolding grid
grid-GridIsValid t s = ground (arith, s.primary_valid, s.alt_valid)

pub grid-cols : (t : Terminal) → Shape t → (grid t).cols ≡ t.primary.cols
unfolding grid
grid-cols t s = ground arith

pub grid-rows : (t : Terminal) → Shape t → (grid t).rows ≡ t.primary.rows
unfolding grid
grid-rows t s = ground arith

pub with_grid-Shape : (t : Terminal) (g : Grid) → Shape t → Like (grid t) g → Shape (with_grid t g)
unfolding grid with_grid
with_grid-Shape t g s l = ground arith

-- A write to the active grid leaves the rest of the terminal alone.
pub with_grid_rest :
    (t : Terminal) (g : Grid)
    → ((with_grid t g).cursor ≡ t.cursor)
      × ((with_grid t g).saved_cursor ≡ t.saved_cursor)
      × ((with_grid t g).modes ≡ t.modes)
      × ((with_grid t g).scroll_top ≡ t.scroll_top)
      × ((with_grid t g).scroll_bottom ≡ t.scroll_bottom)
unfolding with_grid
with_grid_rest t g = ground arith

-- Its size is that of the grid that was written.
pub with_grid_size :
    (t : Terminal) (g : Grid)
    → Shape t
    → Like (grid t) g
    → ((with_grid t g).primary.cols ≡ t.primary.cols)
      × ((with_grid t g).primary.rows ≡ t.primary.rows)
unfolding grid with_grid
with_grid_size t g s l = ground arith

pub with_grid-IsValid :
    (t : Terminal) (g : Grid) → IsValid t → Like (grid t) g → IsValid (with_grid t g)
with_grid-IsValid t g v l =
    let shape = with_grid-Shape t g v.shape l in
    let size = with_grid_size t g v.shape l in
    let cursor = (with_grid_rest t g).0 in
    record { shape = shape; row_fits = ground arith; col_fits = ground arith }

pub scroll_up-Like :
    (t : Terminal) (top bottom count : ℕ) (g : Grid)
    → Shape t
    → 0 < count
    → scroll_up (grid t) top bottom count ≡ some g
    → Like (grid t) g
scroll_up-Like t top bottom count g s h e =
    (scroll_up_lem top bottom count 0 0 (grid-GridIsValid t s) h e
      (omega (arith, grid-cols t s, s.some_cols))).0

pub scroll_down-Like :
    (t : Terminal) (top bottom count : ℕ) (g : Grid)
    → Shape t
    → 0 < count
    → scroll_down (grid t) top bottom count ≡ some g
    → Like (grid t) g
scroll_down-Like t top bottom count g s h e =
    (scroll_down_lem top bottom count 0 0 (grid-GridIsValid t s) h e
      (omega (arith, grid-cols t s, s.some_cols))).0

pub written-Safe :
    (P : Terminal → Type 0) (t : Terminal) (o : Option Grid)
    → ((g : Grid) → o ≡ some g → P (with_grid t g))
    → Safe P (elim o [ none ↦ none | some g ↦ some (with_grid t g) ])
written-Safe P t none h = tt
written-Safe P t (some g) h = h g refl

pub move_to-IsValid :
    (t : Terminal) (c r : ℕ)
    → Shape t
    → c ≤ t.primary.cols + 2
    → r < t.primary.rows
    → IsValid (move_to t c r)
move_to-IsValid t c r s h k = record {
  shape = record {
    primary_valid = s.primary_valid;
    alt_valid = s.alt_valid;
    alt_cols = s.alt_cols;
    alt_rows = s.alt_rows;
    some_cols = s.some_cols;
    some_rows = s.some_rows;
    cols_fit = s.cols_fit;
    rows_fit = s.rows_fit;
    region = s.region;
    region_fits = s.region_fits;
  };
  row_fits = k;
  col_fits = h;
}

pub clamp_cursor-IsValid : (t : Terminal) → Shape t → IsValid (clamp_cursor t)
unfolding clamp_cursor
clamp_cursor-IsValid t s =
    move_to-IsValid t _ _ s (omega (arith, grid-cols t s))
      (omega (arith, grid-rows t s, s.some_rows))

pub line_feed-IsValid : (t : Terminal) → IsValid t → Safe IsValid (line_feed t)
unfolding line_feed
line_feed-IsValid t v =
    if_split (Safe IsValid) (t.cursor.row == t.scroll_bottom)
      (λ _.
        written-Safe IsValid t _
          λ g e. with_grid-IsValid t g v (scroll_up-Like t _ _ 1 g v.shape (omega arith) e))
      (λ _.
        if_split (Safe IsValid) (ltb (t.cursor.row + 1) (grid t).rows)
          (λ room.
            move_to-IsValid t _ _ v.shape v.col_fits
              (omega (arith, grid-rows t v.shape, ltb→lt _ _ room)))
          (λ _. v))

pub reverse_index-IsValid : (t : Terminal) → IsValid t → Safe IsValid (reverse_index t)
unfolding reverse_index
reverse_index-IsValid t v =
    if_split (Safe IsValid) (t.cursor.row == t.scroll_top)
      (λ _.
        written-Safe IsValid t _
          λ g e. with_grid-IsValid t g v (scroll_down-Like t _ _ 1 g v.shape (omega arith) e))
      (λ _.
        if_split (Safe IsValid) (ltb 0 t.cursor.row)
          (λ room. move_to-IsValid t _ _ v.shape v.col_fits (omega (arith, v.row_fits))) (λ _. v))

pub set_cell-Like :
    (t : Terminal) (c r : ℕ) (x : Cell) → Shape t → Like (grid t) (set_cell (grid t) c r x)
set_cell-Like t c r x s = record {
  valid = set_cell-IsValid (grid t) c r x (grid-GridIsValid t s);
  same_size = set_cell-SameSize (grid t) c r x;
}

pub written_cell-IsValid :
    (t : Terminal) (c r : ℕ) (x : Cell)
    → IsValid t
    → IsValid (with_grid t (set_cell (grid t) c r x))
written_cell-IsValid t c r x v = with_grid-IsValid t _ v (set_cell-Like t c r x v.shape)
