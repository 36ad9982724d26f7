-- ===== src/Engine/Terminal/Csi.antt =====
-- `csi_dispatch` of rust/choosh-terminal-engine/src/terminal.rs and the modes that it sets. The source has
-- one match on the final byte; here each arm is a function, and `csi_dispatch` goes through them. `none` is a panic.
use choosh.Prelude.{
  ℕ, ◌+◌, ◌-◌, min, Bool, true, false, ◌&&◌, ◌||◌, List, [], ◌∷◌, Option, none, some, leb, ◌==◌,
  if◌then◌else◌, get_elem?, drop, u16_max,
}
use choosh.Engine.Modes.{MouseTracking, no_tracking, normal, button_event, any_event, sgr}
use choosh.Engine.Grid.{
  Cell, block, underline_shape, bar, Grid, new_grid, set_cell, row_cells, clear_row, clear_rows,
  clear_row_range, mark_all_dirty, scroll_up, scroll_down,
}
use choosh.Engine.Terminal.{
  Terminal, grid, with_grid, on_grid, on_grid?, move_to, move_row, move_col, clamp_cursor,
  saturating_add,
}
use choosh.Engine.Terminal.Sgr.{Params, apply_sgr}

-- `Terminal::param`: a parameter that is missing or 0 has its default value.
unfoldable pub param : Params → ℕ → ℕ → ℕ
param ps index default = elim (get_elem? ps index) [
  | none ↦ default
  | some group ↦ elim group [ [] ↦ default | v ∷ _ ↦ if v == 0 then default else v ]
]

unfoldable pub switch_alt_screen : Terminal → Bool → Bool → Terminal
switch_alt_screen t true save_cursor =
    if t.modes.alt_screen_active
    then t
    else clamp_cursor (
        move_to
          (record t {
            saved_cursor =
                if save_cursor
                then record { col = t.cursor.col; row = t.cursor.row }
                else t.saved_cursor;
            alt = new_grid t.primary.cols t.primary.rows;
            modes = record t.modes { alt_screen_active = true };
          })
          0 0)
switch_alt_screen t false save_cursor =
    if t.modes.alt_screen_active
    then clamp_cursor (
        move_to
          (record t {
            primary = mark_all_dirty t.primary;
            modes = record t.modes { alt_screen_active = false };
          })
          (if save_cursor then t.saved_cursor.col else t.cursor.col)
          (if save_cursor then t.saved_cursor.row else t.cursor.row))
    else t

abbrev tracking : Bool → MouseTracking → MouseTracking
tracking enabled m = if enabled then m else no_tracking

unfoldable pub set_private_mode : Terminal → ℕ → Bool → Terminal
set_private_mode t code enabled =
    if code == 1
    then record t { modes = record t.modes { application_cursor_keys = enabled } }
    else if code == 6
    then record t { modes = record t.modes { origin_mode = enabled } }
    else if code == 7
    then record t { modes = record t.modes { autowrap = enabled } }
    else if code == 25
    then record t {
      modes = record t.modes { cursor_visible = enabled };
      cursor = record t.cursor { visible = enabled };
    }
    else if code == 1000
    then record t { modes = record t.modes { mouse_tracking = tracking enabled normal } }
    else if code == 1002
    then record t { modes = record t.modes { mouse_tracking = tracking enabled button_event } }
    else if code == 1003
    then record t { modes = record t.modes { mouse_tracking = tracking enabled any_event } }
    else if code == 1006
    then record t { modes = record t.modes { mouse_encoding = sgr } }
    else if code == 2004
    then record t { modes = record t.modes { bracketed_paste = enabled } }
    else if code == 47 || code == 1047
    then switch_alt_screen t enabled false
    else if code == 1049
    then switch_alt_screen t enabled true
    else t

-- `h` and `l` with `?`: every group that has a first parameter.
unfoldable pub set_private_modes : Params → Bool → Terminal → Terminal
set_private_modes [] enabled t = t
set_private_modes ([] ∷ groups) enabled t = set_private_modes groups enabled t
set_private_modes ((code ∷ _) ∷ groups) enabled t =
    set_private_modes groups enabled (set_private_mode t code enabled)

-- `J`. The column after the cursor overflows at the largest `u16`.
unfoldable pub erase_display : Terminal → ℕ → Option Terminal
erase_display t mode =
    let row = t.cursor.row in
    let col = t.cursor.col in
    let g = grid t in
    if mode == 0
    then some
        (with_grid t (clear_rows (g.rows - (row + 1)) (row + 1) (clear_row_range g row col g.cols)))
    else if mode == 1
    then (if leb u16_max col
        then none
        else some (with_grid t (clear_row_range (clear_rows row 0 g) row 0 (col + 1))))
    else some (with_grid t (clear_rows g.rows 0 g))

-- `K`
unfoldable pub erase_line : Terminal → ℕ → Option Terminal
erase_line t mode =
    let row = t.cursor.row in
    let col = t.cursor.col in
    let g = grid t in
    if mode == 0
    then some (with_grid t (clear_row_range g row col g.cols))
    else if mode == 1
    then (if leb u16_max col then none else some (with_grid t (clear_row_range g row 0 (col + 1))))
    else some (with_grid t (clear_row g row))

unfoldable pub write_cells : List Cell → ℕ → ℕ → Grid → Grid
write_cells [] col row g = g
write_cells (c ∷ cs) col row g = write_cells cs (col + 1) row (set_cell g col row c)

-- `P`
unfoldable pub delete_chars : Terminal → ℕ → Terminal
delete_chars t count =
    let row = t.cursor.row in
    let col = t.cursor.col in
    let g = grid t in
    let tail = drop (min (saturating_add col count) g.cols) (row_cells g row) in
    with_grid t (clear_row_range (write_cells tail col row g) row (g.cols - count) g.cols)

-- `r`
unfoldable pub set_scroll_region : Terminal → Params → Terminal
set_scroll_region t ps =
    let rows = (grid t).rows in
    let top = min (param ps 0 1 - 1) (rows - 1) in
    let bottom = min (param ps 1 rows - 1) (rows - 1) in
    if leb bottom top
    then record t { scroll_top = 0; scroll_bottom = rows - 1 }
    else record t { scroll_top = top; scroll_bottom = bottom }

-- `q` after a space: DECSCUSR.
unfoldable pub set_cursor_style : Terminal → ℕ → Terminal
set_cursor_style t n = record t {
  cursor = record t.cursor {
    shape =
        if n == 1 || n == 2
        then block
        else if n == 3 || n == 4
        then underline_shape
        else if n == 5 || n == 6
        then bar
        else t.cursor.shape;
    blink = n == 0 || (n == 1 || (n == 3 || n == 5));
  };
}

unfoldable pub set_insert_mode : Terminal → Params → Bool → Terminal
set_insert_mode t ps enabled =
    if param ps 0 0 == 4 then record t { modes = record t.modes { insert_mode = enabled } } else t

-- The arms that only move the cursor.
unfoldable pub move_cursor : Terminal → Params → ℕ → Terminal
move_cursor t ps action =
    let n = param ps 0 1 in
    let last_row = (grid t).rows - 1 in
    let last_col = (grid t).cols - 1 in
    if action == b'A'
    then move_row t (t.cursor.row - n)
    else if action == b'B'
    then move_row t (min (saturating_add t.cursor.row n) last_row)
    else if action == b'C'
    then move_col t (min (saturating_add t.cursor.col n) last_col)
    else if action == b'D'
    then move_col t (t.cursor.col - n)
    else if action == b'E'
    then move_to t 0 (min (saturating_add t.cursor.row n) last_row)
    else if action == b'F'
    then move_to t 0 (t.cursor.row - n)
    else if action == b'G' || action == b'`'
    then move_col t (min (n - 1) last_col)
    else if action == b'H' || action == b'f'
    then move_to t (min (param ps 1 1 - 1) last_col) (min (n - 1) last_row)
    else if action == b'd'
    then move_row t (min (n - 1) last_row)
    else t

-- The arms that move or erase cells.
unfoldable pub edit_cells : Terminal → Params → ℕ → Option Terminal
edit_cells t ps action =
    let n = param ps 0 1 in
    let row = t.cursor.row in
    if action == b'J'
    then erase_display t (param ps 0 0)
    else if action == b'K'
    then erase_line t (param ps 0 0)
    else if action == b'L'
    then on_grid? (λ g. scroll_down g row t.scroll_bottom n) t
    else if action == b'M'
    then on_grid? (λ g. scroll_up g row t.scroll_bottom n) t
    else if action == b'P'
    then some (delete_chars t n)
    else if action == b'S'
    then on_grid? (λ g. scroll_up g t.scroll_top t.scroll_bottom n) t
    else if action == b'T'
    then on_grid? (λ g. scroll_down g t.scroll_top t.scroll_bottom n) t
    else if action == b'X'
    then some (on_grid (λ g. clear_row_range g row t.cursor.col (saturating_add t.cursor.col n)) t)
    else some t

abbrev starts_with : List ℕ → ℕ → Bool
starts_with [] b = false
starts_with (x ∷ _) b = x == b

-- The arms that set modes.
unfoldable pub change_modes : Terminal → Params → List ℕ → ℕ → Terminal
change_modes t ps intermediates action =
    let private = starts_with intermediates b'?' in
    if action == b'h'
    then (if private then set_private_modes ps true t else set_insert_mode t ps true)
    else if action == b'l'
    then (if private then set_private_modes ps false t else set_insert_mode t ps false)
    else if action == b'm'
    then record t { pen = apply_sgr ps t.pen }
    else if action == b'q' && starts_with intermediates b' '
    then set_cursor_style t (param ps 0 1)
    else if action == b'r'
    then set_scroll_region t ps
    else t

-- The match of `csi_dispatch`: the three families of arms have no final byte in common, and each does
-- nothing on the bytes of the others.
unfoldable pub csi_dispatch : Terminal → Params → List ℕ → ℕ → Option Terminal
csi_dispatch t ps intermediates action =
    elim (edit_cells (move_cursor (change_modes t ps intermediates action) ps action) ps action) [
      | none ↦ none
      | some t' ↦ some (clamp_cursor t')
    ]
