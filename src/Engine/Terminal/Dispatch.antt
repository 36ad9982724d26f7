-- ===== src/Engine/Terminal/Dispatch.antt =====
-- The arms of `csi_dispatch` in rust/choosh-terminal-engine/src/terminal.rs that edit cells, and
-- the shape of the terminal.
use choosh.Prelude.{ℕ, ◌+◌, ◌<◌, refl, [], ◌∷◌, List, leb, ◌==◌, u16_max, arith, if_elim}
use choosh.Engine.Grid.{Cell, Grid, set_cell, scroll_up, scroll_down, clear_row_range, clear_row}
use choosh.Engine.Grid.Cells.{set_cell-IsValid}
use choosh.Engine.Grid.Rows.{
  SameSize-trans, set_cell-SameSize, clear_row-IsValid, clear_row-SameSize, clear_row_range-IsValid,
  clear_row_range-SameSize,
}
use choosh.Engine.Grid.Scroll.{Like, clear_rows-Like}
use choosh.Engine.Terminal.{Terminal, grid, on_grid?}
use choosh.Engine.Terminal.Sgr.{Params}
use choosh.Engine.Terminal.Csi.{
  param, erase_display, erase_line, write_cells, delete_chars, edit_cells,
}
use choosh.Engine.Terminal.Invariant.{
  Shape, Safe, grid-GridIsValid, with_grid-Shape, written-Safe, scroll_up-Like, scroll_down-Like,
}

grid-Like : (t : Terminal) → Shape t → Like (grid t) (grid t)
grid-Like t s = record {
  valid = grid-GridIsValid t s;
  same_size = record { same_cols = refl; same_rows = refl };
}

clear_row-Like : (g h : Grid) (r : ℕ) → Like g h → Like g (clear_row h r)
clear_row-Like g h r l = record {
  valid = clear_row-IsValid h r l.valid;
  same_size = SameSize-trans l.same_size (clear_row-SameSize h r);
}

clear_row_range-Like :
    (g h : Grid) (r from to : ℕ) → Like g h → Like g (clear_row_range h r from to)
clear_row_range-Like g h r from to l = record {
  valid = clear_row_range-IsValid h r from to l.valid;
  same_size = SameSize-trans l.same_size (clear_row_range-SameSize h r from to);
}

write_cells-Like :
    (cs : List Cell) (c r : ℕ) (g h : Grid) → Like g h → Like g (write_cells cs c r h)
unfolding write_cells
write_cells-Like [] c r g h l = l
write_cells-Like (x ∷ cs) c r g h l = write_cells-Like cs (c + 1) r g (set_cell h c r x) (record {
  valid = set_cell-IsValid h c r x l.valid;
  same_size = SameSize-trans l.same_size (set_cell-SameSize h c r x);
})

pub param-pos : (ps : Params) (i d : ℕ) → 0 < d → 0 < param ps i d
unfolding param
param-pos ps i d h = ground arith

erase_display-Shape : (t : Terminal) (mode : ℕ) → Shape t → Safe Shape (erase_display t mode)
unfolding erase_display
erase_display-Shape t mode s =
    let l = grid-Like t s in
    if_elim (Safe Shape) (mode == 0)
      (with_grid-Shape t _ s
        (clear_rows-Like _ _ (grid t) _ (clear_row_range-Like (grid t) (grid t) _ _ _ l)))
      (if_elim (Safe Shape) (mode == 1)
        (if_elim (Safe Shape) (leb u16_max t.cursor.col) tt (
          with_grid-Shape t _ s
            (clear_row_range-Like (grid t) _ _ _ _ (clear_rows-Like _ _ (grid t) _ l))))
        (with_grid-Shape t _ s (clear_rows-Like _ _ (grid t) _ l)))

erase_line-Shape : (t : Terminal) (mode : ℕ) → Shape t → Safe Shape (erase_line t mode)
unfolding erase_line
erase_line-Shape t mode s =
    let l = grid-Like t s in
    if_elim (Safe Shape) (mode == 0)
      (with_grid-Shape t _ s (clear_row_range-Like (grid t) _ _ _ _ l))
      (if_elim (Safe Shape) (mode == 1)
        (if_elim (Safe Shape) (leb u16_max t.cursor.col) tt
          (with_grid-Shape t _ s (clear_row_range-Like (grid t) _ _ _ _ l)))
        (with_grid-Shape t _ s (clear_row-Like (grid t) _ _ l)))

delete_chars-Shape : (t : Terminal) (n : ℕ) → Shape t → Shape (delete_chars t n)
unfolding delete_chars
delete_chars-Shape t n s =
    with_grid-Shape t _ s
      (clear_row_range-Like (grid t) _ _ _ _ (write_cells-Like _ _ _ (grid t) _ (grid-Like t s)))

scroll_up-Shape :
    (t : Terminal) (top bottom n : ℕ)
    → Shape t
    → 0 < n
    → Safe Shape (on_grid? (λ g. scroll_up g top bottom n) t)
scroll_up-Shape t top bottom n s h =
    written-Safe Shape t _ λ g e. with_grid-Shape t g s (scroll_up-Like t top bottom n g s h e)

scroll_down-Shape :
    (t : Terminal) (top bottom n : ℕ)
    → Shape t
    → 0 < n
    → Safe Shape (on_grid? (λ g. scroll_down g top bottom n) t)
scroll_down-Shape t top bottom n s h =
    written-Safe Shape t _ λ g e. with_grid-Shape t g s (scroll_down-Like t top bottom n g s h e)

pub edit_cells-Shape :
    (t : Terminal) (ps : Params) (action : ℕ) → Shape t → Safe Shape (edit_cells t ps action)
unfolding edit_cells
edit_cells-Shape t ps action s =
    let n = param-pos ps 0 1 (omega arith) in
    if_elim (Safe Shape) (action == b'J') (erase_display-Shape t _ s) (
      if_elim (Safe Shape) (action == b'K') (erase_line-Shape t _ s) (
        if_elim (Safe Shape) (action == b'L') (scroll_down-Shape t _ _ _ s n) (
          if_elim (Safe Shape) (action == b'M') (scroll_up-Shape t _ _ _ s n) (
            if_elim (Safe Shape) (action == b'P') (delete_chars-Shape t _ s) (
              if_elim (Safe Shape) (action == b'S') (scroll_up-Shape t _ _ _ s n) (
                if_elim (Safe Shape) (action == b'T') (scroll_down-Shape t _ _ _ s n) (
                  if_elim (Safe Shape) (action == b'X')
                    (with_grid-Shape t _ s (clear_row_range-Like (grid t) _ _ _ _ (grid-Like t s)))
                    s)))))))
