-- ===== src/Engine/Terminal/Repaint.antt =====
-- Damage over the arms of `csi_dispatch` of rust/choosh-terminal-engine/src/terminal.rs that edit cells.
use choosh.Prelude.{ℕ, ◌+◌, refl, min, [], ◌∷◌, List, leb, ◌==◌, u16_max, if_elim, drop}
use choosh.Engine.Grid.{Cell, Grid, scroll_up, scroll_down, row_cells}
use choosh.Engine.Grid.Cells.{IsValid as GridIsValid}
use choosh.Engine.Grid.Damage.{
  Tracks, Tracks-refl, Tracks-trans, set_cell-Tracks, clear_row-Tracks, clear_row_range-Tracks,
  clear_rows-Tracks, scroll_up-Tracks, scroll_down-Tracks,
}
use choosh.Engine.Terminal.{Terminal, grid, on_grid?, saturating_add}
use choosh.Engine.Terminal.Sgr.{Params}
use choosh.Engine.Terminal.Csi.{erase_display, erase_line, write_cells, delete_chars, edit_cells}
use choosh.Engine.Terminal.Invariant.{Shape, Safe, grid-GridIsValid, written-Safe}
use choosh.Engine.Terminal.Redraw.{Redraws, with_grid-Redraws, same_grid}

pub write_cells-Tracks :
    (cs : List Cell) (c r : ℕ) (g : Grid) → GridIsValid g → Tracks g (write_cells cs c r g)
unfolding write_cells
write_cells-Tracks [] c r g v = Tracks-refl g v
write_cells-Tracks (x ∷ cs) c r g v =
    let one = set_cell-Tracks g c r x v in
    Tracks-trans one (write_cells-Tracks cs (c + 1) r _ one.like.valid)

erase_display-Redraws :
    (t : Terminal) (mode : ℕ) → Shape t → Safe (Redraws t) (erase_display t mode)
unfolding erase_display
erase_display-Redraws t mode s =
    let v = grid-GridIsValid t s in
    let below = clear_row_range-Tracks (grid t) t.cursor.row t.cursor.col (grid t).cols v in
    let above = clear_rows-Tracks t.cursor.row 0 (grid t) v in
    if_elim (Safe (Redraws t)) (mode == 0)
      (with_grid-Redraws t _
        (Tracks-trans below (clear_rows-Tracks _ (t.cursor.row + 1) _ below.like.valid)))
      (if_elim (Safe (Redraws t)) (mode == 1)
        (if_elim (Safe (Redraws t)) (leb u16_max t.cursor.col) tt (
          with_grid-Redraws t _ (
            Tracks-trans above
              (clear_row_range-Tracks _ t.cursor.row 0 (t.cursor.col + 1) above.like.valid))))
        (with_grid-Redraws t _ (clear_rows-Tracks (grid t).rows 0 (grid t) v)))

erase_line-Redraws : (t : Terminal) (mode : ℕ) → Shape t → Safe (Redraws t) (erase_line t mode)
unfolding erase_line
erase_line-Redraws t mode s =
    let v = grid-GridIsValid t s in
    if_elim (Safe (Redraws t)) (mode == 0)
      (with_grid-Redraws t _ (clear_row_range-Tracks (grid t) _ _ _ v))
      (if_elim (Safe (Redraws t)) (mode == 1)
        (if_elim (Safe (Redraws t)) (leb u16_max t.cursor.col) tt
          (with_grid-Redraws t _ (clear_row_range-Tracks (grid t) _ _ _ v)))
        (with_grid-Redraws t _ (clear_row-Tracks (grid t) _ v)))

delete_chars-Redraws : (t : Terminal) (n : ℕ) → Shape t → Redraws t (delete_chars t n)
unfolding delete_chars
delete_chars-Redraws t n s =
    let tail =
      drop (min (saturating_add t.cursor.col n) (grid t).cols) (row_cells (grid t) t.cursor.row) in
    let moved = write_cells-Tracks tail t.cursor.col t.cursor.row (grid t) (grid-GridIsValid t s) in
    with_grid-Redraws t _
      (Tracks-trans moved (clear_row_range-Tracks _ t.cursor.row _ _ moved.like.valid))

scroll_up-Redraws :
    (t : Terminal) (top bottom n : ℕ)
    → Shape t
    → Safe (Redraws t) (on_grid? (λ g. scroll_up g top bottom n) t)
scroll_up-Redraws t top bottom n s =
    written-Safe (Redraws t) t _ λ g e.
      with_grid-Redraws t g (scroll_up-Tracks (grid t) g top bottom n (grid-GridIsValid t s) e)

scroll_down-Redraws :
    (t : Terminal) (top bottom n : ℕ)
    → Shape t
    → Safe (Redraws t) (on_grid? (λ g. scroll_down g top bottom n) t)
scroll_down-Redraws t top bottom n s = written-Safe (Redraws t) t _ λ g e.
    with_grid-Redraws t g (scroll_down-Tracks (grid t) g top bottom n (grid-GridIsValid t s) e)

pub edit_cells-Redraws :
    (t : Terminal) (ps : Params) (action : ℕ) → Shape t → Safe (Redraws t) (edit_cells t ps action)
unfolding edit_cells
edit_cells-Redraws t ps action s =
    let P = Safe (Redraws t) in
    if_elim P (action == b'J') (erase_display-Redraws t _ s) (
      if_elim P (action == b'K') (erase_line-Redraws t _ s) (
        if_elim P (action == b'L') (scroll_down-Redraws t _ _ _ s) (
          if_elim P (action == b'M') (scroll_up-Redraws t _ _ _ s) (
            if_elim P (action == b'P') (delete_chars-Redraws t _ s) (
              if_elim P (action == b'S') (scroll_up-Redraws t _ _ _ s) (
                if_elim P (action == b'T') (scroll_down-Redraws t _ _ _ s) (
                  if_elim P (action == b'X')
                    (with_grid-Redraws t _
                      (clear_row_range-Tracks (grid t) _ _ _ (grid-GridIsValid t s)))
                    (same_grid t t s refl))))))))
