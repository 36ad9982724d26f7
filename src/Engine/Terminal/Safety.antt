-- ===== src/Engine/Terminal/Safety.antt =====
-- The arms of `csi_dispatch` in rust/choosh-terminal-engine/src/terminal.rs that set modes or move the
-- cursor, and the whole of it, against the invariant of the terminal.
use choosh.Prelude.{
  ℕ, ◌-◌, ◌≤◌, ◌<◌, ◌≡◌, refl, sym, ◌∙◌, min, Bool, true, false, ◌||◌, [], ◌∷◌, List, Option, none,
  some, leb, ◌==◌, arith, if_elim, if_split, Bytes,
}
use choosh.Engine.Modes.{Modes}
use choosh.Engine.Grid.{Cursor, Grid, mark_all_dirty, new_grid}
use choosh.Engine.Grid.Cells.{IsValid as GridIsValid, new_grid-IsValid}
use choosh.Engine.Grid.Damage.{mark_all_dirty-IsValid, mark_all_dirty_sizes}
use choosh.Engine.Terminal.{Pen, SavedCursor, Terminal, grid, clamp_cursor}
use choosh.Engine.Terminal.Sgr.{Params}
use choosh.Engine.Terminal.Csi.{
  param, switch_alt_screen, set_private_mode, set_private_modes, set_scroll_region,
  set_cursor_style, set_insert_mode, move_cursor, change_modes, csi_dispatch,
}
use choosh.Engine.Terminal.Invariant.{Shape, IsValid, Safe, grid-rows, clamp_cursor-IsValid}
use choosh.Engine.Terminal.Dispatch.{edit_cells-Shape}

-- What is not a grid nor the scroll region does not matter for the shape.
pub kept :
    (t : Terminal) (k : Cursor) (sc : SavedCursor) (pen : Pen) (modes : Modes) (title : List ℕ)
    (bell : Bool)
    → Shape t
    → Shape (record t {
      cursor = k;
      saved_cursor = sc;
      pen = pen;
      modes = modes;
      title = title;
      pending_bell = bell;
    })
kept t k sc pen modes title bell s = record {
  primary_valid = s.primary_valid;
  alt_valid = s.alt_valid;
  alt_cols = s.alt_cols;
  alt_rows = s.alt_rows;
  some_cols = s.some_cols;
  some_rows = s.some_rows;
  cols_fit = s.cols_fit;
  rows_fit = s.rows_fit;
  region = s.region;
  region_fits = s.region_fits;
}

new_grid_sizes : (c r : ℕ) → ((new_grid c r).cols ≡ c) × ((new_grid c r).rows ≡ r)
unfolding new_grid
new_grid_sizes c r = (refl, refl)

-- New grids of the old size keep the shape.
regrown :
    (t : Terminal) (p a : Grid) (k : Cursor) (sc : SavedCursor) (modes : Modes)
    → Shape t
    → GridIsValid p
    → GridIsValid a
    → (p.cols ≡ t.primary.cols) × (p.rows ≡ t.primary.rows)
    → (a.cols ≡ t.primary.cols) × (a.rows ≡ t.primary.rows)
    → Shape (record t { primary = p; alt = a; cursor = k; saved_cursor = sc; modes = modes })
regrown t p a k sc modes s pv av (pc, pr) (ac, ar) = record {
  primary_valid = pv;
  alt_valid = av;
  alt_cols = ac ∙ sym pc;
  alt_rows = ar ∙ sym pr;
  some_cols = omega (arith, pc, s.some_cols);
  some_rows = omega (arith, pr, s.some_rows);
  cols_fit = omega (arith, pc, s.cols_fit);
  rows_fit = omega (arith, pr, s.rows_fit);
  region = s.region;
  region_fits = omega (arith, pr, s.region_fits);
}

switch_alt_screen-Shape :
    (t : Terminal) (enable save : Bool) → Shape t → Shape (switch_alt_screen t enable save)
unfolding switch_alt_screen
switch_alt_screen-Shape t true save s =
    if_elim Shape t.modes.alt_screen_active s
      (clamp_cursor-IsValid _ (
        regrown t t.primary (new_grid t.primary.cols t.primary.rows) _ _ _ s s.primary_valid
          (new_grid-IsValid t.primary.cols t.primary.rows) (refl, refl)
          (new_grid_sizes t.primary.cols t.primary.rows))).shape
switch_alt_screen-Shape t false save s =
    if_elim Shape t.modes.alt_screen_active
      (clamp_cursor-IsValid _ (
        regrown t (mark_all_dirty t.primary) t.alt _ _ _ s
          (mark_all_dirty-IsValid t.primary s.primary_valid) s.alt_valid
          (mark_all_dirty_sizes t.primary) (s.alt_cols, s.alt_rows))).shape
      s

reframed :
    (t : Terminal) (top bottom : ℕ)
    → Shape t
    → top ≤ bottom
    → bottom < t.primary.rows
    → Shape (record t { scroll_top = top; scroll_bottom = bottom })
reframed t top bottom s h k = record {
  primary_valid = s.primary_valid;
  alt_valid = s.alt_valid;
  alt_cols = s.alt_cols;
  alt_rows = s.alt_rows;
  some_cols = s.some_cols;
  some_rows = s.some_rows;
  cols_fit = s.cols_fit;
  rows_fit = s.rows_fit;
  region = h;
  region_fits = k;
}

gt_of_leb : (a b : ℕ) → leb a b ≡ false → b < a
gt_of_leb a b h = ground arith

set_scroll_region-Shape : (t : Terminal) (ps : Params) → Shape t → Shape (set_scroll_region t ps)
unfolding set_scroll_region
set_scroll_region-Shape t ps s =
    let rows = grid-rows t s in
    let last = (grid t).rows - 1 in
    let top = min (param ps 0 1 - 1) last in
    let bottom = min (param ps 1 (grid t).rows - 1) last in
    if_split Shape (leb bottom top)
      (λ _. reframed t 0 last s (omega arith) (omega (arith, rows, s.some_rows)))
      (λ e.
        reframed t top bottom s (omega (arith, gt_of_leb bottom top e))
          (omega (arith, rows, s.some_rows)))

pub move_cursor-Shape :
    (t : Terminal) (ps : Params) (action : ℕ) → Shape t → Shape (move_cursor t ps action)
unfolding move_cursor
move_cursor-Shape t ps action s =
    let k : (c : Cursor) → Shape (record t { cursor = c }) = λ c. kept t c _ _ _ _ _ s in
    if_elim Shape (action == b'A') (k _) (
      if_elim Shape (action == b'B') (k _) (
        if_elim Shape (action == b'C') (k _) (
          if_elim Shape (action == b'D') (k _) (
            if_elim Shape (action == b'E') (k _) (
              if_elim Shape (action == b'F') (k _) (
                if_elim Shape (action == b'G' || action == b'`') (k _) (
                  if_elim Shape (action == b'H' || action == b'f') (k _)
                    (if_elim Shape (action == b'd') (k _) s))))))))

pub set_private_mode-Shape :
    (t : Terminal) (code : ℕ) (enabled : Bool) → Shape t → Shape (set_private_mode t code enabled)
unfolding set_private_mode
set_private_mode-Shape t code enabled s =
    let k : (c : Cursor) (m : Modes) → Shape (record t { cursor = c; modes = m }) =
      λ c m. kept t c _ _ m _ _ s in
    if_elim Shape (code == 1) (k _ _) (
      if_elim Shape (code == 6) (k _ _) (
        if_elim Shape (code == 7) (k _ _) (
          if_elim Shape (code == 25) (k _ _) (
            if_elim Shape (code == 1000) (k _ _) (
              if_elim Shape (code == 1002) (k _ _) (
                if_elim Shape (code == 1003) (k _ _) (
                  if_elim Shape (code == 1006) (k _ _) (
                    if_elim Shape (code == 2004) (k _ _) (
                      if_elim Shape (code == 47 || code == 1047)
                        (switch_alt_screen-Shape t enabled false s)
                        (if_elim Shape (code == 1049) (switch_alt_screen-Shape t enabled true s)
                          s))))))))))

set_private_modes-Shape :
    (ps : Params) (enabled : Bool) (t : Terminal) → Shape t → Shape (set_private_modes ps enabled t)
unfolding set_private_modes
set_private_modes-Shape [] enabled t s = s
set_private_modes-Shape ([] ∷ ps) enabled t s = set_private_modes-Shape ps enabled t s
set_private_modes-Shape ((c ∷ _) ∷ ps) enabled t s =
    set_private_modes-Shape ps enabled _ (set_private_mode-Shape t c enabled s)

set_insert_mode-Shape :
    (t : Terminal) (ps : Params) (enabled : Bool) → Shape t → Shape (set_insert_mode t ps enabled)
unfolding set_insert_mode
set_insert_mode-Shape t ps enabled s = if_elim Shape (param ps 0 0 == 4) (kept t _ _ _ _ _ _ s) s

pub change_modes-Shape :
    (t : Terminal) (ps : Params) (intermediates : Bytes) (action : ℕ)
    → Shape t
    → Shape (change_modes t ps intermediates action)
unfolding change_modes set_cursor_style
change_modes-Shape t ps intermediates action s =
    if_elim Shape (action == b'h')
      (if_elim Shape _ (set_private_modes-Shape ps true t s) (set_insert_mode-Shape t ps true s))
      (if_elim Shape (action == b'l')
        (if_elim Shape _ (set_private_modes-Shape ps false t s)
          (set_insert_mode-Shape t ps false s))
        (if_elim Shape (action == b'm') (kept t _ _ _ _ _ _ s) (
          if_elim Shape _ (kept t _ _ _ _ _ _ s)
            (if_elim Shape (action == b'r') (set_scroll_region-Shape t ps s) s))))

clamped :
    (o : Option Terminal)
    → Safe Shape o
    → Safe IsValid (elim o [ none ↦ none | some t ↦ some (clamp_cursor t) ])
clamped none h = tt
clamped (some t) h = clamp_cursor-IsValid t h

-- From a valid terminal every control sequence that does not panic leaves a valid one.
pub csi_dispatch-IsValid :
    (t : Terminal) (ps : Params) (intermediates : Bytes) (action : ℕ)
    → IsValid t
    → Safe IsValid (csi_dispatch t ps intermediates action)
unfolding csi_dispatch
csi_dispatch-IsValid t ps intermediates action v = clamped _ (
    edit_cells-Shape _ ps action
      (move_cursor-Shape _ ps action (change_modes-Shape t ps intermediates action v.shape)))
