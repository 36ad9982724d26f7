-- ===== src/Engine/Terminal/Runs.antt =====
-- What the parser calls (`impl Perform for Terminal` of rust/choosh-terminal-engine/src/terminal.rs),
-- one action at a time and over a whole run, against the invariant of the terminal.
use choosh.Prelude.{
  ℕ, ◌+◌, ◌≤◌, ◌≡◌, refl, max, Bool, true, ◌&&◌, ◌||◌, [], ◌∷◌, List, Option, none, some, ltb, leb,
  ◌==◌, u16_max, arith, if_elim, Bytes,
}
use choosh.Engine.Grid.{new_grid}
use choosh.Engine.Grid.Cells.{new_grid-IsValid}
use choosh.Engine.Terminal.{Pen, SavedCursor, Terminal, Unicode, new_terminal, move_col}
use choosh.Engine.Terminal.Perform.{
  Action, print, execute, device_control, osc, csi, esc, is_digit, next_stop, execute_byte,
  osc_dispatch, esc_dispatch, perform, run_actions,
}
use choosh.Engine.Terminal.Invariant.{
  Shape, IsValid, Safe, grid-cols, grid-rows, move_to-IsValid, clamp_cursor-IsValid,
  line_feed-IsValid, reverse_index-IsValid,
}
use choosh.Engine.Terminal.Print.{put_char-IsValid}
use choosh.Engine.Terminal.Safety.{kept, csi_dispatch-IsValid}

new_terminal-Shape :
    (cols rows : ℕ) → cols ≤ u16_max → rows ≤ u16_max → Shape (new_terminal cols rows)
unfolding new_terminal new_grid
new_terminal-Shape cols rows h k = record {
  primary_valid = new_grid-IsValid (max cols 1) (max rows 1);
  alt_valid = new_grid-IsValid (max cols 1) (max rows 1);
  alt_cols = refl;
  alt_rows = refl;
  some_cols = omega arith;
  some_rows = omega arith;
  cols_fit = omega arith;
  rows_fit = omega arith;
  region = omega arith;
  region_fits = omega arith;
}

-- A new terminal is valid, also for a width or a height of 0.
pub new_terminal-IsValid :
    (cols rows : ℕ) → cols ≤ u16_max → rows ≤ u16_max → IsValid (new_terminal cols rows)
unfolding new_terminal new_grid
new_terminal-IsValid cols rows h k = record {
  shape = new_terminal-Shape cols rows h k;
  row_fits = omega arith;
  col_fits = omega arith;
}

-- The pen, the title, the bell and the saved cursor do not matter.
dressed :
    (t : Terminal) (sc : SavedCursor) (pen : Pen) (title : List ℕ) (bell : Bool)
    → IsValid t
    → IsValid (record t { saved_cursor = sc; pen = pen; title = title; pending_bell = bell })
dressed t sc pen title bell v = record {
  shape = kept t _ sc pen _ title bell v.shape;
  row_fits = v.row_fits;
  col_fits = v.col_fits;
}

execute_byte-IsValid : (t : Terminal) (b : ℕ) → IsValid t → Safe IsValid (execute_byte t b)
unfolding execute_byte
execute_byte-IsValid t b v =
    let to : (c : ℕ) → c ≤ t.primary.cols + 2 → IsValid (move_col t c) =
      λ c h. move_to-IsValid t c t.cursor.row v.shape h v.row_fits in
    if_elim (Safe IsValid) (b == 0x07) (dressed t _ _ _ true v) (
      if_elim (Safe IsValid) (b == 0x08) (to _ (omega (arith, v.col_fits))) (
        if_elim (Safe IsValid) (b == 0x09)
          (if_elim (Safe IsValid) (ltb u16_max (next_stop t)) tt
            (to _ (omega (arith, grid-cols t v.shape))))
          (if_elim (Safe IsValid) (leb 0x0a b && leb b 0x0c) (line_feed-IsValid t v)
            (if_elim (Safe IsValid) (b == 0x0d) (to 0 (omega arith)) v))))

osc_dispatch-IsValid :
    (u : Unicode) (t : Terminal) (ps : List Bytes) → IsValid t → IsValid (osc_dispatch u t ps)
unfolding osc_dispatch
osc_dispatch-IsValid u t [] v = v
osc_dispatch-IsValid u t (kind ∷ []) v =
    if_elim IsValid (is_digit kind b'0' || (is_digit kind b'1' || is_digit kind b'2')) v
      (if_elim IsValid (is_digit kind b'8') (dressed t _ _ _ _ v) v)
osc_dispatch-IsValid u t (kind ∷ p ∷ ps) v =
    if_elim IsValid (is_digit kind b'0' || (is_digit kind b'1' || is_digit kind b'2'))
      (dressed t _ _ _ _ v) (if_elim IsValid (is_digit kind b'8') (dressed t _ _ _ _ v) v)

esc_dispatch-IsValid : (t : Terminal) (b : ℕ) → IsValid t → Safe IsValid (esc_dispatch t b)
unfolding esc_dispatch
esc_dispatch-IsValid t b v = if_elim (Safe IsValid) (b == b'D') (line_feed-IsValid t v) (
    if_elim (Safe IsValid) (b == b'E')
      (line_feed-IsValid _ (move_to-IsValid t 0 t.cursor.row v.shape (omega arith) v.row_fits))
      (if_elim (Safe IsValid) (b == b'M') (reverse_index-IsValid t v) (
        if_elim (Safe IsValid) (b == b'7') (dressed t _ _ _ _ v) (
          if_elim (Safe IsValid) (b == b'8') (clamp_cursor-IsValid _ (kept t _ _ _ _ _ _ v.shape)) (
            if_elim (Safe IsValid) (b == b'c')
              (new_terminal-IsValid _ _ (omega (arith, grid-cols t v.shape, v.shape.cols_fit))
                (omega (arith, grid-rows t v.shape, v.shape.rows_fit)))
              v)))))

-- The width table gives no character more than three columns: in the pinned unicode-width one character, U+17D8,
-- has three.
abbrev pub Narrow : Unicode → Type 0
Narrow u = (c w : ℕ) → u.width c ≡ some w → w ≤ 3

pub perform-IsValid :
    (u : Unicode) (t : Terminal) (a : Action) → Narrow u → IsValid t → Safe IsValid (perform u t a)
unfolding perform
perform-IsValid u t (print c) n v = put_char-IsValid u t c n v
perform-IsValid u t (execute b) n v = execute_byte-IsValid t b v
perform-IsValid u t device_control n v = v
perform-IsValid u t (osc ps) n v = osc_dispatch-IsValid u t ps v
perform-IsValid u t (csi ps is b) n v = csi_dispatch-IsValid t ps is b v
perform-IsValid u t (esc b) n v = esc_dispatch-IsValid t b v

then-run :
    (u : Unicode) (as_left : List Action) (o : Option Terminal)
    → ((t : Terminal) → IsValid t → Safe IsValid (run_actions u t as_left))
    → Safe IsValid o
    → Safe IsValid (elim o [ none ↦ none | some t ↦ run_actions u t as_left ])
then-run u as_left none h v = tt
then-run u as_left (some t) h v = h t v

-- Where the width table gives no character more than three columns, a valid terminal stays valid through any run of
-- the parser, until a panic: each grid has as many cells as its size says and both have the same size, the scroll
-- region lies in the grid, and the cursor is on one of its rows and at most three columns past the last one.
pub run_actions-IsValid :
    (u : Unicode) (actions : List Action) (t : Terminal)
    → Narrow u
    → IsValid t
    → Safe IsValid (run_actions u t actions)
unfolding run_actions
run_actions-IsValid u [] t n v = v
run_actions-IsValid u (a ∷ rest) t n v =
    then-run u rest (perform u t a) (λ t' v'. run_actions-IsValid u rest t' n v')
      (perform-IsValid u t a n v)
