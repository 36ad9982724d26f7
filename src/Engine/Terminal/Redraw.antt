-- ===== src/Engine/Terminal/Redraw.antt =====
-- Damage over the handlers of rust/choosh-terminal-engine/src/terminal.rs: first the printing of
-- characters and what the handlers share.
use choosh.Prelude.{
  ℕ, ◌+◌, ◌-◌, ◌≡◌, refl, sym, subst, Bool, ◌&&◌, ◌++◌, [], ◌∷◌, Option, none, some, ltb, leb, ◌==◌,
  arith, if_elim,
}
use choosh.Engine.Grid.{Cell, Grid, set_cell}
use choosh.Engine.Grid.Damage.{
  Tracks, Tracks-refl, Tracks-trans, set_cell-Tracks, scroll_up-Tracks, scroll_down-Tracks,
}
use choosh.Engine.Terminal.{
  Terminal, Unicode, grid, with_grid, on_grid, move_to, move_col, clamp_cursor, line_feed,
  reverse_index, put_combining, wrap_cursor, write_cell, write_char, pen_cell, width_or_one,
  put_char,
}
use choosh.Engine.Terminal.Invariant.{
  Shape, IsValid, Safe, grid-GridIsValid, written-Safe, written_cell-IsValid,
}
use choosh.Engine.Terminal.Print.{IsReady, wrap_cursor-IsReady, write_cell-IsValid}
use choosh.Engine.Terminal.Safety.{kept}

abbrev pub Redraws : Terminal → Terminal → Type 0
Redraws t t' = Tracks (grid t) (grid t')

pub grid-with_grid : (t : Terminal) (g : Grid) → grid (with_grid t g) ≡ g
unfolding grid with_grid
grid-with_grid t g = ground arith

pub with_grid-Redraws : (t : Terminal) (g : Grid) → Tracks (grid t) g → Redraws t (with_grid t g)
with_grid-Redraws t g h = subst (Tracks (grid t)) (sym (grid-with_grid t g)) h

pub same_grid : (t t' : Terminal) → Shape t → grid t' ≡ grid t → Redraws t t'
same_grid t t' s e = subst (Tracks (grid t)) (sym e) (Tracks-refl (grid t) (grid-GridIsValid t s))

pub move_to-Redraws : (t : Terminal) (c r : ℕ) → Shape t → Redraws t (move_to t c r)
unfolding grid
move_to-Redraws t c r s = same_grid t (move_to t c r) s refl

pub clamp_cursor-Redraws : (t : Terminal) → Shape t → Redraws t (clamp_cursor t)
unfolding clamp_cursor
clamp_cursor-Redraws t s = move_to-Redraws t _ _ s

pub line_feed-Redraws : (t : Terminal) → Shape t → Safe (Redraws t) (line_feed t)
unfolding line_feed
line_feed-Redraws t s =
    if_elim (Safe (Redraws t)) (t.cursor.row == t.scroll_bottom)
      (written-Safe (Redraws t) t _
        λ g e. with_grid-Redraws t g (scroll_up-Tracks (grid t) g _ _ _ (grid-GridIsValid t s) e))
      (if_elim (Safe (Redraws t)) (ltb (t.cursor.row + 1) (grid t).rows)
        (move_to-Redraws t t.cursor.col (t.cursor.row + 1) s) (same_grid t t s refl))

pub reverse_index-Redraws : (t : Terminal) → Shape t → Safe (Redraws t) (reverse_index t)
unfolding reverse_index
reverse_index-Redraws t s =
    if_elim (Safe (Redraws t)) (t.cursor.row == t.scroll_top)
      (written-Safe (Redraws t) t _
        λ g e. with_grid-Redraws t g (scroll_down-Tracks (grid t) g _ _ _ (grid-GridIsValid t s) e))
      (if_elim (Safe (Redraws t)) (ltb 0 t.cursor.row)
        (move_to-Redraws t t.cursor.col (t.cursor.row - 1) s) (same_grid t t s refl))

written-Redraws :
    (t : Terminal) (c r : ℕ) (x : Cell)
    → Shape t
    → Redraws t (with_grid t (set_cell (grid t) c r x))
written-Redraws t c r x s =
    with_grid-Redraws t _ (set_cell-Tracks (grid t) c r x (grid-GridIsValid t s))

written-combining :
    (t : Terminal) (col row ch : ℕ) (o : Option Cell)
    → Shape t
    → Redraws t (elim o [
      | none ↦ t
      | some c ↦ on_grid (λ g. set_cell g col row (record c { text = c.text ++ ch ∷ [] })) t
    ])
written-combining t col row ch none s = same_grid t t s refl
written-combining t col row ch (some c) s = written-Redraws t col row _ s

put_combining-Redraws : (t : Terminal) (ch : ℕ) → Shape t → Redraws t (put_combining t ch)
unfolding put_combining
put_combining-Redraws t ch s = written-combining t _ t.cursor.row ch _ s

pub Safe-trans :
    (t t' : Terminal) (o : Option Terminal)
    → Redraws t t'
    → Safe (Redraws t') o
    → Safe (Redraws t) o
Safe-trans t t' none a b = tt
Safe-trans t t' (some u) a b = Tracks-trans a b

wrap_cursor-Redraws : (t : Terminal) → Shape t → Safe (Redraws t) (wrap_cursor t)
unfolding wrap_cursor
wrap_cursor-Redraws t s =
    if_elim (Safe (Redraws t)) (leb (grid t).cols t.cursor.col)
      (if_elim (Safe (Redraws t)) t.modes.autowrap
        (Safe-trans t (move_col t 0) _ (move_to-Redraws t 0 t.cursor.row s)
          (line_feed-Redraws (move_col t 0) (kept t _ _ _ _ _ _ s)))
        (move_to-Redraws t ((grid t).cols - 1) t.cursor.row s))
      (same_grid t t s refl)

write_cell-Redraws :
    (t : Terminal) (ch : ℕ) (wide : Bool) → IsValid t → Redraws t (write_cell t ch wide)
unfolding write_cell
write_cell-Redraws t ch wide v =
    let x = pen_cell t.pen ch wide in
    let first = written-Redraws t t.cursor.col t.cursor.row x v.shape in
    let again = written_cell-IsValid t t.cursor.col t.cursor.row x v in
    if_elim (Redraws t) (wide && ltb (t.cursor.col + 1) (grid t).cols)
      (Tracks-trans first (written-Redraws _ (t.cursor.col + 1) t.cursor.row _ again.shape)) first

write_char-Redraws : (t : Terminal) (ch width : ℕ) → IsValid t → Redraws t (write_char t ch width)
unfolding write_char
write_char-Redraws t ch width v = Tracks-trans (write_cell-Redraws t ch (width == 2) v) (
    move_to-Redraws (write_cell t ch (width == 2)) _ (write_cell t ch (width == 2)).cursor.row
      (write_cell-IsValid t ch (width == 2) v).0.shape)

written-char :
    (t : Terminal) (ch width : ℕ) (o : Option Terminal)
    → Safe IsReady o
    → Safe (Redraws t) o
    → Safe (Redraws t) (elim o [ none ↦ none | some t' ↦ some (write_char t' ch width) ])
written-char t ch width none r d = tt
written-char t ch width (some t') r d = Tracks-trans d (write_char-Redraws t' ch width r.0)

pub put_char-Redraws :
    (u : Unicode) (t : Terminal) (ch : ℕ) → IsValid t → Safe (Redraws t) (put_char u t ch)
unfolding put_char
put_char-Redraws u t ch v =
    if_elim (Safe (Redraws t)) (width_or_one (u.width ch) == 0) (put_combining-Redraws t ch v.shape)
      (written-char t ch (width_or_one (u.width ch)) (wrap_cursor t) (wrap_cursor-IsReady t v)
        (wrap_cursor-Redraws t v.shape))
