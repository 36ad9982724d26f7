-- ===== src/Engine/Terminal/Print.antt =====
-- `put_char` of rust/choosh-terminal-engine/src/terminal.rs against the invariant of the terminal.
use choosh.Prelude.{
  ℕ, ◌++◌, [], ◌∷◌, if_elim, ◌+◌, ◌≤◌, ◌<◌, ◌≡◌, refl, ap, ◌∙◌, Bool, true, ◌&&◌, Option, none,
  some, ltb, leb, ◌==◌, arith, if_split,
}
use choosh.Engine.Grid.{Cursor}
use choosh.Engine.Grid.{Cell, blank, set_cell}
use choosh.Engine.Terminal.{
  Terminal, Unicode, grid, with_grid, on_grid, move_col, line_feed, put_combining, wrap_cursor,
  write_char, write_cell, pen_cell, width_or_one, put_char,
}
use choosh.Engine.Terminal.Invariant.{
  IsValid, Safe, grid-cols, with_grid_rest, with_grid_size, written-Safe, move_to-IsValid,
  scroll_up-Like, set_cell-Like, written_cell-IsValid, line_feed-IsValid,
}

written-combining :
    (t : Terminal) (col row ch : ℕ) (o : Option Cell)
    → IsValid t
    → IsValid (elim o [
      | none ↦ t
      | some c ↦ on_grid (λ g. set_cell g col row (record c { text = c.text ++ ch ∷ [] })) t
    ])
written-combining t col row ch none v = v
written-combining t col row ch (some c) v = written_cell-IsValid t col row _ v

put_combining-IsValid : (t : Terminal) (ch : ℕ) → IsValid t → IsValid (put_combining t ch)
unfolding put_combining
put_combining-IsValid t ch v = written-combining t _ t.cursor.row ch _ v

-- A line feed leaves the column of the cursor and the width of the grid alone.
abbrev SameColumn : Terminal → Terminal → Type 0
SameColumn t t' = (t'.cursor.col ≡ t.cursor.col) × (t'.primary.cols ≡ t.primary.cols)

line_feed-SameColumn : (t : Terminal) → IsValid t → Safe (SameColumn t) (line_feed t)
unfolding line_feed
line_feed-SameColumn t v =
    if_split (Safe (SameColumn t)) (t.cursor.row == t.scroll_bottom)
      (λ _. written-Safe (SameColumn t) t _ λ g e. (
        ap (λ (c : Cursor). c.col) (with_grid_rest t g).0,
        (with_grid_size t g v.shape (scroll_up-Like t _ _ 1 g v.shape (omega arith) e)).0,
      ))
      (λ _.
        if_split (Safe (SameColumn t)) (ltb (t.cursor.row + 1) (grid t).rows) (λ room. (refl, refl))
          (λ _. (refl, refl)))

-- The cursor stands on a column of the grid.
abbrev pub IsReady : Terminal → Type 0
IsReady t = IsValid t × (t.cursor.col < t.primary.cols)

Safe-× :
    (P Q R : Terminal → Type 0) (o : Option Terminal)
    → ((t : Terminal) → P t → Q t → R t)
    → Safe P o
    → Safe Q o
    → Safe R o
Safe-× P Q R none h p q = tt
Safe-× P Q R (some t) h p q = h t p q

pub wrap_cursor-IsReady : (t : Terminal) → IsValid t → Safe IsReady (wrap_cursor t)
unfolding wrap_cursor
wrap_cursor-IsReady t v =
    if_split (Safe IsReady) (leb (grid t).cols t.cursor.col)
      (λ _.
        if_split (Safe IsReady) t.modes.autowrap
          (λ _.
            let home = move_to-IsValid t 0 t.cursor.row v.shape (omega arith) v.row_fits in
            Safe-× IsValid (SameColumn (move_col t 0)) IsReady _
              (λ t' p q. (p, omega (arith, q.0, q.1, v.shape.some_cols)))
              (line_feed-IsValid (move_col t 0) home) (line_feed-SameColumn (move_col t 0) home))
          (λ _. (
            move_to-IsValid t _ _ v.shape (omega (arith, grid-cols t v.shape)) v.row_fits,
            omega (arith, grid-cols t v.shape, v.shape.some_cols),
          )))
      (λ inside. (v, ground (arith, grid-cols t v.shape)))

-- A write of one cell keeps the width, and the column of the cursor.
written_cell-SameColumn :
    (t : Terminal) (c r : ℕ) (x : Cell)
    → IsValid t
    → SameColumn t (with_grid t (set_cell (grid t) c r x))
written_cell-SameColumn t c r x v = (
  ap (λ (k : Cursor). k.col) (with_grid_rest t (set_cell (grid t) c r x)).0,
  (with_grid_size t _ v.shape (set_cell-Like t c r x v.shape)).0,
)

pub write_cell-IsValid :
    (t : Terminal) (ch : ℕ) (wide : Bool)
    → IsValid t
    → IsValid (write_cell t ch wide) × SameColumn t (write_cell t ch wide)
unfolding write_cell
write_cell-IsValid t ch wide v =
    let x = pen_cell t.pen ch wide in
    let first = written_cell-IsValid t t.cursor.col t.cursor.row x v in
    let same = written_cell-SameColumn t t.cursor.col t.cursor.row x v in
    if_elim (λ u. IsValid u × SameColumn t u) (wide && ltb (t.cursor.col + 1) (grid t).cols)
      (
        written_cell-IsValid _ (t.cursor.col + 1) t.cursor.row
            (record blank { wide_continuation = true }) first,
        (
          (written_cell-SameColumn _ (t.cursor.col + 1) t.cursor.row
                (record blank { wide_continuation = true }) first).0
              ∙ same.0,
          (written_cell-SameColumn _ (t.cursor.col + 1) t.cursor.row
                (record blank { wide_continuation = true }) first).1
              ∙ same.1,
        ),
      )
      (first, same)

write_char-IsValid :
    (t : Terminal) (ch width : ℕ) → IsReady t → width ≤ 3 → IsValid (write_char t ch width)
unfolding write_char
write_char-IsValid t ch width (v, ready) h =
    let written = write_cell-IsValid t ch (width == 2) v in
    move_to-IsValid (write_cell t ch (width == 2)) _ _ written.0.shape (ground (arith, written.1.1))
      written.0.row_fits

narrow_width : (o : Option ℕ) → ((w : ℕ) → o ≡ some w → w ≤ 3) → width_or_one o ≤ 3
narrow_width none h = omega arith
narrow_width (some w) h = h w refl

written-char :
    (ch width : ℕ) (o : Option Terminal)
    → width ≤ 3
    → Safe IsReady o
    → Safe IsValid (elim o [ none ↦ none | some t ↦ some (write_char t ch width) ])
written-char ch width none h r = tt
written-char ch width (some t) h r = write_char-IsValid t ch width r h

-- `put_char` keeps the invariant of the terminal, where the width table gives no character more than three
-- columns.
pub put_char-IsValid :
    (u : Unicode) (t : Terminal) (ch : ℕ)
    → ((c w : ℕ) → u.width c ≡ some w → w ≤ 3)
    → IsValid t
    → Safe IsValid (put_char u t ch)
unfolding put_char
put_char-IsValid u t ch narrow v =
    if_elim (Safe IsValid) (width_or_one (u.width ch) == 0) (put_combining-IsValid t ch v) (
      written-char ch (width_or_one (u.width ch)) (wrap_cursor t)
        (narrow_width (u.width ch) (narrow ch)) (wrap_cursor-IsReady t v))
