-- ===== src/Engine/Tests.antt =====
-- Runs of rust/choosh-terminal-engine on the inputs of its unit tests, and witnesses.
use choosh.Prelude.{
  ℕ, ◌≡◌, refl, true, List, [], ◌∷◌, Option, some, none, ltb, ◌==◌, if◌then◌else◌, arith,
}
use choosh.Engine.Grid.{
  Cell, blank, Grid, new_grid, cell, set_cell, scroll_up, scroll_down, visible_text,
}
use choosh.Engine.Grid.Cells.{new_grid-IsValid}
use choosh.Engine.Grid.Cells
use choosh.Engine.Grid.Scroll.{Like}
use choosh.Engine.Grid.Regions.{scroll_up_panics, scroll_up_lem, scroll_down_lem}
use choosh.Engine.Terminal.{
  Terminal, Unicode, new_terminal, grid, put_char, wrap_cursor, write_char, write_cell, with_grid,
  line_feed,
}
use choosh.Engine.Terminal.Perform.{Action, print, execute, run_actions, execute_byte}
use choosh.Engine.Terminal.Invariant.{IsValid, Safe}
use choosh.Engine.Terminal.Runs.{Narrow, new_terminal-IsValid, run_actions-IsValid}

-- The widths that unicode-width has for control characters, for ASCII, for U+1100 and for U+17D8.
abbrev widths : Unicode
widths = record {
  width = λ c.
      if ltb c 32
      then none
      else if c == 0x1100
      then some 2
      else if c == 0x17d8
      then some 3
      else some 1;
  from_utf8_lossy = λ bs. bs;
}

widths-Narrow : Narrow widths
widths-Narrow c w h = ground arith

abbrev hello : List Action
hello = print b'h' ∷ print b'i' ∷ execute 0x0d ∷ execute 0x0a ∷ print b'!' ∷ []

abbrev text_of : Option Terminal → Option (List ℕ)
text_of none = none
text_of (some t) = some (visible_text (grid t))

hello_text :
    text_of (run_actions widths (new_terminal 4 2) hello) ≡ some (b'h' ∷ b'i' ∷ 0x0a ∷ b'!' ∷ [])
unfolding run_actions put_char wrap_cursor grid new_terminal new_grid write_char write_cell
    with_grid set_cell execute_byte line_feed visible_text
hello_text = refl

abbrev letter : ℕ → Cell
letter c = record blank { text = c ∷ [] }

-- Three rows of two columns, with a letter on the middle one.
abbrev middle : Grid
middle = record {
  cols = 2;
  rows = 3;
  cells = blank ∷ blank ∷ letter b'a' ∷ blank ∷ blank ∷ blank ∷ [];
  dirty = true ∷ true ∷ true ∷ [];
}

scroll_up_panics_example : scroll_up middle 0 2 3 ≡ none
scroll_up_panics_example = (scroll_up_panics middle 0 2 3).1 (refl, omega arith, omega arith)

middle-IsValid : Cells.IsValid middle
middle-IsValid = record { cells_size = refl; dirty_size = refl }

abbrev top : Grid
top = record {
  cols = 2;
  rows = 3;
  cells = letter b'a' ∷ blank ∷ blank ∷ blank ∷ blank ∷ blank ∷ [];
  dirty = true ∷ true ∷ true ∷ [];
}

abbrev low : Grid
low = record {
  cols = 2;
  rows = 3;
  cells = blank ∷ blank ∷ blank ∷ blank ∷ letter b'a' ∷ blank ∷ [];
  dirty = true ∷ true ∷ true ∷ [];
}

middle_up : scroll_up middle 0 2 1 ≡ some top
unfolding scroll_up
middle_up = refl

middle_down : scroll_down middle 0 2 1 ≡ some low
unfolding scroll_down
middle_down = refl

scroll_up_lem_example : Like middle top × (cell top 0 0 ≡ some (letter b'a'))
unfolding cell
scroll_up_lem_example = scroll_up_lem 0 2 1 0 0 middle-IsValid (omega arith) middle_up (omega arith)

scroll_down_lem_example : Like middle low × (cell low 0 2 ≡ some (letter b'a'))
unfolding cell
scroll_down_lem_example =
    scroll_down_lem 0 2 1 0 2 middle-IsValid (omega arith) middle_down (omega arith)

small-IsValid : IsValid (new_terminal 4 2)
small-IsValid = new_terminal-IsValid 4 2 (omega arith) (omega arith)

run_actions-IsValid_example :
    Safe IsValid (run_actions widths (new_terminal 4 2) (print 0x17d8 ∷ hello))
run_actions-IsValid_example =
    run_actions-IsValid widths (print 0x17d8 ∷ hello) (new_terminal 4 2) widths-Narrow small-IsValid
