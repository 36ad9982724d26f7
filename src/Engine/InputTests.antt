-- ===== src/Engine/InputTests.antt =====
-- Witnesses for the resize, the deletion, the damage and the encoders of rust/choosh-terminal-engine, on inputs of its
-- unit tests.
use choosh.Prelude.{
  ℕ, ◌/◌, ◌%◌, ◌≡◌, ◌↔◌, refl, true, false, List, [], ◌∷◌, some, none, ltb, ◌==◌, if◌then◌else◌,
  arith,
}
use choosh.Engine.Color.{triple, palette_color}
use choosh.Engine.Color.Palette.{palette_color_lem}
use choosh.Engine.Modes.{default_modes}
use choosh.Engine.Keys.{f, Modifiers, ctrl_byte, to_ascii_uppercase, encode_key}
use choosh.Engine.Keys.Decode.{decode_key, IsNamed, is_known, ctrl_byte_lem, decode_key-encode_key}
use choosh.Engine.Mouse.{MouseEvent, left, press, event_code}
use choosh.Engine.Mouse.Bits.{event_code_bits}
use choosh.Engine.Grid.{Cell, blank, Grid, cell, new_grid}
use choosh.Engine.Grid
use choosh.Engine.Grid.Cells.{IsValid as GridIsValid}
use choosh.Engine.Grid.Resize.{cell-resize}
use choosh.Engine.Terminal.{Terminal, Unicode, Pen, new_terminal, grid}
use choosh.Engine.Terminal
use choosh.Engine.Terminal.Csi.{delete_chars}
use choosh.Engine.Terminal.Perform.{Action, print, execute, csi, run_actions}
use choosh.Engine.Terminal.Invariant.{IsValid, Safe}
use choosh.Engine.Terminal.Runs.{Narrow, new_terminal-IsValid}
use choosh.Engine.Terminal.Redraw.{Redraws}
use choosh.Engine.Terminal.Damage.{run_actions-Redraws}
use choosh.Engine.Terminal.Resizing.{resize-IsValid}
use choosh.Engine.Terminal.Deletion.{cell-delete_chars}

-- The widths that unicode-width has for control characters, for ASCII, for U+1100 and for U+17D8.
abbrev widths : Unicode
widths = record {
  width = λ c.
      if ltb c 32
      then none
      else if c == 0x1100
      then some 2
      else if c == 0x17d8
      then some 3
      else some 1;
  from_utf8_lossy = λ bs. bs;
}

widths-Narrow : Narrow widths
widths-Narrow c w h = ground arith

screen-IsValid : IsValid (new_terminal 4 2)
screen-IsValid = new_terminal-IsValid 4 2 (omega arith) (omega arith)

-- Text, a switch to the other screen, and more text.
abbrev session : List Action
session =
    print b'h'
    ∷ execute 0x0a
    ∷ csi ((1049 ∷ []) ∷ []) (b'?' ∷ []) b'h'
    ∷ print 0x17d8
    ∷ print 0x1100
    ∷ csi ((2 ∷ []) ∷ []) [] b'J'
    ∷ []

run_actions-Redraws_example :
    Safe (Redraws (new_terminal 4 2)) (run_actions widths (new_terminal 4 2) session)
run_actions-Redraws_example =
    run_actions-Redraws widths session (new_terminal 4 2) widths-Narrow screen-IsValid

resize-IsValid_example :
    IsValid (Terminal.resize (new_terminal 4 2) 0 7)
    × ((Terminal.resize (new_terminal 4 2) 0 7).primary.cols ≡ 1)
    × ((Terminal.resize (new_terminal 4 2) 0 7).primary.rows ≡ 7)
resize-IsValid_example =
    resize-IsValid (new_terminal 4 2) 0 7 screen-IsValid.shape.primary_valid
      screen-IsValid.shape.alt_valid (omega arith) (omega arith)

abbrev letter : ℕ → Cell
letter c = record blank { text = c ∷ [] }

-- Two rows of two columns, with letters on the first.
abbrev pair : Grid
pair = record {
  cols = 2;
  rows = 2;
  cells = letter b'a' ∷ letter b'b' ∷ blank ∷ blank ∷ [];
  dirty = true ∷ true ∷ [];
}

pair-IsValid : GridIsValid pair
pair-IsValid = record { cells_size = refl; dirty_size = refl }

cell-resize_example : cell (Grid.resize pair 3 1) 1 0 ≡ some (letter b'b')
unfolding cell
cell-resize_example = (cell-resize pair 3 1 1 0 pair-IsValid (omega arith) (omega arith)).3

abbrev lettered : Terminal
lettered = record (new_terminal 2 2) { primary = pair }

lettered-IsValid : IsValid lettered
unfolding new_terminal new_grid
lettered-IsValid = record {
  shape = record {
    primary_valid = pair-IsValid;
    alt_valid = record { cells_size = refl; dirty_size = refl };
    alt_cols = refl;
    alt_rows = refl;
    some_cols = omega arith;
    some_rows = omega arith;
    cols_fit = omega arith;
    rows_fit = omega arith;
    region = omega arith;
    region_fits = omega arith;
  };
  row_fits = omega arith;
  col_fits = omega arith;
}

cell-delete_chars_example : cell (grid (delete_chars lettered 1)) 0 0 ≡ some (letter b'b')
unfolding cell grid new_terminal
cell-delete_chars_example =
    cell-delete_chars lettered 1 0 0 lettered-IsValid (omega arith) (omega arith) (omega arith)

ctrl_byte_lem_example : ctrl_byte b'c' ≡ some 3
unfolding to_ascii_uppercase
ctrl_byte_lem_example = (ctrl_byte_lem b'c' 3).1 (refl, omega arith)

abbrev no_modifiers : Modifiers
no_modifiers = record { ctrl = false; alt = false; shift = false }

decode_key-encode_key_example :
    (decode_key (encode_key default_modes (f 13) no_modifiers) ≡ none)
    × ((encode_key default_modes (f 13) no_modifiers ≡ []) ↔ (false ≡ false))
unfolding IsNamed is_known
decode_key-encode_key_example = decode_key-encode_key default_modes (f 13) no_modifiers tt

abbrev click : MouseEvent
click = record {
  col = 3;
  row = 4;
  button = left;
  action = press;
  shift = true;
  alt = false;
  ctrl = false;
}

event_code_bits_example : event_code click / 4 % 2 ≡ 1
event_code_bits_example = (event_code_bits click).0

palette_color_lem_example : palette_color 254 ≡ triple 228 228 228
palette_color_lem_example =
    (palette_color_lem 5 5 5 22 (omega arith) (omega arith) (omega arith) (omega arith)).1
