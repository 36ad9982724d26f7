-- ===== src/Engine/Terminal/Perform.antt =====
-- `impl Perform for Terminal` of rust/choosh-terminal-engine/src/terminal.rs: what the parser (the crate
-- vte, which the engine gets from outside) calls, as one action each, and a run of actions.
use choosh.Prelude.{
  ℕ, ◌+◌, ◌-◌, ◌*◌, ◌/◌, min, Bool, true, false, ◌&&◌, ◌||◌, List, [], ◌∷◌, Option, none, some, ltb,
  leb, u16_max, ◌==◌, if◌then◌else◌, Bytes,
}
use choosh.Engine.Terminal.{
  Terminal, Unicode, new_terminal, grid, move_to, move_col, clamp_cursor, line_feed, reverse_index,
  carriage_return, put_char,
}
use choosh.Engine.Terminal.Sgr.{Params}
use choosh.Engine.Terminal.Csi.{csi_dispatch}

-- `hook`, `put` and `unhook` do nothing, and are one action.
pub data Action : Type 0 where
  print execute : ℕ → Action
  device_control : Action
  osc : List Bytes → Action
  csi : Params → Bytes → ℕ → Action
  esc : ℕ → Action

-- The tab stop after the cursor.
abbrev pub next_stop : Terminal → ℕ
next_stop t = (t.cursor.col / 8 + 1) * 8

-- The product of a tab overflows near the largest `u16`.
unfoldable pub execute_byte : Terminal → ℕ → Option Terminal
execute_byte t byte =
    if byte == 0x07
    then some (record t { pending_bell = true })
    else if byte == 0x08
    then some (move_col t (t.cursor.col - 1))
    else if byte == 0x09
    then (if ltb u16_max (next_stop t)
        then none
        else some (move_col t (min (next_stop t) ((grid t).cols - 1))))
    else if leb 0x0a byte && leb byte 0x0c
    then line_feed t
    else if byte == 0x0d
    then some (carriage_return t)
    else some t

abbrev pub is_digit : Bytes → ℕ → Bool
is_digit (b ∷ []) d = b == d
is_digit _ d = false

abbrev set_title : Unicode → Terminal → List Bytes → Terminal
set_title u t [] = t
set_title u t (title ∷ _) = record t { title = u.from_utf8_lossy title }

-- An empty URI closes the link.
abbrev link_of : Unicode → Bytes → Option (List ℕ)
link_of u [] = none
link_of u (b ∷ bs) = some (u.from_utf8_lossy (b ∷ bs))

abbrev second_or_empty : List Bytes → Bytes
second_or_empty (_ ∷ uri ∷ _) = uri
second_or_empty _ = []

unfoldable pub osc_dispatch : Unicode → Terminal → List Bytes → Terminal
osc_dispatch u t [] = t
osc_dispatch u t (kind ∷ rest) =
    if is_digit kind b'0' || (is_digit kind b'1' || is_digit kind b'2')
    then set_title u t rest
    else if is_digit kind b'8'
    then record t { pen = record t.pen { hyperlink = link_of u (second_or_empty rest) } }
    else t

unfoldable pub esc_dispatch : Terminal → ℕ → Option Terminal
esc_dispatch t byte =
    if byte == b'D'
    then line_feed t
    else if byte == b'E'
    then line_feed (carriage_return t)
    else if byte == b'M'
    then reverse_index t
    else if byte == b'7'
    then some (record t { saved_cursor = record { col = t.cursor.col; row = t.cursor.row } })
    else if byte == b'8'
    then some (clamp_cursor (move_to t t.saved_cursor.col t.saved_cursor.row))
    else if byte == b'c'
    then some (new_terminal (grid t).cols (grid t).rows)
    else some t

unfoldable pub perform : Unicode → Terminal → Action → Option Terminal
perform u t (print c) = put_char u t c
perform u t (execute b) = execute_byte t b
perform u t device_control = some t
perform u t (osc ps) = some (osc_dispatch u t ps)
perform u t (csi ps intermediates action) = csi_dispatch t ps intermediates action
perform u t (esc b) = esc_dispatch t b

-- `Engine::write`, given the actions of the parser.
unfoldable pub run_actions : Unicode → Terminal → List Action → Option Terminal
unfolding perform
run_actions u t [] = some t
run_actions u t (a ∷ as_left) = elim (perform u t a) [
  | none ↦ none
  | some t' ↦ run_actions u t' as_left
]
