-- ===== src/Engine/Keys.antt =====
-- rust/choosh-terminal-engine/src/keys.rs: the bytes that a key press or a paste sends. Characters are code
-- points, and `to_utf8` is the encoding that `to_string().into_bytes()` gives them.
pub mod Decode
use choosh.Prelude.{
  ℕ, zero, suc, ◌+◌, ◌-◌, ◌*◌, ◌/◌, ◌%◌, Bool, true, false, ◌&&◌, List, [], ◌∷◌, ◌++◌, Option, none,
  some, ltb, leb, ◌==◌, if◌then◌else◌, Bytes,
}
use choosh.Engine.Modes.{Modes}

pub data Key : Type 0 where
  char : ℕ → Key
  enter tab backspace delete escape up down left right home end page_up page_down : Key
  f : ℕ → Key

pub record Modifiers : Type 0 where
  pub ctrl : Bool
  pub alt : Bool
  pub shift : Bool

unfoldable pub to_utf8 : ℕ → Bytes
to_utf8 c =
    if ltb c 0x80
    then c ∷ []
    else if ltb c 0x800
    then (0xc0 + c / 64) ∷ (0x80 + c % 64) ∷ []
    else if ltb c 0x10000
    then (0xe0 + c / 4096) ∷ (0x80 + c / 64 % 64) ∷ (0x80 + c % 64) ∷ []
    else (0xf0 + c / 262144) ∷ (0x80 + c / 4096 % 64) ∷ (0x80 + c / 64 % 64) ∷ (0x80 + c % 64) ∷ []

unfoldable pub to_ascii_uppercase : ℕ → ℕ
to_ascii_uppercase c = if leb b'a' c && leb c b'z' then c - 32 else c

abbrev is_ascii_uppercase : ℕ → Bool
is_ascii_uppercase c = leb b'A' c && leb c b'Z'

unfoldable pub ctrl_byte : ℕ → Option ℕ
unfolding to_ascii_uppercase
ctrl_byte ch =
    let upper = to_ascii_uppercase ch in
    if is_ascii_uppercase upper
    then some (upper - b'A' + 1)
    else if ch == 0x40
    then some 0x00
    else if ch == 0x5b
    then some 0x1b
    else if ch == 0x5c
    then some 0x1c
    else if ch == 0x5d
    then some 0x1d
    else if ch == 0x5e
    then some 0x1e
    else if ch == 0x5f
    then some 0x1f
    else none

-- The escape character, before the rest of a sequence.
abbrev escaped : Bytes → Bytes
escaped bs = 0x1b ∷ bs

abbrev pub arrow : Bool → ℕ → Bytes
arrow application_mode letter = escaped ((if application_mode then b'O' else b'[') ∷ letter ∷ [])

-- `ESC [ a b ~`
abbrev tilde : ℕ → ℕ → Bytes
tilde a b = escaped (b'[' ∷ a ∷ b ∷ b'~' ∷ [])

unfoldable pub f_key : ℕ → Bytes
f_key n =
    if leb 1 n && leb n 4
    then escaped (b'O' ∷ (b'P' + (n - 1)) ∷ [])
    else if n == 5
    then tilde b'1' b'5'
    else if n == 6
    then tilde b'1' b'7'
    else if n == 7
    then tilde b'1' b'8'
    else if n == 8
    then tilde b'1' b'9'
    else if n == 9
    then tilde b'2' b'0'
    else if n == 10
    then tilde b'2' b'1'
    else if n == 11
    then tilde b'2' b'3'
    else if n == 12
    then tilde b'2' b'4'
    else []

unfoldable pub encode_char : ℕ → Modifiers → Bytes
unfolding ctrl_byte to_utf8
encode_char ch mods = elim (if mods.ctrl then ctrl_byte ch else none) [
  | some byte ↦ byte ∷ []
  | none ↦ if mods.alt then escaped (to_utf8 ch) else to_utf8 ch
]

-- `encode`
unfoldable pub encode_key : Modes → Key → Modifiers → Bytes
unfolding encode_char f_key
encode_key modes (char ch) mods = encode_char ch mods
encode_key modes enter mods = 0x0d ∷ []
encode_key modes tab mods = 0x09 ∷ []
encode_key modes backspace mods = 0x7f ∷ []
encode_key modes delete mods = escaped (b'[' ∷ b'3' ∷ b'~' ∷ [])
encode_key modes escape mods = 0x1b ∷ []
encode_key modes up mods = arrow modes.application_cursor_keys b'A'
encode_key modes down mods = arrow modes.application_cursor_keys b'B'
encode_key modes right mods = arrow modes.application_cursor_keys b'C'
encode_key modes left mods = arrow modes.application_cursor_keys b'D'
encode_key modes home mods = arrow modes.application_cursor_keys b'H'
encode_key modes end mods = arrow modes.application_cursor_keys b'F'
encode_key modes page_up mods = escaped (b'[' ∷ b'5' ∷ b'~' ∷ [])
encode_key modes page_down mods = escaped (b'[' ∷ b'6' ∷ b'~' ∷ [])
encode_key modes (f n) mods = f_key n

-- The marks around a bracketed paste.
abbrev pub paste_mark : ℕ → Bytes
paste_mark d = escaped (b'[' ∷ b'2' ∷ b'0' ∷ d ∷ b'~' ∷ [])

unfoldable pub encode_paste : Modes → Bytes → Bytes
encode_paste modes paste =
    if modes.bracketed_paste then paste_mark b'0' ++ paste ++ paste_mark b'1' else paste
