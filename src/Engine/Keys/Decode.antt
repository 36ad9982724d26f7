-- ===== src/Engine/Keys/Decode.antt =====
-- The key encoder of rust/choosh-terminal-engine/src/keys.rs read backwards.
use choosh.Prelude.{
  ℕ, ◌+◌, ◌-◌, ◌*◌, ◌<◌, ◌≡◌, ◌↔◌, refl, Bool, true, false, ◌&&◌, [], ◌∷◌, Option, none, some, leb,
  ◌==◌, if◌then◌else◌, Bytes, arith,
}
use choosh.Engine.Modes.{Modes}
use choosh.Engine.Keys.{
  Key, char, enter, tab, backspace, delete, escape, up, down, left, right, home, end, page_up,
  page_down, f, Modifiers, to_ascii_uppercase, ctrl_byte, f_key, encode_key,
}

-- The control byte of a character is its distance from `@`, after a letter has been made a capital, and exactly the
-- 32 characters from `@` on have one.
pub ctrl_byte_lem :
    (ch b : ℕ) → (ctrl_byte ch ≡ some b) ↔ ((to_ascii_uppercase ch ≡ b'@' + b) × (b < 32))
unfolding ctrl_byte to_ascii_uppercase
ctrl_byte_lem ch b = ((λ h. ground arith), (λ h. ground arith))

-- The keys that a byte string names: a letter behind `ESC O` or `ESC [`, or a number behind `ESC [`.
unfoldable letter_key : ℕ → Option Key
letter_key c =
    if c == b'A'
    then some up
    else if c == b'B'
    then some down
    else if c == b'C'
    then some right
    else if c == b'D'
    then some left
    else if c == b'H'
    then some home
    else if c == b'F'
    then some end
    else if leb b'P' c && leb c b'S'
    then some (f (c - b'P' + 1))
    else none

unfoldable number_key : ℕ → Option Key
number_key n =
    if n == 3
    then some delete
    else if n == 5
    then some page_up
    else if n == 6
    then some page_down
    else if n == 15
    then some (f 5)
    else if leb 17 n && leb n 21
    then some (f (n - 11))
    else if leb 23 n && leb n 24
    then some (f (n - 12))
    else none

abbrev digit : ℕ → ℕ
digit c = c - b'0'

unfoldable pub decode_key : Bytes → Option Key
unfolding letter_key number_key
decode_key (c ∷ []) =
    if c == 0x0d
    then some enter
    else if c == 0x09
    then some tab
    else if c == 0x7f
    then some backspace
    else if c == 0x1b
    then some escape
    else none
decode_key (_ ∷ _ ∷ c ∷ []) = letter_key c
decode_key (_ ∷ _ ∷ d ∷ _ ∷ []) = number_key (digit d)
decode_key (_ ∷ _ ∷ d ∷ e ∷ _ ∷ []) = number_key (digit d * 10 + digit e)
decode_key _ = none

-- The keys that are not characters.
unfoldable pub IsNamed : Key → Type 0
IsNamed (char c) = ⊥
IsNamed _ = Unit {0}

-- A key of a terminal: of the function keys, the twelve.
unfoldable pub is_known : Key → Bool
is_known (f n) = leb 1 n && leb n 12
is_known _ = true

-- Take any key that is not a character, whatever the modes and the modifiers. Where it is not a function key beyond
-- F1 to F12, its bytes say which key it was, so no two such keys send the same bytes. A function key of another
-- number, as the type allows, sends no bytes, and no other key does.
pub decode_key-encode_key :
    (modes : Modes) (k : Key) (mods : Modifiers)
    → IsNamed k
    → (decode_key (encode_key modes k mods) ≡ (if is_known k then some k else none))
      × ((encode_key modes k mods ≡ []) ↔ (is_known k ≡ false))
unfolding decode_key encode_key IsNamed is_known f_key
decode_key-encode_key modes (char c) mods h = elim h [ ]
decode_key-encode_key modes (f n) mods h =
    (ground arith, ((λ e. ground arith), (λ e. ground arith)))
decode_key-encode_key modes enter mods h = (refl, ((λ e. ground arith), (λ e. ground arith)))
decode_key-encode_key modes tab mods h = (refl, ((λ e. ground arith), (λ e. ground arith)))
decode_key-encode_key modes backspace mods h = (refl, ((λ e. ground arith), (λ e. ground arith)))
decode_key-encode_key modes delete mods h = (refl, ((λ e. ground arith), (λ e. ground arith)))
decode_key-encode_key modes escape mods h = (refl, ((λ e. ground arith), (λ e. ground arith)))
decode_key-encode_key modes page_up mods h = (refl, ((λ e. ground arith), (λ e. ground arith)))
decode_key-encode_key modes page_down mods h = (refl, ((λ e. ground arith), (λ e. ground arith)))
decode_key-encode_key modes up mods h = (refl, ((λ e. ground arith), (λ e. ground arith)))
decode_key-encode_key modes down mods h = (refl, ((λ e. ground arith), (λ e. ground arith)))
decode_key-encode_key modes left mods h = (refl, ((λ e. ground arith), (λ e. ground arith)))
decode_key-encode_key modes right mods h = (refl, ((λ e. ground arith), (λ e. ground arith)))
decode_key-encode_key modes home mods h = (refl, ((λ e. ground arith), (λ e. ground arith)))
decode_key-encode_key modes end mods h = (refl, ((λ e. ground arith), (λ e. ground arith)))
