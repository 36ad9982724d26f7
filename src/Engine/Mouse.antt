-- ===== src/Engine/Mouse.antt =====
-- rust/choosh-terminal-engine/src/mouse.rs: the SGR report of a mouse event.
pub mod Bits
use choosh.Prelude.{
  ℕ, zero, suc, ◌+◌, ◌-◌, ◌*◌, ◌/◌, ◌%◌, Bool, true, false, not, ◌&&◌, ◌||◌, List, [], ◌∷◌, ◌++◌,
  Option, none, some, ltb, leb, ◌==◌, if◌then◌else◌, Bytes, u16_max,
}
use choosh.Engine.Modes.{Modes, MouseTracking, no_tracking, normal, button_event, any_event}

pub data MouseButton : Type 0 where
  left middle right scroll_up scroll_down no_button : MouseButton

pub data MouseAction : Type 0 where
  press release motion : MouseAction

pub record MouseEvent : Type 0 where
  pub col : ℕ
  pub row : ℕ
  pub button : MouseButton
  pub action : MouseAction
  pub shift : Bool
  pub alt : Bool
  pub ctrl : Bool

abbrev pub is_motion : MouseAction → Bool
is_motion motion = true
is_motion _ = false

abbrev pub is_no_button : MouseButton → Bool
is_no_button no_button = true
is_no_button _ = false

-- Whether the mode of the terminal lets the event through.
unfoldable pub allowed : MouseTracking → MouseEvent → Bool
allowed no_tracking e = false
allowed normal e = not (is_motion e.action)
allowed button_event e = not (is_motion e.action) || not (is_no_button e.button)
allowed any_event e = true

abbrev pub button_code : MouseButton → ℕ
button_code left = 0
button_code middle = 1
button_code right = 2
button_code scroll_up = 64
button_code scroll_down = 65
button_code no_button = 35

-- `code |= bit` for a power of two.
abbrev pub or_bit : ℕ → Bool → ℕ → ℕ
or_bit bit enabled code =
    if enabled then (if code / bit % 2 == 1 then code else code + bit) else code

unfoldable pub event_code : MouseEvent → ℕ
event_code e =
    or_bit 32 (is_motion e.action)
      (or_bit 16 e.ctrl (or_bit 8 e.alt (or_bit 4 e.shift (button_code e.button))))

-- Decimal digits; the fuel is one more than the number of digits that follow the first.
abbrev pub digits_on : ℕ → ℕ → Bytes → Bytes
digits_on zero n rest = rest
digits_on (suc fuel) n rest =
    let longer = digits_on fuel (n / 10) ((b'0' + n % 10) ∷ rest) in
    if ltb n 10 then (b'0' + n) ∷ rest else longer

-- `format!("{}", n)` for a `u16`.
unfoldable pub decimal : ℕ → Bytes
decimal n = digits_on 5 n []

abbrev final_byte : MouseAction → ℕ
final_byte release = b'm'
final_byte _ = b'M'

-- What `encode` does: the event is not to be forwarded, or `col + 1` or `row + 1` overflows, or this is
-- sent.
pub data Report : Type 0 where
  dropped overflowed : Report
  sent : Bytes → Report

unfoldable pub encode_mouse : Modes → MouseEvent → Report
unfolding allowed event_code decimal
encode_mouse modes e =
    if allowed modes.mouse_tracking e
    then (if leb u16_max e.col || leb u16_max e.row
        then overflowed
        else sent (
            0x1b ∷ b'[' ∷ b'<' ∷ decimal (event_code e)
            ++ b';' ∷ decimal (e.col + 1)
            ++ b';' ∷ decimal (e.row + 1)
            ++ final_byte e.action ∷ []))
    else dropped
