-- ===== src/Engine/Mouse/Bits.antt =====
-- The code of a mouse report (rust/choosh-terminal-engine/src/mouse.rs), bit by bit.
use choosh.Prelude.{ℕ, ◌+◌, ◌*◌, ◌/◌, ◌%◌, ◌≤◌, ◌<◌, ◌≡◌, ap, ◌∙◌, Bool, ◌||◌, if◌then◌else◌, arith}
use choosh.Engine.Mouse.{
  MouseEvent, MouseButton, is_motion, is_no_button, event_code, button_code, or_bit,
}

abbrev bit : Bool → ℕ
bit b = if b then 1 else 0

bit_small : (b : Bool) → bit b ≤ 1
bit_small b = ground arith

-- A bit that is clear is added.
or_clear : (b c : ℕ) (on : Bool) → c / b % 2 ≡ 0 → or_bit b on c ≡ c + b * bit on
or_clear b c on h = ground arith

low_bits :
    (c : ℕ) (s t k : Bool)
    → c % 32 < 4
    → or_bit 16 k (or_bit 8 t (or_bit 4 s c)) ≡ c + 4 * bit s + 8 * bit t + 16 * bit k
low_bits c s t k h =
    let at_4 = or_clear 4 c s (omega arith) in
    let at_8 = or_clear 8 (or_bit 4 s c) t (omega (arith, at_4, bit_small s)) in
    let at_16 =
      or_clear 16 (or_bit 8 t (or_bit 4 s c)) k
        (omega (arith, at_4, at_8, bit_small s, bit_small t)) in
    omega (arith, at_4, at_8, at_16)

button_low :
    (b : MouseButton) → (button_code b % 32 < 4) × (button_code b / 32 % 2 ≡ bit (is_no_button b))
button_low b = ground arith

top_bit :
    (x : ℕ) (on there : Bool)
    → x / 32 % 2 ≡ bit there
    → or_bit 32 on x + 32 * bit there ≡ x + 32 * bit (on || there)
top_bit x on there h = ground arith

event_code_sum :
    (e : MouseEvent)
    → event_code e + 32 * bit (is_no_button e.button)
      ≡ button_code e.button
        + 4 * bit e.shift
        + 8 * bit e.alt
        + 16 * bit e.ctrl
        + 32 * bit (is_motion e.action || is_no_button e.button)
unfolding event_code
event_code_sum e =
    let low = low_bits (button_code e.button) e.shift e.alt e.ctrl (button_low e.button).0 in
    let s = bit_small e.shift in
    let t = bit_small e.alt in
    let k = bit_small e.ctrl in
    let b = button_low e.button in
    top_bit _ (is_motion e.action) (is_no_button e.button) (omega (arith, low, s, t, k, b))
    ∙ ap (λ n. n + 32 * bit (is_motion e.action || is_no_button e.button)) low

-- In the code of a report bit 2 is shift, bit 3 alt and bit 4 control; bit 5 is set for a motion, and for an event with
-- no button; and the lowest two bits and those above bit 5 are those of the button.
pub event_code_bits :
    (e : MouseEvent)
    → (event_code e / 4 % 2 ≡ bit e.shift)
      × (event_code e / 8 % 2 ≡ bit e.alt)
      × (event_code e / 16 % 2 ≡ bit e.ctrl)
      × (event_code e / 32 % 2 ≡ bit (is_motion e.action || is_no_button e.button))
      × (event_code e % 4 ≡ button_code e.button % 4)
      × (event_code e / 64 ≡ button_code e.button / 64)
event_code_bits e =
    let sum = event_code_sum e in
    let s = bit_small e.shift in
    let t = bit_small e.alt in
    let k = bit_small e.ctrl in
    let m = bit_small (is_motion e.action || is_no_button e.button) in
    let b = button_low e.button in
    (
      omega (arith, sum, s, t, k, m, b),
      omega (arith, sum, s, t, k, m, b),
      omega (arith, sum, s, t, k, m, b),
      omega (arith, sum, s, t, k, m, b),
      omega (arith, sum, s, t, k, m, b),
      omega (arith, sum, s, t, k, m, b),
    )
