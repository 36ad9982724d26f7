-- ===== src/Engine/Color/Palette.antt =====
-- The 256-colour palette of rust/choosh-terminal-engine/src/color.rs: the cube and the grey ramp.
use choosh.Prelude.{
  ℕ, ◌+◌, ◌-◌, ◌*◌, ◌/◌, ◌%◌, ◌≤◌, ◌<◌, ◌≡◌, refl, ◌∙◌, arith, le→ltb, lt→ltb, ◌==◌, if◌then◌else◌,
}
use choosh.Engine.Color.{triple, to_level, palette_color}

-- The levels of one channel of the cube, 0 and then from 95 to 255 in steps of 40.
abbrev pub level : ℕ → ℕ
level v = if v == 0 then 0 else 55 + v * 40

to_level-eq : (v : ℕ) → v < 6 → to_level v ≡ level v
unfolding to_level
to_level-eq v h = ground arith

in_cube :
    (i r g b : ℕ)
    → 16 ≤ i
    → i < 232
    → (i - 16) / 36 ≡ r
    → (i - 16) / 6 % 6 ≡ g
    → (i - 16) % 6 ≡ b
    → palette_color i ≡ triple (to_level r) (to_level g) (to_level b)
unfolding palette_color to_level
in_cube i r g b lo hi er eg eb = rw (le→ltb i 16 lo, lt→ltb i 232 hi, er, eg, eb) refl

in_ramp : (i v : ℕ) → 232 ≤ i → (8 + (i - 232) * 10) % 256 ≡ v → palette_color i ≡ triple v v v
unfolding palette_color
in_ramp i v lo e = rw (le→ltb i 16 (omega arith), le→ltb i 232 lo, e) refl

-- Above the 16 named colours the palette is a cube of 6 levels for each channel, in the order red, green, blue, and
-- then a ramp of 24 greys from 8 in steps of 10; no level is cut to fit a byte.
pub palette_color_lem :
    (r g b v : ℕ)
    → r < 6
    → g < 6
    → b < 6
    → v < 24
    → (palette_color (16 + r * 36 + g * 6 + b) ≡ triple (level r) (level g) (level b))
      × (palette_color (232 + v) ≡ triple (8 + v * 10) (8 + v * 10) (8 + v * 10))
palette_color_lem r g b v hr hg hb hv = (
  in_cube (16 + r * 36 + g * 6 + b) r g b (omega arith) (omega arith) (omega arith) (omega arith)
        (omega arith)
      ∙ rw (to_level-eq r hr, to_level-eq g hg, to_level-eq b hb) refl,
  in_ramp (232 + v) (8 + v * 10) (omega arith) (omega arith),
)
