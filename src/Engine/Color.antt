-- ===== src/Engine/Color.antt =====
-- rust/choosh-terminal-engine/src/color.rs: colours and the 256-colour palette.
pub mod Palette
use choosh.Prelude.{ℕ, ◌+◌, ◌-◌, ◌*◌, ◌/◌, ◌%◌, List, [], ◌∷◌, ltb, ◌==◌, if◌then◌else◌, get_or}

pub data Color : Type 0 where
  default_color : Color
  indexed : ℕ → Color
  rgb : ℕ → ℕ → ℕ → Color

pub record Rgb : Type 0 where
  pub red : ℕ
  pub green : ℕ
  pub blue : ℕ

abbrev black : Rgb
black = record { red = 0; green = 0; blue = 0 }

abbrev pub triple : ℕ → ℕ → ℕ → Rgb
triple r g b = record { red = r; green = g; blue = b }

pub palette : List Rgb
palette =
    triple 0 0 0
    ∷ triple 170 0 0
    ∷ triple 0 170 0
    ∷ triple 170 170 0
    ∷ triple 0 0 170
    ∷ triple 170 0 170
    ∷ triple 0 170 170
    ∷ triple 170 170 170
    ∷ triple 85 85 85
    ∷ triple 255 85 85
    ∷ triple 85 255 85
    ∷ triple 255 255 85
    ∷ triple 85 85 255
    ∷ triple 255 85 255
    ∷ triple 85 255 255
    ∷ triple 255 255 255
    ∷ []

-- A level of the colour cube, cast to `u8`.
pub to_level : ℕ → ℕ
to_level v = if v == 0 then 0 else (55 + v * 40) % 256

abbrev cube : ℕ → Rgb
unfolding to_level
cube i = triple (to_level (i / 36)) (to_level (i / 6 % 6)) (to_level (i % 6))

abbrev pub grey : ℕ → Rgb
grey v = triple v v v

unfoldable pub palette_color : ℕ → Rgb
unfolding palette to_level
palette_color index =
    if ltb index 16
    then get_or palette index black
    else if ltb index 232
    then cube (index - 16)
    else grey ((8 + (index - 232) * 10) % 256)

-- `Color::to_rgb`
unfoldable pub to_rgb : Color → Rgb → Rgb
unfolding palette_color
to_rgb default_color default_rgb = default_rgb
to_rgb (indexed index) default_rgb = palette_color index
to_rgb (rgb r g b) default_rgb = triple r g b
