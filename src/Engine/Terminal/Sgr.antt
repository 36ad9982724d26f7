-- ===== src/Engine/Terminal/Sgr.antt =====
-- `apply_sgr` and `extended_color` of rust/choosh-terminal-engine/src/terminal.rs. The loop takes fuel: one
-- unit for each group of parameters.
use choosh.Prelude.{
  ℕ, zero, suc, ◌+◌, ◌-◌, Bool, true, false, ◌&&◌, List, [], ◌∷◌, Option, none, some, leb, ◌==◌,
  if◌then◌else◌, length,
}
use choosh.Engine.Color.{Color, default_color, indexed, rgb}
use choosh.Engine.Terminal.{Pen, default_pen}

-- The groups of parameters of one sequence.
abbrev pub Params : Type 0
Params = List (List ℕ)

-- `u8::try_from(*iter.next()?.first()?).ok()?`: the value, if there is one, and the groups left.
unfoldable pub next_byte : Params → Option ℕ × Params
next_byte [] = (none, [])
next_byte ([] ∷ rest) = (none, rest)
next_byte ((v ∷ _) ∷ rest) = (if leb v 255 then some v else none, rest)

unfoldable pub indexed_color : Params → Option Color × Params
unfolding next_byte
indexed_color ps = elim (next_byte ps).0 [
  | none ↦ (none, (next_byte ps).1)
  | some n ↦ (some (indexed n), (next_byte ps).1)
]

unfoldable pub rgb_color : Params → Option Color × Params
unfolding next_byte
rgb_color ps =
    let after_r = (next_byte ps).1 in
    let after_g = (next_byte after_r).1 in
    elim (next_byte ps).0 [
      | none ↦ (none, after_r)
      | some r ↦ elim (next_byte after_r).0 [
        | none ↦ (none, after_g)
        | some g ↦ elim (next_byte after_g).0 [
          | none ↦ (none, (next_byte after_g).1)
          | some b ↦ (some (rgb r g b), (next_byte after_g).1)
        ]
      ]
    ]

-- The colour, and the groups that the iterator has left.
unfoldable pub extended_color : Params → Option Color × Params
unfolding indexed_color rgb_color
extended_color [] = (none, [])
extended_color ([] ∷ rest) = (none, rest)
extended_color ((v ∷ _) ∷ rest) =
    if v == 5 then indexed_color rest else if v == 2 then rgb_color rest else (none, rest)

abbrev pub or_color : Option Color → Color → Color
or_color none c = c
or_color (some d) c = d

abbrev within : ℕ → ℕ → ℕ → Bool
within lo hi v = leb lo v && leb v hi

-- The arms of the match that take no further parameters.
unfoldable pub sgr_code : ℕ → Pen → Pen
sgr_code code pen =
    if code == 0
    then default_pen pen.hyperlink
    else if code == 1
    then record pen { bold = true }
    else if code == 3
    then record pen { italic = true }
    else if code == 4
    then record pen { underline = true }
    else if code == 7
    then record pen { inverse = true }
    else if code == 9
    then record pen { strikethrough = true }
    else if code == 22
    then record pen { bold = false }
    else if code == 23
    then record pen { italic = false }
    else if code == 24
    then record pen { underline = false }
    else if code == 27
    then record pen { inverse = false }
    else if code == 29
    then record pen { strikethrough = false }
    else if within 30 37 code
    then record pen { fg = indexed (code - 30) }
    else if code == 39
    then record pen { fg = default_color }
    else if within 40 47 code
    then record pen { bg = indexed (code - 40) }
    else if code == 49
    then record pen { bg = default_color }
    else if within 90 97 code
    then record pen { fg = indexed (code - 90 + 8) }
    else if within 100 107 code
    then record pen { bg = indexed (code - 100 + 8) }
    else pen

abbrev pub first_or_zero : List ℕ → ℕ
first_or_zero [] = 0
first_or_zero (v ∷ _) = v

-- One round: the pen, and the groups that are left.
unfoldable pub sgr_round : List ℕ → Params → Pen → Pen × Params
unfolding extended_color sgr_code
sgr_round group rest pen =
    let code = first_or_zero group in
    let (color, left) = extended_color rest in
    if code == 38
    then (record pen { fg = or_color color pen.fg }, left)
    else if code == 48
    then (record pen { bg = or_color color pen.bg }, left)
    else (sgr_code code pen, rest)

unfoldable pub sgr_loop : ℕ → Params → Pen → Pen
unfolding sgr_round
sgr_loop fuel [] pen = pen
sgr_loop zero (group ∷ rest) pen = pen
sgr_loop (suc fuel) (group ∷ rest) pen =
    let (pen', left) = sgr_round group rest pen in sgr_loop fuel left pen'

unfoldable pub apply_sgr : Params → Pen → Pen
unfolding sgr_loop
apply_sgr ps pen = sgr_loop (length ps) ps pen
