-- ===== src/Engine/Terminal/Styles.antt =====
-- What the sequences of colours and attributes ask for, apart from `apply_sgr` of
-- rust/choosh-terminal-engine/src/terminal.rs, and that it does what they ask for.
use choosh.Prelude.{ℕ, ◌+◌, ◌≤◌, Bool, true, false, List, [], ◌∷◌, ◌++◌}
use choosh.Engine.Color.{Color, default_color, indexed, rgb}
use choosh.Engine.Terminal.{Pen, default_pen}
use choosh.Engine.Terminal.Sgr.{Params}

-- The styles that a program asks for.
pub data Attribute : Type 0 where
  bold italic underline inverse strikethrough : Attribute

pub data Layer : Type 0 where
  foreground background : Layer

-- A colour of the 8 basic ones, of the 8 bright ones, or any colour in the long form.
pub data Style : Type 0 where
  plain : Style
  set_attribute clear_attribute : Attribute → Style
  basic bright : Layer → ℕ → Style
  colored : Layer → Color → Style

abbrev set_code : Attribute → ℕ
set_code bold = 1
set_code italic = 3
set_code underline = 4
set_code inverse = 7
set_code strikethrough = 9

abbrev base : Layer → ℕ
base foreground = 30
base background = 40

abbrev clear_code : Attribute → ℕ
clear_code bold = 22
clear_code italic = 23
clear_code underline = 24
clear_code inverse = 27
clear_code strikethrough = 29

-- The parameters that ask for a style, as ECMA-48 and xterm have them.
abbrev pub sgr_of : Style → Params
sgr_of plain = (0 ∷ []) ∷ []
sgr_of (set_attribute a) = (set_code a ∷ []) ∷ []
sgr_of (clear_attribute a) = (clear_code a ∷ []) ∷ []
sgr_of (basic layer n) = ((base layer + n) ∷ []) ∷ []
sgr_of (bright layer n) = ((base layer + 60 + n) ∷ []) ∷ []
sgr_of (colored layer default_color) = ((base layer + 9) ∷ []) ∷ []
sgr_of (colored layer (indexed n)) = ((base layer + 8) ∷ []) ∷ (5 ∷ []) ∷ (n ∷ []) ∷ []
sgr_of (colored layer (rgb r g b)) =
    ((base layer + 8) ∷ []) ∷ (2 ∷ []) ∷ (r ∷ []) ∷ (g ∷ []) ∷ (b ∷ []) ∷ []

abbrev pub all_sgr : List Style → Params
all_sgr [] = []
all_sgr (s ∷ ss) = sgr_of s ++ all_sgr ss

abbrev with_attribute : Attribute → Bool → Pen → Pen
with_attribute bold on pen = record pen { bold = on }
with_attribute italic on pen = record pen { italic = on }
with_attribute underline on pen = record pen { underline = on }
with_attribute inverse on pen = record pen { inverse = on }
with_attribute strikethrough on pen = record pen { strikethrough = on }

abbrev with_color : Layer → Color → Pen → Pen
with_color foreground c pen = record pen { fg = c }
with_color background c pen = record pen { bg = c }

-- What a style is to a pen.
abbrev pub wear : Style → Pen → Pen
wear plain pen = default_pen pen.hyperlink
wear (set_attribute a) pen = with_attribute a true pen
wear (clear_attribute a) pen = with_attribute a false pen
wear (basic layer n) pen = with_color layer (indexed n) pen
wear (bright layer n) pen = with_color layer (indexed (8 + n)) pen
wear (colored layer c) pen = with_color layer c pen

abbrev pub wear_all : List Style → Pen → Pen
wear_all [] pen = pen
wear_all (s ∷ ss) pen = wear_all ss (wear s pen)

-- The numbers of the colours are ones that the forms have room for.
abbrev pub IsStyle : Style → Type 0
IsStyle (basic _ n) = n ≤ 7
IsStyle (bright _ n) = n ≤ 7
IsStyle (colored _ (indexed n)) = n ≤ 255
IsStyle (colored _ (rgb r g b)) = (r ≤ 255) × (g ≤ 255) × (b ≤ 255)
IsStyle _ = Unit {0}

abbrev pub AreStyles : List Style → Type 0
AreStyles [] = Unit {0}
AreStyles (s ∷ ss) = IsStyle s × AreStyles ss
