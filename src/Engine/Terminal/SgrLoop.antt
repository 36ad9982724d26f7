-- ===== src/Engine/Terminal/SgrLoop.antt =====
-- The loop of `apply_sgr` in rust/choosh-terminal-engine/src/terminal.rs and its fuel.
use choosh.Prelude.{ℕ, zero, suc, ◌≤◌, ◌≡◌, refl, List, [], ◌∷◌, length, arith}
use choosh.Engine.Terminal.{Pen}
use choosh.Engine.Terminal.Sgr.{
  Params, next_byte, indexed_color, rgb_color, extended_color, sgr_round, sgr_loop, apply_sgr,
}

next_byte-length : (ps : Params) → length (next_byte ps).1 ≤ length ps
unfolding next_byte
next_byte-length [] = omega arith
next_byte-length ([] ∷ rest) = omega arith
next_byte-length ((v ∷ _) ∷ rest) = omega arith

indexed_color-length : (ps : Params) → length (indexed_color ps).1 ≤ length ps
unfolding indexed_color
indexed_color-length ps = ground (arith, next_byte-length ps)

rgb_color-length : (ps : Params) → length (rgb_color ps).1 ≤ length ps
unfolding rgb_color
rgb_color-length ps = ground (
  arith,
  next_byte-length ps,
  next_byte-length (next_byte ps).1,
  next_byte-length (next_byte (next_byte ps).1).1,
)

extended_color-length : (ps : Params) → length (extended_color ps).1 ≤ length ps
unfolding extended_color
extended_color-length [] = omega arith
extended_color-length ([] ∷ rest) = omega arith
extended_color-length ((v ∷ _) ∷ rest) =
    ground (arith, indexed_color-length rest, rgb_color-length rest)

sgr_round-length :
    (group : List ℕ) (rest : Params) (pen : Pen) → length (sgr_round group rest pen).1 ≤ length rest
unfolding sgr_round
sgr_round-length group rest pen = ground (arith, extended_color-length rest)

more_fuel :
    (a b : ℕ) (ps : Params) (pen : Pen)
    → length ps ≤ a
    → length ps ≤ b
    → sgr_loop a ps pen ≡ sgr_loop b ps pen
unfolding sgr_loop
more_fuel a b [] pen h k = refl
more_fuel zero b (g ∷ ps) pen h k = absurd (omega arith)
more_fuel (suc a) zero (g ∷ ps) pen h k = absurd (omega arith)
more_fuel (suc a) (suc b) (g ∷ ps) pen h k =
    let r = sgr_round g ps pen in
    more_fuel a b r.1 r.0 (omega (arith, sgr_round-length g ps pen))
      (omega (arith, sgr_round-length g ps pen))

-- `apply_sgr` is the loop of the source: on a group and those behind it, it does one round and then goes on
-- with the groups that the round has left, so the fuel never runs out.
pub apply_sgr-cons :
    (group : List ℕ) (rest : Params) (pen : Pen)
    → apply_sgr (group ∷ rest) pen
      ≡ apply_sgr (sgr_round group rest pen).1 (sgr_round group rest pen).0
unfolding apply_sgr sgr_loop
apply_sgr-cons group rest pen =
    let r = sgr_round group rest pen in
    more_fuel (length rest) (length r.1) r.1 r.0 (sgr_round-length group rest pen) (omega arith)
