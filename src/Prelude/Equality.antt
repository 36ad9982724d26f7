-- ===== src/Prelude/Equality.antt =====
-- Types whose equality is decided by a test, and the instances in use.
use Prim.Native.String.{String}
use text.Mathlib.Text.{◌==◌ as string_beq}
use text.Mathlib.TextEquality.{eq_iff}
use Prim.Native.Nat.{ℕ}
use mathlib.Core.Path.{◌≡◌, refl, sym, ◌∙◌}
use mathlib.Core.Logic.{◌↔◌, ◌≢◌, ◌⊎◌, inl, inr}
use mathlib.Core.Bool.{Bool, true, false, ◌&&◌}
use mathlib.Core.List.{List, [], ◌∷◌}
use native.Mathlib.Omega.{arith}
use choosh.Prelude.Tests.{◌==◌, ==_iff, Bool-cases}

true_ne_false : true ≡ false → ⊥
true_ne_false h = ground arith

pub record Eq {ℓ} (A : Type ℓ) : Type ℓ where
  pub beq : A → A → Bool
  pub beq_iff : (a b : A) → (beq a b ≡ true) ↔ (a ≡ b)

module _ {ℓ} {A : Type ℓ} ⦃e : Eq A⦄ where
  abbrev pub same : A → A → Bool
  same = e.beq

  pub same_refl : (a : A) → same a a ≡ true
  same_refl a = (e.beq_iff a a).1 refl

  pub eq_of_same : (a b : A) → same a b ≡ true → a ≡ b
  eq_of_same a b = (e.beq_iff a b).0

  pub not_same : (a b : A) → ¬ (a ≡ b) → same a b ≡ false
  not_same a b h = elim (Bool-cases (same a b)) [
    | inl hit ↦ absurd (h (eq_of_same a b hit))
    | inr miss ↦ miss
  ]

  pub same-cases : (a b : A) → (a ≡ b) ⊎ (a ≢ b)
  same-cases a b = elim (Bool-cases (same a b)) [
    | inl hit ↦ inl (eq_of_same a b hit)
    | inr miss ↦ inr (λ h. true_ne_false (sym ((e.beq_iff a b).1 h) ∙ miss))
  ]

instance abbrev pub nat_eq : Eq ℕ
nat_eq = record { beq = ◌==◌; beq_iff = ==_iff }

instance abbrev pub string_eq : Eq String
string_eq = record { beq = string_beq; beq_iff = eq_iff }

abbrev pub same_bytes : List ℕ → List ℕ → Bool
same_bytes [] [] = true
same_bytes (x ∷ xs) (y ∷ ys) = (x == y) && same_bytes xs ys
same_bytes _ _ = false

pub same_bytes_refl : (xs : List ℕ) → same_bytes xs xs ≡ true
same_bytes_refl [] = refl
same_bytes_refl (x ∷ xs) = rw ((==_iff x x).1 refl, same_bytes_refl xs) refl

pub eq_of_same_bytes : (xs ys : List ℕ) → same_bytes xs ys ≡ true → xs ≡ ys
eq_of_same_bytes [] [] h = refl
eq_of_same_bytes [] (y ∷ ys) h = ground arith
eq_of_same_bytes (x ∷ xs) [] h = ground arith
eq_of_same_bytes (x ∷ xs) (y ∷ ys) h = elim (Bool-cases (x == y)) [
  | inl first ↦ cong_cons ((==_iff x y).0 first) (eq_of_same_bytes xs ys (ground arith))
  | inr other ↦ absurd (ground arith)
]
  where
    cong_cons : {a b : ℕ} {s t : List ℕ} → a ≡ b → s ≡ t → (a ∷ s) ≡ (b ∷ t)
    cong_cons p q = rw (p, q) refl

instance abbrev pub bytes_eq : Eq (List ℕ)
bytes_eq = record {
  beq = same_bytes;
  beq_iff = λ xs ys. (eq_of_same_bytes xs ys, λ e. rw (sym e) (same_bytes_refl xs));
}
