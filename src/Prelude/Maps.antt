-- ===== src/Prelude/Maps.antt =====
-- A map as an association list with one entry for each key: what the sources keep in a `HashMap`. The order of
-- the entries stands for the order of the `HashMap`, which nothing is to rely on.
use mathlib.Core.Path.{◌≡◌, refl, sym, ap, ◌∙◌, subst}
use mathlib.Core.Logic.{inl, inr}
use mathlib.Core.Bool.{Bool, true, false, not}
use mathlib.Core.List.{List, [], ◌∷◌}
use mathlib.Core.Option.{Option, none, some}
use native.Mathlib.Omega.{arith}
use choosh.Prelude.Tests.{if◌then◌else◌, Bool-cases, if_elim}
use choosh.Prelude.Equality.{Eq, same, same_refl, eq_of_same, not_same}

abbrev pub Map {ℓ} : Type ℓ → Type ℓ → Type ℓ
Map K V = List (K × V)

abbrev pub keep_if {ℓ} : {V : Type ℓ} → (V → Bool) → Option V → Option V
keep_if p none = none
keep_if p (some v) = if p v then some v else none

module _ {ℓ} {K V : Type ℓ} ⦃e : Eq K⦄ where
  abbrev pub get : Map K V → K → Option V
  get [] k = none
  get (entry ∷ m) k = let rest = get m k in if same k entry.0 then some entry.1 else rest

  abbrev pub contains_key : Map K V → K → Bool
  contains_key m k = elim (get m k) [ none ↦ false | some v ↦ true ]

  -- The entries that pass a test.
  abbrev pub retain : (K → V → Bool) → Map K V → Map K V
  retain p [] = []
  retain p (entry ∷ m) = let rest = retain p m in if p entry.0 entry.1 then entry ∷ rest else rest

  abbrev pub remove : K → Map K V → Map K V
  remove k = retain (λ k' v. not (same k k'))

  abbrev pub insert : K → V → Map K V → Map K V
  insert k v m = (k, v) ∷ remove k m

  -- A write through `get_mut`.
  abbrev pub modify : K → (V → V) → Map K V → Map K V
  modify k f [] = []
  modify k f (entry ∷ m) =
      let rest = modify k f m in (entry.0, (if same k entry.0 then f entry.1 else entry.1)) ∷ rest

module _ {ℓ} {K V : Type ℓ} ⦃e : Eq K⦄ where
  pub get-remove_self : (k : K) (m : Map K V) → get (remove k m) k ≡ none
  get-remove_self k [] = refl
  get-remove_self k ((k', v') ∷ m) = let rest = get-remove_self k m in ground arith

  pub get-remove_ne : (k k' : K) (m : Map K V) → ¬ (k' ≡ k) → get (remove k m) k' ≡ get m k'
  get-remove_ne k k' [] h = refl
  get-remove_ne k k' ((k'', v) ∷ m) h =
      let rest = get-remove_ne k k' m h in
      elim (Bool-cases (same k k'')) [
        | inl hit ↦
            let miss : same k' k'' ≡ false = rw (sym (eq_of_same k k'' hit)) (not_same k' k h) in
            ground arith
        | inr miss ↦ ground arith
      ]

  pub get-insert_self : (k : K) (v : V) (m : Map K V) → get (insert k v m) k ≡ some v
  get-insert_self k v m = rw (same_refl k) refl

  pub get-insert_ne :
      (k k' : K) (v : V) (m : Map K V) → ¬ (k' ≡ k) → get (insert k v m) k' ≡ get m k'
  get-insert_ne k k' v m h = rw (not_same k' k h) (get-remove_ne k k' m h)

  pub get-modify_self :
      (k : K) (f : V → V) (m : Map K V) (v : V)
      → get m k ≡ some v
      → get (modify k f m) k ≡ some (f v)
  get-modify_self k f [] v h = ground arith
  get-modify_self k f ((k', v') ∷ m) v h =
      let rest = get-modify_self k f m v in
      elim (Bool-cases (same k k')) [
        | inl hit ↦ let val : v' ≡ v = ground arith in rw (hit, val) refl
        | inr miss ↦ let tail = rest (ground arith) in ground arith
      ]

  pub get-modify_ne :
      (k k' : K) (f : V → V) (m : Map K V) → ¬ (k' ≡ k) → get (modify k f m) k' ≡ get m k'
  get-modify_ne k k' f [] h = refl
  get-modify_ne k k' f ((k'', v) ∷ m) h =
      let rest = get-modify_ne k k' f m h in
      elim (Bool-cases (same k k'')) [
        | inl hit ↦
            let miss : same k' k'' ≡ false = rw (sym (eq_of_same k k'' hit)) (not_same k' k h) in
            ground arith
        | inr miss ↦ ground arith
      ]

  -- One entry for each key.
  abbrev pub Distinct : Map K V → Type ℓ
  Distinct [] = Unit
  Distinct (entry ∷ m) = (get m entry.0 ≡ none) × Distinct m

module _ {ℓ} {K V : Type ℓ} ⦃e : Eq K⦄ where
  pub get-retain :
      (p : K → V → Bool) (m : Map K V) (k : K)
      → Distinct m
      → get (retain p m) k ≡ keep_if (p k) (get m k)
  get-retain p [] k h = refl
  get-retain p ((k', v) ∷ m) k (free, h) =
      let rest = get-retain p m k h in
      elim (Bool-cases (same k k')) [
        | inl hit ↦
            let key = eq_of_same k k' hit in
            let empty : get m k ≡ none = subst (λ z. get m z ≡ none) (sym key) free in
            let rest' : get (retain p m) k ≡ none = rest ∙ ap (keep_if (p k)) empty in
            let kept : p k' v ≡ p k v = ap (λ z. p z v) (sym key) in ground arith
        | inr miss ↦ ground arith
      ]

  pub get-retain-none :
      (p : K → V → Bool) (m : Map K V) (k : K) → get m k ≡ none → get (retain p m) k ≡ none
  get-retain-none p [] k h = refl
  get-retain-none p ((k', v) ∷ m) k h =
      let rest = get-retain-none p m k in
      elim (Bool-cases (same k k')) [
        | inl hit ↦ absurd (ground arith)
        | inr miss ↦ let rest' = rest (ground arith) in ground arith
      ]

  pub retain-Distinct : (p : K → V → Bool) (m : Map K V) → Distinct m → Distinct (retain p m)
  retain-Distinct p [] h = tt
  retain-Distinct p ((k, v) ∷ m) (free, h) =
      if_elim Distinct (p k v) (get-retain-none p m k free, retain-Distinct p m h)
        (retain-Distinct p m h)

  pub insert-Distinct : (k : K) (v : V) (m : Map K V) → Distinct m → Distinct (insert k v m)
  insert-Distinct k v m h = (get-remove_self k m, retain-Distinct (λ k' _. not (same k k')) m h)

  get-modify-none :
      (k : K) (f : V → V) (m : Map K V) (k' : K) → get m k' ≡ none → get (modify k f m) k' ≡ none
  get-modify-none k f [] k' h = refl
  get-modify-none k f ((k'', v) ∷ m) k' h =
      let rest = get-modify-none k f m k' in
      elim (Bool-cases (same k' k'')) [
        | inl hit ↦ absurd (ground arith)
        | inr miss ↦ let rest' = rest (ground arith) in ground arith
      ]

  pub modify-Distinct : (k : K) (f : V → V) (m : Map K V) → Distinct m → Distinct (modify k f m)
  modify-Distinct k f [] h = tt
  modify-Distinct k f ((k', v) ∷ m) (free, h) =
      (get-modify-none k f m k' free, modify-Distinct k f m h)
