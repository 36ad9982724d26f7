-- ===== src/Host/Registry/Finding.antt =====
-- The searches of rust/choosh-hostd/src/registry.rs over lists that grow at their end, and lists without two like entries.
use choosh.Prelude.{
  ◌≡◌, refl, sym, subst, inl, inr, Bool, true, false, List, [], ◌∷◌, ◌++◌, Option, none, some,
  arith, Bool-cases, if_elim,
}
use choosh.Host.Registry.{find, update_first, is_some}

-- No entry is like a later one.
abbrev pub DistinctBy {ℓ} : {A : Type ℓ} → (A → A → Bool) → List A → Type ℓ
DistinctBy like [] = Unit
DistinctBy like (x ∷ xs) = (find (λ y. like y x) xs ≡ none) × DistinctBy like xs

-- Every entry has the property.
abbrev pub All {ℓ κ} : {A : Type ℓ} → (A → Type κ) → List A → Type κ
All P [] = Unit
All P (x ∷ xs) = P x × All P xs

module _ {ℓ} {A : Type ℓ} where
  pub none_of_is_some : (o : Option A) → is_some o ≡ false → o ≡ none
  none_of_is_some none h = refl
  none_of_is_some (some a) h = ground arith

  pub find-append-some :
      (p : A → Bool) (xs ys : List A) (x : A) → find p xs ≡ some x → find p (xs ++ ys) ≡ some x
  find-append-some p [] ys x h = ground arith
  find-append-some p (y ∷ xs) ys x h =
      let rest = find-append-some p xs ys x in
      elim (Bool-cases (p y)) [
        | inl hit ↦ ground arith
        | inr miss ↦ let tail = rest (ground arith) in ground arith
      ]

  pub find-snoc :
      (p : A → Bool) (xs : List A) (y : A)
      → find p xs ≡ none
      → p y ≡ true
      → find p (xs ++ y ∷ []) ≡ some y
  find-snoc p [] y h t = ground arith
  find-snoc p (x ∷ xs) y h t =
      let rest = find-snoc p xs y in
      elim (Bool-cases (p x)) [
        | inl hit ↦ absurd (ground arith)
        | inr miss ↦ let tail = rest (ground arith) t in ground arith
      ]

  pub find-snoc-none :
      (p : A → Bool) (xs : List A) (y : A)
      → find p xs ≡ none
      → p y ≡ false
      → find p (xs ++ y ∷ []) ≡ none
  find-snoc-none p [] y h t = ground arith
  find-snoc-none p (x ∷ xs) y h t =
      let rest = find-snoc-none p xs y in
      elim (Bool-cases (p x)) [
        | inl hit ↦ absurd (ground arith)
        | inr miss ↦ let tail = rest (ground arith) t in ground arith
      ]

  pub DistinctBy-snoc :
      (like : A → A → Bool) (xs : List A) (y : A)
      → ((a b : A) → like a b ≡ false → like b a ≡ false)
      → find (λ x. like x y) xs ≡ none
      → DistinctBy like xs
      → DistinctBy like (xs ++ y ∷ [])
  DistinctBy-snoc like [] y s h d = (refl, tt)
  DistinctBy-snoc like (x ∷ xs) y s h (first, d) = elim (Bool-cases (like x y)) [
    | inl hit ↦ absurd (ground arith)
    | inr miss ↦ (
      find-snoc-none (λ z. like z x) xs y first (s x y miss),
      DistinctBy-snoc like xs y s (ground arith) d,
    )
  ]

  -- A write that keeps what the test looks at.
  find-update_first :
      (p q : A → Bool) (f : A → A) (xs : List A)
      → ((a : A) → q (f a) ≡ q a)
      → find q xs ≡ none
      → find q (update_first p f xs) ≡ none
  find-update_first p q f [] k h = refl
  find-update_first p q f (x ∷ xs) k h =
      let kept = k x in
      let rest = find-update_first p q f xs k in
      elim (Bool-cases (q x)) [
        | inl hit ↦ absurd (ground arith)
        | inr miss ↦ let tail = rest (ground arith) in ground arith
      ]

  pub DistinctBy-update_first :
      (like : A → A → Bool) (p : A → Bool) (f : A → A) (xs : List A)
      → ((a b : A) → like (f a) b ≡ like a b)
      → ((a b : A) → like a (f b) ≡ like a b)
      → DistinctBy like xs
      → DistinctBy like (update_first p f xs)
  DistinctBy-update_first like p f [] k k' d = tt
  DistinctBy-update_first like p f (x ∷ xs) k k' (first, d) =
      if_elim (DistinctBy like) (p x)
        (subst (λ test. find test xs ≡ none) (λ i y. sym (k' y x) i) first, d)
        (
          find-update_first p (λ y. like y x) f xs (λ a. k a x) first,
          DistinctBy-update_first like p f xs k k' d,
        )

  pub All-update_first :
      (P : A → Type 0) (p : A → Bool) (f : A → A) (xs : List A)
      → ((a : A) → p a ≡ true → P (f a))
      → All P xs
      → All P (update_first p f xs)
  All-update_first P p f [] k h = tt
  All-update_first P p f (x ∷ xs) k (first, h) = elim (Bool-cases (p x)) [
    | inl hit ↦ rw hit (k x hit, h)
    | inr miss ↦ rw miss (first, All-update_first P p f xs k h)
  ]

  pub All-map : (P Q : A → Type 0) (xs : List A) → ((a : A) → P a → Q a) → All P xs → All Q xs
  All-map P Q [] k h = tt
  All-map P Q (x ∷ xs) k (first, h) = (k x first, All-map P Q xs k h)

  pub All-snoc : (P : A → Type 0) (xs : List A) (y : A) → All P xs → P y → All P (xs ++ y ∷ [])
  All-snoc P [] y h k = (k, tt)
  All-snoc P (x ∷ xs) y (first, h) k = (first, All-snoc P xs y h k)
