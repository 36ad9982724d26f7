-- ===== src/Prelude/Lists.antt =====
-- Lists measured and indexed by native numbers, under the library's names.
use Prim.Native.Nat.add
use Prim.Native.Nat.{ℕ, zero, suc, ◌+◌, ◌-◌, ◌≤◌, ◌<◌, min}
use mathlib.Core.Path.{◌≡◌, refl, ap}
use mathlib.Core.Logic.{◌≢◌, ◌⊎◌, inl, inr}
use mathlib.Core.List.{List, [], ◌∷◌, ◌++◌}
use mathlib.Core.Option.{Option, none, some}
use native.Mathlib.Omega.{arith}

module _ {ℓ} {A : Type ℓ} where
  abbrev pub length : List A → ℕ
  length [] = 0
  length (x ∷ xs) = suc (length xs)

  abbrev pub get_elem? : List A → ℕ → Option A
  get_elem? [] i = none
  get_elem? (x ∷ xs) zero = some x
  get_elem? (x ∷ xs) (suc i) = get_elem? xs i

  -- A write out of bounds changes nothing.
  abbrev pub set : List A → ℕ → A → List A
  set [] i v = []
  set (x ∷ xs) zero v = v ∷ xs
  set (x ∷ xs) (suc i) v = x ∷ set xs i v

  abbrev pub take : ℕ → List A → List A
  take zero xs = []
  take (suc n) [] = []
  take (suc n) (x ∷ xs) = x ∷ take n xs

  abbrev pub drop : ℕ → List A → List A
  drop zero xs = xs
  drop (suc n) [] = []
  drop (suc n) (x ∷ xs) = drop n xs

  abbrev pub replicate : ℕ → A → List A
  replicate zero a = []
  replicate (suc n) a = a ∷ replicate n a

  pub length-append : (xs ys : List A) → length (xs ++ ys) ≡ length xs + length ys
  length-append [] ys = omega arith
  length-append (x ∷ xs) ys = omega (arith, length-append xs ys)

module _ {ℓ} {A : Type ℓ} where
  pub length-set : (xs : List A) (i : ℕ) (v : A) → length (set xs i v) ≡ length xs
  length-set [] i v = refl
  length-set (x ∷ xs) zero v = refl
  length-set (x ∷ xs) (suc i) v = ap suc (length-set xs i v)

  pub get_elem?-set_self :
      (xs : List A) (i : ℕ) (v : A) → i < length xs → get_elem? (set xs i v) i ≡ some v
  get_elem?-set_self [] i v h = elim h [ ]
  get_elem?-set_self (x ∷ xs) zero v h = refl
  get_elem?-set_self (x ∷ xs) (suc i) v h = get_elem?-set_self xs i v (omega arith)

  pub get_elem?-set_ne :
      (xs : List A) {i j : ℕ} (v : A) → i ≢ j → get_elem? (set xs i v) j ≡ get_elem? xs j
  get_elem?-set_ne [] v h = refl
  get_elem?-set_ne (x ∷ xs) {i = zero} {j = zero} v h = absurd (h refl)
  get_elem?-set_ne (x ∷ xs) {i = zero} {j = suc j} v h = refl
  get_elem?-set_ne (x ∷ xs) {i = suc i} {j = zero} v h = refl
  get_elem?-set_ne (x ∷ xs) {i = suc i} {j = suc j} v h = get_elem?-set_ne xs v (λ e. h (ap suc e))

  pub take-append-drop : (n : ℕ) (xs : List A) → take n xs ++ drop n xs ≡ xs
  take-append-drop zero xs = refl
  take-append-drop (suc n) [] = refl
  take-append-drop (suc n) (x ∷ xs) = rw (take-append-drop n xs)

  pub length-take : (n : ℕ) (xs : List A) → length (take n xs) ≡ min n (length xs)
  length-take zero xs = omega arith
  length-take (suc n) [] = omega arith
  length-take (suc n) (x ∷ xs) = omega (arith, length-take n xs)

  pub length-drop : (n : ℕ) (xs : List A) → length (drop n xs) ≡ length xs - n
  length-drop zero xs = omega arith
  length-drop (suc n) [] = omega arith
  length-drop (suc n) (x ∷ xs) = omega (arith, length-drop n xs)

  pub length-replicate : (n : ℕ) (a : A) → length (replicate n a) ≡ n
  length-replicate zero a = refl
  length-replicate (suc n) a = ap suc (length-replicate n a)

  pub get_elem?-none : (xs : List A) (i : ℕ) → length xs ≤ i → get_elem? xs i ≡ none
  get_elem?-none [] i h = refl
  get_elem?-none (x ∷ xs) zero h = absurd (omega arith)
  get_elem?-none (x ∷ xs) (suc i) h = get_elem?-none xs i (omega arith)

module _ {ℓ} {A : Type ℓ} where
  abbrev pub get_or : List A → ℕ → A → A
  get_or [] i d = d
  get_or (x ∷ xs) zero d = x
  get_or (x ∷ xs) (suc i) d = get_or xs i d

  -- `xs[n..n + ys.len()].clone_from_slice(&ys)`; what does not fit is dropped.
  abbrev pub write_at : List A → ℕ → List A → List A
  write_at [] n ys = []
  write_at (x ∷ xs) zero [] = x ∷ xs
  write_at (x ∷ xs) zero (y ∷ ys) = y ∷ write_at xs zero ys
  write_at (x ∷ xs) (suc n) ys = x ∷ write_at xs n ys

  pub length-write_at : (xs : List A) (n : ℕ) (ys : List A) → length (write_at xs n ys) ≡ length xs
  length-write_at [] n ys = refl
  length-write_at (x ∷ xs) zero [] = refl
  length-write_at (x ∷ xs) zero (y ∷ ys) = ap suc (length-write_at xs zero ys)
  length-write_at (x ∷ xs) (suc n) ys = ap suc (length-write_at xs n ys)

  pub write_at-nil : (xs : List A) (n : ℕ) → write_at xs n [] ≡ xs
  write_at-nil [] n = refl
  write_at-nil (x ∷ xs) zero = refl
  write_at-nil (x ∷ xs) (suc n) = ap (◌∷◌ x) (write_at-nil xs n)

  pub get_elem?-write_at_before :
      (xs : List A) (n : ℕ) (ys : List A) (i : ℕ)
      → i < n
      → get_elem? (write_at xs n ys) i ≡ get_elem? xs i
  get_elem?-write_at_before [] n ys i h = refl
  get_elem?-write_at_before (x ∷ xs) zero ys i h = elim h [ ]
  get_elem?-write_at_before (x ∷ xs) (suc n) ys zero h = refl
  get_elem?-write_at_before (x ∷ xs) (suc n) ys (suc i) h =
      get_elem?-write_at_before xs n ys i (omega arith)

  pub get_elem?-write_at_after :
      (xs : List A) (n : ℕ) (ys : List A) (i : ℕ)
      → n + length ys ≤ i
      → get_elem? (write_at xs n ys) i ≡ get_elem? xs i
  get_elem?-write_at_after [] n ys i h = refl
  get_elem?-write_at_after (x ∷ xs) zero [] i h = refl
  get_elem?-write_at_after (x ∷ xs) zero (y ∷ ys) zero h = absurd (omega arith)
  get_elem?-write_at_after (x ∷ xs) zero (y ∷ ys) (suc i) h =
      get_elem?-write_at_after xs zero ys i (omega arith)
  get_elem?-write_at_after (x ∷ xs) (suc n) ys zero h = absurd (omega arith)
  get_elem?-write_at_after (x ∷ xs) (suc n) ys (suc i) h =
      get_elem?-write_at_after xs n ys i (omega arith)

  pub get_elem?-write_at :
      (xs : List A) (n : ℕ) (ys : List A) (j : ℕ)
      → j < length ys
      → n + length ys ≤ length xs
      → get_elem? (write_at xs n ys) (n + j) ≡ get_elem? ys j
  get_elem?-write_at [] n ys j h k = absurd (omega arith)
  get_elem?-write_at (x ∷ xs) zero [] j h k = elim h [ ]
  get_elem?-write_at (x ∷ xs) zero (y ∷ ys) zero h k = refl
  get_elem?-write_at (x ∷ xs) zero (y ∷ ys) (suc j) h k =
      rw add.zero (rw add.zero at (get_elem?-write_at xs zero ys j (omega arith) (omega arith)))
  get_elem?-write_at (x ∷ xs) (suc n) ys j h k =
      rw add.suc (get_elem?-write_at xs n ys j h (omega arith))

  pub get_elem?-take :
      (n : ℕ) (xs : List A) (i : ℕ) → i < n → get_elem? (take n xs) i ≡ get_elem? xs i
  get_elem?-take zero xs i h = elim h [ ]
  get_elem?-take (suc n) [] i h = refl
  get_elem?-take (suc n) (x ∷ xs) zero h = refl
  get_elem?-take (suc n) (x ∷ xs) (suc i) h = get_elem?-take n xs i (omega arith)

  pub get_elem?-drop :
      (n : ℕ) (xs : List A) (i : ℕ) → get_elem? (drop n xs) i ≡ get_elem? xs (n + i)
  get_elem?-drop zero xs i = rw add.zero
  get_elem?-drop (suc n) [] i = refl
  get_elem?-drop (suc n) (x ∷ xs) i = rw add.suc (get_elem?-drop n xs i)

  pub get_elem?-replicate : (n : ℕ) (a : A) (i : ℕ) → i < n → get_elem? (replicate n a) i ≡ some a
  get_elem?-replicate zero a i h = elim h [ ]
  get_elem?-replicate (suc n) a zero h = refl
  get_elem?-replicate (suc n) a (suc i) h = get_elem?-replicate n a i (omega arith)

-- A change of the element at an index; out of bounds it changes nothing.
module _ {ℓ} {A : Type ℓ} where
  abbrev pub update_at : ℕ → (A → A) → List A → List A
  update_at i f [] = []
  update_at zero f (x ∷ xs) = f x ∷ xs
  update_at (suc i) f (x ∷ xs) = x ∷ update_at i f xs

module _ {ℓ} {A : Type ℓ} where
  pub get_elem?-update_at_self :
      (i : ℕ) (f : A → A) (xs : List A) (x : A)
      → get_elem? xs i ≡ some x
      → get_elem? (update_at i f xs) i ≡ some (f x)
  get_elem?-update_at_self i f [] x h = ground arith
  get_elem?-update_at_self zero f (y ∷ xs) x h = ground arith
  get_elem?-update_at_self (suc i) f (y ∷ xs) x h = get_elem?-update_at_self i f xs x h

  pub get_elem?-update_at_ne :
      (i j : ℕ) (f : A → A) (xs : List A) → i ≢ j → get_elem? (update_at i f xs) j ≡ get_elem? xs j
  get_elem?-update_at_ne i j f [] h = refl
  get_elem?-update_at_ne zero zero f (y ∷ xs) h = absurd (h refl)
  get_elem?-update_at_ne zero (suc j) f (y ∷ xs) h = refl
  get_elem?-update_at_ne (suc i) zero f (y ∷ xs) h = refl
  get_elem?-update_at_ne (suc i) (suc j) f (y ∷ xs) h =
      get_elem?-update_at_ne i j f xs (λ e. h (ap suc e))

  pub get_elem?-append :
      (xs : List A) (y : A) (i : ℕ) (x : A)
      → get_elem? (xs ++ y ∷ []) i ≡ some x
      → (get_elem? xs i ≡ some x) ⊎ ((i ≡ length xs) × (y ≡ x))
  get_elem?-append [] y zero x h = inr (refl, ground arith)
  get_elem?-append [] y (suc i) x h = ground arith
  get_elem?-append (z ∷ xs) y zero x h = inl h
  get_elem?-append (z ∷ xs) y (suc i) x h = elim (get_elem?-append xs y i x h) [
    | inl old ↦ inl old
    | inr (e, e') ↦ inr (ap suc e, e')
  ]

  pub get_elem?-append_old :
      (xs : List A) (y : A) (i : ℕ) (x : A)
      → get_elem? xs i ≡ some x
      → get_elem? (xs ++ y ∷ []) i ≡ some x
  get_elem?-append_old [] y i x h = ground arith
  get_elem?-append_old (z ∷ xs) y zero x h = h
  get_elem?-append_old (z ∷ xs) y (suc i) x h = get_elem?-append_old xs y i x h

  pub get_elem?-update_at :
      (i j : ℕ) (f : A → A) (xs : List A) (y : A)
      → get_elem? (update_at i f xs) j ≡ some y
      → (x : A) × (get_elem? xs j ≡ some x) × (((i ≡ j) × (f x ≡ y)) ⊎ ((i ≢ j) × (x ≡ y)))
  get_elem?-update_at i j f [] y h = ground arith
  get_elem?-update_at zero zero f (x ∷ xs) y h = (x, refl, inl (refl, ground arith))
  get_elem?-update_at zero (suc j) f (x ∷ xs) y h = (y, h, inr (λ e. omega arith, refl))
  get_elem?-update_at (suc i) zero f (x ∷ xs) y h = (x, refl, inr (λ e. omega arith, ground arith))
  get_elem?-update_at (suc i) (suc j) f (x ∷ xs) y h =
      let (x', at, change) = get_elem?-update_at i j f xs y h in
      (
        x',
        at,
        elim change [
          | inl (e, e') ↦ inl (ap suc e, e')
          | inr (e, e') ↦ inr (λ e''. e (omega arith), e')
        ],
      )
