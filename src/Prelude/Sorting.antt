-- ===== src/Prelude/Sorting.antt =====
-- Filtered, sorted and cut lists, as the WHERE, ORDER BY and LIMIT of a query make them.
use Prim.Native.Nat.{ℕ, zero, suc, ◌≤◌, ◌<◌}
use mathlib.Core.Path.{◌≡◌, refl, ap, ◌∙◌, subst}
use mathlib.Core.Logic.{◌⊎◌, inl, inr}
use mathlib.Core.Bool.{Bool, true, false}
use mathlib.Core.List.{List, [], ◌∷◌}
use native.Mathlib.Omega.{arith}
use distributed_payment_mana.Prelude.Tests.{if◌then◌else◌, Bool-cases}
use distributed_payment_mana.Prelude.Lists.{all, length}

module _ {A : Type 0} where
  unfoldable pub filter : (A → Bool) → List A → List A
  filter p [] = []
  filter p (x ∷ xs) = let rest = filter p xs in if p x then x ∷ rest else rest

  -- LIMIT, and items[:n]
  unfoldable pub first_n : ℕ → List A → List A
  first_n zero xs = []
  first_n (suc n) [] = []
  first_n (suc n) (x ∷ xs) = x ∷ first_n n xs

  -- OFFSET
  unfoldable pub skip_n : ℕ → List A → List A
  skip_n zero xs = xs
  skip_n (suc n) [] = []
  skip_n (suc n) (x ∷ xs) = skip_n n xs

  -- `before x y`: x comes before y.
  unfoldable pub insert_by : (A → A → Bool) → A → List A → List A
  insert_by before x [] = x ∷ []
  insert_by before x (y ∷ ys) =
      let rest = insert_by before x ys in if before x y then x ∷ y ∷ ys else y ∷ rest

  unfoldable pub sort_by : (A → A → Bool) → List A → List A
  unfolding insert_by
  sort_by before [] = []
  sort_by before (x ∷ xs) = insert_by before x (sort_by before xs)

  -- No element comes before the one that it follows.
  abbrev pub Ordered : (A → A → Bool) → List A → Type 0
  Ordered before [] = Unit {0}
  Ordered before (x ∷ []) = Unit {0}
  Ordered before (x ∷ y ∷ ys) = (before y x ≡ false) × Ordered before (y ∷ ys)

  inserted_later :
      (before : A → A → Bool) (x y : A) (ys : List A)
      → before x y ≡ false
      → insert_by before x (y ∷ ys) ≡ y ∷ insert_by before x ys
  unfolding insert_by
  inserted_later before x y ys h = rw h refl

  module _ (before : A → A → Bool) (asym : (x y : A) → before x y ≡ true → before y x ≡ false) where
    insert_by-Ordered :
        (x : A) (ys : List A) → Ordered before ys → Ordered before (insert_by before x ys)
    unfolding insert_by
    insert_by-Ordered x [] h = tt
    insert_by-Ordered x (y ∷ []) h = elim (Bool-cases (before x y)) [
      | inl first ↦ rw first (asym x y first, tt)
      | inr later ↦ rw later (later, tt)
    ]
    insert_by-Ordered x (y ∷ z ∷ zs) h = elim (Bool-cases (before x y)) [
      | inl first ↦ rw first (asym x y first, h)
      | inr later ↦ elim (Bool-cases (before x z)) [
        | inl this ↦ rw (later, this) (later, (asym x z this, h.1))
        | inr other ↦
            let rest = insert_by-Ordered x (z ∷ zs) h.1 in
            rw (later, other)
              (h.0, subst (Ordered before) (inserted_later before x z zs other) rest)
      ]
    ]

    pub sort_by-Ordered : (xs : List A) → Ordered before (sort_by before xs)
    unfolding sort_by
    sort_by-Ordered [] = tt
    sort_by-Ordered (x ∷ xs) = insert_by-Ordered x (sort_by before xs) (sort_by-Ordered xs)

  pub first_n-Ordered :
      (before : A → A → Bool) (n : ℕ) (xs : List A)
      → Ordered before xs
      → Ordered before (first_n n xs)
  unfolding first_n
  first_n-Ordered before zero xs h = tt
  first_n-Ordered before (suc n) [] h = tt
  first_n-Ordered before (suc zero) (x ∷ []) h = tt
  first_n-Ordered before (suc (suc n)) (x ∷ []) h = tt
  first_n-Ordered before (suc zero) (x ∷ y ∷ ys) h = tt
  first_n-Ordered before (suc (suc n)) (x ∷ y ∷ ys) h =
      (h.0, first_n-Ordered before (suc n) (y ∷ ys) h.1)

  pub first_n-length : (n : ℕ) (xs : List A) → length (first_n n xs) ≤ n
  unfolding first_n
  first_n-length zero xs = omega arith
  first_n-length (suc n) [] = omega arith
  first_n-length (suc n) (x ∷ xs) = omega (arith, first_n-length n xs)

  module _ (p : A → Bool) where
    pub filter-all : (xs : List A) → all p (filter p xs) ≡ true
    unfolding all filter
    filter-all [] = refl
    filter-all (x ∷ xs) = ground (arith, filter-all xs)

    pub filter_kept : (q : A → Bool) (xs : List A) → all p xs ≡ true → all p (filter q xs) ≡ true
    unfolding all filter
    filter_kept q [] h = refl
    filter_kept q (x ∷ xs) h = let rest = filter_kept q xs in ground arith

    insert_by-all :
        (before : A → A → Bool) (x : A) (xs : List A)
        → p x ≡ true
        → all p xs ≡ true
        → all p (insert_by before x xs) ≡ true
    unfolding all insert_by
    insert_by-all before x [] h k = ground arith
    insert_by-all before x (y ∷ ys) h k = let rest = insert_by-all before x ys h in ground arith

    pub sort_by-all :
        (before : A → A → Bool) (xs : List A) → all p xs ≡ true → all p (sort_by before xs) ≡ true
    unfolding all sort_by
    sort_by-all before [] h = refl
    sort_by-all before (x ∷ xs) h =
        insert_by-all before x (sort_by before xs) (ground arith)
          (sort_by-all before xs (ground arith))

    pub first_n-all : (n : ℕ) (xs : List A) → all p xs ≡ true → all p (first_n n xs) ≡ true
    unfolding all first_n
    first_n-all zero xs h = refl
    first_n-all (suc n) [] h = refl
    first_n-all (suc n) (x ∷ xs) h = let rest = first_n-all n xs in ground arith

module _ {A : Type 0} where
  length-insert_by :
      (before : A → A → Bool) (x : A) (ys : List A)
      → length (insert_by before x ys) ≡ suc (length ys)
  unfolding insert_by
  length-insert_by before x [] = refl
  length-insert_by before x (y ∷ ys) = elim (Bool-cases (before x y)) [
    | inl first ↦ rw first refl
    | inr later ↦ rw (later, length-insert_by before x ys) refl
  ]

  pub length-sort_by :
      (before : A → A → Bool) (xs : List A) → length (sort_by before xs) ≡ length xs
  unfolding sort_by
  length-sort_by before [] = refl
  length-sort_by before (x ∷ xs) =
      length-insert_by before x (sort_by before xs) ∙ ap suc (length-sort_by before xs)

  -- A prefix is as long as was asked for, or it is all there is.
  pub first_n_cases :
      (n : ℕ) (xs : List A)
      → ((length (first_n n xs) ≡ n) × (n ≤ length xs))
        ⊎ ((length (first_n n xs) ≡ length xs) × (length xs < n))
  unfolding first_n
  first_n_cases zero xs = inl (refl, omega arith)
  first_n_cases (suc n) [] = inr (refl, omega arith)
  first_n_cases (suc n) (x ∷ xs) = elim (first_n_cases n xs) [
    | inl (full, enough) ↦ inl (ap suc full, omega arith)
    | inr (part, short) ↦ inr (ap suc part, omega arith)
  ]
