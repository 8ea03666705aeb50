-- ===== src/Prelude/Sort.antt =====
-- Python's stable `sorted`, by a test `le` that is the order of its keys, and sums over lists.
use Prim.Native.Nat.{ℕ, zero, suc, ◌+◌, ◌≤◌}
use mathlib.Core.Path.{◌≡◌, refl}
use mathlib.Core.Logic.{inl, inr}
use mathlib.Core.Bool.{Bool, true, false, ◌||◌}
use mathlib.Core.List.{List, [], ◌∷◌, ◌++◌}
use native.Mathlib.Omega.{arith}
use whatfrom.Prelude.Tests.{Bool-cases, if◌then◌else◌}
use whatfrom.Prelude.Lists.{All, All-imp, length, take, filter, any}

module _ {ℓ} {A : Type ℓ} (le : A → A → Bool) where
  -- The new item goes before the first that it may precede, so equal items keep their order.
  abbrev pub insert_sorted : A → List A → List A
  insert_sorted x [] = x ∷ []
  insert_sorted x (y ∷ ys) =
      let rest = insert_sorted x ys in if le x y then x ∷ y ∷ ys else y ∷ rest

  abbrev pub sort : List A → List A
  sort [] = []
  sort (x ∷ xs) = insert_sorted x (sort xs)

  -- Every item may precede all that follow it.
  abbrev pub IsSorted : List A → Type ℓ
  IsSorted [] = Unit
  IsSorted (x ∷ xs) = All (λ y. le x y ≡ true) xs × IsSorted xs

-- The sum of a weight over a list. `total w xs ≤ total w ys` for every `w` says that the items of
-- `xs` are among those of `ys`, as often at most.
abbrev pub total {ℓ} : {A : Type ℓ} → (A → ℕ) → List A → ℕ
total w [] = 0
total w (x ∷ xs) = w x + total w xs

module _ {ℓ} {A : Type ℓ} (w : A → ℕ) where
  pub total-append : (xs ys : List A) → total w (xs ++ ys) ≡ total w xs + total w ys
  total-append [] ys = omega arith
  total-append (x ∷ xs) ys = omega (arith, total-append xs ys)

  pub total-take-le : (n : ℕ) (xs : List A) → total w (take n xs) ≤ total w xs
  total-take-le zero xs = omega arith
  total-take-le (suc n) [] = omega arith
  total-take-le (suc n) (x ∷ xs) = omega (arith, total-take-le n xs)

  pub total-filter-le : (p : A → Bool) (xs : List A) → total w (filter p xs) ≤ total w xs
  total-filter-le p [] = omega arith
  total-filter-le p (x ∷ xs) = ground (arith, total-filter-le p xs)

  pub total-insert_sorted :
      (le : A → A → Bool) (x : A) (ys : List A) → total w (insert_sorted le x ys) ≡ w x + total w ys
  total-insert_sorted le x [] = refl
  total-insert_sorted le x (y ∷ ys) = ground (arith, total-insert_sorted le x ys)

  pub total-sort : (le : A → A → Bool) (xs : List A) → total w (sort le xs) ≡ total w xs
  total-sort le [] = refl
  total-sort le (x ∷ xs) = omega (arith, total-insert_sorted le x (sort le xs), total-sort le xs)

pub total-one {ℓ} : {A : Type ℓ} (xs : List A) → total (λ _. 1) xs ≡ length xs
total-one [] = refl
total-one (x ∷ xs) = omega (arith, total-one xs)

module _ {ℓ κ} {A : Type ℓ} (P : A → Type κ) (le : A → A → Bool) where
  pub All-insert_sorted : (x : A) (ys : List A) → P x → All P ys → All P (insert_sorted le x ys)
  All-insert_sorted x [] h a = (h, tt)
  All-insert_sorted x (y ∷ ys) h a = elim (Bool-cases (le x y)) [
    | inl q ↦ rw q (h, a)
    | inr q ↦ rw q (a.0, All-insert_sorted x ys h a.1)
  ]

  pub All-sort : (xs : List A) → All P xs → All P (sort le xs)
  All-sort [] a = tt
  All-sort (x ∷ xs) a = All-insert_sorted x (sort le xs) a.0 (All-sort xs a.1)

module _ {ℓ} {A : Type ℓ} (le : A → A → Bool)
    (le_total : (x y : A) → le x y ≡ false → le y x ≡ true)
    (le_chain : (x y z : A) → le x y ≡ true → le y z ≡ true → le x z ≡ true) where
  insert_sorted-IsSorted :
      (x : A) (ys : List A) → IsSorted le ys → IsSorted le (insert_sorted le x ys)
  insert_sorted-IsSorted x [] s = (tt, tt)
  insert_sorted-IsSorted x (y ∷ ys) s = elim (Bool-cases (le x y)) [
    | inl q ↦ rw q ((q, All-imp (λ z h. le_chain x y z q h) ys s.0), s)
    | inr q ↦ rw q (
      All-insert_sorted (λ z. le y z ≡ true) le x ys (le_total x y q) s.0,
      insert_sorted-IsSorted x ys s.1,
    )
  ]

  pub sort-IsSorted : (xs : List A) → IsSorted le (sort le xs)
  sort-IsSorted [] = tt
  sort-IsSorted (x ∷ xs) = insert_sorted-IsSorted x (sort le xs) (sort-IsSorted xs)

module _ {ℓ} {A : Type ℓ} (p : A → Bool) (le : A → A → Bool) where
  any-insert_sorted : (x : A) (ys : List A) → any p (insert_sorted le x ys) ≡ (p x || any p ys)
  any-insert_sorted x [] = refl
  any-insert_sorted x (y ∷ ys) = ground (arith, any-insert_sorted x ys)

  pub any-sort : (xs : List A) → any p (sort le xs) ≡ any p xs
  any-sort [] = refl
  any-sort (x ∷ xs) = rw (any-insert_sorted x (sort le xs), any-sort xs)
