-- ===== src/Prelude/Members.antt =====
-- Membership in mapped and filtered lists.
use mathlib.Core.Path.{◌≡◌, refl, sym}
use mathlib.Core.Logic.{inl, inr}
use mathlib.Core.Bool.{Bool, true}
use mathlib.Core.List.{List, [], ◌∷◌, map, Memᴰ}
use mathlib.Core.List.Memᴰ
use whatfrom.Prelude.Tests.{Bool-cases, ||_iff}
use whatfrom.Prelude.Lists.{All, All-imp, filter}
use whatfrom.Prelude.Eq.{Eq, elem}

module _ {ℓ} {A : Type ℓ} where
  pub All-mem : (xs : List A) → All (λ x. Memᴰ x xs) xs
  All-mem [] = tt
  All-mem (x ∷ xs) = (Memᴰ.head refl, All-imp (λ y m. Memᴰ.tail m) xs (All-mem xs))

  pub mem-filter :
      (p : A → Bool) (x : A) (xs : List A) → Memᴰ x (filter p xs) → Memᴰ x xs × (p x ≡ true)
  mem-filter p x [] m = absurd (Memᴰ.not-nil m)
  mem-filter p x (y ∷ xs) m = elim (Bool-cases (p y)) [
    | inl q ↦ elim (Memᴰ.cases_cons (rw q at m)) [
      | inl e ↦ (Memᴰ.head e, rw e q)
      | inr n ↦ let (k, r) = mem-filter p x xs n in (Memᴰ.tail k, r)
    ]
    | inr q ↦ let (k, r) = mem-filter p x xs (rw q at m) in (Memᴰ.tail k, r)
  ]

  pub filter-mem :
      (p : A → Bool) (x : A) (xs : List A) → Memᴰ x xs → p x ≡ true → Memᴰ x (filter p xs)
  filter-mem p x [] m h = absurd (Memᴰ.not-nil m)
  filter-mem p x (y ∷ xs) m h = elim (Memᴰ.cases_cons m) [
    | inl e ↦ let q : p y ≡ true = rw (sym e) h in rw q (Memᴰ.head e)
    | inr n ↦
        let k = filter-mem p x xs n h in
        elim (Bool-cases (p y)) [ inl q ↦ rw q (Memᴰ.tail k) | inr q ↦ rw q k ]
  ]

module _ {ℓ κ} {A : Type ℓ} (P : A → Type κ) where
  pub All-at : (x : A) (xs : List A) → All P xs → Memᴰ x xs → P x
  All-at x [] h m = absurd (Memᴰ.not-nil m)
  All-at x (y ∷ xs) h m = elim (Memᴰ.cases_cons m) [ inl e ↦ rw e h.0 | inr n ↦ All-at x xs h.1 n ]

module _ {ℓ κ} {A : Type ℓ} {B : Type κ} (f : A → B) where
  pub mem-map : (y : B) (xs : List A) → Memᴰ y (map f xs) → (x : A) × Memᴰ x xs × (f x ≡ y)
  mem-map y [] m = absurd (Memᴰ.not-nil m)
  mem-map y (x ∷ xs) m = elim (Memᴰ.cases_cons m) [
    | inl e ↦ (x, Memᴰ.head refl, sym e)
    | inr n ↦ let (z, k, e) = mem-map y xs n in (z, Memᴰ.tail k, e)
  ]

module _ {ℓ} {A : Type ℓ} ⦃e : Eq A⦄ where
  pub elem-mem : (a : A) (xs : List A) → elem a xs ≡ true → Memᴰ a xs
  elem-mem a [] h = cc
  elem-mem a (x ∷ xs) h = elim ((||_iff (e.beq a x) (elem a xs)).0 h) [
    | inl q ↦ Memᴰ.head ((e.beq_iff a x).0 q)
    | inr q ↦ Memᴰ.tail (elem-mem a xs q)
  ]

  pub mem-elem : (a : A) (xs : List A) → Memᴰ a xs → elem a xs ≡ true
  mem-elem a [] m = absurd (Memᴰ.not-nil m)
  mem-elem a (x ∷ xs) m = elim (Memᴰ.cases_cons m) [
    | inl q ↦ (||_iff (e.beq a x) (elem a xs)).1 (inl ((e.beq_iff a x).1 q))
    | inr n ↦ (||_iff (e.beq a x) (elem a xs)).1 (inr (mem-elem a xs n))
  ]
