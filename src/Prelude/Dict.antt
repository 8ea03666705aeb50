-- ===== src/Prelude/Dict.antt =====
-- Python's `dict`: entries in the order of their first insertion, each key once.
use mathlib.Core.Path.{◌≡◌, refl, sym, subst}
use mathlib.Core.Logic.{inl, inr}
use mathlib.Core.Option.{Option, none, some}
use mathlib.Core.List.{List, [], ◌∷◌, ◌++◌, map}
use native.Mathlib.Omega.{arith}
use whatfrom.Prelude.Tests.{Bool-cases, if◌then◌else◌}
use whatfrom.Prelude.Lists.{All, All-append}
use whatfrom.Prelude.Eq.{Eq}

abbrev pub Dict {ℓ κ} : Type ℓ → Type κ → Type (ℓ ⊔ κ)
Dict K V = List (K × V)

abbrev pub keys {ℓ κ} : {K : Type ℓ} {V : Type κ} → Dict K V → List K
keys = map (λ e. e.0)

abbrev pub values {ℓ κ} : {K : Type ℓ} {V : Type κ} → Dict K V → List V
values = map (λ e. e.1)

module _ {ℓ κ} {K : Type ℓ} {V : Type κ} ⦃e : Eq K⦄ where
  -- d.get(k)
  abbrev pub lookup : K → Dict K V → Option V
  lookup k [] = none
  lookup k ((j, v) ∷ d) = if e.beq j k then some v else lookup k d

  -- d[k] = v
  abbrev pub insert : K → V → Dict K V → Dict K V
  insert k v [] = (k, v) ∷ []
  insert k v ((j, w) ∷ d) = if e.beq j k then (j, v) ∷ d else (j, w) ∷ insert k v d

  -- d.setdefault(k, v)
  abbrev pub set_default : K → V → Dict K V → Dict K V
  set_default k v [] = (k, v) ∷ []
  set_default k v ((j, w) ∷ d) = if e.beq j k then (j, w) ∷ d else (j, w) ∷ set_default k v d

  pub lookup-insert :
      (k j : K) (v : V) (d : Dict K V)
      → lookup j (insert k v d) ≡ (if e.beq k j then some v else lookup j d)
  lookup-insert k j v [] = refl
  lookup-insert k j v ((i, w) ∷ d) =
      ground (arith, e.beq_iff i k, e.beq_iff i j, e.beq_iff k j, lookup-insert k j v d)

  module _ {μ} (P : V → Type μ) where
    pub All-values-insert :
        (k : K) (v : V) (d : Dict K V) → P v → All P (values d) → All P (values (insert k v d))
    All-values-insert k v [] h a = (h, tt)
    All-values-insert k v ((j, w) ∷ d) h a = elim (Bool-cases (e.beq j k)) [
      | inl q ↦ rw q (h, a.1)
      | inr q ↦ rw q (a.0, All-values-insert k v d h a.1)
    ]

  module _ {μ} (P : K × V → Type μ) where
    pub All-insert : (k : K) (v : V) (d : Dict K V) → P (k, v) → All P d → All P (insert k v d)
    All-insert k v [] h a = (h, tt)
    All-insert k v ((j, w) ∷ d) h a = elim (Bool-cases (e.beq j k)) [
      | inl q ↦ rw q (subst (λ i. P (i, v)) (sym ((e.beq_iff j k).0 q)) h, a.1)
      | inr q ↦ rw q (a.0, All-insert k v d h a.1)
    ]

  -- The key stands in the dict.
  abbrev pub IsKey : Dict K V → K → Type κ
  IsKey d k = (v : V) × (lookup k d ≡ some v)

  pub IsKey-cons : (j k : K) (w : V) (d : Dict K V) → IsKey d k → IsKey ((j, w) ∷ d) k
  IsKey-cons j k w d (v, h) = elim (Bool-cases (e.beq j k)) [
    | inl q ↦ (w, rw q refl)
    | inr q ↦ (v, rw q h)
  ]

-- The list found, or an empty one.
abbrev pub or_nil {ℓ} : {A : Type ℓ} → Option (List A) → List A
or_nil none = []
or_nil (some xs) = xs

-- d.setdefault(k, []).append(x)
module _ {ℓ κ} {K : Type ℓ} {A : Type κ} ⦃e : Eq K⦄ where
  abbrev pub append_to : K → A → Dict K (List A) → Dict K (List A)
  append_to k x [] = (k, x ∷ []) ∷ []
  append_to k x ((j, xs) ∷ d) =
      if e.beq j k then (j, xs ++ x ∷ []) ∷ d else (j, xs) ∷ append_to k x d

  module _ {μ} (Q : K → A → Type μ) where
    -- Every item of every list fits the key that its list stands under.
    abbrev pub Entries : Dict K (List A) → Type μ
    Entries [] = Unit
    Entries ((k, xs) ∷ d) = All (Q k) xs × Entries d

    pub Entries-append_to :
        (k : K) (x : A) (d : Dict K (List A)) → Q k x → Entries d → Entries (append_to k x d)
    Entries-append_to k x [] h a = ((h, tt), tt)
    Entries-append_to k x ((j, xs) ∷ d) h a = elim (Bool-cases (e.beq j k)) [
      | inl q ↦ rw q (
        All-append (Q j) xs (x ∷ []) a.0 (subst (λ i. Q i x) (sym ((e.beq_iff j k).0 q)) h, tt),
        a.1,
      )
      | inr q ↦ rw q (a.0, Entries-append_to k x d h a.1)
    ]

    pub Entries-lookup : (k : K) (d : Dict K (List A)) → Entries d → All (Q k) (or_nil (lookup k d))
    Entries-lookup k [] a = tt
    Entries-lookup k ((j, ys) ∷ d) a = elim (Bool-cases (e.beq j k)) [
      | inl q ↦ rw q (subst (λ i. All (Q i) ys) ((e.beq_iff j k).0 q) a.0)
      | inr q ↦ rw q (Entries-lookup k d a.1)
    ]
