-- ===== src/Derive/Resolve/Chain.antt =====
-- collect/derive.py: the end of a chain of versions, whatever the order of the set.
use mathlib.Core.List.{Memᴰ}
use mathlib.Core.List.Memᴰ
use whatfrom.Prelude.{
  suc, ◌+◌, ◌<◌, ◌≡◌, ◌↔◌, ◌⊎◌, ◌∙◌, refl, sym, ap, inl, inr, Bool, true, &&_iff, some, List, [],
  ◌∷◌, all, arith, Bool-cases, length, length-append,
}
use whatfrom.Prelude.Eq.{Text}
use whatfrom.Versions.{extends_version}
use whatfrom.Versions.Order.{Extends, extends_version_iff}
use whatfrom.Derive.Resolve.{chain_end_in, chain_end}

all-mem : (p : Text → Bool) (x : Text) (xs : List Text) → all p xs ≡ true → Memᴰ x xs → p x ≡ true
all-mem p x [] h m = absurd (Memᴰ.not-nil m)
all-mem p x (y ∷ xs) h m =
    let (a, b) = (&&_iff (p y) (all p xs)).0 h in
    elim (Memᴰ.cases_cons m) [ inl e ↦ rw e a | inr n ↦ all-mem p x xs b n ]

mem-all :
    (p : Text → Bool) (xs : List Text) → ((x : Text) → Memᴰ x xs → p x ≡ true) → all p xs ≡ true
mem-all p [] h = refl
mem-all p (x ∷ xs) h =
    (&&_iff (p x) (all p xs)).1 (h x (Memᴰ.head refl), mem-all p xs (λ y m. h y (Memᴰ.tail m)))

length-Extends : (a b : Text) → Extends a b → (b ≡ a) ⊎ (length a < length b)
length-Extends a b (inl e) = inl e
length-Extends a b (inr (c, r, q, e)) =
    let l : length b ≡ length a + suc (length r) = ap length e ∙ length-append a (c ∷ r) in
    inr (omega arith)

Extends-antisym : (a b : Text) → Extends a b → Extends b a → a ≡ b
Extends-antisym a b h k = elim (length-Extends a b h) [
  | inl e ↦ sym e
  | inr l ↦ elim (length-Extends b a k) [ inl e ↦ e | inr m ↦ absurd (omega arith) ]
]

-- One of the versions that is, or continues, each of them.
abbrev pub IsChainEnd : List Text → Text → Type 0
IsChainEnd versions v = Memᴰ v versions × ((w : Text) → Memᴰ w versions → Extends w v)

module _ (versions : List Text) where
  abbrev is_end : Text → Bool
  is_end v = all (λ other. extends_version other v) versions

  is_end-Extends : (v : Text) → is_end v ≡ true → (w : Text) → Memᴰ w versions → Extends w v
  is_end-Extends v h w m =
      (extends_version_iff w v).0 (all-mem (λ other. extends_version other v) w versions h m)

  found_end :
      (v : Text) (candidates : List Text)
      → chain_end_in versions candidates ≡ some v
      → Memᴰ v candidates × (is_end v ≡ true)
  found_end v [] h = cc
  found_end v (c ∷ candidates) h = elim (Bool-cases (is_end c)) [
    | inl q ↦
        let here : some c ≡ some v = rw q at h in
        let same : v ≡ c = cc in (Memᴰ.head same, rw same q)
    | inr q ↦ let (m, k) = found_end v candidates (rw q at h) in (Memᴰ.tail m, k)
  ]

  finds_end :
      (v : Text) (candidates : List Text)
      → Memᴰ v candidates
      → is_end v ≡ true
      → (w : Text) × (chain_end_in versions candidates ≡ some w)
  finds_end v [] m h = absurd (Memᴰ.not-nil m)
  finds_end v (c ∷ candidates) m h = elim (Bool-cases (is_end c)) [
    | inl q ↦ (c, rw q refl)
    | inr q ↦ elim (Memᴰ.cases_cons m) [
      | inl e ↦ let here : is_end c ≡ true = rw (sym e) h in cc
      | inr n ↦ let (w, k) = finds_end v candidates n h in (w, rw q k)
    ]
  ]

  -- The end of the chain is the one version that is, or continues, each of them; so it does not
  -- depend on the order in which the set of the versions is gone through.
  pub chain_end_iff : (v : Text) → (chain_end versions ≡ some v) ↔ IsChainEnd versions v
  chain_end_iff v = (
    λ h. let (m, e) = found_end v versions h in (m, is_end-Extends v e),
    λ (m, k).
        let e =
          mem-all (λ other. extends_version other v) versions
            (λ w n. (extends_version_iff w v).1 (k w n)) in
        let (w, h) = finds_end v versions m e in
        let (n, f) = found_end w versions h in
        h ∙ ap some (Extends-antisym w v (k w n) (is_end-Extends w f v m)),
  )
