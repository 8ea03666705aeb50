-- ===== src/Store/Rows.antt =====
-- collect/store.py: a row whose key a statement does not name.
use mathlib.Core.List.{Memᴰ}
use mathlib.Core.List.Memᴰ
use whatfrom.Prelude.{
  ℕ, ◌≡◌, ◌∙◌, refl, sym, ap, inl, inr, false, Option, none, some, List, [], ◌∷◌, map, All,
  Option-cases, ◌==◌,
}
use whatfrom.Prelude.Eq.{elem, nat_eq, text_eq}
use whatfrom.Models.{ImageTag}
use whatfrom.Store.{TagRow, rewritten, update_changed, add_own, each_tag, insert_variants}

pub map_keeps :
    (f : ImageTag → ImageTag) (t : ImageTag) (tags : List ImageTag)
    → f t ≡ t
    → Memᴰ t tags
    → Memᴰ t (map f tags)
map_keeps f t [] h m = absurd (Memᴰ.not-nil m)
map_keeps f t (u ∷ tags) h m = elim (Memᴰ.cases_cons m) [
  | inl e ↦ Memᴰ.head (sym h ∙ ap f e)
  | inr n ↦ Memᴰ.tail (map_keeps f t tags h n)
]

each_tag_keeps :
    (f : ImageTag → Option ImageTag) (t : ImageTag) (tags after : List ImageTag)
    → f t ≡ some t
    → Memᴰ t tags
    → each_tag f tags ≡ some after
    → Memᴰ t after
each_tag_keeps f t [] after h m e = absurd (Memᴰ.not-nil m)
each_tag_keeps f t (u ∷ tags) after h m e = elim (Option-cases (f u)) [
  | inl q ↦ let bad : none ≡ some after = rw q at e in cc
  | inr (v, q) ↦ elim (Option-cases (each_tag f tags)) [
    | inl r ↦ let bad : none ≡ some after = rw (q, r) at e in cc
    | inr (vs, r) ↦
        let same : some (v ∷ vs) ≡ some after = rw (q, r) at e in
        let both : v ∷ vs ≡ after = cc in
        rw (sym both) (elim (Memᴰ.cases_cons m) [
          | inl k ↦ let here : some t ≡ some v = sym h ∙ ap f k ∙ q in Memᴰ.head cc
          | inr n ↦ Memᴰ.tail (each_tag_keeps f t tags vs h n r)
        ])
  ]
]

-- A tag whose key no item of the list has.
abbrev pub IsApart : ImageTag → List (ℕ × TagRow) → Type 0
IsApart t changes = All (λ c. t.id == c.0 ≡ false) changes

pub update_changed_keeps :
    (collected_at : ℕ) (t : ImageTag) (changes : List (ℕ × TagRow)) (tags : List ImageTag)
    → IsApart t changes
    → Memᴰ t tags
    → Memᴰ t (update_changed collected_at changes tags)
update_changed_keeps collected_at t [] tags a m = m
update_changed_keeps collected_at t (c ∷ changes) tags a m =
    update_changed_keeps collected_at t changes _ a.1
      (map_keeps (rewritten collected_at c) t tags (rw a.0 refl) m)

pub insert_variants_keeps :
    (t : ImageTag) (rewrite : List (ℕ × TagRow)) (tags after : List ImageTag)
    → IsApart t rewrite
    → Memᴰ t tags
    → insert_variants rewrite tags ≡ some after
    → Memᴰ t after
insert_variants_keeps t [] tags after a m e = let same : tags ≡ after = cc in rw (sym same) m
insert_variants_keeps t (c ∷ rewrite) tags after a m e =
    elim (Option-cases (each_tag (add_own c) tags)) [
      | inl q ↦ let bad : none ≡ some after = rw q at e in cc
      | inr (us, q) ↦
          insert_variants_keeps t rewrite us after a.1
            (each_tag_keeps (add_own c) t tags us (rw a.0 refl) m q) (rw q at e)
    ]

pub elem_apart :
    (t : ImageTag) (changes : List (ℕ × TagRow))
    → IsApart t changes
    → elem t.id (map (λ c. c.0) changes) ≡ false
elem_apart t [] a = refl
elem_apart t (c ∷ changes) a = rw a.0 (elem_apart t changes a.1)

pub elem_other : (i : ℕ) (ids : List ℕ) → All (λ j. i == j ≡ false) ids → elem i ids ≡ false
elem_other i [] a = refl
elem_other i (j ∷ ids) a = rw a.0 (elem_other i ids a.1)
