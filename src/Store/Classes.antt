-- ===== src/Store/Classes.antt =====
-- collect/store.py: the keys that the classes of a page name.
use mathlib.Core.List.{Memᴰ}
use whatfrom.Prelude.{
  ◌≡◌, refl, sym, inl, inr, true, false, ◌&&◌, some, List, [], ◌∷◌, All, Bool-cases, Option-cases,
  ◌==◌,
}
use whatfrom.Prelude.Eq.{Text, elem, nat_eq, text_eq, text_beq}
use whatfrom.Prelude.Dict.{Dict, lookup, values, All-values-insert}
use whatfrom.Models.{ImageTag}
use whatfrom.Store.{TagRow, ExistingTag, is_changed, classify_tags, existing_tag, existing_from}
use whatfrom.Store.Rows.{IsApart}

values-lookup :
    (P : ExistingTag → Type 0) (k : Text) (d : Dict Text ExistingTag) (v : ExistingTag)
    → All P (values d)
    → lookup k d ≡ some v
    → P v
values-lookup P k [] v a e = cc
values-lookup P k ((j, w) ∷ d) v a e = elim (Bool-cases (text_beq j k)) [
  | inl q ↦ let here : some w ≡ some v = rw q at e in let same : w ≡ v = cc in rw (sym same) a.0
  | inr q ↦ values-lookup P k d v a.1 (rw q at e)
]

module _ (t : ImageTag) where
  abbrev pub IsOther : ExistingTag → Type 0
  IsOther e = t.id == e.id ≡ false

  -- The classes name only keys of tags that exist.
  pub classify_tags-IsApart :
      (rows : List TagRow) (existing : Dict Text ExistingTag)
      → All IsOther (values existing)
      → IsApart t (classify_tags rows existing).changed
        × All (λ i. t.id == i ≡ false) (classify_tags rows existing).unchanged_ids
  classify_tags-IsApart [] existing a = (tt, tt)
  classify_tags-IsApart (row ∷ rows) existing a =
      let (c, u) = classify_tags-IsApart rows existing a in
      elim (Option-cases (lookup row.tag existing)) [
        | inl q ↦ rw q (c, u)
        | inr (e, q) ↦
            let other = values-lookup IsOther row.tag existing e a q in
            elim (Bool-cases (is_changed row e)) [
              | inl s ↦ rw (q, s) ((other, c), u)
              | inr s ↦ rw (q, s) (c, (other, u))
            ]
      ]

  pub existing_from-IsOther :
      (repository : Text) (names : List Text) (tags : List ImageTag)
      (existing : Dict Text ExistingTag)
      → ((u : ImageTag)
          → Memᴰ u tags
          → (text_beq u.repository repository && elem u.tag names) ≡ true
          → t.id == u.id ≡ false)
      → All IsOther (values existing)
      → All IsOther (values (existing_from repository names tags existing))
  existing_from-IsOther repository names [] existing h a = a
  existing_from-IsOther repository names (u ∷ tags) existing h a =
      elim (Bool-cases (text_beq u.repository repository && elem u.tag names)) [
        | inl q ↦ rw q (
            existing_from-IsOther repository names tags _ (λ w m. h w (Memᴰ.tail m))
              (All-values-insert IsOther u.tag (existing_tag u) existing (h u (Memᴰ.head refl) q)
                a))
        | inr q ↦
            rw q (existing_from-IsOther repository names tags existing (λ w m. h w (Memᴰ.tail m)) a)
      ]
