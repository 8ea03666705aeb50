-- ===== src/Store/Kept.antt =====
-- collect/store.py: what a page leaves alone.
use mathlib.Core.List.{Memᴰ}
use mathlib.Core.List.Memᴰ
use whatfrom.Prelude.{
  ℕ, ◌≡◌, ◌∙◌, refl, sym, ap, inl, inr, true, false, ◌&&◌, none, some, List, [], ◌∷◌, ◌++◌, map,
  All, All-append, Bool-cases, Option-cases, ◌==◌, ==_iff, length,
}
use whatfrom.Prelude.Eq.{Text, elem, nat_eq, text_eq, text_beq}
use whatfrom.Models.{ImageTag}
use whatfrom.Retrieval.Build.Rows.{UniqueIds}
use whatfrom.Store.{
  TagRow, TagChanges, classify_tags, existing_from, new_tag, is_stored, insert_tags, update_changed,
  delete_variants, insert_variants, touch, finish_upsert, upsert_tags,
}
use whatfrom.Store.Rows.{
  map_keeps, IsApart, update_changed_keeps, insert_variants_keeps, elem_apart, elem_other,
}
use whatfrom.Store.Classes.{classify_tags-IsApart, existing_from-IsOther}

-- A key that the database chooses is that of no tag in the table.
abbrev pub IsFresh : (List ImageTag → ℕ) → Type 0
IsFresh fresh = (tags : List ImageTag) (t : ImageTag) → Memᴰ t tags → t.id == fresh tags ≡ false

mem-append : (t : ImageTag) (xs ys : List ImageTag) → Memᴰ t xs → Memᴰ t (xs ++ ys)
mem-append t [] ys m = absurd (Memᴰ.not-nil m)
mem-append t (x ∷ xs) ys m = elim (Memᴰ.cases_cons m) [
  | inl e ↦ Memᴰ.head e
  | inr n ↦ Memᴰ.tail (mem-append t xs ys n)
]

insert_tags_keeps :
    (fresh : List ImageTag → ℕ)
    → IsFresh fresh
    → (repository : Text) (collected_at : ℕ) (t : ImageTag) (rows : List TagRow)
      (tags after : List ImageTag) (inserted : List (ℕ × TagRow))
    → Memᴰ t tags
    → insert_tags fresh repository collected_at rows tags ≡ some (after, inserted)
    → Memᴰ t after × IsApart t inserted
insert_tags_keeps fresh new repository collected_at t [] tags after inserted m e =
    let same : tags ≡ after = cc in
    let none_new : [] ≡ inserted = cc in (rw (sym same) m, rw (sym none_new) tt)
insert_tags_keeps fresh new repository collected_at t (row ∷ rows) tags after inserted m e =
    let more = tags ++ new_tag repository collected_at (fresh tags) row ∷ [] in
    elim (Bool-cases (is_stored repository row.tag tags)) [
      | inl q ↦ let bad : none ≡ some (after, inserted) = rw q at e in cc
      | inr q ↦ elim (Option-cases (insert_tags fresh repository collected_at rows more)) [
        | inl r ↦ let bad : none ≡ some (after, inserted) = rw (q, r) at e in cc
        | inr ((us, entries), r) ↦
            let (k, a) =
              insert_tags_keeps fresh new repository collected_at t rows more us entries
                (mem-append t tags _ m) r in
            let both : some (us, (fresh tags, row) ∷ entries) ≡ some (after, inserted) =
              rw (q, r) at e in
            let same : us ≡ after = cc in
            let entries_same : (fresh tags, row) ∷ entries ≡ inserted = cc in
            (rw (sym same) k, rw (sym entries_same) (new tags t m, a))
      ]
    ]

-- Of the table after the inserts, a tag with a key of its own keeps its row.
finish_upsert_keeps :
    (collected_at : ℕ) (changes : TagChanges) (t : ImageTag) (tags after : List ImageTag)
    (inserted : List (ℕ × TagRow)) (n : ℕ)
    → Memᴰ t tags
    → IsApart t inserted
    → IsApart t changes.changed
    → All (λ i. t.id == i ≡ false) changes.unchanged_ids
    → finish_upsert collected_at changes (tags, inserted) ≡ some (after, n)
    → Memᴰ t after
finish_upsert_keeps collected_at changes t tags after inserted n m a c u e =
    let rewrite = inserted ++ changes.changed in
    let updated = update_changed collected_at changes.changed tags in
    let cleared = delete_variants (map (λ k. k.0) changes.changed) updated in
    let k : Memᴰ t cleared =
      map_keeps _ t updated (rw (elem_apart t changes.changed c) refl)
        (update_changed_keeps collected_at t changes.changed tags c m) in
    elim (Option-cases (insert_variants rewrite cleared)) [
      | inl q ↦ let bad : none ≡ some (after, n) = rw q at e in cc
      | inr (us, q) ↦
          let apart = All-append (λ d. t.id == d.0 ≡ false) inserted changes.changed a c in
          let l = insert_variants_keeps t rewrite cleared us apart k q in
          let touched = map_keeps _ t us (rw (elem_other t.id changes.unchanged_ids u) refl) l in
          let done : some (touch collected_at changes.unchanged_ids us, length rewrite)
              ≡ some (after, n) =
            rw q at e in
          let same : touch collected_at changes.unchanged_ids us ≡ after = cc in
          rw (sym same) touched
    ]

module _ (fresh : List ImageTag → ℕ) (new : IsFresh fresh) (repository : Text) where
  -- Where no two tags share a key and new keys are fresh, a page that is stored leaves every tag as
  -- it is that belongs to another repository or that the page does not name.
  pub upsert_tags_keeps :
      (rows : List TagRow) (collected_at : ℕ) (tags after : List ImageTag) (n : ℕ)
      → UniqueIds tags
      → upsert_tags fresh repository rows collected_at tags ≡ some (after, n)
      → (t : ImageTag) → Memᴰ t tags
      → (text_beq t.repository repository && elem t.tag (map (λ (r : TagRow). r.tag) rows)) ≡ false
      → Memᴰ t after
  unfolding upsert_tags
  upsert_tags_keeps [] collected_at tags after n unique e t m o =
      let same : tags ≡ after = cc in rw (sym same) m
  upsert_tags_keeps (row ∷ rows) collected_at tags after n unique e t m o =
      let names = map (λ (r : TagRow). r.tag) (row ∷ rows) in
      let existing = existing_from repository names tags [] in
      let changes = classify_tags (row ∷ rows) existing in
      let (c, u) =
        classify_tags-IsApart t (row ∷ rows) existing
          (existing_from-IsOther t repository names tags [] (λ v k q. apart v k q) tt) in
      elim (Option-cases (insert_tags fresh repository collected_at changes.new tags)) [
        | inl q ↦ let bad : none ≡ some (after, n) = rw q at e in cc
        | inr ((us, inserted), q) ↦
            let (k, a) =
              insert_tags_keeps fresh new repository collected_at t changes.new tags us inserted m
                q in
            finish_upsert_keeps collected_at changes t us after inserted n k a c u (rw q at e)
      ]
    where
      apart :
          (v : ImageTag)
          → Memᴰ v tags
          → (text_beq v.repository repository
              && elem v.tag (map (λ (r : TagRow). r.tag) (row ∷ rows)))
            ≡ true
          → t.id == v.id ≡ false
      apart v k q = elim (Bool-cases (t.id == v.id)) [
        | inl s ↦
            let same =
              ap
                (λ (x : ImageTag).
                  text_beq x.repository repository
                  && elem x.tag (map (λ (r : TagRow). r.tag) (row ∷ rows)))
                (unique t v m k ((==_iff t.id v.id).0 s)) in
            let clash : true ≡ false = sym q ∙ sym same ∙ o in cc
        | inr s ↦ s
      ]
