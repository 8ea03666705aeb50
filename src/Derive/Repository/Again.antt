-- ===== src/Derive/Repository/Again.antt =====
-- collect/derive.py: what the rows hold afterwards, and what a second run does.
use mathlib.Core.List.{Memᴰ}
use whatfrom.Prelude.{
  ◌≡◌, refl, sym, ◌∙◌, ap, subst, inl, inr, Bool, false, some, List, [], ◌∷◌, map, All, All-imp,
  All-map, Bool-cases, ◌==◌, ==_iff,
}
use whatfrom.Prelude.Eq.{Text, text_eq, nat_eq, text_beq, text_beq_iff}
use whatfrom.Prelude.Members.{mem-filter, filter-mem, All-mem}
use whatfrom.Prelude.Dict.{Dict, lookup}
use whatfrom.Models.{ImageTag}
use whatfrom.Retrieval.Build.Rows.{UniqueIds}
use whatfrom.Derive.Parse.{TagFacts}
use whatfrom.Derive.Resolve.{Fingerprint, Derived}
use whatfrom.Derive.Repository.{
  rows_of, platforms_of, facts_from, fingerprints_from, resolution_of, columns_of, changed_of,
  derive_repository,
}
use whatfrom.Derive.Repository.Values.{resolution_of-IsKey}
use whatfrom.Derive.Repository.Settle.{
  settle, IsFrame, settle-IsFrame, update_rows-settle, IsOwn, settle_reach, settle_outside,
  changed_of-nil,
}

-- A run sees the same names and platforms in rows whose derived columns alone differ.
module _ (g : ImageTag → ImageTag) (frame : (t : ImageTag) → IsFrame t (g t)) where
  rows_of-map :
      (repository : Text) (tags : List ImageTag)
      → rows_of repository (map g tags) ≡ map g (rows_of repository tags)
  rows_of-map repository [] = refl
  rows_of-map repository (t ∷ tags) =
      let e = ap (λ (x : ImageTag). text_beq x.repository repository) (frame t) in
      elim (Bool-cases (text_beq t.repository repository)) [
        | inl q ↦ rw (e, q) (ap (λ ts. g t ∷ ts) (rows_of-map repository tags))
        | inr q ↦ rw (e, q) (rows_of-map repository tags)
      ]

  facts_from-map :
      (repository : Text) (rows : List ImageTag) (facts : Dict Text TagFacts)
      → facts_from repository (map g rows) facts ≡ facts_from repository rows facts
  facts_from-map repository [] facts = refl
  facts_from-map repository (t ∷ rows) facts =
      let e : (g t).tag ≡ t.tag = ap (λ (x : ImageTag). x.tag) (frame t) in
      rw e (facts_from-map repository rows _)

  fingerprints_from-map :
      (rows : List ImageTag) (fingerprints : Dict Text Fingerprint)
      → fingerprints_from (map g rows) fingerprints ≡ fingerprints_from rows fingerprints
  fingerprints_from-map [] fingerprints = refl
  fingerprints_from-map (t ∷ rows) fingerprints =
      let e : (g t).tag ≡ t.tag = ap (λ (x : ImageTag). x.tag) (frame t) in
      let v : platforms_of (g t).variants ≡ platforms_of t.variants =
        ap (λ (x : ImageTag). platforms_of x.variants) (frame t) in
      rw (e, v) (fingerprints_from-map rows _)

  resolution_of-map :
      (repository : Text) (rows : List ImageTag)
      → resolution_of repository (map g rows) ≡ resolution_of repository rows
  resolution_of-map repository rows =
      rw (facts_from-map repository rows [], fingerprints_from-map rows []) refl

-- What a run owes the row of a tag: no other column changes, a row of the repository holds the
-- values of its tag, and a row of another one is left as it is.
abbrev pub IsDerived : Text → List ImageTag → ImageTag → ImageTag → Type 0
IsDerived repository tags before after =
    IsFrame before after
    × (before.repository ≡ repository
        → lookup before.tag (resolution_of repository (rows_of repository tags)).values
          ≡ some (columns_of after))
    × (text_beq before.repository repository ≡ false → after ≡ before)

abbrev pub Pairs : (ImageTag → ImageTag → Type 0) → List ImageTag → List ImageTag → Type 0
Pairs R [] [] = Unit
Pairs R [] (y ∷ ys) = ⊥
Pairs R (x ∷ xs) [] = ⊥
Pairs R (x ∷ xs) (y ∷ ys) = R x y × Pairs R xs ys

Pairs-map :
    (R : ImageTag → ImageTag → Type 0) (g : ImageTag → ImageTag) (xs : List ImageTag)
    → All (λ x. R x (g x)) xs
    → Pairs R xs (map g xs)
Pairs-map R g [] h = tt
Pairs-map R g (x ∷ xs) h = (h.0, Pairs-map R g xs h.1)

module _ (repository : Text) (tags : List ImageTag) (unique : UniqueIds tags) where
  abbrev own_rows : List ImageTag
  own_rows = rows_of repository tags

  abbrev found_values : Dict Text Derived
  found_values = (resolution_of repository own_rows).values

  abbrev settled_row : ImageTag → ImageTag
  settled_row = settle (changed_of found_values own_rows)

  abbrev is_row : ImageTag → Bool
  is_row t = text_beq t.repository repository

  IsOwn-rows : (t : ImageTag) → Memᴰ t tags → All (IsOwn t) own_rows
  IsOwn-rows t m =
      All-imp {Q = IsOwn t} (λ r k e. unique r t (mem-filter is_row r tags k).0 m e) own_rows
        (All-mem own_rows)

  settled_row_values :
      (t : ImageTag)
      → Memᴰ t tags
      → t.repository ≡ repository
      → lookup t.tag found_values ≡ some (columns_of (settled_row t))
  settled_row_values t m e =
      let k = filter-mem is_row t tags m ((text_beq_iff t.repository repository).1 e) in
      let (d, h) = resolution_of-IsKey repository own_rows t k in
      h ∙ ap some (sym (settle_reach found_values own_rows t d k (IsOwn-rows t m) h))

  -- No row of the repository has the key of a row of another one.
  IsOwn-other :
      (t : ImageTag)
      → Memᴰ t tags
      → text_beq t.repository repository ≡ false
      → All (λ (r : ImageTag). t.id == r.id ≡ false) own_rows
  IsOwn-other t m q =
      All-imp {Q = λ (r : ImageTag). t.id == r.id ≡ false}
        (λ r k. elim (Bool-cases (t.id == r.id)) [
          | inl e ↦
              let (w, s) = mem-filter is_row r tags k in
              let same = ap is_row (unique r t w m (sym ((==_iff t.id r.id).0 e))) in cc
          | inr e ↦ e
        ])
        own_rows (All-mem own_rows)

  settled_row-IsDerived : (t : ImageTag) → Memᴰ t tags → IsDerived repository tags t (settled_row t)
  settled_row-IsDerived t m = (
    settle-IsFrame (changed_of found_values own_rows) t,
    settled_row_values t m,
    λ q. settle_outside found_values own_rows t (IsOwn-other t m q),
  )

  -- Where no two tags share a key, a run changes nothing but the derived columns, and those only of
  -- the tags of its repository; each of these then holds the values that its tag has in the
  -- resolution, so that every tag has values.
  pub derive_repository-IsDerived :
      Pairs (IsDerived repository tags) tags (derive_repository repository tags).0
  unfolding derive_repository
  derive_repository-IsDerived =
      subst (Pairs (IsDerived repository tags) tags)
        (sym (update_rows-settle (changed_of found_values own_rows) tags))
        (Pairs-map _ settled_row tags (All-imp settled_row-IsDerived tags (All-mem tags)))

  -- A second run finds the values in place.
  settled_row_rows :
      All
        (λ (r : ImageTag). lookup r.tag found_values ≡ some (columns_of r))
        (map settled_row own_rows)
  settled_row_rows = All-map _ settled_row own_rows (
      All-imp
        {Q = λ (t : ImageTag).
          lookup (settled_row t).tag found_values ≡ some (columns_of (settled_row t))}
        (λ t k.
          let (m, q) = mem-filter is_row t tags k in
          let frame = settle-IsFrame (changed_of found_values own_rows) t in
          ap (λ (x : ImageTag). lookup x.tag found_values) frame
          ∙ settled_row_values t m ((text_beq_iff t.repository repository).0 q))
        own_rows (All-mem own_rows))

  settled_row_changes :
      let rows = rows_of repository (map settled_row tags) in
      changed_of (resolution_of repository rows).values rows ≡ []
  settled_row_changes =
      let frame = settle-IsFrame (changed_of found_values own_rows) in
      rw
        (
          rows_of-map settled_row frame repository tags,
          resolution_of-map settled_row frame repository own_rows,
        )
        (changed_of-nil found_values (map settled_row own_rows) settled_row_rows)

  -- Where no two tags share a key, a second run leaves the table as it is and reports no change.
  pub derive_repository_again :
      let after = (derive_repository repository tags).0 in
      ((derive_repository repository after).0 ≡ after)
      × ((derive_repository repository after).1.changed ≡ 0)
  unfolding derive_repository
  derive_repository_again =
      rw (update_rows-settle (changed_of found_values own_rows) tags, settled_row_changes)
        (refl, refl)
