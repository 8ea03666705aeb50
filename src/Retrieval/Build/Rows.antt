-- ===== src/Retrieval/Build/Rows.antt =====
-- search/retrieval.py: every candidate that is built stands for the row of its tag.
use mathlib.Core.List.{Memᴰ}
use mathlib.Core.List.Memᴰ
use whatfrom.Prelude.{
  ℕ, ◌≡◌, refl, sym, subst, ◌∙◌, inl, inr, Bool, true, not, ◌&&◌, Option, none, some, List, [], ◌∷◌,
  map, arith, filter, All, All-imp, Bool-cases, ◌==◌, ==_iff, ap,
}
use whatfrom.Prelude.Eq.{Text, elem, nat_eq, text_eq}
use whatfrom.Prelude.Text.{is_nil}
use whatfrom.Prelude.Dict.{Dict, insert, lookup, lookup-insert}
use whatfrom.Prelude.Members.{All-mem, mem-filter, filter-mem, mem-elem}
use whatfrom.Models.{Repository, ImageTag}
use whatfrom.Contracts.{Evidence, Candidate}
use whatfrom.TagSelect.Names.{TagRef}
use whatfrom.Retrieval.Build.{candidate_of, rows_by_id, candidates_of, build_from, build_candidates}

-- Rows with the same id are the same: `id` is the primary key.
abbrev pub UniqueIds : List ImageTag → Type 0
UniqueIds rows = (a b : ImageTag) → Memᴰ a rows → Memᴰ b rows → a.id ≡ b.id → a ≡ b

module _ (all : List ImageTag) where
  abbrev pub IsRow : ℕ → ImageTag → Type 0
  IsRow k r = Memᴰ r all × (r.id ≡ k)

  abbrev pub Sound : Dict ℕ ImageTag → Type 0
  Sound d = (k : ℕ) (r : ImageTag) → lookup k d ≡ some r → IsRow k r

  insert-Sound :
      (row : ImageTag) (d : Dict ℕ ImageTag) → Memᴰ row all → Sound d → Sound (insert row.id row d)
  insert-Sound row d m s k r h = elim (Bool-cases (row.id == k)) [
    | inl q ↦
        let e : some row ≡ some r = rw (lookup-insert row.id k row d, q) at h in
        let same : row ≡ r = cc in subst (IsRow k) same (m, (==_iff row.id k).0 q)
    | inr q ↦ s k r (rw (lookup-insert row.id k row d, q) at h)
  ]

  rows_by_id-Sound :
      (rows : List ImageTag) (d : Dict ℕ ImageTag)
      → All (λ r. Memᴰ r all) rows
      → Sound d
      → Sound (rows_by_id rows d)
  rows_by_id-Sound [] d m s = s
  rows_by_id-Sound (row ∷ rows) d (m, n) s =
      rows_by_id-Sound rows (insert row.id row d) n (insert-Sound row d m s)

filter_rows : (rows : List ImageTag) (p : ImageTag → Bool) → All (λ r. Memᴰ r rows) (filter p rows)
filter_rows rows p = All-imp (λ r m. (mem-filter p r rows m).0) _ (All-mem (filter p rows))

pub picked-Sound :
    (rows : List ImageTag) (p : ImageTag → Bool) → Sound rows (rows_by_id (filter p rows) [])
picked-Sound rows p = rows_by_id-Sound rows (filter p rows) [] (filter_rows rows p) (λ k r e. cc)

abbrev Present : ℕ → Dict ℕ ImageTag → Type 0
Present k d = (r : ImageTag) × (lookup k d ≡ some r)

insert-Present :
    (k : ℕ) (row : ImageTag) (d : Dict ℕ ImageTag) → Present k d → Present k (insert row.id row d)
insert-Present k row d (r, h) = elim (Bool-cases (row.id == k)) [
  | inl q ↦ (row, rw (lookup-insert row.id k row d, q) refl)
  | inr q ↦ (r, rw (lookup-insert row.id k row d, q) h)
]

rows_by_id-kept :
    (k : ℕ) (rows : List ImageTag) (d : Dict ℕ ImageTag)
    → Present k d
    → Present k (rows_by_id rows d)
rows_by_id-kept k [] d p = p
rows_by_id-kept k (row ∷ rows) d p = rows_by_id-kept k rows _ (insert-Present k row d p)

rows_by_id-Present :
    (x : ImageTag) (rows : List ImageTag) (d : Dict ℕ ImageTag)
    → Memᴰ x rows
    → Present x.id (rows_by_id rows d)
rows_by_id-Present x [] d m = absurd (Memᴰ.not-nil m)
rows_by_id-Present x (row ∷ rows) d m = elim (Memᴰ.cases_cons m) [
  | inl e ↦
      let same : (row.id == x.id) ≡ true =
        (==_iff row.id x.id).1 (ap (λ (r : ImageTag). r.id) (sym e)) in
      rows_by_id-kept x.id rows _ (row, rw (lookup-insert row.id x.id row d, same) refl)
  | inr n ↦ rows_by_id-Present x rows _ n
]

-- A row with the id of the tag that satisfies the predicate.
abbrev pub HasRow : List ImageTag → (ImageTag → Type 0) → TagRef → Type 0
HasRow rows R ref = (row : ImageTag) × Memᴰ row rows × (row.id ≡ ref.id) × R row

-- A candidate of such a row.
abbrev pub StandsFor : List ImageTag → (ImageTag → Type 0) → Text → Candidate → Type 0
StandsFor rows R repository c =
    (row : ImageTag) × Memᴰ row rows
    × R row
    × (repo : Repository) × (evidence : List Evidence) × (c
        ≡ candidate_of repo repository evidence row)

module _ (rows : List ImageTag) (unique : UniqueIds rows) (R : ImageTag → Type 0) where
  abbrev pub Built : Text → Option (List Candidate) → Type 0
  Built repository o = (cs : List Candidate) × (o ≡ some cs) × All (StandsFor rows R repository) cs

  module _ (repository : Text) (repo : Repository) (evidence : List Evidence) where
    candidates_of-Built :
        (by_id : Dict ℕ ImageTag) (chosen : List TagRef)
        → Sound rows by_id
        → All (λ (r : TagRef). Present r.id by_id) chosen
        → All (HasRow rows R) chosen
        → Built repository (candidates_of (candidate_of repo repository evidence) by_id chosen)
    candidates_of-Built by_id [] s p h = ([], refl, tt)
    candidates_of-Built by_id (ref ∷ chosen) s ((r, e), p) ((row, m, i, x), h) =
        let (cs, q, a) = candidates_of-Built by_id chosen s p h in
        let (n, j) = s ref.id r e in
        let same : row ≡ r = unique row r m n (i ∙ sym j) in
        rw (e, q)
          (
            candidate_of repo repository evidence r ∷ cs,
            refl,
            ((r, n, subst R same x, repo, evidence, refl), a),
          )

  build_from-Built :
      (repository : Text) (repo : Option Repository) (evidence : List Evidence)
      (chosen : List TagRef)
      → All (HasRow rows R) chosen
      → Built repository (build_from repo rows repository chosen evidence)
  build_from-Built repository none evidence chosen h = ([], refl, tt)
  build_from-Built repository (some repo) evidence chosen h =
      let wanted : ImageTag → Bool = λ row. elem row.id (map (λ (r : TagRef). r.id) chosen) in
      let picked = filter wanted rows in
      let sound = picked-Sound rows wanted in
      candidates_of-Built repository repo evidence (rows_by_id picked []) chosen sound
        (present chosen h (λ r m. mem-elem r.id _ (Memᴰ.map (λ (t : TagRef). t.id) m))) h
    where
      present :
          (refs : List TagRef)
          → All (HasRow rows R) refs
          → ((r : TagRef) → Memᴰ r refs → elem r.id (map (λ (t : TagRef). t.id) chosen) ≡ true)
          → All
              (λ (r : TagRef). Present r.id (
                rows_by_id
                  (filter
                    (λ (row : ImageTag). elem row.id (map (λ (t : TagRef). t.id) chosen))
                    rows)
                  []))
              refs
      present [] k w = tt
      present (r ∷ refs) ((row, m, i, x), k) w =
          let inside =
            filter-mem _ row rows m
              (ap (λ n. elem n (map (λ (t : TagRef). t.id) chosen)) i ∙ w r (Memᴰ.head refl)) in
          (
            subst
                (λ n. Present n (
                  rows_by_id
                    (filter (λ (row : ImageTag). elem row.id (map (λ (t : TagRef). t.id) chosen))
                      rows)
                    []))
                i (rows_by_id-Present row _ [] inside),
            present refs k (λ s n. w s (Memᴰ.tail n)),
          )

  -- All candidates asked for are built, each from the row of its tag.
  pub build_candidates-Built :
      (repositories : List Repository) (repository : Text) (chosen : List TagRef)
      (evidence : List Evidence)
      → All (HasRow rows R) chosen
      → Built repository (build_candidates repositories rows repository chosen evidence)
  unfolding build_candidates
  build_candidates-Built repositories repository chosen evidence h =
      elim (Bool-cases (is_nil chosen)) [
        | inl q ↦ rw q ([], refl, tt)
        | inr q ↦ rw q (build_from-Built repository _ evidence chosen h)
      ]

-- A test for it.
abbrev pub ids_distinct : List ImageTag → Bool
ids_distinct [] = true
ids_distinct (r ∷ rows) = not (elem r.id (map (λ (t : ImageTag). t.id) rows)) && ids_distinct rows

pub ids_distinct-UniqueIds : (rows : List ImageTag) → ids_distinct rows ≡ true → UniqueIds rows
ids_distinct-UniqueIds [] h a b m n e = absurd (Memᴰ.not-nil m)
ids_distinct-UniqueIds (r ∷ rows) h a b m n e =
    let ih = ids_distinct-UniqueIds rows (ground arith) in
    elim (Memᴰ.cases_cons m) [
      | inl p ↦ elim (Memᴰ.cases_cons n) [
        | inl q ↦ p ∙ sym q
        | inr q ↦
            let i = mem-elem b.id _ (Memᴰ.map (λ (t : ImageTag). t.id) q) in
            let same : r.id ≡ b.id = ap (λ (t : ImageTag). t.id) (sym p) ∙ e in
            let j : elem r.id (map (λ (t : ImageTag). t.id) rows) ≡ true = rw same i in
            absurd (ground arith)
      ]
      | inr p ↦ elim (Memᴰ.cases_cons n) [
        | inl q ↦
            let i = mem-elem a.id _ (Memᴰ.map (λ (t : ImageTag). t.id) p) in
            let same : r.id ≡ a.id = ap (λ (t : ImageTag). t.id) (sym q) ∙ sym e in
            let j : elem r.id (map (λ (t : ImageTag). t.id) rows) ≡ true = rw same i in
            absurd (ground arith)
        | inr q ↦ ih a b p q e
      ]
    ]
