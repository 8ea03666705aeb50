-- ===== src/Retrieval/Build/Offered.antt =====
-- search/retrieval.py, build_candidates: every reference becomes a candidate.
use mathlib.Core.List.{Memᴰ}
use mathlib.Core.List.Memᴰ
use whatfrom.Prelude.{
  ℕ, ◌≡◌, refl, subst, ◌∙◌, inl, inr, Bool, none, some, List, [], ◌∷◌, ◌++◌, map, filter,
  Option-cases, ap,
}
use whatfrom.Prelude.Eq.{Text, elem, nat_eq, text_eq}
use whatfrom.Prelude.Dict.{Dict, lookup}
use whatfrom.Models.{Repository, ImageTag}
use whatfrom.Contracts.{Evidence, Candidate}
use whatfrom.TagSelect.Names.{TagRef}
use whatfrom.Retrieval.Build.{
  candidate_of, get_repository, rows_by_id, candidates_of, build_candidates,
}
use whatfrom.Retrieval.Build.Rows.{picked-Sound}

-- Of a list of candidates, one with the repository and the tag of the row that the reference names.
abbrev pub IsOffered : List ImageTag → List Candidate → Text → TagRef → Type 0
IsOffered tags cs repository ref =
    (c : Candidate) × Memᴰ c cs
    × (c.repository ≡ repository)
    × (row : ImageTag) × Memᴰ row tags
    × (row.id ≡ ref.id)
    × (c.tag ≡ row.tag)

candidates_of-mem :
    (make : ImageTag → Candidate) (by_id : Dict ℕ ImageTag) (chosen : List TagRef)
    (cs : List Candidate) (ref : TagRef)
    → candidates_of make by_id chosen ≡ some cs
    → Memᴰ ref chosen
    → (row : ImageTag) × (lookup ref.id by_id ≡ some row) × Memᴰ (make row) cs
candidates_of-mem make by_id [] cs ref e m = absurd (Memᴰ.not-nil m)
candidates_of-mem make by_id (r ∷ chosen) cs ref e m = elim (Option-cases (lookup r.id by_id)) [
  | inl q ↦ let bad : none ≡ some cs = rw q at e in cc
  | inr (row, q) ↦ elim (Option-cases (candidates_of make by_id chosen)) [
    | inl p ↦ let bad : none ≡ some cs = rw (q, p) at e in cc
    | inr (rest, p) ↦
        let whole : some (make row ∷ rest) ≡ some cs = rw (q, p) at e in
        let same : make row ∷ rest ≡ cs = cc in
        elim (Memᴰ.cases_cons m) [
          | inl k ↦ (
            row,
            ap (λ (x : TagRef). lookup x.id by_id) k ∙ q,
            subst (Memᴰ (make row)) same (Memᴰ.head refl),
          )
          | inr n ↦
              let (found, l, h) = candidates_of-mem make by_id chosen rest ref p n in
              (found, l, subst (Memᴰ (make found)) same (Memᴰ.tail h))
        ]
  ]
]

module _ (repositories : List Repository) (tags : List ImageTag) where
  pub build_candidates-IsOffered :
      (repository : Text) (repo : Repository) (chosen : List TagRef) (evidence : List Evidence)
      (cs : List Candidate) (ref : TagRef)
      → get_repository repository repositories ≡ some repo
      → build_candidates repositories tags repository chosen evidence ≡ some cs
      → Memᴰ ref chosen
      → IsOffered tags cs repository ref
  unfolding build_candidates
  build_candidates-IsOffered repository repo [] evidence cs ref g e m = absurd (Memᴰ.not-nil m)
  build_candidates-IsOffered repository repo (r ∷ chosen) evidence cs ref g e m =
      let wanted : ImageTag → Bool = λ row. elem row.id (map (λ (x : TagRef). x.id) (r ∷ chosen)) in
      let make = candidate_of repo repository evidence in
      let (row, l, h) =
        candidates_of-mem make (rows_by_id (filter wanted tags) []) (r ∷ chosen) cs ref (rw g at e)
          m in
      let (n, i) = picked-Sound tags wanted ref.id row l in (make row, h, refl, row, n, i, refl)

pub mem-append_left : (c : Candidate) (xs ys : List Candidate) → Memᴰ c xs → Memᴰ c (xs ++ ys)
mem-append_left c [] ys m = absurd (Memᴰ.not-nil m)
mem-append_left c (x ∷ xs) ys m = elim (Memᴰ.cases_cons m) [
  | inl e ↦ Memᴰ.head e
  | inr n ↦ Memᴰ.tail (mem-append_left c xs ys n)
]

pub mem-append_right : (c : Candidate) (xs ys : List Candidate) → Memᴰ c ys → Memᴰ c (xs ++ ys)
mem-append_right c [] ys m = m
mem-append_right c (x ∷ xs) ys m = Memᴰ.tail (mem-append_right c xs ys m)
