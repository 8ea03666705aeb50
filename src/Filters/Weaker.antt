-- ===== src/Filters/Weaker.antt =====
-- search/filters.py: every stage of the relaxation accepts more rows.
use whatfrom.Prelude.{
  ℕ, ◌≡◌, ◌↔◌, refl, inl, inr, Bool, true, ◌&&◌, Option, none, some, List, [], ◌∷◌, ◌++◌, map, all,
  arith, All, All-imp, Bool-cases,
}
use whatfrom.Prelude.Eq.{Text, nat_eq}
use whatfrom.Prelude.Text.{is_nil}
use whatfrom.Models.{ImageTag}
use whatfrom.Filters.{
  TagConditions, Notice, excluded_filter, distribution_filters, version_filters,
  architecture_filter, size_filters, tag_filters, accepts, Stage, without_size,
  without_distributions, without_architectures, without_version, version_stage, from_architectures,
  from_distributions, size_stage, relaxations, is_none, empty,
}

module _ {Size : Type 0} (within : ℕ → Size → Bool) where
  -- Every row that fulfils the first conditions fulfils the second.
  abbrev pub IsWeaker : TagConditions Size → TagConditions Size → Type 0
  IsWeaker c d = (row : ImageTag) → accepts within c row ≡ true → accepts within d row ≡ true

  -- Each stage is weaker than all before it.
  abbrev pub Weakening : List (Stage Size) → Type 0
  Weakening [] = Unit
  Weakening (s ∷ stages) = All (λ t. IsWeaker s.0 t.0) stages × Weakening stages

  abbrev pub Parts : TagConditions Size → ImageTag → Type 0
  Parts c row =
      (all (λ f. f row) (distribution_filters within c.distributions) ≡ true)
      × (all (λ f. f row) (map excluded_filter c.exclude_distributions) ≡ true)
      × (all (λ f. f row) (version_filters within c.version_prefix) ≡ true)
      × (all (λ f. f row) (map (architecture_filter within) c.architectures) ≡ true)
      × (all (λ f. f row) (size_filters within c.architectures c.max_size_mb) ≡ true)

  all-append :
      (row : ImageTag) (xs ys : List (ImageTag → Bool))
      → all (λ f. f row) (xs ++ ys) ≡ (all (λ f. f row) xs && all (λ f. f row) ys)
  all-append row [] ys = refl
  all-append row (x ∷ xs) ys = let ih = all-append row xs ys in ground arith

  pub accepts-and :
      (c : TagConditions Size) (row : ImageTag)
      → accepts within c row ≡ (
          all (λ f. f row) (distribution_filters within c.distributions)
          && (all (λ f. f row) (map excluded_filter c.exclude_distributions)
              && (all (λ f. f row) (version_filters within c.version_prefix)
                  && (all (λ f. f row) (map (architecture_filter within) c.architectures)
                      && all (λ f. f row) (size_filters within c.architectures c.max_size_mb)))))
  unfolding tag_filters
  accepts-and c row = rw (all-append row, all-append row, all-append row, all-append row) refl

  pub accepts-Parts :
      (c : TagConditions Size) (row : ImageTag) → (accepts within c row ≡ true) ↔ Parts c row
  unfolding tag_filters
  accepts-Parts c row =
      rw (all-append row, all-append row, all-append row, all-append row) (ground arith)

  IsWeaker-without_size : (c : TagConditions Size) → IsWeaker c (without_size c)
  IsWeaker-without_size c row h =
      let (d, e, v, a, s) = (accepts-Parts c row).0 h in
      (accepts-Parts (without_size c) row).1 (d, e, v, a, refl)

  IsWeaker-without_distributions : (c : TagConditions Size) → IsWeaker c (without_distributions c)
  IsWeaker-without_distributions c row h =
      let (d, e, v, a, s) = (accepts-Parts c row).0 h in
      (accepts-Parts (without_distributions c) row).1 (refl, refl, v, a, s)

  IsWeaker-without_version : (c : TagConditions Size) → IsWeaker c (without_version c)
  IsWeaker-without_version c row h =
      let (d, e, v, a, s) = (accepts-Parts c row).0 h in
      (accepts-Parts (without_version c) row).1 (d, e, refl, a, s)

  -- Once no size limit is left.
  IsWeaker-without_architectures :
      (c : TagConditions Size) → c.max_size_mb ≡ none → IsWeaker c (without_architectures c)
  IsWeaker-without_architectures c n row h =
      let (d, e, v, a, s) = (accepts-Parts c row).0 h in
      (accepts-Parts (without_architectures c) row).1 (d, e, v, refl, rw n refl)

  -- The stages are weaker than the conditions that they start from, and each than those before it.
  abbrev Below : TagConditions Size → List (Stage Size) → Type 0
  Below c stages = All (λ t. IsWeaker c t.0) stages × Weakening stages

  Below-cons :
      (c d : TagConditions Size) (n : Option (Notice Size)) (stages : List (Stage Size))
      → IsWeaker c d
      → Below d stages
      → Below c ((d, n) ∷ stages)
  Below-cons c d n stages w (a, b) = ((w, All-imp (λ t k row h. k row (w row h)) stages a), (a, b))

  version_stage-Below : (c : TagConditions Size) (v : Option Text) → Below c (version_stage c v)
  version_stage-Below c none = (tt, tt)
  version_stage-Below c (some prefix) =
      Below-cons c (without_version c) (some (Notice.version_given_up prefix)) []
        (IsWeaker-without_version c) (tt, tt)

  from_architectures-Below :
      (c : TagConditions Size) → c.max_size_mb ≡ none → Below c (from_architectures c)
  from_architectures-Below c n = elim (Bool-cases (is_nil c.architectures)) [
    | inl q ↦ rw q (version_stage-Below c c.version_prefix)
    | inr q ↦ rw q (
        Below-cons c (without_architectures c)
          (some (Notice.architectures_given_up c.architectures)) _
          (IsWeaker-without_architectures c n)
          (version_stage-Below (without_architectures c) c.version_prefix))
  ]

  from_distributions-Below :
      (c : TagConditions Size) → c.max_size_mb ≡ none → Below c (from_distributions c)
  from_distributions-Below c n =
      elim (Bool-cases (is_nil c.distributions && is_nil c.exclude_distributions)) [
        | inl q ↦ rw q (from_architectures-Below c n)
        | inr q ↦ rw q (
            Below-cons c (without_distributions c)
              (some (Notice.distributions_given_up c.distributions c.exclude_distributions)) _
              (IsWeaker-without_distributions c)
              (from_architectures-Below (without_distributions c) n))
      ]

  size_stage-Below :
      (c : TagConditions Size) (m : Option Size) → c.max_size_mb ≡ m → Below c (size_stage c m)
  size_stage-Below c none e = from_distributions-Below c e
  size_stage-Below c (some max) e =
      Below-cons c (without_size c) (some (Notice.size_given_up max)) _ (IsWeaker-without_size c)
        (from_distributions-Below (without_size c) refl)

  -- The first stage is the conditions themselves, and every row that one stage accepts is
  -- accepted by all later ones.
  pub relaxations-Weakening :
      (c : TagConditions Size)
      → (rest : List (Stage Size)) × (relaxations c ≡ (c, none) ∷ rest) × Weakening (relaxations c)
  unfolding relaxations
  relaxations-Weakening c = (_, refl, size_stage-Below c c.max_size_mb refl)

  nil_of : (xs : List Text) → is_nil xs ≡ true → xs ≡ []
  nil_of [] h = refl
  nil_of (x ∷ xs) h = cc

  none_of {ℓ} : {A : Type ℓ} (o : Option A) → is_none o ≡ true → o ≡ none
  none_of none h = refl
  none_of (some a) h = cc

  pub accepts-empty :
      (c : TagConditions Size) (row : ImageTag) → empty c ≡ true → accepts within c row ≡ true
  accepts-empty c row h =
      let v = none_of c.version_prefix (ground arith) in
      let a = nil_of c.architectures (ground arith) in
      let d = nil_of c.distributions (ground arith) in
      let x = nil_of c.exclude_distributions (ground arith) in
      let m = none_of c.max_size_mb (ground arith) in
      (accepts-Parts c row).1 (rw d refl, rw x refl, rw v refl, rw a refl, rw m refl)
