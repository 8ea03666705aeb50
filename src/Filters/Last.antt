-- ===== src/Filters/Last.antt =====
-- search/filters.py: how many stages there are, and where they end.
use whatfrom.Prelude.{
  ◌≡◌, ◌≤◌, refl, ap, inl, inr, true, ◌&&◌, Option, none, some, List, [], ◌∷◌, arith, Bool-cases,
  length,
}
use whatfrom.Prelude.Eq.{Text, nat_eq}
use whatfrom.Prelude.Text.{is_nil}
use whatfrom.Filters.{
  TagConditions, is_none, empty, Stage, without_size, without_distributions, without_architectures,
  version_stage, from_architectures, from_distributions, size_stage, relaxations,
}

module _ {Size : Type 0} where
  abbrev pub last_of : TagConditions Size → List (Stage Size) → TagConditions Size
  last_of c [] = c
  last_of c (s ∷ stages) = last_of s.0 stages

  version_stage-end :
      (c : TagConditions Size) (v : Option Text)
      → c.version_prefix ≡ v
      → (is_nil c.architectures
          && (is_nil c.distributions && (is_nil c.exclude_distributions && is_none c.max_size_mb)))
        ≡ true
      → (length (version_stage c v) ≤ 1) × (empty (last_of c (version_stage c v)) ≡ true)
  version_stage-end c none e h = (omega arith, rw e h)
  version_stage-end c (some prefix) e h = (omega arith, h)

  from_architectures-end :
      (c : TagConditions Size)
      → (is_nil c.distributions && (is_nil c.exclude_distributions && is_none c.max_size_mb)) ≡ true
      → (length (from_architectures c) ≤ 2) × (empty (last_of c (from_architectures c)) ≡ true)
  from_architectures-end c h = elim (Bool-cases (is_nil c.architectures)) [
    | inl q ↦
        let (l, e) = version_stage-end c c.version_prefix refl (ground arith) in
        rw q (omega (arith, l), e)
    | inr q ↦
        let (l, e) = version_stage-end (without_architectures c) c.version_prefix refl h in
        rw q (omega (arith, l), e)
  ]

  from_distributions-end :
      (c : TagConditions Size)
      → is_none c.max_size_mb ≡ true
      → (length (from_distributions c) ≤ 3) × (empty (last_of c (from_distributions c)) ≡ true)
  from_distributions-end c h =
      elim (Bool-cases (is_nil c.distributions && is_nil c.exclude_distributions)) [
        | inl q ↦ let (l, e) = from_architectures-end c (ground arith) in rw q (omega (arith, l), e)
        | inr q ↦
            let (l, e) = from_architectures-end (without_distributions c) h in
            rw q (omega (arith, l), e)
      ]

  size_stage-end :
      (c : TagConditions Size) (m : Option Size)
      → c.max_size_mb ≡ m
      → (length (size_stage c m) ≤ 4) × (empty (last_of c (size_stage c m)) ≡ true)
  size_stage-end c none e =
      let (l, k) = from_distributions-end c (ap is_none e) in (omega (arith, l), k)
  size_stage-end c (some max) e =
      let (l, k) = from_distributions-end (without_size c) refl in (omega (arith, l), k)

  -- The relaxation ends after five stages at most, with conditions that are empty.
  pub relaxations_end :
      (c : TagConditions Size)
      → (length (relaxations c) ≤ 5) × (empty (last_of c (relaxations c)) ≡ true)
  unfolding relaxations
  relaxations_end c = let (l, e) = size_stage-end c c.max_size_mb refl in (omega (arith, l), e)
