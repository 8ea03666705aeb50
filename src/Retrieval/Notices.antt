-- ===== src/Retrieval/Notices.antt =====
-- search/retrieval.py: the stages and the notices that go with them.
use whatfrom.Prelude.{
  ℕ, ◌≡◌, refl, sym, ◌∙◌, subst, ◌++◌, inl, inr, ◌⊎◌, Bool, false, ◌&&◌, Option, none, some, List,
  [], ◌∷◌, All, Bool-cases,
}
use whatfrom.Prelude.Eq.{Text, text_eq}
use whatfrom.Prelude.Text.{is_nil}
use whatfrom.Filters.{
  TagConditions, Notice, Stage, is_none, relaxations, size_stage, from_distributions,
  from_architectures, version_stage, without_size, without_distributions, without_architectures,
}
use whatfrom.Retrieval.{Database, add_notice}

module _ {Vector Size : Type 0} (within : ℕ → Size → Bool) (db : Database Vector)
    (vector : Vector) where
  abbrev pub Noticed : Stage Size → Type 0
  Noticed stage = is_none stage.1 ≡ false

  from_version-Noticed :
      (c : TagConditions Size) (v : Option Text) → All Noticed (version_stage c v)
  from_version-Noticed c none = tt
  from_version-Noticed c (some prefix) = (refl, tt)

  from_architectures-Noticed : (c : TagConditions Size) → All Noticed (from_architectures c)
  from_architectures-Noticed c = elim (Bool-cases (is_nil c.architectures)) [
    | inl q ↦ rw q (from_version-Noticed c c.version_prefix)
    | inr q ↦ rw q (refl, from_version-Noticed (without_architectures c) c.version_prefix)
  ]

  from_distributions-Noticed : (c : TagConditions Size) → All Noticed (from_distributions c)
  from_distributions-Noticed c =
      elim (Bool-cases (is_nil c.distributions && is_nil c.exclude_distributions)) [
        | inl q ↦ rw q (from_architectures-Noticed c)
        | inr q ↦ rw q (refl, from_architectures-Noticed (without_distributions c))
      ]

  size_stage-Noticed : (c : TagConditions Size) (m : Option Size) → All Noticed (size_stage c m)
  size_stage-Noticed c none = from_distributions-Noticed c
  size_stage-Noticed c (some max) = (refl, from_distributions-Noticed (without_size c))

  is_nil-add_notice :
      (relaxed : List (Notice Size)) (n : Option (Notice Size))
      → is_none n ≡ false
      → is_nil (add_notice within db vector relaxed n) ≡ false
  is_nil-add_notice relaxed none h = cc
  is_nil-add_notice [] (some n) h = refl
  is_nil-add_notice (m ∷ relaxed) (some n) h = refl

  relaxations-Noticed :
      (conditions : TagConditions Size)
      → (rest : List (Stage Size)) × (relaxations conditions ≡ (conditions, none) ∷ rest)
        × All Noticed rest
  unfolding relaxations
  relaxations-Noticed conditions = (_, refl, size_stage-Noticed conditions conditions.max_size_mb)

  middle-Noticed :
      (before after : List (Stage Size)) (s : Stage Size)
      → All Noticed (before ++ s ∷ after)
      → Noticed s
  middle-Noticed [] after s h = h.0
  middle-Noticed (b ∷ before) after s h = middle-Noticed before after s h.1

  -- A notice is there at the stage where the loop stops exactly where a stage was given up.
  pub is_nil-given_up :
      (conditions stage : TagConditions Size) (before after : List (Stage Size))
      (notice : Option (Notice Size)) (earlier : List (Notice Size))
      → relaxations conditions ≡ before ++ (stage, notice) ∷ after
      → (is_nil before ≡ false) ⊎ (earlier ≡ [])
      → is_nil (add_notice within db vector earlier notice) ≡ is_nil before
  is_nil-given_up conditions stage [] after notice earlier e (inl h) = cc
  is_nil-given_up conditions stage [] after notice earlier e (inr h) =
      let (rest, q, n) = relaxations-Noticed conditions in
      let both : (conditions, none) ∷ rest ≡ (stage, notice) ∷ after = sym q ∙ e in
      let silent : none ≡ notice = cc in rw (sym silent, h) refl
  is_nil-given_up conditions stage (b ∷ before) after notice earlier e o =
      let (rest, q, n) = relaxations-Noticed conditions in
      let both : (conditions, none) ∷ rest ≡ b ∷ (before ++ (stage, notice) ∷ after) = sym q ∙ e in
      let same : rest ≡ before ++ (stage, notice) ∷ after = cc in
      is_nil-add_notice earlier notice
        (middle-Noticed before after (stage, notice) (subst (All Noticed) same n))
