-- ===== src/Eval/Scoring.antt =====
-- eval/scoring.py: the scores of one case.
use whatfrom.Prelude.{
  ℕ, suc, ◌+◌, min, Bool, true, false, not, ◌||◌, ◌&&◌, Option, none, some, List, [], ◌∷◌, ◌++◌,
  map, any, all, filter, length, if◌then◌else◌,
}
use whatfrom.Prelude.Eq.{Eq, Text, elem, text_eq, text_beq, option_beq}
use whatfrom.Prelude.Text.{codes, is_nil, contains}
use whatfrom.Prelude.Integers.{ℤ}
use whatfrom.Prelude.Dict.{Dict, values}
use whatfrom.Filters.{is_none, first_or}
use whatfrom.Contracts.{
  Candidate, Platform, NumberedEvidence, SearchPlan, RecommendedImage, CheckedRecommendation,
}
use whatfrom.Answer.{Note, RecommendResponse, first_with_image}
use whatfrom.Versions.{extends_version}
use whatfrom.Eval.Golden.{Conditions, ExpectedPlan, GoldenCase, declared}
pub mod Agreement

pub record RetrievalScore : Type 0 where
  pub case_id : Text
  pub candidate_hit : Bool
  pub candidate_count : ℕ
  pub accepted_count : ℕ
  pub candidate_images : List Text
  pub hit_declared : Bool
  pub hit_at5 : Bool
  pub top_candidate_accepted : Bool
  pub rejected_candidates : List Text
  pub accepted_candidates : List Text

abbrev known_in : List Text → Option Text → Bool
known_in digests none = false
known_in digests (some digest) = elem digest digests

abbrev pub images_of : List Candidate → List Text
images_of = map (λ (c : Candidate). c.image)

-- `_linux_platforms`
abbrev is_architecture : Option Text → Platform → Bool
is_architecture none p = true
is_architecture (some architecture) p = text_beq p.architecture architecture

abbrev pub linux_platforms : Candidate → Option Text → List Platform
linux_platforms candidate architecture =
    filter (λ p. text_beq p.os (codes "linux") && is_architecture architecture p)
      candidate.platforms

-- `{distribution, distro_codename} - {None}`
abbrev add_value : Option Text → List Text → List Text
add_value none values = values
add_value (some v) values = v ∷ values

abbrev pub derived : Candidate → List Text
derived c = add_value c.distribution (add_value c.distro_codename [])

abbrev pub violates : Candidate → Text → Bool
violates c excluded =
    if not (is_nil (derived c)) then elem excluded (derived c) else contains excluded c.tag

-- `candidate.version or candidate.tag`
abbrev pub version_or_tag : Candidate → Option Text → Text
version_or_tag c none = c.tag
version_or_tag c (some []) = c.tag
version_or_tag c (some (d ∷ v)) = d ∷ v

abbrev pub version_satisfied : Candidate → Option Text → Bool
version_satisfied c none = true
version_satisfied c (some prefix) = extends_version prefix (version_or_tag c c.version)

-- `min(p.size_bytes for p in platforms)`, of the first and the others.
abbrev pub least_size : ℕ → List Platform → ℕ
least_size n [] = n
least_size n (p ∷ ps) = min n (least_size p.size_bytes ps)

-- Over the type of size limits with the test `size_bytes <= max_size_mb * MB`.
module _ {Size : Type 0} (within : ℕ → Size → Bool) where
  abbrev pub smallest_within : Size → List Platform → Bool
  smallest_within max [] = false
  smallest_within max (p ∷ ps) = within (least_size p.size_bytes ps) max

  abbrev pub size_satisfied : Candidate → List Text → Option Size → Bool
  size_satisfied c architectures none = true
  size_satisfied c architectures (some max) =
      smallest_within max (linux_platforms c (some (first_or (codes "amd64") architectures)))

  unfoldable pub conditions_satisfied : Conditions Size → Candidate → Bool
  conditions_satisfied conditions c =
      all (λ a. not (is_nil (linux_platforms c (some a)))) conditions.architectures
      && (all (λ excluded. not (violates c excluded)) conditions.exclude_distributions
          && (version_satisfied c conditions.version_prefix
              && size_satisfied c conditions.architectures conditions.max_size_mb))

module _ {Size : Type 0} (case : GoldenCase Size) (accepted_digests : List Text) where
  unfoldable pub is_accepted : Candidate → Bool
  is_accepted c =
      if elem c.image case.reject
      then false
      else (if elem c.image case.accept then true else known_in accepted_digests c.digest)

  -- `_candidate_hit`
  abbrev pub candidate_hit : List Candidate → Bool
  candidate_hit candidates = any is_accepted candidates

  -- `_hit_at5`
  abbrev section_hit : List (Text × Text) → Bool
  section_hit sections =
      any
        (λ expected.
          any (λ (s : Text × Text). elem s.0 case.requires_repositories && contains expected s.1)
            sections)
        case.expected_sections

  abbrev top_accepted : List Candidate → Bool
  top_accepted [] = false
  top_accepted (c ∷ cs) = is_accepted c

  unfoldable pub score_retrieval : List Candidate → List (Text × Text) → RetrievalScore
  score_retrieval candidates sections = record {
    case_id = case.id;
    candidate_hit = candidate_hit candidates;
    candidate_count = length (images_of candidates);
    accepted_count = length (filter is_accepted candidates);
    candidate_images = images_of candidates;
    hit_declared = not (is_nil case.expected_sections);
    hit_at5 = not (is_nil case.expected_sections) && section_hit sections;
    top_candidate_accepted = top_accepted candidates;
    rejected_candidates =
        images_of (filter (λ (c : Candidate). elem c.image case.reject) candidates);
    accepted_candidates = images_of (filter is_accepted candidates);
  }

-- Equality of sets.
abbrev pub same_set : List Text → List Text → Bool
same_set xs ys = all (λ x. elem x ys) xs && all (λ y. elem y xs) ys

module _ {Size : Type 0} ⦃size_eq : Eq Size⦄ where
  unfoldable pub plan_field_matches : ExpectedPlan Size → SearchPlan Size → Dict Text Bool
  plan_field_matches expected plan =
      (codes "architectures", same_set plan.architectures expected.architectures)
      ∷ (codes "distributions", same_set plan.distributions expected.distributions)
      ∷ (
        codes "exclude_distributions",
        same_set plan.exclude_distributions expected.exclude_distributions,
      )
      ∷ (codes "version_prefix", option_beq plan.version_prefix expected.version_prefix)
      ∷ (codes "max_size_mb", option_beq plan.max_size_mb expected.max_size_mb)
      ∷ []

pub record PlanScore (Size : Type 0) : Type 0 where
  pub case_id : Text
  pub plan : Option (SearchPlan Size)
  pub repository_extracted : Bool
  pub plan_fields : Option (Dict Text Bool)
  pub plan_matched : Bool
  pub notes : List Note

module _ {Size : Type 0} ⦃size_eq : Eq Size⦄ (case : GoldenCase Size) where
  abbrev fields_of : Option (SearchPlan Size) → Option (Dict Text Bool)
  fields_of none = none
  fields_of (some plan) = some (plan_field_matches case.expected_plan plan)

  -- `plan.repository in case.requires_repositories`; a repository that is None is not in the list.
  abbrev repository_in : Option (SearchPlan Size) → Bool
  repository_in none = false
  repository_in (some plan) = known_in case.requires_repositories plan.repository

  abbrev all_match : Option (Dict Text Bool) → Bool
  all_match none = false
  all_match (some fields) = all (λ b. b) (values fields)

  unfoldable pub score_plan : Option (SearchPlan Size) → List Note → PlanScore Size
  score_plan plan notes = record {
    case_id = case.id;
    plan = plan;
    repository_extracted = repository_in plan;
    plan_fields = fields_of plan;
    plan_matched = all_match (fields_of plan);
    notes = notes;
  }
