-- ===== src/Eval/Full.antt =====
-- eval/scoring.py: the full score of one case.
use whatfrom.Prelude.{
  ℕ, Bool, true, false, not, ◌||◌, ◌&&◌, Option, none, some, List, [], ◌∷◌, map, any, all, filter,
  if◌then◌else◌, ◌==◌,
}
use whatfrom.Prelude.Eq.{Eq, Text, elem, text_eq, text_beq}
use whatfrom.Prelude.Text.{is_nil}
use whatfrom.Prelude.Integers.{ℤ}
use whatfrom.Prelude.Dict.{Dict}
use whatfrom.Filters.{is_none}
use whatfrom.Contracts.{
  Candidate, NumberedEvidence, SearchPlan, RecommendedImage, CheckedRecommendation,
}
use whatfrom.Answer.{Note, RecommendResponse, first_with_image}
use whatfrom.Eval.Golden.{GoldenCase, declared}
use whatfrom.Eval.Scoring.{
  RetrievalScore, PlanScore, is_accepted, conditions_satisfied, score_retrieval, score_plan,
}
pub mod Bound

-- A numbered evidence without its content.
pub record EvidenceKey : Type 0 where
  pub repository : Text
  pub section_title : Text
  pub source_url : Text
  pub number : ℤ

-- The fields that the runner fills in afterwards, `unsatisfied_candidates` and `trace`, are left out.
pub record CaseScore (Size : Type 0) : Type 0 where
  pub case_id : Text
  pub recommended_image : Option Text
  pub accurate : Bool
  pub accurate_by_digest : Bool
  pub rejected_pick : Bool
  pub candidate_hit : Bool
  pub candidate_count : ℕ
  pub accepted_count : ℕ
  pub candidate_images : List Text
  pub tag_real : Option Bool
  pub conditions_declared : Bool
  pub conditions_met : Bool
  pub sources_ok : Bool
  pub hit_declared : Bool
  pub hit_at5 : Bool
  pub top_candidate_accepted : Bool
  pub rejected_candidates : List Text
  pub accepted_candidates : List Text
  pub degraded_note : Option Note
  pub plan : Option (SearchPlan Size)
  pub repository_extracted : Bool
  pub plan_fields : Option (Dict Text Bool)
  pub plan_matched : Bool
  pub notes : List Note
  pub recommended : Option RecommendedImage
  pub recommendation : Option CheckedRecommendation
  pub has_requirements : Bool
  pub evidence : List EvidenceKey

abbrev image_of : Option CheckedRecommendation → Option Text
image_of none = none
image_of (some rec) = some rec.image

abbrev recommended_of : Option Text → List Candidate → Option Candidate
recommended_of none candidates = none
recommended_of (some image) candidates = first_with_image image candidates

abbrev listed : List Text → Option Text → Bool
listed images none = false
listed images (some image) = elem image images

abbrev holds_of : (Candidate → Bool) → Option Candidate → Bool
holds_of p none = false
holds_of p (some c) = p c

-- A result that only counts with a recommendation.
abbrev only_with : Option Text → Option Bool → Option Bool
only_with none result = none
only_with (some image) result = result

abbrev with_image : Option Text → List Candidate → List Candidate
with_image none candidates = candidates
with_image (some image) candidates = filter (λ (c : Candidate). text_beq c.image image) candidates

-- `_sources_ok`; `collected_at` is never None.
abbrev sources_ok_of : List Candidate → Bool
sources_ok_of targets =
    not (is_nil targets) && all (λ (c : Candidate). not (is_nil c.source_url)) targets

abbrev last_note : List Note → Option Note
last_note [] = none
last_note (n ∷ []) = some n
last_note (n ∷ m ∷ notes) = last_note (m ∷ notes)

abbrev degraded_note_of : Option CheckedRecommendation → List Note → Option Note
degraded_note_of none notes = last_note notes
degraded_note_of (some rec) notes = none

abbrev key_of : NumberedEvidence → EvidenceKey
key_of e = record {
  repository = e.repository;
  section_title = e.section_title;
  source_url = e.source_url;
  number = e.number;
}

module _ {Size : Type 0} ⦃size_eq : Eq Size⦄ (within : ℕ → Size → Bool) where
  unfoldable pub score_full :
      GoldenCase Size
      → RecommendResponse (SearchPlan Size)
      → List (Text × Text)
      → Option Bool
      → List Text
      → CaseScore Size
  score_full case response sections recommended_image_exists accepted_digests =
      let retrieval = score_retrieval case accepted_digests response.candidates sections in
      let image = image_of response.recommendation in
      let recommended = recommended_of image response.candidates in
      let by_name = listed case.accept image in
      let accurate = by_name || holds_of (is_accepted case accepted_digests) recommended in
      let extraction = score_plan case response.plan response.notes in
      record {
        case_id = case.id;
        recommended_image = image;
        accurate = accurate;
        accurate_by_digest = accurate && not by_name;
        rejected_pick = listed case.reject image;
        candidate_hit = retrieval.candidate_hit;
        candidate_count = retrieval.candidate_count;
        accepted_count = retrieval.accepted_count;
        candidate_images = retrieval.candidate_images;
        tag_real = only_with image recommended_image_exists;
        conditions_declared = declared case.conditions;
        conditions_met =
            declared case.conditions
            && holds_of (conditions_satisfied within case.conditions) recommended;
        sources_ok = sources_ok_of (with_image image response.candidates);
        hit_declared = retrieval.hit_declared;
        hit_at5 = retrieval.hit_at5;
        top_candidate_accepted = retrieval.top_candidate_accepted;
        rejected_candidates = retrieval.rejected_candidates;
        accepted_candidates = retrieval.accepted_candidates;
        degraded_note = degraded_note_of response.recommendation response.notes;
        plan = extraction.plan;
        repository_extracted = extraction.repository_extracted;
        plan_fields = extraction.plan_fields;
        plan_matched = extraction.plan_matched;
        notes = response.notes;
        recommended = response.recommended;
        recommendation = response.recommendation;
        has_requirements = not (is_nil case.requirements);
        evidence = map key_of response.evidence;
      }
