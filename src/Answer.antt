-- ===== src/Answer.antt =====
-- api.py: how a question is answered, whichever stage the answer stops at.
use Prim.Native.Nat.{ℕ}
use whatfrom.Prelude.{
  zero, Option, none, some, List, [], ◌∷◌, ◌++◌, Bool, true, false, not, ◌||◌, if◌then◌else◌, ◌==◌,
  ltb, filter, map,
}
use whatfrom.Prelude.Eq.{Text, elem, text_eq, text_beq}
use whatfrom.Prelude.Text.{is_nil}
use whatfrom.Contracts.{
  NumberedEvidence, Candidate, Recommendation, CheckedRecommendation, RecommendedImage,
}
use whatfrom.Verify.{Session, VerifyResult, verify_recommendation}
use whatfrom.Verify.Citations.{check_citations}
use whatfrom.Answer.Numbering.{number_evidence}
pub mod Numbering
pub mod Shown
pub mod Explained
mod Tests

-- What a call over HTTP comes to: its result, or the text of a RemoteCallError.
pub data Remote {ℓ} (A : Type ℓ) : Type ℓ where
  returned : A → Remote A
  failed : Text → Remote A

-- The notes of an answer, by the place that appends them, with what they are made from.
pub data Note : Type 0 where
  embedding_failed : Text → Note
  plan_failed : Text → Note
  search_note : Text → Note
  no_candidates : Note
  advise_failed : Text → Note
  not_real : Option Text → Note
  alternatives_dropped : List Text → Note
  citations_failed : ℕ → Note
  no_verified_citation : Note

pub record PlannedSearch : Type 0 where
  pub candidates : List Candidate
  pub notes : List Text
  pub degraded : Bool

pub record RecommendResponse (Plan : Type 0) : Type 0 where
  pub question : Text
  pub recommendation : Option CheckedRecommendation
  pub candidates : List Candidate
  pub evidence : List NumberedEvidence
  pub degraded : Bool
  pub notes : List Note
  pub plan : Option Plan
  pub recommended : Option RecommendedImage

-- The calls that the answer makes: of the embedder, the provider and the database.
pub record Stages (Vector Plan : Type 0) : Type 0 where
  pub embed : Text → Remote Vector
  pub repository_names : List Text
  pub extract_plan : Text → List Text → Remote Plan
  pub search_by_vector : Vector → List Candidate
  pub search_with_plan : Vector → Plan → PlannedSearch
  pub advise : Text → List Candidate → List NumberedEvidence → List Text → Remote Recommendation
  pub image_tag_id : Session

-- `next(c for c in candidates if c.image == image)`: `none` is StopIteration.
abbrev pub first_with_image : Text → List Candidate → Option Candidate
first_with_image image [] = none
first_with_image image (c ∷ cs) =
    let rest = first_with_image image cs in if text_beq c.image image then some c else rest

abbrev pub drop_alternatives : List Text → Recommendation → Recommendation
drop_alternatives dropped rec = if is_nil dropped then rec else record {
  image = rec.image;
  alternatives = filter (λ a. not (elem a dropped)) rec.alternatives;
  claims = rec.claims;
}

abbrev dropped_notes : List Text → List Note
dropped_notes dropped = if is_nil dropped then [] else Note.alternatives_dropped dropped ∷ []

abbrev citation_notes : ℕ → ℕ → List Note
citation_notes failures verified =
    (if ltb 0 failures then Note.citations_failed failures ∷ [] else [])
    ++ (if verified == 0 then Note.no_verified_citation ∷ [] else [])

module _ {Plan : Type 0} (question : Text) where
  abbrev pub without_recommendation :
      List Note → List Candidate → Option Plan → List NumberedEvidence → RecommendResponse Plan
  without_recommendation notes candidates plan evidence = record {
    question = question;
    recommendation = none;
    candidates = candidates;
    evidence = evidence;
    degraded = true;
    notes = notes;
    plan = plan;
    recommended = none;
  }

  module _ (plan : Option Plan) (candidates : List Candidate)
      (evidence : List NumberedEvidence) where
    abbrev respond :
        Bool → List Note → CheckedRecommendation × ℕ → Candidate → RecommendResponse Plan
    respond degraded notes (checked, failures) chosen = record {
      question = question;
      recommendation = some checked;
      candidates = candidates;
      evidence = evidence;
      degraded = degraded;
      notes = notes ++ citation_notes failures checked.verified_citations;
      plan = plan;
      recommended = some (record {
        image = chosen.image;
        digest = chosen.digest;
        source_url = chosen.source_url;
        collected_at = chosen.collected_at;
      });
    }

    abbrev respond_chosen :
        Bool → List Note → Recommendation → Option Candidate → Option (RecommendResponse Plan)
    respond_chosen degraded notes rec none = none
    respond_chosen degraded notes rec (some chosen) =
        some (respond degraded notes (check_citations rec evidence) chosen)

    -- From the alternatives that are dropped to the end.
    abbrev finish_answer :
        Bool → List Note → Recommendation → List Text → Option (RecommendResponse Plan)
    finish_answer degraded notes rec dropped =
        let kept = drop_alternatives dropped rec in
        respond_chosen degraded (notes ++ dropped_notes dropped) kept
          (first_with_image kept.image candidates)

    unfoldable pub review :
        Bool → List Note → Recommendation → VerifyResult → Option (RecommendResponse Plan)
    review degraded notes rec verdict =
        if not verdict.ok
        then some (
            without_recommendation (notes ++ Note.not_real verdict.reason ∷ []) candidates plan
              evidence)
        else finish_answer degraded notes rec verdict.dropped_alternatives

  module _ {Vector : Type 0} (stages : Stages Vector Plan) (requirements : List Text) where
    abbrev pub review_advice :
        Option Plan
        → Bool
        → List Note
        → List Candidate
        → List NumberedEvidence
        → Remote Recommendation
        → Option (RecommendResponse Plan)
    review_advice plan degraded notes candidates evidence (Remote.failed exc) =
        some
          (without_recommendation (notes ++ Note.advise_failed exc ∷ []) candidates plan evidence)
    review_advice plan degraded notes candidates evidence (Remote.returned rec) =
        review plan candidates evidence degraded notes rec
          (verify_recommendation stages.image_tag_id rec candidates)

    abbrev pub advise_on :
        Option Plan
        → Bool
        → List Note
        → List NumberedEvidence × List Candidate
        → Option (RecommendResponse Plan)
    advise_on plan degraded notes (evidence, candidates) =
        review_advice plan degraded notes candidates evidence
          (stages.advise question candidates evidence requirements)

    unfoldable pub answer_from :
        Option Plan → Bool → List Note → List Candidate → Option (RecommendResponse Plan)
    answer_from plan degraded notes [] =
        some (without_recommendation (notes ++ Note.no_candidates ∷ []) [] plan [])
    answer_from plan degraded notes (c ∷ cs) =
        advise_on plan degraded notes (number_evidence (c ∷ cs))

    abbrev pub search_for : Vector → Remote Plan → Option (RecommendResponse Plan)
    search_for vector (Remote.failed exc) =
        answer_from none true (Note.plan_failed exc ∷ []) (stages.search_by_vector vector)
    search_for vector (Remote.returned plan) =
        let planned = stages.search_with_plan vector plan in
        answer_from (some plan) planned.degraded (map Note.search_note planned.notes)
          planned.candidates

    abbrev pub after_embedding : Remote Vector → Option (RecommendResponse Plan)
    after_embedding (Remote.failed exc) =
        some (without_recommendation (Note.embedding_failed exc ∷ []) [] none [])
    after_embedding (Remote.returned vector) =
        search_for vector (stages.extract_plan question stages.repository_names)

    -- `none` is an exception that the function lets out.
    unfoldable pub recommend_for_question : Option (RecommendResponse Plan)
    recommend_for_question = after_embedding (stages.embed question)
