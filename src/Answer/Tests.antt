-- ===== src/Answer/Tests.antt =====
-- api.py and recommend/evidence.py: a question that is answered, and one whose advice fails.
use whatfrom.Prelude.{ℕ, ◌≡◌, refl, false, Option, none, some, List, [], ◌∷◌, map, All, OnSome}
use whatfrom.Prelude.Eq.{Text}
use whatfrom.Prelude.Text.{codes}
use whatfrom.Prelude.Integers.{ℤ}
use whatfrom.Contracts.{split_image, Candidate, Recommendation}
use whatfrom.Verify.{image_exists, is_real, verify_recommendation}
use whatfrom.Verify.Tests.{session, candidates, recommendation}
use whatfrom.Verify.Citations.{
  normalized, verify_citation, by_number, repositories_of, check_claim, check_claims,
  check_citations,
}
use whatfrom.Answer.{
  Remote, RecommendResponse, Stages, Note, review, answer_from, recommend_for_question,
}
use whatfrom.Answer.Shown.{Answers, recommend_for_question-Answers}
use whatfrom.Answer.Explained.{IsExplained, recommend_for_question-IsExplained}
use whatfrom.Answer.Numbering.{with_numbers, number_items, number_candidates, number_evidence}
use whatfrom.Answer.Numbering.Sections.{Consecutive, IsCited, number_evidence_numbers}

abbrev stages : Remote Recommendation → Stages ℕ ℕ
stages advice = record {
  embed = λ question. Remote.returned 5;
  repository_names = codes "python" ∷ [];
  extract_plan = λ question repositories. Remote.returned 9;
  search_by_vector = λ vector. [];
  search_with_plan =
      λ vector plan. record { candidates = candidates; notes = []; degraded = false };
  advise = λ question offered evidence requirements. advice;
  image_tag_id = session;
}

abbrev question : Text
question = codes "a small image for Python"

abbrev notes_of : Option (RecommendResponse ℕ) → Option (List Note)
notes_of none = none
notes_of (some response) = some response.notes

answered :
    notes_of (recommend_for_question question (stages (Remote.returned recommendation)) [])
    ≡ some (
        Note.alternatives_dropped (codes "python:3.13-alpine(may not fit)" ∷ [])
        ∷ Note.citations_failed 1
        ∷ [])
unfolding recommend_for_question answer_from review number_evidence number_candidates number_items
    verify_recommendation is_real image_exists split_image check_citations check_claims check_claim
    verify_citation normalized by_number repositories_of
answered = refl

advice_fails :
    notes_of (recommend_for_question question (stages (Remote.failed (codes "timeout"))) [])
    ≡ some (Note.advise_failed (codes "timeout") ∷ [])
unfolding recommend_for_question answer_from number_evidence number_candidates number_items
advice_fails = refl

own_numbers :
    map (λ (c : Candidate). c.evidence_numbers) (number_evidence candidates).1
    ≡ (ℤ.pos 1 ∷ []) ∷ (ℤ.pos 1 ∷ ℤ.pos 2 ∷ []) ∷ []
unfolding number_evidence number_candidates number_items
own_numbers = refl

recommend_for_question-Answers_example :
    Answers session (recommend_for_question question (stages (Remote.returned recommendation)) [])
recommend_for_question-Answers_example =
    recommend_for_question-Answers question (stages (Remote.returned recommendation)) []

recommend_for_question-IsExplained_example :
    OnSome IsExplained
      (recommend_for_question question (stages (Remote.failed (codes "timeout"))) [])
recommend_for_question-IsExplained_example =
    recommend_for_question-IsExplained question (stages (Remote.failed (codes "timeout"))) []

number_evidence_numbers_example :
    let (evidence, numbered) = number_evidence candidates in
    Consecutive 1 evidence
    × All (λ (c : Candidate). All (IsCited evidence c.evidence_numbers) c.evidence) numbered
    × (map (with_numbers []) numbered ≡ map (with_numbers []) candidates)
number_evidence_numbers_example = number_evidence_numbers candidates
