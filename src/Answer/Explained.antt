-- ===== src/Answer/Explained.antt =====
-- api.py: what an answer says about itself by its notes and its flag.
use whatfrom.Prelude.{
  ℕ, ◌≡◌, ◌≤◌, ◌⊎◌, refl, sym, ◌∙◌, inl, inr, Bool, true, false, Option, none, some, List, [], ◌∷◌,
  ◌++◌, arith, OnSome, Bool-cases,
}
use whatfrom.Prelude.Eq.{Text}
use whatfrom.Prelude.Text.{is_nil}
use whatfrom.Contracts.{NumberedEvidence, Candidate, Recommendation, CheckedRecommendation}
use whatfrom.Verify.{VerifyResult}
use whatfrom.Verify.Citations.{check_citations}
use whatfrom.Verify.Citations.Counts.{results, check_citations_claims}
use whatfrom.Answer.{
  Remote, Note, RecommendResponse, Stages, respond_chosen, citation_notes, review, review_advice,
  answer_from, search_for, after_embedding, recommend_for_question,
}

-- The notes that are appended where an answer is given without a recommendation.
abbrev pub is_reason : Note → Bool
is_reason (Note.embedding_failed exc) = true
is_reason (Note.plan_failed exc) = false
is_reason (Note.search_note note) = false
is_reason Note.no_candidates = true
is_reason (Note.advise_failed exc) = true
is_reason (Note.not_real reason) = true
is_reason (Note.alternatives_dropped dropped) = false
is_reason (Note.citations_failed n) = false
is_reason Note.no_verified_citation = false

-- The last note is such a one.
abbrev pub EndsWithReason : List Note → Type 0
EndsWithReason notes =
    (earlier : List Note) × (n : Note) × (notes ≡ earlier ++ n ∷ []) × (is_reason n ≡ true)

-- Without a recommendation the answer is marked as degraded and its last note says why there is
-- none; with one it has a note, or all its citations passed and there is at least one.
abbrev pub Explains : Option CheckedRecommendation → Bool → List Note → Type 0
Explains none degraded notes = (degraded ≡ true) × EndsWithReason notes
Explains (some rec) degraded notes =
    (is_nil notes ≡ false) ⊎ ((1 ≤ rec.verified_citations) × (results false rec.claims ≡ 0))

unfoldable pub IsExplained : {Plan : Type 0} → RecommendResponse Plan → Type 0
IsExplained response = Explains response.recommendation response.degraded response.notes

is_nil-append : (xs ys : List Note) → is_nil ys ≡ false → is_nil (xs ++ ys) ≡ false
is_nil-append [] ys h = h
is_nil-append (x ∷ xs) ys h = refl

quiet :
    (failures verified : ℕ)
    → (is_nil (citation_notes failures verified) ≡ false) ⊎ ((1 ≤ verified) × (failures ≡ 0))
quiet failures verified = ground arith

module _ {Plan : Type 0} (question : Text) (plan : Option Plan) (candidates : List Candidate)
    (evidence : List NumberedEvidence) (degraded : Bool) where
  respond_chosen-IsExplained :
      (notes : List Note) (rec : Recommendation) (chosen : Option Candidate)
      → OnSome IsExplained
          (respond_chosen question plan candidates evidence degraded notes rec chosen)
  unfolding IsExplained
  respond_chosen-IsExplained notes rec none = tt
  respond_chosen-IsExplained notes rec (some c) =
      let (checked, failures) = check_citations rec evidence in
      let (same, v, f, right) = check_citations_claims rec evidence in
      elim (quiet failures checked.verified_citations) [
        | inl h ↦ inl (is_nil-append notes _ h)
        | inr (h, k) ↦ inr (h, sym f ∙ k)
      ]

  review-IsExplained :
      (notes : List Note) (rec : Recommendation) (verdict : VerifyResult)
      → OnSome IsExplained (review question plan candidates evidence degraded notes rec verdict)
  unfolding review IsExplained
  review-IsExplained notes rec verdict = elim (Bool-cases verdict.ok) [
    | inl q ↦ rw q (respond_chosen-IsExplained _ _ _)
    | inr q ↦ rw q (refl, (notes, _, refl, refl))
  ]

module _ {Plan Vector : Type 0} (question : Text) (stages : Stages Vector Plan)
    (requirements : List Text) where
  review_advice-IsExplained :
      (plan : Option Plan) (degraded : Bool) (notes : List Note) (candidates : List Candidate)
      (evidence : List NumberedEvidence) (advice : Remote Recommendation)
      → OnSome IsExplained (
          review_advice question stages requirements plan degraded notes candidates evidence advice)
  unfolding IsExplained
  review_advice-IsExplained plan degraded notes candidates evidence (Remote.failed exc) =
      (refl, (notes, _, refl, refl))
  review_advice-IsExplained plan degraded notes candidates evidence (Remote.returned rec) =
      review-IsExplained question plan candidates evidence degraded notes rec _

  answer_from-IsExplained :
      (plan : Option Plan) (degraded : Bool) (notes : List Note) (candidates : List Candidate)
      → OnSome IsExplained (answer_from question stages requirements plan degraded notes candidates)
  unfolding answer_from IsExplained
  answer_from-IsExplained plan degraded notes [] = (refl, (notes, _, refl, refl))
  answer_from-IsExplained plan degraded notes (c ∷ cs) =
      review_advice-IsExplained plan degraded notes _ _ _

  search_for-IsExplained :
      (vector : Vector) (plan : Remote Plan)
      → OnSome IsExplained (search_for question stages requirements vector plan)
  search_for-IsExplained vector (Remote.failed exc) = answer_from-IsExplained _ _ _ _
  search_for-IsExplained vector (Remote.returned plan) = answer_from-IsExplained _ _ _ _

  after_embedding-IsExplained :
      (vector : Remote Vector)
      → OnSome IsExplained (after_embedding question stages requirements vector)
  unfolding IsExplained
  after_embedding-IsExplained (Remote.failed exc) = (refl, ([], _, refl, refl))
  after_embedding-IsExplained (Remote.returned vector) = search_for-IsExplained vector _

  -- Every response explains itself: without a recommendation it is marked as degraded, and its last
  -- note says why there is none, which no note of the search does; with one it carries a note, or at
  -- least one of its citations passed and none failed.
  pub recommend_for_question-IsExplained :
      OnSome IsExplained (recommend_for_question question stages requirements)
  unfolding recommend_for_question
  recommend_for_question-IsExplained = after_embedding-IsExplained (stages.embed question)
