-- ===== src/Answer/Shown.antt =====
-- api.py: which images an answer shows, and that there always is an answer.
use whatfrom.Prelude.{
  ◌≡◌, refl, ap, sym, subst, ◌∙◌, inl, inr, Bool, true, not, ◌&&◌, Option, some, List, [], ◌∷◌,
  ◌++◌, filter, arith, All, All-imp, All-and, All-filter, ||_iff, All-filter_test, OnSome,
  Bool-cases, if◌then◌else◌,
}
use whatfrom.Prelude.Eq.{Text, elem, text_eq, text_beq, text_beq_iff, elem-filter, beq_refl}
use whatfrom.Prelude.Text.{is_nil}
use whatfrom.Contracts.{
  NumberedEvidence, Candidate, Recommendation, CheckedRecommendation, RecommendedImage,
}
use whatfrom.Verify.{Session, offered, is_real, verify_recommendation}
use whatfrom.Verify.Real.{IsReal, IsReal-offered, is_real_iff}
use whatfrom.Verify.Citations.{check_citations}
use whatfrom.Answer.{
  respond_chosen, Remote, Note, RecommendResponse, Stages, first_with_image, drop_alternatives,
  review, review_advice, answer_from, search_for, after_embedding, recommend_for_question,
}

abbrev pub IsIn : Candidate → List Candidate → Type 0
IsIn c cs = (before : List Candidate) × (after : List Candidate) × (cs ≡ before ++ c ∷ after)

-- The recommended image and the alternatives are real, and what is said of the recommended image
-- is said of a candidate with that image.
unfoldable pub IsShown : Session → {Plan : Type 0} → RecommendResponse Plan → Type 0
IsShown session response =
    OnSome
      (λ (rec : CheckedRecommendation).
        IsReal session response.candidates rec.image
        × All (IsReal session response.candidates) rec.alternatives
        × ((image : RecommendedImage) × (response.recommended ≡ some image)
            × (image.image ≡ rec.image)
            × (c : Candidate) × IsIn c response.candidates
            × (image.digest ≡ c.digest)
            × (image.image ≡ c.image)
            × (image.source_url ≡ c.source_url)
            × (image.collected_at ≡ c.collected_at)))
      response.recommendation

-- There is a response, and what it shows is real.
unfoldable pub Answers : Session → {Plan : Type 0} → Option (RecommendResponse Plan) → Type 0
Answers session {Plan} answer =
    (response : RecommendResponse Plan) × (answer ≡ some response) × IsShown session response

abbrev Found : Text → List Candidate → Type 0
Found image candidates =
    (c : Candidate) × (first_with_image image candidates ≡ some c)
    × (c.image ≡ image)
    × IsIn c candidates

offered-Found :
    (image : Text) (candidates : List Candidate)
    → elem image (offered candidates) ≡ true
    → Found image candidates
offered-Found image [] h = cc
offered-Found image (c ∷ cs) h = elim (Bool-cases (text_beq c.image image)) [
  | inl q ↦ (c, rw q refl, (text_beq_iff c.image image).0 q, ([], cs, refl))
  | inr q ↦
      let left = text_beq_iff c.image image in
      let right = text_beq_iff image c.image in
      let (d, e, f, (b, a, m)) = offered-Found image cs (ground (arith, left, right)) in
      (d, rw q e, f, (c ∷ b, a, ap (λ u. c ∷ u) m))
]

All-elem : (xs : List Text) → All (λ a. elem a xs ≡ true) xs
All-elem [] = tt
All-elem (x ∷ xs) = (
  rw (beq_refl x) refl,
  All-imp (λ a h. (||_iff (text_beq a x) (elem a xs)).1 (inr h)) xs (All-elem xs),
)

module _ (p : Text → Bool) (xs : List Text) where
  passes :
      (dropped : List Text)
      → dropped ≡ filter (λ a. not (p a)) xs
      → (a : Text) → (elem a xs ≡ true) × (not (elem a dropped) ≡ true)
      → p a ≡ true
  passes dropped e a (h, k) =
      let q : elem a dropped ≡ (elem a xs && not (p a)) = ap (elem a) e ∙ elem-filter _ a xs in
      ground arith

  kept_pass :
      (dropped : List Text)
      → dropped ≡ filter (λ a. not (p a)) xs
      → All (λ a. p a ≡ true) (if is_nil dropped then xs else filter (λ a. not (elem a dropped)) xs)
  kept_pass [] e = All-imp (λ a h. passes [] e a (h, refl)) xs (All-elem xs)
  kept_pass (d ∷ ds) e = All-imp (passes (d ∷ ds) e) (filter (λ a. not (elem a (d ∷ ds))) xs) (
      All-and (λ a. elem a xs ≡ true) (λ a. not (elem a (d ∷ ds)) ≡ true)
        (filter (λ a. not (elem a (d ∷ ds))) xs)
        (All-filter (λ a. elem a xs ≡ true) (λ a. not (elem a (d ∷ ds))) xs (All-elem xs))
        (All-filter_test (λ a. not (elem a (d ∷ ds))) xs))

drop_alternatives_field :
    (dropped : List Text) (rec : Recommendation)
    → (drop_alternatives dropped rec).alternatives ≡ (
        if is_nil dropped
        then rec.alternatives
        else filter (λ a. not (elem a dropped)) rec.alternatives)
drop_alternatives_field [] rec = refl
drop_alternatives_field (d ∷ ds) rec = refl

-- An alternative that stays is real.
drop_alternatives-IsReal :
    (session : Session) (rec : Recommendation) (candidates : List Candidate)
    → let dropped = filter (λ a. not (is_real session candidates a)) rec.alternatives in
      All (IsReal session candidates) (drop_alternatives dropped rec).alternatives
drop_alternatives-IsReal session rec candidates =
    let p = is_real session candidates in
    let dropped = filter (λ a. not (p a)) rec.alternatives in
    rw (drop_alternatives_field dropped rec) (
      All-imp (λ a. (is_real_iff session candidates a).0) _
        (kept_pass p rec.alternatives dropped refl))

drop_alternatives_image :
    (dropped : List Text) (rec : Recommendation) → (drop_alternatives dropped rec).image ≡ rec.image
drop_alternatives_image [] rec = refl
drop_alternatives_image (d ∷ ds) rec = refl

module _ {Plan : Type 0} (question : Text) (session : Session) where
  module _ (plan : Option Plan) (candidates : List Candidate) (evidence : List NumberedEvidence)
      (degraded : Bool) (notes : List Note) (rec : Recommendation) where
    respond_chosen-Answers :
        IsReal session candidates rec.image
        → All (IsReal session candidates) rec.alternatives
        → Answers session (
            respond_chosen question plan candidates evidence degraded notes rec
              (first_with_image rec.image candidates))
    unfolding Answers IsShown check_citations
    respond_chosen-Answers h k =
        let (c, e, f, m) =
          offered-Found rec.image candidates (IsReal-offered session candidates rec.image h) in
        rw e (_, refl, (h, k, (_, refl, f, c, m, refl, refl, refl, refl)))

  module _ (plan : Option Plan) (candidates : List Candidate) (evidence : List NumberedEvidence)
      (degraded : Bool) (notes : List Note) (rec : Recommendation) where
    review-Answers : Answers session (
        review question plan candidates evidence degraded notes rec
          (verify_recommendation session rec candidates))
    unfolding review verify_recommendation Answers IsShown
    review-Answers = elim (Bool-cases (is_real session candidates rec.image)) [
      | inl q ↦
          let dropped = filter (λ a. not (is_real session candidates a)) rec.alternatives in
          rw q (
            respond_chosen-Answers plan candidates evidence degraded _
              (drop_alternatives dropped rec)
              (subst (IsReal session candidates) (sym (drop_alternatives_image dropped rec))
                ((is_real_iff session candidates rec.image).0 q))
              (drop_alternatives-IsReal session rec candidates))
      | inr q ↦ rw q (_, refl, tt)
    ]

module _ {Plan Vector : Type 0} (question : Text) (stages : Stages Vector Plan)
    (requirements : List Text) where
  review_advice-Answers :
      (plan : Option Plan) (degraded : Bool) (notes : List Note) (candidates : List Candidate)
      (evidence : List NumberedEvidence) (advice : Remote Recommendation)
      → Answers stages.image_tag_id (
          review_advice question stages requirements plan degraded notes candidates evidence advice)
  unfolding Answers IsShown
  review_advice-Answers plan degraded notes candidates evidence (Remote.failed exc) = (_, refl, tt)
  review_advice-Answers plan degraded notes candidates evidence (Remote.returned rec) =
      review-Answers question stages.image_tag_id plan candidates evidence degraded notes rec

  answer_from-Answers :
      (plan : Option Plan) (degraded : Bool) (notes : List Note) (candidates : List Candidate)
      → Answers stages.image_tag_id
          (answer_from question stages requirements plan degraded notes candidates)
  unfolding answer_from Answers IsShown
  answer_from-Answers plan degraded notes [] = (_, refl, tt)
  answer_from-Answers plan degraded notes (c ∷ cs) = review_advice-Answers plan degraded notes _ _ _

  search_for-Answers :
      (vector : Vector) (plan : Remote Plan)
      → Answers stages.image_tag_id (search_for question stages requirements vector plan)
  search_for-Answers vector (Remote.failed exc) = answer_from-Answers _ _ _ _
  search_for-Answers vector (Remote.returned plan) = answer_from-Answers _ _ _ _

  after_embedding-Answers :
      (vector : Remote Vector)
      → Answers stages.image_tag_id (after_embedding question stages requirements vector)
  unfolding Answers IsShown
  after_embedding-Answers (Remote.failed exc) = (_, refl, tt)
  after_embedding-Answers (Remote.returned vector) = search_for-Answers vector _

  -- Every question gets a response, whichever calls fail and whatever the provider returns. If
  -- it recommends an image, that image and every alternative left is the image of a candidate
  -- of the response, is `repository:tag` with both parts there, and is in the database, and the
  -- digest, the source and the time come from a candidate with the recommended image.
  pub recommend_for_question-Answers :
      Answers stages.image_tag_id (recommend_for_question question stages requirements)
  unfolding recommend_for_question
  recommend_for_question-Answers = after_embedding-Answers (stages.embed question)
