-- ===== src/Verify/Citations.antt =====
-- recommend/verify.py: whether a citation quotes the evidence that it names.
use whatfrom.Prelude.{
  ℕ, suc, ◌+◌, Option, none, some, List, [], ◌∷◌, Bool, true, false, not, ◌&&◌, ◌||◌, if◌then◌else◌,
  ◌==◌, leb,
}
use whatfrom.Prelude.Eq.{Text, elem, text_eq}
use whatfrom.Prelude.Text.{is_space, is_nil, contains, join}
use whatfrom.Prelude.Dict.{Dict, insert, lookup}
use whatfrom.Prelude.Integers.{ℤ, int_eq}
use whatfrom.Contracts.{
  split_image, NumberedEvidence, Citation, Claim, Recommendation, Problem, CitationCheck,
  CheckedClaim, CheckedRecommendation,
}
pub mod Supported
pub mod Counts

-- Whether the text goes on with the word before it.
abbrev in_word : Text → Bool
in_word [] = false
in_word (c ∷ t) = not (is_space c)

abbrev word_cons : Bool → ℕ → List Text → List Text
word_cons true c [] = (c ∷ []) ∷ []
word_cons true c (w ∷ ws) = (c ∷ w) ∷ ws
word_cons false c ws = (c ∷ []) ∷ ws

-- `text.split()`
abbrev words : Text → List Text
words [] = []
words (c ∷ t) = let rest = words t in if is_space c then rest else word_cons (in_word t) c rest

unfoldable pub normalized : Text → Text
normalized text = join b' ' (words text)

abbrev problem_of : Citation → List Text → NumberedEvidence → Option Problem
problem_of citation repositories source =
    if is_nil (normalized citation.quote)
    then some Problem.empty_quote
    else if not (contains (normalized citation.quote) (normalized source.content))
    then some Problem.quote_not_in_evidence
    else if not (elem source.repository repositories)
    then some Problem.evidence_from_another_repository
    else none

abbrev problem_in : Citation → List Text → Option NumberedEvidence → Option Problem
problem_in citation repositories none = some Problem.unknown_evidence
problem_in citation repositories (some source) = problem_of citation repositories source

unfoldable pub verify_citation : Citation → Dict ℤ NumberedEvidence → List Text → Option Problem
verify_citation citation evidence repositories =
    problem_in citation repositories (lookup citation.evidence evidence)

-- `{item.number: item for item in evidence}`
abbrev number_from : Dict ℤ NumberedEvidence → List NumberedEvidence → Dict ℤ NumberedEvidence
number_from d [] = d
number_from d (item ∷ items) = number_from (insert item.number item d) items

unfoldable pub by_number : List NumberedEvidence → Dict ℤ NumberedEvidence
by_number evidence = number_from [] evidence

abbrev add_repository : Option (Text × Text) → List Text → List Text
add_repository none repositories = repositories
add_repository (some (repository, tag)) repositories = repository ∷ repositories

unfoldable pub repositories_of : List Text → List Text
repositories_of [] = []
repositories_of (image ∷ images) = add_repository (split_image image) (repositories_of images)

abbrev is_none : Option Problem → Bool
is_none none = true
is_none (some p) = false

abbrev counted : Bool → ℕ → ℕ
counted true n = suc n
counted false n = n

-- The items checked so far, with the two counters.
pub record Checked {ℓ} (A : Type ℓ) : Type ℓ where
  pub items : List A
  pub verified : ℕ
  pub failed : ℕ

abbrev checked_citation : Citation → Option Problem → CitationCheck
checked_citation citation problem = record {
  evidence = citation.evidence;
  quote = citation.quote;
  verified = is_none problem;
  problem = problem;
}

module _ (evidence : Dict ℤ NumberedEvidence) (repositories : List Text) where
  -- The inner loop, over the citations of a claim.
  unfoldable pub check_claim : List Citation → ℕ → ℕ → Checked CitationCheck
  check_claim [] verified failed = record { items = []; verified = verified; failed = failed }
  check_claim (citation ∷ citations) verified failed =
      let problem = verify_citation citation evidence repositories in
      let rest =
        check_claim citations (counted (is_none problem) verified)
          (counted (not (is_none problem)) failed) in
      record {
        items = checked_citation citation problem ∷ rest.items;
        verified = rest.verified;
        failed = rest.failed;
      }

  -- The outer loop, over the claims.
  unfoldable pub check_claims : List Claim → ℕ → ℕ → Checked CheckedClaim
  check_claims [] verified failed = record { items = []; verified = verified; failed = failed }
  check_claims (claim ∷ claims) verified failed =
      let own = check_claim claim.citations verified failed in
      let rest = check_claims claims own.verified own.failed in
      record {
        items = record { text = claim.text; citations = own.items } ∷ rest.items;
        verified = rest.verified;
        failed = rest.failed;
      }

unfoldable pub check_citations : Recommendation → List NumberedEvidence → CheckedRecommendation × ℕ
check_citations rec evidence =
    let repositories = repositories_of (rec.image ∷ rec.alternatives) in
    let done = check_claims (by_number evidence) repositories rec.claims 0 0 in
    (
      record {
        image = rec.image;
        alternatives = rec.alternatives;
        claims = done.items;
        verified_citations = done.verified;
      },
      done.failed,
    )
