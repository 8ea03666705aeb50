-- ===== src/Verify/Tests.antt =====
-- recommend/verify.py: an answer with a right and an annotated alternative, and its citations.
use Prim.Native.String.{String}
use whatfrom.Prelude.{
  ◌⊎◌, ◌≡◌, ◌↔◌, refl, true, false, none, some, List, [], ◌∷◌, map, if◌then◌else◌, length, All,
}
use whatfrom.Prelude.Eq.{elem, text_eq, text_beq}
use whatfrom.Prelude.Text.{codes}
use whatfrom.Prelude.Integers.{ℤ}
use whatfrom.Contracts.{
  split_image, Evidence, NumberedEvidence, Candidate, Citation, Recommendation, CheckedClaim,
}
use whatfrom.Verify.{Session, image_exists, is_real, verify_recommendation}
use whatfrom.Verify.Real.{IsReal, verify_recommendation-IsReal, verify_recommendation_drops}
use whatfrom.Verify.Citations.{
  normalized, verify_citation, by_number, repositories_of, check_claim, check_claims,
  check_citations,
}
use whatfrom.Verify.Citations.Supported.{IsSupported, verify_citation-IsSupported}
use whatfrom.Verify.Citations.Counts.{bare_claim, results, IsRight, check_citations_claims}

abbrev pub session : Session
session repository tag = if text_beq repository (codes "python") then some (length tag) else none

abbrev pub section : String → String → Evidence
section title content = record {
  repository = codes "python";
  section_title = codes title;
  content = codes content;
  source_url = codes "https://hub.docker.com/_/python";
}

abbrev pub candidate : String → String → List Evidence → Candidate
candidate image tag evidence = record {
  image = codes image;
  repository = codes "python";
  tag = codes tag;
  digest = none;
  platforms = [];
  last_pushed_at = some 1000;
  source_url = codes "https://hub.docker.com/_/python";
  collected_at = 2000;
  evidence = evidence;
  evidence_numbers = [];
  version = some (codes "3.13");
  distribution = none;
  distro_codename = none;
  variant = none;
}

abbrev pub candidates : List Candidate
candidates =
    candidate "python:3.13" "3.13" (section "Image Variants" "the defacto image" ∷ [])
    ∷ candidate "python:3.13-slim" "3.13-slim" (
        section "Image Variants" "the defacto image"
        ∷ section "Slim" "only the\n minimal packages"
        ∷ [])
    ∷ []

abbrev pub recommendation : Recommendation
recommendation = record {
  image = codes "python:3.13-slim";
  alternatives = codes "python:3.13" ∷ codes "python:3.13-alpine(may not fit)" ∷ [];
  claims =
      record {
        text = codes "small";
        citations =
            record { evidence = ℤ.pos 2; quote = codes " the minimal  packages" }
            ∷ record { evidence = ℤ.pos 7; quote = codes "anything" }
            ∷ [];
      }
      ∷ [];
}

abbrev evidence : List NumberedEvidence
evidence =
    record {
      repository = codes "python";
      section_title = codes "Slim";
      content = codes "only the\n minimal packages";
      source_url = codes "https://hub.docker.com/_/python";
      number = ℤ.pos 2;
    }
    ∷ []

accepted : (verify_recommendation session recommendation candidates).ok ≡ true
unfolding verify_recommendation is_real image_exists split_image
accepted = refl

dropped :
    (verify_recommendation session recommendation candidates).dropped_alternatives
    ≡ codes "python:3.13-alpine(may not fit)" ∷ []
unfolding verify_recommendation is_real image_exists split_image
dropped = refl

passed : (check_citations recommendation evidence).0.verified_citations ≡ 1
unfolding check_citations check_claims check_claim verify_citation normalized by_number
    repositories_of split_image
passed = refl

failures : (check_citations recommendation evidence).1 ≡ 1
unfolding check_citations check_claims check_claim verify_citation normalized by_number
    repositories_of split_image
failures = refl

verify_recommendation-IsReal_example :
    let v = verify_recommendation session recommendation candidates in
    ((v.ok ≡ true) ↔ IsReal session candidates (codes "python:3.13-slim"))
    × ((v.ok ≡ true) ↔ (v.reason ≡ none))
    × ((v.ok ≡ true) ⊎ (v.dropped_alternatives ≡ []))
verify_recommendation-IsReal_example =
    verify_recommendation-IsReal session recommendation candidates

verify_recommendation_drops_example :
    (elem
        (codes "python:3.13")
        (verify_recommendation session recommendation candidates).dropped_alternatives
      ≡ false)
    ↔ IsReal session candidates (codes "python:3.13")
verify_recommendation_drops_example =
    verify_recommendation_drops session recommendation candidates accepted (codes "python:3.13")
      refl

abbrev cited : Citation
cited = record { evidence = ℤ.pos 2; quote = codes " the minimal  packages" }

verify_citation-IsSupported_example :
    (verify_citation cited (by_number evidence) (codes "python" ∷ []) ≡ none)
    ↔ IsSupported (by_number evidence) (codes "python" ∷ []) cited
verify_citation-IsSupported_example =
    verify_citation-IsSupported cited (by_number evidence) (codes "python" ∷ [])

check_citations_claims_example :
    let (checked, failed) = check_citations recommendation evidence in
    (map bare_claim checked.claims ≡ recommendation.claims)
    × (checked.verified_citations ≡ results true checked.claims)
    × (failed ≡ results false checked.claims)
    × All
        (λ (c : CheckedClaim).
          All
            (IsRight
              (by_number evidence)
              (repositories_of (recommendation.image ∷ recommendation.alternatives)))
            c.citations)
        checked.claims
check_citations_claims_example = check_citations_claims recommendation evidence
