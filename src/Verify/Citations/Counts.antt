-- ===== src/Verify/Citations/Counts.antt =====
-- recommend/verify.py: the counts of the citations that pass and fail.
use whatfrom.Prelude.{
  ℕ, suc, ◌+◌, ◌≡◌, refl, ap, ap₂, ◌↔◌, inl, inr, Bool, true, false, not, Option, none, some, List,
  [], ◌∷◌, map, arith, All, Bool-cases,
}
use whatfrom.Prelude.Eq.{Text}
use whatfrom.Prelude.Dict.{Dict}
use whatfrom.Prelude.Integers.{ℤ}
use whatfrom.Contracts.{
  NumberedEvidence, Citation, Claim, CitationCheck, CheckedClaim, Recommendation,
}
use whatfrom.Verify.Citations.{
  check_claim, check_claims, check_citations, by_number, repositories_of, verify_citation, counted,
  is_none,
}
use whatfrom.Verify.Citations.Supported.{IsSupported, verify_citation-IsSupported}

-- The number of checks of claims with the result.
abbrev pub with_result : Bool → List CitationCheck → ℕ
with_result b [] = 0
with_result true (c ∷ cs) = counted c.verified (with_result true cs)
with_result false (c ∷ cs) = counted (not c.verified) (with_result false cs)

abbrev pub results : Bool → List CheckedClaim → ℕ
results b [] = 0
results b (claim ∷ claims) = with_result b claim.citations + results b claims

-- A check with its result left out, and a claim with the results left out.
abbrev pub bare_citation : CitationCheck → Citation
bare_citation c = record { evidence = c.evidence; quote = c.quote }

abbrev pub bare_claim : CheckedClaim → Claim
bare_claim c = record { text = c.text; citations = map bare_citation c.citations }

-- The result that stands at a citation is right.
pub IsRight : Dict ℤ NumberedEvidence → List Text → CitationCheck → Type 0
IsRight evidence repositories c =
    (c.verified ≡ true) ↔ IsSupported evidence repositories (bare_citation c)

module _ (evidence : Dict ℤ NumberedEvidence) (repositories : List Text) where
  check_claim_counts :
      (citations : List Citation) (v f : ℕ)
      → let done = check_claim evidence repositories citations v f in
        (done.verified ≡ v + with_result true done.items)
        × (done.failed ≡ f + with_result false done.items)
  unfolding check_claim
  check_claim_counts [] v f = (omega arith, omega arith)
  check_claim_counts (c ∷ cs) v f =
      elim (Bool-cases (is_none (verify_citation c evidence repositories))) [
        | inl q ↦ rw q (let (h, k) = check_claim_counts cs (suc v) f in (omega (arith, h), k))
        | inr q ↦ rw q (let (h, k) = check_claim_counts cs v (suc f) in (h, omega (arith, k)))
      ]

  check_claims_counts :
      (claims : List Claim) (v f : ℕ)
      → let done = check_claims evidence repositories claims v f in
        (done.verified ≡ v + results true done.items) × (done.failed ≡ f + results false done.items)
  unfolding check_claims
  check_claims_counts [] v f = (omega arith, omega arith)
  check_claims_counts (c ∷ cs) v f =
      let own = check_claim evidence repositories c.citations v f in
      let (h, k) = check_claim_counts c.citations v f in
      let (i, j) = check_claims_counts cs own.verified own.failed in
      (omega (arith, h, i), omega (arith, k, j))

  check_claim_bare :
      (citations : List Citation) (v f : ℕ)
      → map bare_citation (check_claim evidence repositories citations v f).items ≡ citations
  unfolding check_claim
  check_claim_bare [] v f = refl
  check_claim_bare (c ∷ cs) v f = ap (λ u. c ∷ u) (check_claim_bare cs _ _)

  check_claims_bare :
      (claims : List Claim) (v f : ℕ)
      → map bare_claim (check_claims evidence repositories claims v f).items ≡ claims
  unfolding check_claims
  check_claims_bare [] v f = refl
  check_claims_bare (c ∷ cs) v f =
      ap₂ (λ (u : List Citation) w. record { text = c.text; citations = u } ∷ w)
        (check_claim_bare c.citations v f) (check_claims_bare cs _ _)

  is_none-eq : (o : Option _) → (is_none o ≡ true) ↔ (o ≡ none)
  is_none-eq none = (λ h. refl, λ h. refl)
  is_none-eq (some p) = (λ h. cc, λ h. cc)

  check_claim-IsRight :
      (citations : List Citation) (v f : ℕ)
      → All (IsRight evidence repositories) (check_claim evidence repositories citations v f).items
  unfolding check_claim IsRight
  check_claim-IsRight [] v f = tt
  check_claim-IsRight (c ∷ cs) v f =
      let (h, k) = is_none-eq (verify_citation c evidence repositories) in
      let (i, j) = verify_citation-IsSupported c evidence repositories in
      ((λ e. i (h e), λ s. k (j s)), check_claim-IsRight cs _ _)

  check_claims-IsRight :
      (claims : List Claim) (v f : ℕ)
      → All
          (λ (c : CheckedClaim). All (IsRight evidence repositories) c.citations)
          (check_claims evidence repositories claims v f).items
  unfolding check_claims
  check_claims-IsRight [] v f = tt
  check_claims-IsRight (c ∷ cs) v f =
      (check_claim-IsRight c.citations v f, check_claims-IsRight cs _ _)

-- The claims of the answer come back with nothing but the results added, the counters are the
-- numbers of citations that passed and that failed, and each result is right for the evidence
-- and the repositories of the recommended image and its alternatives.
pub check_citations_claims :
    (rec : Recommendation) (evidence : List NumberedEvidence)
    → let (checked, failed) = check_citations rec evidence in
      (map bare_claim checked.claims ≡ rec.claims)
      × (checked.verified_citations ≡ results true checked.claims)
      × (failed ≡ results false checked.claims)
      × All
          (λ (c : CheckedClaim).
            All
              (IsRight (by_number evidence) (repositories_of (rec.image ∷ rec.alternatives)))
              c.citations)
          checked.claims
unfolding check_citations
check_citations_claims rec evidence =
    let d = by_number evidence in
    let r = repositories_of (rec.image ∷ rec.alternatives) in
    let (h, k) = check_claims_counts d r rec.claims 0 0 in
    (
      check_claims_bare d r rec.claims 0 0,
      omega (arith, h),
      omega (arith, k),
      check_claims-IsRight d r rec.claims 0 0,
    )
