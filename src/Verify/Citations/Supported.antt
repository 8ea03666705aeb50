-- ===== src/Verify/Citations/Supported.antt =====
-- recommend/verify.py: what it takes for a citation to pass.
use whatfrom.Prelude.{
  ◌≡◌, refl, ap, sym, ◌∙◌, ◌↔◌, inl, inr, true, false, none, some, List, [], ◌∷◌, ◌++◌, arith,
  length, Bool-cases, Option-cases,
}
use whatfrom.Prelude.Eq.{Text, elem, text_eq}
use whatfrom.Prelude.Text.{
  is_nil, contains, starts_with, drop, starts_with-drop, starts_with-append,
}
use whatfrom.Prelude.Dict.{Dict, lookup}
use whatfrom.Prelude.Integers.{ℤ, int_eq}
use whatfrom.Contracts.{NumberedEvidence, Citation}
use whatfrom.Verify.Citations.{normalized, problem_of, verify_citation}

-- The text is found, word for word, somewhere in the other.
abbrev pub IsPart : Text → Text → Type 0
IsPart p t = (before : Text) × (after : Text) × (t ≡ before ++ (p ++ after))

contains-IsPart : (p t : Text) → contains p t ≡ true → IsPart p t
contains-IsPart [] [] h = ([], [], refl)
contains-IsPart (a ∷ p) [] h = absurd (ground arith)
contains-IsPart p (c ∷ t) h = elim (Bool-cases (starts_with p (c ∷ t))) [
  | inl q ↦ ([], drop (length p) (c ∷ t), sym (starts_with-drop p (c ∷ t) q))
  | inr q ↦ let (b, a, e) = contains-IsPart p t (ground arith) in (c ∷ b, a, ap (λ u. c ∷ u) e)
]

IsPart-contains : (p b a : Text) → contains p (b ++ (p ++ a)) ≡ true
IsPart-contains [] [] [] = refl
IsPart-contains [] [] (c ∷ a) = refl
IsPart-contains (c ∷ p) [] a = let h = starts_with-append (c ∷ p) a in ground arith
IsPart-contains p (c ∷ b) a = let ih = IsPart-contains p b a in ground arith

-- The evidence of that number is there, its content has the quote up to white space, and it
-- belongs to one of the repositories.
pub IsSupported : Dict ℤ NumberedEvidence → List Text → Citation → Type 0
IsSupported evidence repositories citation =
    (source : NumberedEvidence) × (lookup citation.evidence evidence ≡ some source)
    × (is_nil (normalized citation.quote) ≡ false)
    × IsPart (normalized citation.quote) (normalized source.content)
    × (elem source.repository repositories ≡ true)

passes-tests :
    (citation : Citation) (repositories : List Text) (source : NumberedEvidence)
    → (problem_of citation repositories source ≡ none) ↔ (
        (is_nil (normalized citation.quote) ≡ false)
        × (contains (normalized citation.quote) (normalized source.content) ≡ true)
        × (elem source.repository repositories ≡ true))
passes-tests citation repositories source = ground arith

-- A citation has no problem exactly if it is supported.
pub verify_citation-IsSupported :
    (citation : Citation) (evidence : Dict ℤ NumberedEvidence) (repositories : List Text)
    → (verify_citation citation evidence repositories ≡ none)
      ↔ IsSupported evidence repositories citation
unfolding verify_citation IsSupported
verify_citation-IsSupported citation evidence repositories =
    elim (Option-cases (lookup citation.evidence evidence)) [
      | inl q ↦ rw q (λ h. cc, λ (source, e, n, p, r). cc)
      | inr (s, q) ↦
          let (f, g) = passes-tests citation repositories s in
          rw q (
            λ h. let (n, c, r) = f h in (s, refl, n, contains-IsPart _ _ c, r),
            λ (source, e, n, (b, a, p), r).
                let same : s ≡ source = cc in
                let part = IsPart-contains (normalized citation.quote) b a in
                let held = ap (contains (normalized citation.quote)) p ∙ part in
                g (
                  n,
                  ap
                        (λ (u : NumberedEvidence).
                          contains (normalized citation.quote) (normalized u.content))
                        same
                      ∙ held,
                  ap (λ (u : NumberedEvidence). elem u.repository repositories) same ∙ r,
                ),
          )
    ]
