-- ===== src/Retrieval/Scopes.antt =====
-- search/retrieval.py: the repositories that a plan searches.
use whatfrom.Prelude.{
  ℕ, ◌≡◌, refl, inl, inr, ◌⊎◌, Bool, true, false, not, ◌&&◌, Option, none, some, List, [], ◌∷◌,
  Bool-cases,
}
use whatfrom.Prelude.Eq.{Text, text_eq}
use whatfrom.Prelude.Text.{is_nil}
use whatfrom.Prelude.Dict.{Dict}
use whatfrom.Contracts.{Evidence}
use whatfrom.Filters.{is_none}
use whatfrom.Retrieval.{Database, Scope, has_tags, forced_evidence, scope_of}

-- The plan names a repository that the search is not forced to.
abbrev pub is_unforced : Option Text → Bool → Bool
is_unforced wanted forced = not (is_none wanted) && not forced

module _ {Vector Size : Type 0} (within : ℕ → Size → Bool) (db : Database Vector)
    (vector : Vector) where
  -- The search is forced to the repository of the plan exactly where that has evidence and tags, and
  -- then searches nothing else; otherwise all that was found.
  abbrev pub IsScope :
      Dict Text (List Evidence) → Option Text → Bool → Dict Text (List Evidence) → Type 0
  IsScope found wanted forced evidence =
      ((forced ≡ true)
        × (repository : Text) × (wanted ≡ some repository)
        × (is_nil (forced_evidence within db vector repository found) ≡ false)
        × (has_tags db.image_tags repository ≡ true)
        × (evidence ≡ (repository, forced_evidence within db vector repository found) ∷ []))
      ⊎ ((forced ≡ false)
          × (evidence ≡ found)
          × ((wanted ≡ none)
              ⊎ ((repository : Text) × (wanted ≡ some repository)
                  × ((is_nil (forced_evidence within db vector repository found) ≡ true)
                      ⊎ (has_tags db.image_tags repository ≡ false)))))

  abbrev pub ScopeOf : Dict Text (List Evidence) → Option Text → Scope → Type 0
  ScopeOf found wanted scope =
      IsScope found wanted scope.forced scope.evidence
      × (not (is_none scope.unforced) ≡ is_unforced wanted scope.forced)

  pub scope_of-ScopeOf :
      (evidence : Dict Text (List Evidence)) (wanted : Option Text)
      → ScopeOf evidence wanted (scope_of within db vector evidence wanted)
  scope_of-ScopeOf evidence none = (inr (refl, refl, inl refl), refl)
  scope_of-ScopeOf evidence (some repository) =
      elim (Bool-cases (is_nil (forced_evidence within db vector repository evidence))) [
        | inl q ↦ rw q (inr (refl, refl, inr (repository, refl, inl q)), refl)
        | inr q ↦ elim (Bool-cases (has_tags db.image_tags repository)) [
          | inl t ↦ rw (q, t) (inl (refl, repository, refl, q, t, refl), refl)
          | inr t ↦ rw (q, t) (inr (refl, refl, inr (repository, refl, inr t)), refl)
        ]
      ]
