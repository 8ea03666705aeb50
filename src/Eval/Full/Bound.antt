-- ===== src/Eval/Full/Bound.antt =====
-- eval/scoring.py: the accuracy is bounded by the hits, and an answer without an image is explained.
use whatfrom.Prelude.{ℕ, ◌≡◌, ◌⊎◌, Bool, true, false, some}
use whatfrom.Prelude.Eq.{Eq, Text, elem, text_eq}
use whatfrom.Filters.{is_none}
use whatfrom.Answer.{Note}
use whatfrom.Answer.Explained.{is_reason}
use whatfrom.Eval.Golden.{GoldenCase}
use whatfrom.Eval.Scoring.{candidate_hit}
use whatfrom.Eval.Full.{CaseScore}

-- No image is listed both as right and as wrong.
abbrev pub IsDisjoint : {Size : Type 0} → GoldenCase Size → Type 0
IsDisjoint case = (image : Text) → elem image case.accept ≡ true → elem image case.reject ≡ false

module _ {Size : Type 0} ⦃size_eq : Eq Size⦄ (within : ℕ → Size → Bool)
    (case : GoldenCase Size) where
  -- A case counts as accurate only if it counts as a hit.
  abbrev pub IsBounded : CaseScore Size → Type 0
  IsBounded score = (score.accurate ≡ false) ⊎ (score.candidate_hit ≡ true)

  -- A case has a recommended image or the note why it has none.
  abbrev pub IsNoted : CaseScore Size → Type 0
  IsNoted score =
      (is_none score.recommended_image ≡ false)
      ⊎ ((n : Note) × (score.degraded_note ≡ some n) × (is_reason n ≡ true))
