-- ===== src/Eval/Golden.antt =====
-- eval/goldenset.py: the cases of an evaluation, and the checks of a set of them.
use whatfrom.Prelude.{
  ℕ, Bool, true, false, not, ◌||◌, ◌&&◌, Option, none, some, List, [], ◌∷◌, any, if◌then◌else◌,
}
use whatfrom.Prelude.Eq.{Text, elem, text_eq}
use whatfrom.Prelude.Text.{is_nil, is_space}
use whatfrom.Filters.{is_none}
pub mod Ids

-- Over the type of a size limit, a float in the source.
pub record Conditions (Size : Type 0) : Type 0 where
  pub architectures : List Text
  pub exclude_distributions : List Text
  pub version_prefix : Option Text
  pub max_size_mb : Option Size

-- `Conditions.declared`
abbrev pub declared : {Size : Type 0} → Conditions Size → Bool
declared c =
    not (is_nil c.architectures)
    || (not (is_nil c.exclude_distributions)
        || (not (is_none c.version_prefix) || not (is_none c.max_size_mb)))

pub record ExpectedPlan (Size : Type 0) : Type 0 where
  pub version_prefix : Option Text
  pub architectures : List Text
  pub distributions : List Text
  pub exclude_distributions : List Text
  pub max_size_mb : Option Size

pub record Rationale : Type 0 where
  pub note : Text
  pub sources : List Text

pub record GoldenCase (Size : Type 0) : Type 0 where
  pub id : Text
  pub question : Text
  pub requires_repositories : List Text
  pub tags : List Text
  pub accept : List Text
  pub reject : List Text
  pub conditions : Conditions Size
  pub expected_plan : ExpectedPlan Size
  pub requirements : List Text
  pub expected_sections : List Text
  pub rationale : Rationale

-- `not text.strip()`
abbrev is_blank : Text → Bool
is_blank [] = true
is_blank (c ∷ t) = is_space c && is_blank t

-- `GoldenCase.no_blank_requirement`; `none` is a ValueError.
unfoldable pub no_blank_requirement : List Text → Option (List Text)
no_blank_requirement requirements = if any is_blank requirements then none else some requirements

-- What a validator comes to: the values, or the first id that stands twice.
pub data Checked (A : Type 0) : Type 0 where
  valid : A → Checked A
  repeated : Text → Checked A

-- The loop of `GoldenSet.unique_ids`.
abbrev pub check_ids : {Size : Type 0} → List Text → List (GoldenCase Size) → Option Text
check_ids seen [] = none
check_ids seen (case ∷ cases) =
    let rest = check_ids (case.id ∷ seen) cases in if elem case.id seen then some case.id else rest

abbrev checked :
    {Size : Type 0} → List (GoldenCase Size) → Option Text → Checked (List (GoldenCase Size))
checked cases none = Checked.valid cases
checked cases (some id) = Checked.repeated id

unfoldable pub unique_ids :
    {Size : Type 0} → List (GoldenCase Size) → Checked (List (GoldenCase Size))
unique_ids cases = checked cases (check_ids [] cases)
