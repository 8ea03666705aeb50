-- ===== src/Filters.antt =====
-- search/filters.py: the conditions on a tag, and the order in which they are given up.
use whatfrom.Prelude.{
  ℕ, Bool, true, false, not, ◌&&◌, ◌||◌, Option, none, some, List, [], ◌∷◌, ◌++◌, map, any, all,
  if◌then◌else◌,
}
use whatfrom.Prelude.Eq.{Text, elem, text_eq, text_beq}
use whatfrom.Prelude.Text.{codes, contains, starts_with, is_nil}
use whatfrom.Versions.{version_boundaries}
use whatfrom.Models.{ImageTag, ImageVariant}
pub mod Prefix
pub mod Weaker
pub mod Last
mod Tests

pub record TagConditions (Size : Type 0) : Type 0 where
  pub version_prefix : Option Text
  pub architectures : List Text
  pub distributions : List Text
  pub exclude_distributions : List Text
  pub max_size_mb : Option Size

-- The notice of a stage, by the condition given up in it.
pub data Notice (Size : Type 0) : Type 0 where
  size_given_up : Size → Notice Size
  distributions_given_up : List Text → List Text → Notice Size
  architectures_given_up : List Text → Notice Size
  version_given_up : Text → Notice Size

abbrev pub is_none {ℓ} : {A : Type ℓ} → Option A → Bool
is_none none = true
is_none (some a) = false

-- `func.coalesce(value, default)`
abbrev pub coalesce : Option Text → Text → Text
coalesce none default = default
coalesce (some t) default = t

abbrev pub underived : ImageTag → Bool
underived row = is_none row.distribution && is_none row.distro_codename

abbrev pub distribution_filter : List Text → ImageTag → Bool
distribution_filter values row =
    elem (coalesce row.distribution []) values
    || (elem (coalesce row.distro_codename []) values
        || (underived row && any (λ v. contains v row.tag) values))

abbrev pub excluded_filter : Text → ImageTag → Bool
excluded_filter value row = not (
    text_beq (coalesce row.distribution []) value
    || (text_beq (coalesce row.distro_codename []) value
        || (underived row && contains value row.tag)))

abbrev pub version_of : ImageTag → Text
version_of row = coalesce row.language_version row.tag

unfoldable pub version_filter : Text → ImageTag → Bool
version_filter prefix row =
    text_beq (version_of row) prefix
    || any (λ b. starts_with (prefix ++ b ∷ []) (version_of row)) version_boundaries

-- `_linux_variant`
abbrev pub linux_variant : (ImageVariant → Bool) → ImageTag → Bool
linux_variant criteria row =
    any (λ (v : ImageVariant). text_beq v.os (codes "linux") && criteria v) row.variants

abbrev pub first_or : Text → List Text → Text
first_or default [] = default
first_or default (a ∷ rest) = a

-- The conditions, over a type of size limits with the test `size_bytes <= max_size_mb * MB`.
module _ {Size : Type 0} (within : ℕ → Size → Bool) where
  abbrev pub distribution_filters : List Text → List (ImageTag → Bool)
  distribution_filters [] = []
  distribution_filters (v ∷ values) = distribution_filter (v ∷ values) ∷ []

  abbrev pub version_filters : Option Text → List (ImageTag → Bool)
  version_filters none = []
  version_filters (some prefix) = version_filter prefix ∷ []

  abbrev pub architecture_filter : Text → ImageTag → Bool
  architecture_filter architecture =
      linux_variant (λ (v : ImageVariant). text_beq v.architecture architecture)

  abbrev pub size_filters : List Text → Option Size → List (ImageTag → Bool)
  size_filters architectures none = []
  size_filters architectures (some max) =
      linux_variant (λ (v : ImageVariant).
        text_beq v.architecture (first_or (codes "amd64") architectures) && within v.size_bytes max)
      ∷ []

  unfoldable pub tag_filters : TagConditions Size → List (ImageTag → Bool)
  tag_filters conditions =
      distribution_filters conditions.distributions
      ++ (map excluded_filter conditions.exclude_distributions
          ++ (version_filters conditions.version_prefix
              ++ (map architecture_filter conditions.architectures
                  ++ size_filters conditions.architectures conditions.max_size_mb)))

  -- Whether a row fulfils all the conditions.
  abbrev pub accepts : TagConditions Size → ImageTag → Bool
  accepts conditions row = all (λ f. f row) (tag_filters conditions)

abbrev pub Stage : Type 0 → Type 0
Stage Size = TagConditions Size × Option (Notice Size)

module _ {Size : Type 0} where
  -- `TagConditions.empty`
  abbrev pub empty : TagConditions Size → Bool
  empty c =
      is_none c.version_prefix
      && (is_nil c.architectures
          && (is_nil c.distributions && (is_nil c.exclude_distributions && is_none c.max_size_mb)))

  abbrev pub without_size : TagConditions Size → TagConditions Size
  without_size c = record c { max_size_mb = none }

  abbrev pub without_distributions : TagConditions Size → TagConditions Size
  without_distributions c = record c { distributions = []; exclude_distributions = [] }

  abbrev pub without_architectures : TagConditions Size → TagConditions Size
  without_architectures c = record c { architectures = [] }

  abbrev pub without_version : TagConditions Size → TagConditions Size
  without_version c = record c { version_prefix = none }

  abbrev pub version_stage : TagConditions Size → Option Text → List (Stage Size)
  version_stage c none = []
  version_stage c (some prefix) = (without_version c, some (Notice.version_given_up prefix)) ∷ []

  abbrev pub from_version : TagConditions Size → List (Stage Size)
  from_version c = version_stage c c.version_prefix

  abbrev pub from_architectures : TagConditions Size → List (Stage Size)
  from_architectures c =
      if is_nil c.architectures
      then from_version c
      else (without_architectures c, some (Notice.architectures_given_up c.architectures))
        ∷ from_version (without_architectures c)

  abbrev pub from_distributions : TagConditions Size → List (Stage Size)
  from_distributions c =
      if is_nil c.distributions && is_nil c.exclude_distributions
      then from_architectures c
      else (
        without_distributions c,
        some (Notice.distributions_given_up c.distributions c.exclude_distributions),
      )
        ∷ from_architectures (without_distributions c)

  abbrev pub size_stage : TagConditions Size → Option Size → List (Stage Size)
  size_stage c none = from_distributions c
  size_stage c (some max) =
      (without_size c, some (Notice.size_given_up max)) ∷ from_distributions (without_size c)

  unfoldable pub relaxations : TagConditions Size → List (Stage Size)
  relaxations conditions = (conditions, none) ∷ size_stage conditions conditions.max_size_mb
