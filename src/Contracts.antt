-- ===== src/Contracts.antt =====
-- core/contracts.py: what the stages of a recommendation hand to each other.
use Prim.Native.Nat.{ℕ}
use whatfrom.Prelude.{Option, none, some, List, [], ◌∷◌, Bool, if◌then◌else◌, ◌==◌}
use whatfrom.Prelude.Eq.{Text}
use whatfrom.Prelude.Integers.{ℤ}

-- `image.partition(":")`
abbrev cons_left : ℕ → Option (Text × Text) → Option (Text × Text)
cons_left c none = none
cons_left c (some (repository, tag)) = some (c ∷ repository, tag)

unfoldable pub split_image : Text → Option (Text × Text)
split_image [] = none
split_image (c ∷ image) =
    let rest = split_image image in if c == b':' then some ([], image) else cons_left c rest

pub record Evidence : Type 0 where
  pub repository : Text
  pub section_title : Text
  pub content : Text
  pub source_url : Text

pub record NumberedEvidence : Type 0 where
  pub repository : Text
  pub section_title : Text
  pub content : Text
  pub source_url : Text
  pub number : ℤ

pub record Platform : Type 0 where
  pub os : Text
  pub architecture : Text
  pub arch_variant : Text
  pub os_version : Text
  pub size_bytes : ℕ
  pub digest : Text

pub record Candidate : Type 0 where
  pub image : Text
  pub repository : Text
  pub tag : Text
  pub digest : Option Text
  pub platforms : List Platform
  pub last_pushed_at : Option ℕ
  pub source_url : Text
  pub collected_at : ℕ
  pub evidence : List Evidence
  pub evidence_numbers : List ℤ
  pub version : Option Text
  pub distribution : Option Text
  pub distro_codename : Option Text
  pub variant : Option Text

pub record Citation : Type 0 where
  pub evidence : ℤ
  pub quote : Text

pub record Claim : Type 0 where
  pub text : Text
  pub citations : List Citation

pub record Recommendation : Type 0 where
  pub image : Text
  pub alternatives : List Text
  pub claims : List Claim

-- The four answers of `verify_citation` that are not None.
pub data Problem : Type 0 where
  unknown_evidence : Problem
  empty_quote : Problem
  quote_not_in_evidence : Problem
  evidence_from_another_repository : Problem

pub record CitationCheck : Type 0 where
  pub evidence : ℤ
  pub quote : Text
  pub verified : Bool
  pub problem : Option Problem

pub record CheckedClaim : Type 0 where
  pub text : Text
  pub citations : List CitationCheck

pub record CheckedRecommendation : Type 0 where
  pub image : Text
  pub alternatives : List Text
  pub claims : List CheckedClaim
  pub verified_citations : ℕ

pub record RecommendedImage : Type 0 where
  pub image : Text
  pub digest : Option Text
  pub source_url : Text
  pub collected_at : ℕ

-- Over the type of a size limit, a float in the source.
pub record SearchPlan (Size : Type 0) : Type 0 where
  pub repository : Option Text
  pub version_prefix : Option Text
  pub architectures : List Text
  pub distributions : List Text
  pub exclude_distributions : List Text
  pub max_size_mb : Option Size
