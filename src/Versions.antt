-- ===== src/Versions.antt =====
-- core/versions.py: when a version is another one with more detail.
pub mod Order
mod Tests
use whatfrom.Prelude.{
  ℕ, ◌≡◌, refl, Bool, true, false, List, [], ◌∷◌, ◌++◌, ◌&&◌, length, arith, if◌then◌else◌,
}
use whatfrom.Prelude.Eq.{Text, text_beq, elem, nat_eq}
use whatfrom.Prelude.Text.{codes, starts_with, drop}

-- `VERSION_BOUNDARIES`
abbrev pub version_boundaries : Text
version_boundaries = codes "._u-"

-- `detailed[len(base)] in VERSION_BOUNDARIES`, of what stands from that index on.
abbrev pub boundary_first : Text → Bool
boundary_first [] = false
boundary_first (c ∷ rest) = elem c version_boundaries

unfoldable pub extends_version : Text → Text → Bool
extends_version base detailed =
    if text_beq detailed base
    then true
    else starts_with base detailed && boundary_first (drop (length base) detailed)
