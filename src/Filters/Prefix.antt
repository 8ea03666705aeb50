-- ===== src/Filters/Prefix.antt =====
-- search/filters.py: the condition on the version is the order of core/versions.py.
use whatfrom.Prelude.{
  ◌≡◌, refl, inl, inr, false, ◌&&◌, [], ◌∷◌, ◌++◌, any, arith, Bool-cases, length, ◌==◌,
}
use whatfrom.Prelude.Eq.{Text, elem, nat_eq}
use whatfrom.Prelude.Text.{starts_with, drop}
use whatfrom.Versions.{version_boundaries, boundary_first, extends_version}
use whatfrom.Models.{ImageTag}
use whatfrom.Filters.{version_of, version_filter}

-- A prefix with one of the boundary characters behind it.
boundary_prefix :
    (p : Text) (bs : Text) (t : Text)
    → any (λ b. starts_with (p ++ b ∷ []) t) bs
      ≡ (starts_with p t && any (λ b. starts_with (b ∷ []) (drop (length p) t)) bs)
boundary_prefix [] bs t = refl
boundary_prefix (a ∷ p) bs [] = none_fit bs
  where
    none_fit : (bs : Text) → any (λ b. starts_with (a ∷ (p ++ b ∷ [])) []) bs ≡ false
    none_fit [] = refl
    none_fit (b ∷ bs) = none_fit bs
boundary_prefix (a ∷ p) bs (c ∷ t) = elim (Bool-cases (a == c)) [
  | inl q ↦ rw q (boundary_prefix p bs t)
  | inr q ↦ rw q (none_fit bs)
]
  where
    none_fit : (bs : Text) → any (λ b. false) bs ≡ false
    none_fit [] = refl
    none_fit (b ∷ bs) = none_fit bs

first_boundary :
    (bs d : Text)
    → any (λ b. starts_with (b ∷ []) d) bs ≡ elim d [ [] ↦ false | c ∷ rest ↦ elem c bs ]
first_boundary [] [] = refl
first_boundary [] (c ∷ d) = refl
first_boundary (b ∷ bs) [] = first_boundary bs []
first_boundary (b ∷ bs) (c ∷ d) = let ih = first_boundary bs (c ∷ d) in ground arith

first_boundary-eq :
    (d : Text) → any (λ b. starts_with (b ∷ []) d) version_boundaries ≡ boundary_first d
first_boundary-eq [] = refl
first_boundary-eq (c ∷ d) = first_boundary version_boundaries (c ∷ d)

-- The condition on the version holds of exactly the rows whose version, or else whose tag, the
-- prefix extends to by `extends_version`.
pub version_filter-extends_version :
    (prefix : Text) (row : ImageTag)
    → version_filter prefix row ≡ extends_version prefix (version_of row)
unfolding version_filter extends_version
version_filter-extends_version prefix row =
    let p = boundary_prefix prefix version_boundaries (version_of row) in
    let q = first_boundary-eq (drop (length prefix) (version_of row)) in ground arith
