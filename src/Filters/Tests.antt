-- ===== src/Filters/Tests.antt =====
-- search/filters.py: a row of a small table and the stages of conditions that it fails.
use whatfrom.Prelude.{
  ℕ, ◌≡◌, ◌≤◌, ◌*◌, refl, Bool, true, false, none, some, List, [], ◌∷◌, map, leb, length,
}
use whatfrom.Prelude.Text.{codes}
use whatfrom.Versions.{extends_version}
use whatfrom.Models.{ImageTag}
use whatfrom.Filters.{
  TagConditions, Stage, version_filter, tag_filters, accepts, empty, relaxations,
}
use whatfrom.Filters.Prefix.{version_filter-extends_version}
use whatfrom.Filters.Weaker.{Weakening, relaxations-Weakening}
use whatfrom.Filters.Last.{last_of, relaxations_end}

abbrev within_mb : ℕ → ℕ → Bool
within_mb size max = leb size (max * 1000000)

abbrev row : ImageTag
row = record {
  id = 1;
  repository = codes "python";
  tag = codes "3.13.1-slim";
  manifest_digest = none;
  last_pushed_at = none;
  collected_at = 2000;
  language_version = some (codes "3.13.1");
  version_major_minor = some (codes "3.13");
  distribution = some (codes "debian");
  distro_codename = none;
  variant = some (codes "slim");
  variants =
      record {
        os = codes "linux";
        architecture = codes "amd64";
        arch_variant = [];
        os_version = [];
        digest = codes "a";
        size_bytes = 45000000;
      }
      ∷ [];
}

abbrev conditions : TagConditions ℕ
conditions = record {
  version_prefix = some (codes "3.13");
  architectures = codes "arm64" ∷ [];
  distributions = [];
  exclude_distributions = codes "alpine" ∷ [];
  max_size_mb = some 40;
}

accepted_by_stage :
    map (λ (s : Stage ℕ). accepts within_mb s.0 row) (relaxations conditions)
    ≡ false ∷ false ∷ false ∷ true ∷ true ∷ []
unfolding relaxations tag_filters version_filter
accepted_by_stage = refl

version_filter-extends_version_example :
    version_filter (codes "3.13") row ≡ extends_version (codes "3.13") (codes "3.13.1")
version_filter-extends_version_example = version_filter-extends_version (codes "3.13") row

relaxations-Weakening_example :
    (rest : List (Stage ℕ)) × (relaxations conditions ≡ (conditions, none) ∷ rest)
    × Weakening within_mb (relaxations conditions)
relaxations-Weakening_example = relaxations-Weakening within_mb conditions

relaxations_end_example :
    (length (relaxations conditions) ≤ 5)
    × (empty (last_of conditions (relaxations conditions)) ≡ true)
relaxations_end_example = relaxations_end conditions
