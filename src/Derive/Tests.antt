-- ===== src/Derive/Tests.antt =====
-- collect/: the names of tags of several repositories, and a small table.
use whatfrom.Prelude.{ℕ, ◌≡◌, refl, true, none, some, [], ◌∷◌, OnSome, List}
use whatfrom.Prelude.Eq.{Text, text_eq}
use whatfrom.Prelude.Text.{codes}
use whatfrom.Versions.{extends_version}
use whatfrom.Models.{ImageVariant, ImageTag}
use whatfrom.Retrieval.Build.Rows.{ids_distinct-UniqueIds}
use whatfrom.Derive.Parse.{TagFacts, major_minor, read_tokens, parse_tag}
use whatfrom.Derive.Parse.Facts.{IsPlaced, parse_tag-extends_version, parse_tag-IsPlaced}
use whatfrom.Derive.Resolve.{values_of, same_distribution, resolve_tag, resolve_aliases}
use whatfrom.Derive.Resolve.Own.{
  FromGroup, Inherited, InheritedVariant, WithDistribution, IsVersion, resolve_tag-Inherited,
}
use whatfrom.Derive.Resolve.Chain.{IsChainEnd, chain_end_iff}
use whatfrom.Derive.Repository.{derive_repository}
use whatfrom.Derive.Repository.Again.{
  Pairs, IsDerived, derive_repository-IsDerived, derive_repository_again,
}

slim_trixie : parse_tag (codes "3.14.6-slim-trixie") (codes "python") ≡ record {
  version = some (codes "3.14.6");
  distribution = some (codes "debian");
  codename = some (codes "trixie");
  variant = some (codes "slim");
}
unfolding parse_tag read_tokens
slim_trixie = refl

java_build : parse_tag (codes "8u502-b07-jdk-alpine-3.24") (codes "eclipse-temurin") ≡ record {
  version = some (codes "8u502-b07");
  distribution = some (codes "alpine");
  codename = some (codes "3.24");
  variant = some (codes "jdk");
}
unfolding parse_tag read_tokens
java_build = refl

windows_release : parse_tag (codes "ltsc2025") (codes "golang") ≡ record {
  version = none;
  distribution = none;
  codename = some (codes "ltsc2025");
  variant = none;
}
unfolding parse_tag read_tokens
windows_release = refl

alpine_itself : parse_tag (codes "3.24.1") (codes "alpine") ≡ record {
  version = some (codes "3.24.1");
  distribution = some (codes "alpine");
  codename = some (codes "3.24");
  variant = none;
}
unfolding parse_tag read_tokens
alpine_itself = refl

snapshot : (parse_tag (codes "20260101-slim") (codes "debian")).version ≡ none
unfolding parse_tag read_tokens
snapshot = refl

parse_tag-extends_version_example :
    OnSome
      (λ v. extends_version v (codes "8u502-b07-jdk") ≡ true)
      (parse_tag (codes "8u502-b07-jdk") (codes "eclipse-temurin")).version
parse_tag-extends_version_example =
    parse_tag-extends_version (codes "8u502-b07-jdk") (codes "eclipse-temurin")

parse_tag-IsPlaced_example :
    let f = parse_tag (codes "ltsc2025") (codes "golang") in IsPlaced f.distribution f.codename
parse_tag-IsPlaced_example = parse_tag-IsPlaced (codes "ltsc2025") (codes "golang")

abbrev linux : Text → ImageVariant
linux digest = record {
  os = codes "linux";
  architecture = codes "amd64";
  arch_variant = [];
  os_version = [];
  digest = digest;
  size_bytes = 50000000;
}

abbrev tag_row : ℕ → Text → Text → List ImageVariant → ImageTag
tag_row id repository tag variants = record {
  id = id;
  repository = repository;
  tag = tag;
  manifest_digest = none;
  last_pushed_at = none;
  collected_at = 0;
  language_version = none;
  version_major_minor = none;
  distribution = none;
  distro_codename = none;
  variant = none;
  variants = variants;
}

abbrev image : ImageVariant
image = linux (codes "sha256:1")

abbrev table : List ImageTag
table =
    tag_row 1 (codes "python") (codes "3.14") (image ∷ [])
    ∷ tag_row 2 (codes "python") (codes "3.14.6-trixie") (image ∷ [])
    ∷ tag_row 3 (codes "node") (codes "24-slim") (image ∷ [])
    ∷ []

inherited_columns : (derive_repository (codes "python") table).0 ≡ (
    record {
      id = 1;
      repository = codes "python";
      tag = codes "3.14";
      manifest_digest = none;
      last_pushed_at = none;
      collected_at = 0;
      language_version = some (codes "3.14.6");
      version_major_minor = some (codes "3.14");
      distribution = some (codes "debian");
      distro_codename = some (codes "trixie");
      variant = some (codes "full");
      variants = image ∷ [];
    }
    ∷ record {
      id = 2;
      repository = codes "python";
      tag = codes "3.14.6-trixie";
      manifest_digest = none;
      last_pushed_at = none;
      collected_at = 0;
      language_version = some (codes "3.14.6");
      version_major_minor = some (codes "3.14");
      distribution = some (codes "debian");
      distro_codename = some (codes "trixie");
      variant = some (codes "full");
      variants = image ∷ [];
    }
    ∷ tag_row 3 (codes "node") (codes "24-slim") (image ∷ [])
    ∷ [])
unfolding derive_repository resolve_aliases resolve_tag parse_tag read_tokens major_minor
    extends_version
inherited_columns = refl

derive_repository-IsDerived_example :
    Pairs (IsDerived (codes "python") table) table (derive_repository (codes "python") table).0
derive_repository-IsDerived_example =
    derive_repository-IsDerived (codes "python") table (ids_distinct-UniqueIds table refl)

derive_repository_again_example :
    let after = (derive_repository (codes "python") table).0 in
    ((derive_repository (codes "python") after).0 ≡ after)
    × ((derive_repository (codes "python") after).1.changed ≡ 0)
derive_repository_again_example =
    derive_repository_again (codes "python") table (ids_distinct-UniqueIds table refl)

-- The facts of `3.14`, and of a group with `3.14.6-trixie`.
abbrev bare : TagFacts
bare = record {
  version = some (codes "3.14");
  distribution = none;
  codename = none;
  variant = none;
}

abbrev named_group : List TagFacts
named_group =
    bare
    ∷ record {
      version = some (codes "3.14.6");
      distribution = some (codes "debian");
      codename = some (codes "trixie");
      variant = none;
    }
    ∷ []

resolve_tag-Inherited_example :
    let d = (resolve_tag bare named_group).0 in
    let versions = values_of (λ (f : TagFacts). f.version) named_group in
    Inherited bare.distribution
      (FromGroup (λ (f : TagFacts). f.distribution) named_group)
      (values_of (λ (f : TagFacts). f.distribution) named_group)
      d.distribution
    × Inherited bare.codename
        (WithDistribution d.distribution named_group)
        (values_of (same_distribution d.distribution) named_group)
        d.distro_codename
    × InheritedVariant bare.variant
        (FromGroup (λ (f : TagFacts). f.variant) named_group)
        (values_of (λ (f : TagFacts). f.variant) named_group)
        d.variant
    × IsVersion bare.version versions d.language_version
    × (d.version_major_minor ≡ major_minor d.language_version)
resolve_tag-Inherited_example = resolve_tag-Inherited bare named_group

chain_end_iff_example : IsChainEnd (codes "3" ∷ codes "3.14.6" ∷ codes "3.14" ∷ []) (codes "3.14.6")
unfolding extends_version
chain_end_iff_example =
    (chain_end_iff (codes "3" ∷ codes "3.14.6" ∷ codes "3.14" ∷ []) (codes "3.14.6")).0 refl
