-- ===== src/Derive/Repository.antt =====
-- collect/derive.py: the derived columns of the tags of a repository in the database.
use whatfrom.Prelude.{
  ℕ, suc, Bool, true, false, not, ◌&&◌, Option, none, some, List, [], ◌∷◌, map, filter,
  if◌then◌else◌, ◌==◌,
}
use whatfrom.Prelude.{length}
use whatfrom.Prelude.Eq.{Text, text_eq, text_beq, option_beq}
use whatfrom.Prelude.Text.{codes}
use whatfrom.Prelude.Dict.{Dict, lookup, insert, values}
use whatfrom.Models.{ImageTag, ImageVariant}
use whatfrom.Filters.{is_none}
use whatfrom.Derive.Parse.{TagFacts, parse_tag}
use whatfrom.Derive.Resolve.{Fingerprint, Derived, Resolution, resolve_aliases}
pub mod Values
pub mod Settle
pub mod Again

pub record DeriveOutcome : Type 0 where
  pub repository : Text
  pub total : ℕ
  pub changed : ℕ
  pub conflict_fields : ℕ
  pub conflict_tags : ℕ
  pub with_distribution : ℕ

-- The rows of the tags of the repository.
abbrev pub rows_of : Text → List ImageTag → List ImageTag
rows_of repository tags = filter (λ (t : ImageTag). text_beq t.repository repository) tags

-- The platforms of a tag, of the rows for Linux.
abbrev add_platform : ImageVariant → Fingerprint → Fingerprint
add_platform v platforms =
    if text_beq v.os (codes "linux")
    then (v.architecture, v.arch_variant, v.digest) ∷ platforms
    else platforms

abbrev pub platforms_of : List ImageVariant → Fingerprint
platforms_of [] = []
platforms_of (v ∷ variants) = add_platform v (platforms_of variants)

abbrev pub facts_from : Text → List ImageTag → Dict Text TagFacts → Dict Text TagFacts
facts_from repository [] facts = facts
facts_from repository (row ∷ rows) facts =
    facts_from repository rows (insert row.tag (parse_tag row.tag repository) facts)

abbrev pub fingerprints_from : List ImageTag → Dict Text Fingerprint → Dict Text Fingerprint
fingerprints_from [] fingerprints = fingerprints
fingerprints_from (row ∷ rows) fingerprints =
    fingerprints_from rows (insert row.tag (platforms_of row.variants) fingerprints)

abbrev pub resolution_of : Text → List ImageTag → Resolution
resolution_of repository rows =
    resolve_aliases (facts_from repository rows []) (fingerprints_from rows [])

-- The derived columns of a row, and the row with others.
abbrev pub columns_of : ImageTag → Derived
columns_of row = record {
  language_version = row.language_version;
  version_major_minor = row.version_major_minor;
  distribution = row.distribution;
  distro_codename = row.distro_codename;
  variant = row.variant;
}

abbrev pub with_columns : Derived → ImageTag → ImageTag
with_columns new row = record {
  id = row.id;
  repository = row.repository;
  tag = row.tag;
  manifest_digest = row.manifest_digest;
  last_pushed_at = row.last_pushed_at;
  collected_at = row.collected_at;
  language_version = new.language_version;
  version_major_minor = new.version_major_minor;
  distribution = new.distribution;
  distro_codename = new.distro_codename;
  variant = new.variant;
  variants = row.variants;
}

abbrev pub same_columns : Derived → Derived → Bool
same_columns a b =
    option_beq a.language_version b.language_version
    && (option_beq a.version_major_minor b.version_major_minor
        && (option_beq a.distribution b.distribution
            && (option_beq a.distro_codename b.distro_codename && option_beq a.variant b.variant)))

-- The rows to write: those whose columns are not the values of their tag. Every tag has values.
abbrev pub add_change : ImageTag → Option Derived → List (ℕ × Derived) → List (ℕ × Derived)
add_change row none changes = changes
add_change row (some new) changes =
    if not (same_columns new (columns_of row)) then (row.id, new) ∷ changes else changes

abbrev pub changed_of : Dict Text Derived → List ImageTag → List (ℕ × Derived)
changed_of found [] = []
changed_of found (row ∷ rows) = add_change row (lookup row.tag found) (changed_of found rows)

-- `update(ImageTag)` with a list: one update by the key for each of its items.
abbrev pub change_row : ℕ × Derived → ImageTag → ImageTag
change_row (id, new) row = if row.id == id then with_columns new row else row

abbrev pub update_rows : List (ℕ × Derived) → List ImageTag → List ImageTag
update_rows [] tags = tags
update_rows (change ∷ changes) tags = update_rows changes (map (change_row change) tags)

abbrev with_distribution_of : List Derived → ℕ
with_distribution_of found = length (filter (λ (d : Derived). not (is_none d.distribution)) found)

-- The table afterwards, and what is reported.
unfoldable pub derive_repository : Text → List ImageTag → List ImageTag × DeriveOutcome
derive_repository repository tags =
    let rows = rows_of repository tags in
    let resolution = resolution_of repository rows in
    let changed = changed_of resolution.values rows in
    (
      update_rows changed tags,
      record {
        repository = repository;
        total = length rows;
        changed = length changed;
        conflict_fields = resolution.conflict_fields;
        conflict_tags = resolution.conflict_tags;
        with_distribution = with_distribution_of (values resolution.values);
      },
    )
