-- ===== src/Store.antt =====
-- collect/store.py: the tables after a page of tags. A statement that breaks a constraint is `none`.
use whatfrom.Prelude.{
  ℕ, zero, ◌+◌, Bool, true, false, not, ◌||◌, ◌&&◌, Option, none, some, List, [], ◌∷◌, ◌++◌, map,
  any, if◌then◌else◌, ◌==◌, length,
}
use whatfrom.Prelude.Eq.{Text, elem, nat_eq, text_eq, text_beq, option_beq}
use whatfrom.Prelude.Dict.{Dict, lookup, insert}
use whatfrom.Models.{Repository, ImageTag, ImageVariant}
use whatfrom.Filters.{is_none}
pub mod Rows
pub mod Classes
pub mod Kept
mod Tests

-- collect/hub.py: what a page says of a tag; a platform has the columns of its row.
pub record TagRow : Type 0 where
  pub tag : Text
  pub manifest_digest : Option Text
  pub last_pushed_at : Option ℕ
  pub variants : List ImageVariant

pub record RepositoryRow : Type 0 where
  pub name : Text
  pub is_official : Bool
  pub description : Option Text
  pub source_url : Text
  pub readme : Text

abbrev repository_of : RepositoryRow → ℕ → Repository
repository_of row collected_at = record {
  name = row.name;
  is_official = row.is_official;
  description = row.description;
  source_url = row.source_url;
  collected_at = collected_at;
}

abbrev pub upsert_repository : RepositoryRow → ℕ → List Repository → List Repository
upsert_repository row collected_at [] = repository_of row collected_at ∷ []
upsert_repository row collected_at (repo ∷ repos) =
    let rest = upsert_repository row collected_at repos in
    if text_beq repo.name row.name then repository_of row collected_at ∷ repos else repo ∷ rest

pub record ExistingTag : Type 0 where
  pub id : ℕ
  pub manifest_digest : Option Text
  pub last_pushed_at : Option ℕ

pub record TagChanges : Type 0 where
  pub new : List TagRow
  pub changed : List (ℕ × TagRow)
  pub unchanged_ids : List ℕ

abbrev pub is_changed : TagRow → ExistingTag → Bool
is_changed row current =
    is_none row.manifest_digest
    || (not (option_beq current.manifest_digest row.manifest_digest)
        || not (option_beq current.last_pushed_at row.last_pushed_at))

abbrev add_row : TagRow → Option ExistingTag → TagChanges → TagChanges
add_row row none changes = record {
  new = row ∷ changes.new;
  changed = changes.changed;
  unchanged_ids = changes.unchanged_ids;
}
add_row row (some current) changes =
    if is_changed row current
    then record {
      new = changes.new;
      changed = (current.id, row) ∷ changes.changed;
      unchanged_ids = changes.unchanged_ids;
    }
    else record {
      new = changes.new;
      changed = changes.changed;
      unchanged_ids = current.id ∷ changes.unchanged_ids;
    }

abbrev pub classify_tags : List TagRow → Dict Text ExistingTag → TagChanges
classify_tags [] existing = record { new = []; changed = []; unchanged_ids = [] }
classify_tags (row ∷ rows) existing =
    add_row row (lookup row.tag existing) (classify_tags rows existing)

abbrev existing_tag : ImageTag → ExistingTag
existing_tag t = record {
  id = t.id;
  manifest_digest = t.manifest_digest;
  last_pushed_at = t.last_pushed_at;
}

abbrev pub existing_from :
    Text → List Text → List ImageTag → Dict Text ExistingTag → Dict Text ExistingTag
existing_from repository names [] existing = existing
existing_from repository names (t ∷ tags) existing = existing_from repository names tags (
    if text_beq t.repository repository && elem t.tag names
    then insert t.tag (existing_tag t) existing
    else existing)

abbrev and_then {ℓ κ} : {A : Type ℓ} {B : Type κ} → Option A → (A → Option B) → Option B
and_then none f = none
and_then (some a) f = f a

-- The insert of a tag, whose key the database chooses; `uq_image_tags_repo_tag`.
abbrev new_tag : Text → ℕ → ℕ → TagRow → ImageTag
new_tag repository collected_at id row = record {
  id = id;
  repository = repository;
  tag = row.tag;
  manifest_digest = row.manifest_digest;
  last_pushed_at = row.last_pushed_at;
  collected_at = collected_at;
  language_version = none;
  version_major_minor = none;
  distribution = none;
  distro_codename = none;
  variant = none;
  variants = [];
}

abbrev pub is_stored : Text → Text → List ImageTag → Bool
is_stored repository tag tags =
    any (λ (t : ImageTag). text_beq t.repository repository && text_beq t.tag tag) tags

abbrev with_id : ℕ × TagRow → List ImageTag × List (ℕ × TagRow) → List ImageTag × List (ℕ × TagRow)
with_id entry (tags, inserted) = (tags, entry ∷ inserted)

abbrev pub insert_tags :
    (List ImageTag → ℕ)
    → Text
    → ℕ
    → List TagRow
    → List ImageTag
    → Option (List ImageTag × List (ℕ × TagRow))
insert_tags fresh repository collected_at [] tags = some (tags, [])
insert_tags fresh repository collected_at (row ∷ rows) tags =
    let rest =
      insert_tags fresh repository collected_at rows
        (tags ++ new_tag repository collected_at (fresh tags) row ∷ []) in
    if is_stored repository row.tag tags
    then none
    else and_then rest (λ done. some (with_id (fresh tags, row) done))

-- The update of a changed tag, with `DERIVED_CLEARED`.
abbrev pub rewritten : ℕ → ℕ × TagRow → ImageTag → ImageTag
rewritten collected_at (id, row) t =
    if t.id == id
    then record {
      id = t.id;
      repository = t.repository;
      tag = t.tag;
      manifest_digest = row.manifest_digest;
      last_pushed_at = row.last_pushed_at;
      collected_at = collected_at;
      language_version = none;
      version_major_minor = none;
      distribution = none;
      distro_codename = none;
      variant = none;
      variants = t.variants;
    }
    else t

abbrev pub update_changed : ℕ → List (ℕ × TagRow) → List ImageTag → List ImageTag
update_changed collected_at [] tags = tags
update_changed collected_at (change ∷ changes) tags =
    update_changed collected_at changes (map (rewritten collected_at change) tags)

abbrev with_variants : List ImageVariant → ImageTag → ImageTag
with_variants variants t = record {
  id = t.id;
  repository = t.repository;
  tag = t.tag;
  manifest_digest = t.manifest_digest;
  last_pushed_at = t.last_pushed_at;
  collected_at = t.collected_at;
  language_version = t.language_version;
  version_major_minor = t.version_major_minor;
  distribution = t.distribution;
  distro_codename = t.distro_codename;
  variant = t.variant;
  variants = variants;
}

abbrev pub delete_variants : List ℕ → List ImageTag → List ImageTag
delete_variants ids tags =
    map (λ (t : ImageTag). if elem t.id ids then with_variants [] t else t) tags

-- `uq_image_variants_identity`
abbrev same_identity : ImageVariant → ImageVariant → Bool
same_identity a b =
    text_beq a.os b.os
    && (text_beq a.architecture b.architecture
        && (text_beq a.arch_variant b.arch_variant && text_beq a.os_version b.os_version))

abbrev add_variants : List ImageVariant → List ImageVariant → Option (List ImageVariant)
add_variants present [] = some present
add_variants present (v ∷ variants) =
    let rest = add_variants (present ++ v ∷ []) variants in
    if any (same_identity v) present then none else rest

abbrev add_own : ℕ × TagRow → ImageTag → Option ImageTag
add_own (id, row) t =
    let added = and_then (add_variants t.variants row.variants) (λ vs. some (with_variants vs t)) in
    if t.id == id then added else some t

abbrev each_tag : (ImageTag → Option ImageTag) → List ImageTag → Option (List ImageTag)
each_tag f [] = some []
each_tag f (t ∷ tags) =
    let rest = each_tag f tags in and_then (f t) (λ u. and_then rest (λ us. some (u ∷ us)))

abbrev pub insert_variants : List (ℕ × TagRow) → List ImageTag → Option (List ImageTag)
insert_variants [] tags = some tags
insert_variants (entry ∷ rewrite) tags =
    and_then (each_tag (add_own entry) tags) (insert_variants rewrite)

abbrev seen_at : ℕ → ImageTag → ImageTag
seen_at collected_at t = record {
  id = t.id;
  repository = t.repository;
  tag = t.tag;
  manifest_digest = t.manifest_digest;
  last_pushed_at = t.last_pushed_at;
  collected_at = collected_at;
  language_version = t.language_version;
  version_major_minor = t.version_major_minor;
  distribution = t.distribution;
  distro_codename = t.distro_codename;
  variant = t.variant;
  variants = t.variants;
}

abbrev pub touch : ℕ → List ℕ → List ImageTag → List ImageTag
touch collected_at ids tags =
    map (λ (t : ImageTag). if elem t.id ids then seen_at collected_at t else t) tags

-- The statements after the insert of the new tags.
abbrev pub finish_upsert :
    ℕ → TagChanges → List ImageTag × List (ℕ × TagRow) → Option (List ImageTag × ℕ)
finish_upsert collected_at changes (tags, inserted) =
    let rewrite = inserted ++ changes.changed in
    let updated = update_changed collected_at changes.changed tags in
    let cleared = delete_variants (map (λ c. c.0) changes.changed) updated in
    and_then (insert_variants rewrite cleared)
      (λ written. some (touch collected_at changes.unchanged_ids written, length rewrite))

-- The table of the tags after a page, and the number of those written.
unfoldable pub upsert_tags :
    (List ImageTag → ℕ) → Text → List TagRow → ℕ → List ImageTag → Option (List ImageTag × ℕ)
upsert_tags fresh repository [] collected_at tags = some (tags, 0)
upsert_tags fresh repository (row ∷ rows) collected_at tags =
    let names = map (λ (r : TagRow). r.tag) (row ∷ rows) in
    let changes = classify_tags (row ∷ rows) (existing_from repository names tags []) in
    and_then (insert_tags fresh repository collected_at changes.new tags)
      (finish_upsert collected_at changes)
