-- ===== src/Retrieval/Build.antt =====
-- search/retrieval.py: the candidates of the tags chosen in a repository.
use whatfrom.Prelude.{
  ℕ, Bool, true, false, not, ◌&&◌, ◌||◌, Option, none, some, List, [], ◌∷◌, ◌++◌, map,
  if◌then◌else◌, filter,
}
use whatfrom.Prelude.Eq.{Text, elem, nat_eq, text_eq, text_beq}
use whatfrom.Prelude.Text.{text_leb, is_nil}
use whatfrom.Prelude.Dict.{Dict, insert, lookup}
use whatfrom.Prelude.Sort.{sort}
use whatfrom.Models.{Repository, ImageTag, ImageVariant}
use whatfrom.Contracts.{Evidence, Platform, Candidate}
use whatfrom.TagSelect.Names.{TagRef}
pub mod Rows
pub mod Offered

-- `_dedupe_evidence`
abbrev pub dedupe_from : List Text → List Evidence → List Evidence
dedupe_from seen [] = []
dedupe_from seen (item ∷ items) =
    let rest = dedupe_from seen items in
    let noted = dedupe_from (item.section_title ∷ seen) items in
    if elem item.section_title seen then rest else item ∷ noted

abbrev pub dedupe_evidence : List Evidence → List Evidence
dedupe_evidence evidence = dedupe_from [] evidence

abbrev pub platform_of : ImageVariant → Platform
platform_of v = record {
  os = v.os;
  architecture = v.architecture;
  arch_variant = v.arch_variant;
  os_version = v.os_version;
  size_bytes = v.size_bytes;
  digest = v.digest;
}

-- Python's order of tuples: the first place where they differ decides.
abbrev keys_leb : List Text → List Text → Bool
keys_leb [] ys = true
keys_leb (x ∷ xs) [] = false
keys_leb (x ∷ xs) (y ∷ ys) = if text_beq x y then keys_leb xs ys else text_leb x y

abbrev platform_key : Platform → List Text
platform_key p = p.os ∷ p.architecture ∷ p.arch_variant ∷ p.os_version ∷ []

abbrev pub platform_leb : Platform → Platform → Bool
platform_leb p q = keys_leb (platform_key p) (platform_key q)

abbrev pub candidate_of : Repository → Text → List Evidence → ImageTag → Candidate
candidate_of repo repository evidence row = record {
  image = repository ++ b':' ∷ row.tag;
  repository = repository;
  tag = row.tag;
  digest = row.manifest_digest;
  platforms = sort platform_leb (map platform_of row.variants);
  last_pushed_at = row.last_pushed_at;
  source_url = repo.source_url;
  collected_at = row.collected_at;
  evidence = dedupe_evidence evidence;
  evidence_numbers = [];
  version = row.language_version;
  distribution = row.distribution;
  distro_codename = row.distro_codename;
  variant = row.variant;
}

-- `{tag.id: tag for tag in rows}`
abbrev pub rows_by_id : List ImageTag → Dict ℕ ImageTag → Dict ℕ ImageTag
rows_by_id [] d = d
rows_by_id (row ∷ rows) d = rows_by_id rows (insert row.id row d)

-- `session.get(Repository, name)`
abbrev pub get_repository : Text → List Repository → Option Repository
get_repository name [] = none
get_repository name (r ∷ rs) =
    let rest = get_repository name rs in if text_beq r.name name then some r else rest

-- The loop over the tags chosen; `none` is a KeyError.
abbrev add_candidate : Option Candidate → Option (List Candidate) → Option (List Candidate)
add_candidate none cs = none
add_candidate (some c) none = none
add_candidate (some c) (some cs) = some (c ∷ cs)

abbrev pub found_candidate : (ImageTag → Candidate) → Option ImageTag → Option Candidate
found_candidate make none = none
found_candidate make (some row) = some (make row)

abbrev pub candidates_of :
    (ImageTag → Candidate) → Dict ℕ ImageTag → List TagRef → Option (List Candidate)
candidates_of make by_id [] = some []
candidates_of make by_id (ref ∷ chosen) =
    add_candidate (found_candidate make (lookup ref.id by_id)) (candidates_of make by_id chosen)

abbrev pub build_from :
    Option Repository → List ImageTag → Text → List TagRef → List Evidence → Option (List Candidate)
build_from none rows repository chosen evidence = some []
build_from (some repo) rows repository chosen evidence =
    candidates_of (candidate_of repo repository evidence)
      (rows_by_id
        (filter (λ (row : ImageTag). elem row.id (map (λ (r : TagRef). r.id) chosen)) rows) [])
      chosen

-- `_build_candidates`
unfoldable pub build_candidates :
    List Repository → List ImageTag → Text → List TagRef → List Evidence → Option (List Candidate)
build_candidates repositories rows repository chosen evidence =
    if is_nil chosen
    then some []
    else build_from (get_repository repository repositories) rows repository chosen evidence
