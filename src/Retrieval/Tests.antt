-- ===== src/Retrieval/Tests.antt =====
-- search/retrieval.py: a search with a plan in a small database.
use Prim.Native.String.{String}
use whatfrom.Prelude.{
  ℕ, ◌+◌, ◌≡◌, ◌*◌, refl, Bool, true, Option, none, some, List, [], ◌∷◌, map, leb, ltb,
}
use whatfrom.Prelude.Eq.{Text}
use whatfrom.Prelude.Text.{codes}
use whatfrom.Models.{ImageTag, ImageVariant, Document, DocumentChunk}
use whatfrom.Contracts.{Candidate, SearchPlan}
use whatfrom.Filters.{Notice, tag_filters, version_filter, relaxations}
use whatfrom.TagSelect.Names.{exclude_windows_only, exclude_prerelease, allowed}
use whatfrom.TagSelect.Lines.{
  line_of, line_depth, is_alias, aliases_by_line, finer_than_lines, supported_aliases,
}
use whatfrom.TagSelect.Order.{fold_by_digest, interleave, group_lines}
use whatfrom.TagSelect.Select.{select_tags, stale_pinned_lines}
use whatfrom.Versions.{extends_version}
use whatfrom.Retrieval.{
  evidence_by_repo, Database, SearchNote, PlannedSearch, choose_all, run_stages, build_all,
  search_candidates_with_plan, nearest,
}
use whatfrom.Retrieval.Build.{build_candidates}
use whatfrom.Retrieval.Build.Rows.{ids_distinct-UniqueIds}
use whatfrom.Retrieval.Planned.{Finds, search_candidates_with_plan-Finds}

abbrev within_mb : ℕ → ℕ → Bool
within_mb size max = leb size (max * 1000000)

abbrev linux : String → ℕ → ImageVariant
linux architecture size = record {
  os = codes "linux";
  architecture = codes architecture;
  arch_variant = [];
  os_version = [];
  digest = codes "p";
  size_bytes = size;
}

abbrev row : ℕ → String → String → String → ℕ → ImageTag
row i tag digest distribution size = record {
  id = i;
  repository = codes "python";
  tag = codes tag;
  manifest_digest = some (codes digest);
  last_pushed_at = some 1000;
  collected_at = 2000;
  language_version = some (codes "3.13.1");
  version_major_minor = some (codes "3.13");
  distribution = some (codes distribution);
  distro_codename = none;
  variant = none;
  variants = linux "arm64" (size + 1) ∷ linux "amd64" size ∷ [];
}

abbrev section : ℕ → String → String → String → Document
section i repository title content = record {
  id = i;
  repository = codes repository;
  doc_type = codes "readme";
  section_title = codes title;
  content = codes content;
  source_url = codes "https://hub.docker.com/_/python";
  collected_at = 2000;
}

abbrev chunk : ℕ → ℕ → Option ℕ → DocumentChunk ℕ
chunk i document embedding = record {
  id = i;
  document_id = document;
  chunk_index = i;
  content = codes "image";
  embedding = embedding;
}

abbrev database : Database ℕ
database = record {
  repositories =
      record {
        name = codes "python";
        is_official = true;
        description = none;
        source_url = codes "https://hub.docker.com/_/python";
        collected_at = 2000;
      }
      ∷ [];
  image_tags = row 1 "3.13" "a" "debian" 400000000 ∷ row 2 "3.13-alpine" "b" "alpine" 18000000 ∷ [];
  documents =
      section 1 "python" "Image Variants" "the defacto image"
      ∷ section 2 "node" "Image Variants" "the other image"
      ∷ [];
  document_chunks = chunk 1 1 (some 4) ∷ chunk 2 2 none ∷ chunk 3 1 (some 2) ∷ [];
  nearer = λ vector a b. ltb a b;
}

abbrev plan : SearchPlan ℕ
plan = record {
  repository = some (codes "python");
  version_prefix = some (codes "3.13");
  architectures = codes "amd64" ∷ [];
  distributions = [];
  exclude_distributions = codes "alpine" ∷ [];
  max_size_mb = some 50;
}

abbrev images : Option (PlannedSearch ℕ) → Option (List Text × List (SearchNote ℕ) × Bool)
images none = none
images (some r) = some (map (λ (c : Candidate). c.image) r.candidates, r.notes, r.degraded)

found :
    images (search_candidates_with_plan within_mb database 0 plan 5 20)
    ≡ some (codes "python:3.13" ∷ [], SearchNote.given_up (Notice.size_given_up 50 ∷ []) ∷ [], true)
unfolding nearest search_candidates_with_plan build_all run_stages choose_all relaxations
    tag_filters version_filter build_candidates select_tags stale_pinned_lines exclude_prerelease
    exclude_windows_only line_depth line_of is_alias finer_than_lines aliases_by_line
    supported_aliases extends_version group_lines fold_by_digest allowed interleave
found = refl

search_candidates_with_plan-Finds_example :
    Finds within_mb database 0
      (evidence_by_repo (nearest database 0 5 none))
      20
      plan
      (search_candidates_with_plan within_mb database 0 plan 5 20)
search_candidates_with_plan-Finds_example =
    search_candidates_with_plan-Finds within_mb database 0
      (ids_distinct-UniqueIds database.image_tags refl) plan 5 20
