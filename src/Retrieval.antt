-- ===== src/Retrieval.antt =====
-- search/retrieval.py: from the nearest documents and the conditions to the candidates.
use whatfrom.Prelude.{
  ℕ, Bool, true, false, not, ◌&&◌, ◌||◌, Option, none, some, List, [], ◌∷◌, ◌++◌, map, any,
  if◌then◌else◌, filter,
}
use whatfrom.Prelude.Eq.{Text, elem, nat_eq, text_eq, text_beq}
use whatfrom.Prelude.Text.{is_nil}
use whatfrom.Prelude.Dict.{Dict, lookup, insert, or_nil, append_to}
use whatfrom.Models.{Repository, ImageTag, Document, DocumentChunk}
use whatfrom.Contracts.{Evidence, Candidate, SearchPlan}
use whatfrom.Filters.{TagConditions, Notice, is_none, accepts, empty, Stage, relaxations}
use whatfrom.TagSelect.Names.{TagRef}
use whatfrom.Retrieval.Nearest.{search_chunks_by_vector}
use whatfrom.TagSelect.Select.{select_tags, stale_pinned_lines}
use whatfrom.Retrieval.Build.{build_candidates}
pub mod Nearest
pub mod Build
pub mod Stages
mod Notices
pub mod First
pub mod Complete
pub mod Scopes
pub mod Planned
mod Tests

-- The rows that the search reads, and whether one embedding is nearer to a vector, given first,
-- than another.
pub record Database (Vector : Type 0) : Type 0 where
  pub repositories : List Repository
  pub image_tags : List ImageTag
  pub documents : List Document
  pub document_chunks : List (DocumentChunk Vector)
  pub nearer : Vector → Vector → Vector → Bool

-- The documents of the chunks nearest to a vector.
unfoldable pub nearest :
    {Vector : Type 0} → Database Vector → Vector → ℕ → Option Text → List Document
nearest db vector limit repository =
    map (λ hit. hit.document)
      (search_chunks_by_vector db.nearer vector db.documents db.document_chunks limit repository)

-- `_evidence_by_repo`
abbrev evidence_of : Document → Evidence
evidence_of d = record {
  repository = d.repository;
  section_title = d.section_title;
  content = d.content;
  source_url = d.source_url;
}

abbrev pub add_hits : List Document → Dict Text (List Evidence) → Dict Text (List Evidence)
add_hits [] found = found
add_hits (d ∷ hits) found = add_hits hits (append_to d.repository (evidence_of d) found)

abbrev pub evidence_by_repo : List Document → Dict Text (List Evidence)
evidence_by_repo hits = add_hits hits []

-- `_tag_refs`
abbrev pub ref_of : ImageTag → TagRef
ref_of row = record {
  id = row.id;
  tag = row.tag;
  manifest_digest = row.manifest_digest;
  last_pushed_at = row.last_pushed_at;
}

abbrev pub in_repository : Text → ImageTag → Bool
in_repository repository row = text_beq row.repository repository

abbrev pub tag_refs : List ImageTag → Text → List TagRef
tag_refs rows repository = map ref_of (filter (in_repository repository) rows)

-- `_has_tags`
abbrev has_tags : List ImageTag → Text → Bool
has_tags rows repository = any (in_repository repository) rows

abbrev pub refs_of_all : List ImageTag → Dict Text (List Evidence) → Dict Text (List TagRef)
refs_of_all rows [] = []
refs_of_all rows ((repository, evidence) ∷ rest) =
    (repository, tag_refs rows repository) ∷ refs_of_all rows rest

-- What a plan is made to: the evidence to search with, whether the repository of the plan was
-- forced, and whether it was wanted but could not be.
pub record Scope : Type 0 where
  pub evidence : Dict Text (List Evidence)
  pub forced : Bool
  pub unforced : Option Text

-- The notes of a search, by what they are made from.
pub data SearchNote (Size : Type 0) : Type 0 where
  repository_missing : Text → SearchNote Size
  version_unused : Text → SearchNote Size
  given_up : List (Notice Size) → SearchNote Size
  stale_line : Text → Text → SearchNote Size

pub record PlannedSearch (Size : Type 0) : Type 0 where
  pub candidates : List Candidate
  pub notes : List (SearchNote Size)
  pub degraded : Bool

-- Where the loop over the stages stops.
pub record Found (Size : Type 0) : Type 0 where
  pub stage : TagConditions Size
  pub relaxed : List (Notice Size)
  pub chosen_by_repo : Dict Text (List TagRef)

-- `d[k] = v if v`, in the order of the dict: the keys come in turn, each once.
abbrev pub add_chosen : Text → List TagRef → Dict Text (List TagRef) → Dict Text (List TagRef)
add_chosen repository [] chosen = chosen
add_chosen repository (r ∷ refs) chosen = insert repository (r ∷ refs) chosen

abbrev forced_chunks : ℕ
forced_chunks = 2

module _ {Vector Size : Type 0} (within : ℕ → Size → Bool) (db : Database Vector)
    (vector : Vector) where
  abbrev evidence_or : Text → Option (List Evidence) → List Evidence
  evidence_or repository none =
      or_nil
        (lookup repository (evidence_by_repo (nearest db vector forced_chunks (some repository))))
  evidence_or repository (some evidence) = evidence

  -- `_forced_evidence`
  abbrev pub forced_evidence : Text → Dict Text (List Evidence) → List Evidence
  forced_evidence repository found = evidence_or repository (lookup repository found)

  abbrev pub scope_of : Dict Text (List Evidence) → Option Text → Scope
  scope_of found none = record { evidence = found; forced = false; unforced = none }
  scope_of found (some repository) =
      let evidence = forced_evidence repository found in
      if not (is_nil evidence) && has_tags db.image_tags repository
      then record { evidence = (repository, evidence) ∷ []; forced = true; unforced = none }
      else record { evidence = found; forced = false; unforced = some repository }

  abbrev pub conditions_of : SearchPlan Size → Bool → TagConditions Size
  conditions_of plan forced = record {
    version_prefix = if forced then plan.version_prefix else none;
    architectures = plan.architectures;
    distributions = plan.distributions;
    exclude_distributions = plan.exclude_distributions;
    max_size_mb = plan.max_size_mb;
  }

  -- `_allowed_ids`
  abbrev pub allowed_ids : Text → TagConditions Size → List ℕ
  allowed_ids repository conditions =
      map (λ (row : ImageTag). row.id)
        (filter (λ row. in_repository repository row && accepts within conditions row)
          db.image_tags)

  abbrev pub allowed_at : Text → TagConditions Size → Option (List ℕ)
  allowed_at repository stage = if empty stage then none else some (allowed_ids repository stage)

  abbrev pub note_chosen :
      Text → Option (List TagRef) → Dict Text (List TagRef) → Option (Dict Text (List TagRef))
  note_chosen repository none chosen = none
  note_chosen repository (some refs) chosen = some (add_chosen repository refs chosen)

  abbrev pub go_on {ℓ κ} : {A : Type ℓ} {B : Type κ} → (A → Option B) → Option A → Option B
  go_on f none = none
  go_on f (some a) = f a

  -- The inner loop, over the repositories; `none` is an assertion that fails.
  unfoldable pub choose_all :
      ℕ
      → TagConditions Size
      → Dict Text (List TagRef)
      → Dict Text (List TagRef)
      → Option (Dict Text (List TagRef))
  choose_all limit stage [] chosen = some chosen
  choose_all limit stage ((repository, refs) ∷ rest) chosen = go_on (choose_all limit stage rest) (
      note_chosen repository
        (select_tags refs limit (allowed_at repository stage) stage.version_prefix) chosen)

  abbrev pub add_notice : List (Notice Size) → Option (Notice Size) → List (Notice Size)
  add_notice relaxed none = relaxed
  add_notice relaxed (some n) = relaxed ++ n ∷ []

  abbrev pub stop_or :
      TagConditions Size
      → List (Notice Size)
      → (Dict Text (List TagRef) → Option (Found Size))
      → Dict Text (List TagRef)
      → Option (Found Size)
  stop_or stage relaxed more [] = more []
  stop_or stage relaxed more (entry ∷ chosen) =
      some (record { stage = stage; relaxed = relaxed; chosen_by_repo = entry ∷ chosen })

  -- The outer loop, over the stages, with the stage before.
  unfoldable pub run_stages :
      ℕ
      → Dict Text (List TagRef)
      → List (Stage Size)
      → TagConditions Size
      → List (Notice Size)
      → Dict Text (List TagRef)
      → Option (Found Size)
  run_stages limit refs [] last relaxed chosen =
      some (record { stage = last; relaxed = relaxed; chosen_by_repo = chosen })
  run_stages limit refs ((stage, notice) ∷ stages) last relaxed chosen =
      go_on
        (stop_or stage (add_notice relaxed notice)
          (run_stages limit refs stages stage (add_notice relaxed notice)))
        (choose_all limit stage refs chosen)

  abbrev unforced_notes : Option Text → List (SearchNote Size)
  unforced_notes none = []
  unforced_notes (some repository) = SearchNote.repository_missing repository ∷ []

  abbrev version_notes : Option Text → Bool → List (SearchNote Size)
  version_notes (some prefix) false = SearchNote.version_unused prefix ∷ []
  version_notes (some prefix) true = []
  version_notes none forced = []

  abbrev relaxed_notes : List (Notice Size) → Bool → List (SearchNote Size)
  relaxed_notes relaxed nothing =
      if is_nil relaxed || nothing then [] else SearchNote.given_up relaxed ∷ []

  abbrev lines_noted : Text → List Text → List (SearchNote Size)
  lines_noted repository lines = map (λ line. SearchNote.stale_line repository line) lines

  abbrev add_lines :
      Text → Option (List Text) → Option (List (SearchNote Size)) → Option (List (SearchNote Size))
  add_lines repository none notes = none
  add_lines repository (some lines) none = none
  add_lines repository (some lines) (some notes) = some (lines_noted repository lines ++ notes)

  -- The lines that are behind, of every repository chosen from; `none` is a KeyError.
  abbrev stale_notes :
      Dict Text (List TagRef) → Text → Dict Text (List TagRef) → Option (List (SearchNote Size))
  stale_notes refs prefix [] = some []
  stale_notes refs prefix ((repository, chosen) ∷ rest) =
      add_lines repository
        (go_on (λ tags. some (stale_pinned_lines tags prefix chosen)) (lookup repository refs))
        (stale_notes refs prefix rest)

  abbrev pub line_notes :
      Dict Text (List TagRef)
      → Option Text
      → Dict Text (List TagRef)
      → Option (List (SearchNote Size))
  line_notes refs none chosen = some []
  line_notes refs (some prefix) chosen = stale_notes refs prefix chosen

  abbrev pub join_built :
      Option (List Candidate) → Option (List Candidate) → Option (List Candidate)
  join_built none rest = none
  join_built (some own) none = none
  join_built (some own) (some rest) = some (own ++ rest)

  -- The candidates of every repository chosen from, with its evidence.
  unfoldable pub build_all :
      Dict Text (List Evidence) → Dict Text (List TagRef) → Option (List Candidate)
  build_all evidence [] = some []
  build_all evidence ((repository, chosen) ∷ rest) =
      join_built
        (go_on (build_candidates db.repositories db.image_tags repository chosen)
          (lookup repository evidence))
        (build_all evidence rest)

  abbrev pub finish_search :
      Scope
      → Option Text
      → Found Size
      → Option (List (SearchNote Size))
      → Option (List Candidate)
      → Option (PlannedSearch Size)
  finish_search scope prefix found none candidates = none
  finish_search scope prefix found (some lines) none = none
  finish_search scope prefix found (some lines) (some candidates) = some (record {
    candidates = candidates;
    notes =
        unforced_notes scope.unforced
        ++ (version_notes prefix scope.forced
            ++ (relaxed_notes found.relaxed (is_nil found.chosen_by_repo) ++ lines));
    degraded = not (is_none scope.unforced) || not (is_nil found.relaxed);
  })

  abbrev pub search_in : ℕ → SearchPlan Size → Scope → Option (PlannedSearch Size)
  search_in limit plan scope =
      let conditions = conditions_of plan scope.forced in
      let refs = refs_of_all db.image_tags scope.evidence in
      go_on
        (λ (found : Found Size).
          finish_search scope plan.version_prefix found
            (line_notes refs found.stage.version_prefix found.chosen_by_repo)
            (build_all scope.evidence found.chosen_by_repo))
        (run_stages limit refs (relaxations conditions) conditions [] [])

  -- `search_candidates_with_plan`; `none` is an exception that it lets out.
  unfoldable pub search_candidates_with_plan : SearchPlan Size → ℕ → ℕ → Option (PlannedSearch Size)
  search_candidates_with_plan plan chunk_k tags_per_repo =
      search_in tags_per_repo plan
        (scope_of (evidence_by_repo (nearest db vector chunk_k none)) plan.repository)

  abbrev pub choose_and_build : ℕ → Dict Text (List Evidence) → Option (List Candidate)
  choose_and_build limit [] = some []
  choose_and_build limit ((repository, evidence) ∷ rest) =
      join_built
        (go_on (λ chosen. build_candidates db.repositories db.image_tags repository chosen evidence)
          (select_tags (tag_refs db.image_tags repository) limit none none))
        (choose_and_build limit rest)

  -- `search_candidates_by_vector`
  unfoldable pub search_candidates_by_vector : ℕ → ℕ → Option (List Candidate)
  search_candidates_by_vector chunk_k tags_per_repo =
      choose_and_build tags_per_repo (evidence_by_repo (nearest db vector chunk_k none))
