-- ===== src/Eval/Tests.antt =====
-- eval/: a case scored on the answers of a small service.
use whatfrom.Prelude.{ℕ, ◌≡◌, ◌≤◌, ◌*◌, refl, Bool, true, false, none, some, [], ◌∷◌, leb, arith}
use whatfrom.Prelude.Eq.{text_eq, nat_eq}
use whatfrom.Prelude.Text.{codes}
use whatfrom.Models.{Repository, ImageTag}
use whatfrom.Contracts.{SearchPlan}
use whatfrom.Filters.{accepts}
use whatfrom.Retrieval.Build.{candidate_of}
use whatfrom.Verify.Tests.{session, candidates, recommendation}
use whatfrom.Answer.{Remote, Stages}
use whatfrom.Eval.Golden.{Conditions, GoldenCase, unique_ids}
use whatfrom.Eval.Golden.Ids.{IsVerdict, unique_ids-IsVerdict}
use whatfrom.Eval.Scoring.{conditions_satisfied}
use whatfrom.Eval.Scoring.Agreement.{as_filters, conditions_satisfied-accepts}

abbrev within_mb : ℕ → ℕ → Bool
within_mb size max = leb size (max * 1000000)

abbrev conditions : Conditions ℕ
conditions = record {
  architectures = codes "amd64" ∷ [];
  exclude_distributions = codes "alpine" ∷ [];
  version_prefix = some (codes "3.13");
  max_size_mb = some 50;
}

abbrev case : GoldenCase ℕ
case = record {
  id = codes "small";
  question = codes "a small image for Python";
  requires_repositories = codes "python" ∷ [];
  tags = [];
  accept = codes "python:3.13-slim" ∷ [];
  reject = codes "python:latest" ∷ [];
  conditions = conditions;
  expected_plan = record {
    version_prefix = none;
    architectures = [];
    distributions = [];
    exclude_distributions = [];
    max_size_mb = none;
  };
  requirements = [];
  expected_sections = [];
  rationale = record { note = []; sources = [] };
}

abbrev repo : Repository
repo = record {
  name = codes "python";
  is_official = true;
  description = none;
  source_url = codes "https://hub.docker.com/_/python";
  collected_at = 2000;
}

abbrev row : ImageTag
row = record {
  id = 1;
  repository = codes "python";
  tag = codes "3.13-slim";
  manifest_digest = none;
  last_pushed_at = none;
  collected_at = 2000;
  language_version = none;
  version_major_minor = none;
  distribution = some (codes "debian");
  distro_codename = none;
  variant = some (codes "slim");
  variants =
      record {
        os = codes "linux";
        architecture = codes "amd64";
        arch_variant = [];
        os_version = [];
        digest = codes "a";
        size_bytes = 45000000;
      }
      ∷ [];
}

within_falls : (max m n : ℕ) → m ≤ n → within_mb n max ≡ true → within_mb m max ≡ true
within_falls max m n h k = ground arith

conditions_satisfied-accepts_example :
    conditions_satisfied within_mb conditions (candidate_of repo (codes "python") [] row)
    ≡ accepts within_mb (as_filters conditions) row
conditions_satisfied-accepts_example =
    conditions_satisfied-accepts within_mb within_falls repo (codes "python") [] row conditions
      (refl, tt) (λ e. cc)

abbrev stages : Stages ℕ (SearchPlan ℕ)
stages = record {
  embed = λ question. Remote.returned 5;
  repository_names = codes "python" ∷ [];
  extract_plan = λ question repositories. Remote.failed (codes "timeout");
  search_by_vector = λ vector. candidates;
  search_with_plan = λ vector plan. record { candidates = []; notes = []; degraded = false };
  advise = λ question offered evidence requirements. Remote.returned recommendation;
  image_tag_id = session;
}

unique_ids-IsVerdict_example : IsVerdict (case ∷ case ∷ []) (unique_ids (case ∷ case ∷ []))
unique_ids-IsVerdict_example = unique_ids-IsVerdict (case ∷ case ∷ [])
