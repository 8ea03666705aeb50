-- ===== src/TagSelect/Tests.antt =====
-- search/tagselect.py: the rules on small repositories, and the theorems there.
use Prim.Native.String.{String}
use whatfrom.Prelude.{
  ℕ, ◌≡◌, ◌*◌, refl, Option, none, some, List, [], ◌∷◌, map, min, length, filter, all, All,
}
use whatfrom.Prelude.Eq.{Text}
use whatfrom.Prelude.Text.{codes}
use whatfrom.TagSelect.Names.{TagRef}
use whatfrom.TagSelect.Lines.{line_of, line_depth, is_alias}
use whatfrom.Prelude.Dict.{Dict, keys, values}
use whatfrom.Versions.{extends_version}
use whatfrom.TagSelect.Names.{exclude_windows_only, exclude_prerelease, allowed}
use whatfrom.TagSelect.Names.Excluded.{IsClear, is_unstable}
use whatfrom.TagSelect.Lines.{aliases_by_line, finer_than_lines, supported, supported_aliases}
use whatfrom.TagSelect.Lines.Support.{keeps_up, supported-pairwise}
use whatfrom.TagSelect.Order.{fold_by_digest, interleave, group_lines}
use whatfrom.TagSelect.Order.Turns.{total_of, length-interleave}
use whatfrom.TagSelect.Select.{select_tags, stale_pinned_lines}
use whatfrom.TagSelect.Select.Members.{IsAllowed, IsOnLine}
use whatfrom.TagSelect.Select.Chosen.{
  Returning, Fits, IsLinux, IsPinned, stable_tags, select_tags_limits, select_tags-IsLinux,
  select_tags_no_prerelease, select_tags_lines, select_tags-IsPinned,
}

abbrev days : ℕ → ℕ
days n = n * (24 * 3600 * 1000000)

abbrev ref : ℕ → String → String → ℕ → TagRef
ref i tag digest day = record {
  id = i;
  tag = codes tag;
  manifest_digest = some (codes digest);
  last_pushed_at = some (days day);
}

abbrev repository : List TagRef
repository =
    ref 1 "26" "a" 1000
    ∷ ref 2 "26-slim" "b" 1000
    ∷ ref 3 "24" "c" 990
    ∷ ref 4 "24-alpine" "d" 990
    ∷ ref 5 "24-alpine3.24" "d" 990
    ∷ ref 6 "24-buster" "e" 100
    ∷ ref 7 "18" "f" 500
    ∷ ref 8 "27-rc" "g" 1000
    ∷ ref 9 "26-nanoserver" "h" 1000
    ∷ ref 10 "26.1.0" "i" 1000
    ∷ []

abbrev ids : Option (List TagRef) → Option (List ℕ)
ids none = none
ids (some refs) = some (map (λ (r : TagRef). r.id) refs)

chosen_ids : Option Text → Option (List ℕ)
unfolding select_tags exclude_prerelease exclude_windows_only line_depth line_of is_alias
    finer_than_lines aliases_by_line supported_aliases extends_version group_lines fold_by_digest
    allowed interleave
chosen_ids pinned = ids (select_tags repository 10 none pinned)

by_turns : chosen_ids none ≡ some (1 ∷ 3 ∷ 2 ∷ 4 ∷ [])
unfolding chosen_ids
by_turns = refl

pinned_line_is_back : chosen_ids (some (codes "18")) ≡ some (1 ∷ 3 ∷ 7 ∷ 2 ∷ 4 ∷ [])
unfolding chosen_ids
pinned_line_is_back = refl

pinned_patch : chosen_ids (some (codes "26.1")) ≡ some (10 ∷ [])
unfolding chosen_ids
pinned_patch = refl

told_stale : stale_pinned_lines repository (codes "18") repository ≡ codes "18" ∷ []
unfolding stale_pinned_lines chosen_ids supported
told_stale = refl

select_tags_limits_example : Returning (Fits 3) (select_tags repository 3 none none)
select_tags_limits_example = select_tags_limits repository 3 none none

some_allowed : Option (List ℕ)
some_allowed = some (3 ∷ 5 ∷ 9 ∷ [])

select_tags-IsLinux_example :
    Returning
      (All (λ r. IsLinux repository r × IsAllowed some_allowed r))
      (select_tags repository 10 some_allowed none)
select_tags-IsLinux_example = select_tags-IsLinux repository 10 some_allowed none

select_tags_no_prerelease_example :
    Returning
      (All (λ r. IsClear is_unstable (exclude_windows_only repository) r × IsAllowed none r))
      (select_tags repository 10 none none)
unfolding chosen_ids
select_tags_no_prerelease_example = select_tags_no_prerelease repository 10 none none refl

select_tags_lines_example :
    Returning
      (All (λ r. IsOnLine (stable_tags repository) 1 (some (codes "18")) r × IsAllowed none r))
      (select_tags repository 10 none (some (codes "18")))
unfolding chosen_ids
select_tags_lines_example =
    select_tags_lines repository 10 none (some (codes "18")) 1 refl refl refl

select_tags-IsPinned_example :
    Returning
      (All (λ r. IsPinned (some (codes "26.1")) r × IsAllowed none r))
      (select_tags repository 10 none (some (codes "26.1")))
unfolding chosen_ids
select_tags-IsPinned_example =
    select_tags-IsPinned repository 10 none (some (codes "26.1")) 1 refl refl refl

abbrev pushes : Dict Text (Option ℕ)
pushes =
    (codes "26", some (days 1000))
    ∷ (codes "24", some (days 950))
    ∷ (codes "18", some (days 500))
    ∷ (codes "16", none)
    ∷ []

supported-pairwise_example :
    supported pushes ≡ keys (filter (λ e. all (keeps_up e.1) (values pushes)) pushes)
supported-pairwise_example = supported-pairwise pushes

two_supported : supported pushes ≡ codes "26" ∷ codes "24" ∷ []
unfolding supported
two_supported = refl

length-interleave_example :
    length (interleave (repository ∷ [] ∷ repository ∷ []) 7)
    ≡ min 7 (total_of (λ _. 1) (repository ∷ [] ∷ repository ∷ []))
length-interleave_example = length-interleave (repository ∷ [] ∷ repository ∷ []) 7
