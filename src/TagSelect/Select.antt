-- ===== src/TagSelect/Select.antt =====
-- search/tagselect.py: `select_tags` and `stale_pinned_lines`.
pub mod Members
pub mod Total
pub mod Chosen
use whatfrom.Prelude.{
  ℕ, Bool, true, false, not, ◌&&◌, Option, none, some, List, [], ◌∷◌, if◌then◌else◌, take, filter,
  any,
}
use whatfrom.Prelude.Eq.{Text, text_eq, elem, option_beq}
use whatfrom.Prelude.Text.{is_nil, text_leb}
use whatfrom.Prelude.Dict.{keys}
use whatfrom.Prelude.Sort.{sort}
use whatfrom.Versions.{extends_version}
use whatfrom.TagSelect.Names.{TagRef, exclude_windows_only, exclude_prerelease, allowed}
use whatfrom.TagSelect.Lines.{
  line_of, line_depth, aliases_by_line, alias_pushes, supported, supported_lines, supported_aliases,
  finer_than_lines,
}
use whatfrom.TagSelect.Order.{name_leb, fold_by_digest, by_recent_push, group_lines, interleave}

-- The fallbacks: the most recent pushes among some tags.
most_recent : List TagRef → Option (List ℕ) → ℕ → List TagRef
most_recent refs allowed_ids limit =
    take limit (by_recent_push (fold_by_digest (allowed refs allowed_ids)))

-- Whether the line of a tag is among the lines.
abbrev pub in_some_line : List Text → Option Text → Bool
in_some_line lines none = false
in_some_line lines (some line) = elem line lines

turns : Option (List (List TagRef)) → ℕ → Option (List TagRef)
turns none limit = none
turns (some lines) limit = some (interleave lines limit)

-- The aliases by turns over their lines.
from_aliases : List TagRef → ℕ → Option (List ℕ) → ℕ → Option (List TagRef)
unfolding turns
from_aliases kept depth allowed_ids limit =
    turns (group_lines (fold_by_digest (allowed kept allowed_ids)) depth) limit

-- From `kept = …` on.
pub from_lines : List TagRef → ℕ → Option (List ℕ) → Option Text → ℕ → Option (List TagRef)
unfolding most_recent from_aliases
from_lines stable depth allowed_ids pinned limit =
    let kept = supported_aliases stable depth pinned in
    if is_nil kept
    then some (
        most_recent
          (filter
            (λ ref. in_some_line (supported_lines stable depth pinned) (line_of ref.tag depth))
            stable)
          allowed_ids limit)
    else from_aliases kept depth allowed_ids limit

-- The fixed tags of a version that is finer than the lines.
pub fixed_tags : List TagRef → Option (List ℕ) → Text → ℕ → List TagRef
fixed_tags stable allowed_ids pinned limit = take limit (
    sort name_leb (
      fold_by_digest (filter (λ ref. extends_version pinned ref.tag) (allowed stable allowed_ids))))

from_stable : List TagRef → ℕ → Option (List ℕ) → Option Text → Option ℕ → Option (List TagRef)
unfolding most_recent fixed_tags from_lines
from_stable stable limit allowed_ids pinned none = some (most_recent stable allowed_ids limit)
from_stable stable limit allowed_ids none (some depth) =
    from_lines stable depth allowed_ids none limit
from_stable stable limit allowed_ids (some pinned) (some depth) =
    if finer_than_lines pinned (keys (aliases_by_line stable depth).aliases)
    then some (fixed_tags stable allowed_ids pinned limit)
    else from_lines stable depth allowed_ids (some pinned) limit

-- `select_tags`; `none` is a failed assertion.
unfoldable pub select_tags : List TagRef → ℕ → Option (List ℕ) → Option Text → Option (List TagRef)
unfolding most_recent from_stable
select_tags tags limit allowed_ids pinned =
    let linux = exclude_windows_only tags in
    let stable = exclude_prerelease linux in
    if is_nil stable
    then some (most_recent linux allowed_ids limit)
    else from_stable stable limit allowed_ids pinned (line_depth stable)

-- `line in {_line_of(ref.tag, depth) for ref in chosen}`
is_chosen_line : Text → ℕ → List TagRef → Bool
is_chosen_line line depth chosen =
    any (λ ref. option_beq (some line) (line_of ref.tag depth)) chosen

stale_lines : List TagRef → Text → List TagRef → Option ℕ → List Text
unfolding is_chosen_line
stale_lines stable pinned chosen none = []
stale_lines stable pinned chosen (some depth) =
    let b = aliases_by_line stable depth in
    sort text_leb (
      filter
        (λ line.
          not (elem line (supported (alias_pushes b)))
          && extends_version line pinned
          && is_chosen_line line depth chosen)
        (keys b.aliases))

-- `stale_pinned_lines`
unfoldable pub stale_pinned_lines : List TagRef → Text → List TagRef → List Text
unfolding stale_lines
stale_pinned_lines tags pinned chosen =
    let stable = exclude_prerelease (exclude_windows_only tags) in
    stale_lines stable pinned chosen (line_depth stable)
