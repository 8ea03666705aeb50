-- ===== src/TagSelect/Lines.antt =====
-- search/tagselect.py: release lines, their aliases, and which of them are still supported.
pub mod Members
pub mod Support
use whatfrom.Prelude.{
  ℕ, zero, suc, ◌+◌, ◌*◌, ◌==◌, max, Bool, true, false, not, ◌&&◌, ◌||◌, Option, none, some, List,
  [], ◌∷◌, ◌++◌, map, if◌then◌else◌, ltb, leb, length, take, filter, any,
}
use whatfrom.Prelude.Eq.{Text, text_eq, text_beq, nat_eq, elem, dedupe}
use whatfrom.Prelude.Text.{
  codes, is_digit, starts_digit, starts_with, drop, split, join, text_leb, is_nil,
}
use whatfrom.Prelude.Dict.{Dict, keys, values, lookup, insert, set_default, append_to, or_nil}
use whatfrom.Prelude.Sort.{sort}
use whatfrom.Versions.{extends_version}
use whatfrom.TagSelect.Names.{TagRef}

-- 60 days.
abbrev pub support_gap : ℕ
support_gap = 60 * 24 * 3600 * 1000000

-- What `\d*(?:\.\d+)*` matches, from inside a number.
version_rest : Text → Text
version_rest [] = []
version_rest (c ∷ t) =
    let rest = version_rest t in
    if is_digit c then c ∷ rest else if c == b'.' && starts_digit t then c ∷ rest else []

-- `VERSION.match(tag)`, its group 0.
unfoldable pub match_version : Text → Option Text
unfolding version_rest
match_version tag = if starts_digit tag then some (version_rest tag) else none

-- `_line_of`
line_of_parts : List Text → ℕ → Option Text
line_of_parts parts depth =
    if ltb (length parts) depth then none else some (join b'.' (take depth parts))

line_of_match : Option Text → ℕ → Option Text
unfolding line_of_parts
line_of_match none depth = none
line_of_match (some version) depth = line_of_parts (split b'.' version) depth

unfoldable pub line_of : Text → ℕ → Option Text
unfolding match_version line_of_match
line_of tag depth = line_of_match (match_version tag) depth

-- `_is_alias`: `rest` is what follows `line + "-"`.
unfoldable pub is_alias : Text → Text → Bool
is_alias tag line =
    if text_beq tag line
    then true
    else if starts_with (line ++ codes "-") tag
    then (let rest = drop (length line + 1) tag in not (is_nil rest) && not (starts_digit rest))
    else false

-- The inner loop of `_line_depth`: the alias lines of a depth.
alias_line : TagRef → ℕ → List Text
alias_line ref depth = elim (line_of ref.tag depth) [
  | none ↦ []
  | some line ↦ if is_alias ref.tag line then line ∷ [] else []
]

unfoldable pub alias_lines : List TagRef → ℕ → List Text
unfolding alias_line
alias_lines [] depth = []
alias_lines (ref ∷ tags) depth = alias_line ref depth ++ alias_lines tags depth

-- The first depth that passes.
first_depth : (ℕ → Bool) → List ℕ → Option ℕ
first_depth p [] = none
first_depth p (d ∷ ds) = if p d then some d else first_depth p ds

-- `_line_depth`, with `MAX_LINE_DEPTH` 3: two lines or more at depth 1 or 2, else any line at 1 to 3.
unfoldable pub line_depth : List TagRef → Option ℕ
unfolding alias_lines first_depth
line_depth tags =
    elim (first_depth (λ d. leb 2 (length (dedupe (alias_lines tags d)))) (1 ∷ 2 ∷ [])) [
      | some d ↦ some d
      | none ↦ first_depth (λ d. not (is_nil (alias_lines tags d))) (1 ∷ 2 ∷ 3 ∷ [])
    ]

-- The two dicts of `_aliases_by_line`.
pub record ByLine : Type 0 where
  pub aliases : Dict Text (List TagRef)
  pub latest_push : Dict Text (Option ℕ)

-- `latest_push.get(line)`: a missing line and an unknown time are both `None`.
abbrev pub push_of : Text → Dict Text (Option ℕ) → Option ℕ
push_of line d = elim (lookup line d) [ none ↦ none | some pushed ↦ pushed ]

note_push : Text → Option ℕ → Dict Text (Option ℕ) → Dict Text (Option ℕ)
note_push line none d = set_default line none d
note_push line (some pushed) d = elim (push_of line d) [
  | none ↦ insert line (some pushed) d
  | some current ↦ if ltb current pushed then insert line (some pushed) d else d
]

note_ref : Option Text → TagRef → ByLine → ByLine
unfolding note_push
note_ref none ref b = b
note_ref (some line) ref b = record {
  aliases = if is_alias ref.tag line then append_to line ref b.aliases else b.aliases;
  latest_push = note_push line ref.last_pushed_at b.latest_push;
}

collect_lines : List TagRef → ℕ → ByLine → ByLine
unfolding note_ref
collect_lines [] depth b = b
collect_lines (ref ∷ tags) depth b =
    collect_lines tags depth (note_ref (line_of ref.tag depth) ref b)

-- `_aliases_by_line`
unfoldable pub aliases_by_line : List TagRef → ℕ → ByLine
unfolding collect_lines
aliases_by_line tags depth = collect_lines tags depth (record { aliases = []; latest_push = [] })

-- The known times among the values.
known_times : List (Option ℕ) → List ℕ
known_times [] = []
known_times (none ∷ vs) = known_times vs
known_times (some t ∷ vs) = t ∷ known_times vs

-- `max(known)` of a list that is not empty.
newest_of : ℕ → List ℕ → ℕ
newest_of t [] = t
newest_of t (u ∷ ts) = newest_of (max t u) ts

-- `newest - pushed <= SUPPORT_GAP`, for a time that is known. A negative difference passes too.
abbrev pub within_gap : ℕ → Option ℕ → Bool
within_gap newest none = false
within_gap newest (some pushed) = leb newest (pushed + support_gap)

supported_since : List ℕ → Dict Text (Option ℕ) → List Text
unfolding newest_of
supported_since [] latest = keys latest
supported_since (t ∷ ts) latest = keys (filter (λ e. within_gap (newest_of t ts) e.1) latest)

-- `_supported`
unfoldable pub supported : Dict Text (Option ℕ) → List Text
unfolding supported_since known_times
supported latest = supported_since (known_times (values latest)) latest

-- `{line: latest_push.get(line) for line in aliases}`
abbrev pub alias_pushes : ByLine → Dict Text (Option ℕ)
alias_pushes b = map (λ line. (line, push_of line b.latest_push)) (keys b.aliases)

pinned_lines : List Text → Option Text → List Text
pinned_lines lines none = []
pinned_lines lines (some pinned) = filter (λ line. extends_version line pinned) lines

-- `_supported_lines`, as a set.
unfoldable pub supported_lines : List TagRef → ℕ → Option Text → List Text
unfolding aliases_by_line supported pinned_lines
supported_lines tags depth pinned =
    let b = aliases_by_line tags depth in
    dedupe (supported (alias_pushes b) ++ pinned_lines (keys b.aliases) pinned)

-- `_drop_stale_variants`
unfoldable pub drop_stale_variants : List TagRef → Option ℕ → List TagRef
drop_stale_variants refs none = refs
drop_stale_variants refs (some latest) = filter (λ ref. within_gap latest ref.last_pushed_at) refs

fresh_aliases : ByLine → List Text → List TagRef
unfolding drop_stale_variants
fresh_aliases b [] = []
fresh_aliases b (line ∷ lines) =
    drop_stale_variants (or_nil (lookup line b.aliases)) (push_of line b.latest_push)
    ++ fresh_aliases b lines

-- `_supported_aliases`. Every supported line is a key of `aliases`: `supported_lines-keys`.
unfoldable pub supported_aliases : List TagRef → ℕ → Option Text → List TagRef
unfolding fresh_aliases supported_lines aliases_by_line
supported_aliases tags depth pinned =
    fresh_aliases (aliases_by_line tags depth) (sort text_leb (supported_lines tags depth pinned))

-- `_finer_than_lines`
unfoldable pub finer_than_lines : Text → List Text → Bool
finer_than_lines pinned lines =
    not (elem pinned lines) && any (λ line. extends_version line pinned) lines
