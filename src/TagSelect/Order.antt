-- ===== src/TagSelect/Order.antt =====
-- search/tagselect.py: tags of one digest folded into one, and the orders in which tags are chosen.
pub mod Members
pub mod Digests
pub mod Turns
pub mod Groups
use whatfrom.Prelude.{
  ℕ, zero, suc, ◌+◌, ◌==◌, Bool, true, false, not, ◌&&◌, ◌||◌, Option, none, some, List, [], ◌∷◌,
  ◌++◌, map, if◌then◌else◌, ltb, leb, length, filter, any,
}
use whatfrom.Prelude.Eq.{Text, text_eq}
use whatfrom.Prelude.Text.{text_leb, split, digits_value, is_nil}
use whatfrom.Prelude.Dict.{Dict, keys, values, lookup, insert, append_to, or_nil}
use whatfrom.Prelude.Sort.{sort}
use whatfrom.TagSelect.Names.{TagRef}
use whatfrom.TagSelect.Lines.{line_of}

-- The order of the keys `(len(ref.tag), ref.tag)`.
abbrev pub name_leb : TagRef → TagRef → Bool
name_leb a b =
    ltb (length a.tag) (length b.tag) || (length a.tag == length b.tag && text_leb a.tag b.tag)

-- The `best` and `unknown` of `_fold_by_digest`.
pub record Folded : Type 0 where
  pub best : Dict Text TagRef
  pub unknown : List TagRef

keep_over : Option TagRef → Text → TagRef → Dict Text TagRef → Dict Text TagRef
keep_over none digest ref best = insert digest ref best
keep_over (some current) digest ref best =
    if name_leb current ref then best else insert digest ref best

keep_best : Text → TagRef → Dict Text TagRef → Dict Text TagRef
unfolding keep_over
keep_best digest ref best = keep_over (lookup digest best) digest ref best

fold_ref : Option Text → TagRef → Folded → Folded
unfolding keep_best
fold_ref none ref f = record f { unknown = f.unknown ++ ref ∷ [] }
fold_ref (some digest) ref f = record f { best = keep_best digest ref f.best }

fold_refs : List TagRef → Folded → Folded
unfolding fold_ref
fold_refs [] f = f
fold_refs (ref ∷ refs) f = fold_refs refs (fold_ref ref.manifest_digest ref f)

folded : Folded → List TagRef
folded f = values f.best ++ f.unknown

-- `_fold_by_digest`
unfoldable pub fold_by_digest : List TagRef → List TagRef
unfolding fold_refs folded
fold_by_digest refs = folded (fold_refs refs (record { best = []; unknown = [] }))

abbrev is_dated : TagRef → Bool
is_dated ref = elim ref.last_pushed_at [ none ↦ false | some t ↦ true ]

abbrev pushed_at : TagRef → ℕ
pushed_at ref = elim ref.last_pushed_at [ none ↦ 0 | some t ↦ t ]

abbrev tag_leb : TagRef → TagRef → Bool
tag_leb a b = text_leb a.tag b.tag

-- `reverse=True` keeps the order of equal times.
abbrev recent_leb : TagRef → TagRef → Bool
recent_leb a b = leb (pushed_at b) (pushed_at a)

-- `_by_recent_push`
unfoldable pub by_recent_push : List TagRef → List TagRef
by_recent_push refs =
    sort recent_leb (sort tag_leb (filter is_dated refs))
    ++ sort tag_leb (filter (λ ref. not (is_dated ref)) refs)

-- Python's order of lists of numbers.
abbrev numbers_leb : List ℕ → List ℕ → Bool
numbers_leb [] t = true
numbers_leb (a ∷ s) [] = false
numbers_leb (a ∷ s) (b ∷ t) = ltb a b || (a == b && numbers_leb s t)

abbrev line_numbers : Text → List ℕ
line_numbers line = map (digits_value 0) (split b'.' line)

abbrev newer_line : Text → Text → Bool
newer_line a b = numbers_leb (line_numbers b) (line_numbers a)

-- The loop of `_group_lines`; `none` is the failed assertion.
by_line : List TagRef → ℕ → Dict Text (List TagRef) → Option (Dict Text (List TagRef))
by_line [] depth d = some d
by_line (ref ∷ refs) depth d = elim (line_of ref.tag depth) [
  | none ↦ none
  | some line ↦ by_line refs depth (append_to line ref d)
]

in_lines : Dict Text (List TagRef) → List Text → List (List TagRef)
in_lines d [] = []
in_lines d (line ∷ lines) = sort name_leb (or_nil (lookup line d)) ∷ in_lines d lines

ordered_groups : Dict Text (List TagRef) → List (List TagRef)
unfolding in_lines
ordered_groups d = in_lines d (sort newer_line (keys d))

groups_of : Option (Dict Text (List TagRef)) → Option (List (List TagRef))
unfolding ordered_groups
groups_of none = none
groups_of (some d) = some (ordered_groups d)

-- `_group_lines`
unfoldable pub group_lines : List TagRef → ℕ → Option (List (List TagRef))
unfolding by_line groups_of
group_lines refs depth = groups_of (by_line refs depth [])

-- `if queue and len(picked) < limit: picked.append(queue.pop(0))`
pop_first : ℕ → List TagRef → List TagRef → List TagRef × List TagRef
pop_first limit picked [] = (picked, [])
pop_first limit picked (ref ∷ queue) =
    if ltb (length picked) limit then (picked ++ ref ∷ [], queue) else (picked, ref ∷ queue)

-- One pass of the `for` over the queues.
pop_round : ℕ → List TagRef → List (List TagRef) → List TagRef × List (List TagRef)
unfolding pop_first
pop_round limit picked [] = (picked, [])
pop_round limit picked (queue ∷ queues) =
    let (picked', queue') = pop_first limit picked queue in
    let (picked'', queues') = pop_round limit picked' queues in (picked'', queue' ∷ queues')

-- The test of the `while`.
more_to_pick : ℕ → List TagRef → List (List TagRef) → Bool
more_to_pick limit picked queues = ltb (length picked) limit && any (λ q. not (is_nil q)) queues

-- The `while`, on fuel.
pop_rounds : ℕ → ℕ → List TagRef → List (List TagRef) → List TagRef
unfolding pop_round more_to_pick
pop_rounds zero limit picked queues = picked
pop_rounds (suc fuel) limit picked queues =
    let r = pop_round limit picked queues in
    let rest = pop_rounds fuel limit r.0 r.1 in
    if more_to_pick limit picked queues then rest else picked

-- `_interleave`: each round of the loop picks one tag at least, so `limit` rounds are enough.
unfoldable pub interleave : List (List TagRef) → ℕ → List TagRef
unfolding pop_rounds
interleave lines limit = pop_rounds limit limit [] lines
