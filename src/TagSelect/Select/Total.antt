-- ===== src/TagSelect/Select/Total.antt =====
-- search/tagselect.py: `select_tags` always returns: the assertion of `_group_lines` holds.
use whatfrom.Prelude.{
  ℕ, ◌≡◌, refl, inl, inr, Option, none, some, List, All, All-imp, All-of, Bool-cases,
}
use whatfrom.Prelude.Eq.{Text}
use whatfrom.Prelude.Text.{is_nil}
use whatfrom.Prelude.Dict.{keys}
use whatfrom.TagSelect.Names.{TagRef, exclude_windows_only, exclude_prerelease}
use whatfrom.TagSelect.Lines.{aliases_by_line, supported_aliases, finer_than_lines}
use whatfrom.TagSelect.Lines.Members.{supported_aliases-members}
use whatfrom.TagSelect.Order.Members.{All-fold_by_digest, HasLine, group_lines-total}
use whatfrom.TagSelect.Select.{turns, from_aliases, from_lines, from_stable, select_tags}
use whatfrom.TagSelect.Select.Members.{All-allowed}

-- Some list comes back.
abbrev Returns : Option (List TagRef) → Type 0
Returns o = (out : List TagRef) × (o ≡ some out)

turns-Returns :
    (lines : Option (List (List TagRef))) (limit : ℕ)
    → (l : List (List TagRef)) × (lines ≡ some l)
    → Returns (turns lines limit)
unfolding turns
turns-Returns lines limit (l, e) = rw e (_, refl)

from_aliases-Returns :
    (kept : List TagRef) (depth : ℕ) (ids : Option (List ℕ)) (limit : ℕ)
    → All (HasLine depth) kept
    → Returns (from_aliases kept depth ids limit)
unfolding from_aliases
from_aliases-Returns kept depth ids limit h =
    turns-Returns _ limit
      (group_lines-total _ depth (All-fold_by_digest _ _ (All-allowed _ kept ids h)))

supported_aliases-HasLine :
    (stable : List TagRef) (depth : ℕ) (pinned : Option Text)
    → All (HasLine depth) (supported_aliases stable depth pinned)
supported_aliases-HasLine stable depth pinned =
    All-imp (λ r h. (h.0, h.2.1)) _
      (supported_aliases-members (λ _. Unit {0}) depth stable pinned
        (All-of (λ _. Unit {0}) (λ r. tt) stable))

from_lines-Returns :
    (stable : List TagRef) (depth : ℕ) (ids : Option (List ℕ)) (pinned : Option Text) (limit : ℕ)
    → Returns (from_lines stable depth ids pinned limit)
unfolding from_lines
from_lines-Returns stable depth ids pinned limit =
    elim (Bool-cases (is_nil (supported_aliases stable depth pinned))) [
      | inl q ↦ rw q (_, refl)
      | inr q ↦
          rw q
            (from_aliases-Returns _ depth ids limit (supported_aliases-HasLine stable depth pinned))
    ]

from_stable-Returns :
    (stable : List TagRef) (limit : ℕ) (ids : Option (List ℕ)) (pinned : Option Text)
    (depth : Option ℕ)
    → Returns (from_stable stable limit ids pinned depth)
unfolding from_stable
from_stable-Returns stable limit ids pinned none = (_, refl)
from_stable-Returns stable limit ids none (some depth) =
    from_lines-Returns stable depth ids none limit
from_stable-Returns stable limit ids (some p) (some depth) =
    elim (Bool-cases (finer_than_lines p (keys (aliases_by_line stable depth).aliases))) [
      | inl q ↦ rw q (_, refl)
      | inr q ↦ rw q (from_lines-Returns stable depth ids (some p) limit)
    ]

-- `select_tags` returns on every input: its assertion never fails.
pub select_tags-Returns :
    (tags : List TagRef) (limit : ℕ) (ids : Option (List ℕ)) (pinned : Option Text)
    → (out : List TagRef) × (select_tags tags limit ids pinned ≡ some out)
unfolding select_tags
select_tags-Returns tags limit ids pinned =
    elim (Bool-cases (is_nil (exclude_prerelease (exclude_windows_only tags)))) [
      | inl q ↦ rw q (_, refl)
      | inr q ↦ rw q (from_stable-Returns _ limit ids pinned _)
    ]
