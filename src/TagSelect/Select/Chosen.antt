-- ===== src/TagSelect/Select/Chosen.antt =====
-- search/tagselect.py: what `select_tags` promises of the tags that it chooses.
use mathlib.Core.List.{Memᴰ}
use whatfrom.Prelude.{
  ℕ, ◌≡◌, ◌≤◌, refl, inl, inr, Bool, true, false, Option, none, some, List, [], ◌∷◌, arith, filter,
  All, All-imp, All-and, OnSome, Bool-cases, length, length-take-le,
}
use whatfrom.Prelude.Eq.{Text}
use whatfrom.Prelude.Text.{is_nil}
use whatfrom.Prelude.Dict.{keys}
use whatfrom.Prelude.Sort.{sort, total, total-take-le, total-sort}
use whatfrom.Versions.{extends_version}
use whatfrom.TagSelect.Names.{
  TagRef, is_windows_only, allowed, exclude_windows_only, exclude_prerelease,
}
use whatfrom.TagSelect.Names.Excluded.{
  IsClear, is_unstable, exclude_windows_only-IsClear, exclude_prerelease-IsClear,
  All-exclude_windows_only,
}
use whatfrom.TagSelect.Lines.{line_depth, aliases_by_line, supported_aliases, finer_than_lines}
use whatfrom.TagSelect.Order.{name_leb, fold_by_digest, by_recent_push}
use whatfrom.TagSelect.Order.Digests.{of_digest, total-fold_by_digest-le}
use whatfrom.TagSelect.Order.Turns.{total_of, total-interleave-le, length-interleave}
use whatfrom.TagSelect.Order.Groups.{total-group_lines, total-by_recent_push}
use whatfrom.TagSelect.Select.{
  most_recent, turns, from_aliases, from_lines, fixed_tags, from_stable, select_tags,
}
use whatfrom.TagSelect.Select.Members.{
  IsAllowed, IsOnLine, from_lines-lines, fixed_tags-IsPinned, select_tags-members,
  select_tags-stable,
}
use whatfrom.TagSelect.Select.Total.{select_tags-Returns}

-- No more than the limit, and no known digest twice.
abbrev pub Fits : ℕ → List TagRef → Type 0
Fits limit out = (length out ≤ limit) × ((d : Text) → total (of_digest d) out ≤ 1)

most_recent-Fits :
    (refs : List TagRef) (ids : Option (List ℕ)) (limit : ℕ)
    → Fits limit (most_recent refs ids limit)
unfolding most_recent
most_recent-Fits refs ids limit =
    let folded : List TagRef = fold_by_digest (allowed refs ids) in
    (
      length-take-le limit (by_recent_push folded),
      λ d. omega (
        arith,
        total-take-le (of_digest d) limit (by_recent_push folded),
        total-by_recent_push (of_digest d) folded,
        total-fold_by_digest-le d (allowed refs ids),
      ),
    )

fixed_tags-Fits :
    (refs : List TagRef) (ids : Option (List ℕ)) (pinned : Text) (limit : ℕ)
    → Fits limit (fixed_tags refs ids pinned limit)
unfolding fixed_tags
fixed_tags-Fits refs ids pinned limit =
    let fixed : List TagRef = filter (λ ref. extends_version pinned ref.tag) (allowed refs ids) in
    (
      length-take-le limit (sort name_leb (fold_by_digest fixed)),
      λ d. omega (
        arith,
        total-take-le (of_digest d) limit (sort name_leb (fold_by_digest fixed)),
        total-sort (of_digest d) name_leb (fold_by_digest fixed),
        total-fold_by_digest-le d fixed,
      ),
    )

turns-Fits :
    (lines : Option (List (List TagRef))) (limit : ℕ)
    → ((d : Text) → OnSome (λ l. total_of (of_digest d) l ≤ 1) lines)
    → OnSome (Fits limit) (turns lines limit)
unfolding turns
turns-Fits none limit h = tt
turns-Fits (some lines) limit h = (
  omega (arith, length-interleave lines limit),
  λ d. omega (arith, h d, total-interleave-le (of_digest d) lines limit),
)

OnSome-le :
    (w : TagRef → ℕ) (n : ℕ) (o : Option (List (List TagRef)))
    → n ≤ 1
    → OnSome (λ l. total_of w l ≡ n) o
    → OnSome (λ l. total_of w l ≤ 1) o
OnSome-le w n none k h = tt
OnSome-le w n (some l) k h = omega arith

from_aliases-Fits :
    (kept : List TagRef) (depth : ℕ) (ids : Option (List ℕ)) (limit : ℕ)
    → OnSome (Fits limit) (from_aliases kept depth ids limit)
unfolding from_aliases
from_aliases-Fits kept depth ids limit = turns-Fits _ limit (λ d.
    OnSome-le (of_digest d) _ _ (total-fold_by_digest-le d (allowed kept ids))
      (total-group_lines (of_digest d) (fold_by_digest (allowed kept ids)) depth))

from_lines-Fits :
    (stable : List TagRef) (depth : ℕ) (ids : Option (List ℕ)) (pinned : Option Text) (limit : ℕ)
    → OnSome (Fits limit) (from_lines stable depth ids pinned limit)
unfolding from_lines
from_lines-Fits stable depth ids pinned limit =
    elim (Bool-cases (is_nil (supported_aliases stable depth pinned))) [
      | inl q ↦ rw q (most_recent-Fits _ ids limit)
      | inr q ↦ rw q (from_aliases-Fits _ depth ids limit)
    ]

from_stable-Fits :
    (stable : List TagRef) (limit : ℕ) (ids : Option (List ℕ)) (pinned : Option Text)
    (depth : Option ℕ)
    → OnSome (Fits limit) (from_stable stable limit ids pinned depth)
unfolding from_stable
from_stable-Fits stable limit ids pinned none = most_recent-Fits stable ids limit
from_stable-Fits stable limit ids none (some depth) = from_lines-Fits stable depth ids none limit
from_stable-Fits stable limit ids (some p) (some depth) =
    elim (Bool-cases (finer_than_lines p (keys (aliases_by_line stable depth).aliases))) [
      | inl q ↦ rw q (fixed_tags-Fits stable ids p limit)
      | inr q ↦ rw q (from_lines-Fits stable depth ids (some p) limit)
    ]

select_tags-Fits :
    (tags : List TagRef) (limit : ℕ) (ids : Option (List ℕ)) (pinned : Option Text)
    → OnSome (Fits limit) (select_tags tags limit ids pinned)
unfolding select_tags
select_tags-Fits tags limit ids pinned =
    elim (Bool-cases (is_nil (exclude_prerelease (exclude_windows_only tags)))) [
      | inl q ↦ rw q (most_recent-Fits _ ids limit)
      | inr q ↦ rw q (from_stable-Fits _ limit ids pinned _)
    ]

-- A result, with what holds of it.
abbrev pub Returning {ℓ} : (List TagRef → Type ℓ) → Option (List TagRef) → Type ℓ
Returning P o = (out : List TagRef) × (o ≡ some out) × P out

returning {ℓ} :
    (P : List TagRef → Type ℓ) (o : Option (List TagRef))
    → (out : List TagRef) × (o ≡ some out)
    → OnSome P o
    → Returning P o
returning P o (out, e) h = (out, e, rw e at h)

-- `select_tags` returns on every input; it chooses `limit` tags at most, and of every known digest
-- one at most.
pub select_tags_limits :
    (tags : List TagRef) (limit : ℕ) (ids : Option (List ℕ)) (pinned : Option Text)
    → Returning (Fits limit) (select_tags tags limit ids pinned)
select_tags_limits tags limit ids pinned =
    returning _ _ (select_tags-Returns tags limit ids pinned)
      (select_tags-Fits tags limit ids pinned)

-- One of the tags given, clear of those for Windows only.
abbrev pub IsLinux : List TagRef → TagRef → Type 0
IsLinux tags r = Memᴰ r tags × IsClear is_windows_only tags r

All-mem : (tags : List TagRef) → All (λ r. Memᴰ r tags) tags
All-mem [] = tt
All-mem (r ∷ tags) = (Memᴰ.head refl, All-imp (λ s m. Memᴰ.tail m) tags (All-mem tags))

exclude_windows_only-IsLinux : (tags : List TagRef) → All (IsLinux tags) (exclude_windows_only tags)
exclude_windows_only-IsLinux tags =
    All-and _ _ _ (All-exclude_windows_only _ tags (All-mem tags))
      (exclude_windows_only-IsClear tags)

-- Every tag that `select_tags` chooses is one of the tags given and is allowed; it is not named
-- for Windows only and has the digest of no tag that is.
pub select_tags-IsLinux :
    (tags : List TagRef) (limit : ℕ) (ids : Option (List ℕ)) (pinned : Option Text)
    → Returning (All (λ r. IsLinux tags r × IsAllowed ids r)) (select_tags tags limit ids pinned)
select_tags-IsLinux tags limit ids pinned =
    returning _ _ (select_tags-Returns tags limit ids pinned)
      (select_tags-members (IsLinux tags) tags limit ids pinned (exclude_windows_only-IsLinux tags))

-- Where the repository has a stable tag, `select_tags` chooses no pre-release and no date snapshot,
-- and no tag of the digest of one, whatever tags are allowed.
pub select_tags_no_prerelease :
    (tags : List TagRef) (limit : ℕ) (ids : Option (List ℕ)) (pinned : Option Text)
    → is_nil (exclude_prerelease (exclude_windows_only tags)) ≡ false
    → Returning
        (All (λ r. IsClear is_unstable (exclude_windows_only tags) r × IsAllowed ids r))
        (select_tags tags limit ids pinned)
select_tags_no_prerelease tags limit ids pinned stable =
    returning _ _ (select_tags-Returns tags limit ids pinned) (
      select_tags-stable (IsClear is_unstable (exclude_windows_only tags)) tags limit ids pinned
        stable (exclude_prerelease-IsClear (exclude_windows_only tags)))

-- Whether a version is pinned that is finer than the lines of the tags.
abbrev pub is_finer : List TagRef → ℕ → Option Text → Bool
is_finer stable depth none = false
is_finer stable depth (some p) = finer_than_lines p (keys (aliases_by_line stable depth).aliases)

-- The tag extends the pinned version.
abbrev pub IsPinned : Option Text → TagRef → Type 0
IsPinned none r = ⊥
IsPinned (some p) r = extends_version p r.tag ≡ true

from_stable-lines :
    (stable : List TagRef) (limit : ℕ) (ids : Option (List ℕ)) (pinned : Option Text) (depth : ℕ)
    → is_finer stable depth pinned ≡ false
    → OnSome
        (All (λ r. IsOnLine stable depth pinned r × IsAllowed ids r))
        (from_stable stable limit ids pinned (some depth))
unfolding from_stable
from_stable-lines stable limit ids none depth f = from_lines-lines stable depth ids none limit
from_stable-lines stable limit ids (some p) depth f =
    rw f (from_lines-lines stable depth ids (some p) limit)

from_stable-IsPinned :
    (stable : List TagRef) (limit : ℕ) (ids : Option (List ℕ)) (pinned : Option Text) (depth : ℕ)
    → is_finer stable depth pinned ≡ true
    → OnSome
        (All (λ r. IsPinned pinned r × IsAllowed ids r))
        (from_stable stable limit ids pinned (some depth))
unfolding from_stable
from_stable-IsPinned stable limit ids none depth f = cc
from_stable-IsPinned stable limit ids (some p) depth f =
    rw f (fixed_tags-IsPinned stable ids p limit)

-- The stable tags of a repository.
abbrev pub stable_tags : List TagRef → List TagRef
stable_tags tags = exclude_prerelease (exclude_windows_only tags)

-- Where the stable tags have lines and no finer version is pinned, every tag chosen is of a line
-- that is supported or pinned, also where its aliases are all stale.
pub select_tags_lines :
    (tags : List TagRef) (limit : ℕ) (ids : Option (List ℕ)) (pinned : Option Text) (depth : ℕ)
    → is_nil (stable_tags tags) ≡ false
    → line_depth (stable_tags tags) ≡ some depth
    → is_finer (stable_tags tags) depth pinned ≡ false
    → Returning
        (All (λ r. IsOnLine (stable_tags tags) depth pinned r × IsAllowed ids r))
        (select_tags tags limit ids pinned)
unfolding select_tags
select_tags_lines tags limit ids pinned depth n d f =
    returning _ _ (select_tags-Returns tags limit ids pinned)
      (rw (n, d) (from_stable-lines (stable_tags tags) limit ids pinned depth f))

-- Where a version finer than the lines is pinned, every tag chosen is that version or extends it.
pub select_tags-IsPinned :
    (tags : List TagRef) (limit : ℕ) (ids : Option (List ℕ)) (pinned : Option Text) (depth : ℕ)
    → is_nil (stable_tags tags) ≡ false
    → line_depth (stable_tags tags) ≡ some depth
    → is_finer (stable_tags tags) depth pinned ≡ true
    → Returning (All (λ r. IsPinned pinned r × IsAllowed ids r)) (select_tags tags limit ids pinned)
unfolding select_tags
select_tags-IsPinned tags limit ids pinned depth n d f =
    returning _ _ (select_tags-Returns tags limit ids pinned)
      (rw (n, d) (from_stable-IsPinned (stable_tags tags) limit ids pinned depth f))
