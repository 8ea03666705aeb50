-- ===== src/TagSelect/Select/Members.antt =====
-- search/tagselect.py: what holds of all tags given holds of all tags chosen, with their lines.
use whatfrom.Prelude.{
  ℕ, ◌≡◌, inl, inr, true, false, Option, none, some, List, All, All-take, All-filter,
  All-filter_test, All-and, All-imp, All-of, OnSome, Bool-cases,
}
use whatfrom.Prelude.Eq.{Text, text_eq, nat_eq, elem}
use whatfrom.Prelude.Text.{is_nil}
use whatfrom.Prelude.Dict.{keys}
use whatfrom.Prelude.Sort.{All-sort}
use whatfrom.Versions.{extends_version}
use whatfrom.TagSelect.Names.{TagRef, allowed, exclude_windows_only, exclude_prerelease}
use whatfrom.TagSelect.Names.Excluded.{All-exclude_prerelease}
use whatfrom.TagSelect.Lines.{
  line_of, aliases_by_line, supported_lines, supported_aliases, finer_than_lines,
}
use whatfrom.TagSelect.Lines.Members.{supported_aliases-members}
use whatfrom.TagSelect.Order.{name_leb}
use whatfrom.TagSelect.Order.Members.{
  All-fold_by_digest, All-by_recent_push, All-group_lines, All-interleave,
}
use whatfrom.TagSelect.Select.{
  most_recent, in_some_line, turns, from_aliases, from_lines, fixed_tags, from_stable, select_tags,
}

-- Every tag is allowed where no set of ids is given.
abbrev pub IsAllowed : Option (List ℕ) → TagRef → Type 0
IsAllowed none r = Unit
IsAllowed (some ids) r = elem r.id ids ≡ true

-- The line of the tag is supported, or pinned.
abbrev pub IsOnLine : List TagRef → ℕ → Option Text → TagRef → Type 0
IsOnLine stable depth pinned r =
    in_some_line (supported_lines stable depth pinned) (line_of r.tag depth) ≡ true

module _ {ℓ} (P : TagRef → Type ℓ) where
  All-turns :
      (lines : Option (List (List TagRef))) (limit : ℕ)
      → OnSome (All (All P)) lines
      → OnSome (All P) (turns lines limit)
  unfolding turns
  All-turns none limit h = tt
  All-turns (some lines) limit h = All-interleave P lines limit h

module _ {ℓ} (P : TagRef → Type ℓ) (ids : Option (List ℕ)) where
  abbrev Chosen : TagRef → Type ℓ
  Chosen r = P r × IsAllowed ids r

module _ {ℓ} (P : TagRef → Type ℓ) where
  pub All-allowed :
      (refs : List TagRef) (ids : Option (List ℕ)) → All P refs → All P (allowed refs ids)
  unfolding allowed
  All-allowed refs none a = a
  All-allowed refs (some ids) a = All-filter P (λ ref. elem ref.id ids) refs a

  allowed-members :
      (refs : List TagRef) (ids : Option (List ℕ))
      → All P refs
      → All (Chosen P ids) (allowed refs ids)
  unfolding allowed
  allowed-members refs none a = All-imp (λ r h. (h, tt)) refs a
  allowed-members refs (some ids) a =
      All-and _ _ _ (All-filter P (λ ref. elem ref.id ids) refs a) (All-filter_test _ refs)

  most_recent-members :
      (refs : List TagRef) (ids : Option (List ℕ)) (limit : ℕ)
      → All P refs
      → All (Chosen P ids) (most_recent refs ids limit)
  unfolding most_recent
  most_recent-members refs ids limit h =
      All-take _ limit _
        (All-by_recent_push _ _ (All-fold_by_digest _ _ (allowed-members refs ids h)))

  -- The tags of a finer version all extend it.
  abbrev Extending : Text → Option (List ℕ) → TagRef → Type ℓ
  Extending pinned ids r = Chosen P ids r × (extends_version pinned r.tag ≡ true)

  fixed_tags-members :
      (refs : List TagRef) (ids : Option (List ℕ)) (pinned : Text) (limit : ℕ)
      → All P refs
      → All (Extending pinned ids) (fixed_tags refs ids pinned limit)
  unfolding fixed_tags
  fixed_tags-members refs ids pinned limit h = All-take _ limit _ (
      All-sort _ name_leb _ (
        All-fold_by_digest _ _ (
          All-and _ _ _ (All-filter _ _ _ (allowed-members refs ids h))
            (All-filter_test (λ ref. extends_version pinned ref.tag) (allowed refs ids)))))

  from_aliases-members :
      (kept : List TagRef) (depth : ℕ) (ids : Option (List ℕ)) (limit : ℕ)
      → All P kept
      → OnSome (All (Chosen P ids)) (from_aliases kept depth ids limit)
  unfolding from_aliases
  from_aliases-members kept depth ids limit h =
      All-turns _ _ limit
        (All-group_lines _ _ depth (All-fold_by_digest _ _ (allowed-members kept ids h)))

module _ {ℓ} (P : TagRef → Type ℓ) where
  -- The predicate, with the line.
  abbrev pub OnLine : List TagRef → ℕ → Option Text → TagRef → Type ℓ
  OnLine stable depth pinned r = P r × IsOnLine stable depth pinned r

  from_lines-members :
      (stable : List TagRef) (depth : ℕ) (ids : Option (List ℕ)) (pinned : Option Text) (limit : ℕ)
      → All P stable
      → OnSome
          (All (Chosen (OnLine stable depth pinned) ids))
          (from_lines stable depth ids pinned limit)
  unfolding from_lines
  from_lines-members stable depth ids pinned limit h =
      elim (Bool-cases (is_nil (supported_aliases stable depth pinned))) [
        | inl q ↦ rw q (
            most_recent-members _ _ ids limit
              (All-and _ _ _ (All-filter P _ stable h) (All-filter_test _ stable)))
        | inr q ↦ rw q (
            from_aliases-members _ _ depth ids limit (
              All-imp (λ r k. (k.2.0, rw k.2.1 k.1)) _
                (supported_aliases-members P depth stable pinned h)))
      ]

  weaken :
      (stable : List TagRef) (depth : ℕ) (pinned : Option Text) (ids : Option (List ℕ))
      (o : Option (List TagRef))
      → OnSome (All (Chosen (OnLine stable depth pinned) ids)) o
      → OnSome (All (Chosen P ids)) o
  weaken stable depth pinned ids none h = tt
  weaken stable depth pinned ids (some refs) h = All-imp (λ r k. (k.0.0, k.1)) refs h

  from_stable-members :
      (stable : List TagRef) (limit : ℕ) (ids : Option (List ℕ)) (pinned : Option Text)
      (depth : Option ℕ)
      → All P stable
      → OnSome (All (Chosen P ids)) (from_stable stable limit ids pinned depth)
  unfolding from_stable
  from_stable-members stable limit ids pinned none h = most_recent-members P stable ids limit h
  from_stable-members stable limit ids none (some depth) h =
      weaken _ _ _ _ _ (from_lines-members stable depth ids none limit h)
  from_stable-members stable limit ids (some p) (some depth) h =
      elim (Bool-cases (finer_than_lines p (keys (aliases_by_line stable depth).aliases))) [
        | inl q ↦ rw q (All-imp (λ r k. k.0) _ (fixed_tags-members P stable ids p limit h))
        | inr q ↦ rw q (weaken _ _ _ _ _ (from_lines-members stable depth ids (some p) limit h))
      ]

  -- What holds of every tag that is not for Windows only holds of every tag chosen, and every tag
  -- chosen is allowed.
  pub select_tags-members :
      (tags : List TagRef) (limit : ℕ) (ids : Option (List ℕ)) (pinned : Option Text)
      → All P (exclude_windows_only tags)
      → OnSome (All (Chosen P ids)) (select_tags tags limit ids pinned)
  unfolding select_tags
  select_tags-members tags limit ids pinned h =
      elim (Bool-cases (is_nil (exclude_prerelease (exclude_windows_only tags)))) [
        | inl q ↦ rw q (most_recent-members P _ ids limit h)
        | inr q ↦ rw q (from_stable-members _ limit ids pinned _ (All-exclude_prerelease P _ h))
      ]

  -- With a stable tag in the repository it is enough that it holds of every stable tag.
  pub select_tags-stable :
      (tags : List TagRef) (limit : ℕ) (ids : Option (List ℕ)) (pinned : Option Text)
      → is_nil (exclude_prerelease (exclude_windows_only tags)) ≡ false
      → All P (exclude_prerelease (exclude_windows_only tags))
      → OnSome (All (Chosen P ids)) (select_tags tags limit ids pinned)
  unfolding select_tags
  select_tags-stable tags limit ids pinned q h = rw q (from_stable-members _ limit ids pinned _ h)

pub fixed_tags-IsPinned :
    (refs : List TagRef) (ids : Option (List ℕ)) (pinned : Text) (limit : ℕ)
    → All
        (λ r. (extends_version pinned r.tag ≡ true) × IsAllowed ids r)
        (fixed_tags refs ids pinned limit)
fixed_tags-IsPinned refs ids pinned limit =
    All-imp (λ r k. (k.1, k.0.1)) _
      (fixed_tags-members (λ _. Unit {0}) refs ids pinned limit
        (All-of (λ _. Unit {0}) (λ r. tt) refs))

pub from_lines-lines :
    (stable : List TagRef) (depth : ℕ) (ids : Option (List ℕ)) (pinned : Option Text) (limit : ℕ)
    → OnSome
        (All (λ r. IsOnLine stable depth pinned r × IsAllowed ids r))
        (from_lines stable depth ids pinned limit)
from_lines-lines stable depth ids pinned limit = drop_unit _ (
    from_lines-members (λ _. Unit {0}) stable depth ids pinned limit
      (All-of (λ _. Unit {0}) (λ r. tt) stable))
  where
    drop_unit :
        (o : Option (List TagRef))
        → OnSome (All (λ r. (Unit {0} × IsOnLine stable depth pinned r) × IsAllowed ids r)) o
        → OnSome (All (λ r. IsOnLine stable depth pinned r × IsAllowed ids r)) o
    drop_unit none h = tt
    drop_unit (some refs) h = All-imp (λ r k. (k.0.1, k.1)) refs h
