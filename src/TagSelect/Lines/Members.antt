-- ===== src/TagSelect/Lines/Members.antt =====
-- search/tagselect.py: a predicate of all tags given holds of the aliases of the supported lines.
use whatfrom.Prelude.{
  ℕ, ◌≡◌, refl, inl, inr, true, Option, none, some, List, [], ◌∷◌, arith, All, All-append,
  All-filter, All-imp, Bool-cases,
}
use whatfrom.Prelude.Eq.{Text, text_eq, nat_eq, elem, text_beq_iff, text_beq}
use whatfrom.Prelude.Text.{text_leb}
use whatfrom.Prelude.Dict.{Entries, Entries-append_to, Entries-lookup}
use whatfrom.Prelude.Sort.{any-sort}
use whatfrom.TagSelect.Names.{TagRef}
use whatfrom.TagSelect.Lines.{
  ByLine, note_ref, collect_lines, aliases_by_line, drop_stale_variants, fresh_aliases,
  supported_lines, supported_aliases, line_of, is_alias,
}

module _ {ℓ} (P : TagRef → Type ℓ) (depth : ℕ) where
  -- An alias of the line, with the predicate.
  abbrev pub AliasOf : Text → TagRef → Type ℓ
  AliasOf line r = P r × (line_of r.tag depth ≡ some line) × (is_alias r.tag line ≡ true)

  abbrev AliasesFit : ByLine → Type ℓ
  AliasesFit b = Entries AliasOf b.aliases

  note_ref-fits :
      (line : Option Text) (ref : TagRef) (b : ByLine)
      → line_of ref.tag depth ≡ line
      → P ref
      → AliasesFit b
      → AliasesFit (note_ref line ref b)
  unfolding note_ref
  note_ref-fits none ref b e h a = a
  note_ref-fits (some line) ref b e h a = elim (Bool-cases (is_alias ref.tag line)) [
    | inl q ↦ rw q (Entries-append_to AliasOf line ref b.aliases (h, e, q) a)
    | inr q ↦ rw q a
  ]

  collect_lines-fits :
      (refs : List TagRef) (b : ByLine)
      → All P refs
      → AliasesFit b
      → AliasesFit (collect_lines refs depth b)
  unfolding collect_lines
  collect_lines-fits [] b h a = a
  collect_lines-fits (ref ∷ refs) b h a =
      collect_lines-fits refs _ h.1 (note_ref-fits (line_of ref.tag depth) ref b refl h.0 a)

  -- Every list of aliases holds tags given that are aliases of its line.
  pub aliases_by_line-fits :
      (refs : List TagRef) → All P refs → AliasesFit (aliases_by_line refs depth)
  unfolding aliases_by_line
  aliases_by_line-fits refs h =
      collect_lines-fits refs (record { aliases = []; latest_push = [] }) h tt

  -- An alias of one of the lines, with the predicate.
  abbrev pub AliasAmong : List Text → TagRef → Type ℓ
  AliasAmong lines r = (line : Text) × (elem line lines ≡ true) × AliasOf line r

  drop_stale_variants-members :
      (Q : TagRef → Type ℓ) (refs : List TagRef) (latest : Option ℕ)
      → All Q refs
      → All Q (drop_stale_variants refs latest)
  unfolding drop_stale_variants
  drop_stale_variants-members Q refs none h = h
  drop_stale_variants-members Q refs (some t) h = All-filter Q _ refs h

  fresh_aliases-members :
      (b : ByLine) (lines : List Text)
      → AliasesFit b
      → All (AliasAmong lines) (fresh_aliases b lines)
  unfolding fresh_aliases
  fresh_aliases-members b [] a = tt
  fresh_aliases-members b (line ∷ lines) a =
      All-append _ _ _
        (All-imp (λ r h. (line, ground (arith, text_beq_iff line line), h)) _
          (drop_stale_variants-members _ _ _ (Entries-lookup AliasOf line b.aliases a)))
        (All-imp (λ r h. (h.0, ground (arith, h.1), h.2)) _ (fresh_aliases-members b lines a))

  -- Every supported alias is a tag given and an alias of a supported line.
  pub supported_aliases-members :
      (refs : List TagRef) (pinned : Option Text)
      → All P refs
      → All (AliasAmong (supported_lines refs depth pinned)) (supported_aliases refs depth pinned)
  unfolding supported_aliases
  supported_aliases-members refs pinned h =
      All-imp
        (λ r k. (
          k.0,
          rw (any-sort (λ x. text_beq k.0 x) text_leb (supported_lines refs depth pinned)) at k.1,
          k.2,
        ))
        _ (fresh_aliases-members (aliases_by_line refs depth) _ (aliases_by_line-fits refs h))
