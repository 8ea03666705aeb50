-- ===== src/TagSelect/Order/Members.antt =====
-- search/tagselect.py: a predicate of all tags given holds of the tags folded, grouped and picked.
use whatfrom.Prelude.{
  ℕ, zero, suc, ◌≡◌, refl, inl, inr, Option, none, some, List, [], ◌∷◌, All, All-append, All-filter,
  OnSome, Bool-cases, Option-cases, ltb, length,
}
use whatfrom.Prelude.Eq.{Text, text_eq, nat_eq}
use whatfrom.Prelude.Dict.{
  Dict, values, lookup, append_to, All-values-insert, Entries, Entries-append_to, Entries-lookup,
}
use whatfrom.Prelude.Sort.{All-sort}
use whatfrom.TagSelect.Names.{TagRef}
use whatfrom.TagSelect.Lines.{line_of}
use whatfrom.TagSelect.Order.{
  name_leb, Folded, keep_over, keep_best, fold_ref, fold_refs, fold_by_digest, by_recent_push,
  by_line, in_lines, ordered_groups, groups_of, group_lines, pop_first, pop_round, more_to_pick,
  pop_rounds, interleave,
}

module _ {ℓ} (P : TagRef → Type ℓ) where
  record AllFolded (f : Folded) : Type ℓ where
    best : All P (values f.best)
    unknown : All P f.unknown

  All-keep_over :
      (current : Option TagRef) (d : Text) (ref : TagRef) (best : Dict Text TagRef)
      → P ref
      → All P (values best)
      → All P (values (keep_over current d ref best))
  unfolding keep_over
  All-keep_over none d ref best h a = All-values-insert P d ref best h a
  All-keep_over (some current) d ref best h a = elim (Bool-cases (name_leb current ref)) [
    | inl q ↦ rw q a
    | inr q ↦ rw q (All-values-insert P d ref best h a)
  ]

  All-keep_best :
      (d : Text) (ref : TagRef) (best : Dict Text TagRef)
      → P ref
      → All P (values best)
      → All P (values (keep_best d ref best))
  unfolding keep_best
  All-keep_best d ref best h a = All-keep_over (lookup d best) d ref best h a

  All-fold_ref :
      (d : Option Text) (ref : TagRef) (f : Folded)
      → P ref
      → AllFolded f
      → AllFolded (fold_ref d ref f)
  unfolding fold_ref
  All-fold_ref none ref f h a = record {
    best = a.best;
    unknown = All-append P f.unknown (ref ∷ []) a.unknown (h, tt);
  }
  All-fold_ref (some d) ref f h a = record {
    best = All-keep_best d ref f.best h a.best;
    unknown = a.unknown;
  }

  All-fold_refs :
      (refs : List TagRef) (f : Folded) → All P refs → AllFolded f → AllFolded (fold_refs refs f)
  unfolding fold_refs
  All-fold_refs [] f h a = a
  All-fold_refs (ref ∷ refs) f h a =
      All-fold_refs refs (fold_ref ref.manifest_digest ref f) h.1
        (All-fold_ref ref.manifest_digest ref f h.0 a)

  pub All-fold_by_digest : (refs : List TagRef) → All P refs → All P (fold_by_digest refs)
  unfolding fold_by_digest
  All-fold_by_digest refs h =
      let f : Folded = record { best = []; unknown = [] } in
      let a : AllFolded (fold_refs refs f) =
        All-fold_refs refs f h (record { best = tt; unknown = tt }) in
      All-append P (values (fold_refs refs f).best) (fold_refs refs f).unknown a.best a.unknown

  pub All-by_recent_push : (refs : List TagRef) → All P refs → All P (by_recent_push refs)
  unfolding by_recent_push
  All-by_recent_push refs h =
      All-append P _ _ (All-sort P _ _ (All-sort P _ _ (All-filter P _ refs h)))
        (All-sort P _ _ (All-filter P _ refs h))

  abbrev AllGroups : Dict Text (List TagRef) → Type ℓ
  AllGroups = Entries (λ _ r. P r)

  All-in_lines :
      (d : Dict Text (List TagRef)) (lines : List Text)
      → AllGroups d
      → All (All P) (in_lines d lines)
  unfolding in_lines
  All-in_lines d [] a = tt
  All-in_lines d (line ∷ lines) a =
      (All-sort P name_leb _ (Entries-lookup (λ _ r. P r) line d a), All-in_lines d lines a)

  All-by_line :
      (refs : List TagRef) (depth : ℕ) (d : Dict Text (List TagRef))
      → All P refs
      → AllGroups d
      → OnSome AllGroups (by_line refs depth d)
  unfolding by_line
  All-by_line [] depth d h a = a
  All-by_line (ref ∷ refs) depth d h a = elim (Option-cases (line_of ref.tag depth)) [
    | inl q ↦ rw (q, by_line) tt
    | inr (line, q) ↦
        rw (q, by_line)
          (All-by_line refs depth (append_to line ref d) h.1
            (Entries-append_to (λ _ r. P r) line ref d h.0 a))
  ]

  All-groups_of :
      (o : Option (Dict Text (List TagRef)))
      → OnSome AllGroups o
      → OnSome (All (All P)) (groups_of o)
  unfolding groups_of
  All-groups_of none h = tt
  All-groups_of (some d) h = All-in_lines d _ h

  pub All-group_lines :
      (refs : List TagRef) (depth : ℕ) → All P refs → OnSome (All (All P)) (group_lines refs depth)
  unfolding group_lines
  All-group_lines refs depth h =
      All-groups_of (by_line refs depth []) (All-by_line refs depth [] h tt)

  All-pop_first :
      (limit : ℕ) (picked queue : List TagRef)
      → All P picked
      → All P queue
      → All P (pop_first limit picked queue).0 × All P (pop_first limit picked queue).1
  unfolding pop_first
  All-pop_first limit picked [] a h = (a, tt)
  All-pop_first limit picked (ref ∷ queue) a h = elim (Bool-cases (ltb (length picked) limit)) [
    | inl q ↦ rw q (All-append P picked (ref ∷ []) a (h.0, tt), h.1)
    | inr q ↦ rw q (a, h)
  ]

  All-pop_round :
      (limit : ℕ) (picked : List TagRef) (queues : List (List TagRef))
      → All P picked
      → All (All P) queues
      → All P (pop_round limit picked queues).0 × All (All P) (pop_round limit picked queues).1
  unfolding pop_round
  All-pop_round limit picked [] a h = (a, tt)
  All-pop_round limit picked (queue ∷ queues) a h =
      let (b, k) = All-pop_first limit picked queue a h.0 in
      let (c, l) = All-pop_round limit (pop_first limit picked queue).0 queues b h.1 in (c, (k, l))

  All-pop_rounds :
      (fuel limit : ℕ) (picked : List TagRef) (queues : List (List TagRef))
      → All P picked
      → All (All P) queues
      → All P (pop_rounds fuel limit picked queues)
  unfolding pop_rounds
  All-pop_rounds zero limit picked queues a h = a
  All-pop_rounds (suc fuel) limit picked queues a h =
      elim (Bool-cases (more_to_pick limit picked queues)) [
        | inl q ↦ rw q (
            let (b, k) = All-pop_round limit picked queues a h in All-pop_rounds fuel limit _ _ b k)
        | inr q ↦ rw q a
      ]

  pub All-interleave :
      (lines : List (List TagRef)) (limit : ℕ) → All (All P) lines → All P (interleave lines limit)
  unfolding interleave
  All-interleave lines limit h = All-pop_rounds limit limit [] lines tt h

-- A tag of some line at that depth.
abbrev pub HasLine : ℕ → TagRef → Type 0
HasLine depth r = (line : Text) × (line_of r.tag depth ≡ some line)

by_line-total :
    (refs : List TagRef) (depth : ℕ) (d : Dict Text (List TagRef))
    → All (HasLine depth) refs
    → (d' : Dict Text (List TagRef)) × (by_line refs depth d ≡ some d')
unfolding by_line
by_line-total [] depth d h = (d, refl)
by_line-total (ref ∷ refs) depth d h =
    let (d', e) = by_line-total refs depth (append_to h.0.0 ref d) h.1 in
    (d', rw (h.0.1, by_line) e)

-- The assertion of `_group_lines` holds where every tag has a line.
pub group_lines-total :
    (refs : List TagRef) (depth : ℕ)
    → All (HasLine depth) refs
    → (lines : List (List TagRef)) × (group_lines refs depth ≡ some lines)
unfolding group_lines
group_lines-total refs depth h =
    let (d, e) = by_line-total refs depth [] h in (ordered_groups d, rw e refl)
