-- ===== src/TagSelect/Order/Groups.antt =====
-- search/tagselect.py: `_group_lines` and `_by_recent_push` keep every tag, once.
use whatfrom.Prelude.{
  ℕ, ◌+◌, ◌≡◌, ◌∙◌, subst, refl, inl, inr, Bool, false, not, Option, none, some, List, [], ◌∷◌,
  arith, OnSome, Bool-cases, Option-cases, filter, if◌then◌else◌,
}
use whatfrom.Prelude.Eq.{Text, text_eq, text_beq, text_beq_iff}
use whatfrom.Prelude.Dict.{Dict, keys, values, lookup, append_to, or_nil}
use whatfrom.Prelude.Sort.{sort, total, total-append, total-sort}
use whatfrom.TagSelect.Names.{TagRef}
use whatfrom.TagSelect.Lines.{line_of}
use whatfrom.TagSelect.Order.{
  name_leb, is_dated, tag_leb, recent_leb, newer_line, by_recent_push, by_line, in_lines,
  ordered_groups, groups_of, group_lines,
}
use whatfrom.TagSelect.Order.Turns.{total_of}

-- No key stands twice.
abbrev KeysOnce : Dict Text (List TagRef) → Type 0
KeysOnce [] = Unit
KeysOnce ((k, xs) ∷ d) = (lookup k d ≡ none) × KeysOnce d

lookup-append_to-none :
    (k j : Text) (x : TagRef) (d : Dict Text (List TagRef))
    → text_beq k j ≡ false
    → lookup j d ≡ none
    → lookup j (append_to k x d) ≡ none
lookup-append_to-none k j x [] n h = rw n
lookup-append_to-none k j x ((i, xs) ∷ d) n h =
    ground
      (arith, text_beq_iff i k, text_beq_iff i j, text_beq_iff k j, lookup-append_to-none k j x d)

append_to-KeysOnce :
    (k : Text) (x : TagRef) (d : Dict Text (List TagRef)) → KeysOnce d → KeysOnce (append_to k x d)
append_to-KeysOnce k x [] h = (refl, tt)
append_to-KeysOnce k x ((j, xs) ∷ d) h = elim (Bool-cases (text_beq j k)) [
  | inl q ↦ rw q h
  | inr q ↦ rw q (
    lookup-append_to-none k j x d (ground (arith, text_beq_iff j k, text_beq_iff k j)) h.0,
    append_to-KeysOnce k x d h.1,
  )
]

module _ (w : TagRef → ℕ) where
  total-append_to :
      (k : Text) (x : TagRef) (d : Dict Text (List TagRef))
      → total_of w (values (append_to k x d)) ≡ total_of w (values d) + w x
  total-append_to k x [] = omega arith
  total-append_to k x ((j, xs) ∷ d) =
      ground (arith, total-append w xs (x ∷ []), total-append_to k x d)

  -- The weight of the list of a line.
  line_total : Dict Text (List TagRef) → Text → ℕ
  line_total d line = total w (or_nil (lookup line d))

  total-line_total-cons :
      (k : Text) (xs : List TagRef) (d : Dict Text (List TagRef)) (lines : List Text)
      → total (λ l. if text_beq k l then 1 else 0) lines ≡ 0
      → total (line_total ((k, xs) ∷ d)) lines ≡ total (line_total d) lines
  unfolding line_total
  total-line_total-cons k xs d [] h = refl
  total-line_total-cons k xs d (l ∷ lines) h = ground (arith, total-line_total-cons k xs d lines)

  absent_key :
      (k : Text) (d : Dict Text (List TagRef))
      → lookup k d ≡ none
      → total (λ l. if text_beq k l then 1 else 0) (keys d) ≡ 0
  absent_key k [] h = refl
  absent_key k ((j, xs) ∷ d) h = ground (arith, text_beq_iff j k, text_beq_iff k j, absent_key k d)

  -- Looking every key up gives every list once.
  total-keys :
      (d : Dict Text (List TagRef))
      → KeysOnce d
      → total (line_total d) (keys d) ≡ total_of w (values d)
  total-keys [] h = refl
  total-keys ((k, xs) ∷ d) h =
      let same : line_total ((k, xs) ∷ d) k ≡ total w xs =
        unfold line_total in ground (arith, text_beq_iff k k) in
      omega
        (arith, same, total-line_total-cons k xs d (keys d) (absent_key k d h.0), total-keys d h.1)

  total-in_lines :
      (d : Dict Text (List TagRef)) (lines : List Text)
      → total_of w (in_lines d lines) ≡ total (line_total d) lines
  unfolding in_lines line_total
  total-in_lines d [] = refl
  total-in_lines d (line ∷ lines) =
      omega (arith, total-sort w name_leb (or_nil (lookup line d)), total-in_lines d lines)

  total-ordered_groups :
      (d : Dict Text (List TagRef))
      → KeysOnce d
      → total_of w (ordered_groups d) ≡ total_of w (values d)
  unfolding ordered_groups
  total-ordered_groups d h =
      total-in_lines d (sort newer_line (keys d))
      ∙ total-sort (line_total d) newer_line (keys d)
      ∙ total-keys d h

  abbrev Grouped : ℕ → Dict Text (List TagRef) → Type 0
  Grouped n d = KeysOnce d × (total_of w (values d) ≡ n)

  by_line-Grouped :
      (refs : List TagRef) (depth n : ℕ) (d : Dict Text (List TagRef))
      → Grouped n d
      → OnSome (Grouped (n + total w refs)) (by_line refs depth d)
  unfolding by_line
  by_line-Grouped [] depth n d h = (h.0, omega (arith, h.1))
  by_line-Grouped (ref ∷ refs) depth n d h = elim (Option-cases (line_of ref.tag depth)) [
    | inl q ↦ rw (q, by_line) tt
    | inr (line, q) ↦
        let k : KeysOnce (append_to line ref d) = append_to-KeysOnce line ref d h.0 in
        let e : total_of w (values (append_to line ref d)) ≡ n + w ref =
          omega (arith, total-append_to line ref d, h.1) in
        let assoc : n + (w ref + total w refs) ≡ n + w ref + total w refs = omega arith in
        rw (q, by_line, assoc)
          (by_line-Grouped refs depth (n + w ref) (append_to line ref d) (k, e))
  ]

  groups_of-total :
      (n : ℕ) (o : Option (Dict Text (List TagRef)))
      → OnSome (Grouped n) o
      → OnSome (λ lines. total_of w lines ≡ n) (groups_of o)
  unfolding groups_of
  groups_of-total n none h = tt
  groups_of-total n (some d) h = total-ordered_groups d h.0 ∙ h.1

  -- Every tag stands in one group.
  pub total-group_lines :
      (refs : List TagRef) (depth : ℕ)
      → OnSome (λ lines. total_of w lines ≡ total w refs) (group_lines refs depth)
  unfolding group_lines
  total-group_lines refs depth =
      let zero_add : 0 + total w refs ≡ total w refs = omega arith in
      subst (λ n. OnSome (λ lines. total_of w lines ≡ n) (groups_of (by_line refs depth [])))
        zero_add
        (groups_of-total (0 + total w refs) (by_line refs depth [])
          (by_line-Grouped refs depth 0 [] (tt, refl)))

  total-split :
      (p : TagRef → Bool) (refs : List TagRef)
      → total w (filter p refs) + total w (filter (λ r. not (p r)) refs) ≡ total w refs
  total-split p [] = refl
  total-split p (r ∷ refs) = ground (arith, total-split p refs)

  -- Ordering by time keeps every tag.
  pub total-by_recent_push : (refs : List TagRef) → total w (by_recent_push refs) ≡ total w refs
  unfolding by_recent_push
  total-by_recent_push refs =
      let dated = filter is_dated refs in
      let undated = filter (λ r. not (is_dated r)) refs in
      omega (
        arith,
        total-append w (sort recent_leb (sort tag_leb dated)) (sort tag_leb undated),
        total-sort w recent_leb (sort tag_leb dated),
        total-sort w tag_leb dated,
        total-sort w tag_leb undated,
        total-split is_dated refs,
      )
