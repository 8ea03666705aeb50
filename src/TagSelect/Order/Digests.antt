-- ===== src/TagSelect/Order/Digests.antt =====
-- search/tagselect.py: after `_fold_by_digest` no known digest stands twice.
use whatfrom.Prelude.{
  ℕ, ◌+◌, ◌-◌, ◌∙◌, ap, sym, ◌≤◌, ◌≡◌, refl, inl, inr, Bool, true, false, Option, none, some, List,
  [], ◌∷◌, arith, Bool-cases, All, All-append, if◌then◌else◌,
}
use whatfrom.Prelude.Eq.{Text, text_eq, text_beq, text_beq_iff, option_beq}
use whatfrom.Prelude.Dict.{Dict, values, lookup, insert, lookup-insert}
use whatfrom.Prelude.Sort.{total, total-append}
use whatfrom.TagSelect.Names.{TagRef}
use whatfrom.TagSelect.Order.{
  name_leb, Folded, keep_over, keep_best, fold_ref, fold_refs, fold_by_digest,
}

abbrev count_if : Bool → ℕ
count_if true = 1
count_if false = 0

-- 1 for a tag of that digest, 0 for another.
abbrev pub of_digest : Text → TagRef → ℕ
of_digest d r = count_if (option_beq (some d) r.manifest_digest)

abbrev present : Option TagRef → ℕ
present none = 0
present (some r) = 1

-- Every entry stands under its digest.
abbrev Keyed : Dict Text TagRef → Type 0
Keyed [] = Unit
Keyed ((k, r) ∷ best) = (r.manifest_digest ≡ some k) × Keyed best

record Once (best : Dict Text TagRef) : Type 0 where
  keyed : Keyed best
  counts : (d : Text) → total (of_digest d) (values best) ≡ present (lookup d best)

insert-Keyed :
    (k : Text) (r : TagRef) (best : Dict Text TagRef)
    → r.manifest_digest ≡ some k
    → Keyed best
    → Keyed (insert k r best)
insert-Keyed k r [] e h = (e, tt)
insert-Keyed k r ((j, s) ∷ best) e h = elim (Bool-cases (text_beq j k)) [
  | inl q ↦ rw q (e ∙ ap some (sym ((text_beq_iff j k).0 q)), h.1)
  | inr q ↦ rw q (h.0, insert-Keyed k r best e h.1)
]

-- An insertion adds one tag of the digest, unless it replaces one.
total-insert :
    (d k : Text) (r : TagRef) (best : Dict Text TagRef)
    → r.manifest_digest ≡ some k
    → Keyed best
    → total (of_digest d) (values (insert k r best))
      ≡ total (of_digest d) (values best)
        + (if text_beq d k then 1 - present (lookup k best) else 0)
total-insert d k r [] e h = rw e (ground arith)
total-insert d k r ((j, s) ∷ best) e h =
    ground (arith, e, h.0, text_beq_iff j k, total-insert d k r best e h.1)

insert-Once :
    (k : Text) (r : TagRef) (best : Dict Text TagRef)
    → r.manifest_digest ≡ some k
    → Once best
    → Once (insert k r best)
insert-Once k r best e o = record {
  keyed = insert-Keyed k r best e o.keyed;
  counts = λ d. ground (
    arith,
    o.counts d,
    o.counts k,
    total-insert d k r best e o.keyed,
    lookup-insert k d r best,
    text_beq_iff k d,
    text_beq_iff d k,
  );
}

fold_ref-Once :
    (o : Option Text) (r : TagRef) (f : Folded)
    → r.manifest_digest ≡ o
    → Once f.best
    → Once (fold_ref o r f).best
unfolding fold_ref keep_best
fold_ref-Once none r f e o = o
fold_ref-Once (some d) r f e o = keep_over-Once (lookup d f.best)
  where
    keep_over-Once : (c : Option TagRef) → Once (keep_over c d r f.best)
    keep_over-Once none = insert-Once d r f.best e o
    keep_over-Once (some c) = elim (Bool-cases (name_leb c r)) [
      | inl q ↦ rw q o
      | inr q ↦ rw q (insert-Once d r f.best e o)
    ]

-- The tags apart have no digest.
abbrev Unknown : List TagRef → Type 0
Unknown = All (λ r. r.manifest_digest ≡ none)

fold_ref-Unknown :
    (o : Option Text) (r : TagRef) (f : Folded)
    → r.manifest_digest ≡ o
    → Unknown f.unknown
    → Unknown (fold_ref o r f).unknown
unfolding fold_ref
fold_ref-Unknown none r f e u = All-append _ f.unknown (r ∷ []) u (e, tt)
fold_ref-Unknown (some d) r f e u = u

total-Unknown : (d : Text) (refs : List TagRef) → Unknown refs → total (of_digest d) refs ≡ 0
total-Unknown d [] u = refl
total-Unknown d (r ∷ refs) u = ground (arith, total-Unknown d refs u.1)

fold_refs-Once :
    (refs : List TagRef) (f : Folded)
    → Once f.best
    → Unknown f.unknown
    → Once (fold_refs refs f).best × Unknown (fold_refs refs f).unknown
unfolding fold_refs
fold_refs-Once [] f o u = (o, u)
fold_refs-Once (r ∷ refs) f o u =
    fold_refs-Once refs (fold_ref r.manifest_digest r f)
      (fold_ref-Once r.manifest_digest r f refl o) (fold_ref-Unknown r.manifest_digest r f refl u)

present-le : (o : Option TagRef) → present o ≤ 1
present-le none = omega arith
present-le (some r) = omega arith

-- Of every digest one tag is left at most.
pub total-fold_by_digest-le :
    (d : Text) (refs : List TagRef) → total (of_digest d) (fold_by_digest refs) ≤ 1
unfolding fold_by_digest
total-fold_by_digest-le d refs =
    let start : Folded = record { best = []; unknown = [] } in
    let f : Folded = fold_refs refs start in
    let k : Once f.best × Unknown f.unknown =
      fold_refs-Once refs start (record { keyed = tt; counts = λ c. refl }) tt in
    omega (
      arith,
      total-append (of_digest d) (values f.best) f.unknown,
      k.0.counts d,
      present-le (lookup d f.best),
      total-Unknown d f.unknown k.1,
    )
