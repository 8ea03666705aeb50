-- ===== src/Answer/Numbering/Sections.antt =====
-- recommend/evidence.py: the numbers are the places in the list, and they lead to the sections.
use whatfrom.Prelude.{
  ℕ, suc, ◌+◌, ◌≡◌, refl, ap, sym, subst, ◌∙◌, inl, inr, true, Option, none, some, List, [], ◌∷◌,
  ◌++◌, map, arith, length, All, All-imp, Any, Any-append_left, Any-append_last, Any-imp,
  Bool-cases,
}
use whatfrom.Prelude.Eq.{Text, elem, text_eq, beq_refl}
use whatfrom.Prelude.Dict.{Dict, insert, lookup}
use whatfrom.Prelude.Integers.{ℤ, int_eq, pair_eq, pair_beq, pair_beq_iff}
use whatfrom.Contracts.{Evidence, NumberedEvidence, Candidate}
use whatfrom.Answer.Numbering.{
  Numbering, key_of, with_number, numbered_as, number_item, add_own, number_items, with_numbers,
  number_candidates, number_evidence,
}

-- The numbers count up by one.
abbrev pub Consecutive : ℕ → List NumberedEvidence → Type 0
Consecutive n [] = Unit
Consecutive n (e ∷ es) = (e.number ≡ ℤ.pos n) × Consecutive (suc n) es

-- The numbers lead to the section of the item among the numbered evidence.
abbrev pub IsCited : List NumberedEvidence → List ℤ → Evidence → Type 0
IsCited evidence own item =
    Any
      (λ (e : NumberedEvidence).
        ((e.repository, e.section_title) ≡ key_of item) × (elem e.number own ≡ true))
      evidence

abbrev entry : NumberedEvidence → (Text × Text) × ℤ
entry e = ((e.repository, e.section_title), e.number)

abbrev IsNumbering : Numbering → Type 0
IsNumbering s = (s.numbers ≡ map entry s.evidence) × Consecutive 1 s.evidence

insert_fresh :
    (k : Text × Text) (v : ℤ) (d : Dict (Text × Text) ℤ)
    → lookup k d ≡ none
    → insert k v d ≡ d ++ (k, v) ∷ []
insert_fresh k v [] h = refl
insert_fresh k v ((j, w) ∷ d) h = elim (Bool-cases (pair_beq j k)) [
  | inl q ↦ cc (rw q at h)
  | inr q ↦ rw q (ap (λ u. (j, w) ∷ u) (insert_fresh k v d (rw q at h)))
]

map-entry-append :
    (es : List NumberedEvidence) (e : NumberedEvidence)
    → map entry (es ++ e ∷ []) ≡ map entry es ++ entry e ∷ []
map-entry-append [] e = refl
map-entry-append (x ∷ es) e = ap (λ u. entry x ∷ u) (map-entry-append es e)

Consecutive-append :
    (n : ℕ) (es : List NumberedEvidence) (e : NumberedEvidence)
    → Consecutive n es
    → e.number ≡ ℤ.pos (n + length es)
    → Consecutive n (es ++ e ∷ [])
Consecutive-append n [] e h k = (k ∙ ap ℤ.pos (omega arith), tt)
Consecutive-append n (x ∷ es) e h k =
    (h.0, Consecutive-append (suc n) es e h.1 (k ∙ ap ℤ.pos (omega arith)))

-- A number found is that of the section.
lookup-entry :
    (k : Text × Text) (n : ℤ) (es : List NumberedEvidence)
    → lookup k (map entry es) ≡ some n
    → Any (λ (e : NumberedEvidence). ((e.repository, e.section_title) ≡ k) × (e.number ≡ n)) es
lookup-entry k n [] h = cc
lookup-entry k n (e ∷ es) h = elim (Bool-cases (pair_beq (e.repository, e.section_title) k)) [
  | inl q ↦ inl (
    (pair_beq_iff (e.repository, e.section_title) k).0 q,
    let r : some e.number ≡ some n = rw q at h in cc,
  )
  | inr q ↦ inr (lookup-entry k n es (rw q at h))
]

elem-add_own : (n : ℤ) (own : List ℤ) → elem n (add_own n own) ≡ true
elem-add_own n own = elim (Bool-cases (elem n own)) [
  | inl q ↦ rw q q
  | inr q ↦ rw q (elem_last own)
]
  where
    elem_last : (xs : List ℤ) → elem n (xs ++ n ∷ []) ≡ true
    elem_last [] = rw (beq_refl n) refl
    elem_last (x ∷ xs) = let ih = elem_last xs in ground arith

elem-append : (n : ℤ) (xs ys : List ℤ) → elem n xs ≡ true → elem n (xs ++ ys) ≡ true
elem-append n [] ys h = cc
elem-append n (x ∷ xs) ys h = let ih = elem-append n xs ys in ground arith

elem-add_own_other : (m n : ℤ) (own : List ℤ) → elem m own ≡ true → elem m (add_own n own) ≡ true
elem-add_own_other m n own h = elim (Bool-cases (elem n own)) [
  | inl q ↦ rw q h
  | inr q ↦ rw q (elem-append m own (n ∷ []) h)
]

abbrev Grown : List NumberedEvidence → List NumberedEvidence → Type 0
Grown before after = (more : List NumberedEvidence) × (after ≡ before ++ more)

Grown-trans : (a b c : List NumberedEvidence) → Grown a b → Grown b c → Grown a c
Grown-trans a b c (m, e) (n, f) = (m ++ n, f ∙ ap (λ u. u ++ n) e ∙ append_assoc a m n)
  where
    append_assoc : (xs ys zs : List NumberedEvidence) → (xs ++ ys) ++ zs ≡ xs ++ (ys ++ zs)
    append_assoc [] ys zs = refl
    append_assoc (x ∷ xs) ys zs = ap (λ u. x ∷ u) (append_assoc xs ys zs)

IsCited-Grown :
    (a b : List NumberedEvidence) (own : List ℤ) (item : Evidence)
    → Grown a b
    → IsCited a own item
    → IsCited b own item
IsCited-Grown a b own item (m, e) h =
    subst (λ u. IsCited u own item) (sym e) (Any-append_left _ a m h)

abbrev Named : ℤ → Evidence → NumberedEvidence → Type 0
Named n item e = ((e.repository, e.section_title) ≡ key_of item) × (e.number ≡ n)

abbrev ItemDone : Evidence → Numbering → Numbering × ℤ → Type 0
ItemDone item s (t, n) = IsNumbering t × Grown s.evidence t.evidence × Any (Named n item) t.evidence

append_nil : (xs : List NumberedEvidence) → xs ≡ xs ++ []
append_nil [] = refl
append_nil (x ∷ xs) = ap (λ u. x ∷ u) (append_nil xs)

numbered_as-done :
    (item : Evidence) (s : Numbering) (o : Option ℤ)
    → lookup (key_of item) s.numbers ≡ o
    → IsNumbering s
    → ItemDone item s (numbered_as o item s)
numbered_as-done item s (some n) q h = (
  h,
  ([], append_nil s.evidence),
  lookup-entry (key_of item) n s.evidence (ap (lookup (key_of item)) (sym h.0) ∙ q),
)
numbered_as-done item s none q h =
    let n = ℤ.pos (suc (length s.evidence)) in
    let e = with_number n item in
    (
      (
        insert_fresh (key_of item) n s.numbers q
            ∙ ap (λ u. u ++ (key_of item, n) ∷ []) h.0
            ∙ sym (map-entry-append s.evidence e),
        Consecutive-append 1 s.evidence e h.1 (ap ℤ.pos (omega arith)),
      ),
      (e ∷ [], refl),
      Any-append_last (Named n item) s.evidence e (refl, refl),
    )

abbrev ItemsDone : List Evidence → Numbering → List ℤ → Numbering × List ℤ → Type 0
ItemsDone items s own (t, owned) =
    IsNumbering t
    × Grown s.evidence t.evidence
    × ((m : ℤ) → elem m own ≡ true → elem m owned ≡ true)
    × All (IsCited t.evidence owned) items

number_items-done :
    (items : List Evidence) (s : Numbering) (own : List ℤ)
    → IsNumbering s
    → ItemsDone items s own (number_items items s own)
unfolding number_items
number_items-done [] s own h = (h, ([], append_nil s.evidence), λ m k. k, tt)
number_items-done (item ∷ items) s own h =
    let (t, n) = number_item item s in
    let (i, g, a) = numbered_as-done item s (lookup (key_of item) s.numbers) refl h in
    let (j, k, mono, all) = number_items-done items t (add_own n own) i in
    let (u, owned) = number_items items t (add_own n own) in
    let cited : (e : NumberedEvidence) → Named n item e → _ × (elem e.number owned ≡ true) =
      λ e r. (r.0, ap (λ v. elem v owned) r.1 ∙ mono n (elem-add_own n own)) in
    (
      j,
      Grown-trans s.evidence t.evidence u.evidence g k,
      λ m e. mono m (elem-add_own_other m n own e),
      (IsCited-Grown t.evidence u.evidence owned item k (Any-imp cited t.evidence a), all),
    )

abbrev CandidatesDone : List Candidate → Numbering → Numbering × List Candidate → Type 0
CandidatesDone cs s (t, numbered) =
    IsNumbering t
    × Grown s.evidence t.evidence
    × All (λ (c : Candidate). All (IsCited t.evidence c.evidence_numbers) c.evidence) numbered
    × (map (with_numbers []) numbered ≡ map (with_numbers []) cs)

number_candidates-done :
    (cs : List Candidate) (s : Numbering)
    → IsNumbering s
    → CandidatesDone cs s (number_candidates cs s)
unfolding number_candidates
number_candidates-done [] s h = (h, ([], append_nil s.evidence), tt, refl)
number_candidates-done (c ∷ cs) s h =
    let (t, own) = number_items c.evidence s [] in
    let (i, g, mono, all) = number_items-done c.evidence s [] h in
    let (u, rest) = number_candidates cs t in
    let (j, k, cited, same) = number_candidates-done cs t i in
    (
      j,
      Grown-trans s.evidence t.evidence u.evidence g k,
      (All-imp (λ item. IsCited-Grown t.evidence u.evidence own item k) c.evidence all, cited),
      ap (λ v. with_numbers [] c ∷ v) same,
    )

-- The numbers of the evidence are 1, 2, 3 and on, in its order; every section that a candidate
-- brought is there under one of the candidate's numbers; and but for these numbers the candidates
-- are unchanged.
pub number_evidence_numbers :
    (candidates : List Candidate)
    → let (evidence, numbered) = number_evidence candidates in
      Consecutive 1 evidence
      × All (λ (c : Candidate). All (IsCited evidence c.evidence_numbers) c.evidence) numbered
      × (map (with_numbers []) numbered ≡ map (with_numbers []) candidates)
unfolding number_evidence
number_evidence_numbers candidates =
    let start : Numbering = record { numbers = []; evidence = [] } in
    let (i, g, cited, same) = number_candidates-done candidates start (refl, tt) in
    (i.1, cited, same)
