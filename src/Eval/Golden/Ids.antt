-- ===== src/Eval/Golden/Ids.antt =====
-- eval/goldenset.py: a set of cases is valid exactly if no id stands twice.
use whatfrom.Prelude.{
  ℕ, ◌≡◌, ◌≤◌, ◌⊎◌, refl, sym, ||_iff, inl, inr, true, false, Option, none, some, List, [], ◌∷◌,
  arith, if◌then◌else◌, Bool-cases,
}
use whatfrom.Prelude.Eq.{Text, elem, text_eq, text_beq, text_beq_iff, beq_refl}
use whatfrom.Prelude.Sort.{total}
use whatfrom.Eval.Golden.{GoldenCase, Checked, check_ids, checked, unique_ids}

-- How often the id stands in the list.
abbrev pub times : {Size : Type 0} → Text → List (GoldenCase Size) → ℕ
times id = total (λ case. if text_beq case.id id then 1 else 0)

abbrev NoneRepeated : {Size : Type 0} → List Text → List (GoldenCase Size) → Option Text → Type 0
NoneRepeated seen cases none =
    (id : Text) → ((elem id seen ≡ true) → times id cases ≡ 0) × (times id cases ≤ 1)
NoneRepeated seen cases (some id) =
    ((elem id seen ≡ true) × (1 ≤ times id cases)) ⊎ (2 ≤ times id cases)

module _ {Size : Type 0} where
  times_self :
      (case : GoldenCase Size) (cases : List (GoldenCase Size)) → 1 ≤ times case.id (case ∷ cases)
  times_self case cases = rw (beq_refl case.id) (omega arith)

  NoneRepeated-cons :
      (seen : List Text) (case : GoldenCase Size) (cases : List (GoldenCase Size)) (o : Option Text)
      → elem case.id seen ≡ false
      → NoneRepeated (case.id ∷ seen) cases o
      → NoneRepeated seen (case ∷ cases) o
  NoneRepeated-cons seen case cases none q h = λ id. elim (Bool-cases (text_beq case.id id)) [
    | inl e ↦
        let same = (text_beq_iff case.id id).0 e in
        let back : text_beq id case.id ≡ true = (text_beq_iff id case.id).1 (sym same) in
        let fresh : elem id seen ≡ false = rw same at q in
        let (z, l) = h id in
        let zero : times id cases ≡ 0 = z (rw back refl) in
        (λ k. absurd (ground arith), rw e (omega (arith, zero)))
    | inr e ↦
        let (z, l) = h id in
        (
          λ k. rw e (omega (arith, z ((||_iff (text_beq id case.id) (elem id seen)).1 (inr k)))),
          rw e (omega (arith, l)),
        )
  ]
  NoneRepeated-cons seen case cases (some id) q (inr h) = inr (ground arith)
  NoneRepeated-cons seen case cases (some id) q (inl (m, l)) =
      elim ((||_iff (text_beq id case.id) (elem id seen)).0 m) [
        | inl e ↦
            let back : text_beq case.id id ≡ true =
              (text_beq_iff case.id id).1 (sym ((text_beq_iff id case.id).0 e)) in
            inr (rw back (omega (arith, l)))
        | inr e ↦ inl (e, ground arith)
      ]

  check_ids-NoneRepeated :
      (seen : List Text) (cases : List (GoldenCase Size))
      → NoneRepeated seen cases (check_ids seen cases)
  check_ids-NoneRepeated seen [] = λ id. (λ k. refl, omega arith)
  check_ids-NoneRepeated seen (case ∷ cases) = elim (Bool-cases (elem case.id seen)) [
    | inl q ↦ rw q (inl (q, times_self case cases))
    | inr q ↦
        rw q (NoneRepeated-cons seen case cases _ q (check_ids-NoneRepeated (case.id ∷ seen) cases))
  ]

  -- What the validator may say of a set of cases.
  abbrev pub IsVerdict : List (GoldenCase Size) → Checked (List (GoldenCase Size)) → Type 0
  IsVerdict cases (Checked.valid kept) = (kept ≡ cases) × ((id : Text) → times id cases ≤ 1)
  IsVerdict cases (Checked.repeated id) = 2 ≤ times id cases

  IsVerdict-checked :
      (cases : List (GoldenCase Size)) (o : Option Text)
      → NoneRepeated [] cases o
      → IsVerdict cases (checked cases o)
  IsVerdict-checked cases none h = (refl, λ id. (h id).1)
  IsVerdict-checked cases (some id) (inl (m, l)) = cc
  IsVerdict-checked cases (some id) (inr h) = h

  -- A set of cases passes unchanged exactly if every id stands once at most; else the id that is
  -- reported stands twice at least.
  pub unique_ids-IsVerdict : (cases : List (GoldenCase Size)) → IsVerdict cases (unique_ids cases)
  unfolding unique_ids
  unique_ids-IsVerdict cases = IsVerdict-checked cases _ (check_ids-NoneRepeated [] cases)
