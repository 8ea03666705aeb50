-- ===== src/Retrieval/First.antt =====
-- search/retrieval.py: the stage where the loop stops is the first one that yields a tag.
use mathlib.Core.List.{Memᴰ}
use whatfrom.Prelude.{
  ℕ, ◌≡◌, refl, sym, subst, inl, inr, ◌⊎◌, Bool, false, Option, none, some, List, [], ◌∷◌, ◌++◌,
  All, Bool-cases, Option-cases, ap,
}
use whatfrom.Prelude.Eq.{Text, text_eq, text_beq}
use whatfrom.Prelude.Text.{is_nil}
use whatfrom.Prelude.Dict.{Dict}
use whatfrom.Filters.{TagConditions, Notice, Stage}
use whatfrom.TagSelect.Names.{TagRef}
use whatfrom.TagSelect.Select.{select_tags}
use whatfrom.Retrieval.{Database, Found, add_chosen, allowed_at, choose_all, add_notice, run_stages}

module _ {Vector Size : Type 0} (within : ℕ → Size → Bool) (db : Database Vector) (vector : Vector)
    (limit : ℕ) (refs : Dict Text (List TagRef)) where
  -- The tags of a repository that can be chosen under the conditions.
  abbrev pub picked : TagConditions Size → Text × List TagRef → Option (List TagRef)
  picked stage entry =
      select_tags entry.1 limit (allowed_at within db vector entry.0 stage) stage.version_prefix

  -- Under the conditions no repository has one, and some repository has one.
  abbrev pub IsBarren : TagConditions Size → Type 0
  IsBarren stage = All (λ entry. picked stage entry ≡ some []) refs

  abbrev pub IsFruitful : TagConditions Size → Type 0
  IsFruitful stage =
      (entry : Text × List TagRef) × Memᴰ entry refs
      × (r : TagRef) × (more : List TagRef) × (picked stage entry ≡ some (r ∷ more))

  is_nil-add_chosen :
      (repository : Text) (out : List TagRef) (chosen : Dict Text (List TagRef))
      → is_nil chosen ≡ false
      → is_nil (add_chosen repository out chosen) ≡ false
  is_nil-add_chosen repository [] chosen h = h
  is_nil-add_chosen repository (r ∷ out) [] h = cc
  is_nil-add_chosen repository (r ∷ out) ((k, v) ∷ chosen) h =
      elim (Bool-cases (text_beq k repository)) [ inl q ↦ rw q refl | inr q ↦ rw q refl ]

  is_nil-add_some :
      (repository : Text) (r : TagRef) (out : List TagRef) (chosen : Dict Text (List TagRef))
      → is_nil (add_chosen repository (r ∷ out) chosen) ≡ false
  is_nil-add_some repository r out [] = refl
  is_nil-add_some repository r out ((k, v) ∷ chosen) = elim (Bool-cases (text_beq k repository)) [
    | inl q ↦ rw q refl
    | inr q ↦ rw q refl
  ]

  module _ (stage : TagConditions Size) where
    choose_all-kept :
        (rest chosen d : Dict Text (List TagRef))
        → is_nil chosen ≡ false
        → choose_all within db vector limit stage rest chosen ≡ some d
        → is_nil d ≡ false
    unfolding choose_all
    choose_all-kept [] chosen d h e = let same : chosen ≡ d = cc in rw (sym same) h
    choose_all-kept (entry ∷ rest) chosen d h e = elim (Option-cases (picked stage entry)) [
      | inl q ↦ let bad : none ≡ some d = rw q at e in cc
      | inr (out, q) ↦ choose_all-kept rest _ d (is_nil-add_chosen entry.0 out chosen h) (rw q at e)
    ]

    -- What is chosen is nothing exactly where the conditions are barren.
    choose_all-cases :
        (rest d : Dict Text (List TagRef))
        → ((entry : Text × List TagRef) → Memᴰ entry rest → Memᴰ entry refs)
        → choose_all within db vector limit stage rest [] ≡ some d
        → ((d ≡ []) × All (λ entry. picked stage entry ≡ some []) rest)
          ⊎ ((is_nil d ≡ false) × IsFruitful stage)
    unfolding choose_all
    choose_all-cases [] d m e = inl (cc, tt)
    choose_all-cases (entry ∷ rest) d m e = elim (Option-cases (picked stage entry)) [
      | inl q ↦ let bad : none ≡ some d = rw q at e in cc
      | inr ([], q) ↦ elim (choose_all-cases rest d (λ x k. m x (Memᴰ.tail k)) (rw q at e)) [
        | inl (n, b) ↦ inl (n, (q, b))
        | inr f ↦ inr f
      ]
      | inr (r ∷ out, q) ↦ inr (
        choose_all-kept rest _ d (is_nil-add_some entry.0 r out []) (rw q at e),
        (entry, m entry (Memᴰ.head refl), r, out, q),
      )
    ]

  -- The stages before the one where the loop stops are barren, and the notices are those up to it.
  abbrev pub IsFirst : List (Stage Size) → List (Notice Size) → Found Size → Type 0
  IsFirst stages relaxed found =
      (before : List (Stage Size)) × (notice : Option (Notice Size)) × (after : List (Stage Size))
      × (earlier : List (Notice Size)) × (stages ≡ before ++ (found.stage, notice) ∷ after)
      × All (λ (s : Stage Size). IsBarren s.0) before
      × IsFruitful found.stage
      × (choose_all within db vector limit found.stage refs [] ≡ some found.chosen_by_repo)
      × (found.relaxed ≡ add_notice within db vector earlier notice)
      × ((is_nil before ≡ false) ⊎ (earlier ≡ relaxed))

  abbrev pub IsStopped : List (Stage Size) → List (Notice Size) → Found Size → Type 0
  IsStopped stages relaxed found =
      IsFirst stages relaxed found
      ⊎ (All (λ (s : Stage Size). IsBarren s.0) stages × (found.chosen_by_repo ≡ []))

  later-IsStopped :
      (stage : Stage Size) (stages : List (Stage Size)) (relaxed told : List (Notice Size))
      (found : Found Size)
      → IsBarren stage.0
      → IsStopped stages told found
      → IsStopped (stage ∷ stages) relaxed found
  later-IsStopped stage stages relaxed told found b
        (inl (before, notice, after, earlier, e, a, f, c, n, o)) =
      inl
        (stage ∷ before, notice, after, earlier, ap (λ ss. stage ∷ ss) e, (b, a), f, c, n, inl refl)
  later-IsStopped stage stages relaxed told found b (inr (a, n)) = inr ((b, a), n)

  pub run_stages-IsStopped :
      (stages : List (Stage Size)) (last : TagConditions Size) (relaxed : List (Notice Size))
      (found : Found Size)
      → run_stages within db vector limit refs stages last relaxed [] ≡ some found
      → IsStopped stages relaxed found
  unfolding run_stages
  run_stages-IsStopped [] last relaxed found e =
      let made : Found Size = record { stage = last; relaxed = relaxed; chosen_by_repo = [] } in
      let whole : some made ≡ some found = e in
      let same : made ≡ found = cc in inr (tt, ap (λ (x : Found Size). x.chosen_by_repo) (sym same))
  run_stages-IsStopped ((stage, notice) ∷ stages) last relaxed found e =
      let told = add_notice within db vector relaxed notice in
      elim (Option-cases (choose_all within db vector limit stage refs [])) [
        | inl q ↦ let bad : none ≡ some found = rw q at e in cc
        | inr ([], q) ↦ elim (choose_all-cases stage refs [] (λ x k. k) q) [
          | inl (n, b) ↦
              later-IsStopped (stage, notice) stages relaxed told found b
                (run_stages-IsStopped stages stage told found (rw q at e))
          | inr (n, f) ↦ cc
        ]
        | inr (x ∷ d, q) ↦ elim (choose_all-cases stage refs (x ∷ d) (λ x k. k) q) [
          | inl (n, b) ↦ cc
          | inr (n, f) ↦
              let made : Found Size = record {
                stage = stage;
                relaxed = told;
                chosen_by_repo = x ∷ d;
              } in
              let whole : some made ≡ some found = rw q at e in
              let same : made ≡ found = cc in
              subst (IsStopped ((stage, notice) ∷ stages) relaxed) same
                (inl ([], notice, stages, relaxed, refl, tt, f, q, refl, inr refl))
        ]
      ]
