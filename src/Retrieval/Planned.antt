-- ===== src/Retrieval/Planned.antt =====
-- search/retrieval.py: what holds of the candidates of a plan.
use whatfrom.Prelude.{
  ℕ, ◌≡◌, refl, sym, subst, ◌∙◌, inl, inr, ◌⊎◌, Bool, true, false, not, ◌||◌, Option, none, some,
  List, [], ◌∷◌, ◌++◌, arith, All, All-imp, All-append, Bool-cases, ap,
}
use whatfrom.Prelude.Eq.{Text, text_eq, text_beq_iff}
use whatfrom.Prelude.Text.{is_nil}
use whatfrom.Prelude.Dict.{Dict, IsKey}
use whatfrom.Contracts.{Evidence, Candidate, SearchPlan}
use whatfrom.Filters.{TagConditions, Notice, Stage, is_none, relaxations}
use whatfrom.TagSelect.Names.{TagRef}
use whatfrom.Retrieval.{
  Database, Found, evidence_by_repo, Scope, SearchNote, PlannedSearch, refs_of_all, conditions_of,
  stale_notes, line_notes, build_all, search_in, search_candidates_with_plan, nearest,
}
use whatfrom.Retrieval.Build.Rows.{UniqueIds, StandsFor, build_candidates-Built}
use whatfrom.Retrieval.Scopes.{IsScope, is_unforced, ScopeOf, scope_of-ScopeOf}
use whatfrom.Retrieval.Notices.{is_nil-given_up}
use whatfrom.Retrieval.Complete.{IsComplete, choose_all-IsComplete}
use whatfrom.Retrieval.First.{IsBarren, IsFruitful, IsStopped, run_stages-IsStopped}
use whatfrom.Retrieval.Stages.{IsChosen, Good, refs_of_all-Listed, run_stages-Stopped}

module _ {Vector Size : Type 0} (within : ℕ → Size → Bool) (db : Database Vector)
    (vector : Vector) where
  -- The candidate stands for a row of its repository that fulfils the conditions and is chosen
  -- under them.
  abbrev pub IsMatch : ℕ → TagConditions Size → Candidate → Type 0
  IsMatch limit stage c =
      StandsFor db.image_tags (IsChosen within db vector limit c.repository stage) c.repository c

  abbrev Kept : ℕ → Dict Text (List Evidence) → TagConditions Size → Candidate → Type 0
  Kept limit evidence stage c = IsKey evidence c.repository × IsMatch limit stage c

  StandsFor-Kept :
      (limit : ℕ) (evidence : Dict Text (List Evidence)) (stage : TagConditions Size)
      (repository : Text) (c : Candidate)
      → IsKey evidence repository
      → StandsFor db.image_tags (IsChosen within db vector limit repository stage) repository c
      → Kept limit evidence stage c
  StandsFor-Kept limit evidence stage repository c k (row, m, f, repo, found, e) =
      let same : c.repository ≡ repository = ap (λ (x : Candidate). x.repository) e in
      subst
        (λ r.
          IsKey evidence r × StandsFor db.image_tags (IsChosen within db vector limit r stage) r c)
        (sym same) (k, (row, m, f, repo, found, e))

  abbrev AllBuilt :
      ℕ → Dict Text (List Evidence) → TagConditions Size → Option (List Candidate) → Type 0
  AllBuilt limit evidence stage o =
      (cs : List Candidate) × (o ≡ some cs) × All (Kept limit evidence stage) cs

  module _ (unique : UniqueIds db.image_tags) where
    build_all-AllBuilt :
        (limit : ℕ) (evidence : Dict Text (List Evidence)) (stage : TagConditions Size)
        (chosen : Dict Text (List TagRef))
        → All (Good within db vector limit evidence stage) chosen
        → AllBuilt limit evidence stage (build_all within db vector evidence chosen)
    unfolding build_all
    build_all-AllBuilt limit evidence stage [] g = ([], refl, tt)
    build_all-AllBuilt limit evidence stage ((repository, refs) ∷ chosen) (((ev, k), l, h), g) =
        let (rest, q, b) = build_all-AllBuilt limit evidence stage chosen g in
        let (own, p, a) =
          build_candidates-Built db.image_tags unique
            (IsChosen within db vector limit repository stage) db.repositories repository refs ev
            h in
        rw (k, p, q)
          (
            own ++ rest,
            refl,
            All-append (Kept limit evidence stage) own rest
                (All-imp (λ c s. StandsFor-Kept limit evidence stage repository c (ev, k) s) own a)
                b,
          )

  abbrev Noted : Option (List (SearchNote Size)) → Type 0
  Noted o = (notes : List (SearchNote Size)) × (o ≡ some notes)

  stale_notes-Noted :
      (limit : ℕ) (evidence : Dict Text (List Evidence)) (stage : TagConditions Size)
      (prefix : Text) (chosen : Dict Text (List TagRef))
      → All (Good within db vector limit evidence stage) chosen
      → Noted (stale_notes within db vector (refs_of_all db.image_tags evidence) prefix chosen)
  stale_notes-Noted limit evidence stage prefix [] g = ([], refl)
  stale_notes-Noted limit evidence stage prefix ((repository, refs) ∷ chosen)
        ((k, (tags, l), h), g) =
      let (rest, q) = stale_notes-Noted limit evidence stage prefix chosen g in rw (l, q) (_, refl)

  line_notes-Noted :
      (limit : ℕ) (evidence : Dict Text (List Evidence)) (stage : TagConditions Size)
      (prefix : Option Text) (chosen : Dict Text (List TagRef))
      → All (Good within db vector limit evidence stage) chosen
      → Noted (line_notes within db vector (refs_of_all db.image_tags evidence) prefix chosen)
  line_notes-Noted limit evidence stage none chosen g = ([], refl)
  line_notes-Noted limit evidence stage (some prefix) chosen g =
      stale_notes-Noted limit evidence stage prefix chosen g

  only_key :
      (repository key : Text) (found : List Evidence)
      → IsKey ((repository, found) ∷ []) key
      → repository ≡ key
  only_key repository key found (v, h) = ground (arith, text_beq_iff repository key)

  -- The first stage that yields a tag of some repository is the one that all candidates match, and
  -- the search is degraded exactly where it is not forced to the repository of the plan or stages
  -- were given up. Where no stage yields a tag there is no candidate.
  abbrev pub IsChosenAt :
      ℕ → SearchPlan Size → Bool → Dict Text (List Evidence) → PlannedSearch Size → Type 0
  IsChosenAt limit plan forced evidence result =
      let refs = refs_of_all db.image_tags evidence in
      let stages = relaxations (conditions_of within db vector plan forced) in
      ((before : List (Stage Size)) × (stage : TagConditions Size) × (notice : Option (Notice Size))
        × (after : List (Stage Size)) × (stages ≡ before ++ (stage, notice) ∷ after)
        × All (λ (s : Stage Size). IsBarren within db vector limit refs s.0) before
        × IsFruitful within db vector limit refs stage
        × All (IsMatch limit stage) result.candidates
        × IsComplete within db vector limit stage evidence result.candidates
        × (result.degraded ≡ (is_unforced plan.repository forced || not (is_nil before))))
      ⊎ (All (λ (s : Stage Size). IsBarren within db vector limit refs s.0) stages
          × (result.candidates ≡ [])
          × ((is_unforced plan.repository forced ≡ false) ⊎ (result.degraded ≡ true)))

  abbrev pub Fits : Dict Text (List Evidence) → ℕ → SearchPlan Size → PlannedSearch Size → Type 0
  Fits found limit plan result =
      (forced : Bool) × (evidence : Dict Text (List Evidence)) × IsScope within db vector found
        plan.repository forced evidence
      × IsChosenAt limit plan forced evidence result
      × All (λ (c : Candidate). IsKey evidence c.repository) result.candidates
      × ((forced ≡ false)
          ⊎ All (λ (c : Candidate). plan.repository ≡ some c.repository) result.candidates)

  abbrev pub Finds :
      Dict Text (List Evidence) → ℕ → SearchPlan Size → Option (PlannedSearch Size) → Type 0
  Finds found limit plan o =
      (result : PlannedSearch Size) × (o ≡ some result) × Fits found limit plan result

  All-forced :
      (limit : ℕ) (found : Dict Text (List Evidence)) (plan : SearchPlan Size) (scope : Scope)
      (stage : TagConditions Size) (cs : List Candidate)
      → IsScope within db vector found plan.repository scope.forced scope.evidence
      → All (Kept limit scope.evidence stage) cs
      → (scope.forced ≡ false) ⊎ All (λ (c : Candidate). plan.repository ≡ some c.repository) cs
  All-forced limit found plan scope stage cs (inr (f, o, w)) a = inl f
  All-forced limit found plan scope stage cs (inl (f, repository, w, n, t, e)) a = inr (
      All-imp
        (λ c (k, m).
          w ∙ ap some (only_key repository c.repository _ (subst (λ d. IsKey d c.repository) e k)))
        cs a)

  build_all-nil :
      (evidence : Dict Text (List Evidence)) (chosen : Dict Text (List TagRef))
      (cs : List Candidate)
      → chosen ≡ []
      → build_all within db vector evidence chosen ≡ some cs
      → cs ≡ []
  unfolding build_all
  build_all-nil evidence chosen cs n e =
      let whole : some [] ≡ some cs =
        subst (λ d. build_all within db vector evidence d ≡ some cs) n e in
      cc

  -- What is found, where the loop stops as it does.
  chosen_at :
      (limit : ℕ) (plan : SearchPlan Size) (scope : Scope) (found : Found Size)
      (cs : List Candidate) (notes : List (SearchNote Size))
      → not (is_none scope.unforced) ≡ is_unforced plan.repository scope.forced
      → IsStopped within db vector limit
          (refs_of_all db.image_tags scope.evidence)
          (relaxations (conditions_of within db vector plan scope.forced))
          []
          found
      → build_all within db vector scope.evidence found.chosen_by_repo ≡ some cs
      → All (IsMatch limit found.stage) cs
      → IsChosenAt limit plan scope.forced scope.evidence (record {
        candidates = cs;
        notes = notes;
        degraded = not (is_none scope.unforced) || not (is_nil found.relaxed);
      })
  chosen_at limit plan scope found cs notes u
        (inl (before, notice, after, earlier, e, b, f, c, r, o)) p a =
      let given = is_nil-given_up within db vector _ found.stage before after notice earlier e o in
      let told : is_nil found.relaxed ≡ is_nil before = ap is_nil r ∙ given in
      let listed =
        All-imp (λ entry (k, l, t). t) _ (refs_of_all-Listed within db vector scope.evidence) in
      let whole =
        choose_all-IsComplete within db vector limit found.stage scope.evidence found.chosen_by_repo
          cs listed c p in
      inl (before, found.stage, notice, after, e, b, f, a, whole, rw (u, told) refl)
  chosen_at limit plan scope found cs notes u (inr (b, n)) p a = inr (
    b,
    build_all-nil scope.evidence found.chosen_by_repo cs n p,
    elim (Bool-cases (is_unforced plan.repository scope.forced)) [
      | inl q ↦ inr (rw (u, q) refl)
      | inr q ↦ inl q
    ],
  )

  module _ (unique : UniqueIds db.image_tags) where
    search_in-Finds :
        (limit : ℕ) (plan : SearchPlan Size) (evidence : Dict Text (List Evidence)) (scope : Scope)
        → ScopeOf within db vector evidence plan.repository scope
        → Finds evidence limit plan (search_in within db vector limit plan scope)
    search_in-Finds limit plan evidence scope (s, u) =
        let conditions = conditions_of within db vector plan scope.forced in
        let (found, q, g) =
          run_stages-Stopped within db vector scope.evidence limit (relaxations conditions)
            conditions [] in
        let stopped =
          run_stages-IsStopped within db vector limit (refs_of_all db.image_tags scope.evidence)
            (relaxations conditions) conditions [] found q in
        let (cs, p, a) =
          build_all-AllBuilt unique limit scope.evidence found.stage found.chosen_by_repo g in
        let (notes, n) =
          line_notes-Noted limit scope.evidence found.stage found.stage.version_prefix
            found.chosen_by_repo g in
        rw (q, p, n)
          (
            _,
            refl,
            (
              scope.forced,
              scope.evidence,
              s,
              chosen_at limit plan scope found cs [] u stopped p (All-imp (λ c k. k.1) cs a),
              All-imp (λ c k. k.0) cs a,
              All-forced limit evidence plan scope found.stage cs s a,
            ),
          )

    -- With unique ids in the table of tags, the search with a plan returns. It is forced to the
    -- repository of the plan exactly where that has evidence and tags, and all candidates are then
    -- of it. All candidates stand for rows of a repository that is searched, which fulfil the first
    -- stage of the conditions that yields a tag of any repository and are chosen there; and every tag
    -- chosen there has a candidate if its repository is in the database. Without such a stage there
    -- are none. With one, the search is degraded exactly where the repository of the plan is not forced
    -- or a stage was given up.
    pub search_candidates_with_plan-Finds :
        (plan : SearchPlan Size) (chunk_k tags_per_repo : ℕ)
        → Finds
            (evidence_by_repo (nearest db vector chunk_k none))
            tags_per_repo
            plan
            (search_candidates_with_plan within db vector plan chunk_k tags_per_repo)
    unfolding search_candidates_with_plan
    search_candidates_with_plan-Finds plan chunk_k tags_per_repo =
        search_in-Finds tags_per_repo plan _ _ (scope_of-ScopeOf within db vector _ plan.repository)
