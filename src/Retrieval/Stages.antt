-- ===== src/Retrieval/Stages.antt =====
-- search/retrieval.py: what holds of the tags chosen at the stage where the loop stops.
use mathlib.Core.List.{Memᴰ}
use whatfrom.Prelude.{
  ℕ, ◌≡◌, refl, sym, subst, inl, inr, Bool, true, &&_iff, Option, some, List, [], ◌∷◌, All, All-imp,
  All-and, Bool-cases, ap,
}
use whatfrom.Prelude.Eq.{Text, elem, nat_eq, text_eq, text_beq_iff, beq_refl}
use whatfrom.Prelude.Dict.{Dict, All-insert, IsKey, IsKey-cons}
use whatfrom.Prelude.Members.{All-mem, mem-filter, mem-map, elem-mem}
use whatfrom.Models.{ImageTag}
use whatfrom.Contracts.{Evidence}
use whatfrom.Filters.{TagConditions, Notice, accepts, empty, Stage}
use whatfrom.Filters.Weaker.{accepts-empty}
use whatfrom.TagSelect.Names.{TagRef}
use whatfrom.TagSelect.Select.{select_tags}
use whatfrom.TagSelect.Select.Members.{IsAllowed}
use whatfrom.TagSelect.Select.Chosen.{select_tags-IsLinux}
use whatfrom.Retrieval.{
  Database, Found, ref_of, in_repository, tag_refs, refs_of_all, add_chosen, allowed_ids,
  allowed_at, choose_all, add_notice, stop_or, run_stages,
}
use whatfrom.Retrieval.Build.Rows.{HasRow}

-- The row is of the repository and fulfils the conditions.
abbrev pub Fulfils :
    {Size : Type 0} → (ℕ → Size → Bool) → Text → TagConditions Size → ImageTag → Type 0
Fulfils within repository stage row =
    (row.repository ≡ repository) × (accepts within stage row ≡ true)

module _ {Vector Size : Type 0} (within : ℕ → Size → Bool) (db : Database Vector)
    (vector : Vector) where
  row_of_ref :
      (repository : Text) (r : TagRef)
      → Memᴰ r (tag_refs db.image_tags repository)
      → HasRow db.image_tags (λ row. row.repository ≡ repository) r
  row_of_ref repository r m =
      let (row, k, e) = mem-map ref_of r _ m in
      let (n, q) = mem-filter (in_repository repository) row db.image_tags k in
      (row, n, ap (λ (t : TagRef). t.id) e, (text_beq_iff row.repository repository).0 q)

  allowed-HasRow :
      (repository : Text) (stage : TagConditions Size) (r : TagRef)
      → Memᴰ r (tag_refs db.image_tags repository)
      → IsAllowed (allowed_at within db vector repository stage) r
      → HasRow db.image_tags (Fulfils within repository stage) r
  allowed-HasRow repository stage r m a = elim (Bool-cases (empty stage)) [
    | inl q ↦
        let (row, n, i, e) = row_of_ref repository r m in
        (row, n, i, (e, accepts-empty within stage row q))
    | inr q ↦
        let inside : elem r.id (allowed_ids within db vector repository stage) ≡ true = rw q at a in
        let (row, n, i) = mem-map (λ (t : ImageTag). t.id) r.id _ (elem-mem r.id _ inside) in
        let (k, h) = mem-filter _ row db.image_tags n in
        let (s, t) = (&&_iff (in_repository repository row) (accepts within stage row)).0 h in
        (row, k, i, ((text_beq_iff row.repository repository).0 s, t))
  ]

  -- The row fulfils the conditions, and its tag is one of those chosen under them.
  abbrev pub IsChosen : ℕ → Text → TagConditions Size → ImageTag → Type 0
  IsChosen limit repository stage row =
      Fulfils within repository stage row
      × (out : List TagRef) × (r : TagRef) × (select_tags (tag_refs db.image_tags repository) limit
            (allowed_at within db vector repository stage) stage.version_prefix
          ≡ some out)
      × Memᴰ r out
      × (r.id ≡ row.id)

  -- Every tag of every repository chosen from has a row there that fulfils the conditions.
  abbrev pub Good : ℕ → Dict Text (List Evidence) → TagConditions Size → Text × List TagRef → Type 0
  Good limit evidence stage entry =
      IsKey evidence entry.0
      × IsKey (refs_of_all db.image_tags evidence) entry.0
      × All (HasRow db.image_tags (IsChosen limit entry.0 stage)) entry.1

  -- The tags stand under their repository.
  abbrev pub Listed : Dict Text (List Evidence) → Text × List TagRef → Type 0
  Listed evidence entry =
      IsKey evidence entry.0
      × IsKey (refs_of_all db.image_tags evidence) entry.0
      × (entry.1 ≡ tag_refs db.image_tags entry.0)

  pub refs_of_all-Listed :
      (evidence : Dict Text (List Evidence))
      → All (Listed evidence) (refs_of_all db.image_tags evidence)
  refs_of_all-Listed [] = tt
  refs_of_all-Listed ((repository, found) ∷ evidence) = (
    (
      (found, rw (beq_refl repository) refl),
      (tag_refs db.image_tags repository, rw (beq_refl repository) refl),
      refl,
    ),
    All-imp
        (λ entry (k, l, e).
          (IsKey-cons repository entry.0 found evidence k, IsKey-cons repository entry.0 _ _ l, e))
        _ (refs_of_all-Listed evidence),
  )

  add_chosen-Good :
      (limit : ℕ) (evidence : Dict Text (List Evidence)) (stage : TagConditions Size)
      (repository : Text) (refs : List TagRef) (chosen : Dict Text (List TagRef))
      → Good limit evidence stage (repository, refs)
      → All (Good limit evidence stage) chosen
      → All (Good limit evidence stage) (add_chosen repository refs chosen)
  add_chosen-Good limit evidence stage repository [] chosen g h = h
  add_chosen-Good limit evidence stage repository (r ∷ refs) chosen g h =
      All-insert (Good limit evidence stage) repository (r ∷ refs) chosen g h

  abbrev Chosen :
      ℕ → Dict Text (List Evidence) → TagConditions Size → Option (Dict Text (List TagRef)) → Type 0
  Chosen limit evidence stage o =
      (d : Dict Text (List TagRef)) × (o ≡ some d) × All (Good limit evidence stage) d

  choose_all-Chosen :
      (evidence : Dict Text (List Evidence)) (limit : ℕ) (stage : TagConditions Size)
      (refs chosen : Dict Text (List TagRef))
      → All (Listed evidence) refs
      → All (Good limit evidence stage) chosen
      → Chosen limit evidence stage (choose_all within db vector limit stage refs chosen)
  unfolding choose_all
  choose_all-Chosen evidence limit stage [] chosen l h = (chosen, refl, h)
  choose_all-Chosen evidence limit stage ((repository, refs) ∷ rest) chosen ((k, j, e), l) h =
      let ids = allowed_at within db vector repository stage in
      let (out, q, a) = select_tags-IsLinux refs limit ids stage.version_prefix in
      let chosen_there : (out : List TagRef)
          → select_tags refs limit ids stage.version_prefix ≡ some out
          → select_tags (tag_refs db.image_tags repository) limit ids stage.version_prefix
            ≡ some out =
        λ out q. subst (λ t. select_tags t limit ids stage.version_prefix ≡ some out) e q in
      let rows =
        All-imp {Q = HasRow db.image_tags (IsChosen limit repository stage)}
          (λ r ((m, i), n).
            let (row, k2, w, f) = allowed-HasRow repository stage r (rw e at m.0) i in
            (row, k2, w, (f, out, r, chosen_there out q, n, sym w)))
          out (All-and _ (λ r. Memᴰ r out) out a (All-mem out)) in
      rw q (
        choose_all-Chosen evidence limit stage rest _ l
          (add_chosen-Good limit evidence stage repository out chosen (k, j, rows) h))

  abbrev pub Stopped : ℕ → Dict Text (List Evidence) → Option (Found Size) → Type 0
  Stopped limit evidence o =
      (found : Found Size) × (o ≡ some found)
      × All (Good limit evidence found.stage) found.chosen_by_repo

  stop_or-Stopped :
      (limit : ℕ) (evidence : Dict Text (List Evidence)) (stage : TagConditions Size)
      (relaxed : List (Notice Size)) (more : Dict Text (List TagRef) → Option (Found Size))
      (d : Dict Text (List TagRef))
      → All (Good limit evidence stage) d
      → Stopped limit evidence (more [])
      → Stopped limit evidence (stop_or within db vector stage relaxed more d)
  stop_or-Stopped limit evidence stage relaxed more [] g m = m
  stop_or-Stopped limit evidence stage relaxed more (entry ∷ d) g m = (_, refl, g)

  pub run_stages-Stopped :
      (evidence : Dict Text (List Evidence)) (limit : ℕ) (stages : List (Stage Size))
      (last : TagConditions Size) (relaxed : List (Notice Size))
      → Stopped limit evidence (
          run_stages within db vector limit
            (refs_of_all db.image_tags evidence)
            stages
            last
            relaxed
            [])
  unfolding run_stages
  run_stages-Stopped evidence limit [] last relaxed = (_, refl, tt)
  run_stages-Stopped evidence limit ((stage, notice) ∷ stages) last relaxed =
      let refs = refs_of_all db.image_tags evidence in
      let (d, q, g) =
        choose_all-Chosen evidence limit stage refs [] (refs_of_all-Listed evidence) tt in
      let told = add_notice within db vector relaxed notice in
      rw q (
        stop_or-Stopped limit evidence stage told
          (run_stages within db vector limit refs stages stage told) d g
          (run_stages-Stopped evidence limit stages stage told))
