-- ===== src/Retrieval/Complete.antt =====
-- search/retrieval.py: every tag that is chosen becomes a candidate.
use mathlib.Core.List.{Memᴰ}
use mathlib.Core.List.Memᴰ
use whatfrom.Prelude.{
  ℕ, ◌≡◌, refl, sym, subst, ◌∙◌, inl, inr, ◌⊎◌, Bool, Option, none, some, List, [], ◌∷◌, ◌++◌, All,
  All-imp, OnSome, Bool-cases, Option-cases, ap,
}
use whatfrom.Prelude.Eq.{Text, nat_eq, text_eq, text_beq, text_beq_iff}
use whatfrom.Prelude.Dict.{Dict, lookup, insert, lookup-insert}
use whatfrom.Prelude.Members.{All-mem, All-at}
use whatfrom.Models.{Repository}
use whatfrom.Contracts.{Evidence, Candidate}
use whatfrom.Filters.{TagConditions}
use whatfrom.TagSelect.Names.{TagRef}
use whatfrom.TagSelect.Select.{select_tags}
use whatfrom.Retrieval.{Database, tag_refs, refs_of_all, allowed_at, choose_all, build_all}
use whatfrom.Retrieval.Build.{get_repository, build_candidates}
use whatfrom.Retrieval.Build.Offered.{
  IsOffered, build_candidates-IsOffered, mem-append_left, mem-append_right,
}

lookup-mem :
    (k : Text) (out : List TagRef) (d : Dict Text (List TagRef))
    → lookup k d ≡ some out
    → Memᴰ (k, out) d
lookup-mem k out [] e = cc
lookup-mem k out ((j, v) ∷ d) e = elim (Bool-cases (text_beq j k)) [
  | inl q ↦
      let same : j ≡ k = (text_beq_iff j k).0 q in
      let found : some v ≡ some out = rw q at e in let value : v ≡ out = cc in Memᴰ.head cc
  | inr q ↦ Memᴰ.tail (lookup-mem k out d (rw q at e))
]

module _ {Vector Size : Type 0} (within : ℕ → Size → Bool) (db : Database Vector)
    (vector : Vector) where
  build_all-IsOffered :
      (evidence : Dict Text (List Evidence)) (chosen : Dict Text (List TagRef))
      (cs : List Candidate) (repository : Text) (repo : Repository) (out : List TagRef)
      (ref : TagRef)
      → get_repository repository db.repositories ≡ some repo
      → build_all within db vector evidence chosen ≡ some cs
      → Memᴰ (repository, out) chosen
      → Memᴰ ref out
      → IsOffered db.image_tags cs repository ref
  unfolding build_all
  build_all-IsOffered evidence [] cs repository repo out ref g e m k = absurd (Memᴰ.not-nil m)
  build_all-IsOffered evidence ((name, refs) ∷ chosen) cs repository repo out ref g e m k =
      elim (Option-cases (lookup name evidence)) [
        | inl q ↦ let bad : none ≡ some cs = rw q at e in cc
        | inr (ev, q) ↦
            elim (Option-cases (build_candidates db.repositories db.image_tags name refs ev)) [
              | inl p ↦ let bad : none ≡ some cs = rw (q, p) at e in cc
              | inr (own, p) ↦ elim (Option-cases (build_all within db vector evidence chosen)) [
                | inl t ↦ let bad : none ≡ some cs = rw (q, p, t) at e in cc
                | inr (rest, t) ↦
                    let whole : some (own ++ rest) ≡ some cs = rw (q, p, t) at e in
                    let same : own ++ rest ≡ cs = cc in
                    elim (Memᴰ.cases_cons m) [
                      | inl x ↦
                          let names : repository ≡ name = ap (λ y. y.0) x in
                          let lists : out ≡ refs = ap (λ y. y.1) x in
                          let (c, h, n, row, w1, w2, w3) =
                            build_candidates-IsOffered db.repositories db.image_tags name repo refs
                              ev own ref (rw names at g) p (subst (Memᴰ ref) lists k) in
                          (
                            c,
                            subst (Memᴰ c) same (mem-append_left c own rest h),
                            n ∙ sym names,
                            row,
                            w1,
                            w2,
                            w3,
                          )
                      | inr y ↦
                          let (c, h, n, row, w1, w2, w3) =
                            build_all-IsOffered evidence chosen rest repository repo out ref g t y
                              k in
                          (
                            c,
                            subst (Memᴰ c) same (mem-append_right c own rest h),
                            n,
                            row,
                            w1,
                            w2,
                            w3,
                          )
                    ]
              ]
            ]
      ]

  module _ (limit : ℕ) (stage : TagConditions Size) where
    -- The tags of a repository that are chosen under the conditions.
    abbrev picks : Text → Option (List TagRef)
    picks k =
        select_tags (tag_refs db.image_tags k) limit (allowed_at within db vector k stage)
          stage.version_prefix

    abbrev IsListed : Text × List TagRef → Type 0
    IsListed entry = entry.1 ≡ tag_refs db.image_tags entry.0

    -- The repository has its tags in the dict, or is still to come.
    abbrev IsAhead : Text → List TagRef → Dict Text (List TagRef) → Dict Text (List TagRef) → Type 0
    IsAhead k out chosen rest =
        (lookup k chosen ≡ some out) ⊎ ((refs : List TagRef) × Memᴰ (k, refs) rest)

    IsAhead-insert :
        (k j : Text) (r x : TagRef) (out xs refs : List TagRef)
        (chosen rest : Dict Text (List TagRef))
        → picks k ≡ some (r ∷ out)
        → picks j ≡ some (x ∷ xs)
        → IsAhead k (r ∷ out) chosen ((j, refs) ∷ rest)
        → IsAhead k (r ∷ out) (insert j (x ∷ xs) chosen) rest
    IsAhead-insert k j r x out xs refs chosen rest p q a = elim (Bool-cases (text_beq j k)) [
      | inl b ↦
          let same : j ≡ k = (text_beq_iff j k).0 b in
          let value : some (x ∷ xs) ≡ some (r ∷ out) = sym q ∙ ap picks same ∙ p in
          inl (rw (lookup-insert j k (x ∷ xs) chosen, b) value)
      | inr b ↦ elim a [
        | inl h ↦ inl (rw (lookup-insert j k (x ∷ xs) chosen, b) h)
        | inr (tags, m) ↦ elim (Memᴰ.cases_cons m) [
          | inl e ↦
              let same : j ≡ k = ap (λ y. y.0) (sym e) in let back = (text_beq_iff j k).1 same in cc
          | inr n ↦ inr (tags, n)
        ]
      ]
    ]

    choose_all-lookup :
        (rest chosen d : Dict Text (List TagRef)) (k : Text) (r : TagRef) (out : List TagRef)
        → All IsListed rest
        → choose_all within db vector limit stage rest chosen ≡ some d
        → picks k ≡ some (r ∷ out)
        → IsAhead k (r ∷ out) chosen rest
        → lookup k d ≡ some (r ∷ out)
    unfolding choose_all
    choose_all-lookup [] chosen d k r out l e p (inl h) =
        let same : chosen ≡ d = cc in ap (lookup k) (sym same) ∙ h
    choose_all-lookup [] chosen d k r out l e p (inr (refs, m)) = absurd (Memᴰ.not-nil m)
    choose_all-lookup ((j, refs) ∷ rest) chosen d k r out (same, l) e p a =
        elim (Option-cases (picks j)) [
          | inl q ↦ let bad : none ≡ some d = rw (same, q) at e in cc
          | inr ([], q) ↦ choose_all-lookup rest chosen d k r out l (rw (same, q) at e) p (elim a [
            | inl h ↦ inl h
            | inr (tags, m) ↦ elim (Memᴰ.cases_cons m) [
              | inl x ↦
                  let value : some (r ∷ out) ≡ some [] = sym p ∙ ap picks (ap (λ y. y.0) x) ∙ q in
                  cc
              | inr n ↦ inr (tags, n)
            ]
          ])
          | inr (x ∷ xs, q) ↦
              choose_all-lookup rest (insert j (x ∷ xs) chosen) d k r out l (rw (same, q) at e) p
                (IsAhead-insert k j r x out xs refs chosen rest p q a)
        ]

    -- Every tag that is chosen of a repository in the database is offered.
    abbrev pub IsWhole : List Candidate → Text × List TagRef → Type 0
    IsWhole cs entry =
        OnSome
          (λ (repo : Repository). OnSome (All (IsOffered db.image_tags cs entry.0)) (
            select_tags entry.1 limit (allowed_at within db vector entry.0 stage)
              stage.version_prefix))
          (get_repository entry.0 db.repositories)

    abbrev pub IsComplete : Dict Text (List Evidence) → List Candidate → Type 0
    IsComplete evidence cs = All (IsWhole cs) (refs_of_all db.image_tags evidence)

    OnSome-of {ℓ κ} :
        {A : Type ℓ} (P : A → Type κ) (o : Option A) → ((a : A) → o ≡ some a → P a) → OnSome P o
    OnSome-of P none h = tt
    OnSome-of P (some a) h = h a refl

    entry_complete :
        (evidence : Dict Text (List Evidence)) (d : Dict Text (List TagRef)) (cs : List Candidate)
        → All IsListed (refs_of_all db.image_tags evidence)
        → choose_all within db vector limit stage (refs_of_all db.image_tags evidence) [] ≡ some d
        → build_all within db vector evidence d ≡ some cs
        → (k : Text) → Memᴰ (k, tag_refs db.image_tags k) (refs_of_all db.image_tags evidence)
        → (repo : Repository) → get_repository k db.repositories ≡ some repo
        → (out : List TagRef) → picks k ≡ some out
        → All (IsOffered db.image_tags cs k) out
    entry_complete evidence d cs l e b k m repo g [] p = tt
    entry_complete evidence d cs l e b k m repo g (r ∷ out) p =
        let there = choose_all-lookup _ [] d k r out l e p (inr (_, m)) in
        let entry = lookup-mem k (r ∷ out) d there in
        All-imp (λ ref n. build_all-IsOffered evidence d cs k repo (r ∷ out) ref g b entry n)
          (r ∷ out) (All-mem (r ∷ out))

    pub choose_all-IsComplete :
        (evidence : Dict Text (List Evidence)) (d : Dict Text (List TagRef)) (cs : List Candidate)
        → All IsListed (refs_of_all db.image_tags evidence)
        → choose_all within db vector limit stage (refs_of_all db.image_tags evidence) [] ≡ some d
        → build_all within db vector evidence d ≡ some cs
        → IsComplete evidence cs
    choose_all-IsComplete evidence d cs l e b =
        All-imp {Q = IsWhole cs}
          (λ entry m.
            let listed = All-at IsListed entry (refs_of_all db.image_tags evidence) l m in
            OnSome-of _ (get_repository entry.0 db.repositories) (λ repo g. OnSome-of _ _ (λ out p.
              entry_complete evidence d cs l e b entry.0
                (subst (λ ts. Memᴰ (entry.0, ts) (refs_of_all db.image_tags evidence)) listed m)
                repo g out
                (subst
                  (λ ts.
                    select_tags ts limit (allowed_at within db vector entry.0 stage)
                      stage.version_prefix
                    ≡ some out)
                  listed p))))
          (refs_of_all db.image_tags evidence) (All-mem (refs_of_all db.image_tags evidence))
