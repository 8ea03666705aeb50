-- ===== src/Derive/Repository/Settle.antt =====
-- collect/derive.py: what the updates make of one row.
use mathlib.Core.List.{Memᴰ}
use mathlib.Core.List.Memᴰ
use whatfrom.Prelude.{
  ℕ, ◌≡◌, refl, sym, ◌∙◌, ap, subst, inl, inr, true, false, some, List, [], ◌∷◌, map, arith, All,
  All-imp, Bool-cases, Option-cases, ◌==◌, ==_iff,
}
use whatfrom.Prelude.Eq.{Text, text_eq, nat_eq, option_beq_iff}
use whatfrom.Prelude.Dict.{Dict, lookup}
use whatfrom.Models.{ImageTag}
use whatfrom.Derive.Resolve.{Derived}
use whatfrom.Derive.Repository.{
  columns_of, with_columns, same_columns, changed_of, change_row, update_rows,
}

-- What the updates make of one row.
abbrev pub settle : List (ℕ × Derived) → ImageTag → ImageTag
settle [] row = row
settle (change ∷ changes) row = settle changes (change_row change row)

map-settle :
    (change : ℕ × Derived) (changes : List (ℕ × Derived)) (tags : List ImageTag)
    → map (settle changes) (map (change_row change) tags) ≡ map (settle (change ∷ changes)) tags
map-settle change changes [] = refl
map-settle change changes (t ∷ tags) =
    ap (λ ts. settle changes (change_row change t) ∷ ts) (map-settle change changes tags)

map-same : (tags : List ImageTag) → tags ≡ map (settle []) tags
map-same [] = refl
map-same (t ∷ tags) = ap (λ ts. t ∷ ts) (map-same tags)

pub update_rows-settle :
    (changes : List (ℕ × Derived)) (tags : List ImageTag)
    → update_rows changes tags ≡ map (settle changes) tags
update_rows-settle [] tags = map-same tags
update_rows-settle (change ∷ changes) tags =
    update_rows-settle changes (map (change_row change) tags) ∙ map-settle change changes tags

-- Only the derived columns of a row change.
abbrev pub IsFrame : ImageTag → ImageTag → Type 0
IsFrame before after = after ≡ with_columns (columns_of after) before

change_row-IsFrame : (change : ℕ × Derived) (row : ImageTag) → IsFrame row (change_row change row)
change_row-IsFrame (id, new) row = elim (Bool-cases (row.id == id)) [
  | inl q ↦ rw q refl
  | inr q ↦ rw q refl
]

IsFrame-trans : (a b c : ImageTag) → IsFrame a b → IsFrame b c → IsFrame a c
IsFrame-trans a b c h k = k ∙ ap (with_columns (columns_of c)) h

pub settle-IsFrame :
    (changes : List (ℕ × Derived)) (row : ImageTag) → IsFrame row (settle changes row)
settle-IsFrame [] row = refl
settle-IsFrame (change ∷ changes) row =
    IsFrame-trans row (change_row change row) _ (change_row-IsFrame change row)
      (settle-IsFrame changes (change_row change row))

same_columns-eq : (a b : Derived) → same_columns a b ≡ true → a ≡ b
same_columns-eq a b h =
    let e1 = (option_beq_iff a.language_version b.language_version).0 (ground arith) in
    let e2 = (option_beq_iff a.version_major_minor b.version_major_minor).0 (ground arith) in
    let e3 = (option_beq_iff a.distribution b.distribution).0 (ground arith) in
    let e4 = (option_beq_iff a.distro_codename b.distro_codename).0 (ground arith) in
    let e5 = (option_beq_iff a.variant b.variant).0 (ground arith) in
    λ i. record {
      language_version = e1 i;
      version_major_minor = e2 i;
      distribution = e3 i;
      distro_codename = e4 i;
      variant = e5 i;
    }

same_columns_refl : (a : Derived) → same_columns a a ≡ true
same_columns_refl a =
    let s1 = (option_beq_iff a.language_version a.language_version).1 refl in
    let s2 = (option_beq_iff a.version_major_minor a.version_major_minor).1 refl in
    let s3 = (option_beq_iff a.distribution a.distribution).1 refl in
    let s4 = (option_beq_iff a.distro_codename a.distro_codename).1 refl in
    let s5 = (option_beq_iff a.variant a.variant).1 refl in rw (s1, s2, s3, s4, s5) refl

abbrev pub IsOwn : ImageTag → ImageTag → Type 0
IsOwn row r = r.id ≡ row.id → r ≡ row

module _ (found : Dict Text Derived) where
  abbrev Gives : ImageTag → Derived → ImageTag → Type 0
  Gives row d r = r.id ≡ row.id → lookup r.tag found ≡ some d

  Gives-IsOwn :
      (row : ImageTag) (d : Derived) (r : ImageTag)
      → lookup row.tag found ≡ some d
      → IsOwn row r
      → Gives row d r
  Gives-IsOwn row d r h own k = ap (λ (x : ImageTag). lookup x.tag found) (own k) ∙ h

  -- A row whose columns are the values that its key is given keeps them.
  settle_done :
      (rows : List ImageTag) (row : ImageTag)
      → All (Gives row (columns_of row)) rows
      → columns_of (settle (changed_of found rows) row) ≡ columns_of row
  settle_done [] row h = refl
  settle_done (r ∷ rows) row h =
      let rest = settle_done rows row h.1 in
      elim (Option-cases (lookup r.tag found)) [
        | inl q ↦ rw q rest
        | inr (new, q) ↦ elim (Bool-cases (same_columns new (columns_of r))) [
          | inl s ↦ rw (q, s) rest
          | inr s ↦ elim (Bool-cases (row.id == r.id)) [
            | inl e ↦
                let both : some new ≡ some (columns_of row) =
                  sym q ∙ h.0 (sym ((==_iff row.id r.id).0 e)) in
                let same : columns_of row ≡ new = cc in
                rw (q, s, e)
                  (subst (λ d. columns_of (settle (changed_of found rows) (with_columns d row)) ≡ d)
                      same rest
                    ∙ sym same)
            | inr e ↦ rw (q, s, e) rest
          ]
        ]
      ]

  settle_other :
      (r row : ImageTag) (rows : List ImageTag)
      → row.id == r.id ≡ false
      → settle (changed_of found (r ∷ rows)) row ≡ settle (changed_of found rows) row
  settle_other r row rows e = elim (Option-cases (lookup r.tag found)) [
    | inl q ↦ rw q refl
    | inr (new, q) ↦ elim (Bool-cases (same_columns new (columns_of r))) [
      | inl s ↦ rw (q, s) refl
      | inr s ↦ rw (q, s, e) refl
    ]
  ]

  -- A row of the list gets the values of its tag, where its key is its own.
  pub settle_reach :
      (rows : List ImageTag) (row : ImageTag) (d : Derived)
      → Memᴰ row rows
      → All (IsOwn row) rows
      → lookup row.tag found ≡ some d
      → columns_of (settle (changed_of found rows) row) ≡ d
  settle_reach [] row d m u h = absurd (Memᴰ.not-nil m)
  settle_reach (r ∷ rows) row d m u h = elim (Bool-cases (row.id == r.id)) [
    | inl e ↦
        let same : r ≡ row = u.0 (sym ((==_iff row.id r.id).0 e)) in
        let q : lookup r.tag found ≡ some d = ap (λ (x : ImageTag). lookup x.tag found) same ∙ h in
        let settled = All-imp {Q = Gives row d} (λ x. Gives-IsOwn row d x h) rows u.1 in
        elim (Bool-cases (same_columns d (columns_of r))) [
          | inl s ↦
              let now : columns_of row ≡ d =
                sym (same_columns-eq d (columns_of r) s ∙ ap columns_of same) in
              rw (q, s)
                (settle_done rows row (subst (λ c. All (Gives row c) rows) (sym now) settled) ∙ now)
          | inr s ↦ rw (q, s, e) (settle_done rows (with_columns d row) settled)
        ]
    | inr e ↦ elim (Memᴰ.cases_cons m) [
      | inl same ↦
          let id : row.id == r.id ≡ true =
            (==_iff row.id r.id).1 (ap (λ (x : ImageTag). x.id) same) in
          cc
      | inr n ↦ ap columns_of (settle_other r row rows e) ∙ settle_reach rows row d n u.1 h
    ]
  ]

  pub settle_outside :
      (rows : List ImageTag) (row : ImageTag)
      → All (λ (r : ImageTag). row.id == r.id ≡ false) rows
      → settle (changed_of found rows) row ≡ row
  settle_outside [] row h = refl
  settle_outside (r ∷ rows) row h = settle_other r row rows h.0 ∙ settle_outside rows row h.1

  pub changed_of-nil :
      (rows : List ImageTag)
      → All (λ (r : ImageTag). lookup r.tag found ≡ some (columns_of r)) rows
      → changed_of found rows ≡ []
  changed_of-nil [] h = refl
  changed_of-nil (r ∷ rows) h = rw (h.0, same_columns_refl (columns_of r)) (changed_of-nil rows h.1)
