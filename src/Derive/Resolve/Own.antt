-- ===== src/Derive/Resolve/Own.antt =====
-- collect/derive.py: the values of the name are kept, and the others come from the same image.
use mathlib.Core.List.{Memᴰ}
use mathlib.Core.List.Memᴰ
use whatfrom.Prelude.{
  ◌≡◌, ◌≢◌, subst, ◌⊎◌, refl, ap, inl, inr, true, false, Option, none, some, List, [], ◌∷◌, all,
  filter, All, All-imp, OnSome, Bool-cases,
}
use whatfrom.Prelude.Eq.{Text, elem, dedupe, text_eq, option_beq, option_beq_iff}
use whatfrom.Prelude.Text.{codes}
use whatfrom.Prelude.Members.{mem-filter, All-at, All-mem, elem-mem, mem-elem}
use whatfrom.Versions.{extends_version}
use whatfrom.Derive.Parse.{TagFacts, major_minor}
use whatfrom.Derive.Resolve.{
  add_value, values_of, chain_end_in, one_of, single, inherit, full_or, inherit_variant, or_own,
  inherit_version, same_distribution, resolve_tag,
}

-- A value that the field of some tag of the group has.
abbrev pub FromGroup : (TagFacts → Option Text) → List TagFacts → Text → Type 0
FromGroup f group v = (x : TagFacts) × Memᴰ x group × (f x ≡ some v)

FromGroup-tail :
    (f : TagFacts → Option Text) (x : TagFacts) (group : List TagFacts) (v : Text)
    → FromGroup f group v
    → FromGroup f (x ∷ group) v
FromGroup-tail f x group v (y, m, e) = (y, Memᴰ.tail m, e)

values_of-FromGroup :
    (f : TagFacts → Option Text) (group : List TagFacts)
    → All (FromGroup f group) (values_of f group)
values_of-FromGroup f [] = tt
values_of-FromGroup f (x ∷ group) = added (values_of-FromGroup f group) (f x) refl
  where
    added :
        All (FromGroup f group) (values_of f group)
        → (o : Option Text) → f x ≡ o
        → All (FromGroup f (x ∷ group)) (add_value o (values_of f group))
    added h none e = All-imp (FromGroup-tail f x group) _ h
    added h (some []) e = All-imp (FromGroup-tail f x group) _ h
    added h (some (c ∷ t)) e = ((x, Memᴰ.head refl, e), All-imp (FromGroup-tail f x group) _ h)

All-dedupe : (P : Text → Type 0) (xs : List Text) → All P xs → All P (dedupe xs)
All-dedupe P [] h = tt
All-dedupe P (x ∷ xs) h = elim (Bool-cases (elem x (dedupe xs))) [
  | inl q ↦ rw q (All-dedupe P xs h.1)
  | inr q ↦ rw q (h.0, All-dedupe P xs h.1)
]

dedupe-mem : (a : Text) (xs : List Text) → Memᴰ a xs → Memᴰ a (dedupe xs)
dedupe-mem a [] m = absurd (Memᴰ.not-nil m)
dedupe-mem a (x ∷ xs) m = elim (Bool-cases (elem x (dedupe xs))) [
  | inl q ↦ rw q (elim (Memᴰ.cases_cons m) [
    | inl e ↦ rw e (elem-mem x (dedupe xs) q)
    | inr n ↦ dedupe-mem a xs n
  ])
  | inr q ↦
      rw q
        (elim (Memᴰ.cases_cons m) [ inl e ↦ Memᴰ.head e | inr n ↦ Memᴰ.tail (dedupe-mem a xs n) ])
]

dedupe-head : (xs : List Text) (v : Text) (r : List Text) → dedupe xs ≡ v ∷ r → elem v r ≡ false
dedupe-head [] v r e = cc
dedupe-head (x ∷ xs) v r e = elim (Bool-cases (elem x (dedupe xs))) [
  | inl q ↦ dedupe-head xs v r (rw q at e)
  | inr q ↦ let both : x ∷ dedupe xs ≡ v ∷ r = rw q at e in cc
]

-- One value that all of them are; without it there are none, or two that differ.
abbrev pub Agreed : List Text → Option Text → Type 0
Agreed values (some v) = Memᴰ v values × All (λ w. w ≡ v) values
Agreed values none =
    (values ≡ []) ⊎ ((v : Text) × (w : Text) × Memᴰ v values × Memᴰ w values × (v ≢ w))

one_of-Agreed :
    (values set : List Text)
    → dedupe values ≡ set
    → ((v : Text) → Memᴰ v set → Memᴰ v values)
    → All (λ w. Memᴰ w set) values
    → Agreed values (one_of set).0
one_of-Agreed [] [] e back all = inl refl
one_of-Agreed (x ∷ values) [] e back all = absurd (Memᴰ.not-nil all.0)
one_of-Agreed values (v ∷ []) e back all = (
  back v (Memᴰ.head refl),
  All-imp (λ w m. elim (Memᴰ.cases_cons m) [ inl k ↦ k | inr n ↦ absurd (Memᴰ.not-nil n) ]) values
      all,
)
one_of-Agreed values (v ∷ w ∷ set) e back all =
    let apart = dedupe-head values v (w ∷ set) e in
    inr (
      v,
      w,
      back v (Memᴰ.head refl),
      back w (Memᴰ.tail (Memᴰ.head refl)),
      λ k. let here = mem-elem v (w ∷ set) (Memᴰ.head k) in cc,
    )

single-Agreed : (values : List Text) → Agreed values (single values).0
single-Agreed values =
    one_of-Agreed values (dedupe values) refl
      (λ v m.
        All-at (λ w. Memᴰ w values) v (dedupe values) (All-dedupe _ values (All-mem values)) m)
      (All-imp (λ w m. dedupe-mem w values m) values (All-mem values))

one_of-All : (P : Text → Type 0) (xs : List Text) → All P xs → OnSome P (one_of xs).0
one_of-All P [] h = tt
one_of-All P (x ∷ []) h = h.0
one_of-All P (x ∷ y ∷ xs) h = tt

single-All : (P : Text → Type 0) (xs : List Text) → All P xs → OnSome P (single xs).0
single-All P xs h = one_of-All P (dedupe xs) (All-dedupe P xs h)

-- What a field comes from: the value of the name, which is kept, or the group, where all agree.
abbrev pub Inherited : Option Text → (Text → Type 0) → List Text → Option Text → Type 0
Inherited (some own) P values value = value ≡ some own
Inherited none P values value = OnSome P value × Agreed values value

inherit-Inherited :
    (own : Option Text) (P : Text → Type 0) (values : List Text)
    → All P values
    → Inherited own P values (inherit own values).0
inherit-Inherited none P values h = (single-All P values h, single-Agreed values)
inherit-Inherited (some own) P values h = refl

-- The variant is `full` where the group has none.
abbrev pub InheritedVariant : Option Text → (Text → Type 0) → List Text → Option Text → Type 0
InheritedVariant (some own) P values value = value ≡ some own
InheritedVariant none P values value =
    (OnSome P value × Agreed values value × (values ≢ []))
    ⊎ ((values ≡ []) × (value ≡ some (codes "full")))

full_or-InheritedVariant :
    (P : Text → Type 0) (values set : List Text)
    → OnSome P (one_of set).0
    → Agreed values (one_of set).0
    → (set ≡ [] → values ≡ [])
    → (values ≡ [] → set ≡ [])
    → InheritedVariant none P values (full_or (one_of set)).0
full_or-InheritedVariant P values [] h a nil back = inr (nil refl, refl)
full_or-InheritedVariant P values (v ∷ []) h a nil back =
    inl (h, a, λ e. let none_left = back e in cc)
full_or-InheritedVariant P values (v ∷ w ∷ set) h a nil back =
    inl (h, a, λ e. let none_left = back e in cc)

dedupe-nil : (xs : List Text) → dedupe xs ≡ [] → xs ≡ []
dedupe-nil [] e = refl
dedupe-nil (x ∷ xs) e =
    let m : Memᴰ x [] = subst (Memᴰ x) e (dedupe-mem x (x ∷ xs) (Memᴰ.head refl)) in
    absurd (Memᴰ.not-nil m)

inherit_variant-InheritedVariant :
    (own : Option Text) (P : Text → Type 0) (values : List Text)
    → All P values
    → InheritedVariant own P values (inherit_variant own values).0
inherit_variant-InheritedVariant none P values h =
    full_or-InheritedVariant P values (dedupe values) (single-All P values h) (single-Agreed values)
      (dedupe-nil values) (ap dedupe)
inherit_variant-InheritedVariant (some own) P values h = refl

-- A chain end is one of the versions, and all of them are extended by it.
abbrev pub IsEnd : List Text → Text → Type 0
IsEnd versions v = Memᴰ v versions × (all (λ other. extends_version other v) versions ≡ true)

chain_end_in-IsEnd :
    (versions candidates : List Text)
    → ((v : Text) → Memᴰ v candidates → Memᴰ v versions)
    → OnSome (IsEnd versions) (chain_end_in versions candidates)
chain_end_in-IsEnd versions [] m = tt
chain_end_in-IsEnd versions (c ∷ candidates) m =
    elim (Bool-cases (all (λ other. extends_version other c) versions)) [
      | inl q ↦ rw q (m c (Memᴰ.head refl), q)
      | inr q ↦ rw q (chain_end_in-IsEnd versions candidates (λ v k. m v (Memᴰ.tail k)))
    ]

-- The version is the one of the name or extends it; without one it is the end of the chain of the
-- versions of the group.
abbrev pub IsVersion : Option Text → List Text → Option Text → Type 0
IsVersion (some own) versions value =
    (value ≡ some own)
    ⊎ ((v : Text) × (value ≡ some v) × Memᴰ v versions × (extends_version own v ≡ true))
IsVersion none versions value = OnSome (IsEnd versions) value

or_own-IsVersion :
    (own : Text) (versions : List Text) (o : Option Text)
    → OnSome (IsEnd (filter (λ v. extends_version own v) versions)) o
    → IsVersion (some own) versions (or_own own o)
or_own-IsVersion own versions none h = inl refl
or_own-IsVersion own versions (some v) (m, a) =
    let (k, e) = mem-filter (λ w. extends_version own w) v versions m in inr (v, refl, k, e)

inherit_version-IsVersion :
    (own : Option Text) (versions : List Text)
    → IsVersion own versions (inherit_version own versions).0
inherit_version-IsVersion none [] = tt
inherit_version-IsVersion none (v ∷ versions) =
    chain_end_in-IsEnd (v ∷ versions) (v ∷ versions) (λ w m. m)
inherit_version-IsVersion (some own) versions =
    or_own-IsVersion own versions _ (chain_end_in-IsEnd _ _ (λ w m. m))

-- The codename of a tag of the group, with the distribution given.
abbrev pub WithDistribution : Option Text → List TagFacts → Text → Type 0
WithDistribution distribution group codename =
    (x : TagFacts) × Memᴰ x group × (x.codename ≡ some codename) × (x.distribution ≡ distribution)

same_distribution-from :
    (distribution : Option Text) (group : List TagFacts) (v : Text)
    → FromGroup (same_distribution distribution) group v
    → WithDistribution distribution group v
same_distribution-from distribution group v (x, m, e) =
    elim (Bool-cases (option_beq x.distribution distribution)) [
      | inl q ↦ (x, m, rw q at e, (option_beq_iff x.distribution distribution).0 q)
      | inr q ↦ let bad : none ≡ some v = rw q at e in cc
    ]

-- A value that a tag's name gives is kept; only its version may be replaced, by one of the group
-- that extends it. A distribution, codename or variant that the name does not give is the one that
-- all values of the group are, and absent exactly where there are none or two that differ; but the
-- variant is `full` where there are none. The codenames are those of the tags of the final
-- distribution. A version that the name does not give is one of the group that extends all there.
pub resolve_tag-Inherited :
    (own : TagFacts) (group : List TagFacts)
    → let d = (resolve_tag own group).0 in
      let versions = values_of (λ (f : TagFacts). f.version) group in
      Inherited own.distribution
        (FromGroup (λ (f : TagFacts). f.distribution) group)
        (values_of (λ (f : TagFacts). f.distribution) group)
        d.distribution
      × Inherited own.codename
          (WithDistribution d.distribution group)
          (values_of (same_distribution d.distribution) group)
          d.distro_codename
      × InheritedVariant own.variant
          (FromGroup (λ (f : TagFacts). f.variant) group)
          (values_of (λ (f : TagFacts). f.variant) group)
          d.variant
      × IsVersion own.version versions d.language_version
      × (d.version_major_minor ≡ major_minor d.language_version)
unfolding resolve_tag
resolve_tag-Inherited own group =
    let d = (inherit own.distribution (values_of (λ (f : TagFacts). f.distribution) group)).0 in
    (
      inherit-Inherited own.distribution _ _ (values_of-FromGroup _ group),
      inherit-Inherited own.codename (WithDistribution d group) _ (
          All-imp (same_distribution-from d group) _
            (values_of-FromGroup (same_distribution d) group)),
      inherit_variant-InheritedVariant own.variant _ _ (values_of-FromGroup _ group),
      inherit_version-IsVersion own.version _,
      refl,
    )
