-- ===== src/Derive/Resolve.antt =====
-- collect/derive.py: the values of a tag, with those of the other tags of its image.
use whatfrom.Prelude.{
  ℕ, suc, ◌+◌, Bool, true, false, not, ◌||◌, ◌&&◌, Option, none, some, List, [], ◌∷◌, ◌++◌, map,
  any, all, filter, if◌then◌else◌, ltb,
}
use whatfrom.Prelude.Eq.{Text, elem, dedupe, text_eq, text_beq, option_beq}
use whatfrom.Prelude.Text.{codes, is_nil}
use whatfrom.Prelude.Integers.{pair_eq}
use whatfrom.Prelude.Dict.{Dict, lookup, insert, or_nil}
use whatfrom.Versions.{extends_version}
use whatfrom.Filters.{is_none}
use whatfrom.Derive.Parse.{TagFacts, major_minor}
pub mod Own
pub mod Chain

-- The platforms for Linux of a tag: a set of (architecture, arch_variant, digest).
abbrev pub Fingerprint : Type 0
Fingerprint = List (Text × Text × Text)

abbrev same_platform : Text × Text × Text → Text × Text × Text → Bool
same_platform (a, b, c) (d, e, f) = text_beq a d && (text_beq b e && text_beq c f)

abbrev pub same_fingerprint : Fingerprint → Fingerprint → Bool
same_fingerprint xs ys =
    all (λ x. any (same_platform x) ys) xs && all (λ y. any (same_platform y) xs) ys

pub record Derived : Type 0 where
  pub language_version : Option Text
  pub version_major_minor : Option Text
  pub distribution : Option Text
  pub distro_codename : Option Text
  pub variant : Option Text

-- `{f(x) for x in group if f(x)}`, as a list: an empty text counts as no value.
abbrev add_value : Option Text → List Text → List Text
add_value none values = values
add_value (some []) values = values
add_value (some (c ∷ t)) values = (c ∷ t) ∷ values

abbrev pub values_of : (TagFacts → Option Text) → List TagFacts → List Text
values_of f [] = []
values_of f (x ∷ group) = add_value (f x) (values_of f group)

-- `_chain_end`
abbrev pub chain_end_in : List Text → List Text → Option Text
chain_end_in versions [] = none
chain_end_in versions (candidate ∷ rest) =
    let more = chain_end_in versions rest in
    if all (λ other. extends_version other candidate) versions then some candidate else more

abbrev pub chain_end : List Text → Option Text
chain_end versions = chain_end_in versions versions

-- `_single`
abbrev one_of : List Text → Option Text × Bool
one_of [] = (none, false)
one_of (v ∷ []) = (some v, false)
one_of (v ∷ w ∷ values) = (none, true)

abbrev pub single : List Text → Option Text × Bool
single values = one_of (dedupe values)

-- The value of the name, or that of the others; and whether they disagree.
abbrev pub inherit : Option Text → List Text → Option Text × Bool
inherit (some own) values = (some own, false)
inherit none values = single values

abbrev full_or : Option Text × Bool → Option Text × Bool
full_or (some v, clash) = (some v, clash)
full_or (none, true) = (none, true)
full_or (none, false) = (some (codes "full"), false)

abbrev pub inherit_variant : Option Text → List Text → Option Text × Bool
inherit_variant (some own) values = (some own, false)
inherit_variant none values = full_or (single values)

abbrev or_own : Text → Option Text → Option Text
or_own own none = some own
or_own own (some v) = some v

abbrev pub inherit_version : Option Text → List Text → Option Text × Bool
inherit_version (some own) versions =
    (or_own own (chain_end (filter (λ v. extends_version own v) versions)), false)
inherit_version none [] = (none, false)
inherit_version none (v ∷ versions) = (chain_end (v ∷ versions), is_none (chain_end (v ∷ versions)))

abbrev pub count_of : Bool → ℕ
count_of true = 1
count_of false = 0

abbrev pub same_distribution : Option Text → TagFacts → Option Text
same_distribution distribution f =
    if option_beq f.distribution distribution then f.codename else none

-- The values of one tag from its facts and those of its group, and the number of conflicts.
unfoldable pub resolve_tag : TagFacts → List TagFacts → Derived × ℕ
resolve_tag own group =
    let (distribution, a) =
      inherit own.distribution (values_of (λ (f : TagFacts). f.distribution) group) in
    let (codename, b) = inherit own.codename (values_of (same_distribution distribution) group) in
    let (variant, c) =
      inherit_variant own.variant (values_of (λ (f : TagFacts). f.variant) group) in
    let (version, d) =
      inherit_version own.version (values_of (λ (f : TagFacts). f.version) group) in
    (
      record {
        language_version = version;
        version_major_minor = major_minor version;
        distribution = distribution;
        distro_codename = codename;
        variant = variant;
      },
      count_of a + (count_of b + (count_of c + count_of d)),
    )

-- The tags of every fingerprint that is not empty, in order.
abbrev pub Groups : Type 0
Groups = List (Fingerprint × List Text)

abbrev pub add_to_group : Fingerprint → Text → Groups → Groups
add_to_group fingerprint tag [] = (fingerprint, tag ∷ []) ∷ []
add_to_group fingerprint tag ((f, tags) ∷ groups) =
    let rest = add_to_group fingerprint tag groups in
    if same_fingerprint f fingerprint then (f, tags ++ tag ∷ []) ∷ groups else (f, tags) ∷ rest

abbrev pub group_tags : Fingerprint → Groups → List Text
group_tags fingerprint [] = []
group_tags fingerprint ((f, tags) ∷ groups) =
    let rest = group_tags fingerprint groups in
    if same_fingerprint f fingerprint then tags else rest

abbrev pub groups_from : Dict Text TagFacts → Dict Text Fingerprint → Groups → Groups
groups_from facts [] groups = groups
groups_from facts ((tag, fingerprint) ∷ fingerprints) groups = groups_from facts fingerprints (
    if not (is_nil fingerprint) && not (is_none (lookup tag facts))
    then add_to_group fingerprint tag groups
    else groups)

-- `[facts[other] for other in tags]`; all tags of a group have facts.
abbrev add_facts : Option TagFacts → List TagFacts → List TagFacts
add_facts none group = group
add_facts (some f) group = f ∷ group

abbrev pub facts_of_tags : Dict Text TagFacts → List Text → List TagFacts
facts_of_tags facts [] = []
facts_of_tags facts (tag ∷ tags) = add_facts (lookup tag facts) (facts_of_tags facts tags)

abbrev pub group_of : Dict Text TagFacts → Groups → Option Fingerprint → List TagFacts
group_of facts groups none = []
group_of facts groups (some fingerprint) =
    if is_nil fingerprint then [] else facts_of_tags facts (group_tags fingerprint groups)

pub record Resolution : Type 0 where
  pub values : Dict Text Derived
  pub conflict_fields : ℕ
  pub conflict_tags : ℕ

abbrev pub add_values : Text → Derived × ℕ → Resolution → Resolution
add_values tag (derived, conflicts) r = record {
  values = insert tag derived r.values;
  conflict_fields = r.conflict_fields + conflicts;
  conflict_tags = r.conflict_tags + count_of (ltb 0 conflicts);
}

abbrev pub resolve_each :
    Dict Text TagFacts
    → Dict Text Fingerprint
    → Groups
    → Dict Text TagFacts
    → Resolution
    → Resolution
resolve_each facts fingerprints groups [] r = r
resolve_each facts fingerprints groups ((tag, own) ∷ rest) r =
    resolve_each facts fingerprints groups rest
      (add_values tag (resolve_tag own (group_of facts groups (lookup tag fingerprints))) r)

unfoldable pub resolve_aliases : Dict Text TagFacts → Dict Text Fingerprint → Resolution
resolve_aliases facts fingerprints =
    resolve_each facts fingerprints (groups_from facts fingerprints []) facts
      (record { values = []; conflict_fields = 0; conflict_tags = 0 })
