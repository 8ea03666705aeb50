-- ===== src/Derive/Parse/Facts.antt =====
-- collect/tagparse.py: how the facts come from the name.
use whatfrom.Prelude.{
  ◌≡◌, ◌⊎◌, refl, sym, ap, inl, inr, true, false, ◌||◌, ◌&&◌, ||_iff, Option, none, some, List, [],
  ◌∷◌, ◌++◌, arith, OnSome, OnSome-imp, subst, Bool-cases,
}
use whatfrom.Prelude.Eq.{Text, elem, text_eq, nat_eq, text_beq}
use whatfrom.Prelude.Text.{codes, split, join, join-split}
use whatfrom.Filters.{is_none}
use whatfrom.Versions.{extends_version}
use whatfrom.Versions.Order.{Extends, extends_version_iff}
use whatfrom.Derive.Parse.{
  Reading, is_text, windows_words, variant_words, debian_codenames, ubuntu_codenames,
  os_repositories, add_variant, is_ltsc_token, is_windows_release, is_java8_build, starts_version,
  with_build, read_version, alpine_token, ubi_token, read_word, read_ubi, read_alpine, read_token,
  takes_next, read_tokens, facts_of, parse_tag,
}

-- A text of parts extends its first part, and the first two.
Extends-join : (token : Text) (rest : List Text) → Extends token (join b'-' (token ∷ rest))
Extends-join token [] = inl refl
Extends-join token (next ∷ rest) = inr (b'-', join b'-' (next ∷ rest), refl, refl)

append_assoc : (xs ys zs : Text) → (xs ++ ys) ++ zs ≡ xs ++ (ys ++ zs)
append_assoc [] ys zs = refl
append_assoc (x ∷ xs) ys zs = ap (λ u. x ∷ u) (append_assoc xs ys zs)

Extends-join_two :
    (token next : Text) (rest : List Text)
    → Extends (token ++ b'-' ∷ next) (join b'-' (token ∷ next ∷ rest))
Extends-join_two token next [] = inl refl
Extends-join_two token next (t ∷ rest) = inr (
  b'-',
  join b'-' (t ∷ rest),
  refl,
  sym (append_assoc token (b'-' ∷ next) (b'-' ∷ join b'-' (t ∷ rest))),
)

with_build-Extends :
    (token : Text) (rest : List Text)
    → OnSome (λ v. Extends v (join b'-' (token ∷ rest))) (with_build token rest).0
with_build-Extends token [] = inl refl
with_build-Extends token (next ∷ rest) = elim (Bool-cases (is_java8_build next)) [
  | inl q ↦ rw q (Extends-join_two token next rest)
  | inr q ↦ rw q (Extends-join token (next ∷ rest))
]

read_version-Extends :
    (tokens : List Text) → OnSome (λ v. Extends v (join b'-' tokens)) (read_version tokens).0
read_version-Extends [] = tt
read_version-Extends (token ∷ rest) = elim (Bool-cases (starts_version token)) [
  | inl q ↦ rw q (with_build-Extends token rest)
  | inr q ↦ rw q tt
]

-- The version that is read from a tag is one that the tag extends.
pub parse_tag-extends_version :
    (tag repository : Text)
    → OnSome (λ v. extends_version v tag ≡ true) (parse_tag tag repository).version
unfolding parse_tag
parse_tag-extends_version tag repository =
    OnSome-imp (read_version (split b'-' tag)).0
      (λ v h. (extends_version_iff v tag).1 (subst (Extends v) (join-split b'-' tag) h))
      (read_version-Extends (split b'-' tag))

-- A codename stands with its distribution, but for that of a Windows release.
abbrev pub IsPlaced : Option Text → Option Text → Type 0
IsPlaced distribution none = Unit
IsPlaced distribution (some codename) =
    (is_none distribution ≡ false) ⊎ (is_ltsc_token codename ≡ true)

abbrev Placed : Reading → Type 0
Placed r = IsPlaced r.distribution r.codename

IsPlaced-some : (d : Text) (codename : Option Text) → IsPlaced (some d) codename
IsPlaced-some d none = tt
IsPlaced-some d (some codename) = inl refl

is_none-text : (t : Text) (o : Option Text) → is_text t o ≡ true → is_none o ≡ false
is_none-text t none h = cc
is_none-text t (some s) h = refl

add_variant-Placed : (token : Text) (r : Reading) → Placed r → Placed (add_variant token r)
add_variant-Placed token r h = elim (Bool-cases (elem token windows_words)) [
  | inl q ↦ rw q (IsPlaced-some (codes "windows") r.codename)
  | inr q ↦ rw q h
]

read_word-Placed : (token : Text) (r : Reading) → Placed r → Placed (read_word token r)
read_word-Placed token r h =
    let release = is_text (codes "windows") r.distribution && is_windows_release token in
    elim (Bool-cases (is_ltsc_token token || release)) [
      | inl q ↦ rw q (elim ((||_iff (is_ltsc_token token) release).0 q) [
        | inl l ↦ inr l
        | inr w ↦ inl (is_none-text (codes "windows") r.distribution (ground arith))
      ])
      | inr q ↦ elim (Bool-cases (elem token variant_words)) [
        | inl v ↦ rw (q, v) (add_variant-Placed token r h)
        | inr v ↦ rw (q, v) h
      ]
    ]

read_ubi-Placed :
    (token : Text) (o : Option Text) (r : Reading) → Placed r → Placed (read_ubi token o r)
read_ubi-Placed token none r h = read_word-Placed token r h
read_ubi-Placed token (some v) r h = inl refl

read_alpine-Placed :
    (token : Text) (o : Option (Option Text)) (r : Reading)
    → Placed r
    → Placed (read_alpine token o r)
read_alpine-Placed token none r h = read_ubi-Placed token (ubi_token token) r h
read_alpine-Placed token (some v) r h = IsPlaced-some (codes "alpine") v

read_token-Placed : (token : Text) (r : Reading) → Placed r → Placed (read_token token r)
read_token-Placed token r h = elim (Bool-cases (elem token debian_codenames)) [
  | inl q ↦ rw q (inl refl)
  | inr q ↦ elim (Bool-cases (elem token ubuntu_codenames)) [
    | inl v ↦ rw (q, v) (inl refl)
    | inr v ↦ rw (q, v) (read_alpine-Placed token (alpine_token token) r h)
  ]
]

read_tokens-Placed : (tokens : List Text) (r : Reading) → Placed r → Placed (read_tokens tokens r)
unfolding read_tokens
read_tokens-Placed [] r h = h
read_tokens-Placed (token ∷ []) r h = read_token-Placed token r h
read_tokens-Placed (token ∷ next ∷ rest) r h = elim (Bool-cases (takes_next token next)) [
  | inl q ↦ rw q (read_tokens-Placed rest _ (inl refl))
  | inr q ↦ rw q (read_tokens-Placed (next ∷ rest) _ (read_token-Placed token r h))
]

facts_of-Placed :
    (repository : Text) (version : Option Text) (r : Reading)
    → Placed r
    → let f = facts_of repository version r in IsPlaced f.distribution f.codename
facts_of-Placed repository version r h = elim (Bool-cases (elem repository os_repositories)) [
  | inl q ↦ rw q (IsPlaced-some repository _)
  | inr q ↦
      let other : text_beq repository (codes "alpine") ≡ false = ground arith in rw (q, other) h
]

-- A codename that is read from a tag stands with a distribution, unless it is a release of Windows
-- that the word `ltsc` marks.
pub parse_tag-IsPlaced :
    (tag repository : Text) → let f = parse_tag tag repository in IsPlaced f.distribution f.codename
unfolding parse_tag
parse_tag-IsPlaced tag repository =
    let (version, rest) = read_version (split b'-' tag) in
    let start : Reading = record { distribution = none; codename = none; variants = [] } in
    facts_of-Placed repository version (read_tokens rest start) (read_tokens-Placed rest start tt)
