-- ===== src/Derive/Parse.antt =====
-- collect/tagparse.py: what the name of a tag says. The patterns of `re` are read on ASCII digits.
use whatfrom.Prelude.{
  ℕ, zero, suc, Bool, true, false, not, ◌||◌, ◌&&◌, Option, none, some, List, [], ◌∷◌, ◌++◌,
  if◌then◌else◌, ◌==◌, leb,
}
use whatfrom.Prelude.Eq.{Text, elem, text_eq, text_beq}
use whatfrom.Prelude.Text.{codes, is_digit, is_nil, at_end, split, join, starts_with, drop}
use whatfrom.Prelude.{length, take}
pub mod Facts

pub record TagFacts : Type 0 where
  pub version : Option Text
  pub distribution : Option Text
  pub codename : Option Text
  pub variant : Option Text

abbrev space_words : Text → List Text
space_words t = split b' ' t

abbrev debian_codenames : List Text
debian_codenames = space_words (
    codes
      "buzz rex bo hamm slink potato woody sarge etch lenny squeeze wheezy jessie stretch buster bullseye bookworm trixie forky duke sid")

abbrev ubuntu_codenames : List Text
ubuntu_codenames = space_words (
    codes
      "warty hoary breezy dapper edgy feisty gutsy hardy intrepid jaunty karmic lucid maverick natty oneiric precise quantal raring saucy trusty utopic vivid wily xenial yakkety zesty artful bionic cosmic disco eoan focal groovy hirsute impish jammy kinetic lunar mantic noble oracular plucky questing resolute stonking")

abbrev pub variant_words : List Text
variant_words =
    space_words (codes "slim jre jdk minimal perl otel 32bit windowsservercore nanoserver")

abbrev windows_words : List Text
windows_words = codes "windowsservercore" ∷ codes "nanoserver" ∷ []

abbrev os_repositories : List Text
os_repositories = codes "debian" ∷ codes "ubuntu" ∷ codes "alpine" ∷ []

-- The digits that a text begins with, and what follows them.
abbrev add_digit : ℕ → Text × Text → Text × Text
add_digit c (digits, rest) = (c ∷ digits, rest)

abbrev pub digits_of : Text → Text × Text
digits_of [] = ([], [])
digits_of (c ∷ t) = let more = add_digit c (digits_of t) in if is_digit c then more else ([], c ∷ t)

-- `[0-9A-Za-z._]`
abbrev in_version : ℕ → Bool
in_version c =
    is_digit c
    || ((leb b'A' c && leb c b'Z') || ((leb b'a' c && leb c b'z') || (c == b'.' || c == b'_')))

abbrev version_to_end : Text → Bool
version_to_end [] = true
version_to_end (c ∷ t) = let rest = version_to_end t in (in_version c && rest) || at_end (c ∷ t)

-- `VERSION_TOKEN`
abbrev pub is_version_token : Text → Bool
is_version_token [] = false
is_version_token (c ∷ t) = is_digit c && version_to_end t

-- `\d+$`, of the digits and what follows.
abbrev all_digits : Text × Text → Bool
all_digits (digits, rest) = not (is_nil digits) && at_end rest

-- `\.\d+$`
abbrev fraction_to_end : Text → Bool
fraction_to_end [] = false
fraction_to_end (c ∷ t) = c == b'.' && all_digits (digits_of t)

abbrev first_digits : ℕ → Text → Bool
first_digits n t = leb n (length (digits_of t).0)

-- `DATE_TOKEN`
abbrev pub is_date_token : Text → Bool
is_date_token t = first_digits 8 t && (at_end (drop 8 t) || fraction_to_end (drop 8 t))

-- `JAVA8_BUILD`
abbrev pub is_java8_build : Text → Bool
is_java8_build t = starts_with (codes "b") t && all_digits (digits_of (drop 1 t))

-- `\d+\.\d+$`, and what it matches.
abbrev second_part : Text → Text × Text → Option Text
second_part major (minor, rest) =
    if all_digits (minor, rest) then some (major ++ b'.' ∷ minor) else none

abbrev after_major : Text → Text → Option Text
after_major major [] = none
after_major major (c ∷ t) =
    if not (is_nil major) && c == b'.' then second_part major (digits_of t) else none

abbrev two_parts : Text × Text → Option Text
two_parts (major, rest) = after_major major rest

-- `ALPINE_VERSION`
abbrev pub alpine_version : Text → Option Text
alpine_version t = two_parts (digits_of t)

abbrev alpine_rest : Text → Option (Option Text)
alpine_rest t =
    if at_end t then some none else elim (alpine_version t) [ none ↦ none | some v ↦ some (some v) ]

-- `ALPINE_TOKEN`, with its group.
abbrev pub alpine_token : Text → Option (Option Text)
alpine_token t = if starts_with (codes "alpine") t then alpine_rest (drop 6 t) else none

abbrev digits_if_all : Text × Text → Option Text
digits_if_all (digits, rest) = if all_digits (digits, rest) then some digits else none

-- `UBI_TOKEN`, with its group.
abbrev pub ubi_token : Text → Option Text
ubi_token t = if starts_with (codes "ubi") t then digits_if_all (digits_of (drop 3 t)) else none

-- `WINDOWS_RELEASE`
abbrev pub is_windows_release : Text → Bool
is_windows_release t = first_digits 4 t && at_end (drop 4 t)

-- `LTSC_TOKEN`
abbrev pub is_ltsc_token : Text → Bool
is_ltsc_token t = starts_with (codes "ltsc") t && is_windows_release (drop 4 t)

-- `MAJOR_MINOR`
abbrev minor_of : Text → Text × Text → Text
minor_of major (minor, rest) = if is_nil minor then major else major ++ b'.' ∷ minor

abbrev major_rest : Text → Text → Text
major_rest major [] = major
major_rest major (c ∷ t) = if c == b'.' then minor_of major (digits_of t) else major

abbrev major_minor_of : Text × Text → Option Text
major_minor_of (major, rest) = if is_nil major then none else some (major_rest major rest)

unfoldable pub major_minor : Option Text → Option Text
major_minor none = none
major_minor (some version) = major_minor_of (digits_of version)

-- The variables of the loop over the tokens.
pub record Reading : Type 0 where
  pub distribution : Option Text
  pub codename : Option Text
  pub variants : List Text

abbrev is_text : Text → Option Text → Bool
is_text t none = false
is_text t (some s) = text_beq s t

abbrev add_variant : Text → Reading → Reading
add_variant token r = record {
  distribution = if elem token windows_words then some (codes "windows") else r.distribution;
  codename = r.codename;
  variants = r.variants ++ token ∷ [];
}

abbrev named : Text → Option Text → Reading → Reading
named distribution codename r = record {
  distribution = some distribution;
  codename = codename;
  variants = r.variants;
}

-- From the test for a Windows release on.
abbrev read_word : Text → Reading → Reading
read_word token r =
    if is_ltsc_token token || (is_text (codes "windows") r.distribution && is_windows_release token)
    then record { distribution = r.distribution; codename = some token; variants = r.variants }
    else (if elem token variant_words then add_variant token r else r)

abbrev read_ubi : Text → Option Text → Reading → Reading
read_ubi token none r = read_word token r
read_ubi token (some v) r = named (codes "ubi") (some v) r

abbrev read_alpine : Text → Option (Option Text) → Reading → Reading
read_alpine token none r = read_ubi token (ubi_token token) r
read_alpine token (some v) r = named (codes "alpine") v r

-- One turn of the loop, the look at the next token left aside.
abbrev pub read_token : Text → Reading → Reading
read_token token r =
    if elem token debian_codenames
    then named (codes "debian") (some token) r
    else if elem token ubuntu_codenames
    then named (codes "ubuntu") (some token) r
    else read_alpine token (alpine_token token) r

abbrev is_some {ℓ} : {A : Type ℓ} → Option A → Bool
is_some none = false
is_some (some a) = true

abbrev is_bare : Option (Option Text) → Bool
is_bare (some none) = true
is_bare (some (some v)) = false
is_bare none = false

-- A bare `alpine` with its version in the next token.
abbrev pub takes_next : Text → Text → Bool
takes_next token next =
    not (elem token debian_codenames)
    && (not (elem token ubuntu_codenames)
        && (is_bare (alpine_token token) && is_some (alpine_version next)))

unfoldable pub read_tokens : List Text → Reading → Reading
read_tokens [] r = r
read_tokens (token ∷ []) r = read_token token r
read_tokens (token ∷ next ∷ rest) r =
    let after_both = read_tokens rest (named (codes "alpine") (some next) r) in
    let after_one = read_tokens (next ∷ rest) (read_token token r) in
    if takes_next token next then after_both else after_one

-- The version at the start of the tokens, and the tokens after it.
abbrev pub starts_version : Text → Bool
starts_version token =
    is_version_token token && (not (is_date_token token) && not (elem token variant_words))

abbrev with_build : Text → List Text → Option Text × List Text
with_build token [] = (some token, [])
with_build token (next ∷ rest) =
    if is_java8_build next then (some (token ++ b'-' ∷ next), rest) else (some token, next ∷ rest)

abbrev pub read_version : List Text → Option Text × List Text
read_version [] = (none, [])
read_version (token ∷ rest) =
    if starts_version token then with_build token rest else (none, token ∷ rest)

-- The branch of a release of alpine: two parts of the version at least.
abbrev branch_of : List Text → Option Text
branch_of [] = none
branch_of (a ∷ []) = none
branch_of (a ∷ b ∷ parts) = some (a ++ b'.' ∷ b)

abbrev alpine_branch : Option Text → Option Text → Option Text
alpine_branch (some version) none = branch_of (split b'.' version)
alpine_branch none none = none
alpine_branch version (some codename) = some codename

abbrev variant_of : List Text → Option Text
variant_of [] = none
variant_of (v ∷ variants) = some (join b'-' (v ∷ variants))

abbrev facts_of : Text → Option Text → Reading → TagFacts
facts_of repository version r = record {
  version = version;
  distribution = if elem repository os_repositories then some repository else r.distribution;
  codename =
      if text_beq repository (codes "alpine") then alpine_branch version r.codename else r.codename;
  variant = variant_of r.variants;
}

abbrev read_all : Text → Option Text × List Text → TagFacts
read_all repository (version, rest) =
    facts_of repository version
      (read_tokens rest (record { distribution = none; codename = none; variants = [] }))

unfoldable pub parse_tag : Text → Text → TagFacts
parse_tag tag repository = read_all repository (read_version (split b'-' tag))
