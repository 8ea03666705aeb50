-- ===== src/Prelude/Text.antt =====
-- Texts as lists of code points: literals, prefixes, order, splitting and joining.
use Prim.Native.Char.{code}
use Prim.Native.String.{String}
use Prim.Native.Nat.{ℕ, zero, suc, ◌+◌, ◌-◌, ◌*◌}
use mathlib.Core.Path.{◌≡◌, refl}
use mathlib.Core.Bool.{Bool, true, false, ◌&&◌, ◌||◌}
use mathlib.Core.List.{List, [], ◌∷◌, ◌++◌}
use native.Mathlib.Omega.{arith}
use whatfrom.Prelude.Tests.{◌==◌, ltb, leb}
use whatfrom.Prelude.Lists.{length}
use whatfrom.Prelude.Eq.{Text}

-- The code points of a literal.
abbrev pub codes : String → Text
codes String.[] = []
codes (String.◌∷◌ c s) = code c ∷ codes s

-- `\d` and `isdigit`, on ASCII.
abbrev pub is_digit : ℕ → Bool
is_digit c = leb b'0' c && leb c b'9'

-- The characters that `str.split` and `str.strip` take for white space.
abbrev pub between : ℕ → ℕ → ℕ → Bool
between a b c = leb a c && leb c b

abbrev pub is_space : ℕ → Bool
is_space c =
    between 9 13 c
    || between 28 32 c
    || elem_of (133 ∷ 160 ∷ 5760 ∷ 8232 ∷ 8233 ∷ 8239 ∷ 8287 ∷ 12288 ∷ [])
    || between 8192 8202 c
  where
    elem_of : List ℕ → Bool
    elem_of [] = false
    elem_of (d ∷ ds) = c == d || elem_of ds

abbrev pub is_nil {ℓ} : {A : Type ℓ} → List A → Bool
is_nil [] = true
is_nil (x ∷ xs) = false

-- `$` without flags: the end, or just before a final newline.
abbrev pub at_end : Text → Bool
at_end [] = true
at_end (c ∷ t) = c == 10 && is_nil t

abbrev pub starts_digit : Text → Bool
starts_digit [] = false
starts_digit (c ∷ t) = is_digit c

-- `t.startswith(p)`, with the arguments in the order of the library's `starts_with`.
abbrev pub starts_with : Text → Text → Bool
starts_with [] t = true
starts_with (a ∷ p) [] = false
starts_with (a ∷ p) (b ∷ t) = a == b && starts_with p t

abbrev pub drop {ℓ} : {A : Type ℓ} → ℕ → List A → List A
drop zero xs = xs
drop (suc n) [] = []
drop (suc n) (x ∷ xs) = drop n xs

-- Whether some position of the text, the end included, satisfies the test of what follows.
abbrev pub search : (Text → Bool) → Text → Bool
search p [] = p []
search p (c ∷ t) = p (c ∷ t) || search p t

-- `p in t`
abbrev pub contains : Text → Text → Bool
contains p t = search (starts_with p) t

-- Python's order of texts, by code points.
abbrev pub text_leb : Text → Text → Bool
text_leb [] t = true
text_leb (a ∷ s) [] = false
text_leb (a ∷ s) (b ∷ t) = ltb a b || (a == b && text_leb s t)

-- `t.split(sep)` for a one-character separator: never empty.
abbrev pub split_cons : Bool → ℕ → List Text → List Text
split_cons true c parts = [] ∷ parts
split_cons false c [] = (c ∷ []) ∷ []
split_cons false c (p ∷ parts) = (c ∷ p) ∷ parts

abbrev pub split : ℕ → Text → List Text
split sep [] = [] ∷ []
split sep (c ∷ t) = split_cons (c == sep) c (split sep t)

-- `sep.join(parts)` for a one-character separator.
abbrev pub join : ℕ → List Text → Text
join sep [] = []
join sep (p ∷ []) = p
join sep (p ∷ q ∷ parts) = p ++ (sep ∷ join sep (q ∷ parts))

-- `int(t)` of a text of digits.
abbrev pub digits_value : ℕ → Text → ℕ
digits_value acc [] = acc
digits_value acc (c ∷ t) = digits_value (acc * 10 + (c - b'0')) t

-- What follows a prefix.
pub starts_with-drop : (p t : Text) → starts_with p t ≡ true → p ++ drop (length p) t ≡ t
starts_with-drop [] t h = refl
starts_with-drop (a ∷ p) [] h = cc
starts_with-drop (a ∷ p) (b ∷ t) h = ground (arith, starts_with-drop p t)

pub starts_with-append : (p r : Text) → starts_with p (p ++ r) ≡ true
starts_with-append [] r = refl
starts_with-append (a ∷ p) r = ground (arith, starts_with-append p r)

pub drop-append : (p r : Text) → drop (length p) (p ++ r) ≡ r
drop-append [] r = refl
drop-append (a ∷ p) r = drop-append p r

split_cons-join :
    (sep c : ℕ) (q : Text) (parts : List Text)
    → join sep (split_cons (c == sep) c (q ∷ parts)) ≡ c ∷ join sep (q ∷ parts)
split_cons-join sep c q [] = ground arith
split_cons-join sep c q (r ∷ parts) = ground arith

split_cons-ne-nil :
    (b : Bool) (c : ℕ) (parts : List Text)
    → (p : Text) × (rest : List Text) × (split_cons b c parts ≡ p ∷ rest)
split_cons-ne-nil true c parts = ([], parts, refl)
split_cons-ne-nil false c [] = (c ∷ [], [], refl)
split_cons-ne-nil false c (p ∷ parts) = (c ∷ p, parts, refl)

split-ne-nil : (sep : ℕ) (t : Text) → (p : Text) × (parts : List Text) × (split sep t ≡ p ∷ parts)
split-ne-nil sep [] = ([], [], refl)
split-ne-nil sep (c ∷ t) = split_cons-ne-nil (c == sep) c (split sep t)

-- Joining undoes splitting.
pub join-split : (sep : ℕ) (t : Text) → join sep (split sep t) ≡ t
join-split sep [] = refl
join-split sep (c ∷ t) =
    let (p, parts, e) = split-ne-nil sep t in
    let ih : join sep (p ∷ parts) ≡ t = rw e at (join-split sep t) in
    rw e (cc (split_cons-join sep c p parts))
