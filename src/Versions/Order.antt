-- ===== src/Versions/Order.antt =====
-- core/versions.py: `extends_version` is an order, and the versions below one form a chain.
use whatfrom.Prelude.{
  ℕ, ◌≡◌, ◌≢◌, ◌<◌, ◌∙◌, ◌↔◌, ◌⊎◌, inl, inr, refl, true, false, [], ◌∷◌, ◌++◌, length, arith,
  if◌then◌else◌, ◌==◌,
}
use whatfrom.Prelude.Eq.{Text, text_beq_iff, elem, nat_eq}
use whatfrom.Prelude.Text.{starts_with, starts_with-append, drop-append}
use mathlib.Core.List.{append_assoc}
use whatfrom.Versions.{version_boundaries, extends_version}

-- `detailed` is `base`, or `base` with a boundary and any text behind it.
abbrev pub Extends : Text → Text → Type 0
Extends base detailed =
    (detailed ≡ base)
    ⊎ ((c : ℕ) × (rest : Text) × (elem c version_boundaries ≡ true)
        × (detailed ≡ base ++ (c ∷ rest)))

extends_version-nil : (c : ℕ) (d : Text) → extends_version [] (c ∷ d) ≡ elem c version_boundaries
unfolding extends_version
extends_version-nil c d = refl

extends_version-cons :
    (a c : ℕ) (b d : Text)
    → extends_version (a ∷ b) (c ∷ d) ≡ (if a == c then extends_version b d else false)
unfolding extends_version
extends_version-cons a c b d = ground arith

extends_version-short : (a : ℕ) (b : Text) → extends_version (a ∷ b) [] ≡ false
unfolding extends_version
extends_version-short a b = refl

Extends-of_true : (b d : Text) → extends_version b d ≡ true → Extends b d
Extends-of_true [] [] h = inl refl
Extends-of_true [] (c ∷ d) h = inr (c, d, rw extends_version-nil at h, refl)
Extends-of_true (a ∷ b) [] h = cc (extends_version-short a b)
Extends-of_true (a ∷ b) (c ∷ d) h =
    let (e, k) = head_tail in
    elim (Extends-of_true b d k) [ inl p ↦ inl (cc) | inr (x, r, q, p) ↦ inr (x, r, q, cc) ]
  where
    head_tail : (c ≡ a) × (extends_version b d ≡ true)
    head_tail = ground (arith, extends_version-cons a c b d)

eq-true_of_Extends : (b d : Text) → Extends b d → extends_version b d ≡ true
unfolding extends_version
eq-true_of_Extends b d (inl p) = ground (arith, text_beq_iff d b)
eq-true_of_Extends b d (inr (c, r, q, p)) =
    rw (p, starts_with-append, drop-append, q) (ground arith)

-- A version extends another exactly when it is the same text, or continues it with one of the
-- boundary characters and anything behind.
pub extends_version_iff : (b d : Text) → (extends_version b d ≡ true) ↔ Extends b d
extends_version_iff b d = (Extends-of_true b d, eq-true_of_Extends b d)

-- Where `detailed` begins with `base` and is another text, the index `len(base)` is in range: the
-- test of the boundary raises no IndexError.
pub extends_version_index : (b d : Text) → starts_with b d ≡ true → d ≢ b → length b < length d
extends_version_index [] [] h n = absurd (n refl)
extends_version_index [] (c ∷ d) h n = omega arith
extends_version_index (a ∷ b) [] h n = cc
extends_version_index (a ∷ b) (c ∷ d) h n =
    let t : starts_with b d ≡ true = ground arith in
    omega (arith, extends_version_index b d t (λ e. n (ground arith)))

-- Detail upon detail is detail of the first.
pub extends_version_trans :
    (a b c : Text)
    → extends_version a b ≡ true
    → extends_version b c ≡ true
    → extends_version a c ≡ true
extends_version_trans a b c h k =
    eq-true_of_Extends a c (joined (Extends-of_true a b h) (Extends-of_true b c k))
  where
    joined : Extends a b → Extends b c → Extends a c
    joined (inl p) (inl q) = inl (q ∙ p)
    joined (inl p) (inr (x, r, e, q)) = inr (x, r, e, cc)
    joined (inr (x, r, e, p)) (inl q) = inr (x, r, e, q ∙ p)
    joined (inr (x, r, e, p)) (inr (y, s, f, q)) =
        inr (x, r ++ (y ∷ s), e, q ∙ (rw p (append_assoc a (x ∷ r) (y ∷ s))))

-- Two versions that the same version extends are comparable: one extends the other.
pub extends_version_chain :
    (a b c : Text)
    → extends_version a c ≡ true
    → extends_version b c ≡ true
    → (extends_version a b ≡ true) ⊎ (extends_version b a ≡ true)
extends_version_chain [] [] c h k = inl (eq-true_of_Extends [] [] (inl refl))
extends_version_chain [] (y ∷ b) [] h k = cc (extends_version-short y b)
extends_version_chain [] (y ∷ b) (z ∷ c) h k =
    ground (arith, extends_version-nil y b, extends_version-nil z c, extends_version-cons y z b c)
extends_version_chain (x ∷ a) b [] h k = cc (extends_version-short x a)
extends_version_chain (x ∷ a) [] (z ∷ c) h k =
    ground (arith, extends_version-nil x a, extends_version-nil z c, extends_version-cons x z a c)
extends_version_chain (x ∷ a) (y ∷ b) (z ∷ c) h k = ground (
  arith,
  extends_version-cons x z a c,
  extends_version-cons y z b c,
  extends_version-cons x y a b,
  extends_version-cons y x b a,
  extends_version_chain a b c,
)
