-- ===== src/TagSelect/Lines/Support.antt =====
-- search/tagselect.py: which lines `_supported` keeps, without the newest time.
use whatfrom.Prelude.{
  ℕ, ◌+◌, max, ◌≡◌, ◌∙◌, ap, sym, fun_ext, refl, Bool, true, false, ◌&&◌, Option, none, some, List,
  [], ◌∷◌, arith, leb, filter, all,
}
use whatfrom.Prelude.Eq.{Text}
use whatfrom.Prelude.Dict.{Dict, keys, values}
use whatfrom.TagSelect.Lines.{
  support_gap, known_times, newest_of, within_gap, supported_since, supported,
}

-- Not known to be more than the gap behind the other.
abbrev pub keeps_up : Option ℕ → Option ℕ → Bool
keeps_up none none = true
keeps_up none (some other) = false
keeps_up (some t) none = true
keeps_up (some t) (some other) = leb other (t + support_gap)

newest_leb : (x t : ℕ) (ts : List ℕ) → leb (newest_of t ts) x ≡ (leb t x && all (λ u. leb u x) ts)
unfolding newest_of
newest_leb x t [] = ground arith
newest_leb x t (u ∷ ts) = ground (arith, newest_leb x (max t u) ts)

known-keeps_up :
    (t : ℕ) (vs : List (Option ℕ))
    → all (keeps_up (some t)) vs ≡ all (λ u. leb u (t + support_gap)) (known_times vs)
unfolding known_times
known-keeps_up t [] = refl
known-keeps_up t (none ∷ vs) = known-keeps_up t vs
known-keeps_up t (some u ∷ vs) = rw (known-keeps_up t vs)

all_unknown : (vs : List (Option ℕ)) → known_times vs ≡ [] → all (keeps_up none) vs ≡ true
unfolding known_times
all_unknown [] h = refl
all_unknown (none ∷ vs) h = all_unknown vs h
all_unknown (some u ∷ vs) h = cc

some_known :
    (t : ℕ) (ts : List ℕ) (vs : List (Option ℕ))
    → known_times vs ≡ t ∷ ts
    → all (keeps_up none) vs ≡ false
unfolding known_times
some_known t ts [] h = cc
some_known t ts (none ∷ vs) h = some_known t ts vs h
some_known t ts (some u ∷ vs) h = refl

-- Where no time is known, nothing is behind.
unknown-keeps_up :
    (o : Option ℕ) (vs : List (Option ℕ)) → known_times vs ≡ [] → all (keeps_up o) vs ≡ true
unknown-keeps_up none vs h = all_unknown vs h
unknown-keeps_up (some t) vs h = rw (known-keeps_up t vs, h)

-- The comparison with the newest time is the comparison with every time.
within_gap-keeps_up :
    (o : Option ℕ) (t : ℕ) (ts : List ℕ) (vs : List (Option ℕ))
    → known_times vs ≡ t ∷ ts
    → within_gap (newest_of t ts) o ≡ all (keeps_up o) vs
within_gap-keeps_up none t ts vs h = sym (some_known t ts vs h)
within_gap-keeps_up (some p) t ts vs h =
    newest_leb (p + support_gap) t ts ∙ sym (rw (known-keeps_up p vs, h))

filter-true {ℓ} :
    {A : Type ℓ} (p : A → Bool) (xs : List A) → ((x : A) → p x ≡ true) → filter p xs ≡ xs
filter-true p [] h = refl
filter-true p (x ∷ xs) h = rw (h x) (ap (◌∷◌ x) (filter-true p xs h))

supported_since-pairwise :
    (known : List ℕ) (latest : Dict Text (Option ℕ))
    → known_times (values latest) ≡ known
    → supported_since known latest ≡ keys (filter (λ e. all (keeps_up e.1) (values latest)) latest)
unfolding supported_since
supported_since-pairwise [] latest h =
    ap keys (sym (filter-true _ latest (λ e. unknown-keeps_up e.1 (values latest) h)))
supported_since-pairwise (t ∷ ts) latest h =
    ap (λ p. keys (filter p latest)) (fun_ext (λ e. within_gap-keeps_up e.1 t ts (values latest) h))

-- `_supported` keeps exactly the lines that no line is known to be ahead of by more than
-- `SUPPORT_GAP`; a line of unknown time is kept only where no time is known.
pub supported-pairwise :
    (latest : Dict Text (Option ℕ))
    → supported latest ≡ keys (filter (λ e. all (keeps_up e.1) (values latest)) latest)
unfolding supported
supported-pairwise latest = supported_since-pairwise (known_times (values latest)) latest refl
