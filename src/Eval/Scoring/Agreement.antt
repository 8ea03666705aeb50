-- ===== src/Eval/Scoring/Agreement.antt =====
-- eval/scoring.py and search/filters.py: two programs that judge the same conditions.
use whatfrom.Prelude.{
  ℕ, ◌≡◌, ◌≤◌, refl, sym, ◌∙◌, ap, ap₂, ◌≢◌, inl, inr, Bool, true, false, not, ◌||◌, ◌&&◌, Option,
  none, some, List, [], ◌∷◌, map, min, any, all, filter, arith, All, le_cases, if◌then◌else◌,
}
use whatfrom.Prelude.Eq.{Text, elem, text_eq, text_beq, text_beq_iff}
use whatfrom.Prelude.Text.{codes, is_nil, contains}
use whatfrom.Prelude.Sort.{sort, any-sort}
use whatfrom.Models.{ImageTag, ImageVariant, Repository}
use whatfrom.Contracts.{Evidence, Candidate, Platform}
use whatfrom.Versions.{extends_version}
use whatfrom.Filters.{
  TagConditions, is_none, coalesce, excluded_filter, linux_variant, first_or, version_filters,
  architecture_filter, size_filters, accepts,
}
use whatfrom.Filters.Prefix.{version_filter-extends_version}
use whatfrom.Filters.Weaker.{accepts-and}
use whatfrom.Retrieval.Build.{platform_of, platform_leb, candidate_of}
use whatfrom.Eval.Golden.{Conditions}
use whatfrom.Eval.Scoring.{
  add_value, linux_platforms, violates, version_or_tag, version_satisfied, least_size,
  smallest_within, size_satisfied, conditions_satisfied,
}

-- The conditions of a case as conditions of a search.
abbrev pub as_filters : {Size : Type 0} → Conditions Size → TagConditions Size
as_filters c = record {
  version_prefix = c.version_prefix;
  architectures = c.architectures;
  distributions = [];
  exclude_distributions = c.exclude_distributions;
  max_size_mb = c.max_size_mb;
}

any-filter : {A : Type 0} (p : A → Bool) (xs : List A) → not (is_nil (filter p xs)) ≡ any p xs
any-filter p [] = refl
any-filter p (x ∷ xs) = let ih = any-filter p xs in ground arith

any-map :
    {A B : Type 0} (f : A → B) (p : B → Bool) (xs : List A)
    → any p (map f xs) ≡ any (λ x. p (f x)) xs
any-map f p [] = refl
any-map f p (x ∷ xs) = let ih = any-map f p xs in ground arith

any_and :
    {A : Type 0} (p q : A → Bool) (xs : List A) → any (λ x. p x && q x) xs ≡ any q (filter p xs)
any_and p q [] = refl
any_and p q (x ∷ xs) = let ih = any_and p q xs in ground arith

module _ (repo : Repository) (repository : Text) (evidence : List Evidence) (row : ImageTag) where
  -- Some platform for Linux of the candidate passes a test exactly if some variant of the row does.
  linux-any :
      (architecture : Text) (q : Platform → Bool)
      → any q (linux_platforms (candidate_of repo repository evidence row) (some architecture))
        ≡ linux_variant
            (λ (v : ImageVariant). text_beq v.architecture architecture && q (platform_of v))
            row
  linux-any architecture q =
      let t : Platform → Bool =
        λ (p : Platform). text_beq p.os (codes "linux") && text_beq p.architecture architecture in
      sym (any_and t q (sort platform_leb (map platform_of row.variants)))
      ∙ any-sort (λ p. t p && q p) platform_leb (map platform_of row.variants)
      ∙ any-map platform_of (λ p. t p && q p) row.variants
      ∙ any_assoc row.variants
    where
      any_assoc :
          (vs : List ImageVariant)
          → any
              (λ (v : ImageVariant).
                (text_beq v.os (codes "linux") && text_beq v.architecture architecture)
                && q (platform_of v))
              vs
            ≡ any
                (λ (v : ImageVariant).
                  text_beq v.os (codes "linux")
                  && (text_beq v.architecture architecture && q (platform_of v)))
                vs
      any_assoc [] = refl
      any_assoc (v ∷ vs) = let ih = any_assoc vs in ground arith

  architecture_agrees :
      {Size : Type 0} (within : ℕ → Size → Bool) (architectures : List Text)
      → all
          (λ a. not (is_nil (linux_platforms (candidate_of repo repository evidence row) (some a))))
          architectures
        ≡ all (λ f. f row) (map (architecture_filter within) architectures)
  architecture_agrees within [] = refl
  architecture_agrees within (a ∷ architectures) =
      let t : Platform → Bool =
        λ (p : Platform). text_beq p.os (codes "linux") && text_beq p.architecture a in
      let one =
        any-filter t (sort platform_leb (map platform_of row.variants))
        ∙ any-sort t platform_leb (map platform_of row.variants)
        ∙ any-map platform_of t row.variants in
      ap₂ (λ x y. x && y) one (architecture_agrees within architectures)

text_beq-sym : (s t : Text) → text_beq s t ≡ text_beq t s
text_beq-sym s t = let l = text_beq_iff s t in let r = text_beq_iff t s in ground arith

exclusion_agrees :
    (d k : Option Text) (tag : Text) (c : ℕ) (t : Text)
    → not (
        text_beq (coalesce d []) (c ∷ t)
        || (text_beq (coalesce k []) (c ∷ t) || ((is_none d && is_none k) && contains (c ∷ t) tag)))
      ≡ not (
          if not (is_nil (add_value d (add_value k [])))
          then elem (c ∷ t) (add_value d (add_value k []))
          else contains (c ∷ t) tag)
exclusion_agrees none none tag c t = refl
exclusion_agrees none (some v) tag c t = let s = text_beq-sym v (c ∷ t) in ground arith
exclusion_agrees (some u) none tag c t = let s = text_beq-sym u (c ∷ t) in ground arith
exclusion_agrees (some u) (some v) tag c t =
    let s = text_beq-sym v (c ∷ t) in let r = text_beq-sym u (c ∷ t) in ground arith

version_agrees :
    (version : Option Text) (tag : Text) (c : Candidate)
    → c.tag ≡ tag
    → version ≢ some []
    → version_or_tag c version ≡ coalesce version tag
version_agrees none tag c e n = e
version_agrees (some []) tag c e n = absurd (n refl)
version_agrees (some (d ∷ v)) tag c e n = refl

module _ {Size : Type 0} (within : ℕ → Size → Bool) (max : Size) where
  within_min :
      ((m n : ℕ) → m ≤ n → within n max ≡ true → within m max ≡ true)
      → (m n : ℕ) → within (min m n) max ≡ (within m max || within n max)
  within_min h m n = elim (le_cases m n) [
    | inl l ↦ let e : min m n ≡ m = omega (arith, l) in rw e (let k = h m n l in ground arith)
    | inr l ↦ let e : min m n ≡ n = omega (arith, l) in rw e (let k = h n m l in ground arith)
  ]

  least-any :
      ((m n : ℕ) → m ≤ n → within n max ≡ true → within m max ≡ true)
      → (n : ℕ) (ps : List Platform)
      → within (least_size n ps) max
        ≡ (within n max || any (λ (p : Platform). within p.size_bytes max) ps)
  least-any h n [] = ground arith
  least-any h n (p ∷ ps) =
      within_min h n (least_size p.size_bytes ps)
      ∙ ap (λ b. within n max || b) (least-any h p.size_bytes ps)

  smallest-any :
      ((m n : ℕ) → m ≤ n → within n max ≡ true → within m max ≡ true)
      → (ps : List Platform)
      → smallest_within within max ps ≡ any (λ (p : Platform). within p.size_bytes max) ps
  smallest-any h [] = refl
  smallest-any h (p ∷ ps) = least-any h p.size_bytes ps

module _ {Size : Type 0} (within : ℕ → Size → Bool)
    (falls : (max : Size) (m n : ℕ) → m ≤ n → within n max ≡ true → within m max ≡ true)
    (repo : Repository) (repository : Text) (evidence : List Evidence) (row : ImageTag) where
  size_agrees :
      (architectures : List Text) (max : Option Size)
      → size_satisfied within (candidate_of repo repository evidence row) architectures max
        ≡ all (λ f. f row) (size_filters within architectures max)
  size_agrees architectures none = refl
  size_agrees architectures (some max) =
      let a = first_or (codes "amd64") architectures in
      let ps = linux_platforms (candidate_of repo repository evidence row) (some a) in
      smallest-any within max (falls max) ps
      ∙ linux-any repo repository evidence row a (λ (p : Platform). within p.size_bytes max)
      ∙ ground arith

  exclusions_agree :
      (excluded : List Text)
      → All (λ e. is_nil e ≡ false) excluded
      → all (λ e. not (violates (candidate_of repo repository evidence row) e)) excluded
        ≡ all (λ f. f row) (map excluded_filter excluded)
  exclusions_agree [] h = refl
  exclusions_agree ([] ∷ excluded) (h, hs) = cc
  exclusions_agree ((c ∷ t) ∷ excluded) (h, hs) =
      ap₂ (λ x y. x && y) (sym (exclusion_agrees row.distribution row.distro_codename row.tag c t))
        (exclusions_agree excluded hs)

  prefix_agrees :
      (prefix : Option Text)
      → row.language_version ≢ some []
      → version_satisfied (candidate_of repo repository evidence row) prefix
        ≡ all (λ f. f row) (version_filters within prefix)
  prefix_agrees none n = refl
  prefix_agrees (some prefix) n =
      let v =
        version_agrees row.language_version row.tag (candidate_of repo repository evidence row) refl
          n in
      ap (extends_version prefix) v ∙ sym (version_filter-extends_version prefix row) ∙ ground arith

  -- The evaluation and the search judge the conditions of a case alike: a candidate satisfies them
  -- exactly if the row that it is built from fulfils them as conditions of a search. This is so where
  -- no excluded distribution is the empty text, the row has no empty text for a version, and the test
  -- of a size falls with the size.
  pub conditions_satisfied-accepts :
      (conditions : Conditions Size)
      → All (λ e. is_nil e ≡ false) conditions.exclude_distributions
      → row.language_version ≢ some []
      → conditions_satisfied within conditions (candidate_of repo repository evidence row)
        ≡ accepts within (as_filters conditions) row
  unfolding conditions_satisfied
  conditions_satisfied-accepts conditions x n =
      let a = architecture_agrees repo repository evidence row within conditions.architectures in
      let e = exclusions_agree conditions.exclude_distributions x in
      let v = prefix_agrees conditions.version_prefix n in
      let s = size_agrees conditions.architectures conditions.max_size_mb in
      reorder a e v s ∙ sym (accepts-and within (as_filters conditions) row)
    where
      reorder :
          {a b e f v w s t : Bool}
          → a ≡ b
          → e ≡ f
          → v ≡ w
          → s ≡ t
          → (a && (e && (v && s))) ≡ (true && (f && (w && (b && t))))
      reorder p q r u = ground arith
