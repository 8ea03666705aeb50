-- ===== src/Store/Tests.antt =====
-- collect/store.py: a page with a new, a changed and an unchanged tag.
use mathlib.Core.List.{Memᴰ}
use mathlib.Core.List.Memᴰ
use whatfrom.Prelude.{ℕ, suc, ◌+◌, ◌<◌, ◌≡◌, refl, ap, inl, inr, none, some, List, [], ◌∷◌, arith}
use whatfrom.Prelude.Eq.{Text}
use whatfrom.Prelude.Text.{codes}
use whatfrom.Models.{ImageTag, ImageVariant}
use whatfrom.Retrieval.Build.Rows.{ids_distinct-UniqueIds}
use whatfrom.Store.{TagRow, upsert_tags}
use whatfrom.Store.Kept.{IsFresh, upsert_tags_keeps}

abbrev platform : Text → ImageVariant
platform digest = record {
  os = codes "linux";
  architecture = codes "amd64";
  arch_variant = [];
  os_version = [];
  digest = digest;
  size_bytes = 1;
}

abbrev stored : ℕ → Text → Text → ℕ → List ImageVariant → ImageTag
stored id tag digest seen variants = record {
  id = id;
  repository = codes "python";
  tag = tag;
  manifest_digest = some digest;
  last_pushed_at = none;
  collected_at = seen;
  language_version = none;
  version_major_minor = none;
  distribution = none;
  distro_codename = none;
  variant = none;
  variants = variants;
}

abbrev fetched : Text → Text → List ImageVariant → TagRow
fetched tag digest variants = record {
  tag = tag;
  manifest_digest = some digest;
  last_pushed_at = none;
  variants = variants;
}

abbrev before : List ImageTag
before =
    stored 1 (codes "3.13") (codes "a") 5 (platform (codes "p") ∷ [])
    ∷ stored 2 (codes "3.14") (codes "b") 5 (platform (codes "q") ∷ [])
    ∷ stored 3 (codes "2.7") (codes "z") 5 []
    ∷ []

abbrev page : List TagRow
page =
    fetched (codes "3.15") (codes "c") (platform (codes "r") ∷ [])
    ∷ fetched (codes "3.14") (codes "d") (platform (codes "s") ∷ [])
    ∷ fetched (codes "3.13") (codes "a") (platform (codes "p") ∷ [])
    ∷ []

-- A key above all others.
abbrev next_id : List ImageTag → ℕ
next_id [] = 1
next_id (t ∷ tags) = suc (t.id + next_id tags)

below-next_id : (tags : List ImageTag) (t : ImageTag) → Memᴰ t tags → t.id < next_id tags
below-next_id [] t m = absurd (Memᴰ.not-nil m)
below-next_id (u ∷ tags) t m = elim (Memᴰ.cases_cons m) [
  | inl e ↦ let same = ap (λ (x : ImageTag). x.id) e in omega arith
  | inr n ↦ omega (arith, below-next_id tags t n)
]

next_id-IsFresh : IsFresh next_id
next_id-IsFresh tags t m = let below = below-next_id tags t m in ground arith

abbrev after : List ImageTag
after =
    stored 1 (codes "3.13") (codes "a") 9 (platform (codes "p") ∷ [])
    ∷ stored 2 (codes "3.14") (codes "d") 9 (platform (codes "s") ∷ [])
    ∷ stored 3 (codes "2.7") (codes "z") 5 []
    ∷ stored 10 (codes "3.15") (codes "c") 9 (platform (codes "r") ∷ [])
    ∷ []

page_stored : upsert_tags next_id (codes "python") page 9 before ≡ some (after, 2)
unfolding upsert_tags
page_stored = refl

twice_on_a_page :
    upsert_tags next_id
      (codes "python")
      (fetched (codes "3.15") (codes "c") [] ∷ fetched (codes "3.15") (codes "c") [] ∷ [])
      9
      before
    ≡ none
unfolding upsert_tags
twice_on_a_page = refl

upsert_tags_keeps_example : Memᴰ (stored 3 (codes "2.7") (codes "z") 5 []) after
upsert_tags_keeps_example =
    upsert_tags_keeps next_id next_id-IsFresh (codes "python") page 9 before after 2
      (ids_distinct-UniqueIds before refl) page_stored (stored 3 (codes "2.7") (codes "z") 5 [])
      (Memᴰ.tail (Memᴰ.tail (Memᴰ.head refl))) refl
