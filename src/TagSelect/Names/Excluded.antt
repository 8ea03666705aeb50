-- ===== src/TagSelect/Names/Excluded.antt =====
-- search/tagselect.py: which tags their names leave out.
use whatfrom.Prelude.{
  ℕ, ◌≡◌, Bool, true, false, not, ◌&&◌, ◌||◌, Option, none, some, List, [], ◌∷◌, arith, All,
  All-imp, All-filter, All-and, All-filter_test, ==_iff,
}
use whatfrom.Prelude.Eq.{Text, text_eq, nat_eq, elem, text_beq_iff}
use whatfrom.TagSelect.Names.{
  TagRef, is_prerelease, is_date_snapshot, is_windows_only, digest_in, note_digest, named_digests,
  exclude_with_digest, ids_where, exclude_windows_only, exclude_prerelease,
}

module _ {ℓ} (P : TagRef → Type ℓ) where
  All-exclude_with_digest :
      (tags : List TagRef) (ids : List ℕ) → All P tags → All P (exclude_with_digest tags ids)
  unfolding exclude_with_digest
  All-exclude_with_digest tags ids h = All-filter P _ tags h

  pub All-exclude_prerelease : (tags : List TagRef) → All P tags → All P (exclude_prerelease tags)
  unfolding exclude_prerelease
  All-exclude_prerelease tags h = All-exclude_with_digest tags _ h

  pub All-exclude_windows_only :
      (tags : List TagRef) → All P tags → All P (exclude_windows_only tags)
  unfolding exclude_windows_only
  All-exclude_windows_only tags h = All-exclude_with_digest tags _ h

-- Both digests are known and they are the same.
abbrev pub SharesDigest : TagRef → TagRef → Type 0
SharesDigest r s = (d : Text) × (r.manifest_digest ≡ some d) × (s.manifest_digest ≡ some d)

-- The name does not match, and no tag whose name does has the same digest.
abbrev pub IsClear : (Text → Bool) → List TagRef → TagRef → Type 0
IsClear p tags r = (p r.tag ≡ false) × All (λ s. p s.tag ≡ true → ¬ (SharesDigest r s)) tags

note_digest-elem :
    (d : Text) (o : Option Text) (b : Bool) (rest : List Text)
    → elem d rest ≡ true
    → elem d (note_digest o b rest) ≡ true
unfolding note_digest
note_digest-elem d none b rest h = h
note_digest-elem d (some c) true rest h = ground arith
note_digest-elem d (some c) false rest h = h

-- The digest of a named tag is among the digests left out.
abbrev IsNoted : List ℕ → List Text → TagRef → Type 0
IsNoted ids noted s =
    (d : Text) → elem s.id ids ≡ true → s.manifest_digest ≡ some d → elem d noted ≡ true

named_digests-IsNoted :
    (tags : List TagRef) (ids : List ℕ) → All (IsNoted ids (named_digests tags ids)) tags
unfolding named_digests
named_digests-IsNoted [] ids = tt
named_digests-IsNoted (s ∷ tags) ids = (
  λ d h e. rw (e, h) (ground (arith, text_beq_iff d d)),
  All-imp (λ r f d h e. note_digest-elem d s.manifest_digest (elem s.id ids) _ (f d h e)) tags
      (named_digests-IsNoted tags ids),
)

ids_where-elem :
    (p : Text → Bool) (tags : List TagRef)
    → All (λ s. p s.tag ≡ true → elem s.id (ids_where p tags) ≡ true) tags
unfolding ids_where
ids_where-elem p [] = tt
ids_where-elem p (s ∷ tags) = (
  λ h. rw h (ground (arith, ==_iff s.id s.id)),
  All-imp (λ r f h. ground (arith, f h)) tags (ids_where-elem p tags),
)

-- The tags left after the names that match.
exclude-IsClear :
    (p : Text → Bool) (tags : List TagRef)
    → All (IsClear p tags) (exclude_with_digest tags (ids_where p tags))
unfolding exclude_with_digest digest_in
exclude-IsClear p tags =
    All-imp clear _
      (All-and _ _ _ (All-filter_test _ tags) (All-filter _ _ tags (ids_where-elem p tags)))
  where
    ids : List ℕ
    ids = ids_where p tags

    clear :
        (r : TagRef)
        → ((not (elem r.id ids) && not (digest_in r.manifest_digest (named_digests tags ids)))
            ≡ true)
          × (p r.tag ≡ true → elem r.id ids ≡ true)
        → IsClear p tags r
    clear r h = (
      ground arith,
      All-imp (λ s f hs share. ground (arith, f.1 share.0 (f.0 hs) share.2)) tags
          (All-and _ _ tags (ids_where-elem p tags) (named_digests-IsNoted tags ids)),
    )

-- A tag that is left is not named for Windows only, nor of the digest of one that is.
pub exclude_windows_only-IsClear :
    (tags : List TagRef) → All (IsClear is_windows_only tags) (exclude_windows_only tags)
unfolding exclude_windows_only
exclude_windows_only-IsClear tags = exclude-IsClear is_windows_only tags

-- The names of pre-releases and of date snapshots.
abbrev pub is_unstable : Text → Bool
is_unstable tag = is_prerelease tag || is_date_snapshot tag

pub exclude_prerelease-IsClear :
    (tags : List TagRef) → All (IsClear is_unstable tags) (exclude_prerelease tags)
unfolding exclude_prerelease
exclude_prerelease-IsClear tags = exclude-IsClear is_unstable tags
