-- ===== src/TagSelect/Names.antt =====
-- search/tagselect.py: what the name of a tag says, and the tags left out for it. The patterns of
-- `re` are read on ASCII digits.
pub mod Excluded
use whatfrom.Prelude.{
  ℕ, zero, suc, Bool, true, false, not, ◌&&◌, ◌||◌, Option, none, some, List, [], ◌∷◌, ◌++◌, ◌==◌,
  if◌then◌else◌, length, filter, any,
}
use whatfrom.Prelude.Eq.{Text, text_eq, text_beq, nat_eq, elem}
use whatfrom.Prelude.Text.{
  codes, is_digit, at_end, starts_digit, starts_with, drop, search, contains,
}

-- `TagRef`; a time is a count of microseconds.
pub record TagRef : Type 0 where
  pub id : ℕ
  pub tag : Text
  pub manifest_digest : Option Text
  pub last_pushed_at : Option ℕ

-- `[0-9](a|b|rc)[0-9]`, at the start of the text.
digit_mark_digit : Text → Bool
digit_mark_digit [] = false
digit_mark_digit (c ∷ t) =
    is_digit c
    && ((starts_with (codes "a") t && starts_digit (drop 1 t))
        || (starts_with (codes "b") t && starts_digit (drop 1 t))
        || (starts_with (codes "rc") t && starts_digit (drop 2 t)))

-- `-m[0-9]+`
milestone : Text → Bool
milestone t = starts_with (codes "-m") t && starts_digit (drop 2 t)

-- `(-|$)`
word_ends : Text → Bool
word_ends t = starts_with (codes "-") t || at_end t

abbrev channel_words : List Text
channel_words =
    codes "devel"
    ∷ codes "tip"
    ∷ codes "sid"
    ∷ codes "testing"
    ∷ codes "unstable"
    ∷ codes "experimental"
    ∷ codes "rc-buggy"
    ∷ codes "edge"
    ∷ []

-- `^(devel|tip|…)(-|$)`
channel : Text → Bool
unfolding word_ends
channel t = any (λ w. starts_with w t && word_ends (drop (length w) t)) channel_words

-- `PRERELEASE.search(tag)`
unfoldable pub is_prerelease : Text → Bool
unfolding digit_mark_digit milestone channel
is_prerelease tag =
    search digit_mark_digit tag
    || contains (codes "-rc") tag
    || search milestone tag
    || contains (codes "beta") tag
    || contains (codes "alpha") tag
    || contains (codes "backports") tag
    || channel tag

-- `\d*` up to `$`
digits_to_end : Text → Bool
digits_to_end [] = true
digits_to_end (c ∷ t) = (is_digit c && digits_to_end t) || at_end (c ∷ t)

-- `(\.\d+)?$`
fraction_to_end : Text → Bool
unfolding digits_to_end
fraction_to_end t =
    at_end t || (starts_with (codes ".") t && starts_digit (drop 1 t) && digits_to_end (drop 1 t))

-- `\d{n}` and then the test of what follows.
digits_then : ℕ → (Text → Bool) → Text → Bool
digits_then zero p t = p t
digits_then (suc n) p [] = false
digits_then (suc n) p (c ∷ t) = is_digit c && digits_then n p t

-- `DATE_SNAPSHOT.match(tag)`
unfoldable pub is_date_snapshot : Text → Bool
unfolding fraction_to_end digits_then
is_date_snapshot tag = digits_then 8 fraction_to_end tag

-- `WINDOWS_ONLY.search(tag)`
unfoldable pub is_windows_only : Text → Bool
is_windows_only tag = contains (codes "windowsservercore") tag || contains (codes "nanoserver") tag

digest_in : Option Text → List Text → Bool
digest_in none named = false
digest_in (some d) named = elem d named

note_digest : Option Text → Bool → List Text → List Text
note_digest none named rest = rest
note_digest (some d) true rest = d ∷ rest
note_digest (some d) false rest = rest

-- `{ref.manifest_digest for ref in tags if ref.id in named_ids and … is not None}`
named_digests : List TagRef → List ℕ → List Text
unfolding note_digest
named_digests [] named_ids = []
named_digests (ref ∷ tags) named_ids =
    note_digest ref.manifest_digest (elem ref.id named_ids) (named_digests tags named_ids)

-- `_exclude_with_digest`
unfoldable pub exclude_with_digest : List TagRef → List ℕ → List TagRef
unfolding digest_in named_digests
exclude_with_digest tags named_ids =
    filter
      (λ ref.
        not (elem ref.id named_ids)
        && not (digest_in ref.manifest_digest (named_digests tags named_ids)))
      tags

-- `{ref.id for ref in tags if p(ref.tag)}`
ids_where : (Text → Bool) → List TagRef → List ℕ
ids_where p [] = []
ids_where p (ref ∷ tags) = let rest = ids_where p tags in if p ref.tag then ref.id ∷ rest else rest

-- `_exclude_windows_only`
unfoldable pub exclude_windows_only : List TagRef → List TagRef
unfolding exclude_with_digest ids_where is_windows_only
exclude_windows_only tags = exclude_with_digest tags (ids_where is_windows_only tags)

-- `_exclude_prerelease`
unfoldable pub exclude_prerelease : List TagRef → List TagRef
unfolding exclude_with_digest ids_where is_prerelease is_date_snapshot
exclude_prerelease tags =
    exclude_with_digest tags (ids_where (λ t. is_prerelease t || is_date_snapshot t) tags)

-- `_allowed`
unfoldable pub allowed : List TagRef → Option (List ℕ) → List TagRef
allowed refs none = refs
allowed refs (some allowed_ids) = filter (λ ref. elem ref.id allowed_ids) refs
