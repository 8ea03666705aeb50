-- ===== src/Derive/Repository/Values.antt =====
-- collect/derive.py: every tag of a repository gets values.
use mathlib.Core.List.{Memᴰ}
use mathlib.Core.List.Memᴰ
use whatfrom.Prelude.{◌≡◌, refl, sym, subst, inl, inr, List, [], ◌∷◌, Bool-cases}
use whatfrom.Prelude.Eq.{Text, text_eq, nat_eq, text_beq, text_beq_iff, beq_refl}
use whatfrom.Prelude.Dict.{Dict, lookup, insert, lookup-insert, IsKey}
use whatfrom.Models.{ImageTag}
use whatfrom.Derive.Parse.{TagFacts}
use whatfrom.Derive.Resolve.{
  Fingerprint, Resolution, Groups, group_of, resolve_tag, add_values, resolve_each, resolve_aliases,
}
use whatfrom.Derive.Repository.{facts_from, resolution_of}

-- Every tag of the rows has values.
module _ {V : Type 0} where
  IsKey-insert_same : (k : Text) (v : V) (d : Dict Text V) → IsKey (insert k v d) k
  IsKey-insert_same k v d = (v, rw (lookup-insert k k v d, beq_refl k) refl)

  IsKey-insert : (j k : Text) (v : V) (d : Dict Text V) → IsKey d k → IsKey (insert j v d) k
  IsKey-insert j k v d (w, h) = elim (Bool-cases (text_beq j k)) [
    | inl q ↦ (v, rw (lookup-insert j k v d, q) refl)
    | inr q ↦ (w, rw (lookup-insert j k v d, q) h)
  ]

module _ (repository : Text) where
  facts_from_keeps :
      (rows : List ImageTag) (facts : Dict Text TagFacts) (k : Text)
      → IsKey facts k
      → IsKey (facts_from repository rows facts) k
  facts_from_keeps [] facts k h = h
  facts_from_keeps (r ∷ rows) facts k h = facts_from_keeps rows _ k (IsKey-insert r.tag k _ facts h)

  facts_from-IsKey :
      (rows : List ImageTag) (facts : Dict Text TagFacts) (row : ImageTag)
      → Memᴰ row rows
      → IsKey (facts_from repository rows facts) row.tag
  facts_from-IsKey [] facts row m = absurd (Memᴰ.not-nil m)
  facts_from-IsKey (r ∷ rows) facts row m = elim (Memᴰ.cases_cons m) [
    | inl e ↦
        let here = facts_from_keeps rows _ r.tag (IsKey-insert_same r.tag _ facts) in
        subst (λ (x : ImageTag). IsKey (facts_from repository (r ∷ rows) facts) x.tag) (sym e) here
    | inr n ↦ facts_from-IsKey rows _ row n
  ]

module _ (facts : Dict Text TagFacts) (fingerprints : Dict Text Fingerprint) (groups : Groups) where
  resolve_each_keeps :
      (rest : Dict Text TagFacts) (r : Resolution) (k : Text)
      → IsKey r.values k
      → IsKey (resolve_each facts fingerprints groups rest r).values k
  resolve_each_keeps [] r k h = h
  resolve_each_keeps ((tag, own) ∷ rest) r k h =
      resolve_each_keeps rest _ k (IsKey-insert tag k _ r.values h)

  resolve_each-IsKey :
      (rest : Dict Text TagFacts) (r : Resolution) (k : Text)
      → IsKey rest k
      → IsKey (resolve_each facts fingerprints groups rest r).values k
  resolve_each-IsKey [] r k (v, h) = cc
  resolve_each-IsKey ((tag, own) ∷ rest) r k (v, h) = elim (Bool-cases (text_beq tag k)) [
    | inl q ↦
        let same : tag ≡ k = (text_beq_iff tag k).0 q in
        resolve_each_keeps rest _ k (
          subst
            (λ j.
              IsKey
                (add_values tag (resolve_tag own (group_of facts groups (lookup tag fingerprints)))
                  r).values
                j)
            same (IsKey-insert_same tag _ r.values))
    | inr q ↦ resolve_each-IsKey rest _ k (v, rw q at h)
  ]

pub resolution_of-IsKey :
    (repository : Text) (rows : List ImageTag) (row : ImageTag)
    → Memᴰ row rows
    → IsKey (resolution_of repository rows).values row.tag
unfolding resolve_aliases
resolution_of-IsKey repository rows row m =
    resolve_each-IsKey _ _ _ _ _ row.tag (facts_from-IsKey repository rows [] row m)
