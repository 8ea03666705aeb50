-- ===== src/Verify/Real.antt =====
-- recommend/verify.py: what it takes for an image to be real, and which images an answer keeps.
use whatfrom.Prelude.{
  ◌⊎◌, ℕ, suc, ◌+◌, ◌≡◌, refl, ap, sym, ◌∙◌, ◌≢◌, ◌↔◌, inl, inr, true, false, not, ◌||◌, none, some,
  List, [], ◌∷◌, ◌++◌, arith, All, Bool-cases, ==_iff, ◌==◌,
}
use whatfrom.Prelude.Eq.{Text, elem, text_eq, elem-filter}
use whatfrom.Prelude.Text.{is_nil, starts_with}
use whatfrom.Contracts.{split_image, Candidate, Recommendation}
use whatfrom.Verify.{
  Session, is_some, exists_parts, image_exists, colons, ends_with_colon, is_malformed, offered,
  is_real, verify_recommendation,
}

-- No colon occurs in the text.
abbrev pub IsPlain : Text → Type 0
IsPlain = All (λ c. c ≢ b':')

-- The image is `repository:tag` with both parts plain and there, it is the image of a candidate,
-- and the tag is in the database.
pub IsReal : Session → List Candidate → Text → Type 0
IsReal session candidates image =
    (repository : Text) × (tag : Text) × (image ≡ repository ++ b':' ∷ tag)
    × IsPlain repository
    × IsPlain tag
    × (is_nil repository ≡ false)
    × (is_nil tag ≡ false)
    × (elem image (offered candidates) ≡ true)
    × (is_some (session repository tag) ≡ true)

colons-IsPlain : (t : Text) → colons t ≡ 0 → IsPlain t
colons-IsPlain [] h = tt
colons-IsPlain (c ∷ t) h = elim (Bool-cases (c == b':')) [
  | inl q ↦ ground (arith)
  | inr q ↦ (λ e. ground (arith), colons-IsPlain t (ground arith))
]

IsPlain-colons : (t : Text) → IsPlain t → colons t ≡ 0
IsPlain-colons [] h = refl
IsPlain-colons (c ∷ t) h = let ih = IsPlain-colons t h.1 in let n = h.0 in ground arith

abbrev Parts : Text → Type 0
Parts t =
    (r : Text) × (g : Text) × (split_image t ≡ some (r, g))
    × (t ≡ r ++ b':' ∷ g)
    × (colons r ≡ 0)
    × (colons g ≡ 0)

Parts-cons : (c : ℕ) (t : Text) → (c == b':') ≡ false → Parts t → Parts (c ∷ t)
unfolding split_image
Parts-cons c t q (r, g, s, e, h, k) = (c ∷ r, g, rw (q, s) refl, ap (λ u. c ∷ u) e, rw q h, k)

colons-Parts : (t : Text) → colons t ≡ 1 → Parts t
unfolding split_image
colons-Parts [] h = ground arith
colons-Parts (c ∷ t) h = elim (Bool-cases (c == b':')) [
  | inl q ↦ ([], t, rw q refl, ap (λ u. u ∷ t) ((==_iff c b':').0 q), refl, ground arith)
  | inr q ↦ Parts-cons c t q (colons-Parts t (ground arith))
]

split_image-append : (r g : Text) → colons r ≡ 0 → split_image (r ++ b':' ∷ g) ≡ some (r, g)
unfolding split_image
split_image-append [] g h = refl
split_image-append (c ∷ r) g h = elim (Bool-cases (c == b':')) [
  | inl q ↦ ground arith
  | inr q ↦ rw (q, split_image-append r g (ground arith)) refl
]

colons-append : (r g : Text) → colons (r ++ b':' ∷ g) ≡ colons r + suc (colons g)
colons-append [] g = omega arith
colons-append (c ∷ r) g = ground (arith, colons-append r g)

ends_with_colon-append : (r g : Text) → colons g ≡ 0 → ends_with_colon (r ++ b':' ∷ g) ≡ is_nil g
ends_with_colon-append [] [] h = refl
ends_with_colon-append [] (d ∷ g) h = ends_with_colon-plain (d ∷ g) h
  where
    ends_with_colon-plain : (t : Text) → colons t ≡ 0 → ends_with_colon t ≡ false
    ends_with_colon-plain [] h = refl
    ends_with_colon-plain (c ∷ t) h = ground (arith, ends_with_colon-plain t)
ends_with_colon-append (c ∷ []) g h = ends_with_colon-append [] g h
ends_with_colon-append (c ∷ d ∷ r) g h = ends_with_colon-append (d ∷ r) g h

starts_with-colon : (r g : Text) → colons r ≡ 0 → starts_with (b':' ∷ []) (r ++ b':' ∷ g) ≡ is_nil r
starts_with-colon [] g h = refl
starts_with-colon (c ∷ r) g h = ground arith

-- The three tests on the colons, of a text with its first colon marked.
is_malformed-append :
    (r g : Text)
    → colons r ≡ 0
    → colons g ≡ 0
    → is_malformed (r ++ b':' ∷ g) ≡ (is_nil r || is_nil g)
is_malformed-append r g h k =
    rw (starts_with-colon r g h, ends_with_colon-append r g k, colons-append r g, h, k) refl

is_real-tests :
    (session : Session) (candidates : List Candidate) (image : Text)
    → (is_real session candidates image ≡ true) ↔ (
        (is_malformed image ≡ false)
        × (elem image (offered candidates) ≡ true)
        × (exists_parts session (split_image image) ≡ true))
unfolding is_real image_exists
is_real-tests session candidates image = ground arith

is_real-IsReal :
    (session : Session) (candidates : List Candidate) (image : Text)
    → is_real session candidates image ≡ true
    → IsReal session candidates image
unfolding IsReal
is_real-IsReal session candidates image h =
    let (m, o, e) = (is_real-tests session candidates image).0 h in
    let (r, g, s, q, k, l) = colons-Parts image (ground arith) in
    let n : (is_nil r || is_nil g) ≡ false = sym (is_malformed-append r g k l) ∙ rw (sym q) m in
    (r, g, q, colons-IsPlain r k, colons-IsPlain g l, ground arith, ground arith, o, rw s at e)

IsReal-is_real :
    (session : Session) (candidates : List Candidate) (image : Text)
    → IsReal session candidates image
    → is_real session candidates image ≡ true
unfolding IsReal
IsReal-is_real session candidates image (r, g, q, k, l, m, n, o, e) =
    let j = IsPlain-colons r k in
    (is_real-tests session candidates image).1 (
      ap is_malformed q ∙ is_malformed-append r g j (IsPlain-colons g l) ∙ ground arith,
      o,
      ap (exists_parts session) (ap split_image q ∙ split_image-append r g j) ∙ e,
    )

-- The test of one image is the description: a candidate's image, of two parts and in the database.
pub is_real_iff :
    (session : Session) (candidates : List Candidate) (image : Text)
    → (is_real session candidates image ≡ true) ↔ IsReal session candidates image
is_real_iff session candidates image =
    (is_real-IsReal session candidates image, IsReal-is_real session candidates image)

pub IsReal-offered :
    (session : Session) (candidates : List Candidate) (image : Text)
    → IsReal session candidates image
    → elem image (offered candidates) ≡ true
unfolding IsReal
IsReal-offered session candidates image h = h.7

-- An answer is accepted exactly if the image that it recommends is real; a refusal has a reason
-- and drops nothing.
pub verify_recommendation-IsReal :
    (session : Session) (rec : Recommendation) (candidates : List Candidate)
    → let v = verify_recommendation session rec candidates in
      ((v.ok ≡ true) ↔ IsReal session candidates rec.image)
      × ((v.ok ≡ true) ↔ (v.reason ≡ none))
      × ((v.ok ≡ true) ⊎ (v.dropped_alternatives ≡ []))
unfolding verify_recommendation
verify_recommendation-IsReal session rec candidates =
    let (f, g) = is_real_iff session candidates rec.image in
    elim (Bool-cases (is_real session candidates rec.image)) [
      | inl q ↦ rw q ((λ h. f q, λ h. refl), (λ h. refl, λ h. refl), inl refl)
      | inr q ↦ rw q ((λ h. cc, λ h. cc (q, g h)), (λ h. cc, λ h. cc), inr refl)
    ]

-- The alternatives that an accepted answer names to be dropped are exactly those that are not real.
pub verify_recommendation_drops :
    (session : Session) (rec : Recommendation) (candidates : List Candidate)
    → (verify_recommendation session rec candidates).ok ≡ true
    → (a : Text) → elem a rec.alternatives ≡ true
    → (elem a (verify_recommendation session rec candidates).dropped_alternatives ≡ false)
      ↔ IsReal session candidates a
unfolding verify_recommendation
verify_recommendation_drops session rec candidates h a m =
    let (f, g) = is_real_iff session candidates a in
    let kept = elem-filter (λ b. not (is_real session candidates b)) a rec.alternatives in
    elim (Bool-cases (is_real session candidates rec.image)) [
      | inl q ↦ rw (q, kept, m) (λ e. f (ground arith), λ r. rw (g r) refl)
      | inr q ↦ absurd (ground arith)
    ]
