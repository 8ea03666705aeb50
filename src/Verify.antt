-- ===== src/Verify.antt =====
-- recommend/verify.py: whether a recommended image is one we offered and one that exists.
use Prim.Native.Nat.{ℕ}
use whatfrom.Prelude.{
  Option, none, some, List, [], ◌∷◌, ◌++◌, map, Bool, true, false, if◌then◌else◌, ◌==◌, suc, filter,
  not, ◌&&◌, ◌||◌,
}
use whatfrom.Prelude.Eq.{Text, elem, text_eq}
use whatfrom.Prelude.Text.{codes, starts_with, is_nil}
use whatfrom.Contracts.{split_image, Candidate, Recommendation}
pub mod Real
pub mod Citations
pub mod Tests

-- What the select of the id of an image tag by repository and tag answers in an open session.
abbrev pub Session : Type 0
Session = Text → Text → Option ℕ

abbrev is_some {ℓ} : {A : Type ℓ} → Option A → Bool
is_some none = false
is_some (some a) = true

abbrev exists_parts : Session → Option (Text × Text) → Bool
exists_parts session none = false
exists_parts session (some (repository, tag)) = is_some (session repository tag)

unfoldable pub image_exists : Session → Text → Bool
image_exists session image = exists_parts session (split_image image)

-- `image.count(":")`
abbrev colons : Text → ℕ
colons [] = 0
colons (c ∷ t) = let rest = colons t in if c == b':' then suc rest else rest

-- `image.endswith(":")`
abbrev ends_with_colon : Text → Bool
ends_with_colon [] = false
ends_with_colon (c ∷ t) = let rest = ends_with_colon t in if is_nil t then c == b':' else rest

abbrev is_malformed : Text → Bool
is_malformed image =
    not (colons image == 1) || (starts_with (b':' ∷ []) image || ends_with_colon image)

abbrev pub offered : List Candidate → List Text
offered = map (λ (c : Candidate). c.image)

unfoldable pub is_real : Session → List Candidate → Text → Bool
is_real session candidates image =
    if is_malformed image
    then false
    else elem image (offered candidates) && image_exists session image

pub record VerifyResult : Type 0 where
  pub ok : Bool
  pub reason : Option Text
  pub dropped_alternatives : List Text

unfoldable pub verify_recommendation : Session → Recommendation → List Candidate → VerifyResult
verify_recommendation session rec candidates =
    if not (is_real session candidates rec.image)
    then record {
      ok = false;
      reason = some (rec.image ++ codes " is not a verifiable candidate image");
      dropped_alternatives = [];
    }
    else record {
      ok = true;
      reason = none;
      dropped_alternatives = filter (λ a. not (is_real session candidates a)) rec.alternatives;
    }
