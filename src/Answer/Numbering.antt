-- ===== src/Answer/Numbering.antt =====
-- recommend/evidence.py: the numbers that the evidence of the candidates has within a request.
use whatfrom.Prelude.{suc, Option, none, some, List, [], ◌∷◌, ◌++◌, if◌then◌else◌, length}
use whatfrom.Prelude.Eq.{Text, elem, text_eq}
use whatfrom.Prelude.Dict.{Dict, insert, lookup}
use whatfrom.Prelude.Integers.{ℤ, int_eq, pair_eq}
use whatfrom.Contracts.{Evidence, NumberedEvidence, Candidate}
pub mod Sections

-- The two accumulators of the loops over all candidates.
pub record Numbering : Type 0 where
  pub numbers : Dict (Text × Text) ℤ
  pub evidence : List NumberedEvidence

abbrev pub key_of : Evidence → Text × Text
key_of item = (item.repository, item.section_title)

abbrev pub with_number : ℤ → Evidence → NumberedEvidence
with_number n item = record {
  repository = item.repository;
  section_title = item.section_title;
  content = item.content;
  source_url = item.source_url;
  number = n;
}

abbrev pub numbered_as : Option ℤ → Evidence → Numbering → Numbering × ℤ
numbered_as (some n) item s = (s, n)
numbered_as none item s =
    let n = ℤ.pos (suc (length s.evidence)) in
    (
      record {
        numbers = insert (key_of item) n s.numbers;
        evidence = s.evidence ++ with_number n item ∷ [];
      },
      n,
    )

-- The number of an item, given to it if its section has none.
abbrev pub number_item : Evidence → Numbering → Numbering × ℤ
number_item item s = numbered_as (lookup (key_of item) s.numbers) item s

abbrev pub add_own : ℤ → List ℤ → List ℤ
add_own n own = if elem n own then own else own ++ n ∷ []

-- The inner loop, over the evidence of a candidate.
unfoldable pub number_items : List Evidence → Numbering → List ℤ → Numbering × List ℤ
number_items [] s own = (s, own)
number_items (item ∷ items) s own =
    let (t, n) = number_item item s in number_items items t (add_own n own)

abbrev pub with_numbers : List ℤ → Candidate → Candidate
with_numbers own c = record {
  image = c.image;
  repository = c.repository;
  tag = c.tag;
  digest = c.digest;
  platforms = c.platforms;
  last_pushed_at = c.last_pushed_at;
  source_url = c.source_url;
  collected_at = c.collected_at;
  evidence = c.evidence;
  evidence_numbers = own;
  version = c.version;
  distribution = c.distribution;
  distro_codename = c.distro_codename;
  variant = c.variant;
}

-- The outer loop, over the candidates.
unfoldable pub number_candidates : List Candidate → Numbering → Numbering × List Candidate
number_candidates [] s = (s, [])
number_candidates (c ∷ cs) s =
    let (t, own) = number_items c.evidence s [] in
    let (u, rest) = number_candidates cs t in (u, with_numbers own c ∷ rest)

unfoldable pub number_evidence : List Candidate → List NumberedEvidence × List Candidate
number_evidence candidates =
    let (s, numbered) = number_candidates candidates (record { numbers = []; evidence = [] }) in
    (s.evidence, numbered)
