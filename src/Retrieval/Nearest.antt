-- ===== src/Retrieval/Nearest.antt =====
-- search/retrieval.py, search_chunks_by_vector: the sections whose chunks are nearest to a vector.
use whatfrom.Prelude.{
  ℕ, Bool, true, not, ◌&&◌, ◌||◌, ◌==◌, Option, none, some, List, [], ◌∷◌, any, filter, leb, take,
  if◌then◌else◌,
}
use whatfrom.Prelude.Eq.{Text, text_eq, text_beq}
use whatfrom.Prelude.Sort.{sort}
use whatfrom.Models.{Document, DocumentChunk}

-- A chunk that has an embedding, with the document that it joins.
pub record Hit (Vector : Type 0) : Type 0 where
  pub chunk_id : ℕ
  pub document : Document
  pub embedding : Vector

abbrev document_by_id : ℕ → List Document → Option Document
document_by_id i [] = none
document_by_id i (d ∷ documents) =
    let rest = document_by_id i documents in if d.id == i then some d else rest

abbrev of_repository : {Vector : Type 0} → Option Text → Hit Vector → Bool
of_repository none hit = true
of_repository (some repository) hit = text_beq hit.document.repository repository

module _ {Vector : Type 0} where
  abbrev add_hit :
      DocumentChunk Vector → Option Vector → Option Document → List (Hit Vector) → List (Hit Vector)
  add_hit chunk (some embedding) (some document) hits =
      record { chunk_id = chunk.id; document = document; embedding = embedding } ∷ hits
  add_hit chunk (some embedding) none hits = hits
  add_hit chunk none document hits = hits

  abbrev join_documents : List Document → List (DocumentChunk Vector) → List (Hit Vector)
  join_documents documents [] = []
  join_documents documents (chunk ∷ chunks) =
      add_hit chunk chunk.embedding (document_by_id chunk.document_id documents)
        (join_documents documents chunks)

  -- The comparison of distances, the query's vector first, is the database's own.
  module _ (nearer : Vector → Vector → Vector → Bool) (vector : Vector) where
    -- ORDER BY distance, id
    abbrev comes_before : Hit Vector → Hit Vector → Bool
    comes_before a b =
        nearer vector a.embedding b.embedding
        || (not (nearer vector b.embedding a.embedding) && leb a.chunk_id b.chunk_id)

    -- rank = 1: no chunk of the same document comes before.
    abbrev is_best : List (Hit Vector) → Hit Vector → Bool
    is_best hits hit = not (
        any
          (λ (other : Hit Vector).
            other.document.id == hit.document.id && not (comes_before hit other))
          hits)

    abbrev pub search_chunks_by_vector :
        List Document → List (DocumentChunk Vector) → ℕ → Option Text → List (Hit Vector)
    search_chunks_by_vector documents chunks limit repository =
        let ranked = filter (of_repository repository) (join_documents documents chunks) in
        take limit (sort comes_before (filter (is_best ranked) ranked))
