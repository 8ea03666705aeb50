-- ===== src/Chunks/Tests.antt =====
-- index/chunk.py: a short line in chunks of eight characters.
use whatfrom.Prelude.{◌≡◌, ◌≤◌, refl, some, List, [], ◌∷◌, All, length, arith}
use whatfrom.Prelude.Eq.{Text}
use whatfrom.Prelude.Text.{codes, join}
use whatfrom.Chunks.Sections.{split_sections}
use whatfrom.Chunks.{Span, end_of, spans, chunk_text}
use whatfrom.Chunks.Cover.{Covers, spans-Covers, chunk_text-length}

abbrev line : Text
line = codes " slim images hold less "

in_chunks :
    chunk_text line 8 2
    ≡ some (
        codes "slim"
        ∷ codes "im"
        ∷ codes "m"
        ∷ codes "images"
        ∷ codes "es hold"
        ∷ codes "ld less"
        ∷ [])
unfolding chunk_text spans end_of
in_chunks = refl

spans-Covers_example :
    (found : List Span) × (spans (length line) line 8 2 0 ≡ some found) × Covers line 8 2 0 found
spans-Covers_example = spans-Covers line 8 2 (omega arith)

chunk_text-length_example :
    (chunks : List Text) × (chunk_text line 8 2 ≡ some chunks) × All (λ c. length c ≤ 8) chunks
chunk_text-length_example = chunk_text-length line 8 2

abbrev markdown : Text
markdown = join 10 (
    codes "lost"
    ∷ codes "# Image "
    ∷ codes "intro"
    ∷ codes "## Usage"
    ∷ codes "```"
    ∷ codes "# not a heading"
    ∷ codes "```"
    ∷ codes "### Deeper"
    ∷ codes "## Empty"
    ∷ [])

in_sections :
    split_sections markdown
    ≡ record { title = codes "Image"; body = codes "intro" }
      ∷ record {
        title = codes "Image > Usage";
        body =
            join 10 (codes "```" ∷ codes "# not a heading" ∷ codes "```" ∷ codes "### Deeper" ∷ []);
      }
      ∷ []
in_sections = refl
