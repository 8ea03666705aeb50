-- ===== src/Chunks.antt =====
-- index/chunk.py: a long text in chunks that overlap.
use whatfrom.Prelude.{
  ℕ, zero, suc, ◌+◌, ◌-◌, Option, none, some, List, [], ◌∷◌, map, Bool, true, false, not, ◌&&◌, min,
  max, ltb, leb, ◌==◌, if◌then◌else◌, length, take, filter,
}
use whatfrom.Prelude.Eq.{Text}
use whatfrom.Prelude.Text.{is_space, is_nil, drop}
pub mod Cover
pub mod Sections
mod Tests

abbrev pub lstrip : Text → Text
lstrip [] = []
lstrip (c ∷ t) = let rest = lstrip t in if is_space c then rest else c ∷ t

abbrev pub rstrip : Text → Text
rstrip [] = []
rstrip (c ∷ t) = let rest = rstrip t in if is_nil rest && is_space c then [] else c ∷ rest

-- `text.strip()`
abbrev pub strip : Text → Text
strip t = rstrip (lstrip t)

-- `text[start:end]`
abbrev pub slice : Text → ℕ → ℕ → Text
slice t start end = take (end - start) (drop start t)

abbrev later : ℕ → Option ℕ → Option ℕ
later c none = if c == b' ' then some 0 else none
later c (some i) = some (suc i)

-- The place of the last space of a text: `text.rfind(" ", start, end)` is that of the slice
-- behind `start`, and `none` is -1.
abbrev last_space : Text → Option ℕ
last_space [] = none
last_space (c ∷ t) = later c (last_space t)

abbrev cut : ℕ → ℕ → Option ℕ → ℕ
cut start end none = end
cut start end (some i) = if ltb start (start + i) then start + i else end

-- `end`, at the end of the first half of the loop.
unfoldable pub end_of : Text → ℕ → ℕ → ℕ
end_of text max_chars start =
    let end = min (start + max_chars) (length text) in
    if ltb end (length text) then cut start end (last_space (slice text start end)) else end

abbrev pub Span : Type 0
Span = ℕ × ℕ

abbrev add_span : Span → Option (List Span) → Option (List Span)
add_span span none = none
add_span span (some spans) = some (span ∷ spans)

-- The pairs of `start` and `end` that the loop goes through; `none` where the fuel is used up.
unfoldable pub spans : ℕ → Text → ℕ → ℕ → ℕ → Option (List Span)
spans zero text max_chars overlap start = if ltb start (length text) then none else some []
spans (suc fuel) text max_chars overlap start =
    let end = end_of text max_chars start in
    let rest = spans fuel text max_chars overlap (max (end - overlap) (start + 1)) in
    if ltb start (length text)
    then (if leb (length text) end then some ((start, end) ∷ []) else add_span (start, end) rest)
    else some []

abbrev chunk_of : Text → Span → Text
chunk_of text (start, end) = strip (slice text start end)

abbrev chunks_of : Text → Option (List Span) → Option (List Text)
chunks_of text none = none
chunks_of text (some found) = some (filter (λ c. not (is_nil c)) (map (chunk_of text) found))

unfoldable pub chunk_text : Text → ℕ → ℕ → Option (List Text)
chunk_text raw max_chars overlap =
    let text = strip raw in
    if leb (length text) max_chars
    then some (text ∷ [])
    else chunks_of text (spans (length text) text max_chars overlap 0)
