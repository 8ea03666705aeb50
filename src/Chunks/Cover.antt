-- ===== src/Chunks/Cover.antt =====
-- index/chunk.py: the chunks are short enough and leave nothing out.
use whatfrom.Prelude.{
  ℕ, zero, suc, ◌+◌, ◌-◌, ◌≡◌, ◌≤◌, ◌<◌, refl, inl, inr, Option, none, some, List, [], ◌∷◌, map,
  arith, min, max, ltb, leb, ltb→lt, leb→le, OnSome, OnSome-eq, ◌==◌, length, length-take-le, All,
  All-filter, Bool-cases,
}
use whatfrom.Prelude.Eq.{Text}
use whatfrom.Prelude.Text.{drop}
use whatfrom.Chunks.{
  lstrip, rstrip, strip, slice, later, last_space, cut, end_of, Span, add_span, spans, chunk_of,
  chunk_text,
}

length-lstrip-le : (t : Text) → length (lstrip t) ≤ length t
length-lstrip-le [] = omega arith
length-lstrip-le (c ∷ t) = let ih = length-lstrip-le t in ground arith

length-rstrip-le : (t : Text) → length (rstrip t) ≤ length t
length-rstrip-le [] = omega arith
length-rstrip-le (c ∷ t) = let ih = length-rstrip-le t in ground arith

length-strip-le : (t : Text) → length (strip t) ≤ length t
length-strip-le t = omega (arith, length-rstrip-le (lstrip t), length-lstrip-le t)

-- A space that is found stands within the text.
abbrev Within : ℕ → Option ℕ → Type 0
Within n none = Unit
Within n (some i) = i < n

last_space-Within : (t : Text) → Within (length t) (last_space t)
last_space-Within [] = tt
last_space-Within (c ∷ t) = later-Within (last_space t) (last_space-Within t)
  where
    later-Within : (o : Option ℕ) → Within (length t) o → Within (suc (length t)) (later c o)
    later-Within none h = elim (Bool-cases (c == b' ')) [
      | inl q ↦ rw q (omega arith)
      | inr q ↦ rw q tt
    ]
    later-Within (some i) h = omega (arith, h)

cut-le :
    (start end n : ℕ) (o : Option ℕ)
    → Within n o
    → start + n ≤ end
    → (cut start end o ≤ end) × (start < end → start < cut start end o)
cut-le start end n none h k = (omega arith, λ l. l)
cut-le start end n (some i) h k = ground arith

end_of-le :
    (text : Text) (max_chars start : ℕ)
    → start < length text
    → (end_of text max_chars start ≤ start + max_chars)
      × (end_of text max_chars start ≤ length text)
      × (1 ≤ max_chars → start < end_of text max_chars start)
unfolding end_of
end_of-le text max_chars start h =
    let end = min (start + max_chars) (length text) in
    let s = slice text start end in
    let l = length-take-le (end - start) (drop start text) in
    let (p, q) =
      cut-le start end (length s) (last_space s) (last_space-Within s) (omega (arith, l)) in
    ground arith

module _ (text : Text) (max_chars overlap : ℕ) where
  abbrev IsShort : Span → Type 0
  IsShort (start, end) = end ≤ start + max_chars

  abbrev Found : Option (List Span) → Type 0
  Found o = (found : List Span) × (o ≡ some found) × All IsShort found

  Found-add_span :
      (span : Span) (o : Option (List Span)) → IsShort span → Found o → Found (add_span span o)
  Found-add_span span o h (found, e, a) = (span ∷ found, rw e refl, (h, a))

  spans-Found :
      (fuel start : ℕ)
      → length text ≤ start + fuel
      → Found (spans fuel text max_chars overlap start)
  unfolding spans
  spans-Found zero start h = elim (Bool-cases (ltb start (length text))) [
    | inl q ↦ absurd (ground arith)
    | inr q ↦ rw q ([], refl, tt)
  ]
  spans-Found (suc fuel) start h =
      let end = end_of text max_chars start in
      let next = max (end - overlap) (start + 1) in
      let ih = spans-Found fuel next (omega arith) in
      elim (Bool-cases (ltb start (length text))) [
        | inl q ↦
            let (s, l, w) = end_of-le text max_chars start (ltb→lt start (length text) q) in
            elim (Bool-cases (leb (length text) end)) [
              | inl r ↦ rw (q, r) ((start, end) ∷ [], refl, (s, tt))
              | inr r ↦ rw (q, r) (Found-add_span (start, end) _ s ih)
            ]
        | inr q ↦ rw q ([], refl, tt)
      ]

  -- The spans end with the text, and as long as they do not, another one goes on where they end or
  -- earlier.
  abbrev pub Covers : ℕ → List Span → Type 0
  Covers at [] = at ≡ length text
  Covers at ((start, end) ∷ found) =
      (at < length text)
      × (start ≤ at)
      × (start < end)
      × (end ≤ start + max_chars)
      × Covers end found

  Covers-add_span :
      (at : ℕ) (span : Span) (o : Option (List Span))
      → at < length text
      → span.0 ≤ at
      → span.0 < span.1
      → span.1 ≤ span.0 + max_chars
      → OnSome (Covers span.1) o
      → OnSome (Covers at) (add_span span o)
  Covers-add_span at span none b h k l c = tt
  Covers-add_span at span (some found) b h k l c = (b, h, k, l, c)

  spans-Covers_fuel :
      (fuel start at : ℕ)
      → 1 ≤ max_chars
      → start ≤ at
      → at ≤ length text
      → (start < length text → at < length text)
      → OnSome (Covers at) (spans fuel text max_chars overlap start)
  unfolding spans
  spans-Covers_fuel zero start at m h t b = elim (Bool-cases (ltb start (length text))) [
    | inl q ↦ rw q tt
    | inr q ↦ rw q (ground arith)
  ]
  spans-Covers_fuel (suc fuel) start at m h t b =
      let end = end_of text max_chars start in
      let next = max (end - overlap) (start + 1) in
      elim (Bool-cases (ltb start (length text))) [
        | inl q ↦
            let inside = ltb→lt start (length text) q in
            let (s, l, w) = end_of-le text max_chars start inside in
            let before = b inside in
            elim (Bool-cases (leb (length text) end)) [
              | inl r ↦
                  let whole = leb→le (length text) end r in
                  rw (q, r) (before, h, w m, s, omega arith)
              | inr r ↦
                  let longer = w m in
                  let more : end < length text = ground arith in
                  let ih = spans-Covers_fuel fuel next end m (omega arith) l (λ k. more) in
                  rw (q, r) (Covers-add_span at (start, end) _ before h longer s ih)
            ]
        | inr q ↦ rw q (ground arith)
      ]

  -- With room for one character at least, the loop ends, every span holds at least one and at
  -- most `max_chars` characters, the first begins at 0, each begins where the one before ends or
  -- earlier, and the last one, and no other, ends with the text.
  pub spans-Covers :
      1 ≤ max_chars
      → (found : List Span) × (spans (length text) text max_chars overlap 0 ≡ some found)
        × Covers 0 found
  spans-Covers m =
      let (found, e, a) = spans-Found (length text) 0 (omega arith) in
      (
        found,
        e,
        OnSome-eq (Covers 0) e
            (spans-Covers_fuel (length text) 0 0 m (omega arith) (omega arith) (λ k. k)),
      )

  chunk_of-IsShort :
      (found : List Span)
      → All IsShort found
      → All (λ c. length c ≤ max_chars) (map (chunk_of text) found)
  chunk_of-IsShort [] a = tt
  chunk_of-IsShort ((start, end) ∷ found) (h, a) =
      let s = slice text start end in
      (
        omega (arith, length-strip-le s, length-take-le (end - start) (drop start text)),
        chunk_of-IsShort found a,
      )

-- Every text is cut in finitely many steps, whatever the sizes, into chunks of at most `max_chars`
-- characters.
pub chunk_text-length :
    (raw : Text) (max_chars overlap : ℕ)
    → (chunks : List Text) × (chunk_text raw max_chars overlap ≡ some chunks)
      × All (λ c. length c ≤ max_chars) chunks
unfolding chunk_text
chunk_text-length raw max_chars overlap =
    let text = strip raw in
    elim (Bool-cases (leb (length text) max_chars)) [
      | inl q ↦ rw q (text ∷ [], refl, (leb→le (length text) max_chars q, tt))
      | inr q ↦
          let (found, e, a) = spans-Found text max_chars overlap (length text) 0 (omega arith) in
          rw (q, e)
            (
              _,
              refl,
              All-filter _ _ (map (chunk_of text) found)
                  (chunk_of-IsShort text max_chars overlap found a),
            )
    ]
