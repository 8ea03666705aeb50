-- ===== src/TagSelect/Order/Turns.antt =====
-- search/tagselect.py: `_interleave` ends, and picks as many tags as there are, up to the limit.
use whatfrom.Prelude.{
  ℕ, zero, suc, ◌+◌, ◌≤◌, ◌<◌, min, ◌≡◌, ◌∙◌, ap, refl, inl, inr, true, false, not, List, [], ◌∷◌,
  ◌++◌, arith, Bool-cases, ltb, lt→ltb, ltb→lt, length, length-append, any,
}
use whatfrom.Prelude.Text.{is_nil}
use whatfrom.Prelude.Sort.{total, total-append, total-one}
use whatfrom.TagSelect.Names.{TagRef}
use whatfrom.TagSelect.Order.{pop_first, pop_round, more_to_pick, pop_rounds, interleave}

-- The sum of a weight over the queues.
abbrev pub total_of : (TagRef → ℕ) → List (List TagRef) → ℕ
total_of w = total (total w)

module _ (w : TagRef → ℕ) where
  total-pop_first :
      (limit : ℕ) (picked queue : List TagRef)
      → total w (pop_first limit picked queue).0 + total w (pop_first limit picked queue).1
        ≡ total w picked + total w queue
  unfolding pop_first
  total-pop_first limit picked [] = refl
  total-pop_first limit picked (r ∷ queue) = ground (arith, total-append w picked (r ∷ []))

  -- No round drops a tag or picks one twice.
  total-pop_round :
      (limit : ℕ) (picked : List TagRef) (queues : List (List TagRef))
      → total w (pop_round limit picked queues).0 + total_of w (pop_round limit picked queues).1
        ≡ total w picked + total_of w queues
  unfolding pop_round
  total-pop_round limit picked [] = refl
  total-pop_round limit picked (queue ∷ queues) = omega (
    arith,
    total-pop_first limit picked queue,
    total-pop_round limit (pop_first limit picked queue).0 queues,
  )

  total-pop_rounds-le :
      (fuel limit : ℕ) (picked : List TagRef) (queues : List (List TagRef))
      → total w (pop_rounds fuel limit picked queues) ≤ total w picked + total_of w queues
  unfolding pop_rounds
  total-pop_rounds-le zero limit picked queues = omega arith
  total-pop_rounds-le (suc fuel) limit picked queues = ground (
    arith,
    total-pop_round limit picked queues,
    total-pop_rounds-le fuel limit (pop_round limit picked queues).0
        (pop_round limit picked queues).1,
  )

  pub total-interleave-le :
      (lines : List (List TagRef)) (limit : ℕ) → total w (interleave lines limit) ≤ total_of w lines
  unfolding interleave
  total-interleave-le lines limit = omega (arith, total-pop_rounds-le limit limit [] lines)

length-pop_first-le :
    (limit : ℕ) (picked queue : List TagRef)
    → length picked ≤ limit
    → (length (pop_first limit picked queue).0 ≤ limit)
      × (length picked ≤ length (pop_first limit picked queue).0)
unfolding pop_first
length-pop_first-le limit picked [] h = omega arith
length-pop_first-le limit picked (r ∷ queue) h = ground (arith, length-append picked (r ∷ []))

length-pop_round-le :
    (limit : ℕ) (picked : List TagRef) (queues : List (List TagRef))
    → length picked ≤ limit
    → (length (pop_round limit picked queues).0 ≤ limit)
      × (length picked ≤ length (pop_round limit picked queues).0)
unfolding pop_round
length-pop_round-le limit picked [] h = omega arith
length-pop_round-le limit picked (queue ∷ queues) h =
    let a = length-pop_first-le limit picked queue h in
    let b = length-pop_round-le limit (pop_first limit picked queue).0 queues a.0 in
    omega (arith, a, b)

-- A round that has room and something to pick picks something.
pop_round-grows :
    (limit : ℕ) (picked : List TagRef) (queues : List (List TagRef))
    → length picked < limit
    → any (λ q. not (is_nil q)) queues ≡ true
    → length picked < length (pop_round limit picked queues).0
unfolding pop_round pop_first
pop_round-grows limit picked [] h q = cc
pop_round-grows limit picked ([] ∷ queues) h q = pop_round-grows limit picked queues h q
pop_round-grows limit picked ((r ∷ queue) ∷ queues) h q =
    let n : length (picked ++ r ∷ []) ≡ length picked + 1 = length-append picked (r ∷ []) in
    rw (lt→ltb _ _ h)
      (omega (arith, (length-pop_round-le limit (picked ++ r ∷ []) queues (omega arith)).1))

none_left :
    (queues : List (List TagRef))
    → any (λ q. not (is_nil q)) queues ≡ false
    → total_of (λ _. 1) queues ≡ 0
none_left [] h = refl
none_left ([] ∷ queues) h = omega (arith, none_left queues h)
none_left ((r ∷ queue) ∷ queues) h = cc

-- A round moves tags from the queues to the picked ones.
one_weights :
    (limit : ℕ) (picked : List TagRef) (queues : List (List TagRef))
    → length (pop_round limit picked queues).0 + total_of (λ _. 1) (pop_round limit picked queues).1
      ≡ length picked + total_of (λ _. 1) queues
one_weights limit picked queues = omega (
  arith,
  total-pop_round (λ _. 1) limit picked queues,
  total-one picked,
  total-one (pop_round limit picked queues).0,
)

-- With fuel for the room that is left, the loop ends by its own test: it has filled the limit, or
-- has picked every tag.
length-pop_rounds :
    (fuel limit : ℕ) (picked : List TagRef) (queues : List (List TagRef))
    → length picked ≤ limit
    → limit ≤ fuel + length picked
    → length (pop_rounds fuel limit picked queues)
      ≡ min limit (length picked + total_of (λ _. 1) queues)
unfolding pop_rounds more_to_pick
length-pop_rounds zero limit picked queues h f = omega arith
length-pop_rounds (suc fuel) limit picked queues h f =
    elim (Bool-cases (any (λ q. not (is_nil q)) queues)) [
      | inr q ↦ rw q (ground (arith, none_left queues q))
      | inl q ↦ elim (Bool-cases (ltb (length picked) limit)) [
        | inr full ↦ rw full (ground arith)
        | inl room ↦
            rw (room, q)
              (let r : List TagRef × List (List TagRef) = pop_round limit picked queues in
                let n = length-pop_round-le limit picked queues h in
                let g = pop_round-grows limit picked queues (ltb→lt _ _ room) q in
                length-pop_rounds fuel limit r.0 r.1 n.0 (omega arith)
                ∙ ap (min limit) (one_weights limit picked queues))
      ]
    ]

-- `_interleave` fills the limit, or picks every tag of the lines.
pub length-interleave :
    (lines : List (List TagRef)) (limit : ℕ)
    → length (interleave lines limit) ≡ min limit (total_of (λ _. 1) lines)
unfolding interleave
length-interleave lines limit = omega (arith, length-pop_rounds limit limit [] lines)
