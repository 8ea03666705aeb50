-- ===== src/Hub/Bound.antt =====
-- collect/hub.py: how often `_get` asks and how long it waits.
use whatfrom.Prelude.{
  ℕ, zero, suc, ◌+◌, ◌-◌, ◌≤◌, ◌≡◌, inl, inr, false, ◌&&◌, Option, none, some, arith, All,
  Bool-cases, length, ◌==◌, ltb,
}
use whatfrom.Prelude.Eq.{elem, nat_eq}
use whatfrom.Hub.{
  Network, Reply, response, error, LastError, transport, http_status, Outcome, returned,
  offset_limit_reached, status_raised, transport_raised, Run, is_retryable, retry_statuses,
  is_offset_limit, max_wait_seconds, max_attempts, done, wait, wait_between, on_reply, respecting,
  rate_limit_margin, try_from, get,
}

module _ {Response Number : Type 0} (net : Network Response Number) where
  -- A sleep is positive, and within the limit.
  abbrev pub IsShort : Number → Type 0
  IsShort seconds =
      (net.le seconds (net.of_nat 0) ≡ false)
      × (net.lt (net.of_nat max_wait_seconds) seconds ≡ false)

  -- At most so many requests, and sleeps no more than the requests and others there were.
  abbrev pub IsBounded : ℕ → ℕ → Run Response Number → Type 0
  IsBounded n others run =
      (run.requests ≤ n) × (length run.slept ≤ others + run.requests) × All IsShort run.slept

  done-IsBounded : (n : ℕ) (outcome : Outcome Response) → IsBounded n 1 (done net outcome)
  done-IsBounded n outcome = (omega arith, omega arith, tt)

  wait-IsBounded :
      (seconds : Number) (n : ℕ) (more : Run Response Number)
      → IsBounded n 0 more
      → IsBounded n 1 (wait net seconds more)
  wait-IsBounded seconds n more (a, b, c) = elim (Bool-cases (net.le seconds (net.of_nat 0))) [
    | inl q ↦ rw q (a, omega arith, c)
    | inr q ↦ elim (Bool-cases (net.lt (net.of_nat max_wait_seconds) seconds)) [
      | inl s ↦ rw (q, s) (omega arith, omega arith, tt)
      | inr s ↦ rw (q, s) (a, omega arith, ((q, s), c))
    ]
  ]

  wait_between-IsBounded :
      (attempt : ℕ) (seconds : Number) (n : ℕ) (more : Run Response Number)
      → IsBounded n 0 more
      → IsBounded n 1 (wait_between net attempt seconds more)
  wait_between-IsBounded attempt seconds n more (a, b, c) =
      elim (Bool-cases (ltb attempt (max_attempts - 1))) [
        | inl q ↦ rw q (wait-IsBounded seconds n more (a, b, c))
        | inr q ↦ rw q (a, omega arith, c)
      ]

  respecting-IsBounded :
      (attempt : ℕ) (remaining reset : Option Number) (n : ℕ) (more : Run Response Number)
      → IsBounded n 0 more
      → IsBounded n 1 (respecting net attempt remaining reset more)
  respecting-IsBounded attempt none reset n more (a, b, c) = (a, omega arith, c)
  respecting-IsBounded attempt (some remaining) none n more (a, b, c) = (a, omega arith, c)
  respecting-IsBounded attempt (some remaining) (some reset) n more (a, b, c) =
      elim (Bool-cases (net.le remaining (net.of_nat rate_limit_margin))) [
        | inl q ↦ rw q (wait-IsBounded _ n more (a, b, c))
        | inr q ↦ rw q (a, omega arith, c)
      ]

  on_reply-IsBounded :
      (attempt : ℕ) (reply : Reply Response) (rest : LastError Response → Run Response Number)
      (n : ℕ)
      → ((e : LastError Response) → IsBounded n 0 (rest e))
      → IsBounded n 1 (on_reply net attempt reply rest)
  on_reply-IsBounded attempt (error e) rest n h = elim (Bool-cases (is_retryable e)) [
    | inl q ↦ rw q (wait_between-IsBounded attempt _ n _ (h (transport e)))
    | inr q ↦ rw q (done-IsBounded n (transport_raised e))
  ]
  on_reply-IsBounded attempt (response r) rest n h =
      elim (Bool-cases (net.status_code r == 403 && is_offset_limit net r)) [
        | inl q ↦ rw q (done-IsBounded n offset_limit_reached)
        | inr q ↦ elim (Bool-cases (elem (net.status_code r) retry_statuses)) [
          | inl s ↦ rw (q, s) (wait_between-IsBounded attempt _ n _ (h (http_status r)))
          | inr s ↦ elim (Bool-cases (net.raises_for_status r)) [
            | inl t ↦ rw (q, s, t) (done-IsBounded n (status_raised r))
            | inr t ↦
                rw (q, s, t)
                  (respecting-IsBounded attempt _ _ n (done net (returned r))
                    (omega arith, omega arith, tt))
          ]
        ]
      ]

  try_from-IsBounded :
      (attempt left : ℕ) (last : Option (LastError Response))
      → IsBounded left 0 (try_from net attempt left last)
  unfolding try_from
  try_from-IsBounded attempt zero none = (omega arith, omega arith, tt)
  try_from-IsBounded attempt zero (some e) = (omega arith, omega arith, tt)
  try_from-IsBounded attempt (suc left) last =
      let (a, b, c) =
        on_reply-IsBounded attempt (net.get attempt) (λ e. try_from net (suc attempt) left (some e))
          left (λ e. try_from-IsBounded (suc attempt) left (some e)) in
      (omega arith, omega arith, c)

  -- A call makes at most five requests and sleeps no more often than it asks, each time for a time
  -- that is positive and at most 300 seconds.
  pub get-IsBounded :
      let run = get net in
      (run.requests ≤ 5) × (length run.slept ≤ run.requests) × All IsShort run.slept
  get-IsBounded = let (a, b, c) = try_from-IsBounded 0 max_attempts none in (a, omega arith, c)
