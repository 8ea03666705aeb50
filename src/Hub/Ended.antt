-- ===== src/Hub/Ended.antt =====
-- collect/hub.py: how a call of `_get` ends.
use whatfrom.Prelude.{
  ◌<◌, OnSome, if◌then◌else◌, ℕ, suc, ◌+◌, ◌≡◌, ◌⊎◌, Bool, true, false, not, ◌&&◌, Option, none,
  some, count_from, All, ◌==◌,
}
use whatfrom.Prelude.Eq.{elem, nat_eq}
use whatfrom.Prelude.Text.{codes}
use whatfrom.Hub.{
  Network, Reply, response, error, LastError, transport, http_status, Outcome, returned,
  offset_limit_reached, status_raised, transport_raised, wait_too_long, exhausted, assertion_failed,
  Run, is_retryable, retry_statuses, is_offset_limit, max_wait_seconds, header_number, backoff,
  rate_limit_margin, requested, get,
}

module _ {Response Number : Type 0} (net : Network Response Number) where
  -- The reply asks for another attempt: an error of the transport that is listed, or a status that
  -- is, other than the limit of the offset.
  abbrev pub is_retried : Reply Response → Bool
  is_retried (error e) = is_retryable e
  is_retried (response r) =
      not (net.status_code r == 403 && is_offset_limit net r)
      && elem (net.status_code r) retry_statuses

  abbrev pub as_reply : LastError Response → Reply Response
  as_reply (transport e) = error e
  as_reply (http_status r) = response r

  -- The wait before the next attempt: the one that a reply of too many requests names, as a span or
  -- by its end, and otherwise the exponential one.
  abbrev pub IsNamed : ℕ → Number → Option Number → Option Number → Type 0
  IsNamed i seconds (some retry_after) reset = seconds ≡ retry_after
  IsNamed i seconds none (some reset) = seconds ≡ net.sub reset (net.now i)
  IsNamed i seconds none none = seconds ≡ backoff net i

  abbrev pub IsPause : ℕ → Reply Response → Number → Type 0
  IsPause i (error e) seconds = seconds ≡ backoff net i
  IsPause i (response r) seconds =
      ((net.status_code r == 429 ≡ false) × (seconds ≡ backoff net i))
      ⊎ ((net.status_code r == 429 ≡ true)
          × IsNamed i seconds (header_number net r (codes "retry-after"))
              (header_number net r (codes "x-ratelimit-reset")))

  -- The wait after a success: to the end of the window, where both headers are there and few
  -- requests remain.
  abbrev pub paced : ℕ → Option Number → Option Number → Option Number
  paced i none reset = none
  paced i (some remaining) none = none
  paced i (some remaining) (some reset) =
      if net.le remaining (net.of_nat rate_limit_margin)
      then some (net.sub reset (net.now i))
      else none

  abbrev pub pacing : ℕ → Response → Option Number
  pacing i r =
      paced i (header_number net r (codes "x-ratelimit-remaining"))
        (header_number net r (codes "x-ratelimit-reset"))

  abbrev pub is_too_long : Number → Bool
  is_too_long seconds =
      not (net.le seconds (net.of_nat 0)) && net.lt (net.of_nat max_wait_seconds) seconds

  -- The reply is one after which the loop asks again, and the wait before that is short enough.
  abbrev pub IsPassed : ℕ → Type 0
  IsPassed i =
      (is_retried (net.get i) ≡ true)
      × (seconds : Number) × IsPause i (net.get i) seconds
      × (is_too_long seconds ≡ false)

  -- What the outcome says of the last attempt.
  abbrev pub IsEndedAt : ℕ → Outcome Response → Type 0
  IsEndedAt i (returned r) =
      (net.get i ≡ response r)
      × (net.status_code r == 403 && is_offset_limit net r ≡ false)
      × (elem (net.status_code r) retry_statuses ≡ false)
      × (net.raises_for_status r ≡ false)
      × OnSome (λ seconds. is_too_long seconds ≡ false) (pacing i r)
  IsEndedAt i offset_limit_reached =
      (r : Response) × (net.get i ≡ response r)
      × (net.status_code r ≡ 403)
      × (is_offset_limit net r ≡ true)
  IsEndedAt i (status_raised r) =
      (net.get i ≡ response r)
      × (net.status_code r == 403 && is_offset_limit net r ≡ false)
      × (elem (net.status_code r) retry_statuses ≡ false)
      × (net.raises_for_status r ≡ true)
  IsEndedAt i (transport_raised e) = (net.get i ≡ error e) × (is_retryable e ≡ false)
  IsEndedAt i wait_too_long =
      (seconds : Number) × (is_too_long seconds ≡ true)
      × (((i < 4) × (is_retried (net.get i) ≡ true) × IsPause i (net.get i) seconds)
          ⊎ ((r : Response) × (net.get i ≡ response r)
              × (is_retried (response r) ≡ false)
              × (pacing i r ≡ some seconds)))
  IsEndedAt i (exhausted e) = (i ≡ 4) × (net.get i ≡ as_reply e) × (is_retried (net.get i) ≡ true)
  IsEndedAt i assertion_failed = ⊥

  -- All replies before the last one asked for another attempt, after a wait that is short enough.
  abbrev pub IsEnded : ℕ → Run Response Number → Type 0
  IsEnded attempt run =
      (k : ℕ) × (run.requests ≡ suc k)
      × All IsPassed (count_from attempt k)
      × IsEndedAt (attempt + k) run.outcome

  -- The same of the turns after one that asked for another attempt.
  abbrev Continues : ℕ → Run Response Number → Type 0
  Continues attempt run = IsEnded attempt (requested net run)

  -- What the turns that are left do after the error of this one.
  abbrev Rest : ℕ → Reply Response → (LastError Response → Run Response Number) → Type 0
  Rest attempt reply rest =
      (e : LastError Response)
      → as_reply e ≡ reply
      → is_retried reply ≡ true
      → (attempt < 4 → IsPassed attempt)
      → Continues attempt (rest e)
