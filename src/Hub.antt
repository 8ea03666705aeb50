-- ===== src/Hub.antt =====
-- collect/hub.py: HubClient._get, the requests with their retries and waits.
use whatfrom.Prelude.{
  ℕ, zero, suc, ◌+◌, ◌-◌, ◌^◌, Bool, true, false, not, ◌||◌, ◌&&◌, Option, none, some, List, [],
  ◌∷◌, if◌then◌else◌, ◌==◌, ltb,
}
use whatfrom.Prelude.Eq.{Text, elem, text_eq, nat_eq}
use whatfrom.Prelude.Text.{codes, contains}
use whatfrom.Prelude.Dict.{Dict, lookup}
pub mod Bound
pub mod Ended
mod Tests

-- The exceptions of the transport that are named in the source, and all others.
pub data TransportError : Type 0 where
  connect_error : TransportError
  connect_timeout : TransportError
  read_timeout : TransportError
  read_error : TransportError
  pool_timeout : TransportError
  remote_protocol_error : TransportError
  other_error : TransportError

-- What `client.get` does.
pub data Reply (Response : Type 0) : Type 0 where
  response : Response → Reply Response
  error : TransportError → Reply Response

-- A parsed body, as far as it is read.
pub data Value : Type 0 where
  string : Text → Value
  other_value : Value

pub data Body : Type 0 where
  object : Dict Text Value → Body
  other_body : Body

-- The calls of libraries: the client at each attempt, the clock and the dice, and floats. A call of
-- `json` or `float` that raises ValueError is `none`.
pub record Network (Response Number : Type 0) : Type 0 where
  pub get : ℕ → Reply Response
  pub status_code : Response → ℕ
  pub json : Response → Option Body
  pub header : Response → Text → Option Text
  pub raises_for_status : Response → Bool
  pub float : Text → Option Number
  pub is_finite : Number → Bool
  pub of_nat : ℕ → Number
  pub add : Number → Number → Number
  pub sub : Number → Number → Number
  pub le : Number → Number → Bool
  pub lt : Number → Number → Bool
  pub now : ℕ → Number
  pub random : ℕ → Number

pub data LastError (Response : Type 0) : Type 0 where
  transport : TransportError → LastError Response
  http_status : Response → LastError Response

-- How a call of `_get` ends.
pub data Outcome (Response : Type 0) : Type 0 where
  returned : Response → Outcome Response
  offset_limit_reached : Outcome Response
  status_raised : Response → Outcome Response
  transport_raised : TransportError → Outcome Response
  wait_too_long : Outcome Response
  exhausted : LastError Response → Outcome Response
  assertion_failed : Outcome Response

-- With the number of its requests, and the seconds of each sleep.
pub record Run (Response Number : Type 0) : Type 0 where
  pub outcome : Outcome Response
  pub requests : ℕ
  pub slept : List Number

abbrev max_attempts : ℕ
max_attempts = 5

abbrev rate_limit_margin : ℕ
rate_limit_margin = 5

abbrev pub max_wait_seconds : ℕ
max_wait_seconds = 300

abbrev pub retry_statuses : List ℕ
retry_statuses = 429 ∷ 500 ∷ 502 ∷ 503 ∷ 504 ∷ []

abbrev pub is_retryable : TransportError → Bool
is_retryable other_error = false
is_retryable connect_error = true
is_retryable connect_timeout = true
is_retryable read_timeout = true
is_retryable read_error = true
is_retryable pool_timeout = true
is_retryable remote_protocol_error = true

-- `body.get("message", "")` with the text in it.
abbrev has_message : Option Value → Bool
has_message none = false
has_message (some other_value) = false
has_message (some (string message)) = contains (codes "pagination offset too large") message

abbrev limit_in : Option Body → Bool
limit_in none = false
limit_in (some other_body) = false
limit_in (some (object fields)) = has_message (lookup (codes "message") fields)

module _ {Response Number : Type 0} (net : Network Response Number) where
  -- `_is_offset_limit`
  abbrev pub is_offset_limit : Response → Bool
  is_offset_limit r = limit_in (net.json r)

  abbrev if_finite : Option Number → Option Number
  if_finite none = none
  if_finite (some number) = if net.is_finite number then some number else none

  abbrev number_in : Option Text → Option Number
  number_in none = none
  number_in (some value) = if_finite (net.float value)

  abbrev header_number : Response → Text → Option Number
  header_number r name = number_in (net.header r name)

  abbrev backoff : ℕ → Number
  backoff attempt = net.add (net.of_nat (2 ^ attempt)) (net.random attempt)

  abbrev or_backoff : ℕ → Option Number → Number
  or_backoff attempt none = backoff attempt
  or_backoff attempt (some reset) = net.sub reset (net.now attempt)

  abbrev or_reset : ℕ → Response → Option Number → Number
  or_reset attempt r none = or_backoff attempt (header_number r (codes "x-ratelimit-reset"))
  or_reset attempt r (some retry_after) = retry_after

  abbrev pub retry_wait : ℕ → Response → Number
  retry_wait attempt r =
      if not (net.status_code r == 429)
      then backoff attempt
      else or_reset attempt r (header_number r (codes "retry-after"))

  abbrev pub done : Outcome Response → Run Response Number
  done outcome = record { outcome = outcome; requests = 0; slept = [] }

  -- `_wait`, and what follows it.
  abbrev pub wait : Number → Run Response Number → Run Response Number
  wait seconds more =
      if net.le seconds (net.of_nat 0)
      then more
      else if net.lt (net.of_nat max_wait_seconds) seconds
      then done wait_too_long
      else record { outcome = more.outcome; requests = more.requests; slept = seconds ∷ more.slept }

  abbrev respecting : ℕ → Option Number → Option Number → Run Response Number → Run Response Number
  respecting attempt none reset more = more
  respecting attempt (some remaining) none more = more
  respecting attempt (some remaining) (some reset) more =
      if net.le remaining (net.of_nat rate_limit_margin)
      then wait (net.sub reset (net.now attempt)) more
      else more

  abbrev pub respect_rate_limit : ℕ → Response → Run Response Number → Run Response Number
  respect_rate_limit attempt r more =
      respecting attempt (header_number r (codes "x-ratelimit-remaining"))
        (header_number r (codes "x-ratelimit-reset")) more

  -- The wait before the next attempt, unless this one was the last.
  abbrev pub wait_between : ℕ → Number → Run Response Number → Run Response Number
  wait_between attempt seconds more =
      if ltb attempt (max_attempts - 1) then wait seconds more else more

  -- A turn of the loop, and the turns after it from the error that this one had.
  abbrev pub on_reply :
      ℕ → Reply Response → (LastError Response → Run Response Number) → Run Response Number
  on_reply attempt (error e) rest =
      if is_retryable e
      then wait_between attempt (backoff attempt) (rest (transport e))
      else done (transport_raised e)
  on_reply attempt (response r) rest =
      if net.status_code r == 403 && is_offset_limit r
      then done offset_limit_reached
      else if not (elem (net.status_code r) retry_statuses)
      then (if net.raises_for_status r
          then done (status_raised r)
          else respect_rate_limit attempt r (done (returned r)))
      else wait_between attempt (retry_wait attempt r) (rest (http_status r))

  abbrev pub requested : Run Response Number → Run Response Number
  requested run = record { outcome = run.outcome; requests = suc run.requests; slept = run.slept }

  -- The loop, with the attempts that are left and the last error.
  unfoldable pub try_from : ℕ → ℕ → Option (LastError Response) → Run Response Number
  try_from attempt zero none = done assertion_failed
  try_from attempt zero (some e) = done (exhausted e)
  try_from attempt (suc left) last =
      requested (on_reply attempt (net.get attempt) (λ e. try_from (suc attempt) left (some e)))

  abbrev pub get : Run Response Number
  get = try_from 0 max_attempts none
