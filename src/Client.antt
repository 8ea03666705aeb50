-- ===== src/Client.antt =====
-- core/httpclient.py: post_json, the calls of the remote models.
use whatfrom.Prelude.{
  ℕ, zero, suc, ◌+◌, ◌^◌, Bool, true, false, not, Option, none, some, List, [], ◌∷◌, if◌then◌else◌,
  ltb,
}
use whatfrom.Prelude.Eq.{elem, nat_eq}
use whatfrom.Hub.{
  TransportError, connect_error, connect_timeout, pool_timeout, read_timeout, read_error,
  remote_protocol_error, other_error, Reply, response, error, LastError, transport, http_status,
}
pub mod Posted
mod Tests

abbrev pub retry_statuses : List ℕ
retry_statuses = 429 ∷ 500 ∷ 502 ∷ 503 ∷ 504 ∷ 529 ∷ []

abbrev pub is_retryable : TransportError → Bool
is_retryable connect_error = true
is_retryable connect_timeout = true
is_retryable pool_timeout = true
is_retryable read_timeout = false
is_retryable read_error = false
is_retryable remote_protocol_error = false
is_retryable other_error = false

-- The calls of libraries: the client at each attempt, the parser of JSON (`none` where it raises),
-- the dice and the sum of floats.
pub record Client (Response Json Number : Type 0) : Type 0 where
  pub post : ℕ → Reply Response
  pub status_code : Response → ℕ
  pub json : Response → Option Json
  pub of_nat : ℕ → Number
  pub add : Number → Number → Number
  pub random : ℕ → Number

-- The parsed response, or what the RemoteCallError is raised for.
pub data Result (Response Json : Type 0) : Type 0 where
  parsed : Json → Result Response Json
  request_failed : TransportError → Result Response Json
  not_json : Response → Result Response Json
  api_error : Response → Result Response Json
  gave_up : LastError Response → Result Response Json
  no_attempt : Result Response Json

-- With the numbers that `on_attempt` gets, and the seconds of each sleep.
pub record Sent (Response Json Number : Type 0) : Type 0 where
  pub result : Result Response Json
  pub attempts : List ℕ
  pub slept : List Number

module _ {Response Json Number : Type 0} (client : Client Response Json Number)
    (max_retries : ℕ) where
  abbrev pub raised : Result Response Json → Sent Response Json Number
  raised result = record { result = result; attempts = []; slept = [] }

  abbrev pub gave_up_on : Option (LastError Response) → Result Response Json
  gave_up_on none = no_attempt
  gave_up_on (some e) = gave_up e

  abbrev pub parse : Response → Option Json → Result Response Json
  parse r none = not_json r
  parse r (some value) = parsed value

  -- The sleep before the next attempt, unless this one was the last.
  abbrev pub sleep_between : ℕ → Sent Response Json Number → Sent Response Json Number
  sleep_between attempt more =
      if ltb attempt max_retries
      then record {
        result = more.result;
        attempts = more.attempts;
        slept = client.add (client.of_nat (2 ^ attempt)) (client.random attempt) ∷ more.slept;
      }
      else more

  -- What an attempt does with its reply, and the attempts after it from its error.
  abbrev pub on_reply :
      ℕ
      → Reply Response
      → (LastError Response → Sent Response Json Number)
      → Sent Response Json Number
  on_reply attempt (error e) rest =
      if is_retryable e
      then sleep_between attempt (rest (transport e))
      else raised (request_failed e)
  on_reply attempt (response r) rest =
      if ltb (client.status_code r) 400
      then raised (parse r (client.json r))
      else if not (elem (client.status_code r) retry_statuses)
      then raised (api_error r)
      else sleep_between attempt (rest (http_status r))

  abbrev pub attempted : ℕ → Sent Response Json Number → Sent Response Json Number
  attempted number sent = record {
    result = sent.result;
    attempts = number ∷ sent.attempts;
    slept = sent.slept;
  }

  -- The loop, with the attempts that are left and the last error.
  unfoldable pub post_from : ℕ → ℕ → Option (LastError Response) → Sent Response Json Number
  post_from attempt zero last = raised (gave_up_on last)
  post_from attempt (suc left) last =
      attempted (suc attempt)
        (on_reply attempt (client.post attempt) (λ e. post_from (suc attempt) left (some e)))

  abbrev pub post_json : Sent Response Json Number
  post_json = post_from 0 (suc max_retries) none
