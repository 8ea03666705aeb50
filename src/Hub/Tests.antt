-- ===== src/Hub/Tests.antt =====
-- collect/hub.py: a service that is down once and busy once.
use whatfrom.Prelude.{
  ℕ, zero, suc, ◌+◌, ◌-◌, ◌≤◌, ◌≡◌, refl, true, ◌&&◌, none, some, [], ◌∷◌, All, length,
  if◌then◌else◌, ◌==◌, leb, ltb,
}
use whatfrom.Prelude.Eq.{text_beq}
use whatfrom.Prelude.Text.{codes}
use whatfrom.Hub.{
  Network, Reply, response, error, read_timeout, http_status, returned, exhausted, wait_too_long,
  try_from, get,
}
use whatfrom.Hub.Bound.{IsShort, get-IsBounded}

-- A response is its status, and the busy one names seconds to wait.
abbrev network : ℕ → (ℕ → Reply ℕ) → Network ℕ ℕ
network retry_after replies = record {
  get = replies;
  status_code = λ r. r;
  json = λ r. none;
  header =
      λ r name. if r == 429 && text_beq name (codes "retry-after") then some (codes "7") else none;
  raises_for_status = λ r. leb 400 r;
  float = λ t. some retry_after;
  is_finite = λ n. true;
  of_nat = λ n. n;
  add = λ a b. a + b;
  sub = λ a b. a - b;
  le = leb;
  lt = ltb;
  now = λ i. 0;
  random = λ i. 0;
}

abbrev second_best : ℕ → Reply ℕ
second_best zero = error read_timeout
second_best (suc zero) = response 429
second_best (suc (suc i)) = response 200

third_time :
    get (network 7 second_best)
    ≡ record { outcome = returned 200; requests = 3; slept = 1 ∷ 7 ∷ [] }
unfolding try_from
third_time = refl

always_down :
    get (network 7 (λ i. response 503))
    ≡ record { outcome = exhausted (http_status 503); requests = 5; slept = 1 ∷ 2 ∷ 4 ∷ 8 ∷ [] }
unfolding try_from
always_down = refl

asked_for_hours :
    get (network 7200 second_best)
    ≡ record { outcome = wait_too_long; requests = 2; slept = 1 ∷ [] }
unfolding try_from
asked_for_hours = refl

get-IsBounded_example :
    let run = get (network 7 second_best) in
    (run.requests ≤ 5)
    × (length run.slept ≤ run.requests)
    × All (IsShort (network 7 second_best)) run.slept
get-IsBounded_example = get-IsBounded (network 7 second_best)
