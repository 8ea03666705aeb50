-- ===== src/Client/Tests.antt =====
-- core/httpclient.py: a remote model that answers at the second attempt, or never.
use whatfrom.Prelude.{ℕ, zero, suc, ◌+◌, ◌≡◌, refl, some, [], ◌∷◌}
use whatfrom.Hub.{Reply, response, error, connect_error, read_timeout, http_status}
use whatfrom.Client.{Client, parsed, request_failed, gave_up, post_from, post_json}
use whatfrom.Client.Posted.{IsPosted, post_json-IsPosted}

-- A response is its status, and all bodies are the same JSON.
abbrev client : (ℕ → Reply ℕ) → Client ℕ ℕ ℕ
client replies = record {
  post = replies;
  status_code = λ r. r;
  json = λ r. some 42;
  of_nat = λ n. n;
  add = λ a b. a + b;
  random = λ i. 0;
}

abbrev second_time : ℕ → Reply ℕ
second_time zero = error connect_error
second_time (suc i) = response 200

answered_second :
    post_json (client second_time) 2
    ≡ record { result = parsed 42; attempts = 1 ∷ 2 ∷ []; slept = 1 ∷ [] }
unfolding post_from
answered_second = refl

three_attempts :
    post_json (client (λ i. response 529)) 2
    ≡ record { result = gave_up (http_status 529); attempts = 1 ∷ 2 ∷ 3 ∷ []; slept = 1 ∷ 2 ∷ [] }
unfolding post_from
three_attempts = refl

slow_once :
    post_json (client (λ i. error read_timeout)) 2
    ≡ record { result = request_failed read_timeout; attempts = 1 ∷ []; slept = [] }
unfolding post_from
slow_once = refl

post_json-IsPosted_example : IsPosted (client second_time) 2 0 (post_json (client second_time) 2)
post_json-IsPosted_example = post_json-IsPosted (client second_time) 2
