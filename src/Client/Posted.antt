-- ===== src/Client/Posted.antt =====
-- core/httpclient.py: how a call of post_json ends.
use whatfrom.Prelude.{
  ℕ, zero, suc, ◌+◌, ◌≤◌, ◌<◌, ◌≡◌, refl, sym, ap, subst, inl, inr, Bool, true, false, not, ◌&&◌,
  Option, none, some, ◌∷◌, arith, All, Bool-cases, count_from, length, ltb,
}
use whatfrom.Prelude.Eq.{elem, nat_eq}
use whatfrom.Hub.{Reply, response, error, LastError, transport, http_status}
use whatfrom.Client.{
  retry_statuses, is_retryable, Client, Result, parsed, request_failed, not_json, api_error,
  gave_up, no_attempt, Sent, raised, parse, sleep_between, on_reply, attempted, post_from,
  post_json,
}

module _ {Response Json Number : Type 0} (client : Client Response Json Number)
    (max_retries : ℕ) where
  -- The reply asks for another attempt.
  abbrev pub is_retried : Reply Response → Bool
  is_retried (error e) = is_retryable e
  is_retried (response r) =
      not (ltb (client.status_code r) 400) && elem (client.status_code r) retry_statuses

  abbrev pub as_reply : LastError Response → Reply Response
  as_reply (transport e) = error e
  as_reply (http_status r) = response r

  -- What the result says of the reply of the last attempt.
  abbrev pub IsReplyOf : ℕ → Result Response Json → Type 0
  IsReplyOf i (parsed value) =
      (r : Response) × (client.post i ≡ response r)
      × (client.status_code r < 400)
      × (client.json r ≡ some value)
  IsReplyOf i (not_json r) =
      (client.post i ≡ response r) × (client.status_code r < 400) × (client.json r ≡ none)
  IsReplyOf i (request_failed e) = (client.post i ≡ error e) × (is_retryable e ≡ false)
  IsReplyOf i (api_error r) =
      (client.post i ≡ response r)
      × (400 ≤ client.status_code r)
      × (elem (client.status_code r) retry_statuses ≡ false)
  IsReplyOf i (gave_up e) =
      (i ≡ max_retries) × (client.post i ≡ as_reply e) × (is_retried (client.post i) ≡ true)
  IsReplyOf i no_attempt = ⊥

  -- The attempts are counted from this one on, with a sleep between any two, and all replies but
  -- the last asked for another attempt.
  abbrev pub IsPosted : ℕ → Sent Response Json Number → Type 0
  IsPosted attempt sent =
      (k : ℕ) × (attempt + k ≤ max_retries)
      × (sent.attempts ≡ count_from (suc attempt) (suc k))
      × (length sent.slept ≡ k)
      × All (λ i. is_retried (client.post i) ≡ true) (count_from attempt k)
      × IsReplyOf (attempt + k) sent.result

  abbrev Continues : ℕ → Sent Response Json Number → Type 0
  Continues attempt sent = IsPosted attempt (attempted client max_retries (suc attempt) sent)

  ends :
      (attempt : ℕ) (result : Result Response Json)
      → attempt ≤ max_retries
      → IsReplyOf attempt result
      → Continues attempt (raised client max_retries result)
  ends attempt result l h =
      let e : attempt ≡ attempt + 0 = omega arith in
      (0, omega arith, refl, refl, tt, subst (λ i. IsReplyOf i result) e h)

  parse-IsReplyOf :
      (attempt : ℕ) (r : Response) (value : Option Json)
      → client.post attempt ≡ response r
      → client.status_code r < 400
      → client.json r ≡ value
      → IsReplyOf attempt (parse client max_retries r value)
  parse-IsReplyOf attempt r none g l e = (g, l, e)
  parse-IsReplyOf attempt r (some value) g l e = (r, g, l, e)

  -- After a reply that asks for it, the attempts that are left.
  later :
      (attempt : ℕ) (sent : Sent Response Json Number)
      → attempt < max_retries
      → is_retried (client.post attempt) ≡ true
      → IsPosted (suc attempt) sent
      → Continues attempt (sleep_between client max_retries attempt sent)
  later attempt sent l r (k, b, a, s, all, h) =
      let same : suc attempt + k ≡ attempt + suc k = omega arith in
      let more : ltb attempt max_retries ≡ true = ground arith in
      rw more (
        suc k,
        omega arith,
        ap (λ ns. suc attempt ∷ ns) a,
        ap suc s,
        (r, all),
        subst (λ i. IsReplyOf i sent.result) same h,
      )

  -- After the last reply, where it asks for another attempt.
  over :
      (attempt : ℕ) (e : LastError Response)
      → attempt ≡ max_retries
      → client.post attempt ≡ as_reply e
      → is_retried (client.post attempt) ≡ true
      → Continues attempt
          (sleep_between client max_retries attempt (raised client max_retries (gave_up e)))
  over attempt e m g r =
      let stop : ltb attempt max_retries ≡ false = ground arith in
      rw stop (ends attempt (gave_up e) (omega arith) (m, g, r))

  abbrev Rest : ℕ → Reply Response → (LastError Response → Sent Response Json Number) → Type 0
  Rest attempt reply rest =
      (e : LastError Response)
      → as_reply e ≡ reply
      → is_retried reply ≡ true
      → Continues attempt (sleep_between client max_retries attempt (rest e))

  on_reply-Continues :
      (attempt : ℕ) (reply : Reply Response) (rest : LastError Response → Sent Response Json Number)
      → attempt ≤ max_retries
      → client.post attempt ≡ reply
      → Rest attempt reply rest
      → Continues attempt (on_reply client max_retries attempt reply rest)
  on_reply-Continues attempt (error e) rest l g h = elim (Bool-cases (is_retryable e)) [
    | inl q ↦ rw q (h (transport e) refl q)
    | inr q ↦ rw q (ends attempt (request_failed e) l (g, q))
  ]
  on_reply-Continues attempt (response r) rest l g h =
      elim (Bool-cases (ltb (client.status_code r) 400)) [
        | inl q ↦
            let ok : client.status_code r < 400 = ground arith in
            rw q (
              ends attempt (parse client max_retries r (client.json r)) l
                (parse-IsReplyOf attempt r (client.json r) g ok refl))
        | inr q ↦ elim (Bool-cases (elem (client.status_code r) retry_statuses)) [
          | inl s ↦ rw (q, s) (h (http_status r) refl (rw (q, s) refl))
          | inr s ↦
              let high : 400 ≤ client.status_code r = ground arith in
              rw (q, s) (ends attempt (api_error r) l (g, high, s))
        ]
      ]

  post_from-IsPosted :
      (attempt left : ℕ) (last : Option (LastError Response))
      → attempt + left ≡ max_retries
      → IsPosted attempt (post_from client max_retries attempt (suc left) last)
  unfolding post_from
  post_from-IsPosted attempt zero last e =
      on_reply-Continues attempt (client.post attempt) _ (omega arith) refl
        (λ err same r. over attempt err (omega arith) (sym same) r)
  post_from-IsPosted attempt (suc left) last e =
      on_reply-Continues attempt (client.post attempt) _ (omega arith) refl (λ err same r.
        later attempt _ (omega arith) r
          (post_from-IsPosted (suc attempt) left (some err) (omega arith)))

  -- A call makes one attempt and at most `max_retries` more, reports them as 1, 2 and so on, and
  -- sleeps once between any two. All replies but the last asked for another attempt, and the result
  -- is what the last one is: its JSON, or an error; the last error is raised after all attempts
  -- exactly where each reply asked for another one.
  pub post_json-IsPosted : IsPosted 0 (post_json client max_retries)
  post_json-IsPosted = post_from-IsPosted 0 max_retries none (omega arith)
