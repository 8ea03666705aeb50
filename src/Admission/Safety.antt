-- ===== src/Admission/Safety.antt =====
-- admission.py: what the cap promises in every reachable state, for any number of requests.
use whatfrom.Prelude.{ℕ, ◌+◌, ◌≤◌, ◌≡◌, ◌≢◌, ◌↔◌, refl, none, List, [], ◌∷◌, All, All-imp, arith}
use whatfrom.Admission.{
  TicketState, waiting, running, done, cancelled, Result, ok, failed, Limiter, try_acquire, Worker,
  queued, executing, ended, awaiting, returned, Job, work, raise, return,
}
use whatfrom.Admission.System.{System, Move, by_thread, by_raise, by_return, Reach, holds, held}
use whatfrom.Admission.Invariant.{Agrees, AllAgree, Reach-Inv}

-- Jobs whose thread is inside `on_start` or `func`.
abbrev runs : Worker → ℕ
runs queued = 0
runs executing = 1
runs ended = 0

abbrev pub executing_jobs : List Job → ℕ
executing_jobs [] = 0
executing_jobs (j ∷ js) = runs j.worker + executing_jobs js

-- No `assert` of the call fails.
abbrev pub Succeeds {ℓ} : {A : Type ℓ} → Result A → Type 0
Succeeds (ok a) = Unit
Succeeds (failed e) = ⊥

-- The job has nothing left to do: its handler is gone, and its thread is not at work.
abbrev pub IsOver : Job → Type 0
IsOver j = (j.handler ≢ awaiting) × (j.worker ≢ executing)

abbrev pub AllOver : List Job → Type 0
AllOver = All IsOver

runs-le-holds : (j : Job) → Agrees j → runs j.worker ≤ holds j.ticket
runs-le-holds j a = ground arith

executing_jobs-le-held : (js : List Job) → AllAgree js → executing_jobs js ≤ held js
executing_jobs-le-held [] a = omega arith
executing_jobs-le-held (j ∷ js) a =
    omega (arith, runs-le-holds j a.0, executing_jobs-le-held js a.1)

holds-over : (j : Job) → Agrees j → IsOver j → holds j.ticket ≡ 0
holds-over j a o = ground arith

held-over : (js : List Job) → AllAgree js → AllOver js → held js ≡ 0
held-over [] a o = refl
held-over (j ∷ js) a o = omega (arith, holds-over j a.0 o.0, held-over js a.1 o.1)

-- Whatever happens next to the job, no assertion fails.
abbrev pub IsSafe : Limiter → Job → Type 0
IsSafe l j = Succeeds (work l j) × Succeeds (raise l j) × Succeeds (return l j)

Job-IsSafe : (l : Limiter) (j : Job) → Agrees j → holds j.ticket ≤ l.active → IsSafe l j
unfolding work raise return
Job-IsSafe l j a h = ground arith

jobs-IsSafe : (l : Limiter) (js : List Job) → AllAgree js → held js ≤ l.active → All (IsSafe l) js
jobs-IsSafe l [] a h = tt
jobs-IsSafe l (j ∷ js) a h = (Job-IsSafe l j a.0 (omega arith), jobs-IsSafe l js a.1 (omega arith))

-- In every reachable state the counter is the number of tickets that hold a slot, at most `limit`
-- of them, and no more jobs than that are inside their work.
pub active_cap :
    {limit : ℕ} {s : System}
    → Reach limit s
    → (s.limiter.active ≡ held s.jobs) × (held s.jobs ≤ limit) × (executing_jobs s.jobs ≤ limit)
active_cap {s = s} r =
    let i = Reach-Inv r in
    (i.counted, omega arith, omega (arith, executing_jobs-le-held s.jobs i.agree))

-- In no reachable state does an assertion fail, whichever job moves next, by its thread or by its
-- handler.
pub no_assertion_fails : {limit : ℕ} {s : System} → Reach limit s → All (IsSafe s.limiter) s.jobs
no_assertion_fails {s = s} r =
    let i = Reach-Inv r in jobs-IsSafe s.limiter s.jobs i.agree (omega arith)

-- When every handler is gone and no thread is at work, every slot has been given back, whatever
-- the interleaving and wherever the requests were cancelled.
pub slots_returned :
    {limit : ℕ} {s : System} → Reach limit s → AllOver s.jobs → s.limiter.active ≡ 0
slots_returned {s = s} r o =
    let i = Reach-Inv r in omega (arith, i.counted, held-over s.jobs i.agree o)

-- In a reachable state a request is refused exactly when `limit` tickets hold a slot.
pub refused_iff_full :
    {limit : ℕ} {s : System}
    → Reach limit s
    → ((try_acquire s.limiter).1 ≡ none) ↔ (held s.jobs ≡ limit)
unfolding try_acquire
refused_iff_full {s = s} r =
    let i = Reach-Inv r in (λ h. ground (arith, i.cap, i.counted), λ h. ground (arith, i.cap))

-- What a step can do to a ticket and to the counter.
abbrev pub Edge : TicketState → ℕ → TicketState → ℕ → Type 0
Edge waiting n waiting m = m ≡ n
Edge waiting n running m = m ≡ n
Edge running n running m = m ≡ n
Edge done n done m = m ≡ n
Edge cancelled n cancelled m = m ≡ n
Edge running n done m = n ≡ m + 1
Edge waiting n cancelled m = n ≡ m + 1
Edge _ n _ m = ⊥

-- Every step of a job follows an edge: a ticket waits, runs and is done, or waits and is cancelled,
-- and the counter falls by one on the edges to `done` and to `cancelled` and on no other.
pub Move-Edge :
    (l : Limiter) (j : Job) {l' : Limiter} {j' : Job}
    → Move l j (ok (l', j'))
    → Edge j.ticket l.active j'.ticket l'.active
unfolding work raise return
Move-Edge l j (by_thread e) = ground arith
Move-Edge l j (by_raise e) = ground arith
Move-Edge l j (by_return e) = ground arith

-- In a reachable state a handler that got its result has a ticket whose work is done, and one
-- whose thread is inside its work has a running ticket.
pub returned_done :
    {limit : ℕ} {s : System}
    → Reach limit s
    → All
        (λ j.
          (j.handler ≡ returned → j.ticket ≡ done) × (j.worker ≡ executing → j.ticket ≡ running))
        s.jobs
returned_done {s = s} r =
    All-imp (λ j a. (λ h. ground arith, λ h. ground arith)) s.jobs (Reach-Inv r).agree
