-- ===== src/Admission.antt =====
-- admission.py: the cap on accepted recommendation jobs. Every method body runs under the
-- limiter's lock, so one call is one step. An `assert` that fails is `failed`.
pub mod System
pub mod Invariant
pub mod Safety
mod Tests
use whatfrom.Prelude.{ℕ, ◌+◌, ◌-◌, Bool, true, false, Option, none, some, ltb, leb, if◌then◌else◌}

pub data TicketState : Type 0 where
  waiting running done cancelled : TicketState

pub data Error : Type 0 where
  value_error assertion_error : Error

pub data Result {ℓ} (A : Type ℓ) : Type ℓ where
  ok : A → Result A
  failed : Error → Result A

infixl 5 ◌>>=◌
abbrev pub ◌>>=◌ {ℓ κ} : {A : Type ℓ} {B : Type κ} → Result A → (A → Result B) → Result B
ok a >>= f = f a
failed e >>= f = failed e

pub record Limiter : Type 0 where
  pub limit : ℕ
  pub active : ℕ

-- `RecommendationLimiter.__init__`
unfoldable pub create : ℕ → Result Limiter
create limit = if ltb limit 1 then failed value_error else ok (record { limit = limit; active = 0 })

-- `try_acquire`: the limiter after the call, and the new ticket's state if a slot was free.
unfoldable pub try_acquire : Limiter → Limiter × Option TicketState
try_acquire l =
    if leb l.limit l.active then (l, none) else (record l { active = l.active + 1 }, some waiting)

-- `_release`
unfoldable pub release : Limiter → Result Limiter
release l =
    if ltb 0 l.active then ok (record l { active = l.active - 1 }) else failed assertion_error

-- `Ticket.start`
unfoldable pub start : TicketState → Result (TicketState × Bool)
start cancelled = ok (cancelled, false)
start waiting = ok (running, true)
start running = failed assertion_error
start done = failed assertion_error

-- `Ticket.finish`
unfoldable pub finish : Limiter → TicketState → Result (Limiter × TicketState)
unfolding release
finish l running = do l' ← release l; ok (l', done)
finish l waiting = failed assertion_error
finish l done = failed assertion_error
finish l cancelled = failed assertion_error

-- `Ticket.abandon`
unfoldable pub abandon : Limiter → TicketState → Result (Limiter × TicketState)
unfolding release
abandon l cancelled = failed assertion_error
abandon l waiting = do l' ← release l; ok (l', cancelled)
abandon l running = ok (l, running)
abandon l done = ok (l, done)

-- The thread's side of `run_admitted` (`work`): not started, inside `on_start` and `func`, ended.
pub data Worker : Type 0 where
  queued executing ended : Worker

-- The handler's side: at the `await`, returned with the result, or left by an exception.
pub data Handler : Type 0 where
  awaiting returned abandoned : Handler

-- One call of `run_admitted`.
pub record Job : Type 0 where
  pub ticket : TicketState
  pub worker : Worker
  pub handler : Handler

abbrev pub admitted : TicketState → Job
admitted t = record { ticket = t; worker = queued; handler = awaiting }

begin_work : Limiter → Job → TicketState × Bool → Limiter × Job
begin_work l j (t, true) = (l, record j { ticket = t; worker = executing })
begin_work l j (t, false) = (l, record j { ticket = t; worker = ended })

work_from : Worker → Limiter → Job → Result (Limiter × Job)
unfolding start finish begin_work
work_from queued l j = do r ← start j.ticket; ok (begin_work l j r)
work_from executing l j = do
  (l', t) ← finish l j.ticket
  ok (l', record j { ticket = t; worker = ended })
work_from ended l j = ok (l, j)

-- The next step of the thread. `func` may return or raise: `finally` calls `finish` on both.
unfoldable pub work : Limiter → Job → Result (Limiter × Job)
unfolding work_from
work l j = work_from j.worker l j

raise_from : Handler → Limiter → Job → Result (Limiter × Job)
unfolding abandon
raise_from awaiting l j = do
  (l', t) ← abandon l j.ticket
  ok (l', record j { ticket = t; handler = abandoned })
raise_from returned l j = ok (l, j)
raise_from abandoned l j = ok (l, j)

-- The `await` raises: the task is cancelled at any moment, or `func` raised.
unfoldable pub raise : Limiter → Job → Result (Limiter × Job)
unfolding raise_from
raise l j = raise_from j.handler l j

return_from : Worker → Handler → Limiter → Job → Result (Limiter × Job)
return_from ended awaiting l j = ok (l, record j { handler = returned })
return_from _ _ l j = ok (l, j)

-- The `await` returns: only after the thread has ended, to a handler that still waits.
unfoldable pub return : Limiter → Job → Result (Limiter × Job)
unfolding return_from
return l j = return_from j.worker j.handler l j
