-- ===== src/Admission/System.antt =====
-- admission.py: the requests of one app instance, interleaved in any order of their steps.
use whatfrom.Prelude.{ℕ, ◌+◌, ◌≡◌, none, some, List, [], ◌∷◌}
use whatfrom.Admission.{
  TicketState, waiting, running, done, cancelled, Result, ok, Limiter, try_acquire, Job, admitted,
  work, raise, return,
}

pub record System : Type 0 where
  pub limiter : Limiter
  pub jobs : List Job

abbrev pub idle : ℕ → System
idle limit = record { limiter = record { limit = limit; active = 0 }; jobs = [] }

-- One step of one job, by its thread or by its handler.
pub data Move (l : Limiter) (j : Job) (r : Result (Limiter × Job)) : Type 0 where
  by_thread : work l j ≡ r → Move l j r
  by_raise : raise l j ≡ r → Move l j r
  by_return : return l j ≡ r → Move l j r

-- The step is taken by some job of the list, and may fail an assertion.
pub data MoveIn : Limiter → List Job → Limiter → List Job → Type 0 where
  here :
      {l l' : Limiter} {j j' : Job} {js : List Job}
      → Move l j (ok (l', j'))
      → MoveIn l (j ∷ js) l' (j' ∷ js)
  there :
      {l l' : Limiter} {j : Job} {js js' : List Job}
      → MoveIn l js l' js'
      → MoveIn l (j ∷ js) l' (j ∷ js')

-- A request arrives and is accepted or refused, or an accepted one goes on.
pub data Step (s : System) : System → Type 0 where
  accept :
      {l : Limiter} {t : TicketState}
      → try_acquire s.limiter ≡ (l, some t)
      → Step s (record { limiter = l; jobs = admitted t ∷ s.jobs })
  refuse : {l : Limiter} → try_acquire s.limiter ≡ (l, none) → Step s (record s { limiter = l })
  advance :
      {l : Limiter} {js : List Job}
      → MoveIn s.limiter s.jobs l js
      → Step s (record { limiter = l; jobs = js })

pub data Reach (limit : ℕ) : System → Type 0 where
  begin : Reach limit (idle limit)
  next : {s t : System} → Reach limit s → Step s t → Reach limit t

-- Tickets that occupy a slot.
abbrev pub holds : TicketState → ℕ
holds waiting = 1
holds running = 1
holds done = 0
holds cancelled = 0

abbrev pub held : List Job → ℕ
held [] = 0
held (j ∷ js) = holds j.ticket + held js
