-- ===== src/Admission/Invariant.antt =====
-- admission.py: what holds of the limiter and of every job in each reachable state.
use whatfrom.Prelude.{ℕ, ◌+◌, ◌≤◌, ◌≡◌, ◌≢◌, ◌∙◌, refl, List, All, arith}
use whatfrom.Admission.{
  TicketState, waiting, running, done, cancelled, ok, Limiter, try_acquire, Worker, queued,
  executing, ended, Handler, awaiting, returned, abandoned, Job, work, raise, return,
}
use whatfrom.Admission.System.{
  System, Move, by_thread, by_raise, by_return, MoveIn, here, there, Step, accept, refuse, advance,
  Reach, begin, next, holds, held,
}

-- Where the thread and the handler of a ticket can stand.
abbrev pub AgreesAt : TicketState → Worker → Handler → Type 0
AgreesAt waiting w h = (w ≡ queued) × (h ≡ awaiting)
AgreesAt running w h = (w ≡ executing) × (h ≢ returned)
AgreesAt done w h = w ≡ ended
AgreesAt cancelled w h = (w ≢ executing) × (h ≡ abandoned)

abbrev pub Agrees : Job → Type 0
Agrees j = AgreesAt j.ticket j.worker j.handler

abbrev pub AllAgree : List Job → Type 0
AllAgree = All Agrees

pub record Inv (limit : ℕ) (l : Limiter) (js : List Job) : Type 0 where
  pub cap : l.limit ≡ limit
  pub counted : l.active ≡ held js
  pub bounded : l.active ≤ limit
  pub agree : AllAgree js

-- A step of one job keeps its agreement, and changes the count by what its ticket held.
pub record Kept (l : Limiter) (j : Job) (l' : Limiter) (j' : Job) : Type 0 where
  pub limit : l'.limit ≡ l.limit
  pub count : l'.active + holds j.ticket ≡ l.active + holds j'.ticket
  pub fits : l'.active ≤ l.active
  pub agrees : Agrees j'

pub Move-Kept :
    (l : Limiter) (j : Job) {l' : Limiter} {j' : Job}
    → Agrees j
    → holds j.ticket ≤ l.active
    → Move l j (ok (l', j'))
    → Kept l j l' j'
unfolding work raise return
Move-Kept l j a h (by_thread e) = ground arith
Move-Kept l j a h (by_raise e) = ground arith
Move-Kept l j a h (by_return e) = ground arith

-- The list around the job that moves.
pub record KeptAll (l : Limiter) (js : List Job) (l' : Limiter) (js' : List Job) : Type 0 where
  pub limit : l'.limit ≡ l.limit
  pub count : l'.active + held js ≡ l.active + held js'
  pub fits : l'.active ≤ l.active
  pub agrees : AllAgree js'

pub MoveIn-KeptAll :
    {l l' : Limiter} {js js' : List Job}
    → MoveIn l js l' js'
    → AllAgree js
    → held js ≤ l.active
    → KeptAll l js l' js'
MoveIn-KeptAll (here {l} {l'} {j} {j'} {js} m) a h =
    let k : Kept l j l' j' = Move-Kept l j a.0 (omega arith) m in
    record {
      limit = k.limit;
      count = omega (arith, k.count);
      fits = k.fits;
      agrees = (k.agrees, a.1);
    }
MoveIn-KeptAll (there {l} {l'} {j} {js} {js'} m) a h =
    let k : KeptAll l js l' js' = MoveIn-KeptAll m a.1 (omega arith) in
    record {
      limit = k.limit;
      count = omega (arith, k.count);
      fits = k.fits;
      agrees = (a.0, k.agrees);
    }

pub Step-Inv :
    {limit : ℕ} {s t : System} → Step s t → Inv limit s.limiter s.jobs → Inv limit t.limiter t.jobs
unfolding try_acquire
Step-Inv (accept e) i = ground arith
Step-Inv (refuse e) i = ground arith
Step-Inv {s = s} (advance {l} {js} m) i =
    let k : KeptAll s.limiter s.jobs l js = MoveIn-KeptAll m i.agree (omega arith) in
    record {
      cap = k.limit ∙ i.cap;
      counted = omega (arith, k.count, i.counted);
      bounded = omega (arith, k.fits, i.bounded);
      agree = k.agrees;
    }

pub Reach-Inv : {limit : ℕ} {s : System} → Reach limit s → Inv limit s.limiter s.jobs
Reach-Inv begin = record { cap = refl; counted = refl; bounded = omega arith; agree = tt }
Reach-Inv (next r st) = Step-Inv st (Reach-Inv r)
