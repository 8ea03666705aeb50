-- ===== src/Admission/Tests.antt =====
-- admission.py: runs of two requests under a cap of one, and the theorems there.
use whatfrom.Prelude.{◌≤◌, ◌≡◌, ◌↔◌, refl, none, [], ◌∷◌, All}
use whatfrom.Admission.{
  waiting, running, done, cancelled, failed, value_error, Limiter, create, try_acquire, queued,
  executing, ended, awaiting, returned, abandoned, Job, work, raise, return,
}
use whatfrom.Admission.System.{
  System, by_thread, by_raise, by_return, here, accept, advance, Reach, begin, next, held,
}
use whatfrom.Admission.Safety.{
  executing_jobs, IsSafe, Edge, active_cap, no_assertion_fails, slots_returned, refused_iff_full,
  Move-Edge, returned_done,
}

abbrev full : Limiter
full = record { limit = 1; active = 1 }

abbrev free : Limiter
free = record { limit = 1; active = 0 }

abbrev fresh : Job
fresh = record { ticket = waiting; worker = queued; handler = awaiting }

abbrev busy : Job
busy = record { ticket = running; worker = executing; handler = awaiting }

abbrev over : Job
over = record { ticket = done; worker = ended; handler = returned }

abbrev one_busy : System
one_busy = record { limiter = full; jobs = busy ∷ [] }

abbrev one_over : System
one_over = record { limiter = free; jobs = over ∷ [] }

limit_zero : create 0 ≡ failed value_error
unfolding create
limit_zero = refl

Reach-fresh : Reach 1 (record { limiter = full; jobs = fresh ∷ [] })
unfolding try_acquire
Reach-fresh = next begin (accept refl)

Reach-busy : Reach 1 one_busy
unfolding work
Reach-busy = next Reach-fresh (advance (here (by_thread refl)))

Reach-over : Reach 1 one_over
unfolding work return
Reach-over =
    next (next Reach-busy (advance (here (by_thread refl)))) (advance (here (by_return refl)))

active_cap_example :
    (one_busy.limiter.active ≡ held one_busy.jobs)
    × (held one_busy.jobs ≤ 1)
    × (executing_jobs one_busy.jobs ≤ 1)
active_cap_example = active_cap Reach-busy

no_assertion_fails_example : All (IsSafe full) (busy ∷ [])
no_assertion_fails_example = no_assertion_fails Reach-busy

slots_returned_example : free.active ≡ 0
slots_returned_example = slots_returned Reach-over ((λ e. cc, λ e. cc), tt)

refused_iff_full_example : ((try_acquire full).1 ≡ none) ↔ (held (busy ∷ []) ≡ 1)
refused_iff_full_example = refused_iff_full Reach-busy

Move-Edge_example : Edge waiting 1 cancelled 0
unfolding raise
Move-Edge_example =
    Move-Edge full fresh {l' = free}
      {j' = record { ticket = cancelled; worker = queued; handler = abandoned }} (by_raise refl)

returned_done_example :
    All
      (λ j. (j.handler ≡ returned → j.ticket ≡ done) × (j.worker ≡ executing → j.ticket ≡ running))
      (over ∷ [])
returned_done_example = returned_done Reach-over
