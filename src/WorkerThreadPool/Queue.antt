-- ===== src/WorkerThreadPool/Queue.antt =====
-- The job queue under every interleaving of workers, callers and `Stop`.
use my_server_project.Common.{
  ℕ, zero, suc, ◌≡◌, refl, ap, ◌∙◌, Bool, true, false, Option, none, some, List, [], ◌∷◌, ◌++◌,
  append_assoc, if◌then◌else◌, arith,
}
use my_server_project.WorkerThreadPool.{
  WorkerThreadPool, Worker, polling, idling, waiting, finished, running, Caller, free, queued,
  popping, writing, Outcome, moved, blocked, undefined, started, pop_job, polled, resume,
  write_event, popped, idle_seen, set_worker, worker_step_at, worker_step, caller_step_at,
  caller_step, stop_flag,
}
use my_server_project.WorkerThreadPool.Steps.{
  Step, works, calls, stops, stop_writes, Reach, here, next,
}

-- Every job added was taken or is still queued, each once, in the order of the pushes.
abbrev pub IsFifo : WorkerThreadPool → Type 0
IsFifo p = p.added ≡ p.taken ++ p.job_queue

pop_job-IsFifo :
    (p : WorkerThreadPool) (jobs : List ℕ) → p.job_queue ≡ jobs → IsFifo p → IsFifo (pop_job p).1
unfolding pop_job
pop_job-IsFifo p [] e f = ground arith
pop_job-IsFifo p (job ∷ jobs) e f = ground (arith, append_assoc p.taken (job ∷ []) jobs)

-- What a step leaves, if it is made.
abbrev Holds : Outcome → Type 0
Holds (moved q) = IsFifo q
Holds blocked = Unit {0}
Holds undefined = Unit {0}

polled-IsFifo : (t : ℕ) (o : Option ℕ) (p : WorkerThreadPool) → IsFifo p → IsFifo (polled t (o, p))
unfolding polled
polled-IsFifo t none p f = f
polled-IsFifo t (some job) p f = f

branch-IsFifo :
    (b : Bool) (p q : WorkerThreadPool) → IsFifo p → IsFifo q → IsFifo (if b then p else q)
branch-IsFifo true p q f g = f
branch-IsFifo false p q f g = g

polling-IsFifo : (p : WorkerThreadPool) (t : ℕ) → IsFifo p → Holds (worker_step_at polling p t)
unfolding worker_step_at
polling-IsFifo p t f =
    branch-IsFifo p.is_running (polled t (pop_job p)) (set_worker p t finished)
      (polled-IsFifo t (pop_job p).0 (pop_job p).1 (pop_job-IsFifo p p.job_queue refl f)) f

waiting-IsFifo :
    (p : WorkerThreadPool) (t n : ℕ)
    → p.events t ≡ n
    → IsFifo p
    → Holds (worker_step_at waiting p t)
unfolding worker_step_at
waiting-IsFifo p t zero e f = rw (e, resume) tt
waiting-IsFifo p t (suc n) e f = rw (e, resume) f

worker_step_at-IsFifo :
    (w : Worker) (p : WorkerThreadPool) (t : ℕ) → IsFifo p → Holds (worker_step_at w p t)
unfolding worker_step_at
worker_step_at-IsFifo polling p t f = polling-IsFifo p t f
worker_step_at-IsFifo (running job) p t f = f
worker_step_at-IsFifo idling p t f = f
worker_step_at-IsFifo waiting p t f = waiting-IsFifo p t (p.events t) refl f
worker_step_at-IsFifo finished p t f = tt

popping-IsFifo :
    (p : WorkerThreadPool) (c job : ℕ) (ts : List ℕ)
    → p.idle_threads ≡ ts
    → IsFifo p
    → Holds (caller_step_at popping p c job)
unfolding caller_step_at
popping-IsFifo p c job [] e f = rw (e, popped) tt
popping-IsFifo p c job (t ∷ ts) e f = rw (e, popped) f

idle_seen-IsFifo :
    (ts : List ℕ) (p : WorkerThreadPool) (c : ℕ) → IsFifo p → IsFifo (idle_seen ts p c)
unfolding idle_seen
idle_seen-IsFifo [] p c f = f
idle_seen-IsFifo (t ∷ ts) p c f = f

caller_step_at-IsFifo :
    (w : Caller) (p : WorkerThreadPool) (c job : ℕ) → IsFifo p → Holds (caller_step_at w p c job)
unfolding caller_step_at
caller_step_at-IsFifo free p c job f =
    ap (λ xs. xs ++ job ∷ []) f ∙ append_assoc p.taken p.job_queue (job ∷ [])
caller_step_at-IsFifo queued p c job f = idle_seen-IsFifo p.idle_threads p c f
caller_step_at-IsFifo popping p c job f = popping-IsFifo p c job p.idle_threads refl f
caller_step_at-IsFifo (writing t) p c job f = f

Holds-moved : {o : Outcome} (q : WorkerThreadPool) → o ≡ moved q → Holds o → IsFifo q
Holds-moved q e h = rw e at h

Step-IsFifo : {p q : WorkerThreadPool} → Step p q → IsFifo p → IsFifo q
unfolding worker_step caller_step stop_flag write_event
Step-IsFifo {p} {q} (works t e) f = Holds-moved q e (worker_step_at-IsFifo (p.workers t) p t f)
Step-IsFifo {p} {q} (calls c job e) f =
    Holds-moved q e (caller_step_at-IsFifo (p.callers c) p c job f)
Step-IsFifo (stops e) f = rw e f
Step-IsFifo (stop_writes t off e) f = rw e f

-- From the start on, whatever steps workers, callers and `Stop` make, the jobs taken followed by
-- those still queued are the jobs added, in the order in which they were pushed: none is lost,
-- repeated or overtaken.
pub Reach-IsFifo : {p : WorkerThreadPool} → Reach started p → IsFifo p
unfolding started
Reach-IsFifo (here e) = rw e refl
Reach-IsFifo (next r st) = Step-IsFifo st (Reach-IsFifo r)
