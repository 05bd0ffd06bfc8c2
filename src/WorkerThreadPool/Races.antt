-- ===== src/WorkerThreadPool/Races.antt =====
-- Two interleavings around the idle stack.
use my_server_project.Common.{
  ℕ, ◌≡◌, ◌≢◌, refl, ap, sym, ◌∙◌, true, List, [], ◌∷◌, ◌++◌, if_self, if_other, arith,
}
use my_server_project.WorkerThreadPool.{
  WorkerThreadPool, polling, idling, waiting, free, queued, popping, writing, moved, blocked,
  undefined, push_job, resume, push_idle, popped, idle_seen, set_worker, set_caller, worker_step_at,
  worker_step, caller_step_at, caller_step,
}
use my_server_project.WorkerThreadPool.Steps.{works, calls, Reach, here, next}

-- The states of an interleaving: a worker finds the queue empty, a caller pushes and looks at the idle
-- stack, and the worker goes on to `Idle`.
found_nothing : WorkerThreadPool → ℕ → WorkerThreadPool
found_nothing p t = set_worker p t idling

job_pushed : WorkerThreadPool → ℕ → ℕ → ℕ → WorkerThreadPool
job_pushed p t c job = set_caller (push_job (found_nothing p t) job) c queued

nobody_woken : WorkerThreadPool → ℕ → ℕ → ℕ → WorkerThreadPool
nobody_woken p t c job = set_caller (job_pushed p t c job) c free

asleep : WorkerThreadPool → ℕ → ℕ → ℕ → WorkerThreadPool
asleep p t c job = set_worker (push_idle (nobody_woken p t c job) t) t waiting

finds_nothing :
    (p : WorkerThreadPool) (t : ℕ)
    → p.is_running ≡ true
    → p.job_queue ≡ []
    → p.workers t ≡ polling
    → worker_step p t ≡ moved (found_nothing p t)
unfolding worker_step found_nothing
finds_nothing p t on empty at_test = ground arith

pushes :
    (p : WorkerThreadPool) (t c job : ℕ)
    → p.callers c ≡ free
    → caller_step (found_nothing p t) c job ≡ moved (job_pushed p t c job)
unfolding caller_step found_nothing job_pushed
pushes p t c job outside = ap (λ w. caller_step_at w (set_worker p t idling) c job) outside

wakes_nobody :
    (p : WorkerThreadPool) (t c job : ℕ)
    → p.idle_threads ≡ []
    → caller_step (job_pushed p t c job) c job ≡ moved (nobody_woken p t c job)
unfolding caller_step found_nothing job_pushed nobody_woken push_job
wakes_nobody p t c job none_idle =
    ap (λ w. caller_step_at w (job_pushed p t c job) c job) (if_self c queued (p.callers c))
    ∙ ap (λ ts. moved (idle_seen ts (job_pushed p t c job) c)) none_idle

falls_asleep :
    (p : WorkerThreadPool) (t c job : ℕ)
    → worker_step (nobody_woken p t c job) t ≡ moved (asleep p t c job)
unfolding worker_step found_nothing job_pushed nobody_woken push_job asleep
falls_asleep p t c job =
    ap (λ w. worker_step_at w (nobody_woken p t c job) t) (if_self t idling (p.workers t))

stays_asleep :
    (p : WorkerThreadPool) (t c job : ℕ)
    → p.events t ≡ 0
    → worker_step (asleep p t c job) t ≡ blocked
unfolding worker_step found_nothing job_pushed nobody_woken push_job asleep
stays_asleep p t c job no_event =
    ap (λ w. worker_step_at w (asleep p t c job) t)
      (if_self t waiting ((nobody_woken p t c job).workers t))
    ∙ rw (no_event, resume)

-- From any running pool with an empty queue, an empty idle stack, a thread before its test, no
-- event for it and a caller outside of `AddJob`, the pool can come to a state in which the job is
-- queued, the caller has returned, the thread is on the idle stack, and its next step is blocked.
pub lost_wakeup :
    (p : WorkerThreadPool) (t c job : ℕ)
    → p.is_running ≡ true
    → p.job_queue ≡ []
    → p.idle_threads ≡ []
    → p.workers t ≡ polling
    → p.events t ≡ 0
    → p.callers c ≡ free
    → (q : WorkerThreadPool) × Reach p q
      × (q.job_queue ≡ job ∷ [])
      × (q.callers c ≡ free)
      × (worker_step q t ≡ blocked)
      × (q.idle_threads ≡ t ∷ [])
lost_wakeup p t c job on empty none_idle at_test no_event outside = (
  asleep p t c job,
  next {q = nobody_woken p t c job}
      (next {q = job_pushed p t c job}
        (next {q = found_nothing p t}
          (next {q = p} (here refl) (works t (finds_nothing p t on empty at_test)))
          (calls c job (pushes p t c job outside)))
        (calls c job (wakes_nobody p t c job none_idle)))
      (works t (falls_asleep p t c job)),
  unfold asleep nobody_woken job_pushed found_nothing push_job push_idle in
      ap (λ xs. xs ++ job ∷ []) empty,
  unfold asleep nobody_woken push_idle in if_self c free ((job_pushed p t c job).callers c),
  stays_asleep p t c job no_event,
  unfold asleep nobody_woken job_pushed found_nothing push_job push_idle in
      ap (λ ts. t ∷ ts) none_idle,
)

-- The states of another one: `WakeOneThread` tests the idle stack outside of the mutex, and two callers
-- are between that test and their pop.
saw_idle : WorkerThreadPool → ℕ → WorkerThreadPool
saw_idle p c = set_caller p c popping

took_last : WorkerThreadPool → ℕ → ℕ → WorkerThreadPool
took_last p c t = set_caller (record p { idle_threads = [] }) c (writing t)

sees :
    (p : WorkerThreadPool) (c t job : ℕ) (ts : List ℕ)
    → p.callers c ≡ queued
    → p.idle_threads ≡ t ∷ ts
    → caller_step p c job ≡ moved (saw_idle p c)
unfolding caller_step saw_idle
sees p c t job ts at_queued idle =
    ap (λ w. caller_step_at w p c job) at_queued ∙ ap (λ ts. moved (idle_seen ts p c)) idle

takes :
    (p : WorkerThreadPool) (c t job : ℕ)
    → p.callers c ≡ popping
    → p.idle_threads ≡ t ∷ []
    → caller_step p c job ≡ moved (took_last p c t)
unfolding caller_step took_last
takes p c t job at_pop idle = ap (λ w. caller_step_at w p c job) at_pop ∙ rw (idle, popped)

-- From any pool with one idle thread and two callers past their push, the pool can come to a state
-- in which the step of one of them pops an empty stack, which is undefined.
pub double_pop :
    (p : WorkerThreadPool) (c d t job : ℕ)
    → c ≢ d
    → p.callers c ≡ queued
    → p.callers d ≡ queued
    → p.idle_threads ≡ t ∷ []
    → (q : WorkerThreadPool) × Reach p q × (caller_step q d job ≡ undefined)
double_pop p c d t job ne at_c at_d idle =
    let p1 = saw_idle p c in
    let p2 = saw_idle p1 d in
    let p3 = took_last p2 c t in
    let c_pops : p2.callers c ≡ popping =
      unfold saw_idle in
      (if_other c d popping (p1.callers c) ne ∙ if_self c popping (p.callers c)) in
    let d_waits : p1.callers d ≡ queued =
      unfold saw_idle in (if_other d c popping (p.callers d) (λ e. ne (sym e)) ∙ at_d) in
    (
      p3,
      next {q = p2}
          (next {q = p1} (next {q = p} (here refl) (calls c job (sees p c t job [] at_c idle)))
            (calls d job (sees p1 d t job [] d_waits (unfold saw_idle in idle))))
          (calls c job (takes p2 c t job c_pops (unfold saw_idle in idle))),
      unfold took_last saw_idle caller_step in
          ap (λ w. caller_step_at w p3 d job)
            (if_other d c (writing t) (p2.callers d) (λ e. ne (sym e))
              ∙ if_self d popping (p1.callers d)),
    )
