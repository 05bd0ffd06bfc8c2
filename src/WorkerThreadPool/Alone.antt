-- ===== src/WorkerThreadPool/Alone.antt =====
-- `AddJob` as the steps of its caller, made while no other thread moves.
use my_server_project.Common.{
  ℕ, ◌≡◌, refl, ap, sym, ◌∙◌, List, [], ◌∷◌, ◌++◌, append-nil, append_assoc, if_self,
}
use mathlib.Core.Path.{subst}
use my_server_project.WorkerThreadPool.{
  WorkerThreadPool, free, queued, popping, writing, moved, push_job, pop_idle, write_event,
  set_caller, popped, idle_seen, caller_step_at, caller_step,
}
use my_server_project.WorkerThreadPool.Steps.{CallsAlone, rests, calls_on}

CallsAlone-trans :
    {c : ℕ} {p q r : WorkerThreadPool} → CallsAlone c p q → CallsAlone c q r → CallsAlone c p r
CallsAlone-trans {c} {p} a (rests e) = subst (CallsAlone c p) (sym e) a
CallsAlone-trans a (calls_on b s) = calls_on (CallsAlone-trans a b) s

pops :
    (p : WorkerThreadPool) (c t : ℕ) (ts : List ℕ)
    → p.idle_threads ≡ t ∷ ts
    → popped c (pop_idle p) ≡ moved (set_caller (record p { idle_threads = ts }) c (writing t))
unfolding pop_idle popped
pops p c t ts e = rw (e, popped) refl

-- The rest of `AddJob` after the push.
wakes :
    (p : WorkerThreadPool) (c job : ℕ) (idle : List ℕ)
    → p.callers c ≡ queued
    → p.idle_threads ≡ idle
    → (q : WorkerThreadPool) × CallsAlone c p q × (q.job_queue ≡ p.job_queue) × (q.callers c ≡ free)
unfolding caller_step write_event
wakes p c job [] at e =
    let q = set_caller p c free in
    (
      q,
      calls_on {q = p} (rests refl)
          (job, (ap (λ w. caller_step_at w p c job) at ∙ ap (λ ts. moved (idle_seen ts p c)) e)),
      refl,
      if_self c free (p.callers c),
    )
wakes p c job (t ∷ ts) at e =
    let p1 = set_caller p c popping in
    let p2 = set_caller (record p1 { idle_threads = ts }) c (writing t) in
    let p3 = set_caller (write_event p2 t) c free in
    (
      p3,
      calls_on {q = p2}
          (calls_on {q = p1}
            (calls_on {q = p} (rests refl) (
              job,
              (ap (λ w. caller_step_at w p c job) at ∙ ap (λ ts. moved (idle_seen ts p c)) e),
            ))
            (
              job,
              (ap (λ w. caller_step_at w p1 c job) (if_self c popping (p.callers c))
                  ∙ pops p1 c t ts e),
            ))
          (job, (ap (λ w. caller_step_at w p2 c job) (if_self c (writing t) (p1.callers c)))),
      refl,
      if_self c free (p2.callers c),
    )

-- Steps of a caller alone take it from outside of `AddJob` through it, whatever threads are idle, and
-- the queue has then gained just the job, at its end.
pub add_job_alone :
    (p : WorkerThreadPool) (c job : ℕ)
    → p.callers c ≡ free
    → (q : WorkerThreadPool) × CallsAlone c p q
      × (q.job_queue ≡ p.job_queue ++ job ∷ [])
      × (q.callers c ≡ free)
unfolding caller_step push_job
add_job_alone p c job outside =
    let p1 = set_caller (push_job p job) c queued in
    let (q, r, same, back) = wakes p1 c job p1.idle_threads (if_self c queued (p.callers c)) refl in
    (
      q,
      CallsAlone-trans
          (calls_on {q = p} (rests refl) (job, (ap (λ w. caller_step_at w p c job) outside))) r,
      same,
      back,
    )

-- The same for calls of `AddJob` one after another.
pub add_jobs_alone :
    (jobs : List ℕ) (p : WorkerThreadPool) (c : ℕ)
    → p.callers c ≡ free
    → (q : WorkerThreadPool) × CallsAlone c p q
      × (q.job_queue ≡ p.job_queue ++ jobs)
      × (q.callers c ≡ free)
add_jobs_alone [] p c outside = (p, rests refl, sym (append-nil p.job_queue), outside)
add_jobs_alone (job ∷ jobs) p c outside =
    let (q, r, queue, back) = add_job_alone p c job outside in
    let (q', r', queue', back') = add_jobs_alone jobs q c back in
    (
      q',
      CallsAlone-trans r r',
      queue' ∙ ap (λ xs. xs ++ jobs) queue ∙ append_assoc p.job_queue (job ∷ []) jobs,
      back',
    )
