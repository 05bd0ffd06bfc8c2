-- ===== src/WorkerThreadPool/Drains.antt =====
-- A worker thread that runs while the pool does and no other thread moves, with the calls of `AddJob`
-- that its jobs make.
use my_server_project.Common.{
  ℕ, ◌≡◌, refl, sym, ap, ◌∙◌, true, List, [], ◌∷◌, ◌++◌, append-nil, append_assoc, if◌then◌else◌,
  if_self,
}
use mathlib.Core.Path.{subst}
use my_server_project.WorkerThreadPool.{
  WorkerThreadPool, polling, finished, running, Caller, free, queued, popping, writing, Outcome,
  moved, blocked, undefined, pop_job, push_job, pop_idle, write_event, set_worker, polled, popped,
  idle_seen, worker_step_at, worker_step, caller_step_at, caller_step,
}
use my_server_project.WorkerThreadPool.Steps.{CallsAlone, rests, calls_on}
use my_server_project.WorkerThreadPool.Alone.{add_jobs_alone}
use my_server_project.WorkerThreadPool.Sleep.{pop_job-front}
use my_server_project.WorkerThreadPool.Stops.{ends_job}

-- What calls of `AddJob` leave alone.
abbrev Keeps : WorkerThreadPool → WorkerThreadPool → Type 0
Keeps p q = (q.is_running ≡ p.is_running) × (q.workers ≡ p.workers) × (q.taken ≡ p.taken)

abbrev Kept : WorkerThreadPool → Outcome → Type 0
Kept p (moved q) = Keeps p q
Kept p blocked = Unit {0}
Kept p undefined = Unit {0}

seen-Keeps : (ts : List ℕ) (p : WorkerThreadPool) (c : ℕ) → Keeps p (idle_seen ts p c)
unfolding idle_seen
seen-Keeps [] p c = (refl, refl, refl)
seen-Keeps (t ∷ ts) p c = (refl, refl, refl)

pops-Kept :
    (ts : List ℕ) (p : WorkerThreadPool) (c : ℕ)
    → p.idle_threads ≡ ts
    → Kept p (popped c (pop_idle p))
unfolding pop_idle popped
pops-Kept [] p c e = rw e tt
pops-Kept (t ∷ ts) p c e = rw e (refl, refl, refl)

caller_step_at-Kept :
    (w : Caller) (p : WorkerThreadPool) (c job : ℕ) → Kept p (caller_step_at w p c job)
unfolding caller_step_at push_job write_event
caller_step_at-Kept free p c job = (refl, refl, refl)
caller_step_at-Kept queued p c job = seen-Keeps p.idle_threads p c
caller_step_at-Kept popping p c job = pops-Kept p.idle_threads p c refl
caller_step_at-Kept (writing t) p c job = (refl, refl, refl)

CallsAlone-Keeps : {c : ℕ} {p q : WorkerThreadPool} → CallsAlone c p q → Keeps p q
unfolding caller_step
CallsAlone-Keeps {c} {p} (rests e) = subst (Keeps p) (sym e) (refl, refl, refl)
CallsAlone-Keeps {c} (calls_on {q} a (job, e)) =
    let (on, at, taken) = CallsAlone-Keeps a in
    let (on2, at2, taken2) = subst (Kept q) e (caller_step_at-Kept (q.callers c) q c job) in
    (on2 ∙ on, at2 ∙ at, taken2 ∙ taken)

-- Passes of worker `t` through its loop, each with a job: the pop, the calls of `AddJob` that the job
-- makes, one for each job that the list gives beside it, as caller `c`, and the job's end.
pub data Turns (t c : ℕ) : List (ℕ × List ℕ) → WorkerThreadPool → WorkerThreadPool → Type 0 where
  rested : {p q : WorkerThreadPool} → q ≡ p → Turns t c [] p q
  turned :
      {job : ℕ} {added : List ℕ} {rest : List (ℕ × List ℕ)} {p p1 p2 p3 q : WorkerThreadPool}
      → worker_step p t ≡ moved p1
      → p1.workers t ≡ running job
      → CallsAlone c p1 p2
      → p2.job_queue ≡ p1.job_queue ++ added
      → p2.callers c ≡ free
      → worker_step p2 t ≡ moved p3
      → Turns t c rest p3 q
      → Turns t c ((job, added) ∷ rest) p q

abbrev pub jobs_run : List (ℕ × List ℕ) → List ℕ
jobs_run [] = []
jobs_run ((job, added) ∷ rest) = job ∷ jobs_run rest

abbrev pub jobs_added : List (ℕ × List ℕ) → List ℕ
jobs_added [] = []
jobs_added ((job, added) ∷ rest) = added ++ jobs_added rest

takes_front :
    (p : WorkerThreadPool) (t job : ℕ) (jobs : List ℕ)
    → p.is_running ≡ true
    → p.workers t ≡ polling
    → p.job_queue ≡ job ∷ jobs
    → worker_step p t
      ≡ moved
          (set_worker (record p { job_queue = jobs; taken = p.taken ++ job ∷ [] }) t (running job))
unfolding worker_step polled
takes_front p t job jobs on at e =
    ap (λ w. worker_step_at w p t) at
    ∙ ap (λ b. moved (if b then polled t (pop_job p) else set_worker p t finished)) on
    ∙ ap (λ o. moved (polled t o)) (pop_job-front p job jobs e)

-- While the pool runs, from before its loop's test and with the caller that stands for its jobs outside
-- of `AddJob`, a worker thread alone takes the jobs at the front of the queue, as many as one likes, in
-- the order of the queue, whatever jobs each of these adds in its `Execute`, itself included: it is
-- then before the test again, and the queue holds what stood behind them and after it what they added,
-- in order.
pub drains :
    (runs : List (ℕ × List ℕ)) (later : List ℕ) (p : WorkerThreadPool) (t c : ℕ)
    → p.is_running ≡ true
    → p.workers t ≡ polling
    → p.callers c ≡ free
    → p.job_queue ≡ jobs_run runs ++ later
    → (q : WorkerThreadPool) × Turns t c runs p q
      × (q.taken ≡ p.taken ++ jobs_run runs)
      × (q.job_queue ≡ later ++ jobs_added runs)
      × (q.workers t ≡ polling)
drains [] later p t c on at outside e =
    (p, rested refl, sym (append-nil p.taken), e ∙ sym (append-nil later), at)
drains ((job, added) ∷ rest) later p t c on at outside e =
    let jobs = jobs_run rest ++ later in
    let p0 = record p { job_queue = jobs; taken = p.taken ++ job ∷ [] } in
    let p1 = set_worker p0 t (running job) in
    let at1 : p1.workers t ≡ running job = if_self t (running job) (p.workers t) in
    let (p2, calls, queue, outside2) = add_jobs_alone added p1 c outside in
    let (on2, workers2, taken2) = CallsAlone-Keeps calls in
    let p3 = set_worker p2 t polling in
    let (q, turns, taken, left, back) =
      drains rest (later ++ added) p3 t c (on2 ∙ on) (if_self t polling (p2.workers t)) outside2
        (queue ∙ append_assoc (jobs_run rest) later added) in
    (
      q,
      turned (takes_front p t job jobs on at e) at1 calls queue outside2
          (ends_job p2 t job (ap (λ f. f t) workers2 ∙ at1)) turns,
      taken
          ∙ ap (λ xs. xs ++ jobs_run rest) taken2
          ∙ append_assoc p.taken (job ∷ []) (jobs_run rest),
      left ∙ append_assoc later added (jobs_added rest),
      back,
    )
