-- ===== src/WorkerThreadPool/Stops.antt =====
-- Worker threads that run without interruption after `Stop`: each comes to its end.
use my_server_project.Common.{
  apart, ℕ, suc, ◌≡◌, ◌≢◌, refl, ap, ◌∙◌, false, List, [], ◌∷◌, ◌==◌, if◌then◌else◌, if_self,
  if_other, arith,
}
use my_server_project.WorkerThreadPool.{
  WorkerThreadPool, Worker, polling, idling, waiting, finished, running, moved, pop_job, push_idle,
  write_event, read_event, resume, set_worker, polled, worker_step_at, worker_step, stop_flag,
}
use my_server_project.WorkerThreadPool.Steps.{
  RunsAlone, stays, works_on, StopLoop, joined_all, joins,
}

pub ends_job :
    (p : WorkerThreadPool) (t job : ℕ)
    → p.workers t ≡ running job
    → worker_step p t ≡ moved (set_worker p t polling)
unfolding worker_step
ends_job p t job at = ap (λ w. worker_step_at w p t) at

-- What the rest of one thread's run comes to: it is past its loop, with the flag still off, and the
-- threads that were past it before still are.
abbrev Ends : WorkerThreadPool → ℕ → Type 0
Ends p t =
    (q : WorkerThreadPool) × RunsAlone t p q
    × (q.workers t ≡ finished)
    × (q.is_running ≡ false)
    × ((k : ℕ) → p.workers k ≡ finished → q.workers k ≡ finished)

set_worker-finished :
    (p : WorkerThreadPool) (t : ℕ) (w : Worker)
    → p.workers t ≢ finished
    → (k : ℕ) → p.workers k ≡ finished
    → (set_worker p t w).workers k ≡ finished
set_worker-finished p t w ne =
    apart (λ k. p.workers k ≡ finished → (set_worker p t w).workers k ≡ finished) t
      (λ x. absurd (ne x)) (λ k other x. if_other k t w (p.workers k) other ∙ x)

-- One step, and the rest.
step-Ends :
    (p q : WorkerThreadPool) (t : ℕ)
    → worker_step p t ≡ moved q
    → ((k : ℕ) → p.workers k ≡ finished → q.workers k ≡ finished)
    → Ends q t
    → Ends p t
step-Ends p q t e f (r, reach, done, off, g) = (r, works_on e reach, done, off, λ k x. g k (f k x))

polling-Ends :
    (p : WorkerThreadPool) (t : ℕ) → p.is_running ≡ false → p.workers t ≡ polling → Ends p t
unfolding worker_step
polling-Ends p t off at =
    step-Ends p (set_worker p t finished) t
      (ap (λ w. worker_step_at w p t) at
        ∙ ap (λ b. moved (if b then polled t (pop_job p) else set_worker p t finished)) off)
      (set_worker-finished p t finished (λ x. ground arith))
      (set_worker p t finished, stays refl, if_self t finished (p.workers t), off, λ k x. x)

reads :
    (p : WorkerThreadPool) (t n : ℕ)
    → p.events t ≡ suc n
    → resume t (read_event p t)
      ≡ moved (set_worker (record p { events = λ k. if k == t then 0 else p.events k }) t polling)
unfolding read_event resume
reads p t n e = rw (e, resume) refl

waiting-Ends :
    (p : WorkerThreadPool) (t n : ℕ)
    → p.is_running ≡ false
    → p.workers t ≡ waiting
    → p.events t ≡ suc n
    → Ends p t
unfolding worker_step
waiting-Ends p t n off at e =
    let p0 = record p { events = λ k. if k == t then 0 else p.events k } in
    step-Ends p (set_worker p0 t polling) t (ap (λ w. worker_step_at w p t) at ∙ reads p t n e)
      (set_worker-finished p t polling (λ x. ground arith))
      (polling-Ends (set_worker p0 t polling) t off (if_self t polling (p.workers t)))

thread-Ends :
    (w : Worker) (p : WorkerThreadPool) (t n : ℕ)
    → p.is_running ≡ false
    → p.workers t ≡ w
    → p.events t ≡ suc n
    → Ends p t
unfolding worker_step push_idle
thread-Ends polling p t n off at e = polling-Ends p t off at
thread-Ends (running job) p t n off at e =
    step-Ends p (set_worker p t polling) t (ends_job p t job at)
      (set_worker-finished p t polling (λ x. ground arith))
      (polling-Ends (set_worker p t polling) t off (if_self t polling (p.workers t)))
thread-Ends idling p t n off at e =
    let q = set_worker (push_idle p t) t waiting in
    step-Ends p q t (ap (λ w. worker_step_at w p t) at)
      (set_worker-finished p t waiting (λ x. ground arith))
      (waiting-Ends q t n off (if_self t waiting (p.workers t)) e)
thread-Ends waiting p t n off at e = waiting-Ends p t n off at e
thread-Ends finished p t n off at e = (p, stays refl, at, off, λ k x. x)

-- All threads that a list names are past their loops.
abbrev pub AllFinished : List ℕ → WorkerThreadPool → Type 0
AllFinished [] p = Unit {0}
AllFinished (t ∷ ts) p = (p.workers t ≡ finished) × AllFinished ts p

all_join :
    (ts : List ℕ) (p : WorkerThreadPool)
    → p.is_running ≡ false
    → (q : WorkerThreadPool) × StopLoop ts p q
      × AllFinished ts q
      × ((k : ℕ) → p.workers k ≡ finished → q.workers k ≡ finished)
unfolding write_event
all_join [] p off = (p, joined_all refl, tt, λ k x. x)
all_join (t ∷ ts) p off =
    let (q, r, done, still_off, keeps) =
      thread-Ends (p.workers t) (write_event p t) t (p.events t) off refl
        (if_self t (suc (p.events t)) (p.events t)) in
    let (q', r', rest, keeps') = all_join ts q still_off in
    (q', joins r done r', (keeps' t done, rest), λ k x. keeps' k (keeps k x))

-- `Stop` can come to its end from every pool, wherever each thread is and whatever is queued, with any
-- jobs that return: after the flag, for one thread after another, the write of its event lets steps of that
-- thread alone take it past its loop, so that its join returns; at the end all are past their loops.
pub stop_joins :
    (p : WorkerThreadPool) (ts : List ℕ)
    → (q : WorkerThreadPool) × StopLoop ts (stop_flag p) q × AllFinished ts q
unfolding stop_flag
stop_joins p ts = let (q, r, done, keeps) = all_join ts (stop_flag p) refl in (q, r, done)
