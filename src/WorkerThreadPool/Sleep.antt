-- ===== src/WorkerThreadPool/Sleep.antt =====
-- Where a thread that sleeps is to be found while the pool runs: on the idle stack, with a caller that
-- popped it, or with an event that waits for it.
use my_server_project.Common.{
  apart, ℕ, zero, suc, ◌+◌, ◌≡◌, ◌≢◌, refl, sym, ap, ◌∙◌, Bool, true, false, none, some, List, [],
  ◌∷◌, ◌++◌, if◌then◌else◌, ◌==◌, if_self, if_other, arith,
}
use mathlib.Core.Path.{subst}
use my_server_project.WorkerThreadPool.{
  WorkerThreadPool, Worker, polling, idling, waiting, finished, running, Caller, free, queued,
  popping, writing, Outcome, moved, blocked, undefined, started, pop_job, push_job, polled, resume,
  write_event, push_idle, popped, idle_seen, set_worker, set_caller, worker_step_at, worker_step,
  caller_step_at, caller_step, stop_flag,
}
use my_server_project.WorkerThreadPool.Steps.{
  Step, works, calls, stops, stop_writes, Reach, here, next,
}

-- How often a thread is on a stack.
abbrev pub count : ℕ → List ℕ → ℕ
count t [] = 0
count t (x ∷ xs) = (if x == t then 1 else 0) + count t xs

count_top : (u : ℕ) (us : List ℕ) → count u (u ∷ us) ≡ 1 + count u us
count_top u us = ap (λ n. n + count u us) (if_self u 1 0)

count_below : (k u : ℕ) (us : List ℕ) → k ≢ u → count k (u ∷ us) ≡ count k us
count_below k u us other =
    ap (λ n. n + count k us) (if_other {A = ℕ} u k 1 0 (λ x. other (sym x))) ∙ (omega arith)

-- A thread is awake, on the idle stack once, popped by one caller that has still to write its event, or
-- woken by one event that it has not read.
pub data Lane (p : WorkerThreadPool) (t : ℕ) : Type 0 where
  awake :
      p.workers t ≢ waiting
      → p.events t ≡ 0
      → count t p.idle_threads ≡ 0
      → ((c : ℕ) → p.callers c ≢ writing t)
      → Lane p t
  stacked :
      p.workers t ≡ waiting
      → p.events t ≡ 0
      → count t p.idle_threads ≡ 1
      → ((c : ℕ) → p.callers c ≢ writing t)
      → Lane p t
  taken_by :
      (c : ℕ)
      → p.workers t ≡ waiting
      → p.events t ≡ 0
      → count t p.idle_threads ≡ 0
      → p.callers c ≡ writing t
      → ((d : ℕ) → p.callers d ≡ writing t → d ≡ c)
      → Lane p t
  woken :
      p.workers t ≡ waiting
      → p.events t ≡ 1
      → count t p.idle_threads ≡ 0
      → ((c : ℕ) → p.callers c ≢ writing t)
      → Lane p t

abbrev pub Lanes : WorkerThreadPool → Type 0
Lanes p = (t : ℕ) → Lane p t

-- What a step leaves alone keeps its lane.
Lane-keep :
    (p q : WorkerThreadPool) (t : ℕ)
    → q.workers t ≡ p.workers t
    → q.events t ≡ p.events t
    → count t q.idle_threads ≡ count t p.idle_threads
    → ((c : ℕ) → q.callers c ≡ writing t → p.callers c ≡ writing t)
    → ((c : ℕ) → p.callers c ≡ writing t → q.callers c ≡ writing t)
    → Lane p t
    → Lane q t
Lane-keep p q t w e n f g (awake a b c d) =
    awake (λ x. a (sym w ∙ x)) (e ∙ b) (n ∙ c) (λ k x. d k (f k x))
Lane-keep p q t w e n f g (stacked a b c d) = stacked (w ∙ a) (e ∙ b) (n ∙ c) (λ k x. d k (f k x))
Lane-keep p q t w e n f g (taken_by k a b c d u) =
    taken_by k (w ∙ a) (e ∙ b) (n ∙ c) (g k d) (λ j x. u j (f j x))
Lane-keep p q t w e n f g (woken a b c d) = woken (w ∙ a) (e ∙ b) (n ∙ c) (λ k x. d k (f k x))

-- A thread that is not waiting is awake, and stays so with its worker at another such point.
abbrev IsAwake : WorkerThreadPool → ℕ → Type 0
IsAwake p t = (p.events t ≡ 0) × (count t p.idle_threads ≡ 0) × ((c : ℕ) → p.callers c ≢ writing t)

Lane-IsAwake : (p : WorkerThreadPool) (t : ℕ) → p.workers t ≢ waiting → Lane p t → IsAwake p t
Lane-IsAwake p t ne (awake a b c d) = (b, c, d)
Lane-IsAwake p t ne (stacked a b c d) = absurd (ne a)
Lane-IsAwake p t ne (taken_by k a b c d u) = absurd (ne a)
Lane-IsAwake p t ne (woken a b c d) = absurd (ne a)

set_worker-Lanes :
    (p : WorkerThreadPool) (t : ℕ) (w : Worker)
    → p.workers t ≢ waiting
    → w ≢ waiting
    → Lanes p
    → Lanes (set_worker p t w)
set_worker-Lanes p t w ne nw l =
    let (a, b, c) = Lane-IsAwake p t ne (l t) in
    apart (Lane (set_worker p t w)) t (awake (λ x. nw (sym (if_self t w (p.workers t)) ∙ x)) a b c)
      (λ k other.
        Lane-keep p (set_worker p t w) k (if_other k t w (p.workers k) other) refl refl (λ c x. x)
          (λ c x. x) (l k))

-- The step to the idle stack.
idling-Lanes :
    (p : WorkerThreadPool) (t : ℕ)
    → p.workers t ≢ waiting
    → Lanes p
    → Lanes (set_worker (push_idle p t) t waiting)
unfolding push_idle
idling-Lanes p t ne l =
    let (a, b, c) = Lane-IsAwake p t ne (l t) in
    let q = set_worker (push_idle p t) t waiting in
    apart (Lane q) t
      (stacked (if_self t waiting (p.workers t)) a (count_top t p.idle_threads ∙ ap (λ n. 1 + n) b)
        c)
      (λ k other.
        Lane-keep p q k (if_other k t waiting (p.workers k) other) refl
          (count_below k t p.idle_threads other) (λ c x. x) (λ c x. x) (l k))

-- Only an event that waits lets a `read` return.
waiting-IsWoken :
    (p : WorkerThreadPool) (t n : ℕ)
    → p.events t ≡ suc n
    → Lane p t
    → (count t p.idle_threads ≡ 0) × ((c : ℕ) → p.callers c ≢ writing t)
waiting-IsWoken p t n e (awake a b c d) = ground arith
waiting-IsWoken p t n e (stacked a b c d) = ground arith
waiting-IsWoken p t n e (taken_by k a b c d u) = ground arith
waiting-IsWoken p t n e (woken a b c d) = (c, d)

waking-Lanes :
    (p : WorkerThreadPool) (t n : ℕ)
    → p.events t ≡ suc n
    → Lanes p
    → Lanes (set_worker (record p { events = λ k. if k == t then 0 else p.events k }) t polling)
waking-Lanes p t n e l =
    let (b, c) = waiting-IsWoken p t n e (l t) in
    let q = set_worker (record p { events = λ k. if k == t then 0 else p.events k }) t polling in
    apart (Lane q) t
      (awake
        (λ x. let y : polling ≡ waiting = sym (if_self t polling (p.workers t)) ∙ x in ground arith)
        (if_self t 0 (p.events t)) b c)
      (λ k other.
        Lane-keep p q k (if_other k t polling (p.workers k) other)
          (if_other k t 0 (p.events k) other) refl (λ c x. x) (λ c x. x) (l k))

set_caller-Lanes :
    (p : WorkerThreadPool) (c : ℕ) (w : Caller)
    → ((t : ℕ) → p.callers c ≢ writing t)
    → ((t : ℕ) → w ≢ writing t)
    → Lanes p
    → Lanes (set_caller p c w)
set_caller-Lanes p c w ne nw l t =
    let to : (d : ℕ) → (if d == c then w else p.callers d) ≡ writing t → p.callers d ≡ writing t =
      apart (λ d. (if d == c then w else p.callers d) ≡ writing t → p.callers d ≡ writing t) c
        (λ x. absurd (nw t (sym (if_self c w (p.callers c)) ∙ x)))
        (λ d other x. sym (if_other d c w (p.callers d) other) ∙ x) in
    let from : (d : ℕ) → p.callers d ≡ writing t → (if d == c then w else p.callers d) ≡ writing t =
      apart (λ d. p.callers d ≡ writing t → (if d == c then w else p.callers d) ≡ writing t) c
        (λ x. absurd (ne t x)) (λ d other x. if_other d c w (p.callers d) other ∙ x) in
    Lane-keep p (set_caller p c w) t refl refl refl to from (l t)

-- The thread on top of the stack is there once.
popping-IsStacked :
    (p : WorkerThreadPool) (u : ℕ) (us : List ℕ)
    → p.idle_threads ≡ u ∷ us
    → Lane p u
    → (p.workers u ≡ waiting)
      × (p.events u ≡ 0)
      × (count u us ≡ 0)
      × ((c : ℕ) → p.callers c ≢ writing u)
popping-IsStacked p u us e (awake a b c d) =
    absurd (let f = sym (count_top u us) ∙ sym (ap (count u) e) ∙ c in ground arith)
popping-IsStacked p u us e (stacked a b c d) =
    let f = sym (count_top u us) ∙ sym (ap (count u) e) ∙ c in (a, b, ground arith, d)
popping-IsStacked p u us e (taken_by k a b c d v) =
    absurd (let f = sym (count_top u us) ∙ sym (ap (count u) e) ∙ c in ground arith)
popping-IsStacked p u us e (woken a b c d) =
    absurd (let f = sym (count_top u us) ∙ sym (ap (count u) e) ∙ c in ground arith)

writing-injective : {t u : ℕ} → writing t ≡ writing u → t ≡ u
writing-injective e = ground arith

popping≢writing : (t : ℕ) → popping ≢ writing t
popping≢writing t e = ground arith

free≢writing : (t : ℕ) → free ≢ writing t
free≢writing t e = ground arith

popping-Lanes :
    (p : WorkerThreadPool) (c u : ℕ) (us : List ℕ)
    → p.callers c ≡ popping
    → p.idle_threads ≡ u ∷ us
    → Lanes p
    → Lanes (set_caller (record p { idle_threads = us }) c (writing u))
popping-Lanes p c u us at e l =
    let (w, v, n, none_writes) = popping-IsStacked p u us e (l u) in
    let q = set_caller (record p { idle_threads = us }) c (writing u) in
    apart (Lane q) u
      (taken_by c w v n (if_self c (writing u) (p.callers c)) (
        apart (λ d. q.callers d ≡ writing u → d ≡ c) c (λ x. refl)
          (λ d other x.
            absurd (none_writes d (sym (if_other d c (writing u) (p.callers d) other) ∙ x)))))
      (λ k other.
        Lane-keep p q k refl refl (sym (count_below k u us other) ∙ sym (ap (count k) e))
          (apart (λ d. q.callers d ≡ writing k → p.callers d ≡ writing k) c
            (λ x. absurd (other (writing-injective (sym x ∙ if_self c (writing u) (p.callers c)))))
            (λ d o x. sym (if_other d c (writing u) (p.callers d) o) ∙ x))
          (apart (λ d. p.callers d ≡ writing k → q.callers d ≡ writing k) c
            (λ x. absurd (popping≢writing k (sym at ∙ x)))
            (λ d o x. if_other d c (writing u) (p.callers d) o ∙ x))
          (l k))

-- The thread whose event is to be written waits, and only one caller is to write it.
writing-IsTaken :
    (p : WorkerThreadPool) (c u : ℕ)
    → p.callers c ≡ writing u
    → Lane p u
    → (p.workers u ≡ waiting)
      × (p.events u ≡ 0)
      × (count u p.idle_threads ≡ 0)
      × ((d : ℕ) → p.callers d ≡ writing u → d ≡ c)
writing-IsTaken p c u e (awake w v n f) = absurd (f c e)
writing-IsTaken p c u e (stacked w v n f) = absurd (f c e)
writing-IsTaken p c u e (taken_by k w v n x only) = (w, v, n, λ d y. only d y ∙ sym (only c e))
writing-IsTaken p c u e (woken w v n f) = absurd (f c e)

writing-Lanes :
    (p : WorkerThreadPool) (c u : ℕ)
    → p.callers c ≡ writing u
    → Lanes p
    → Lanes (set_caller (write_event p u) c free)
unfolding write_event
writing-Lanes p c u e l =
    let (w, v, n, only) = writing-IsTaken p c u e (l u) in
    let q = set_caller (write_event p u) c free in
    apart (Lane q) u
      (woken w (if_self u (suc (p.events u)) (p.events u) ∙ ap (λ n. suc n) v) n (
        apart (λ d. q.callers d ≢ writing u) c
          (λ x. free≢writing u (sym (if_self c free (p.callers c)) ∙ x))
          (λ d o x. o (only d (sym (if_other d c free (p.callers d) o) ∙ x)))))
      (λ k other.
        Lane-keep p q k refl (if_other k u (suc (p.events k)) (p.events k) other) refl
          (apart (λ d. q.callers d ≡ writing k → p.callers d ≡ writing k) c
            (λ x. absurd (free≢writing k (sym (if_self c free (p.callers c)) ∙ x)))
            (λ d o x. sym (if_other d c free (p.callers d) o) ∙ x))
          (apart (λ d. p.callers d ≡ writing k → q.callers d ≡ writing k) c
            (λ x. absurd (other (writing-injective (sym x ∙ e))))
            (λ d o x. if_other d c free (p.callers d) o ∙ x))
          (l k))

-- What a step leaves, if it is made while the pool runs.
abbrev IsAccounted : WorkerThreadPool → Type 0
IsAccounted p = p.is_running ≡ true → Lanes p

abbrev Holds : Outcome → Type 0
Holds (moved q) = IsAccounted q
Holds blocked = Unit {0}
Holds undefined = Unit {0}

branch-IsAccounted :
    (b : Bool) (p q : WorkerThreadPool)
    → IsAccounted p
    → IsAccounted q
    → IsAccounted (if b then p else q)
branch-IsAccounted true p q f g = f
branch-IsAccounted false p q f g = g

pub pop_job-empty : (p : WorkerThreadPool) → p.job_queue ≡ [] → pop_job p ≡ (none, p)
unfolding pop_job
pop_job-empty p e = ground arith

pub pop_job-front :
    (p : WorkerThreadPool) (job : ℕ) (jobs : List ℕ)
    → p.job_queue ≡ job ∷ jobs
    → pop_job p ≡ (some job, record p { job_queue = jobs; taken = p.taken ++ job ∷ [] })
unfolding pop_job
pop_job-front p job jobs e = ground arith

pop_job-IsAccounted :
    (p : WorkerThreadPool) (t : ℕ) (jobs : List ℕ)
    → p.job_queue ≡ jobs
    → p.workers t ≡ polling
    → IsAccounted p
    → IsAccounted (polled t (pop_job p))
unfolding polled
pop_job-IsAccounted p t [] e at f =
    subst (λ o. IsAccounted (polled t o)) (sym (pop_job-empty p e))
      (λ on. set_worker-Lanes p t idling (λ x. ground arith) (λ x. ground arith) (f on))
pop_job-IsAccounted p t (job ∷ jobs) e at f =
    let q = record p { job_queue = jobs; taken = p.taken ++ job ∷ [] } in
    subst (λ o. IsAccounted (polled t o)) (sym (pop_job-front p job jobs e))
      (λ on.
        set_worker-Lanes q t (running job) (λ x. ground arith) (λ x. ground arith)
          (λ k. Lane-keep p q k refl refl refl (λ c x. x) (λ c x. x) (f on k)))

polling-IsAccounted :
    (p : WorkerThreadPool) (t : ℕ)
    → p.workers t ≡ polling
    → IsAccounted p
    → Holds (worker_step_at polling p t)
unfolding worker_step_at
polling-IsAccounted p t at f =
    branch-IsAccounted p.is_running (polled t (pop_job p)) (set_worker p t finished)
      (pop_job-IsAccounted p t p.job_queue refl at f)
      (λ on. set_worker-Lanes p t finished (λ x. ground arith) (λ x. ground arith) (f on))

waiting-IsAccounted :
    (p : WorkerThreadPool) (t n : ℕ)
    → p.events t ≡ n
    → IsAccounted p
    → Holds (worker_step_at waiting p t)
unfolding worker_step_at
waiting-IsAccounted p t zero e f = rw (e, resume) tt
waiting-IsAccounted p t (suc n) e f = rw (e, resume) (λ on. waking-Lanes p t n e (f on))

worker_step_at-IsAccounted :
    (w : Worker) (p : WorkerThreadPool) (t : ℕ)
    → p.workers t ≡ w
    → IsAccounted p
    → Holds (worker_step_at w p t)
unfolding worker_step_at push_idle
worker_step_at-IsAccounted polling p t at f = polling-IsAccounted p t at f
worker_step_at-IsAccounted (running job) p t at f =
    λ on. set_worker-Lanes p t polling (λ x. ground arith) (λ x. ground arith) (f on)
worker_step_at-IsAccounted idling p t at f = λ on. idling-Lanes p t (λ x. ground arith) (f on)
worker_step_at-IsAccounted waiting p t at f = waiting-IsAccounted p t (p.events t) refl f
worker_step_at-IsAccounted finished p t at f = tt

popping-IsAccounted :
    (p : WorkerThreadPool) (c job : ℕ) (ts : List ℕ)
    → p.idle_threads ≡ ts
    → p.callers c ≡ popping
    → IsAccounted p
    → Holds (caller_step_at popping p c job)
unfolding caller_step_at
popping-IsAccounted p c job [] e at f = rw (e, popped) tt
popping-IsAccounted p c job (t ∷ ts) e at f =
    rw (e, popped) (λ on. popping-Lanes p c t ts at e (f on))

idle_seen-IsAccounted :
    (ts : List ℕ) (p : WorkerThreadPool) (c : ℕ)
    → p.callers c ≡ queued
    → IsAccounted p
    → IsAccounted (idle_seen ts p c)
unfolding idle_seen
idle_seen-IsAccounted [] p c at f =
    λ on. set_caller-Lanes p c free (λ t x. ground arith) free≢writing (f on)
idle_seen-IsAccounted (t ∷ ts) p c at f =
    λ on. set_caller-Lanes p c popping (λ t x. ground arith) popping≢writing (f on)

caller_step_at-IsAccounted :
    (w : Caller) (p : WorkerThreadPool) (c job : ℕ)
    → p.callers c ≡ w
    → IsAccounted p
    → Holds (caller_step_at w p c job)
unfolding caller_step_at push_job write_event
caller_step_at-IsAccounted free p c job at f = λ on.
    set_caller-Lanes (push_job p job) c queued (λ t x. ground arith) (λ t x. ground arith)
      (λ t. Lane-keep p (push_job p job) t refl refl refl (λ d x. x) (λ d x. x) (f on t))
caller_step_at-IsAccounted queued p c job at f = idle_seen-IsAccounted p.idle_threads p c at f
caller_step_at-IsAccounted popping p c job at f =
    popping-IsAccounted p c job p.idle_threads refl at f
caller_step_at-IsAccounted (writing t) p c job at f = λ on. writing-Lanes p c t at (f on)

Holds-moved : {o : Outcome} (q : WorkerThreadPool) → o ≡ moved q → Holds o → IsAccounted q
Holds-moved q e h = rw e at h

Step-IsAccounted : {p q : WorkerThreadPool} → Step p q → IsAccounted p → IsAccounted q
unfolding worker_step caller_step stop_flag write_event
Step-IsAccounted {p} {q} (works t e) f =
    Holds-moved q e (worker_step_at-IsAccounted (p.workers t) p t refl f)
Step-IsAccounted {p} {q} (calls c job e) f =
    Holds-moved q e (caller_step_at-IsAccounted (p.callers c) p c job refl f)
Step-IsAccounted {p} {q} (stops e) f =
    λ on. let off : q.is_running ≡ false = ap (λ r. r.is_running) e in ground arith
Step-IsAccounted {p} {q} (stop_writes t off e) f =
    λ on. let same : q.is_running ≡ p.is_running = ap (λ r. r.is_running) e in ground arith

Reach-IsAccounted : {p : WorkerThreadPool} → Reach started p → IsAccounted p
unfolding started
Reach-IsAccounted (here e) =
    λ on t. rw e (awake (λ x. ground arith) refl refl (λ c x. ground arith))
Reach-IsAccounted (next q st) = Step-IsAccounted st (Reach-IsAccounted q)

-- From the start on and while the pool runs, each thread is in exactly one of four places, whatever
-- steps workers and callers have made: awake, with no event and not on the idle stack; asleep and on
-- the idle stack once; asleep and popped by exactly one caller that has still to write its event; or
-- asleep with exactly one event to read.
pub Reach-Lanes : {p : WorkerThreadPool} → Reach started p → p.is_running ≡ true → Lanes p
Reach-Lanes r = Reach-IsAccounted r
