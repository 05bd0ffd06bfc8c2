-- ===== src/WorkerThreadPool.antt =====
-- The worker threads and their job queue (src/lib-core/src/WorkerThreadPool.cpp and
-- WorkerThreadPool.hpp). A step of a thread is what it does between two points where others may run:
-- a block under one mutex, a test outside of any, a read or a write of an event counter. The children
-- hold the queue under every interleaving, where sleeping threads are, two interleavings around the idle
-- stack, and callers and threads that run alone.
pub mod Steps
pub mod Queue
pub mod Races
pub mod Alone
pub mod Sleep
pub mod Stops
pub mod Drains
mod Tests
use my_server_project.Common.{
  ℕ, zero, suc, ◌+◌, Bool, true, false, Option, none, some, List, [], ◌∷◌, ◌++◌, ◌==◌,
  if◌then◌else◌,
}

-- Where a thread is in `PollEvents`: before the loop's test, in a job, between a `PopJob` that found
-- nothing and `Idle`, in the `read` of `Idle`, past the loop.
pub data Worker : Type 0 where
  polling idling waiting finished : Worker
  running : ℕ → Worker

-- Where a thread is in `AddJob`: outside of it, after the push, after the test of the idle stack, and
-- with a thread popped from it whose event is still to be written.
pub data Caller : Type 0 where
  free queued popping : Caller
  writing : ℕ → Caller

-- `mIsRunning`, `mJobQueue`, `mIdleThreads` with the top first, the event counters, and where each
-- thread is. `added` and `taken` record every job pushed and popped, oldest first.
pub record WorkerThreadPool : Type 0 where
  pub is_running : Bool
  pub job_queue : List ℕ
  pub idle_threads : List ℕ
  pub events : ℕ → ℕ
  pub workers : ℕ → Worker
  pub callers : ℕ → Caller
  pub added : List ℕ
  pub taken : List ℕ

abbrev pub set_worker : WorkerThreadPool → ℕ → Worker → WorkerThreadPool
set_worker p t w = record p { workers = λ k. if k == t then w else p.workers k }

abbrev pub set_caller : WorkerThreadPool → ℕ → Caller → WorkerThreadPool
set_caller p c w = record p { callers = λ k. if k == c then w else p.callers k }

-- The pool after the constructor and `Start`: every thread is before its loop's test.
unfoldable pub started : WorkerThreadPool
started = record {
  is_running = true;
  job_queue = [];
  idle_threads = [];
  events = λ t. 0;
  workers = λ t. polling;
  callers = λ c. free;
  added = [];
  taken = [];
}

-- `none` is a null pointer.
unfoldable pub pop_job : WorkerThreadPool → Option ℕ × WorkerThreadPool
pop_job p = elim p.job_queue [
  | [] ↦ (none, p)
  | job ∷ jobs ↦ (some job, record p { job_queue = jobs; taken = p.taken ++ job ∷ [] })
]

unfoldable pub push_job : WorkerThreadPool → ℕ → WorkerThreadPool
push_job p job = record p { job_queue = p.job_queue ++ job ∷ []; added = p.added ++ job ∷ [] }

unfoldable pub push_idle : WorkerThreadPool → ℕ → WorkerThreadPool
push_idle p t = record p { idle_threads = t ∷ p.idle_threads }

-- `top` and `pop`, which are undefined on an empty stack.
unfoldable pub pop_idle : WorkerThreadPool → Option (ℕ × WorkerThreadPool)
pop_idle p = elim p.idle_threads [ [] ↦ none | t ∷ ts ↦ some (t, record p { idle_threads = ts }) ]

unfoldable pub write_event : WorkerThreadPool → ℕ → WorkerThreadPool
write_event p t = record p { events = λ k. if k == t then suc (p.events k) else p.events k }

-- A `read` of an event counter blocks at 0 and clears it otherwise.
unfoldable pub read_event : WorkerThreadPool → ℕ → Option WorkerThreadPool
read_event p t = elim (p.events t) [
  | zero ↦ none
  | suc n ↦ some (record p { events = λ k. if k == t then 0 else p.events k })
]

-- What a thread's next step comes to.
pub data Outcome : Type 0 where
  moved : WorkerThreadPool → Outcome
  blocked undefined : Outcome

unfoldable pub polled : ℕ → Option ℕ × WorkerThreadPool → WorkerThreadPool
polled t (none, p) = set_worker p t idling
polled t (some job, p) = set_worker p t (running job)

unfoldable pub resume : ℕ → Option WorkerThreadPool → Outcome
resume t none = blocked
resume t (some p) = moved (set_worker p t polling)

-- A step of `PollEvents`; a job's `Execute` and `Complete` end with one step of it. While they run, the
-- thread is at `running`, and the calls of `AddJob` that they make are the steps of a caller.
unfoldable pub worker_step_at : Worker → WorkerThreadPool → ℕ → Outcome
unfolding polled pop_job push_idle read_event resume
worker_step_at polling p t =
    moved (if p.is_running then polled t (pop_job p) else set_worker p t finished)
worker_step_at (running job) p t = moved (set_worker p t polling)
worker_step_at idling p t = moved (set_worker (push_idle p t) t waiting)
worker_step_at waiting p t = resume t (read_event p t)
worker_step_at finished p t = blocked

unfoldable pub worker_step : WorkerThreadPool → ℕ → Outcome
unfolding worker_step_at
worker_step p t = worker_step_at (p.workers t) p t

unfoldable pub popped : ℕ → Option (ℕ × WorkerThreadPool) → Outcome
popped c none = undefined
popped c (some (t, p)) = moved (set_caller p c (writing t))

unfoldable pub idle_seen : List ℕ → WorkerThreadPool → ℕ → WorkerThreadPool
idle_seen [] p c = set_caller p c free
idle_seen (t ∷ ts) p c = set_caller p c popping

-- A step of `AddJob` for `job`: the push, then those of `WakeOneThread`.
unfoldable pub caller_step_at : Caller → WorkerThreadPool → ℕ → ℕ → Outcome
unfolding push_job idle_seen popped pop_idle write_event
caller_step_at free p c job = moved (set_caller (push_job p job) c queued)
caller_step_at queued p c job = moved (idle_seen p.idle_threads p c)
caller_step_at popping p c job = popped c (pop_idle p)
caller_step_at (writing t) p c job = moved (set_caller (write_event p t) c free)

unfoldable pub caller_step : WorkerThreadPool → ℕ → ℕ → Outcome
unfolding caller_step_at
caller_step p c job = caller_step_at (p.callers c) p c job

-- `Stop`: the flag, and then a write of each thread's event.
unfoldable pub stop_flag : WorkerThreadPool → WorkerThreadPool
stop_flag p = record p { is_running = false }
