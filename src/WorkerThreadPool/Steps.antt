-- ===== src/WorkerThreadPool/Steps.antt =====
-- The steps of all threads together, and the pools that they reach.
use my_server_project.Common.{ℕ, ◌≡◌, false, List, [], ◌∷◌}
use my_server_project.WorkerThreadPool.{
  WorkerThreadPool, finished, moved, worker_step, caller_step, stop_flag, write_event,
}

pub data Step (p q : WorkerThreadPool) : Type 0 where
  works : (t : ℕ) → worker_step p t ≡ moved q → Step p q
  calls : (c job : ℕ) → caller_step p c job ≡ moved q → Step p q
  stops : q ≡ stop_flag p → Step p q
  stop_writes : (t : ℕ) → p.is_running ≡ false → q ≡ write_event p t → Step p q

pub data Reach (p : WorkerThreadPool) : WorkerThreadPool → Type 0 where
  here : {q : WorkerThreadPool} → q ≡ p → Reach p q
  next : {q r : WorkerThreadPool} → Reach p q → Step q r → Reach p r

-- Steps of worker `t` alone.
pub data RunsAlone (t : ℕ) : WorkerThreadPool → WorkerThreadPool → Type 0 where
  stays : {p q : WorkerThreadPool} → q ≡ p → RunsAlone t p q
  works_on :
      {p q r : WorkerThreadPool} → worker_step p t ≡ moved q → RunsAlone t q r → RunsAlone t p r

-- Steps of caller `c` alone, each with the job that it is given.
pub data CallsAlone (c : ℕ) (p : WorkerThreadPool) : WorkerThreadPool → Type 0 where
  rests : {q : WorkerThreadPool} → q ≡ p → CallsAlone c p q
  calls_on :
      {q r : WorkerThreadPool}
      → CallsAlone c p q
      → (job : ℕ) × (caller_step q c job ≡ moved r)
      → CallsAlone c p r

-- The loop of `Stop` over its threads: each one's event is written, and the join waits until the thread
-- has come to its end, here by steps of its own.
pub data StopLoop : List ℕ → WorkerThreadPool → WorkerThreadPool → Type 0 where
  joined_all : {p q : WorkerThreadPool} → q ≡ p → StopLoop [] p q
  joins :
      {t : ℕ} {ts : List ℕ} {p q r : WorkerThreadPool}
      → RunsAlone t (write_event p t) q
      → q.workers t ≡ finished
      → StopLoop ts q r
      → StopLoop (t ∷ ts) p r
