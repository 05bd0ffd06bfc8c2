-- ===== src/WorkerThreadPool/Tests.antt =====
-- The worker threads' theorems at concrete pools.
use my_server_project.Common.{◌≡◌, refl, true, [], ◌∷◌, if◌then◌else◌, ◌==◌, arith}
use my_server_project.WorkerThreadPool.{
  WorkerThreadPool, polling, waiting, free, queued, blocked, undefined, started, pop_job, push_job,
  polled, idle_seen, set_caller, stop_flag, worker_step, caller_step,
}
use my_server_project.WorkerThreadPool.Steps.{StopLoop, works, calls, Reach, here, next}
use my_server_project.WorkerThreadPool.Queue.{IsFifo, Reach-IsFifo}
use my_server_project.WorkerThreadPool.Sleep.{Lanes, Reach-Lanes}
use my_server_project.WorkerThreadPool.Stops.{AllFinished, stop_joins}
use my_server_project.WorkerThreadPool.Drains.{Turns, drains}
use my_server_project.WorkerThreadPool.Races.{lost_wakeup, double_pop}

-- Caller 0 pushes jobs 5 and 6, with a test of the idle stack between, and worker 1 pops job 5.
abbrev pushed_one : WorkerThreadPool
pushed_one = set_caller (push_job started 5) 0 queued

abbrev seen_one : WorkerThreadPool
seen_one = set_caller pushed_one 0 free

abbrev pushed_two : WorkerThreadPool
pushed_two = set_caller (push_job seen_one 6) 0 queued

abbrev popped_one : WorkerThreadPool
popped_one = polled 1 (pop_job pushed_two)

runs_one : Reach started popped_one
unfolding started push_job caller_step idle_seen worker_step pop_job polled
runs_one =
    next {q = pushed_two}
      (next {q = seen_one}
        (next {q = pushed_one} (next {q = started} (here refl) (calls 0 5 refl)) (calls 0 5 refl))
        (calls 0 6 refl))
      (works 1 refl)

taken_first : popped_one.taken ≡ 5 ∷ []
unfolding started push_job pop_job polled
taken_first = refl

Reach-IsFifo_example : IsFifo popped_one
Reach-IsFifo_example = Reach-IsFifo runs_one

lost_wakeup_example :
    (q : WorkerThreadPool) × Reach started q
    × (q.job_queue ≡ 5 ∷ [])
    × (q.callers 0 ≡ free)
    × (worker_step q 1 ≡ blocked)
    × (q.idle_threads ≡ 1 ∷ [])
lost_wakeup_example =
    lost_wakeup started 1 0 5 (unfold started in refl) (unfold started in refl)
      (unfold started in refl) (unfold started in refl) (unfold started in refl)
      (unfold started in refl)

-- Thread 1 is idle, and callers 0 and 1 have both pushed.
abbrev two_callers : WorkerThreadPool
two_callers = record started {
  job_queue = 5 ∷ 6 ∷ [];
  idle_threads = 1 ∷ [];
  callers = λ c. if c == 0 then queued else if c == 1 then queued else free;
}

double_pop_example : (q : WorkerThreadPool) × Reach two_callers q × (caller_step q 1 5 ≡ undefined)
double_pop_example = double_pop two_callers 0 1 1 5 (omega arith) refl refl refl

running_one : popped_one.is_running ≡ true
unfolding started push_job pop_job polled
running_one = refl

Reach-Lanes_example : Lanes popped_one
Reach-Lanes_example = Reach-Lanes runs_one running_one

-- Two jobs are queued, thread 1 is before its test, and thread 2 sleeps.
abbrev two_jobs : WorkerThreadPool
two_jobs = record started {
  job_queue = 5 ∷ 6 ∷ [];
  idle_threads = 2 ∷ [];
  workers = λ t. if t == 2 then waiting else polling;
}

-- Job 5 adds itself again, as a poll job does, after job 7.
drains_example :
    (q : WorkerThreadPool) × Turns 1 0 ((5, 7 ∷ 5 ∷ []) ∷ []) two_jobs q
    × (q.taken ≡ 5 ∷ [])
    × (q.job_queue ≡ 6 ∷ 7 ∷ 5 ∷ [])
    × (q.workers 1 ≡ polling)
unfolding started
drains_example = drains ((5, 7 ∷ 5 ∷ []) ∷ []) (6 ∷ []) two_jobs 1 0 refl refl refl refl

stop_joins_example :
    (q : WorkerThreadPool) × StopLoop (1 ∷ 2 ∷ []) (stop_flag two_jobs) q
    × AllFinished (1 ∷ 2 ∷ []) q
stop_joins_example = stop_joins two_jobs (1 ∷ 2 ∷ [])
