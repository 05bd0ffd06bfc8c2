-- ===== src/PollJob/Tests.antt =====
-- A round of the poll job on concrete worker threads.
use my_server_project.Common.{◌≡◌, refl, none, some, [], ◌∷◌, map}
use my_server_project.WorkerThreadPool.{WorkerThreadPool, free, started}
use my_server_project.WorkerThreadPool.Steps.{CallsAlone}
use my_server_project.PollJob.{events, execute, send_execute, add_send_events}
use my_server_project.PollJob.Rounds.{reported, jobs_of, execute_alone}

-- Thread 4 is idle, and job 8 is queued.
abbrev pool : WorkerThreadPool
pool = record started { idle_threads = 4 ∷ []; job_queue = 8 ∷ [] }

null_is_passed_over : send_execute 1 (events (none ∷ some 5 ∷ [])) ≡ some 5 ∷ some 1 ∷ []
unfolding send_execute add_send_events
null_is_passed_over = refl

execute_alone_example :
    (execute 1 (events (some 5 ∷ some 6 ∷ [])) ≡ map some (5 ∷ 6 ∷ 1 ∷ []))
    × (send_execute 1 (events (some 5 ∷ some 6 ∷ [])) ≡ map some (5 ∷ 6 ∷ 1 ∷ []))
    × ((q : WorkerThreadPool) × CallsAlone 0 pool q
        × (q.job_queue ≡ 8 ∷ 5 ∷ 6 ∷ 1 ∷ [])
        × (q.callers 0 ≡ free))
unfolding reported jobs_of
execute_alone_example =
    execute_alone pool 0 1 (events (some 5 ∷ some 6 ∷ [])) (unfold started in refl)
      ((λ e. cc), ((λ e. cc), tt))
