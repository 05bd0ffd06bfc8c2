-- ===== src/PollJob/Rounds.antt =====
-- What the poll jobs do to the queue of the worker threads.
use my_server_project.Common.{
  ℕ, ◌≡◌, ◌≢◌, All, refl, ap, sym, ◌∙◌, Option, none, some, List, [], ◌∷◌, ◌++◌, map,
}
use mathlib.Core.List.{map-append}
use my_server_project.WorkerThreadPool.{WorkerThreadPool, free}
use my_server_project.WorkerThreadPool.Steps.{CallsAlone}
use my_server_project.WorkerThreadPool.Alone.{add_jobs_alone}
use my_server_project.PollJob.{
  Polled, events, interrupted, failed, add_events, add_send_events, execute, send_execute,
}

-- The jobs among the pointers of events, and of a result.
unfoldable pub jobs_of : List (Option ℕ) → List ℕ
jobs_of [] = []
jobs_of (none ∷ es) = jobs_of es
jobs_of (some job ∷ es) = job ∷ jobs_of es

unfoldable pub reported : Polled → List ℕ
unfolding jobs_of
reported (events es) = jobs_of es
reported interrupted = []
reported failed = []

-- No event has a null pointer.
abbrev pub HasJobs : Polled → Type 0
HasJobs (events es) = All (λ o. o ≢ none) es
HasJobs interrupted = Unit {0}
HasJobs failed = Unit {0}

add_events_lem :
    (es : List (Option ℕ)) → All (λ o. o ≢ none) es → add_events es ≡ map some (jobs_of es)
unfolding add_events jobs_of
add_events_lem [] h = refl
add_events_lem (none ∷ es) h = absurd (h.0 refl)
add_events_lem (some job ∷ es) h = ap (λ xs. some job ∷ xs) (add_events_lem es h.1)

add_send_events_lem : (es : List (Option ℕ)) → add_send_events es ≡ map some (jobs_of es)
unfolding add_send_events jobs_of
add_send_events_lem [] = refl
add_send_events_lem (none ∷ es) = add_send_events_lem es
add_send_events_lem (some job ∷ es) = ap (λ xs. some job ∷ xs) (add_send_events_lem es)

with_self :
    (self : ℕ) (jobs : List ℕ) → map some jobs ++ some self ∷ [] ≡ map some (jobs ++ self ∷ [])
with_self self jobs = sym (map-append some jobs (self ∷ []))

execute_lem :
    (self : ℕ) (r : Polled) → HasJobs r → execute self r ≡ map some (reported r ++ self ∷ [])
unfolding execute reported
execute_lem self (events es) h =
    ap (λ xs. xs ++ some self ∷ []) (add_events_lem es h) ∙ with_self self (jobs_of es)
execute_lem self interrupted h = refl
execute_lem self failed h = refl

send_execute_lem :
    (self : ℕ) (r : Polled) → send_execute self r ≡ map some (reported r ++ self ∷ [])
unfolding send_execute reported
send_execute_lem self (events es) =
    ap (λ xs. xs ++ some self ∷ []) (add_send_events_lem es) ∙ with_self self (jobs_of es)
send_execute_lem self interrupted = refl
send_execute_lem self failed = refl

-- When each reported event has a job, both poll jobs pass to `AddJob` the reported jobs in their order
-- and then the poll job itself, which alone is passed after an error, EINTR included. Steps of the
-- caller alone take it through those calls: the queue has then gained the reported jobs in their order
-- and after them the poll job, at its end, and the caller is outside of `AddJob` again.
pub execute_alone :
    (p : WorkerThreadPool) (c self : ℕ) (r : Polled)
    → p.callers c ≡ free
    → HasJobs r
    → (execute self r ≡ map some (reported r ++ self ∷ []))
      × (send_execute self r ≡ map some (reported r ++ self ∷ []))
      × ((q : WorkerThreadPool) × CallsAlone c p q
          × (q.job_queue ≡ p.job_queue ++ (reported r ++ self ∷ []))
          × (q.callers c ≡ free))
execute_alone p c self r outside h = (
  execute_lem self r h,
  send_execute_lem self r,
  add_jobs_alone (reported r ++ self ∷ []) p c outside,
)
