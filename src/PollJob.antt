-- ===== src/PollJob.antt =====
-- The poll jobs (`PollJob` and `SendPollJob` of src/lib-core/src/ServerJob.cpp): a wait for events,
-- whose jobs are added to the worker threads, and then the poll job itself again.
pub mod Rounds
mod Tests
use my_server_project.Common.{ℕ, zero, suc, Option, none, some, List, [], ◌∷◌, ◌++◌}

-- The result of the one `epoll_wait`: the `data.ptr` of each event, or an error. `none` is a null
-- pointer.
pub data Polled : Type 0 where
  events : List (Option ℕ) → Polled
  interrupted failed : Polled

-- The loop of `PollJob` over the events: what it passes to `AddJob`.
unfoldable pub add_events : List (Option ℕ) → List (Option ℕ)
add_events [] = []
add_events (job ∷ es) = job ∷ add_events es

-- The loop of `SendPollJob`, which passes over null pointers.
unfoldable pub add_send_events : List (Option ℕ) → List (Option ℕ)
add_send_events [] = []
add_send_events (none ∷ es) = add_send_events es
add_send_events (some job ∷ es) = some job ∷ add_send_events es

-- The arguments of the calls of `AddJob` that `Execute` makes, in their order. In a
-- `do … while (false)` the `continue` after EINTR ends the loop.
unfoldable pub execute : ℕ → Polled → List (Option ℕ)
unfolding add_events
execute self (events es) = add_events es ++ some self ∷ []
execute self interrupted = some self ∷ []
execute self failed = some self ∷ []

unfoldable pub send_execute : ℕ → Polled → List (Option ℕ)
unfolding add_send_events
send_execute self (events es) = add_send_events es ++ some self ∷ []
send_execute self interrupted = some self ∷ []
send_execute self failed = some self ∷ []
