-- ===== src/AcceptJob.antt =====
-- The accept job (`AcceptJob` of src/lib-core/src/ServerJob.cpp): `Execute` accepts clients until the
-- listening socket has no more, and gives each that the server approves a session. The child holds
-- what the loop does to the table of sessions.
pub mod Loop
mod Tests
use my_server_project.Common.{
  ℕ, zero, suc, Bool, true, false, Option, none, some, List, [], ◌∷◌, ◌++◌, ◌>>=◌,
}
use my_server_project.SessionGroup.{SessionGroup, add_session, get_session}

-- The results of the `accept` calls of one `Execute`, each client with what `OnAccepeted` says of it:
-- a client and EINTR go on, EAGAIN and any other error end the loop.
pub data Accepts : Type 0 where
  accepted : ℕ → Bool → Accepts → Accepts
  interrupted : Accepts → Accepts
  again failed : Accepts

-- What `Execute` asks of the system and the server: `O_NONBLOCK` and `TCP_NODELAY`, the two epoll
-- registrations (with the session's index for its receive job), and `OnConnected` with an id.
pub data AcceptCall : Type 0 where
  closed nonblocking no_delay send_registered : ℕ → AcceptCall
  recv_registered : ℕ → ℕ → AcceptCall
  on_connected : ℕ → AcceptCall
  armed : ℕ → Option ℕ → AcceptCall

-- The calls for a client whose session was found, in their order.
abbrev pub connect_calls : ℕ → ℕ → ℕ → List AcceptCall
connect_calls fd index id =
    nonblocking fd
    ∷ no_delay fd
    ∷ send_registered fd
    ∷ recv_registered fd index
    ∷ on_connected id
    ∷ []

-- `session->GetRecvJob()` on what `GetSession` found; `none` is undefined behaviour.
unfoldable pub with_found :
    ℕ → ℕ → Option (Option ℕ) → SessionGroup → Option (List AcceptCall × SessionGroup)
with_found fd id none g = none
with_found fd id (some none) g = none
with_found fd id (some (some index)) g = some (connect_calls fd index id, g)

-- After `AddSession`.
unfoldable pub connect_added :
    ℕ → Option (ℕ × SessionGroup) → Option (List AcceptCall × SessionGroup)
unfolding with_found
connect_added fd none = none
connect_added fd (some (id, g)) = with_found fd id (get_session g id) g

-- One client.
unfoldable pub handle_client : SessionGroup → ℕ → Bool → Option (List AcceptCall × SessionGroup)
unfolding connect_added
handle_client g fd false = some (closed fd ∷ [], g)
handle_client g fd true = connect_added fd (add_session g fd)

unfoldable pub prepend :
    List AcceptCall
    → Option (List AcceptCall × SessionGroup)
    → Option (List AcceptCall × SessionGroup)
prepend calls none = none
prepend calls (some (more, g)) = some (calls ++ more, g)

-- The loop; `Execute` returns true after it.
unfoldable pub execute : SessionGroup → Accepts → Option (List AcceptCall × SessionGroup)
unfolding handle_client prepend
execute g (accepted fd approved rest) =
    handle_client g fd approved >>= λ (calls, h). prepend calls (execute h rest)
execute g (interrupted rest) = execute g rest
execute g again = some ([], g)
execute g failed = some ([], g)

-- `Complete`, with the epoll and the listening descriptor.
unfoldable pub complete : ℕ → Option ℕ → List AcceptCall
complete epoll listen = armed epoll listen ∷ []

unfoldable pub append_calls :
    List AcceptCall
    → Option (List AcceptCall × SessionGroup)
    → Option (List AcceptCall × SessionGroup)
append_calls last none = none
append_calls last (some (calls, g)) = some (calls ++ last, g)

-- What a worker does with the job; `Execute` always returns true.
unfoldable pub run_job :
    ℕ → Option ℕ → SessionGroup → Accepts → Option (List AcceptCall × SessionGroup)
unfolding execute complete append_calls
run_job epoll listen g w = append_calls (complete epoll listen) (execute g w)
