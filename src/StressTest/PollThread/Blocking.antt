-- ===== src/StressTest/PollThread/Blocking.antt =====
-- What `ConnectClients` comes to with the mode that it gives its sockets, in which `connect` waits.
use my_server_project.Common.{ℕ, zero, suc, ◌≡◌, List, [], ◌∷◌, length}
use my_server_project.StressTest.PollThread.{PollThread, sockets}
use my_server_project.StressTest.PollThread.Connect.{
  Connect, no_socket, connected, pending, refused,
}

abbrev pub with_connected : Connect → List ℕ → List ℕ
with_connected no_socket fds = fds
with_connected (connected fd) fds = fd ∷ fds
with_connected (pending fd) fds = fds
with_connected (refused fd) fds = fds

-- The sockets that the first `n` answers connect, newest first.
pub connected_before : (ℕ → Connect) → ℕ → List ℕ
connected_before o zero = []
connected_before o (suc n) = with_connected (o n) (connected_before o n)

-- Each answer connects another socket.
abbrev pub IsInjective : (ℕ → Connect) → Type 0
IsInjective o = (i j fd : ℕ) → o i ≡ connected fd → o j ≡ connected fd → i ≡ j

-- After `n` passes of the first loop.
abbrev IsCounted : (ℕ → Connect) → ℕ → PollThread → Type 0
IsCounted o n p =
    (sockets p.poll_fds ≡ connected_before o n)
    × (p.current_client_count ≡ length (connected_before o n))
