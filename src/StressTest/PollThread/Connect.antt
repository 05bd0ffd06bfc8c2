-- ===== src/StressTest/PollThread/Connect.antt =====
-- `ConnectClients` and `Run` (src/exe-StressTest/PollThread.cpp). A client's session is made from what
-- lay in the storage of its rings and from the tick of the clock.
use my_server_project.Common.{
  ℕ, zero, suc, ◌+◌, Bool, true, false, Option, none, some, List, [], ◌∷◌, ◌++◌, ◌==◌,
  if◌then◌else◌, ◌>>=◌, length,
}
use my_server_project.RecvBuffer.{RecvBuffer}
use my_server_project.StressTest
use my_server_project.StressTest.{EchoSession}
use my_server_project.StressTest.PollThread.{PollThread, Table, Round, create, find_client, turns}

pub record Fresh : Type 0 where
  pub raw_recv : RecvBuffer
  pub raw_send : RecvBuffer
  pub tick : List ℕ

-- `insert`, by what is found under the socket: it keeps an entry that is there.
unfoldable pub insert_at : Option EchoSession → Table → ℕ → EchoSession → Table
insert_at (some old) t fd s = t
insert_at none t fd s = (fd, s) ∷ t

unfoldable pub insert_client : Table → ℕ → EchoSession → Table
unfolding insert_at
insert_client t fd s = insert_at (find_client t fd) t fd s

-- A connected socket: it is inserted with a new session, and counted.
unfoldable pub add_client : (ℕ → Fresh) → PollThread → ℕ → Option PollThread
unfolding insert_client
add_client fresh p fd =
    let f = fresh fd in
    StressTest.construct f.raw_recv f.raw_send f.tick >>= λ s. some (record p {
      current_client_count = suc p.current_client_count;
      poll_fds = insert_client p.poll_fds fd s;
    })

-- `nonblockMode`, which `ioctlsocket` is given with FIONBIO: 0, a blocking socket.
unfoldable pub nonblock_mode : ℕ
nonblock_mode = 0

-- What `socket` and `connect` answer: no socket, or one that is connected, is under way, or failed. One
-- that failed is not closed.
pub data Connect : Type 0 where
  no_socket : Connect
  connected pending refused : ℕ → Connect

-- One pass of the first loop; the list is `connectPollFDs`.
unfoldable pub connect_one :
    (ℕ → Fresh) → PollThread → List ℕ → Connect → Option (PollThread × List ℕ)
unfolding add_client
connect_one fresh p fds no_socket = some (p, fds)
connect_one fresh p fds (connected fd) = add_client fresh p fd >>= λ q. some (q, fds)
connect_one fresh p fds (pending fd) = some (p, fds ++ fd ∷ [])
connect_one fresh p fds (refused fd) = some (p, fds)

-- The first loop, with the passes left. What `connect` answers depends on the mode of the socket.
unfoldable pub connect_sockets :
    ℕ → (ℕ → Fresh) → (ℕ → ℕ → Connect) → ℕ → PollThread → List ℕ → Option (PollThread × List ℕ)
unfolding connect_one nonblock_mode
connect_sockets zero fresh outcome count p fds = some (p, fds)
connect_sockets (suc left) fresh outcome count p fds =
    connect_one fresh p fds (outcome nonblock_mode count) >>= λ (q, gs).
    connect_sockets left fresh outcome (suc count) q gs

-- What `WSAPoll` answers of the sockets under way: an error, a timeout, or a number and which sockets are
-- writable, with SO_ERROR 0 or not.
pub data ConnectPoll : Type 0 where
  poll_error timeout : ConnectPoll
  reported : ℕ → (ℕ → Option Bool) → ConnectPoll

unfoldable pub take_reported : (ℕ → Fresh) → PollThread → ℕ → Option Bool → Option PollThread
unfolding add_client
take_reported fresh p fd none = some p
take_reported fresh p fd (some true) = add_client fresh p fd
take_reported fresh p fd (some false) = some p

-- The inner loop over `connectPollFDs`, from which no socket is ever taken out.
unfoldable pub take_all_reported :
    (ℕ → Fresh) → PollThread → List ℕ → (ℕ → Option Bool) → Option PollThread
unfolding take_reported
take_all_reported fresh p [] writable = some p
take_all_reported fresh p (fd ∷ fds) writable =
    take_reported fresh p fd (writable fd) >>= λ q. take_all_reported fresh q fds writable

-- The body of the second loop: the thread, and `connectResult`.
unfoldable pub poll_pass :
    (ℕ → Fresh) → PollThread → List ℕ → ℕ → ConnectPoll → Option (PollThread × ℕ)
unfolding take_all_reported
poll_pass fresh p fds result poll_error = some (p, result)
poll_pass fresh p fds result timeout = some (p, result)
poll_pass fresh p fds result (reported n writable) =
    take_all_reported fresh p fds writable >>= λ q. some (q, result + n)

-- The second loop, with the passes left.
unfoldable pub connect_rounds :
    ℕ → (ℕ → Fresh) → (ℕ → ConnectPoll) → ℕ → PollThread → List ℕ → ℕ → Option PollThread
unfolding poll_pass
connect_rounds zero fresh polls i p fds result = some p
connect_rounds (suc left) fresh polls i p fds result =
    if result == length fds
    then some p
    else (poll_pass fresh p fds result (polls i) >>= λ (q, n).
        connect_rounds left fresh polls (suc i) q fds n)

-- `loopCount` goes from 0 to 5, so the second loop has six passes at most.
unfoldable pub connect_clients :
    (ℕ → Fresh) → (ℕ → ℕ → Connect) → (ℕ → ConnectPoll) → PollThread → Option PollThread
unfolding connect_sockets connect_rounds
connect_clients fresh outcome polls p =
    connect_sockets p.max_client_count fresh outcome 0 p [] >>= λ (q, fds).
    if length fds == 0 then some q else connect_rounds 6 fresh polls 0 q fds 0

-- `Run` of a new thread.
unfoldable pub run :
    ℕ
    → (ℕ → Fresh)
    → (ℕ → ℕ → Connect)
    → (ℕ → ConnectPoll)
    → List Round
    → (ℕ → ℕ → List ℕ)
    → Option PollThread
unfolding create connect_clients
run max_client_count fresh outcome polls rounds clock =
    connect_clients fresh outcome polls (create max_client_count) >>= λ p. turns p rounds clock
