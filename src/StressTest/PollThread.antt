-- ===== src/StressTest/PollThread.antt =====
-- A thread of the stress client (src/exe-StressTest/PollThread.cpp): it connects clients and serves their
-- sessions. What `socket`, `connect`, `WSAPoll`, `recv` and `send` answer is given. The children hold a
-- turn of the loop, and what connecting counts.
pub mod Table
pub mod Serving
pub mod Settling
pub mod Turns
pub mod Connect
pub mod Counts
pub mod Runs
pub mod Blocking
mod Tests
use my_server_project.Common.{
  ℕ, zero, suc, ◌+◌, ◌<◌, Bool, true, false, not, ◌||◌, Option, none, some, List, [], ◌∷◌, ◌++◌,
  ltb, ◌==◌, if◌then◌else◌, ◌>>=◌,
}
use my_server_project.RecvBuffer.{RecvBuffer}
use my_server_project.StressTest.{EchoSession, RecvResult, SendResult, do_recv, do_send, construct}

-- `mIsRunning`, `mMaxClientCount`, `mCurrentClientCount` and `mPollFDs`, and the sockets that were
-- closed, by the thread or by a session that is gone, newest first.
pub record PollThread : Type 0 where
  pub is_running : Bool
  pub max_client_count : ℕ
  pub current_client_count : ℕ
  pub poll_fds : List (ℕ × EchoSession)
  pub closed : List ℕ

unfoldable pub create : ℕ → PollThread
create max_client_count = record {
  is_running = true;
  max_client_count = max_client_count;
  current_client_count = 0;
  poll_fds = [];
  closed = [];
}

abbrev pub Table : Type 0
Table = List (ℕ × EchoSession)

unfoldable pub find_client : Table → ℕ → Option EchoSession
find_client [] fd = none
find_client ((k, s) ∷ rest) fd = if k == fd then some s else find_client rest fd

unfoldable pub set_client : Table → ℕ → EchoSession → Table
set_client [] fd s = []
set_client ((k, old) ∷ rest) fd s =
    let later = set_client rest fd s in if k == fd then (k, s) ∷ rest else (k, old) ∷ later

unfoldable pub erase_client : Table → ℕ → Table
erase_client [] fd = []
erase_client ((k, s) ∷ rest) fd =
    let later = erase_client rest fd in if k == fd then rest else (k, s) ∷ later

-- What `WSAPoll` reports of a socket, with what `recv` and `send` then answer: POLLRDNORM, POLLWRNORM and
-- POLLERR.
pub record Ready : Type 0 where
  pub readable : Option RecvResult
  pub writable : Option SendResult
  pub error : Bool

unfoldable pub receive_if :
    EchoSession → Option RecvResult → (ℕ → List ℕ) → Option (Bool × EchoSession)
receive_if s none clock = some (true, s)
receive_if s (some r) clock = do_recv s r clock

unfoldable pub send_if : EchoSession → Option SendResult → Bool × EchoSession
send_if s none = (true, s)
send_if s (some r) = let (ok, wire, t) = do_send s r in (ok, t)

-- `DoRecv` and `DoSend` of a client: both results, and the session.
unfoldable pub serve : EchoSession → Ready → (ℕ → List ℕ) → Option (Bool × Bool × EchoSession)
unfolding receive_if send_if
serve s r clock = receive_if s r.readable clock >>= λ (recv_result, t).
    let (send_result, u) = send_if t r.writable in some (recv_result, send_result, u)

abbrev pub copies : ℕ → ℕ → List ℕ
copies zero fd = []
copies (suc n) fd = fd ∷ copies n fd

-- The end of the loop's body: an error closes the socket and drops the client, a failure drops it.
unfoldable pub settle : PollThread → ℕ → Bool → Bool × Bool × EchoSession → PollThread
unfolding set_client erase_client
settle p fd true (recv_result, send_result, s) = record p {
  closed = fd ∷ copies s.closes fd ++ p.closed;
  poll_fds = erase_client p.poll_fds fd;
}
settle p fd false (recv_result, send_result, s) =
    if not send_result || not recv_result
    then record p { closed = copies s.closes fd ++ p.closed; poll_fds = erase_client p.poll_fds fd }
    else record p { poll_fds = set_client p.poll_fds fd s }

-- The body of the loop over the polled sockets; a socket that is not in the map is undefined behaviour.
unfoldable pub poll_client : PollThread → ℕ → Ready → (ℕ → List ℕ) → Option PollThread
unfolding find_client serve settle
poll_client p fd r clock =
    find_client p.poll_fds fd >>= λ s. serve s r clock >>= λ o. some (settle p fd r.error o)

unfoldable pub poll_clients :
    PollThread → List ℕ → (ℕ → Ready) → (ℕ → ℕ → List ℕ) → Option PollThread
unfolding poll_client
poll_clients p [] ready clock = some p
poll_clients p (fd ∷ fds) ready clock =
    poll_client p fd (ready fd) (clock fd) >>= λ q. poll_clients q fds ready clock

abbrev pub sockets : Table → List ℕ
sockets [] = []
sockets ((fd, s) ∷ rest) = fd ∷ sockets rest

-- `Loop`; `none` is SOCKET_ERROR. The clock is that of each session's turn.
unfoldable pub loop : PollThread → Option (ℕ → Ready) → (ℕ → ℕ → List ℕ) → Option PollThread
unfolding poll_clients
loop p none clock = some p
loop p (some ready) clock = poll_clients p (sockets p.poll_fds) ready clock

-- `Clear`; INVALID_SOCKET is never in the map, since only sockets made are inserted.
unfoldable pub clear : PollThread → PollThread
clear p = record p { closed = sockets p.poll_fds ++ p.closed; poll_fds = [] }

unfoldable pub stop : PollThread → PollThread
stop p = record p { is_running = false }

-- What comes next for the loop of `Run`: a turn, with what `WSAPoll` answers, or another thread's `Stop`.
pub data Round : Type 0 where
  turn : Option (ℕ → Ready) → Round
  stop_called : Round

-- The loop's test with nothing to come: a thread that runs stays in the loop, one that does not clears.
unfoldable pub end_turns : PollThread → PollThread
unfolding clear
end_turns p = if p.is_running then p else clear p

-- The loop of `Run`, turn after turn while the flag is on, and `Clear`.
unfoldable pub turns : PollThread → List Round → (ℕ → ℕ → List ℕ) → Option PollThread
unfolding loop clear end_turns stop
turns p [] clock = some (end_turns p)
turns p (stop_called ∷ rs) clock = turns (stop p) rs clock
turns p (turn r ∷ rs) clock =
    let rest = loop p r clock >>= λ q. turns q rs clock in
    if p.is_running then rest else some (clear p)
