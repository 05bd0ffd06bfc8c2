-- ===== src/Server.antt =====
-- The server (src/lib-core/src/Server.cpp and src/lib-core/include/core/Server.hpp): its descriptors,
-- its life from construction to destruction, and its calls of the session table. The children hold
-- what becomes of the descriptors, and what `Send` reaches.
pub mod Descriptors
pub mod Sends
mod Tests
use my_server_project.Common.{
  ℕ, zero, suc, Bool, true, false, not, Option, none, some, List, [], ◌∷◌, ◌++◌, ◌==◌,
  if◌then◌else◌,
}
use my_server_project.SessionGroup.{SessionGroup, get_session}
use my_server_project.Session.{Session, Writes, send}

-- A descriptor is `none` where the code has sINVALID_SOCKET_FD or sINVALID_ID, which are both -1.
abbrev pub Descriptor : Type 0
Descriptor = Option ℕ

-- What the server asks of the system, of the worker threads, and of the epoll descriptor.
pub data ServerCall : Type 0 where
  opened closed pool_started : ℕ → ServerCall
  pool_stopped poll_job_added : ServerCall
  accept_job_registered : Descriptor → Descriptor → ServerCall

-- What a pointer member holds; `indeterminate` is one that nothing was stored in yet.
pub data Pointer : Type 0 where
  indeterminate null object : Pointer

pub record Server : Type 0 where
  pub listen_fd : Descriptor
  pub epoll_fd : Descriptor
  pub send_poll_fd : Descriptor
  pub is_running : Bool
  pub worker_thread_pool : Pointer
  pub session_group : Pointer
  pub poll_job : Pointer
  pub accept_job : Pointer
  pub calls : List ServerCall

-- The results of the calls that `Start` makes of the system, those of `eventfd` and `pthread_create` by
-- the worker's index. Those of `fcntl`, of the last `epoll_ctl` and of the pool's `Start` are not
-- looked at, nor is that of `eventfd`.
pub record Results : Type 0 where
  pub epoll : Descriptor
  pub send_poll : Descriptor
  pub socket : Descriptor
  pub reuse_set : Bool
  pub bound : Bool
  pub listening : Bool
  pub event : ℕ → Descriptor
  pub thread_created : ℕ → Bool

-- The constructor: `mEpollFD`, `mSendPollFD`, `mPollJob` and `mAcceptJob` stay as they lie in storage.
unfoldable pub construct : Server → Server
construct raw = record raw {
  listen_fd = none;
  is_running = false;
  worker_thread_pool = null;
  session_group = null;
  calls = [];
}

-- The checks of `CreateListenSocket` after `socket`, with the calls made, newest first.
unfoldable pub prepare_socket : ℕ → Bool → Bool → Bool → Descriptor × List ServerCall
prepare_socket fd false bound listening = (none, closed fd ∷ opened fd ∷ [])
prepare_socket fd true false listening = (none, closed fd ∷ opened fd ∷ [])
prepare_socket fd true true false = (none, closed fd ∷ opened fd ∷ [])
prepare_socket fd true true true = (some fd, opened fd ∷ [])

unfoldable pub create_listen_socket : Descriptor → Results → Descriptor × List ServerCall
unfolding prepare_socket
create_listen_socket none r = (none, [])
create_listen_socket (some fd) r = prepare_socket fd r.reuse_set r.bound r.listening

abbrev pub open_if : Descriptor → List ServerCall → List ServerCall
open_if none calls = calls
open_if (some fd) calls = opened fd ∷ calls

-- The loop of `WorkerThreadPool::Start` from the worker `i` on, with the passes left: an event for each
-- thread, up to one that cannot be created.
unfoldable pub start_threads : ℕ → ℕ → Results → List ServerCall → List ServerCall
start_threads zero i r calls = calls
start_threads (suc left) i r calls =
    let made = open_if (r.event i) calls in
    let rest = start_threads left (suc i) r made in if r.thread_created i then rest else made

-- `Start` after both epoll descriptors are there, with the listening socket and its calls.
unfoldable pub start_jobs : Server → ℕ → Results → Descriptor × List ServerCall → Server
unfolding start_threads
start_jobs s workers r (fd, made) = record s {
  session_group = object;
  worker_thread_pool = object;
  listen_fd = fd;
  is_running = true;
  poll_job = object;
  accept_job = object;
  calls =
      accept_job_registered s.epoll_fd fd
      ∷ poll_job_added
      ∷ (made ++ start_threads workers 0 r (pool_started workers ∷ s.calls));
}

-- `Start` after the first `epoll_create1`, by the result of the second.
unfoldable pub start_send_poll : Server → ℕ → Results → Descriptor → Bool × Server
unfolding start_jobs create_listen_socket
start_send_poll s workers r none = (false, record s { send_poll_fd = none })
start_send_poll s workers r (some fd) = (
  true,
  start_jobs (record s { send_poll_fd = some fd; calls = opened fd ∷ s.calls }) workers r
      (create_listen_socket r.socket r),
)

-- By the result of the first `epoll_create1`.
unfoldable pub start_epoll : Server → ℕ → Results → Descriptor → Bool × Server
unfolding start_send_poll
start_epoll s workers r none = (false, record s { epoll_fd = none })
start_epoll s workers r (some fd) =
    start_send_poll (record s { epoll_fd = some fd; calls = opened fd ∷ s.calls }) workers r
      r.send_poll

unfoldable pub start : Server → ℕ → Results → Bool × Server
unfolding start_epoll
start s workers r = start_epoll s workers r r.epoll

abbrev pub close_if : Descriptor → List ServerCall → List ServerCall
close_if none calls = calls
close_if (some fd) calls = closed fd ∷ calls

unfoldable pub close_listen_socket : Server → Server
close_listen_socket s = record s { listen_fd = none; calls = close_if s.listen_fd s.calls }

-- `Stop` of a running server.
unfoldable pub stop_running : Server → Server
unfolding close_listen_socket
stop_running s =
    let t = close_listen_socket s in
    let u = close_listen_socket (record t { is_running = false }) in
    record u {
      epoll_fd = none;
      send_poll_fd = none;
      calls = pool_stopped ∷ close_if u.send_poll_fd (close_if u.epoll_fd u.calls);
    }

unfoldable pub stop : Server → Server
unfolding stop_running
stop s = if s.is_running then stop_running s else s

-- `if (p != nullptr) { delete p; p = nullptr; }`: undefined on an indeterminate pointer.
unfoldable pub release : Pointer → Option Pointer
release indeterminate = none
release null = some null
release object = some null

unfoldable pub both_released : Option Pointer → Option Pointer → Server → Option Server
both_released (some p) (some q) s = some (record s { poll_job = p; accept_job = q })
both_released none q s = none
both_released (some p) none s = none

unfoldable pub pool_released : Option Pointer → Option Pointer → Server → Option Server
pool_released (some p) (some q) s = some (record s { worker_thread_pool = p; session_group = q })
pool_released none q s = none
pool_released (some p) none s = none

-- The deletions of the destructor.
unfoldable pub delete_all : Server → Option Server
unfolding release both_released pool_released
delete_all t = elim (both_released (release t.poll_job) (release t.accept_job) t) [
  | none ↦ none
  | some u ↦ pool_released (release u.worker_thread_pool) (release u.session_group) u
]

-- The destructor; `none` is undefined behaviour.
unfoldable pub destroy : Server → Option Server
unfolding stop delete_all
destroy s = delete_all (stop s)

-- `mSessionGroup`'s sessions by index. The inner `none` of `GetSession` is a null pointer.
unfoldable pub send_to : Option ℕ → (ℕ → Session) → Option (List ℕ) → Writes → ℕ → Session
unfolding send
send_to none sessions buffer w = sessions
send_to (some i) sessions buffer w = λ k. if k == i then send (sessions i) buffer w else sessions k

-- `Server::Send`; `none` is the undefined behaviour of `GetSession`.
unfoldable pub server_send :
    SessionGroup → (ℕ → Session) → ℕ → Option (List ℕ) → Writes → Option (ℕ → Session)
unfolding get_session send_to
server_send g sessions id buffer w = elim (get_session g id) [
  | none ↦ none
  | some found ↦ some (send_to found sessions buffer w)
]
