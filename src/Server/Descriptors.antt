-- ===== src/Server/Descriptors.antt =====
-- What becomes of the descriptors that a server opens.
use my_server_project.Common.{
  ℕ, zero, suc, ◌+◌, ◌≡◌, refl, ap, ap₂, ◌∙◌, Bool, true, false, none, some, List, [], ◌∷◌, ◌++◌,
  ◌==◌, if◌then◌else◌, arith,
}
use my_server_project.Server.{
  Server, ServerCall, opened, closed, pool_started, pool_stopped, poll_job_added,
  accept_job_registered, Descriptor, Results, construct, prepare_socket, create_listen_socket,
  open_if, start_threads, start_jobs, start_send_poll, start_epoll, start, close_listen_socket,
  stop_running, stop, delete_all, destroy,
}

-- 1 where the numbers agree.
unfoldable pub same : ℕ → ℕ → ℕ
same a b = if a == b then 1 else 0

-- How often a descriptor was opened, and how often it was closed.
pub opens : ℕ → List ServerCall → ℕ
opens k [] = 0
opens k (opened fd ∷ cs) = same fd k + opens k cs
opens k (closed fd ∷ cs) = opens k cs
opens k (pool_started n ∷ cs) = opens k cs
opens k (pool_stopped ∷ cs) = opens k cs
opens k (poll_job_added ∷ cs) = opens k cs
opens k (accept_job_registered e fd ∷ cs) = opens k cs

pub closes : ℕ → List ServerCall → ℕ
closes k [] = 0
closes k (closed fd ∷ cs) = same fd k + closes k cs
closes k (opened fd ∷ cs) = closes k cs
closes k (pool_started n ∷ cs) = closes k cs
closes k (pool_stopped ∷ cs) = closes k cs
closes k (poll_job_added ∷ cs) = closes k cs
closes k (accept_job_registered e fd ∷ cs) = closes k cs

-- How often a number is in a list.
pub count : ℕ → List ℕ → ℕ
count k [] = 0
count k (x ∷ xs) = same x k + count k xs

abbrev pub with_event : Descriptor → List ℕ → List ℕ
with_event none fds = fds
with_event (some fd) fds = fd ∷ fds

-- The events of `left` workers from `i` on: one for each thread, the first that cannot be created included.
unfoldable pub events : ℕ → ℕ → Results → List ℕ
events zero i r = []
events (suc left) i r =
    let rest = events left (suc i) r in
    with_event (r.event i) (if r.thread_created i then rest else [])

-- The descriptors that nothing closes: the first epoll descriptor where the second could not be had, and
-- the workers' events where both could.
abbrev pub left_open : Descriptor → Descriptor → List ℕ → List ℕ
left_open none second fds = []
left_open (some fd) none fds = fd ∷ []
left_open (some fd) (some second) fds = fds

open_if-opens :
    (k : ℕ) (o : Descriptor) (fds : List ℕ) (calls : List ServerCall)
    → opens k (open_if o calls) + count k fds ≡ opens k calls + count k (with_event o fds)
unfolding opens count
open_if-opens k none fds calls = refl
open_if-opens k (some fd) fds calls = omega arith

open_if-closes :
    (k : ℕ) (o : Descriptor) (calls : List ServerCall) → closes k (open_if o calls) ≡ closes k calls
unfolding closes
open_if-closes k none calls = refl
open_if-closes k (some fd) calls = refl

-- By whether a thread was created.
branch_opens :
    (b : Bool) (k n : ℕ) (o : Descriptor) (fds : List ℕ) (rest calls : List ServerCall)
    → opens k rest ≡ opens k (open_if o calls) + count k fds
    → opens k (if b then rest else open_if o calls)
      ≡ opens k calls + count k (with_event o (if b then fds else []))
unfolding count
branch_opens true k n o fds rest calls e = e ∙ open_if-opens k o fds calls
branch_opens false k n o fds rest calls e = omega (arith, open_if-opens k o [] calls)

start_threads-opens :
    (left i k : ℕ) (r : Results) (calls : List ServerCall)
    → opens k (start_threads left i r calls) ≡ opens k calls + count k (events left i r)
unfolding start_threads events
start_threads-opens zero i k r calls = unfold count in omega arith
start_threads-opens (suc left) i k r calls =
    branch_opens (r.thread_created i) k i (r.event i) (events left (suc i) r)
      (start_threads left (suc i) r (open_if (r.event i) calls)) calls
      (start_threads-opens left (suc i) k r (open_if (r.event i) calls))

branch_closes :
    (b : Bool) (k : ℕ) (rest made : List ServerCall)
    → closes k rest ≡ closes k made
    → closes k (if b then rest else made) ≡ closes k made
branch_closes true k rest made e = e
branch_closes false k rest made e = refl

start_threads-closes :
    (left i k : ℕ) (r : Results) (calls : List ServerCall)
    → closes k (start_threads left i r calls) ≡ closes k calls
unfolding start_threads
start_threads-closes zero i k r calls = refl
start_threads-closes (suc left) i k r calls =
    let made = open_if (r.event i) calls in
    branch_closes (r.thread_created i) k (start_threads left (suc i) r made) made
      (start_threads-closes left (suc i) k r made)
    ∙ open_if-closes k (r.event i) calls

abbrev answers :
    Descriptor
    → Descriptor
    → Descriptor
    → Bool
    → Bool
    → Bool
    → (ℕ → Descriptor)
    → (ℕ → Bool)
    → Results
answers epoll send_poll socket reuse bound listening event created = record {
  epoll = epoll;
  send_poll = send_poll;
  socket = socket;
  reuse_set = reuse;
  bound = bound;
  listening = listening;
  event = event;
  thread_created = created;
}

-- The same by the system's answers.
balance :
    (raw : Server) (workers k : ℕ) (epoll send_poll socket : Descriptor)
    (reuse bound listening : Bool) (event : ℕ → Descriptor) (created : ℕ → Bool)
    → let r = answers epoll send_poll socket reuse bound listening event created in
      let s = stop (start (construct raw) workers r).1 in
      opens k s.calls ≡ closes k s.calls + count k (left_open epoll send_poll (events workers 0 r))
unfolding start start_epoll start_send_poll start_jobs create_listen_socket prepare_socket construct
    stop stop_running close_listen_socket opens closes count
balance raw workers k none p so b c d ev th = refl
balance raw workers k (some e) none so b c d ev th = omega arith
balance raw workers k (some e) (some p) none b c d ev th = omega (
  arith,
  start_threads-opens workers 0 k (answers (some e) (some p) none b c d ev th)
      (pool_started workers ∷ opened p ∷ opened e ∷ []),
  start_threads-closes workers 0 k (answers (some e) (some p) none b c d ev th)
      (pool_started workers ∷ opened p ∷ opened e ∷ []),
)
balance raw workers k (some e) (some p) (some l) false c d ev th = omega (
  arith,
  start_threads-opens workers 0 k (answers (some e) (some p) (some l) false c d ev th)
      (pool_started workers ∷ opened p ∷ opened e ∷ []),
  start_threads-closes workers 0 k (answers (some e) (some p) (some l) false c d ev th)
      (pool_started workers ∷ opened p ∷ opened e ∷ []),
)
balance raw workers k (some e) (some p) (some l) true false d ev th = omega (
  arith,
  start_threads-opens workers 0 k (answers (some e) (some p) (some l) true false d ev th)
      (pool_started workers ∷ opened p ∷ opened e ∷ []),
  start_threads-closes workers 0 k (answers (some e) (some p) (some l) true false d ev th)
      (pool_started workers ∷ opened p ∷ opened e ∷ []),
)
balance raw workers k (some e) (some p) (some l) true true false ev th = omega (
  arith,
  start_threads-opens workers 0 k (answers (some e) (some p) (some l) true true false ev th)
      (pool_started workers ∷ opened p ∷ opened e ∷ []),
  start_threads-closes workers 0 k (answers (some e) (some p) (some l) true true false ev th)
      (pool_started workers ∷ opened p ∷ opened e ∷ []),
)
balance raw workers k (some e) (some p) (some l) true true true ev th = omega (
  arith,
  start_threads-opens workers 0 k (answers (some e) (some p) (some l) true true true ev th)
      (pool_started workers ∷ opened p ∷ opened e ∷ []),
  start_threads-closes workers 0 k (answers (some e) (some p) (some l) true true true ev th)
      (pool_started workers ∷ opened p ∷ opened e ∷ []),
)

-- Whatever the system answers, a new server that is started and stopped has closed each descriptor as
-- often as it was opened, but for two kinds that stay open: the first epoll descriptor where the second
-- could not be had, and otherwise the event of each worker, up to the first worker whose thread could
-- not be created.
pub start-stop :
    (raw : Server) (workers : ℕ) (r : Results) (k : ℕ)
    → let s = stop (start (construct raw) workers r).1 in
      opens k s.calls
      ≡ closes k s.calls + count k (left_open r.epoll r.send_poll (events workers 0 r))
start-stop raw workers r k =
    balance raw workers k r.epoll r.send_poll r.socket r.reuse_set r.bound r.listening r.event
      r.thread_created

without_socket :
    (s : Server) (workers epoll : ℕ) (r : Results) (made : Descriptor × List ServerCall)
    → s.epoll_fd ≡ some epoll
    → made.0 ≡ none
    → let t = start_jobs s workers r made in
      (t.is_running ≡ true)
      × (t.listen_fd ≡ none)
      × ((rest : List ServerCall) × (t.calls ≡ accept_job_registered (some epoll) none ∷ rest))
unfolding start_jobs
without_socket s workers epoll r (fd, made) e n = (
  refl,
  n,
  (
    poll_job_added ∷ (made ++ start_threads workers 0 r (pool_started workers ∷ s.calls)),
    ap₂
        (λ a b.
          accept_job_registered a b
          ∷ poll_job_added
          ∷ (made ++ start_threads workers 0 r (pool_started workers ∷ s.calls)))
        e n,
  ),
)

-- The server with both epoll descriptors.
abbrev with_epolls : Server → ℕ → ℕ → Server
with_epolls s epoll send_poll = record s {
  epoll_fd = some epoll;
  send_poll_fd = some send_poll;
  calls = opened send_poll ∷ opened epoll ∷ s.calls;
}

start_epolls :
    (s : Server) (workers epoll send_poll : ℕ) (r : Results)
    → r.epoll ≡ some epoll
    → r.send_poll ≡ some send_poll
    → start s workers r ≡ (
      true,
      start_jobs (with_epolls s epoll send_poll) workers r (create_listen_socket r.socket r),
    )
unfolding start start_epoll start_send_poll
start_epolls s workers epoll send_poll r first second =
    ap (start_epoll s workers r) first
    ∙ ap
        (start_send_poll (record s { epoll_fd = some epoll; calls = opened epoll ∷ s.calls })
          workers r)
        second

-- When the listening socket cannot be had, `Start` still returns true: the server runs without one,
-- and the accept job is registered on the invalid descriptor.
pub start_without_socket :
    (s : Server) (workers epoll send_poll : ℕ) (r : Results)
    → r.epoll ≡ some epoll
    → r.send_poll ≡ some send_poll
    → (create_listen_socket r.socket r).0 ≡ none
    → let (started, t) = start s workers r in
      (started ≡ true)
      × (t.is_running ≡ true)
      × (t.listen_fd ≡ none)
      × ((rest : List ServerCall) × (t.calls ≡ accept_job_registered (some epoll) none ∷ rest))
start_without_socket s workers epoll send_poll r first second no_socket =
    let (running, no_listen, registered) =
      without_socket (with_epolls s epoll send_poll) workers epoll r
        (create_listen_socket r.socket r) refl no_socket in
    rw (start_epolls s workers epoll send_poll r first second)
      (refl, running, no_listen, registered)

stop_if : Bool → Server → Server
stop_if b s = if b then stop_running s else s

stop_twice : (b : Bool) (s : Server) → s.is_running ≡ b → stop (stop_if b s) ≡ stop_if b s
unfolding stop_if stop stop_running close_listen_socket
stop_twice true s e = refl
stop_twice false s e = ap (λ b. if b then stop_running s else s) e

stop_again : (s : Server) → stop (stop s) ≡ stop s
unfolding stop stop_if
stop_again s = stop_twice s.is_running s refl

-- Stopping a stopped server changes nothing, so a server that is stopped and then destroyed comes to
-- the same as one that is destroyed as it is.
pub destroy_after_stop : (s : Server) → destroy (stop s) ≡ destroy s
unfolding destroy
destroy_after_stop s = ap delete_all (stop_again s)
