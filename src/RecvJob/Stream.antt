-- ===== src/RecvJob/Stream.antt =====
-- The bytes of a connection through the receive job: what is received and not yet read stays in the
-- buffer, in order.
use my_server_project.Common.{
  ℕ, zero, suc, ◌<◌, ◌≤◌, ◌≡◌, ◌∙◌, refl, sym, ap, Bool, true, false, Option, none, some, List, [],
  ◌∷◌, ◌++◌, ltb, ◌==◌, append-nil, append_assoc, if◌then◌else◌, length, take, drop, arith, lt→ltb,
  Bool-cases, drop_all, load, inl, inr, take-append-drop, take-take,
}
use my_server_project.RecvBuffer.{
  RecvBuffer, get_used_size, get_direct_write_size, move_read_offset, reset,
}
use my_server_project.RecvBuffer.Bounds.{IsValid, sizes_agree, moves-IsValid}
use my_server_project.RecvBuffer.Contents.{contents, length-contents, span}
use my_server_project.RecvBuffer.InPlace.{fill, front_block, fill_lem, move_lem, front_block_lem}
use my_server_project.Session.{Session, Socket, emit, recv_poll_mod}
use my_server_project.Session.Closing.{disconnect_lem}
use my_server_project.RecvJob.{
  Recvs, received, interrupted, closed, again, reset_by_peer, failed, set_buffer, end_receive,
  recv_loop, execute_on, execute, OnRecv, consume, apply_read, hand_out, rearm, rearm_failed,
  complete, run_job,
}

-- The bytes that the calls of one `Execute` deliver.
pub arrived : Recvs → List ℕ
arrived (received xs rest) = xs ++ arrived rest
arrived (interrupted rest) = arrived rest
arrived closed = []
arrived again = []
arrived reset_by_peer = []
arrived failed = []

-- What `recv` keeps to: it delivers at most as many bytes as it is asked for, at least one.
abbrev pub Admits : RecvBuffer → Recvs → Type 0
Admits b (received xs rest) =
    (0 < length xs) × (length xs ≤ get_direct_write_size b) × Admits (fill b xs) rest
Admits b (interrupted rest) = Admits b rest
Admits b closed = Unit {0}
Admits b again = Unit {0}
Admits b reset_by_peer = Unit {0}
Admits b failed = Unit {0}

buffer-end_receive : (s : Session) → (end_receive s).recv_buffer ≡ s.recv_buffer
unfolding end_receive
buffer-end_receive s = rw (disconnect_lem (record s { is_recving = false }))

recv_loop_lem :
    (w : Recvs) (s : Session)
    → IsValid s.recv_buffer
    → Admits s.recv_buffer w
    → let t = (recv_loop s w).0 in
      (contents t.recv_buffer ≡ contents s.recv_buffer ++ arrived w) × IsValid t.recv_buffer
unfolding recv_loop arrived
recv_loop_lem (received xs rest) s v a =
    let (held, ok) = fill_lem s.recv_buffer xs v a.1 in
    let (rec, fine) = recv_loop_lem rest (set_buffer s (fill s.recv_buffer xs)) ok a.2 in
    (
      rec
          ∙ (ap (λ ys. ys ++ arrived rest) held
              ∙ append_assoc (contents s.recv_buffer) xs (arrived rest)),
      fine,
    )
recv_loop_lem (interrupted rest) s v a = recv_loop_lem rest s v a
recv_loop_lem closed s v a = (rw (buffer-end_receive s, append-nil), rw (buffer-end_receive s) v)
recv_loop_lem again s v a = (rw append-nil, v)
recv_loop_lem reset_by_peer s v a =
    (rw (buffer-end_receive s, append-nil), rw (buffer-end_receive s) v)
recv_loop_lem failed s v a = (rw append-nil, v)

pub execute_open :
    (w : Recvs) (s : Session) (fd : ℕ) → s.socket_fd ≡ some fd → execute s w ≡ recv_loop s w
unfolding execute execute_on
execute_open w s fd open_fd = ap (λ f. execute_on f s w) open_fd

-- `Execute` on an open session appends the bytes that arrived to the buffer and keeps it valid.
pub execute_lem :
    (w : Recvs) (s : Session) (fd : ℕ)
    → s.socket_fd ≡ some fd
    → IsValid s.recv_buffer
    → Admits s.recv_buffer w
    → let t = (execute s w).0 in
      (contents t.recv_buffer ≡ contents s.recv_buffer ++ arrived w) × IsValid t.recv_buffer
execute_lem w s fd open_fd v a = rw (execute_open w s fd open_fd) (recv_loop_lem w s v a)

contents-reset : (b : RecvBuffer) → contents (reset b) ≡ []
unfolding span reset load
contents-reset b = refl

-- Reading `n` of the used bytes drops them; the buffer starts over when it is empty.
consume_lem :
    (b : RecvBuffer) (n : ℕ)
    → IsValid b
    → n ≤ get_used_size b
    → (contents (consume b (get_used_size b) n) ≡ drop n (contents b))
      × IsValid (consume b (get_used_size b) n)
unfolding consume
consume_lem b zero v h = (refl, v)
consume_lem b (suc n) v h = elim (Bool-cases (suc n == get_used_size b)) [
  | inl all ↦
      let same : suc n ≡ get_used_size b = ground arith in
      rw (all, consume, lt→ltb 0 (suc n) (omega arith))
        (
          contents-reset (move_read_offset b (suc n))
              ∙ sym (drop_all (suc n) (contents b) (omega (arith, length-contents b v))),
          (moves-IsValid (move_read_offset b (suc n)) 0 (moves-IsValid b (suc n) v).1).0,
        )
  | inr part ↦ rw (part, consume, lt→ltb 0 (suc n) (omega arith)) (move_lem b (suc n) v h)
]

-- What the job relies on of the server's `OnRecv`: it reads no more than it is given, and leaves the
-- receive buffer to the job.
pub record Keeps (on_recv : OnRecv) : Type 0 where
  pub buffer_kept : (s : Session) (block : List ℕ) → (on_recv s block).1.recv_buffer ≡ s.recv_buffer
  pub reads_within :
      (s : Session) (block : List ℕ) (n : ℕ) → (on_recv s block).0 ≡ some n → n ≤ length block

-- The bytes that the server reads in one `Complete`.
abbrev pub taken_of : Option ℕ → List ℕ → List ℕ
taken_of none block = []
taken_of (some n) block = take n block

unfoldable pub read_bytes : OnRecv → Session → List ℕ
unfolding get_used_size front_block
read_bytes on_recv s =
    if ltb 0 (get_used_size s.recv_buffer)
    then taken_of (on_recv s (front_block s.recv_buffer)).0 (front_block s.recv_buffer)
    else []

buffer-rearm_failed : (fd : Socket) (s : Session) → (rearm_failed fd s).recv_buffer ≡ s.recv_buffer
unfolding rearm_failed
buffer-rearm_failed none s = buffer-end_receive s
buffer-rearm_failed (some fd) s = refl

buffer-rearm : (armed : Bool) (s : Session) → (rearm armed s).recv_buffer ≡ s.recv_buffer
unfolding rearm
buffer-rearm true s = refl
buffer-rearm false s = buffer-rearm_failed s.socket_fd (emit (recv_poll_mod s.socket_fd) s)

apply_read_lem :
    (b : RecvBuffer) (used : ℕ) (block : List ℕ) (r : Option ℕ) (s : Session)
    → IsValid b
    → s.recv_buffer ≡ b
    → get_used_size b ≡ used
    → block ≡ take (length block) (contents b)
    → length block ≤ used
    → ((n : ℕ) → r ≡ some n → n ≤ length block)
    → (taken_of r block ++ contents (apply_read used (r, s)).recv_buffer ≡ contents b)
      × IsValid (apply_read used (r, s)).recv_buffer
unfolding apply_read
apply_read_lem b used block none s v e u p l w = (rw e, rw e v)
apply_read_lem b used block (some n) s v e u p l w =
    let c = consume_lem b n v (omega (arith, w n refl)) in
    rw (e, ← u)
      (
        ap (λ xs. xs ++ contents (consume b (get_used_size b) n)) (prefix n (w n refl))
            ∙ (ap (◌++◌ (take n (contents b))) c.0 ∙ take-append-drop n (contents b)),
        c.1,
      )
  where
    prefix : (n : ℕ) → n ≤ length block → take n block ≡ take n (contents b)
    prefix n h = ap (take n) p ∙ take-take n (length block) (contents b) h

-- `Complete` takes what the server reads off the front of the buffer, and keeps the rest in order.
pub complete_lem :
    (on_recv : OnRecv) (armed : Bool) (s : Session)
    → Keeps on_recv
    → IsValid s.recv_buffer
    → (read_bytes on_recv s ++ contents (complete on_recv armed s).recv_buffer
        ≡ contents s.recv_buffer)
      × IsValid (complete on_recv armed s).recv_buffer
unfolding complete hand_out read_bytes
complete_lem on_recv armed s k v = elim (Bool-cases (ltb 0 (get_used_size s.recv_buffer))) [
  | inl some_used ↦
      let block = front_block s.recv_buffer in
      let facts = front_block_lem s.recv_buffer v in
      rw (some_used, hand_out, buffer-rearm)
        (apply_read_lem s.recv_buffer (get_used_size s.recv_buffer) block (on_recv s block).0
          (on_recv s block).1 v (k.buffer_kept s block) refl
          (facts.0 ∙ ap (λ m. take m (contents s.recv_buffer)) (sym facts.1))
          (omega (arith, facts.1, sizes_agree s.recv_buffer v)) (k.reads_within s block))
  | inr nothing ↦ rw (nothing, hand_out, buffer-rearm) (refl, v)
]

-- The bytes that the server reads in one turn of the job.
unfoldable pub turn_bytes : OnRecv → Session → Recvs → List ℕ
unfolding execute read_bytes
turn_bytes on_recv s w = let (t, more) = execute s w in if more then read_bytes on_recv t else []

pub run_job_lem :
    (on_recv : OnRecv) (armed : Bool) (s : Session) (w : Recvs) (fd : ℕ)
    → Keeps on_recv
    → s.socket_fd ≡ some fd
    → IsValid s.recv_buffer
    → Admits s.recv_buffer w
    → (turn_bytes on_recv s w ++ contents (run_job on_recv armed s w).recv_buffer
        ≡ contents s.recv_buffer ++ arrived w)
      × IsValid (run_job on_recv armed s w).recv_buffer
unfolding run_job turn_bytes
run_job_lem on_recv armed s w fd k open_fd v a =
    let done = execute_lem w s fd open_fd v a in
    elim (Bool-cases (execute s w).1) [
      | inl more ↦
          let rest = complete_lem on_recv armed (execute s w).0 k done.1 in
          rw (more, run_job) (rest.0 ∙ done.0, rest.1)
      | inr stop ↦ rw (stop, run_job) done
    ]

-- Turns of the job one after another, each with the results of its calls.
pub run_jobs : OnRecv → Session → List (Recvs × Bool) → Session
run_jobs on_recv s [] = s
run_jobs on_recv s ((w, armed) ∷ ws) = run_jobs on_recv (run_job on_recv armed s w) ws

unfoldable pub all_bytes : OnRecv → Session → List (Recvs × Bool) → List ℕ
unfolding turn_bytes
all_bytes on_recv s [] = []
all_bytes on_recv s ((w, armed) ∷ ws) =
    turn_bytes on_recv s w ++ all_bytes on_recv (run_job on_recv armed s w) ws

pub all_arrived : List (Recvs × Bool) → List ℕ
all_arrived [] = []
all_arrived ((w, armed) ∷ ws) = arrived w ++ all_arrived ws

-- The socket is open at the start of each turn, and the system keeps to its side.
abbrev pub AdmitsAll : OnRecv → Session → List (Recvs × Bool) → Type 0
AdmitsAll on_recv s [] = Unit {0}
AdmitsAll on_recv s ((w, armed) ∷ ws) =
    ((fd : ℕ) × (s.socket_fd ≡ some fd))
    × Admits s.recv_buffer w
    × AdmitsAll on_recv (run_job on_recv armed s w) ws

-- Over any turns of the receive job on a valid buffer, with the socket open at the start of each,
-- an `OnRecv` that keeps the buffer and reads no more than it is given, and a system that delivers
-- no more than it is asked for: what `OnRecv` has read, followed by what the buffer holds, is what
-- the buffer held followed by all that arrived, so that no byte is lost, repeated or moved, and the
-- buffer stays valid.
pub run_jobs_stream :
    (on_recv : OnRecv) (ws : List (Recvs × Bool)) (s : Session)
    → Keeps on_recv
    → IsValid s.recv_buffer
    → AdmitsAll on_recv s ws
    → (all_bytes on_recv s ws ++ contents (run_jobs on_recv s ws).recv_buffer
        ≡ contents s.recv_buffer ++ all_arrived ws)
      × IsValid (run_jobs on_recv s ws).recv_buffer
unfolding run_jobs all_bytes all_arrived
run_jobs_stream on_recv [] s k v a = (rw append-nil, v)
run_jobs_stream on_recv ((w, armed) ∷ ws) s k v a =
    let turn = run_job_lem on_recv armed s w a.0.0 k a.0.1 v a.1 in
    let next = run_job on_recv armed s w in
    let rest = run_jobs_stream on_recv ws next k turn.1 a.2 in
    let read = turn_bytes on_recv s w in
    (
      append_assoc read (all_bytes on_recv next ws)
            (contents (run_jobs on_recv next ws).recv_buffer)
          ∙ ap (◌++◌ read) rest.0
          ∙ sym (append_assoc read (contents next.recv_buffer) (all_arrived ws))
          ∙ ap (λ xs. xs ++ all_arrived ws) turn.0
          ∙ append_assoc (contents s.recv_buffer) (arrived w) (all_arrived ws),
      rest.1,
    )
