-- ===== src/StressTest/PollThread/Serving.antt =====
-- A turn of the loop over the clients, and turns until the end.
use my_server_project.Common.{
  ℕ, zero, suc, ◌+◌, ◌≤◌, ◌≡◌, refl, ap, ◌∙◌, Bool, true, false, Option, none, some, List, [],
  ne→==, if◌then◌else◌, length, ◌>>=◌, arith,
}
use my_server_project.RecvBuffer.{
  move_read_offset, get_used_size, get_direct_read_size, get_direct_write_size,
}
use my_server_project.RecvBuffer.Bounds.{sizes_agree, moves-IsValid}
use my_server_project.StressTest.{
  reset_if_empty, EchoSession, RecvResult, received, closed, failed, SendResult, sent, send_failed,
  do_recv, do_send, send_front, close_socket,
}
use my_server_project.StressTest.Echo.{BothValid, do_recv-IsQuiet, reset_if_empty_lem}
use my_server_project.StressTest.PollThread.{Ready, receive_if, send_if, serve}

-- What is asked of `recv`: no more than the space offered.
abbrev pub Receives : EchoSession → Option RecvResult → Type 0
Receives s none = Unit {0}
Receives s (some (received xs)) = length xs ≤ get_direct_write_size s.recv_buffer
Receives s (some closed) = Unit {0}
Receives s (some failed) = Unit {0}

-- What is asked of `send`, which is called only with something to send: some of the front block is taken.
abbrev pub Sends : EchoSession → Option SendResult → Type 0
Sends s none = Unit {0}
Sends s (some (sent n)) = (1 ≤ n) × (n ≤ get_direct_read_size s.send_buffer)
Sends s (some send_failed) = 1 ≤ get_used_size s.send_buffer

-- 1 for a failure.
abbrev pub failures : Bool → ℕ
failures true = 0
failures false = 1

receive_if_lem :
    (s : EchoSession) (r : Option RecvResult) (clock : ℕ → List ℕ)
    → ((i : ℕ) → length (clock i) ≡ 8)
    → BothValid s
    → Receives s r
    → (ok : Bool) × (t : EchoSession) × (receive_if s r clock ≡ some (ok, t))
      × BothValid t
      × (t.closes ≡ failures ok + s.closes)
unfolding receive_if do_recv
receive_if_lem s none clock ticks v h = (true, s, refl, v, omega arith)
receive_if_lem s (some (received xs)) clock ticks v h =
    let (t, e, tv, quiet, same) = do_recv-IsQuiet s xs clock ticks v h in
    (true, t, e, tv, omega arith)
receive_if_lem s (some closed) clock ticks v h = (
  false,
  close_socket s,
  refl,
  record { recv_valid = v.recv_valid; send_valid = v.send_valid },
  omega arith,
)
receive_if_lem s (some failed) clock ticks v h = (
  false,
  close_socket s,
  refl,
  record { recv_valid = v.recv_valid; send_valid = v.send_valid },
  omega arith,
)

-- With something to send `DoSend` calls `send`.
sends_front :
    (s : EchoSession) (r : SendResult)
    → 1 ≤ get_used_size s.send_buffer
    → do_send s r ≡ send_front s r
unfolding do_send
sends_front s r h =
    ap (λ b. if b then (false, [], s) else send_front s r)
      (ne→== (get_used_size s.send_buffer) 0 (λ e. omega arith))

send_if_lem :
    (s : EchoSession) (r : Option SendResult)
    → BothValid s
    → Sends s r
    → (ok : Bool) × (t : EchoSession) × (send_if s r ≡ (ok, t))
      × BothValid t
      × (t.closes ≡ failures ok + s.closes)
unfolding send_if send_front
send_if_lem s none v h = (true, s, refl, v, omega arith)
send_if_lem s (some (sent zero)) v h = absurd (omega arith)
send_if_lem s (some (sent (suc n))) v h =
    let b = s.send_buffer in
    let some_used : 1 ≤ get_used_size b = omega (arith, sizes_agree b v.send_valid) in
    (
      true,
      record s { send_buffer = reset_if_empty (move_read_offset b (suc n)) },
      ap (λ o. (o.0, o.2)) (sends_front s (sent (suc n)) some_used),
      record {
        recv_valid = v.recv_valid;
        send_valid =
            (reset_if_empty_lem (move_read_offset b (suc n))
              (moves-IsValid b (suc n) v.send_valid).1).1;
      },
      omega arith,
    )
send_if_lem s (some send_failed) v h = (
  false,
  close_socket s,
  ap (λ o. (o.0, o.2)) (sends_front s send_failed h),
  record { recv_valid = v.recv_valid; send_valid = v.send_valid },
  omega arith,
)

-- What is asked of the answers to one client: of `send`'s, for the session that `DoRecv` leaves.
abbrev pub Answers : EchoSession → Ready → (ℕ → List ℕ) → Type 0
Answers s r clock =
    Receives s r.readable
    × ((ok : Bool) (t : EchoSession)
        → receive_if s r.readable clock ≡ some (ok, t)
        → Sends t r.writable)

-- When `recv` delivers to a client with valid rings no more than it is offered, and `send`, where it is
-- called, is given something and takes some of it or fails, with ticks of 8 bytes: `DoRecv` and `DoSend` of
-- one turn are defined, keep the rings valid, and have closed the socket once for each of them that
-- failed, so twice if both did.
pub serve_lem :
    (s : EchoSession) (r : Ready) (clock : ℕ → List ℕ)
    → ((i : ℕ) → length (clock i) ≡ 8)
    → BothValid s
    → Answers s r clock
    → (ok1 : Bool) × (ok2 : Bool) × (t : EchoSession) × (serve s r clock ≡ some (ok1, ok2, t))
      × BothValid t
      × (t.closes ≡ failures ok2 + (failures ok1 + s.closes))
unfolding serve
serve_lem s r clock ticks v (fits, later) =
    let (ok1, t, e, tv, c) = receive_if_lem s r.readable clock ticks v fits in
    let (ok2, u, e2, uv, c2) = send_if_lem t r.writable tv (later ok1 t e) in
    (
      ok1,
      ok2,
      u,
      ap (λ o. o >>= λ (a, x). some (a, (send_if x r.writable).0, (send_if x r.writable).1)) e
          ∙ ap (λ o. some (ok1, o.0, o.1)) e2,
      uv,
      omega arith,
    )
