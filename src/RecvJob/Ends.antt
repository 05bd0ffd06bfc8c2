-- ===== src/RecvJob/Ends.antt =====
-- How the receive job ends a session, and when it does so though the peer has not.
use my_server_project.Common.{
  ℕ, suc, ◌-◌, ◌<◌, ◌≤◌, ◌≡◌, ◌∙◌, refl, ap, Bool, true, false, none, some, List, length, arith,
}
use my_server_project.RecvBuffer.{RecvBuffer, buffer_size, get_remain_size, get_direct_write_size}
use my_server_project.RecvBuffer.Bounds.{IsValid, direct_write_lem}
use my_server_project.RecvBuffer.InPlace.{fill}
use my_server_project.Session.{Session, disconnect}
use my_server_project.Session.Closing.{closes, open_count, disconnect-balance, disconnect_lem}
use my_server_project.RecvJob.{
  Recvs, received, interrupted, closed, again, reset_by_peer, failed, set_buffer, end_receive,
  recv_loop, execute,
}
use my_server_project.RecvJob.Stream.{execute_open}

-- Whether the calls end with the end of the session.
pub is_final : Recvs → Bool
is_final (received xs rest) = is_final rest
is_final (interrupted rest) = is_final rest
is_final closed = true
is_final again = false
is_final reset_by_peer = true
is_final failed = false

end_receive_lem :
    (s : Session) → ((end_receive s).socket_fd ≡ none) × ((end_receive s).is_recving ≡ false)
unfolding end_receive
end_receive_lem s = rw (disconnect_lem (record s { is_recving = false })) (refl, refl)

recv_loop_ends :
    (w : Recvs) (s : Session)
    → is_final w ≡ true
    → let (t, more) = recv_loop s w in
      (more ≡ false) × (t.socket_fd ≡ none) × (t.is_recving ≡ false)
unfolding recv_loop is_final
recv_loop_ends (received xs rest) s e = recv_loop_ends rest (set_buffer s (fill s.recv_buffer xs)) e
recv_loop_ends (interrupted rest) s e = recv_loop_ends rest s e
recv_loop_ends closed s e = (refl, (end_receive_lem s).0, (end_receive_lem s).1)
recv_loop_ends again s e = cc
recv_loop_ends reset_by_peer s e = (refl, (end_receive_lem s).0, (end_receive_lem s).1)
recv_loop_ends failed s e = cc

recv_loop_goes_on :
    (w : Recvs) (s : Session)
    → is_final w ≡ false
    → let (t, more) = recv_loop s w in
      (more ≡ true) × (t.socket_fd ≡ s.socket_fd) × (t.trace ≡ s.trace)
unfolding recv_loop is_final
recv_loop_goes_on (received xs rest) s e =
    recv_loop_goes_on rest (set_buffer s (fill s.recv_buffer xs)) e
recv_loop_goes_on (interrupted rest) s e = recv_loop_goes_on rest s e
recv_loop_goes_on closed s e = cc
recv_loop_goes_on again s e = (refl, refl, refl)
recv_loop_goes_on reset_by_peer s e = cc
recv_loop_goes_on failed s e = (refl, refl, refl)

-- `Execute` on an open session: when the calls end with 0, EPIPE or ECONNRESET the socket is
-- invalidated, receiving is over and `Complete` does not follow; when they end with EAGAIN or
-- another error the socket is kept, nothing is asked of the system and `Complete` follows.
pub execute_ends :
    (w : Recvs) (s : Session) (fd : ℕ)
    → s.socket_fd ≡ some fd
    → let (t, more) = execute s w in
      (is_final w ≡ true → (more ≡ false) × (t.socket_fd ≡ none) × (t.is_recving ≡ false))
      × (is_final w ≡ false → (more ≡ true) × (t.socket_fd ≡ some fd) × (t.trace ≡ s.trace))
execute_ends w s fd open_fd =
    rw (execute_open w s fd open_fd)
      (recv_loop_ends w s, λ e. (let r = recv_loop_goes_on w s e in (r.0, r.1 ∙ open_fd, r.2)))

-- What `recv` does with a request for no bytes: it returns 0.
abbrev pub ZeroIsZero : RecvBuffer → Recvs → Type 0
ZeroIsZero b w = get_direct_write_size b ≡ 0 → w ≡ closed

recv_loop_closed :
    (s : Session) (fd : ℕ)
    → s.socket_fd ≡ some fd
    → ((recv_loop s closed).1 ≡ false)
      × ((recv_loop s closed).0.socket_fd ≡ none)
      × (closes (recv_loop s closed).0.trace ≡ suc (closes s.trace))
unfolding recv_loop end_receive
recv_loop_closed s fd open_fd =
    let s' : Session = record s { is_recving = false } in
    let gone : (disconnect s').socket_fd ≡ none = rw (disconnect_lem s') refl in
    (refl, gone, omega (arith, disconnect-balance s', ap open_count gone, ap open_count open_fd))

no_direct_space :
    (b : RecvBuffer)
    → b.front < buffer_size
    → b.rear ≡ buffer_size - 1
    → (get_direct_write_size b ≡ 0) × (get_remain_size b ≡ b.front)
unfolding get_direct_write_size get_remain_size
no_direct_space b v e = ground arith

-- On an open session whose buffer's rear is at the array's last index, with as much space left as
-- the front is past the start, a request for no bytes that returns 0 is taken for the end of the
-- connection: the next `Execute` closes the socket, and `Complete` does not follow.
pub stalled_buffer_disconnects :
    (w : Recvs) (s : Session) (fd : ℕ)
    → s.socket_fd ≡ some fd
    → s.recv_buffer.front < buffer_size
    → s.recv_buffer.rear ≡ buffer_size - 1
    → ZeroIsZero s.recv_buffer w
    → (get_remain_size s.recv_buffer ≡ s.recv_buffer.front)
      × ((execute s w).1 ≡ false)
      × ((execute s w).0.socket_fd ≡ none)
      × (closes (execute s w).0.trace ≡ suc (closes s.trace))
stalled_buffer_disconnects w s fd open_fd v e z =
    let space = no_direct_space s.recv_buffer v e in
    let ends = recv_loop_closed s fd open_fd in
    (
      space.1,
      rw (execute_open w s fd open_fd, z space.0) ends.0,
      rw (execute_open w s fd open_fd, z space.0) ends.1,
      rw (execute_open w s fd open_fd, z space.0) ends.2,
    )

-- On an open session with a valid buffer whose front is not past the rear, when the peer's bytes
-- fill the direct space that `recv` was offered and a request for no bytes returns 0, the same
-- `Execute` closes the socket, and `Complete`, which would hand the bytes out, does not follow.
pub burst_disconnects :
    (xs : List ℕ) (rest : Recvs) (s : Session) (fd : ℕ)
    → s.socket_fd ≡ some fd
    → IsValid s.recv_buffer
    → s.recv_buffer.front ≤ s.recv_buffer.rear
    → length xs ≡ get_direct_write_size s.recv_buffer
    → ZeroIsZero (fill s.recv_buffer xs) rest
    → ((execute s (received xs rest)).1 ≡ false)
      × ((execute s (received xs rest)).0.socket_fd ≡ none)
      × (closes (execute s (received xs rest)).0.trace ≡ suc (closes s.trace))
unfolding recv_loop
burst_disconnects xs rest s fd open_fd v fr full z =
    let t : Session = set_buffer s (fill s.recv_buffer xs) in
    let at_end : (fill s.recv_buffer xs).rear ≡ buffer_size - 1 =
      unfold fill in omega (arith, direct_write_lem s.recv_buffer fr) in
    let front_in : (fill s.recv_buffer xs).front < buffer_size = unfold fill in v.front_in in
    let stalled = stalled_buffer_disconnects rest t fd open_fd front_in at_end z in
    rw (execute_open (received xs rest) s fd open_fd, ← execute_open rest t fd open_fd)
      (stalled.1, stalled.2, stalled.3)
