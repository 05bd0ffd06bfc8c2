-- ===== src/RecvJob.antt =====
-- The receive job of a session (`RecvJob` of src/lib-core/src/ServerJob.cpp): `Execute` receives until
-- the socket has no more, `Complete` hands the bytes to the server's `OnRecv` and arms the event
-- again. The children hold the stream of bytes, and what ends a session.
pub mod Stream
pub mod Ends
mod Tests
use my_server_project.Common.{
  ℕ, zero, suc, ◌+◌, ◌-◌, ◌<◌, ◌≤◌, ◌≡◌, Bool, true, false, Option, none, some, List, [], ◌∷◌, ltb,
  ◌==◌, if◌then◌else◌, length,
}
use my_server_project.RecvBuffer.{
  RecvBuffer, get_used_size, get_direct_write_size, get_direct_read_size, move_read_offset, reset,
}
use my_server_project.RecvBuffer.InPlace.{fill, front_block}
use my_server_project.Session.{Session, Socket, emit, recv_poll_mod, set_receive_state, disconnect}

-- The results of the `recv` calls of one `Execute`: bytes and EINTR go on; a result of 0, EAGAIN,
-- EPIPE or ECONNRESET, and any other error end the loop.
pub data Recvs : Type 0 where
  received : List ℕ → Recvs → Recvs
  interrupted : Recvs → Recvs
  closed again reset_by_peer failed : Recvs

abbrev pub set_buffer : Session → RecvBuffer → Session
set_buffer s b = record s { recv_buffer = b }

-- `SetReceiveState(false); Disconnect();`
unfoldable pub end_receive : Session → Session
unfolding disconnect
end_receive s = disconnect (set_receive_state s false)

-- The loop on an open socket: the result, and whether `Complete` follows.
unfoldable pub recv_loop : Session → Recvs → Session × Bool
unfolding end_receive fill
recv_loop s (received xs rest) = recv_loop (set_buffer s (fill s.recv_buffer xs)) rest
recv_loop s (interrupted rest) = recv_loop s rest
recv_loop s closed = (end_receive s, false)
recv_loop s again = (s, true)
recv_loop s reset_by_peer = (end_receive s, false)
recv_loop s failed = (s, true)

-- The loop's test of the socket, which nothing in the loop changes.
unfoldable pub execute_on : Socket → Session → Recvs → Session × Bool
unfolding recv_loop
execute_on none s w = (end_receive s, false)
execute_on (some fd) s w = recv_loop s w

unfoldable pub execute : Session → Recvs → Session × Bool
unfolding execute_on
execute s w = execute_on s.socket_fd s w

-- `OnRecv` is the server's: it is given the session and the block, and returns an Int32 and the session,
-- on which it may have called `Send`. Negative results are `none`; the code treats them as 0.
abbrev pub OnRecv : Type 0
OnRecv = Session → List ℕ → Option ℕ × Session

-- What `Complete` does to the buffer with the size that `OnRecv` read, if that is positive.
unfoldable pub consume : RecvBuffer → ℕ → ℕ → RecvBuffer
unfolding move_read_offset reset
consume b used n =
    if ltb 0 n
    then (if n == used then reset (move_read_offset b n) else move_read_offset b n)
    else b

unfoldable pub apply_read : ℕ → Option ℕ × Session → Session
unfolding consume
apply_read used (none, s) = s
apply_read used (some n, s) = set_buffer s (consume s.recv_buffer used n)

unfoldable pub hand_out : OnRecv → Session → Session
unfolding get_used_size front_block apply_read
hand_out on_recv s =
    let used = get_used_size s.recv_buffer in
    if ltb 0 used then apply_read used (on_recv s (front_block s.recv_buffer)) else s

-- The result of the `epoll_ctl` at the end: on a failure an open socket is only reported.
unfoldable pub rearm_failed : Socket → Session → Session
unfolding end_receive
rearm_failed none s = end_receive s
rearm_failed (some fd) s = s

unfoldable pub rearm : Bool → Session → Session
unfolding rearm_failed
rearm armed s =
    let t = emit (recv_poll_mod s.socket_fd) s in if armed then t else rearm_failed t.socket_fd t

unfoldable pub complete : OnRecv → Bool → Session → Session
unfolding hand_out rearm
complete on_recv armed s = rearm armed (hand_out on_recv s)

-- What a worker does with the job: `if (job->Execute()) job->Complete();`
unfoldable pub run_job : OnRecv → Bool → Session → Recvs → Session
unfolding execute complete
run_job on_recv armed s w =
    let (t, more) = execute s w in if more then complete on_recv armed t else t
