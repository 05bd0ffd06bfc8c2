-- ===== src/Session.antt =====
-- A session (src/lib-core/src/Network/Session.cpp and Session.hpp) with the two jobs that it owns, as
-- far as their state goes, and the calls that it makes of the server and the system. The children
-- hold what closing does, what a send puts on the wire, what a partial write leaves behind, and several
-- calls at once.
pub mod Closing
pub mod Sending
pub mod Partial
pub mod Threads
mod Tests
use my_server_project.Common.{
  ℕ, zero, suc, ◌+◌, ◌-◌, ◌%◌, ◌^◌, Bool, true, false, not, ◌&&◌, Option, none, some, List, [], ◌∷◌,
  ◌++◌, ltb, leb, ◌==◌, if◌then◌else◌, length, drop, take,
}
use my_server_project.RecvBuffer.{RecvBuffer}

-- An iovec, as the bytes that it points to.
abbrev pub Packet : Type 0
Packet = List ℕ

-- A socket is `none` where the code has sINVALID_SOCKET_FD.
abbrev pub Socket : Type 0
Socket = Option ℕ

-- What a session asks of the system and of the server.
pub data Effect : Type 0 where
  epoll_del close : ℕ → Effect
  on_disconnected : ℕ → Effect
  written : List ℕ → Effect
  send_poll_mod recv_poll_mod : Socket → Effect

-- The members of `Session`, of its `RecvJob` (the buffer) and of its `SendJob` (the packets), and what
-- was asked so far, newest first.
pub record Session : Type 0 where
  pub session_id : ℕ
  pub socket_fd : Socket
  pub is_recving : Bool
  pub is_sending : Bool
  pub packets : List Packet
  pub recv_buffer : RecvBuffer
  pub send_packets : List Packet
  pub trace : List Effect

abbrev pub emit : Effect → Session → Session
emit e s = record s { trace = e ∷ s.trace }

-- The second constructor; the receive buffer is not initialised, so it is what lay in its storage.
unfoldable pub construct : RecvBuffer → ℕ → ℕ → Session
construct raw id fd = record {
  session_id = id;
  socket_fd = some fd;
  is_recving = true;
  is_sending = false;
  packets = [];
  recv_buffer = raw;
  send_packets = [];
  trace = [];
}

abbrev pub set_receive_state : Session → Bool → Session
set_receive_state s state = record s { is_recving = state }

abbrev pub set_send_state : Session → Bool → Session
set_send_state s state = record s { is_sending = state }

-- The notification that both branches of `Disconnect` end with.
unfoldable pub notify_if_idle : Session → Session
notify_if_idle s =
    if not s.is_recving && not s.is_sending then emit (on_disconnected s.session_id) s else s

unfoldable pub close_old : Socket → Session → Session
close_old none s = s
close_old (some fd) s = emit (close fd) (emit (epoll_del fd) s)

unfoldable pub disconnect : Session → Session
unfolding notify_if_idle close_old
disconnect s = notify_if_idle (close_old s.socket_fd (record s { socket_fd = none }))

-- The results of the `writev` calls of one `DoSend`: EINTR is tried again, the others end the loop.
pub data Writes : Type 0 where
  wrote : ℕ → Writes
  again failed : Writes
  interrupted : Writes → Writes

-- The sum is kept in an Int32: its bit pattern.
unfoldable pub total_send_bytes : List Packet → ℕ
total_send_bytes [] = 0
total_send_bytes (p ∷ ps) = (length p + total_send_bytes ps) % 2 ^ 32

-- An Int32 compared with a `size_t` is converted, with its sign.
unfoldable pub widen : ℕ → ℕ
widen r = if ltb r (2 ^ 31) then r else r + 2 ^ 64 - 2 ^ 32

-- The first `for` loop: `startOffset`, and the packets from `index` on. Packets are shorter than 2^31.
unfoldable pub find_start : ℕ → List Packet → ℕ × List Packet
unfolding widen
find_start result [] = (0, [])
find_start result (p ∷ ps) =
    if ltb (widen result) (length p)
    then (length p - widen result, p ∷ ps)
    else find_start result ps

-- The second `for` loop: what it adds to the send job.
unfoldable pub stage : ℕ → List Packet → List Packet
stage offset [] = []
stage offset (p ∷ ps) = drop offset p ∷ stage 0 ps

abbrev pub stage_from : ℕ × List Packet → List Packet
stage_from (offset, ps) = stage offset ps

-- After the loop, with the bit pattern of `result`.
unfoldable pub finish_send : Session → List Packet → ℕ → Session
unfolding total_send_bytes find_start stage
finish_send s ps result =
    if result == total_send_bytes ps
    then set_send_state s false
    else emit (send_poll_mod s.socket_fd)
        (record s { send_packets = stage_from (find_start result ps) })

unfoldable pub concat : List Packet → List ℕ
concat [] = []
concat (p ∷ ps) = p ++ concat ps

-- The third branch of a negative result: the code disconnects and goes on with it.
unfoldable pub lose : Session → List Packet → ℕ → Session
unfolding finish_send disconnect
lose s ps result = finish_send (disconnect (set_send_state s false)) ps result

-- After a `writev` that took bytes, by the bit pattern of the Int32 that their number is narrowed to. A
-- number from 2^31 on is negative there: the model takes it for an error that is neither EAGAIN nor
-- EINTR, `errno` being what an earlier call left.
unfoldable pub took : Session → List Packet → ℕ → Session
unfolding finish_send lose
took s ps result = if ltb result (2 ^ 31) then finish_send s ps result else lose s ps result

-- The `do` loop on an open socket. `writev` of `n` bytes puts the first `n` bytes on the wire; an error
-- other than EAGAIN and EINTR has the result -1.
unfoldable pub write_loop : Session → List Packet → Writes → Session
unfolding took lose disconnect concat
write_loop s ps (wrote n) = took (emit (written (take n (concat ps))) s) ps (n % 2 ^ 32)
write_loop s ps again = disconnect (set_send_state s false)
write_loop s ps failed = lose s ps (2 ^ 32 - 1)
write_loop s ps (interrupted w) = write_loop s ps w

-- The loop's test of the socket, which nothing in the loop changes.
unfoldable pub write_packets : Session → Socket → List Packet → Writes → Session
unfolding write_loop
write_packets s none ps w = disconnect (set_send_state s false)
write_packets s (some fd) ps w = write_loop s ps w

-- `sendPackets` is what the swap takes out of `mPackets`.
unfoldable pub send_taken : Session → List Packet → Writes → Session
unfolding write_packets
send_taken s [] w = set_send_state s false
send_taken s (p ∷ ps) w = write_packets s s.socket_fd (p ∷ ps) w

unfoldable pub do_send : Session → Writes → Session
unfolding send_taken
do_send s w = send_taken (record s { packets = [] }) s.packets w

unfoldable pub send_bytes : Session → List ℕ → Writes → Session
unfolding do_send
send_bytes s [] w = s
send_bytes s (b ∷ bs) w =
    let queued = record s { packets = s.packets ++ (b ∷ bs) ∷ [] } in
    let after = do_send (set_send_state queued true) w in
    if s.is_sending then queued else emit (send_poll_mod after.socket_fd) after

-- `none` is a null buffer.
unfoldable pub send : Session → Option (List ℕ) → Writes → Session
unfolding send_bytes
send s none w = s
send s (some bytes) w = send_bytes s bytes w

-- `SendJob::Execute`, which returns false, so `Complete` never follows.
unfoldable pub send_job_execute : Session → Writes → Session × Bool
unfolding do_send
send_job_execute s w = (do_send s w, false)
