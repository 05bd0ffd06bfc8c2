-- ===== src/Session/Closing.antt =====
-- What closing a session does, how often its socket is closed, and how often the server is told.
use my_server_project.Common.{
  ℕ, zero, suc, ◌+◌, ◌≤◌, ◌≡◌, ◌∙◌, refl, inl, inr, true, false, not, ◌&&◌, Option, none, some,
  List, [], ◌∷◌, ◌++◌, if◌then◌else◌, ◌==◌, ltb, ◌%◌, take, ◌^◌, Bool-cases, arith,
}
use my_server_project.Session.{
  Session, Effect, epoll_del, close, on_disconnected, written, send_poll_mod, recv_poll_mod, Socket,
  Packet, emit, disconnect, set_send_state, Writes, wrote, again, failed, interrupted, finish_send,
  concat, lose, took, write_loop, write_packets, send_taken, do_send, send_bytes, send,
  total_send_bytes,
}

-- The effects of one `Disconnect`, newest first: an open socket leaves the epoll set and is closed,
-- and the server is told if no job is under way.
abbrev pub disconnect_effects : Session → List Effect
disconnect_effects s =
    (if not s.is_recving && not s.is_sending then on_disconnected s.session_id ∷ [] else [])
    ++ (elim s.socket_fd [ none ↦ [] | some fd ↦ close fd ∷ epoll_del fd ∷ [] ])

-- `Disconnect` invalidates the socket, has just those effects, and changes nothing else.
pub disconnect_lem :
    (s : Session)
    → disconnect s ≡ record s { socket_fd = none; trace = disconnect_effects s ++ s.trace }
unfolding disconnect
disconnect_lem s = ground arith

-- How often a socket is closed in a trace, and how often the server is told of the end.
abbrev pub closes : List Effect → ℕ
closes [] = 0
closes (close fd ∷ es) = suc (closes es)
closes (epoll_del fd ∷ es) = closes es
closes (on_disconnected id ∷ es) = closes es
closes (written bs ∷ es) = closes es
closes (send_poll_mod fd ∷ es) = closes es
closes (recv_poll_mod fd ∷ es) = closes es

abbrev pub notices : List Effect → ℕ
notices [] = 0
notices (on_disconnected id ∷ es) = suc (notices es)
notices (close fd ∷ es) = notices es
notices (epoll_del fd ∷ es) = notices es
notices (written bs ∷ es) = notices es
notices (send_poll_mod fd ∷ es) = notices es
notices (recv_poll_mod fd ∷ es) = notices es

abbrev pub open_count : Socket → ℕ
open_count none = 0
open_count (some fd) = 1

-- Closes made and closes still to come.
abbrev pub balance : Session → ℕ
balance s = closes s.trace + open_count s.socket_fd

pub disconnect-balance : (s : Session) → balance (disconnect s) ≡ balance s
unfolding disconnect
disconnect-balance s = ground arith

finish_send-balance :
    (s : Session) (ps : List Packet) (r : ℕ) → balance (finish_send s ps r) ≡ balance s
unfolding finish_send
finish_send-balance s ps r = elim (Bool-cases (r == total_send_bytes ps)) [
  | inl e ↦ rw (e, finish_send)
  | inr e ↦ rw (e, finish_send)
]

lose-balance : (s : Session) (ps : List Packet) (r : ℕ) → balance (lose s ps r) ≡ balance s
unfolding lose
lose-balance s ps r =
    finish_send-balance (disconnect (set_send_state s false)) ps r
    ∙ disconnect-balance (set_send_state s false)

took-balance : (s : Session) (ps : List Packet) (r : ℕ) → balance (took s ps r) ≡ balance s
unfolding took
took-balance s ps r = elim (Bool-cases (ltb r (2 ^ 31))) [
  | inl e ↦ rw e (finish_send-balance s ps r)
  | inr e ↦ rw e (lose-balance s ps r)
]

write_loop-balance :
    (w : Writes) (s : Session) (ps : List Packet) → balance (write_loop s ps w) ≡ balance s
unfolding write_loop
write_loop-balance (wrote n) s ps =
    took-balance (emit (written (take n (concat ps))) s) ps (n % 2 ^ 32)
write_loop-balance again s ps = disconnect-balance (set_send_state s false)
write_loop-balance failed s ps = lose-balance s ps _
write_loop-balance (interrupted w) s ps = write_loop-balance w s ps

write_packets-balance :
    (s : Session) (fd : Socket) (ps : List Packet) (w : Writes)
    → balance (write_packets s fd ps w) ≡ balance s
unfolding write_packets
write_packets-balance s none ps w = disconnect-balance (set_send_state s false)
write_packets-balance s (some fd) ps w = write_loop-balance w s ps

send_taken-balance :
    (s : Session) (ps : List Packet) (w : Writes) → balance (send_taken s ps w) ≡ balance s
unfolding send_taken
send_taken-balance s [] w = refl
send_taken-balance s (p ∷ ps) w = write_packets-balance s s.socket_fd (p ∷ ps) w

pub do_send-balance : (s : Session) (w : Writes) → balance (do_send s w) ≡ balance s
unfolding do_send
do_send-balance s w = send_taken-balance (record s { packets = [] }) s.packets w

-- Whatever `writev` answers, `Send` preserves the number of closes made plus one for a socket that
-- is open: it closes an open socket at most once, and nothing otherwise.
pub send-balance :
    (s : Session) (b : Option (List ℕ)) (w : Writes) → balance (send s b w) ≡ balance s
unfolding send send_bytes
send-balance s none w = refl
send-balance s (some []) w = refl
send-balance s (some (b ∷ bs)) w = elim (Bool-cases s.is_sending) [
  | inl e ↦ rw (e, send_bytes)
  | inr e ↦
      rw (e, send_bytes)
        (do_send-balance (set_send_state (record s { packets = s.packets ++ (b ∷ bs) ∷ [] }) true)
          w)
]

-- `n` calls of `Disconnect`.
pub disconnect_times : ℕ → Session → Session
disconnect_times zero s = s
disconnect_times (suc n) s = disconnect_times n (disconnect s)

-- Of a session that neither receives nor sends, `n` calls of `Disconnect` tell the server `n` times
-- that it is gone, and never close more than the socket that was open.
pub disconnect_again :
    (n : ℕ) (s : Session)
    → s.is_recving ≡ false
    → s.is_sending ≡ false
    → (notices (disconnect_times n s).trace ≡ notices s.trace + n)
      × (closes (disconnect_times n s).trace ≤ balance s)
unfolding disconnect_times disconnect
disconnect_again zero s r d = omega arith
disconnect_again (suc n) s r d = ground (arith, disconnect_again n (disconnect s))
