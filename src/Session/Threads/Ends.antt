-- ===== src/Session/Threads/Ends.antt =====
-- What a call of `Send` that no other call interrupts comes to, by what `writev` answers.
use my_server_project.Common.{ℕ, true, false, none, some, [], ◌∷◌, ◌++◌}
use my_server_project.Session.{Session, Packet, written, send_poll_mod, concat, set_send_state}
use my_server_project.Session.Closing.{disconnect_effects}

-- The session with a buffer queued and the flag on.
abbrev flagged : Session → Packet → Session
flagged v p = record v { packets = v.packets ++ p ∷ []; is_sending = true }

-- `Send` whose `writev` takes all.
abbrev pub delivered : Session → ℕ → Packet → Session
delivered v fd p = record v {
  packets = [];
  is_sending = false;
  trace = send_poll_mod (some fd) ∷ written (concat v.packets ++ p) ∷ v.trace;
}

-- `Send` whose `writev` finds the socket full.
abbrev pub dropped : Session → Session
dropped v = record v {
  socket_fd = none;
  packets = [];
  is_sending = false;
  trace = send_poll_mod none ∷ disconnect_effects (set_send_state v false) ++ v.trace;
}
