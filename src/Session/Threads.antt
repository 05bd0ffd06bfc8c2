-- ===== src/Session/Threads.antt =====
-- Calls of `Session::Send` and turns of the send job on one session by several threads
-- (src/lib-core/src/Network/Session.cpp). A step is what a call does between two points where others
-- may run: the push, the exchange of the flag, the swap of the queue, one `writev`, the flag's clearing,
-- a `Disconnect`, the rest. The children hold who is between the exchange and the clearing, what is
-- on the wire, an interleaving that leaves a packet behind, and calls that run alone.
pub mod Alone
pub mod Ends
pub mod Exclusion
pub mod Flight
pub mod Moves
pub mod Order
pub mod Races
pub mod Whole
mod Tests
use my_server_project.Common.{
  ℕ, ◌≡◌, ◌-◌, ◌%◌, ◌^◌, ltb, Bool, true, false, Option, none, some, List, [], ◌∷◌, ◌++◌, ◌==◌,
  if◌then◌else◌, take,
}
use my_server_project.Session.{
  Session, Socket, Packet, Effect, written, send_poll_mod, emit, set_send_state, disconnect, Writes,
  wrote, again, failed, interrupted, total_send_bytes, find_start, stage_from, concat,
}

-- A call of `Send` with its buffer, or a turn of the send job.
pub data Activity : Type 0 where
  sends : Packet → Activity
  job : Activity

-- Where a call is: before it, past the push, past the exchange, past a swap that took packets, before
-- the flag's clearing that ends `DoSend`, before that of a lost connection and before that of
-- another error, before the `Disconnect` after each, before the packets that were not written are given
-- to the send job, past `DoSend`, and at its end.
pub data Point : Type 0 where
  fresh queued ready clearing giving_up ending returned done : Point
  writing : List Packet → Point
  failing ending_on staging : List Packet → ℕ → Point

-- The session, where each call is, and the packets pushed, oldest first.
pub record Senders : Type 0 where
  pub session : Session
  pub points : ℕ → Point
  pub pushed : List Packet

abbrev pub move_to : Senders → ℕ → Point → Senders
move_to s t p = record s { points = λ k. if k == t then p else s.points k }

abbrev pub with_session : Senders → Session → Senders
with_session s v = record s { session = v }

-- `Send` before the exchange.
unfoldable pub push : Senders → ℕ → Activity → Senders
push s t job = move_to s t ready
push s t (sends []) = move_to s t done
push s t (sends (b ∷ bs)) =
    let v = s.session in
    move_to
      (record s {
        session = record v { packets = v.packets ++ (b ∷ bs) ∷ [] };
        pushed = s.pushed ++ (b ∷ bs) ∷ [];
      })
      t queued

-- `__sync_lock_test_and_set` of the flag.
unfoldable pub exchange : Senders → ℕ → Senders
exchange s t =
    if s.session.is_sending
    then move_to s t done
    else move_to (with_session s (set_send_state s.session true)) t ready

abbrev pub taken_point : List Packet → Point
taken_point [] = clearing
taken_point (p ∷ ps) = writing (p ∷ ps)

unfoldable pub swap : Senders → ℕ → Senders
swap s t =
    let v = s.session in
    move_to (with_session s (record v { packets = [] })) t (taken_point v.packets)

-- What follows the loop, from the bit pattern of `result`.
unfoldable pub after_writes : List Packet → ℕ → Point
after_writes ps result = if result == total_send_bytes ps then clearing else staging ps result

-- After a `writev` that took bytes: a negative Int32 goes the way of an error.
unfoldable pub after_wrote : List Packet → ℕ → Point
unfolding after_writes
after_wrote ps result = if ltb result (2 ^ 31) then after_writes ps result else failing ps result

-- One pass of the loop on an open socket.
unfoldable pub write_once : Senders → ℕ → List Packet → Writes → Senders
unfolding after_wrote
write_once s t ps (wrote n) =
    move_to (with_session s (emit (written (take n (concat ps))) s.session)) t
      (after_wrote ps (n % 2 ^ 32))
write_once s t ps again = move_to s t giving_up
write_once s t ps failed = move_to s t (failing ps (2 ^ 32 - 1))
write_once s t ps (interrupted w) = move_to s t (writing ps)

unfoldable pub write_pass : Senders → ℕ → Socket → List Packet → Writes → Senders
unfolding write_once
write_pass s t none ps w = move_to s t giving_up
write_pass s t (some fd) ps w = write_once s t ps w

-- The event is armed after `Send`, not after a turn of the send job.
unfoldable pub return_from : Senders → ℕ → Activity → Senders
return_from s t job = move_to s t done
return_from s t (sends p) =
    move_to (with_session s (emit (send_poll_mod s.session.socket_fd) s.session)) t done

abbrev pub clear_flag : Senders → ℕ → Point → Senders
clear_flag s t p = move_to (with_session s (set_send_state s.session false)) t p

-- The step of call `t` from a point; `w` is what a `writev` would answer.
unfoldable pub step_at : Activity → Point → Senders → ℕ → Writes → Senders
unfolding push exchange swap write_pass after_writes return_from
step_at a fresh s t w = push s t a
step_at a queued s t w = exchange s t
step_at a ready s t w = swap s t
step_at a (writing ps) s t w = write_pass s t s.session.socket_fd ps w
step_at a clearing s t w = clear_flag s t returned
step_at a giving_up s t w = clear_flag s t ending
step_at a (failing ps result) s t w = clear_flag s t (ending_on ps result)
step_at a ending s t w = move_to (with_session s (disconnect s.session)) t returned
step_at a (ending_on ps result) s t w =
    move_to (with_session s (disconnect s.session)) t (after_writes ps result)
step_at a (staging ps result) s t w =
    let v = s.session in
    move_to
      (with_session s (
        emit (send_poll_mod v.socket_fd)
          (record v { send_packets = stage_from (find_start result ps) })))
      t returned
step_at a returned s t w = return_from s t a
step_at a done s t w = s

unfoldable pub step : (ℕ → Activity) → Senders → ℕ → Writes → Senders
unfolding step_at
step calls s t w = step_at (calls t) (s.points t) s t w

-- Steps of any calls, as far as `ok` admits what `writev` answers where a call is.
pub data Reach (calls : ℕ → Activity) (ok : Point → Writes → Type 0) (s : Senders)
    : Senders → Type 0 where
  here : {q : Senders} → q ≡ s → Reach calls ok s q
  next :
      {q r : Senders} (t : ℕ) (w : Writes)
      → Reach calls ok s q
      → ok (q.points t) w
      → r ≡ step calls q t w
      → Reach calls ok s r

-- Steps of call `t` alone.
pub data RunsAlone (calls : ℕ → Activity) (t : ℕ) : Senders → Senders → Type 0 where
  stays : {s q : Senders} → q ≡ s → RunsAlone calls t s q
  acts_on :
      {s r q : Senders} (w : Writes)
      → r ≡ step calls s t w
      → RunsAlone calls t r q
      → RunsAlone calls t s q

-- Before any call: a session's flag is off.
unfoldable pub before_calls : Session → Senders
before_calls v = record {
  session = set_send_state v false;
  points = λ t. fresh;
  pushed = v.packets;
}
