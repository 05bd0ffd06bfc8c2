-- ===== src/Session/Tests.antt =====
-- Runs of a session on small inputs, and the theorems at concrete sessions.
use my_server_project.Common.{
  ℕ, ◌≡◌, refl, true, false, some, none, List, [], ◌∷◌, length, take, arith, Memory,
}
use my_server_project.RecvBuffer.{RecvBuffer}
use my_server_project.Session.{
  Session, close, epoll_del, on_disconnected, written, send_poll_mod, disconnect, do_send, send,
  send_job_execute, wrote, again, failed, concat,
}
use my_server_project.Session.Closing.{balance, send-balance}
use my_server_project.Session.Sending.{retried, do_send_complete}
use my_server_project.Session.Partial.{partial_lost}

abbrev no_bytes : Memory
no_bytes i = 0

abbrev empty_buffer : RecvBuffer
empty_buffer = record { front = 0; rear = 0; buffer = no_bytes }

-- An open session with the packets `ps` queued.
abbrev queued : List (List ℕ) → Session
queued ps = record {
  session_id = 4;
  socket_fd = some 9;
  is_recving = true;
  is_sending = false;
  packets = ps;
  recv_buffer = empty_buffer;
  send_packets = [];
  trace = [];
}

abbrev gone : Session
gone = record (queued []) { socket_fd = none; is_recving = false }

disconnect_open : (disconnect (queued [])).trace ≡ close 9 ∷ epoll_del 9 ∷ []
unfolding disconnect
disconnect_open = refl

-- A send on a session that is gone tells the server of the end once more.
send_on_gone :
    (send gone (some (1 ∷ [])) (wrote 1)).trace ≡ send_poll_mod none ∷ on_disconnected 4 ∷ []
unfolding send
send_on_gone = refl

-- Two of three bytes taken: the last two are staged.
partial_run : (do_send (queued ((1 ∷ 2 ∷ 3 ∷ []) ∷ [])) (wrote 2)).send_packets ≡ (2 ∷ 3 ∷ []) ∷ []
unfolding do_send
partial_run = refl

-- After another error than EAGAIN and EINTR the code disconnects and goes on with no result.
failed_run :
    (do_send (queued ((1 ∷ 2 ∷ 3 ∷ []) ∷ [])) failed).trace
    ≡ send_poll_mod none ∷ close 9 ∷ epoll_del 9 ∷ []
unfolding do_send
failed_run = refl

send-balance_example : balance (send (queued []) (some (1 ∷ 2 ∷ [])) failed) ≡ balance (queued [])
send-balance_example = send-balance (queued []) (some (1 ∷ 2 ∷ [])) failed

do_send_complete_example :
    do_send
      (queued ((1 ∷ []) ∷ (2 ∷ []) ∷ []))
      (retried 2 (wrote (length (concat ((1 ∷ []) ∷ (2 ∷ []) ∷ [])))))
    ≡ record (queued []) { trace = written (concat ((1 ∷ []) ∷ (2 ∷ []) ∷ [])) ∷ [] }
do_send_complete_example =
    do_send_complete 2 (queued ((1 ∷ []) ∷ (2 ∷ []) ∷ [])) 9 (1 ∷ []) ((2 ∷ []) ∷ []) refl refl
      (unfold concat in omega arith)

partial_lost_example :
    let t = do_send (queued ((1 ∷ 2 ∷ 3 ∷ []) ∷ [])) (retried 0 (wrote 2)) in
    let u = (send_job_execute t again).0 in
    (t.is_sending ≡ false)
    × (u.trace ≡ send_poll_mod (some 9) ∷ written (take 2 (concat ((1 ∷ 2 ∷ 3 ∷ []) ∷ []))) ∷ [])
    × (u.packets ≡ [])
    × (u.is_sending ≡ false)
partial_lost_example =
    partial_lost 0 (queued ((1 ∷ 2 ∷ 3 ∷ []) ∷ [])) 9 2 (1 ∷ 2 ∷ 3 ∷ []) [] again refl refl
      (unfold concat in omega arith) (unfold concat in omega arith)
