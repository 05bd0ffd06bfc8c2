-- ===== src/Server/Tests.antt =====
-- The server's theorems at concrete servers.
use my_server_project.Common.{ℕ, ◌+◌, ◌≡◌, refl, true, false, none, some, [], ◌∷◌, All, arith}
use my_server_project.SessionGroup
use my_server_project.SessionGroup.{SessionGroup, Slot, get_index, make_session_id, add_session}
use my_server_project.SessionGroup.History
use my_server_project.SessionGroup.History.{Reaches, adds}
use my_server_project.Session.{Session, wrote, send}
use my_server_project.Server.{
  Server, construct, start, indeterminate, null, Results, stop, destroy, release, delete_all,
  both_released, server_send,
}
use my_server_project.Server.Descriptors.{opens, closes, count, events, start-stop}
use my_server_project.Server.Sends.{send_live}

abbrev raw : Server
raw = record {
  listen_fd = none;
  epoll_fd = none;
  send_poll_fd = none;
  is_running = false;
  worker_thread_pool = null;
  session_group = null;
  poll_job = indeterminate;
  accept_job = indeterminate;
  calls = [];
}

-- A server whose `Start` was never called is destroyed with pointers that nothing was stored in.
destroyed_unstarted : destroy (construct raw) ≡ none
unfolding destroy stop delete_all release both_released construct
destroyed_unstarted = refl

-- The port is in use.
abbrev in_use : Results
in_use = record {
  epoll = some 3;
  send_poll = some 4;
  socket = some 5;
  reuse_set = true;
  bound = false;
  listening = true;
  event = λ i. some (i + 7);
  thread_created = λ i. true;
}

start-stop_example :
    opens 8 (stop (start (construct raw) 2 in_use).1).calls
    ≡ closes 8 (stop (start (construct raw) 2 in_use).1).calls + count 8 (7 ∷ 8 ∷ [])
unfolding events
start-stop_example = start-stop raw 2 in_use 8

abbrev raw_slot : Slot
raw_slot = record { session_id = 77; socket_fd = 0 }

abbrev table : SessionGroup
table = SessionGroup.construct raw_slot 0 2

-- The table with one session, of index 0.
abbrev table_one : SessionGroup
table_one = record {
  max_session = 2;
  sessions = (record { session_id = 0; socket_fd = 5 }) ∷ raw_slot ∷ [];
  index_pool = 1 ∷ 2 ∷ [];
  unique_number = 1;
}

table_one-Reaches : Reaches table_one (0 ∷ [])
unfolding SessionGroup.construct add_session
table_one-Reaches =
    adds {g = table} 5 0 (1 ∷ 2 ∷ []) 0
      (History.start raw_slot 0 2 (omega arith) (omega arith) refl) refl (omega arith) refl

abbrev session : ℕ → Session
session i = record {
  session_id = i;
  socket_fd = some 9;
  is_recving = true;
  is_sending = false;
  packets = [];
  recv_buffer = record { front = 0; rear = 0; buffer = λ k. 0 };
  send_packets = [];
  trace = [];
}

send_live_example :
    (after_send : ℕ → Session) × (server_send table_one session 0 (some (1 ∷ [])) (wrote 1)
      ≡ some after_send)
    × (after_send (get_index 0) ≡ send (session (get_index 0)) (some (1 ∷ [])) (wrote 1))
    × All (λ other. after_send (get_index other) ≡ session (get_index other)) []
send_live_example =
    send_live table_one session 0 (some (1 ∷ [])) (wrote 1) [] [] (0 ∷ []) table_one-Reaches refl
