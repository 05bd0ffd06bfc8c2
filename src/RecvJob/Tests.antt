-- ===== src/RecvJob/Tests.antt =====
-- Runs of the receive job on small inputs, and the theorems at concrete sessions.
use my_server_project.Common.{
  ℕ, ◌-◌, ◌≤◌, ◌≡◌, refl, Bool, true, false, some, none, some_inj, List, [], ◌∷◌, ◌++◌, length,
  arith, Memory, load, store,
}
use my_server_project.RecvBuffer.{buffer_size, get_direct_write_size}
use my_server_project.RecvBuffer.Bounds.{IsValid}
use my_server_project.RecvBuffer.Contents.{contents}
use my_server_project.RecvBuffer.InPlace.{fill, front_block}
use my_server_project.Session.{Session}
use my_server_project.Session.Closing.{closes}
use my_server_project.RecvJob.{
  Recvs, received, interrupted, closed, again, OnRecv, execute, run_job,
}
use my_server_project.RecvJob.Stream.{Keeps, run_jobs, all_bytes, all_arrived, run_jobs_stream}
use my_server_project.RecvJob.Ends.{is_final, execute_ends, burst_disconnects}

abbrev no_bytes : Memory
no_bytes i = 0

-- An open session with its receive buffer at the given offsets.
abbrev receiving : ℕ → ℕ → Session
receiving front rear = record {
  session_id = 4;
  socket_fd = some 9;
  is_recving = true;
  is_sending = false;
  packets = [];
  recv_buffer = record { front = front; rear = rear; buffer = no_bytes };
  send_packets = [];
  trace = [];
}

-- A server that reads up to two bytes at a time.
abbrev reads_two : OnRecv
reads_two s [] = (some 0, s)
reads_two s (x ∷ []) = (some 1, s)
reads_two s (x ∷ y ∷ block) = (some 2, s)

reads_two-Keeps : Keeps reads_two
reads_two-Keeps = record { buffer_kept = kept; reads_within = within }
  where
    kept : (s : Session) (block : List ℕ) → (reads_two s block).1.recv_buffer ≡ s.recv_buffer
    kept s [] = refl
    kept s (x ∷ []) = refl
    kept s (x ∷ y ∷ block) = refl

    within :
        (s : Session) (block : List ℕ) (n : ℕ) → (reads_two s block).0 ≡ some n → n ≤ length block
    within s [] n e = omega (arith, some_inj e)
    within s (x ∷ []) n e = omega (arith, some_inj e)
    within s (x ∷ y ∷ block) n e = omega (arith, some_inj e)

abbrev turns : List (Recvs × Bool)
turns = (received (5 ∷ 6 ∷ []) (interrupted (received (7 ∷ []) again)), true) ∷ (again, true) ∷ []

turns_run : all_bytes reads_two (receiving 0 0) turns ≡ 5 ∷ 6 ∷ 7 ∷ []
unfolding all_bytes run_job load store
turns_run = refl

run_jobs_stream_example :
    (all_bytes reads_two (receiving 0 0) turns
        ++ contents (run_jobs reads_two (receiving 0 0) turns).recv_buffer
      ≡ contents (receiving 0 0).recv_buffer ++ all_arrived turns)
    × IsValid (run_jobs reads_two (receiving 0 0) turns).recv_buffer
unfolding run_job get_direct_write_size fill front_block load store
run_jobs_stream_example =
    run_jobs_stream reads_two turns (receiving 0 0) reads_two-Keeps (omega arith)
      ((9, refl), (omega arith, omega arith, (omega arith, omega arith, tt)), ((9, refl), tt, tt))

execute_ends_example :
    (is_final (interrupted closed) ≡ true
      → ((execute (receiving 3 5) (interrupted closed)).1 ≡ false)
        × ((execute (receiving 3 5) (interrupted closed)).0.socket_fd ≡ none)
        × ((execute (receiving 3 5) (interrupted closed)).0.is_recving ≡ false))
    × (is_final (interrupted closed) ≡ false
        → ((execute (receiving 3 5) (interrupted closed)).1 ≡ true)
          × ((execute (receiving 3 5) (interrupted closed)).0.socket_fd ≡ some 9)
          × ((execute (receiving 3 5) (interrupted closed)).0.trace ≡ []))
execute_ends_example = execute_ends (interrupted closed) (receiving 3 5) 9 refl

burst_disconnects_example :
    ((execute (receiving 7 (buffer_size - 3)) (received (1 ∷ 2 ∷ []) closed)).1 ≡ false)
    × ((execute (receiving 7 (buffer_size - 3)) (received (1 ∷ 2 ∷ []) closed)).0.socket_fd ≡ none)
    × (closes (execute (receiving 7 (buffer_size - 3)) (received (1 ∷ 2 ∷ []) closed)).0.trace ≡ 1)
burst_disconnects_example =
    burst_disconnects (1 ∷ 2 ∷ []) closed (receiving 7 (buffer_size - 3)) 9 refl (omega arith)
      (omega arith) (unfold get_direct_write_size in refl) (λ e. refl)
