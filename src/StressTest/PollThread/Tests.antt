-- ===== src/StressTest/PollThread/Tests.antt =====
-- The poll thread's theorems at concrete answers.
use my_server_project.Common.{
  ℕ, ◌+◌, ◌≤◌, ◌≡◌, refl, ap, Bool, false, none, some, some_inj, List, [], ◌∷◌, ◌==◌, if◌then◌else◌,
  arith,
}
use mathlib.Core.Path.{subst}
use my_server_project.RecvBuffer.{RecvBuffer, get_used_size}
use my_server_project.StressTest.{EchoSession, failed, closed, send_failed, do_recv}
use my_server_project.StressTest.Echo.{BothValid}
use my_server_project.StressTest.PollThread.{
  PollThread, Ready, Round, turn, stop_called, create, receive_if, serve,
}
use my_server_project.StressTest.PollThread.Serving.{Answers, failures, serve_lem}
use my_server_project.StressTest.PollThread.Turns.{after}
use my_server_project.StressTest.PollThread.Connect.{
  Fresh, Connect, connected, refused, ConnectPoll, timeout, connect_clients,
}

abbrev clock : ℕ → ℕ → List ℕ
clock fd i = 1 ∷ 2 ∷ 3 ∷ 4 ∷ 5 ∷ 6 ∷ 7 ∷ 8 ∷ []

abbrev ring : RecvBuffer
ring = record { front = 0; rear = 3; buffer = λ k. 7 }

abbrev fresh : ℕ → Fresh
fresh fd = record { raw_recv = ring; raw_send = ring; tick = clock fd 0 }

-- One client connects; a poll fails, and then the client's connection has ended.
abbrev outcome : ℕ → ℕ → Connect
outcome mode i = connected 7

abbrev polls : ℕ → ConnectPoll
polls i = timeout

abbrev ended : ℕ → Ready
ended fd = record { readable = some closed; writable = none; error = false }

abbrev rounds : List Round
rounds = turn none ∷ turn (some ended) ∷ stop_called ∷ []

abbrev connected_one : PollThread
connected_one = after (create 1) (connect_clients fresh outcome polls (create 1))

-- Three sockets, of which the second is refused.
abbrev second_refused : ℕ → ℕ → Connect
second_refused mode i = if i == 1 then refused i else connected i

-- A client whose receive and whose send both fail.
abbrev session : EchoSession
session = record { recv_buffer = ring; send_buffer = ring; closes = 0 }

session-BothValid : BothValid session
session-BothValid = record {
  recv_valid = record { front_in = omega arith; rear_in = omega arith };
  send_valid = record { front_in = omega arith; rear_in = omega arith };
}

abbrev both_fail : Ready
both_fail = record { readable = some failed; writable = some send_failed; error = false }

both_fail-Answers : Answers session both_fail (clock 7)
unfolding receive_if do_recv get_used_size
both_fail-Answers = (
  tt,
  λ ok t e.
      subst (λ (t : EchoSession). 1 ≤ get_used_size t.send_buffer) (ap (λ o. o.1) (some_inj e))
        (omega arith),
)

serve_lem_example :
    (ok1 : Bool) × (ok2 : Bool) × (t : EchoSession) × (serve session both_fail (clock 7)
      ≡ some (ok1, ok2, t))
    × BothValid t
    × (t.closes ≡ failures ok2 + (failures ok1 + 0))
serve_lem_example =
    serve_lem session both_fail (clock 7) (λ i. refl) session-BothValid both_fail-Answers
