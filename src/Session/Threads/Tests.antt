-- ===== src/Session/Threads/Tests.antt =====
-- The theorems on several calls at a concrete session.
use my_server_project.Common.{ℕ, ◌≡◌, refl, false, true, some, [], ◌∷◌, arith}
use my_server_project.Session.{Session, again}
use my_server_project.Session.Threads.{
  Senders, Activity, done, push, step, Reach, here, next, before_calls, exchange,
}
use my_server_project.Session.Threads.Exclusion.{IsExclusive, IsSum, Reach-IsExclusive, holds}
use my_server_project.Session.Threads.Flight.{TakesAll, IsOrdered, wire}
use my_server_project.Session.Threads.Order.{Reach-IsOrdered}
use my_server_project.Session.Threads.Races.{opened, two_sends, stranded}

abbrev session : Session
session = record {
  session_id = 4;
  socket_fd = some 9;
  is_recving = true;
  is_sending = false;
  packets = [];
  recv_buffer = record { front = 0; rear = 0; buffer = λ k. 0 };
  send_packets = [];
  trace = [];
}

abbrev calls : ℕ → Activity
calls = two_sends (1 ∷ 2 ∷ []) (3 ∷ [])

-- Call 0 has pushed and taken the flag.
abbrev sending : Senders
sending = step calls (step calls (before_calls session) 0 again) 0 again

sending-Reach : Reach calls IsSum (before_calls session) sending
unfolding step push exchange before_calls
sending-Reach =
    next 0 again (next 0 again (here refl) (λ ps n e. ground arith) refl) (λ ps n e. ground arith)
      refl

sending_holds : holds (sending.points 0) ≡ true
unfolding step push exchange before_calls
sending_holds = refl

Reach-IsExclusive_example : IsExclusive sending
Reach-IsExclusive_example = Reach-IsExclusive calls session (λ t e. ground arith) sending-Reach

-- Both calls have returned.
abbrev left : Senders
left = (stranded session 9 1 3 (2 ∷ []) [] (omega arith)).0

Reach-IsOrdered_example : IsOrdered [] left
Reach-IsOrdered_example =
    Reach-IsOrdered calls (opened session 9) 9 refl (λ t e. ground arith)
      (stranded session 9 1 3 (2 ∷ []) [] (omega arith)).1

stranded_example :
    (q : Senders) × Reach calls TakesAll (before_calls (opened session 9)) q
    × (q.points 0 ≡ done)
    × (q.points 1 ≡ done)
    × (q.session.is_sending ≡ false)
    × (q.session.packets ≡ (3 ∷ []) ∷ [])
    × (wire q.session.trace ≡ 1 ∷ 2 ∷ [])
stranded_example = stranded session 9 1 3 (2 ∷ []) [] (omega arith)

-- A call alone that sends what an earlier one left.
abbrev left_over : Senders
left_over = before_calls (record session { packets = (7 ∷ []) ∷ [] })
