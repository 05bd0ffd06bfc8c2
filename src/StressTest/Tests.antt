-- ===== src/StressTest/Tests.antt =====
-- Runs of a client's session, and the theorems at concrete sessions.
use my_server_project.Common.{ℕ, ◌≡◌, refl, true, some, List, [], ◌∷◌, ◌++◌, load, arith}
use my_server_project.RecvBuffer.{RecvBuffer, get_direct_write_size}
use my_server_project.RecvBuffer.Contents.{contents, span}
use my_server_project.Session.{concat}
use my_server_project.StressTest.{EchoSession, header_size, received, do_recv}
use my_server_project.StressTest.Echo.{BothValid}
use my_server_project.StressTest.Replies.{IsPing, replies, do_recv-replies}

abbrev tick : List ℕ
tick = 1 ∷ 2 ∷ 3 ∷ 4 ∷ 5 ∷ 6 ∷ 7 ∷ 8 ∷ []

abbrev clock : ℕ → List ℕ
clock i = tick

abbrev ping : List ℕ
ping = 12 ∷ 0 ∷ 0 ∷ 0 ∷ 9 ∷ 9 ∷ 9 ∷ 9 ∷ 9 ∷ 9 ∷ 9 ∷ 9 ∷ []

-- An empty ring in the middle of its array, and one that holds three bytes.
abbrev empty_ring : RecvBuffer
empty_ring = record { front = 50; rear = 50; buffer = λ k. 0 }

abbrev ring : RecvBuffer
ring = record { front = 0; rear = 3; buffer = λ k. 7 }

abbrev session : EchoSession
session = record { recv_buffer = empty_ring; send_buffer = ring; closes = 0 }

session-BothValid : BothValid session
session-BothValid = record {
  recv_valid = record { front_in = omega arith; rear_in = omega arith };
  send_valid = record { front_in = omega arith; rear_in = omega arith };
}

ping-IsPing : IsPing ping
unfolding header_size
ping-IsPing = record { size = refl; says = refl }

do_recv-replies_example :
    (t : EchoSession) × (do_recv session (received (ping ++ 12 ∷ [])) clock ≡ some (true, t))
    × BothValid t
    × (contents t.recv_buffer ≡ 12 ∷ [])
    × (contents t.send_buffer ≡ contents ring ++ replies clock 0 (ping ∷ []))
do_recv-replies_example =
    do_recv-replies session (ping ++ 12 ∷ []) clock (ping ∷ []) (12 ∷ []) (λ i. refl)
      session-BothValid (unfold get_direct_write_size in omega arith)
      (unfold concat span load in refl) (ping-IsPing, tt) (omega arith)
      (unfold get_direct_write_size in omega arith)
