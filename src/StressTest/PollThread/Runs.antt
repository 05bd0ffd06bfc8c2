-- ===== src/StressTest/PollThread/Runs.antt =====
-- The loops of `ConnectClients`, and `Run` as a whole.
use my_server_project.Common.{
  ℕ, zero, suc, ◌+◌, ◌≡◌, refl, ap, ◌∙◌, Bool, true, false, Option, none, some, List, [], ◌∷◌, ◌++◌,
  ◌==◌, if◌then◌else◌, length, ◌>>=◌, arith,
}
use my_server_project.StressTest.PollThread.{PollThread, create, find_client}
use my_server_project.StressTest.PollThread.Connect.{
  Fresh, nonblock_mode, Connect, no_socket, connected, pending, refused, connect_one,
  connect_sockets, ConnectPoll, poll_error, timeout, reported, take_reported, take_all_reported,
  poll_pass, connect_rounds, connect_clients,
}
use my_server_project.StressTest.PollThread.Counts.{IsConnecting, add_client-IsConnecting}

module _ (fresh : ℕ → Fresh) (ticks : (k : ℕ) → length (fresh k).tick ≡ 8) where
  connect_one-IsConnecting :
      (c : Connect) (p : PollThread) (fds : List ℕ)
      → IsConnecting p
      → (q : PollThread) × (gs : List ℕ) × (connect_one fresh p fds c ≡ some (q, gs))
        × IsConnecting q
  unfolding connect_one
  connect_one-IsConnecting no_socket p fds x = (p, fds, refl, x)
  connect_one-IsConnecting (connected fd) p fds x =
      let (q, e, y) = add_client-IsConnecting fresh p fd ticks x in
      (q, fds, ap (λ o. o >>= λ q. some (q, fds)) e, y)
  connect_one-IsConnecting (pending fd) p fds x = (p, fds ++ fd ∷ [], refl, x)
  connect_one-IsConnecting (refused fd) p fds x = (p, fds, refl, x)

  connect_sockets-IsConnecting :
      (left : ℕ) (outcome : ℕ → ℕ → Connect) (count : ℕ) (p : PollThread) (fds : List ℕ)
      → IsConnecting p
      → (q : PollThread) × (gs : List ℕ) × (connect_sockets left fresh outcome count p fds
          ≡ some (q, gs))
        × IsConnecting q
  unfolding connect_sockets
  connect_sockets-IsConnecting zero outcome count p fds x = (p, fds, refl, x)
  connect_sockets-IsConnecting (suc left) outcome count p fds x =
      let (q, gs, e, y) = connect_one-IsConnecting (outcome nonblock_mode count) p fds x in
      let (r, hs, e2, z) = connect_sockets-IsConnecting left outcome (suc count) q gs y in
      (
        r,
        hs,
        ap (λ o. o >>= λ (q, gs). connect_sockets left fresh outcome (suc count) q gs) e ∙ e2,
        z,
      )

  take_reported-IsConnecting :
      (o : Option Bool) (p : PollThread) (fd : ℕ)
      → IsConnecting p
      → (q : PollThread) × (take_reported fresh p fd o ≡ some q) × IsConnecting q
  unfolding take_reported
  take_reported-IsConnecting none p fd x = (p, refl, x)
  take_reported-IsConnecting (some true) p fd x = add_client-IsConnecting fresh p fd ticks x
  take_reported-IsConnecting (some false) p fd x = (p, refl, x)

  take_all-IsConnecting :
      (fds : List ℕ) (p : PollThread) (writable : ℕ → Option Bool)
      → IsConnecting p
      → (q : PollThread) × (take_all_reported fresh p fds writable ≡ some q) × IsConnecting q
  unfolding take_all_reported
  take_all-IsConnecting [] p writable x = (p, refl, x)
  take_all-IsConnecting (fd ∷ fds) p writable x =
      let (q, e, y) = take_reported-IsConnecting (writable fd) p fd x in
      let (r, e2, z) = take_all-IsConnecting fds q writable y in
      (r, ap (λ o. o >>= λ q. take_all_reported fresh q fds writable) e ∙ e2, z)

  poll_pass-IsConnecting :
      (c : ConnectPoll) (p : PollThread) (fds : List ℕ) (result : ℕ)
      → IsConnecting p
      → (q : PollThread) × (n : ℕ) × (poll_pass fresh p fds result c ≡ some (q, n)) × IsConnecting q
  unfolding poll_pass
  poll_pass-IsConnecting poll_error p fds result x = (p, result, refl, x)
  poll_pass-IsConnecting timeout p fds result x = (p, result, refl, x)
  poll_pass-IsConnecting (reported n writable) p fds result x =
      let (q, e, y) = take_all-IsConnecting fds p writable x in
      (q, result + n, ap (λ o. o >>= λ q. some (q, result + n)) e, y)

  -- By the test of a pass.
  tested :
      (b : Bool) (p : PollThread) (o : Option PollThread)
      → IsConnecting p
      → (q : PollThread) × (o ≡ some q) × IsConnecting q
      → (q : PollThread) × ((if b then some p else o) ≡ some q) × IsConnecting q
  tested true p o x y = (p, refl, x)
  tested false p o x y = y

  connect_rounds-IsConnecting :
      (left : ℕ) (polls : ℕ → ConnectPoll) (i : ℕ) (p : PollThread) (fds : List ℕ) (result : ℕ)
      → IsConnecting p
      → (q : PollThread) × (connect_rounds left fresh polls i p fds result ≡ some q)
        × IsConnecting q
  unfolding connect_rounds
  connect_rounds-IsConnecting zero polls i p fds result x = (p, refl, x)
  connect_rounds-IsConnecting (suc left) polls i p fds result x =
      let (q, n, e, y) = poll_pass-IsConnecting (polls i) p fds result x in
      let (r, e2, z) = connect_rounds-IsConnecting left polls (suc i) q fds n y in
      tested (result == length fds) p
        (poll_pass fresh p fds result (polls i) >>= λ (q, n).
          connect_rounds left fresh polls (suc i) q fds n)
        x (r, ap (λ o. o >>= λ (q, n). connect_rounds left fresh polls (suc i) q fds n) e ∙ e2, z)

  -- Whatever `socket`, `connect` and `WSAPoll` answer, `ConnectClients` of a new thread ends, and leaves
  -- a thread whose clients have valid rings and open sockets, each in the map once, with at least as many
  -- clients counted as there are.
  pub connect_clients-IsConnecting :
      (outcome : ℕ → ℕ → Connect) (polls : ℕ → ConnectPoll) (max_client_count : ℕ)
      → (q : PollThread) × (connect_clients fresh outcome polls (create max_client_count) ≡ some q)
        × IsConnecting q
  unfolding connect_clients create find_client
  connect_clients-IsConnecting outcome polls max_client_count =
      let new : IsConnecting (create max_client_count) = record {
        serving = record { distinct = tt; clients = λ fd s e. ground arith };
        counted = omega arith;
      } in
      let (q, fds, e, x) =
        connect_sockets-IsConnecting max_client_count outcome 0 (create max_client_count) [] new in
      let (r, e2, y) =
        tested (length fds == 0) q (connect_rounds 6 fresh polls 0 q fds 0) x
          (connect_rounds-IsConnecting 6 polls 0 q fds 0 x) in
      (
        r,
        ap
              (λ o. o >>= λ (q, fds).
                if length fds == 0 then some q else connect_rounds 6 fresh polls 0 q fds 0)
              e
            ∙ e2,
        y,
      )
