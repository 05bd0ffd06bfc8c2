-- ===== src/StressTest/PollThread/Counts.antt =====
-- A client added while a thread connects: its session, and the count.
use my_server_project.Common.{
  ℕ, suc, ◌≤◌, ◌≡◌, ◌≢◌, refl, sym, ap, ◌∙◌, Bool-cases, Option, none, some, some_inj, [], ◌∷◌,
  ◌==◌, ==_self, ne→==, inl, inr, NotIn, apart, length, ◌>>=◌, arith,
}
use mathlib.Core.Path.{subst}
use my_server_project.RecvBuffer.{RecvBuffer, reset, write}
use my_server_project.RecvBuffer.Bounds.{IsValid}
use my_server_project.StressTest
use my_server_project.StressTest.{EchoSession}
use my_server_project.StressTest.Echo.{BothValid, write_total}
use my_server_project.StressTest.PollThread.{PollThread, Table, find_client, sockets}
use my_server_project.StressTest.PollThread.Settling.{IsServing}
use my_server_project.StressTest.PollThread.Connect.{Fresh, insert_at, insert_client, add_client}

reset-IsValid : (r : RecvBuffer) → IsValid (reset r)
unfolding reset
reset-IsValid r = record { front_in = omega arith; rear_in = omega arith }

-- A new session has valid rings and an open socket.
pub construct_lem :
    (f : Fresh)
    → length f.tick ≡ 8
    → (s : EchoSession) × (StressTest.construct f.raw_recv f.raw_send f.tick ≡ some s)
      × BothValid s
      × (s.closes ≡ 0)
unfolding StressTest.construct
construct_lem f e =
    let (ok, d, e1, dv) =
      write_total (reset f.raw_send) (12 ∷ 0 ∷ 0 ∷ 0 ∷ []) 4 (reset-IsValid f.raw_send)
        (omega arith) in
    let (ok2, b, e2, bv) = write_total d f.tick 8 dv (omega arith) in
    let made : RecvBuffer → EchoSession =
      λ b. record { recv_buffer = reset f.raw_recv; send_buffer = b; closes = 0 } in
    (
      made b,
      ap (λ o. o >>= λ (ok, d). write d f.tick 8 >>= λ (ok2, b). some (made b)) e1
          ∙ ap (λ o. o >>= λ (ok2, b). some (made b)) e2,
      record { recv_valid = reset-IsValid f.raw_recv; send_valid = bv },
      refl,
    )

-- A thread while it connects: it can serve its clients, has closed nothing, and counts each at least once.
pub record IsConnecting (p : PollThread) : Type 0 where
  pub serving : IsServing p
  pub counted : length (sockets p.poll_fds) ≤ p.current_client_count

find-NotIn_none : (t : Table) (fd : ℕ) → find_client t fd ≡ none → NotIn fd (sockets t)
unfolding find_client
find-NotIn_none [] fd e = tt
find-NotIn_none ((k, s) ∷ rest) fd e = elim (Bool-cases (k == fd)) [
  | inl same ↦ absurd (let e' = rw same at e in ground arith)
  | inr other ↦ ((λ x. ground arith), find-NotIn_none rest fd (rw other at e))
]

find_new : (t : Table) (fd : ℕ) (s : EchoSession) → find_client ((fd, s) ∷ t) fd ≡ some s
unfolding find_client
find_new t fd s = rw (==_self fd)

find_old :
    (t : Table) (fd k : ℕ) (s : EchoSession)
    → k ≢ fd
    → find_client ((fd, s) ∷ t) k ≡ find_client t k
unfolding find_client
find_old t fd k s ne = rw (ne→== fd k (λ e. ne (sym e)))

insert_at-IsConnecting :
    (o : Option EchoSession) (p : PollThread) (fd : ℕ) (s : EchoSession)
    → find_client p.poll_fds fd ≡ o
    → BothValid s
    → s.closes ≡ 0
    → IsConnecting p
    → IsConnecting (record p {
      current_client_count = suc p.current_client_count;
      poll_fds = insert_at o p.poll_fds fd s;
    })
unfolding insert_at
insert_at-IsConnecting (some old) p fd s e v c x = record {
  serving = record { distinct = x.serving.distinct; clients = x.serving.clients };
  counted = omega (arith, x.counted);
}
insert_at-IsConnecting none p fd s e v c x = record {
  serving = record {
    distinct = (find-NotIn_none p.poll_fds fd e, x.serving.distinct);
    clients =
        apart
          (λ k.
            (z : EchoSession)
            → find_client ((fd, s) ∷ p.poll_fds) k ≡ some z
            → BothValid z × (z.closes ≡ 0))
          fd
          (λ z y.
            subst (λ z. BothValid z × (z.closes ≡ 0))
              (some_inj (sym (find_new p.poll_fds fd s) ∙ y)) (v, c))
          (λ k other z y. x.serving.clients k z (sym (find_old p.poll_fds fd k s other) ∙ y));
  };
  counted = omega (arith, x.counted);
}

pub add_client-IsConnecting :
    (fresh : ℕ → Fresh) (p : PollThread) (fd : ℕ)
    → ((k : ℕ) → length (fresh k).tick ≡ 8)
    → IsConnecting p
    → (q : PollThread) × (add_client fresh p fd ≡ some q) × IsConnecting q
unfolding add_client insert_client
add_client-IsConnecting fresh p fd ticks x =
    let (s, e, v, c) = construct_lem (fresh fd) (ticks fd) in
    (
      record p {
        current_client_count = suc p.current_client_count;
        poll_fds = insert_at (find_client p.poll_fds fd) p.poll_fds fd s;
      },
      ap
          (λ o. o >>= λ s. some (record p {
            current_client_count = suc p.current_client_count;
            poll_fds = insert_client p.poll_fds fd s;
          }))
          e,
      insert_at-IsConnecting (find_client p.poll_fds fd) p fd s refl v c x,
    )
