-- ===== src/StressTest/PollThread/Turns.antt =====
-- The loop over all clients, turn after turn, and the end.
use my_server_project.Common.{
  ℕ, ◌≡◌, ◌≢◌, inl, inr, refl, sym, ap, ◌∙◌, Bool, Bool-cases, true, false, if◌then◌else◌, Option,
  none, some, List, [], ◌∷◌, ◌++◌, ◌==◌, All, All-mono, NotIn, Distinct, length, ◌>>=◌, arith,
}
use mathlib.Core.Path.{subst}
use my_server_project.StressTest.{EchoSession}
use my_server_project.StressTest.PollThread.{
  PollThread, Table, find_client, Ready, serve, settle, poll_client, poll_clients, sockets, loop,
  clear, Round, turn, stop_called, end_turns, stop, turns,
}
use my_server_project.StressTest.PollThread.Table.{IsFound, sockets-IsFound}
use my_server_project.StressTest.PollThread.Serving.{Answers, serve_lem}
use my_server_project.StressTest.PollThread.Settling.{
  IsServing, has, or_true, IsAccounted, Settles, settle-Settles,
}

-- A polled client that is in the map, with answers that are asked of `recv` and `send`.
abbrev IsReady : PollThread → (ℕ → Ready) → (ℕ → ℕ → List ℕ) → ℕ → Type 0
IsReady p ready clock fd =
    (s : EchoSession) × (find_client p.poll_fds fd ≡ some s) × Answers s (ready fd) (clock fd)

poll_client-Settles :
    (p : PollThread) (ready : ℕ → Ready) (clock : ℕ → ℕ → List ℕ) (fd : ℕ)
    → ((k i : ℕ) → length (clock k i) ≡ 8)
    → IsServing p
    → IsReady p ready clock fd
    → (q : PollThread) × (poll_client p fd (ready fd) (clock fd) ≡ some q) × Settles p fd q
unfolding poll_client
poll_client-Settles p ready clock fd ticks x (s, found, answers) =
    let r = ready fd in
    let (v, c) = x.clients fd s found in
    let (ok1, ok2, t, e, tv, closes) = serve_lem s r (clock fd) (ticks fd) v answers in
    (
      settle p fd r.error (ok1, ok2, t),
      ap (λ o. o >>= λ s. serve s r (clock fd) >>= λ o. some (settle p fd r.error o)) found
          ∙ ap (λ o. o >>= λ o. some (settle p fd r.error o)) e,
      settle-Settles r.error ok1 ok2 p fd s t x found tv (omega arith),
    )

All-other :
    {P Q : ℕ → Type 0} (fd : ℕ) (fds : List ℕ)
    → NotIn fd fds
    → ((k : ℕ) → k ≢ fd → P k → Q k)
    → All P fds
    → All Q fds
All-other fd [] n f a = tt
All-other fd (k ∷ fds) n f a = (f k n.0 a.0, All-other fd fds n.1 f a.1)

poll_clients_lem :
    (fds : List ℕ) (p : PollThread) (ready : ℕ → Ready) (clock : ℕ → ℕ → List ℕ)
    → ((k i : ℕ) → length (clock k i) ≡ 8)
    → Distinct fds
    → IsServing p
    → All (IsReady p ready clock) fds
    → (q : PollThread) × (poll_clients p fds ready clock ≡ some q)
      × IsServing q
      × ((k : ℕ) → IsAccounted p k → IsAccounted q k)
unfolding poll_clients
poll_clients_lem [] p ready clock ticks d x a = (p, refl, x, λ k y. y)
poll_clients_lem (fd ∷ fds) p ready clock ticks d x a =
    let (q, e, (serving, others, accounted)) = poll_client-Settles p ready clock fd ticks x a.0 in
    let still : All (IsReady q ready clock) fds =
      All-other {P = IsReady p ready clock} {Q = IsReady q ready clock} fd fds d.0
        (λ k other (s, found, answers). (s, others k other ∙ found, answers)) a.1 in
    let (z, e2, serving2, accounted2) =
      poll_clients_lem fds q ready clock ticks d.1 serving still in
    (
      z,
      ap (λ o. o >>= λ q. poll_clients q fds ready clock) e ∙ e2,
      serving2,
      λ k y. accounted2 k (accounted k y),
    )

-- What is asked of a turn's answers.
abbrev pub IsAnswered : PollThread → Option (ℕ → Ready) → (ℕ → ℕ → List ℕ) → Type 0
IsAnswered p none clock = Unit {0}
IsAnswered p (some ready) clock =
    (fd : ℕ) (s : EchoSession)
    → find_client p.poll_fds fd ≡ some s
    → Answers s (ready fd) (clock fd)

loop_lem :
    (r : Option (ℕ → Ready)) (p : PollThread) (clock : ℕ → ℕ → List ℕ)
    → ((k i : ℕ) → length (clock k i) ≡ 8)
    → IsServing p
    → IsAnswered p r clock
    → (q : PollThread) × (loop p r clock ≡ some q)
      × IsServing q
      × ((k : ℕ) → IsAccounted p k → IsAccounted q k)
unfolding loop
loop_lem none p clock ticks x a = (p, refl, x, λ k y. y)
loop_lem (some ready) p clock ticks x a =
    poll_clients_lem (sockets p.poll_fds) p ready clock ticks x.distinct x (
      All-mono (IsFound p.poll_fds) {Q = IsReady p ready clock} (sockets p.poll_fds)
        (λ fd (s, found). (s, found, a fd s found)) (sockets-IsFound p.poll_fds x.distinct))

abbrev pub after : PollThread → Option PollThread → PollThread
after p none = p
after p (some q) = q

abbrev pub AllAnswered : PollThread → List Round → (ℕ → ℕ → List ℕ) → Type 0
AllAnswered p [] clock = Unit {0}
AllAnswered p (stop_called ∷ rs) clock = Unit {0}
AllAnswered p (turn r ∷ rs) clock =
    IsAnswered p r clock × AllAnswered (after p (loop p r clock)) rs clock

-- `Stop` is called.
abbrev pub Stops : List Round → Type 0
Stops [] = ⊥
Stops (stop_called ∷ rs) = Unit {0}
Stops (turn r ∷ rs) = Stops rs

has-sockets :
    (t : Table) (fd : ℕ) (s : EchoSession) (cs : List ℕ)
    → find_client t fd ≡ some s
    → has fd (sockets t ++ cs) ≡ true
unfolding find_client
has-sockets [] fd s cs e = ground arith
has-sockets ((k, x) ∷ rest) fd s cs e = elim (Bool-cases (k == fd)) [
  | inl same ↦ rw same
  | inr other ↦ rw other (has-sockets rest fd s cs (rw other at e))
]

has-append : (fd : ℕ) (xs cs : List ℕ) → has fd cs ≡ true → has fd (xs ++ cs) ≡ true
has-append fd [] cs h = h
has-append fd (x ∷ xs) cs h = rw (has-append fd xs cs h) (or_true (x == fd))

clear-has : (p : PollThread) (fd : ℕ) → IsAccounted p fd → has fd (clear p).closed ≡ true
unfolding clear
clear-has p fd (inl (s, e)) = has-sockets p.poll_fds fd s p.closed e
clear-has p fd (inr h) = has-append fd (sockets p.poll_fds) p.closed h

-- What a thread comes to that cleared its map.
abbrev Closes : PollThread → Option PollThread → Type 0
Closes p o =
    (q : PollThread) × (o ≡ some q)
    × (q.poll_fds ≡ [])
    × ((k : ℕ) → IsAccounted p k → has k q.closed ≡ true)

clear-Closes : (p : PollThread) → Closes p (some (clear p))
clear-Closes p = (clear p, refl, unfold clear in refl, clear-has p)

-- Once the flag is off there are no more turns.
stopped-Closes :
    (rs : List Round) (p : PollThread) (clock : ℕ → ℕ → List ℕ)
    → p.is_running ≡ false
    → Closes p (turns p rs clock)
unfolding turns end_turns stop
stopped-Closes [] p clock off =
    subst (λ b. Closes p (some (if b then p else clear p))) (sym off) (clear-Closes p)
stopped-Closes (stop_called ∷ rs) p clock off = stopped-Closes rs (stop p) clock refl
stopped-Closes (turn r ∷ rs) p clock off =
    subst (λ b. Closes p (if b then (loop p r clock >>= λ q. turns q rs clock) else some (clear p)))
      (sym off) (clear-Closes p)

-- By the test of the flag.
tested :
    (b : Bool) (p : PollThread) (o : Option PollThread)
    → Closes p o
    → Closes p (if b then o else some (clear p))
tested true p o x = x
tested false p o x = clear-Closes p

-- From a thread whose clients have valid rings and open sockets, each in the map once, through any turns
-- of the loop before `Stop` is called, failed polls included, in which `recv` delivers no more than it is
-- offered and `send`, where it is called, is given something and takes some of it or fails, with ticks of
-- 8 bytes: no turn is undefined, in particular none looks for a client that is gone, and after `Clear`
-- the map is empty and every socket that was served has been closed.
pub turns-closed :
    (rs : List Round) (p : PollThread) (clock : ℕ → ℕ → List ℕ)
    → ((k i : ℕ) → length (clock k i) ≡ 8)
    → IsServing p
    → AllAnswered p rs clock
    → Stops rs
    → (q : PollThread) × (turns p rs clock ≡ some q)
      × (q.poll_fds ≡ [])
      × ((k : ℕ) → IsAccounted p k → has k q.closed ≡ true)
unfolding turns stop
turns-closed [] p clock ticks x a called = absurd called
turns-closed (stop_called ∷ rs) p clock ticks x a called = stopped-Closes rs (stop p) clock refl
turns-closed (turn r ∷ rs) p clock ticks x (now, later) called =
    let (q, e, serving, accounted) = loop_lem r p clock ticks x now in
    let (z, e2, empty, all) =
      turns-closed rs q clock ticks serving (subst (λ o. AllAnswered (after p o) rs clock) e later)
        called in
    tested p.is_running p (loop p r clock >>= λ q. turns q rs clock)
      (z, ap (λ o. o >>= λ q. turns q rs clock) e ∙ e2, empty, λ k y. all k (accounted k y))
