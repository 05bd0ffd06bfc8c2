-- ===== src/StressTest/PollThread/Settling.antt =====
-- What the end of a client's turn leaves of the map, and of the sockets that were closed.
use my_server_project.Common.{
  some_inj, ℕ, zero, suc, ◌+◌, ◌≤◌, ◌≡◌, ◌≢◌, ◌⊎◌, inl, inr, refl, sym, ◌∙◌, Bool, true, false,
  ◌||◌, some, List, [], ◌∷◌, ◌++◌, ◌==◌, ==_self, Distinct, apart, arith,
}
use mathlib.Core.Path.{subst}
use my_server_project.StressTest.{EchoSession}
use my_server_project.StressTest.Echo.{BothValid}
use my_server_project.StressTest.PollThread.{
  PollThread, find_client, set_client, erase_client, copies, settle, sockets,
}
use my_server_project.StressTest.PollThread.Table.{
  find-set_self, find-set_other, find-erase_other, find-erase_self, sockets-set, Distinct-erase,
  IsFound,
}
use my_server_project.StressTest.PollThread.Serving.{failures}

-- Every client of the map has valid rings and an open socket, and no socket is there twice.
pub record IsServing (p : PollThread) : Type 0 where
  pub distinct : Distinct (sockets p.poll_fds)
  pub clients :
      (fd : ℕ) (s : EchoSession) → find_client p.poll_fds fd ≡ some s → BothValid s × (s.closes ≡ 0)

pub or_true : (b : Bool) → (b || true) ≡ true
or_true true = refl
or_true false = refl

-- Whether a socket is in a list.
abbrev pub has : ℕ → List ℕ → Bool
has fd [] = false
has fd (x ∷ xs) = (x == fd) || has fd xs

-- A socket that is served, or has been closed.
abbrev pub IsAccounted : PollThread → ℕ → Type 0
IsAccounted p fd = IsFound p.poll_fds fd ⊎ (has fd p.closed ≡ true)

-- What a client's turn leaves: the others as they were, and every socket accounted for.
abbrev pub Settles : PollThread → ℕ → PollThread → Type 0
Settles p fd q =
    IsServing q
    × ((k : ℕ) → k ≢ fd → find_client q.poll_fds k ≡ find_client p.poll_fds k)
    × ((k : ℕ) → IsAccounted p k → IsAccounted q k)

drop-Settles :
    (p : PollThread) (fd : ℕ) (cs : List ℕ)
    → IsServing p
    → has fd cs ≡ true
    → ((k : ℕ) → has k p.closed ≡ true → has k cs ≡ true)
    → Settles p fd (record p { closed = cs; poll_fds = erase_client p.poll_fds fd })
drop-Settles p fd cs x own mono =
    let q : PollThread = record p { closed = cs; poll_fds = erase_client p.poll_fds fd } in
    let gone = find-erase_self p.poll_fds fd x.distinct in
    (
      record {
        distinct = Distinct-erase p.poll_fds fd x.distinct;
        clients =
            apart
              (λ k.
                (s : EchoSession)
                → find_client q.poll_fds k ≡ some s
                → BothValid s × (s.closes ≡ 0))
              fd (λ s e. absurd (let both = sym gone ∙ e in ground arith))
              (λ k other s e. x.clients k s (sym (find-erase_other p.poll_fds fd k other) ∙ e));
      },
      λ k other. find-erase_other p.poll_fds fd k other,
      apart (λ k. IsAccounted p k → IsAccounted q k) fd (λ a. inr own)
          (λ k other a. elim a [
            | inl (s, e) ↦ inl (s, find-erase_other p.poll_fds fd k other ∙ e)
            | inr h ↦ inr (mono k h)
          ]),
    )

set-Settles :
    (p : PollThread) (fd : ℕ) (old t : EchoSession)
    → IsServing p
    → find_client p.poll_fds fd ≡ some old
    → BothValid t
    → t.closes ≡ 0
    → Settles p fd (record p { poll_fds = set_client p.poll_fds fd t })
set-Settles p fd old t x found v c =
    let q : PollThread = record p { poll_fds = set_client p.poll_fds fd t } in
    let there = find-set_self p.poll_fds fd old t found in
    (
      record {
        distinct = subst Distinct (sym (sockets-set p.poll_fds fd t)) x.distinct;
        clients =
            apart
              (λ k.
                (s : EchoSession)
                → find_client q.poll_fds k ≡ some s
                → BothValid s × (s.closes ≡ 0))
              fd
              (λ s e. subst (λ s. BothValid s × (s.closes ≡ 0)) (some_inj (sym there ∙ e)) (v, c))
              (λ k other s e. x.clients k s (sym (find-set_other p.poll_fds fd k t other) ∙ e));
      },
      λ k other. find-set_other p.poll_fds fd k t other,
      apart (λ k. IsAccounted p k → IsAccounted q k) fd (λ a. inl (t, there))
          (λ k other a. elim a [
            | inl (s, e) ↦ inl (s, find-set_other p.poll_fds fd k t other ∙ e)
            | inr h ↦ inr h
          ]),
    )

has-copies : (k n fd : ℕ) (cs : List ℕ) → has k cs ≡ true → has k (copies n fd ++ cs) ≡ true
has-copies k zero fd cs h = h
has-copies k (suc n) fd cs h = rw (has-copies k n fd cs h) (or_true (fd == k))

own-copies : (n fd : ℕ) (cs : List ℕ) → 1 ≤ n → has fd (copies n fd ++ cs) ≡ true
own-copies zero fd cs h = absurd (omega arith)
own-copies (suc n) fd cs h = rw (==_self fd)

failed-Settles :
    (p : PollThread) (fd n : ℕ)
    → IsServing p
    → 1 ≤ n
    → Settles p fd
        (record p { closed = copies n fd ++ p.closed; poll_fds = erase_client p.poll_fds fd })
failed-Settles p fd n x some_closes =
    drop-Settles p fd (copies n fd ++ p.closed) x (own-copies n fd p.closed some_closes)
      (λ k h. has-copies k n fd p.closed h)

pub settle-Settles :
    (error ok1 ok2 : Bool) (p : PollThread) (fd : ℕ) (old t : EchoSession)
    → IsServing p
    → find_client p.poll_fds fd ≡ some old
    → BothValid t
    → t.closes ≡ failures ok2 + (failures ok1 + 0)
    → Settles p fd (settle p fd error (ok1, ok2, t))
unfolding settle
settle-Settles true ok1 ok2 p fd old t x found v c =
    drop-Settles p fd (fd ∷ copies t.closes fd ++ p.closed) x (rw (==_self fd))
      (λ k h. rw (has-copies k t.closes fd p.closed h) (or_true (fd == k)))
settle-Settles false true true p fd old t x found v c =
    set-Settles p fd old t x found v (omega arith)
settle-Settles false true false p fd old t x found v c =
    failed-Settles p fd t.closes x (omega arith)
settle-Settles false false true p fd old t x found v c =
    failed-Settles p fd t.closes x (omega arith)
settle-Settles false false false p fd old t x found v c =
    failed-Settles p fd t.closes x (omega arith)
