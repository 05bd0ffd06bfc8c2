-- ===== src/StressTest/PollThread/Table.antt =====
-- The map of the clients.
use my_server_project.Common.{
  ℕ, ◌≡◌, ◌≢◌, refl, sym, ap, Bool-cases, false, none, some, List, [], ◌∷◌, ◌==◌, ==_self, ne→==,
  if◌then◌else◌, inl, inr, All, NotIn, Distinct, arith,
}
use mathlib.Core.Path.{subst}
use my_server_project.StressTest.{EchoSession}
use my_server_project.StressTest.PollThread.{Table, find_client, set_client, erase_client, sockets}

pub find-set_self :
    (t : Table) (fd : ℕ) (old s : EchoSession)
    → find_client t fd ≡ some old
    → find_client (set_client t fd s) fd ≡ some s
unfolding find_client set_client
find-set_self [] fd old s e = ground arith
find-set_self ((k, x) ∷ rest) fd old s e = elim (Bool-cases (k == fd)) [
  | inl same ↦ rw (same, find_client, same) refl
  | inr other ↦ rw (other, find_client, other) (find-set_self rest fd old s (rw other at e))
]

pub find-set_other :
    (t : Table) (fd k : ℕ) (s : EchoSession)
    → k ≢ fd
    → find_client (set_client t fd s) k ≡ find_client t k
unfolding find_client set_client
find-set_other [] fd k s ne = refl
find-set_other ((h, x) ∷ rest) fd k s ne = elim (Bool-cases (h == fd)) [
  | inl same ↦
      let different : (h == k) ≡ false = ne→== h k (λ e. ne (ground arith)) in
      rw (same, find_client, different) refl
  | inr other ↦
      rw (other, find_client)
        (ap (λ o. if h == k then some x else o) (find-set_other rest fd k s ne))
]

pub find-erase_other :
    (t : Table) (fd k : ℕ) → k ≢ fd → find_client (erase_client t fd) k ≡ find_client t k
unfolding find_client erase_client
find-erase_other [] fd k ne = refl
find-erase_other ((h, x) ∷ rest) fd k ne = elim (Bool-cases (h == fd)) [
  | inl same ↦
      let different : (h == k) ≡ false = ne→== h k (λ e. ne (ground arith)) in
      rw (same, different) refl
  | inr other ↦
      rw (other, find_client)
        (ap (λ o. if h == k then some x else o) (find-erase_other rest fd k ne))
]

pub find-NotIn : (t : Table) (fd : ℕ) → NotIn fd (sockets t) → find_client t fd ≡ none
unfolding find_client
find-NotIn [] fd n = refl
find-NotIn ((h, x) ∷ rest) fd n = rw (ne→== h fd n.0) (find-NotIn rest fd n.1)

pub find-erase_self :
    (t : Table) (fd : ℕ) → Distinct (sockets t) → find_client (erase_client t fd) fd ≡ none
unfolding find_client erase_client
find-erase_self [] fd d = refl
find-erase_self ((h, x) ∷ rest) fd d = elim (Bool-cases (h == fd)) [
  | inl same ↦
      let e : h ≡ fd = ground arith in
      rw same (subst (λ z. find_client rest z ≡ none) e (find-NotIn rest h d.0))
  | inr other ↦ rw (other, find_client, other) (find-erase_self rest fd d.1)
]

pub sockets-set : (t : Table) (fd : ℕ) (s : EchoSession) → sockets (set_client t fd s) ≡ sockets t
unfolding set_client
sockets-set [] fd s = refl
sockets-set ((h, x) ∷ rest) fd s = elim (Bool-cases (h == fd)) [
  | inl same ↦ rw same refl
  | inr other ↦ rw other (ap (λ xs. h ∷ xs) (sockets-set rest fd s))
]

NotIn-erase : (t : Table) (fd k : ℕ) → NotIn k (sockets t) → NotIn k (sockets (erase_client t fd))
unfolding erase_client
NotIn-erase [] fd k n = n
NotIn-erase ((h, x) ∷ rest) fd k n = elim (Bool-cases (h == fd)) [
  | inl same ↦ rw same n.1
  | inr other ↦ rw other (n.0, NotIn-erase rest fd k n.1)
]

pub Distinct-erase :
    (t : Table) (fd : ℕ) → Distinct (sockets t) → Distinct (sockets (erase_client t fd))
unfolding erase_client
Distinct-erase [] fd d = d
Distinct-erase ((h, x) ∷ rest) fd d = elim (Bool-cases (h == fd)) [
  | inl same ↦ rw same d.1
  | inr other ↦ rw other (NotIn-erase rest fd h d.0, Distinct-erase rest fd d.1)
]

abbrev pub IsFound : Table → ℕ → Type 0
IsFound t fd = (s : EchoSession) × (find_client t fd ≡ some s)

IsFound-under :
    (rest : Table) (h : ℕ) (x : EchoSession) (fds : List ℕ)
    → NotIn h fds
    → All (IsFound rest) fds
    → All (IsFound ((h, x) ∷ rest)) fds
unfolding find_client
IsFound-under rest h x [] n f = tt
IsFound-under rest h x (fd ∷ fds) n f =
    let (s, e) = f.0 in
    ((s, rw (ne→== h fd (λ same. n.0 (sym same))) e), IsFound-under rest h x fds n.1 f.1)

-- Every socket of the map is found.
pub sockets-IsFound : (t : Table) → Distinct (sockets t) → All (IsFound t) (sockets t)
unfolding find_client
sockets-IsFound [] d = tt
sockets-IsFound ((h, x) ∷ rest) d =
    ((x, rw (==_self h)), IsFound-under rest h x (sockets rest) d.0 (sockets-IsFound rest d.1))
