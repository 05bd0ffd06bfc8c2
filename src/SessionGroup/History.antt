-- ===== src/SessionGroup/History.antt =====
-- The table from its construction on: every history in which sessions are added while a free index
-- is within the vector, and deleted once each, is served.
use my_server_project.Common.{
  ℕ, zero, suc, ◌≤◌, ◌<◌, ◌≡◌, true, some, List, [], ◌∷◌, ◌++◌, map, append-nil, length,
  length-replicate, All, Distinct, All-mono, Distinct-append_right, arith,
}
use my_server_project.SessionGroup.{
  SessionGroup, Slot, get_index, make_session_id, construct, push_down, add_session, delete_session,
  get_session,
}
use my_server_project.SessionGroup.Table.{
  Serves, IsStored, stored_in, get_session-stored, add_session-Serves, delete_session-Serves,
}

push_down-bounded :
    (n m : ℕ) (pool : List ℕ) → n ≤ m → All (λ i. i ≤ m) pool → All (λ i. i ≤ m) (push_down n pool)
unfolding push_down
push_down-bounded zero m pool h p = (h, p)
push_down-bounded (suc n) m pool h p = push_down-bounded n m (suc n ∷ pool) (omega arith) (h, p)

push_down-Distinct :
    (n : ℕ) (pool : List ℕ) → All (λ i. n < i) pool → Distinct pool → Distinct (push_down n pool)
unfolding push_down
push_down-Distinct zero pool h d = (All-mono (λ i. 0 < i) pool (λ i p. omega arith) h, d)
push_down-Distinct (suc n) pool h d =
    push_down-Distinct n (suc n ∷ pool)
      (omega arith, All-mono (λ i. suc n < i) pool (λ i p. omega arith) h)
      (All-mono (λ i. suc n < i) pool (λ i p. omega arith) h, d)

-- A table constructed within the asserted range serves no session yet, whatever its storage held.
pub construct-Serves :
    (raw : Slot) (unique n : ℕ) → 0 < n → n < 65535 → Serves (construct raw unique n) []
unfolding construct
construct-Serves raw unique n pos small = record {
  size = length-replicate n raw;
  small = small;
  bounded = push_down-bounded n n [] (omega arith) tt;
  distinct = rw append-nil (push_down-Distinct n [] tt tt);
  stored = tt;
}

-- The tables that a server reaches, with the ids that are live.
pub data Reaches : SessionGroup → List ℕ → Type 0 where
  start :
      (raw : Slot) (unique n : ℕ) {g : SessionGroup}
      → 0 < n
      → n < 65535
      → g ≡ construct raw unique n
      → Reaches g []
  adds :
      {g : SessionGroup} {live : List ℕ} (fd i : ℕ) (pool : List ℕ) (id : ℕ) {h : SessionGroup}
      → Reaches g live
      → g.index_pool ≡ i ∷ pool
      → i < g.max_session
      → add_session g fd ≡ some (id, h)
      → Reaches h (id ∷ live)
  deletes :
      {g : SessionGroup} {live : List ℕ} (before : List ℕ) (id : ℕ) (after : List ℕ)
      {h : SessionGroup} {rest : List ℕ}
      → Reaches g live
      → live ≡ before ++ id ∷ after
      → rest ≡ before ++ after
      → delete_session g id ≡ some (true, h)
      → Reaches h rest

Reaches-Serves : {g : SessionGroup} {live : List ℕ} → Reaches g live → Serves g live
Reaches-Serves (start raw unique n pos small e) = rw e (construct-Serves raw unique n pos small)
Reaches-Serves {live = live} (adds {g = g} {live = old} fd i pool id {h = h} r e lt add) =
    let (h', eq, serves, fresh, rest) =
      add_session-Serves g old fd i pool (Reaches-Serves r) e lt in
    let same_id : id ≡ make_session_id g.unique_number i = cc in
    let same : h ≡ h' = cc in rw (same, same_id) serves
Reaches-Serves (deletes {g = g} before id after {h = h} r l m del) =
    let (h', eq, serves, rest) =
      delete_session-Serves g before id after (rw l at (Reaches-Serves r)) in
    let same : h ≡ h' = cc in rw (m, same) serves

-- In every history from the constructor on in which a session is added only while the next free
-- index is within the vector, and only live ones are deleted, `GetSession` finds each live id, at
-- an index that no other live id has and that lies in the vector.
pub Reaches-found :
    {g : SessionGroup} {live : List ℕ}
    → Reaches g live
    → All (λ id. get_session g id ≡ some (some (get_index id))) live
      × Distinct (map get_index live)
      × All (λ id. get_index id < length g.sessions) live
Reaches-found {g} {live} r =
    let s : Serves g live = Reaches-Serves r in
    (
      All-mono (IsStored g) live (get_session-stored g) s.stored,
      Distinct-append_right g.index_pool (map get_index live) s.distinct,
      All-mono (IsStored g) live (λ id h. stored_in g.sessions (get_index id) id h) s.stored,
    )
