-- ===== src/SessionGroup/Limits.antt =====
-- The table at its limits: more indices than sessions, no check of an exhausted pool, ids that stay
-- valid after deletion, deletion twice.
use my_server_project.Common.{
  ℕ, zero, suc, ◌+◌, ◌-◌, ◌≤◌, ◌<◌, ◌≡◌, ◌⊎◌, inl, inr, refl, ap, ap₂, ◌∙◌, Option-cases, true,
  some, none, Option, List, [], ◌∷◌, length, length-replicate, length-set, get_elem?_out,
  get_elem?-set_self, arith,
}
use my_server_project.SessionGroup.{
  SessionGroup, Slot, get_index, make_session_id, construct, push_down, add_session, delete_session,
  get_session, free_session,
}
use my_server_project.SessionGroup.Ids.{make_session_id_fields, get_index-lt, make_session_id_next}
use my_server_project.SessionGroup.Table.{
  IsStored, stored_at, slot_id, get_session-replaced, get_session-stored, stored_in,
  delete_session-stored, add_session_lem, added,
}

-- `AddSession` does not look at the index that it is given: with the pool empty (sINVALID_ID) or with
-- the one index past the vector on top, it writes outside the vector.
pub add_session_unchecked :
    (g : SessionGroup) (fd : ℕ)
    → (g.index_pool ≡ [])
      ⊎ ((i : ℕ) × (pool : List ℕ) × (g.index_pool ≡ i ∷ pool) × (length g.sessions ≤ i))
    → add_session g fd ≡ none
unfolding add_session
add_session_unchecked g fd (inl e) = rw (e, add_session)
add_session_unchecked g fd (inr (i, pool, e, h)) = rw (e, add_session, get_elem?_out g.sessions i h)

-- The indices from `i` on.
abbrev pub count_up : ℕ → ℕ → List ℕ
count_up zero i = []
count_up (suc k) i = i ∷ count_up k (suc i)

push_down_lem : (n k m : ℕ) → suc (n + k) ≡ m → push_down n (count_up k (suc n)) ≡ count_up m 0
unfolding push_down
push_down_lem zero k zero e = absurd (omega arith)
push_down_lem zero k (suc m) e = ap (λ j. 0 ∷ count_up j 1) (omega arith)
push_down_lem (suc n) k m e = push_down_lem n (suc k) m (omega arith)

-- `n` sessions added one after another.
unfoldable pub add_sessions : ℕ → SessionGroup → ℕ → Option SessionGroup
add_sessions zero g fd = some g
add_sessions (suc n) g fd = elim (add_session g fd) [
  | none ↦ none
  | some (id, h) ↦ add_sessions n h fd
]

add_sessions_lem :
    (k i : ℕ) (g : SessionGroup) (fd rest m j : ℕ)
    → k + rest ≡ m
    → k + i ≡ j
    → g.index_pool ≡ count_up m i
    → j ≤ length g.sessions
    → (h : SessionGroup) × (add_sessions k g fd ≡ some h)
      × (h.index_pool ≡ count_up rest j)
      × (length h.sessions ≡ length g.sessions)
unfolding add_sessions
add_sessions_lem zero i g fd rest m j em ej e h =
    (g, refl, e ∙ ap₂ count_up (omega arith) (omega arith), refl)
add_sessions_lem (suc k) i g fd rest zero j em ej e h = absurd (omega arith)
add_sessions_lem (suc k) i g fd rest (suc m) j em ej e h =
    let g' : SessionGroup = added g i (count_up m (suc i)) fd in
    let kept : length g'.sessions ≡ length g.sessions = length-set g.sessions i _ in
    let (h', run, pool, size) =
      add_sessions_lem k (suc i) g' fd rest m j (omega arith) (omega arith) refl (rw kept h) in
    (
      h',
      rw (add_session_lem g fd i (count_up m (suc i)) e (omega arith), add_sessions) run,
      pool,
      size ∙ kept,
    )

add_sessions_last :
    (k : ℕ) (g : SessionGroup) (fd : ℕ) {h : SessionGroup}
    → add_sessions k g fd ≡ some h
    → add_session h fd ≡ none
    → add_sessions (suc k) g fd ≡ none
unfolding add_sessions
add_sessions_last zero g fd r e = ground arith
add_sessions_last (suc k) g fd {h} r e = elim (Option-cases (add_session g fd)) [
  | inl stop ↦ rw (stop, add_sessions)
  | inr ((id, g'), next) ↦
      rw (next, add_sessions) (add_sessions_last k g' fd {h = h} (rw (next, add_sessions) at r) e)
]

-- A fresh table takes as many sessions as its vector has elements; the next `AddSession` is not
-- refused but writes outside the vector, since the constructor pushes one index too many.
pub add_sessions_fresh :
    (raw : Slot) (unique n fd : ℕ)
    → ((k : ℕ)
        → k ≤ n
        → (h : SessionGroup) × (add_sessions k (construct raw unique n) fd ≡ some h)
          × (h.index_pool ≡ count_up (n + 1 - k) k))
      × (add_sessions (suc n) (construct raw unique n) fd ≡ none)
unfolding construct
add_sessions_fresh raw unique n fd = (
  λ k h.
      let (g, run, pool, size) =
        add_sessions_lem k 0 (construct raw unique n) fd (n + 1 - k) (suc n) k (omega arith)
          (omega arith) (push_down_lem n 0 (suc n) (omega arith)) (rw length-replicate h) in
      (g, run, pool),
  let (g, run, pool, size) =
        add_sessions_lem n 0 (construct raw unique n) fd 1 (suc n) n (omega arith) (omega arith)
          (push_down_lem n 0 (suc n) (omega arith)) (rw length-replicate (omega arith)) in
      add_sessions_last n (construct raw unique n) fd run
        (add_session_unchecked g fd (inr (n, [], pool, rw (size, length-replicate) (omega arith)))),
)

-- `DeleteSession` leaves the id in the vector: the session is still found, and may be deleted again,
-- which puts its index on the pool a second time.
pub delete_session_twice :
    (g : SessionGroup) (id : ℕ)
    → IsStored g id
    → (h k : SessionGroup) × (delete_session g id ≡ some (true, h))
      × (get_session h id ≡ some (some (get_index id)))
      × (delete_session h id ≡ some (true, k))
      × (k.index_pool ≡ get_index id ∷ get_index id ∷ g.index_pool)
      × (k.sessions ≡ g.sessions)
unfolding free_session
delete_session_twice g id h = (
  free_session g (get_index id),
  free_session (free_session g (get_index id)) (get_index id),
  delete_session-stored g id h,
  get_session-stored (free_session g (get_index id)) id h,
  delete_session-stored (free_session g (get_index id)) id h,
  refl,
  refl,
)

-- A session deleted twice succeeds twice, and the next two sessions then share its index: the
-- second one takes the place of the first, which is no longer found.
pub double_delete_aliases :
    (g : SessionGroup) (id fd fe : ℕ)
    → IsStored g id
    → (h : SessionGroup) × (delete_session g id ≡ some (true, h))
      × (k : SessionGroup) × (delete_session h id ≡ some (true, k))
      × (a : ℕ) × (l : SessionGroup) × (add_session k fd ≡ some (a, l))
      × (b : ℕ) × (m : SessionGroup) × (add_session l fe ≡ some (b, m))
      × (get_index a ≡ get_index id)
      × (get_index b ≡ get_index id)
      × (get_session m a ≡ some none)
      × (get_session m b ≡ some (some (get_index id)))
unfolding free_session
double_delete_aliases g id fd fe h =
    let i = get_index id in
    let k : SessionGroup = free_session (free_session g i) i in
    let l : SessionGroup = added k i (i ∷ g.index_pool) fd in
    let m : SessionGroup = added l i g.index_pool fe in
    let a = make_session_id g.unique_number i in
    let b = make_session_id l.unique_number i in
    let a_i : get_index a ≡ i = (make_session_id_fields g.unique_number i (get_index-lt id)).0 in
    let b_i : get_index b ≡ i = (make_session_id_fields l.unique_number i (get_index-lt id)).0 in
    let room : i < length g.sessions = stored_in g.sessions i id h in
    let room_l : i < length l.sessions = rw (length-set g.sessions i _) room in
    let holds : stored_at m.sessions i ≡ some b =
      ap slot_id (get_elem?-set_self l.sessions i _ room_l) in
    (
      free_session g i,
      delete_session-stored g id h,
      k,
      delete_session-stored (free_session g i) id h,
      a,
      l,
      add_session_lem k fd i (i ∷ g.index_pool) refl room,
      b,
      m,
      add_session_lem l fe i g.index_pool refl room_l,
      a_i,
      b_i,
      get_session-replaced m a b (rw a_i holds)
          (make_session_id_next g.unique_number i (get_index-lt id)),
      get_session-stored m b (rw b_i holds) ∙ ap (λ j. some (some j)) b_i,
    )
