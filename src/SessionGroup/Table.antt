-- ===== src/SessionGroup/Table.antt =====
-- The table while calls are in order: each index is free or belongs to one live session.
use my_server_project.Common.{
  ℕ, zero, suc, ◌+◌, ◌%◌, ◌^◌, ◌≤◌, ◌<◌, ◌≡◌, ◌≢◌, refl, sym, ap, ◌∙◌, true, Option, none, some,
  List, [], ◌∷◌, ◌++◌, map, append_assoc, get_elem?, set, length, length-set, get_elem?-set_self,
  get_elem?-set_ne, get_elem?_in, All, NotIn, Distinct, All-append_left, All-append_right,
  All-append, Distinct-middle, middle-Distinct, arith,
}
use mathlib.Core.List.{map-append}
use my_server_project.SessionGroup.{
  SessionGroup, Slot, get_index, make_session_id, add_session, delete_session, get_session,
  free_session,
}
use my_server_project.SessionGroup.Ids.{make_session_id_fields}

-- The id that is stored at an index, if the index is one of the vector's.
abbrev pub slot_id : Option Slot → Option ℕ
slot_id none = none
slot_id (some slot) = some slot.session_id

abbrev pub stored_at : List Slot → ℕ → Option ℕ
stored_at xs i = slot_id (get_elem? xs i)

abbrev pub IsStored : SessionGroup → ℕ → Type 0
IsStored g id = stored_at g.sessions (get_index id) ≡ some id

-- The free indices and those of the live ids are distinct and within the pool's range, and the vector
-- holds each live id at its index.
pub record Serves (g : SessionGroup) (live : List ℕ) : Type 0 where
  pub size : length g.sessions ≡ g.max_session
  pub small : g.max_session < 65535
  pub bounded : All (λ i. i ≤ g.max_session) g.index_pool
  pub distinct : Distinct (g.index_pool ++ map get_index live)
  pub stored : All (IsStored g) live

-- `GetSession` of a stored id finds it.
pub get_session-stored :
    (g : SessionGroup) (id : ℕ) → IsStored g id → get_session g id ≡ some (some (get_index id))
unfolding get_session
get_session-stored g id h = ground arith

-- The table after `AddSession` took index `i` and left `pool`.
abbrev pub added : SessionGroup → ℕ → List ℕ → ℕ → SessionGroup
added g i pool fd = record g {
  index_pool = pool;
  sessions =
      set g.sessions i (record { session_id = make_session_id g.unique_number i; socket_fd = fd });
  unique_number = (g.unique_number + 1) % 2 ^ 64;
}

pub add_session_lem :
    (g : SessionGroup) (fd i : ℕ) (pool : List ℕ)
    → g.index_pool ≡ i ∷ pool
    → i < length g.sessions
    → add_session g fd ≡ some (make_session_id g.unique_number i, added g i pool fd)
unfolding add_session
add_session_lem g fd i pool e h =
    let (old, at) = get_elem?_in g.sessions i h in rw (e, add_session, at)

-- Writing another index keeps what is stored.
stored_keep :
    (g : SessionGroup) (xs : List Slot) (i : ℕ) (slot : Slot) (live : List ℕ)
    → xs ≡ set g.sessions i slot
    → NotIn i (map get_index live)
    → All (IsStored g) live
    → All (λ id. stored_at xs (get_index id) ≡ some id) live
stored_keep g xs i slot [] e n s = tt
stored_keep g xs i slot (id ∷ live) e n s = (
  rw e (ap slot_id (get_elem?-set_ne g.sessions slot (λ j. n.0 (sym j))) ∙ s.0),
  stored_keep g xs i slot live e n.1 s.1,
)

fresh_id :
    (id i : ℕ) (live : List ℕ) → get_index id ≡ i → NotIn i (map get_index live) → NotIn id live
fresh_id id i [] e n = tt
fresh_id id i (x ∷ live) e n = ((λ same. n.0 (ap get_index same ∙ e)), fresh_id id i live e n.1)

added-Serves :
    (g : SessionGroup) (live : List ℕ) (fd i : ℕ) (pool : List ℕ)
    → Serves g live
    → g.index_pool ≡ i ∷ pool
    → i < g.max_session
    → Serves (added g i pool fd) (make_session_id g.unique_number i ∷ live)
      × NotIn (make_session_id g.unique_number i) live
added-Serves g live fd i pool s e lt =
    let id = make_session_id g.unique_number i in
    let slot : Slot = record { session_id = id; socket_fd = fd } in
    let at_i : get_index id ≡ i =
      (make_session_id_fields g.unique_number i (omega (arith, s.small))).0 in
    let d : Distinct (i ∷ (pool ++ map get_index live)) = rw e at s.distinct in
    let free : NotIn i (map get_index live) =
      All-append_right (λ y. y ≢ i) pool (map get_index live) d.0 in
    let bound : All (λ j. j ≤ g.max_session) (i ∷ pool) = rw e at s.bounded in
    (
      record {
        size = length-set g.sessions i slot ∙ s.size;
        small = s.small;
        bounded = bound.1;
        distinct = rw at_i (middle-Distinct pool (map get_index live) i d.0 d.1);
        stored = (
          rw at_i (ap slot_id (get_elem?-set_self g.sessions i slot (rw s.size lt))),
          stored_keep g (set g.sessions i slot) i slot live refl free s.stored,
        );
      },
      fresh_id id i live at_i free,
    )

-- In a served table with a next free index below the vector's size, `AddSession` returns an id of
-- that index, the table serves the new session beside the old ones, and the new id is none of
-- theirs.
pub add_session-Serves :
    (g : SessionGroup) (live : List ℕ) (fd i : ℕ) (pool : List ℕ)
    → Serves g live
    → g.index_pool ≡ i ∷ pool
    → i < g.max_session
    → let id = make_session_id g.unique_number i in
      (h : SessionGroup) × (add_session g fd ≡ some (id, h))
      × Serves h (id ∷ live)
      × NotIn id live
      × (h.index_pool ≡ pool)
add_session-Serves g live fd i pool s e lt = (
  added g i pool fd,
  add_session_lem g fd i pool e (rw s.size lt),
  (added-Serves g live fd i pool s e lt).0,
  (added-Serves g live fd i pool s e lt).1,
  refl,
)

pub stored_in : (xs : List Slot) (i id : ℕ) → stored_at xs i ≡ some id → i < length xs
stored_in [] i id h = cc
stored_in (x ∷ xs) zero id h = omega arith
stored_in (x ∷ xs) (suc i) id h = omega (arith, stored_in xs i id h)

pub delete_session-stored :
    (g : SessionGroup) (id : ℕ)
    → IsStored g id
    → delete_session g id ≡ some (true, free_session g (get_index id))
unfolding delete_session
delete_session-stored g id h = ground arith

-- Deleting a live session of a served table succeeds and frees its index; the table goes on serving
-- the others.
pub delete_session-Serves :
    (g : SessionGroup) (before : List ℕ) (id : ℕ) (after : List ℕ)
    → Serves g (before ++ id ∷ after)
    → (h : SessionGroup) × (delete_session g id ≡ some (true, h))
      × Serves h (before ++ after)
      × (h.index_pool ≡ get_index id ∷ g.index_pool)
unfolding free_session
delete_session-Serves g before id after s =
    let held : IsStored g id = (All-append_right (IsStored g) before (id ∷ after) s.stored).0 in
    (
      free_session g (get_index id),
      delete_session-stored g id held,
      record {
        size = s.size;
        small = s.small;
        bounded = (omega (arith, stored_in g.sessions (get_index id) id held, s.size), s.bounded);
        distinct =
            rw (map-append, ← append_assoc)
              (Distinct-middle (g.index_pool ++ map get_index before) (map get_index after)
                (get_index id) (rw (map-append, ← append_assoc) at s.distinct));
        stored =
            All-append (IsStored g) before after
              (All-append_left (IsStored g) before (id ∷ after) s.stored)
              (All-append_right (IsStored g) before (id ∷ after) s.stored).1;
      },
      refl,
    )

-- `GetSession` answers null where the vector holds another id.
pub get_session-replaced :
    (g : SessionGroup) (id other : ℕ)
    → stored_at g.sessions (get_index id) ≡ some other
    → other ≢ id
    → get_session g id ≡ some none
unfolding get_session
get_session-replaced g id other h ne = ground arith
