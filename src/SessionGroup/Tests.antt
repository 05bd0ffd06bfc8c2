-- ===== src/SessionGroup/Tests.antt =====
-- Runs of the session table on small inputs, and the theorems at concrete tables.
use my_server_project.Common.{
  ℕ, ◌+◌, ◌-◌, ◌%◌, ◌^◌, ◌≤◌, ◌<◌, ◌≡◌, refl, true, some, none, [], ◌∷◌, map, All, Distinct, length,
  arith,
}
use my_server_project.SessionGroup.{
  SessionGroup, Slot, get_index, make_session_id, construct, add_session, delete_session,
  get_session,
}
use my_server_project.SessionGroup.Ids.{make_session_id_inj}
use my_server_project.SessionGroup.Table.{Serves, IsStored}
use my_server_project.SessionGroup.History.{construct-Serves, Reaches, start, adds, Reaches-found}
use my_server_project.SessionGroup.Limits.{
  count_up, add_sessions, add_sessions_fresh, double_delete_aliases,
}

abbrev raw : Slot
raw = record { session_id = 77; socket_fd = 0 }

abbrev fresh : SessionGroup
fresh = record {
  max_session = 2;
  sessions = raw ∷ raw ∷ [];
  index_pool = 0 ∷ 1 ∷ 2 ∷ [];
  unique_number = 0;
}

-- One session, of unique number 0 and index 0.
abbrev one : SessionGroup
one = record {
  max_session = 2;
  sessions = (record { session_id = 0; socket_fd = 5 }) ∷ raw ∷ [];
  index_pool = 1 ∷ 2 ∷ [];
  unique_number = 1;
}

fresh_is_constructed : construct raw 0 2 ≡ fresh
unfolding construct
fresh_is_constructed = refl

add_first : add_session fresh 5 ≡ some (0, one)
unfolding add_session
add_first = refl

-- The third session of a table of two is written past the vector.
add_third : add_sessions 3 fresh 5 ≡ none
unfolding add_sessions add_session
add_third = refl

fresh-Serves : Serves fresh []
unfolding construct
fresh-Serves = construct-Serves raw 0 2 (omega arith) (omega arith)

make_session_id_inj_example :
    (make_session_id 1 3 ≡ make_session_id 65537 3
      → (◌≡◌ {A = ℕ} 3 3) × (1 % 2 ^ 16 ≡ 65537 % 2 ^ 16))
    × ((◌≡◌ {A = ℕ} 3 3) × (1 % 2 ^ 16 ≡ 65537 % 2 ^ 16)
        → make_session_id 1 3 ≡ make_session_id 65537 3)
make_session_id_inj_example = make_session_id_inj 1 3 65537 3 (omega arith) (omega arith)

one-Serves : Serves one (0 ∷ [])
unfolding get_index
one-Serves = record {
  size = refl;
  small = omega arith;
  bounded = omega arith;
  distinct = omega arith;
  stored = (refl, tt);
}

Reaches-one : Reaches one (0 ∷ [])
unfolding construct add_session
Reaches-one =
    adds 5 0 (1 ∷ 2 ∷ []) 0 (start raw 0 2 (omega arith) (omega arith) refl) refl (omega arith) refl

Reaches-found_example :
    All (λ id. get_session one id ≡ some (some (get_index id))) (0 ∷ [])
    × Distinct (map get_index (0 ∷ []))
    × All (λ id. get_index id < length one.sessions) (0 ∷ [])
Reaches-found_example = Reaches-found Reaches-one

add_sessions_fresh_example :
    ((k : ℕ)
      → k ≤ 2
      → (h : SessionGroup) × (add_sessions k (construct raw 0 2) 5 ≡ some h)
        × (h.index_pool ≡ count_up (2 + 1 - k) k))
    × (add_sessions 3 (construct raw 0 2) 5 ≡ none)
add_sessions_fresh_example = add_sessions_fresh raw 0 2 5

IsStored-one : IsStored one 0
unfolding get_index
IsStored-one = refl

double_delete_aliases_example :
    (h : SessionGroup) × (delete_session one 0 ≡ some (true, h))
    × (k : SessionGroup) × (delete_session h 0 ≡ some (true, k))
    × (a : ℕ) × (l : SessionGroup) × (add_session k 8 ≡ some (a, l))
    × (b : ℕ) × (m : SessionGroup) × (add_session l 9 ≡ some (b, m))
    × (get_index a ≡ get_index 0)
    × (get_index b ≡ get_index 0)
    × (get_session m a ≡ some none)
    × (get_session m b ≡ some (some (get_index 0)))
double_delete_aliases_example = double_delete_aliases one 0 8 9 IsStored-one
