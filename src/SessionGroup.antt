-- ===== src/SessionGroup.antt =====
-- The table of sessions (src/lib-core/src/Network/SessionGroup.cpp and SessionGroup.hpp): a fixed
-- vector, a stack of free indices, and session ids that hold an index and a unique number. The
-- children hold the ids' fields, the invariant of the table while calls are in order, and what
-- happens at its limits.
pub mod Ids
pub mod Table
pub mod History
pub mod Limits
mod Tests
use my_server_project.Common.{
  ℕ, zero, suc, leb, ◌-◌, ◌+◌, ◌*◌, ◌/◌, ◌%◌, ◌^◌, Bool, true, false, Option, none, some, List, [],
  ◌∷◌, ◌==◌, if◌then◌else◌, ◌>>=◌, get_elem?, set, replicate,
}

-- A SessionID is the bit pattern of an Int64. `& 0xFFFF` is the low 16 bits, and the other mask
-- clears them.
unfoldable pub get_index : ℕ → ℕ
get_index id = id % 2 ^ 16

-- `>> 48` on a signed number copies the sign bit down.
unfoldable pub shift_right_48 : ℕ → ℕ
shift_right_48 x = x / 2 ^ 48 + (if leb (2 ^ 63) x then 2 ^ 64 - 2 ^ 16 else 0)

unfoldable pub get_unique_number : ℕ → ℕ
unfolding shift_right_48
get_unique_number id = shift_right_48 (id / 2 ^ 16 * 2 ^ 16)

-- `uniqueNumber <<= 48` keeps 64 bits, and its low 48 bits are zero, so `| index` adds an index.
unfoldable pub make_session_id : ℕ → ℕ → ℕ
make_session_id unique index = unique * 2 ^ 48 % 2 ^ 64 + index

-- What the table needs of a `Session`: its id and its socket.
pub record Slot : Type 0 where
  pub session_id : ℕ
  pub socket_fd : ℕ

-- `mSessionVector`, `mSessionIndexPool` with the top first, and the global `sUniqueNumber`.
pub record SessionGroup : Type 0 where
  pub max_session : ℕ
  pub sessions : List Slot
  pub index_pool : List ℕ
  pub unique_number : ℕ

-- `for (index = maxSessions; index >= 0; --index) push(index)`: the indices from `index` down to 0
-- pushed on a stack.
unfoldable pub push_down : ℕ → List ℕ → List ℕ
push_down zero pool = 0 ∷ pool
push_down (suc index) pool = push_down index (suc index ∷ pool)

-- The vector's elements are default constructed, which leaves `mSessionID` and `mSessionFD`
-- indeterminate: `raw` is what they hold.
unfoldable pub construct : Slot → ℕ → ℕ → SessionGroup
unfolding push_down
construct raw unique max_sessions = record {
  max_session = max_sessions;
  sessions = replicate max_sessions raw;
  index_pool = push_down max_sessions [];
  unique_number = unique;
}

-- `none` is sINVALID_ID. The mutex makes the two stack operations one step.
unfoldable pub alloc_session : SessionGroup → Option ℕ × SessionGroup
alloc_session g = elim g.index_pool [
  | [] ↦ (none, g)
  | index ∷ pool ↦ (some index, record g { index_pool = pool })
]

unfoldable pub free_session : SessionGroup → ℕ → SessionGroup
free_session g index = record g { index_pool = index ∷ g.index_pool }

-- `mSessionVector[index]` is undefined out of range.
unfoldable pub place_session : SessionGroup → ℕ → Slot → Option SessionGroup
place_session g index slot = elim (get_elem? g.sessions index) [
  | none ↦ none
  | some _ ↦ some (record g { sessions = set g.sessions index slot })
]

-- `none` is undefined behaviour: the code does not look at sINVALID_ID, and indexes with it.
unfoldable pub add_at : SessionGroup → Option ℕ → ℕ → Option (ℕ × SessionGroup)
unfolding place_session make_session_id
add_at g none fd = none
add_at g (some index) fd =
    let id = make_session_id g.unique_number index in
    elim (place_session g index (record { session_id = id; socket_fd = fd })) [
      | none ↦ none
      | some h ↦ some (id, record h { unique_number = (g.unique_number + 1) % 2 ^ 64 })
    ]

unfoldable pub add_session : SessionGroup → ℕ → Option (ℕ × SessionGroup)
unfolding alloc_session add_at
add_session g fd = let (index, h) = alloc_session g in add_at h index fd

-- `none` is undefined behaviour, a read past the vector.
unfoldable pub delete_session : SessionGroup → ℕ → Option (Bool × SessionGroup)
unfolding get_index free_session
delete_session g id = elim (get_elem? g.sessions (get_index id)) [
  | none ↦ none
  | some slot ↦
      some (if slot.session_id == id then (true, free_session g (get_index id)) else (false, g))
]

-- The session found, as its index; the inner `none` is a null pointer.
unfoldable pub get_session : SessionGroup → ℕ → Option (Option ℕ)
unfolding get_index
get_session g id = elim (get_elem? g.sessions (get_index id)) [
  | none ↦ none
  | some slot ↦ some (if slot.session_id == id then some (get_index id) else none)
]
