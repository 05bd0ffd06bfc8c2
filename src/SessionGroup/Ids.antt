-- ===== src/SessionGroup/Ids.antt =====
-- The fields of a session id.
use my_server_project.Common.{ℕ, ◌+◌, ◌%◌, ◌^◌, ◌<◌, ◌≡◌, arith, ◌≢◌}
use my_server_project.SessionGroup.{get_index, get_unique_number, make_session_id}

-- With a 16-bit index, an id gives back the index and the low 16 bits of the unique number, and
-- fits in 64 bits.
pub make_session_id_fields :
    (unique index : ℕ)
    → index < 2 ^ 16
    → (get_index (make_session_id unique index) ≡ index)
      × (get_unique_number (make_session_id unique index) % 2 ^ 16 ≡ unique % 2 ^ 16)
      × (make_session_id unique index < 2 ^ 64)
unfolding get_index get_unique_number make_session_id
make_session_id_fields unique index h = (omega arith, ground arith, omega arith)

-- For 16-bit indices, two ids are equal exactly when the indices are and the unique numbers agree
-- in 16 bits: of the number that counts sessions the shift keeps no more.
pub make_session_id_inj :
    (u i v j : ℕ)
    → i < 2 ^ 16
    → j < 2 ^ 16
    → (make_session_id u i ≡ make_session_id v j → (i ≡ j) × (u % 2 ^ 16 ≡ v % 2 ^ 16))
      × ((i ≡ j) × (u % 2 ^ 16 ≡ v % 2 ^ 16) → make_session_id u i ≡ make_session_id v j)
unfolding make_session_id
make_session_id_inj u i v j hi hj = (λ e. omega arith, λ e. omega arith)

pub get_index-lt : (id : ℕ) → get_index id < 2 ^ 16
unfolding get_index
get_index-lt id = omega arith

-- Consecutive unique numbers give different ids.
pub make_session_id_next :
    (u i : ℕ) → i < 2 ^ 16 → make_session_id ((u + 1) % 2 ^ 64) i ≢ make_session_id u i
unfolding make_session_id
make_session_id_next u i h = omega arith
