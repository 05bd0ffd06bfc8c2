-- ===== src/RecvBuffer/Bounds.antt =====
-- Bounds of the receive buffer: both offsets stay indices of the array, and the sizes agree.
use my_server_project.Common.{ℕ, ◌+◌, ◌-◌, ◌≤◌, ◌<◌, ◌≡◌, arith}
use my_server_project.RecvBuffer.{
  RecvBuffer, buffer_size, reset, get_direct_write_size, get_direct_read_size, get_used_size,
  get_remain_size, move_read_offset, move_write_offset,
}

pub record IsValid (r : RecvBuffer) : Type 0 where
  pub front_in : r.front < buffer_size
  pub rear_in : r.rear < buffer_size

-- `Reset` and both moves establish or keep the offsets in range, whatever they are given.
pub moves-IsValid :
    (r : RecvBuffer) (n : ℕ)
    → IsValid r
    → IsValid (reset r) × IsValid (move_read_offset r n) × IsValid (move_write_offset r n)
unfolding reset move_read_offset move_write_offset
moves-IsValid r n v = omega arith

-- In a valid buffer the used and the remaining sizes make up one less than the array, and neither
-- direct size exceeds its total.
pub sizes_agree :
    (r : RecvBuffer)
    → IsValid r
    → (get_used_size r + get_remain_size r + 1 ≡ buffer_size)
      × (get_direct_write_size r ≤ get_remain_size r)
      × (get_direct_read_size r ≤ get_used_size r)
unfolding get_remain_size get_direct_write_size get_direct_read_size
sizes_agree r v = ground arith

-- The blocks that the caller fills or reads in place lie within the array.
pub direct_in_array :
    (r : RecvBuffer)
    → IsValid r
    → (r.rear + get_direct_write_size r < buffer_size)
      × (r.front + get_direct_read_size r ≤ buffer_size)
unfolding get_direct_write_size get_direct_read_size
direct_in_array r v = ground arith

-- What fits in the direct block never reaches the array's last byte past the rear, so with the front
-- not past the rear the direct size is the space up to there.
pub direct_write_lem :
    (r : RecvBuffer) → r.front ≤ r.rear → get_direct_write_size r ≡ buffer_size - r.rear - 1
unfolding get_direct_write_size
direct_write_lem r h = ground arith
