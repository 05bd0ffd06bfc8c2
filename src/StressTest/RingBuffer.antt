-- ===== src/StressTest/RingBuffer.antt =====
-- The stress client's ring (src/exe-StressTest/RingBuffer.hpp). The class has the members of the
-- server's receive buffer, so it shares that record; its operations are its own. The child holds runs
-- of calls against a queue of bytes.
pub mod Queue
mod Tests
use my_server_project.Common.{
  ℕ, ◌+◌, ◌-◌, ◌*◌, ◌%◌, Bool, true, false, Option, none, some, List, ◌++◌, ◌&&◌, ltb, leb,
  if◌then◌else◌, ◌>>=◌, Memory, load, store, take, drop, length,
}
use my_server_project.RecvBuffer.{RecvBuffer, copy_in, copy_out}

abbrev pub buffer_size : ℕ
buffer_size = 1024 * 1024

-- `mFront`, `mRear` and `mBuffer`.
abbrev pub RingBuffer : Type 0
RingBuffer = RecvBuffer

unfoldable pub reset : RingBuffer → RingBuffer
reset r = record r { front = 0; rear = 0 }

-- The constructor resets the offsets of what lay in the storage.
unfoldable pub construct : RingBuffer → RingBuffer
unfolding reset
construct raw = reset raw

unfoldable pub get_direct_write_size : RingBuffer → ℕ
get_direct_write_size r =
    if leb r.front r.rear then buffer_size - r.rear - 1 else r.front - r.rear - 1

unfoldable pub get_direct_read_size : RingBuffer → ℕ
get_direct_read_size r = if leb r.front r.rear then r.rear - r.front else buffer_size - r.front

unfoldable pub get_used_size : RingBuffer → ℕ
get_used_size r = if leb r.front r.rear then r.rear - r.front else buffer_size - r.front + r.rear

unfoldable pub get_remain_size : RingBuffer → ℕ
unfolding get_used_size
get_remain_size r = buffer_size - 1 - get_used_size r

-- The copies of `Write`.
unfoldable pub copy_input : RingBuffer → List ℕ → ℕ → ℕ → Option Memory
unfolding copy_in
copy_input r input size direct =
    if leb size direct
    then copy_in r.buffer r.rear input size
    else (copy_in r.buffer r.rear input direct >>= λ m.
        copy_in m 0 (drop direct input) (size - direct))

unfoldable pub write : RingBuffer → List ℕ → ℕ → Option (Bool × RingBuffer)
unfolding get_remain_size get_direct_write_size copy_input
write r input size =
    if ltb (get_remain_size r) size
    then some (false, r)
    else (copy_input r input size (get_direct_write_size r) >>= λ m.
        some (true, record r { buffer = m; rear = (r.rear + size) % buffer_size }))

-- The copies of `Peek`.
unfoldable pub copy_output : RingBuffer → ℕ → ℕ → Option (List ℕ)
unfolding copy_out
copy_output r size direct =
    if leb size direct
    then copy_out r.buffer r.front size
    else (copy_out r.buffer r.front direct >>= λ xs.
        copy_out r.buffer 0 (size - direct) >>= λ ys. some (xs ++ ys))

-- The returned size, and the bytes written to the caller's buffer.
unfoldable pub peek : RingBuffer → ℕ → Option (ℕ × List ℕ)
unfolding get_used_size get_direct_read_size copy_output
peek r size =
    let peek_size = if leb (get_used_size r) size then get_used_size r else size in
    copy_output r peek_size (get_direct_read_size r) >>= λ bytes. some (peek_size, bytes)

unfoldable pub read : RingBuffer → ℕ → Option (ℕ × List ℕ × RingBuffer)
unfolding peek
read r size =
    peek r size >>= λ (n, bytes). some (n, bytes, record r { front = (r.front + n) % buffer_size })

unfoldable pub move_read_offset : RingBuffer → ℕ → RingBuffer
move_read_offset r n = record r { front = (r.front + n) % buffer_size }

unfoldable pub move_write_offset : RingBuffer → ℕ → RingBuffer
move_write_offset r n = record r { rear = (r.rear + n) % buffer_size }
