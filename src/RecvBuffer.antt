-- ===== src/RecvBuffer.antt =====
-- The receive buffer of a session (src/lib-core/src/Network/RecvBuffer.hpp): a byte ring over a
-- fixed array, read and written by the caller in place or by copies. The children hold its bounds,
-- its contents as a queue, what a copy in or out does, and runs of the calls that a receive job makes.
pub mod Bounds
pub mod Contents
pub mod Copy
pub mod Wrap
pub mod InPlace
mod Tests
use my_server_project.Common.{
  ℕ, ◌+◌, ◌-◌, ◌*◌, ◌%◌, Bool, true, false, Option, none, some, List, ◌++◌, ◌&&◌, ltb, leb,
  if◌then◌else◌, ◌>>=◌, Memory, load, store, take, drop, length,
}

abbrev pub buffer_size : ℕ
buffer_size = 1024 * 1024

-- `mFront`, `mRear` and `mBuffer`. A byte is only moved, so it is any number. Sizes and offsets are
-- the values of an Int32 that is not negative; while both are indices of the array no sum of theirs
-- leaves the type, and no difference that the code takes is negative.
pub record RecvBuffer : Type 0 where
  pub front : ℕ
  pub rear : ℕ
  pub buffer : Memory

-- The constructor has an empty body and initialises nothing, so the object is what lay in its storage.
unfoldable pub construct : RecvBuffer → RecvBuffer
construct raw = raw

unfoldable pub reset : RecvBuffer → RecvBuffer
reset r = record r { front = 0; rear = 0 }

unfoldable pub get_direct_write_size : RecvBuffer → ℕ
get_direct_write_size r =
    if leb r.front r.rear then buffer_size - r.rear - 1 else r.front - r.rear - 1

unfoldable pub get_direct_read_size : RecvBuffer → ℕ
get_direct_read_size r = if leb r.front r.rear then r.rear - r.front else buffer_size - r.front

unfoldable pub get_used_size : RecvBuffer → ℕ
get_used_size r = if leb r.front r.rear then r.rear - r.front else buffer_size - r.front + r.rear

unfoldable pub get_remain_size : RecvBuffer → ℕ
unfolding get_used_size
get_remain_size r = buffer_size - 1 - get_used_size r

-- memcpy(mBuffer + to, input, n). It is undefined to read past the input or to write past the array.
unfoldable pub copy_in : Memory → ℕ → List ℕ → ℕ → Option Memory
copy_in m to input n =
    if leb n (length input) && leb (to + n) buffer_size
    then some (store m to (take n input))
    else none

-- memcpy(out, mBuffer + at, n), as the bytes that arrive at `out`.
unfoldable pub copy_out : Memory → ℕ → ℕ → Option (List ℕ)
copy_out m at n = if leb (at + n) buffer_size then some (load m at n) else none

-- The copies of `Write`: one, or two of which the second goes to the start of the array.
unfoldable pub copy_input : RecvBuffer → List ℕ → ℕ → ℕ → Option Memory
unfolding copy_in
copy_input r input size direct =
    if leb size direct
    then copy_in r.buffer r.rear input size
    else (copy_in r.buffer r.rear input direct >>= λ m.
        copy_in m 0 (drop direct input) (size - direct))

unfoldable pub write : RecvBuffer → List ℕ → ℕ → Option (Bool × RecvBuffer)
unfolding get_remain_size get_direct_write_size copy_input
write r input size =
    if ltb (get_remain_size r) size
    then some (false, r)
    else (copy_input r input size (get_direct_write_size r) >>= λ m.
        some (true, record r { buffer = m; rear = (r.rear + size) % buffer_size }))

-- The copies of `Peek`, the second from the start of the array.
unfoldable pub copy_output : RecvBuffer → ℕ → ℕ → Option (List ℕ)
unfolding copy_out
copy_output r size direct =
    if leb size direct
    then copy_out r.buffer r.front size
    else (copy_out r.buffer r.front direct >>= λ xs.
        copy_out r.buffer 0 (size - direct) >>= λ ys. some (xs ++ ys))

-- The returned size, and the bytes written to the caller's buffer from its start.
unfoldable pub peek : RecvBuffer → ℕ → Option (ℕ × List ℕ)
unfolding get_used_size get_direct_read_size copy_output
peek r size =
    let peek_size = if leb (get_used_size r) size then get_used_size r else size in
    copy_output r peek_size (get_direct_read_size r) >>= λ bytes. some (peek_size, bytes)

unfoldable pub move_read_offset : RecvBuffer → ℕ → RecvBuffer
move_read_offset r n = record r { front = (r.front + n) % buffer_size }

unfoldable pub move_write_offset : RecvBuffer → ℕ → RecvBuffer
move_write_offset r n = record r { rear = (r.rear + n) % buffer_size }

-- Unlike `MoveReadOffset`, `Read` moves the front by what `Peek` returned.
unfoldable pub read : RecvBuffer → ℕ → Option (ℕ × List ℕ × RecvBuffer)
unfolding peek
read r size =
    peek r size >>= λ (n, bytes). some (n, bytes, record r { front = (r.front + n) % buffer_size })
