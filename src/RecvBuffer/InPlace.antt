-- ===== src/RecvBuffer/InPlace.antt =====
-- Use of the buffer in place, as a receive job does: fill at the rear, hand out the front block, move
-- the front, start over when all is read.
use my_server_project.Common.{
  ℕ, some, some_inj, ◌≤◌, ◌≡◌, refl, ◌∙◌, sym, List, ◌++◌, arith, load, store, length, take, drop,
  length-load,
}
use my_server_project.RecvBuffer.{
  RecvBuffer, get_used_size, get_direct_read_size, get_direct_write_size, move_read_offset,
  move_write_offset, copy_output,
}
use my_server_project.RecvBuffer.Copy.{copy_output-eq-take}
use my_server_project.RecvBuffer.Bounds.{IsValid, sizes_agree, direct_in_array}
use my_server_project.RecvBuffer.Contents.{contents, length-contents, span-drop, span-fill}

-- The kernel stores the received bytes at `GetRearBufferPtr`; the job then calls `MoveWriteOffset`.
unfoldable pub fill : RecvBuffer → List ℕ → RecvBuffer
unfolding move_write_offset
fill r xs = move_write_offset (record r { buffer = store r.buffer r.rear xs }) (length xs)

-- The block at `GetFrontBufferPtr` of `GetDIrectReadSize` bytes, which the job hands out.
unfoldable pub front_block : RecvBuffer → List ℕ
unfolding get_direct_read_size
front_block r = load r.buffer r.front (get_direct_read_size r)

-- A fill within the direct space appends.
pub fill_lem :
    (r : RecvBuffer) (xs : List ℕ)
    → IsValid r
    → length xs ≤ get_direct_write_size r
    → (contents (fill r xs) ≡ contents r ++ xs) × IsValid (fill r xs)
unfolding fill get_direct_write_size
fill_lem r xs v h =
    (span-fill r.buffer r.front r.rear (length xs) xs v.front_in v.rear_in refl h, omega arith)

-- Moving the front by up to the used size drops that many bytes.
pub move_lem :
    (r : RecvBuffer) (n : ℕ)
    → IsValid r
    → n ≤ get_used_size r
    → (contents (move_read_offset r n) ≡ drop n (contents r)) × IsValid (move_read_offset r n)
unfolding move_read_offset
move_lem r n v h = (
  span-drop r.buffer r.front r.rear n v.front_in v.rear_in (omega (arith, length-contents r v)),
  omega arith,
)

copy_output_direct :
    (r : RecvBuffer)
    → IsValid r
    → copy_output r (get_direct_read_size r) (get_direct_read_size r) ≡ some (front_block r)
unfolding copy_output front_block
copy_output_direct r v = ground (arith, direct_in_array r v)

-- The block handed out is a prefix of the bytes held, and empty only if there are none.
pub front_block_lem :
    (r : RecvBuffer)
    → IsValid r
    → (front_block r ≡ take (get_direct_read_size r) (contents r))
      × (length (front_block r) ≡ get_direct_read_size r)
      × (get_direct_read_size r ≡ 0 → get_used_size r ≡ 0)
unfolding front_block load
front_block_lem r v = (block, size, unfold get_direct_read_size get_used_size in ground arith)
  where
    room : get_direct_read_size r ≤ get_used_size r
    room = (sizes_agree r v).2

    size : length (front_block r) ≡ get_direct_read_size r
    size = length-load r.buffer r.front (get_direct_read_size r)

    block : front_block r ≡ take (get_direct_read_size r) (contents r)
    block =
        some_inj
          (sym (copy_output_direct r v) ∙ copy_output-eq-take r (get_direct_read_size r) v room)
