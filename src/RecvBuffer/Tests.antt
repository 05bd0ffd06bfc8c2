-- ===== src/RecvBuffer/Tests.antt =====
-- Runs of the receive buffer on small inputs, and the theorems at concrete buffers.
use my_server_project.Common.{
  Option, none, Bool, ℕ, ◌-◌, min, ◌≡◌, refl, true, some, List, [], ◌∷◌, ◌++◌, arith, Memory, store,
  load, take, drop,
}
use my_server_project.RecvBuffer.{
  RecvBuffer, buffer_size, write, read, get_used_size, get_remain_size, get_direct_write_size,
}
use my_server_project.RecvBuffer.Bounds.{IsValid}
use my_server_project.RecvBuffer.Contents.{contents}
use my_server_project.RecvBuffer.Copy.{read_lem, write_straight}
use my_server_project.RecvBuffer.Wrap.{write_wrap}

abbrev zeros : Memory
zeros i = 0

abbrev empty : RecvBuffer
empty = record { front = 0; rear = 0; buffer = zeros }

-- Three bytes held, with room for two more before the last byte of the array.
abbrev near_end : RecvBuffer
near_end = record { front = buffer_size - 6; rear = buffer_size - 3; buffer = zeros }

-- Four bytes held, two at the end and two at the start.
abbrev wrapped : RecvBuffer
wrapped = record { front = buffer_size - 2; rear = 2; buffer = zeros }

-- What a read of up to `n` bytes returns after a write.
read_after : ℕ → Option (Bool × RecvBuffer) → Option (ℕ × List ℕ)
unfolding read
read_after n none = none
read_after n (some (done, r)) = elim (read r n) [
  | none ↦ none
  | some (k, bytes, _) ↦ some (k, bytes)
]

write_then_read : read_after 2 (write empty (7 ∷ 8 ∷ 9 ∷ []) 3) ≡ some (2, 7 ∷ 8 ∷ [])
unfolding write read_after load store
write_then_read = refl

-- Four bytes written round the end: the sixth read back is the stale last byte of the array.
write_round_the_end :
    read_after 8 (write near_end (1 ∷ 2 ∷ 3 ∷ 4 ∷ []) 4) ≡ some (7, 0 ∷ 0 ∷ 0 ∷ 1 ∷ 2 ∷ 0 ∷ 3 ∷ [])
unfolding write read_after load store
write_round_the_end = refl

sizes_wrapped : get_used_size wrapped ≡ 4
unfolding get_used_size
sizes_wrapped = refl

read_lem_example :
    (r' : RecvBuffer) × (read wrapped 3
      ≡ some (min (get_used_size wrapped) 3, take 3 (contents wrapped), r'))
    × (contents r' ≡ drop (min (get_used_size wrapped) 3) (contents wrapped))
    × IsValid r'
read_lem_example = read_lem wrapped 3 (omega arith)

write_straight_example :
    (r' : RecvBuffer) × (write wrapped (5 ∷ 6 ∷ []) 2 ≡ some (true, r'))
    × (contents r' ≡ contents wrapped ++ take 2 (5 ∷ 6 ∷ []))
    × IsValid r'
unfolding get_direct_write_size
write_straight_example =
    write_straight wrapped (5 ∷ 6 ∷ []) 2 (omega arith) (omega arith) (omega arith)

write_wrap_example :
    (r' : RecvBuffer) × (write near_end (1 ∷ 2 ∷ 3 ∷ 4 ∷ []) 4 ≡ some (true, r'))
    × (contents r'
        ≡ contents near_end
          ++ (take (get_direct_write_size near_end) (1 ∷ 2 ∷ 3 ∷ 4 ∷ [])
              ++ (0
                  ∷ take
                      (4 - get_direct_write_size near_end - 1)
                      (drop (get_direct_write_size near_end) (1 ∷ 2 ∷ 3 ∷ 4 ∷ [])))))
    × IsValid r'
unfolding get_direct_write_size get_remain_size
write_wrap_example =
    write_wrap near_end (1 ∷ 2 ∷ 3 ∷ 4 ∷ []) 4 (omega arith) (omega arith) (omega arith)
      (omega arith)
