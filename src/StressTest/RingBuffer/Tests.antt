-- ===== src/StressTest/RingBuffer/Tests.antt =====
-- A run of the ring's calls.
use my_server_project.Common.{inr, ◌≡◌, refl, true, some, List, [], ◌∷◌, arith}
use my_server_project.RecvBuffer.Bounds.{IsValid}
use my_server_project.RecvBuffer.Contents.{contents}
use my_server_project.StressTest.RingBuffer.{
  RingBuffer, get_direct_write_size, get_direct_read_size, get_used_size, get_remain_size, write,
  copy_input, copy_output, peek, read, move_read_offset, move_write_offset,
}
use my_server_project.StressTest.RingBuffer.Queue.{
  Call, nothing, size, accepted, bytes, take_in, write_in, peek_at, read_out, skip, used, ring_call,
  ring_calls, queue_call, queue_calls, AllFit, ring_calls-eq-queue_calls,
}

abbrev empty_ring : RingBuffer
empty_ring = record { front = 50; rear = 50; buffer = λ k. 0 }

-- Calls of a ring in the middle of its array.
abbrev calls : List Call
calls =
    take_in (1 ∷ 2 ∷ 3 ∷ []) ∷ write_in (4 ∷ 5 ∷ []) 2 ∷ peek_at 2 ∷ read_out 3 ∷ skip 1 ∷ used ∷ []

calls-AllFit : AllFit empty_ring calls
unfolding ring_call write copy_input read peek copy_output get_remain_size get_used_size
    get_direct_read_size get_direct_write_size move_read_offset move_write_offset
calls-AllFit = (omega arith, (inr (omega arith, omega arith), (tt, (tt, (omega arith, (tt, tt))))))

calls_run : queue_calls [] calls ≡ (
  nothing ∷ accepted true ∷ bytes 2 (1 ∷ 2 ∷ []) ∷ bytes 3 (1 ∷ 2 ∷ 3 ∷ []) ∷ nothing ∷ size 1 ∷ [],
  5 ∷ [],
)
unfolding queue_calls queue_call
calls_run = refl

ring_calls-eq-queue_calls_example :
    (r' : RingBuffer) × (ring_calls empty_ring calls
      ≡ some ((queue_calls (contents empty_ring) calls).0, r'))
    × (contents r' ≡ (queue_calls (contents empty_ring) calls).1)
    × IsValid r'
ring_calls-eq-queue_calls_example =
    ring_calls-eq-queue_calls calls empty_ring
      (record { front_in = omega arith; rear_in = omega arith }) calls-AllFit
