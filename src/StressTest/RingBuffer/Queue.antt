-- ===== src/StressTest/RingBuffer/Queue.antt =====
-- Runs of the ring's calls, against a queue of bytes.
use my_server_project.Common.{
  ℕ, ◌-◌, ◌≤◌, ◌<◌, ◌≡◌, ◌⊎◌, inl, inr, refl, sym, ap, ◌∙◌, Bool, true, false, Option, none, some,
  List, [], ◌∷◌, ◌++◌, ◌>>=◌, ltb, lt→ltb, le→ltb, min, if◌then◌else◌, store, take, drop, length,
  load, arith,
}
use mathlib.Core.Path.{subst}
use my_server_project.RecvBuffer
use my_server_project.RecvBuffer.Bounds.{IsValid, sizes_agree}
use my_server_project.RecvBuffer.Contents.{contents, span, length-contents}
use my_server_project.RecvBuffer.Copy.{peek_lem, read_lem, write_refused, write_straight}
use my_server_project.RecvBuffer.InPlace.{fill, fill_lem, move_lem}
use my_server_project.StressTest.RingBuffer.{
  RingBuffer, buffer_size, reset, get_direct_write_size, get_direct_read_size, get_used_size,
  get_remain_size, write, copy_input, copy_output, peek, read, move_read_offset, move_write_offset,
}

-- The calls that a client makes of a ring. `take_in` is a `recv` at the rear, of the given bytes, with
-- the `MoveWriteOffset` after it.
pub data Call : Type 0 where
  reset_it used remain : Call
  write_in : List ℕ → ℕ → Call
  peek_at read_out : ℕ → Call
  take_in : List ℕ → Call
  skip : ℕ → Call

-- What a call gives back.
pub data Answer : Type 0 where
  nothing : Answer
  size : ℕ → Answer
  accepted : Bool → Answer
  bytes : ℕ → List ℕ → Answer

unfoldable pub ring_call : RingBuffer → Call → Option (Answer × RingBuffer)
ring_call r reset_it = some (nothing, reset r)
ring_call r used = some (size (get_used_size r), r)
ring_call r remain = some (size (get_remain_size r), r)
ring_call r (write_in input n) = write r input n >>= λ (ok, r'). some (accepted ok, r')
ring_call r (peek_at n) = peek r n >>= λ (k, out). some (bytes k out, r)
ring_call r (read_out n) = read r n >>= λ (k, out, r'). some (bytes k out, r')
ring_call r (take_in input) =
    some (
      nothing,
      move_write_offset (record r { buffer = store r.buffer r.rear input }) (length input),
    )
ring_call r (skip n) = some (nothing, move_read_offset r n)

-- The same calls of a queue that holds less than the array's length.
unfoldable pub queue_call : List ℕ → Call → Answer × List ℕ
queue_call q reset_it = (nothing, [])
queue_call q used = (size (length q), q)
queue_call q remain = (size (buffer_size - 1 - length q), q)
queue_call q (write_in input n) =
    if ltb (buffer_size - 1 - length q) n
    then (accepted false, q)
    else (accepted true, q ++ take n input)
queue_call q (peek_at n) = (bytes (min (length q) n) (take n q), q)
queue_call q (read_out n) = (bytes (min (length q) n) (take n q), drop (min (length q) n) q)
queue_call q (take_in input) = (nothing, q ++ input)
queue_call q (skip n) = (nothing, drop n q)

-- What the ring asks of a call: a write is refused or stays within the direct space, as does a
-- `recv`, and no more is skipped than is held.
abbrev pub IsFit : RingBuffer → Call → Type 0
IsFit r reset_it = Unit {0}
IsFit r used = Unit {0}
IsFit r remain = Unit {0}
IsFit r (write_in input n) =
    (get_remain_size r < n) ⊎ (n ≤ length input) × (n ≤ get_direct_write_size r)
IsFit r (peek_at n) = Unit {0}
IsFit r (read_out n) = Unit {0}
IsFit r (take_in input) = length input ≤ get_direct_write_size r
IsFit r (skip n) = n ≤ get_used_size r

-- Each operation is the server's.
write_same :
    (r : RingBuffer) (input : List ℕ) (n : ℕ) → write r input n ≡ RecvBuffer.write r input n
unfolding write copy_input get_remain_size get_used_size get_direct_write_size RecvBuffer.write
    RecvBuffer.copy_input RecvBuffer.get_remain_size RecvBuffer.get_used_size
    RecvBuffer.get_direct_write_size
write_same r input n = refl

peek_same : (r : RingBuffer) (n : ℕ) → peek r n ≡ RecvBuffer.peek r n
unfolding peek copy_output get_used_size get_direct_read_size RecvBuffer.peek RecvBuffer.copy_output
    RecvBuffer.get_used_size RecvBuffer.get_direct_read_size
peek_same r n = refl

read_same : (r : RingBuffer) (n : ℕ) → read r n ≡ RecvBuffer.read r n
unfolding read RecvBuffer.read peek copy_output get_used_size get_direct_read_size RecvBuffer.peek
    RecvBuffer.copy_output RecvBuffer.get_used_size RecvBuffer.get_direct_read_size
read_same r n = refl

-- What a call comes to: the queue's answer, and a valid ring that holds what the queue holds.
abbrev Agrees : RingBuffer → Call → Type 0
Agrees r c =
    (r' : RingBuffer) × (ring_call r c ≡ some ((queue_call (contents r) c).0, r'))
    × (contents r' ≡ (queue_call (contents r) c).1)
    × IsValid r'

used_lem : (r : RingBuffer) → IsValid r → get_used_size r ≡ length (contents r)
unfolding get_used_size RecvBuffer.get_used_size
used_lem r v = sym (length-contents r v)

remain_lem :
    (r : RingBuffer) → IsValid r → get_remain_size r ≡ buffer_size - 1 - length (contents r)
unfolding get_remain_size
remain_lem r v = ap (λ n. buffer_size - 1 - n) (used_lem r v)

-- From the queue's side computed.
agree :
    (r r' : RingBuffer) (c : Call) (a : Answer) (q : List ℕ)
    → queue_call (contents r) c ≡ (a, q)
    → ring_call r c ≡ some (a, r')
    → contents r' ≡ q
    → IsValid r'
    → Agrees r c
agree r r' c a q e f g v = (r', f ∙ ap (λ o. some (o.0, r')) (sym e), g ∙ ap (λ o. o.1) (sym e), v)

write_in-Agrees :
    (r : RingBuffer) (input : List ℕ) (n : ℕ)
    → IsValid r
    → IsFit r (write_in input n)
    → Agrees r (write_in input n)
unfolding ring_call queue_call get_remain_size get_used_size get_direct_write_size
    RecvBuffer.get_remain_size RecvBuffer.get_used_size RecvBuffer.get_direct_write_size
write_in-Agrees r input n v (inl h) =
    let full : buffer_size - 1 - length (contents r) < n = omega (arith, remain_lem r v) in
    agree r r (write_in input n) (accepted false) (contents r)
      (ap
        (λ b.
          if b then (accepted false, contents r) else (accepted true, contents r ++ take n input))
        (lt→ltb (buffer_size - 1 - length (contents r)) n full))
      (ap (λ o. o >>= λ (ok, r'). some (accepted ok, r'))
        (write_same r input n ∙ write_refused r input n h))
      refl v
write_in-Agrees r input n v (inr (hl, hd)) =
    let (r', e, c, v') = write_straight r input n v hl hd in
    let room : n ≤ buffer_size - 1 - length (contents r) =
      omega (arith, sizes_agree r v, length-contents r v) in
    agree r r' (write_in input n) (accepted true) (contents r ++ take n input)
      (ap
        (λ b.
          if b then (accepted false, contents r) else (accepted true, contents r ++ take n input))
        (le→ltb (buffer_size - 1 - length (contents r)) n room))
      (ap (λ o. o >>= λ (ok, r'). some (accepted ok, r')) (write_same r input n ∙ e)) c v'

call-Agrees : (c : Call) (r : RingBuffer) → IsValid r → IsFit r c → Agrees r c
unfolding ring_call queue_call reset fill move_read_offset move_write_offset get_used_size
    get_direct_write_size RecvBuffer.move_read_offset RecvBuffer.move_write_offset
    RecvBuffer.get_used_size RecvBuffer.get_direct_write_size span load
call-Agrees reset_it r v f =
    (reset r, refl, refl, record { front_in = omega arith; rear_in = omega arith })
call-Agrees used r v f = (r, ap (λ n. some (size n, r)) (used_lem r v), refl, v)
call-Agrees remain r v f = (r, ap (λ n. some (size n, r)) (remain_lem r v), refl, v)
call-Agrees (write_in input n) r v f = write_in-Agrees r input n v f
call-Agrees (peek_at n) r v f = (
  r,
  ap (λ o. o >>= λ (k, out). some (bytes k out, r)) (peek_same r n ∙ peek_lem r n v)
      ∙ ap (λ u. some (bytes (min u n) (take n (contents r)), r)) (sym (length-contents r v)),
  refl,
  v,
)
call-Agrees (read_out n) r v f =
    let (r', e, c, v') = read_lem r n v in
    (
      r',
      ap (λ o. o >>= λ (k, out, r'). some (bytes k out, r')) (read_same r n ∙ e)
          ∙ ap (λ u. some (bytes (min u n) (take n (contents r)), r')) (sym (length-contents r v)),
      c ∙ ap (λ u. drop (min u n) (contents r)) (sym (length-contents r v)),
      v',
    )
call-Agrees (take_in input) r v f =
    let (c, v') = fill_lem r input v f in (fill r input, refl, c, v')
call-Agrees (skip n) r v f =
    let (c, v') = move_lem r n v f in (RecvBuffer.move_read_offset r n, refl, c, v')

-- Calls one after another, and their answers.
unfoldable pub ring_calls : RingBuffer → List Call → Option (List Answer × RingBuffer)
unfolding ring_call
ring_calls r [] = some ([], r)
ring_calls r (c ∷ cs) =
    ring_call r c >>= λ (a, r'). ring_calls r' cs >>= λ (rest, r''). some (a ∷ rest, r'')

unfoldable pub queue_calls : List ℕ → List Call → List Answer × List ℕ
unfolding queue_call
queue_calls q [] = ([], q)
queue_calls q (c ∷ cs) =
    let (a, q') = queue_call q c in let (rest, q'') = queue_calls q' cs in (a ∷ rest, q'')

-- The ring after a call; an undefined one leaves what there was.
abbrev pub after : RingBuffer → Option (Answer × RingBuffer) → RingBuffer
after r none = r
after r (some (a, r')) = r'

-- Every call is fit for the ring that the calls before it leave.
abbrev pub AllFit : RingBuffer → List Call → Type 0
AllFit r [] = Unit {0}
AllFit r (c ∷ cs) = IsFit r c × AllFit (after r (ring_call r c)) cs

-- Whatever calls are made of a valid ring, in whatever order, as long as a write is refused or stays
-- within the direct space, a `recv` stays within it too, and no more is skipped than is held: none of
-- the calls is undefined, the answers are those of a queue of the bytes held, and the ring that is left
-- is valid and holds what the queue holds.
pub ring_calls-eq-queue_calls :
    (cs : List Call) (r : RingBuffer)
    → IsValid r
    → AllFit r cs
    → (r' : RingBuffer) × (ring_calls r cs ≡ some ((queue_calls (contents r) cs).0, r'))
      × (contents r' ≡ (queue_calls (contents r) cs).1)
      × IsValid r'
unfolding ring_calls queue_calls
ring_calls-eq-queue_calls [] r v f = (r, refl, refl, v)
ring_calls-eq-queue_calls (c ∷ cs) r v (fit, later) =
    let (a, q) = queue_call (contents r) c in
    let (r1, e, held, v1) = call-Agrees c r v fit in
    let (r2, e2, held2, v2) =
      ring_calls-eq-queue_calls cs r1 v1 (subst (λ o. AllFit (after r o) cs) e later) in
    let same = ap (λ xs. queue_calls xs cs) held in
    (
      r2,
      ap (λ o. o >>= λ (a, r'). ring_calls r' cs >>= λ (rest, r''). some (a ∷ rest, r'')) e
          ∙ ap (λ o. o >>= λ (rest, r''). some (a ∷ rest, r'')) e2
          ∙ ap (λ o. some (a ∷ o.0, r2)) same,
      held2 ∙ ap (λ o. o.1) same,
      v2,
    )
