-- ===== src/RecvBuffer/Copy.antt =====
-- `Peek`, `Read` and the straight branch of `Write`, against the queue of the bytes held.
use my_server_project.Common.{
  ℕ, ◌+◌, ◌-◌, ◌%◌, ◌≤◌, ◌<◌, min, ◌≡◌, refl, ap, inl, inr, true, false, some, List, ◌++◌, arith,
  leb, Bool-cases, leb→le, leb→lt, le→leb, lt→leb, lt→ltb, le→ltb, load, store, length, take, drop,
  length-load, take-load, take_all, take-append_le, take-append_ge, length-take,
}
use my_server_project.RecvBuffer.{
  RecvBuffer, buffer_size, get_used_size, get_remain_size, get_direct_read_size,
  get_direct_write_size, copy_in, copy_input, copy_output, peek, read, write, move_read_offset,
}
use my_server_project.RecvBuffer.Bounds.{IsValid, sizes_agree, direct_in_array}
use my_server_project.RecvBuffer.Contents.{
  contents, span_straight, span_wrapped, length-contents, span-drop, span-fill,
}

copy_output-eq-take_straight :
    (r : RecvBuffer) (n : ℕ)
    → IsValid r
    → r.front ≤ r.rear
    → n ≤ get_used_size r
    → copy_output r n (get_direct_read_size r) ≡ some (take n (contents r))
unfolding copy_output get_used_size get_direct_read_size
copy_output-eq-take_straight r n v e h =
    let fits : n ≤ r.rear - r.front = rw (le→leb r.front r.rear e) at h in
    rw (
      le→leb r.front r.rear e,
      le→leb n (r.rear - r.front) fits,
      le→leb (r.front + n) buffer_size (omega arith),
      span_straight r.buffer r.front r.rear e,
      take-load r.buffer r.front (r.rear - r.front) n fits,
    )

copy_output-eq-take_wrapped :
    (r : RecvBuffer) (n : ℕ)
    → IsValid r
    → r.rear < r.front
    → n ≤ get_used_size r
    → copy_output r n (get_direct_read_size r) ≡ some (take n (contents r))
unfolding copy_output get_used_size get_direct_read_size
copy_output-eq-take_wrapped r n v e h =
    let fits : n ≤ buffer_size - r.front + r.rear = rw (lt→leb r.front r.rear e) at h in
    elim (Bool-cases (leb n (buffer_size - r.front))) [
      | inl near ↦ rw (
        lt→leb r.front r.rear e,
        near,
        le→leb (r.front + n) buffer_size (omega (arith, leb→le n (buffer_size - r.front) near)),
        span_wrapped r.buffer r.front r.rear e,
        take-append_le n (load r.buffer r.front (buffer_size - r.front)) (load r.buffer 0 r.rear)
            (rw length-load (leb→le n (buffer_size - r.front) near)),
        take-load r.buffer r.front (buffer_size - r.front) n
            (leb→le n (buffer_size - r.front) near),
      )
      | inr far ↦
          let past : buffer_size - r.front < n = leb→lt n (buffer_size - r.front) far in
          rw (
            lt→leb r.front r.rear e,
            far,
            le→leb (r.front + (buffer_size - r.front)) buffer_size (omega arith),
            le→leb (0 + (n - (buffer_size - r.front))) buffer_size (omega arith),
            span_wrapped r.buffer r.front r.rear e,
            take-append_ge n (load r.buffer r.front (buffer_size - r.front))
                (load r.buffer 0 r.rear) (rw length-load (omega arith)),
            length-load,
            take-load r.buffer 0 r.rear (n - (buffer_size - r.front)) (omega arith),
          )
    ]

pub copy_output-eq-take :
    (r : RecvBuffer) (n : ℕ)
    → IsValid r
    → n ≤ get_used_size r
    → copy_output r n (get_direct_read_size r) ≡ some (take n (contents r))
copy_output-eq-take r n v h = elim (Bool-cases (leb r.front r.rear)) [
  | inl e ↦ copy_output-eq-take_straight r n v (leb→le r.front r.rear e) h
  | inr e ↦ copy_output-eq-take_wrapped r n v (leb→lt r.front r.rear e) h
]

-- `Peek` of a valid buffer never reads outside the array; it returns the smaller of the used and the
-- asked size, and copies that many of the oldest bytes.
pub peek_lem :
    (r : RecvBuffer) (size : ℕ)
    → IsValid r
    → peek r size ≡ some (min (get_used_size r) size, take size (contents r))
unfolding peek
peek_lem r size v = elim (Bool-cases (leb (get_used_size r) size)) [
  | inl all ↦
      let le : get_used_size r ≤ size = leb→le (get_used_size r) size all in
      rw
        (
          all,
          copy_output-eq-take r (get_used_size r) v (omega arith),
          take_all (get_used_size r) (contents r) (omega (arith, length-contents r v)),
          take_all size (contents r) (omega (arith, length-contents r v)),
        )
        (ap (λ n. some (n, contents r)) (omega arith))
  | inr part ↦
      let lt : size < get_used_size r = leb→lt (get_used_size r) size part in
      rw (part, copy_output-eq-take r size v (omega arith))
        (ap (λ n. some (n, take size (contents r))) (omega arith))
]

-- `Read` of a valid buffer takes the oldest bytes out, as many as `Peek` returns, keeps the rest in
-- order, and leaves the buffer valid.
pub read_lem :
    (r : RecvBuffer) (size : ℕ)
    → IsValid r
    → (r' : RecvBuffer) × (read r size
        ≡ some (min (get_used_size r) size, take size (contents r), r'))
      × (contents r' ≡ drop (min (get_used_size r) size) (contents r))
      × IsValid r'
unfolding read
read_lem r size v = (
  move_read_offset r (min (get_used_size r) size),
  rw (peek_lem r size v) (unfold move_read_offset in refl),
  unfold move_read_offset in
      span-drop r.buffer r.front r.rear (min (get_used_size r) size) v.front_in v.rear_in
        (omega (arith, length-contents r v)),
  unfold move_read_offset in omega arith,
)

-- `Write` refuses what exceeds the remaining size and changes nothing.
pub write_refused :
    (r : RecvBuffer) (input : List ℕ) (size : ℕ)
    → get_remain_size r < size
    → write r input size ≡ some (false, r)
unfolding write
write_refused r input size h = rw (lt→ltb (get_remain_size r) size h)

-- The buffer after a `Write` within the direct space.
abbrev pub written : RecvBuffer → List ℕ → ℕ → RecvBuffer
written r input size = record r {
  buffer = store r.buffer r.rear (take size input);
  rear = (r.rear + size) % buffer_size;
}

pub write-eq-written :
    (r : RecvBuffer) (input : List ℕ) (size : ℕ)
    → IsValid r
    → size ≤ length input
    → size ≤ get_direct_write_size r
    → write r input size ≡ some (true, written r input size)
unfolding write copy_input copy_in
write-eq-written r input size v hl hd = rw (
  le→ltb (get_remain_size r) size (omega (arith, sizes_agree r v)),
  le→leb size (get_direct_write_size r) hd,
  le→leb size (length input) hl,
  le→leb (r.rear + size) buffer_size (omega (arith, direct_in_array r v)),
)

-- It takes its size out of the direct space.
pub written_room :
    (r : RecvBuffer) (input : List ℕ) (size : ℕ)
    → IsValid r
    → size ≤ get_direct_write_size r
    → get_direct_write_size (written r input size) + size ≡ get_direct_write_size r
unfolding get_direct_write_size
written_room r input size v hd = ground arith

-- A `Write` to a valid buffer that fits in the direct space appends the first `size` bytes of the
-- input and leaves the buffer valid.
pub write_straight :
    (r : RecvBuffer) (input : List ℕ) (size : ℕ)
    → IsValid r
    → size ≤ length input
    → size ≤ get_direct_write_size r
    → (r' : RecvBuffer) × (write r input size ≡ some (true, r'))
      × (contents r' ≡ contents r ++ take size input)
      × IsValid r'
write_straight r input size v hl hd = (
  written r input size,
  write-eq-written r input size v hl hd,
  span-fill r.buffer r.front r.rear size (take size input) v.front_in v.rear_in
      (omega (arith, length-take size input)) (unfold get_direct_write_size in hd),
  omega arith,
)
