-- ===== src/RecvBuffer/Wrap.antt =====
-- The other branch of `Write`: a copy that has to go on at the start of the array.
use my_server_project.Common.{
  ℕ, suc, ◌+◌, ◌-◌, ◌%◌, ◌≤◌, ◌<◌, ◌≡◌, ◌≢◌, refl, ap, ◌∙◌, sym, true, some_inj, some, List, ◌∷◌,
  ◌++◌, append_assoc, arith, le→leb, lt→leb, le→ltb, Memory, load, store, length, take, drop,
  get_elem?, take-load, load-add, length-take, length-drop, take-take, get_elem?-take,
  get_elem?-append, load-store_self, load-store_before, load-store_after,
}
use my_server_project.RecvBuffer.{
  RecvBuffer, buffer_size, get_remain_size, get_direct_write_size, copy_in, copy_input, write,
}
use my_server_project.RecvBuffer.Bounds.{IsValid}
use my_server_project.RecvBuffer.Contents.{span, contents, span_straight, span_wrapped}

-- The two blocks of such a copy, `xs` from the rear up to one short of the end and `ys` at the start,
-- enclose the array's last byte, which is left as it was.
span-wrap :
    (m : Memory) (f g k : ℕ) (xs ys : List ℕ)
    → f ≤ g
    → g < buffer_size
    → length xs ≡ buffer_size - g - 1
    → length ys ≡ suc k
    → suc k ≤ f
    → span (store (store m g xs) 0 ys) f k ≡ span m f g ++ (xs ++ (m (buffer_size - 1) ∷ take k ys))
unfolding load store
span-wrap m f g k xs ys fg hg lx ly hk =
    rw
      (
        span_wrapped (store (store m g xs) 0 ys) f k hk,
        load-store_after (store m g xs) 0 ys f (buffer_size - f) (omega arith),
        span_straight m f g fg,
        load-add (store m g xs) f (g - f) (buffer_size - g) (buffer_size - f) g (omega arith)
            (omega arith),
        load-store_before m g xs f (g - f) (omega arith),
        load-add (store m g xs) g (buffer_size - g - 1) 1 (buffer_size - g) (buffer_size - 1)
            (omega arith) (omega arith),
        load-store_self m g xs lx,
        load-store_after m g xs (buffer_size - 1) 1 (omega arith),
        ← take-load (store (store m g xs) 0 ys) 0 (suc k) k (omega arith),
        load-store_self (store m g xs) 0 ys ly,
      )
      (simp append_assoc)

-- Only a buffer whose front is not past its rear takes more than its direct space.
wrap_case :
    (r : RecvBuffer)
    → IsValid r
    → get_direct_write_size r < get_remain_size r
    → (r.front ≤ r.rear)
      × (get_direct_write_size r ≡ buffer_size - r.rear - 1)
      × (get_remain_size r ≡ get_direct_write_size r + r.front)
unfolding get_direct_write_size get_remain_size
wrap_case r v h = ground arith

-- A `Write` to a valid buffer past the direct space that still fits the remaining size reports
-- success and keeps the buffer valid, but inserts the stale last byte of the array after the direct
-- part and drops the last byte of the input.
pub write_wrap :
    (r : RecvBuffer) (input : List ℕ) (size : ℕ)
    → IsValid r
    → size ≤ length input
    → get_direct_write_size r < size
    → size ≤ get_remain_size r
    → (r' : RecvBuffer) × (write r input size ≡ some (true, r'))
      × (contents r'
          ≡ contents r
            ++ (take (get_direct_write_size r) input
                ++ (r.buffer (buffer_size - 1)
                    ∷ take
                        (size - get_direct_write_size r - 1)
                        (drop (get_direct_write_size r) input))))
      × IsValid r'
unfolding write copy_input copy_in
write_wrap r input size v hl hd hr =
    let d = get_direct_write_size r in
    let k = size - get_direct_write_size r - 1 in
    let fact = wrap_case r v (omega arith) in
    let rest : length (drop d input) ≡ length input - d = length-drop d input in
    let block : length (take (size - d) (drop d input)) ≡ suc k =
      omega (arith, length-take (size - d) (drop d input)) in
    let idx : (r.rear + size) % buffer_size ≡ k = omega arith in
    (
      record r {
        buffer = store (store r.buffer r.rear (take d input)) 0 (take (size - d) (drop d input));
        rear = (r.rear + size) % buffer_size;
      },
      rw (
        le→ltb (get_remain_size r) size hr,
        lt→leb size d hd,
        le→leb d (length input) (omega arith),
        le→leb (r.rear + d) buffer_size (omega arith),
        le→leb (size - d) (length (drop d input)) (omega arith),
        le→leb (0 + (size - d)) buffer_size (omega arith),
      ),
      rw idx (
          span-wrap r.buffer r.front r.rear k (take d input) (take (size - d) (drop d input)) fact.0
            v.rear_in (omega (arith, length-take d input)) block (omega arith)
          ∙ ap (λ xs. contents r ++ (take d input ++ (r.buffer (buffer_size - 1) ∷ xs)))
              (take-take k (size - d) (drop d input) (omega arith))),
      omega arith,
    )

-- In a `Write` to a valid buffer past the direct space that still fits the remaining size, if the
-- array's stale last byte differs from the input byte that belongs in its place, the buffer does
-- not hold what was written, though success is reported.
pub write_wrap_corrupts :
    (r : RecvBuffer) (input : List ℕ) (size x : ℕ)
    → IsValid r
    → size ≤ length input
    → get_direct_write_size r < size
    → size ≤ get_remain_size r
    → get_elem? input (get_direct_write_size r) ≡ some x
    → x ≢ r.buffer (buffer_size - 1)
    → (r' : RecvBuffer) × (write r input size ≡ some (true, r'))
      × (contents r' ≢ contents r ++ take size input)
write_wrap_corrupts r input size x v hl hd hr hx ne =
    let (r', wrote, holds, ok) = write_wrap r input size v hl hd hr in
    (r', wrote, λ same. ne (differ r' (sym holds ∙ same)))
  where
    d : ℕ
    d = get_direct_write_size r

    stale : List ℕ
    stale = r.buffer (buffer_size - 1) ∷ take (size - d - 1) (drop d input)

    at_stale :
        get_elem? (contents r ++ (take d input ++ stale)) (length (contents r) + d)
        ≡ some (r.buffer (buffer_size - 1))
    at_stale =
        get_elem?-append (contents r) (take d input ++ stale) d (length (contents r) + d) refl
        ∙ get_elem?-append (take d input) stale 0 d (omega (arith, length-take d input))

    at_input : get_elem? (contents r ++ take size input) (length (contents r) + d) ≡ some x
    at_input =
        get_elem?-append (contents r) (take size input) d (length (contents r) + d) refl
        ∙ get_elem?-take d size input hd
        ∙ hx

    differ :
        RecvBuffer
        → contents r ++ (take d input ++ stale) ≡ contents r ++ take size input
        → x ≡ r.buffer (buffer_size - 1)
    differ r' e =
        some_inj
          (sym at_input ∙ ap (λ xs. get_elem? xs (length (contents r) + d)) (sym e) ∙ at_stale)
