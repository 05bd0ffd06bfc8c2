-- ===== src/RecvBuffer/Contents.antt =====
-- The bytes that a receive buffer holds, oldest first, and how moving an offset changes them.
use my_server_project.Common.{
  ℕ, ◌+◌, ◌-◌, ◌%◌, ◌≤◌, ◌<◌, ◌≡◌, refl, ap, sym, inl, inr, List, ◌++◌, append_assoc, arith, leb,
  if◌then◌else◌, Bool-cases, leb→le, leb→lt, le→leb, lt→leb, Memory, load, length, drop,
  length-append, length-load, load-add, drop-load, drop-append_le, drop-append_ge, store,
  load-store_self, load-store_before, load-store_after,
}
use my_server_project.RecvBuffer.{RecvBuffer, buffer_size, get_used_size}
use my_server_project.RecvBuffer.Bounds.{IsValid}

-- The used bytes: one block, or the block up to the end and the block at the start.
unfoldable pub span : Memory → ℕ → ℕ → List ℕ
span m front rear =
    if leb front rear
    then load m front (rear - front)
    else (load m front (buffer_size - front) ++ load m 0 rear)

abbrev pub contents : RecvBuffer → List ℕ
contents r = span r.buffer r.front r.rear

pub span_straight : (m : Memory) (f g : ℕ) → f ≤ g → span m f g ≡ load m f (g - f)
unfolding span
span_straight m f g h = rw (le→leb f g h)

pub span_wrapped :
    (m : Memory) (f g : ℕ) → g < f → span m f g ≡ load m f (buffer_size - f) ++ load m 0 g
unfolding span
span_wrapped m f g h = rw (lt→leb f g h)

-- `GetUsedSize` is the number of bytes held.
pub length-contents : (r : RecvBuffer) → IsValid r → length (contents r) ≡ get_used_size r
unfolding span get_used_size
length-contents r v = ground (
  arith,
  length-append (load r.buffer r.front (buffer_size - r.front)) (load r.buffer 0 r.rear),
  length-load r.buffer r.front (r.rear - r.front),
  length-load r.buffer r.front (buffer_size - r.front),
  length-load r.buffer 0 r.rear,
)

span-drop_straight :
    (m : Memory) (f g n : ℕ)
    → f < buffer_size
    → g < buffer_size
    → f ≤ g
    → n ≤ length (span m f g)
    → span m ((f + n) % buffer_size) g ≡ drop n (span m f g)
span-drop_straight m f g n hf hg e h =
    let room : n ≤ g - f =
      omega (arith, ap length (span_straight m f g e), length-load m f (g - f)) in
    let idx : (f + n) % buffer_size ≡ f + n = omega arith in
    rw (idx, span_straight m (f + n) g (omega arith), span_straight m f g e)
      (sym (drop-load m f (g - f) n (g - (f + n)) (f + n) (omega arith) refl))

span-drop_wrapped :
    (m : Memory) (f g n : ℕ)
    → f < buffer_size
    → g < buffer_size
    → g < f
    → n ≤ length (span m f g)
    → span m ((f + n) % buffer_size) g ≡ drop n (span m f g)
span-drop_wrapped m f g n hf hg e h = elim (Bool-cases (leb (buffer_size - f) n)) [
  | inl past ↦
      let far : buffer_size - f ≤ n = leb→le (buffer_size - f) n past in
      let room : n ≤ buffer_size - f + g = omega (
        arith,
        ap length (span_wrapped m f g e),
        length-append (load m f (buffer_size - f)) (load m 0 g),
        length-load m f (buffer_size - f),
        length-load m 0 g,
      ) in
      let idx : (f + n) % buffer_size ≡ n - (buffer_size - f) = omega arith in
      rw
        (
          idx,
          span_straight m (n - (buffer_size - f)) g (omega arith),
          span_wrapped m f g e,
          drop-append_ge n (load m f (buffer_size - f)) (load m 0 g) (rw length-load far),
          length-load,
        )
        (sym (
          drop-load m 0 g (n - (buffer_size - f)) (g - (n - (buffer_size - f)))
            (n - (buffer_size - f)) (omega arith) (omega arith)))
  | inr near ↦
      let close : n < buffer_size - f = leb→lt (buffer_size - f) n near in
      let idx : (f + n) % buffer_size ≡ f + n = omega arith in
      rw
        (
          idx,
          span_wrapped m (f + n) g (omega arith),
          span_wrapped m f g e,
          drop-append_le n (load m f (buffer_size - f)) (load m 0 g) (rw length-load (omega arith)),
        )
        (ap (λ xs. xs ++ load m 0 g)
          (sym
            (drop-load m f (buffer_size - f) n (buffer_size - (f + n)) (f + n) (omega arith) refl)))
]

-- Moving the front past used bytes drops them.
pub span-drop :
    (m : Memory) (f g n : ℕ)
    → f < buffer_size
    → g < buffer_size
    → n ≤ length (span m f g)
    → span m ((f + n) % buffer_size) g ≡ drop n (span m f g)
span-drop m f g n hf hg h = elim (Bool-cases (leb f g)) [
  | inl e ↦ span-drop_straight m f g n hf hg (leb→le f g e) h
  | inr e ↦ span-drop_wrapped m f g n hf hg (leb→lt f g e) h
]

-- A block stored at the rear, within the direct space, is appended.
pub span-fill :
    (m : Memory) (f g n : ℕ) (xs : List ℕ)
    → f < buffer_size
    → g < buffer_size
    → length xs ≡ n
    → n ≤ (if leb f g then buffer_size - g - 1 else f - g - 1)
    → span (store m g xs) f ((g + n) % buffer_size) ≡ span m f g ++ xs
span-fill m f g n xs hf hg e h = elim (Bool-cases (leb f g)) [
  | inl c ↦
      let fg : f ≤ g = leb→le f g c in
      let room : n ≤ buffer_size - g - 1 = rw c at h in
      let idx : (g + n) % buffer_size ≡ g + n = omega arith in
      rw (
        idx,
        span_straight (store m g xs) f (g + n) (omega arith),
        span_straight m f g fg,
        load-add (store m g xs) f (g - f) n (g + n - f) g (omega arith) (omega arith),
        load-store_before m g xs f (g - f) (omega arith),
        load-store_self m g xs e,
      )
  | inr c ↦
      let gf : g < f = leb→lt f g c in
      let room : n ≤ f - g - 1 = rw c at h in
      let idx : (g + n) % buffer_size ≡ g + n = omega arith in
      rw (
        idx,
        span_wrapped (store m g xs) f (g + n) (omega arith),
        span_wrapped m f g gf,
        load-add (store m g xs) 0 g n (g + n) g refl (omega arith),
        load-store_after m g xs f (buffer_size - f) (omega arith),
        load-store_before m g xs 0 g (omega arith),
        load-store_self m g xs e,
        append_assoc,
      )
]
