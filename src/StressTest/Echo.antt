-- ===== src/StressTest/Echo.antt =====
-- The loop over the packets, and what a send takes out of the ring.
use my_server_project.Common.{
  ℕ, zero, suc, ◌≤◌, ◌<◌, ◌≡◌, ◌⊎◌, inl, inr, refl, sym, ap, ◌∙◌, Bool, Bool-cases, true, false,
  none, some, List, [], ◌∷◌, ◌++◌, ltb, leb, leb→le, leb→lt, ◌==◌, take, length, length-take,
  take-take, take-append-drop, ap₂, ne→==, length-drop, min, arith,
}
use my_server_project.RecvBuffer.{
  RecvBuffer, get_used_size, get_remain_size, get_direct_write_size, get_direct_read_size, write,
  move_read_offset, reset,
}
use my_server_project.RecvBuffer.Bounds.{IsValid, moves-IsValid, sizes_agree}
use my_server_project.RecvBuffer.Contents.{contents, length-contents}
use my_server_project.RecvBuffer.Copy.{peek_lem, read_lem, write_refused, write_straight}
use my_server_project.RecvBuffer.Wrap.{write_wrap}
use my_server_project.RecvBuffer.InPlace.{fill, front_block, fill_lem, move_lem, front_block_lem}
use my_server_project.StressTest.{
  EchoSession, header_size, respond, pass, echo_loop, reset_if_empty, do_recv, received, sent,
  do_send, send_front,
}

-- A `Write` of a valid buffer is never undefined, and keeps the buffer valid.
pub write_total :
    (r : RecvBuffer) (input : List ℕ) (size : ℕ)
    → IsValid r
    → size ≤ length input
    → (ok : Bool) × (r' : RecvBuffer) × (write r input size ≡ some (ok, r')) × IsValid r'
write_total r input size v h = elim (Bool-cases (leb size (get_remain_size r))) [
  | inr e ↦ (false, r, write_refused r input size (leb→lt size (get_remain_size r) e), v)
  | inl e ↦ elim (Bool-cases (leb size (get_direct_write_size r))) [
    | inl d ↦
        let (r', eq, same, ok) =
          write_straight r input size v h (leb→le size (get_direct_write_size r) d) in
        (true, r', eq, ok)
    | inr d ↦
        let (r', eq, same, ok) =
          write_wrap r input size v h (leb→lt size (get_direct_write_size r) d)
            (leb→le size (get_remain_size r) e) in
        (true, r', eq, ok)
  ]
]

pub record BothValid (s : EchoSession) : Type 0 where
  pub recv_valid : IsValid s.recv_buffer
  pub send_valid : IsValid s.send_buffer

-- The bytes that are left do not make up a packet.
abbrev pub IsQuiet : EchoSession → Type 0
IsQuiet s =
    (get_used_size s.recv_buffer < 4)
    ⊎ (get_used_size s.recv_buffer < header_size (take 4 (contents s.recv_buffer)))

pub respond_lem :
    (s : EchoSession) (header tick : List ℕ)
    → BothValid s
    → 4 ≤ get_used_size s.recv_buffer
    → length header ≡ 4
    → length tick ≡ 8
    → (t : EchoSession) × (respond s header tick ≡ some t)
      × BothValid t
      × (get_used_size t.recv_buffer < get_used_size s.recv_buffer)
      × (t.closes ≡ s.closes)
unfolding respond
respond_lem s header tick v h lh lt =
    let (dropped, mv) = move_lem s.recv_buffer 4 v.recv_valid h in
    let b1 = move_read_offset s.recv_buffer 4 in
    let (b2, reads, left, rv) = read_lem b1 8 mv in
    let (ok, d, writes, dv) = write_total s.send_buffer header 4 v.send_valid (omega arith) in
    let (ok2, e, writes2, ev) = write_total d tick 8 dv (omega arith) in
    (
      record s { recv_buffer = b2; send_buffer = e },
      rw (respond, reads, writes, writes2) refl,
      record { recv_valid = rv; send_valid = ev },
      omega (
        arith,
        length-contents b2 rv,
        length-contents b1 mv,
        length-contents s.recv_buffer v.recv_valid,
        ap length left,
        ap length dropped,
        length-drop 4 (contents s.recv_buffer),
        length-drop (min (get_used_size b1) 8) (contents b1),
      ),
      refl,
    )

-- What a pass comes to: it leaves a quiet session, or goes on with less to read.
abbrev Passes : EchoSession → List ℕ → Type 0
Passes s tick =
    ((pass s tick ≡ some none) × IsQuiet s)
    ⊎ ((t : EchoSession) × (pass s tick ≡ some (some t))
        × BothValid t
        × (get_used_size t.recv_buffer < get_used_size s.recv_buffer)
        × (t.closes ≡ s.closes))

pass-Passes : (s : EchoSession) (tick : List ℕ) → BothValid s → length tick ≡ 8 → Passes s tick
unfolding pass
pass-Passes s tick v lt = elim (Bool-cases (ltb (get_used_size s.recv_buffer) 4)) [
  | inl e ↦ inl (rw (pass, e) refl, inl (ground arith))
  | inr e ↦
      let header = take 4 (contents s.recv_buffer) in
      let enough : 4 ≤ get_used_size s.recv_buffer = ground arith in
      let peeks = peek_lem s.recv_buffer 4 v.recv_valid in
      elim (Bool-cases (ltb (get_used_size s.recv_buffer) (header_size header))) [
        | inl d ↦ inl (rw (pass, e, peeks, d) refl, inr (ground arith))
        | inr d ↦
            let lh : length header ≡ 4 = omega (
              arith,
              length-take 4 (contents s.recv_buffer),
              length-contents s.recv_buffer v.recv_valid,
            ) in
            let (t, eq, tv, less, same) = respond_lem s header tick v enough lh lt in
            inr (t, rw (pass, e, peeks, d, eq) refl, tv, less, same)
      ]
]

module _ (clock : ℕ → List ℕ) (ticks : (i : ℕ) → length (clock i) ≡ 8) where
  -- With more fuel than bytes to read the loop ends at a `break`.
  echo_loop_total :
      (n i : ℕ) (s : EchoSession)
      → BothValid s
      → get_used_size s.recv_buffer < n
      → (t : EchoSession) × (echo_loop n clock i s ≡ some t)
        × BothValid t
        × IsQuiet t
        × (t.closes ≡ s.closes)
  unfolding echo_loop
  echo_loop_total zero i s v h = absurd (omega arith)
  echo_loop_total (suc n) i s v h = elim (pass-Passes s (clock i) v (ticks i)) [
    | inl (stops, quiet) ↦ (s, rw (echo_loop, stops) refl, v, quiet, refl)
    | inr (t, goes, tv, less, same) ↦
        let (u, eq, uv, quiet, kept) = echo_loop_total n (suc i) t tv (omega arith) in
        (u, rw (echo_loop, goes) eq, uv, quiet, kept ∙ same)
  ]

empty_of : (xs : List ℕ) → length xs ≡ 0 → xs ≡ []
empty_of [] e = refl
empty_of (x ∷ xs) e = absurd (omega arith)

reset-used : (b : RecvBuffer) → get_used_size (reset b) ≡ 0
unfolding reset get_used_size
reset-used b = refl

-- `Reset` of an empty buffer changes nothing of what it holds.
pub reset_if_empty_lem :
    (b : RecvBuffer)
    → IsValid b
    → (contents (reset_if_empty b) ≡ contents b)
      × IsValid (reset_if_empty b)
      × (get_used_size (reset_if_empty b) ≡ get_used_size b)
unfolding reset_if_empty
reset_if_empty_lem b v = elim (Bool-cases (get_used_size b == 0)) [
  | inl e ↦
      let none_used : get_used_size b ≡ 0 = ground arith in
      let rv : IsValid (reset b) = (moves-IsValid b 0 v).0 in
      rw (reset_if_empty, e)
        (
          empty_of (contents (reset b)) (length-contents (reset b) rv ∙ reset-used b)
              ∙ sym (empty_of (contents b) (length-contents b v ∙ none_used)),
          rv,
          reset-used b ∙ sym none_used,
        )
  | inr e ↦ rw (reset_if_empty, e) (refl, v, refl)
]

IsQuiet-reset_if_empty :
    (s : EchoSession)
    → BothValid s
    → IsQuiet s
    → IsQuiet (record s { recv_buffer = reset_if_empty s.recv_buffer })
IsQuiet-reset_if_empty s v q =
    let (held, ok, used) = reset_if_empty_lem s.recv_buffer v.recv_valid in rw (held, used) q

-- With rings whose offsets are valid, ticks of 8 bytes and bytes that fit in the space offered,
-- `DoRecv` is never undefined and its loop ends, whatever the bytes say: it returns true, closes
-- nothing, keeps the offsets valid, and leaves less than a header or less than the packet that the
-- next header announces.
pub do_recv-IsQuiet :
    (s : EchoSession) (xs : List ℕ) (clock : ℕ → List ℕ)
    → ((i : ℕ) → length (clock i) ≡ 8)
    → BothValid s
    → length xs ≤ get_direct_write_size s.recv_buffer
    → (t : EchoSession) × (do_recv s (received xs) clock ≡ some (true, t))
      × BothValid t
      × IsQuiet t
      × (t.closes ≡ s.closes)
unfolding do_recv
do_recv-IsQuiet s xs clock ticks v h =
    let (held, fv) = fill_lem s.recv_buffer xs v.recv_valid h in
    let filled : EchoSession = record s { recv_buffer = fill s.recv_buffer xs } in
    let (t, eq, tv, quiet, same) =
      echo_loop_total clock ticks (suc (get_used_size filled.recv_buffer)) 0 filled
        (record { recv_valid = fv; send_valid = v.send_valid }) (omega arith) in
    (
      record t { recv_buffer = reset_if_empty t.recv_buffer },
      rw (do_recv, eq) refl,
      record {
        recv_valid = (reset_if_empty_lem t.recv_buffer tv.recv_valid).1;
        send_valid = tv.send_valid;
      },
      IsQuiet-reset_if_empty t tv quiet,
      same,
    )

-- When `send` takes some of the front block of a valid ring, the bytes on the wire followed by those
-- that the ring still holds are those that it held, and `DoSend` returns true.
pub do_send-contents :
    (s : EchoSession) (n : ℕ)
    → IsValid s.send_buffer
    → suc n ≤ get_direct_read_size s.send_buffer
    → let (ok, wire, t) = do_send s (sent (suc n)) in
      (ok ≡ true)
      × (wire ++ contents t.send_buffer ≡ contents s.send_buffer)
      × (length wire ≡ suc n)
      × IsValid t.send_buffer
unfolding do_send send_front
do_send-contents s n v h =
    let b = s.send_buffer in
    let room : get_direct_read_size b ≤ get_used_size b = (sizes_agree b v).2 in
    let some_used : (get_used_size b == 0) ≡ false = ne→== (get_used_size b) 0 (λ e. omega arith) in
    let (block, size, empty) = front_block_lem b v in
    let (dropped, mv) = move_lem b (suc n) v (omega arith) in
    let (held, ok, used) = reset_if_empty_lem (move_read_offset b (suc n)) mv in
    let wire : take (suc n) (front_block b) ≡ take (suc n) (contents b) =
      ap (take (suc n)) block ∙ take-take (suc n) (get_direct_read_size b) (contents b) h in
    rw (do_send, some_used)
      (
        refl,
        ap₂ ◌++◌ wire (held ∙ dropped) ∙ take-append-drop (suc n) (contents b),
        length-take (suc n) (front_block b) ∙ omega arith,
        ok,
      )
