-- ===== src/StressTest/Replies.antt =====
-- What the client answers to whole packets.
use my_server_project.Common.{
  ℕ, zero, suc, ◌+◌, ◌*◌, ◌≤◌, ◌<◌, ◌≡◌, refl, sym, ap, ap₂, ◌∙◌, true, some, List, [], ◌∷◌, ◌++◌,
  le→ltb, lt→ltb, take, drop, length, length-take, length-drop, length-append, take_all,
  take-append_le, drop-append_le, drop-append_ge, min, arith, append_assoc, append-nil, All,
}
use my_server_project.RecvBuffer.{
  RecvBuffer, get_used_size, get_direct_write_size, write, move_read_offset,
}
use my_server_project.RecvBuffer.Bounds.{IsValid}
use my_server_project.RecvBuffer.Contents.{contents, length-contents}
use my_server_project.RecvBuffer.Copy.{
  peek_lem, read_lem, write_straight, written, write-eq-written, written_room,
}
use my_server_project.RecvBuffer.InPlace.{fill, fill_lem, move_lem}
use my_server_project.Session.{concat}
use my_server_project.StressTest.{
  EchoSession, header_size, respond, pass, echo_loop, reset_if_empty, do_recv, received,
}
use my_server_project.StressTest.Echo.{BothValid, reset_if_empty_lem}

-- A whole ping packet: 12 bytes, of which the first two say so.
pub record IsPing (p : List ℕ) : Type 0 where
  pub size : length p ≡ 12
  pub says : header_size (take 4 p) ≡ 12

-- The answers to packets, from tick `i` on.
pub replies : (ℕ → List ℕ) → ℕ → List (List ℕ) → List ℕ
replies clock i [] = []
replies clock i (p ∷ ps) = (take 4 p ++ clock i) ++ replies clock (suc i) ps

-- A `Write` of a whole input within the direct space.
write_all :
    (r : RecvBuffer) (input : List ℕ) (size : ℕ)
    → IsValid r
    → length input ≡ size
    → size ≤ get_direct_write_size r
    → (r' : RecvBuffer) × (write r input size ≡ some (true, r'))
      × (contents r' ≡ contents r ++ input)
      × IsValid r'
      × (get_direct_write_size r' + size ≡ get_direct_write_size r)
write_all r input size v hl hd =
    let (r', eq, held, ok) = write_straight r input size v (omega arith) hd in
    let eq' = write-eq-written r input size v (omega arith) hd in
    let same : r' ≡ written r input size = cc in
    (
      r',
      eq,
      held ∙ ap (λ xs. contents r ++ xs) (take_all size input (omega arith)),
      ok,
      rw same (written_room r input size v hd),
    )

-- The packet in front is taken out in two parts.
drop_packet : (p rest : List ℕ) → length p ≡ 12 → drop 8 (drop 4 (p ++ rest)) ≡ rest
drop_packet p rest h =
    ap (drop 8) (drop-append_le 4 p rest (omega arith))
    ∙ drop-append_ge 8 (drop 4 p) rest (omega (arith, length-drop 4 p))
    ∙ ap (λ n. drop n rest) {y = 0} (omega (arith, length-drop 4 p, h))

abbrev Answers : EchoSession → List ℕ → List ℕ → List ℕ → EchoSession → Type 0
Answers s p rest tick t =
    BothValid t
    × (contents t.recv_buffer ≡ rest)
    × (contents t.send_buffer ≡ contents s.send_buffer ++ (take 4 p ++ tick))
    × (get_direct_write_size t.send_buffer + 12 ≡ get_direct_write_size s.send_buffer)

pass_ping :
    (s : EchoSession) (p rest tick : List ℕ)
    → BothValid s
    → IsPing p
    → length tick ≡ 8
    → contents s.recv_buffer ≡ p ++ rest
    → 12 ≤ get_direct_write_size s.send_buffer
    → (t : EchoSession) × (pass s tick ≡ some (some t)) × Answers s p rest tick t
unfolding pass respond
pass_ping s p rest tick v ping lt held room =
    let b = s.recv_buffer in
    let used : get_used_size b ≡ 12 + length rest =
      omega
        (arith, length-contents b v.recv_valid, ap length held, length-append p rest, ping.size) in
    let header : take 4 (contents b) ≡ take 4 p =
      ap (take 4) held ∙ take-append_le 4 p rest (omega (arith, ping.size)) in
    let (dropped, mv) = move_lem b 4 v.recv_valid (omega arith) in
    let b1 = move_read_offset b 4 in
    let (b2, reads, left, rv) = read_lem b1 8 mv in
    let at_least : min (get_used_size b1) 8 ≡ 8 = omega (
      arith,
      length-contents b1 mv,
      ap length dropped,
      length-drop 4 (contents b),
      length-contents b v.recv_valid,
    ) in
    let (d, writes, dh, dv, dr) =
      write_all s.send_buffer (take 4 p) 4 v.send_valid (omega (arith, length-take 4 p, ping.size))
        (omega arith) in
    let (e, writes2, eh, ev, er) = write_all d tick 8 dv lt (omega arith) in
    (
      record s { recv_buffer = b2; send_buffer = e },
      rw
          (
            pass,
            le→ltb (get_used_size b) 4 (omega arith),
            peek_lem b 4 v.recv_valid,
            header,
            le→ltb (get_used_size b) (header_size (take 4 p)) (omega (arith, ping.says)),
            respond,
            reads,
            writes,
            writes2,
          )
          refl,
      (
        record { recv_valid = rv; send_valid = ev },
        left ∙ ap₂ drop at_least (dropped ∙ ap (drop 4) held) ∙ drop_packet p rest ping.size,
        eh ∙ ap (λ xs. xs ++ tick) dh ∙ append_assoc (contents s.send_buffer) (take 4 p) tick,
        omega arith,
      ),
    )

module _ (clock : ℕ → List ℕ) (ticks : (i : ℕ) → length (clock i) ≡ 8) where
  echo_loop_pings :
      (ps : List (List ℕ)) (n i : ℕ) (s : EchoSession) (rest : List ℕ)
      → BothValid s
      → All IsPing ps
      → length rest < 4
      → contents s.recv_buffer ≡ concat ps ++ rest
      → 12 * length ps ≤ get_direct_write_size s.send_buffer
      → length ps < n
      → (t : EchoSession) × (echo_loop n clock i s ≡ some t)
        × BothValid t
        × (contents t.recv_buffer ≡ rest)
        × (contents t.send_buffer ≡ contents s.send_buffer ++ replies clock i ps)
  unfolding echo_loop concat replies pass
  echo_loop_pings ps zero i s rest v pings h held room fuel = absurd (omega arith)
  echo_loop_pings [] (suc n) i s rest v pings h held room fuel =
      let few : get_used_size s.recv_buffer < 4 =
        omega (arith, length-contents s.recv_buffer v.recv_valid, ap length held) in
      (
        s,
        rw (echo_loop, pass, lt→ltb (get_used_size s.recv_buffer) 4 few) refl,
        v,
        held,
        sym (append-nil (contents s.send_buffer)),
      )
  echo_loop_pings (p ∷ ps) (suc n) i s rest v pings h held room fuel =
      let (t, goes, (tv, left, answered, less)) =
        pass_ping s p (concat ps ++ rest) (clock i) v pings.0 (ticks i)
          (held ∙ append_assoc p (concat ps) rest) (omega arith) in
      let (u, eq, uv, remains, all_answered) =
        echo_loop_pings ps n (suc i) t rest tv pings.1 h left (omega arith) (omega arith) in
      (
        u,
        rw (echo_loop, goes) eq,
        uv,
        remains,
        all_answered
            ∙ ap (λ xs. xs ++ replies clock (suc i) ps) answered
            ∙ append_assoc (contents s.send_buffer) (take 4 p ++ clock i)
                (replies clock (suc i) ps),
      )

length-concat : (ps : List (List ℕ)) → All IsPing ps → length (concat ps) ≡ 12 * length ps
unfolding concat
length-concat [] h = omega arith
length-concat (p ∷ ps) h =
    omega (arith, length-append p (concat ps), length-concat ps h.1, h.0.size)

-- When what the ring held and what arrives make up whole ping packets and less than a header, and the
-- direct space of the send ring has room for as many, `DoRecv` answers each packet, in their order,
-- with its header and the current tick, and leaves just the bytes after them to be read.
pub do_recv-replies :
    (s : EchoSession) (xs : List ℕ) (clock : ℕ → List ℕ) (ps : List (List ℕ)) (rest : List ℕ)
    → ((i : ℕ) → length (clock i) ≡ 8)
    → BothValid s
    → length xs ≤ get_direct_write_size s.recv_buffer
    → contents s.recv_buffer ++ xs ≡ concat ps ++ rest
    → All IsPing ps
    → length rest < 4
    → 12 * length ps ≤ get_direct_write_size s.send_buffer
    → (t : EchoSession) × (do_recv s (received xs) clock ≡ some (true, t))
      × BothValid t
      × (contents t.recv_buffer ≡ rest)
      × (contents t.send_buffer ≡ contents s.send_buffer ++ replies clock 0 ps)
unfolding do_recv
do_recv-replies s xs clock ps rest ticks v h whole pings few room =
    let (held, fv) = fill_lem s.recv_buffer xs v.recv_valid h in
    let filled : EchoSession = record s { recv_buffer = fill s.recv_buffer xs } in
    let fuel : length ps ≤ get_used_size filled.recv_buffer = omega (
      arith,
      length-contents (fill s.recv_buffer xs) fv,
      ap length (held ∙ whole),
      length-append (concat ps) rest,
      length-concat ps pings,
    ) in
    let (t, eq, tv, left, answered) =
      echo_loop_pings clock ticks ps (suc (get_used_size filled.recv_buffer)) 0 filled rest
        (record { recv_valid = fv; send_valid = v.send_valid }) pings few (held ∙ whole) room
        (omega arith) in
    let (same, ok, used) = reset_if_empty_lem t.recv_buffer tv.recv_valid in
    (
      record t { recv_buffer = reset_if_empty t.recv_buffer },
      rw (do_recv, eq) refl,
      record { recv_valid = ok; send_valid = tv.send_valid },
      same ∙ left,
      answered,
    )
