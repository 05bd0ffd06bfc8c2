-- ===== src/Session/Sending.antt =====
-- What a send puts on the wire when the system takes all of it, and how sends queue behind it.
use my_server_project.Common.{
  ℕ, zero, suc, ◌%◌, ◌^◌, ◌<◌, ◌≡◌, ◌∙◌, refl, ap, true, false, some, List, [], ◌∷◌, ◌++◌,
  append-nil, append_assoc, ==_self, length, length-append, take_all, take, ltb, arith,
}
use my_server_project.Session.{
  Session, written, Packet, Writes, wrote, interrupted, finish_send, took, emit, write_loop,
  write_packets, send_taken, do_send, send_bytes, send, total_send_bytes, concat,
}

pub total_send_bytes_lem : (ps : List Packet) → total_send_bytes ps ≡ length (concat ps) % 2 ^ 32
unfolding total_send_bytes concat
total_send_bytes_lem [] = refl
total_send_bytes_lem (p ∷ ps) =
    omega (arith, total_send_bytes_lem ps, length-append {0} p (concat ps))

pub concat-append : (ps qs : List Packet) → concat (ps ++ qs) ≡ concat ps ++ concat qs
unfolding concat
concat-append [] qs = refl
concat-append (p ∷ ps) qs = rw (concat-append ps qs, append_assoc)

-- A number below 2^31 is the same as an Int32.
pub write_loop-wrote :
    (s : Session) (ps : List Packet) (n : ℕ)
    → n < 2 ^ 31
    → write_loop s ps (wrote n) ≡ finish_send (emit (written (take n (concat ps))) s) ps n
unfolding write_loop took
write_loop-wrote s ps n small =
    let same : n % 2 ^ 32 ≡ n = omega arith in
    let fits : ltb n (2 ^ 31) ≡ true = ground arith in rw (same, fits) refl

-- `writev` interrupted `k` times before it gives `w`.
unfoldable pub retried : ℕ → Writes → Writes
retried zero w = w
retried (suc k) w = interrupted (retried k w)

write_loop-retried :
    (k : ℕ) (s : Session) (ps : List Packet) (w : Writes)
    → write_loop s ps (retried k w) ≡ write_loop s ps w
unfolding write_loop retried
write_loop-retried zero s ps w = refl
write_loop-retried (suc k) s ps w = write_loop-retried k s ps w

-- On an open session `DoSend` with something queued, however often interrupted, does what the last
-- `writev` decides.
pub do_send-retried :
    (k : ℕ) (s : Session) (fd : ℕ) (p : Packet) (ps : List Packet) (w : Writes)
    → s.socket_fd ≡ some fd
    → s.packets ≡ p ∷ ps
    → do_send s (retried k w) ≡ write_loop (record s { packets = [] }) (p ∷ ps) w
unfolding do_send send_taken write_packets
do_send-retried k s fd p ps w open_fd queued =
    let t : Session = record s { packets = [] } in
    ap (λ q. send_taken t q (retried k w)) queued
    ∙ ap (λ f. write_packets t f (p ∷ ps) (retried k w)) open_fd
    ∙ write_loop-retried k t (p ∷ ps) w

-- On an open session with a queue of fewer than 2^31 bytes, all of which `writev` takes after any
-- number of interrupts, `DoSend` writes the packets in order, empties the queue, clears the sending
-- flag and changes nothing else.
pub do_send_complete :
    (k : ℕ) (s : Session) (fd : ℕ) (p : Packet) (ps : List Packet)
    → s.socket_fd ≡ some fd
    → s.packets ≡ p ∷ ps
    → length (concat s.packets) < 2 ^ 31
    → do_send s (retried k (wrote (length (concat s.packets))))
      ≡ record s { packets = []; is_sending = false; trace = written (concat s.packets) ∷ s.trace }
unfolding finish_send
do_send_complete k s fd p ps open_fd queued small =
    let all = concat (p ∷ ps) in
    let len : length all ≡ total_send_bytes (p ∷ ps) =
      omega (arith, total_send_bytes_lem (p ∷ ps), ap (λ q. length (concat q)) queued) in
    do_send-retried k s fd p ps (wrote (length (concat s.packets))) open_fd queued
    ∙ write_loop-wrote (record s { packets = [] }) (p ∷ ps) (length (concat s.packets)) small
    ∙ rw (queued, take_all (length all) all (omega arith), len, ==_self)

-- Sends of nonempty buffers one after another.
unfoldable pub send_all : Session → List (ℕ × List ℕ) → Writes → Session
send_all s [] w = s
send_all s ((b, bs) ∷ rest) w = send_all (send s (some (b ∷ bs)) w) rest w

abbrev pub buffers : List (ℕ × List ℕ) → List Packet
buffers [] = []
buffers ((b, bs) ∷ rest) = (b ∷ bs) ∷ buffers rest

send_queued :
    (s : Session) (b : ℕ) (bs : List ℕ) (w : Writes)
    → s.is_sending ≡ true
    → send s (some (b ∷ bs)) w ≡ record s { packets = s.packets ++ (b ∷ bs) ∷ [] }
unfolding send send_bytes
send_queued s b bs w e = ground arith

-- While a send is under way further sends only queue, in order.
pub send_all_queued :
    (bs : List (ℕ × List ℕ)) (s : Session) (w : Writes)
    → s.is_sending ≡ true
    → send_all s bs w ≡ record s { packets = s.packets ++ buffers bs }
unfolding send_all
send_all_queued [] s w e = rw append-nil
send_all_queued ((b, bs) ∷ rest) s w e =
    ap (λ t. send_all t rest w) (send_queued s b bs w e)
    ∙ send_all_queued rest (record s { packets = s.packets ++ (b ∷ bs) ∷ [] }) w e
    ∙ ap (λ ps. record s { packets = ps }) (append_assoc s.packets ((b ∷ bs) ∷ []) (buffers rest))
