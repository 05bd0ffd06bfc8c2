-- ===== src/Session/Partial.antt =====
-- What a partial write leaves behind.
use my_server_project.Common.{
  ℕ, ◌-◌, ◌^◌, ◌<◌, ◌≡◌, ◌≢◌, ◌∙◌, refl, ap, false, some, List, [], ◌∷◌, append-nil, ne→==, length,
  length-drop, take, drop, arith,
}
use my_server_project.Session.{
  Session, written, send_poll_mod, Packet, Writes, wrote, finish_send, do_send, send_taken,
  send_job_execute, total_send_bytes, concat, find_start, stage, stage_from,
}
use my_server_project.Session.Sending.{
  total_send_bytes_lem, retried, do_send-retried, write_loop-wrote,
}

-- The state after `writev` took `n` of more bytes.
do_send_partial :
    (k : ℕ) (s : Session) (fd n : ℕ) (p : Packet) (ps : List Packet)
    → s.socket_fd ≡ some fd
    → s.packets ≡ p ∷ ps
    → n < length (concat s.packets)
    → length (concat s.packets) < 2 ^ 31
    → do_send s (retried k (wrote n)) ≡ record s {
      packets = [];
      send_packets = stage_from (find_start n (p ∷ ps));
      trace = send_poll_mod (some fd) ∷ written (take n (concat s.packets)) ∷ s.trace;
    }
unfolding finish_send
do_send_partial k s fd n p ps open_fd queued part small =
    let differs : n ≢ total_send_bytes (p ∷ ps) =
      omega (arith, total_send_bytes_lem (p ∷ ps), ap (λ q. length (concat q)) queued) in
    do_send-retried k s fd p ps (wrote n) open_fd queued
    ∙ write_loop-wrote (record s { packets = [] }) (p ∷ ps) n (omega arith)
    ∙ rw (queued, ne→== n (total_send_bytes (p ∷ ps)) differs, open_fd)

find_start_single :
    (n : ℕ) (p : Packet)
    → n < length p
    → length p < 2 ^ 31
    → find_start n (p ∷ []) ≡ (length p - n, p ∷ [])
unfolding find_start
find_start_single n p part small = ground arith

-- When `writev` takes `n` bytes of a queue that is one longer packet, the send job is given the
-- last `n` bytes in place of those that remain.
pub partial_single :
    (k : ℕ) (s : Session) (fd n : ℕ) (p : Packet)
    → s.socket_fd ≡ some fd
    → s.packets ≡ p ∷ []
    → n < length p
    → length p < 2 ^ 31
    → let t = do_send s (retried k (wrote n)) in
      (t.send_packets ≡ drop (length p - n) p ∷ [])
      × (length (concat t.send_packets) ≡ n)
      × (t.packets ≡ [])
unfolding stage concat
partial_single k s fd n p open_fd queued part small =
    let q : length (concat s.packets) ≡ length p =
      ap (λ ps. length (concat ps)) queued ∙ ap length (append-nil p) in
    rw (do_send_partial k s fd n p [] open_fd queued (omega arith) (omega arith)) (
      rw (find_start_single n p part small) (
        refl,
        omega (arith, ap length (append-nil (drop (length p - n) p)), length-drop (length p - n) p),
        refl,
      ))

-- When `writev` takes only the first `n` bytes of a queue of fewer than 2^31, after any number of
-- interrupts, the wire gets those, the queue is empty, the event is armed, and the send job's turn
-- adds nothing to the wire: it only clears the sending flag.
pub partial_lost :
    (k : ℕ) (s : Session) (fd n : ℕ) (p : Packet) (ps : List Packet) (w : Writes)
    → s.socket_fd ≡ some fd
    → s.packets ≡ p ∷ ps
    → n < length (concat s.packets)
    → length (concat s.packets) < 2 ^ 31
    → let t = do_send s (retried k (wrote n)) in
      let u = (send_job_execute t w).0 in
      (t.is_sending ≡ s.is_sending)
      × (u.trace ≡ send_poll_mod (some fd) ∷ written (take n (concat s.packets)) ∷ s.trace)
      × (u.packets ≡ [])
      × (u.is_sending ≡ false)
partial_lost k s fd n p ps w open_fd queued part small =
    rw (do_send_partial k s fd n p ps open_fd queued part small)
      (unfold send_job_execute do_send send_taken in (refl, refl, refl, refl))
