-- ===== src/Session/Threads/Moves.antt =====
-- The steps of a `Send` that move packets, and the account that they keep.
use my_server_project.Common.{
  apart, ℕ, ltb, ◌<◌, ◌%◌, ◌^◌, true, ◌≡◌, ◌≢◌, refl, sym, ap, ◌∙◌, false, List, [], ◌∷◌, ◌++◌,
  if_self, if_other, take, take_all, append-nil, append_assoc, arith,
}
use mathlib.Core.Path.{subst}
use my_server_project.Session.{
  Packet, written, Writes, wrote, again, failed, interrupted, concat, emit,
}
use my_server_project.Session.Sending.{concat-append}
use my_server_project.Session.Threads.{
  Activity, sends, job, Point, fresh, queued, ready, clearing, done, writing, Senders, move_to,
  with_session, push, swap, taken_point, after_writes, after_wrote, write_once,
}
use my_server_project.Session.Threads.Exclusion.{holds, IsExclusive}
use my_server_project.Session.Threads.Flight.{
  wire, IsWhole, lost, IsQuiet, Flying, idle, busy, IsOrdered, Flying-move, kept-move, stays, quiet,
  no_flight, own_flight,
}

taken_Flying :
    (s : Senders) (t : ℕ) (ps : List Packet)
    → IsQuiet s.points
    → Flying (move_to s t (taken_point ps)).points ps
taken_Flying s t [] q = Flying-move s t clearing [] (q t) (λ qs x. ground arith) (idle refl q)
taken_Flying s t (p ∷ ps) q = busy t (if_self t (writing (p ∷ ps)) (s.points t))

taken-kept : (ps : List Packet) → lost (taken_point ps) ≡ false
taken-kept [] = refl
taken-kept (p ∷ ps) = refl

pub swap-IsOrdered :
    (base : List ℕ) (s : Senders) (t : ℕ)
    → s.points t ≡ ready
    → IsExclusive s
    → IsOrdered base s
    → IsOrdered base (swap s t)
unfolding swap concat
swap-IsOrdered base s t at ex x =
    let v = s.session in
    let q = quiet s t (ap holds at) (λ qs y. ground arith) ex in
    let v0 : wire v.trace ++ concat [] ++ concat v.packets
        ≡ wire v.trace ++ concat v.packets ++ concat [] =
      ap (λ a. a ++ concat v.packets) (append-nil (wire v.trace))
      ∙ sym (append-nil (wire v.trace ++ concat v.packets)) in
    let none_flies : x.flight ≡ [] = no_flight s.points x.flight q x.flying in
    record {
      fd = x.fd;
      is_open = x.is_open;
      kept =
          kept-move (with_session s (record v { packets = [] })) t (taken_point v.packets)
            (taken-kept v.packets) x.kept;
      flight = v.packets;
      flying = taken_Flying (with_session s (record v { packets = [] })) t v.packets q;
      adds_up = x.adds_up ∙ ap (λ f. wire v.trace ++ concat f ++ concat v.packets) none_flies ∙ v0;
    }

-- A call after its `writev` of all its packets.
wrote-IsOrdered :
    (base : List ℕ) (s : Senders) (t : ℕ) (ps : List Packet) (p : Point)
    → s.points t ≡ writing ps
    → ((qs : List Packet) → p ≢ writing qs)
    → lost p ≡ false
    → IsExclusive s
    → IsOrdered base s
    → IsOrdered base (move_to (with_session s (emit (written (concat ps)) s.session)) t p)
unfolding concat
wrote-IsOrdered base s t ps p at away keeps ex x =
    let v = s.session in
    let same : x.flight ≡ ps = own_flight s t ps x.flight at ex x.flying in
    let moved : wire v.trace ++ concat ps ++ concat v.packets
        ≡ wire v.trace ++ concat ps ++ concat [] ++ concat v.packets =
      ap (λ a. a ++ concat v.packets) (sym (append-nil (wire v.trace ++ concat ps))) in
    record {
      fd = x.fd;
      is_open = x.is_open;
      kept = kept-move (with_session s (emit (written (concat ps)) v)) t p keeps x.kept;
      flight = [];
      flying = idle refl (
          apart (λ k. (qs : List Packet) → (move_to s t p).points k ≢ writing qs) t
            (λ qs y. away qs (sym (if_self t p (s.points t)) ∙ y))
            (λ k other qs y.
              let e = sym (if_other k t p (s.points k) other) ∙ y in
              other (ex.single k t (ap holds e) (ap holds at))));
      adds_up = x.adds_up ∙ ap (λ f. wire v.trace ++ concat f ++ concat v.packets) same ∙ moved;
    }

-- A call after an interrupted `writev`.
again-IsOrdered :
    (base : List ℕ) (s : Senders) (t : ℕ) (ps : List Packet)
    → s.points t ≡ writing ps
    → IsExclusive s
    → IsOrdered base s
    → IsOrdered base (move_to s t (writing ps))
again-IsOrdered base s t ps at ex x = record {
  fd = x.fd;
  is_open = x.is_open;
  kept = kept-move s t (writing ps) refl x.kept;
  flight = x.flight;
  flying = busy t (
      if_self t (writing ps) (s.points t)
      ∙ ap writing (sym (own_flight s t ps x.flight at ex x.flying)));
  adds_up = x.adds_up;
}

after_writes_away : (ps : List Packet) (n : ℕ) (qs : List Packet) → after_writes ps n ≢ writing qs
unfolding after_writes
after_writes_away ps n qs e = ground arith

after_writes_kept : (ps : List Packet) (n : ℕ) → lost (after_writes ps n) ≡ false
unfolding after_writes
after_writes_kept ps n = ground arith

pub after_wrote_small :
    (ps : List Packet) (n : ℕ) → n < 2 ^ 31 → after_wrote ps (n % 2 ^ 32) ≡ after_writes ps n
unfolding after_wrote
after_wrote_small ps n small =
    let same : n % 2 ^ 32 ≡ n = omega arith in
    let fits : ltb n (2 ^ 31) ≡ true = ground arith in rw (same, fits) refl

pub write_once-IsOrdered :
    (base : List ℕ) (w : Writes) (s : Senders) (t : ℕ) (ps : List Packet)
    → s.points t ≡ writing ps
    → IsWhole ps w
    → IsExclusive s
    → IsOrdered base s
    → IsOrdered base (write_once s t ps w)
unfolding write_once
write_once-IsOrdered base (wrote n) s t ps at all ex x =
    let whole : take n (concat ps) ≡ concat ps = take_all n (concat ps) (omega arith) in
    rw (after_wrote_small ps n all.1) (
      subst
        (λ b.
          IsOrdered base
            (move_to (with_session s (emit (written b) s.session)) t (after_writes ps n)))
        (sym whole)
        (wrote-IsOrdered base s t ps (after_writes ps n) at (after_writes_away ps n)
          (after_writes_kept ps n) ex x))
write_once-IsOrdered base again s t ps at all ex x = absurd all
write_once-IsOrdered base failed s t ps at all ex x = absurd all
write_once-IsOrdered base (interrupted w) s t ps at all ex x = again-IsOrdered base s t ps at ex x

-- A packet added at both ends of the account.
gains :
    (base sent : List ℕ) (pushed packets new : List Packet)
    → base ++ concat pushed ≡ sent ++ concat packets
    → base ++ concat (pushed ++ new) ≡ sent ++ concat (packets ++ new)
gains base sent pushed packets new e =
    ap (λ c. base ++ c) (concat-append pushed new)
    ∙ sym (append_assoc base (concat pushed) (concat new))
    ∙ ap (λ c. c ++ concat new) e
    ∙ append_assoc sent (concat packets) (concat new)
    ∙ ap (λ c. sent ++ c) (sym (concat-append packets new))

pub push-IsOrdered :
    (base : List ℕ) (a : Activity) (s : Senders) (t : ℕ)
    → s.points t ≡ fresh
    → IsOrdered base s
    → IsOrdered base (push s t a)
unfolding push concat
push-IsOrdered base job s t at x =
    stays base s s.session t ready refl refl refl (λ qs e. ground arith) (λ qs e. ground arith) refl
      x
push-IsOrdered base (sends []) s t at x =
    stays base s s.session t done refl refl refl (λ qs e. ground arith) (λ qs e. ground arith) refl
      x
push-IsOrdered base (sends (b ∷ bs)) s t at x =
    let v = s.session in
    let u = record v { packets = v.packets ++ (b ∷ bs) ∷ [] } in
    record {
      fd = x.fd;
      is_open = x.is_open;
      kept = kept-move (with_session s u) t queued refl x.kept;
      flight = x.flight;
      flying =
          Flying-move (with_session s u) t queued x.flight (λ qs e. ground arith)
            (λ qs e. ground arith) x.flying;
      adds_up =
          gains base (wire v.trace ++ concat x.flight) s.pushed v.packets ((b ∷ bs) ∷ []) x.adds_up;
    }
