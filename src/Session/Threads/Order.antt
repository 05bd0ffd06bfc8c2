-- ===== src/Session/Threads/Order.antt =====
-- What several calls of `Send` put on the wire.
use my_server_project.Common.{
  ℕ, ◌≡◌, ◌≢◌, refl, sym, ap, ◌∙◌, Bool, true, false, none, some, List, [], ◌++◌, if◌then◌else◌,
  append-nil, arith,
}
use mathlib.Core.Path.{subst}
use my_server_project.Session.{
  Session, Packet, Socket, send_poll_mod, Writes, concat, emit, set_send_state, stage_from,
  find_start,
}
use my_server_project.Session.Threads.{
  Activity, sends, job, Point, fresh, queued, ready, clearing, giving_up, ending, returned, done,
  writing, failing, ending_on, staging, Senders, move_to, with_session, exchange, write_pass,
  return_from, step_at, step, Reach, here, next, before_calls,
}
use my_server_project.Session.Threads.Exclusion.{IsExclusive, IsSum, step_at-IsExclusive}
use my_server_project.Session.Threads.Flight.{wire, IsWhole, TakesAll, lost, idle, IsOrdered, stays}
use my_server_project.Session.Threads.Moves.{swap-IsOrdered, write_once-IsOrdered, push-IsOrdered}

write_pass-IsOrdered :
    (base : List ℕ) (f : Socket) (w : Writes) (s : Senders) (t : ℕ) (ps : List Packet)
    → s.session.socket_fd ≡ f
    → s.points t ≡ writing ps
    → IsWhole ps w
    → IsExclusive s
    → IsOrdered base s
    → IsOrdered base (write_pass s t f ps w)
unfolding write_pass
write_pass-IsOrdered base none w s t ps e at all ex x =
    absurd (let both = sym e ∙ x.is_open in ground arith)
write_pass-IsOrdered base (some fd) w s t ps e at all ex x =
    write_once-IsOrdered base w s t ps at all ex x

exchange-IsOrdered :
    (base : List ℕ) (b : Bool) (s : Senders) (t : ℕ)
    → s.points t ≡ queued
    → IsOrdered base s
    → IsOrdered base (
        if b
        then move_to s t done
        else move_to (with_session s (set_send_state s.session true)) t ready)
exchange-IsOrdered base true s t at x =
    stays base s s.session t done refl refl refl (λ qs e. ground arith) (λ qs e. ground arith) refl
      x
exchange-IsOrdered base false s t at x =
    stays base s (set_send_state s.session true) t ready refl refl refl (λ qs e. ground arith)
      (λ qs e. ground arith) refl x

return-IsOrdered :
    (base : List ℕ) (a : Activity) (s : Senders) (t : ℕ)
    → s.points t ≡ returned
    → IsOrdered base s
    → IsOrdered base (return_from s t a)
unfolding return_from
return-IsOrdered base job s t at x =
    stays base s s.session t done refl refl refl (λ qs e. ground arith) (λ qs e. ground arith) refl
      x
return-IsOrdered base (sends p) s t at x =
    stays base s (emit (send_poll_mod s.session.socket_fd) s.session) t done refl refl refl
      (λ qs e. ground arith) (λ qs e. ground arith) refl x

-- The connection is open, so no call is where it is lost.
never_lost {ℓ} :
    {A : Type ℓ} (base : List ℕ) (s : Senders) (t : ℕ) (p : Point)
    → s.points t ≡ p
    → lost p ≡ true
    → IsOrdered base s
    → A
never_lost base s t p at gone x =
    absurd (let e = sym (x.kept t) ∙ ap lost at ∙ gone in ground arith)

step_at-IsOrdered :
    (base : List ℕ) (p : Point) (a : Activity) (s : Senders) (t : ℕ) (w : Writes)
    → TakesAll p w
    → s.points t ≡ p
    → IsExclusive s
    → IsOrdered base s
    → IsOrdered base (step_at a p s t w)
unfolding step_at exchange
step_at-IsOrdered base fresh a s t w all at ex x = push-IsOrdered base a s t at x
step_at-IsOrdered base queued a s t w all at ex x =
    exchange-IsOrdered base s.session.is_sending s t at x
step_at-IsOrdered base ready a s t w all at ex x = swap-IsOrdered base s t at ex x
step_at-IsOrdered base (writing ps) a s t w all at ex x =
    write_pass-IsOrdered base s.session.socket_fd w s t ps refl at (all ps refl) ex x
step_at-IsOrdered base clearing a s t w all at ex x =
    stays base s (set_send_state s.session false) t returned refl refl refl (λ qs e. ground arith)
      (λ qs e. ground arith) refl x
step_at-IsOrdered base giving_up a s t w all at ex x = never_lost base s t giving_up at refl x
step_at-IsOrdered base (failing ps n) a s t w all at ex x =
    never_lost base s t (failing ps n) at refl x
step_at-IsOrdered base ending a s t w all at ex x = never_lost base s t ending at refl x
step_at-IsOrdered base (ending_on ps n) a s t w all at ex x =
    never_lost base s t (ending_on ps n) at refl x
step_at-IsOrdered base (staging ps n) a s t w all at ex x =
    let v = s.session in
    stays base s
      (emit (send_poll_mod v.socket_fd) (record v { send_packets = stage_from (find_start n ps) }))
      t returned refl refl refl (λ qs e. ground arith) (λ qs e. ground arith) refl x
step_at-IsOrdered base returned a s t w all at ex x = return-IsOrdered base a s t at x
step_at-IsOrdered base done a s t w all at ex x = x

not_lost-IsSum :
    (base : List ℕ) (s : Senders) (t : ℕ) (w : Writes) → IsOrdered base s → IsSum (s.points t) w
not_lost-IsSum base s t w x ps n e = never_lost base s t (ending_on ps n) e refl x

step-IsOrdered :
    (base : List ℕ) (calls : ℕ → Activity) (s : Senders) (t : ℕ) (w : Writes)
    → calls t ≢ job
    → TakesAll (s.points t) w
    → IsExclusive s × IsOrdered base s
    → IsExclusive (step calls s t w) × IsOrdered base (step calls s t w)
unfolding step
step-IsOrdered base calls s t w ne all (ex, x) = (
  step_at-IsExclusive (s.points t) (calls t) s t w ne (not_lost-IsSum base s t w x) refl ex,
  step_at-IsOrdered base (s.points t) (calls t) s t w all refl ex x,
)

Reach-Both :
    (calls : ℕ → Activity) (v : Session) (fd : ℕ) {s : Senders}
    → v.socket_fd ≡ some fd
    → ((t : ℕ) → calls t ≢ job)
    → Reach calls TakesAll (before_calls v) s
    → IsExclusive s × IsOrdered (wire v.trace) s
unfolding before_calls concat
Reach-Both calls v fd open_fd sends_only (here e) =
    subst (λ s. IsExclusive s × IsOrdered (wire v.trace) s) (sym e)
      (
        record { single = λ t u a b. ground arith; flagged = λ t a. ground arith },
        record {
          fd = fd;
          is_open = open_fd;
          kept = λ t. refl;
          flight = [];
          flying = idle refl (λ k ps y. ground arith);
          adds_up = ap (λ a. a ++ concat v.packets) (sym (append-nil (wire v.trace)));
        },
      )
Reach-Both calls v fd open_fd sends_only (next {q} t w r ok e) =
    subst (λ s. IsExclusive s × IsOrdered (wire v.trace) s) (sym e)
      (step-IsOrdered (wire v.trace) calls q t w (sends_only t) ok
        (Reach-Both calls v fd open_fd sends_only r))

-- When a session with an open socket is used by any number of calls of `Send`, and no turn of the send
-- job, and `writev` takes all that it is given, fewer than 2^31 bytes, however often interrupted: after any interleaving of
-- their steps the bytes on the wire, then the packets between a swap and their `writev`, if any, then
-- the queue are what was on the wire and queued before with the buffers of the calls after it, in the
-- order of their pushes: nothing is lost, repeated or overtaken.
pub Reach-IsOrdered :
    (calls : ℕ → Activity) (v : Session) (fd : ℕ) {s : Senders}
    → v.socket_fd ≡ some fd
    → ((t : ℕ) → calls t ≢ job)
    → Reach calls TakesAll (before_calls v) s
    → IsOrdered (wire v.trace) s
Reach-IsOrdered calls v fd open_fd sends_only r = (Reach-Both calls v fd open_fd sends_only r).1
