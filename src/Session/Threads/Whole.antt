-- ===== src/Session/Threads/Whole.antt =====
-- A call whose steps no other call interrupts, against `Send` and the send job's turn as wholes.
use my_server_project.Common.{
  ℕ, ◌≡◌, refl, sym, ap, ◌∙◌, Bool, true, false, some, [], ◌∷◌, if◌then◌else◌, if_self,
}
use my_server_project.Session.{
  Session, Packet, Writes, again, emit, set_send_state, do_send, send_bytes, send, send_job_execute,
  send_poll_mod,
}
use my_server_project.Session.Threads.{
  Activity, sends, job, fresh, queued, ready, returned, done, Senders, move_to, with_session, push,
  exchange, swap, taken_point, return_from, step_at, stays,
}
use my_server_project.Session.Threads.Alone.{Comes, RunsAlone-trans, acts, takes}

-- `DoSend`, from the swap on.
does_send :
    (w : Writes) (calls : ℕ → Activity) (s : Senders) (t : ℕ)
    → s.points t ≡ ready
    → Comes calls s t returned (do_send s.session w)
unfolding step_at swap do_send
does_send w calls s t at =
    let v = s.session in
    let q = move_to (with_session s (record v { packets = [] })) t (taken_point v.packets) in
    acts calls s q t again ready returned (do_send v w) at refl
      (takes v.packets w calls q t (if_self t (taken_point v.packets) (s.points t)))

-- What follows `DoSend`.
abbrev ended : Activity → Session → Session
ended job v = v
ended (sends p) v = emit (send_poll_mod v.socket_fd) v

returns :
    (a : Activity) (calls : ℕ → Activity) (s : Senders) (t : ℕ)
    → calls t ≡ a
    → s.points t ≡ returned
    → Comes calls s t done (ended a s.session)
unfolding step_at return_from
returns job calls s t e at =
    let q = move_to s t done in
    acts calls s q t again returned done s.session at (sym (ap (λ a. return_from s t a) e))
      (q, stays refl, if_self t done (s.points t), refl)
returns (sends p) calls s t e at =
    let v = ended (sends p) s.session in
    let q = move_to (with_session s v) t done in
    acts calls s q t again returned done v at (sym (ap (λ a. return_from s t a) e))
      (q, stays refl, if_self t done (s.points t), refl)

does_all :
    (a : Activity) (w : Writes) (calls : ℕ → Activity) (s : Senders) (t : ℕ)
    → calls t ≡ a
    → s.points t ≡ ready
    → Comes calls s t done (ended a (do_send s.session w))
does_all a w calls s t e at =
    let (q, r, there, same) = does_send w calls s t at in
    let (z, r', finished, same') = returns a calls q t e there in
    (z, RunsAlone-trans r r', finished, same' ∙ ap (ended a) same)

exchanges :
    (b : Bool) (w : Writes) (calls : ℕ → Activity) (s : Senders) (t : ℕ) (p : Packet)
    → s.session.is_sending ≡ b
    → calls t ≡ sends p
    → s.points t ≡ queued
    → Comes calls s t done
        (if b then s.session else ended (sends p) (do_send (set_send_state s.session true) w))
unfolding step_at exchange
exchanges true w calls s t p on e at =
    let q = move_to s t done in
    acts calls s q t w queued done s.session at
      (sym (
        ap (λ b. if b then q else move_to (with_session s (set_send_state s.session true)) t ready)
          on))
      (q, stays refl, if_self t done (s.points t), refl)
exchanges false w calls s t p off e at =
    let q = move_to (with_session s (set_send_state s.session true)) t ready in
    acts calls s q t w queued done (ended (sends p) (do_send (set_send_state s.session true) w)) at
      (sym (ap (λ b. if b then move_to s t done else q) off))
      (does_all (sends p) w calls q t e (if_self t ready (s.points t)))

-- `Send`, or the send job's turn, as a whole.
unfoldable pub runs : Activity → Session → Writes → Session
runs job v w = (send_job_execute v w).0
runs (sends p) v w = send v (some p) w

runs_alone :
    (a : Activity) (w : Writes) (calls : ℕ → Activity) (s : Senders) (t : ℕ)
    → calls t ≡ a
    → s.points t ≡ fresh
    → Comes calls s t done (runs a s.session w)
unfolding step_at push runs send send_bytes send_job_execute
runs_alone job w calls s t e at =
    let q = move_to s t ready in
    acts calls s q t again fresh done (do_send s.session w) at (sym (ap (λ a. push s t a) e))
      (does_all job w calls q t e (if_self t ready (s.points t)))
runs_alone (sends []) w calls s t e at =
    let q = move_to s t done in
    acts calls s q t again fresh done s.session at (sym (ap (λ a. push s t a) e))
      (q, stays refl, if_self t done (s.points t), refl)
runs_alone (sends (b ∷ bs)) w calls s t e at =
    let q = push s t (sends (b ∷ bs)) in
    acts calls s q t again fresh done (runs (sends (b ∷ bs)) s.session w) at
      (sym (ap (λ a. push s t a) e))
      (exchanges s.session.is_sending w calls q t (b ∷ bs) refl e (if_self t queued (s.points t)))

-- Whatever `writev` answers and however often it is interrupted, steps of a call alone take it from before
-- its first one to its end, and leave the session that `Send` as a whole, or the send job's turn as a
-- whole, leaves.
pub call_alone :
    (calls : ℕ → Activity) (s : Senders) (t : ℕ) (w : Writes)
    → s.points t ≡ fresh
    → Comes calls s t done (runs (calls t) s.session w)
call_alone calls s t w at = runs_alone (calls t) w calls s t refl at
