-- ===== src/Session/Threads/Alone.antt =====
-- `DoSend` from its swap on as steps that no other call interrupts, against the function.
use my_server_project.Common.{
  ℕ, ◌≡◌, refl, sym, ap, ◌∙◌, ◌-◌, ◌%◌, ◌^◌, ltb, Bool, true, false, none, some, List, [], ◌∷◌,
  ◌==◌, if◌then◌else◌, if_self, take,
}
use mathlib.Core.Path.{subst}
use my_server_project.Session.{
  Session, Socket, Packet, Writes, wrote, again, failed, interrupted, concat, written, emit,
  disconnect, set_send_state, finish_send, lose, took, write_loop, write_packets, send_taken,
  send_poll_mod, stage_from, find_start, total_send_bytes,
}
use my_server_project.Session.Threads.{
  Activity, Point, clearing, giving_up, ending, returned, writing, failing, ending_on, staging,
  Senders, move_to, with_session, taken_point, after_writes, after_wrote, write_once, write_pass,
  step_at, step, RunsAlone, stays, acts_on,
}

-- Steps of call `t` alone take it to a point, with the session then as given.
abbrev pub Comes : (ℕ → Activity) → Senders → ℕ → Point → Session → Type 0
Comes calls s t p v = (q : Senders) × RunsAlone calls t s q × (q.points t ≡ p) × (q.session ≡ v)

pub RunsAlone-trans :
    {calls : ℕ → Activity} {t : ℕ} {s q r : Senders}
    → RunsAlone calls t s q
    → RunsAlone calls t q r
    → RunsAlone calls t s r
RunsAlone-trans {calls} {t} {r = r} (stays e) b = subst (λ s. RunsAlone calls t s r) e b
RunsAlone-trans (acts_on w e a) b = acts_on w e (RunsAlone-trans a b)

-- One step from a point, and the rest.
pub acts :
    (calls : ℕ → Activity) (s q : Senders) (t : ℕ) (w : Writes) (p r : Point) (v : Session)
    → s.points t ≡ p
    → q ≡ step_at (calls t) p s t w
    → Comes calls q t r v
    → Comes calls s t r v
unfolding step
acts calls s q t w p r v at e (z, reach, done_at, same) =
    (z, acts_on w (e ∙ ap (λ x. step_at (calls t) x s t w) (sym at)) reach, done_at, same)

clears :
    (calls : ℕ → Activity) (s : Senders) (t : ℕ)
    → s.points t ≡ clearing
    → Comes calls s t returned (set_send_state s.session false)
unfolding step_at
clears calls s t at =
    let q = move_to (with_session s (set_send_state s.session false)) t returned in
    acts calls s q t again clearing returned (set_send_state s.session false) at refl
      (q, stays refl, if_self t returned (s.points t), refl)

gives_up :
    (calls : ℕ → Activity) (s : Senders) (t : ℕ)
    → s.points t ≡ giving_up
    → Comes calls s t returned (disconnect (set_send_state s.session false))
unfolding step_at
gives_up calls s t at =
    let v = set_send_state s.session false in
    let q = move_to (with_session s v) t ending in
    let r = move_to (with_session q (disconnect v)) t returned in
    acts calls s q t again giving_up returned (disconnect v) at refl (
      acts calls q r t again ending returned (disconnect v) (if_self t ending (s.points t)) refl
        (r, stays refl, if_self t returned (q.points t), refl))

abbrev staged : Session → List Packet → ℕ → Session
staged v ps n =
    emit (send_poll_mod v.socket_fd) (record v { send_packets = stage_from (find_start n ps) })

stages :
    (calls : ℕ → Activity) (s : Senders) (t : ℕ) (ps : List Packet) (n : ℕ)
    → s.points t ≡ staging ps n
    → Comes calls s t returned (staged s.session ps n)
unfolding step_at
stages calls s t ps n at =
    let q = move_to (with_session s (staged s.session ps n)) t returned in
    acts calls s q t again (staging ps n) returned (staged s.session ps n) at refl
      (q, stays refl, if_self t returned (s.points t), refl)

-- From the comparison of `result` with the sum on.
finishes :
    (b : Bool) (calls : ℕ → Activity) (s : Senders) (t : ℕ) (ps : List Packet) (n : ℕ)
    → (n == total_send_bytes ps) ≡ b
    → s.points t ≡ after_writes ps n
    → Comes calls s t returned (finish_send s.session ps n)
unfolding after_writes finish_send
finishes true calls s t ps n e at =
    subst (Comes calls s t returned)
      (sym (ap (λ b. if b then set_send_state s.session false else staged s.session ps n) e))
      (clears calls s t (at ∙ ap (λ b. if b then clearing else staging ps n) e))
finishes false calls s t ps n e at =
    subst (Comes calls s t returned)
      (sym (ap (λ b. if b then set_send_state s.session false else staged s.session ps n) e))
      (stages calls s t ps n (at ∙ ap (λ b. if b then clearing else staging ps n) e))

-- From a negative `result` of the third kind on.
loses :
    (calls : ℕ → Activity) (s : Senders) (t : ℕ) (ps : List Packet) (n : ℕ)
    → s.points t ≡ failing ps n
    → Comes calls s t returned (lose s.session ps n)
unfolding step_at lose
loses calls s t ps n at =
    let v = set_send_state s.session false in
    let r = move_to (with_session s v) t (ending_on ps n) in
    let z = move_to (with_session r (disconnect v)) t (after_writes ps n) in
    let end = finish_send (disconnect v) ps n in
    acts calls s r t again (failing ps n) returned end at refl (
      acts calls r z t again (ending_on ps n) returned end (if_self t (ending_on ps n) (s.points t))
        refl
        (finishes (n == total_send_bytes ps) calls z t ps n refl
          (if_self t (after_writes ps n) (r.points t))))

takes_bytes :
    (b : Bool) (calls : ℕ → Activity) (s : Senders) (t : ℕ) (ps : List Packet) (n : ℕ)
    → ltb n (2 ^ 31) ≡ b
    → s.points t ≡ after_wrote ps n
    → Comes calls s t returned (took s.session ps n)
unfolding after_wrote took
takes_bytes true calls s t ps n e at =
    subst (Comes calls s t returned)
      (sym (ap (λ b. if b then finish_send s.session ps n else lose s.session ps n) e))
      (finishes (n == total_send_bytes ps) calls s t ps n refl
        (at ∙ ap (λ b. if b then after_writes ps n else failing ps n) e))
takes_bytes false calls s t ps n e at =
    subst (Comes calls s t returned)
      (sym (ap (λ b. if b then finish_send s.session ps n else lose s.session ps n) e))
      (loses calls s t ps n (at ∙ ap (λ b. if b then after_writes ps n else failing ps n) e))

writes :
    (w : Writes) (calls : ℕ → Activity) (s : Senders) (t fd : ℕ) (ps : List Packet)
    → s.session.socket_fd ≡ some fd
    → s.points t ≡ writing ps
    → Comes calls s t returned (write_loop s.session ps w)
unfolding step_at write_pass write_once write_loop
writes (wrote n) calls s t fd ps e at =
    let v = emit (written (take n (concat ps))) s.session in
    let r = n % 2 ^ 32 in
    let q = move_to (with_session s v) t (after_wrote ps r) in
    acts calls s q t (wrote n) (writing ps) returned (took v ps r) at
      (sym (ap (λ f. write_pass s t f ps (wrote n)) e))
      (takes_bytes (ltb r (2 ^ 31)) calls q t ps r refl (if_self t (after_wrote ps r) (s.points t)))
writes again calls s t fd ps e at =
    let q = move_to s t giving_up in
    acts calls s q t again (writing ps) returned (disconnect (set_send_state s.session false)) at
      (sym (ap (λ f. write_pass s t f ps again) e))
      (gives_up calls q t (if_self t giving_up (s.points t)))
writes failed calls s t fd ps e at =
    let n = 2 ^ 32 - 1 in
    let q = move_to s t (failing ps n) in
    acts calls s q t failed (writing ps) returned (lose s.session ps n) at
      (sym (ap (λ f. write_pass s t f ps failed) e))
      (loses calls q t ps n (if_self t (failing ps n) (s.points t)))
writes (interrupted w) calls s t fd ps e at =
    let q = move_to s t (writing ps) in
    acts calls s q t (interrupted w) (writing ps) returned (write_loop s.session ps w) at
      (sym (ap (λ f. write_pass s t f ps (interrupted w)) e))
      (writes w calls q t fd ps e (if_self t (writing ps) (s.points t)))

writes_packets :
    (f : Socket) (w : Writes) (calls : ℕ → Activity) (s : Senders) (t : ℕ) (ps : List Packet)
    → s.session.socket_fd ≡ f
    → s.points t ≡ writing ps
    → Comes calls s t returned (write_packets s.session f ps w)
unfolding step_at write_pass write_packets
writes_packets none w calls s t ps e at =
    let q = move_to s t giving_up in
    acts calls s q t w (writing ps) returned (disconnect (set_send_state s.session false)) at
      (sym (ap (λ f. write_pass s t f ps w) e))
      (gives_up calls q t (if_self t giving_up (s.points t)))
writes_packets (some fd) w calls s t ps e at = writes w calls s t fd ps e at

pub takes :
    (ps : List Packet) (w : Writes) (calls : ℕ → Activity) (s : Senders) (t : ℕ)
    → s.points t ≡ taken_point ps
    → Comes calls s t returned (send_taken s.session ps w)
unfolding send_taken
takes [] w calls s t at = clears calls s t at
takes (p ∷ ps) w calls s t at = writes_packets s.session.socket_fd w calls s t (p ∷ ps) refl at
