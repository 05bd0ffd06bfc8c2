-- ===== src/Session/Threads/Exclusion.antt =====
-- The flag `mIsSending` as a lock: which calls are between its exchange and its clearing.
use my_server_project.Common.{
  ne→==, apart, ℕ, ◌≡◌, ◌≢◌, refl, sym, ap, ◌∙◌, Bool, true, false, none, some, List, [], ◌∷◌, ◌++◌,
  ◌-◌, ◌%◌, ◌^◌, take, if◌then◌else◌, if_self, if_other, arith,
}
use mathlib.Core.Path.{subst}
use my_server_project.Session.{
  concat, stage_from, find_start, written, send_poll_mod, emit, set_send_state, Session, Packet,
  Socket, Writes, wrote, again, failed, interrupted, disconnect, total_send_bytes,
}
use my_server_project.Session.Closing.{disconnect_lem}
use my_server_project.Session.Threads.{
  Activity, sends, job, Point, fresh, queued, ready, clearing, giving_up, ending, returned, done,
  writing, failing, ending_on, staging, Senders, move_to, with_session, push, exchange, swap,
  taken_point, after_writes, after_wrote, write_once, write_pass, return_from, step_at, step, Reach,
  here, next, before_calls,
}

-- Past the exchange, and before the clearing.
abbrev pub holds : Point → Bool
holds fresh = false
holds queued = false
holds ready = true
holds (writing ps) = true
holds clearing = true
holds giving_up = true
holds (failing ps n) = true
holds ending = false
holds (ending_on ps n) = false
holds (staging ps n) = false
holds returned = false
holds done = false

-- At most one call is there, and none while the flag is off.
pub record IsExclusive (s : Senders) : Type 0 where
  pub single : (t u : ℕ) → holds (s.points t) ≡ true → holds (s.points u) ≡ true → t ≡ u
  pub flagged : (t : ℕ) → holds (s.points t) ≡ true → s.session.is_sending ≡ true

-- A call that moves on with the flag as it is.
stays :
    (s : Senders) (v : Session) (t : ℕ) (p : Point)
    → v.is_sending ≡ s.session.is_sending
    → (holds p ≡ true → holds (s.points t) ≡ true)
    → IsExclusive s
    → IsExclusive (move_to (with_session s v) t p)
stays s v t p same f x =
    let q = move_to (with_session s v) t p in
    let back : (k : ℕ) → holds (q.points k) ≡ true → holds (s.points k) ≡ true =
      apart (λ k. holds (q.points k) ≡ true → holds (s.points k) ≡ true) t
        (λ h. f (sym (ap holds (if_self t p (s.points t))) ∙ h))
        (λ k other h. sym (ap holds (if_other k t p (s.points k) other)) ∙ h) in
    record {
      single = λ k u a b. x.single k u (back k a) (back u b);
      flagged = λ k a. same ∙ x.flagged k (back k a);
    }

-- A call that finds the flag off and sets it.
enters :
    (s : Senders) (v : Session) (t : ℕ) (p : Point)
    → s.session.is_sending ≡ false
    → v.is_sending ≡ true
    → IsExclusive s
    → IsExclusive (move_to (with_session s v) t p)
enters s v t p off on x =
    let q = move_to (with_session s v) t p in
    let only : (k : ℕ) → holds (q.points k) ≡ true → k ≡ t =
      apart (λ k. holds (q.points k) ≡ true → k ≡ t) t (λ h. refl)
        (λ k other h.
          let e = x.flagged k (sym (ap holds (if_other k t p (s.points k) other)) ∙ h) in
          ground arith) in
    record { single = λ k u a b. only k a ∙ sym (only u b); flagged = λ k a. on }

-- A call that clears the flag.
leaves :
    (s : Senders) (v : Session) (t : ℕ) (p : Point)
    → holds (s.points t) ≡ true
    → holds p ≡ false
    → IsExclusive s
    → IsExclusive (move_to (with_session s v) t p)
leaves s v t p held out x =
    let q = move_to (with_session s v) t p in
    let none_left : (k : ℕ) → holds (q.points k) ≢ true =
      apart (λ k. holds (q.points k) ≢ true) t
        (λ h. let e = sym (ap holds (if_self t p (s.points t))) ∙ h in ground arith)
        (λ k other h.
          other (x.single k t (sym (ap holds (if_other k t p (s.points k) other)) ∙ h) held)) in
    record { single = λ k u a b. absurd (none_left k a); flagged = λ k a. absurd (none_left k a) }

disconnect-is_sending : (v : Session) → (disconnect v).is_sending ≡ v.is_sending
disconnect-is_sending v = ap (λ u. u.is_sending) (disconnect_lem v)

exchange-IsExclusive :
    (b : Bool) (s : Senders) (t : ℕ)
    → s.session.is_sending ≡ b
    → s.points t ≡ queued
    → IsExclusive s
    → IsExclusive (
        if b
        then move_to s t done
        else move_to (with_session s (set_send_state s.session true)) t ready)
exchange-IsExclusive true s t e at x = stays s s.session t done refl (λ h. ground arith) x
exchange-IsExclusive false s t e at x = enters s (set_send_state s.session true) t ready e refl x

held_at :
    (s : Senders) (t : ℕ) (p : Point) → s.points t ≡ p → holds p ≡ true → holds (s.points t) ≡ true
held_at s t p e h = ap holds e ∙ h

swap-IsExclusive :
    (s : Senders) (t : ℕ) → s.points t ≡ ready → IsExclusive s → IsExclusive (swap s t)
unfolding swap
swap-IsExclusive s t at x =
    stays s (record s.session { packets = [] }) t (taken_point s.session.packets) refl
      (λ h. held_at s t ready at refl) x

write_once-IsExclusive :
    (w : Writes) (s : Senders) (t : ℕ) (ps : List Packet)
    → s.points t ≡ writing ps
    → IsExclusive s
    → IsExclusive (write_once s t ps w)
unfolding write_once
write_once-IsExclusive (wrote n) s t ps at x =
    stays s (emit (written (take n (concat ps))) s.session) t (after_wrote ps (n % 2 ^ 32)) refl
      (λ h. held_at s t (writing ps) at refl) x
write_once-IsExclusive again s t ps at x =
    stays s s.session t giving_up refl (λ h. held_at s t (writing ps) at refl) x
write_once-IsExclusive failed s t ps at x =
    stays s s.session t (failing ps (2 ^ 32 - 1)) refl (λ h. held_at s t (writing ps) at refl) x
write_once-IsExclusive (interrupted w) s t ps at x =
    stays s s.session t (writing ps) refl (λ h. held_at s t (writing ps) at refl) x

write_pass-IsExclusive :
    (f : Socket) (w : Writes) (s : Senders) (t : ℕ) (ps : List Packet)
    → s.points t ≡ writing ps
    → IsExclusive s
    → IsExclusive (write_pass s t f ps w)
unfolding write_pass
write_pass-IsExclusive none w s t ps at x =
    stays s s.session t giving_up refl (λ h. held_at s t (writing ps) at refl) x
write_pass-IsExclusive (some fd) w s t ps at x = write_once-IsExclusive w s t ps at x

push-IsExclusive :
    (a : Activity) (s : Senders) (t : ℕ) → a ≢ job → IsExclusive s → IsExclusive (push s t a)
unfolding push
push-IsExclusive job s t ne x = absurd (ne refl)
push-IsExclusive (sends []) s t ne x = stays s s.session t done refl (λ h. ground arith) x
push-IsExclusive (sends (b ∷ bs)) s t ne x =
    let v = s.session in
    stays (record s { pushed = s.pushed ++ (b ∷ bs) ∷ [] })
      (record v { packets = v.packets ++ (b ∷ bs) ∷ [] }) t queued refl (λ h. ground arith)
      (record { single = x.single; flagged = x.flagged })

return-IsExclusive :
    (a : Activity) (s : Senders) (t : ℕ) → IsExclusive s → IsExclusive (return_from s t a)
unfolding return_from
return-IsExclusive job s t x = stays s s.session t done refl (λ h. ground arith) x
return-IsExclusive (sends p) s t x =
    stays s (emit (send_poll_mod s.session.socket_fd) s.session) t done refl (λ h. ground arith) x

-- The negative Int32 that is taken for an error is not the sum of the sizes.
abbrev pub IsSum : Point → Writes → Type 0
IsSum p w = (ps : List Packet) (n : ℕ) → p ≡ ending_on ps n → total_send_bytes ps ≢ n

after_error :
    (ps : List Packet) (n : ℕ) → total_send_bytes ps ≢ n → after_writes ps n ≡ staging ps n
unfolding after_writes
after_error ps n ne =
    ap (λ b. if b then clearing else staging ps n) (ne→== n (total_send_bytes ps) (λ e. ne (sym e)))

pub step_at-IsExclusive :
    (p : Point) (a : Activity) (s : Senders) (t : ℕ) (w : Writes)
    → a ≢ job
    → IsSum p w
    → s.points t ≡ p
    → IsExclusive s
    → IsExclusive (step_at a p s t w)
unfolding step_at exchange
step_at-IsExclusive fresh a s t w ne ok at x = push-IsExclusive a s t ne x
step_at-IsExclusive queued a s t w ne ok at x =
    exchange-IsExclusive s.session.is_sending s t refl at x
step_at-IsExclusive ready a s t w ne ok at x = swap-IsExclusive s t at x
step_at-IsExclusive (writing ps) a s t w ne ok at x =
    write_pass-IsExclusive s.session.socket_fd w s t ps at x
step_at-IsExclusive clearing a s t w ne ok at x =
    leaves s (set_send_state s.session false) t returned (held_at s t clearing at refl) refl x
step_at-IsExclusive giving_up a s t w ne ok at x =
    leaves s (set_send_state s.session false) t ending (held_at s t giving_up at refl) refl x
step_at-IsExclusive (failing ps n) a s t w ne ok at x =
    leaves s (set_send_state s.session false) t (ending_on ps n)
      (held_at s t (failing ps n) at refl) refl x
step_at-IsExclusive ending a s t w ne ok at x =
    stays s (disconnect s.session) t returned (disconnect-is_sending s.session) (λ h. ground arith)
      x
step_at-IsExclusive (ending_on ps n) a s t w ne ok at x =
    stays s (disconnect s.session) t (after_writes ps n) (disconnect-is_sending s.session)
      (λ h. let e = sym (ap holds (after_error ps n (ok ps n refl))) ∙ h in ground arith) x
step_at-IsExclusive (staging ps n) a s t w ne ok at x =
    let v = s.session in
    stays s
      (emit (send_poll_mod v.socket_fd) (record v { send_packets = stage_from (find_start n ps) }))
      t returned refl (λ h. ground arith) x
step_at-IsExclusive returned a s t w ne ok at x = return-IsExclusive a s t x
step_at-IsExclusive done a s t w ne ok at x = x

-- When a session is used by any number of calls of `Send`, and no turn of the send job, from any
-- interleaving of their steps it follows that at most one call is between its exchange of the flag
-- and its clearing of it, and that the flag is on while one is; whatever `writev` answers, if only a
-- negative Int32 that it leaves in `result`, the -1 of an error or a number of bytes from 2^31 on, is
-- never the Int32 sum of the sizes.
pub Reach-IsExclusive :
    (calls : ℕ → Activity) (v : Session) {s : Senders}
    → ((t : ℕ) → calls t ≢ job)
    → Reach calls IsSum (before_calls v) s
    → IsExclusive s
unfolding before_calls step
Reach-IsExclusive calls v sends_only (here e) =
    subst IsExclusive (sym e)
      (record { single = λ t u a b. ground arith; flagged = λ t a. ground arith })
Reach-IsExclusive calls v sends_only (next {q} t w r ok e) = subst IsExclusive (sym e) (
    step_at-IsExclusive (q.points t) (calls t) q t w (sends_only t) ok refl
      (Reach-IsExclusive calls v sends_only r))
