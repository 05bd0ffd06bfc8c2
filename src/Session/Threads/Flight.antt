-- ===== src/Session/Threads/Flight.antt =====
-- The account of what calls of `Send` have pushed, and moves that keep it: the packets on the wire, between
-- a swap and their `writev`, and in the queue.
use my_server_project.Common.{
  apart, ℕ, ◌<◌, ◌^◌, ◌≡◌, ◌≢◌, sym, ap, ap₂, ◌∙◌, Bool, true, false, some, List, [], ◌∷◌, ◌++◌,
  if_self, if_other, length, arith,
}
use my_server_project.Session.{
  Session, Packet, Effect, epoll_del, close, on_disconnected, written, send_poll_mod, recv_poll_mod,
  Writes, wrote, again, failed, interrupted, concat,
}
use my_server_project.Session.Threads.{
  Point, fresh, queued, ready, clearing, giving_up, ending, returned, done, writing, failing,
  ending_on, staging, Senders, move_to, with_session,
}
use my_server_project.Session.Threads.Exclusion.{holds, IsExclusive}

-- The bytes written in a trace, oldest first.
abbrev pub wire : List Effect → List ℕ
wire [] = []
wire (written bs ∷ es) = wire es ++ bs
wire (epoll_del fd ∷ es) = wire es
wire (close fd ∷ es) = wire es
wire (on_disconnected id ∷ es) = wire es
wire (send_poll_mod fd ∷ es) = wire es
wire (recv_poll_mod fd ∷ es) = wire es

-- `writev` takes all that it is given, which an Int32 can count, or is interrupted.
abbrev pub IsWhole : List Packet → Writes → Type 0
IsWhole ps (wrote n) = (n ≡ length (concat ps)) × (n < 2 ^ 31)
IsWhole ps (interrupted w) = Unit {0}
IsWhole ps again = ⊥
IsWhole ps failed = ⊥

abbrev pub TakesAll : Point → Writes → Type 0
TakesAll p w = (ps : List Packet) → p ≡ writing ps → IsWhole ps w

-- Where a call is that has lost the connection.
abbrev pub lost : Point → Bool
lost fresh = false
lost queued = false
lost ready = false
lost (writing ps) = false
lost clearing = false
lost giving_up = true
lost (failing ps n) = true
lost ending = true
lost (ending_on ps n) = true
lost (staging ps n) = false
lost returned = false
lost done = false

abbrev pub IsQuiet : (ℕ → Point) → Type 0
IsQuiet points = (k : ℕ) (ps : List Packet) → points k ≢ writing ps

-- The packets between a swap and their `writev`.
pub data Flying (points : ℕ → Point) (ps : List Packet) : Type 0 where
  idle : ps ≡ [] → IsQuiet points → Flying points ps
  busy : (t : ℕ) → points t ≡ writing ps → Flying points ps

-- With the connection open, what is on the wire, what is about to be and what is queued make up
-- `base` and what was pushed.
pub record IsOrdered (base : List ℕ) (s : Senders) : Type 0 where
  pub fd : ℕ
  pub is_open : s.session.socket_fd ≡ some fd
  pub kept : (t : ℕ) → lost (s.points t) ≡ false
  pub flight : List Packet
  pub flying : Flying s.points flight
  pub adds_up :
      base ++ concat s.pushed ≡ wire s.session.trace ++ concat flight ++ concat s.session.packets

-- A call that moves between points other than a `writev`.
pub Flying-move :
    (s : Senders) (t : ℕ) (p : Point) (ps : List Packet)
    → ((qs : List Packet) → s.points t ≢ writing qs)
    → ((qs : List Packet) → p ≢ writing qs)
    → Flying s.points ps
    → Flying (move_to s t p).points ps
Flying-move s t p ps before after (idle e f) = idle e (
    apart (λ k. (qs : List Packet) → (move_to s t p).points k ≢ writing qs) t
      (λ qs x. after qs (sym (if_self t p (s.points t)) ∙ x))
      (λ k other qs x. f k qs (sym (if_other k t p (s.points k) other) ∙ x)))
Flying-move s t p ps before after (busy k e) =
    busy k (if_other k t p (s.points k) (λ same. before ps (ap s.points (sym same) ∙ e)) ∙ e)

pub kept-move :
    (s : Senders) (t : ℕ) (p : Point)
    → lost p ≡ false
    → ((k : ℕ) → lost (s.points k) ≡ false)
    → (k : ℕ) → lost ((move_to s t p).points k) ≡ false
kept-move s t p e f =
    apart (λ k. lost ((move_to s t p).points k) ≡ false) t (ap lost (if_self t p (s.points t)) ∙ e)
      (λ k other. ap lost (if_other k t p (s.points k) other) ∙ f k)

-- Such a move with the wire and the queue as they are.
pub stays :
    (base : List ℕ) (s : Senders) (v : Session) (t : ℕ) (p : Point)
    → v.socket_fd ≡ s.session.socket_fd
    → v.packets ≡ s.session.packets
    → wire v.trace ≡ wire s.session.trace
    → ((qs : List Packet) → s.points t ≢ writing qs)
    → ((qs : List Packet) → p ≢ writing qs)
    → lost p ≡ false
    → IsOrdered base s
    → IsOrdered base (move_to (with_session s v) t p)
stays base s v t p same_fd same_queue same_wire before after keeps x = record {
  fd = x.fd;
  is_open = same_fd ∙ x.is_open;
  kept = kept-move (with_session s v) t p keeps x.kept;
  flight = x.flight;
  flying = Flying-move (with_session s v) t p x.flight before after x.flying;
  adds_up =
      x.adds_up ∙ ap₂ (λ a b. a ++ concat x.flight ++ concat b) (sym same_wire) (sym same_queue);
}

-- While a call holds the flag elsewhere, no packets are between a swap and their `writev`.
pub quiet :
    (s : Senders) (t : ℕ)
    → holds (s.points t) ≡ true
    → ((qs : List Packet) → s.points t ≢ writing qs)
    → IsExclusive s
    → IsQuiet s.points
quiet s t held away x k ps e = away ps (ap s.points (x.single t k held (ap holds e)) ∙ e)

pub no_flight :
    (points : ℕ → Point) (ps : List Packet) → IsQuiet points → Flying points ps → ps ≡ []
no_flight points ps q (idle e f) = e
no_flight points ps q (busy k e) = absurd (q k ps e)

-- While a call is at a `writev`, its packets are those.
pub own_flight :
    (s : Senders) (t : ℕ) (ps qs : List Packet)
    → s.points t ≡ writing ps
    → IsExclusive s
    → Flying s.points qs
    → qs ≡ ps
own_flight s t ps qs at x (idle e f) = absurd (f t ps at)
own_flight s t ps qs at x (busy k e) =
    let same : k ≡ t = x.single k t (ap holds e) (ap holds at) in
    let both : writing qs ≡ writing ps = sym e ∙ ap s.points same ∙ at in ground arith
