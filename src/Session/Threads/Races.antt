-- ===== src/Session/Threads/Races.antt =====
-- An interleaving of two calls of `Send`.
use my_server_project.Common.{
  ℕ, ◌≡◌, ◌<◌, ◌%◌, ◌^◌, refl, sym, ap, ◌∙◌, true, false, some, List, [], ◌∷◌, ◌++◌, ◌==◌, ==_self,
  if◌then◌else◌, length, take, take_all, append-nil, arith,
}
use mathlib.Core.Path.{subst}
use my_server_project.Session.{
  Session, Packet, Writes, wrote, again, concat, total_send_bytes, written, emit,
}
use my_server_project.Session.Sending.{total_send_bytes_lem}
use my_server_project.Session.Threads.{
  Activity, sends, clearing, done, writing, staging, Senders, move_to, with_session, push, exchange,
  swap, after_writes, after_wrote, write_pass, return_from, step, Reach, here, next, before_calls,
}
use my_server_project.Session.Threads.Moves.{after_wrote_small}
use my_server_project.Session.Threads.Flight.{TakesAll, wire}

-- A session with an open socket and nothing queued.
abbrev pub opened : Session → ℕ → Session
opened v fd = record v { socket_fd = some fd; packets = [] }

abbrev pub two_sends : Packet → Packet → ℕ → Activity
two_sends a b t = if t == 0 then sends a else sends b

whole_write :
    (b : ℕ) (bs : List ℕ)
    → length (b ∷ bs) < 2 ^ 31
    → after_wrote ((b ∷ bs) ∷ []) (length (b ∷ bs) % 2 ^ 32) ≡ clearing
unfolding after_writes total_send_bytes
whole_write b bs small =
    let n = length (b ∷ bs) in
    let total : n ≡ total_send_bytes ((b ∷ bs) ∷ []) =
      omega (arith, total_send_bytes_lem ((b ∷ bs) ∷ []), ap length (append-nil (b ∷ bs))) in
    after_wrote_small ((b ∷ bs) ∷ []) n small
    ∙ ap (λ c. if c then clearing else staging ((b ∷ bs) ∷ []) n)
        (subst (λ z. (n == z) ≡ true) total (==_self n))

takes_it :
    (b : ℕ) (bs : List ℕ)
    → length (b ∷ bs) < 2 ^ 31
    → TakesAll (writing ((b ∷ bs) ∷ [])) (wrote (length (b ∷ bs)))
unfolding concat
takes_it b bs small ps e =
    let same : (b ∷ bs) ∷ [] ≡ ps = ground arith in
    (ap length (sym (append-nil (b ∷ bs))) ∙ ap (λ z. length (concat z)) same, small)

take_own : (b : ℕ) (bs : List ℕ) → take (length (b ∷ bs)) (concat ((b ∷ bs) ∷ [])) ≡ b ∷ bs
unfolding concat
take_own b bs =
    take_all (length (b ∷ bs)) ((b ∷ bs) ++ []) (omega (arith, ap length (append-nil (b ∷ bs))))
    ∙ append-nil (b ∷ bs)

-- A session with an open socket and nothing queued can come, through two calls of `Send` of which the
-- first buffer has fewer than 2^31 bytes and whose writes take all, to a state in which both calls have
-- returned and the flag is off, but only the first buffer is on the wire, and the second is queued.
pub stranded :
    (v : Session) (fd a b : ℕ) (xs ys : List ℕ)
    → length (a ∷ xs) < 2 ^ 31
    → (q : Senders) × Reach (two_sends (a ∷ xs) (b ∷ ys)) TakesAll (before_calls (opened v fd)) q
      × (q.points 0 ≡ done)
      × (q.points 1 ≡ done)
      × (q.session.is_sending ≡ false)
      × (q.session.packets ≡ (b ∷ ys) ∷ [])
      × (wire q.session.trace ≡ wire v.trace ++ (a ∷ xs))
unfolding before_calls step push exchange swap write_pass return_from concat
stranded v fd a b xs ys small =
    let calls = two_sends (a ∷ xs) (b ∷ ys) in
    let none_there : Writes = again in
    let q0 = before_calls (opened v fd) in
    let q1 = step calls q0 0 none_there in
    let q2 = step calls q1 0 none_there in
    let q3 = step calls q2 0 none_there in
    let q4 = step calls q3 1 none_there in
    let q5 = step calls q4 1 none_there in
    let q6 =
      move_to
        (with_session q5
          (emit (written (take (length (a ∷ xs)) (concat ((a ∷ xs) ∷ [])))) q5.session))
        0 clearing in
    let q7 = step calls q6 0 none_there in
    let q8 = step calls q7 0 none_there in
    (
      q8,
      next {q = q7} 0 none_there
          (next {q = q6} 0 none_there
            (next {q = q5} 0 (wrote (length (a ∷ xs)))
              (next {q = q4} 1 none_there
                (next {q = q3} 1 none_there
                  (next {q = q2} 0 none_there
                    (next {q = q1} 0 none_there
                      (next {q = q0} 0 none_there (here refl) (λ ps e. ground arith) refl)
                      (λ ps e. ground arith) refl)
                    (λ ps e. ground arith) refl)
                  (λ ps e. ground arith) refl)
                (λ ps e. ground arith) refl)
              (takes_it a xs small)
              (ap
                (λ p.
                  move_to
                    (with_session q5
                      (emit (written (take (length (a ∷ xs)) (concat ((a ∷ xs) ∷ [])))) q5.session))
                    0 p)
                (sym (whole_write a xs small))))
            (λ ps e. ground arith) refl)
          (λ ps e. ground arith) refl,
      refl,
      refl,
      refl,
      refl,
      ap (λ c. wire v.trace ++ c) (take_own a xs),
    )
