-- ===== src/Game/Input/Machine.antt =====
-- What the loops of the input do to each key, and what a key shows over frames.
use my_server_project.Common.{
  ℕ, zero, suc, ◌+◌, ◌≤◌, ◌<◌, ◌≡◌, refl, ◌∙◌, ap, inl, inr, ◌⊎◌, if◌then◌else◌, ◌==◌, ne→==,
  ==_self, List, [], ◌∷◌, arith, Bool-cases,
}
use my_server_project.Game.Input.{
  KeyState, none, down, press, up, Input, key_count, set_key, clear_from, construct, pressed,
  key_down, key_up, settled, settle_from, post_update,
}

clear_from_outside : (n i : ℕ) (s : Input) (k : ℕ) → k < i → clear_from n i s k ≡ s k
unfolding clear_from set_key
clear_from_outside zero i s k h = refl
clear_from_outside (suc n) i s k h =
    clear_from_outside n (suc i) (set_key s i none) k (omega arith) ∙ rw (ne→== k i (omega arith))

clear_from_inside : (n i : ℕ) (s : Input) (k : ℕ) → i ≤ k → k < i + n → clear_from n i s k ≡ none
unfolding clear_from set_key
clear_from_inside zero i s k h l = absurd (omega arith)
clear_from_inside (suc n) i s k h l = elim (Bool-cases (k == i)) [
  | inl e ↦ clear_from_outside n (suc i) (set_key s i none) k (ground arith) ∙ rw e
  | inr e ↦ clear_from_inside n (suc i) (set_key s i none) k (ground arith) (omega arith)
]

-- The constructor leaves every key of the array at NONE, whatever lay in its storage.
pub construct_lem : (raw : Input) (k : ℕ) → k < key_count → construct raw k ≡ none
unfolding construct
construct_lem raw k h = clear_from_inside key_count 0 raw k (omega arith) (omega arith)

settle_from_below : (n i : ℕ) (s : Input) (k : ℕ) → k < i → settle_from n i s k ≡ s k
unfolding settle_from set_key
settle_from_below zero i s k h = refl
settle_from_below (suc n) i s k h =
    settle_from_below n (suc i) (set_key s i (settled (s i))) k (omega arith)
    ∙ rw (ne→== k i (omega arith))

settle_from_inside :
    (n i : ℕ) (s : Input) (k : ℕ) → i ≤ k → k < i + n → settle_from n i s k ≡ settled (s k)
unfolding settle_from set_key
settle_from_inside zero i s k h l = absurd (omega arith)
settle_from_inside (suc n) i s k h l = elim (Bool-cases (k == i)) [
  | inl e ↦
      let same : k ≡ i = ground arith in
      settle_from_below n (suc i) (set_key s i (settled (s i))) k (omega arith) ∙ rw (e, same)
  | inr e ↦
      settle_from_inside n (suc i) (set_key s i (settled (s i))) k (ground arith) (omega arith)
      ∙ rw e
]

-- `PostUpdate` settles every key of the array on its own: UP becomes NONE, DOWN becomes PRESS, and
-- NONE and PRESS stay.
pub post_update_lem : (s : Input) (k : ℕ) → k < key_count → post_update s k ≡ settled (s k)
unfolding post_update
post_update_lem s k h = settle_from_inside key_count 0 s k (omega arith) (omega arith)

-- A key event of one frame.
pub data KeyEvent : Type 0 where
  downs ups : ℕ → KeyEvent

unfoldable pub feed : Input → List KeyEvent → Input
feed s [] = s
feed s (downs k ∷ es) = feed (key_down s k) es
feed s (ups k ∷ es) = feed (key_up s k) es

-- The events of a frame that concern a key, folded over its state alone.
pub feed_key : ℕ → KeyState → List KeyEvent → KeyState
unfolding pressed
feed_key k v [] = v
feed_key k v (downs j ∷ es) = feed_key k (if k == j then pressed v else v) es
feed_key k v (ups j ∷ es) = feed_key k (if k == j then up else v) es

-- Keys do not disturb one another: after any events a key's state is that of its own events.
pub feed_lem : (es : List KeyEvent) (s : Input) (k : ℕ) → feed s es k ≡ feed_key k (s k) es
unfolding feed feed_key key_down key_up
feed_lem [] s k = refl
feed_lem (downs j ∷ es) s k =
    feed_lem es (key_down s j) k ∙ ap (λ v. feed_key k v es) (ground arith)
feed_lem (ups j ∷ es) s k = feed_lem es (key_up s j) k ∙ ap (λ v. feed_key k v es) (ground arith)

-- The events of a frame in which a key is held: repeats of KeyDown.
pub held : ℕ → ℕ → List KeyEvent
held k zero = []
held k (suc n) = downs k ∷ held k n

pub feed_key-held_press : (k n : ℕ) → feed_key k press (held k n) ≡ press
unfolding feed_key held
feed_key-held_press k zero = refl
feed_key-held_press k (suc n) = rw (==_self k, feed_key) (feed_key-held_press k n)

-- A key of the array that is DOWN or PRESS at the end of a frame is PRESS at the end of the next
-- one, over any number of repeated KeyDown events.
pub held_frame :
    (s : Input) (k n : ℕ)
    → k < key_count
    → (s k ≡ down) ⊎ (s k ≡ press)
    → feed (post_update s) (held k n) k ≡ press
held_frame s k n h (inl e) =
    feed_lem (held k n) (post_update s) k
    ∙ (rw (post_update_lem s k h, e) (unfold settled in feed_key-held_press k n))
held_frame s k n h (inr e) =
    feed_lem (held k n) (post_update s) k
    ∙ (rw (post_update_lem s k h, e) (unfold settled in feed_key-held_press k n))
