-- ===== src/Game/Window/Keys.antt =====
-- What the messages and the frames leave of a key of a window.
use my_server_project.Common.{
  ℕ, ◌<◌, ◌≡◌, ◌≢◌, refl, inl, inr, Bool, Bool-cases, true, false, Option, none, some, List, [],
  ◌∷◌, ◌==◌, if◌then◌else◌, arith,
}
use mathlib.Core.Path.{subst}
use my_server_project.Game.Input.{
  KeyState, none, down, press, up, Input, key_count, set_key, pressed, key_down, settled,
  post_update,
}
use my_server_project.Game.Input.Machine.{post_update_lem}
use my_server_project.Game.Window.{
  App, Message, create, destroy, quit, other, key_down_message, sys_key_down, key_up_message,
  sys_key_up, Posted, set_input, key_code, on_key_down, message_handler, handle_found, wnd_proc,
  find_window, stop_if_empty, check_quit, pump, update_windows, round, run,
}

-- A predicate of key states that a `KeyDown` and a frame's end preserve is preserved by a run.
module _ (P : KeyState → Type 0) (presses : (v : KeyState) → P v → P (pressed v))
    (settles : (v : KeyState) → P v → P (settled v)) (w k : ℕ) (k_lt : k < key_count) where
  abbrev pub Keeps : App → Type 0
  Keeps a = P (a.inputs w k)

  if-Keeps : (b : Bool) (s t : Input) → (b ≡ true → P (s k)) → P (t k) → P ((if b then s else t) k)
  if-Keeps true s t f h = f refl
  if-Keeps false s t f h = h

  set_input-Keeps :
      (a : App) (window : ℕ) (s : Input)
      → (w ≡ window → P (s k))
      → Keeps a
      → Keeps (set_input a window s)
  set_input-Keeps a window s f h = if-Keeps (w == window) s (a.inputs w) (λ e. f (ground arith)) h

  key_down-Keeps : (s : Input) (key : ℕ) → P (s k) → P (key_down s key k)
  unfolding key_down set_key
  key_down-Keeps s key h = elim (Bool-cases (k == key)) [
    | inl e ↦
        let same : k ≡ key = ground arith in rw e (presses (s key) (subst (λ j. P (s j)) same h))
    | inr e ↦ rw e h
  ]

  on_key_down-Keeps : (a : App) (window key : ℕ) → Keeps a → Keeps (on_key_down a window key)
  unfolding on_key_down
  on_key_down-Keeps a window key h =
      set_input-Keeps a window (key_down (a.inputs window) key)
        (λ e. key_down-Keeps (a.inputs window) key (subst (λ j. P (a.inputs j k)) e h)) h

  message_handler-Keeps :
      (a : App) (window : ℕ) (m : Message) → Keeps a → Keeps (message_handler a window m)
  unfolding message_handler
  message_handler-Keeps a window (create p) h = h
  message_handler-Keeps a window destroy h = h
  message_handler-Keeps a window quit h = h
  message_handler-Keeps a window other h = h
  message_handler-Keeps a window (sys_key_down c) h = on_key_down-Keeps a window (key_code c) h
  message_handler-Keeps a window (key_down_message c) h = on_key_down-Keeps a window (key_code c) h
  message_handler-Keeps a window (sys_key_up c) h = on_key_down-Keeps a window (key_code c) h
  message_handler-Keeps a window (key_up_message c) h = on_key_down-Keeps a window (key_code c) h

  found-Keeps : (o : Option ℕ) (a : App) (m : Message) → Keeps a → Keeps (handle_found a o m)
  unfolding handle_found
  found-Keeps Option.none a m h = h
  found-Keeps (some window) a m h = message_handler-Keeps a window m h

  wnd_proc-Keeps : (a : App) (handle : ℕ) (m : Message) → Keeps a → Keeps (wnd_proc a handle m)
  unfolding wnd_proc
  wnd_proc-Keeps a handle (create p) h = h
  wnd_proc-Keeps a handle destroy h = h
  wnd_proc-Keeps a handle quit h = found-Keeps (find_window a.window_map handle) a quit h
  wnd_proc-Keeps a handle other h = found-Keeps (find_window a.window_map handle) a other h
  wnd_proc-Keeps a handle (sys_key_down c) h =
      found-Keeps (find_window a.window_map handle) a (sys_key_down c) h
  wnd_proc-Keeps a handle (key_down_message c) h =
      found-Keeps (find_window a.window_map handle) a (key_down_message c) h
  wnd_proc-Keeps a handle (sys_key_up c) h =
      found-Keeps (find_window a.window_map handle) a (sys_key_up c) h
  wnd_proc-Keeps a handle (key_up_message c) h =
      found-Keeps (find_window a.window_map handle) a (key_up_message c) h

  stop-inputs : (ws : List (ℕ × ℕ)) (a : App) → (stop_if_empty ws a).inputs ≡ a.inputs
  unfolding stop_if_empty
  stop-inputs [] a = refl
  stop-inputs (x ∷ ws) a = refl

  check_quit-Keeps : (a : App) (m : Message) → Keeps a → Keeps (check_quit a m)
  unfolding check_quit
  check_quit-Keeps a quit h = rw (stop-inputs a.window_map a) h
  check_quit-Keeps a (create p) h = h
  check_quit-Keeps a destroy h = h
  check_quit-Keeps a other h = h
  check_quit-Keeps a (sys_key_down c) h = h
  check_quit-Keeps a (key_down_message c) h = h
  check_quit-Keeps a (sys_key_up c) h = h
  check_quit-Keeps a (key_up_message c) h = h

  pump-Keeps : (ms : List Posted) (a : App) → Keeps a → Keeps (pump a ms)
  unfolding pump
  pump-Keeps [] a h = h
  pump-Keeps ((handle, m) ∷ ms) a h =
      pump-Keeps ms (wnd_proc (check_quit a m) handle m)
        (wnd_proc-Keeps (check_quit a m) handle m (check_quit-Keeps a m h))

  update-Keeps : (ws : List (ℕ × ℕ)) (a : App) → Keeps a → Keeps (update_windows a ws)
  unfolding update_windows
  update-Keeps [] a h = h
  update-Keeps ((handle, window) ∷ ws) a h =
      update-Keeps ws (set_input a window (post_update (a.inputs window))) (
        set_input-Keeps a window (post_update (a.inputs window))
          (λ e.
            rw (post_update_lem (a.inputs window) k k_lt)
              (settles (a.inputs window k) (subst (λ j. P (a.inputs j k)) e h)))
          h)

  round-Keeps : (a : App) (ms : List Posted) → Keeps a → Keeps (round a ms)
  unfolding round
  round-Keeps a ms h = update-Keeps (pump a ms).window_map (pump a ms) (pump-Keeps ms a h)

  choose-Keeps : (b : Bool) (u v : App) → Keeps u → Keeps v → Keeps (if b then u else v)
  choose-Keeps true u v h g = h
  choose-Keeps false u v h g = g

  pub run-Keeps : (rounds : List (List Posted)) (a : App) → Keeps a → Keeps (run a rounds)
  unfolding run round
  run-Keeps [] a h = h
  run-Keeps (ms ∷ rounds) a h =
      choose-Keeps a.is_running (run (round a ms) rounds) a
        (run-Keeps rounds (round a ms) (round-Keeps a ms h)) h

-- A key that is seen as held.
abbrev pub IsHeld : KeyState → Type 0
IsHeld down = Unit {0}
IsHeld press = Unit {0}
IsHeld none = ⊥
IsHeld up = ⊥

IsHeld-pressed : (v : KeyState) → IsHeld v → IsHeld (pressed v)
unfolding pressed
IsHeld-pressed down h = tt
IsHeld-pressed press h = tt
IsHeld-pressed none h = tt
IsHeld-pressed up h = tt

IsHeld-settled : (v : KeyState) → IsHeld v → IsHeld (settled v)
unfolding settled
IsHeld-settled down h = tt
IsHeld-settled press h = tt
IsHeld-settled none h = h
IsHeld-settled up h = h

not_up-pressed : (v : KeyState) → v ≢ up → pressed v ≢ up
unfolding pressed
not_up-pressed down h = λ e. cc
not_up-pressed press h = λ e. cc
not_up-pressed none h = λ e. cc
not_up-pressed up h = λ e. h refl

not_up-settled : (v : KeyState) → v ≢ up → settled v ≢ up
unfolding settled
not_up-settled down h = λ e. cc
not_up-settled press h = λ e. cc
not_up-settled none h = λ e. cc
not_up-settled up h = λ e. h refl

-- Whatever messages are dispatched over whatever rounds, a key of a window that is held stays held,
-- and one that is not UP never becomes UP: a released key is never seen as released.
pub run-IsHeld :
    (rounds : List (List Posted)) (a : App) (w k : ℕ)
    → k < key_count
    → (IsHeld (a.inputs w k) → IsHeld ((run a rounds).inputs w k))
      × (a.inputs w k ≢ up → (run a rounds).inputs w k ≢ up)
run-IsHeld rounds a w k k_lt = (
  run-Keeps IsHeld IsHeld-pressed IsHeld-settled w k k_lt rounds a,
  run-Keeps (λ v. v ≢ up) not_up-pressed not_up-settled w k k_lt rounds a,
)
