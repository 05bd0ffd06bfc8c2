-- ===== src/Game/Window/Loop.antt =====
-- When the loop of `Run` ends.
use my_server_project.Common.{
  ℕ, ◌≡◌, ◌≢◌, refl, inl, inr, Bool, Bool-cases, true, false, List, [], ◌∷◌, if◌then◌else◌, ◌==◌,
  arith, Option, none, some, All, ne→==, if_self, suc, ap, ◌∙◌,
}
use my_server_project.Game.Input.{Input, post_update}
use my_server_project.Game.Window.{
  App, Message, create, destroy, quit, other, key_down_message, sys_key_down, key_up_message,
  sys_key_up, Posted, set_input, key_code, find_window, insert_at, insert_window, erase_window,
  wnd_proc, check_quit, pump, stop_if_empty, message_handler, handle_found, on_key_down,
  update_windows, round, run,
}

-- A message that does not destroy the window `h`.
abbrev pub IsKeeping : ℕ → Posted → Type 0
IsKeeping h (j, destroy) = j ≢ h
IsKeeping h (j, create p) = Unit {0}
IsKeeping h (j, quit) = Unit {0}
IsKeeping h (j, other) = Unit {0}
IsKeeping h (j, key_down_message k) = Unit {0}
IsKeeping h (j, sys_key_down k) = Unit {0}
IsKeeping h (j, key_up_message k) = Unit {0}
IsKeeping h (j, sys_key_up k) = Unit {0}

-- The window `h` is in the map, and the loop's flag is as given.
pub record Open (h w : ℕ) (running : Bool) (a : App) : Type 0 where
  pub found : find_window a.window_map h ≡ some w
  pub flag : a.is_running ≡ running

module _ (h w : ℕ) where
  find-insert_at :
      (o : Option ℕ) (ws : List (ℕ × ℕ)) (j p : ℕ)
      → find_window ws j ≡ o
      → find_window ws h ≡ some w
      → find_window (insert_at o ws j p) h ≡ some w
  unfolding insert_at find_window
  find-insert_at (some old) ws j p o e = e
  find-insert_at none ws j p o e = elim (Bool-cases (j == h)) [
    | inl d ↦ let same : j ≡ h = ground arith in absurd (cc (same, o, e))
    | inr d ↦ rw d e
  ]

  find-insert :
      (ws : List (ℕ × ℕ)) (j p : ℕ)
      → find_window ws h ≡ some w
      → find_window (insert_window ws j p) h ≡ some w
  unfolding insert_window
  find-insert ws j p e = find-insert_at (find_window ws j) ws j p refl e

  find-cons :
      (g x : ℕ) (ws vs : List (ℕ × ℕ))
      → (find_window ws h ≡ some w → find_window vs h ≡ some w)
      → find_window ((g, x) ∷ ws) h ≡ some w
      → find_window ((g, x) ∷ vs) h ≡ some w
  unfolding find_window
  find-cons g x ws vs f e = elim (Bool-cases (g == h)) [
    | inl d ↦ rw d (rw d at e)
    | inr d ↦ rw d (f (rw d at e))
  ]

  find-skip :
      (g x : ℕ) (ws : List (ℕ × ℕ))
      → g ≢ h
      → find_window ((g, x) ∷ ws) h ≡ some w
      → find_window ws h ≡ some w
  unfolding find_window
  find-skip g x ws ne e = rw (ne→== g h ne) at e

  find-if :
      (b : Bool) (xs ys : List (ℕ × ℕ))
      → (b ≡ true → find_window xs h ≡ some w)
      → find_window ys h ≡ some w
      → find_window (if b then xs else ys) h ≡ some w
  find-if true xs ys f e = f refl
  find-if false xs ys f e = e

  find-erase :
      (ws : List (ℕ × ℕ)) (j : ℕ)
      → j ≢ h
      → find_window ws h ≡ some w
      → find_window (erase_window ws j) h ≡ some w
  unfolding erase_window
  find-erase [] j ne e = e
  find-erase ((g, x) ∷ ws) j ne e =
      find-if (g == j) (erase_window ws j) ((g, x) ∷ erase_window ws j)
        (λ d. find-erase ws j ne (find-skip g x ws (λ same. ne (ground arith)) e))
        (find-cons g x ws (erase_window ws j) (find-erase ws j ne) e)

module _ (h w : ℕ) (running : Bool) where
  on_key_down-Open :
      (a : App) (window key : ℕ) → Open h w running a → Open h w running (on_key_down a window key)
  unfolding on_key_down
  on_key_down-Open a window key o = record { found = o.found; flag = o.flag }

  message_handler-Open :
      (a : App) (window : ℕ) (m : Message)
      → Open h w running a
      → Open h w running (message_handler a window m)
  unfolding message_handler
  message_handler-Open a window (create p) o = o
  message_handler-Open a window destroy o = o
  message_handler-Open a window quit o = o
  message_handler-Open a window other o = o
  message_handler-Open a window (sys_key_down c) o = on_key_down-Open a window (key_code c) o
  message_handler-Open a window (key_down_message c) o = on_key_down-Open a window (key_code c) o
  message_handler-Open a window (sys_key_up c) o = on_key_down-Open a window (key_code c) o
  message_handler-Open a window (key_up_message c) o = on_key_down-Open a window (key_code c) o

  found-Open :
      (f : Option ℕ) (a : App) (m : Message)
      → Open h w running a
      → Open h w running (handle_found a f m)
  unfolding handle_found
  found-Open none a m o = o
  found-Open (some window) a m o = message_handler-Open a window m o

  wnd_proc-Open :
      (a : App) (j : ℕ) (m : Message)
      → IsKeeping h (j, m)
      → Open h w running a
      → Open h w running (wnd_proc a j m)
  unfolding wnd_proc
  wnd_proc-Open a j (create p) n o = record {
    found = find-insert h w a.window_map j p o.found;
    flag = o.flag;
  }
  wnd_proc-Open a j destroy n o = record {
    found = find-erase h w a.window_map j n o.found;
    flag = o.flag;
  }
  wnd_proc-Open a j quit n o = found-Open (find_window a.window_map j) a quit o
  wnd_proc-Open a j other n o = found-Open (find_window a.window_map j) a other o
  wnd_proc-Open a j (sys_key_down c) n o =
      found-Open (find_window a.window_map j) a (sys_key_down c) o
  wnd_proc-Open a j (key_down_message c) n o =
      found-Open (find_window a.window_map j) a (key_down_message c) o
  wnd_proc-Open a j (sys_key_up c) n o = found-Open (find_window a.window_map j) a (sys_key_up c) o
  wnd_proc-Open a j (key_up_message c) n o =
      found-Open (find_window a.window_map j) a (key_up_message c) o

  -- A WM_QUIT stops the loop only where no window is left.
  stop_if_empty-Open :
      (ws : List (ℕ × ℕ)) (a : App)
      → find_window ws h ≡ some w
      → Open h w running a
      → Open h w running (stop_if_empty ws a)
  unfolding stop_if_empty find_window
  stop_if_empty-Open [] a e o = cc
  stop_if_empty-Open (x ∷ ws) a e o = o

  check_quit-Open : (a : App) (m : Message) → Open h w running a → Open h w running (check_quit a m)
  unfolding check_quit
  check_quit-Open a quit o = stop_if_empty-Open a.window_map a o.found o
  check_quit-Open a (create p) o = o
  check_quit-Open a destroy o = o
  check_quit-Open a other o = o
  check_quit-Open a (sys_key_down c) o = o
  check_quit-Open a (key_down_message c) o = o
  check_quit-Open a (sys_key_up c) o = o
  check_quit-Open a (key_up_message c) o = o

  pump-Open :
      (ms : List Posted) (a : App)
      → All (IsKeeping h) ms
      → Open h w running a
      → Open h w running (pump a ms)
  unfolding pump
  pump-Open [] a n o = o
  pump-Open ((j, m) ∷ ms) a n o =
      pump-Open ms (wnd_proc (check_quit a m) j m) n.1
        (wnd_proc-Open (check_quit a m) j m n.0 (check_quit-Open a m o))

  update-Open :
      (ws : List (ℕ × ℕ)) (a : App) → Open h w running a → Open h w running (update_windows a ws)
  unfolding update_windows
  update-Open [] a o = o
  update-Open ((j, window) ∷ ws) a o =
      update-Open ws (set_input a window (post_update (a.inputs window)))
        (record { found = o.found; flag = o.flag })

  choose-Open :
      (b : Bool) (u v : App)
      → Open h w running u
      → Open h w running v
      → Open h w running (if b then u else v)
  choose-Open true u v o p = o
  choose-Open false u v o p = p

  -- As long as the messages do not destroy a window of the map, it stays in the map under its
  -- handle with its pointer, and the loop keeps its flag: no WM_QUIT, and no end of another window,
  -- stops the program.
  pub run-Open :
      (rounds : List (List Posted)) (a : App)
      → All (All (IsKeeping h)) rounds
      → Open h w running a
      → Open h w running (run a rounds)
  unfolding run round
  run-Open [] a n o = o
  run-Open (ms ∷ rounds) a n o =
      choose-Open a.is_running (run (round a ms) rounds) a
        (run-Open rounds (round a ms) n.1
          (update-Open (pump a ms).window_map (pump a ms) (pump-Open ms a n.0 o)))
        o

run_stopped : (rounds : List (List Posted)) (a : App) → a.is_running ≡ false → run a rounds ≡ a
unfolding run
run_stopped [] a e = refl
run_stopped (ms ∷ rounds) a e = ap (λ b. if b then run (round a ms) rounds else a) e

module _ (h x j quits : ℕ) (inputs : ℕ → Input) where
  abbrev pub last_window : App
  last_window = record {
    is_running = true;
    window_map = (h, x) ∷ [];
    inputs = inputs;
    quits_posted = quits;
  }

  abbrev pub all_closed : App
  all_closed = record {
    is_running = false;
    window_map = [];
    inputs = inputs;
    quits_posted = suc quits;
  }

  abbrev pub closing : List Posted
  closing = (h, destroy) ∷ (j, quit) ∷ []

  erase_only : erase_window ((h, x) ∷ []) h ≡ []
  unfolding erase_window
  erase_only = if_self h [] ((h, x) ∷ [])

  -- A round from the erasure on, by what the erasure leaves.
  quit_with : List (ℕ × ℕ) → App
  quit_with ws =
      let b : App = record last_window { window_map = ws; quits_posted = suc quits } in
      let c = wnd_proc (check_quit b quit) j quit in update_windows c c.window_map

  closing-round : round last_window closing ≡ all_closed
  unfolding round pump wnd_proc check_quit stop_if_empty handle_found find_window update_windows
      quit_with
  closing-round = ap quit_with erase_only

  -- When the only window is destroyed and the WM_QUIT that this posts is taken in the same round, the
  -- loop ends with that round: no message of a later one is dispatched.
  pub close_last : (rounds : List (List Posted)) → run last_window (closing ∷ rounds) ≡ all_closed
  unfolding run
  close_last rounds = ap (λ b. run b rounds) closing-round ∙ run_stopped rounds all_closed refl
