-- ===== src/Game/Window/Tests.antt =====
-- A run of the window loop, and the theorems at concrete apps.
use my_server_project.Common.{◌≡◌, ◌≢◌, refl, true, List, [], ◌∷◌, ◌==◌, if◌then◌else◌, arith}
use my_server_project.Game.Input.{none, down, press, up, key_down, pressed}
use my_server_project.Game.Window.{
  App, destroy, quit, key_up_message, Posted, wnd_proc, find_window, run,
}
use my_server_project.Game.Window.Keys.{IsHeld, run-IsHeld}
use my_server_project.Game.Window.Loop.{Open, run-Open}

-- Windows 1 and 2 are open; in window 1 key 65 is down, and the others are not.
abbrev two_windows : App
two_windows = record {
  is_running = true;
  window_map = (10, 1) ∷ (20, 2) ∷ [];
  inputs = λ w k. if k == 65 then down else none;
  quits_posted = 0;
}

-- Key 65 is released in one round, and window 2 is closed in the next.
abbrev rounds : List (List Posted)
rounds = ((10, key_up_message 65) ∷ []) ∷ ((20, destroy) ∷ (0, quit) ∷ []) ∷ []

released_is_pressed : (wnd_proc two_windows 10 (key_up_message 65)).inputs 1 65 ≡ press
unfolding wnd_proc key_down pressed
released_is_pressed = refl

run-IsHeld_example :
    (IsHeld down → IsHeld ((run two_windows rounds).inputs 1 65))
    × (down ≢ up → (run two_windows rounds).inputs 1 65 ≢ up)
run-IsHeld_example = run-IsHeld rounds two_windows 1 65 (omega arith)

run-Open_example : Open 10 1 true (run two_windows rounds)
run-Open_example =
    run-Open 10 1 true rounds two_windows ((tt, tt), (((omega arith), (tt, tt)), tt))
      (record { found = unfold find_window in refl; flag = refl })
