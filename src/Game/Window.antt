-- ===== src/Game/Window.antt =====
-- The windows of the game and their messages (src/exe-game/Base/Window.cpp and
-- src/exe-game/Game/GameWindow.cpp), as far as they concern the map of windows, the end of the
-- program and the input. The child holds what the keys and the loop come to.
pub mod Keys
pub mod Loop
mod Tests
use my_server_project.Common.{
  ℕ, zero, suc, ◌+◌, ◌%◌, Bool, true, false, Option, none, some, List, [], ◌∷◌, ◌==◌, if◌then◌else◌,
}
use my_server_project.Game.Input.{Input, key_down, key_up, post_update}

-- The messages that the code looks at; `create` carries the window's pointer, and a key its `wParam`.
pub data Message : Type 0 where
  create : ℕ → Message
  destroy quit other : Message
  key_down_message sys_key_down key_up_message sys_key_up : ℕ → Message

-- `mIsRunning`, `sWindowMap` (handles and pointers), `mInput` of each window by its pointer, and how
-- many WM_QUIT were posted.
pub record App : Type 0 where
  pub is_running : Bool
  pub window_map : List (ℕ × ℕ)
  pub inputs : ℕ → Input
  pub quits_posted : ℕ

unfoldable pub find_window : List (ℕ × ℕ) → ℕ → Option ℕ
find_window [] handle = none
find_window ((h, window) ∷ rest) handle =
    if h == handle then some window else find_window rest handle

-- `insert`, by what is found under the handle: it keeps an entry that is there.
unfoldable pub insert_at : Option ℕ → List (ℕ × ℕ) → ℕ → ℕ → List (ℕ × ℕ)
insert_at (some old) windows handle window = windows
insert_at none windows handle window = (handle, window) ∷ windows

-- The order of the entries is not that of an `unordered_map`, and no code relies on it.
unfoldable pub insert_window : List (ℕ × ℕ) → ℕ → ℕ → List (ℕ × ℕ)
unfolding find_window insert_at
insert_window windows handle window = insert_at (find_window windows handle) windows handle window

unfoldable pub erase_window : List (ℕ × ℕ) → ℕ → List (ℕ × ℕ)
erase_window [] handle = []
erase_window ((h, window) ∷ rest) handle =
    let kept = erase_window rest handle in if h == handle then kept else (h, window) ∷ kept

abbrev pub set_input : App → ℕ → Input → App
set_input a window s = record a { inputs = λ w. if w == window then s else a.inputs w }

-- A `WPARAM` passed as an unsigned char.
abbrev pub key_code : ℕ → ℕ
key_code w_param = w_param % 256

unfoldable pub on_key_down : App → ℕ → ℕ → App
unfolding key_down
on_key_down a window key = set_input a window (key_down (a.inputs window) key)

unfoldable pub on_key_up : App → ℕ → ℕ → App
unfolding key_up
on_key_up a window key = set_input a window (key_up (a.inputs window) key)

-- `MessageHandler`, which calls `OnKeyDown` for the messages of a released key as well.
unfoldable pub message_handler : App → ℕ → Message → App
unfolding on_key_down
message_handler a window (create pointer) = a
message_handler a window destroy = a
message_handler a window quit = a
message_handler a window other = a
message_handler a window (sys_key_down w_param) = on_key_down a window (key_code w_param)
message_handler a window (key_down_message w_param) = on_key_down a window (key_code w_param)
message_handler a window (sys_key_up w_param) = on_key_down a window (key_code w_param)
message_handler a window (key_up_message w_param) = on_key_down a window (key_code w_param)

unfoldable pub handle_found : App → Option ℕ → Message → App
unfolding message_handler
handle_found a none m = a
handle_found a (some window) m = message_handler a window m

unfoldable pub wnd_proc : App → ℕ → Message → App
unfolding handle_found insert_window erase_window find_window
wnd_proc a handle (create pointer) = record a {
  window_map = insert_window a.window_map handle pointer;
}
wnd_proc a handle destroy = record a {
  window_map = erase_window a.window_map handle;
  quits_posted = suc a.quits_posted;
}
wnd_proc a handle quit = handle_found a (find_window a.window_map handle) quit
wnd_proc a handle other = handle_found a (find_window a.window_map handle) other
wnd_proc a handle (sys_key_down k) =
    handle_found a (find_window a.window_map handle) (sys_key_down k)
wnd_proc a handle (key_down_message k) =
    handle_found a (find_window a.window_map handle) (key_down_message k)
wnd_proc a handle (sys_key_up k) = handle_found a (find_window a.window_map handle) (sys_key_up k)
wnd_proc a handle (key_up_message k) =
    handle_found a (find_window a.window_map handle) (key_up_message k)

-- `if (sWindowMap.empty()) Stop();`
unfoldable pub stop_if_empty : List (ℕ × ℕ) → App → App
stop_if_empty [] a = record a { is_running = false }
stop_if_empty (w ∷ ws) a = a

unfoldable pub check_quit : App → Message → App
unfolding stop_if_empty
check_quit a quit = stop_if_empty a.window_map a
check_quit a (create p) = a
check_quit a destroy = a
check_quit a other = a
check_quit a (key_down_message k) = a
check_quit a (sys_key_down k) = a
check_quit a (key_up_message k) = a
check_quit a (sys_key_up k) = a

-- A message with the handle that it is dispatched to.
abbrev pub Posted : Type 0
Posted = ℕ × Message

-- The inner loop of `Run`: the messages that `PeekMessageA` finds in this round. A WM_QUIT has no
-- window and is dispatched to none.
unfoldable pub pump : App → List Posted → App
unfolding check_quit wnd_proc
pump a [] = a
pump a ((handle, m) ∷ ms) = pump (wnd_proc (check_quit a m) handle m) ms

-- `GameWindow::Update` of each window of the map, without the drawing.
unfoldable pub update_windows : App → List (ℕ × ℕ) → App
unfolding post_update
update_windows a [] = a
update_windows a ((h, window) ∷ rest) =
    update_windows (set_input a window (post_update (a.inputs window))) rest

unfoldable pub round : App → List Posted → App
unfolding pump update_windows
round a ms = let b = pump a ms in update_windows b b.window_map

-- `Run` over the rounds to come; it returns when a round has stopped it.
unfoldable pub run : App → List (List Posted) → App
unfolding round
run a [] = a
run a (ms ∷ rounds) = let later = run (round a ms) rounds in if a.is_running then later else a
