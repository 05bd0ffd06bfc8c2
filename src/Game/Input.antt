-- ===== src/Game/Input.antt =====
-- Key states (src/exe-game/Base/Input.cpp and Input.hpp). The children hold the state machine of one
-- key over a frame and runs of frames.
pub mod Machine
mod Tests
use my_server_project.Common.{ℕ, zero, suc, ◌+◌, Bool, if◌then◌else◌, ◌==◌}

-- `eKeyState`.
pub data KeyState : Type 0 where
  none down press up : KeyState

-- `mKeyStates`: a state for each of the 256 values of an unsigned char.
abbrev pub Input : Type 0
Input = ℕ → KeyState

abbrev pub key_count : ℕ
key_count = 256

unfoldable pub set_key : Input → ℕ → KeyState → Input
set_key s k v j = if j == k then v else s j

-- The loop of the constructor, with the rounds left and the index.
unfoldable pub clear_from : ℕ → ℕ → Input → Input
unfolding set_key
clear_from zero i s = s
clear_from (suc n) i s = clear_from n (suc i) (set_key s i none)

-- The array's elements are indeterminate before the loop.
unfoldable pub construct : Input → Input
unfolding clear_from
construct raw = clear_from key_count 0 raw

-- The new state of the key in `KeyDown`.
unfoldable pub pressed : KeyState → KeyState
pressed down = press
pressed press = press
pressed none = down
pressed up = down

unfoldable pub key_down : Input → ℕ → Input
unfolding set_key pressed
key_down s k = set_key s k (pressed (s k))

unfoldable pub key_up : Input → ℕ → Input
unfolding set_key
key_up s k = set_key s k up

abbrev pub get_key_state : Input → ℕ → KeyState
get_key_state s k = s k

-- The body of the loop of `PostUpdate`.
unfoldable pub settled : KeyState → KeyState
settled up = none
settled down = press
settled none = none
settled press = press

unfoldable pub settle_from : ℕ → ℕ → Input → Input
unfolding set_key settled
settle_from zero i s = s
settle_from (suc n) i s = settle_from n (suc i) (set_key s i (settled (s i)))

unfoldable pub post_update : Input → Input
unfolding settle_from
post_update s = settle_from key_count 0 s
