-- ===== src/Game/Input/Tests.antt =====
-- A run of the input on a small input.
use my_server_project.Common.{◌≡◌, refl, [], ◌∷◌}
use my_server_project.Game.Input.{none, up, key_down, key_up, press, pressed}
use my_server_project.Game.Input.Machine.{downs, ups, feed}

tap : feed (λ i. none) (downs 65 ∷ ups 65 ∷ downs 66 ∷ []) 65 ≡ up
unfolding feed key_down key_up
tap = refl

repeat : feed (λ i. none) (downs 65 ∷ downs 65 ∷ downs 65 ∷ []) 65 ≡ press
unfolding feed key_down pressed
repeat = refl
