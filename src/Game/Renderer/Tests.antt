-- ===== src/Game/Renderer/Tests.antt =====
-- Loads of a renderer, and the theorem at concrete images.
use my_server_project.Common.{ℕ, ◌≡◌, refl, Option, none, some, List, [], ◌∷◌, ◌++◌, get_elem?}
use my_server_project.Game.Renderer.{
  Texture, Renderer, Image, load_texture, load_result, alloc_texture, store_texture, render_texture,
  texture_of,
}
use my_server_project.Game.Renderer.Screen.{
  Screen, Resized, left_over, construct, destroy, resize, resize_all, deleted, made,
  destroy-deletes,
}
use my_server_project.Game.Renderer.Loads.{load_all, no_textures, blit_of, load_all-render_texture}

abbrev raw : Texture
raw = record { dc = 9; bitmap = 9; id = 9; width = 9; height = 9 }

abbrev missing : Image
missing = record { loaded = none; new_dc = 0; bitmap_width = 0; bitmap_height = 0 }

abbrev grass : Image
grass = record { loaded = some 70; new_dc = 7; bitmap_width = 16; bitmap_height = 32 }

abbrev stone : Image
stone = record { loaded = some 80; new_dc = 8; bitmap_width = 8; bitmap_height = 8 }

-- A texture that could not be loaded is rendered with the id -1.
missing_is_undefined : render_texture no_textures none 10 10 ≡ none
unfolding render_texture
missing_is_undefined = refl

-- An id of the stack is used before a new one.
cached_id :
    load_texture raw (record { textures = raw ∷ []; texture_id_cache = 0 ∷ [] }) grass
    ≡ some (some 0, record { textures = texture_of grass 70 0 ∷ []; texture_id_cache = [] })
unfolding load_result alloc_texture store_texture
cached_id = refl

load_all-render_texture_example :
    (ids : List (Option ℕ)) × (r : Renderer) × (id : ℕ) × (load_all raw no_textures
        (missing ∷ stone ∷ grass ∷ stone ∷ [])
      ≡ some (ids, r))
    × (get_elem? ids 2 ≡ some (some id))
    × (render_texture r (some id) 10 10 ≡ some (blit_of grass 10 10))
load_all-render_texture_example =
    load_all-render_texture raw (missing ∷ stone ∷ []) grass (stone ∷ []) 70 10 10 refl

-- A back buffer that is made and resized twice, the second time in vain.
abbrev first_size : Resized
first_size = record { width = 800; height = 600; new_bitmap = some 31; old_bitmap = some 30 }

abbrev second_size : Resized
second_size = record { width = 640; height = 480; new_bitmap = some 32; old_bitmap = some 31 }

abbrev no_size : Resized
no_size = record { width = 640; height = 480; new_bitmap = none; old_bitmap = none }

abbrev two_sizes : Screen
two_sizes = resize_all (construct 1 2 first_size) (second_size ∷ no_size ∷ [])

destroy-deletes_example :
    deleted (destroy two_sizes).calls ++ left_over two_sizes.bitmap 32
    ≡ 30 ∷ made (destroy two_sizes).calls
destroy-deletes_example =
    destroy-deletes 1 2 30 first_size (second_size ∷ no_size ∷ []) (refl, (refl, (refl, tt)))

both_made : made two_sizes.calls ≡ 31 ∷ 32 ∷ []
unfolding resize_all construct resize
both_made = refl
