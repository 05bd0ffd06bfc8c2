-- ===== src/Game/Renderer.antt =====
-- The textures of the GDI renderer (src/exe-game/Base/Render/GDI/Renderer.cpp and Texture.cpp): a
-- vector of textures and a stack of free ids, behind `LoadTexture` and `RenderTexture`. The children
-- hold the ids that loads return and what rendering by them draws, and the back buffer.
pub mod Loads
pub mod Screen
mod Tests
use my_server_project.Common.{
  ℕ, zero, suc, Option, none, some, List, [], ◌∷◌, ◌++◌, length, get_elem?, set, ◌>>=◌,
}

-- `mDC`, `mTextureBitmap`, `mID` and `mSize`. Handles and coordinates are only passed on.
pub record Texture : Type 0 where
  pub dc : ℕ
  pub bitmap : ℕ
  pub id : ℕ
  pub width : ℕ
  pub height : ℕ

pub record Renderer : Type 0 where
  pub textures : List Texture
  pub texture_id_cache : List ℕ

-- A file to load: the results of `LoadImageA`, of `CreateCompatibleDC` and of `GetObjectA`.
pub record Image : Type 0 where
  pub loaded : Option ℕ
  pub new_dc : ℕ
  pub bitmap_width : ℕ
  pub bitmap_height : ℕ

-- What is stored in the texture.
abbrev pub texture_of : Image → ℕ → ℕ → Texture
texture_of image bitmap id = record {
  dc = image.new_dc;
  bitmap = bitmap;
  id = id;
  width = image.bitmap_width;
  height = image.bitmap_height;
}

-- The id: that of a new element, whose members are `raw`, or the top of the stack.
unfoldable pub alloc_texture : Texture → List ℕ → List Texture → ℕ × Renderer
alloc_texture raw [] textures =
    (length textures, record { textures = textures ++ raw ∷ []; texture_id_cache = [] })
alloc_texture raw (id ∷ cache) textures =
    (id, record { textures = textures; texture_id_cache = cache })

-- `mTextures[textureID] = …`, undefined out of range.
unfoldable pub store_texture : Image → ℕ → ℕ × Renderer → Option (Option ℕ × Renderer)
store_texture image bitmap (id, r) = elim (get_elem? r.textures id) [
  | none ↦ none
  | some old ↦
      some (some id, record r { textures = set r.textures id (texture_of image bitmap id) })
]

-- By the result of `LoadImageA`; the inner `none` is -1.
unfoldable pub load_result : Texture → Renderer → Image → Option ℕ → Option (Option ℕ × Renderer)
unfolding alloc_texture store_texture
load_result raw r image none = some (none, r)
load_result raw r image (some bitmap) =
    store_texture image bitmap (alloc_texture raw r.texture_id_cache r.textures)

abbrev pub load_texture : Texture → Renderer → Image → Option (Option ℕ × Renderer)
load_texture raw r image = load_result raw r image image.loaded

-- The `StretchBlt` that `RenderTexture` comes to at a position, without a flip: the source, and its
-- size, which is that of the destination too.
pub record Blit : Type 0 where
  pub source : ℕ
  pub x : ℕ
  pub y : ℕ
  pub blit_width : ℕ
  pub blit_height : ℕ

-- `none` is undefined behaviour: an id of -1 or out of range.
unfoldable pub render_texture : Renderer → Option ℕ → ℕ → ℕ → Option Blit
render_texture r none x y = none
render_texture r (some id) x y = elim (get_elem? r.textures id) [
  | none ↦ none
  | some t ↦
      some (record { source = t.dc; x = x; y = y; blit_width = t.width; blit_height = t.height })
]
