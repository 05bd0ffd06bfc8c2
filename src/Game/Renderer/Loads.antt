-- ===== src/Game/Renderer/Loads.antt =====
-- Loads one after another, and rendering by the ids that they return.
use my_server_project.Common.{
  ℕ, suc, ◌+◌, ◌≡◌, inl, inr, Option-cases, refl, sym, ap, ◌∙◌, Option, none, some, List, [], ◌∷◌,
  ◌++◌, append_assoc, append-nil, length, length-append, get_elem?, get_elem?-append, set, ◌>>=◌,
  arith,
}
use my_server_project.Game.Renderer.{
  Texture, Renderer, Image, texture_of, alloc_texture, store_texture, load_result, load_texture,
  Blit, render_texture,
}

-- The ids that a run of loads returns, oldest first, and the renderer after it.
pub load_all : Texture → Renderer → List Image → Option (List (Option ℕ) × Renderer)
load_all raw r [] = some ([], r)
load_all raw r (image ∷ images) =
    load_texture raw r image >>= λ (id, s). load_all raw s images >>= λ (ids, t). some (id ∷ ids, t)

-- What a run stores from index `n` on, and the ids that it should return.
pub stored_from : ℕ → List Image → List Texture
stored_from n [] = []
stored_from n (image ∷ images) = elim image.loaded [
  | none ↦ stored_from n images
  | some bitmap ↦ texture_of image bitmap n ∷ stored_from (suc n) images
]

pub ids_from : ℕ → List Image → List (Option ℕ)
ids_from n [] = []
ids_from n (image ∷ images) = elim image.loaded [
  | none ↦ none ∷ ids_from n images
  | some bitmap ↦ some n ∷ ids_from (suc n) images
]

set-append_end :
    (ts : List Texture) (old new : Texture) → set (ts ++ old ∷ []) (length ts) new ≡ ts ++ new ∷ []
set-append_end [] old new = refl
set-append_end (t ∷ ts) old new = ap (λ xs. t ∷ xs) (set-append_end ts old new)

with_textures : List Texture → Renderer
with_textures ts = record { textures = ts; texture_id_cache = [] }

load_fresh :
    (raw : Texture) (ts : List Texture) (image : Image) (bitmap : ℕ)
    → load_result raw (with_textures ts) image (some bitmap)
      ≡ some (some (length ts), with_textures (ts ++ texture_of image bitmap (length ts) ∷ []))
unfolding load_result with_textures alloc_texture store_texture
load_fresh raw ts image bitmap = rw (
  get_elem?-append ts (raw ∷ []) 0 (length ts) (omega arith),
  set-append_end ts raw (texture_of image bitmap (length ts)),
)

-- The renderer and the ids after a run.
abbrev LoadsAll : Texture → List Texture → List Image → Type 0
LoadsAll raw ts images =
    load_all raw (with_textures ts) images
    ≡ some (ids_from (length ts) images, with_textures (ts ++ stored_from (length ts) images))

load_all-LoadsAll :
    (images : List Image) (raw : Texture) (ts : List Texture) → LoadsAll raw ts images
unfolding load_all ids_from stored_from load_result with_textures
load_all-LoadsAll [] raw ts = ap (λ xs. some ([], with_textures xs)) (sym (append-nil ts))
load_all-LoadsAll (image ∷ images) raw ts = elim (Option-cases image.loaded) [
  | inl e ↦
      rw (load_all, ids_from, stored_from, e, load_result, load_all-LoadsAll images raw ts) refl
  | inr (bitmap, e) ↦
      let t = texture_of image bitmap (length ts) in
      let more = load_all-LoadsAll images raw (ts ++ t ∷ []) in
      let size : length (ts ++ t ∷ []) ≡ suc (length ts) =
        omega (arith, length-append ts (t ∷ [])) in
      rw (load_all, ids_from, stored_from, e, load_fresh raw ts image bitmap, more, size)
        (ap (λ xs. some (some (length ts) ∷ ids_from (suc (length ts)) images, with_textures xs))
          (append_assoc ts (t ∷ []) (stored_from (suc (length ts)) images)))
]

stored_from-append :
    (xs ys : List Image) (n k : ℕ)
    → n + length (stored_from n xs) ≡ k
    → stored_from n (xs ++ ys) ≡ stored_from n xs ++ stored_from k ys
unfolding stored_from
stored_from-append [] ys n k e = ap (λ j. stored_from j ys) (omega arith)
stored_from-append (image ∷ xs) ys n k e = elim (Option-cases image.loaded) [
  | inl d ↦ rw (stored_from, d) (stored_from-append xs ys n k (rw (stored_from, d) at e))
  | inr (bitmap, d) ↦
      let e' : n + suc (length (stored_from (suc n) xs)) ≡ k = rw (stored_from, d) at e in
      rw (stored_from, d)
        (ap (λ ts. texture_of image bitmap n ∷ ts)
          (stored_from-append xs ys (suc n) k (omega arith)))
]

ids_from-append :
    (xs ys : List Image) (n k : ℕ)
    → n + length (stored_from n xs) ≡ k
    → ids_from n (xs ++ ys) ≡ ids_from n xs ++ ids_from k ys
unfolding ids_from stored_from
ids_from-append [] ys n k e = ap (λ j. ids_from j ys) (omega arith)
ids_from-append (image ∷ xs) ys n k e = elim (Option-cases image.loaded) [
  | inl d ↦
      rw (ids_from, d) (ap (λ is. none ∷ is) (ids_from-append xs ys n k (rw (stored_from, d) at e)))
  | inr (bitmap, d) ↦
      let e' : n + suc (length (stored_from (suc n) xs)) ≡ k = rw (stored_from, d) at e in
      rw (ids_from, d) (ap (λ is. some n ∷ is) (ids_from-append xs ys (suc n) k (omega arith)))
]

length-ids_from : (xs : List Image) (n : ℕ) → length (ids_from n xs) ≡ length xs
unfolding ids_from
length-ids_from [] n = refl
length-ids_from (image ∷ xs) n = elim (Option-cases image.loaded) [
  | inl d ↦ rw (ids_from, d) (ap suc (length-ids_from xs n))
  | inr (bitmap, d) ↦ rw (ids_from, d) (ap suc (length-ids_from xs (suc n)))
]

-- What rendering an image's texture at a position draws.
abbrev pub blit_of : Image → ℕ → ℕ → Blit
blit_of image x y = record {
  source = image.new_dc;
  x = x;
  y = y;
  blit_width = image.bitmap_width;
  blit_height = image.bitmap_height;
}

abbrev pub no_textures : Renderer
no_textures = record { textures = []; texture_id_cache = [] }

-- When images are loaded into a new renderer one after another, some of which may not be found, each
-- that is found is returned an id by which, after all the loads, `RenderTexture` draws from its own
-- device context and with its own size.
pub load_all-render_texture :
    (raw : Texture) (before : List Image) (image : Image) (after : List Image) (bitmap x y : ℕ)
    → image.loaded ≡ some bitmap
    → (ids : List (Option ℕ)) × (r : Renderer) × (id : ℕ) × (load_all raw no_textures
          (before ++ image ∷ after)
        ≡ some (ids, r))
      × (get_elem? ids (length before) ≡ some (some id))
      × (render_texture r (some id) x y ≡ some (blit_of image x y))
unfolding render_texture with_textures
load_all-render_texture raw before image after bitmap x y e =
    let k = length (stored_from 0 before) in
    let images = before ++ image ∷ after in
    let found_id : ids_from k (image ∷ after) ≡ some k ∷ ids_from (suc k) after =
      unfold ids_from in rw (ids_from, e) refl in
    let found : stored_from k (image ∷ after)
        ≡ texture_of image bitmap k ∷ stored_from (suc k) after =
      unfold stored_from in rw (stored_from, e) refl in
    let at_id : get_elem? (ids_from 0 images) (length before) ≡ some (some k) =
      ap (λ is. get_elem? is (length before))
        (ids_from-append before (image ∷ after) 0 k (omega arith))
      ∙ get_elem?-append (ids_from 0 before) (ids_from k (image ∷ after)) 0 (length before)
          (omega (arith, length-ids_from before 0))
      ∙ ap (λ is. get_elem? is 0) found_id in
    let at : get_elem? (stored_from 0 images) k ≡ some (texture_of image bitmap k) =
      ap (λ ts. get_elem? ts k) (stored_from-append before (image ∷ after) 0 k (omega arith))
      ∙ get_elem?-append (stored_from 0 before) (stored_from k (image ∷ after)) 0 k (omega arith)
      ∙ ap (λ ts. get_elem? ts 0) found in
    (
      ids_from 0 images,
      record { textures = stored_from 0 images; texture_id_cache = [] },
      k,
      load_all-LoadsAll images raw [],
      at_id,
      rw (render_texture, at) refl,
    )
