-- ===== src/Game/Renderer/Screen.antt =====
-- The back buffer of the GDI renderer (src/exe-game/Base/Render/GDI/Renderer.cpp): its device contexts, the
-- bitmap that it draws on, and the calls of GDI that it makes.
use my_server_project.Common.{
  ℕ, ◌≡◌, refl, sym, ap, ◌∙◌, Bool, true, false, Option, none, some, List, [], ◌∷◌, ◌++◌,
  append-nil,
}
use mathlib.Core.Path.{subst}

-- The calls of GDI, with what was selected, deleted or drawn; a bitmap is `none` where it is null.
pub data GdiCall : Type 0 where
  got_dc made_dc deleted_dc released_dc : ℕ → GdiCall
  selected deleted_object : Option ℕ → GdiCall
  made_bitmap : Option ℕ → ℕ → ℕ → GdiCall
  drew_rectangle : ℕ → ℕ → ℕ → GdiCall
  copied : ℕ → ℕ → ℕ → ℕ → GdiCall

-- `mDC`, `mMemDC`, `mBitmap`, whether `mWindow` is set, and the calls so far, newest first.
pub record Screen : Type 0 where
  pub dc : ℕ
  pub mem_dc : Option ℕ
  pub bitmap : Option ℕ
  pub has_window : Bool
  pub calls : List GdiCall

-- The window's size at a `Resize`, and what `CreateCompatibleBitmap` and `SelectObject` return.
pub record Resized : Type 0 where
  pub width : ℕ
  pub height : ℕ
  pub new_bitmap : Option ℕ
  pub old_bitmap : Option ℕ

unfoldable pub resize : Screen → Resized → Screen
resize s r = record s {
  bitmap = r.new_bitmap;
  calls =
      deleted_object r.old_bitmap
      ∷ selected r.new_bitmap
      ∷ made_bitmap r.new_bitmap r.width r.height
      ∷ s.calls;
}

-- The constructor, with the results of `GetDC` and `CreateCompatibleDC`.
unfoldable pub construct : ℕ → ℕ → Resized → Screen
unfolding resize
construct dc mem_dc r =
    resize
      (record {
        dc = dc;
        mem_dc = some mem_dc;
        bitmap = none;
        has_window = true;
        calls = made_dc mem_dc ∷ got_dc dc ∷ [];
      })
      r

unfoldable pub delete_bitmap : Option ℕ → Screen → Screen
delete_bitmap none s = s
delete_bitmap (some b) s = record s { bitmap = none; calls = deleted_object (some b) ∷ s.calls }

unfoldable pub delete_mem_dc : Option ℕ → Screen → Screen
delete_mem_dc none s = s
delete_mem_dc (some d) s = record s { mem_dc = none; calls = deleted_dc d ∷ s.calls }

unfoldable pub release_dc : Bool → Screen → Screen
release_dc false s = s
release_dc true s = record s { has_window = false; calls = released_dc s.dc ∷ s.calls }

-- The destructor.
unfoldable pub destroy : Screen → Screen
unfolding delete_bitmap delete_mem_dc release_dc
destroy s =
    let t = delete_bitmap s.bitmap s in
    let u = delete_mem_dc t.mem_dc t in release_dc u.has_window u

-- `Clear` and `Swap`, with the window's size.
unfoldable pub clear : Screen → ℕ → ℕ → ℕ → Screen
clear s mem_dc width height = record s { calls = drew_rectangle mem_dc width height ∷ s.calls }

unfoldable pub swap : Screen → ℕ → ℕ → ℕ → Screen
swap s mem_dc width height = record s { calls = copied s.dc mem_dc width height ∷ s.calls }

unfoldable pub resize_all : Screen → List Resized → Screen
resize_all s [] = s
resize_all s (r ∷ rs) = resize_all (resize s r) rs

-- The bitmaps that were deleted in a trace, oldest first, and those that were made.
abbrev pub deleted : List GdiCall → List ℕ
deleted [] = []
deleted (deleted_object (some b) ∷ cs) = deleted cs ++ b ∷ []
deleted (deleted_object none ∷ cs) = deleted cs
deleted (got_dc d ∷ cs) = deleted cs
deleted (made_dc d ∷ cs) = deleted cs
deleted (selected b ∷ cs) = deleted cs
deleted (deleted_dc d ∷ cs) = deleted cs
deleted (released_dc d ∷ cs) = deleted cs
deleted (made_bitmap b w h ∷ cs) = deleted cs
deleted (drew_rectangle d w h ∷ cs) = deleted cs
deleted (copied d e w h ∷ cs) = deleted cs

abbrev pub made : List GdiCall → List ℕ
made [] = []
made (made_bitmap (some b) w h ∷ cs) = made cs ++ b ∷ []
made (made_bitmap none w h ∷ cs) = made cs
made (got_dc d ∷ cs) = made cs
made (made_dc d ∷ cs) = made cs
made (selected b ∷ cs) = made cs
made (deleted_object b ∷ cs) = made cs
made (deleted_dc d ∷ cs) = made cs
made (released_dc d ∷ cs) = made cs
made (drew_rectangle d w h ∷ cs) = made cs
made (copied d e w h ∷ cs) = made cs

-- What `SelectObject` returns of a bitmap when `b` is selected, and what is selected then: it fails for a
-- null one.
abbrev pub returned : Option ℕ → ℕ → Option ℕ
returned none b = none
returned (some n) b = some b

abbrev pub next_selected : Option ℕ → ℕ → ℕ
next_selected none b = b
next_selected (some n) b = n

abbrev pub Selects : ℕ → List Resized → Type 0
Selects b [] = Unit {0}
Selects b (r ∷ rs) =
    (r.old_bitmap ≡ returned r.new_bitmap b) × Selects (next_selected r.new_bitmap b) rs

abbrev pub selected_after : ℕ → List Resized → ℕ
selected_after b [] = b
selected_after b (r ∷ rs) = selected_after (next_selected r.new_bitmap b) rs

-- With the bitmap that is selected, `stock` and the bitmaps made are those deleted and that one.
abbrev IsBalanced : ℕ → ℕ → List GdiCall → Type 0
IsBalanced stock b calls = stock ∷ made calls ≡ deleted calls ++ b ∷ []

resized-IsBalanced :
    (new old : Option ℕ) (width height stock b : ℕ) (calls : List GdiCall)
    → old ≡ returned new b
    → IsBalanced stock b calls
    → IsBalanced stock
        (next_selected new b)
        (deleted_object old ∷ selected new ∷ made_bitmap new width height ∷ calls)
resized-IsBalanced none old width height stock b calls e x =
    subst
      (λ old.
        IsBalanced stock b
          (deleted_object old ∷ selected none ∷ made_bitmap none width height ∷ calls))
      (sym e) x
resized-IsBalanced (some n) old width height stock b calls e x =
    subst
      (λ old.
        IsBalanced stock n
          (deleted_object old ∷ selected (some n) ∷ made_bitmap (some n) width height ∷ calls))
      (sym e) (ap (λ xs. xs ++ n ∷ []) x)

-- `mBitmap` is null or what is selected.
abbrev IsHeld : Option ℕ → ℕ → Type 0
IsHeld none b = Unit {0}
IsHeld (some n) b = n ≡ b

next_selected-IsHeld : (new : Option ℕ) (b : ℕ) → IsHeld new (next_selected new b)
next_selected-IsHeld none b = tt
next_selected-IsHeld (some n) b = refl

resize_all-IsBalanced :
    (rs : List Resized) (stock b : ℕ) (s : Screen)
    → Selects b rs
    → IsHeld s.bitmap b
    → IsBalanced stock b s.calls
    → IsHeld (resize_all s rs).bitmap (selected_after b rs)
      × IsBalanced stock (selected_after b rs) (resize_all s rs).calls
unfolding resize_all resize
resize_all-IsBalanced [] stock b s sel h x = (h, x)
resize_all-IsBalanced (r ∷ rs) stock b s sel h x =
    resize_all-IsBalanced rs stock (next_selected r.new_bitmap b) (resize s r) sel.1
      (next_selected-IsHeld r.new_bitmap b)
      (resized-IsBalanced r.new_bitmap r.old_bitmap r.width r.height stock b s.calls sel.0 x)

-- The end of the destructor deletes no bitmap and makes none.
Keeps : Screen → Screen → Type 0
Keeps s t = (deleted t.calls ≡ deleted s.calls) × (made t.calls ≡ made s.calls)

delete_mem_dc-Keeps : (o : Option ℕ) (s : Screen) → Keeps s (delete_mem_dc o s)
unfolding Keeps delete_mem_dc
delete_mem_dc-Keeps none s = (refl, refl)
delete_mem_dc-Keeps (some d) s = (refl, refl)

release_dc-Keeps : (b : Bool) (s : Screen) → Keeps s (release_dc b s)
unfolding Keeps release_dc
release_dc-Keeps false s = (refl, refl)
release_dc-Keeps true s = (refl, refl)

abbrev deleted_last : Option ℕ → List ℕ
deleted_last none = []
deleted_last (some b) = b ∷ []

delete_bitmap_lem :
    (o : Option ℕ) (s : Screen)
    → (deleted (delete_bitmap o s).calls ≡ deleted s.calls ++ deleted_last o)
      × (made (delete_bitmap o s).calls ≡ made s.calls)
unfolding delete_bitmap
delete_bitmap_lem none s = (sym (append-nil (deleted s.calls)), refl)
delete_bitmap_lem (some b) s = (refl, refl)

destroy_lem :
    (s : Screen)
    → (deleted (destroy s).calls ≡ deleted s.calls ++ deleted_last s.bitmap)
      × (made (destroy s).calls ≡ made s.calls)
unfolding destroy Keeps
destroy_lem s =
    let t = delete_bitmap s.bitmap s in
    let u = delete_mem_dc t.mem_dc t in
    let (d0, m0) = delete_bitmap_lem s.bitmap s in
    let (d1, m1) = delete_mem_dc-Keeps t.mem_dc t in
    let (d2, m2) = release_dc-Keeps u.has_window u in (d2 ∙ d1 ∙ d0, m2 ∙ m1 ∙ m0)

-- What the destructor leaves: the bitmap that is selected, where `mBitmap` is null.
abbrev pub left_over : Option ℕ → ℕ → List ℕ
left_over none b = b ∷ []
left_over (some n) b = []

all_deleted :
    (o : Option ℕ) (b : ℕ) (xs : List ℕ)
    → IsHeld o b
    → (xs ++ deleted_last o) ++ left_over o b ≡ xs ++ b ∷ []
all_deleted none b xs h = ap (λ ys. ys ++ b ∷ []) (append-nil xs)
all_deleted (some n) b xs h = append-nil (xs ++ n ∷ []) ∙ ap (λ b. xs ++ b ∷ []) h

-- After the constructor and any resizes, in which bitmaps may fail to be made and `SelectObject` returns
-- what was selected before, or null for a null bitmap: the destructor has asked for the deletion of the
-- bitmap that the device context came with and of every bitmap made, each once, in the order in which
-- they were made, but for the last one where the last resize made none.
pub destroy-deletes :
    (dc mem_dc stock : ℕ) (r : Resized) (rs : List Resized)
    → Selects stock (r ∷ rs)
    → let t = resize_all (construct dc mem_dc r) rs in
      deleted (destroy t).calls ++ left_over t.bitmap (selected_after stock (r ∷ rs))
      ≡ stock ∷ made (destroy t).calls
unfolding construct resize
destroy-deletes dc mem_dc stock r rs sel =
    let b = next_selected r.new_bitmap stock in
    let t = resize_all (construct dc mem_dc r) rs in
    let (held, balance) =
      resize_all-IsBalanced rs stock b (construct dc mem_dc r) sel.1
        (next_selected-IsHeld r.new_bitmap stock)
        (resized-IsBalanced r.new_bitmap r.old_bitmap r.width r.height stock stock
          (made_dc mem_dc ∷ got_dc dc ∷ []) sel.0 refl) in
    let last = selected_after b rs in
    let (d, m) = destroy_lem t in
    ap (λ xs. xs ++ left_over t.bitmap last) d
    ∙ all_deleted t.bitmap last (deleted t.calls) held
    ∙ sym balance
    ∙ ap (λ xs. stock ∷ xs) (sym m)
