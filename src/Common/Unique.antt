-- ===== src/Common/Unique.antt =====
-- Lists of numbers without repetition, as predicates by recursion that the tactics read.
use Prim.Native.Nat.{ℕ}
use mathlib.Core.Path.{sym}
use mathlib.Core.Logic.{◌≢◌}
use mathlib.Core.List.{List, [], ◌∷◌, ◌++◌}

abbrev pub All {ℓ κ} : {A : Type ℓ} → (A → Type κ) → List A → Type κ
All P [] = Unit
All P (x ∷ xs) = P x × All P xs

abbrev pub NotIn : ℕ → List ℕ → Type 0
NotIn i = All (λ x. x ≢ i)

abbrev pub Distinct : List ℕ → Type 0
Distinct [] = Unit {0}
Distinct (x ∷ xs) = NotIn x xs × Distinct xs

module _ {ℓ κ} {A : Type ℓ} (P : A → Type κ) where
  pub All-append : (xs ys : List A) → All P xs → All P ys → All P (xs ++ ys)
  All-append [] ys hx hy = hy
  All-append (x ∷ xs) ys hx hy = (hx.0, All-append xs ys hx.1 hy)

  pub All-append_left : (xs ys : List A) → All P (xs ++ ys) → All P xs
  All-append_left [] ys h = tt
  All-append_left (x ∷ xs) ys h = (h.0, All-append_left xs ys h.1)

  pub All-append_right : (xs ys : List A) → All P (xs ++ ys) → All P ys
  All-append_right [] ys h = h
  All-append_right (x ∷ xs) ys h = All-append_right xs ys h.1

  pub All-mono {μ} : {Q : A → Type μ} (xs : List A) → ((x : A) → P x → Q x) → All P xs → All Q xs
  All-mono [] f h = tt
  All-mono (x ∷ xs) f h = (f x h.0, All-mono xs f h.1)

-- An entry in the middle of a list may be moved to its front, and back.
pub Distinct-middle :
    (xs ys : List ℕ) (i : ℕ) → Distinct (xs ++ i ∷ ys) → NotIn i (xs ++ ys) × Distinct (xs ++ ys)
Distinct-middle [] ys i h = h
Distinct-middle (x ∷ xs) ys i h =
    let rest = Distinct-middle xs ys i h.1 in
    let after = All-append_right (λ y. y ≢ x) xs (i ∷ ys) h.0 in
    (
      ((λ e. after.0 (sym e)), rest.0),
      (
        All-append (λ y. y ≢ x) xs ys (All-append_left (λ y. y ≢ x) xs (i ∷ ys) h.0) after.1,
        rest.1,
      ),
    )

pub middle-Distinct :
    (xs ys : List ℕ) (i : ℕ) → NotIn i (xs ++ ys) → Distinct (xs ++ ys) → Distinct (xs ++ i ∷ ys)
middle-Distinct [] ys i n d = (n, d)
middle-Distinct (x ∷ xs) ys i n d = (
  All-append (λ y. y ≢ x) xs (i ∷ ys) (All-append_left (λ y. y ≢ x) xs ys d.0)
      ((λ e. n.0 (sym e)), All-append_right (λ y. y ≢ x) xs ys d.0),
  middle-Distinct xs ys i n.1 d.1,
)

pub Distinct-append_right : (xs ys : List ℕ) → Distinct (xs ++ ys) → Distinct ys
Distinct-append_right [] ys d = d
Distinct-append_right (x ∷ xs) ys d = Distinct-append_right xs ys d.1
