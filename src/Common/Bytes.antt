-- ===== src/Common/Bytes.antt =====
-- A byte array as a function of the index, and the two block copies that `memcpy` makes: out of an
-- array into a list, and from a list into an array.
use Prim.Native.Nat.{ℕ, zero, suc, ◌+◌, ◌≤◌, ◌<◌}
use mathlib.Core.Path.{◌≡◌, refl, ap, ap₂, ◌∙◌}
use mathlib.Core.List.{List, [], ◌∷◌, ◌++◌}
use native.Mathlib.Omega.{arith}
use my_server_project.Common.Tests.{◌==◌, if◌then◌else◌, ne→==, ==_self}
use my_server_project.Common.Lists.{length, take, drop}

abbrev pub Memory : Type 0
Memory = ℕ → ℕ

unfoldable pub load : Memory → ℕ → ℕ → List ℕ
load m a zero = []
load m a (suc n) = m a ∷ load m (suc a) n

unfoldable pub store : Memory → ℕ → List ℕ → Memory
store m a [] i = m i
store m a (x ∷ xs) i = if i == a then x else store m (suc a) xs i

pub length-load : (m : Memory) (a n : ℕ) → length (load m a n) ≡ n
unfolding load
length-load m a zero = refl
length-load m a (suc n) = ap suc (length-load m (suc a) n)

-- A block is its first part followed by the rest.
pub load-add :
    (m : Memory) (a n k b c : ℕ) → n + k ≡ b → a + n ≡ c → load m a b ≡ load m a n ++ load m c k
unfolding load
load-add m a zero k b c e f = ap₂ (λ x y. load m x y) (omega arith) (omega arith)
load-add m a (suc n) k zero c e f = absurd (omega arith)
load-add m a (suc n) k (suc b) c e f =
    ap (◌∷◌ (m a)) (load-add m (suc a) n k b c (omega arith) (omega arith))

pub take-load : (m : Memory) (a n k : ℕ) → k ≤ n → take k (load m a n) ≡ load m a k
unfolding load
take-load m a n zero h = refl
take-load m a zero (suc k) h = absurd (omega arith)
take-load m a (suc n) (suc k) h = ap (◌∷◌ (m a)) (take-load m (suc a) n k (omega arith))

pub drop-load :
    (m : Memory) (a n k b c : ℕ) → k + b ≡ n → a + k ≡ c → drop k (load m a n) ≡ load m c b
unfolding load
drop-load m a n zero b c e f = ap₂ (λ x y. load m x y) (omega arith) (omega arith)
drop-load m a zero (suc k) b c e f = absurd (omega arith)
drop-load m a (suc n) (suc k) b c e f = drop-load m (suc a) n k b c (omega arith) (omega arith)

pub load_ext :
    (m k : Memory) (a n : ℕ) → ((i : ℕ) → a ≤ i → i < a + n → m i ≡ k i) → load m a n ≡ load k a n
unfolding load
load_ext m k a zero h = refl
load_ext m k a (suc n) h =
    ap₂ ◌∷◌ (h a (omega arith) (omega arith))
      (load_ext m k (suc a) n (λ i p q. h i (omega arith) (omega arith)))

pub store_below : (m : Memory) (a : ℕ) (xs : List ℕ) (i : ℕ) → i < a → store m a xs i ≡ m i
unfolding store
store_below m a [] i h = refl
store_below m a (x ∷ xs) i h =
    rw (ne→== i a (omega arith)) (store_below m (suc a) xs i (omega arith))

pub store_above :
    (m : Memory) (a : ℕ) (xs : List ℕ) (i : ℕ) → a + length xs ≤ i → store m a xs i ≡ m i
unfolding store
store_above m a [] i h = refl
store_above m a (x ∷ xs) i h =
    rw (ne→== i a (omega arith)) (store_above m (suc a) xs i (omega arith))

-- Stored bytes read back.
pub load-store_self :
    (m : Memory) (a : ℕ) (xs : List ℕ) {n : ℕ} → length xs ≡ n → load (store m a xs) a n ≡ xs
unfolding load store
load-store_self m a [] {n = zero} e = refl
load-store_self m a [] {n = suc n} e = absurd (omega arith)
load-store_self m a (x ∷ xs) {n = zero} e = absurd (omega arith)
load-store_self m a (x ∷ xs) {n = suc n} e = rw (==_self a) (
    ap (◌∷◌ x) (
      load_ext _ (store m (suc a) xs) (suc a) n (λ i p q. rw (ne→== i a (omega arith)))
      ∙ load-store_self m (suc a) xs {n = n} (omega arith)))

-- Bytes outside the block are kept.
pub load-store_before :
    (m : Memory) (a : ℕ) (xs : List ℕ) (b n : ℕ) → b + n ≤ a → load (store m a xs) b n ≡ load m b n
load-store_before m a xs b n h = load_ext _ m b n (λ i p q. store_below m a xs i (omega arith))

pub load-store_after :
    (m : Memory) (a : ℕ) (xs : List ℕ) (b n : ℕ)
    → a + length xs ≤ b
    → load (store m a xs) b n ≡ load m b n
load-store_after m a xs b n h = load_ext _ m b n (λ i p q. store_above m a xs i (omega arith))
