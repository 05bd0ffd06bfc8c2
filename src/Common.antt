-- ===== src/Common.antt =====
-- The names that all parts share: the libraries', passed on, and those of the child modules (tests,
-- lists, byte arrays). `none` in an `Option` result stands for undefined behaviour or a missing value.
mod Tests
mod Lists
mod Bytes
mod Unique
pub use Tests.*
pub use Lists.*
pub use Unique.*
pub use Bytes.{
  Memory, length-load, load-add, take-load, drop-load, load-store_self, load-store_before,
  load-store_after, load_ext,
}
unfoldable pub use Bytes.{load, store}
pub use Prim.Native.Nat.{ℕ, zero, suc, ◌+◌, ◌-◌, ◌*◌, ◌/◌, ◌%◌, ◌^◌, ◌≤◌, ◌<◌, min}
pub use mathlib.Core.Path.{◌≡◌, refl, sym, ap, ap₂, ◌∙◌}
pub use mathlib.Core.Logic.{◌≢◌, ◌⊎◌, inl, inr}
pub use mathlib.Core.Bool.{Bool, true, false, not, ◌&&◌, ◌||◌}
pub use mathlib.Core.Option.{Option, none, some}
pub use mathlib.Core.List.{List, [], ◌∷◌, ◌++◌, map, append-nil, append_assoc}
pub use native.Mathlib.Omega.{arith}

-- Sequencing of steps that may be undefined.
infixl 5 ◌>>=◌
abbrev pub ◌>>=◌ {ℓ κ} : {A : Type ℓ} {B : Type κ} → Option A → (A → Option B) → Option B
none >>= f = none
some a >>= f = f a
