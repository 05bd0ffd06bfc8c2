-- ===== src/Lock.antt =====
-- The locks and their guard (src/lib-core/include/core/Lock.hpp). The pthread mutex is a parameter, with
-- what POSIX says of it as laws. The child holds what guards of one mutex exclude.
pub mod Exclusion
mod Tests
use my_server_project.Common.{
  ℕ, suc, ◌+◌, ◌-◌, ◌≤◌, ◌≡◌, ◌≢◌, Bool, true, false, not, ◌&&◌, Option, none, some, ◌==◌,
  if◌then◌else◌,
}

-- A call of `Lock`: it returns, it waits, or an assertion fails.
pub data Locked (L : Type 0) : Type 0 where
  got : L → Locked L
  waits traps : Locked L

-- What `LockGuard` asks of its argument; a thread is a number. A `none` of `TryLock` is an assertion that
-- fails.
pub record Lockable (L : Type 0) : Type 0 where
  pub lock : L → ℕ → Locked L
  pub unlock : L → ℕ → L
  pub try_lock : L → ℕ → Option (Bool × L)

unfoldable pub null_lock : Lockable (Unit {0})
null_lock = record { lock = λ l t. got l; unlock = λ l t. l; try_lock = λ l t. some (true, l) }

pub data Kind : Type 0 where
  normal error_check : Kind

-- The functions of pthread that are called, with the results that they return; a `none` is a call that
-- waits. `owner` and `kind` tell the state of a mutex.
pub record Pthread (M : Type 0) : Type 0 where
  pub init : Kind → M
  pub mutex_lock : M → ℕ → Option (ℕ × M)
  pub mutex_unlock : M → ℕ → ℕ × M
  pub mutex_trylock : M → ℕ → ℕ × M
  pub owner : M → Option ℕ
  pub kind : M → Kind

abbrev pub ebusy : ℕ
ebusy = 16

abbrev pub edeadlock : ℕ
edeadlock = 35

-- What POSIX says of them.
pub record IsPosix {M : Type 0} (P : Pthread M) : Type 0 where
  pub init_free : (k : Kind) → (P.owner (P.init k) ≡ none) × (P.kind (P.init k) ≡ k)
  pub lock_free :
      (m : M) (t : ℕ)
      → P.owner m ≡ none
      → (n : M) × (P.mutex_lock m t ≡ some (0, n)) × (P.owner n ≡ some t) × (P.kind n ≡ P.kind m)
  pub lock_other : (m : M) (t u : ℕ) → P.owner m ≡ some u → u ≢ t → P.mutex_lock m t ≡ none
  pub lock_again :
      (m : M) (t : ℕ) → P.owner m ≡ some t → P.kind m ≡ normal → P.mutex_lock m t ≡ none
  pub lock_checked :
      (m : M) (t : ℕ)
      → P.owner m ≡ some t
      → P.kind m ≡ error_check
      → P.mutex_lock m t ≡ some (edeadlock, m)
  pub unlock_own :
      (m : M) (t : ℕ)
      → P.owner m ≡ some t
      → (P.owner (P.mutex_unlock m t).1 ≡ none) × (P.kind (P.mutex_unlock m t).1 ≡ P.kind m)
  pub trylock_free :
      (m : M) (t : ℕ)
      → P.owner m ≡ none
      → (n : M) × (P.mutex_trylock m t ≡ (0, n)) × (P.owner n ≡ some t) × (P.kind n ≡ P.kind m)
  pub trylock_held : (m : M) (t u : ℕ) → P.owner m ≡ some u → P.mutex_trylock m t ≡ (ebusy, m)

-- `Mutex` over them; `debug` says whether DEBUG is defined.
module _ {M : Type 0} (P : Pthread M) (debug : Bool) where
  abbrev pub mutex_kind : Kind
  mutex_kind = if debug then error_check else normal

  unfoldable pub construct : M
  construct = P.init mutex_kind

  unfoldable pub checked : Option (ℕ × M) → Locked M
  checked none = waits
  checked (some (result, m)) = if debug && not (result == 0) then traps else got m

  unfoldable pub lock : M → ℕ → Locked M
  unfolding checked
  lock m t = checked (P.mutex_lock m t)

  unfoldable pub unlock : M → ℕ → M
  unlock m t = (P.mutex_unlock m t).1

  unfoldable pub tried : ℕ × M → Option (Bool × M)
  tried (result, m) = if debug && result == edeadlock then none else some (result == 0, m)

  unfoldable pub try_lock : M → ℕ → Option (Bool × M)
  unfolding tried
  try_lock m t = tried (P.mutex_trylock m t)

  unfoldable pub mutex : Lockable M
  unfolding lock unlock try_lock
  mutex = record { lock = lock; unlock = unlock; try_lock = try_lock }

-- A lock, and how many guards of it, or successful calls of `TryLock`, each thread is in.
pub record Guards (L : Type 0) : Type 0 where
  pub lock_object : L
  pub inside : ℕ → ℕ

abbrev pub enter : {L : Type 0} → Guards L → ℕ → L → Guards L
enter g t l = record {
  lock_object = l;
  inside = λ k. if k == t then suc (g.inside k) else g.inside k;
}

abbrev pub leave : {L : Type 0} → Guards L → ℕ → L → Guards L
leave g t l = record {
  lock_object = l;
  inside = λ k. if k == t then g.inside k - 1 else g.inside k;
}

-- `LockGuard`'s constructor and destructor, and `TryLock`.
pub data Step {L : Type 0} (K : Lockable L) (g h : Guards L) : Type 0 where
  guards : (t : ℕ) (l : L) → K.lock g.lock_object t ≡ got l → h ≡ enter g t l → Step K g h
  tries :
      (t : ℕ) (l : L) → K.try_lock g.lock_object t ≡ some (true, l) → h ≡ enter g t l → Step K g h
  unguards : (t : ℕ) → 1 ≤ g.inside t → h ≡ leave g t (K.unlock g.lock_object t) → Step K g h

pub data Reach {L : Type 0} (K : Lockable L) (g : Guards L) : Guards L → Type 0 where
  here : {h : Guards L} → h ≡ g → Reach K g h
  next : {h i : Guards L} → Reach K g h → Step K h i → Reach K g i
