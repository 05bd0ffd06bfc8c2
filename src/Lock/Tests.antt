-- ===== src/Lock/Tests.antt =====
-- A mutex as POSIX describes it, and two threads at a guard.
use my_server_project.Common.{
  ℕ, ◌≤◌, ◌≡◌, refl, ap, ◌∙◌, true, Option, none, some, ◌==◌, ==_self, ne→==, if◌then◌else◌,
}
use my_server_project.Lock.{
  traps, Kind, normal, error_check, Pthread, IsPosix, ebusy, edeadlock, construct, checked, lock,
  mutex, Guards, enter, guards, Reach, here, next,
}
use my_server_project.Lock.Exclusion.{unguarded, Reach-excludes}

record SimpleMutex : Type 0 where
  kind_of : Kind
  owner_of : Option ℕ

lock_again : Kind → SimpleMutex → Option (ℕ × SimpleMutex)
lock_again normal m = none
lock_again error_check m = some (edeadlock, m)

lock_from : Option ℕ → SimpleMutex → ℕ → Option (ℕ × SimpleMutex)
lock_from none m t = some (0, record m { owner_of = some t })
lock_from (some u) m t = if u == t then lock_again m.kind_of m else none

trylock_from : Option ℕ → SimpleMutex → ℕ → ℕ × SimpleMutex
trylock_from none m t = (0, record m { owner_of = some t })
trylock_from (some u) m t = (ebusy, m)

abbrev simple : Pthread SimpleMutex
simple = record {
  init = λ k. record { kind_of = k; owner_of = none };
  mutex_lock = λ m t. lock_from m.owner_of m t;
  mutex_unlock = λ m t. (0, record m { owner_of = none });
  mutex_trylock = λ m t. trylock_from m.owner_of m t;
  owner = λ m. m.owner_of;
  kind = λ m. m.kind_of;
}

simple-IsPosix : IsPosix simple
unfolding lock_again lock_from trylock_from
simple-IsPosix = record {
  init_free = λ k. (refl, refl);
  lock_free = λ m t e. (record m { owner_of = some t }, ap (λ o. lock_from o m t) e, refl, refl);
  lock_other = λ m t u e ne.
      ap (λ o. lock_from o m t) e
      ∙ ap (λ b. if b then lock_again m.kind_of m else none) (ne→== u t ne);
  lock_again = λ m t e k.
      ap (λ o. lock_from o m t) e
      ∙ ap (λ b. if b then lock_again m.kind_of m else none) (==_self t)
      ∙ ap (λ k. lock_again k m) k;
  lock_checked = λ m t e k.
      ap (λ o. lock_from o m t) e
      ∙ ap (λ b. if b then lock_again m.kind_of m else none) (==_self t)
      ∙ ap (λ k. lock_again k m) k;
  unlock_own = λ m t e. (refl, refl);
  trylock_free =
      λ m t e. (record m { owner_of = some t }, ap (λ o. trylock_from o m t) e, refl, refl);
  trylock_held = λ m t u e. ap (λ o. trylock_from o m t) e;
}

-- Thread 4 is in a guard.
abbrev held : Guards SimpleMutex
held =
    enter (unguarded simple simple-IsPosix true) 4
      (record { kind_of = error_check; owner_of = some 4 })

held-Reach : Reach (mutex simple true) (unguarded simple simple-IsPosix true) held
unfolding mutex lock checked construct lock_from
held-Reach =
    next (here refl) (guards 4 (record { kind_of = error_check; owner_of = some 4 }) refl refl)

Reach-excludes_example :
    ((t u : ℕ) → 1 ≤ held.inside t → 1 ≤ held.inside u → t ≡ u)
    × ((t : ℕ) → held.inside t ≤ 1)
    × ((t : ℕ) → 1 ≤ held.inside t → lock simple true held.lock_object t ≡ traps)
Reach-excludes_example = Reach-excludes simple simple-IsPosix true held-Reach
