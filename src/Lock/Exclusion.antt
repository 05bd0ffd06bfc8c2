-- ===== src/Lock/Exclusion.antt =====
-- What the guards of one `Mutex` exclude, in both builds.
use my_server_project.Common.{
  ℕ, suc, ◌-◌, ◌≤◌, ◌≡◌, ◌≢◌, refl, sym, ap, ne→==, ◌∙◌, Bool, Bool-cases, true, false, Option,
  none, some, some_inj, ◌==◌, if◌then◌else◌, if_self, if_other, inl, inr, apart, arith,
}
use mathlib.Core.Path.{subst}
use my_server_project.Lock.{
  got, waits, traps, Pthread, IsPosix, edeadlock, ebusy, mutex_kind, construct, checked, lock,
  unlock, tried, try_lock, mutex, Guards, enter, leave, Step, guards, tries, unguards, Reach, here,
  next,
}

-- `Lock` by its owner: an assertion fails in a debug build, and a release build waits for good.
locks_again :
    {M : Type 0} (P : Pthread M) (law : IsPosix P) (debug : Bool) (m : M) (t : ℕ)
    → P.kind m ≡ mutex_kind P debug
    → P.owner m ≡ some t
    → lock P debug m t ≡ (if debug then traps else waits)
unfolding lock checked
locks_again P law true m t k o = ap (checked P true) (law.lock_checked m t o k)
locks_again P law false m t k o = ap (checked P false) (law.lock_again m t o k)

-- A `Lock` or a `TryLock` that succeeds found the mutex free.
IsTaken : {M : Type 0} → Pthread M → M → ℕ → M → Type 0
IsTaken P m t n = (P.owner m ≡ none) × (P.owner n ≡ some t) × (P.kind n ≡ P.kind m)

not_again : {M : Type 0} (debug : Bool) (n : M) → got n ≢ (if debug then traps else waits)
not_again true n e = ground arith
not_again false n e = ground arith

got_zero :
    {M : Type 0} (P : Pthread M) (debug : Bool) (m : M) → checked P debug (some (0, m)) ≡ got m
unfolding checked
got_zero P true m = refl
got_zero P false m = refl

got_injective : {M : Type 0} {m n : M} → got m ≡ got n → m ≡ n
got_injective e = ground arith

lock-IsTaken :
    {M : Type 0} (P : Pthread M) (law : IsPosix P) (debug : Bool) (m n : M) (t : ℕ) (o : Option ℕ)
    → P.owner m ≡ o
    → P.kind m ≡ mutex_kind P debug
    → lock P debug m t ≡ got n
    → IsTaken P m t n
unfolding lock IsTaken
lock-IsTaken P law debug m n t none e k l =
    let (z, took, own, same) = law.lock_free m t e in
    let is : got n ≡ got z = sym l ∙ ap (checked P debug) took ∙ got_zero P debug z in
    let eq : z ≡ n = got_injective (sym is) in
    subst (λ n. (P.owner m ≡ none) × (P.owner n ≡ some t) × (P.kind n ≡ P.kind m)) eq (e, own, same)
lock-IsTaken P law debug m n t (some u) e k l = elim (Bool-cases (u == t)) [
  | inl same ↦
      let mine : P.owner m ≡ some t = ground arith in
      absurd (not_again debug n (sym l ∙ locks_again P law debug m t k mine))
  | inr other ↦
      let stuck : lock P debug m t ≡ waits =
        ap (checked P debug) (law.lock_other m t u e (λ x. ground arith)) in
      absurd (let e2 = sym l ∙ stuck in ground arith)
]

tried_result :
    {M : Type 0} (P : Pthread M) (debug : Bool) (result : ℕ) (m : M)
    → result ≢ edeadlock
    → tried P debug (result, m) ≡ some (result == 0, m)
unfolding tried
tried_result P true result m ne = rw (ne→== result edeadlock ne)
tried_result P false result m ne = refl

not_got : {M : Type 0} {m n : M} (o : Option (Bool × M)) → o ≡ some (false, m) → o ≢ some (true, n)
not_got o e f = let b : false ≡ true = ap (λ x. x.0) (some_inj (sym e ∙ f)) in ground arith

try_lock-IsTaken :
    {M : Type 0} (P : Pthread M) (law : IsPosix P) (debug : Bool) (m n : M) (t : ℕ) (o : Option ℕ)
    → P.owner m ≡ o
    → try_lock P debug m t ≡ some (true, n)
    → IsTaken P m t n
unfolding try_lock IsTaken
try_lock-IsTaken P law debug m n t none e l =
    let (z, took, own, same) = law.trylock_free m t e in
    let is : some (true, z) ≡ some (true, n) =
      sym (ap (tried P debug) took ∙ tried_result P debug 0 z (omega arith)) ∙ l in
    subst (λ n. (P.owner m ≡ none) × (P.owner n ≡ some t) × (P.kind n ≡ P.kind m))
      (ap (λ o. o.1) (some_inj is)) (e, own, same)
try_lock-IsTaken P law debug m n t (some u) e l = absurd (
    not_got (try_lock P debug m t)
      (ap (tried P debug) (law.trylock_held m t u e) ∙ tried_result P debug ebusy m (omega arith))
      l)

module _ {M : Type 0} (P : Pthread M) (law : IsPosix P) (debug : Bool) where
  -- The thread that is in a guard owns the mutex, and is in one guard of it.
  pub record IsGuarded (g : Guards M) : Type 0 where
    pub kind_is : P.kind g.lock_object ≡ mutex_kind P debug
    pub owned : (t : ℕ) → 1 ≤ g.inside t → P.owner g.lock_object ≡ some t
    pub once : (t : ℕ) → g.inside t ≤ 1

  enters :
      (g : Guards M) (t : ℕ) (m : M)
      → P.owner g.lock_object ≡ none
      → P.owner m ≡ some t
      → P.kind m ≡ P.kind g.lock_object
      → IsGuarded g
      → IsGuarded (enter g t m)
  enters g t m free own same x =
      let nobody : (k : ℕ) → g.inside k ≡ 0 = λ k. elim (Bool-cases (g.inside k == 0)) [
        | inl e ↦ ground arith
        | inr e ↦ absurd (let y = sym free ∙ x.owned k (ground arith) in ground arith)
      ] in
      let h = enter g t m in
      record {
        kind_is = same ∙ x.kind_is;
        owned =
            apart (λ k. 1 ≤ h.inside k → P.owner m ≡ some k) t (λ i. own)
              (λ k other i. absurd (
                let e = if_other k t (suc (g.inside k)) (g.inside k) other ∙ nobody k in
                omega arith));
        once =
            apart (λ k. h.inside k ≤ 1) t
              (let e = if_self t (suc (g.inside t)) (g.inside t) in let z = nobody t in omega arith)
              (λ k other.
                let e = if_other k t (suc (g.inside k)) (g.inside k) other ∙ nobody k in
                omega arith);
      }

  leaves :
      (g : Guards M) (t : ℕ)
      → 1 ≤ g.inside t
      → IsGuarded g
      → IsGuarded (leave g t (unlock P debug g.lock_object t))
  unfolding unlock
  leaves g t i x =
      let own = x.owned t i in
      let (free, same) = law.unlock_own g.lock_object t own in
      let h = leave g t (unlock P debug g.lock_object t) in
      let nobody : (k : ℕ) → h.inside k ≡ 0 =
        apart (λ k. h.inside k ≡ 0) t
          (let e = if_self t (g.inside t - 1) (g.inside t) in let z = x.once t in omega arith)
          (λ k other.
            let e = if_other k t (g.inside k - 1) (g.inside k) other in
            elim (Bool-cases (g.inside k == 0)) [
              | inl z ↦ ground arith
              | inr z ↦
                  let both : some k ≡ some t = sym (x.owned k (ground arith)) ∙ own in
                  absurd (other (some_inj both))
            ]) in
      record {
        kind_is = same ∙ x.kind_is;
        owned = λ k j. absurd (let z = nobody k in omega arith);
        once = λ k. let z = nobody k in omega arith;
      }

  Step-IsGuarded : {g h : Guards M} → Step (mutex P debug) g h → IsGuarded g → IsGuarded h
  unfolding mutex IsTaken
  Step-IsGuarded {g} (guards t l e same) x =
      let (free, own, kind) =
        lock-IsTaken P law debug g.lock_object l t (P.owner g.lock_object) refl x.kind_is e in
      subst IsGuarded (sym same) (enters g t l free own kind x)
  Step-IsGuarded {g} (tries t l e same) x =
      let (free, own, kind) =
        try_lock-IsTaken P law debug g.lock_object l t (P.owner g.lock_object) refl e in
      subst IsGuarded (sym same) (enters g t l free own kind x)
  Step-IsGuarded {g} (unguards t i same) x = subst IsGuarded (sym same) (leaves g t i x)

  -- A new mutex, and nobody in a guard.
  abbrev pub unguarded : Guards M
  unguarded = record { lock_object = construct P debug; inside = λ t. 0 }

  Reach-IsGuarded : {g : Guards M} → Reach (mutex P debug) unguarded g → IsGuarded g
  unfolding construct
  Reach-IsGuarded (here e) = subst IsGuarded (sym e) (record {
    kind_is = (law.init_free (mutex_kind P debug)).1;
    owned = λ t i. absurd (omega arith);
    once = λ t. omega arith;
  })
  Reach-IsGuarded (next r st) = Step-IsGuarded st (Reach-IsGuarded r)

  -- Through any calls of `Lock` by guards, of `TryLock` that succeed, and ends of them, by any threads on a
  -- new `Mutex`, in either build, and for any pthread functions as POSIX describes them: at most one thread
  -- is in a guard, it is in one only, and when it makes another guard of the same mutex, an assertion
  -- fails in a debug build and it waits for good in a release build.
  pub Reach-excludes :
      {g : Guards M}
      → Reach (mutex P debug) unguarded g
      → ((t u : ℕ) → 1 ≤ g.inside t → 1 ≤ g.inside u → t ≡ u)
        × ((t : ℕ) → g.inside t ≤ 1)
        × ((t : ℕ)
            → 1 ≤ g.inside t
            → lock P debug g.lock_object t ≡ (if debug then traps else waits))
  Reach-excludes {g} r =
      let x = Reach-IsGuarded r in
      (
        λ t u i j. some_inj (sym (x.owned t i) ∙ x.owned u j),
        x.once,
        λ t i. locks_again P law debug g.lock_object t x.kind_is (x.owned t i),
      )
