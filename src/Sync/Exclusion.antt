-- ===== src/Sync/Exclusion.antt =====
-- Threads that enter by a mutex.
use osext.Common.{
  ℕ, suc, ◌+◌, ◌≤◌, true, false, List, [], ◌∷◌, ◌++◌, length, ◌≡◌, ◌≢◌, refl, ap, ◌∙◌, arith,
  ==_iff, length-append,
}
use osext.Sync.Mutex.{unlock_mutex, try_mutex}

-- The word of the mutex, and the threads that are between `tryMutex` and `unlockMutex`.
pub record Section : Type 0 where
  pub mutex : ℕ
  pub inside : List ℕ

-- A thread tries the mutex, and is inside when that succeeds; a thread that is inside leaves.
pub data Step (s : Section) : Section → Type 0 where
  entered :
      (thread : ℕ)
      → (try_mutex s.mutex).0 ≡ true
      → Step s (record { mutex = (try_mutex s.mutex).1; inside = thread ∷ s.inside })
  refused :
      (thread : ℕ)
      → (try_mutex s.mutex).0 ≡ false
      → Step s (record { mutex = (try_mutex s.mutex).1; inside = s.inside })
  left :
      (before after : List ℕ) (thread : ℕ)
      → s.inside ≡ before ++ (thread ∷ after)
      → Step s (record { mutex = unlock_mutex s.mutex; inside = before ++ after })

pub data Reach (s : Section) : Section → Type 0 where
  start : Reach s s
  next : {s' s'' : Section} → Reach s s' → Step s' s'' → Reach s s''

-- The mutex is 1 with one thread inside, and 0 with none.
abbrev pub Exclusive : Section → Type 0
Exclusive s = (s.mutex ≡ length s.inside) × (s.mutex ≤ 1)

Step-Exclusive : {s s' : Section} → Step s s' → Exclusive s → Exclusive s'
unfolding try_mutex unlock_mutex
Step-Exclusive {s} (entered thread e) x =
    let z : s.mutex ≡ 0 = (==_iff s.mutex 0).0 e in (omega (arith, z, x.0), omega arith)
Step-Exclusive {s} (refused thread e) x =
    let n : s.mutex ≢ 0 = ground (arith, e) in (omega (arith, n, x.0, x.1), omega arith)
Step-Exclusive {s} (left before after thread e) x =
    let n : length s.inside ≡ length before + suc (length after) =
      ap length e ∙ length-append before (thread ∷ after) in
    (omega (arith, n, x.0, x.1, length-append before after), omega arith)

-- From a mutex that is 0 with no thread inside, after any sequence of steps of threads that call
-- unlockMutex only inside, at most one thread is inside, and the mutex is 1 exactly with one inside.
pub Reach-Exclusive : (s : Section) → Reach (record { mutex = 0; inside = [] }) s → Exclusive s
Reach-Exclusive s start = (refl, omega arith)
Reach-Exclusive s (next {s'} r st) = Step-Exclusive st (Reach-Exclusive s' r)
