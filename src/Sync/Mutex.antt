-- ===== src/Sync/Mutex.antt =====
-- kernel/libk/mutex.c. The word of the mutex is the state.
use osext.Common.{ℕ, Bool, ◌==◌}

unfoldable pub unlock_mutex : (mutex : ℕ) → ℕ
unlock_mutex mutex = 0

-- The instruction `swp` exchanges the word for 1 in one step. The result, and the word after.
unfoldable pub try_mutex : (mutex : ℕ) → Bool × ℕ
try_mutex mutex = (mutex == 0, 1)
