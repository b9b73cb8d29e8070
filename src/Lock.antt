-- ===== src/Lock.antt =====
-- The `switch` over a `ThreadPolicy` that the allocators open and close their methods by, for a
-- thread that is alone: src/PoolAllocator.h and src/FreeListAllocator.h.
use memory_allocators.Base.{Bool, true, false, Outcome, ok, blocked}
use memory_allocators.Interface.{ThreadPolicy, enable_spin_lock}

-- The lock's flag after `m_spinlock.lock()` under the policy. A flag that this thread has left set is
-- never cleared: `lock` spins for ever.
abbrev pub enter : ThreadPolicy → Bool → Outcome Bool
enter ThreadPolicy.none flag = ok flag
enter enable_spin_lock true = blocked
enter enable_spin_lock false = ok true

-- `m_spinlock.unlock()`
abbrev pub leave : ThreadPolicy → Bool → Bool
leave ThreadPolicy.none flag = flag
leave enable_spin_lock flag = false
