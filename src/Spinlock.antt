-- ===== src/Spinlock.antt =====
-- kern/lib/spinlock.c: the lock word and its holder, without DEBUG_DEADLOCK and DEBUG_LOCKHOLDING.
-- An acquire of a lock that is taken spins: on one processor, with no other step in between, it does
-- not return.
pub mod Processors
pub mod Exclusion
mod Tests
use advanced_synchronization.Base.{
  ℕ, ◌+◌, ◌≡◌, Bool, false, Option, none, some, ◌==◌, if◌then◌else◌, num_cpus,
}

pub record Spinlock : Type 0 where
  pub lock_holder : ℕ
  pub lock : ℕ

-- `xchg(&lk->lock, v)`: what was in the lock word, and the lock after it.
unfoldable pub xchg : Spinlock → ℕ → ℕ × Spinlock
xchg lk newval = (lk.lock, record lk { lock = newval })

unfoldable pub spinlock_init : Spinlock
spinlock_init = record { lock_holder = num_cpus + 1; lock = 0 }

-- `cpu` is the index found at the bottom of the running kernel stack.
unfoldable pub spinlock_holding : ℕ → Spinlock → Bool
spinlock_holding cpu lk = if lk.lock == 0 then false else lk.lock_holder == cpu

unfoldable pub spinlock_acquire : ℕ → Spinlock → Option Spinlock
spinlock_acquire cpu lk =
    if lk.lock == 0 then some (record { lock_holder = cpu; lock = 1 }) else none

-- The value that `xchg` found in the lock word, and the lock after the call.
unfoldable pub spinlock_try_acquire : ℕ → Spinlock → ℕ × Spinlock
spinlock_try_acquire cpu lk =
    if lk.lock == 0
    then (0, record { lock_holder = cpu; lock = 1 })
    else (lk.lock, record lk { lock = 1 })

unfoldable pub spinlock_release : Spinlock → Spinlock
spinlock_release lk = record { lock_holder = num_cpus + 1; lock = 0 }

abbrev pub IsFree : Spinlock → Type 0
IsFree lk = lk.lock ≡ 0
