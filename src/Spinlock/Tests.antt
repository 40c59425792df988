-- ===== src/Spinlock/Tests.antt =====
-- The theorems on the spin lock with two processors: 0 is in its critical section, and 1 spins.
use advanced_synchronization.Base.{ℕ, ◌<◌, ◌≡◌, ◌↔◌, refl, true, false, num_cpus, arith}
use advanced_synchronization.Spinlock.{spinlock_holding, spinlock_init, xchg}
use advanced_synchronization.Spinlock.Processors.{
  critical, owns, after_xchg, System, call, try, note, Reach, here, next,
}
use advanced_synchronization.Spinlock.Exclusion.{mutual_exclusion, holding_is_critical}

-- Both call, both try, and the first notes that it holds the lock.
contended : (s : System) × Reach s
unfolding after_xchg xchg spinlock_init
contended = (
  _,
  next
      (next
        (next (next (next here (call 0 (omega arith) refl)) (call 1 (omega arith) refl))
          (try 0 refl))
        (try 1 refl))
      (note 0 refl),
)

mutual_exclusion_example : ◌≡◌ {A = ℕ} 0 0
unfolding contended after_xchg xchg spinlock_init owns
mutual_exclusion_example = mutual_exclusion contended.1 0 0 refl refl

holding_is_critical_example :
    ((i : ℕ)
      → i < num_cpus
      → (spinlock_holding i contended.0.lk ≡ true) ↔ (contended.0.pc i ≡ critical))
    × (((i : ℕ) → owns (contended.0.pc i) ≡ false) → contended.0.lk.lock ≡ 0)
holding_is_critical_example = holding_is_critical contended.1
