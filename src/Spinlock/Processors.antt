-- ===== src/Spinlock/Processors.antt =====
-- kern/lib/spinlock.c on several processors: `spinlock_acquire_A` and `spinlock_release_A` as the
-- steps between their accesses to the lock, interleaved in any order.
use advanced_synchronization.Base.{
  ℕ, ◌+◌, ◌<◌, ◌≡◌, Bool, true, false, ◌==◌, if◌then◌else◌, update, num_cpus,
}
use advanced_synchronization.Spinlock.{Spinlock, xchg, spinlock_init}

-- Where a processor is: outside, at the `xchg` of the loop, past it and before `lock_holder` is set,
-- between acquire and release, and past the reset of `lock_holder` in the release.
pub data Pc : Type 0 where
  outside spinning taken critical leaving : Pc

-- Has this processor found 0 in the lock word, and not put it back yet?
unfoldable pub owns : Pc → Bool
owns taken = true
owns critical = true
owns leaving = true
owns _ = false

-- The test of the loop on the value that `xchg` found.
unfoldable pub after_xchg : ℕ → Pc
after_xchg old = if old == 0 then taken else spinning

pub record System : Type 0 where
  pub lk : Spinlock
  pub pc : ℕ → Pc

abbrev at : System → ℕ → Pc → Spinlock → System
at s cpu p lk = record { lk = lk; pc = update s.pc cpu p }

pub data Move (s : System) : System → Type 0 where
  call : (cpu : ℕ) → cpu < num_cpus → s.pc cpu ≡ outside → Move s (at s cpu spinning s.lk)
  try :
      (cpu : ℕ)
      → s.pc cpu ≡ spinning
      → Move s (at s cpu (after_xchg (xchg s.lk 1).0) (xchg s.lk 1).1)
  note :
      (cpu : ℕ) → s.pc cpu ≡ taken → Move s (at s cpu critical (record s.lk { lock_holder = cpu }))
  reset :
      (cpu : ℕ)
      → s.pc cpu ≡ critical
      → Move s (at s cpu leaving (record s.lk { lock_holder = num_cpus + 1 }))
  free : (cpu : ℕ) → s.pc cpu ≡ leaving → Move s (at s cpu outside (xchg s.lk 0).1)

abbrev pub start : System
unfolding spinlock_init
start = record { lk = spinlock_init; pc = λ _. outside }

pub data Reach : System → Type 0 where
  here : Reach start
  next : {s t : System} → Reach s → Move s t → Reach t
