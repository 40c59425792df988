-- ===== src/Fs/Inode/Locking.antt =====
-- The lock of an inode, I_BUSY: who finds it taken sleeps, and who gives it back wakes the sleepers.
use advanced_synchronization.Base.{
  ℕ, ◌<◌, ◌≡◌, ◌≢◌, refl, ap, ◌∙◌, true, Option, none, some, List, ◌∷◌, update, lt→ltb, arith,
  Returns, Returns-bind, ◌>>=◌, ◌>>◌,
}
use advanced_synchronization.Bits.{test_bit, clear_bit}
use advanced_synchronization.Spinlock
use advanced_synchronization.Spinlock.{Spinlock, IsFree}
use advanced_synchronization.Thread.Tcb.{Sched}
use advanced_synchronization.Thread.Scheduler.{thread_sleep, thread_wakeup}
use advanced_synchronization.Thread.Scheduler.Invariant.{current, IsScheduled}
use advanced_synchronization.Thread.Scheduler.Sleep.{Slept, sleep_switches}
use advanced_synchronization.Thread.Scheduler.Wakeup.{WokeAll, wakeup_wakes_all}
use advanced_synchronization.Fs.Inode.{
  ninode, i_busy, Files, Outcome, asleep, is_positive, inode_chan, lock_pass, inode_lock,
  inode_unlock, slept, woken_in, release_cache,
}

slept-Returns :
    (k : Files) (P : Spinlock → Sched → Type 0) (Q : Outcome (Unit {0}) → Files → Type 0)
    (o : Option (Spinlock × Sched))
    → Returns P o
    → ((lk : Spinlock) (s : Sched)
        → P lk s
        → Q asleep (record k { cache_lock = lk; vol = record k.vol { sched = s } }))
    → Returns Q (slept k o)
slept-Returns k P Q none r q = r
slept-Returns k P Q (some (lk, s)) r q = q lk s r

woken-Returns :
    (k : Files) (P : Unit {0} → Sched → Type 0) (Q : Unit {0} → Files → Type 0)
    (o : Option (Unit {0} × Sched))
    → Returns P o
    → ((s : Sched) → P tt s → Q tt (record k { vol = record k.vol { sched = s } }))
    → Returns Q (woken_in k o)
woken-Returns k P Q none r q = r
woken-Returns k P Q (some (tt, s)) r q = q s r

abbrev held : Files → Files
held k = record k { cache_lock = record { lock_holder = k.vol.sched.pcpu_idx; lock = 1 } }

lock-busy :
    (k : Files) (i : ℕ)
    → i < ninode
    → is_positive (k.inodes i).ref ≡ true
    → test_bit (k.inodes i).flags i_busy ≡ true
    → IsFree k.cache_lock
    → inode_lock i k
      ≡ slept (held k) (thread_sleep (inode_chan k i) (held k).cache_lock k.vol.sched)
unfolding inode_lock lock_pass Spinlock.spinlock_acquire
lock-busy k i l r b free =
    rw (◌>>◌, ◌>>=◌, lt→ltb i ninode l, r, free, ◌>>◌, ◌>>=◌, lt→ltb i ninode l, b) refl

-- On an inode that is busy, with a free lock of the cache and another thread ready, `inode_lock` gets
-- to the switch: the caller sleeps on the address of the entry, the first ready thread runs, the lock
-- of the cache is free, and the cache is as before.
pub lock_waits :
    (k : Files) (i y : ℕ) (ys : List ℕ)
    → i < ninode
    → is_positive (k.inodes i).ref ≡ true
    → test_bit (k.inodes i).flags i_busy ≡ true
    → IsFree k.cache_lock
    → IsScheduled k.vol.sched (y ∷ ys)
    → Returns
        (λ r k'.
          (r ≡ asleep)
          × Slept k'.vol.sched (current k.vol.sched) (inode_chan k i) k'.cache_lock y ys
          × (k'.inodes ≡ k.inodes))
        (inode_lock i k)
lock_waits k i y ys l r b free sch = rw (lock-busy k i l r b free) (
    slept-Returns (held k) (λ lk s. Slept s (current k.vol.sched) (inode_chan k i) lk y ys)
      (λ r k'.
        (r ≡ asleep)
        × Slept k'.vol.sched (current k.vol.sched) (inode_chan k i) k'.cache_lock y ys
        × (k'.inodes ≡ k.inodes))
      (thread_sleep (inode_chan k i) (held k).cache_lock k.vol.sched)
      (sleep_switches k.vol.sched y ys sch (inode_chan k i) (held k).cache_lock)
      (λ lk s q. (refl, q, refl)))

-- After `inode_unlock`.
pub record Unlocked (k k' : Files) (i : ℕ) (xs : List ℕ) : Type 0 where
  pub woken : WokeAll k.vol.sched k'.vol.sched (inode_chan k i) xs
  pub this_inode : k'.inodes i ≡ record (k.inodes i) { flags = clear_bit (k.inodes i).flags i_busy }
  pub others : (j : ℕ) → j ≢ i → k'.inodes j ≡ k.inodes j
  pub unlocked : IsFree k'.cache_lock

freed : Files → ℕ → Files
freed k i = record (held k) {
  inodes = update k.inodes i (record (k.inodes i) { flags = clear_bit (k.inodes i).flags i_busy });
}

unlock-eq :
    (k : Files) (i : ℕ)
    → i < ninode
    → is_positive (k.inodes i).ref ≡ true
    → test_bit (k.inodes i).flags i_busy ≡ true
    → IsFree k.cache_lock
    → inode_unlock i k
      ≡ ((λ k1. woken_in k1 (thread_wakeup (inode_chan k i) k1.vol.sched)) >> release_cache)
          (freed k i)
unfolding inode_unlock Spinlock.spinlock_acquire freed
unlock-eq k i l r b free =
    rw (◌>>◌, ◌>>=◌, lt→ltb i ninode l, b, r, free, ◌>>◌, ◌>>=◌, lt→ltb i ninode l) refl

-- On an inode that is busy, with a free lock of the cache and scheduled tables, `inode_unlock` returns:
-- the inode is no longer busy, all threads from 1 on that slept on the address of its entry wait to
-- run, behind those that did before, and no other inode changed.
pub unlock_wakes :
    (k : Files) (i : ℕ) (xs : List ℕ)
    → i < ninode
    → is_positive (k.inodes i).ref ≡ true
    → test_bit (k.inodes i).flags i_busy ≡ true
    → IsFree k.cache_lock
    → IsScheduled k.vol.sched xs
    → Returns (λ _ k'. Unlocked k k' i xs) (inode_unlock i k)
unfolding freed Spinlock.spinlock_release
unlock_wakes k i xs l r b free sch = rw (unlock-eq k i l r b free) (
    Returns-bind
      (λ _ k1.
        (k1.inodes ≡ (freed k i).inodes) × WokeAll k.vol.sched k1.vol.sched (inode_chan k i) xs)
      (λ _ k'. Unlocked k k' i xs) (λ k1. woken_in k1 (thread_wakeup (inode_chan k i) k1.vol.sched))
      (λ _. release_cache) (freed k i)
      (woken-Returns (freed k i) (λ _ s. WokeAll k.vol.sched s (inode_chan k i) xs)
        (λ _ k1.
          (k1.inodes ≡ (freed k i).inodes) × WokeAll k.vol.sched k1.vol.sched (inode_chan k i) xs)
        (thread_wakeup (inode_chan k i) k.vol.sched)
        (wakeup_wakes_all k.vol.sched (inode_chan k i) xs sch) (λ s q. (refl, q)))
      (λ _ k1 q. record {
        woken = q.1;
        this_inode = ap (λ f. f i) q.0 ∙ ground arith;
        others = λ j ne. ap (λ f. f j) q.0 ∙ ground (arith, ne);
        unlocked = refl;
      }))
