-- ===== src/Waitobj/Resume.antt =====
-- `waitobj_wait` from the switch on, when the thread that slept runs again.
use advanced_synchronization.Base.{
  ℕ, ◌<◌, ◌≤◌, ◌≡◌, refl, none, some, List, Bool, true, update, arith, pos, negsuc, num_ids,
  Returns,
}
use advanced_synchronization.Spinlock.{IsFree}
use advanced_synchronization.Thread.Tcb.{Sched}
use advanced_synchronization.Thread.Scheduler.{thread_sleep_resumed}
use advanced_synchronization.Thread.Scheduler.Invariant.{state_of, channel_of, current}
use advanced_synchronization.Waitobj.State.{Kernel}
use advanced_synchronization.Waitobj.Chain.{first_ready}
use advanced_synchronization.Waitobj.Delivery.{HasSources, pass_delivers, pass_times_out}
use advanced_synchronization.Waitobj.Wait.{returned, wait_pass, waitobj_wait_resumed}

-- The tables once the thread `pid` is back from the switch: on no channel, nobody in the scheduler.
abbrev rejoined : Sched → ℕ → Sched
rejoined s pid =
    record (record s {
      tcb_pool = update s.tcb_pool pid (record (s.tcb_pool pid) { channel = 0 });
    }) { sched_lk = record { lock_holder = 9; lock = 0 } }

-- The kernel with the thread `pid` back and the lock of `w` taken.
abbrev back : Kernel → ℕ → ℕ → Kernel
back k pid w = record (record k { sched = rejoined k.sched pid }) {
  wobjs =
      update k.wobjs w
        (record (k.wobjs w) { lk = record { lock_holder = k.sched.pcpu_idx; lock = 1 } });
}

-- The thread `pid` of the list `xs` on `w` can go on: its locks are free.
pub record CanResume (k : Kernel) (pid w : ℕ) (xs : List ℕ) : Type 0 where
  pub sources : HasSources k w xs
  pub pid_lt : pid < num_ids
  pub sched_free : IsFree k.sched.sched_lk
  pub object_free : IsFree (k.wobjs w).lk

-- What every return of a resumed wait leaves.
pub record Rejoined (k k' : Kernel) (pid w : ℕ) : Type 0 where
  pub off_channel : channel_of k'.sched pid ≡ 0
  pub same_state : state_of k'.sched pid ≡ state_of k.sched pid
  pub same_current : current k'.sched ≡ current k.sched
  pub sched_free : IsFree k'.sched.sched_lk
  pub object_free : IsFree (k'.wobjs w).lk
  pub same_ticks : k'.waitobj_ticks ≡ k.waitobj_ticks

module _ (k : Kernel) (pid w : ℕ) (xs : List ℕ) (i : CanResume k pid w xs) where
  sleep_resumed-eq :
      thread_sleep_resumed pid (k.wobjs w).lk k.sched
      ≡ some (record { lock_holder = k.sched.pcpu_idx; lock = 1 }, rejoined k.sched pid)
  unfolding thread_sleep_resumed
  sleep_resumed-eq = ground (arith, i.pid_lt, i.sched_free, i.object_free)

  resumed-eq :
      (use_timeout : Bool) (deadline : ℕ)
      → waitobj_wait_resumed pid w use_timeout deadline k
        ≡ wait_pass w use_timeout deadline (back k pid w)
  unfolding waitobj_wait_resumed
  resumed-eq t d = ground (arith, sleep_resumed-eq, i.sources.object_lt)

  back_sources : HasSources (back k pid w) w xs
  back_sources = record {
    object_lt = i.sources.object_lt;
    chain = ground (arith, i.sources.chain);
    distinct = i.sources.distinct;
    parents = i.sources.parents;
  }

  -- A thread that sleeps in `waitobj_wait` with a timeout, and runs again when its deadline is not
  -- ahead of the ticks, no source of its object is ready, and the locks of the object and the
  -- scheduler are free, returns -1 and stores -1; it is on no channel, the locks are free, and no
  -- source has changed.
  pub resumed_times_out :
      (deadline : ℕ)
      → first_ready k.esrc xs ≡ none
      → deadline ≤ k.waitobj_ticks
      → Returns
          (λ r k'.
            (r ≡ returned (negsuc 0) (some (negsuc 0)))
            × Rejoined k k' pid w
            × ((a : ℕ) → k'.esrc a ≡ k.esrc a))
          (waitobj_wait_resumed pid w true deadline k)
  resumed_times_out d f late =
      rw (resumed-eq true d, pass_times_out (back k pid w) w xs back_sources d f late)
        (
          refl,
          record {
            off_channel = ground arith;
            same_state = ground arith;
            same_current = refl;
            sched_free = refl;
            object_free = ground arith;
            same_ticks = refl;
          },
          λ a. refl,
        )

  -- A thread that sleeps in `waitobj_wait` and runs again when a source of its object is ready,
  -- and the locks of the object and the scheduler are free, returns 0 and stores the id of the
  -- first ready source of the list, whatever its deadline is; it is on no channel and the locks
  -- are free.
  pub resumed_delivers :
      (s : ℕ) (use_timeout : Bool) (deadline : ℕ)
      → first_ready k.esrc xs ≡ some s
      → Returns
          (λ r k'. (r ≡ returned (pos 0) (some (pos (k.esrc s).id))) × Rejoined k k' pid w)
          (waitobj_wait_resumed pid w use_timeout deadline k)
  resumed_delivers s t d f =
      rw (resumed-eq t d, pass_delivers (back k pid w) w xs back_sources s t d f)
        (
          refl,
          record {
            off_channel = ground arith;
            same_state = ground arith;
            same_current = refl;
            sched_free = refl;
            object_free = ground arith;
            same_ticks = refl;
          },
        )
