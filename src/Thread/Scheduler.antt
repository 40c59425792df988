-- ===== src/Thread/Scheduler.antt =====
-- kern/thread/PThread: yield, exit, sleep and wakeup over the ready queue `num_ids`. A call that
-- switches context is cut at the switch: what it does when it is resumed is a function of its own.
pub mod Invariant
pub mod Switch
pub mod Requeue
pub mod Turns
pub mod Sleep
pub mod Wakeup
pub mod Tests
use advanced_synchronization.Base.{
  ℕ, zero, suc, ◌+◌, ◌-◌, ◌/◌, Bool, true, false, none, some, ◌==◌, ltb, if◌then◌else◌, ◌&&◌,
  num_ids, update, u32, M, pure, stop, ◌>>=◌, ◌>>◌,
}
use advanced_synchronization.Spinlock
use advanced_synchronization.Spinlock.{Spinlock}
use advanced_synchronization.Thread.Tcb.{
  Sched, ThreadState, ready, run, sleep, tcb_get_state, tcb_set_state, tcb_get_chan, tcb_set_chan,
  get_curid, set_curid,
}
use advanced_synchronization.Thread.Queue.{tqueue_enqueue, tqueue_dequeue}

abbrev pub sched_slice : ℕ
sched_slice = 5

abbrev pub lapic_timer_intr_freq : ℕ
lapic_timer_intr_freq = 1000

unfoldable pub acquire_sched : M Sched (Unit {0})
acquire_sched s = elim (Spinlock.spinlock_acquire s.pcpu_idx s.sched_lk) [
  | none ↦ none
  | some lk ↦ some (tt, record s { sched_lk = lk })
]

unfoldable pub release_sched : M Sched (Unit {0})
release_sched s = some (tt, record s { sched_lk = Spinlock.spinlock_release s.sched_lk })

-- What `thread_yield`, `thread_exit` and `thread_sleep` do with the thread that they took from the
-- ready queue, up to the switch.
unfoldable pub run_next : ℕ → M Sched (Unit {0})
unfolding release_sched Spinlock.spinlock_release tcb_set_state set_curid
run_next new_cur_pid = do tcb_set_state new_cur_pid run; set_curid new_cur_pid; release_sched

unfoldable pub thread_yield : M Sched (Unit {0})
unfolding acquire_sched Spinlock.spinlock_acquire tcb_set_state get_curid
thread_yield = do
  acquire_sched
  old_cur_pid ← get_curid
  tcb_set_state old_cur_pid ready
  tqueue_enqueue num_ids old_cur_pid
  new_cur_pid ← tqueue_dequeue num_ids
  run_next new_cur_pid

unfoldable pub thread_exit : M Sched (Unit {0})
unfolding acquire_sched Spinlock.spinlock_acquire
thread_exit = do
  acquire_sched
  new_cur_pid ← tqueue_dequeue num_ids
  if new_cur_pid == num_ids then stop else run_next new_cur_pid

abbrev pub add_ticks : M Sched (Unit {0})
add_ticks s = some (
  tt,
  record s {
    sched_ticks =
        update s.sched_ticks s.pcpu_idx
          (u32 (s.sched_ticks s.pcpu_idx + 1000 / lapic_timer_intr_freq));
  },
)

abbrev pub slice_over : M Sched Bool
slice_over s = some (ltb sched_slice (s.sched_ticks s.pcpu_idx), s)

abbrev pub reset_ticks : M Sched (Unit {0})
reset_ticks s = some (tt, record s { sched_ticks = update s.sched_ticks s.pcpu_idx 0 })

unfoldable pub sched_update : M Sched (Unit {0})
unfolding acquire_sched release_sched Spinlock.spinlock_acquire Spinlock.spinlock_release
sched_update = do
  acquire_sched
  add_ticks
  expired ← slice_over
  if expired then (do reset_ticks; release_sched; thread_yield) else release_sched

-- `thread_sleep` up to the switch. The caller's lock `lk` is released once the scheduler's is held.
unfoldable pub thread_sleep : ℕ → Spinlock → M Sched Spinlock
unfolding acquire_sched Spinlock.spinlock_acquire Spinlock.spinlock_release tcb_set_state
    tcb_set_chan get_curid
thread_sleep chan lk = do
  curid ← get_curid
  acquire_sched
  let lk' = Spinlock.spinlock_release lk
  tcb_set_state curid sleep
  tcb_set_chan curid chan
  new_cur_pid ← tqueue_dequeue num_ids
  run_next new_cur_pid
  pure lk'

-- `thread_sleep` from the switch on, when the thread `curid` runs again: its lock is taken back.
unfoldable pub thread_sleep_resumed : ℕ → Spinlock → M Sched Spinlock
unfolding acquire_sched release_sched Spinlock.spinlock_acquire Spinlock.spinlock_release
    tcb_set_chan
thread_sleep_resumed curid lk = do
  acquire_sched
  tcb_set_chan curid 0
  release_sched
  λ s. elim (Spinlock.spinlock_acquire s.pcpu_idx lk) [ none ↦ none | some lk' ↦ some (lk', s) ]

unfoldable pub is_asleep : ThreadState → Bool
is_asleep sleep = true
is_asleep _ = false

-- The body of the loop of `thread_wakeup`.
unfoldable pub wake_one : ℕ → ℕ → M Sched (Unit {0})
unfolding tcb_get_chan tcb_get_state tcb_set_state tcb_set_chan is_asleep
wake_one chan pid = do
  c ← tcb_get_chan pid
  st ← tcb_get_state pid
  if (c == chan) && is_asleep st
      then (do tcb_set_state pid ready; tcb_set_chan pid 0; tqueue_enqueue num_ids pid)
      else pure tt

-- for (pid = ...; ...; ++pid), by the rounds left.
unfoldable pub wake_from : ℕ → ℕ → ℕ → M Sched (Unit {0})
wake_from zero chan pid = pure tt
wake_from (suc n) chan pid = wake_one chan pid >> wake_from n chan (pid + 1)

unfoldable pub thread_wakeup : ℕ → M Sched (Unit {0})
unfolding acquire_sched release_sched Spinlock.spinlock_acquire Spinlock.spinlock_release
thread_wakeup chan = do acquire_sched; wake_from (num_ids - 1) chan 1; release_sched
