-- ===== src/Thread/Scheduler/Invariant.antt =====
-- What holds of the tables of kern/thread between two calls of the scheduler.
use advanced_synchronization.Base.{ℕ, ◌<◌, ◌≡◌, List, num_ids, In, NotIn}
use advanced_synchronization.Spinlock.{IsFree}
use advanced_synchronization.Thread.Tcb.{Sched, ThreadState, ready, run}
use advanced_synchronization.Thread.Queue.Laws.{HoldsQueue}
use advanced_synchronization.Thread.Queue.Refine.{IsDetached}

abbrev pub state_of : Sched → ℕ → ThreadState
state_of s a = (s.tcb_pool a).state

abbrev pub channel_of : Sched → ℕ → ℕ
channel_of s a = (s.tcb_pool a).channel

abbrev pub current : Sched → ℕ
current s = s.curid s.pcpu_idx

-- The ready queue holds exactly the threads in the state TSTATE_READY, in the order of `xs`.
pub record ReadyQueue (s : Sched) (xs : List ℕ) : Type 0 where
  pub queue : HoldsQueue s num_ids xs
  pub queued : (a : ℕ) → In a xs → state_of s a ≡ ready
  pub ready_in : (a : ℕ) → a < num_ids → state_of s a ≡ ready → In a xs
  pub detached : (a : ℕ) → a < num_ids → NotIn a xs → IsDetached s a

-- Besides, the current thread is the running one, and nobody holds the scheduler's lock.
pub record IsScheduled (s : Sched) (xs : List ℕ) : Type 0 where
  pub ready_queue : ReadyQueue s xs
  pub current_lt : current s < num_ids
  pub current_run : state_of s (current s) ≡ run
  pub lock_free : IsFree s.sched_lk
