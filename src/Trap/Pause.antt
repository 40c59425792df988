-- ===== src/Trap/Pause.antt =====
-- What `sys_kill` and `sys_pause` do to the ready queue.
use advanced_synchronization.Base.{ℕ, ◌<◌, ◌≡◌, ◌≢◌, num_ids, update, pos, Returns, arith, List, []}
use advanced_synchronization.Thread.Tcb.{Sched, sleep, dead}
use advanced_synchronization.Thread.Queue.{tqueue_remove}
use advanced_synchronization.Thread.Queue.Laws.{HoldsQueue}
use advanced_synchronization.Thread.Queue.Refine.{IsDetached}
use advanced_synchronization.Thread.Scheduler.Invariant.{state_of, current, IsScheduled}
use advanced_synchronization.Trap.Frame.{Regs, syscall_set_errno, e_succ}
use advanced_synchronization.Trap.Signal.{
  sigkill, is_dead, terminate_process, tcb_set_pending_signals, kill_process,
}

-- The tables with the thread `c` put to sleep.
abbrev dozing : Sched → ℕ → Sched
dozing s c = record s { tcb_pool = update s.tcb_pool c (record (s.tcb_pool c) { state = sleep }) }

module _ (s : Sched) (xs : List ℕ) (i : IsScheduled s xs) where
  abbrev c : ℕ
  c = current s

-- A SIGKILL for a thread that is in no queue, as a sleeping or a running one is, and not dead: the
-- call returns with no error, the thread is dead, and the ready queue is empty, whatever it held.
pub sigkill_empties :
    (s : Sched) (pid : ℕ) (tf : Regs)
    → pid < num_ids
    → state_of s pid ≢ dead
    → IsDetached s pid
    → Returns
        (λ r s'.
          (r ≡ syscall_set_errno e_succ tf) × (state_of s' pid ≡ dead) × HoldsQueue s' num_ids [])
        (kill_process (pos pid) sigkill tf s)
unfolding kill_process terminate_process tqueue_remove is_dead tcb_set_pending_signals
sigkill_empties s pid tf h ne d = ground (arith, d.prev_null, d.next_null)
