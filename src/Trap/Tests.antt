-- ===== src/Trap/Tests.antt =====
-- The theorems on system calls and signals at small tables.
use advanced_synchronization.Base.{
  ltb, true, false, ℕ, ◌≡◌, ◌≢◌, refl, some, arith, pos, [], ◌∷◌, num_ids, Returns,
}
use advanced_synchronization.Thread.Tcb.{dead, sleep}
use advanced_synchronization.Thread.Queue.Laws.{HoldsQueue}
use advanced_synchronization.Thread.Scheduler.Invariant.{state_of}
use advanced_synchronization.Thread.Scheduler.Tests.{tables, tables-IsScheduled}
use advanced_synchronization.Waitobj.Chain.{first_ready}
use advanced_synchronization.Waitobj.Outcomes.{DeliveredTo}
use advanced_synchronization.Waitobj.Tests.{kernel, kernel-IsOwned}
use advanced_synchronization.Trap.Frame.{Regs, to_int, syscall_get_arg2, syscall_set_errno, e_succ}
use advanced_synchronization.Trap.Signal.{sigkill, kill_process}
use advanced_synchronization.Trap.Pause.{sigkill_empties}
use advanced_synchronization.Trap.Interrupt.{timer_intr_handler}
use advanced_synchronization.Trap.Interrupt.Timer.{
  Deferred, next_ticks, ticked, timer_intr_branches,
}
use advanced_synchronization.Thread.Scheduler.{sched_slice}
use advanced_synchronization.Waitobj.Firing.{AfterTick}
use advanced_synchronization.Trap.Calls.{sys_waitobj_wait}
use advanced_synchronization.Trap.Outcomes.{wait_call_delivers}

-- A call on the object `wid` with the type 1 and the period 30.
abbrev frame : ℕ → Regs
frame wid = record { edi = 0; esi = 0; ebp = 0; oesp = 0; ebx = wid; edx = 30; ecx = 1; eax = 30 }

asleep : sleep ≢ dead
asleep e = cc

sigkill_empties_example :
    Returns
      (λ r s'.
        (r ≡ syscall_set_errno e_succ (frame 3))
        × (state_of s' 3 ≡ dead)
        × HoldsQueue s' num_ids [])
      (kill_process (pos 3) sigkill (frame 3) tables)
sigkill_empties_example =
    sigkill_empties tables 3 (frame 3) (omega arith) asleep
      (record { prev_null = refl; next_null = refl })

wait_call_delivers_example :
    Returns
      (λ r k'.
        (r ≡ some (record (frame 2) { eax = 0; ebx = 2 }))
        × DeliveredTo (kernel 70 1) 0 2 (2 ∷ 1 ∷ 0 ∷ []) (kernel-IsOwned 70 1) 1 k')
      (sys_waitobj_wait (frame 2) (kernel 70 1))
unfolding first_ready to_int syscall_get_arg2
wait_call_delivers_example =
    wait_call_delivers (kernel 70 1) (frame 2) 2 (2 ∷ 1 ∷ 0 ∷ []) (kernel-IsOwned 70 1) refl 1 refl

timer_intr_branches_example :
    (ltb sched_slice (next_ticks tables) ≡ true
      → Returns
          (λ b k'. (b ≡ false) × Deferred (kernel 70 1) k' 1 (2 ∷ []))
          (timer_intr_handler (kernel 70 1)))
    × (ltb sched_slice (next_ticks tables) ≡ false
        → Returns
            (λ b k'. (b ≡ true) × AfterTick (record (kernel 70 1) { sched = ticked tables }) k')
            (timer_intr_handler (kernel 70 1)))
timer_intr_branches_example = timer_intr_branches (kernel 70 1) 1 (2 ∷ []) tables-IsScheduled
