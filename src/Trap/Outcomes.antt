-- ===== src/Trap/Outcomes.antt =====
-- The system calls on wait objects: the registers that each outcome leaves.
use advanced_synchronization.Base.{
  ℕ, ◌+◌, ◌≡◌, refl, ◌∙◌, Option, none, some, M, pure, ◌>>=◌, ℤ, pos, negsuc, List, Returns,
  Returns-bind,
}
use advanced_synchronization.Thread.Tcb.{get_curid}
use advanced_synchronization.Thread.Scheduler.Invariant.{current}
use advanced_synchronization.Trap.Frame.{
  Regs, syscall_get_arg2, syscall_get_arg3, syscall_get_arg4, syscall_set_errno,
  syscall_set_retval1, to_int, to_word, e_succ, e_inval_id,
}
use advanced_synchronization.Trap.Calls.{
  finish, minus_one, wait_finish, sys_waitobj_add, sys_waitobj_wait,
}
use advanced_synchronization.Waitobj.State.{Kernel, max_event_sources}
use advanced_synchronization.Waitobj.Pool.{free_source_from, waitobj_add}
use advanced_synchronization.Waitobj.Chain.{first_ready}
use advanced_synchronization.Waitobj.Wait.{WaitResult, returned, blocked, waitobj_wait}
use advanced_synchronization.Waitobj.Outcomes.{IsOwned, DeliveredTo, wait_delivers}
use advanced_synchronization.Waitobj.Adding.{AddedTo, add_extends, IsRefused, refused_calls}

module _ (k : Kernel) (tf : Regs) where
  abbrev caller : ℕ
  caller = current k.sched

  abbrev wid_arg : ℤ
  wid_arg = to_int (syscall_get_arg2 tf)

  abbrev add_end : ℤ → M Kernel Regs
  add_end sid = elim sid [
    | negsuc _ ↦ pure (finish e_inval_id minus_one tf)
    | pos n ↦ pure (finish e_succ n tf)
  ]

  abbrev wait_end : WaitResult → M Kernel (Option Regs)
  wait_end r = elim r [ blocked ↦ pure none | returned rc out_sid ↦ wait_finish rc out_sid tf ]

  add_call-eq :
      sys_waitobj_add tf k
      ≡ (waitobj_add caller wid_arg (syscall_get_arg3 tf) (syscall_get_arg4 tf) >>= add_end) k
  unfolding sys_waitobj_add get_curid
  add_call-eq = refl

  wait_call-eq :
      sys_waitobj_wait tf k ≡ (waitobj_wait caller wid_arg (syscall_get_arg3 tf) >>= wait_end) k
  unfolding sys_waitobj_wait get_curid
  wait_call-eq = refl

  module _ (w : ℕ) (xs : List ℕ) (o : IsOwned k caller w xs) (a : wid_arg ≡ pos w) where
    -- On an object that is in use, belongs to the caller and is not locked, with the free entry
    -- `i` found first: `sys_waitobj_add` returns no error and the id `i + 1`, and the source is
    -- added to the object with the type and the period of the registers.
    pub add_call_succeeds :
        (i : ℕ)
        → free_source_from k.esrc max_event_sources 0 ≡ some i
        → Returns
            (λ tf' k'.
              (tf' ≡ finish e_succ (i + 1) tf)
              × AddedTo k caller w xs o (syscall_get_arg3 tf) (syscall_get_arg4 tf) i k')
            (sys_waitobj_add tf k)
    add_call_succeeds i f =
        rw (add_call-eq, a)
          (Returns-bind _ _ (waitobj_add caller (pos w) (syscall_get_arg3 tf) (syscall_get_arg4 tf))
            add_end k (add_extends k caller w xs o (syscall_get_arg3 tf) (syscall_get_arg4 tf) i f)
            (λ r k' q. rw (q.0) (refl, q.1)))

    -- On an object that is in use, belongs to the caller and is not locked, with `s` the first
    -- ready source of its list: `sys_waitobj_wait` returns with E_SUCC, which is 0, in `eax` and
    -- the id of `s` in `ebx`, the other registers as they were, and `s` is delivered as by
    -- `waitobj_wait`.
    pub wait_call_delivers :
        (s : ℕ)
        → first_ready k.esrc xs ≡ some s
        → Returns
            (λ r k'.
              (r ≡ some (record tf { eax = 0; ebx = (k.esrc s).id }))
              × DeliveredTo k caller w xs o s k')
            (sys_waitobj_wait tf k)
    unfolding wait_finish to_word syscall_set_errno syscall_set_retval1
    wait_call_delivers s f =
        rw (wait_call-eq, a)
          (Returns-bind _ _ (waitobj_wait caller (pos w) (syscall_get_arg3 tf)) wait_end k
            (wait_delivers k caller w xs o s (syscall_get_arg3 tf) f)
            (λ r k' q. rw (q.0) (refl, q.1)))

  -- When the register names no object in use of the caller, `sys_waitobj_add` and
  -- `sys_waitobj_wait` return the error E_INVAL_ID and -1 as a word, and change nothing.
  pub calls_refuse :
      IsRefused k caller wid_arg
      → (sys_waitobj_add tf k ≡ some (finish e_inval_id minus_one tf, k))
        × (sys_waitobj_wait tf k ≡ some (some (finish e_inval_id minus_one tf), k))
  unfolding wait_finish
  calls_refuse r =
      let q =
        refused_calls k caller (syscall_get_arg3 tf) (syscall_get_arg4 tf) (syscall_get_arg3 tf)
          wid_arg r in
      (add_call-eq ∙ rw (◌>>=◌, q.0) refl, wait_call-eq ∙ rw (◌>>=◌, q.1) refl)
