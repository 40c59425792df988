-- ===== src/Trap/Calls.antt =====
-- kern/trap/TSyscall: the system calls on wait objects.
use advanced_synchronization.Base.{
  ℕ, zero, suc, stop, Option, none, some, M, pure, ◌>>=◌, ℤ, pos, negsuc,
}
use advanced_synchronization.Thread.Tcb.{get_curid}
use advanced_synchronization.Trap.Frame.{
  Regs, syscall_get_arg2, syscall_get_arg3, syscall_get_arg4, syscall_set_errno,
  syscall_set_retval1, to_int, to_word, e_succ, e_mem, e_inval_id, e_wait_timeout,
}
use advanced_synchronization.Waitobj.State.{Kernel, on_sched}
use advanced_synchronization.Waitobj.Pool.{waitobj_create, waitobj_add}
use advanced_synchronization.Waitobj.Wait.{returned, blocked, waitobj_wait}
use advanced_synchronization.Waitobj.Notify.{waitobj_signal_source}

-- The error number, then the first result.
abbrev pub finish : ℕ → ℕ → Regs → Regs
finish errno retval tf = syscall_set_retval1 retval (syscall_set_errno errno tf)

abbrev pub minus_one : ℕ
minus_one = to_word (negsuc 0)

unfoldable pub sys_waitobj_create : Regs → M Kernel Regs
unfolding get_curid
sys_waitobj_create tf = do
  cur ← on_sched get_curid
  wid ← waitobj_create cur
  elim wid [ negsuc _ ↦ pure (finish e_mem minus_one tf) | pos n ↦ pure (finish e_succ n tf) ]

unfoldable pub sys_waitobj_add : Regs → M Kernel Regs
unfolding get_curid
sys_waitobj_add tf = do
  cur ← on_sched get_curid
  sid ← waitobj_add cur (to_int (syscall_get_arg2 tf)) (syscall_get_arg3 tf) (syscall_get_arg4 tf)
  elim sid [ negsuc _ ↦ pure (finish e_inval_id minus_one tf) | pos n ↦ pure (finish e_succ n tf) ]

-- From the result of `waitobj_wait`: its code and what it stored in `out_sid`, which is read on
-- success only.
unfoldable pub wait_finish : ℤ → Option ℤ → Regs → M Kernel (Option Regs)
wait_finish (negsuc (suc zero)) out_sid tf = pure (some (finish e_inval_id minus_one tf))
wait_finish (negsuc _) out_sid tf = pure (some (finish e_wait_timeout minus_one tf))
wait_finish (pos _) none tf = stop
wait_finish (pos _) (some sid) tf = pure (some (finish e_succ (to_word sid) tf))

-- `none` when the call got to a switch.
unfoldable pub sys_waitobj_wait : Regs → M Kernel (Option Regs)
unfolding get_curid
sys_waitobj_wait tf = do
  cur ← on_sched get_curid
  r ← waitobj_wait cur (to_int (syscall_get_arg2 tf)) (syscall_get_arg3 tf)
  elim r [ blocked ↦ pure none | returned rc out_sid ↦ wait_finish rc out_sid tf ]

unfoldable pub sys_waitobj_signal : Regs → M Kernel Regs
unfolding get_curid
sys_waitobj_signal tf = do
  cur ← on_sched get_curid
  rc ← waitobj_signal_source cur (to_int (syscall_get_arg2 tf))
  elim rc [
    | negsuc _ ↦ pure (syscall_set_errno e_inval_id tf)
    | pos _ ↦ pure (syscall_set_errno e_succ tf)
  ]
