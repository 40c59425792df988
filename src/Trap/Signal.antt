-- ===== src/Trap/Signal.antt =====
-- Signals: the pending bits of kern/thread/PTCBIntro, `sys_kill`, `sys_pause` and `terminate_process`.
use advanced_synchronization.Base.{
  ℕ, Bool, true, false, ltb, leb, ◌==◌, ◌||◌, if◌then◌else◌, num_ids, M, pure, ◌>>=◌, ◌>>◌, ℤ, pos,
  negsuc,
}
use advanced_synchronization.Bits.{set_bit, clear_bit}
use advanced_synchronization.Thread.Tcb.{
  Sched, ThreadState, sleep, dead, thread_at, write_thread, tcb_get_state, tcb_set_state, get_curid,
}
use advanced_synchronization.Thread.Queue.{tqueue_remove}
use advanced_synchronization.Thread.Scheduler.{thread_yield, thread_wakeup, is_asleep}
use advanced_synchronization.Trap.Frame.{
  Regs, syscall_get_arg2, syscall_get_arg3, syscall_set_errno, to_int, e_succ, e_inval_pid,
  e_inval_signum,
}

abbrev pub nsig : ℕ
nsig = 32

abbrev pub sigkill : ℕ
sigkill = 9

abbrev write_pending : ℕ → (ℕ → ℕ) → M Sched (Unit {0})
write_pending pid f = write_thread pid λ t. record t {
  sigstate = record t.sigstate { pending_signals = f t.sigstate.pending_signals };
}

unfoldable pub tcb_get_pending_signals : ℕ → M Sched ℕ
tcb_get_pending_signals pid = do t ← thread_at pid; pure t.sigstate.pending_signals

unfoldable pub tcb_set_pending_signals : ℕ → ℕ → M Sched (Unit {0})
tcb_set_pending_signals pid signals = write_pending pid λ _. signals

-- For a `signum` that is not negative.
unfoldable pub tcb_add_pending_signal : ℕ → ℕ → M Sched (Unit {0})
tcb_add_pending_signal pid signum =
    if ltb signum nsig then write_pending pid (λ w. set_bit w signum) else pure tt

unfoldable pub tcb_clear_pending_signal : ℕ → ℕ → M Sched (Unit {0})
tcb_clear_pending_signal pid signum =
    if ltb signum nsig then write_pending pid (λ w. clear_bit w signum) else pure tt

unfoldable pub tcb_is_sleeping : ℕ → M Sched Bool
unfolding is_asleep
tcb_is_sleeping pid = do t ← thread_at pid; pure (is_asleep t.state)

unfoldable pub tcb_get_channel : ℕ → M Sched ℕ
tcb_get_channel pid = do t ← thread_at pid; pure t.channel

unfoldable pub is_dead : ThreadState → Bool
is_dead dead = true
is_dead _ = false

-- What SIGKILL does, in `sys_kill` and in `handle_pending_signals`.
unfoldable pub terminate_process : ℕ → M Sched (Unit {0})
unfolding tcb_set_state
terminate_process pid = do
  tcb_set_state pid dead
  tqueue_remove num_ids pid
  tcb_set_pending_signals pid 0

-- The signals other than SIGKILL: pending, and a sleeper's channel is woken.
unfoldable pub post_signal : ℕ → ℕ → M Sched (Unit {0})
post_signal pid signum = do
  tcb_add_pending_signal pid signum
  asleep ← tcb_is_sleeping pid
  if asleep
      then (do chan ← tcb_get_channel pid; if chan == 0 then pure tt else thread_wakeup chan)
      else pure tt

-- With the signal number valid.
unfoldable pub kill_process : ℤ → ℕ → Regs → M Sched Regs
unfolding tcb_get_state
kill_process (negsuc _) signum tf = pure (syscall_set_errno e_inval_pid tf)
kill_process (pos pid) signum tf =
    if leb num_ids pid then pure (syscall_set_errno e_inval_pid tf) else (do
      st ← tcb_get_state pid
      if is_dead st then pure (syscall_set_errno e_inval_pid tf) else (do
        if signum == sigkill then terminate_process pid else post_signal pid signum
        pure (syscall_set_errno e_succ tf)))

unfoldable pub sys_kill : Regs → M Sched Regs
sys_kill tf = elim (to_int (syscall_get_arg3 tf)) [
  | negsuc _ ↦ pure (syscall_set_errno e_inval_signum tf)
  | pos signum ↦
      if ltb signum 1 || leb nsig signum
      then pure (syscall_set_errno e_inval_signum tf)
      else kill_process (to_int (syscall_get_arg2 tf)) signum tf
]

unfoldable pub sys_pause : Regs → M Sched Regs
unfolding tcb_set_state get_curid
sys_pause tf = do
  cur_pid ← get_curid
  pending ← tcb_get_pending_signals cur_pid
  if pending == 0
      then (do tcb_set_state cur_pid sleep; thread_yield; pure (syscall_set_errno e_succ tf))
      else pure (syscall_set_errno e_succ tf)
