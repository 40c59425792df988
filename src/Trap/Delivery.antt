-- ===== src/Trap/Delivery.antt =====
-- kern/trap/TTrapHandler, TSyscall and kern/thread/PTCBIntro: the delivery of signals to user
-- handlers. Kernel variables whose address is taken are bytes of the memory at addresses given by
-- `Layout`.
pub mod Stack
pub mod Pushes
pub mod Handler
pub mod Return
pub mod Pending
mod Tests
use advanced_synchronization.Base.{
  ℕ, zero, suc, List, [], ◌∷◌, ◌+◌, ◌-◌, ◌*◌, ◌/◌, ◌%◌, ◌^◌, Bool, ltb, leb, ◌==◌, ◌&&◌, ◌||◌, not,
  if◌then◌else◌, Option, none, some, u32, update, M, pure, ◌>>=◌, ◌>>◌, pos, negsuc,
}
use advanced_synchronization.Bits.{test_bit}
use advanced_synchronization.Thread.Tcb.{
  Sched, Sigaction, SigState, thread_at, write_thread, get_curid,
}
use advanced_synchronization.Thread.Scheduler.{thread_exit}
use advanced_synchronization.Fs.Inode.{Files, Outcome, done, asleep, woken_in}
use advanced_synchronization.Fs.Calls.{e_inval_addr}
use advanced_synchronization.Fs.UserCopy.{Paging, pt_copyin, pt_copyout}
use advanced_synchronization.Trap.Frame.{
  Regs, syscall_get_arg2, syscall_get_arg3, syscall_get_arg4, syscall_set_errno, to_int, e_succ,
  e_mem, e_inval_signum,
}
use advanced_synchronization.Trap.Signal.{
  nsig, sigkill, tcb_get_pending_signals, tcb_clear_pending_signal, terminate_process,
}

-- `tf_t`, without its padding.
pub record TrapFrame : Type 0 where
  pub regs : Regs
  pub es : ℕ
  pub ds : ℕ
  pub trapno : ℕ
  pub err : ℕ
  pub eip : ℕ
  pub cs : ℕ
  pub eflags : ℕ
  pub esp : ℕ
  pub ss : ℕ

-- The addresses of the variables that are copied to and from user memory, and of the entries of
-- `sigactions`.
pub record Layout : Type 0 where
  pub orig_eip : ℕ
  pub orig_esp : ℕ
  pub trampoline : ℕ
  pub sig_arg : ℕ
  pub trampoline_addr : ℕ
  pub saved_esp : ℕ
  pub saved_eip : ℕ
  pub kern_act : ℕ
  pub sigactions : ℕ → ℕ → ℕ

abbrev pub sys_sigreturn_nr : ℕ
sys_sigreturn_nr = 28

abbrev pub on_threads : {A : Type 0} → M Sched A → M Files A
on_threads m k = woken_in k (m k.vol.sched)

abbrev pub write_signals : ℕ → (SigState → SigState) → M Sched (Unit {0})
write_signals pid f = write_thread pid λ t. record t { sigstate = f t.sigstate }

-- `none` for NULL. The signal numbers of these two are not negative.
unfoldable pub tcb_get_sigaction : ℕ → ℕ → M Sched (Option Sigaction)
tcb_get_sigaction pid signum =
    if ltb signum nsig
    then (do t ← thread_at pid; pure (some (t.sigstate.sigactions signum)))
    else pure none

unfoldable pub tcb_set_sigaction : ℕ → ℕ → Sigaction → M Sched (Unit {0})
tcb_set_sigaction pid signum act =
    if ltb signum nsig
    then write_signals pid (λ s. record s { sigactions = update s.sigactions signum act })
    else pure tt

unfoldable pub tcb_set_signal_context : ℕ → ℕ → ℕ → M Sched (Unit {0})
tcb_set_signal_context pid saved_esp_addr saved_eip_addr = write_signals pid λ s. record s {
  saved_esp_addr = saved_esp_addr;
  saved_eip_addr = saved_eip_addr;
  in_signal_handler = 1;
}

-- The addresses of the saved esp and of the saved eip.
unfoldable pub tcb_get_signal_context : ℕ → M Sched (ℕ × ℕ)
tcb_get_signal_context pid = do
  t ← thread_at pid
  pure (t.sigstate.saved_esp_addr, t.sigstate.saved_eip_addr)

unfoldable pub tcb_clear_signal_context : ℕ → M Sched (Unit {0})
tcb_clear_signal_context pid =
    write_signals pid
      λ s. record s { saved_esp_addr = 0; saved_eip_addr = 0; in_signal_handler = 0 }

unfoldable pub tcb_in_signal_handler : ℕ → M Sched ℕ
tcb_in_signal_handler pid = do t ← thread_at pid; pure t.sigstate.in_signal_handler

-- The `n` bytes of a variable at `at`, and a word in memory.
abbrev pub store : ℕ → ℕ → (ℕ → ℕ) → M Files (Unit {0})
store at n bytes k =
    some
      (tt, record k { mem = λ a. if leb at a && ltb a (at + n) then bytes (a - at) else k.mem a })

abbrev pub word_bytes : ℕ → ℕ → ℕ
word_bytes v i = v / 256 ^ i % 256

abbrev pub load_word : ℕ → M Files ℕ
load_word a k =
    some (k.mem a + 256 * k.mem (a + 1) + 65536 * k.mem (a + 2) + 16777216 * k.mem (a + 3), k)

abbrev code_byte : List ℕ → ℕ → ℕ
code_byte [] i = 0
code_byte (b ∷ bs) zero = b
code_byte (b ∷ bs) (suc i) = code_byte bs i

-- `mov eax, SYS_sigreturn; int 0x30; jmp $`, then three `nop`.
abbrev pub trampoline_bytes : ℕ → ℕ
trampoline_bytes =
    code_byte (184 ∷ sys_sigreturn_nr ∷ 0 ∷ 0 ∷ 0 ∷ 205 ∷ 48 ∷ 235 ∷ 254 ∷ 144 ∷ 144 ∷ 144 ∷ [])

-- `esp - n` in 32 bits.
abbrev pub below : ℕ → ℕ → ℕ
below esp n = u32 (esp + 2 ^ 32 - n)

-- The bytes of the five words of an action, and an action in memory.
abbrev pub action_bytes : Sigaction → ℕ → ℕ
action_bytes act i =
    if ltb i 4
    then word_bytes act.sa_handler i
    else if ltb i 8
    then word_bytes act.sa_sigaction (i - 4)
    else if ltb i 12
    then word_bytes act.sa_flags (i - 8)
    else if ltb i 16
    then word_bytes act.sa_restorer (i - 12)
    else word_bytes act.sa_mask (i - 16)

abbrev pub load_action : ℕ → M Files Sigaction
load_action a = do
  handler ← load_word a
  sigaction ← load_word (a + 4)
  flags ← load_word (a + 8)
  restorer ← load_word (a + 12)
  mask ← load_word (a + 16)
  pure record {
    sa_handler = handler;
    sa_sigaction = sigaction;
    sa_flags = flags;
    sa_restorer = restorer;
    sa_mask = mask;
  }

-- The loop of `handle_pending_signals` from `signum` on: the first signal that is pending.
unfoldable pub find_pending : ℕ → ℕ → ℕ → Option ℕ
find_pending zero signum w = none
find_pending (suc n) signum w =
    let rest = find_pending n (signum + 1) w in if test_bit w signum then some signum else rest

-- A variable at `at` with its bytes, and its copy to the user's address `uva`. That the copy may have
-- failed is not looked at.
abbrev pub push : Paging → ℕ → ℕ → ℕ → ℕ → (ℕ → ℕ) → M Files (Unit {0})
push paging pid uva at n bytes = do
  store at n bytes
  copied ← pt_copyout paging at pid uva n
  pure tt

module _ (paging : Paging) (layout : Layout) where
  -- With a handler: the frame in which it starts.
  unfoldable pub enter_handler : ℕ → ℕ → ℕ → TrapFrame → M Files TrapFrame
  unfolding pt_copyout tcb_set_signal_context
  enter_handler cur_pid signum handler tf = do
    let saved_eip_addr = below tf.esp 4
    push paging cur_pid saved_eip_addr layout.orig_eip 4 (word_bytes tf.eip)
    let saved_esp_addr = below saved_eip_addr 4
    push paging cur_pid saved_esp_addr layout.orig_esp 4 (word_bytes tf.esp)
    let trampoline_addr = below saved_esp_addr 12
    push paging cur_pid trampoline_addr layout.trampoline 12 trampoline_bytes
    let arg_addr = below (trampoline_addr / 4 * 4) 4
    push paging cur_pid arg_addr layout.sig_arg 4 (word_bytes signum)
    let new_esp = below arg_addr 4
    push paging cur_pid new_esp layout.trampoline_addr 4 (word_bytes trampoline_addr)
    on_threads (tcb_set_signal_context cur_pid saved_esp_addr saved_eip_addr)
    pure record tf { esp = new_esp; eip = handler }

  -- With what `tcb_get_sigaction` found.
  unfoldable pub with_action : ℕ → ℕ → TrapFrame → Option Sigaction → M Files TrapFrame
  with_action cur_pid signum tf none = pure tf
  with_action cur_pid signum tf (some act) =
      if act.sa_handler == 0 then pure tf else enter_handler cur_pid signum act.sa_handler tf

  unfoldable pub deliver_signal : ℕ → TrapFrame → M Files TrapFrame
  unfolding get_curid tcb_get_sigaction
  deliver_signal signum tf = do
    cur_pid ← on_threads get_curid
    sa ← on_threads (tcb_get_sigaction cur_pid signum)
    with_action cur_pid signum tf sa

  -- With the signal that the loop found; `asleep` when SIGKILL ends the process.
  unfoldable pub take_signal : ℕ → TrapFrame → Option ℕ → M Files (Outcome TrapFrame)
  unfolding tcb_clear_pending_signal terminate_process thread_exit
  take_signal cur_pid tf none = pure (done tf)
  take_signal cur_pid tf (some signum) =
      on_threads (tcb_clear_pending_signal cur_pid signum)
      >> (if signum == sigkill
          then on_threads (terminate_process cur_pid) >> on_threads thread_exit >> pure asleep
          else deliver_signal signum tf >>= λ tf'. pure (done tf'))

  unfoldable pub handle_pending_signals : TrapFrame → M Files (Outcome TrapFrame)
  unfolding get_curid tcb_get_pending_signals
  handle_pending_signals tf = do
    cur_pid ← on_threads get_curid
    pending_signals ← on_threads (tcb_get_pending_signals cur_pid)
    take_signal cur_pid tf (find_pending (nsig - 1) 1 pending_signals)

  -- `sys_sigreturn` from its last test, on the number of bytes copied, back to its first.
  unfoldable pub restore_context : ℕ → TrapFrame → ℕ → M Files TrapFrame
  unfolding tcb_clear_signal_context syscall_set_errno
  restore_context cur_pid tf n =
      if not (n == 4) then pure record tf { regs = syscall_set_errno e_mem tf.regs } else (do
        on_threads (tcb_clear_signal_context cur_pid)
        esp ← load_word layout.saved_esp
        eip ← load_word layout.saved_eip
        pure record tf { esp = esp; eip = eip; regs = syscall_set_errno e_succ tf.regs })

  unfoldable pub read_eip : ℕ → ℕ → TrapFrame → ℕ → M Files TrapFrame
  unfolding syscall_set_errno pt_copyin
  read_eip cur_pid saved_eip_addr tf n =
      if not (n == 4)
      then pure record tf { regs = syscall_set_errno e_mem tf.regs }
      else pt_copyin paging cur_pid saved_eip_addr layout.saved_eip 4 >>= restore_context cur_pid tf

  unfoldable pub read_context : ℕ → TrapFrame → ℕ × ℕ → M Files TrapFrame
  unfolding syscall_set_errno pt_copyin
  read_context cur_pid tf (saved_esp_addr, saved_eip_addr) =
      if saved_esp_addr == 0 || saved_eip_addr == 0
      then pure record tf { regs = syscall_set_errno e_inval_addr tf.regs }
      else pt_copyin paging cur_pid saved_esp_addr layout.saved_esp 4
        >>= read_eip cur_pid saved_eip_addr tf

  unfoldable pub sys_sigreturn : TrapFrame → M Files TrapFrame
  unfolding get_curid tcb_get_signal_context
  sys_sigreturn tf = on_threads get_curid >>= λ cur_pid.
      on_threads (tcb_get_signal_context cur_pid) >>= read_context cur_pid tf

  -- With the signal number valid.
  unfoldable pub set_action : ℕ → Regs → M Files Regs
  unfolding get_curid tcb_get_sigaction tcb_set_sigaction pt_copyout pt_copyin syscall_get_arg3
      syscall_get_arg4 syscall_set_errno
  set_action signum tf = on_threads get_curid >>= λ cur_pid.
      (if syscall_get_arg4 tf == 0
        then pure tt
        else on_threads (tcb_get_sigaction cur_pid signum) >>= λ cur_act. elim cur_act [
          | none ↦ pure tt
          | some act ↦
              push paging cur_pid (syscall_get_arg4 tf) (layout.sigactions cur_pid signum) 20
                (action_bytes act)
        ])
      >> (if syscall_get_arg3 tf == 0 then pure tt else (do
        n ← pt_copyin paging cur_pid (syscall_get_arg3 tf) layout.kern_act 20
        act ← load_action layout.kern_act
        on_threads (tcb_set_sigaction cur_pid signum act)))
      >> pure (syscall_set_errno e_succ tf)

  unfoldable pub sys_sigaction : Regs → M Files Regs
  unfolding syscall_get_arg2 syscall_set_errno
  sys_sigaction tf = elim (to_int (syscall_get_arg2 tf)) [
    | negsuc _ ↦ pure (syscall_set_errno e_inval_signum tf)
    | pos signum ↦
        if ltb signum 1 || leb nsig signum
        then pure (syscall_set_errno e_inval_signum tf)
        else set_action signum tf
  ]
