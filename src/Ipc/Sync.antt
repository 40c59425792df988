-- ===== src/Ipc/Sync.antt =====
-- kern/trap/TSyscall and kern/lib/ipc.c: messages between two processes that wait for each other. The
-- calls are cut at the switch of contexts in `thread_sleep`. The two calls that took and gave back
-- `msg_lock` around them are commented out in the source.
use advanced_synchronization.Base.{
  ℕ, zero, suc, ◌+◌, ◌-◌, ◌*◌, ltb, ◌==◌, if◌then◌else◌, false, none, some, num_ids, u32, ℤ, pos,
  negsuc, M, pure, ◌>>=◌, ◌>>◌,
}
use advanced_synchronization.Thread.Tcb.{Sched, get_curid}
use advanced_synchronization.Thread.Scheduler.{thread_sleep, thread_sleep_resumed, thread_wakeup}
use advanced_synchronization.Trap.Frame.{
  Regs, syscall_get_arg2, syscall_get_arg3, syscall_get_arg4, syscall_set_errno,
  syscall_set_retval1, to_int, e_succ,
}
use advanced_synchronization.Fs.Inode.{Files, Outcome, done, asleep}
use advanced_synchronization.Fs.UserCopy.{Paging, pt_copyin, pt_copyout}
use advanced_synchronization.Ipc.{
  Messages, block_at, write_block, msg_enqueue, msg_remove, msg_get_block_by_send_id,
}

abbrev pub msg_buf_size : ℕ
msg_buf_size = 100

-- `msgBlock` is at `blocks_base`, and `msg_buf` at `msg_buf`.
pub record Comm : Type 0 where
  pub messages : Messages
  pub files : Files
  pub blocks_base : ℕ
  pub msg_buf : ℕ

abbrev pub on_messages : {A : Type 0} → M Messages A → M Comm A
on_messages m c = elim (m c.messages) [
  | none ↦ none
  | some (a, ms) ↦ some (a, record c { messages = ms })
]

abbrev pub with_tables : Comm → Sched → Comm
with_tables c s = record c { files = record c.files { vol = record c.files.vol { sched = s } } }

abbrev pub on_tables : {A : Type 0} → M Sched A → M Comm A
on_tables m c = elim (m c.files.vol.sched) [ none ↦ none | some (a, s) ↦ some (a, with_tables c s) ]

abbrev pub on_memory : {A : Type 0} → M Files A → M Comm A
on_memory m c = elim (m c.files) [ none ↦ none | some (a, k) ↦ some (a, record c { files = k }) ]

-- The addresses of `recv_cv` and `send_cv`, two `char`s behind the six words of a block.
abbrev pub recv_chan : Comm → ℕ → ℕ
recv_chan c pid = c.blocks_base + 28 * pid + 24

abbrev pub send_chan : Comm → ℕ → ℕ
send_chan c pid = c.blocks_base + 28 * pid + 25

-- With `thread_sleep(chan, &msg_lock)`, up to the switch and from it on.
abbrev pub sleep_on : ℕ → M Comm (Unit {0})
sleep_on chan c = elim (thread_sleep chan c.messages.msg_lock c.files.vol.sched) [
  | none ↦ none
  | some (lk, s) ↦
      some (tt, record (with_tables c s) { messages = record c.messages { msg_lock = lk } })
]

abbrev pub resume : ℕ → M Comm (Unit {0})
resume pid c = elim (thread_sleep_resumed pid c.messages.msg_lock c.files.vol.sched) [
  | none ↦ none
  | some (lk, s) ↦
      some (tt, record (with_tables c s) { messages = record c.messages { msg_lock = lk } })
]

abbrev pub get_comm : M Comm Comm
get_comm c = some (c, c)

module _ (paging : Paging) where
  -- The loop of `ipc_copy`; a round copies a byte at least.
  unfoldable pub copy_rounds : ℕ → ℕ → ℕ → ℕ → ℕ → ℕ → M Comm (Unit {0})
  unfolding pt_copyin pt_copyout
  copy_rounds zero dest_pid dest_addr source_pid source_addr length = pure tt
  copy_rounds (suc fuel) dest_pid dest_addr source_pid source_addr length =
      if length == 0
      then pure tt
      else (get_comm >>= λ c.
          let len = if ltb length msg_buf_size then length else msg_buf_size in
          (do
            n ← on_memory (pt_copyin paging source_pid source_addr c.msg_buf len)
            n' ← on_memory (pt_copyout paging c.msg_buf dest_pid dest_addr len)
            copy_rounds fuel dest_pid (u32 (dest_addr + len)) source_pid (u32 (source_addr + len))
                (length - len)))

  -- A length that is negative as an `int` copies nothing.
  unfoldable pub ipc_copy : ℕ → ℕ → ℕ → ℕ → ℤ → M Comm (Unit {0})
  ipc_copy dest_pid dest_addr source_pid source_addr (negsuc _) = pure tt
  ipc_copy dest_pid dest_addr source_pid source_addr (pos length) =
      copy_rounds length dest_pid dest_addr source_pid source_addr length

  -- The loop of `sys_sync_send`: has the message of `cur_pid` been received?
  unfoldable pub send_pass : ℕ → Regs → M Comm (Outcome Regs)
  unfolding msg_get_block_by_send_id thread_sleep syscall_set_errno
  send_pass cur_pid tf = get_comm >>= λ c. on_messages (msg_get_block_by_send_id cur_pid) >>= λ b.
      if b == num_ids
      then pure (done (syscall_set_errno e_succ tf))
      else (do sleep_on (recv_chan c cur_pid); pure asleep)

  unfoldable pub sys_sync_send : Regs → M Comm (Outcome Regs)
  unfolding get_curid msg_enqueue thread_wakeup syscall_get_arg2 syscall_get_arg3 syscall_get_arg4
  sys_sync_send tf = get_comm >>= λ c. on_tables get_curid >>= λ cur_pid. (do
    on_messages (
        write_block cur_pid (λ b. record b {
          recv_pid = syscall_get_arg2 tf;
          buffer_addr = syscall_get_arg3 tf;
          length = syscall_get_arg4 tf;
        }))
    on_messages (msg_enqueue cur_pid)
    on_tables (thread_wakeup (send_chan c cur_pid))
    send_pass cur_pid tf)

  -- The sender `cur_pid` runs again after the switch.
  unfoldable pub sys_sync_send_resumed : ℕ → Regs → M Comm (Outcome Regs)
  unfolding thread_sleep_resumed
  sys_sync_send_resumed cur_pid tf = resume cur_pid >> send_pass cur_pid tf

  -- The message of `send_pid` for `cur_pid` is copied and leaves the queue.
  unfoldable pub receive : ℕ → ℕ → Regs → M Comm (Outcome Regs)
  unfolding msg_remove thread_wakeup syscall_get_arg3 syscall_get_arg4 syscall_set_errno
      syscall_set_retval1 to_int
  receive cur_pid send_pid tf = get_comm >>= λ c. on_messages (block_at send_pid) >>= λ b.
      let copy_length =
        if ltb b.length (syscall_get_arg4 tf) then b.length else syscall_get_arg4 tf in
      (do
        ipc_copy cur_pid (syscall_get_arg3 tf) send_pid b.buffer_addr (to_int copy_length)
        on_messages (msg_remove send_pid)
        on_tables (thread_wakeup (recv_chan c send_pid))
        pure (done (syscall_set_retval1 copy_length (syscall_set_errno e_succ tf))))

  -- The loop of `sys_sync_recv`: is there a message of `send_pid` for `cur_pid`?
  unfoldable pub recv_pass : ℕ → Regs → M Comm (Outcome Regs)
  unfolding msg_get_block_by_send_id thread_sleep syscall_get_arg2
  recv_pass cur_pid tf = get_comm >>= λ c.
      on_messages (msg_get_block_by_send_id (syscall_get_arg2 tf)) >>= λ b.
      on_messages (
        if b == num_ids
        then pure false
        else (block_at (syscall_get_arg2 tf) >>= λ m. pure (m.recv_pid == cur_pid)))
      >>= λ found.
          if found
          then receive cur_pid (syscall_get_arg2 tf) tf
          else (do sleep_on (send_chan c (syscall_get_arg2 tf)); pure asleep)

  unfoldable pub sys_sync_recv : Regs → M Comm (Outcome Regs)
  unfolding get_curid
  sys_sync_recv tf = on_tables get_curid >>= λ cur_pid. recv_pass cur_pid tf

  unfoldable pub sys_sync_recv_resumed : ℕ → Regs → M Comm (Outcome Regs)
  unfolding thread_sleep_resumed
  sys_sync_recv_resumed cur_pid tf = resume cur_pid >> recv_pass cur_pid tf
