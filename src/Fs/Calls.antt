-- ===== src/Fs/Calls.antt =====
-- kern/fs/sysfile.c: the system calls that read, write and close files, with the registers of the call.
use advanced_synchronization.Base.{
  ℕ, zero, suc, ◌+◌, ltb, ◌==◌, ◌||◌, not, if◌then◌else◌, Bool, Option, none, some, update, u32, ℤ,
  pos, negsuc, M, pure, ◌>>=◌, ◌>>◌,
}
use advanced_synchronization.Spinlock
use advanced_synchronization.Spinlock.{Spinlock}
use advanced_synchronization.Trap.Frame.{
  Regs, syscall_get_arg2, syscall_get_arg3, syscall_get_arg4, syscall_set_errno,
  syscall_set_retval1, to_word, e_succ,
}
use advanced_synchronization.Fs.Inode.{Outcome, done, asleep}
use advanced_synchronization.Fs.Content.{Devsw}
use advanced_synchronization.Fs.File.{Ftable, on_files, file_read, file_write, file_close}
use advanced_synchronization.Fs.UserCopy.{Paging, vm_userhi, vm_userlo, pt_copyin, pt_copyout}

abbrev pub nofile : ℕ
nofile = 16

abbrev pub e_badf : ℕ
e_badf = 29

abbrev pub e_inval_addr : ℕ
e_inval_addr = 4

-- The size of `kern_buf`.
abbrev pub kern_buf_size : ℕ
kern_buf_size = 10000

-- The open files and the working directory of each thread, `curid` for the current one, the buffer
-- with its lock, and whether `sys_open` has not been called yet.
pub record Calls : Type 0 where
  pub table : Ftable
  pub openfiles : ℕ → ℕ → Option ℕ
  pub curid : ℕ
  pub buf_lock : Spinlock
  pub kern_buf : ℕ
  pub cwd : ℕ → ℕ
  pub first : Bool

abbrev pub on_table : {A : Type 0} → M Ftable A → M Calls A
on_table m c = elim (m c.table) [ none ↦ none | some (a, t) ↦ some (a, record c { table = t }) ]

abbrev pub get_calls : M Calls Calls
get_calls c = some (c, c)

abbrev pub tcb_set_openfiles : ℕ → Option ℕ → M Calls (Unit {0})
tcb_set_openfiles fd f c =
    some
      (tt, record c { openfiles = update c.openfiles c.curid (update (c.openfiles c.curid) fd f) })

abbrev pub acquire_buf : M Calls (Unit {0})
acquire_buf c = elim (Spinlock.spinlock_acquire c.table.files.vol.sched.pcpu_idx c.buf_lock) [
  | none ↦ none
  | some lk ↦ some (tt, record c { buf_lock = lk })
]

abbrev pub release_buf : M Calls (Unit {0})
release_buf c = some (tt, record c { buf_lock = Spinlock.spinlock_release c.buf_lock })

-- The loop of `fdalloc` from the descriptor `idx` on.
unfoldable pub find_fd : ℕ → ℕ → (ℕ → Option ℕ) → Option ℕ
find_fd zero idx fds = none
find_fd (suc n) idx fds =
    let rest = find_fd n (idx + 1) fds in elim (fds idx) [ none ↦ some idx | some _ ↦ rest ]

unfoldable pub fdalloc : ℕ → M Calls ℤ
fdalloc f = get_calls >>= λ c. elim (find_fd nofile 0 (c.openfiles c.curid)) [
  | none ↦ pure (negsuc 0)
  | some idx ↦ (do tcb_set_openfiles idx (some f); pure (pos idx))
]

-- The error number and the result, set in either order.
abbrev pub answer : ℕ → ℤ → Regs → Regs
answer errno r tf = syscall_set_retval1 (to_word r) (syscall_set_errno errno tf)

-- The tests on the user's buffer, in 32-bit arithmetic.
abbrev pub is_bad_buffer : ℕ → ℕ → Bool
is_bad_buffer user_buf n =
    ltb user_buf vm_userlo || ltb vm_userhi (u32 (user_buf + n)) || ltb kern_buf_size n

-- The call is refused and the buffer unlocked.
abbrev pub refuse : ℕ → Regs → M Calls (Outcome Regs)
refuse errno tf = do release_buf; pure (done (answer errno (negsuc 0) tf))

abbrev pub succeed : ℤ → Regs → M Calls (Outcome Regs)
succeed r tf = do release_buf; pure (done (answer e_succ r tf))

module _ (devsw : Devsw) (paging : Paging) where
  -- What was read goes to the user's buffer, when it is anything.
  abbrev pub copy_read : ℤ → ℕ → M Calls (Unit {0})
  copy_read (negsuc _) user_buf = pure tt
  copy_read (pos r) user_buf = get_calls >>= λ c.
      if r == 0
      then pure tt
      else on_table (on_files (pt_copyout paging c.kern_buf c.curid user_buf r)) >>= λ _. pure tt

  -- A descriptor that is negative as an `int` is not below NOFILE. Pointers to files are not NULL in
  -- their field `ip`.
  unfoldable pub sys_read : Regs → M Calls (Outcome Regs)
  unfolding Spinlock.spinlock_acquire Spinlock.spinlock_release syscall_get_arg2 syscall_get_arg3
      syscall_get_arg4 syscall_set_errno syscall_set_retval1 file_read pt_copyout
  sys_read tf = acquire_buf >> get_calls >>= λ c.
      let fd = syscall_get_arg2 tf in
      let user_buf = syscall_get_arg3 tf in
      let n = syscall_get_arg4 tf in
      if not (ltb fd nofile)
      then refuse e_badf tf
      else if is_bad_buffer user_buf n
      then refuse e_inval_addr tf
      else elim (c.openfiles c.curid fd) [
        | none ↦ refuse e_badf tf
        | some fp ↦ on_table (file_read devsw fp c.kern_buf n) >>= λ r. elim r [
          | asleep ↦ pure asleep
          | done size_read ↦ copy_read size_read user_buf >> succeed size_read tf
        ]
      ]

  unfoldable pub sys_write : Regs → M Calls (Outcome Regs)
  unfolding Spinlock.spinlock_acquire Spinlock.spinlock_release syscall_get_arg2 syscall_get_arg3
      syscall_get_arg4 syscall_set_errno syscall_set_retval1 file_write pt_copyin
  sys_write tf = acquire_buf >> get_calls >>= λ c.
      let fd = syscall_get_arg2 tf in
      let user_buf = syscall_get_arg3 tf in
      let n = syscall_get_arg4 tf in
      if not (ltb fd nofile)
      then refuse e_badf tf
      else if is_bad_buffer user_buf n
      then refuse e_inval_addr tf
      else elim (c.openfiles c.curid fd) [
        | none ↦ refuse e_badf tf
        | some fp ↦ on_table (on_files (pt_copyin paging c.curid user_buf c.kern_buf n)) >>= λ _.
            on_table (file_write devsw fp c.kern_buf n) >>= λ r. elim r [
              | asleep ↦ pure asleep
              | done size_write ↦ succeed size_write tf
            ]
      ]

-- The descriptor is free again once the file is closed.
unfoldable pub sys_close : Regs → M Calls (Outcome Regs)
unfolding syscall_get_arg2 syscall_set_errno syscall_set_retval1 file_close
sys_close tf = get_calls >>= λ c.
    let fd = syscall_get_arg2 tf in
    if not (ltb fd nofile)
    then pure (done (answer e_badf (negsuc 0) tf))
    else elim (c.openfiles c.curid fd) [
      | none ↦ pure (done (answer e_badf (negsuc 0) tf))
      | some fp ↦ on_table (file_close fp) >>= λ r. elim r [
        | asleep ↦ pure asleep
        | done _ ↦ tcb_set_openfiles fd none >> pure (done (answer e_succ (pos 0) tf))
      ]
    ]
