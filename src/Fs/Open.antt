-- ===== src/Fs/Open.antt =====
-- kern/fs/sysfile.c: the system calls on paths, from the registers to the registers.
pub mod Install
use advanced_synchronization.Base.{
  ℕ, zero, ◌+◌, ◌-◌, ltb, ◌==◌, ◌||◌, not, if◌then◌else◌, Bool, true, false, Option, none, some,
  update, u32, ℤ, pos, negsuc, M, pure, ◌>>=◌, ◌>>◌,
}
use advanced_synchronization.Bits.{test_bit}
use advanced_synchronization.Trap.Frame.{
  Regs, syscall_get_arg2, syscall_get_arg3, syscall_get_arg4, syscall_get_arg5, syscall_set_errno,
  syscall_set_retval1, e_succ,
}
use advanced_synchronization.Fs.Log.{commit_trans}
use advanced_synchronization.Fs.Block.{log_init}
use advanced_synchronization.Fs.Inode.{
  Files, Outcome, done, asleep, on_vol, inode_at, inode_lock, inode_unlock,
}
use advanced_synchronization.Fs.Content.{Devsw, inode_unlockput}
use advanced_synchronization.Fs.Dir.{t_dir, set_mem}
use advanced_synchronization.Fs.File.{
  FileType, fd_inode, File, on_files, file_at, write_file, file_alloc, file_close, file_stat,
}
use advanced_synchronization.Fs.UserCopy.{Paging, vm_userhi, vm_userlo, pt_copyin}
use advanced_synchronization.Fs.Path.{namei}
use advanced_synchronization.Fs.Calls.{Calls, nofile, e_badf, on_table, get_calls, answer, fdalloc}
use advanced_synchronization.Fs.Create.{
  Frame, ◌>=>◌, t_file, e_disk_op, e_nexist, begin_call, create,
}
use advanced_synchronization.Fs.Names.{link_path, unlink_path, mkdir, chdir}

abbrev pub e_create : ℕ
e_create = 27

-- `sizeof(struct file_stat)`.
abbrev pub file_stat_size : ℕ
file_stat_size = 20

-- The bits of `omode`: O_WRONLY, O_RDWR and O_CREATE.
abbrev pub o_wronly : ℕ
o_wronly = 0

abbrev pub o_rdwr : ℕ
o_rdwr = 1

abbrev pub o_create : ℕ
o_create = 9

-- The size of an array for a path, and the bytes of a path that are copied.
abbrev pub path_size : ℕ
path_size = 128

abbrev pub path_len : ℕ → ℕ
path_len n = if ltb n path_size then n else path_size - 1

abbrev pub on_fs : {A : Type 0} → M Files A → M Calls A
on_fs m = on_table (on_files m)

abbrev pub bit_of : Bool → ℕ
bit_of true = 1
bit_of false = 0

abbrev pub get_cwd : M Calls ℕ
get_cwd c = some (c.cwd c.curid, c)

abbrev pub set_cwd : ℕ → M Calls (Unit {0})
set_cwd ip c = some (tt, record c { cwd = update c.cwd c.curid ip })

-- What `sys_open` makes of the path: a locked inode, or an error number.
pub data Opening : Type 0 where
  opened : ℕ → Opening
  refused : ℕ → Opening

-- The fields of a new open file.
abbrev pub opened_file : ℕ → ℕ → File → File
opened_file ip omode f = record f {
  type = fd_inode;
  ip = ip;
  off = 0;
  readable = bit_of (not (test_bit omode o_wronly));
  writable = bit_of (test_bit omode o_wronly || test_bit omode o_rdwr);
}

-- No descriptor is free, or no file: the inode goes back.
unfoldable pub open_failed : ℕ → Regs → M Calls (Outcome Regs)
unfolding inode_unlockput syscall_set_errno syscall_set_retval1
open_failed ip tf = do on_fs (inode_unlockput ip); pure (done (answer e_disk_op (negsuc 0) tf))

unfoldable pub with_fd : ℕ → ℕ → ℕ → Regs → ℤ → M Calls (Outcome Regs)
unfolding file_close inode_unlock syscall_set_errno syscall_set_retval1
with_fd ip omode f tf (negsuc _) = on_table (file_close f) >=> λ _. open_failed ip tf
with_fd ip omode f tf (pos fd) = do
  on_fs (inode_unlock ip)
  on_table (write_file f (opened_file ip omode))
  pure (done (answer e_succ (pos fd) tf))

unfoldable pub with_file : ℕ → ℕ → Regs → Option ℕ → M Calls (Outcome Regs)
unfolding fdalloc
with_file ip omode tf none = open_failed ip tf
with_file ip omode tf (some f) = fdalloc f >>= with_fd ip omode f tf

-- `sys_open` from `file_alloc` on, with the inode locked.
unfoldable pub install : ℕ → ℕ → Regs → M Calls (Outcome Regs)
unfolding file_alloc
install ip omode tf = on_table file_alloc >>= with_file ip omode tf

unfoldable pub finish_open : ℕ → Regs → Opening → M Calls (Outcome Regs)
unfolding syscall_set_errno syscall_set_retval1
finish_open omode tf (refused errno) = pure (done (answer errno (negsuc 0) tf))
finish_open omode tf (opened ip) = install ip omode tf

-- The first call of `sys_open` reads the super block.
unfoldable pub first_open : M Calls (Unit {0})
unfolding log_init
first_open = get_calls >>= λ c.
    if c.first
    then (λ c'. some (tt, record c' { first = false })) >> on_fs (on_vol log_init)
    else pure tt

module _ (devsw : Devsw) (paging : Paging) (frame : Frame) where
  -- A path of the process, with a 0 behind it.
  unfoldable pub copy_path : ℕ → ℕ → ℕ → M Calls (Unit {0})
  unfolding pt_copyin
  copy_path user len path = get_calls >>= λ c. (do
    n ← on_fs (pt_copyin paging c.curid user path (path_len len))
    on_fs (set_mem (λ m. update m (path + path_len len) 0)))

  unfoldable pub open_created : ℕ → M Files (Outcome Opening)
  unfolding create commit_trans
  open_created cwd = begin_call >=> λ _. create devsw frame cwd t_file 0 0 >=> λ made. (do
    on_vol commit_trans
    pure (done (elim made [ none ↦ refused e_create | some ip ↦ opened ip ])))

  unfoldable pub open_found : ℕ → ℕ → M Files (Outcome Opening)
  unfolding namei inode_lock inode_unlockput
  open_found cwd omode = namei devsw frame.de frame.fuel cwd frame.path frame.elem >=> λ found.
      elim found [
        | none ↦ pure (done (refused e_nexist))
        | some ip ↦ inode_lock ip >=> λ _. inode_at ip >>= λ i.
            if i.type == t_dir
            then (if omode == 0
                then pure (done (opened ip))
                else (do inode_unlockput ip; pure (done (refused e_disk_op))))
            else pure (done (opened ip))
      ]

  unfoldable pub sys_open : Regs → M Calls (Outcome Regs)
  unfolding syscall_get_arg2 syscall_get_arg3 syscall_get_arg4
  sys_open tf =
      first_open
      >> copy_path (syscall_get_arg2 tf) (syscall_get_arg4 tf) frame.path
      >> get_cwd
      >>= λ cwd.
          on_fs (
            if test_bit (syscall_get_arg3 tf) o_create
            then open_created cwd
            else open_found cwd (syscall_get_arg3 tf))
          >=> finish_open (syscall_get_arg3 tf) tf

  -- A call that only has an error number for a result.
  abbrev pub with_errno : Regs → M Files (Outcome ℕ) → M Calls (Outcome Regs)
  with_errno tf m = on_fs m >=> λ errno. pure (done (syscall_set_errno errno tf))

  unfoldable pub sys_link : Regs → M Calls (Outcome Regs)
  unfolding syscall_get_arg2 syscall_get_arg3 syscall_get_arg4 syscall_get_arg5 syscall_set_errno
      link_path
  sys_link tf = do
    copy_path (syscall_get_arg2 tf) (syscall_get_arg4 tf) frame.path
    copy_path (syscall_get_arg3 tf) (syscall_get_arg5 tf) frame.new
    cwd ← get_cwd
    with_errno tf (link_path devsw frame cwd)

  unfoldable pub sys_unlink : Regs → M Calls (Outcome Regs)
  unfolding syscall_get_arg2 syscall_get_arg3 syscall_set_errno unlink_path
  sys_unlink tf = do
    copy_path (syscall_get_arg2 tf) (syscall_get_arg3 tf) frame.path
    cwd ← get_cwd
    with_errno tf (unlink_path devsw frame cwd)

  unfoldable pub sys_mkdir : Regs → M Calls (Outcome Regs)
  unfolding syscall_get_arg2 syscall_get_arg3 syscall_set_errno mkdir
  sys_mkdir tf = do
    copy_path (syscall_get_arg2 tf) (syscall_get_arg3 tf) frame.path
    cwd ← get_cwd
    with_errno tf (mkdir devsw frame cwd)

  unfoldable pub sys_chdir : Regs → M Calls (Outcome Regs)
  unfolding syscall_get_arg2 syscall_get_arg3 syscall_set_errno chdir
  sys_chdir tf =
      copy_path (syscall_get_arg2 tf) (syscall_get_arg3 tf) frame.path >> get_cwd >>= λ cwd.
      on_fs (chdir devsw frame cwd) >=> λ moved. elim moved [
        | none ↦ pure (done (syscall_set_errno e_disk_op tf))
        | some ip ↦ set_cwd ip >> pure (done (syscall_set_errno e_succ tf))
      ]

  -- `kern_st` is at `st`. What `file_stat` finds is not copied to the process.
  unfoldable pub sys_fstat : ℕ → Regs → M Calls (Outcome Regs)
  unfolding syscall_get_arg2 syscall_get_arg3 syscall_set_errno syscall_set_retval1 pt_copyin
      file_stat
  sys_fstat st tf = get_calls >>= λ c.
      let fd = syscall_get_arg2 tf in
      let user_stp = syscall_get_arg3 tf in
      if not (ltb fd nofile)
        || ltb user_stp vm_userlo
        || ltb vm_userhi (u32 (user_stp + file_stat_size))
      then pure (done (answer e_badf (negsuc 0) tf))
      else elim (c.openfiles c.curid fd) [
        | none ↦ pure (done (answer e_badf (negsuc 0) tf))
        | some fp ↦ on_fs (pt_copyin paging c.curid user_stp st file_stat_size) >>= λ _.
            on_table (file_stat fp) >=> λ state. elim state [
              | none ↦ pure (done (answer e_badf (negsuc 0) tf))
              | some _ ↦ pure (done (answer e_succ (pos 0) tf))
            ]
      ]
