-- ===== src/Fs/Names.antt =====
-- kern/fs/sysfile.c: what `sys_link`, `sys_unlink`, `sys_mkdir`, `sys_chdir` and `sys_open` do to the
-- file system, with the paths in the arrays of the call. The results are error numbers.
use advanced_synchronization.Base.{
  ℕ, zero, suc, ◌+◌, ◌-◌, ◌*◌, ◌==◌, ◌||◌, not, if◌then◌else◌, Bool, true, false, Option, none,
  some, M, pure, check, ◌>>=◌, ◌>>◌,
}
use advanced_synchronization.Fs.Log.{commit_trans}
use advanced_synchronization.Fs.Inode.{
  Files, Outcome, done, on_vol, inode_at, inode_update, inode_lock, inode_unlock,
}
use advanced_synchronization.Fs.Content.{Devsw, inode_write, inode_put, inode_unlockput}
use advanced_synchronization.Fs.Dir.{
  t_dir, dirent_size, de_inum, is_count, get_mem, dir_namecmp, read_entry, entries, dir_lookup,
  dir_link,
}
use advanced_synchronization.Fs.Path.{namei, nameiparent}
use advanced_synchronization.Fs.Create.{
  Frame, e_disk_op, e_nexist, ◌>=>◌, begin_call, is_negative, add_link, drop_link, no_links,
  clear_entry, create,
}
use advanced_synchronization.Trap.Frame.{e_succ}

-- The end of a call in a transaction.
abbrev pub commit_with : ℕ → M Files (Outcome ℕ)
commit_with errno = do on_vol commit_trans; pure (done errno)

module _ (devsw : Devsw) (frame : Frame) (cwd : ℕ) where
  -- The link that was counted is not made.
  unfoldable pub undo_link : ℕ → M Files (Outcome ℕ)
  unfolding inode_lock inode_update inode_unlockput commit_trans
  undo_link ip = inode_lock ip >=> λ _. (do
    drop_link ip
    inode_update ip
    inode_unlockput ip
    commit_with e_disk_op)

  unfoldable pub link_entry : ℕ → ℕ → M Files (Outcome ℕ)
  unfolding dir_link inode_unlockput inode_put commit_trans
  link_entry dp ip = do
    d ← inode_at dp
    i ← inode_at ip
    bad ←
        (if not (d.dev == i.dev)
          then pure true
          else dir_link devsw frame.de dp frame.name i.inum >>= λ r. pure (is_negative r))
    inode_unlockput dp
    if bad then undo_link ip else (do inode_put ip; commit_with e_succ)

  -- In the transaction, with the inode of the old path.
  unfoldable pub link_inode : ℕ → M Files (Outcome ℕ)
  unfolding inode_lock inode_update inode_unlock inode_unlockput nameiparent commit_trans
  link_inode ip = inode_lock ip >=> λ _. inode_at ip >>= λ i.
      if i.type == t_dir
      then (do inode_unlockput ip; commit_with e_disk_op)
      else add_link ip
        >> inode_update ip
        >> inode_unlock ip
        >> nameiparent devsw frame.de frame.fuel cwd frame.new frame.name
        >=> λ parent. elim parent [
          | none ↦ undo_link ip
          | some dp ↦ inode_lock dp >=> λ _. link_entry dp ip
        ]

  -- The name in `frame.new` becomes a link to the inode of `frame.path`.
  unfoldable pub link_path : M Files (Outcome ℕ)
  unfolding namei
  link_path = namei devsw frame.de frame.fuel cwd frame.path frame.elem >=> λ old. elim old [
    | none ↦ pure (done e_nexist)
    | some ip ↦ begin_call >=> λ _. link_inode ip
  ]

  -- The loop of `isdirempty` from the offset `off` on, with the rounds left.
  unfoldable pub empty_from : ℕ → ℕ → ℕ → M Files Bool
  unfolding read_entry
  empty_from zero dp off = pure true
  empty_from (suc n) dp off = read_entry devsw frame.de dp off >> get_mem >>= λ m.
      elim (de_inum m frame.de == 0) [
        | true ↦ empty_from n dp (off + dirent_size)
        | false ↦ pure false
      ]

  unfoldable pub isdirempty : ℕ → M Files Bool
  isdirempty dp = inode_at dp >>= λ d. empty_from (entries devsw d.size - 2) dp (2 * dirent_size)

  -- The parent is given back, with nothing removed.
  unfoldable pub refuse_unlink : ℕ → M Files (Outcome ℕ)
  unfolding inode_unlockput commit_trans
  refuse_unlink dp = do inode_unlockput dp; commit_with e_disk_op

  -- The entry is zeroed and the links are counted down.
  unfoldable pub remove_entry : ℕ → ℕ → ℕ → Bool → M Files (Outcome ℕ)
  unfolding inode_write inode_update inode_unlockput commit_trans
  remove_entry dp ip off is_dir = do
    clear_entry frame.de
    r ← inode_write devsw dp frame.de off dirent_size
    check (is_count r dirent_size)
    if is_dir then (do drop_link dp; inode_update dp) else pure tt
    inode_unlockput dp
    drop_link ip
    inode_update ip
    inode_unlockput ip
    commit_with e_succ

  -- With the inode of the entry locked.
  unfoldable pub unlink_entry : ℕ → ℕ → ℕ → M Files (Outcome ℕ)
  unfolding inode_unlockput
  unlink_entry dp ip off = do
    i ← inode_at ip
    check (not (no_links i.nlink))
    is_empty ← (if i.type == t_dir then isdirempty ip else pure true)
    if is_empty
        then remove_entry dp ip off (i.type == t_dir)
        else (do inode_unlockput ip; refuse_unlink dp)

  -- In the transaction, with the parent locked.
  unfoldable pub unlink_in : ℕ → M Files (Outcome ℕ)
  unfolding dir_namecmp dir_lookup inode_lock
  unlink_in dp = get_mem >>= λ m.
      if is_count (dir_namecmp m frame.name frame.dot) 0
        || is_count (dir_namecmp m frame.name frame.dotdot) 0
      then refuse_unlink dp
      else dir_lookup devsw frame.de dp frame.name >>= λ entry. elim entry [
        | none ↦ refuse_unlink dp
        | some (ip, off) ↦ inode_lock ip >=> λ _. unlink_entry dp ip off
      ]

  unfoldable pub unlink_path : M Files (Outcome ℕ)
  unfolding nameiparent inode_lock
  unlink_path = nameiparent devsw frame.de frame.fuel cwd frame.path frame.name >=> λ parent.
      elim parent [
        | none ↦ pure (done e_disk_op)
        | some dp ↦ begin_call >=> λ _. inode_lock dp >=> λ _. unlink_in dp
      ]

  unfoldable pub mkdir : M Files (Outcome ℕ)
  unfolding inode_unlockput commit_trans
  mkdir = begin_call >=> λ _. create devsw frame cwd t_dir 0 0 >=> λ made. elim made [
    | none ↦ commit_with e_disk_op
    | some ip ↦ (do inode_unlockput ip; commit_with e_succ)
  ]

  -- The new working directory, if the path leads to one; the old one is put back then.
  unfoldable pub chdir : M Files (Outcome (Option ℕ))
  unfolding namei inode_lock inode_unlock inode_unlockput inode_put
  chdir = namei devsw frame.de frame.fuel cwd frame.path frame.elem >=> λ found. elim found [
    | none ↦ pure (done none)
    | some ip ↦ inode_lock ip >=> λ _. inode_at ip >>= λ i.
        if not (i.type == t_dir)
        then (do inode_unlockput ip; pure (done none))
        else (do inode_unlock ip; inode_put cwd; pure (done (some ip)))
  ]
