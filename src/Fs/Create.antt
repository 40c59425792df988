-- ===== src/Fs/Create.antt =====
-- kern/fs/sysfile.c: making, linking and removing the names of files. The calls run in a kernel stack
-- frame whose arrays are at the addresses of `Frame`; `cwd` is the working directory of the caller.
use advanced_synchronization.Base.{
  ℕ, ◌+◌, ◌-◌, ◌%◌, ◌^◌, ltb, ◌==◌, ◌&&◌, ◌||◌, not, if◌then◌else◌, Bool, true, false, Option, none,
  some, ℤ, pos, negsuc, M, pure, check, ◌>>=◌, ◌>>◌,
}
use advanced_synchronization.Fs.Log.{begun, waits, begin_trans}
use advanced_synchronization.Fs.Inode.{
  Files, Outcome, done, asleep, on_vol, inode_at, write_inode, inode_update, inode_lock,
}
use advanced_synchronization.Fs.Content.{Devsw, inode_alloc, inode_unlockput}
use advanced_synchronization.Fs.Dir.{t_dir, dirent_size, set_mem, dir_lookup, dir_link}
use advanced_synchronization.Fs.Path.{nameiparent}

abbrev pub t_file : ℕ
t_file = 2

abbrev pub e_disk_op : ℕ
e_disk_op = 13

abbrev pub e_nexist : ℕ
e_nexist = 26

-- A call that may end at a switch of contexts, and what comes after it otherwise.
infixl 5 ◌>=>◌
abbrev pub ◌>=>◌ : {S A B : Type 0} → M S (Outcome A) → (A → M S (Outcome B)) → M S (Outcome B)
m >=> f = m >>= λ r. elim r [ asleep ↦ pure asleep | done a ↦ f a ]

unfoldable pub begin_call : M Files (Outcome (Unit {0}))
unfolding begin_trans
begin_call = on_vol begin_trans >>= λ b. elim b [ waits ↦ pure asleep | begun ↦ pure (done tt) ]

abbrev pub is_negative : ℤ → Bool
is_negative (negsuc _) = true
is_negative (pos _) = false

-- `nlink` is a `short`.
abbrev pub add_link : ℕ → M Files (Unit {0})
add_link ip = write_inode ip λ i. record i { nlink = (i.nlink + 1) % 2 ^ 16 }

abbrev pub drop_link : ℕ → M Files (Unit {0})
drop_link ip = write_inode ip λ i. record i { nlink = (i.nlink + (2 ^ 16 - 1)) % 2 ^ 16 }

-- A `nlink` that is below 1 as a `short`.
abbrev pub no_links : ℕ → Bool
no_links n = n == 0 || not (ltb n (2 ^ 15))

-- `name`, `path`, `new` (of `sys_link`) and `elem` (of `namei`) are arrays, `de` is a `struct dirent`, `dot` and `dotdot`
-- are the strings "." and "..". `fuel` is for the loops over the bytes of a path.
pub record Frame : Type 0 where
  pub name : ℕ
  pub elem : ℕ
  pub path : ℕ
  pub new : ℕ
  pub de : ℕ
  pub dot : ℕ
  pub dotdot : ℕ
  pub fuel : ℕ

-- `memset(&de, 0, sizeof(de))`.
abbrev pub clear_entry : ℕ → M Files (Unit {0})
clear_entry de = set_mem λ m a. if not (ltb a de) && ltb a (de + dirent_size) then 0 else m a

module _ (devsw : Devsw) (frame : Frame) (cwd : ℕ) where
  -- The entry of the name is there already, with the inode `ip`.
  unfoldable pub existing : ℕ → ℕ → ℕ → M Files (Outcome (Option ℕ))
  unfolding inode_unlockput inode_lock
  existing type dp ip = inode_unlockput dp >> inode_lock ip >=> λ _. inode_at ip >>= λ i.
      if type == t_file && i.type == t_file
      then pure (done (some ip))
      else (do inode_unlockput ip; pure (done none))

  -- The entries "." and ".." of a new directory.
  unfoldable pub link_dots : ℕ → ℕ → M Files (Unit {0})
  unfolding inode_update dir_link
  link_dots dp ip = do
    add_link dp
    inode_update dp
    i ← inode_at ip
    r ← dir_link devsw frame.de ip frame.dot i.inum
    check (not (is_negative r))
    d ← inode_at dp
    r' ← dir_link devsw frame.de ip frame.dotdot d.inum
    check (not (is_negative r'))

  -- A new inode under the name in `frame.name`.
  unfoldable pub create_in : ℕ → ℕ → ℕ → ℕ → M Files (Outcome (Option ℕ))
  unfolding inode_alloc inode_lock inode_update dir_link inode_unlockput
  create_in type major minor dp = inode_at dp >>= λ d. inode_alloc d.dev type >>= λ ip.
      inode_lock ip >=> λ _. (do
        write_inode ip (λ i. record i { major = major; minor = minor; nlink = 1 })
        inode_update ip
        if type == t_dir then link_dots dp ip else pure tt
        i ← inode_at ip
        r ← dir_link devsw frame.de dp frame.name i.inum
        check (not (is_negative r))
        inode_unlockput dp
        pure (done (some ip)))

  -- The inode of the path is locked on return.
  unfoldable pub create : ℕ → ℕ → ℕ → M Files (Outcome (Option ℕ))
  unfolding nameiparent inode_lock dir_lookup
  create type major minor =
      nameiparent devsw frame.de frame.fuel cwd frame.path frame.name >=> λ parent. elim parent [
        | none ↦ pure (done none)
        | some dp ↦ inode_lock dp >=> λ _. dir_lookup devsw frame.de dp frame.name >>= λ entry.
            elim entry [
              | none ↦ create_in type major minor dp
              | some (ip, off) ↦ existing type dp ip
            ]
      ]
