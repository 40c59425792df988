-- ===== src/Fs/File.antt =====
-- kern/fs/file.c: the table of open files. A pointer to an entry is its index.
pub mod Refs
mod Tests
use advanced_synchronization.Base.{
  ℕ, zero, suc, ◌+◌, ◌-◌, ◌*◌, ◌/◌, ◌^◌, ltb, leb, ◌==◌, not, ◌&&◌, if◌then◌else◌, Bool, true,
  false, Option, none, some, update, u32, ℤ, pos, negsuc, M, pure, stop, check, ◌>>=◌, ◌>>◌,
}
use advanced_synchronization.Spinlock
use advanced_synchronization.Spinlock.{Spinlock}
use advanced_synchronization.Fs.Log.{Begun, begun, waits, logsize, begin_trans, commit_trans}
use advanced_synchronization.Fs.Inode.{
  Files, Outcome, done, asleep, on_vol, is_positive, inode_lock, inode_unlock,
}
use advanced_synchronization.Fs.Content.{
  Devsw, FileStat, inode_put, inode_stat, inode_read, inode_write,
}

abbrev pub nfile : ℕ
nfile = 100

pub data FileType : Type 0 where
  fd_none fd_pipe fd_inode : FileType

-- `ref` holds the bits of an `int`; `ip` is an index of the inode cache.
pub record File : Type 0 where
  pub type : FileType
  pub ref : ℕ
  pub readable : ℕ
  pub writable : ℕ
  pub ip : ℕ
  pub off : ℕ

pub record Ftable : Type 0 where
  pub lock : Spinlock
  pub file : ℕ → File
  pub files : Files

abbrev pub on_files : {A : Type 0} → M Files A → M Ftable A
on_files m t = elim (m t.files) [ none ↦ none | some (a, k) ↦ some (a, record t { files = k }) ]

abbrev pub file_at : ℕ → M Ftable File
file_at f t = if ltb f nfile then some (t.file f, t) else none

abbrev pub write_file : ℕ → (File → File) → M Ftable (Unit {0})
write_file f g t =
    if ltb f nfile then some (tt, record t { file = update t.file f (g (t.file f)) }) else none

abbrev pub acquire_ftable : M Ftable (Unit {0})
acquire_ftable t = elim (Spinlock.spinlock_acquire t.files.vol.sched.pcpu_idx t.lock) [
  | none ↦ none
  | some lk ↦ some (tt, record t { lock = lk })
]

abbrev pub release_ftable : M Ftable (Unit {0})
release_ftable t = some (tt, record t { lock = Spinlock.spinlock_release t.lock })

unfoldable pub file_init : M Ftable (Unit {0})
unfolding Spinlock.spinlock_init
file_init t = some (tt, record t { lock = Spinlock.spinlock_init })

-- The loop of `file_alloc` from the entry `f` on.
unfoldable pub find_file : ℕ → ℕ → (ℕ → File) → Option ℕ
find_file zero f file = none
find_file (suc n) f file =
    let rest = find_file n (f + 1) file in if (file f).ref == 0 then some f else rest

-- What follows the loop, or is in it for the entry found.
unfoldable pub alloc_found : Option ℕ → M Ftable (Option ℕ)
unfolding Spinlock.spinlock_release
alloc_found (some f) = do write_file f (λ e. record e { ref = 1 }); release_ftable; pure (some f)
alloc_found none = do release_ftable; pure none

unfoldable pub file_alloc : M Ftable (Option ℕ)
unfolding Spinlock.spinlock_acquire
file_alloc = do acquire_ftable; λ t. alloc_found (find_file nfile 0 t.file) t

unfoldable pub file_dup : ℕ → M Ftable ℕ
unfolding Spinlock.spinlock_acquire Spinlock.spinlock_release
file_dup f = do
  acquire_ftable
  e ← file_at f
  check (is_positive e.ref)
  write_file f (λ e'. record e' { ref = u32 (e'.ref + 1) })
  release_ftable
  pure f

-- What `file_close` does with the entry, the lock held: the entry as it was if it was the last
-- reference.
unfoldable pub drop_ref : ℕ → M Ftable (Option File)
unfolding Spinlock.spinlock_release
drop_ref f = do
  e ← file_at f
  check (is_positive e.ref)
  if ltb 1 e.ref
      then (do write_file f (λ e'. record e' { ref = e'.ref - 1 }); release_ftable; pure none)
      else (do
        write_file f (λ e'. record e' { ref = 0; type = fd_none })
        release_ftable
        pure (some e))

-- The inode of a closed file is put in a transaction of its own.
unfoldable pub put_in_trans : ℕ → M Files (Outcome (Unit {0}))
unfolding begin_trans commit_trans
put_in_trans ip = on_vol begin_trans >>= λ b. elim b [
  | waits ↦ pure asleep
  | begun ↦ (do inode_put ip; on_vol commit_trans; pure (done tt))
]

unfoldable pub file_close : ℕ → M Ftable (Outcome (Unit {0}))
unfolding Spinlock.spinlock_acquire
file_close f = do
  acquire_ftable
  last ← drop_ref f
  elim last [
    | none ↦ pure (done tt)
    | some ff ↦ elim ff.type [ fd_inode ↦ on_files (put_in_trans ff.ip) | _ ↦ pure (done tt) ]
  ]

-- The inode locked, a call on it, and the inode unlocked.
unfoldable pub with_inode : {A : Type 0} → ℕ → M Ftable A → M Ftable (Outcome A)
unfolding inode_lock inode_unlock
with_inode ip m = on_files (inode_lock ip) >>= λ r. elim r [
  | asleep ↦ pure asleep
  | done _ ↦ (do a ← m; on_files (inode_unlock ip); pure (done a))
]

-- `none` for the result -1.
unfoldable pub file_stat : ℕ → M Ftable (Outcome (Option FileStat))
unfolding inode_stat
file_stat f = file_at f >>= λ e. elim e.type [
  | fd_inode ↦ with_inode e.ip (do st ← on_files (inode_stat e.ip); pure (some st))
  | _ ↦ pure (done none)
]

-- The offset moves by what was read or written.
abbrev pub advance : ℕ → ℤ → M Ftable (Unit {0})
advance f (pos r) = write_file f (λ e. record e { off = u32 (e.off + r) })
advance f (negsuc r) = pure tt

-- The bytes of a transaction of `file_write`.
abbrev pub max_write : ℕ
max_write = (logsize - 1 - 1 - 2) / 2 * 512

module _ (devsw : Devsw) where
  unfoldable pub file_read : ℕ → ℕ → ℕ → M Ftable (Outcome ℤ)
  unfolding inode_read
  file_read f addr n = file_at f >>= λ e.
      if e.readable == 0 then pure (done (negsuc 0)) else elim e.type [
        | fd_inode ↦
            with_inode e.ip
              (do r ← on_files (inode_read devsw e.ip addr e.off n); advance f r; pure r)
        | _ ↦ stop
      ]

  -- The transaction of a round of `file_write`.
  unfoldable pub write_round : ℕ → ℕ → ℕ → M Ftable (Outcome ℤ)
  unfolding begin_trans commit_trans inode_write
  write_round f addr n1 = on_files (on_vol begin_trans) >>= λ b. elim b [
    | waits ↦ pure asleep
    | begun ↦ (do
      e ← file_at f
      r ←
          with_inode e.ip
            (do r ← on_files (inode_write devsw e.ip addr e.off n1); advance f r; pure r)
      elim r [ asleep ↦ pure asleep | done a ↦ (do on_files (on_vol commit_trans); pure (done a)) ])
  ]

  -- The loop of `file_write`, `left` being `n - i`; a round writes a byte at least or ends the loop.
  -- The result is whether all was written.
  unfoldable pub write_rounds : ℕ → ℕ → ℕ → ℕ → M Ftable (Outcome Bool)
  write_rounds zero f addr left = pure (done (left == 0))
  write_rounds (suc fuel) f addr left =
      if left == 0
      then pure (done true)
      else (let n1 = if ltb max_write left then max_write else left in
          write_round f addr n1 >>= λ r. elim r [
            | asleep ↦ pure asleep
            | done (negsuc _) ↦ pure (done false)
            | done (pos m) ↦ check (m == n1) >> write_rounds fuel f (addr + n1) (left - n1)
          ])

  unfoldable pub file_write : ℕ → ℕ → ℕ → M Ftable (Outcome ℤ)
  file_write f addr n = file_at f >>= λ e.
      if e.writable == 0 then pure (done (negsuc 0)) else elim e.type [
        | fd_inode ↦ write_rounds n f addr n >>= λ r. elim r [
          | asleep ↦ pure asleep
          | done all ↦ pure (done (if all then pos n else negsuc 0))
        ]
        | _ ↦ stop
      ]
