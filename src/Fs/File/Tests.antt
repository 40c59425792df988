-- ===== src/Fs/File/Tests.antt =====
-- The theorems on inodes, open files and paths at a cache with one inode, busy, of a file of 600 bytes.
use advanced_synchronization.Base.{
  false, some, inr, ℕ, ◌≡◌, refl, inl, none, ◌==◌, if◌then◌else◌, arith, [], ◌∷◌, Returns, pos,
}
use advanced_synchronization.Bits.{test_bit}
use advanced_synchronization.Thread.Scheduler.Tests.{tables, tables-IsScheduled, free_lock}
use advanced_synchronization.Thread.Scheduler.Sleep.{Slept}
use advanced_synchronization.Trap.Frame.{Regs, e_succ}
use advanced_synchronization.Fs.Calls.{Calls, answer}
use advanced_synchronization.Fs.Open.{install}
use advanced_synchronization.Fs.Open.Install.{Installed, install-Installed}
use advanced_synchronization.Fs.Disk.{Volume}
use advanced_synchronization.Fs.Inode.{Inode, Files, done, asleep, inode_get, inode_lock}
use advanced_synchronization.Fs.Inode.Cache.{IsUnique, Got, inode_get-Got}
use advanced_synchronization.Fs.Inode.Locking.{lock_waits}
use advanced_synchronization.Fs.Content.{Devsw, inode_read}
use advanced_synchronization.Fs.Content.Read.{ReadInto, inode_read-ReadInto}
use advanced_synchronization.Fs.File.{Ftable, fd_none, fd_inode}
use advanced_synchronization.Fs.Path.{skipelem}
use advanced_synchronization.Fs.Path.Element.{ElementCut, skipelem-Element}

-- The block `x` is filled with `x`.
abbrev volume : Volume
volume = record {
  disk = λ x _. x;
  view = λ x _. x;
  writes = [];
  log = record {
    lock = free_lock;
    start = 100;
    size = 8;
    busy = 0;
    lh = record { n = 0; sector = λ _. 0 };
  };
  log_addr = 5000;
  sched = tables;
}

abbrev inode : ℕ → Inode
inode i =
    if i == 0
    then record {
      dev = 1;
      inum = 5;
      ref = 1;
      flags = 3;
      type = 2;
      major = 0;
      minor = 0;
      nlink = 1;
      size = 600;
      addrs = λ a. if a == 0 then 30 else if a == 1 then 31 else 0;
    }
    else record {
      dev = 0;
      inum = 0;
      ref = 0;
      flags = 0;
      type = 0;
      major = 0;
      minor = 0;
      nlink = 0;
      size = 0;
      addrs = λ _. 0;
    }

abbrev files : Files
files = record {
  vol = volume;
  cache_lock = free_lock;
  inodes = inode;
  inode_base = 1048;
  mem = λ _. 0;
}

files-IsUnique : IsUnique inode
files-IsUnique i j dev inum l m p q = ground (arith, p.0, q.0)

inode_get-Got_example : Returns (λ i k'. Got files k' 1 7 i) (inode_get 1 7 files)
inode_get-Got_example =
    inode_get-Got files 1 7 1 refl files-IsUnique (λ i l. ground arith) (omega arith) (inl refl)

lock_waits_example :
    Returns
      (λ r k'.
        (r ≡ asleep) × Slept k'.vol.sched 0 1048 k'.cache_lock 1 (2 ∷ []) × (k'.inodes ≡ inode))
      (inode_lock 0 files)
unfolding test_bit
lock_waits_example = lock_waits files 0 1 (2 ∷ []) (omega arith) refl refl refl tables-IsScheduled

abbrev no_devices : Devsw
no_devices = record { read = λ _. none; write = λ _. none }

-- The bytes 500 to 599, of two blocks.
inode_read-ReadInto_example :
    Returns
      (λ r k'. (r ≡ pos 100) × ReadInto files k' 0 100 500 9000)
      (inode_read no_devices 0 9000 500 200 files)
inode_read-ReadInto_example =
    inode_read-ReadInto no_devices files 0 9000 500 200 (omega arith) (λ e. omega (arith, e))
      (omega arith) (omega arith) (λ a h. inl (omega arith, λ e. ground (arith, e, h)))

abbrev table : Ftable
table = record {
  lock = free_lock;
  file = λ f.
      if f == 0
      then record { type = fd_inode; ref = 2; readable = 1; writable = 1; ip = 0; off = 0 }
      else record { type = fd_none; ref = 0; readable = 0; writable = 0; ip = 0; off = 0 };
  files = files;
}

-- The path "/ab//c" at 100.
abbrev path : ℕ → ℕ
path a =
    if a == 101
    then 97
    else if a == 102
    then 98
    else if a == 105
    then 99
    else if a == 106
    then 0
    else 47

abbrev with_path : Files
with_path = record files { mem = path }

skipelem-Element_example :
    Returns
      (λ q k'.
        (q ≡ some 105)
        × ElementCut path k'.mem 101 2 500
        × (k' ≡ record with_path { mem = k'.mem }))
      (skipelem 10 100 500 with_path)
skipelem-Element_example =
    skipelem-Element with_path 10 100 101 103 105 500
      (record {
        leading = (omega arith, λ a l u. ground arith);
        named =
            (omega arith, λ a l u. (λ e. ground (arith, e, l, u), λ e. ground (arith, e, l, u)));
        not_empty = omega arith;
        name_end = inl refl;
        trailing = (omega arith, λ a l u. ground arith);
        rest_start = λ e. omega (arith, e);
      })
      (omega arith) (inr (omega arith))

-- The descriptor 0 is open on the file 0.
abbrev calls : Calls
calls = record {
  table = table;
  openfiles = λ p g. if g == 0 then some 0 else none;
  curid = 0;
  buf_lock = free_lock;
  kern_buf = 20000;
  cwd = λ _. 0;
  first = false;
}

abbrev regs : Regs
regs = record { edi = 0; esi = 0; ebp = 0; oesp = 0; ebx = 0; edx = 0; ecx = 2; eax = 5 }

install-Installed_example :
    Returns
      (λ r c'. (r ≡ done (answer e_succ (pos 1) regs)) × Installed calls c' 0 2 1 1 (1 ∷ 2 ∷ []))
      (install 0 2 regs calls)
unfolding test_bit
install-Installed_example =
    install-Installed 0 2 1 1 regs calls (1 ∷ 2 ∷ []) refl (omega arith) refl
      (λ g l. ground (arith, l)) (omega arith) refl (λ g l. ground (arith, l)) (omega arith) refl
      refl refl tables-IsScheduled
