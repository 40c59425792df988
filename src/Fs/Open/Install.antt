-- ===== src/Fs/Open/Install.antt =====
-- kern/fs/sysfile.c: `sys_open` from the locked inode to the descriptor.
use advanced_synchronization.Base.{
  ℕ, zero, suc, ◌+◌, ◌<◌, ◌≤◌, ◌≡◌, ◌≢◌, refl, sym, subst, ◌∙◌, inl, inr, true, false, ◌==◌,
  Bool-cases, ==→eq, eq→==, ne→==, lt→ltb, Option, none, some, is_null, update, pos, List, M, pure,
  ◌>>=◌, ◌>>◌, Returns, Returns-bind, Returns-step, arith,
}
use advanced_synchronization.Bits.{test_bit}
use advanced_synchronization.Spinlock
use advanced_synchronization.Spinlock.{IsFree}
use advanced_synchronization.Thread.Scheduler.Invariant.{IsScheduled}
use advanced_synchronization.Trap.Frame.{Regs, e_succ}
use advanced_synchronization.Fs.Inode.{Files, done, ninode, i_busy, is_positive, inode_unlock}
use advanced_synchronization.Fs.Inode.Locking.{Unlocked, unlock_wakes}
use advanced_synchronization.Fs.File.{
  nfile, File, fd_inode, Ftable, find_file, alloc_found, file_alloc, write_file,
}
use advanced_synchronization.Fs.File.Refs.{held, file_alloc-eq}
use advanced_synchronization.Fs.Calls.{Calls, nofile, on_table, find_fd, fdalloc, answer}
use advanced_synchronization.Fs.Open.{on_fs, opened_file, with_fd, with_file, install}

-- The lowest index from `s` on with a free place.
find_fd-lowest :
    (n s i : ℕ) (fds : ℕ → Option ℕ)
    → s ≤ i
    → i < s + n
    → fds i ≡ none
    → ((j : ℕ) → j < i → is_null (fds j) ≡ false)
    → find_fd n s fds ≡ some i
unfolding find_fd
find_fd-lowest zero s i fds a b free used = absurd (omega (arith, a, b))
find_fd-lowest (suc n) s i fds a b free used = elim (Bool-cases (s == i)) [
  | inl e ↦ rw (==→eq s i e) (hit (fds i) (find_fd n (i + 1) fds) free)
  | inr e ↦
      taken (fds s) (find_fd n (s + 1) fds) (used s (ground (arith, e, a)))
      ∙ find_fd-lowest n (s + 1) i fds (ground (arith, e, a)) (omega (arith, b)) free used
]
  where
    hit : (r rest : Option ℕ) → r ≡ none → elim r [ none ↦ some i | some _ ↦ rest ] ≡ some i
    hit none rest h = refl
    hit (some f) rest h = absurd (cc h)

    taken :
        (r rest : Option ℕ) → is_null r ≡ false → elim r [ none ↦ some s | some _ ↦ rest ] ≡ rest
    taken none rest h = absurd (cc h)
    taken (some f) rest h = refl

find_file-lowest :
    (n s i : ℕ) (file : ℕ → File)
    → s ≤ i
    → i < s + n
    → (file i).ref ≡ 0
    → ((j : ℕ) → j < i → (file j).ref ≢ 0)
    → find_file n s file ≡ some i
unfolding find_file
find_file-lowest zero s i file a b free used = absurd (omega (arith, a, b))
find_file-lowest (suc n) s i file a b free used = elim (Bool-cases (s == i)) [
  | inl e ↦ rw (==→eq s i e, free) refl
  | inr e ↦
      rw (ne→== (file s).ref 0 (used s (ground (arith, e, a))))
        (find_file-lowest n (s + 1) i file (ground (arith, e, a)) (omega (arith, b)) free used)
]

on_fs-Returns :
    {A : Type 0} (P : A → Files → Type 0) (m : M Files A) (c : Calls)
    → Returns P (m c.table.files)
    → Returns
        (λ a c'.
          P a c'.table.files
          × (c' ≡ record c { table = record c.table { files = c'.table.files } }))
        (on_fs m c)
on_fs-Returns {A} P m c h = go (m c.table.files) h
  where
    go :
        (r : Option (A × Files))
        → Returns P r
        → Returns {S = Calls}
            (λ a c'.
              P a c'.table.files
              × (c' ≡ record c { table = record c.table { files = c'.table.files } }))
            (elim (elim r as (λ _. Option (A × Ftable)) [
              | none ↦ none
              | some (a, k) ↦ some (a, record c.table { files = k })
            ]) [ none ↦ none | some (a, t) ↦ some (a, record c { table = t }) ])
    go none h = h
    go (some (a, k)) h = (h, refl)

-- The state with the file `f` allocated, and then with the descriptor too.
abbrev with_ref : ℕ → Calls → Calls
with_ref f c = record c {
  table = record c.table {
    file = update c.table.file f (record (c.table.file f) { ref = 1 });
    lock = Spinlock.spinlock_release (held c.table);
  };
}

abbrev with_descriptor : ℕ → ℕ → Calls → Calls
with_descriptor f fd c = record c {
  openfiles = update c.openfiles c.curid (update (c.openfiles c.curid) fd (some f));
}

alloc-eq :
    (f : ℕ) (c : Calls)
    → IsFree c.table.lock
    → f < nfile
    → find_file nfile 0 c.table.file ≡ some f
    → on_table file_alloc c ≡ some (some f, with_ref f c)
unfolding alloc_found
alloc-eq f c free l e = rw (on_table, file_alloc-eq c.table free, e, lt→ltb f nfile l) refl

fd-eq :
    (f fd : ℕ) (c : Calls)
    → find_fd nofile 0 (c.openfiles c.curid) ≡ some fd
    → fdalloc f c ≡ some (pos fd, with_descriptor f fd c)
unfolding fdalloc
fd-eq f fd c e = rw (e, ◌>>=◌) refl

-- A file with one reference, at the start of the inode `ip`, with the rights of the mode: the bit 0 of
-- `omode` asks for writing only, the bit 1 for reading and writing.
pub record IsOpenedAs (ip omode : ℕ) (f : File) : Type 0 where
  pub type : f.type ≡ fd_inode
  pub referenced : f.ref ≡ 1
  pub inode : f.ip ≡ ip
  pub at_start : f.off ≡ 0
  pub read_right : test_bit omode 0 ≡ false → f.readable ≡ 1
  pub no_read_right : test_bit omode 0 ≡ true → f.readable ≡ 0
  pub write_only : test_bit omode 0 ≡ true → f.writable ≡ 1
  pub read_write : test_bit omode 1 ≡ true → f.writable ≡ 1
  pub read_only : test_bit omode 0 ≡ false → test_bit omode 1 ≡ false → f.writable ≡ 0

opened_file-IsOpenedAs :
    (ip omode : ℕ) (f : File) → IsOpenedAs ip omode (opened_file ip omode (record f { ref = 1 }))
opened_file-IsOpenedAs ip omode f = record {
  type = refl;
  referenced = refl;
  inode = refl;
  at_start = refl;
  read_right = λ e. rw e refl;
  no_read_right = λ e. rw e refl;
  write_only = λ e. rw e refl;
  read_write = λ e. ground (arith, e);
  read_only = λ a b. rw (a, b) refl;
}

-- The descriptor `fd` is open on the inode `ip`, in the file `f`.
pub record Installed (c c' : Calls) (ip omode f fd : ℕ) (xs : List ℕ) : Type 0 where
  pub descriptor : c'.openfiles c.curid fd ≡ some f
  pub descriptors : (g : ℕ) → g ≢ fd → c'.openfiles c.curid g ≡ c.openfiles c.curid g
  pub threads : (p : ℕ) → p ≢ c.curid → c'.openfiles p ≡ c.openfiles p
  pub opened_as : IsOpenedAs ip omode (c'.table.file f)
  pub files : (g : ℕ) → g ≢ f → c'.table.file g ≡ c.table.file g
  pub unlocked : Unlocked c.table.files c'.table.files ip xs

-- The state behind `inode_unlock`, and the last writes.
abbrev unlocked_at : ℕ → ℕ → Calls → Files → Calls
unlocked_at f fd c k' = record (with_descriptor f fd (with_ref f c)) {
  table = record (with_ref f c).table { files = k' };
}

last_writes :
    (ip omode f fd : ℕ) (tf : Regs) (c : Calls) (xs : List ℕ) (k' : Files)
    → f < nfile
    → Unlocked c.table.files k' ip xs
    → Returns
        (λ r c'. (r ≡ done (answer e_succ (pos fd) tf)) × Installed c c' ip omode f fd xs)
        ((on_table (write_file f (opened_file ip omode)) >> pure (done (answer e_succ (pos fd) tf)))
          (unlocked_at f fd c k'))
last_writes ip omode f fd tf c xs k' l u =
    rw (◌>>◌, ◌>>=◌, on_table, lt→ltb f nfile l)
      (
        refl,
        record {
          descriptor = ground arith;
          descriptors = λ g ne. ground (arith, ne);
          threads = λ p ne. ground (arith, ne);
          opened_as = rw (eq→== f f refl) (opened_file-IsOpenedAs ip omode (c.table.file f));
          files = λ g ne. ground (arith, ne);
          unlocked = u;
        },
      )

-- With the inode `ip` locked by the caller, `f` the first entry of the file table without references
-- and `fd` the first free descriptor of the process, on scheduled tables and with the locks free:
-- the rest of `sys_open`, which is `install`, returns the descriptor `fd`, which is open on the file `f`
-- with one reference, the inode and the offset 0; it may be read unless O_WRONLY is set, and written
-- when O_WRONLY or O_RDWR is. No other descriptor or file has changed; the inode is
-- unlocked, and those that waited for it are ready to run.
pub install-Installed :
    (ip omode f fd : ℕ) (tf : Regs) (c : Calls) (xs : List ℕ)
    → IsFree c.table.lock
    → f < nfile
    → (c.table.file f).ref ≡ 0
    → ((g : ℕ) → g < f → (c.table.file g).ref ≢ 0)
    → fd < nofile
    → c.openfiles c.curid fd ≡ none
    → ((g : ℕ) → g < fd → is_null (c.openfiles c.curid g) ≡ false)
    → ip < ninode
    → is_positive (c.table.files.inodes ip).ref ≡ true
    → test_bit (c.table.files.inodes ip).flags i_busy ≡ true
    → IsFree c.table.files.cache_lock
    → IsScheduled c.table.files.vol.sched xs
    → Returns
        (λ r c'. (r ≡ done (answer e_succ (pos fd) tf)) × Installed c c' ip omode f fd xs)
        (install ip omode tf c)
unfolding install with_file with_fd
install-Installed ip omode f fd tf c xs free lf unused first lfd closed used li referenced busy idle
      sch =
    Returns-step _ (on_table file_alloc) (with_file ip omode tf) c (with_ref f c) (some f)
      (alloc-eq f c free lf (find_file-lowest nfile 0 f c.table.file (omega arith) lf unused first))
      (Returns-step _ (fdalloc f) (with_fd ip omode f tf) (with_ref f c)
        (with_descriptor f fd (with_ref f c)) (pos fd)
        (fd-eq f fd (with_ref f c)
          (find_fd-lowest nofile 0 fd (c.openfiles c.curid) (omega arith) lfd closed used))
        (Returns-bind _ _ (on_fs (inode_unlock ip)) _ (with_descriptor f fd (with_ref f c))
          (on_fs-Returns (λ _ k'. Unlocked c.table.files k' ip xs) (inode_unlock ip)
            (with_descriptor f fd (with_ref f c))
            (unlock_wakes c.table.files ip xs li referenced busy idle sch))
          λ _ c' q.
            subst
              (λ t.
                Returns
                  (λ r c'. (r ≡ done (answer e_succ (pos fd) tf)) × Installed c c' ip omode f fd xs)
                  ((on_table (write_file f (opened_file ip omode))
                      >> pure (done (answer e_succ (pos fd) tf)))
                    t))
              (sym q.1) (last_writes ip omode f fd tf c xs c'.table.files lf q.0)))
