-- ===== src/Fs/Inode.antt =====
-- kern/fs/inode.c: the cache of inodes and the content of files. A pointer to an entry of the cache is
-- its index; the device is ROOTDEV. A call that sleeps ends at the switch of contexts.

pub mod Cache
pub mod Locking
use advanced_synchronization.Base.{
  ℕ, zero, suc, ◌+◌, ◌-◌, ◌*◌, ◌/◌, ◌%◌, ◌^◌, ltb, leb, ◌==◌, not, ◌&&◌, ◌||◌, if◌then◌else◌, Bool,
  true, false, Option, none, some, update, u32, M, pure, stop, check, ◌>>=◌, ◌>>◌,
}
use advanced_synchronization.Bits.{test_bit, set_bit, clear_bit}
use advanced_synchronization.Spinlock
use advanced_synchronization.Spinlock.{Spinlock}
use advanced_synchronization.Thread.Tcb.{Sched}
use advanced_synchronization.Thread.Scheduler.{thread_sleep, thread_sleep_resumed, thread_wakeup}
use advanced_synchronization.Fs.Disk.{Block, Buf, Volume, get32, set32, bufcache_read}
use advanced_synchronization.Fs.Log.{log_write}
use advanced_synchronization.Fs.Block.{ipb, Superblock, read_superblock}

abbrev pub ninode : ℕ
ninode = 50

abbrev pub ndirect : ℕ
ndirect = 12

abbrev pub nindirect : ℕ
nindirect = 128

-- The bits of `flags`: I_BUSY and I_VALID.
abbrev pub i_busy : ℕ
i_busy = 0

abbrev pub i_valid : ℕ
i_valid = 1

-- `int` and `int16_t` fields hold the bits of their numbers.
pub record Inode : Type 0 where
  pub dev : ℕ
  pub inum : ℕ
  pub ref : ℕ
  pub flags : ℕ
  pub type : ℕ
  pub major : ℕ
  pub minor : ℕ
  pub nlink : ℕ
  pub size : ℕ
  pub addrs : ℕ → ℕ

-- The volume, the inode cache at `inode_base`, and the memory of the kernel that data is copied to and
-- from.
pub record Files : Type 0 where
  pub vol : Volume
  pub cache_lock : Spinlock
  pub inodes : ℕ → Inode
  pub inode_base : ℕ
  pub mem : ℕ → ℕ

-- What a call comes to that may switch to another thread.
pub data Outcome (A : Type 0) : Type 0 where
  done : A → Outcome A
  asleep : Outcome A

abbrev pub on_vol : {A : Type 0} → M Volume A → M Files A
on_vol m k = elim (m k.vol) [ none ↦ none | some (a, v) ↦ some (a, record k { vol = v }) ]

abbrev pub inode_at : ℕ → M Files Inode
inode_at i k = if ltb i ninode then some (k.inodes i, k) else none

abbrev pub write_inode : ℕ → (Inode → Inode) → M Files (Unit {0})
write_inode i f k =
    if ltb i ninode
    then some (tt, record k { inodes = update k.inodes i (f (k.inodes i)) })
    else none

abbrev pub acquire_cache : M Files (Unit {0})
acquire_cache k = elim (Spinlock.spinlock_acquire k.vol.sched.pcpu_idx k.cache_lock) [
  | none ↦ none
  | some lk ↦ some (tt, record k { cache_lock = lk })
]

abbrev pub release_cache : M Files (Unit {0})
release_cache k = some (tt, record k { cache_lock = Spinlock.spinlock_release k.cache_lock })

-- The address of an entry, which is the channel of those that wait for it.
abbrev pub inode_chan : Files → ℕ → ℕ
inode_chan k i = k.inode_base + 80 * i

abbrev pub woken_in : {A : Type 0} → Files → Option (A × Sched) → Option (A × Files)
woken_in k none = none
woken_in k (some (a, s)) = some (a, record k { vol = record k.vol { sched = s } })

abbrev pub wake_inode : ℕ → M Files (Unit {0})
wake_inode i k = woken_in k (thread_wakeup (inode_chan k i) k.vol.sched)

-- A reference count above 0, as an `int`.
abbrev pub is_positive : ℕ → Bool
is_positive r = not (r == 0) && ltb r (2 ^ 31)

-- A halfword of a block, with the low byte first, and the block that has the inode.
abbrev pub get16 : Block → ℕ → ℕ
get16 d i = d (2 * i) + 256 * d (2 * i + 1)

abbrev pub set16 : Block → ℕ → ℕ → Block
set16 d i v = update (update d (2 * i) (v % 256)) (2 * i + 1) (v / 256 % 256)

abbrev pub iblock : ℕ → ℕ
iblock i = i / ipb + 2

-- The loop of `inode_get` from the entry `i` on: the entry of the inode, or else the first free one.
unfoldable pub find_inode : ℕ → ℕ → (ℕ → Inode) → ℕ → ℕ → Option ℕ
find_inode zero i inodes dev inum = none
find_inode (suc n) i inodes dev inum =
    let rest = find_inode n (i + 1) inodes dev inum in
    if is_positive (inodes i).ref && (inodes i).dev == dev && (inodes i).inum == inum
    then some i
    else rest

unfoldable pub find_empty : ℕ → ℕ → (ℕ → Inode) → Option ℕ
find_empty zero i inodes = none
find_empty (suc n) i inodes =
    let rest = find_empty n (i + 1) inodes in if (inodes i).ref == 0 then some i else rest

-- An entry is taken for another inode.
abbrev pub recycled : ℕ → ℕ → Inode → Inode
recycled dev inum ip = record ip { dev = dev; inum = inum; ref = 1; flags = 0 }

-- What follows the loop: the entry found, or the free one, is referenced.
unfoldable pub get_entry : ℕ → ℕ → Option ℕ → Option ℕ → M Files ℕ
unfolding Spinlock.spinlock_release
get_entry dev inum (some i) empty = do
  write_inode i (λ ip. record ip { ref = u32 (ip.ref + 1) })
  release_cache
  pure i
get_entry dev inum none (some i) = do write_inode i (recycled dev inum); release_cache; pure i
get_entry dev inum none none = stop

unfoldable pub inode_get : ℕ → ℕ → M Files ℕ
unfolding Spinlock.spinlock_acquire
inode_get dev inum = do
  acquire_cache
  λ k. get_entry dev inum (find_inode ninode 0 k.inodes dev inum) (find_empty ninode 0 k.inodes) k

unfoldable pub inode_dup : ℕ → M Files ℕ
unfolding Spinlock.spinlock_acquire Spinlock.spinlock_release
inode_dup i = do
  acquire_cache
  write_inode i (λ ip. record ip { ref = u32 (ip.ref + 1) })
  release_cache
  pure i

-- The `dinode` at the place of the inode `inum` in its block.
abbrev pub read_dinode : Block → ℕ → Inode → Inode
read_dinode d inum ip =
    let j = inum % ipb in
    record ip {
      type = get16 d (32 * j);
      major = get16 d (32 * j + 1);
      minor = get16 d (32 * j + 2);
      nlink = get16 d (32 * j + 3);
      size = get32 d (16 * j + 2);
      addrs = λ a. get32 d (16 * j + 3 + a);
    }

abbrev pub write_addrs : ℕ → ℕ → ℕ → (ℕ → ℕ) → Block → Block
write_addrs zero a j addrs d = d
write_addrs (suc n) a j addrs d = write_addrs n (a + 1) j addrs (set32 d (16 * j + 3 + a) (addrs a))

abbrev pub write_dinode : Block → ℕ → Inode → Block
write_dinode d inum ip =
    let j = inum % ipb in
    let d1 = set16 (set16 d (32 * j) ip.type) (32 * j + 1) ip.major in
    let d2 = set16 (set16 d1 (32 * j + 2) ip.minor) (32 * j + 3) ip.nlink in
    write_addrs (ndirect + 1) 0 j ip.addrs (set32 d2 (16 * j + 2) ip.size)

unfoldable pub inode_update : ℕ → M Files (Unit {0})
unfolding bufcache_read
inode_update i = do
  ip ← inode_at i
  on_vol (do
    bp ← bufcache_read (iblock ip.inum)
    log_write (record bp { content = write_dinode bp.content ip.inum ip }))

-- The inode is read from the disk when it is not valid.
unfoldable pub load_inode : ℕ → M Files (Outcome (Unit {0}))
unfolding bufcache_read
load_inode i = do
  ip ← inode_at i
  if test_bit ip.flags i_valid then pure (done tt) else (do
    bp ← on_vol (bufcache_read (iblock ip.inum))
    write_inode i (λ ip'.
        let r = read_dinode bp.content ip.inum ip' in
        record r { flags = set_bit ip'.flags i_valid })
    ip' ← inode_at i
    if ip'.type == 0 then stop else pure (done tt))

-- The state after a sleep with the lock of the cache.
abbrev pub slept : Files → Option (Spinlock × Sched) → Option (Outcome (Unit {0}) × Files)
slept k none = none
slept k (some (lk, s)) =
    some (asleep, record k { cache_lock = lk; vol = record k.vol { sched = s } })

-- A pass of the loop of `inode_lock`, the lock of the cache held.
unfoldable pub lock_pass : ℕ → M Files (Outcome (Unit {0}))
unfolding Spinlock.spinlock_release
lock_pass i = do
  ip ← inode_at i
  if test_bit ip.flags i_busy
      then (λ k. slept k (thread_sleep (inode_chan k i) k.cache_lock k.vol.sched))
      else (do
        write_inode i (λ ip'. record ip' { flags = set_bit ip'.flags i_busy })
        release_cache
        load_inode i)

unfoldable pub inode_lock : ℕ → M Files (Outcome (Unit {0}))
unfolding Spinlock.spinlock_acquire
inode_lock i = do ip ← inode_at i; check (is_positive ip.ref); acquire_cache; lock_pass i

-- The thread `pid` runs again after the switch in `inode_lock`, and goes round the loop.
unfoldable pub inode_lock_resumed : ℕ → ℕ → M Files (Outcome (Unit {0}))
inode_lock_resumed pid i k = elim (thread_sleep_resumed pid k.cache_lock k.vol.sched) [
  | none ↦ none
  | some (lk, s) ↦ lock_pass i (record k { cache_lock = lk; vol = record k.vol { sched = s } })
]

unfoldable pub inode_unlock : ℕ → M Files (Unit {0})
unfolding Spinlock.spinlock_acquire Spinlock.spinlock_release
inode_unlock i = do
  ip ← inode_at i
  check (test_bit ip.flags i_busy && is_positive ip.ref)
  acquire_cache
  write_inode i (λ ip'. record ip' { flags = clear_bit ip'.flags i_busy })
  wake_inode i
  release_cache
