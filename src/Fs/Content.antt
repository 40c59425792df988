-- ===== src/Fs/Content.antt =====
-- kern/fs/inode.c: the blocks of an inode, its release, and reading and writing its content. The
-- functions of the devices are no part of the file system, and a parameter.
pub mod Read
use advanced_synchronization.Base.{
  ℕ, zero, suc, ◌+◌, ◌-◌, ◌*◌, ◌/◌, ◌%◌, ◌^◌, ltb, leb, ◌==◌, not, ◌&&◌, ◌||◌, if◌then◌else◌, Bool,
  true, false, Option, none, some, update, u32, ℤ, pos, negsuc, M, pure, stop, check, ◌>>=◌, ◌>>◌,
}
use advanced_synchronization.Bits.{test_bit, set_bit}
use advanced_synchronization.Spinlock
use advanced_synchronization.Fs.Disk.{Block, Volume, get32, set32, bufcache_read}
use advanced_synchronization.Fs.Log.{log_write}
use advanced_synchronization.Fs.Block.{ipb, read_superblock, block_alloc, block_free}
use advanced_synchronization.Fs.Inode.{
  ndirect, nindirect, i_busy, i_valid, Inode, Files, on_vol, inode_at, write_inode, acquire_cache,
  release_cache, wake_inode, get16, set16, iblock, inode_get, inode_update, inode_unlock,
}

abbrev pub bsize : ℕ
bsize = 512

abbrev pub t_dev : ℕ
t_dev = 3

abbrev pub ndev : ℕ
ndev = 10

abbrev pub maxfile : ℕ
maxfile = ndirect + nindirect

abbrev pub set_addr : ℕ → ℕ → ℕ → M Files (Unit {0})
set_addr i a x = write_inode i (λ ip. record ip { addrs = update ip.addrs a x })

-- The entry `a` of `addrs`, a block that is allocated when there is none.
unfoldable pub direct_block : ℕ → ℕ → M Files ℕ
direct_block i a = do
  ip ← inode_at i
  if ip.addrs a == 0
      then (do addr ← on_vol block_alloc; set_addr i a addr; pure addr)
      else pure (ip.addrs a)

-- The entry `bn` of the indirect block `addr`.
unfoldable pub indirect_block : ℕ → ℕ → M Volume ℕ
unfolding bufcache_read
indirect_block addr bn = do
  bp ← bufcache_read addr
  if get32 bp.content bn == 0
      then (do a ← block_alloc; log_write (record bp { content = set32 bp.content bn a }); pure a)
      else pure (get32 bp.content bn)

unfoldable pub bmap : ℕ → ℕ → M Files ℕ
bmap i bn =
    if ltb bn ndirect
    then direct_block i bn
    else if ltb (bn - ndirect) nindirect
    then (do addr ← direct_block i ndirect; on_vol (indirect_block addr (bn - ndirect)))
    else stop

-- The loops of `inode_trunc`, over the entries from `a` on.
unfoldable pub trunc_direct : ℕ → ℕ → ℕ → M Files (Unit {0})
trunc_direct zero a i = pure tt
trunc_direct (suc n) a i =
    (do
      ip ← inode_at i
      if ip.addrs a == 0 then pure tt else (do on_vol (block_free (ip.addrs a)); set_addr i a 0))
    >> trunc_direct n (a + 1) i

unfoldable pub trunc_indirect : ℕ → ℕ → Block → M Volume (Unit {0})
trunc_indirect zero j d = pure tt
trunc_indirect (suc n) j d =
    (if get32 d j == 0 then pure tt else block_free (get32 d j)) >> trunc_indirect n (j + 1) d

unfoldable pub inode_trunc : ℕ → M Files (Unit {0})
unfolding bufcache_read inode_update
inode_trunc i = do
  trunc_direct ndirect 0 i
  ip ← inode_at i
  if ip.addrs ndirect == 0 then pure tt else (do
    on_vol (do
      bp ← bufcache_read (ip.addrs ndirect)
      trunc_indirect nindirect 0 bp.content
      block_free (ip.addrs ndirect))
    set_addr i ndirect 0)
  write_inode i (λ ip'. record ip' { size = 0 })
  inode_update i

-- An inode without links is freed on the disk.
unfoldable pub free_inode : ℕ → M Files (Unit {0})
unfolding Spinlock.spinlock_acquire Spinlock.spinlock_release inode_update
free_inode i = do
  ip ← inode_at i
  check (not (test_bit ip.flags i_busy))
  write_inode i (λ ip'. record ip' { flags = set_bit ip'.flags i_busy })
  release_cache
  inode_trunc i
  write_inode i (λ ip'. record ip' { type = 0 })
  inode_update i
  acquire_cache
  write_inode i (λ ip'. record ip' { flags = 0 })
  wake_inode i

unfoldable pub inode_put : ℕ → M Files (Unit {0})
unfolding Spinlock.spinlock_acquire Spinlock.spinlock_release
inode_put i = do
  acquire_cache
  ip ← inode_at i
  if ip.ref == 1 && test_bit ip.flags i_valid && ip.nlink == 0 then free_inode i else pure tt
  write_inode i (λ ip'. record ip' { ref = u32 (ip'.ref + (2 ^ 32 - 1)) })
  release_cache

unfoldable pub inode_unlockput : ℕ → M Files (Unit {0})
unfolding inode_unlock
inode_unlockput i = inode_unlock i >> inode_put i

-- `memset(dip, 0, sizeof(*dip))`, and the type.
abbrev pub fresh_dinode : Block → ℕ → ℕ → Block
fresh_dinode d inum type =
    let j = inum % ipb in
    set16 (λ a. if leb (64 * j) a && ltb a (64 * j + 64) then 0 else d a) (32 * j) type

-- The loop of `inode_alloc` from the inode `inum` on, with the rounds left.
unfoldable pub alloc_inode_from : ℕ → ℕ → ℕ → ℕ → M Files ℕ
unfolding bufcache_read inode_get
alloc_inode_from zero inum dev type = stop
alloc_inode_from (suc n) inum dev type = on_vol (bufcache_read (iblock inum)) >>= λ bp.
    elim (get16 bp.content (32 * (inum % ipb)) == 0) [
      | true ↦ (do
        on_vol (log_write (record bp { content = fresh_dinode bp.content inum type }))
        inode_get dev inum)
      | false ↦ alloc_inode_from n (inum + 1) dev type
    ]

unfoldable pub inode_alloc : ℕ → ℕ → M Files ℕ
unfolding read_superblock
inode_alloc dev type = do sb ← on_vol read_superblock; alloc_inode_from (sb.ninodes - 1) 1 dev type

pub record FileStat : Type 0 where
  pub type : ℕ
  pub dev : ℕ
  pub ino : ℕ
  pub nlink : ℕ
  pub size : ℕ

unfoldable pub inode_stat : ℕ → M Files FileStat
inode_stat i = do
  ip ← inode_at i
  pure (record { type = ip.type; dev = ip.dev; ino = ip.inum; nlink = ip.nlink; size = ip.size })

-- `memmove(dst, d + from, m)`.
abbrev pub copy_out : ℕ → Block → ℕ → ℕ → M Files (Unit {0})
copy_out dst d from m k = some (
  tt,
  record k { mem = λ a. if leb dst a && ltb a (dst + m) then d (from + (a - dst)) else k.mem a },
)

-- The block with `m` bytes of memory from `src` on at `from`.
abbrev pub overlaid : Block → ℕ → ℕ → ℕ → (ℕ → ℕ) → Block
overlaid d from m src mem a = if leb from a && ltb a (from + m) then mem (src + (a - from)) else d a

-- The bytes of a round: up to the end of the block.
abbrev pub chunk : ℕ → ℕ → ℕ
chunk left off = if leb left (bsize - off % bsize) then left else bsize - off % bsize

-- The loop of `inode_read`, `left` being `n - tot`; a round copies a byte at least.
unfoldable pub read_from : ℕ → ℕ → ℕ → ℕ → ℕ → M Files (Unit {0})
unfolding bufcache_read
read_from zero i left off dst = pure tt
read_from (suc fuel) i left off dst = if left == 0 then pure tt else (do
  addr ← bmap i (off / bsize)
  bp ← on_vol (bufcache_read addr)
  copy_out dst bp.content (off % bsize) (chunk left off)
  let m = chunk left off
  read_from fuel i (left - m) (off + m) (dst + m))

-- The loop of `inode_write`.
unfoldable pub write_from : ℕ → ℕ → ℕ → ℕ → ℕ → M Files (Unit {0})
unfolding bufcache_read
write_from zero i left off src = pure tt
write_from (suc fuel) i left off src = if left == 0 then pure tt else (do
  addr ← bmap i (off / bsize)
  bp ← on_vol (bufcache_read addr)
  λ k.
      on_vol
        (log_write
          (record bp { content = overlaid bp.content (off % bsize) (chunk left off) src k.mem }))
        k
  let m = chunk left off
  write_from fuel i (left - m) (off + m) (src + m))

-- `devsw`: for a major number the functions of the device, which may be missing.
pub record Devsw : Type 0 where
  pub read : ℕ → Option (ℕ → ℕ → ℕ → M Files ℤ)
  pub write : ℕ → Option (ℕ → ℕ → ℕ → M Files ℤ)

-- A negative `major` is at least 2 ^ 15 here.
abbrev pub device_call : Option (ℕ → ℕ → ℕ → M Files ℤ) → ℕ → ℕ → ℕ → ℕ → M Files ℤ
device_call none major i addr n = pure (negsuc 0)
device_call (some f) major i addr n = if leb ndev major then pure (negsuc 0) else f i addr n

module _ (devsw : Devsw) where
  -- Results below 2 ^ 31.
  unfoldable pub inode_read : ℕ → ℕ → ℕ → ℕ → M Files ℤ
  inode_read i dst off n = do
    ip ← inode_at i
    if ip.type == t_dev
        then device_call (devsw.read ip.major) ip.major i dst n
        else if ltb ip.size off || ltb (u32 (off + n)) off
        then pure (negsuc 0)
        else (do
          let n' = if ltb ip.size (u32 (off + n)) then ip.size - off else n
          read_from n' i n' off dst
          pure (pos n'))

  unfoldable pub inode_write : ℕ → ℕ → ℕ → ℕ → M Files ℤ
  unfolding inode_update
  inode_write i src off n = do
    ip ← inode_at i
    if ip.type == t_dev
        then device_call (devsw.write ip.major) ip.major i src n
        else if ltb ip.size off || ltb (u32 (off + n)) off
        then pure (negsuc 0)
        else if ltb (maxfile * bsize) (u32 (off + n))
        then pure (negsuc 0)
        else (do
          write_from n i n off src
          ip' ← inode_at i
          if not (n == 0) && ltb ip'.size (off + n)
              then (do write_inode i (λ p. record p { size = off + n }); inode_update i)
              else pure tt
          pure (pos n))
