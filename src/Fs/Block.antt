-- ===== src/Fs/Block.antt =====
-- kern/fs/block.c: the super block and the bitmap of the blocks of ROOTDEV, the one device in use; and
-- `log_init` of kern/fs/log.c, which reads the super block.
pub mod Search
pub mod Bitmap
pub mod Freeing
pub mod Allocation
mod Tests
use advanced_synchronization.Base.{
  ℕ, zero, suc, ◌+◌, ◌-◌, ◌*◌, ◌/◌, ◌%◌, ◌^◌, ltb, leb, if◌then◌else◌, Option, none, some, update,
  u32, M, pure, stop, check, ◌>>=◌, ◌>>◌,
}
use advanced_synchronization.Bits.{test_bit, set_bit, clear_bit}
use advanced_synchronization.Spinlock
use advanced_synchronization.Fs.Disk.{Block, Buf, Volume, get32, bufcache_read}
use advanced_synchronization.Fs.Log.{log_write, recover_from_log}

-- Bitmap bits per block, and inodes per block.
abbrev pub bpb : ℕ
bpb = 4096

abbrev pub ipb : ℕ
ipb = 8

-- The block that has the bit of block `b`.
abbrev pub bblock : ℕ → ℕ → ℕ
bblock b ninodes = u32 (b / bpb + ninodes / ipb + 3)

pub record Superblock : Type 0 where
  pub size : ℕ
  pub nblocks : ℕ
  pub ninodes : ℕ
  pub nlog : ℕ

abbrev pub superblock : Block → Superblock
superblock d = record {
  size = get32 d 0;
  nblocks = get32 d 1;
  ninodes = get32 d 2;
  nlog = get32 d 3;
}

unfoldable pub read_superblock : M Volume Superblock
unfolding bufcache_read
read_superblock = do bp ← bufcache_read 1; pure (superblock bp.content)

unfoldable pub block_zero : ℕ → M Volume (Unit {0})
unfolding bufcache_read
block_zero bno = do bp ← bufcache_read bno; log_write (record bp { content = λ _. 0 })

-- The inner loop of `block_alloc`: the first of the `n` bits from `bi` on that is 0.
unfoldable pub find_free : ℕ → ℕ → Block → Option ℕ
find_free zero bi d = none
find_free (suc n) bi d =
    let rest = find_free n (bi + 1) d in if test_bit (d (bi / 8)) (bi % 8) then rest else some bi

-- The bits of the bitmap block of `b`.
abbrev pub bits_of : ℕ → ℕ → ℕ
bits_of b size = if leb bpb (size - b) then bpb else size - b

-- The block `b + bi` is marked in the bitmap block `bp` and zeroed.
unfoldable pub alloc_at : ℕ → Buf → ℕ → M Volume ℕ
alloc_at b bp bi = do
  log_write
      (record bp { content = update bp.content (bi / 8) (set_bit (bp.content (bi / 8)) (bi % 8)) })
  block_zero (b + bi)
  pure (b + bi)

-- The outer loop over the bitmap blocks, with the rounds left. Behind it the function ends without a
-- value: the panic is missing.
unfoldable pub alloc_from : ℕ → ℕ → Superblock → M Volume ℕ
unfolding bufcache_read
alloc_from zero b sb = stop
alloc_from (suc n) b sb = bufcache_read (bblock b sb.ninodes) >>= λ bp.
    elim (find_free (bits_of b sb.size) 0 bp.content) [
      | none ↦ alloc_from n (b + bpb) sb
      | some bi ↦ alloc_at b bp bi
    ]

-- The rounds are those of `b < sb.size`, for sizes below 2 ^ 31.
unfoldable pub block_alloc : M Volume ℕ
block_alloc = do sb ← read_superblock; alloc_from ((sb.size + bpb - 1) / bpb) 0 sb

unfoldable pub block_free : ℕ → M Volume (Unit {0})
unfolding bufcache_read
block_free b = do
  sb ← read_superblock
  bp ← bufcache_read (bblock b sb.ninodes)
  let bi = b % bpb
  check (test_bit (bp.content (bi / 8)) (bi % 8))
  log_write (record bp {
    content = update bp.content (bi / 8) (clear_bit (bp.content (bi / 8)) (bi % 8));
  })

-- The super block gives the place of the log, `sb.size - sb.nlog` in `uint32_t`.
unfoldable pub log_init : M Volume (Unit {0})
unfolding Spinlock.spinlock_init
log_init = do
  λ v. some (tt, record v { log = record v.log { lock = Spinlock.spinlock_init } })
  sb ← read_superblock
  λ v. some (
    tt,
    record v { log = record v.log { start = u32 (sb.size + 2 ^ 32 - sb.nlog); size = sb.nlog } },
  )
  recover_from_log
