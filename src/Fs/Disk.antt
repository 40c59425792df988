-- ===== src/Fs/Disk.antt =====
-- The disk ROOTDEV as the buffer cache gives it to the layers above (kern/fs/bufcache.h): a buffer that
-- is read has the data of the last write or of the last modification, and a write goes to the disk.
use advanced_synchronization.Base.{
  ℕ, ◌+◌, ◌*◌, ◌/◌, ◌%◌, ◌<◌, ◌≡◌, ◌≢◌, ◌^◌, some, List, [], ◌∷◌, ◌++◌, update, M, arith,
}
use advanced_synchronization.Spinlock.{Spinlock}
use advanced_synchronization.Thread.Tcb.{Sched}

-- The bytes of a block.
abbrev pub Block : Type 0
Block = ℕ → ℕ

-- The `uint32_t` number `i` of a block, with the low byte first.
abbrev pub get32 : Block → ℕ → ℕ
get32 d i = d (4 * i) + 256 * d (4 * i + 1) + 65536 * d (4 * i + 2) + 16777216 * d (4 * i + 3)

abbrev pub set32 : Block → ℕ → ℕ → Block
set32 d i v =
    update
      (update (update (update d (4 * i) (v % 256)) (4 * i + 1) (v / 256 % 256)) (4 * i + 2)
        (v / 65536 % 256))
      (4 * i + 3) (v / 16777216 % 256)

pub get32-set32 : (d : Block) (i v : ℕ) → v < 2 ^ 32 → get32 (set32 d i v) i ≡ v
get32-set32 d i v h = ground arith

pub get32-set32_ne : (d : Block) (i j v : ℕ) → j ≢ i → get32 (set32 d i v) j ≡ get32 d j
get32-set32_ne d i j v h = ground arith

-- `sector` and `data` (here `content`) of a buffer of ROOTDEV.
pub record Buf : Type 0 where
  pub sector : ℕ
  pub content : Block

pub record LogHeader : Type 0 where
  pub n : ℕ
  pub sector : ℕ → ℕ

pub record Log : Type 0 where
  pub lock : Spinlock
  pub start : ℕ
  pub size : ℕ
  pub busy : ℕ
  pub lh : LogHeader

-- `disk` is what is on the disk and `view` what a read gives; `writes` lists the writes to the disk,
-- the oldest first. `log_addr` is the address of the log, a channel.
pub record Volume : Type 0 where
  pub disk : ℕ → Block
  pub view : ℕ → Block
  pub writes : List (ℕ × Block)
  pub log : Log
  pub log_addr : ℕ
  pub sched : Sched

unfoldable pub bufcache_read : ℕ → M Volume Buf
bufcache_read sector v = some (record { sector = sector; content = v.view sector }, v)

unfoldable pub bufcache_write : Buf → M Volume (Unit {0})
bufcache_write b v = some (
  tt,
  record v {
    disk = update v.disk b.sector b.content;
    view = update v.view b.sector b.content;
    writes = v.writes ++ (b.sector, b.content) ∷ [];
  },
)

-- A block that is modified in its buffer and not written: the flag B_DIRTY keeps the buffer.
unfoldable pub pin : Buf → M Volume (Unit {0})
pin b v = some (tt, record v { view = update v.view b.sector b.content })
