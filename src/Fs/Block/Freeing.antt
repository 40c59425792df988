-- ===== src/Fs/Block/Freeing.antt =====
-- What `block_free` does to the bitmap, and what both it and `block_alloc` rely on.
use native.Mathlib.Decide.{ℕ_discrete}
use advanced_synchronization.Base.{
  ℕ, ◌+◌, ◌/◌, ◌%◌, ◌^◌, ◌<◌, ◌≤◌, ◌≡◌, ◌≢◌, sym, ap, ◌∙◌, Bool, true, false, u32, arith, Returns,
  Returns-mono,
}
use advanced_synchronization.Bits.{clear_bit}
use advanced_synchronization.Fs.Disk.{Block, Buf, Volume, bufcache_read}
use advanced_synchronization.Fs.Log.{logsize, log_write}
use advanced_synchronization.Fs.Log.Crash.{InTransaction}
use advanced_synchronization.Fs.Log.Append.{IsLogged, log_write-IsLogged}
use advanced_synchronization.Fs.Block.{
  bpb, bblock, Superblock, superblock, block_free, read_superblock,
}
use advanced_synchronization.Fs.Block.Search.{bit_at}
use advanced_synchronization.Fs.Block.Bitmap.{changed, clear-bit_at, clear-bit_at_ne}

-- Is the block `x` marked in the bitmap?
abbrev pub is_used : Volume → ℕ → ℕ → Bool
is_used v ninodes x = bit_at (v.view (bblock x ninodes)) (x % bpb)

-- The size is below 2 ^ 31, the bitmap is before the log, and no free block before the log is a block
-- of the bitmap. The blocks of the log may be free in the bitmap.
pub record IsLaidOut (v : Volume) (sb : Superblock) : Type 0 where
  pub size_lt : sb.size < 2 ^ 31
  pub bitmap_home : (x : ℕ) → x < sb.size → bblock x sb.ninodes < v.log.start
  pub free_home :
      (x : ℕ)
      → x < sb.size
      → x < v.log.start
      → is_used v sb.ninodes x ≡ false
      → (y : ℕ) → y < sb.size
      → bblock y sb.ninodes ≢ x

-- Room for `n` more blocks in the transaction.
abbrev pub HasRoom : Volume → ℕ → Type 0
HasRoom v n = (0 < v.log.busy) × (v.log.lh.n + n ≤ logsize) × (v.log.lh.n + n < v.log.size)

pub bblock_same : (x b n : ℕ) → x / bpb ≡ b / bpb → bblock x n ≡ bblock b n
bblock_same x b n e = ap (λ q. u32 (q + n / 8 + 3)) e

bblock_other : (x b n : ℕ) → x < 2 ^ 31 → b < 2 ^ 31 → x / bpb ≢ b / bpb → bblock x n ≢ bblock b n
bblock_other x b n h k ne e = ne (omega (arith, e, h, k))

module _ (v v' : Volume) (sb : Superblock) where
  -- The bit of the block `r` is `u`, and no other bit of the bitmap changed.
  pub record OnlyBit (r : ℕ) (u : Bool) : Type 0 where
    pub this_bit : is_used v' sb.ninodes r ≡ u
    pub other_bits :
        (x : ℕ) → x < sb.size → x ≢ r → is_used v' sb.ninodes x ≡ is_used v sb.ninodes x

-- A block written with one bit of the bitmap changed.
module _ (f : ℕ → ℕ → ℕ) (u : Bool) (v : Volume) (sb : Superblock) (r : ℕ) where
  abbrev pub marked : Buf
  marked = record {
    sector = bblock r sb.ninodes;
    content = changed f (v.view (bblock r sb.ninodes)) (r % bpb);
  }

  pub logged-OnlyBit :
      (v' : Volume)
      → ((d : Block) (i : ℕ) → bit_at (changed f d i) i ≡ u)
      → ((d : Block) (i j : ℕ) → j ≢ i → bit_at (changed f d i) j ≡ bit_at d j)
      → IsLaidOut v sb
      → r < sb.size
      → IsLogged v v' marked
      → OnlyBit v v' sb r u
  logged-OnlyBit v' same other lay l g = record {
    this_bit = ap (λ d. bit_at d (r % bpb)) g.now ∙ same (v.view (bblock r sb.ninodes)) (r % bpb);
    other_bits = λ x h ne. elim (ℕ_discrete (x / bpb) (r / bpb)) [
      | yes e ↦
          ap (λ y. bit_at (v'.view y) (x % bpb)) (bblock_same x r sb.ninodes e)
          ∙ ap (λ d. bit_at d (x % bpb)) g.now
          ∙ other (v.view (bblock r sb.ninodes)) (r % bpb) (x % bpb) (λ k. ne (omega (arith, e, k)))
          ∙ ap (λ y. bit_at (v.view y) (x % bpb)) (sym (bblock_same x r sb.ninodes e))
      | no e ↦
          ap (λ d. bit_at d (x % bpb))
            (g.others (bblock x sb.ninodes) (lay.bitmap_home x h) (
              bblock_other x r sb.ninodes (omega (arith, lay.size_lt)) (omega (arith, lay.size_lt))
                e))
    ];
  }

-- A marked block `r` is free again, and no other bit and no block outside the bitmap changed.
pub record Freed (v v' : Volume) (sb : Superblock) (r : ℕ) : Type 0 where
  pub in_transaction : InTransaction v'
  pub bits : OnlyBit v v' sb r false
  pub others : (x : ℕ) → x < v.log.start → x ≢ bblock r sb.ninodes → v'.view x ≡ v.view x

-- In a transaction with room for a block, `block_free` of a block that is marked in the bitmap returns:
-- its bit is cleared, the other bits of the bitmap and all other blocks before the log are as before.
pub block_free-Freed :
    (v : Volume) (r : ℕ)
    → InTransaction v
    → HasRoom v 1
    → IsLaidOut v (superblock (v.view 1))
    → r < (superblock (v.view 1)).size
    → is_used v (superblock (v.view 1)).ninodes r ≡ true
    → Returns (λ _ v'. Freed v v' (superblock (v.view 1)) r) (block_free r v)
unfolding block_free bufcache_read read_superblock
block_free-Freed v r t room lay l used =
    let sb : Superblock = superblock (v.view 1) in
    rw used (
      Returns-mono (λ _ v'. IsLogged v v' (marked clear_bit false v sb r)) (λ _ v'. Freed v v' sb r)
        (log_write (marked clear_bit false v sb r) v)
        (log_write-IsLogged v (marked clear_bit false v sb r) t room.0 (omega arith) (omega arith)
          (lay.bitmap_home r l))
        (λ _ v' g. record {
          in_transaction = g.in_transaction;
          bits = logged-OnlyBit clear_bit false v sb r v' clear-bit_at clear-bit_at_ne lay l g;
          others = g.others;
        }))
