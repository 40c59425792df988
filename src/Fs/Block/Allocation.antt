-- ===== src/Fs/Block/Allocation.antt =====
-- What `block_alloc` does to the bitmap.
use mathlib.Core.Bool.{true≢false}
use advanced_synchronization.Base.{
  ℕ, zero, suc, ◌+◌, ◌-◌, ◌*◌, ◌/◌, ◌%◌, ◌<◌, ◌≤◌, ◌≡◌, ◌≢◌, sym, ap, ◌∙◌, true, false, inl, inr,
  subst, Bool-cases, Option, none, some, ltb, arith, Returns, Returns-bind, M, pure, ◌>>◌,
}
use advanced_synchronization.Bits.{set_bit}
use advanced_synchronization.Fs.Disk.{Buf, Volume, bufcache_read}
use advanced_synchronization.Fs.Log.{log_write}
use advanced_synchronization.Fs.Log.Crash.{InTransaction}
use advanced_synchronization.Fs.Log.Append.{IsLogged, log_write-IsLogged}
use advanced_synchronization.Fs.Block.{
  bpb, bblock, bits_of, Superblock, superblock, find_free, alloc_at, alloc_from, block_zero,
  block_alloc, read_superblock,
}
use advanced_synchronization.Fs.Block.Search.{bit_at, IsFirst, find_free-IsFirst}
use advanced_synchronization.Fs.Block.Bitmap.{set-bit_at, set-bit_at_ne}
use advanced_synchronization.Fs.Block.Freeing.{
  is_used, IsLaidOut, HasRoom, bblock_same, OnlyBit, marked, logged-OnlyBit,
}

-- The lowest free block `r` is marked and zeroed, and no other bit and block changed.
pub record Allocated (v v' : Volume) (sb : Superblock) (r : ℕ) : Type 0 where
  pub in_transaction : InTransaction v'
  pub size : r < sb.size
  pub before_log : r < v.log.start
  pub was_free : is_used v sb.ninodes r ≡ false
  pub lowest : (x : ℕ) → x < r → is_used v sb.ninodes x ≡ true
  pub bits : OnlyBit v v' sb r true
  pub zeroed : (i : ℕ) → v'.view r i ≡ 0
  pub others : (x : ℕ) → x < v.log.start → x ≢ bblock r sb.ninodes → x ≢ r → v'.view x ≡ v.view x

abbrev bitmap_buf : Volume → Superblock → ℕ → Buf
bitmap_buf v sb r = record { sector = bblock r sb.ninodes; content = v.view (bblock r sb.ninodes) }

module _ (v : Volume) (sb : Superblock) (r : ℕ) (t : InTransaction v) (room : HasRoom v 2)
    (lay : IsLaidOut v sb) (l : r < sb.size) (home : r < v.log.start)
    (free : is_used v sb.ninodes r ≡ false)
    (low : (x : ℕ) → x < r → is_used v sb.ninodes x ≡ true) where
  zero_buf : Buf
  zero_buf = record { sector = r; content = λ _. 0 }

  zeroed-Allocated :
      (v1 v2 : Volume)
      → IsLogged v v1 (marked set_bit true v sb r)
      → IsLogged v1 v2 zero_buf
      → Allocated v v2 sb r
  unfolding zero_buf
  zeroed-Allocated v1 v2 g h = record {
    in_transaction = h.in_transaction;
    size = l;
    before_log = home;
    was_free = free;
    lowest = low;
    bits = record {
      this_bit = kept r l ∙ marked_bit.this_bit;
      other_bits = λ x k ne. kept x k ∙ marked_bit.other_bits x k ne;
    };
    zeroed = λ i. ap (λ d. d i) h.now;
    others = λ x k ne ne'. h.others x (before x k) ne' ∙ g.others x k ne;
  }
    where
      marked_bit : OnlyBit v v1 sb r true
      marked_bit = logged-OnlyBit set_bit true v sb r v1 set-bit_at set-bit_at_ne lay l g

      before : (x : ℕ) → x < v.log.start → x < v1.log.start
      before x k = omega (arith, g.same_start)

      kept : (x : ℕ) → x < sb.size → is_used v2 sb.ninodes x ≡ is_used v1 sb.ninodes x
      kept x k =
          ap (λ d. bit_at d (x % bpb))
            (h.others (bblock x sb.ninodes) (before (bblock x sb.ninodes) (lay.bitmap_home x k))
              (lay.free_home r l home free x k))

  alloc_at-Allocated :
      (b : ℕ)
      → b + r % bpb ≡ r
      → Returns (λ a v'. Allocated v v' sb a) (alloc_at b (bitmap_buf v sb r) (r % bpb) v)
  unfolding alloc_at block_zero bufcache_read zero_buf
  alloc_at-Allocated b e = rw e (
      Returns-bind (λ _ v1. IsLogged v v1 (marked set_bit true v sb r))
        (λ a v'. Allocated v v' sb a) (log_write (marked set_bit true v sb r))
        (λ _. block_zero r >> pure r) v
        (log_write-IsLogged v (marked set_bit true v sb r) t room.0 (omega arith) (omega arith)
          (lay.bitmap_home r l))
        (λ _ v1 g.
          Returns-bind (λ _ v2. IsLogged v1 v2 zero_buf) (λ a v'. Allocated v v' sb a)
            (log_write zero_buf) (λ _. pure r) v1
            (log_write-IsLogged v1 zero_buf g.in_transaction (omega (arith, g.same_busy))
              (omega (arith, g.count_le)) (omega (arith, g.count_le, g.same_size))
              (omega (arith, g.same_start, home)))
            (λ _ v2 h. zeroed-Allocated v1 v2 g h)))

module _ (v : Volume) (sb : Superblock) (t : InTransaction v) (room : HasRoom v 2)
    (lay : IsLaidOut v sb) where
  -- From the bitmap block of the block `4096 * c` on.
  alloc_from-Allocated :
      (n c f : ℕ)
      → f < sb.size
      → f < v.log.start
      → is_used v sb.ninodes f ≡ false
      → ((x : ℕ) → x < bpb * c → x < sb.size → is_used v sb.ninodes x ≡ true)
      → sb.size ≤ bpb * (c + n)
      → Returns (λ a v'. Allocated v v' sb a) (alloc_from n (bpb * c) sb v)
  unfolding alloc_from bufcache_read
  alloc_from-Allocated zero c f l home free low h =
      absurd (true≢false (sym (low f (omega arith) l) ∙ free))
  alloc_from-Allocated (suc n) c f l home free low h =
      go (find_free (bits_of (bpb * c) sb.size) 0 (v.view (bblock (bpb * c) sb.ninodes)))
        (find_free-IsFirst (bits_of (bpb * c) sb.size) 0 (bits_of (bpb * c) sb.size)
          (v.view (bblock (bpb * c) sb.ninodes)) (omega arith))
        (λ used.
          subst (λ b. Returns (λ a v'. Allocated v v' sb a) (alloc_from n b sb v)) next
            (alloc_from-Allocated n (c + 1) f l home free used (omega arith)))
    where
      next : bpb * (c + 1) ≡ bpb * c + bpb
      next = omega arith

      in_block :
          (x : ℕ)
          → bpb * c ≤ x
          → x < bpb * (c + 1)
          → x < sb.size
          → IsFirst (v.view (bblock (bpb * c) sb.ninodes)) 0 (bits_of (bpb * c) sb.size) none
          → is_used v sb.ninodes x ≡ true
      in_block x o u g k =
          ap (λ y. bit_at (v.view y) (x % bpb)) (bblock_same x (bpb * c) sb.ninodes (omega arith))
          ∙ k (x % bpb) (omega arith) (ground arith)

      go :
          (q : Option ℕ)
          → IsFirst (v.view (bblock (bpb * c) sb.ninodes)) 0 (bits_of (bpb * c) sb.size) q
          → (((x : ℕ) → x < bpb * (c + 1) → x < sb.size → is_used v sb.ninodes x ≡ true)
              → Returns (λ a v'. Allocated v v' sb a) (alloc_from n (bpb * c + bpb) sb v))
          → Returns
              (λ a v'. Allocated v v' sb a)
              ((elim q as (λ _. M Volume ℕ) [
                | none ↦ alloc_from n (bpb * c + bpb) sb
                | some bi ↦
                    alloc_at
                      (bpb * c)
                      (record {
                        sector = bblock (bpb * c) sb.ninodes;
                        content = v.view (bblock (bpb * c) sb.ninodes);
                      })
                      bi
              ])
                v)
      go none k rest = rest (λ x u g. elim (Bool-cases (ltb x (bpb * c))) [
        | inl o ↦ low x (ground (arith, o)) g
        | inr o ↦ in_block x (ground (arith, o)) u g k
      ])
      go (some bi) k rest =
          rw (sym at_bi, sym bblock_r)
            (alloc_at-Allocated v sb r t room lay r_lt home_r free_r low_r (bpb * c)
              (omega (arith, at_bi)))
        where
          r : ℕ
          r = bpb * c + bi

          bi_lt : bi < bpb
          bi_lt = ground (arith, k.1)

          r_lt : r < sb.size
          r_lt = ground (arith, k.1)

          at_bi : r % bpb ≡ bi
          at_bi = omega (arith, bi_lt)

          bblock_r : bblock r sb.ninodes ≡ bblock (bpb * c) sb.ninodes
          bblock_r = bblock_same r (bpb * c) sb.ninodes (omega (arith, bi_lt))

          free_r : is_used v sb.ninodes r ≡ false
          free_r =
              ap (λ y. bit_at (v.view y) (r % bpb)) bblock_r
              ∙ ap (bit_at (v.view (bblock (bpb * c) sb.ninodes))) at_bi
              ∙ k.2

          below_bi : (x : ℕ) → x < r → bpb * c ≤ x → is_used v sb.ninodes x ≡ true
          below_bi x h o =
              ap (λ y. bit_at (v.view y) (x % bpb))
                (bblock_same x (bpb * c) sb.ninodes (omega (arith, bi_lt)))
              ∙ k.3 (x % bpb) (omega arith) (omega (arith, bi_lt))

          low_r : (x : ℕ) → x < r → is_used v sb.ninodes x ≡ true
          low_r x h = elim (Bool-cases (ltb x (bpb * c))) [
            | inl o ↦ low x (ground (arith, o)) (omega (arith, r_lt))
            | inr o ↦ below_bi x h (ground (arith, o))
          ]

          -- The free block `f` is not below the lowest one.
          home_r : r < v.log.start
          home_r = elim (Bool-cases (ltb f r)) [
            | inl o ↦ absurd (true≢false (sym (low_r f (ground (arith, o))) ∙ free))
            | inr o ↦ ground (arith, o, home)
          ]

-- In a transaction with room for two blocks, on a disk of fewer than 2 ^ 31 blocks whose bitmap is
-- before the log and marks its own blocks, and with a free block before the log, `block_alloc` returns
-- the lowest free block, which is before the log too: it is marked and reads as zeros, and no other bit
-- of the bitmap and no other block before the log changed. The blocks of the log may be unmarked.
pub block_alloc-Allocated :
    (v : Volume) (f : ℕ)
    → InTransaction v
    → HasRoom v 2
    → IsLaidOut v (superblock (v.view 1))
    → f < (superblock (v.view 1)).size
    → f < v.log.start
    → is_used v (superblock (v.view 1)).ninodes f ≡ false
    → Returns (λ r v'. Allocated v v' (superblock (v.view 1)) r) (block_alloc v)
unfolding block_alloc bufcache_read read_superblock
block_alloc-Allocated v f t room lay l home free =
    let sb : Superblock = superblock (v.view 1) in
    alloc_from-Allocated v sb t room lay ((sb.size + bpb - 1) / bpb) 0 f l home free
      (λ x h _. absurd (omega arith)) (omega arith)
