-- ===== src/Fs/Block/Tests.antt =====
-- The theorems on the bitmap at a disk of 24 blocks, of which 20 and 21 are free. The log starts
-- at 22, and its blocks are not marked, as mkfs leaves them.
use mathlib.Core.Bool.{true≢false}
use advanced_synchronization.Base.{
  ℕ, ◌≡◌, ◌≢◌, refl, sym, ap, ◌∙◌, ◌==◌, if◌then◌else◌, true, false, arith, [], Returns,
}
use advanced_synchronization.Bits.{test_bit}
use advanced_synchronization.Thread.Scheduler.Tests.{tables, free_lock}
use advanced_synchronization.Fs.Disk.{Block, Volume}
use advanced_synchronization.Fs.Log.Crash.{InTransaction}
use advanced_synchronization.Fs.Block.{superblock, block_alloc}
use advanced_synchronization.Fs.Block.Freeing.{is_used, IsLaidOut}
use advanced_synchronization.Fs.Block.Allocation.{Allocated, block_alloc-Allocated}

-- 24 blocks and 8 inodes.
abbrev super_data : Block
super_data i = if i == 0 then 24 else if i == 8 then 8 else 0

abbrev bitmap_data : Block
bitmap_data i = if i == 0 then 255 else if i == 1 then 255 else if i == 2 then 15 else 0

abbrev content : ℕ → Block
content x = if x == 1 then super_data else if x == 4 then bitmap_data else λ _. 0

abbrev volume : Volume
volume = record {
  disk = content;
  view = content;
  writes = [];
  log = record {
    lock = free_lock;
    start = 22;
    size = 8;
    busy = 1;
    lh = record { n = 0; sector = λ t. 0 };
  };
  log_addr = 5000;
  sched = tables;
}

volume-InTransaction : InTransaction volume
volume-InTransaction = record {
  count_le = omega arith;
  start_lt = omega arith;
  are_home = record {
    home = λ t l. absurd (omega arith);
    distinct = λ s t l u e. absurd (omega arith);
  };
  logged = λ t l. absurd (omega arith);
  unmodified = λ x l h. refl;
  log_clean = λ x l. refl;
  uncommitted = refl;
}

not_free : (x y : ℕ) → is_used volume 8 y ≡ true → is_used volume 8 x ≡ false → x ≢ y
not_free x y u f e = true≢false (sym u ∙ ap (is_used volume 8) (sym e) ∙ f)

volume-IsLaidOut : IsLaidOut volume (superblock super_data)
unfolding test_bit
volume-IsLaidOut = record {
  size_lt = omega arith;
  bitmap_home = λ x l. omega arith;
  free_home = λ x l h f y k e. not_free x 4 refl f (omega (arith, e));
}

block_alloc-Allocated_example :
    Returns (λ r v'. Allocated volume v' (superblock super_data) r) (block_alloc volume)
unfolding test_bit
block_alloc-Allocated_example =
    block_alloc-Allocated volume 20 volume-InTransaction (omega arith, omega arith, omega arith)
      volume-IsLaidOut (omega arith) (omega arith) refl
