-- ===== src/Fs/UserCopy/Tests.antt =====
-- The copies with an address space in which each page stands at its own address.
use advanced_synchronization.Base.{
  ℕ, ◌+◌, ◌*◌, ◌/◌, ◌<◌, ◌≡◌, refl, some, arith, [], Returns, pure, ◌>>=◌,
}
use advanced_synchronization.Bits.{test_bit}
use advanced_synchronization.Thread.Scheduler.Tests.{tables, free_lock}
use advanced_synchronization.Fs.Inode.{Files}
use advanced_synchronization.Fs.UserCopy.{Paging, page_bytes, pt_copyin, pt_copyout}
use advanced_synchronization.Fs.UserCopy.Mapped.{IsMapped}
use advanced_synchronization.Fs.UserCopy.Transfer.{copyout_then_copyin}

-- Present, user-accessible and writable.
abbrev pub identity : ℕ → ℕ
identity va = va / page_bytes * page_bytes + 7

abbrev pub identity_paging : Paging
identity_paging = record {
  get_ptbl_entry_by_va = λ pid va k. some (identity va, k);
  alloc_page = λ pid va perm k. some (tt, k);
}

pub identity-IsMapped : (pid uva len : ℕ) → IsMapped identity_paging pid uva len identity
unfolding test_bit
identity-IsMapped pid uva len = record {
  entry = λ i k l. refl;
  present = λ i l. ground arith;
  page = λ i j a b e. rw e refl;
}

-- The byte at an address is the address, modulo 256.
abbrev pub files : Files
files = record {
  vol = record {
    disk = λ _ _. 0;
    view = λ _ _. 0;
    writes = [];
    log = record {
      lock = free_lock;
      start = 100;
      size = 8;
      busy = 0;
      lh = record { n = 0; sector = λ _. 0 };
    };
    log_addr = 5000;
    sched = tables;
  };
  cache_lock = free_lock;
  inodes = λ _. record {
    dev = 1;
    inum = 0;
    ref = 0;
    flags = 0;
    type = 0;
    major = 0;
    minor = 0;
    nlink = 0;
    size = 0;
    addrs = λ _. 0;
  };
  inode_base = 9000;
  mem = λ a. a;
}

-- Six bytes across the end of a page.
copyout_then_copyin_example :
    Returns {A = ℕ × ℕ}
      (λ n k'. (n ≡ (6, 6)) × ((i : ℕ) → i < 6 → k'.mem (7000 + i) ≡ files.mem (6000 + i)))
      ((pt_copyout identity_paging 6000 3 1073745916 6 >>= λ out.
          pt_copyin identity_paging 3 1073745916 7000 6 >>= λ back. pure (out, back))
        files)
copyout_then_copyin_example =
    copyout_then_copyin identity_paging 3 identity 6000 7000 1073745916 6 files
      record { low = omega arith; high = omega arith; kernel = omega arith }
      record { low = omega arith; high = omega arith; kernel = omega arith }
      (identity-IsMapped 3 1073745916 6)
      record {
        disjoint = λ i j a b e. omega (arith, a, e);
        distinct = λ i j a b e. omega (arith, e);
      }
      record {
        disjoint = λ i j a b e. omega (arith, b, e);
        distinct = λ i j a b e. omega (arith, e);
      }
