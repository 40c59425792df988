-- ===== src/Pmm/Tests.antt =====
-- The page allocator on a machine of six pages, where the pages 2 and 4 are normal and 2 is taken, and
-- the process 1 has 5 pages of quota.
use advanced_synchronization.Base.{
  ℕ, ◌≤◌, ◌≡◌, ◌⊎◌, refl, ◌==◌, if◌then◌else◌, arith, Returns, pure, ◌>>=◌, ◌>>◌,
}
use advanced_synchronization.Pmm.Pages.{Memory}
use advanced_synchronization.Pmm.Alloc.{palloc}
use advanced_synchronization.Pmm.Scan.{IsIdle, Took, Missed, palloc_outcome}
use advanced_synchronization.Pmm.Container.{container_alloc, container_free}
use advanced_synchronization.Pmm.Quota.{IsWithinQuota, SoughtFor, alloc_within_quota}
use advanced_synchronization.Pmm.Release.{SameUse, alloc-free-SameUse}
use advanced_synchronization.Pmm.Setup.{highest_page}

abbrev machine : Memory
machine = record {
  num_pages = 6;
  at_table = λ a.
      if a == 2
      then record { perm = 2; allocated = 1 }
      else if a == 4
      then record { perm = 2; allocated = 0 }
      else record { perm = 1; allocated = 0 };
  mem_lk = record { lock_holder = 9; lock = 0 };
  last_palloc_index = 2;
  containers = λ _. record { quota = 5; usage = 2; parent = 0; nchildren = 0; used = 0 };
  pcpu_idx = 0;
}

machine-IsIdle : IsIdle machine
machine-IsIdle = record { unlocked = refl; pages_le = omega arith; last_lt = omega arith }

machine-IsWithinQuota : IsWithinQuota machine 1
machine-IsWithinQuota = record {
  id_lt = omega arith;
  usage_le = omega arith;
  quota_lt = omega arith;
}

palloc_outcome_example : Returns (λ p m'. Took machine m' p ⊎ Missed machine m' p) (palloc machine)
palloc_outcome_example =
    palloc_outcome machine
      (record { unlocked = refl; pages_le = omega arith; last_lt = omega arith })

alloc_within_quota_example :
    Returns
      (λ p m'.
        (((machine.containers 1).usage ≡ (machine.containers 1).quota) × (p ≡ 0) × (m' ≡ machine))
        ⊎ SoughtFor machine m' 1 p)
      (container_alloc 1 machine)
alloc_within_quota_example = alloc_within_quota machine 1 machine-IsWithinQuota machine-IsIdle

alloc-free-SameUse_example :
    Returns
      (λ p m'. (p ≡ 0) ⊎ SameUse machine m')
      ((container_alloc 1 >>= λ p. if p == 0 then pure 0 else (container_free 1 p >> pure p))
        machine)
alloc-free-SameUse_example = alloc-free-SameUse machine 1 machine-IsIdle machine-IsWithinQuota

-- One usable range of four pages from the first user page on.
abbrev lo : ℕ → ℕ
lo _ = 1073741824

abbrev long : ℕ → ℕ
long _ = 16384

abbrev usable : ℕ → ℕ
usable _ = 1

few_pages : highest_page 1 lo long usable 1 0 0 ≤ 1048576
unfolding highest_page
few_pages = omega arith
