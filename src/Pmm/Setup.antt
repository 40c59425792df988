-- ===== src/Pmm/Setup.antt =====
-- kern/pmm/MATInit: the allocation table from the memory map, which the boot loader's devices give.
use advanced_synchronization.Base.{
  ℕ, zero, suc, ◌+◌, ◌*◌, ◌/◌, Bool, false, leb, ltb, ◌==◌, ◌&&◌, ◌||◌, if◌then◌else◌, u32, M, pure,
  ◌>>◌,
}
use advanced_synchronization.Pmm.Pages.{Memory, mem_spinlock_init, set_nps, at_set_perm}

abbrev pub pagesize : ℕ
pagesize = 4096

-- 0x40000000 / PAGESIZE and 0xF0000000 / PAGESIZE.
abbrev pub vm_userlo_pi : ℕ
vm_userlo_pi = 262144

abbrev pub vm_userhi_pi : ℕ
vm_userhi_pi = 983040

-- The memory map of kern/dev/mboot.c: its size, and start, length and usability of each range.
module _ (size : ℕ) (get_mms get_mml is_usable : ℕ → ℕ) where
  -- The loop for the highest page, from the range `i` on.
  unfoldable pub highest_page : ℕ → ℕ → ℕ → ℕ
  highest_page zero i nps = nps
  highest_page (suc n) i nps =
      let maxs = u32 (u32 (get_mms i + get_mml i) / pagesize + 1) in
      highest_page n (i + 1) (if ltb nps maxs then maxs else nps)

  -- Does the range `j` contain the whole page `i`?
  unfoldable pub covers : ℕ → ℕ → Bool
  covers i j =
      leb (get_mms j) (u32 (i * pagesize))
      && leb (u32 ((i + 1) * pagesize)) (u32 (get_mml j + get_mms j))

  -- The inner loop from the range `j` on: is the first range that contains the page usable?
  unfoldable pub usable_from : ℕ → ℕ → ℕ → Bool
  usable_from zero j i = false
  usable_from (suc n) j i =
      let rest = usable_from n (j + 1) i in if covers i j then is_usable j == 1 else rest

  -- The permission that the page `i` gets.
  unfoldable pub permission : ℕ → ℕ
  permission i =
      if ltb i vm_userlo_pi || leb vm_userhi_pi i then 1 else if usable_from size 0 i then 2 else 0

  -- The loop over the pages from `i` on.
  unfoldable pub set_pages : ℕ → ℕ → M Memory (Unit {0})
  set_pages zero i = pure tt
  set_pages (suc n) i = at_set_perm i (permission i) >> set_pages n (i + 1)

  -- `pmem_init` behind `devinit`.
  unfoldable pub pmem_init : M Memory (Unit {0})
  unfolding mem_spinlock_init set_nps
  pmem_init = do mem_spinlock_init; let nps = highest_page size 0 0; set_nps nps; set_pages nps 0
