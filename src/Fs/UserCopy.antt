-- ===== src/Fs/UserCopy.antt =====
-- kern/lib/pmap.c: copies between the memory of a process and the kernel's. The page tables are not in
-- this repository: looking up an entry and allocating a page are parameters. Memory is by physical
-- address, which is that of the kernel.
pub mod Copied
pub mod Mapped
pub mod Transfer
pub mod Tests
use advanced_synchronization.Base.{
  ℕ, zero, suc, some, ◌+◌, ◌-◌, ◌*◌, ◌/◌, ◌%◌, leb, ltb, ◌==◌, ◌&&◌, not, if◌then◌else◌, u32, M,
  pure, ◌>>=◌, ◌>>◌,
}
use advanced_synchronization.Bits.{test_bit}
use advanced_synchronization.Fs.Inode.{Files}

-- `get_ptbl_entry_by_va` of a process and an address, and `alloc_page` of these and the permissions.
pub record Paging : Type 0 where
  pub get_ptbl_entry_by_va : ℕ → ℕ → M Files ℕ
  pub alloc_page : ℕ → ℕ → ℕ → M Files (Unit {0})

abbrev pub vm_userhi : ℕ
vm_userhi = 4026531840

abbrev pub vm_userlo : ℕ
vm_userlo = 1073741824

abbrev pub page_bytes : ℕ
page_bytes = 4096

-- `memcpy(dst, src, n)`.
abbrev pub copy_mem : ℕ → ℕ → ℕ → M Files (Unit {0})
copy_mem dst src n k = some (
  tt,
  record k { mem = λ a. if leb dst a && ltb a (dst + n) then k.mem (src + (a - dst)) else k.mem a },
)

abbrev pub fill_mem : ℕ → ℕ → ℕ → M Files (Unit {0})
fill_mem dst c n k =
    some (tt, record k { mem = λ a. if leb dst a && ltb a (dst + n) then c % 256 else k.mem a })

-- The bytes of a round: up to the end of the page.
abbrev pub page_chunk : ℕ → ℕ → ℕ
page_chunk len pa =
    if ltb len (page_bytes - pa % page_bytes) then len else page_bytes - pa % page_bytes

module _ (paging : Paging) where
  -- The physical address of `uva`, with its page allocated: PTE_P | PTE_U | PTE_W is 7.
  unfoldable pub user_address : ℕ → ℕ → M Files ℕ
  user_address pid uva = do
    e ← paging.get_ptbl_entry_by_va pid uva
    e' ←
        (if test_bit e 0
          then pure e
          else (do paging.alloc_page pid uva 7; paging.get_ptbl_entry_by_va pid uva))
    pure (e' / page_bytes * page_bytes + uva % page_bytes)

  -- The loops; a round copies a byte at least, so that `len` rounds are enough.
  unfoldable pub copyin_from : ℕ → ℕ → ℕ → ℕ → ℕ → M Files (Unit {0})
  copyin_from zero pid uva kva len = pure tt
  copyin_from (suc fuel) pid uva kva len = if len == 0 then pure tt else (do
    pa ← user_address pid uva
    let size = page_chunk len pa
    copy_mem kva pa size
    copyin_from fuel pid (u32 (uva + size)) (u32 (kva + size)) (len - size))

  unfoldable pub copyout_from : ℕ → ℕ → ℕ → ℕ → ℕ → M Files (Unit {0})
  copyout_from zero kva pid uva len = pure tt
  copyout_from (suc fuel) kva pid uva len = if len == 0 then pure tt else (do
    pa ← user_address pid uva
    let size = page_chunk len pa
    copy_mem pa kva size
    copyout_from fuel (u32 (kva + size)) pid (u32 (uva + size)) (len - size))

  -- The number of bytes copied.
  unfoldable pub pt_copyin : ℕ → ℕ → ℕ → ℕ → M Files ℕ
  pt_copyin pid uva kva len =
      if not (leb vm_userlo uva && leb (u32 (uva + len)) vm_userhi)
      then pure 0
      else if ltb vm_userhi (u32 (kva + len))
      then pure 0
      else (do copyin_from len pid uva kva len; pure len)

  unfoldable pub pt_copyout : ℕ → ℕ → ℕ → ℕ → M Files ℕ
  pt_copyout kva pid uva len =
      if not (leb vm_userlo uva && leb (u32 (uva + len)) vm_userhi)
      then pure 0
      else if ltb vm_userhi (u32 (kva + len))
      then pure 0
      else (do copyout_from len kva pid uva len; pure len)

  -- `memset(dst, c, n)` for each chunk. The number of bytes set is `len`.
  unfoldable pub memset_from : ℕ → ℕ → ℕ → ℕ → ℕ → M Files (Unit {0})
  memset_from zero pid va c len = pure tt
  memset_from (suc fuel) pid va c len = if len == 0 then pure tt else (do
    pa ← user_address pid va
    let size = page_chunk len pa
    fill_mem pa c size
    memset_from fuel pid (u32 (va + size)) c (len - size))

  unfoldable pub pt_memset : ℕ → ℕ → ℕ → ℕ → M Files ℕ
  pt_memset pid va c len = do memset_from len pid va c len; pure len
