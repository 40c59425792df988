-- ===== src/Pmm/Alloc.antt =====
-- kern/pmm/MATOp: allocation and release of a physical page.
use advanced_synchronization.Base.{
  ℕ, zero, suc, ◌+◌, ◌-◌, ◌%◌, ◌==◌, if◌then◌else◌, u32, M, pure, check, not, ◌>>=◌, ◌>>◌, some,
}
use advanced_synchronization.Pmm.Pages.{
  Memory, mem_lock, mem_unlock, get_nps, at_is_norm, at_is_allocated, at_set_allocated,
}

-- The loop of `palloc` from `palloc_index` on, by the rounds left: the first normal page that is not
-- allocated, or `tnps`.
unfoldable pub scan_pages : ℕ → ℕ → ℕ → M Memory ℕ
unfolding at_is_norm at_is_allocated
scan_pages zero palloc_index tnps = pure tnps
scan_pages (suc n) palloc_index tnps = do
  let rest = scan_pages n (palloc_index + 1) tnps
  norm ← at_is_norm palloc_index
  if norm == 1
      then (do used ← at_is_allocated palloc_index; if used == 0 then pure palloc_index else rest)
      else rest

abbrev pub get_last : M Memory ℕ
get_last m = some (m.last_palloc_index, m)

-- `last_palloc_index = index % tnps`, a fault if `tnps` is 0.
abbrev pub set_last : ℕ → ℕ → M Memory (Unit {0})
set_last index tnps =
    check (not (tnps == 0)) >>= λ _ m. some (tt, record m { last_palloc_index = index % tnps })

-- The statements of `palloc` behind the loop, without and with a page found.
unfoldable pub palloc_none : ℕ → M Memory ℕ
unfolding mem_unlock
palloc_none tnps = do set_last 0 tnps; mem_unlock; pure 0

unfoldable pub palloc_found : ℕ → ℕ → M Memory ℕ
unfolding mem_unlock at_set_allocated
palloc_found free tnps = do at_set_allocated free 1; set_last free tnps; mem_unlock; pure free

unfoldable pub palloc : M Memory ℕ
unfolding mem_lock get_nps
palloc = do
  mem_lock
  tnps ← get_nps
  last ← get_last
  free ← scan_pages (tnps - u32 (last + 1)) (u32 (last + 1)) tnps
  if free == tnps then palloc_none tnps else palloc_found free tnps

unfoldable pub pfree : ℕ → M Memory (Unit {0})
unfolding mem_lock mem_unlock at_set_allocated
pfree pfree_index = do mem_lock; at_set_allocated pfree_index 0; mem_unlock
