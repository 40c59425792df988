-- ===== src/Pmm/Container.antt =====
-- kern/pmm/MContainer: the quota and the usage of memory of each process. The fields are the words of
-- the source's `int`s: they are read and written through `unsigned int`,
-- but for the signed test of `container_free`.
use advanced_synchronization.Base.{
  ℕ, zero, suc, ◌+◌, ◌-◌, ◌*◌, ltb, ◌==◌, ◌&&◌, ◌^◌, if◌then◌else◌, u32, update, num_ids,
  max_children, M, pure, check, ◌>>=◌, ◌>>◌, some,
}
use advanced_synchronization.Pmm.Pages.{Memory, SContainer, get_nps, at_is_norm, at_is_allocated}
use advanced_synchronization.Pmm.Alloc.{palloc, pfree}

abbrev pub container_at : ℕ → M Memory SContainer
container_at id m = (check (ltb id num_ids) >>= λ _. pure (m.containers id)) m

abbrev pub write_container : ℕ → (SContainer → SContainer) → M Memory (Unit {0})
write_container id f m =
    (check (ltb id num_ids) >>= λ _ m'.
    some (tt, record m' { containers = update m'.containers id (f (m'.containers id)) }))
      m

-- The loop of `container_init` from the page `i` on, by the rounds left: `real_quota` at its end.
unfoldable pub count_pages : ℕ → ℕ → ℕ → M Memory ℕ
unfolding at_is_norm at_is_allocated
count_pages zero i real_quota = pure real_quota
count_pages (suc n) i real_quota = do
  norm ← at_is_norm i
  used ← at_is_allocated i
  count_pages n (i + 1) (if (norm == 1) && (used == 0) then u32 (real_quota + 1) else real_quota)

-- `container_init` behind its call of `pmem_init`.
unfoldable pub init_root : M Memory (Unit {0})
unfolding get_nps
init_root = do
  nps ← get_nps
  real_quota ← count_pages (nps - 1) 1 0
  write_container 0
      (λ _. record { quota = real_quota; usage = 0; parent = 0; nchildren = 0; used = 1 })

unfoldable pub container_get_parent : ℕ → M Memory ℕ
container_get_parent id = do c ← container_at id; pure c.parent

unfoldable pub container_get_nchildren : ℕ → M Memory ℕ
container_get_nchildren id = do c ← container_at id; pure c.nchildren

unfoldable pub container_get_quota : ℕ → M Memory ℕ
container_get_quota id = do c ← container_at id; pure c.quota

unfoldable pub container_get_usage : ℕ → M Memory ℕ
container_get_usage id = do c ← container_at id; pure c.usage

unfoldable pub container_can_consume : ℕ → ℕ → M Memory ℕ
container_can_consume id n = do
  c ← container_at id
  pure (if ltb c.quota (u32 (c.usage + n)) then 0 else 1)

unfoldable pub container_split : ℕ → ℕ → M Memory ℕ
container_split id quota = do
  c ← container_at id
  let child = u32 (id * max_children + 1 + c.nchildren)
  write_container child
      (λ _. record { quota = quota; usage = 0; parent = id; nchildren = 0; used = 1 })
  write_container id (λ p. record p { usage = u32 (p.usage + quota) })
  write_container id (λ p. record p { nchildren = u32 (c.nchildren + 1) })
  pure child

unfoldable pub container_alloc : ℕ → M Memory ℕ
container_alloc id = do
  c ← container_at id
  if c.usage == c.quota
      then pure 0
      else (do write_container id (λ p. record p { usage = u32 (c.usage + 1) }); palloc)

unfoldable pub container_free : ℕ → ℕ → M Memory (Unit {0})
unfolding at_is_allocated
container_free id page_index = do
  allocated ← at_is_allocated page_index
  if allocated == 0 then pure tt else (do
    pfree page_index
    c ← container_at id
    if ltb 0 c.usage && ltb c.usage (2 ^ 31)
        then write_container id (λ p. record p { usage = p.usage - 1 })
        else pure tt)
