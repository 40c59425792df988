-- ===== src/Pmm/Quota.antt =====
-- The containers: what a process uses stays within its quota.
use advanced_synchronization.Base.{
  ℕ, ◌+◌, ◌<◌, ◌≤◌, ◌≡◌, ◌≢◌, ◌⊎◌, ◌↔◌, ◌^◌, inl, inr, refl, ap, ◌∙◌, ltb, ◌==◌, some, u32, update,
  num_ids, Bool-cases, arith, Returns, Returns-mono,
}
use advanced_synchronization.Pmm.Pages.{Memory}
use advanced_synchronization.Pmm.Alloc.{palloc}
use advanced_synchronization.Pmm.Container.{container_can_consume, container_alloc}
use advanced_synchronization.Pmm.Scan.{IsIdle, Took, Missed, palloc_outcome}

-- The process `id` uses no more than its quota, which is a positive `int` or 0.
pub record IsWithinQuota (m : Memory) (id : ℕ) : Type 0 where
  pub id_lt : id < num_ids
  pub usage_le : (m.containers id).usage ≤ (m.containers id).quota
  pub quota_lt : (m.containers id).quota < 2 ^ 31

-- The memory with one more page charged to `id`.
abbrev pub charged : Memory → ℕ → Memory
charged m id = record m {
  containers =
      update m.containers id (record (m.containers id) { usage = (m.containers id).usage + 1 });
}

-- A page was sought for `id`, and `id` pays for it.
pub record SoughtFor (m m' : Memory) (id p : ℕ) : Type 0 where
  pub usage_more : (m'.containers id).usage ≡ (m.containers id).usage + 1
  pub within : IsWithinQuota m' id
  pub others : (a : ℕ) → a ≢ id → m'.containers a ≡ m.containers a
  pub page : Took (charged m id) m' p ⊎ Missed (charged m id) m' p

module _ (m : Memory) (id : ℕ) (w : IsWithinQuota m id) where
  -- On a process within its quota, `container_can_consume` returns 1 exactly when `n` more pages stay
  -- within the quota, for an `n` below 2 ^ 31; it changes nothing.
  pub can_consume_exact :
      (n : ℕ)
      → n < 2 ^ 31
      → Returns
          (λ r m'. (m' ≡ m) × ((r ≡ 1) ↔ ((m.containers id).usage + n ≤ (m.containers id).quota)))
          (container_can_consume id n m)
  unfolding container_can_consume
  can_consume_exact n h =
      elim (Bool-cases (ltb (m.containers id).quota (u32 ((m.containers id).usage + n)))) [
        | inl e ↦ ground (arith, w.id_lt, w.usage_le, w.quota_lt, e)
        | inr e ↦ ground (arith, w.id_lt, w.usage_le, w.quota_lt, e)
      ]

  alloc-eq :
      (m.containers id).usage ≢ (m.containers id).quota
      → container_alloc id m ≡ palloc (charged m id)
  unfolding container_alloc
  alloc-eq ne = ground (arith, w.id_lt, w.usage_le, w.quota_lt)

  alloc-spent :
      (m.containers id).usage ≡ (m.containers id).quota → container_alloc id m ≡ some (0, m)
  unfolding container_alloc
  alloc-spent e = ground (arith, w.id_lt)

  sought :
      (m.containers id).usage ≢ (m.containers id).quota
      → (m' : Memory) (p : ℕ) → m'.containers ≡ (charged m id).containers
      → Took (charged m id) m' p ⊎ Missed (charged m id) m' p
      → SoughtFor m m' id p
  sought ne m' p same page = record {
    usage_more = ap (λ c. (c id).usage) same ∙ ground arith;
    within = record {
      id_lt = w.id_lt;
      usage_le = rw same (ground (arith, w.usage_le));
      quota_lt = rw same (ground (arith, w.quota_lt));
    };
    others = λ a f. ap (λ c. c a) same ∙ ground arith;
    page = page;
  }

  -- With the allocator idle and the process within its quota, `container_alloc` returns. With the
  -- quota used up it returns 0 and changes nothing; else it charges one page, stays within the quota,
  -- leaves the other containers as they are, and returns what `palloc` finds, or misses.
  pub alloc_within_quota :
      IsIdle m
      → Returns
          (λ p m'.
            (((m.containers id).usage ≡ (m.containers id).quota) × (p ≡ 0) × (m' ≡ m))
            ⊎ SoughtFor m m' id p)
          (container_alloc id m)
  alloc_within_quota i = elim (Bool-cases ((m.containers id).usage == (m.containers id).quota)) [
    | inl e ↦
        let spent : (m.containers id).usage ≡ (m.containers id).quota = ground (arith, e) in
        rw (alloc-spent spent) (inl (spent, refl, refl))
    | inr e ↦
        let left : (m.containers id).usage ≢ (m.containers id).quota = ground (arith, e) in
        rw (alloc-eq left) (
          Returns-mono (λ p m'. Took (charged m id) m' p ⊎ Missed (charged m id) m' p) _
            (palloc (charged m id))
            (palloc_outcome (charged m id)
              (record { unlocked = i.unlocked; pages_le = i.pages_le; last_lt = i.last_lt }))
            (λ p m' q. elim q [
              | inl t ↦ inr (sought left m' p t.same_containers (inl t))
              | inr t ↦ inr (sought left m' p t.same_containers (inr t))
            ]))
  ]
