-- ===== src/Pmm/Split.antt =====
-- `container_split`: the children of a process and their containers.
use advanced_synchronization.Base.{
  ℕ, ◌+◌, ◌*◌, ◌<◌, ◌≤◌, ◌≡◌, ◌≢◌, refl, some, u32, update, num_ids, max_children, arith, Returns,
}
use advanced_synchronization.Pmm.Pages.{Memory, SContainer}
use advanced_synchronization.Pmm.Container.{container_split}
use advanced_synchronization.Pmm.Quota.{IsWithinQuota}

abbrev pub child_of : ℕ → ℕ → ℕ
child_of id nc = id * max_children + 1 + nc

-- Two processes with fewer than three children each never name the same child.
pub child_of-injective :
    (id id' nc nc' : ℕ)
    → nc < max_children
    → nc' < max_children
    → child_of id nc ≡ child_of id' nc'
    → (id ≡ id') × (nc ≡ nc')
child_of-injective id id' nc nc' h h' e = (omega arith, omega arith)

-- The container of the process `id` was split for its new child `c`.
pub record SplitOff (m m' : Memory) (id quota c : ℕ) : Type 0 where
  pub child :
      m'.containers c ≡ record { quota = quota; usage = 0; parent = id; nchildren = 0; used = 1 }
  pub child_within : IsWithinQuota m' c
  pub parent_within : IsWithinQuota m' id
  pub parent_usage : (m'.containers id).usage ≡ (m.containers id).usage + quota
  pub parent_children : (m'.containers id).nchildren ≡ (m.containers id).nchildren + 1
  pub parent_quota : (m'.containers id).quota ≡ (m.containers id).quota
  pub others : (a : ℕ) → a ≢ id → a ≢ c → m'.containers a ≡ m.containers a
  pub same_table : m'.at_table ≡ m.at_table

module _ (m : Memory) (id quota : ℕ) (w : IsWithinQuota m id) where
  abbrev c : ℕ
  c = child_of id (m.containers id).nchildren

  abbrev with_child : ℕ → SContainer
  with_child =
      update m.containers c
        (record { quota = quota; usage = 0; parent = id; nchildren = 0; used = 1 })

  abbrev with_usage : ℕ → SContainer
  with_usage =
      update with_child id (record (with_child id) { usage = u32 ((with_child id).usage + quota) })

  abbrev split : Memory
  split = record m {
    containers =
        update with_usage id
          (record (with_usage id) { nchildren = u32 ((m.containers id).nchildren + 1) });
  }

  c≢id : c ≢ id
  c≢id e = omega arith

  split-eq :
      (m.containers id).nchildren < max_children
      → c < num_ids
      → (m.containers id).usage + quota ≤ (m.containers id).quota
      → container_split id quota m ≡ some (c, split)
  unfolding container_split
  split-eq h l q = ground (arith, w.id_lt, h, l)

  -- For a process within its quota that has fewer than three children, a free index for the child and
  -- `quota` pages left: `container_split` returns the child's index; the child has that quota, uses
  -- nothing and has the process as its parent; the process pays for the whole quota and stays within
  -- its own; the other containers and the pages are as before.
  pub split_within_quota :
      (m.containers id).nchildren < max_children
      → c < num_ids
      → (m.containers id).usage + quota ≤ (m.containers id).quota
      → Returns (λ r m'. (r ≡ c) × SplitOff m m' id quota c) (container_split id quota m)
  split_within_quota h l q = rw (split-eq h l q) (
    refl,
    record {
      child = ground (arith, c≢id, w.usage_le, w.quota_lt);
      child_within = record {
        id_lt = l;
        usage_le = ground (arith, c≢id, w.usage_le, w.quota_lt);
        quota_lt = ground (arith, c≢id, w.quota_lt);
      };
      parent_within = record {
        id_lt = w.id_lt;
        usage_le = ground (arith, c≢id, w.usage_le, w.quota_lt);
        quota_lt = ground (arith, c≢id, w.quota_lt);
      };
      parent_usage = ground (arith, c≢id, w.usage_le, w.quota_lt);
      parent_children = ground (arith, c≢id, w.usage_le, w.quota_lt);
      parent_quota = ground (arith, c≢id, w.usage_le, w.quota_lt);
      others = λ a e f. ground arith;
      same_table = refl;
    },
  )
