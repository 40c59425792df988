-- ===== src/Pmm/Release.antt =====
-- `container_free`: it gives back what `container_alloc` took.
use native.Mathlib.Decide.{ℕ_discrete}
use advanced_synchronization.Base.{
  ℕ, ◌-◌, ◌<◌, ◌≡◌, ◌≢◌, ◌⊎◌, ◌^◌, inl, inr, refl, sym, ap, ◌∙◌, true, false, ◌==◌, if◌then◌else◌,
  some, update, num_ids, Bool-cases, arith, pure, ◌>>=◌, ◌>>◌, Returns, Returns-bind,
}
use advanced_synchronization.Spinlock.{IsFree}
use advanced_synchronization.Pmm.Pages.{Memory, AtStruct, SContainer, max_pages}
use advanced_synchronization.Pmm.Alloc.{pfree}
use advanced_synchronization.Pmm.Container.{container_alloc, container_free}
use advanced_synchronization.Pmm.Scan.{is_free, IsIdle, Took}
use advanced_synchronization.Pmm.Quota.{IsWithinQuota, charged, SoughtFor, alloc_within_quota}

-- Which pages are free, the permissions, and what is charged to whom are as in `m`.
pub record SameUse (m m' : Memory) : Type 0 where
  pub same_free : (a : ℕ) → is_free (m'.at_table a) ≡ is_free (m.at_table a)
  pub same_perms : (a : ℕ) → (m'.at_table a).perm ≡ (m.at_table a).perm
  pub same_usage : (a : ℕ) → (m'.containers a).usage ≡ (m.containers a).usage
  pub same_quota : (a : ℕ) → (m'.containers a).quota ≡ (m.containers a).quota

-- The memory with the page `p` released and one page less charged to `id`.
abbrev pub released : Memory → ℕ → ℕ → Memory
released m id p =
    record (record (record m {
      at_table = update m.at_table p (record (m.at_table p) { allocated = 0 });
    }) { mem_lk = record { lock_holder = 9; lock = 0 } }) {
      containers =
          update m.containers id (record (m.containers id) { usage = (m.containers id).usage - 1 });
    }

free-eq :
    (m : Memory) (id p : ℕ)
    → IsFree m.mem_lk
    → p < max_pages
    → (m.at_table p).allocated ≡ 1
    → id < num_ids
    → 0 < (m.containers id).usage
    → (m.containers id).usage < 2 ^ 31
    → container_free id p m ≡ some (tt, released m id p)
unfolding container_free pfree
free-eq m id p f h e i u v = ground arith

released_table : (m : Memory) (id p a : ℕ) → a ≢ p → (released m id p).at_table a ≡ m.at_table a
released_table m id p a ne = ground arith

released_containers :
    (m : Memory) (id p a : ℕ) → a ≢ id → (released m id p).containers a ≡ m.containers a
released_containers m id p a ne = ground arith

released_quota :
    (m : Memory) (id p : ℕ) → ((released m id p).containers id).quota ≡ (m.containers id).quota
released_quota m id p = ground arith

charged_quota :
    (m : Memory) (id : ℕ) → ((charged m id).containers id).quota ≡ (m.containers id).quota
charged_quota m id = ground arith

module _ (m : Memory) (id : ℕ) (i : IsIdle m) (w : IsWithinQuota m id) where
  given_back :
      (p : ℕ) (m' : Memory)
      → SoughtFor m m' id p
      → Took (charged m id) m' p
      → SameUse m (released m' id p)
  unfolding is_free
  given_back p m' s t = record {
    same_free = λ a. elim (ℕ_discrete a p) [
      | yes e ↦ rw e (ground (arith, t.now_allocated, t.was_free))
      | no e ↦ ap is_free (released_table m' id p a e ∙ t.others a e)
    ];
    same_perms = λ a. elim (ℕ_discrete a p) [
      | yes e ↦ rw e (ground (arith, t.now_allocated))
      | no e ↦ ap (λ (x : AtStruct). x.perm) (released_table m' id p a e ∙ t.others a e)
    ];
    same_usage = λ a. elim (ℕ_discrete a id) [
      | yes e ↦ rw e (ground (arith, s.usage_more))
      | no e ↦ ap (λ (x : SContainer). x.usage) (released_containers m' id p a e ∙ s.others a e)
    ];
    same_quota = λ a. elim (ℕ_discrete a id) [
      | yes e ↦
          rw e
            (released_quota m' id p ∙ ap (λ c. (c id).quota) t.same_containers ∙ charged_quota m id)
      | no e ↦ ap (λ (x : SContainer). x.quota) (released_containers m' id p a e ∙ s.others a e)
    ];
  }

  freed :
      (p : ℕ) (m' : Memory)
      → (p == 0) ≡ false
      → SoughtFor m m' id p
      → Returns (λ r m''. (r ≡ 0) ⊎ SameUse m m'') ((container_free id p >> pure p) m')
  freed p m' z s = elim s.page [
    | inl t ↦
        let run : container_free id p m' ≡ some (tt, released m' id p) =
          free-eq m' id p t.unlocked (omega (arith, t.below, i.pages_le))
            (ap (λ (x : AtStruct). x.allocated) t.now_allocated) w.id_lt
            (omega (arith, s.usage_more)) (omega (arith, s.within.usage_le, s.within.quota_lt)) in
        rw (◌>>◌, ◌>>=◌, run) (inr (given_back p m' s t))
    | inr t ↦ absurd (false≢true (sym z ∙ ap (λ x. x == 0) t.zero_index))
  ]
    where
      false≢true : false ≡ true → ⊥
      false≢true e = cc

  -- With the allocator idle and the process within its quota: a page that `container_alloc` returns
  -- and that `container_free` then releases leaves the free pages, the permissions, the usages and the
  -- quotas as they were; the other outcome is that `container_alloc` returned 0.
  pub alloc-free-SameUse :
      Returns
        (λ p m'. (p ≡ 0) ⊎ SameUse m m')
        ((container_alloc id >>= λ p. if p == 0 then pure 0 else (container_free id p >> pure p)) m)
  alloc-free-SameUse =
      Returns-bind _ (λ p m'. (p ≡ 0) ⊎ SameUse m m') (container_alloc id)
        (λ p. if p == 0 then pure 0 else (container_free id p >> pure p)) m
        (alloc_within_quota m id w i)
        (λ p m' q. elim (Bool-cases (p == 0)) [
          | inl z ↦ rw z (inl refl)
          | inr z ↦ elim q [
            | inl (_, e, _) ↦ absurd (false≢true (sym z ∙ ap (λ x. x == 0) e))
            | inr s ↦ rw z (freed p m' z s)
          ]
        ])
    where
      false≢true : false ≡ true → ⊥
      false≢true e = cc
