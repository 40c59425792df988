-- ===== src/Pmm/Layout.antt =====
-- `pmem_init`: which permission each page of the machine gets.
use native.Mathlib.Decide.{ℕ_discrete}
use advanced_synchronization.Base.{
  ℕ, zero, suc, ◌+◌, ◌<◌, ◌≤◌, ◌≡◌, ◌≢◌, ◌⊎◌, inl, inr, refl, sym, ap, ◌∙◌, true, false, some,
  update, Bool-cases, arith, Returns, Returns-mono, ◌>>=◌, ◌>>◌,
}
use advanced_synchronization.Spinlock.{IsFree}
use advanced_synchronization.Pmm.Pages.{Memory, AtStruct, norm_flag, max_pages, at_set_perm}
use advanced_synchronization.Pmm.Setup.{
  vm_userlo_pi, vm_userhi_pi, highest_page, covers, usable_from, permission, set_pages, pmem_init,
}

-- The pages from `i` to `i + n` have their permissions and are not allocated; the others are as before.
pub record PagesSet (m m' : Memory) (perms : ℕ → ℕ) (n i : ℕ) : Type 0 where
  pub inside :
      (a : ℕ) → i ≤ a → a < i + n → m'.at_table a ≡ record { perm = perms a; allocated = 0 }
  pub below : (a : ℕ) → a < i → m'.at_table a ≡ m.at_table a
  pub above : (a : ℕ) → i + n ≤ a → m'.at_table a ≡ m.at_table a
  pub same_pages : m'.num_pages ≡ m.num_pages
  pub same_lock : m'.mem_lk ≡ m.mem_lk

module _ (size : ℕ) (get_mms get_mml is_usable : ℕ → ℕ) where
  abbrev perms : ℕ → ℕ
  perms = permission size get_mms get_mml is_usable

  abbrev one_set : Memory → ℕ → Memory
  one_set m i = record m {
    at_table = update m.at_table i (record { perm = perms i; allocated = 0 });
  }

  set_one-eq :
      (m : Memory) (i : ℕ) → i < max_pages → at_set_perm i (perms i) m ≡ some (tt, one_set m i)
  unfolding at_set_perm
  set_one-eq m i h = ground (arith, h)

  set_pages-PagesSet :
      (n i : ℕ) (m : Memory)
      → i + n ≤ max_pages
      → Returns (λ _ m'. PagesSet m m' perms n i) (set_pages size get_mms get_mml is_usable n i m)
  unfolding set_pages
  set_pages-PagesSet zero i m h = record {
    inside = λ a l u. absurd (omega arith);
    below = λ a l. refl;
    above = λ a l. refl;
    same_pages = refl;
    same_lock = refl;
  }
  set_pages-PagesSet (suc n) i m h =
      rw (◌>>◌, ◌>>=◌, set_one-eq m i (omega arith))
        (Returns-mono (λ _ m'. PagesSet (one_set m i) m' perms n (i + 1))
          (λ _ m'. PagesSet m m' perms (suc n) i)
          (set_pages size get_mms get_mml is_usable n (i + 1) (one_set m i))
          (set_pages-PagesSet n (i + 1) (one_set m i) (omega arith))
          (λ _ m' q. record {
            inside = λ a l u. elim (ℕ_discrete a i) [
              | yes e ↦ q.below a (omega arith) ∙ rw e (here m i)
              | no e ↦ q.inside a (omega arith) (omega arith)
            ];
            below = λ a l. q.below a (omega arith) ∙ there m i a (λ e. omega arith);
            above = λ a l. q.above a (omega arith) ∙ there m i a (λ e. omega arith);
            same_pages = q.same_pages;
            same_lock = q.same_lock;
          }))
    where
      here :
          (m : Memory) (i : ℕ) → (one_set m i).at_table i ≡ record { perm = perms i; allocated = 0 }
      here m i = ground arith

      there : (m : Memory) (i a : ℕ) → a ≢ i → (one_set m i).at_table a ≡ m.at_table a
      there m i a ne = ground arith

  -- The ranges `j` to `j + n`: the first that contains the page is usable.
  usable_from-true :
      (n j i : ℕ)
      → usable_from size get_mms get_mml is_usable n j i ≡ true
      → (k : ℕ) × (j ≤ k)
        × (k < j + n)
        × (covers size get_mms get_mml is_usable i k ≡ true)
        × (is_usable k ≡ 1)
        × ((l : ℕ) → j ≤ l → l < k → covers size get_mms get_mml is_usable i l ≡ false)
  unfolding usable_from
  usable_from-true zero j i e = absurd (false≢true e)
    where
      false≢true : false ≡ true → ⊥
      false≢true p = cc
  usable_from-true (suc n) j i e = elim (Bool-cases (covers size get_mms get_mml is_usable i j)) [
    | inl c ↦ (j, omega arith, omega arith, c, ground (arith, e, c), λ l a b. absurd (omega arith))
    | inr c ↦
        let (k, a, b, d, u, first) = usable_from-true n (j + 1) i (ground (arith, e, c)) in
        (
          k,
          omega arith,
          omega arith,
          d,
          u,
          λ l x y. elim (ℕ_discrete l j) [ yes f ↦ rw f c | no f ↦ first l (omega arith) y ],
        )
  ]

  -- The page is one of the user's, and the first range of the map that contains it is usable.
  pub record IsUserPage (i : ℕ) : Type 0 where
    pub above_kernel : vm_userlo_pi ≤ i
    pub below_kernel : i < vm_userhi_pi
    pub range :
        (k : ℕ) × (0 ≤ k)
        × (k < 0 + size)
        × (covers size get_mms get_mml is_usable i k ≡ true)
        × (is_usable k ≡ 1)
        × ((l : ℕ) → 0 ≤ l → l < k → covers size get_mms get_mml is_usable i l ≡ false)

  normal_perm :
      (i : ℕ)
      → norm_flag (record { perm = perms i; allocated = 0 }) ≡ 1
      → (vm_userlo_pi ≤ i)
        × (i < vm_userhi_pi)
        × (usable_from size get_mms get_mml is_usable size 0 i ≡ true)
  unfolding permission
  normal_perm i f = ground (arith, f)

  normal-IsUserPage :
      (i : ℕ) → norm_flag (record { perm = perms i; allocated = 0 }) ≡ 1 → IsUserPage i
  normal-IsUserPage i f = record {
    above_kernel = (normal_perm i f).0;
    below_kernel = (normal_perm i f).1;
    range = usable_from-true size 0 i (normal_perm i f).2;
  }

  kernel_perm : (i : ℕ) → (i < vm_userlo_pi) ⊎ (vm_userhi_pi ≤ i) → perms i ≡ 1
  unfolding permission
  kernel_perm i h = ground (arith, h)

  abbrev nps : ℕ
  nps = highest_page size get_mms get_mml is_usable size 0 0

  -- The table once it is set up.
  pub record Initialised (m' : Memory) : Type 0 where
    pub pages : m'.num_pages ≡ nps
    pub unlocked : IsFree m'.mem_lk
    pub not_allocated : (a : ℕ) → a < nps → (m'.at_table a).allocated ≡ 0
    pub kernel_pages :
        (a : ℕ) → a < nps → (a < vm_userlo_pi) ⊎ (vm_userhi_pi ≤ a) → (m'.at_table a).perm ≡ 1
    pub normal_pages : (a : ℕ) → a < nps → norm_flag (m'.at_table a) ≡ 1 → IsUserPage a

  abbrev started : Memory → Memory
  started m = record (record m { mem_lk = record { lock_holder = 9; lock = 0 } }) {
    num_pages = nps;
  }

  init-eq :
      (m : Memory)
      → pmem_init size get_mms get_mml is_usable m
        ≡ set_pages size get_mms get_mml is_usable nps 0 (started m)
  unfolding pmem_init
  init-eq m = refl

  -- With a memory map whose highest page is within the table, `pmem_init` behind `devinit` returns: the
  -- number of pages is the one that the map gives, the lock is free, no page is allocated, the pages of
  -- the kernel have permission 1, and each page that is normal is a user page of which the first
  -- range that contains it is usable.
  pub pmem_init_lem :
      (m : Memory)
      → nps ≤ max_pages
      → Returns (λ _ m'. Initialised m') (pmem_init size get_mms get_mml is_usable m)
  pmem_init_lem m h = rw (init-eq m) (
      Returns-mono (λ _ m'. PagesSet (started m) m' perms nps 0) (λ _ m'. Initialised m')
        (set_pages size get_mms get_mml is_usable nps 0 (started m))
        (set_pages-PagesSet nps 0 (started m) (omega arith))
        (λ _ m' q. record {
          pages = q.same_pages;
          unlocked = ap (λ l. l.lock) q.same_lock;
          not_allocated =
              λ a l. ap (λ (x : AtStruct). x.allocated) (q.inside a (omega arith) (omega arith));
          kernel_pages = λ a l k.
              ap (λ (x : AtStruct). x.perm) (q.inside a (omega arith) (omega arith))
              ∙ kernel_perm a k;
          normal_pages = λ a l f.
              normal-IsUserPage a (sym (ap norm_flag (q.inside a (omega arith) (omega arith))) ∙ f);
        }))
