-- ===== src/Pmm/Pages.antt =====
-- kern/pmm/MATIntro: the allocation table and its lock.
use advanced_synchronization.Base.{
  ℕ, none, some, ltb, ◌==◌, if◌then◌else◌, ◌^◌, update, M, pure, check, ◌>>=◌,
}
use advanced_synchronization.Spinlock
use advanced_synchronization.Spinlock.{Spinlock}

pub record AtStruct : Type 0 where
  pub perm : ℕ
  pub allocated : ℕ

pub record SContainer : Type 0 where
  pub quota : ℕ
  pub usage : ℕ
  pub parent : ℕ
  pub nchildren : ℕ
  pub used : ℕ

-- The static data of kern/pmm, and the processor that runs.
pub record Memory : Type 0 where
  pub num_pages : ℕ
  pub at_table : ℕ → AtStruct
  pub mem_lk : Spinlock
  pub last_palloc_index : ℕ
  pub containers : ℕ → SContainer
  pub pcpu_idx : ℕ

abbrev pub max_pages : ℕ
max_pages = 2 ^ 20

unfoldable pub mem_spinlock_init : M Memory (Unit {0})
unfolding Spinlock.spinlock_init
mem_spinlock_init m = some (tt, record m { mem_lk = Spinlock.spinlock_init })

unfoldable pub mem_lock : M Memory (Unit {0})
unfolding Spinlock.spinlock_acquire
mem_lock m = elim (Spinlock.spinlock_acquire m.pcpu_idx m.mem_lk) [
  | none ↦ none
  | some lk ↦ some (tt, record m { mem_lk = lk })
]

unfoldable pub mem_unlock : M Memory (Unit {0})
unfolding Spinlock.spinlock_release
mem_unlock m = some (tt, record m { mem_lk = Spinlock.spinlock_release m.mem_lk })

unfoldable pub get_nps : M Memory ℕ
get_nps m = some (m.num_pages, m)

unfoldable pub set_nps : ℕ → M Memory (Unit {0})
set_nps nps m = some (tt, record m { num_pages = nps })

abbrev pub norm_flag : AtStruct → ℕ
norm_flag a = if a.perm == 0 then 0 else if a.perm == 1 then 0 else 1

abbrev pub allocated_flag : AtStruct → ℕ
allocated_flag a = if a.allocated == 0 then 0 else 1

abbrev pub page_at : ℕ → M Memory AtStruct
page_at i m = (check (ltb i max_pages) >>= λ _. pure (m.at_table i)) m

abbrev pub write_page : ℕ → (AtStruct → AtStruct) → M Memory (Unit {0})
write_page i f m =
    (check (ltb i max_pages) >>= λ _ m'.
    some (tt, record m' { at_table = update m'.at_table i (f (m'.at_table i)) }))
      m

unfoldable pub at_is_norm : ℕ → M Memory ℕ
at_is_norm i = do a ← page_at i; pure (norm_flag a)

unfoldable pub at_set_perm : ℕ → ℕ → M Memory (Unit {0})
at_set_perm i norm_val = write_page i λ _. record { perm = norm_val; allocated = 0 }

unfoldable pub at_is_allocated : ℕ → M Memory ℕ
at_is_allocated i = do a ← page_at i; pure (allocated_flag a)

unfoldable pub at_set_allocated : ℕ → ℕ → M Memory (Unit {0})
at_set_allocated i allocated = write_page i λ a. record a { allocated = allocated }
