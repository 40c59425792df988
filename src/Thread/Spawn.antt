-- ===== src/Thread/Spawn.antt =====
-- kern/thread/PKCtxIntro, PKCtxNew, PTCBIntro, PTCBInit and PThread: the tables at start-up and new
-- threads. `alloc_mem_quota` and `paging_init` belong to kern/vmm, which is not in this repository, and
-- are parameters; `kstack_hi` is where the kernel stack of a process ends.
use advanced_synchronization.Base.{ℕ, some, none, ltb, update, num_ids, M, pure, check, ◌>>=◌, ◌>>◌}
use advanced_synchronization.Spinlock
use advanced_synchronization.Thread.Tcb.{Sched, ready, tcb_set_state}
use advanced_synchronization.Thread.Queue.{tqueue_enqueue}
use advanced_synchronization.Thread.Scheduler.{acquire_sched, release_sched}

pub record Kctx : Type 0 where
  pub esp : ℕ
  pub edi : ℕ
  pub esi : ℕ
  pub ebx : ℕ
  pub ebp : ℕ
  pub eip : ℕ

-- `kctx_pool`, and the tables of the scheduler.
pub record Threads : Type 0 where
  pub kctx_pool : ℕ → Kctx
  pub sched : Sched

abbrev pub on_threads_tables : {A : Type 0} → M Sched A → M Threads A
on_threads_tables m t = elim (m t.sched) [
  | none ↦ none
  | some (a, s) ↦ some (a, record t { sched = s })
]

abbrev write_kctx : ℕ → (Kctx → Kctx) → M Threads (Unit {0})
write_kctx pid f t =
    (check (ltb pid num_ids) >>= λ _ t'.
    some (tt, record t' { kctx_pool = update t'.kctx_pool pid (f (t'.kctx_pool pid)) }))
      t

unfoldable pub kctx_set_esp : ℕ → ℕ → M Threads (Unit {0})
kctx_set_esp pid esp = write_kctx pid λ c. record c { esp = esp }

unfoldable pub kctx_set_eip : ℕ → ℕ → M Threads (Unit {0})
kctx_set_eip pid eip = write_kctx pid λ c. record c { eip = eip }

module _ (alloc_mem_quota : ℕ → ℕ → M Threads ℕ) (kstack_hi : ℕ → ℕ) where
  unfoldable pub kctx_new : ℕ → ℕ → ℕ → M Threads ℕ
  kctx_new entry id quota = do
    pid ← alloc_mem_quota id quota
    kctx_set_esp pid (kstack_hi pid)
    kctx_set_eip pid entry
    pure pid

  unfoldable pub thread_spawn : ℕ → ℕ → ℕ → M Threads ℕ
  unfolding acquire_sched release_sched Spinlock.spinlock_acquire Spinlock.spinlock_release
      tcb_set_state tqueue_enqueue
  thread_spawn entry id quota = do
    on_threads_tables acquire_sched
    pid ← kctx_new entry id quota
    on_threads_tables (tcb_set_state pid ready)
    on_threads_tables (tqueue_enqueue num_ids pid)
    on_threads_tables release_sched
    pure pid
