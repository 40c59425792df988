-- ===== src/Thread/Init.antt =====
-- kern/thread/PTCBIntro, PTCBInit, PTQueueIntro, PTQueueInit and PThread: the tables at start-up. What
-- `paging_init` does, which is called first, is outside of these tables.
pub mod Fresh
pub mod Start
mod Tests
use advanced_synchronization.Base.{
  ℕ, zero, suc, ◌+◌, some, ltb, leb, ◌&&◌, if◌then◌else◌, update, num_ids, num_cpus, M, pure, check,
  ◌>>=◌, ◌>>◌,
}
use advanced_synchronization.Spinlock
use advanced_synchronization.Thread.Tcb.{
  Sched, Tcb, TQueue, run, dead, write_thread, tcb_set_state, set_curid,
}

abbrev pub fresh_tcb : Tcb
fresh_tcb = record {
  state = dead;
  prev = num_ids;
  next = num_ids;
  channel = 0;
  openfiles = λ _. 0;
  cwd = 0;
  sigstate = record {
    sigactions = λ _. record {
      sa_handler = 0;
      sa_sigaction = 0;
      sa_flags = 0;
      sa_restorer = 0;
      sa_mask = 0;
    };
    pending_signals = 0;
    signal_block_mask = 0;
    saved_esp_addr = 0;
    saved_eip_addr = 0;
    in_signal_handler = 0;
  };
}

unfoldable pub tcb_init_at_id : ℕ → ℕ → M Sched (Unit {0})
tcb_init_at_id cpu_idx pid = write_thread pid λ _. fresh_tcb

-- The loop of `tcb_init` from `pid` on. It passes one argument, `pid`, to a function of two: `second` is
-- what that function finds in place of the other.
unfoldable pub tcb_init_from : (ℕ → ℕ) → ℕ → ℕ → M Sched (Unit {0})
tcb_init_from second zero pid = pure tt
tcb_init_from second (suc n) pid =
    tcb_init_at_id pid (second pid) >> tcb_init_from second n (pid + 1)

unfoldable pub tcb_init : (ℕ → ℕ) → M Sched (Unit {0})
tcb_init second = tcb_init_from second num_ids 0

abbrev pub empty_queue : TQueue
empty_queue = record { head = num_ids; tail = num_ids }

unfoldable pub tqueue_init_at_id : ℕ → ℕ → M Sched (Unit {0})
tqueue_init_at_id cpu_idx chid s =
    (check (ltb cpu_idx num_cpus && leb chid num_ids) >>= λ _ s'. some (
      tt,
      record s' {
        tqueue_pool =
            update s'.tqueue_pool cpu_idx (update (s'.tqueue_pool cpu_idx) chid empty_queue);
      },
    ))
      s

-- The inner and the outer loop of `tqueue_init`.
unfoldable pub init_queues : ℕ → ℕ → ℕ → M Sched (Unit {0})
init_queues zero cpu_idx chid = pure tt
init_queues (suc n) cpu_idx chid =
    tqueue_init_at_id cpu_idx chid >> init_queues n cpu_idx (chid + 1)

unfoldable pub init_cpus : ℕ → ℕ → M Sched (Unit {0})
init_cpus zero cpu_idx = pure tt
init_cpus (suc n) cpu_idx = init_queues (num_ids + 1) cpu_idx 0 >> init_cpus n (cpu_idx + 1)

unfoldable pub tqueue_init : (ℕ → ℕ) → M Sched (Unit {0})
tqueue_init second = tcb_init second >> init_cpus num_cpus 0

-- The loop over `sched_ticks`.
abbrev pub clear_ticks : M Sched (Unit {0})
clear_ticks s =
    some (tt, record s { sched_ticks = λ i. if ltb i num_cpus then 0 else s.sched_ticks i })

unfoldable pub thread_init : (ℕ → ℕ) → M Sched (Unit {0})
unfolding Spinlock.spinlock_init set_curid tcb_set_state
thread_init second = do
  clear_ticks
  λ s. some (tt, record s { sched_lk = Spinlock.spinlock_init })
  tqueue_init second
  set_curid 0
  tcb_set_state 0 run
