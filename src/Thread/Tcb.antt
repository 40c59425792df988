-- ===== src/Thread/Tcb.antt =====
-- kern/thread/PTCBIntro, PTQueueIntro, PCurID: the tables of threads and of thread queues, with
-- their getters and setters. An index outside a table stops.
use advanced_synchronization.Base.{ℕ, some, ltb, leb, update, num_ids, M, pure, check, ◌>>=◌}
use advanced_synchronization.Spinlock.{Spinlock}

pub data ThreadState : Type 0 where
  ready run sleep dead : ThreadState

pub record Sigaction : Type 0 where
  pub sa_handler : ℕ
  pub sa_sigaction : ℕ
  pub sa_flags : ℕ
  pub sa_restorer : ℕ
  pub sa_mask : ℕ

pub record SigState : Type 0 where
  pub sigactions : ℕ → Sigaction
  pub pending_signals : ℕ
  pub signal_block_mask : ℕ
  pub saved_esp_addr : ℕ
  pub saved_eip_addr : ℕ
  pub in_signal_handler : ℕ

-- `struct TCB`. Pointers are addresses, with 0 for NULL.
pub record Tcb : Type 0 where
  pub state : ThreadState
  pub prev : ℕ
  pub next : ℕ
  pub channel : ℕ
  pub openfiles : ℕ → ℕ
  pub cwd : ℕ
  pub sigstate : SigState

pub record TQueue : Type 0 where
  pub head : ℕ
  pub tail : ℕ

-- The tables of kern/thread, and the processor that runs.
pub record Sched : Type 0 where
  pub tcb_pool : ℕ → Tcb
  pub tqueue_pool : ℕ → ℕ → TQueue
  pub curid : ℕ → ℕ
  pub sched_ticks : ℕ → ℕ
  pub sched_lk : Spinlock
  pub pcpu_idx : ℕ

abbrev pub thread_at : ℕ → M Sched Tcb
thread_at pid s = (check (ltb pid num_ids) >>= λ _. pure (s.tcb_pool pid)) s

abbrev pub write_thread : ℕ → (Tcb → Tcb) → M Sched (Unit {0})
write_thread pid f s =
    (check (ltb pid num_ids) >>= λ _ s'.
    some (tt, record s' { tcb_pool = update s'.tcb_pool pid (f (s'.tcb_pool pid)) }))
      s

unfoldable pub tcb_get_state : ℕ → M Sched ThreadState
tcb_get_state pid = do t ← thread_at pid; pure t.state

unfoldable pub tcb_set_state : ℕ → ThreadState → M Sched (Unit {0})
tcb_set_state pid state = write_thread pid λ t. record t { state = state }

unfoldable pub tcb_get_prev : ℕ → M Sched ℕ
tcb_get_prev pid = do t ← thread_at pid; pure t.prev

unfoldable pub tcb_set_prev : ℕ → ℕ → M Sched (Unit {0})
tcb_set_prev pid prev_pid = write_thread pid λ t. record t { prev = prev_pid }

unfoldable pub tcb_get_next : ℕ → M Sched ℕ
tcb_get_next pid = do t ← thread_at pid; pure t.next

unfoldable pub tcb_set_next : ℕ → ℕ → M Sched (Unit {0})
tcb_set_next pid next_pid = write_thread pid λ t. record t { next = next_pid }

unfoldable pub tcb_get_chan : ℕ → M Sched ℕ
tcb_get_chan pid = do t ← thread_at pid; pure t.channel

unfoldable pub tcb_set_chan : ℕ → ℕ → M Sched (Unit {0})
tcb_set_chan pid chan = write_thread pid λ t. record t { channel = chan }

abbrev pub queue_at : ℕ → M Sched TQueue
queue_at chid s = (check (leb chid num_ids) >>= λ _. pure (s.tqueue_pool s.pcpu_idx chid)) s

abbrev pub write_queue : ℕ → (TQueue → TQueue) → M Sched (Unit {0})
write_queue chid f s =
    (check (leb chid num_ids) >>= λ _ s'. some (
      tt,
      record s' {
        tqueue_pool =
            update s'.tqueue_pool s'.pcpu_idx
              (update (s'.tqueue_pool s'.pcpu_idx) chid (f (s'.tqueue_pool s'.pcpu_idx chid)));
      },
    ))
      s

unfoldable pub tqueue_get_head : ℕ → M Sched ℕ
tqueue_get_head chid = do q ← queue_at chid; pure q.head

unfoldable pub tqueue_set_head : ℕ → ℕ → M Sched (Unit {0})
tqueue_set_head chid head = write_queue chid λ q. record q { head = head }

unfoldable pub tqueue_get_tail : ℕ → M Sched ℕ
tqueue_get_tail chid = do q ← queue_at chid; pure q.tail

unfoldable pub tqueue_set_tail : ℕ → ℕ → M Sched (Unit {0})
tqueue_set_tail chid tail = write_queue chid λ q. record q { tail = tail }

unfoldable pub get_curid : M Sched ℕ
get_curid s = some (s.curid s.pcpu_idx, s)

unfoldable pub set_curid : ℕ → M Sched (Unit {0})
set_curid curid s = some (tt, record s { curid = update s.curid s.pcpu_idx curid })
