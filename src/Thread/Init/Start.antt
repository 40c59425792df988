-- ===== src/Thread/Init/Start.antt =====
-- kern/thread: the tables that `thread_init` leaves.
use advanced_synchronization.Base.{
  ℕ, ◌<◌, ◌≤◌, ◌≡◌, ◌≢◌, refl, subst, ap, ◌∙◌, inl, inr, ltb, ◌==◌, Bool-cases, eq→==, ne→==,
  lt→ltb, if◌then◌else◌, update, num_ids, num_cpus, [], ◌>>◌, Returns, Returns-bind, arith,
}
use advanced_synchronization.Spinlock
use advanced_synchronization.Spinlock.{IsFree}
use advanced_synchronization.Thread.Tcb.{Sched, Tcb, ready, run, dead, tcb_set_state, set_curid}
use advanced_synchronization.Thread.Scheduler.Invariant.{IsScheduled, current}
use advanced_synchronization.Thread.Init.{fresh_tcb, tqueue_init, thread_init}
use advanced_synchronization.Thread.Init.Fresh.{TablesFresh, tqueue_init-Fresh}

-- A thread that does not exist: dead, in no list and on no channel, with no open file, no working
-- directory, no signal pending or blocked, no handler and no saved context.
pub record IsUnborn (t : Tcb) : Type 0 where
  pub state : t.state ≡ dead
  pub prev_null : t.prev ≡ num_ids
  pub next_null : t.next ≡ num_ids
  pub no_channel : t.channel ≡ 0
  pub no_files : (g : ℕ) → t.openfiles g ≡ 0
  pub no_cwd : t.cwd ≡ 0
  pub no_signals : t.sigstate.pending_signals ≡ 0
  pub no_mask : t.sigstate.signal_block_mask ≡ 0
  pub no_handlers : (n : ℕ) → (t.sigstate.sigactions n).sa_handler ≡ 0
  pub no_saved_esp : t.sigstate.saved_esp_addr ≡ 0
  pub no_saved_eip : t.sigstate.saved_eip_addr ≡ 0
  pub no_handler_runs : t.sigstate.in_signal_handler ≡ 0

fresh-IsUnborn : IsUnborn fresh_tcb
fresh-IsUnborn = record {
  state = refl;
  prev_null = refl;
  next_null = refl;
  no_channel = refl;
  no_files = λ g. refl;
  no_cwd = refl;
  no_signals = refl;
  no_mask = refl;
  no_handlers = λ n. refl;
  no_saved_esp = refl;
  no_saved_eip = refl;
  no_handler_runs = refl;
}

-- The tables at start-up, when the round `a` of the loop of `tcb_init` reaches the thread `second a`.
pub record Started (second : ℕ → ℕ) (s s' : Sched) : Type 0 where
  pub runs_first : current s' ≡ 0
  pub first_state : (s'.tcb_pool 0).state ≡ run
  pub unborn : (a : ℕ) → a < num_ids → second a ≢ 0 → IsUnborn (s'.tcb_pool (second a))
  pub unreached :
      (b : ℕ) → b ≢ 0 → ((a : ℕ) → a < num_ids → second a ≢ b) → s'.tcb_pool b ≡ s.tcb_pool b
  pub no_head : (i c : ℕ) → i < num_cpus → c ≤ num_ids → (s'.tqueue_pool i c).head ≡ num_ids
  pub no_tail : (i c : ℕ) → i < num_cpus → c ≤ num_ids → (s'.tqueue_pool i c).tail ≡ num_ids
  pub no_ticks : (i : ℕ) → i < num_cpus → s'.sched_ticks i ≡ 0
  pub lock_free : IsFree s'.sched_lk

-- The last two statements of `thread_init`.
abbrev started : Sched → Sched
started s = record s {
  curid = update s.curid s.pcpu_idx 0;
  tcb_pool = update s.tcb_pool 0 (record (s.tcb_pool 0) { state = run });
}

current-started : (s' : Sched) → current (started s') ≡ 0
current-started s' = rw (eq→== s'.pcpu_idx s'.pcpu_idx refl) refl

started-Started :
    (second : ℕ → ℕ) (s s' : Sched)
    → IsFree s.sched_lk
    → ((i : ℕ) → i < num_cpus → s.sched_ticks i ≡ 0)
    → TablesFresh second s s'
    → Started second s (started s')
started-Started second s s' free zeros t = record {
  runs_first = current-started s';
  first_state = refl;
  unborn = λ a l ne. rw (ne→== (second a) 0 ne, t.threads a l) fresh-IsUnborn;
  unreached = λ b ne h. rw (ne→== b 0 ne) (t.unnamed b h);
  no_head = λ i c l h. ap (λ q. q.head) (t.queues i c l h);
  no_tail = λ i c l h. ap (λ q. q.tail) (t.queues i c l h);
  no_ticks = λ i l. ap (λ f. f i) t.ticks ∙ zeros i l;
  lock_free = ap (λ q. q.lock) t.lock ∙ free;
}

started-IsScheduled :
    (second : ℕ → ℕ) (s s' : Sched)
    → ((a : ℕ) → second a ≡ a)
    → s.pcpu_idx < num_cpus
    → IsFree s.sched_lk
    → TablesFresh second s s'
    → IsScheduled (started s') []
started-IsScheduled second s s' named small free t = record {
  ready_queue = record {
    queue = record {
      head_first = ap (λ q. q.head) (t.queues s'.pcpu_idx num_ids mine (omega arith));
      tail_last = ap (λ q. q.tail) (t.queues s'.pcpu_idx num_ids mine (omega arith));
      linked = tt;
      distinct = tt;
    };
    queued = λ a m. absurd m;
    ready_in = λ a l e. absurd (not_ready a l e);
    detached = λ a l m. record { prev_null = (links a l).0; next_null = (links a l).1 };
  };
  current_lt = omega (arith, at_zero);
  current_run = rw at_zero refl;
  lock_free = ap (λ q. q.lock) t.lock ∙ free;
}
  where
    mine : s'.pcpu_idx < num_cpus
    mine = omega (arith, t.cpu, small)

    threads : (a : ℕ) → a < num_ids → s'.tcb_pool a ≡ fresh_tcb
    threads a l = subst (λ b. s'.tcb_pool b ≡ fresh_tcb) (named a) (t.threads a l)

    links :
        (a : ℕ)
        → a < num_ids
        → (((started s').tcb_pool a).prev ≡ num_ids) × (((started s').tcb_pool a).next ≡ num_ids)
    links a l = elim (Bool-cases (a == 0)) [
      | inl e ↦
          rw e
            (ap (λ r. r.prev) (threads 0 (omega arith)), ap (λ r. r.next) (threads 0 (omega arith)))
      | inr e ↦ rw e (ap (λ r. r.prev) (threads a l), ap (λ r. r.next) (threads a l))
    ]

    not_ready : (a : ℕ) → a < num_ids → ((started s').tcb_pool a).state ≢ ready
    not_ready a l = elim (Bool-cases (a == 0)) [
      | inl e ↦ rw e λ h. cc h
      | inr e ↦ rw e λ h. cc (h, ap (λ r. r.state) (threads a l))
    ]

    at_zero : current (started s') ≡ 0
    at_zero = current-started s'

-- The tables before `tqueue_init`.
abbrev cleared : Sched → Sched
unfolding Spinlock.spinlock_init
cleared s = record s {
  sched_ticks = λ i. if ltb i num_cpus then 0 else s.sched_ticks i;
  sched_lk = Spinlock.spinlock_init;
}

-- `tcb_init` passes one argument to `tcb_init_at_id`, which has two; `second a` is what that function
-- finds for the other in the round `a`, any number below NUM_IDS. `thread_init` returns: the thread 0
-- runs; every other thread that is some `second a` is dead, in no list, with no files, no working
-- directory and no signals, and those that are none keep what they had; the queues of all processors are
-- empty, no processor has used any of its time slice, and the lock of the scheduler is free.
pub thread_init-Started :
    (second : ℕ → ℕ) (s : Sched)
    → ((a : ℕ) → a < num_ids → second a < num_ids)
    → Returns (λ _ s'. Started second s s') (thread_init second s)
unfolding thread_init set_curid tcb_set_state Spinlock.spinlock_init
thread_init-Started second s e =
    Returns-bind (λ _ s'. TablesFresh second (cleared s) s') (λ _ s'. Started second s s')
      (tqueue_init second) (λ _. set_curid 0 >> tcb_set_state 0 run) (cleared s)
      (tqueue_init-Fresh second (cleared s) e)
      (λ _ s' t.
        same_threads s'
          (started-Started second (cleared s) s' refl (λ i l. rw (lt→ltb i num_cpus l) refl) t))
  where
    same_threads :
        (s' : Sched) → Started second (cleared s) (started s') → Started second s (started s')
    same_threads s' q = record {
      runs_first = q.runs_first;
      first_state = q.first_state;
      unborn = q.unborn;
      unreached = q.unreached;
      no_head = q.no_head;
      no_tail = q.no_tail;
      no_ticks = q.no_ticks;
      lock_free = q.lock_free;
    }

-- On a processor with a number below NUM_CPUS, and when the missing argument happens to be the number of
-- the thread, `thread_init` returns with scheduled tables whose ready queue is empty.
thread_init-IsScheduled :
    (second : ℕ → ℕ) (s : Sched)
    → ((a : ℕ) → second a ≡ a)
    → s.pcpu_idx < num_cpus
    → Returns (λ _ s'. IsScheduled s' []) (thread_init second s)
unfolding thread_init set_curid tcb_set_state Spinlock.spinlock_init
thread_init-IsScheduled second s e small =
    Returns-bind (λ _ s'. TablesFresh second (cleared s) s') (λ _ s'. IsScheduled s' [])
      (tqueue_init second) (λ _. set_curid 0 >> tcb_set_state 0 run) (cleared s)
      (tqueue_init-Fresh second (cleared s) (λ a l. omega (arith, l, e a)))
      (λ _ s' t. started-IsScheduled second (cleared s) s' e small refl t)
