-- ===== src/Trap/Interrupt/Timer.antt =====
-- kern/trap/TTrapHandler: the timer interrupt, the time slice and the ticks of the wait objects.
use advanced_synchronization.Base.{
  ℕ, ◌+◌, ◌≡◌, ◌≢◌, refl, sym, ◌∙◌, inl, some, List, ◌∷◌, [], ◌++◌, Bool, true, false, ltb, ◌==◌,
  eq→==, ne→==, if◌then◌else◌, update, u32, M, pure, ◌>>=◌, ◌>>◌, Returns, Returns-bind,
  Returns-step, arith,
}
use advanced_synchronization.Spinlock
use advanced_synchronization.Thread.Tcb.{Sched, get_curid}
use advanced_synchronization.Thread.Scheduler.{
  sched_slice, acquire_sched, release_sched, thread_yield, sched_update,
}
use advanced_synchronization.Thread.Scheduler.Invariant.{IsScheduled, current}
use advanced_synchronization.Thread.Scheduler.Turns.{RunsFirst, yield_round_robin}
use advanced_synchronization.Waitobj.State.{Kernel, on_sched, with_sched-Returns}
use advanced_synchronization.Waitobj.Notify.{waitobj_on_timer_irq}
use advanced_synchronization.Waitobj.Firing.{AfterTick, timer_irq_fires}
use advanced_synchronization.Trap.Interrupt.{timer_intr_handler}

-- The tables with other ticks, and the lock free.
abbrev pub with_ticks : Sched → ℕ → Sched
with_ticks s t = record s {
  sched_ticks =
      update (update s.sched_ticks s.pcpu_idx (u32 (s.sched_ticks s.pcpu_idx + 1))) s.pcpu_idx t;
  sched_lk = Spinlock.spinlock_release s.sched_lk;
}

-- The ticks after this interrupt.
abbrev pub next_ticks : Sched → ℕ
next_ticks s = u32 (s.sched_ticks s.pcpu_idx + 1)

with_ticks-IsScheduled :
    (s : Sched) (t : ℕ) (xs : List ℕ) → IsScheduled s xs → IsScheduled (with_ticks s t) xs
unfolding Spinlock.spinlock_release
with_ticks-IsScheduled s t xs i = record {
  ready_queue = record {
    queue = i.ready_queue.queue;
    queued = i.ready_queue.queued;
    ready_in = i.ready_queue.ready_in;
    detached = λ a h n. record {
      prev_null = (i.ready_queue.detached a h n).prev_null;
      next_null = (i.ready_queue.detached a h n).next_null;
    };
  };
  current_lt = i.current_lt;
  current_run = i.current_run;
  lock_free = refl;
}

update_over :
    (s : Sched) (xs : List ℕ)
    → IsScheduled s xs
    → ltb sched_slice (next_ticks s) ≡ true
    → sched_update s ≡ thread_yield (with_ticks s 0)
unfolding sched_update acquire_sched release_sched Spinlock.spinlock_acquire
    Spinlock.spinlock_release
update_over s xs i e = ground (arith, i.lock_free, e)

-- The tables after an interrupt within the time slice.
abbrev pub ticked : Sched → Sched
ticked s = record s {
  sched_ticks = update s.sched_ticks s.pcpu_idx (next_ticks s);
  sched_lk = Spinlock.spinlock_release s.sched_lk;
}

ticked-IsScheduled : (s : Sched) (xs : List ℕ) → IsScheduled s xs → IsScheduled (ticked s) xs
unfolding Spinlock.spinlock_release
ticked-IsScheduled s xs i = record {
  ready_queue = record {
    queue = i.ready_queue.queue;
    queued = i.ready_queue.queued;
    ready_in = i.ready_queue.ready_in;
    detached = λ a h n. record {
      prev_null = (i.ready_queue.detached a h n).prev_null;
      next_null = (i.ready_queue.detached a h n).next_null;
    };
  };
  current_lt = i.current_lt;
  current_run = i.current_run;
  lock_free = refl;
}

update_within :
    (s : Sched) (xs : List ℕ)
    → IsScheduled s xs
    → ltb sched_slice (next_ticks s) ≡ false
    → sched_update s ≡ some (tt, ticked s)
unfolding sched_update acquire_sched release_sched Spinlock.spinlock_acquire
    Spinlock.spinlock_release
update_within s xs i e = ground (arith, i.lock_free, e)

-- The current thread does not wait.
current_apart : (s : Sched) (y : ℕ) (ys : List ℕ) → IsScheduled s (y ∷ ys) → y ≢ current s
current_apart s y ys i e = cc (i.ready_queue.queued y (inl refl), i.current_run, e)

-- The ticks of the wait objects were not counted, and no source changed.
pub record Deferred (k k' : Kernel) (y : ℕ) (ys : List ℕ) : Type 0 where
  pub switched : RunsFirst k'.sched (y ∷ ys ++ current k.sched ∷ [])
  pub same_ticks : k'.waitobj_ticks ≡ k.waitobj_ticks
  pub same_sources : k'.esrc ≡ k.esrc
  pub same_objects : k'.wobjs ≡ k.wobjs

got_current : (k : Kernel) → on_sched get_curid k ≡ some (current k.sched, k)
unfolding get_curid
got_current k = refl

abbrev tick_rest : ℕ → ℕ → M Kernel Bool
tick_rest interrupted running =
    if running == interrupted then (do waitobj_on_timer_irq; pure true) else pure false

-- On scheduled tables with a thread `y` first in the ready queue and `ys` behind it. When the time
-- slice is over, the timer interrupt switches to `y` before it gets to the wait objects: their ticks and
-- sources are as before, and the interrupted thread is the last of the ready queue. Within the slice it
-- comes to its end, with the tick of the wait objects done.
pub timer_intr_branches :
    (k : Kernel) (y : ℕ) (ys : List ℕ)
    → IsScheduled k.sched (y ∷ ys)
    → (ltb sched_slice (next_ticks k.sched) ≡ true
        → Returns (λ b k'. (b ≡ false) × Deferred k k' y ys) (timer_intr_handler k))
      × (ltb sched_slice (next_ticks k.sched) ≡ false
          → Returns
              (λ b k'. (b ≡ true) × AfterTick (record k { sched = ticked k.sched }) k')
              (timer_intr_handler k))
unfolding timer_intr_handler
timer_intr_branches k y ys i = (
  λ over.
      Returns-step (λ b k'. (b ≡ false) × Deferred k k' y ys) (on_sched get_curid)
        (λ c. on_sched sched_update >> (on_sched get_curid >>= tick_rest c)) k k (current k.sched)
        (got_current k)
        (Returns-bind (λ _ k'. Deferred k k' y ys) (λ b k'. (b ≡ false) × Deferred k k' y ys)
          (on_sched sched_update) (λ _. on_sched get_curid >>= tick_rest (current k.sched)) k
          (rw (update_over k.sched (y ∷ ys) i over) (
            with_sched-Returns k (λ _ s. RunsFirst s (y ∷ ys ++ current k.sched ∷ []))
              (λ _ k'. Deferred k k' y ys) (thread_yield (with_ticks k.sched 0))
              (yield_round_robin (with_ticks k.sched 0) (y ∷ ys)
                (with_ticks-IsScheduled k.sched 0 (y ∷ ys) i))
              (λ _ s r. record {
                switched = r;
                same_ticks = refl;
                same_sources = refl;
                same_objects = refl;
              })))
          (λ _ k1 d.
            Returns-step (λ b k'. (b ≡ false) × Deferred k k' y ys) (on_sched get_curid)
              (tick_rest (current k.sched)) k1 k1 (current k1.sched) (got_current k1)
              (rw
                (ne→== (current k1.sched) (current k.sched)
                  (λ e. current_apart k.sched y ys i (sym d.switched.1 ∙ e)))
                (refl, d)))),
  λ within.
      Returns-step (λ b k'. (b ≡ true) × AfterTick (record k { sched = ticked k.sched }) k')
        (on_sched get_curid) (λ c. on_sched sched_update >> (on_sched get_curid >>= tick_rest c)) k
        k (current k.sched) (got_current k)
        (Returns-step (λ b k'. (b ≡ true) × AfterTick (record k { sched = ticked k.sched }) k')
          (on_sched sched_update) (λ _. on_sched get_curid >>= tick_rest (current k.sched)) k
          (record k { sched = ticked k.sched }) tt
          (rw (on_sched, update_within k.sched (y ∷ ys) i within) refl)
          (Returns-step (λ b k'. (b ≡ true) × AfterTick (record k { sched = ticked k.sched }) k')
            (on_sched get_curid) (tick_rest (current k.sched)) (record k { sched = ticked k.sched })
            (record k { sched = ticked k.sched }) (current k.sched)
            (got_current (record k { sched = ticked k.sched }))
            (rw (eq→== (current k.sched) (current k.sched) refl) (
              Returns-bind (λ _ k'. AfterTick (record k { sched = ticked k.sched }) k')
                (λ b k'. (b ≡ true) × AfterTick (record k { sched = ticked k.sched }) k')
                waitobj_on_timer_irq (λ _. pure true) (record k { sched = ticked k.sched })
                (timer_irq_fires (record k { sched = ticked k.sched }) (y ∷ ys)
                  (ticked-IsScheduled k.sched (y ∷ ys) i))
                (λ _ k' t. (refl, t)))))),
)
