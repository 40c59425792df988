-- ===== src/Thread/Scheduler/Sleep.antt =====
-- kern/thread/PThread: going to sleep, and a thread's exit.
use native.Mathlib.Decide.{ℕ_discrete}
use advanced_synchronization.Base.{
  ℕ, ◌≡◌, ◌≢◌, refl, sym, ◌∙◌, num_ids, Returns, Returns-bind, ◌>>=◌, ◌>>◌, pure, arith, List, ◌∷◌,
  NotIn, ne_of_In,
}
use advanced_synchronization.Spinlock
use advanced_synchronization.Spinlock.{Spinlock, IsFree}
use advanced_synchronization.Thread.Tcb.{Sched, ready, sleep}
use advanced_synchronization.Thread.Queue.{tqueue_dequeue}
use advanced_synchronization.Thread.Scheduler.{run_next, thread_sleep}
use advanced_synchronization.Thread.Scheduler.Invariant.{
  state_of, channel_of, current, ReadyQueue, IsScheduled,
}
use advanced_synchronization.Thread.Scheduler.Switch.{Switched, switch_lem}
use advanced_synchronization.Thread.Scheduler.Turns.{
  mark, as_sleeping, mark_other, mark_queue, mark-IsDetached, current_out,
}

-- `y` runs, `ys` wait, and the thread `c` sleeps on `chan` with its own lock released.
pub record Slept (s : Sched) (c chan : ℕ) (lk : Spinlock) (y : ℕ) (ys : List ℕ) : Type 0 where
  pub scheduled : IsScheduled s ys
  pub is_current : current s ≡ y
  pub sleeper_state : state_of s c ≡ sleep
  pub sleeper_channel : channel_of s c ≡ chan
  pub released : IsFree lk

module _ (s : Sched) (xs : List ℕ) (i : IsScheduled s xs) (chan : ℕ) (lk : Spinlock) where
  abbrev c : ℕ
  c = current s

  abbrev asleep : Sched
  asleep = mark s c (as_sleeping chan)

  out : NotIn c xs
  out = current_out s c xs i.ready_queue.queued i.current_run

  sleep-eq :
      thread_sleep chan lk s
      ≡ ((tqueue_dequeue num_ids >>= run_next) >> pure (Spinlock.spinlock_release lk)) asleep
  unfolding thread_sleep
  sleep-eq = ground (arith, i.lock_free, i.current_lt)

  self : (a : ℕ) → a ≡ c → (state_of asleep a ≡ sleep) × (channel_of asleep a ≡ chan)
  self a f = ground arith

  asleep_ready : ReadyQueue asleep xs
  asleep_ready = record {
    queue = mark_queue s c (as_sleeping chan) xs (λ t. (refl, refl)) i.ready_queue.queue;
    queued = λ a m.
        (mark_other s c (as_sleeping chan) a (ne_of_In a c xs m out)).0 ∙ i.ready_queue.queued a m;
    ready_in = λ a h e. elim (ℕ_discrete a c) [
      | yes f ↦ absurd (sleep≢ready (sym (self a f).0 ∙ e))
      | no f ↦ i.ready_queue.ready_in a h (sym (mark_other s c (as_sleeping chan) a f).0 ∙ e)
    ];
    detached = λ a h n.
        mark-IsDetached s c (as_sleeping chan) a (λ t. (refl, refl)) (i.ready_queue.detached a h n);
  }
    where
      sleep≢ready : sleep ≡ ready → ⊥
      sleep≢ready p = cc

-- On tables where the ready queue holds `y` followed by `ys` and the current thread runs,
-- `thread_sleep` releases the caller's lock and gets to the switch: the caller sleeps on `chan`,
-- `y` runs and `ys` are the ready queue.
pub sleep_switches :
    (s : Sched) (y : ℕ) (ys : List ℕ)
    → IsScheduled s (y ∷ ys)
    → (chan : ℕ) (lk : Spinlock)
    → Returns (λ lk' s'. Slept s' (current s) chan lk' y ys) (thread_sleep chan lk s)
sleep_switches s y ys i chan lk = rw (sleep-eq s (y ∷ ys) i chan lk) (
    Returns-bind (λ _ s'. Switched asleep' s' y ys) (λ lk' s'. Slept s' (current s) chan lk' y ys)
      (tqueue_dequeue num_ids >>= run_next) (λ _. pure (Spinlock.spinlock_release lk)) asleep'
      (switch_lem asleep' y ys (asleep_ready s (y ∷ ys) i chan lk))
      (λ _ s' w. record {
        scheduled = w.scheduled;
        is_current = w.is_current;
        sleeper_state =
            w.same_state (current s) c≢y ∙ (self s (y ∷ ys) i chan lk (current s) refl).0;
        sleeper_channel =
            w.same_channel (current s) ∙ (self s (y ∷ ys) i chan lk (current s) refl).1;
        released = released;
      }))
  where
    asleep' : Sched
    asleep' = asleep s (y ∷ ys) i chan lk

    c≢y : current s ≢ y
    c≢y = (out s (y ∷ ys) i chan lk).0

    released : IsFree (Spinlock.spinlock_release lk)
    released = unfold Spinlock.spinlock_release in refl
