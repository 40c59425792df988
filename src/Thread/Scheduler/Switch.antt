-- ===== src/Thread/Scheduler/Switch.antt =====
-- Taking the next thread from the ready queue.
use native.Mathlib.Decide.{ℕ_discrete}
use advanced_synchronization.Base.{
  ℕ, ◌<◌, ◌≡◌, ◌≢◌, sym, ◌∙◌, ap, inl, inr, num_ids, Returns, Returns-bind, Returns-mono, ◌>>=◌,
  arith, List, ◌∷◌, In, NotIn, ne_of_In,
}
use advanced_synchronization.Links.{IsQueue-frame}
use advanced_synchronization.Thread.Tcb.{Sched, ready, run}
use advanced_synchronization.Thread.Queue.{tqueue_dequeue}
use advanced_synchronization.Thread.Queue.Laws.{HoldsQueue, prev_of, next_of, queue_of}
use advanced_synchronization.Thread.Queue.Refine.{Became, IsDetached, dequeue_refines}
use advanced_synchronization.Thread.Scheduler.{run_next}
use advanced_synchronization.Thread.Scheduler.Invariant.{
  state_of, channel_of, current, ReadyQueue, IsScheduled,
}

-- Nothing but the state of `x`, the current thread and the lock differs.
pub record RanNext (s s' : Sched) (x : ℕ) : Type 0 where
  pub is_current : current s' ≡ x
  pub is_run : state_of s' x ≡ run
  pub lock_free : s'.sched_lk.lock ≡ 0
  pub same_state : (a : ℕ) → a ≢ x → state_of s' a ≡ state_of s a
  pub same_channel : (a : ℕ) → channel_of s' a ≡ channel_of s a
  pub same_links : (a : ℕ) → (prev_of s' a ≡ prev_of s a) × (next_of s' a ≡ next_of s a)
  pub same_queue : (q : ℕ) → queue_of s' q ≡ queue_of s q

run_next_effect :
    (s : Sched) (x : ℕ) → x < num_ids → Returns (λ _ s'. RanNext s s' x) (run_next x s)
unfolding run_next
run_next_effect s x h = ground arith

pub record Switched (s s' : Sched) (y : ℕ) (ys : List ℕ) : Type 0 where
  pub scheduled : IsScheduled s' ys
  pub is_current : current s' ≡ y
  pub same_state : (a : ℕ) → a ≢ y → state_of s' a ≡ state_of s a
  pub same_channel : (a : ℕ) → channel_of s' a ≡ channel_of s a

module _ (s : Sched) (y : ℕ) (ys : List ℕ) (r : ReadyQueue s (y ∷ ys)) where
  module _ (s1 s2 : Sched) (b : Became s s1 num_ids (y ∷ ys) ys) (d : IsDetached s1 y)
      (n : RanNext s1 s2 y) where
    keeps_state : (a : ℕ) → a ≢ y → state_of s2 a ≡ state_of s a
    keeps_state a ne = n.same_state a ne ∙ (b.rest.threads a).same_state

    switched_queue : HoldsQueue s2 num_ids ys
    switched_queue = rw (n.same_queue num_ids) (
        IsQueue-frame (prev_of s1) (next_of s1) (prev_of s2) (next_of s2) _ _ ys b.holds
          (λ a _. n.same_links a))

    switched-IsDetached : (a : ℕ) → a < num_ids → NotIn a ys → IsDetached s2 a
    switched-IsDetached a h out = elim (ℕ_discrete a y) [
      | yes e ↦ record {
        prev_null = (n.same_links a).0 ∙ ap (prev_of s1) e ∙ d.prev_null;
        next_null = (n.same_links a).1 ∙ ap (next_of s1) e ∙ d.next_null;
      }
      | no e ↦
          let before : IsDetached s a = r.detached a h (e, out) in
          record {
            prev_null = (n.same_links a).0 ∙ (b.elsewhere a h (e, out)).0 ∙ before.prev_null;
            next_null = (n.same_links a).1 ∙ (b.elsewhere a h (e, out)).1 ∙ before.next_null;
          }
    ]

    switched_ready-In : (a : ℕ) → a < num_ids → state_of s2 a ≡ ready → In a ys
    switched_ready-In a h e = elim (ℕ_discrete a y) [
      | yes f ↦ absurd (run≢ready (sym n.is_run ∙ ap (state_of s2) (sym f) ∙ e))
      | no f ↦ elim (r.ready_in a h (sym (keeps_state a f) ∙ e)) [
        | inl g ↦ absurd (f g)
        | inr m ↦ m
      ]
    ]
      where
        run≢ready : run ≡ ready → ⊥
        run≢ready p = cc

    switched : Switched s s2 y ys
    switched = record {
      scheduled = record {
        ready_queue = record {
          queue = switched_queue;
          queued = λ a m.
              keeps_state a (λ e. ne_of_In a y ys m r.queue.distinct.0 e) ∙ r.queued a (inr m);
          ready_in = switched_ready-In;
          detached = switched-IsDetached;
        };
        current_lt = rw n.is_current r.queue.linked.0;
        current_run = rw n.is_current n.is_run;
        lock_free = n.lock_free;
      };
      is_current = n.is_current;
      same_state = keeps_state;
      same_channel = λ a. n.same_channel a ∙ (b.rest.threads a).same_channel;
    }

  -- With `y` at the head of the ready queue, `y` becomes the running thread.
  pub switch_lem : Returns (λ _ s'. Switched s s' y ys) ((tqueue_dequeue num_ids >>= run_next) s)
  switch_lem =
      Returns-bind (λ pid s1. (pid ≡ y) × Became s s1 num_ids (y ∷ ys) ys × IsDetached s1 y)
        (λ _ s'. Switched s s' y ys) (tqueue_dequeue num_ids) run_next s
        (dequeue_refines s num_ids (omega arith) y ys r.queue)
        (λ pid s1 q. rw q.0 (
          Returns-mono (λ _ s2. RanNext s1 s2 y) (λ _ s'. Switched s s' y ys) _
            (run_next_effect s1 y r.queue.linked.0) (λ _ s2 n. switched s1 s2 q.1 q.2 n)))
