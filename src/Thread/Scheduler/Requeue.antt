-- ===== src/Thread/Scheduler/Requeue.antt =====
-- Putting a thread that became ready behind those that wait.
use native.Mathlib.Decide.{ℕ_discrete}
use advanced_synchronization.Base.{
  ℕ, ◌<◌, ◌≡◌, ◌≢◌, sym, ◌∙◌, ap, inl, inr, num_ids, Returns, Returns-mono, arith, List, [], ◌∷◌,
  ◌++◌, NotIn, In-append, In-append_left, In-append_right, NotIn-append_left, NotIn-append_right,
  ne_of_In,
}
use advanced_synchronization.Links.{IsQueue-frame}
use advanced_synchronization.Thread.Tcb.{Sched, ready}
use advanced_synchronization.Thread.Queue.{tqueue_enqueue}
use advanced_synchronization.Thread.Queue.Laws.{HoldsQueue, KeepsRest, prev_of, next_of, queue_of}
use advanced_synchronization.Thread.Queue.Refine.{Became, IsDetached, enqueue_refines}
use advanced_synchronization.Thread.Scheduler.Invariant.{state_of, ReadyQueue}

-- `s2` is `s` with the thread `c` turned ready.
pub record TurnedReady (s s2 : Sched) (c : ℕ) : Type 0 where
  pub links : (a : ℕ) → (prev_of s2 a ≡ prev_of s a) × (next_of s2 a ≡ next_of s a)
  pub ends : queue_of s2 num_ids ≡ queue_of s num_ids
  pub self_ready : state_of s2 c ≡ ready
  pub other_state : (a : ℕ) → a ≢ c → state_of s2 a ≡ state_of s a

pub record Requeued (s2 s1 : Sched) (zs : List ℕ) : Type 0 where
  pub ready_queue : ReadyQueue s1 zs
  pub rest : KeepsRest s2 s1 num_ids

module _ (s s2 : Sched) (c : ℕ) (xs : List ℕ) (r : ReadyQueue s xs) (out : NotIn c xs)
    (t : TurnedReady s s2 c) where
  turned_queue : HoldsQueue s2 num_ids xs
  turned_queue = rw t.ends (
      IsQueue-frame (prev_of s) (next_of s) (prev_of s2) (next_of s2) _ _ xs r.queue
        (λ a _. t.links a))

  module _ (s1 : Sched) (b : Became s2 s1 num_ids (c ∷ xs) (xs ++ c ∷ [])) where
    requeued_other : (a : ℕ) → a ≢ c → state_of s1 a ≡ state_of s a
    requeued_other a ne = (b.rest.threads a).same_state ∙ t.other_state a ne

    requeued_self : (a : ℕ) → a ≡ c → state_of s1 a ≡ ready
    requeued_self a e = (b.rest.threads a).same_state ∙ ap (state_of s2) e ∙ t.self_ready

    requeued-IsDetached : (a : ℕ) → a < num_ids → NotIn a (xs ++ c ∷ []) → IsDetached s1 a
    requeued-IsDetached a h n =
        let away : NotIn a (c ∷ xs) =
          ((NotIn-append_right a xs (c ∷ []) n).0, NotIn-append_left a xs (c ∷ []) n) in
        let d : IsDetached s a = r.detached a h away.1 in
        record {
          prev_null = (b.elsewhere a h away).0 ∙ (t.links a).0 ∙ d.prev_null;
          next_null = (b.elsewhere a h away).1 ∙ (t.links a).1 ∙ d.next_null;
        }

    requeued : ReadyQueue s1 (xs ++ c ∷ [])
    requeued = record {
      queue = b.holds;
      queued = λ a m. elim (In-append a xs (c ∷ []) m) [
        | inl k ↦ requeued_other a (ne_of_In a c xs k out) ∙ r.queued a k
        | inr k ↦ elim k [ inl e ↦ requeued_self a e | inr n ↦ absurd n ]
      ];
      ready_in = λ a h e. elim (ℕ_discrete a c) [
        | yes f ↦ In-append_right a xs (c ∷ []) (inl f)
        | no f ↦ In-append_left a xs (c ∷ []) (r.ready_in a h (sym (requeued_other a f) ∙ e))
      ];
      detached = requeued-IsDetached;
    }

  pub requeue_lem :
      c < num_ids → Returns (λ _ s1. Requeued s2 s1 (xs ++ c ∷ [])) (tqueue_enqueue num_ids c s2)
  requeue_lem h =
      Returns-mono (λ _ s1. Became s2 s1 num_ids (c ∷ xs) (xs ++ c ∷ []))
        (λ _ s1. Requeued s2 s1 (xs ++ c ∷ [])) _
        (enqueue_refines s2 num_ids (omega arith) c xs turned_queue out h)
        (λ _ s1 b. record { ready_queue = requeued s1 b; rest = b.rest })
