-- ===== src/Thread/Queue/Laws.antt =====
-- What the queue operations write, field by field, and what they leave alone.
use native.Mathlib.Decide.{ℕ_discrete}
use advanced_synchronization.Base.{
  ℕ, ◌<◌, ◌≤◌, ◌≡◌, ◌≢◌, num_ids, Returns, Returns-both, Returns-all, Returns-mono, arith, List,
}
use advanced_synchronization.Links.{IsQueue}
use advanced_synchronization.Links.Enqueue.{Appended}
use advanced_synchronization.Links.Removal.{Joined}
use advanced_synchronization.Thread.Tcb.{Sched, TQueue}
use advanced_synchronization.Thread.Queue.{tqueue_enqueue, tqueue_remove}

abbrev pub prev_of : Sched → ℕ → ℕ
prev_of s a = (s.tcb_pool a).prev

abbrev pub next_of : Sched → ℕ → ℕ
next_of s a = (s.tcb_pool a).next

-- The queue `chid` of the running processor.
abbrev pub queue_of : Sched → ℕ → TQueue
queue_of s chid = s.tqueue_pool s.pcpu_idx chid

abbrev pub HoldsQueue : Sched → ℕ → List ℕ → Type 0
HoldsQueue s chid xs =
    IsQueue (prev_of s) (next_of s) (queue_of s chid).head (queue_of s chid).tail xs

pub record KeepsThread (s s' : Sched) (a : ℕ) : Type 0 where
  pub same_state : (s'.tcb_pool a).state ≡ (s.tcb_pool a).state
  pub same_channel : (s'.tcb_pool a).channel ≡ (s.tcb_pool a).channel

-- Nothing but links and the queue `chid` differs.
pub record KeepsRest (s s' : Sched) (chid : ℕ) : Type 0 where
  pub threads : (a : ℕ) → KeepsThread s s' a
  pub same_cpu : s'.pcpu_idx ≡ s.pcpu_idx
  pub same_curid : (c : ℕ) → s'.curid c ≡ s.curid c
  pub same_lock : s'.sched_lk ≡ s.sched_lk
  pub same_queue : (q : ℕ) → q ≢ chid → queue_of s' q ≡ queue_of s q

pub record Detached (s s' : Sched) (chid pid : ℕ) : Type 0 where
  pub prev_null : prev_of s' pid ≡ num_ids
  pub next_null : next_of s' pid ≡ num_ids
  pub rest : KeepsRest s s' chid

module _ (s : Sched) (chid pid : ℕ) (c : chid ≤ num_ids) (h : pid < num_ids) where
  pub record EnqueuedFirst (s' : Sched) : Type 0 where
    pub head : (queue_of s' chid).head ≡ pid
    pub tail : (queue_of s' chid).tail ≡ pid
    pub detached : Detached s s' chid pid
    pub same_prev : (a : ℕ) → a ≢ pid → prev_of s' a ≡ prev_of s a
    pub same_next : (a : ℕ) → a ≢ pid → next_of s' a ≡ next_of s a

  pub enqueue_first :
      (queue_of s chid).tail ≡ num_ids
      → Returns (λ _ s'. EnqueuedFirst s') (tqueue_enqueue chid pid s)
  unfolding tqueue_enqueue
  enqueue_first e = ground arith

  pub record EnqueuedLast (s' : Sched) : Type 0 where
    pub head : (queue_of s' chid).head ≡ (queue_of s chid).head
    pub tail : (queue_of s' chid).tail ≡ pid
    pub appended :
        Appended (prev_of s) (next_of s) (prev_of s') (next_of s') pid (queue_of s chid).tail
    pub rest : KeepsRest s s' chid

  pub enqueue_last :
      (queue_of s chid).tail < num_ids
      → pid ≢ (queue_of s chid).tail
      → Returns (λ _ s'. EnqueuedLast s') (tqueue_enqueue chid pid s)
  unfolding tqueue_enqueue
  enqueue_last e ne = ground arith

  pub record NewEnds (s' : Sched) : Type 0 where
    pub head_next : prev_of s pid ≡ num_ids → (queue_of s' chid).head ≡ next_of s pid
    pub head_same : prev_of s pid ≢ num_ids → (queue_of s' chid).head ≡ (queue_of s chid).head
    pub tail_prev : next_of s pid ≡ num_ids → (queue_of s' chid).tail ≡ prev_of s pid
    pub tail_same : next_of s pid ≢ num_ids → (queue_of s' chid).tail ≡ (queue_of s chid).tail

  abbrev pub JoinedBy : Sched → Type 0
  JoinedBy s' = Joined (prev_of s) (next_of s) (prev_of s') (next_of s') pid

  abbrev pub Removed : Sched → Type 0
  Removed s' = JoinedBy s' × (Detached s s' chid pid × NewEnds s')

  module _ (np : prev_of s pid ≢ pid) (nn : next_of s pid ≢ pid) where
    module _ (p : prev_of s pid < num_ids) (n : next_of s pid < num_ids)
        (pn : prev_of s pid ≢ next_of s pid) where
      remove_inner_links : Returns (λ _ s'. JoinedBy s') (tqueue_remove chid pid s)
      unfolding tqueue_remove
      remove_inner_links = ground arith

      remove_inner_thread :
          (a : ℕ) → Returns (λ _ s'. KeepsThread s s' a) (tqueue_remove chid pid s)
      unfolding tqueue_remove
      remove_inner_thread a = ground arith

      remove_inner_rest :
          Returns
            (λ _ s'. ((a : ℕ) → KeepsThread s s' a) → Detached s s' chid pid)
            (tqueue_remove chid pid s)
      unfolding tqueue_remove
      remove_inner_rest = ground arith

      remove_inner_ends : Returns (λ _ s'. NewEnds s') (tqueue_remove chid pid s)
      unfolding tqueue_remove
      remove_inner_ends = ground arith

      abbrev InnerParts : Unit {0} → Sched → Type 0
      InnerParts _ s' =
          JoinedBy s'
          × (((a : ℕ) → KeepsThread s s' a)
              × ((((a : ℕ) → KeepsThread s s' a) → Detached s s' chid pid) × NewEnds s'))

      remove_inner : Returns (λ _ s'. Removed s') (tqueue_remove chid pid s)
      remove_inner =
          Returns-mono InnerParts (λ _ s'. Removed s') _
            (Returns-both (λ _. JoinedBy) _ _ remove_inner_links
              (Returns-both _ _ _
                (Returns-all (λ a _ s'. KeepsThread s s' a) _ 0 remove_inner_thread)
                (Returns-both _ (λ _. NewEnds) _ remove_inner_rest remove_inner_ends)))
            (λ _ s' q. (q.0, (q.1.1.0 q.1.0, q.1.1.1)))

    remove_only :
        prev_of s pid ≡ num_ids
        → next_of s pid ≡ num_ids
        → Returns (λ _ s'. Removed s') (tqueue_remove chid pid s)
    unfolding tqueue_remove
    remove_only a b = ground arith

    remove_head :
        prev_of s pid ≡ num_ids
        → next_of s pid < num_ids
        → Returns (λ _ s'. Removed s') (tqueue_remove chid pid s)
    unfolding tqueue_remove
    remove_head a b = ground arith

    remove_tail :
        prev_of s pid < num_ids
        → next_of s pid ≡ num_ids
        → Returns (λ _ s'. Removed s') (tqueue_remove chid pid s)
    unfolding tqueue_remove
    remove_tail a b = ground arith

    -- Every branch of `tqueue_remove`.
    pub remove_effect :
        prev_of s pid ≤ num_ids
        → next_of s pid ≤ num_ids
        → (next_of s pid ≢ num_ids → prev_of s pid ≢ next_of s pid)
        → Returns (λ _ s'. Removed s') (tqueue_remove chid pid s)
    remove_effect p n pn = elim (ℕ_discrete (prev_of s pid) num_ids) [
      | yes a ↦ elim (ℕ_discrete (next_of s pid) num_ids) [
        | yes b ↦ remove_only a b
        | no b ↦ remove_head a (omega arith)
      ]
      | no a ↦ elim (ℕ_discrete (next_of s pid) num_ids) [
        | yes b ↦ remove_tail (omega arith) b
        | no b ↦ remove_inner (omega arith) (omega arith) (pn b)
      ]
    ]
