-- ===== src/Thread/Scheduler/Turns.antt =====
-- Yield, sleep and exit: who runs next, and in which order the others wait.
use advanced_synchronization.Base.{
  ℕ, ◌≡◌, ◌≢◌, refl, sym, ◌∙◌, ap, inl, inr, num_ids, update, Returns, Returns-bind, Returns-mono,
  ◌>>=◌, ◌>>◌, arith, List, [], ◌∷◌, ◌++◌, In, NotIn,
}
use advanced_synchronization.Links.{IsQueue-frame}
use advanced_synchronization.Thread.Tcb.{Sched, Tcb, ready, run, sleep}
use advanced_synchronization.Thread.Queue.{tqueue_enqueue, tqueue_dequeue}
use advanced_synchronization.Thread.Queue.Laws.{HoldsQueue, prev_of, next_of}
use advanced_synchronization.Thread.Queue.Refine.{IsDetached}
use advanced_synchronization.Thread.Scheduler.{run_next, thread_yield}
use advanced_synchronization.Thread.Scheduler.Invariant.{
  state_of, channel_of, current, ReadyQueue, IsScheduled,
}
use advanced_synchronization.Thread.Scheduler.Requeue.{TurnedReady, Requeued, requeue_lem}
use advanced_synchronization.Thread.Scheduler.Switch.{Switched, switch_lem}

-- The scheduler's lock taken, and the thread `c` rewritten.
abbrev pub mark : Sched → ℕ → (Tcb → Tcb) → Sched
mark s c f = record s {
  tcb_pool = update s.tcb_pool c (f (s.tcb_pool c));
  sched_lk = record { lock_holder = s.pcpu_idx; lock = 1 };
}

abbrev pub as_ready : Tcb → Tcb
as_ready t = record t { state = ready }

abbrev pub as_sleeping : ℕ → Tcb → Tcb
as_sleeping chan t = record (record t { state = sleep }) { channel = chan }

-- A thread in the state TSTATE_RUN is not in the ready queue.
pub current_out :
    (s : Sched) (c : ℕ) (xs : List ℕ)
    → ((a : ℕ) → In a xs → state_of s a ≡ ready)
    → state_of s c ≡ run
    → NotIn c xs
current_out s c [] q e = tt
current_out s c (x ∷ xs) q e = (
  λ f. go (sym e ∙ ap (state_of s) f ∙ q x (inl refl)),
  current_out s c xs (λ a m. q a (inr m)) e,
)
  where
    go : run ≡ ready → ⊥
    go p = cc

-- The links that `mark` leaves.
mark_links :
    (s : Sched) (c : ℕ) (f : Tcb → Tcb)
    → ((t : Tcb) → ((f t).prev ≡ t.prev) × ((f t).next ≡ t.next))
    → (a : ℕ) → (prev_of (mark s c f) a ≡ prev_of s a) × (next_of (mark s c f) a ≡ next_of s a)
mark_links s c f keep a = ground (arith, keep (s.tcb_pool c))

pub mark_other :
    (s : Sched) (c : ℕ) (f : Tcb → Tcb) (a : ℕ)
    → a ≢ c
    → (state_of (mark s c f) a ≡ state_of s a) × (channel_of (mark s c f) a ≡ channel_of s a)
mark_other s c f a ne = ground arith

pub mark_queue :
    (s : Sched) (c : ℕ) (f : Tcb → Tcb) (xs : List ℕ)
    → ((t : Tcb) → ((f t).prev ≡ t.prev) × ((f t).next ≡ t.next))
    → HoldsQueue s num_ids xs
    → HoldsQueue (mark s c f) num_ids xs
mark_queue s c f xs keep q =
    IsQueue-frame (prev_of s) (next_of s) (prev_of (mark s c f)) (next_of (mark s c f)) _ _ xs q
      (λ a _. mark_links s c f keep a)

pub mark-IsDetached :
    (s : Sched) (c : ℕ) (f : Tcb → Tcb) (a : ℕ)
    → ((t : Tcb) → ((f t).prev ≡ t.prev) × ((f t).next ≡ t.next))
    → IsDetached s a
    → IsDetached (mark s c f) a
mark-IsDetached s c f a keep d = record {
  prev_null = (mark_links s c f keep a).0 ∙ d.prev_null;
  next_null = (mark_links s c f keep a).1 ∙ d.next_null;
}

-- In the list of those that wait, the first runs and the rest is the ready queue.
abbrev pub RunsFirst : Sched → List ℕ → Type 0
RunsFirst s [] = ⊥
RunsFirst s (y ∷ ys) = IsScheduled s ys × (current s ≡ y)

first_runs :
    (s1 : Sched) (zs : List ℕ)
    → ReadyQueue s1 zs
    → zs ≢ []
    → Returns (λ _ s'. RunsFirst s' zs) ((tqueue_dequeue num_ids >>= run_next) s1)
first_runs s1 [] r ne = absurd (ne refl)
first_runs s1 (y ∷ ys) r ne =
    Returns-mono (λ _ s'. Switched s1 s' y ys) (λ _ s'. RunsFirst s' (y ∷ ys)) _
      (switch_lem s1 y ys r) (λ _ s' w. (w.scheduled, w.is_current))

snoc-ne-nil : (ys : List ℕ) (a : ℕ) → (ys ++ a ∷ []) ≢ []
snoc-ne-nil [] a e = cc
snoc-ne-nil (y ∷ ys) a e = cc

module _ (s : Sched) (xs : List ℕ) (i : IsScheduled s xs) where
  abbrev c : ℕ
  c = current s

  out : NotIn c xs
  out = current_out s c xs i.ready_queue.queued i.current_run

  pub yield-eq :
      thread_yield s
      ≡ (tqueue_enqueue num_ids c >> (tqueue_dequeue num_ids >>= run_next)) (mark s c as_ready)
  unfolding thread_yield
  yield-eq = ground (arith, i.lock_free, i.current_lt)

  turned : TurnedReady s (mark s c as_ready) c
  turned = record {
    links = mark_links s c as_ready (λ t. (refl, refl));
    ends = refl;
    self_ready = ground arith;
    other_state = λ a ne. (mark_other s c as_ready a ne).0;
  }

  -- On tables where the ready queue holds `xs` and the current thread runs, `thread_yield` returns:
  -- the current thread is put behind `xs`, the first of that list is the one that runs, and the
  -- rest of it is the new ready queue.
  pub yield_round_robin : Returns (λ _ s'. RunsFirst s' (xs ++ c ∷ [])) (thread_yield s)
  yield_round_robin = rw yield-eq (
      Returns-bind (λ _ s1. Requeued (mark s c as_ready) s1 (xs ++ c ∷ []))
        (λ _ s'. RunsFirst s' (xs ++ c ∷ [])) (tqueue_enqueue num_ids c)
        (λ _. tqueue_dequeue num_ids >>= run_next) (mark s c as_ready)
        (requeue_lem s (mark s c as_ready) c xs i.ready_queue out turned i.current_lt)
        (λ _ s1 b. first_runs s1 (xs ++ c ∷ []) b.ready_queue (snoc-ne-nil xs c)))
