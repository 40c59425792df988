-- ===== src/Thread/Scheduler/Wakeup.antt =====
-- kern/thread/PThread: `thread_wakeup` makes exactly the sleepers of a channel ready.
use mathlib.Core.List.{append-nil, append_assoc}
use advanced_synchronization.Base.{
  ℕ, zero, suc, ◌+◌, ◌-◌, ◌<◌, ◌≤◌, ◌≡◌, ◌≢◌, refl, sym, ◌∙◌, ap, ap, inl, inr, num_ids, update,
  Bool, true, false, ◌&&◌, ◌==◌, if◌then◌else◌, Bool-cases, Returns, Returns-bind, Returns-mono,
  ◌>>◌, arith, List, [], ◌∷◌, ◌++◌, In, NotIn, some, subst,
}
use advanced_synchronization.Thread.Tcb.{Sched, ready, run}
use advanced_synchronization.Spinlock
use advanced_synchronization.Thread.Queue.{tqueue_enqueue}
use advanced_synchronization.Thread.Queue.Refine.{IsDetached}
use advanced_synchronization.Thread.Scheduler.{
  wake_one, wake_from, thread_wakeup, is_asleep, release_sched,
}
use advanced_synchronization.Thread.Scheduler.Invariant.{
  state_of, channel_of, current, ReadyQueue, IsScheduled,
}
use advanced_synchronization.Thread.Scheduler.Requeue.{TurnedReady, Requeued, requeue_lem}

-- Does the thread sleep on the channel?
unfoldable pub sleeps_on : Sched → ℕ → ℕ → Bool
unfolding is_asleep
sleeps_on s chan a = (channel_of s a == chan) && is_asleep (state_of s a)

-- The sleepers of the channel among the `n` threads from `pid` on, by increasing number.
unfoldable pub sleepers : Sched → ℕ → ℕ → ℕ → List ℕ
sleepers s chan zero pid = []
sleepers s chan (suc n) pid =
    let rest = sleepers s chan n (pid + 1) in if sleeps_on s chan pid then pid ∷ rest else rest

-- A thread that `thread_wakeup` has made ready.
abbrev pub awake : Sched → ℕ → Sched
awake s pid = record s {
  tcb_pool =
      update s.tcb_pool pid (record (record (s.tcb_pool pid) { state = ready }) { channel = 0 });
}

sleepers-cong :
    (s t : Sched) (chan n pid : ℕ)
    → ((a : ℕ) → pid ≤ a → sleeps_on t chan a ≡ sleeps_on s chan a)
    → sleepers t chan n pid ≡ sleepers s chan n pid
unfolding sleepers
sleepers-cong s t chan zero pid same = refl
sleepers-cong s t chan (suc n) pid same =
    rw (same pid (omega arith), sleepers-cong s t chan n (pid + 1) (λ a h. same a (omega arith)))

awake-turned : (s : Sched) (pid : ℕ) → TurnedReady s (awake s pid) pid
awake-turned s pid = record {
  links = ground arith;
  ends = refl;
  self_ready = ground arith;
  other_state = ground arith;
}

wake-eq :
    (s : Sched) (chan pid : ℕ)
    → pid < num_ids
    → sleeps_on s chan pid ≡ true
    → wake_one chan pid s ≡ tqueue_enqueue num_ids pid (awake s pid)
unfolding wake_one sleeps_on
wake-eq s chan pid h e = ground arith

skip-eq :
    (s : Sched) (chan pid : ℕ)
    → pid < num_ids
    → sleeps_on s chan pid ≡ false
    → wake_one chan pid s ≡ some (tt, s)
unfolding wake_one sleeps_on
skip-eq s chan pid h e = ground arith

-- After the loop over the `n` threads from `pid` on.
pub record WokenFrom (s s' : Sched) (chan n pid : ℕ) (xs : List ℕ) : Type 0 where
  pub ready_queue : ReadyQueue s' (xs ++ sleepers s chan n pid)
  pub same_cpu : s'.pcpu_idx ≡ s.pcpu_idx
  pub same_curid : (c : ℕ) → s'.curid c ≡ s.curid c
  pub same_lock : s'.sched_lk ≡ s.sched_lk
  pub others :
      (a : ℕ)
      → sleeps_on s chan a ≡ false
      → (state_of s' a ≡ state_of s a) × (channel_of s' a ≡ channel_of s a)

not_ready_out :
    (s : Sched) (c : ℕ) (xs : List ℕ)
    → ((a : ℕ) → In a xs → state_of s a ≡ ready)
    → state_of s c ≢ ready
    → NotIn c xs
not_ready_out s c [] q e = tt
not_ready_out s c (x ∷ xs) q e =
    (λ f. e (ap (state_of s) f ∙ q x (inl refl)), not_ready_out s c xs (λ a m. q a (inr m)) e)

asleep_not_ready : (s : Sched) (chan a : ℕ) → sleeps_on s chan a ≡ true → state_of s a ≢ ready
unfolding sleeps_on
asleep_not_ready s chan a e = ground arith

-- The test depends on the state and the channel only.
sleeps_on-eq :
    (s t : Sched) (chan a : ℕ)
    → state_of t a ≡ state_of s a
    → channel_of t a ≡ channel_of s a
    → sleeps_on t chan a ≡ sleeps_on s chan a
unfolding sleeps_on
sleeps_on-eq s t chan a e f = rw (e, f)

module _ (s : Sched) (chan n pid : ℕ) (xs : List ℕ) where
  -- One sleeper woken, then the rest of the loop.
  module _ (e : sleeps_on s chan pid ≡ true) (s1 : Sched)
      (q : Requeued (awake s pid) s1 (xs ++ pid ∷ [])) where
    kept : (a : ℕ) → a ≢ pid → (state_of s1 a ≡ state_of s a) × (channel_of s1 a ≡ channel_of s a)
    kept a ne = (
      (q.rest.threads a).same_state ∙ ground arith,
      (q.rest.threads a).same_channel ∙ ground arith,
    )

    same_test : (a : ℕ) → a ≢ pid → sleeps_on s1 chan a ≡ sleeps_on s chan a
    same_test a ne = sleeps_on-eq s s1 chan a (kept a ne).0 (kept a ne).1

    woken_step :
        (s' : Sched)
        → WokenFrom s1 s' chan n (pid + 1) (xs ++ pid ∷ [])
        → WokenFrom s s' chan (suc n) pid xs
    unfolding sleepers
    woken_step s' w = record {
      ready_queue =
          rw (e, ← append_assoc xs (pid ∷ []) (sleepers s chan n (pid + 1)))
            (subst (λ l. ReadyQueue s' ((xs ++ pid ∷ []) ++ l))
              (sleepers-cong s s1 chan n (pid + 1) (λ a h. same_test a (omega arith)))
              w.ready_queue);
      same_cpu = w.same_cpu ∙ q.rest.same_cpu;
      same_curid = λ c. w.same_curid c ∙ q.rest.same_curid c;
      same_lock = w.same_lock ∙ q.rest.same_lock;
      others = λ a f.
          let ne : a ≢ pid = λ g. false≢true' (sym f ∙ ap (sleeps_on s chan) g ∙ e) in
          let o : (state_of s' a ≡ state_of s1 a) × (channel_of s' a ≡ channel_of s1 a) =
            w.others a (same_test a ne ∙ f) in
          (o.0 ∙ (kept a ne).0, o.1 ∙ (kept a ne).1);
    }
      where
        false≢true' : false ≡ true → ⊥
        false≢true' p = cc

  skipped_step :
      sleeps_on s chan pid ≡ false
      → (s' : Sched) → WokenFrom s s' chan n (pid + 1) xs
      → WokenFrom s s' chan (suc n) pid xs
  unfolding sleepers
  skipped_step e s' w = record {
    ready_queue = rw e w.ready_queue;
    same_cpu = w.same_cpu;
    same_curid = w.same_curid;
    same_lock = w.same_lock;
    others = w.others;
  }

wake_from-WokenFrom :
    (n : ℕ) (s : Sched) (chan pid : ℕ) (xs : List ℕ)
    → pid + n ≤ num_ids
    → ReadyQueue s xs
    → Returns (λ _ s'. WokenFrom s s' chan n pid xs) (wake_from n chan pid s)
unfolding wake_from sleepers wake_one
wake_from-WokenFrom zero s chan pid xs h r = record {
  ready_queue = rw (append-nil xs) r;
  same_cpu = refl;
  same_curid = λ c. refl;
  same_lock = refl;
  others = λ a f. (refl, refl);
}
wake_from-WokenFrom (suc n) s chan pid xs h r = elim (Bool-cases (sleeps_on s chan pid)) [
  | inl e ↦
      Returns-bind (λ _ s1. Requeued (awake s pid) s1 (xs ++ pid ∷ []))
        (λ _ s'. WokenFrom s s' chan (suc n) pid xs) (wake_one chan pid)
        (λ _. wake_from n chan (pid + 1)) s
        (rw (wake-eq s chan pid (omega arith) e) (
          requeue_lem s (awake s pid) pid xs r
            (not_ready_out s pid xs r.queued (asleep_not_ready s chan pid e)) (awake-turned s pid)
            (omega arith)))
        (λ _ s1 q.
          Returns-mono (λ _ s'. WokenFrom s1 s' chan n (pid + 1) (xs ++ pid ∷ []))
            (λ _ s'. WokenFrom s s' chan (suc n) pid xs) _
            (wake_from-WokenFrom n s1 chan (pid + 1) (xs ++ pid ∷ []) (omega arith) q.ready_queue)
            (λ _ s' w. woken_step s chan n pid xs e s1 q s' w))
  | inr e ↦ rw (skip-eq s chan pid (omega arith) e) (
      Returns-mono (λ _ s'. WokenFrom s s' chan n (pid + 1) xs)
        (λ _ s'. WokenFrom s s' chan (suc n) pid xs) _
        (wake_from-WokenFrom n s chan (pid + 1) xs (omega arith) r)
        (λ _ s' w. skipped_step s chan n pid xs e s' w))
]

-- The tables while `thread_wakeup` holds the scheduler's lock.
abbrev locked : Sched → Sched
locked s = record s { sched_lk = record { lock_holder = s.pcpu_idx; lock = 1 } }

wakeup-eq :
    (s : Sched) (chan : ℕ)
    → s.sched_lk.lock ≡ 0
    → thread_wakeup chan s ≡ (wake_from (num_ids - 1) chan 1 >> release_sched) (locked s)
unfolding thread_wakeup
wakeup-eq s chan h = ground arith

run_not_asleep : (s : Sched) (chan a : ℕ) → state_of s a ≡ run → sleeps_on s chan a ≡ false
unfolding sleeps_on
run_not_asleep s chan a e = ground arith

-- The sleepers of `chan` are behind those that were ready; nothing else changed.
pub record WokeAll (s s' : Sched) (chan : ℕ) (xs : List ℕ) : Type 0 where
  pub scheduled : IsScheduled s' (xs ++ sleepers s chan (num_ids - 1) 1)
  pub same_current : current s' ≡ current s
  pub others :
      (a : ℕ)
      → sleeps_on s chan a ≡ false
      → (state_of s' a ≡ state_of s a) × (channel_of s' a ≡ channel_of s a)

module _ (s : Sched) (chan : ℕ) (xs : List ℕ) (i : IsScheduled s xs) where
  locked_ready : ReadyQueue (locked s) xs
  locked_ready = record {
    queue = i.ready_queue.queue;
    queued = i.ready_queue.queued;
    ready_in = i.ready_queue.ready_in;
    detached = λ a h n.
        let d : IsDetached s a = i.ready_queue.detached a h n in
        record { prev_null = d.prev_null; next_null = d.next_null };
  }

  same_sleepers : sleepers (locked s) chan (num_ids - 1) 1 ≡ sleepers s chan (num_ids - 1) 1
  same_sleepers =
      sleepers-cong s (locked s) chan (num_ids - 1) 1
        (λ a h. sleeps_on-eq s (locked s) chan a refl refl)

  released :
      (s' : Sched)
      → WokenFrom (locked s) s' chan (num_ids - 1) 1 xs
      → Returns (λ _ t. WokeAll s t chan xs) (release_sched s')
  unfolding release_sched Spinlock.spinlock_release
  released s' w = record {
    scheduled = record {
      ready_queue = record {
        queue = r.queue;
        queued = r.queued;
        ready_in = r.ready_in;
        detached = λ a h n.
            let d : IsDetached s' a = r.detached a h n in
            record { prev_null = d.prev_null; next_null = d.next_null };
      };
      current_lt = rw cur i.current_lt;
      current_run = ap (state_of s') cur ∙ (w.others (current s) still).0 ∙ i.current_run;
      lock_free = refl;
    };
    same_current = cur;
    others = λ a f. w.others a (sleeps_on-eq s (locked s) chan a refl refl ∙ f);
  }
    where
      r : ReadyQueue s' (xs ++ sleepers s chan (num_ids - 1) 1)
      r = subst (λ l. ReadyQueue s' (xs ++ l)) same_sleepers w.ready_queue

      cur : current s' ≡ current s
      cur = w.same_curid s'.pcpu_idx ∙ ap s.curid w.same_cpu

      still : sleeps_on (locked s) chan (current s) ≡ false
      still = run_not_asleep (locked s) chan (current s) i.current_run

  -- On tables where `xs` is the ready queue and the current thread runs, `thread_wakeup` returns:
  -- the ready queue is `xs` followed by all threads from 1 on that slept on the channel, by number;
  -- the current thread is the same, and no thread that did not sleep on the channel changed its
  -- state or channel.
  pub wakeup_wakes_all : Returns (λ _ s'. WokeAll s s' chan xs) (thread_wakeup chan s)
  wakeup_wakes_all = rw (wakeup-eq s chan i.lock_free) (
      Returns-bind (λ _ s'. WokenFrom (locked s) s' chan (num_ids - 1) 1 xs)
        (λ _ t. WokeAll s t chan xs) (wake_from (num_ids - 1) chan 1) (λ _. release_sched)
        (locked s)
        (wake_from-WokenFrom (num_ids - 1) (locked s) chan 1 xs (omega arith) locked_ready)
        (λ _ s' w. released s' w))
