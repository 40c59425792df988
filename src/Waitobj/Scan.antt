-- ===== src/Waitobj/Scan.antt =====
-- A loop over the event sources that notifies those that a test finds due: the common part of the timer
-- tick and the console's notification.
use native.Mathlib.Decide.{ℕ_discrete}
use advanced_synchronization.Base.{
  ℕ, zero, suc, ◌+◌, ◌-◌, ◌<◌, ◌≤◌, ◌≡◌, ◌≢◌, ◌⊎◌, ◌*◌, inl, inr, refl, sym, ap, ◌∙◌, some, List,
  In, In-append_right, Bool, true, false, if◌then◌else◌, arith, Returns, Returns-mono, Returns-bind,
  M, ◌>>◌, Bool-cases, num_ids,
}
use advanced_synchronization.Thread.Tcb.{Sched, ready}
use advanced_synchronization.Thread.Scheduler.{is_asleep}
use advanced_synchronization.Thread.Scheduler.Invariant.{state_of, channel_of, IsScheduled}
use advanced_synchronization.Thread.Scheduler.Wakeup.{sleeps_on, sleepers, WokeAll}
use advanced_synchronization.Waitobj.State.{Kernel, EventSource, max_event_sources, wobj_addr}
use advanced_synchronization.Waitobj.Notify.{event_notify}
use advanced_synchronization.Waitobj.Waking.{Notified, notify_wakes}

sleepers-In :
    (s : Sched) (chan n pid t : ℕ)
    → sleeps_on s chan t ≡ true
    → pid ≤ t
    → t < pid + n
    → In t (sleepers s chan n pid)
unfolding sleepers
sleepers-In s chan zero pid t e l u = absurd (omega arith)
sleepers-In s chan (suc n) pid t e l u = elim (ℕ_discrete t pid) [
  | yes f ↦ rw (ap (sleeps_on s chan) (sym f) ∙ e) (inl f)
  | no f ↦ elim (Bool-cases (sleeps_on s chan pid)) [
    | inl g ↦ rw g (inr (sleepers-In s chan n (pid + 1) t e (omega arith) (omega arith)))
    | inr g ↦ rw g (sleepers-In s chan n (pid + 1) t e (omega arith) (omega arith))
  ]
]

abbrev pub IsAwake : Sched → ℕ → Type 0
IsAwake s t = is_asleep (state_of s t) ≡ false

ready-IsAwake : (s : Sched) (t : ℕ) → state_of s t ≡ ready → IsAwake s t
unfolding is_asleep
ready-IsAwake s t e = rw e refl

-- After a wakeup no thread sleeps on the channel, and no thread fell asleep.
woken-IsAwake :
    (s s' : Sched) (chan : ℕ) (xs : List ℕ) (t : ℕ)
    → WokeAll s s' chan xs
    → 1 ≤ t
    → t < num_ids
    → sleeps_on s chan t ≡ true
    → IsAwake s' t
woken-IsAwake s s' chan xs t w l u e = ready-IsAwake s' t (
    w.scheduled.ready_queue.queued t (
      In-append_right t xs (sleepers s chan (num_ids - 1) 1)
        (sleepers-In s chan (num_ids - 1) 1 t e l (omega arith))))

still-IsAwake :
    (s s' : Sched) (chan : ℕ) (xs : List ℕ) (t : ℕ)
    → WokeAll s s' chan xs
    → 1 ≤ t
    → t < num_ids
    → IsAwake s t
    → IsAwake s' t
still-IsAwake s s' chan xs t w l u a = elim (Bool-cases (sleeps_on s chan t)) [
  | inl e ↦ woken-IsAwake s s' chan xs t w l u e
  | inr e ↦ ap is_asleep (w.others t e).0 ∙ a
]

awake_not_on :
    (s : Sched) (chan t : ℕ) → sleeps_on s chan t ≡ false → channel_of s t ≡ chan → IsAwake s t
unfolding sleeps_on
awake_not_on s chan t e c = ground (arith, e, c)

channel-IsAwake :
    (s s' : Sched) (chan : ℕ) (xs : List ℕ) (t : ℕ)
    → WokeAll s s' chan xs
    → 1 ≤ t
    → t < num_ids
    → channel_of s t ≡ chan
    → IsAwake s' t
channel-IsAwake s s' chan xs t w l u c = elim (Bool-cases (sleeps_on s chan t)) [
  | inl e ↦ woken-IsAwake s s' chan xs t w l u e
  | inr e ↦ ap is_asleep (w.others t e).0 ∙ awake_not_on s chan t e c
]

-- A source that was notified.
abbrev pub made_ready : EventSource → EventSource
made_ready s = record s { ready = 1 }

-- What a loop leaves of a source.
unfoldable pub scanned : (EventSource → Bool) → EventSource → EventSource
scanned due s = if due s then made_ready s else s

module _ (due : EventSource → Bool) (one : ℕ → M Kernel (Unit {0}))
    (from : ℕ → ℕ → M Kernel (Unit {0})) where
  -- What the test and the loop are: a due source has a parent and is notified, another is skipped.
  pub record IsScan : Type 0 where
    pub due_parent : (s : EventSource) → due s ≡ true → (w : ℕ) × (s.parent ≡ some w)
    pub one_due :
        (k : Kernel) (i : ℕ)
        → i < max_event_sources
        → due (k.esrc i) ≡ true
        → one i k ≡ event_notify (some i) k
    pub one_idle :
        (k : Kernel) (i : ℕ)
        → i < max_event_sources
        → due (k.esrc i) ≡ false
        → one i k ≡ some (tt, k)
    pub from_zero : (k : Kernel) (i : ℕ) → from 0 i k ≡ some (tt, k)
    pub from_suc : (k : Kernel) (n i : ℕ) → from (suc n) i k ≡ (one i >> from n (i + 1)) k

  -- After the loop over the `n` sources from `i` on: those that are due are ready, and the threads that
  -- waited on their objects, the thread 0 apart, are awake.
  pub record Scanned (k k' : Kernel) (n i : ℕ) : Type 0 where
    pub scheduled : (xs : List ℕ) × IsScheduled k'.sched xs
    pub inside : (a : ℕ) → i ≤ a → a < i + n → k'.esrc a ≡ scanned due (k.esrc a)
    pub below : (a : ℕ) → a < i → k'.esrc a ≡ k.esrc a
    pub woken :
        (a w t : ℕ)
        → i ≤ a
        → a < i + n
        → due (k.esrc a) ≡ true
        → (k.esrc a).parent ≡ some w
        → 1 ≤ t
        → t < num_ids
        → channel_of k.sched t ≡ wobj_addr k w
        → IsAwake k'.sched t
    pub awake : (t : ℕ) → 1 ≤ t → t < num_ids → IsAwake k.sched t → IsAwake k'.sched t
    pub same_ticks : k'.waitobj_ticks ≡ k.waitobj_ticks
    pub same_base : k'.wobjs_base ≡ k.wobjs_base

  -- After one round.
  pub record OneScanned (k k' : Kernel) (i : ℕ) : Type 0 where
    pub scheduled : (xs : List ℕ) × IsScheduled k'.sched xs
    pub this_source : k'.esrc i ≡ scanned due (k.esrc i)
    pub other_sources : (a : ℕ) → a ≢ i → k'.esrc a ≡ k.esrc a
    pub woken :
        (w t : ℕ)
        → due (k.esrc i) ≡ true
        → (k.esrc i).parent ≡ some w
        → 1 ≤ t
        → t < num_ids
        → channel_of k.sched t ≡ wobj_addr k w
        → IsAwake k'.sched t
    pub awake : (t : ℕ) → 1 ≤ t → t < num_ids → IsAwake k.sched t → IsAwake k'.sched t
    pub on_channel :
        (t : ℕ)
        → 1 ≤ t
        → t < num_ids
        → IsAwake k'.sched t ⊎ (channel_of k'.sched t ≡ channel_of k.sched t)
    pub same_ticks : k'.waitobj_ticks ≡ k.waitobj_ticks
    pub same_base : k'.wobjs_base ≡ k.wobjs_base

  module _ (p : IsScan) where
    one-OneScanned :
        (k : Kernel) (i : ℕ) (xs : List ℕ)
        → i < max_event_sources
        → IsScheduled k.sched xs
        → Returns (λ _ k'. OneScanned k k' i) (one i k)
    unfolding scanned
    one-OneScanned k i xs h sch = elim (Bool-cases (due (k.esrc i))) [
      | inl e ↦
          let (w, q) = p.due_parent (k.esrc i) e in
          rw (p.one_due k i h e) (
            Returns-mono (λ _ k'. Notified k k' i w xs) (λ _ k'. OneScanned k k' i)
              (event_notify (some i) k) (notify_wakes k i w xs h q sch)
              (λ _ k' n. record {
                scheduled = (_, n.woken.scheduled);
                this_source = rw e n.source_ready;
                other_sources = n.other_sources;
                woken = λ w' t _ q' l u c.
                    channel-IsAwake k.sched k'.sched (wobj_addr k w) xs t n.woken l u
                      (c ∙ ap (wobj_addr k) (some-injective w' w (sym q' ∙ q)));
                awake =
                    λ t l u a. still-IsAwake k.sched k'.sched (wobj_addr k w) xs t n.woken l u a;
                on_channel = λ t l u. elim (Bool-cases (sleeps_on k.sched (wobj_addr k w) t)) [
                  | inl f ↦ inl (woken-IsAwake k.sched k'.sched (wobj_addr k w) xs t n.woken l u f)
                  | inr f ↦ inr (n.woken.others t f).1
                ];
                same_ticks = n.same_ticks;
                same_base = n.same_base;
              }))
      | inr e ↦ rw (p.one_idle k i h e) (record {
        scheduled = (xs, sch);
        this_source = rw e;
        other_sources = λ a ne. refl;
        woken = λ w t f _ _ _ _. absurd (true≢false (sym f ∙ e));
        awake = λ t l u a. a;
        on_channel = λ t l u. inr refl;
        same_ticks = refl;
        same_base = refl;
      })
    ]
      where
        true≢false : true ≡ false → ⊥
        true≢false f = cc

        some-injective : (a b : ℕ) → some a ≡ some b → a ≡ b
        some-injective a b f = cc

    pub from-Scanned :
        (n : ℕ) (k : Kernel) (i : ℕ) (xs : List ℕ)
        → i + n ≤ max_event_sources
        → IsScheduled k.sched xs
        → Returns (λ _ k'. Scanned k k' n i) (from n i k)
    from-Scanned zero k i xs h sch = rw (p.from_zero k i) (record {
      scheduled = (xs, sch);
      inside = λ a l u. absurd (omega arith);
      below = λ a l. refl;
      woken = λ a w t l u _ _ _ _ _. absurd (omega arith);
      awake = λ t l u a. a;
      same_ticks = refl;
      same_base = refl;
    })
    from-Scanned (suc n) k i xs h sch = rw (p.from_suc k n i) (
        Returns-bind (λ _ k1. OneScanned k k1 i) (λ _ k'. Scanned k k' (suc n) i) (one i)
          (λ _. from n (i + 1)) k (one-OneScanned k i xs (omega arith) sch)
          (λ _ k1 t.
            Returns-mono (λ _ k'. Scanned k1 k' n (i + 1)) (λ _ k'. Scanned k k' (suc n) i)
              (from n (i + 1) k1)
              (from-Scanned n k1 (i + 1) t.scheduled.0 (omega arith) t.scheduled.1)
              (λ _ k' r. record {
                scheduled = r.scheduled;
                inside = λ a l u. elim (ℕ_discrete a i) [
                  | yes e ↦ rw e (r.below i (omega arith) ∙ t.this_source)
                  | no e ↦
                      r.inside a (omega arith) (omega arith)
                      ∙ ap (scanned due) (t.other_sources a e)
                ];
                below = λ a l. r.below a (omega arith) ∙ t.other_sources a (omega arith);
                woken = λ a w s l u d q x y c. elim (ℕ_discrete a i) [
                  | yes e ↦ r.awake s x y (
                      t.woken w s (ap (λ b. due (k.esrc b)) (sym e) ∙ d)
                        (ap (λ b. (k.esrc b).parent) (sym e) ∙ q) x y c)
                  | no e ↦ elim (t.on_channel s x y) [
                    | inl f ↦ r.awake s x y f
                    | inr f ↦
                        r.woken a w s (omega arith) (omega arith) (ap due (t.other_sources a e) ∙ d)
                          (ap (λ (b : EventSource). b.parent) (t.other_sources a e) ∙ q) x y
                          (f ∙ c ∙ ap (λ b. b + 24 * w) (sym t.same_base))
                  ]
                ];
                awake = λ s x y f. r.awake s x y (t.awake s x y f);
                same_ticks = r.same_ticks ∙ t.same_ticks;
                same_base = r.same_base ∙ t.same_base;
              })))
