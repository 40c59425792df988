-- ===== src/Waitobj/Firing.antt =====
-- The timer interrupt: which sources a tick makes ready, and who is woken.
use advanced_synchronization.Base.{
  ℕ, zero, suc, ◌+◌, ◌<◌, ◌≤◌, ◌≡◌, refl, some, List, Bool, true, false, not, ◌&&◌, ◌==◌, leb, u32,
  arith, Returns, Returns-mono, ◌>>=◌, ◌>>◌, is_null, num_ids,
}
use advanced_synchronization.Thread.Scheduler.Invariant.{channel_of, IsScheduled}
use advanced_synchronization.Waitobj.State.{
  Kernel, EventSource, max_event_sources, event_timer, wobj_addr,
}
use advanced_synchronization.Waitobj.Notify.{
  event_notify, tick_one, tick_from, waitobj_timer_tick, waitobj_on_timer_irq,
}
use advanced_synchronization.Waitobj.Scan.{IsAwake, IsScan, scanned, Scanned, from-Scanned}

-- A tick finds the source a timer that is not ready and whose time has come.
unfoldable pub is_due : ℕ → EventSource → Bool
is_due now s =
    not (is_null s.parent) && (s.kind == event_timer) && (s.ready == 0) && leb s.next_fire_tick now

tick_one-idle :
    (now : ℕ) (k : Kernel) (i : ℕ)
    → i < max_event_sources
    → is_due now (k.esrc i) ≡ false
    → tick_one now i k ≡ some (tt, k)
unfolding tick_one is_due
tick_one-idle now k i h e = ground (arith, h, e)

tick_one-due :
    (now : ℕ) (k : Kernel) (i : ℕ)
    → i < max_event_sources
    → is_due now (k.esrc i) ≡ true
    → tick_one now i k ≡ event_notify (some i) k
unfolding tick_one is_due
tick_one-due now k i h e = ground (arith, h, e)

due_parent : (now : ℕ) (s : EventSource) → is_due now s ≡ true → (w : ℕ) × (s.parent ≡ some w)
unfolding is_due
due_parent now s e = ground arith

tick-IsScan : (now : ℕ) → IsScan (is_due now) (tick_one now) (λ n i. tick_from n now i)
unfolding tick_from
tick-IsScan now = record {
  due_parent = due_parent now;
  one_due = tick_one-due now;
  one_idle = tick_one-idle now;
  from_zero = λ k i. refl;
  from_suc = λ k n i. refl;
}

-- After a timer interrupt.
pub record AfterTick (k k' : Kernel) : Type 0 where
  pub scheduled : (xs : List ℕ) × IsScheduled k'.sched xs
  pub ticks : k'.waitobj_ticks ≡ u32 (k.waitobj_ticks + 1)
  pub sources :
      (a : ℕ)
      → a < max_event_sources
      → k'.esrc a ≡ scanned (is_due (u32 (k.waitobj_ticks + 1))) (k.esrc a)
  pub woken :
      (a w t : ℕ)
      → a < max_event_sources
      → is_due (u32 (k.waitobj_ticks + 1)) (k.esrc a) ≡ true
      → (k.esrc a).parent ≡ some w
      → 1 ≤ t
      → t < num_ids
      → channel_of k.sched t ≡ wobj_addr k w
      → IsAwake k'.sched t
  pub awake : (t : ℕ) → 1 ≤ t → t < num_ids → IsAwake k.sched t → IsAwake k'.sched t

-- On scheduled tables, the timer interrupt returns with scheduled tables: the ticks are one more
-- modulo 2 ^ 32, and of the sources exactly those change that the new tick finds due: they are ready.
-- Of the threads 1 to 63, none whose channel is the address of the object of a due source is still
-- asleep, and none fell asleep.
pub timer_irq_fires :
    (k : Kernel) (xs : List ℕ)
    → IsScheduled k.sched xs
    → Returns (λ _ k'. AfterTick k k') (waitobj_on_timer_irq k)
unfolding waitobj_on_timer_irq waitobj_timer_tick
timer_irq_fires k xs sch =
    Returns-mono
      (λ _ k'.
        Scanned (is_due now) (tick_one now) (λ n i. tick_from n now i) k1 k' max_event_sources 0)
      (λ _ k'. AfterTick k k') (tick_from max_event_sources now 0 k1)
      (from-Scanned (is_due now) (tick_one now) (λ n i. tick_from n now i) (tick-IsScan now)
        max_event_sources k1 0 xs (omega arith) sch)
      (λ _ k' t. record {
        scheduled = t.scheduled;
        ticks = t.same_ticks;
        sources = λ a h. t.inside a (omega arith) (omega arith);
        woken = λ a w s h. t.woken a w s (omega arith) (omega arith);
        awake = t.awake;
      })
  where
    now : ℕ
    now = u32 (k.waitobj_ticks + 1)

    k1 : Kernel
    k1 = record k { waitobj_ticks = now }

idle_ticks :
    (n : ℕ) (k : Kernel) (now i : ℕ)
    → i + n ≤ max_event_sources
    → ((a : ℕ) → a < max_event_sources → is_due now (k.esrc a) ≡ false)
    → tick_from n now i k ≡ some (tt, k)
unfolding tick_from
idle_ticks zero k now i h idle = refl
idle_ticks (suc n) k now i h idle =
    rw (◌>>◌, ◌>>=◌, tick_one-idle now k i (omega arith) (idle i (omega arith)))
      (idle_ticks n k now (i + 1) (omega arith) idle)

-- A timer interrupt at whose tick no timer source is due changes the tick counter and nothing else:
-- no thread that sleeps in `waitobj_wait` becomes ready, whatever its deadline is.
pub timer_irq_ignores_deadlines :
    (k : Kernel)
    → ((a : ℕ) → a < max_event_sources → is_due (u32 (k.waitobj_ticks + 1)) (k.esrc a) ≡ false)
    → waitobj_on_timer_irq k ≡ some (tt, record k { waitobj_ticks = u32 (k.waitobj_ticks + 1) })
unfolding waitobj_on_timer_irq waitobj_timer_tick
timer_irq_ignores_deadlines k idle =
    idle_ticks max_event_sources (record k { waitobj_ticks = u32 (k.waitobj_ticks + 1) })
      (u32 (k.waitobj_ticks + 1)) 0 (omega arith) idle
