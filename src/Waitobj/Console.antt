-- ===== src/Waitobj/Console.antt =====
-- The console's notification: which sources a typed character makes ready, and who is woken.
use advanced_synchronization.Base.{
  ℕ, ◌<◌, ◌≤◌, ◌≡◌, refl, some, List, Bool, true, false, not, ◌&&◌, ◌==◌, arith, Returns,
  Returns-mono, is_null, num_ids,
}
use advanced_synchronization.Thread.Scheduler.Invariant.{channel_of, IsScheduled}
use advanced_synchronization.Waitobj.State.{
  Kernel, EventSource, max_event_sources, event_keyboard, wobj_addr,
}
use advanced_synchronization.Waitobj.Notify.{
  event_notify, console_one, console_from, waitobj_console_input_notify,
}
use advanced_synchronization.Waitobj.Scan.{IsAwake, IsScan, scanned, Scanned, from-Scanned}

-- A source of an object that waits for a key.
unfoldable pub awaits_key : EventSource → Bool
awaits_key s = not (is_null s.parent) && (s.kind == event_keyboard) && (s.ready == 0)

console_one-idle :
    (k : Kernel) (i : ℕ)
    → i < max_event_sources
    → awaits_key (k.esrc i) ≡ false
    → console_one i k ≡ some (tt, k)
unfolding console_one awaits_key
console_one-idle k i h e = ground (arith, h, e)

console_one-due :
    (k : Kernel) (i : ℕ)
    → i < max_event_sources
    → awaits_key (k.esrc i) ≡ true
    → console_one i k ≡ event_notify (some i) k
unfolding console_one awaits_key
console_one-due k i h e = ground (arith, h, e)

key_parent : (s : EventSource) → awaits_key s ≡ true → (w : ℕ) × (s.parent ≡ some w)
unfolding awaits_key
key_parent s e = ground arith

console-IsScan : IsScan awaits_key console_one console_from
unfolding console_from
console-IsScan = record {
  due_parent = key_parent;
  one_due = console_one-due;
  one_idle = console_one-idle;
  from_zero = λ k i. refl;
  from_suc = λ k n i. refl;
}

-- After a key.
pub record AfterKey (k k' : Kernel) : Type 0 where
  pub scheduled : (xs : List ℕ) × IsScheduled k'.sched xs
  pub same_ticks : k'.waitobj_ticks ≡ k.waitobj_ticks
  pub sources : (a : ℕ) → a < max_event_sources → k'.esrc a ≡ scanned awaits_key (k.esrc a)
  pub woken :
      (a w t : ℕ)
      → a < max_event_sources
      → awaits_key (k.esrc a) ≡ true
      → (k.esrc a).parent ≡ some w
      → 1 ≤ t
      → t < num_ids
      → channel_of k.sched t ≡ wobj_addr k w
      → IsAwake k'.sched t
  pub awake : (t : ℕ) → 1 ≤ t → t < num_ids → IsAwake k.sched t → IsAwake k'.sched t

-- On scheduled tables, `waitobj_console_input_notify` returns with scheduled tables and the same
-- ticks: of the sources exactly those change that have an object, are of the keyboard's kind and are
-- not ready: they are ready. Of the threads 1 to 63, none whose channel is the address of the object
-- of such a source is still asleep, and none fell asleep.
pub console_input_wakes :
    (k : Kernel) (xs : List ℕ)
    → IsScheduled k.sched xs
    → Returns (λ _ k'. AfterKey k k') (waitobj_console_input_notify k)
unfolding waitobj_console_input_notify
console_input_wakes k xs sch =
    Returns-mono (λ _ k'. Scanned awaits_key console_one console_from k k' max_event_sources 0)
      (λ _ k'. AfterKey k k') (console_from max_event_sources 0 k)
      (from-Scanned awaits_key console_one console_from console-IsScan max_event_sources k 0 xs
        (omega arith) sch)
      (λ _ k' t. record {
        scheduled = t.scheduled;
        same_ticks = t.same_ticks;
        sources = λ a h. t.inside a (omega arith) (omega arith);
        woken = λ a w s h. t.woken a w s (omega arith) (omega arith);
        awake = t.awake;
      })
