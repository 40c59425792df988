-- ===== src/Waitobj/Waking.antt =====
-- `event_notify`: the source is ready and who waited is woken.
use advanced_synchronization.Base.{ℕ, ◌<◌, ◌≡◌, ◌≢◌, refl, some, List, update, arith, Returns}
use advanced_synchronization.Thread.Scheduler.{thread_wakeup}
use advanced_synchronization.Thread.Scheduler.Invariant.{IsScheduled}
use advanced_synchronization.Thread.Scheduler.Wakeup.{WokeAll, wakeup_wakes_all}
use advanced_synchronization.Waitobj.State.{
  Kernel, max_event_sources, wobj_addr, on_sched, with_sched-Returns,
}
use advanced_synchronization.Waitobj.Notify.{event_notify}

-- The source `i` is ready, and who slept on its wait object waits to run.
pub record Notified (k k' : Kernel) (i w : ℕ) (xs : List ℕ) : Type 0 where
  pub woken : WokeAll k.sched k'.sched (wobj_addr k w) xs
  pub source_ready : (k'.esrc i) ≡ record (k.esrc i) { ready = 1 }
  pub other_sources : (a : ℕ) → a ≢ i → k'.esrc a ≡ k.esrc a
  pub same_objects : (v : ℕ) → k'.wobjs v ≡ k.wobjs v
  pub same_ticks : k'.waitobj_ticks ≡ k.waitobj_ticks
  pub same_base : k'.wobjs_base ≡ k.wobjs_base

notify-eq :
    (k : Kernel) (i w : ℕ)
    → i < max_event_sources
    → (k.esrc i).parent ≡ some w
    → event_notify (some i) k
      ≡ on_sched
          (thread_wakeup (wobj_addr k w))
          (record k { esrc = update k.esrc i (record (k.esrc i) { ready = 1 }) })
unfolding event_notify
notify-eq k i w h e = ground (arith, h, e)

-- On scheduled tables, `event_notify` of a source with the parent `w` returns: the source is ready,
-- and the threads that slept on the address of `w`, by number, are behind those that were ready; the
-- other sources, the objects and the ticks are as before.
pub notify_wakes :
    (k : Kernel) (i w : ℕ) (xs : List ℕ)
    → i < max_event_sources
    → (k.esrc i).parent ≡ some w
    → IsScheduled k.sched xs
    → Returns (λ _ k'. Notified k k' i w xs) (event_notify (some i) k)
notify_wakes k i w xs h e sch = rw (notify-eq k i w h e) (
    with_sched-Returns (record k { esrc = update k.esrc i (record (k.esrc i) { ready = 1 }) })
      (λ _ s. WokeAll k.sched s (wobj_addr k w) xs) (λ _ k'. Notified k k' i w xs) _
      (wakeup_wakes_all k.sched (wobj_addr k w) xs sch)
      (λ _ s q. record {
        woken = q;
        source_ready = ground arith;
        other_sources = λ a ne. ground arith;
        same_objects = λ v. refl;
        same_ticks = refl;
        same_base = refl;
      }))
