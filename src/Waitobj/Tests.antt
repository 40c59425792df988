-- ===== src/Waitobj/Tests.antt =====
-- The theorems on wait objects at a kernel with one object in use: the object 2 of the process 0,
-- with a timer, a ready software source and a keyboard source.
use advanced_synchronization.Base.{
  ℕ, ◌<◌, ◌≡◌, inr, refl, Option, none, some, [], ◌∷◌, false, ◌==◌, if◌then◌else◌, arith, pos,
  Returns,
}
use advanced_synchronization.Thread.Scheduler.Sleep.{Slept}
use advanced_synchronization.Thread.Scheduler.Tests.{tables, tables-IsScheduled, free_lock}
use advanced_synchronization.Waitobj.State.{
  Kernel, EventSource, WaitObject, event_timer, event_keyboard, event_software,
}
use advanced_synchronization.Waitobj.Pool.{free_source_from, waitobj_add}
use advanced_synchronization.Waitobj.Resume.{CanResume}
use advanced_synchronization.Waitobj.Wait.{waitobj_wait, returned, blocked}
use advanced_synchronization.Waitobj.Notify.{event_notify, waitobj_on_timer_irq}
use advanced_synchronization.Waitobj.Chain.{first_ready}
use advanced_synchronization.Waitobj.Outcomes.{IsOwned, DeliveredTo, wait_delivers, wait_sleeps}
use advanced_synchronization.Waitobj.Waking.{Notified, notify_wakes}
use advanced_synchronization.Waitobj.Firing.{
  is_due, AfterTick, timer_irq_fires, timer_irq_ignores_deadlines,
}
use advanced_synchronization.Waitobj.Adding.{AddedTo, add_extends}

abbrev source : ℕ → ℕ → ℕ → ℕ → ℕ → Option ℕ → Option ℕ → EventSource
source id kind ready period fire parent next = record {
  id = id;
  kind = kind;
  ready = ready;
  period_ms = period;
  next_fire_tick = fire;
  parent = parent;
  next = next;
}

-- The list of the object 2 is 2, 1, 0; only the source 1 can be ready.
abbrev sources : ℕ → ℕ → EventSource
sources signalled a =
    if a == 0
    then source 1 event_timer 0 50 100 (some 2) none
    else if a == 1
    then source 2 event_software signalled 0 0 (some 2) (some 0)
    else if a == 2
    then source 3 event_keyboard 0 0 0 (some 2) (some 1)
    else source 0 0 0 0 0 none none

abbrev objects : ℕ → WaitObject
objects w =
    if w == 2
    then record { wid = 2; owner_pid = 0; in_use = 1; lk = free_lock; sources = some 2 }
    else record { wid = w; owner_pid = 64; in_use = 0; lk = free_lock; sources = none }

-- With the tick counter at `ticks`, and the source 1 signalled or not.
abbrev pub kernel : ℕ → ℕ → Kernel
kernel ticks signalled = record {
  sched = tables;
  waitobj_ticks = ticks;
  wobjs = objects;
  esrc = sources signalled;
  wobjs_base = 1000;
}

pub kernel-IsOwned : (ticks signalled : ℕ) → IsOwned (kernel ticks signalled) 0 2 (2 ∷ 1 ∷ 0 ∷ [])
kernel-IsOwned ticks signalled = record {
  sources = record {
    object_lt = omega arith;
    chain = ground arith;
    distinct = ground arith;
    parents = λ a m. ground (arith, m);
  };
  used = λ e. ground (arith, e);
  owned = refl;
  unlocked = refl;
}

wait_delivers_example :
    Returns
      (λ r k'.
        (r ≡ returned (pos 0) (some (pos 2)))
        × DeliveredTo (kernel 70 1) 0 2 (2 ∷ 1 ∷ 0 ∷ []) (kernel-IsOwned 70 1) 1 k')
      (waitobj_wait 0 (pos 2) 0 (kernel 70 1))
unfolding first_ready
wait_delivers_example =
    wait_delivers (kernel 70 1) 0 2 (2 ∷ 1 ∷ 0 ∷ []) (kernel-IsOwned 70 1) 1 0 refl

wait_sleeps_example :
    Returns
      (λ r k'.
        (r ≡ blocked)
        × Slept k'.sched 0 1048 (k'.wobjs 2).lk 1 (2 ∷ [])
        × ((a : ℕ) → k'.esrc a ≡ sources 0 a))
      (waitobj_wait 0 (pos 2) 20 (kernel 70 0))
unfolding first_ready
wait_sleeps_example =
    wait_sleeps (kernel 70 0) 0 2 (2 ∷ 1 ∷ 0 ∷ []) (kernel-IsOwned 70 0) 20 1 (2 ∷ []) refl
      (inr (omega arith)) tables-IsScheduled

notify_wakes_example :
    Returns
      (λ _ k'. Notified (kernel 70 0) k' 1 2 (1 ∷ 2 ∷ []))
      (event_notify (some 1) (kernel 70 0))
notify_wakes_example =
    notify_wakes (kernel 70 0) 1 2 (1 ∷ 2 ∷ []) (omega arith) refl tables-IsScheduled

timer_irq_fires_example :
    Returns (λ _ k'. AfterTick (kernel 99 0) k') (waitobj_on_timer_irq (kernel 99 0))
timer_irq_fires_example = timer_irq_fires (kernel 99 0) (1 ∷ 2 ∷ []) tables-IsScheduled

idle : (a : ℕ) → a < 32 → is_due 71 (sources 0 a) ≡ false
unfolding is_due
idle a h = ground arith

timer_irq_ignores_deadlines_example :
    waitobj_on_timer_irq (kernel 70 0) ≡ some (tt, record (kernel 70 0) { waitobj_ticks = 71 })
timer_irq_ignores_deadlines_example = timer_irq_ignores_deadlines (kernel 70 0) idle

add_extends_example :
    Returns
      (λ r k'.
        (r ≡ pos 4)
        × AddedTo (kernel 70 0) 0 2 (2 ∷ 1 ∷ 0 ∷ []) (kernel-IsOwned 70 0) event_timer 30 3 k')
      (waitobj_add 0 (pos 2) event_timer 30 (kernel 70 0))
unfolding free_source_from
add_extends_example =
    add_extends (kernel 70 0) 0 2 (2 ∷ 1 ∷ 0 ∷ []) (kernel-IsOwned 70 0) event_timer 30 3 refl

kernel-CanResume : (signalled : ℕ) → CanResume (kernel 90 signalled) 3 2 (2 ∷ 1 ∷ 0 ∷ [])
kernel-CanResume signalled = record {
  sources = (kernel-IsOwned 90 signalled).sources;
  pid_lt = omega arith;
  sched_free = refl;
  object_free = refl;
}
