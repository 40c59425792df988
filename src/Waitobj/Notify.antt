-- ===== src/Waitobj/Notify.antt =====
-- kern/sync/waitobj.c: notification of a source, by a call, the timer tick or the console.
use advanced_synchronization.Base.{
  ℕ, zero, suc, ◌+◌, ◌-◌, Option, none, some, ◌==◌, ltb, leb, if◌then◌else◌, ◌&&◌, ◌||◌, not, u32,
  is_null, ℤ, pos, negsuc, M, pure, ◌>>=◌, ◌>>◌,
}
use advanced_synchronization.Thread.Scheduler.{thread_wakeup}
use advanced_synchronization.Waitobj.State.{
  Kernel, max_event_sources, event_timer, event_keyboard, event_software, source_at, write_source,
  object_at, on_sched, wobj_addr, get_ticks,
}

-- `none` for a null pointer.
unfoldable pub event_notify : Option ℕ → M Kernel (Unit {0})
event_notify none = pure tt
event_notify (some i) = source_at i >>= λ e. elim e.parent [
  | none ↦ pure tt
  | some w ↦ (do
    write_source i (λ e'. record e' { ready = 1 })
    λ k. on_sched (thread_wakeup (wobj_addr k w)) k)
]

-- The checks of `waitobj_signal_source` on the parent and the type, and the notification.
unfoldable pub signal_checked : ℕ → ℕ → M Kernel ℤ
signal_checked owner_pid i = source_at i >>= λ s. elim s.parent [
  | none ↦ pure (negsuc 0)
  | some w ↦ (do
    o ← object_at w
    if o.owner_pid == owner_pid && s.kind == event_software
        then (do event_notify (some i); pure (pos 0))
        else pure (negsuc 0))
]

unfoldable pub waitobj_signal_source : ℕ → ℤ → M Kernel ℤ
waitobj_signal_source owner_pid (negsuc _) = pure (negsuc 0)
waitobj_signal_source owner_pid (pos source_id) =
    if ltb source_id 1 || ltb max_event_sources source_id then pure (negsuc 0) else (do
      s ← source_at (source_id - 1)
      if s.id == source_id then signal_checked owner_pid (source_id - 1) else pure (negsuc 0))

-- The body of the loop of `waitobj_timer_tick`.
unfoldable pub tick_one : ℕ → ℕ → M Kernel (Unit {0})
tick_one now i = do
  s ← source_at i
  if is_null s.parent || not (s.kind == event_timer)
      then pure tt
      else if not (s.ready == 0)
      then pure tt
      else if leb s.next_fire_tick now
      then event_notify (some i)
      else pure tt

unfoldable pub tick_from : ℕ → ℕ → ℕ → M Kernel (Unit {0})
tick_from zero now i = pure tt
tick_from (suc n) now i = tick_one now i >> tick_from n now (i + 1)

unfoldable pub waitobj_timer_tick : M Kernel (Unit {0})
waitobj_timer_tick = do now ← get_ticks; tick_from max_event_sources now 0

unfoldable pub waitobj_on_timer_irq : M Kernel (Unit {0})
waitobj_on_timer_irq =
    (λ k. some (tt, record k { waitobj_ticks = u32 (k.waitobj_ticks + 1) })) >> waitobj_timer_tick

-- The body of the loop of `waitobj_console_input_notify`.
unfoldable pub console_one : ℕ → M Kernel (Unit {0})
console_one i = do
  s ← source_at i
  if is_null s.parent || not (s.kind == event_keyboard)
      then pure tt
      else if not (s.ready == 0)
      then pure tt
      else event_notify (some i)

unfoldable pub console_from : ℕ → ℕ → M Kernel (Unit {0})
console_from zero i = pure tt
console_from (suc n) i = console_one i >> console_from n (i + 1)

unfoldable pub waitobj_console_input_notify : M Kernel (Unit {0})
waitobj_console_input_notify = console_from max_event_sources 0
