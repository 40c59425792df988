-- ===== src/Waitobj/Wait.antt =====
-- kern/sync/waitobj.c: waiting on an object, the timers' reset, the order of delivery.
use advanced_synchronization.Base.{
  ℕ, zero, suc, ◌+◌, Bool, Option, none, some, ◌==◌, leb, if◌then◌else◌, ◌&&◌, not, u32, ℤ, pos,
  negsuc, M, pure, stop, ◌>>=◌, ◌>>◌,
}
use advanced_synchronization.Thread.Scheduler.{thread_sleep, thread_sleep_resumed}
use advanced_synchronization.Waitobj.Pool.{get_wo}
use advanced_synchronization.Waitobj.State.{
  Kernel, max_event_sources, event_timer, source_at, write_source, object_at, write_object,
  on_sched, wobj_addr, get_ticks, acquire_object, release_object,
}

-- The list of sources from `p` on; the fuel is more than the pool has entries.
unfoldable pub first_ready_from : ℕ → Option ℕ → M Kernel (Option ℕ)
first_ready_from zero p = stop
first_ready_from (suc n) none = pure none
first_ready_from (suc n) (some i) = source_at i >>= λ e.
    let rest = first_ready_from n e.next in if e.ready == 0 then rest else pure (some i)

unfoldable pub first_ready_source : ℕ → M Kernel (Option ℕ)
first_ready_source w = object_at w >>= λ o. first_ready_from (max_event_sources + 1) o.sources

unfoldable pub reschedule_from : ℕ → ℕ → Option ℕ → M Kernel (Unit {0})
reschedule_from zero now p = stop
reschedule_from (suc n) now none = pure tt
reschedule_from (suc n) now (some i) = do
  e ← source_at i
  if e.kind == event_timer
      then write_source i (λ e'. record e' { ready = 0; next_fire_tick = u32 (now + e'.period_ms) })
      else pure tt
  reschedule_from n now e.next

unfoldable pub reschedule_all_timer_sources : ℕ → M Kernel (Unit {0})
reschedule_all_timer_sources w = do
  now ← get_ticks
  o ← object_at w
  reschedule_from (max_event_sources + 1) now o.sources

-- What a pass of `waitobj_wait` comes to: a return with the code and what is stored in
-- `*out_src_id`, or the switch to another thread.
pub data WaitResult : Type 0 where
  returned : ℤ → Option ℤ → WaitResult
  blocked : WaitResult

-- One pass of the loop of `waitobj_wait`, the lock held.
unfoldable pub wait_pass : ℕ → Bool → ℕ → M Kernel WaitResult
unfolding release_object
wait_pass w use_timeout deadline = first_ready_source w >>= λ found. elim found [
  | some i ↦ (do
    e ← source_at i
    write_source i (λ e'. record e' { ready = 0 })
    reschedule_all_timer_sources w
    release_object w
    pure (returned (pos 0) (some (pos e.id))))
  | none ↦ (do
    now ← get_ticks
    if use_timeout && leb deadline now
        then (do release_object w; pure (returned (negsuc 0) (some (negsuc 0))))
        else (λ k.
            (do
              lk ← on_sched (thread_sleep (wobj_addr k w) (k.wobjs w).lk)
              write_object w (λ o. record o { lk = lk })
              pure blocked)
              k))
]

unfoldable pub waitobj_wait : ℕ → ℤ → ℕ → M Kernel WaitResult
unfolding acquire_object
waitobj_wait owner_pid wid timeout_ms = get_wo wid >>= λ wo. elim wo [
  | none ↦ pure (returned (negsuc 1) none)
  | some w ↦ (do
    o ← object_at w
    if o.owner_pid == owner_pid
        then (do
          now ← get_ticks
          acquire_object w
          wait_pass w (not (timeout_ms == 0)) (u32 (now + timeout_ms)))
        else pure (returned (negsuc 1) none))
]

-- The thread `pid` runs again after the switch, and goes round the loop.
unfoldable pub waitobj_wait_resumed : ℕ → ℕ → Bool → ℕ → M Kernel WaitResult
waitobj_wait_resumed pid w use_timeout deadline = do
  o ← object_at w
  lk ← on_sched (thread_sleep_resumed pid o.lk)
  write_object w (λ o'. record o' { lk = lk })
  wait_pass w use_timeout deadline
