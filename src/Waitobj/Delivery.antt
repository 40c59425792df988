-- ===== src/Waitobj/Delivery.antt =====
-- `waitobj_wait`: the errors, the delivery of the first ready source, the timeout, the sleep.
use advanced_synchronization.Base.{
  ℕ, ◌+◌, ◌<◌, ◌≤◌, ◌≡◌, Option, none, some, List, [], ◌∷◌, Bool, true, false, ◌⊎◌, In, Distinct,
  length, length-le_of_Distinct, update, arith, pos, negsuc, inl, inr, ◌>>=◌, ◌>>◌, pure,
}
use advanced_synchronization.Thread.Scheduler.{thread_sleep}
use advanced_synchronization.Waitobj.State.{
  Kernel, EventSource, max_wait_objects, max_event_sources, wobj_addr, on_sched, write_object,
}
use advanced_synchronization.Waitobj.Chain.{
  Chain, Chain-cong, first_ready, first_ready_from_lem, first_ready-lt, reset_timers,
  reschedule_from_lem,
}
use advanced_synchronization.Waitobj.Wait.{
  returned, blocked, first_ready_source, reschedule_all_timer_sources, wait_pass,
}

-- The sources of the object `w` are `xs`, in the order of its list.
pub record HasSources (k : Kernel) (w : ℕ) (xs : List ℕ) : Type 0 where
  pub object_lt : w < max_wait_objects
  pub chain : Chain k.esrc (k.wobjs w).sources xs
  pub distinct : Distinct xs
  pub parents : (a : ℕ) → In a xs → (k.esrc a).parent ≡ some w

pub Chain-lt :
    (e : ℕ → EventSource) (p : Option ℕ) (xs : List ℕ) (a : ℕ)
    → Chain e p xs
    → In a xs
    → a < max_event_sources
Chain-lt e p [] a c m = absurd m
Chain-lt e p (x ∷ xs) a c (inl i) = rw i c.1
Chain-lt e p (x ∷ xs) a c (inr m) = Chain-lt e (e x).next xs a c.2 m

-- The fuel of the two walks is enough.
pub sources-length :
    (k : Kernel) (w : ℕ) (xs : List ℕ) → HasSources k w xs → length xs ≤ max_event_sources
sources-length k w xs h =
    length-le_of_Distinct max_event_sources xs h.distinct
      (λ a m. Chain-lt k.esrc (k.wobjs w).sources xs a h.chain m)

first_ready_source_lem :
    (k : Kernel) (w : ℕ) (xs : List ℕ)
    → HasSources k w xs
    → first_ready_source w k ≡ some (first_ready k.esrc xs, k)
unfolding first_ready_source
first_ready_source_lem k w xs h = ground (
  arith,
  h.object_lt,
  first_ready_from_lem (max_event_sources + 1) k (k.wobjs w).sources xs h.chain,
  sources-length k w xs h,
)

reschedule_all-eq :
    (w : ℕ) (k : Kernel) (xs : List ℕ)
    → w < max_wait_objects
    → Chain k.esrc (k.wobjs w).sources xs
    → length xs ≤ max_event_sources
    → reschedule_all_timer_sources w k
      ≡ some (tt, record k { esrc = reset_timers k.waitobj_ticks xs k.esrc })
unfolding reschedule_all_timer_sources
reschedule_all-eq w k xs h c l = ground (
  arith,
  h,
  reschedule_from_lem (max_event_sources + 1) k k.waitobj_ticks (k.wobjs w).sources xs c
      (omega arith),
)

-- The kernel once the source `i` was delivered to a waiter on `w`.
abbrev pub delivered : Kernel → ℕ → List ℕ → ℕ → Kernel
delivered k w xs i =
    record (record k {
      esrc = reset_timers k.waitobj_ticks xs (update k.esrc i (record (k.esrc i) { ready = 0 }));
    }) {
      wobjs = update k.wobjs w (record (k.wobjs w) { lk = record { lock_holder = 9; lock = 0 } });
    }

module _ (k : Kernel) (w : ℕ) (xs : List ℕ) (h : HasSources k w xs) where
  pub pass_delivers :
      (i : ℕ) (use_timeout : Bool) (deadline : ℕ)
      → first_ready k.esrc xs ≡ some i
      → wait_pass w use_timeout deadline k
        ≡ some (returned (pos 0) (some (pos (k.esrc i).id)), delivered k w xs i)
  unfolding wait_pass
  pass_delivers i t d f = ground (
    arith,
    first_ready_source_lem k w xs h,
    f,
    h.object_lt,
    first_ready-lt k.esrc (k.wobjs w).sources xs i h.chain f,
    rescheduled,
  )
    where
      cleared : Kernel
      cleared = record k { esrc = update k.esrc i (record (k.esrc i) { ready = 0 }) }

      rescheduled :
          reschedule_all_timer_sources w cleared
          ≡ some (tt, record cleared { esrc = reset_timers k.waitobj_ticks xs cleared.esrc })
      rescheduled =
          reschedule_all-eq w cleared xs h.object_lt
            (Chain-cong k.esrc cleared.esrc (k.wobjs w).sources xs (λ a _. same_next a) h.chain)
            (sources-length k w xs h)
        where
          same_next : (a : ℕ) → (cleared.esrc a).next ≡ (k.esrc a).next
          same_next a = ground arith

  pub pass_times_out :
      (deadline : ℕ)
      → first_ready k.esrc xs ≡ none
      → deadline ≤ k.waitobj_ticks
      → wait_pass w true deadline k
        ≡ some (
          returned (negsuc 0) (some (negsuc 0)),
          record k {
            wobjs =
                update k.wobjs w (record (k.wobjs w) { lk = record { lock_holder = 9; lock = 0 } });
          },
        )
  unfolding wait_pass
  pass_times_out d f late = ground (arith, first_ready_source_lem k w xs h, f, h.object_lt)

  pub pass_sleeps :
      (use_timeout : Bool) (deadline : ℕ)
      → first_ready k.esrc xs ≡ none
      → (use_timeout ≡ false) ⊎ (k.waitobj_ticks < deadline)
      → wait_pass w use_timeout deadline k
        ≡ (do
          lk ← on_sched (thread_sleep (wobj_addr k w) (k.wobjs w).lk)
          write_object w (λ o. record o { lk = lk })
          pure blocked)
            k
  unfolding wait_pass
  pass_sleeps t d f early = ground (arith, first_ready_source_lem k w xs h, f, h.object_lt)
