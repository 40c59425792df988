-- ===== src/Waitobj/Outcomes.antt =====
-- What a call of `waitobj_wait` comes to, for each of its ways out.
use advanced_synchronization.Base.{
  ℕ, ◌+◌, ◌<◌, ◌≤◌, ◌≡◌, ◌≢◌, ◌⊎◌, inl, inr, refl, ◌∙◌, none, some, List, ◌∷◌, true, not, In, NotIn,
  In-cases, subst, ◌==◌, update, u32, arith, pos, negsuc, Returns, Returns-bind, M, ◌>>=◌, ◌>>◌,
  pure,
}
use advanced_synchronization.Spinlock.{Spinlock, IsFree}
use advanced_synchronization.Thread.Scheduler.{thread_sleep}
use advanced_synchronization.Thread.Scheduler.Invariant.{current, IsScheduled}
use advanced_synchronization.Thread.Scheduler.Sleep.{Slept, sleep_switches}
use advanced_synchronization.Thread.Tcb.{Sched}
use advanced_synchronization.Waitobj.State.{
  Kernel, EventSource, max_wait_objects, event_timer, wobj_addr, on_sched, with_sched-Returns,
  write_object,
}
use advanced_synchronization.Waitobj.Pool.{get_wo}
use advanced_synchronization.Waitobj.Chain.{
  first_ready, reset_timers, reset_timers-In, reset_timers_out,
}
use advanced_synchronization.Waitobj.Delivery.{
  HasSources, pass_delivers, pass_times_out, pass_sleeps,
}
use advanced_synchronization.Waitobj.Wait.{WaitResult, returned, blocked, wait_pass, waitobj_wait}

-- The object `w` is in use, belongs to `owner`, is not locked, and its list is `xs`.
pub record IsOwned (k : Kernel) (owner w : ℕ) (xs : List ℕ) : Type 0 where
  pub sources : HasSources k w xs
  pub used : (k.wobjs w).in_use ≢ 0
  pub owned : (k.wobjs w).owner_pid ≡ owner
  pub unlocked : IsFree (k.wobjs w).lk

-- The kernel with the lock of `w` taken.
abbrev holding : Kernel → ℕ → Kernel
holding k w = record k {
  wobjs =
      update k.wobjs w
        (record (k.wobjs w) { lk = record { lock_holder = k.sched.pcpu_idx; lock = 1 } });
}

pub get_wo-used :
    (k : Kernel) (w : ℕ)
    → w < max_wait_objects
    → (k.wobjs w).in_use ≢ 0
    → get_wo (pos w) k ≡ some (some w, k)
unfolding get_wo
get_wo-used k w h u = ground arith

-- A call into the scheduler whose lock result is stored in the object.
abbrev locking : ℕ → M Sched Spinlock → M Kernel WaitResult
locking w m = do lk ← on_sched m; write_object w (λ o. record o { lk = lk }); pure blocked

store-eq :
    (k : Kernel) (w : ℕ) (lk : Spinlock) (s : Sched)
    → w < max_wait_objects
    → (write_object w (λ o. record o { lk = lk }) >> pure blocked) (record k { sched = s })
      ≡ some (
        blocked,
        record (record k { sched = s }) {
          wobjs = update k.wobjs w (record (k.wobjs w) { lk = lk });
        },
      )
store-eq k w lk s h = ground (arith, h)

locking-Returns :
    (k : Kernel) (w : ℕ) (m : M Sched Spinlock) (P : Spinlock → Sched → Type 0)
    (Q : WaitResult → Kernel → Type 0)
    → w < max_wait_objects
    → Returns P (m k.sched)
    → ((lk : Spinlock) (s : Sched)
        → P lk s
        → Q blocked (record (record k { sched = s }) {
          wobjs = update k.wobjs w (record (k.wobjs w) { lk = lk });
        }))
    → Returns Q (locking w m k)
locking-Returns k w m P Q h r q =
    Returns-bind
      (λ lk k'. Returns Q ((write_object w (λ o. record o { lk = lk }) >> pure blocked) k')) Q
      (on_sched m) (λ lk. write_object w (λ o. record o { lk = lk }) >> pure blocked) k
      (with_sched-Returns k P _ (m k.sched) r (λ lk s p. rw (store-eq k w lk s h) (q lk s p)))
      (λ lk k' d. d)

module _ (k : Kernel) (owner w : ℕ) (xs : List ℕ) (i : IsOwned k owner w xs) where
  held : HasSources (holding k w) w xs
  held = record {
    object_lt = i.sources.object_lt;
    chain = ground (arith, i.sources.chain);
    distinct = i.sources.distinct;
    parents = i.sources.parents;
  }

  wait-eq :
      (timeout_ms : ℕ)
      → waitobj_wait owner (pos w) timeout_ms k
        ≡ wait_pass w (not (timeout_ms == 0)) (u32 (k.waitobj_ticks + timeout_ms)) (holding k w)
  unfolding waitobj_wait
  wait-eq t =
      ground (
        arith,
        get_wo-used k w i.sources.object_lt i.used,
        i.sources.object_lt,
        i.owned,
        i.unlocked,
      )

  pub record DeliveredTo (s : ℕ) (k' : Kernel) : Type 0 where
    pub cleared : (k'.esrc s).ready ≡ 0
    pub timers :
        (a : ℕ)
        → In a xs
        → (k.esrc a).kind ≡ event_timer
        → ((k'.esrc a).ready ≡ 0)
          × ((k'.esrc a).next_fire_tick ≡ u32 (k.waitobj_ticks + (k.esrc a).period_ms))
    pub others :
        (a : ℕ) → a ≢ s → (NotIn a xs ⊎ ((k.esrc a).kind ≢ event_timer)) → k'.esrc a ≡ k.esrc a
    pub same_sched : k'.sched ≡ k.sched
    pub same_ticks : k'.waitobj_ticks ≡ k.waitobj_ticks
    pub unlocked : IsFree (k'.wobjs w).lk

  -- On an object that is in use, belongs to the caller and is not locked, with `s` the first ready
  -- source of its list: `waitobj_wait` returns 0 at once, whatever the timeout is, and stores the id
  -- of `s`. Then `s` is not ready; every timer of the list is not ready and fires its period from now;
  -- the other sources that are no timers or stand in other lists, the scheduler and the ticks are as
  -- before; and the object is not locked.
  pub wait_delivers :
      (s timeout_ms : ℕ)
      → first_ready k.esrc xs ≡ some s
      → Returns
          (λ r k'. (r ≡ returned (pos 0) (some (pos (k.esrc s).id))) × DeliveredTo s k')
          (waitobj_wait owner (pos w) timeout_ms k)
  wait_delivers s t f =
      rw
        (
          wait-eq t,
          pass_delivers (holding k w) w xs held s (not (t == 0)) (u32 (k.waitobj_ticks + t)) f,
        )
        (
          refl,
          record {
            cleared = cleared;
            timers = λ a m e.
                rw (reset_timers-In k.waitobj_ticks xs after a i.sources.distinct m) (ground arith);
            others = λ a ne o. elim o [
              | inl n ↦ reset_timers_out k.waitobj_ticks xs after a n ∙ ground arith
              | inr e ↦ elim (In-cases a xs) [
                | inl m ↦
                    reset_timers-In k.waitobj_ticks xs after a i.sources.distinct m ∙ ground arith
                | inr n ↦ reset_timers_out k.waitobj_ticks xs after a n ∙ ground arith
              ]
            ];
            same_sched = refl;
            same_ticks = refl;
            unlocked = ground arith;
          },
        )
    where
      after : ℕ → EventSource
      after = update k.esrc s (record (k.esrc s) { ready = 0 })

      cleared : (reset_timers k.waitobj_ticks xs after s).ready ≡ 0
      cleared = elim (In-cases s xs) [
        | inl m ↦
            rw (reset_timers-In k.waitobj_ticks xs after s i.sources.distinct m) (ground arith)
        | inr n ↦ rw (reset_timers_out k.waitobj_ticks xs after s n) (ground arith)
      ]

  -- On an object that is in use, belongs to the caller and is not locked, with no ready source in
  -- its list and a timeout other than 0 whose deadline, the ticks plus the timeout modulo 2 ^ 32,
  -- is not ahead of the ticks, as after a wrap: `waitobj_wait` returns -1 at once and stores -1,
  -- with the scheduler as before and the object not locked.
  pub wait_times_out :
      (timeout_ms : ℕ)
      → first_ready k.esrc xs ≡ none
      → timeout_ms ≢ 0
      → u32 (k.waitobj_ticks + timeout_ms) ≤ k.waitobj_ticks
      → Returns
          (λ r k'.
            (r ≡ returned (negsuc 0) (some (negsuc 0)))
            × (k'.sched ≡ k.sched)
            × IsFree (k'.wobjs w).lk)
          (waitobj_wait owner (pos w) timeout_ms k)
  wait_times_out t f ne late =
      let timed : not (t == 0) ≡ true = ground arith in
      rw
        (
          wait-eq t,
          timed,
          pass_times_out (holding k w) w xs held (u32 (k.waitobj_ticks + t)) f late,
        )
        (refl, refl, ground arith)

  -- On an object that is in use, belongs to the caller and is not locked, with no ready source in
  -- its list, without a timeout or with a deadline ahead of the ticks, and with the caller
  -- running, a thread `y` first in the ready queue and `ys` behind it: `waitobj_wait` gets to the
  -- switch; the caller sleeps on the address of the object with the object's lock released, `y`
  -- runs and `ys` wait in their order, and no source has changed.
  pub wait_sleeps :
      (timeout_ms y : ℕ) (ys : List ℕ)
      → first_ready k.esrc xs ≡ none
      → (timeout_ms ≡ 0) ⊎ (k.waitobj_ticks < u32 (k.waitobj_ticks + timeout_ms))
      → IsScheduled k.sched (y ∷ ys)
      → Returns
          (λ r k'.
            (r ≡ blocked)
            × Slept k'.sched (current k.sched) (wobj_addr k w) (k'.wobjs w).lk y ys
            × ((a : ℕ) → k'.esrc a ≡ k.esrc a))
          (waitobj_wait owner (pos w) timeout_ms k)
  wait_sleeps t y ys f early sch =
      rw
        (
          wait-eq t,
          pass_sleeps (holding k w) w xs held (not (t == 0)) (u32 (k.waitobj_ticks + t)) f
              (elim early [ inl z ↦ inl (ground arith) | inr l ↦ inr l ]),
        )
        (locking-Returns (holding k w) w (thread_sleep (wobj_addr k w) ((holding k w).wobjs w).lk)
          (λ lk s. Slept s (current k.sched) (wobj_addr k w) lk y ys) _ i.sources.object_lt
          (sleep_switches k.sched y ys sch (wobj_addr k w) ((holding k w).wobjs w).lk)
          (λ lk s p. (
            refl,
            subst (λ l. Slept s (current k.sched) (wobj_addr k w) l y ys) (ground arith) p,
            λ a. refl,
          )))
