-- ===== src/Trap/Delivery/Pending.antt =====
-- kern/trap/TTrapHandler: the choice of `handle_pending_signals` among the pending signals.
use advanced_synchronization.Base.{
  ℕ, zero, suc, ◌+◌, ◌-◌, ◌<◌, ◌≤◌, ◌≡◌, ◌≢◌, refl, ap, ◌∙◌, run-step, inl, inr, true, false, none,
  some, ◌==◌, Bool-cases, lt→ltb, ne→==, ==→eq, update, if◌then◌else◌, num_ids, pure, ◌>>=◌, arith,
}
use advanced_synchronization.Bits.{test_bit, clear_bit}
use advanced_synchronization.Thread.Tcb.{thread_at, write_thread, get_curid}
use advanced_synchronization.Fs.Inode.{Files, done}
use advanced_synchronization.Fs.UserCopy.{Paging}
use advanced_synchronization.Trap.Signal.{
  nsig, sigkill, tcb_get_pending_signals, tcb_clear_pending_signal,
}
use advanced_synchronization.Trap.Delivery.{
  TrapFrame, Layout, on_threads, find_pending, take_signal, deliver_signal, handle_pending_signals,
}
use advanced_synchronization.Trap.Delivery.Pushes.{signals_of, running}
use advanced_synchronization.Trap.Delivery.Handler.{current}

find_pending-lowest :
    (n s w i : ℕ)
    → s ≤ i
    → i < s + n
    → test_bit w i ≡ true
    → ((j : ℕ) → s ≤ j → j < i → test_bit w j ≡ false)
    → find_pending n s w ≡ some i
unfolding find_pending
find_pending-lowest zero s w i a b set unset = absurd (omega (arith, a, b))
find_pending-lowest (suc n) s w i a b set unset = elim (Bool-cases (s == i)) [
  | inl e ↦ rw (==→eq s i e, set) refl
  | inr e ↦ rw (unset s (omega arith) (ground (arith, e, a))) (
      find_pending-lowest n (s + 1) w i (ground (arith, e, a)) (omega (arith, b)) set
        (λ j l h. unset j (omega (arith, l)) h))
]

find_pending-none :
    (n s w : ℕ) → ((j : ℕ) → s ≤ j → j < s + n → test_bit w j ≡ false) → find_pending n s w ≡ none
unfolding find_pending
find_pending-none zero s w h = refl
find_pending-none (suc n) s w h =
    rw (h s (omega arith) (omega arith))
      (find_pending-none n (s + 1) w (λ j a b. h j (omega (arith, a)) (omega (arith, b))))

pending_got :
    (pid : ℕ) (k : Files)
    → pid < num_ids
    → on_threads (tcb_get_pending_signals pid) k ≡ some ((signals_of k pid).pending_signals, k)
unfolding tcb_get_pending_signals
pending_got pid k h = rw (thread_at, lt→ltb pid num_ids h) refl

-- The state with one signal of the thread no longer pending.
abbrev pub without_pending : ℕ → ℕ → Files → Files
without_pending pid signum k = record k {
  vol = record k.vol {
    sched = record k.vol.sched {
      tcb_pool = update k.vol.sched.tcb_pool pid (record (k.vol.sched.tcb_pool pid) {
        sigstate = record (signals_of k pid) {
          pending_signals = clear_bit (signals_of k pid).pending_signals signum;
        };
      });
    };
  };
}

pending_cleared :
    (pid signum : ℕ) (k : Files)
    → pid < num_ids
    → signum < nsig
    → on_threads (tcb_clear_pending_signal pid signum) k ≡ some (tt, without_pending pid signum k)
unfolding tcb_clear_pending_signal
pending_cleared pid signum k h valid =
    rw (lt→ltb signum nsig valid, on_threads, write_thread, lt→ltb pid num_ids h) refl

module _ (paging : Paging) (layout : Layout) where
  handled :
      (tf : TrapFrame) (pid : ℕ) (k : Files)
      → pid < num_ids
      → running k ≡ pid
      → handle_pending_signals paging layout tf k
        ≡ take_signal paging layout pid tf
            (find_pending (nsig - 1) 1 (signals_of k pid).pending_signals)
            k
  unfolding handle_pending_signals
  handled tf pid k h cur =
      run-step (on_threads get_curid)
        (λ pid. on_threads (tcb_get_pending_signals pid) >>= λ w.
          take_signal paging layout pid tf (find_pending (nsig - 1) 1 w))
        k k pid (current pid k cur)
      ∙ run-step (on_threads (tcb_get_pending_signals pid))
          (λ w. take_signal paging layout pid tf (find_pending (nsig - 1) 1 w)) k k
          (signals_of k pid).pending_signals (pending_got pid k h)

  -- Of the pending signals of the thread that runs, `handle_pending_signals` takes the one with the
  -- lowest number from 1 on: unless that is SIGKILL, it is no longer pending and is delivered, the
  -- others stay pending. With no signal pending the frame and the state stay as they are.
  pub lowest_first :
      (tf : TrapFrame) (pid signum : ℕ) (k : Files)
      → pid < num_ids
      → running k ≡ pid
      → 1 ≤ signum
      → signum < nsig
      → signum ≢ sigkill
      → ((test_bit (signals_of k pid).pending_signals signum ≡ true)
          → ((j : ℕ) → 1 ≤ j → j < signum → test_bit (signals_of k pid).pending_signals j ≡ false)
          → handle_pending_signals paging layout tf k
            ≡ (deliver_signal paging layout signum tf >>= λ tf'. pure (done tf'))
                (without_pending pid signum k))
        × (((j : ℕ) → 1 ≤ j → j < nsig → test_bit (signals_of k pid).pending_signals j ≡ false)
            → handle_pending_signals paging layout tf k ≡ some (done tf, k))
  unfolding take_signal
  lowest_first tf pid signum k h cur low valid other = (
    λ set unset.
        handled tf pid k h cur
        ∙ ap (λ r. take_signal paging layout pid tf r k)
            (find_pending-lowest (nsig - 1) 1 _ signum low (omega (arith, valid)) set unset)
        ∙ run-step (on_threads (tcb_clear_pending_signal pid signum))
            (λ _.
              if signum == sigkill
              then _
              else (deliver_signal paging layout signum tf >>= λ tf'. pure (done tf')))
            k (without_pending pid signum k) tt (pending_cleared pid signum k h valid)
        ∙ rw (ne→== signum sigkill other) refl,
    λ unset.
        handled tf pid k h cur
        ∙ ap (λ r. take_signal paging layout pid tf r k)
            (find_pending-none (nsig - 1) 1 _ (λ j a b. unset j a (omega (arith, b)))),
  )
