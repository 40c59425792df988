-- ===== src/Trap/Delivery/Handler.antt =====
-- kern/trap/TTrapHandler: `deliver_signal` to a handler of the process, whose stack is in memory.
use advanced_synchronization.Base.{
  ℕ, ◌+◌, ◌-◌, ◌<◌, ◌≤◌, ◌≡◌, ◌≢◌, refl, sym, ap, subst, ◌∙◌, some, lt→ltb, ne→==, num_ids, ◌>>=◌,
  Returns, Returns-bind, Returns-step, arith,
}
use advanced_synchronization.Thread.Tcb.{thread_at, get_curid}
use advanced_synchronization.Fs.Disk.{Volume}
use advanced_synchronization.Fs.Inode.{Files}
use advanced_synchronization.Fs.UserCopy.{Paging}
use advanced_synchronization.Trap.Signal.{nsig}
use advanced_synchronization.Trap.Delivery.{
  TrapFrame, Layout, on_threads, tcb_get_sigaction, tcb_set_signal_context, word_bytes, below,
  trampoline_bytes, push, enter_handler, with_action, deliver_signal,
}
use advanced_synchronization.Trap.Delivery.Stack.{IsStack, Pushed, push-Pushed}
use advanced_synchronization.Trap.Delivery.Pushes.{
  IsBelow, signals_of, running, HandlerStarts, context_set, arg_at, arg_bounds, pushes-Built, Built,
  Built-HandlerStarts, eip_place, esp_place, code_place, arg_addr, Places, places,
}

pub current : (pid : ℕ) (k : Files) → running k ≡ pid → on_threads get_curid k ≡ some (pid, k)
unfolding get_curid
current pid k e = rw e refl

action_found :
    (pid signum : ℕ) (k : Files)
    → pid < num_ids
    → signum < nsig
    → on_threads (tcb_get_sigaction pid signum) k
      ≡ some (some ((signals_of k pid).sigactions signum), k)
unfolding tcb_get_sigaction
action_found pid signum k h valid =
    rw (lt→ltb signum nsig valid, thread_at, lt→ltb pid num_ids h) refl

abbrev pub running_in : Volume → ℕ
running_in v = v.sched.curid v.sched.pcpu_idx

module _ (paging : Paging) (layout : Layout) (pid lo bound : ℕ) (pte : ℕ → ℕ)
    (st : IsStack paging pid lo bound pte) (locals : IsBelow layout bound) where
  enter_handler-HandlerStarts :
      (signum handler : ℕ) (tf : TrapFrame) (k : Files)
      → pid < num_ids
      → tf.esp ≡ lo + 32
      → Returns
          (λ r k'. HandlerStarts pte pid lo signum handler tf r k k')
          (enter_handler paging layout pid signum handler tf k)
  unfolding enter_handler
  enter_handler-HandlerStarts signum handler tf k h top =
      Returns-bind _ _ (push paging pid (eip_place tf.esp) layout.orig_eip 4 (word_bytes tf.eip)) _
        k
        (push-Pushed paging pid lo bound pte st 28 4 (eip_place tf.esp) layout.orig_eip
          (word_bytes tf.eip) k at.first (omega arith) locals.orig_eip)
        λ _ k1 p1.
          Returns-bind _ _
            (push paging pid (esp_place tf.esp) layout.orig_esp 4 (word_bytes tf.esp)) _ k1
            (push-Pushed paging pid lo bound pte st 24 4 (esp_place tf.esp) layout.orig_esp
              (word_bytes tf.esp) k1 at.second (omega arith) locals.orig_esp)
            λ _ k2 p2.
              Returns-bind _ _
                (push paging pid (code_place tf.esp) layout.trampoline 12 trampoline_bytes) _ k2
                (push-Pushed paging pid lo bound pte st 12 12 (code_place tf.esp) layout.trampoline
                  trampoline_bytes k2 at.third (omega arith) locals.trampoline)
                λ _ k3 p3.
                  Returns-bind _ _
                    (push paging pid (arg_addr tf.esp) layout.sig_arg 4 (word_bytes signum)) _ k3
                    (push-Pushed paging pid lo bound pte st arg 4 (arg_addr tf.esp) layout.sig_arg
                      (word_bytes signum) k3 at.fourth (omega (arith, bounds.1)) locals.sig_arg)
                    λ _ k4 p4.
                      Returns-bind _ _
                        (push paging pid (below (arg_addr tf.esp) 4) layout.trampoline_addr 4
                          (word_bytes (code_place tf.esp)))
                        _ k4
                        (push-Pushed paging pid lo bound pte st (arg - 4) 4
                          (below (arg_addr tf.esp) 4) layout.trampoline_addr
                          (word_bytes (code_place tf.esp)) k4 at.fifth (omega (arith, bounds.1))
                          locals.trampoline_addr)
                        λ _ k5 p5.
                          Returns-bind _ _
                            (on_threads
                              (tcb_set_signal_context pid (esp_place tf.esp) (eip_place tf.esp)))
                            _ k5 (context_set pid (esp_place tf.esp) (eip_place tf.esp) k5 h)
                            λ _ k6 c.
                              Built-HandlerStarts paging layout pid lo bound pte st locals signum
                                handler tf
                                (record tf { esp = below (arg_addr tf.esp) 4; eip = handler }) k k6
                                (subst (Built paging layout pid lo bound pte st locals signum tf)
                                  (sym c.0)
                                  (pushes-Built paging layout pid lo bound pte st locals signum tf k
                                    k1 k2 k3 k4 k5 p1 p2 p3 p4
                                    (subst
                                      (λ v. Pushed pte lo (arg_at lo - 4) 4 (word_bytes v) k4 k5)
                                      at.third p5)))
                                refl refl at.fifth (c.1 ∙ at.second) (c.2 ∙ at.first)
                                (c.3 ∙ ap running_in (p5.vol ∙ p4.vol ∙ p3.vol ∙ p2.vol ∙ p1.vol))
    where
      arg : ℕ
      arg = arg_at lo

      bounds : (5 ≤ arg) × (arg ≤ 8)
      bounds = arg_bounds lo

      at : Places lo tf.esp
      at = places paging layout pid lo bound pte st locals tf.esp top

  -- For a signal with a handler, and a user stack whose 32 bytes below `esp` lie in present pages, each
  -- at a physical address of its own above the kernel's variables, `deliver_signal` returns with the handler as the program counter and the other registers
  -- kept; at the new `esp` stand the address of the trampoline and the signal number, the trampoline's
  -- code is in place, and the old `esp` and `eip` are on the stack at the addresses that the thread
  -- table records for `sys_sigreturn`.
  pub deliver_signal-HandlerStarts :
      (signum : ℕ) (tf : TrapFrame) (k : Files)
      → pid < num_ids
      → signum < nsig
      → running k ≡ pid
      → ((signals_of k pid).sigactions signum).sa_handler ≢ 0
      → tf.esp ≡ lo + 32
      → Returns
          (λ r k'.
            HandlerStarts pte pid lo signum
              ((signals_of k pid).sigactions signum).sa_handler
              tf
              r
              k
              k')
          (deliver_signal paging layout signum tf k)
  unfolding deliver_signal with_action
  deliver_signal-HandlerStarts signum tf k h valid cur some_handler top =
      Returns-step _ (on_threads get_curid)
        (λ pid.
          on_threads (tcb_get_sigaction pid signum) >>= with_action paging layout pid signum tf)
        k k pid (current pid k cur)
        (Returns-step _ (on_threads (tcb_get_sigaction pid signum))
          (with_action paging layout pid signum tf) k k
          (some ((signals_of k pid).sigactions signum)) (action_found pid signum k h valid)
          (rw (ne→== ((signals_of k pid).sigactions signum).sa_handler 0 some_handler) (
            enter_handler-HandlerStarts signum ((signals_of k pid).sigactions signum).sa_handler tf
              k h top)))
