-- ===== src/Trap/Delivery/Return.antt =====
-- kern/trap/TSyscall: `sys_sigreturn` after a handler.
use advanced_synchronization.Base.{
  ℕ, ◌+◌, ◌*◌, ◌%◌, ◌^◌, ◌<◌, ◌≤◌, ◌≡◌, ◌≢◌, refl, sym, ap, subst, ◌∙◌, ◌⊎◌, inl, inr, some, lt→ltb,
  ne→==, eq→==, num_ids, ◌>>=◌, Returns, Returns-bind, Returns-step, arith,
}
use advanced_synchronization.Thread.Tcb.{thread_at, get_curid}
use advanced_synchronization.Fs.Inode.{Files}
use advanced_synchronization.Fs.UserCopy.{Paging, pt_copyin}
use advanced_synchronization.Fs.UserCopy.Mapped.{phys}
use advanced_synchronization.Trap.Frame.{syscall_set_errno, e_succ}
use advanced_synchronization.Trap.Signal.{nsig}
use advanced_synchronization.Trap.Delivery.{
  TrapFrame, Layout, on_threads, tcb_get_signal_context, tcb_clear_signal_context, word_bytes,
  restore_context, read_eip, read_context, deliver_signal, sys_sigreturn,
}
use advanced_synchronization.Trap.Delivery.Stack.{IsStack, pull-Pulled}
use advanced_synchronization.Trap.Delivery.Pushes.{IsBelow, signals_of, running, HasWord, IsSaved}
use advanced_synchronization.Trap.Delivery.Handler.{
  running_in, current, deliver_signal-HandlerStarts,
}

word_of :
    (m : ℕ → ℕ) (a v : ℕ)
    → v < 2 ^ 32
    → ((i : ℕ) → i < 4 → m (a + i) ≡ word_bytes v i)
    → m a + 256 * m (a + 1) + 65536 * m (a + 2) + 16777216 * m (a + 3) ≡ v
word_of m a v h bytes = omega (arith, h, first, bytes 1, bytes 2, bytes 3)
  where
    first : m a ≡ v % 256
    first = subst (λ t. m t ≡ v % 256) (omega arith) (bytes 0 (omega arith) ∙ omega arith)

-- The context is gone.
pub record IsCleared (pid : ℕ) (k : Files) : Type 0 where
  pub esp_addr : (signals_of k pid).saved_esp_addr ≡ 0
  pub eip_addr : (signals_of k pid).saved_eip_addr ≡ 0
  pub outside : (signals_of k pid).in_signal_handler ≡ 0

context_got :
    (pid : ℕ) (k : Files)
    → pid < num_ids
    → on_threads (tcb_get_signal_context pid) k
      ≡ some (((signals_of k pid).saved_esp_addr, (signals_of k pid).saved_eip_addr), k)
unfolding tcb_get_signal_context
context_got pid k h = rw (thread_at, lt→ltb pid num_ids h) refl

context-IsCleared :
    (pid : ℕ) (k : Files)
    → pid < num_ids
    → Returns
        (λ _ k'. (k'.mem ≡ k.mem) × IsCleared pid k')
        (on_threads (tcb_clear_signal_context pid) k)
unfolding tcb_clear_signal_context
context-IsCleared pid k h = rw (lt→ltb pid num_ids h) (
  refl,
  record {
    esp_addr = rw (signals_of, eq→== pid pid refl) refl;
    eip_addr = rw (signals_of, eq→== pid pid refl) refl;
    outside = rw (signals_of, eq→== pid pid refl) refl;
  },
)

-- The frame that goes on where the signal came.
abbrev pub resumed : TrapFrame → ℕ → ℕ → TrapFrame
resumed tf esp eip = record tf { esp = esp; eip = eip; regs = syscall_set_errno e_succ tf.regs }

module _ (paging : Paging) (layout : Layout) (pid lo bound : ℕ) (pte : ℕ → ℕ)
    (st : IsStack paging pid lo bound pte) (locals : IsBelow layout bound)
    (apart : (layout.saved_esp + 4 ≤ layout.saved_eip)
      ⊎ (layout.saved_eip + 4 ≤ layout.saved_esp)) where
  restore_context-resumed :
      (tf : TrapFrame) (esp eip : ℕ) (k : Files)
      → pid < num_ids
      → esp < 2 ^ 32
      → eip < 2 ^ 32
      → ((i : ℕ) → i < 4 → k.mem (layout.saved_esp + i) ≡ word_bytes esp i)
      → ((i : ℕ) → i < 4 → k.mem (layout.saved_eip + i) ≡ word_bytes eip i)
      → Returns
          (λ r k'. (r ≡ resumed tf esp eip) × IsCleared pid k')
          (restore_context paging layout pid tf 4 k)
  unfolding restore_context
  restore_context-resumed tf esp eip k h small small' esp_at eip_at =
      Returns-bind _ _ (on_threads (tcb_clear_signal_context pid)) _ k (context-IsCleared pid k h)
        λ _ k' c. (
          rw
              (
                word_of k'.mem layout.saved_esp esp small (λ i l.
                    subst (λ m. m (layout.saved_esp + i) ≡ word_bytes esp i) (sym c.0)
                      (esp_at i l)),
                word_of k'.mem layout.saved_eip eip small' (λ i l.
                    subst (λ m. m (layout.saved_eip + i) ≡ word_bytes eip i) (sym c.0)
                      (eip_at i l)),
              )
              refl,
          c.1,
        )

  read_context-resumed :
      (tf : TrapFrame) (a b esp eip : ℕ) (k : Files)
      → pid < num_ids
      → esp < 2 ^ 32
      → eip < 2 ^ 32
      → a ≡ lo + 24
      → b ≡ lo + 28
      → HasWord pte k (lo + 24) esp
      → HasWord pte k (lo + 28) eip
      → Returns
          (λ r k'. (r ≡ resumed tf esp eip) × IsCleared pid k')
          (read_context paging layout pid tf (a, b) k)
  unfolding read_context read_eip
  read_context-resumed tf a b esp eip k h small small' ea eb esp_at eip_at =
      rw (ne→== a 0 (omega (arith, ea, st.low)), ne→== b 0 (omega (arith, eb, st.low)))
        (Returns-bind _ _ (pt_copyin paging pid a layout.saved_esp 4)
          (read_eip paging layout pid b tf) k
          (pull-Pulled paging pid lo bound pte st 24 a layout.saved_esp k ea (omega arith)
            locals.saved_esp)
          λ n k1 p1. rw p1.0 (
            Returns-bind _ _ (pt_copyin paging pid b layout.saved_eip 4)
              (restore_context paging layout pid tf) k1
              (pull-Pulled paging pid lo bound pte st 28 b layout.saved_eip k1 eb (omega arith)
                locals.saved_eip)
              λ n' k2 p2. rw p2.0 (
                restore_context-resumed tf esp eip k2 h small small'
                  (λ i l.
                    p2.1.unread (layout.saved_esp + i) (beside i l)
                    ∙ p1.1.read i l
                    ∙ subst (λ v. k.mem (phys pte v) ≡ word_bytes esp i) (omega arith) (esp_at i l))
                  (λ i l.
                    p2.1.read i l
                    ∙ p1.1.unread (phys pte (lo + (28 + i))) (
                        inr (omega (arith, locals.saved_esp, st.above (28 + i) (omega (arith, l)))))
                    ∙ subst (λ v. k.mem (phys pte v) ≡ word_bytes eip i) (omega arith)
                        (eip_at i l)))))
    where
      beside :
          (i : ℕ)
          → i < 4
          → (layout.saved_esp + i < layout.saved_eip)
            ⊎ (layout.saved_eip + 4 ≤ layout.saved_esp + i)
      beside i l = elim apart [ inl q ↦ inl (omega (arith, q, l)) | inr q ↦ inr (omega (arith, q)) ]

  -- With the saved `esp` and `eip` in the two words on the stack that the thread table records,
  -- `sys_sigreturn` returns with both back in the frame, the other registers kept but for the error
  -- number, which says success, and the context cleared. The stack is in present, distinct pages.
  pub sys_sigreturn-resumed :
      (tf : TrapFrame) (esp eip : ℕ) (k : Files)
      → pid < num_ids
      → running k ≡ pid
      → esp < 2 ^ 32
      → eip < 2 ^ 32
      → IsSaved pte pid lo esp eip k
      → Returns
          (λ r k'. (r ≡ resumed tf esp eip) × IsCleared pid k')
          (sys_sigreturn paging layout tf k)
  unfolding sys_sigreturn
  sys_sigreturn-resumed tf esp eip k h cur small small' s =
      Returns-step _ (on_threads get_curid)
        (λ pid. on_threads (tcb_get_signal_context pid) >>= read_context paging layout pid tf) k k
        pid (current pid k cur)
        (Returns-step _ (on_threads (tcb_get_signal_context pid))
          (read_context paging layout pid tf) k k
          ((signals_of k pid).saved_esp_addr, (signals_of k pid).saved_eip_addr)
          (context_got pid k h)
          (read_context-resumed tf (signals_of k pid).saved_esp_addr
            (signals_of k pid).saved_eip_addr esp eip k h small small' s.esp_addr s.eip_addr
            s.esp_at s.eip_at))

  -- What the user program does until it calls `sigreturn`: the tables of the kernel stay as they are,
  -- and so do the two words at the top of the stack.
  pub record LeavesContext (user : Files → Files) : Type 0 where
    pub tables : (k : Files) → (user k).vol ≡ k.vol
    pub words :
        (k : Files) (i : ℕ)
        → i < 8
        → (user k).mem (phys pte (lo + 24 + i)) ≡ k.mem (phys pte (lo + 24 + i))

  LeavesContext-IsSaved :
      (user : Files → Files) (esp eip : ℕ) (k : Files)
      → LeavesContext user
      → IsSaved pte pid lo esp eip k
      → IsSaved pte pid lo esp eip (user k)
  LeavesContext-IsSaved user esp eip k u s = record {
    esp_addr = ap (λ v. (v.sched.tcb_pool pid).sigstate.saved_esp_addr) (u.tables k) ∙ s.esp_addr;
    eip_addr = ap (λ v. (v.sched.tcb_pool pid).sigstate.saved_eip_addr) (u.tables k) ∙ s.eip_addr;
    esp_at = λ i l. u.words k i (omega (arith, l)) ∙ s.esp_at i l;
    eip_at = λ i l.
        subst (λ v. (user k).mem (phys pte v) ≡ k.mem (phys pte v)) (omega arith)
          (u.words k (4 + i) (omega (arith, l)))
        ∙ s.eip_at i l;
  }

  -- A signal with a handler, then what the handler does, then `sys_sigreturn`: the process goes on at
  -- the `eip` and with the `esp` that it had when the signal came, and the context is cleared. The
  -- handler may change registers and memory, but neither the two saved words nor the kernel's tables.
  -- The 32 bytes below `esp` must be user memory in present pages, each byte at a physical address of
  -- its own and above the kernel's variables, which the calls use; and the two variables that
  -- `sys_sigreturn` reads into must not overlap. On other stacks a copy may fail, and
  -- `deliver_signal` does not look at its result.
  pub deliver_then_sigreturn :
      (signum : ℕ) (tf tf' : TrapFrame) (k : Files) (user : Files → Files)
      → pid < num_ids
      → signum < nsig
      → running k ≡ pid
      → ((signals_of k pid).sigactions signum).sa_handler ≢ 0
      → tf.esp ≡ lo + 32
      → tf.eip < 2 ^ 32
      → LeavesContext user
      → Returns
          (λ r k'. (r ≡ resumed tf' tf.esp tf.eip) × IsCleared pid k')
          ((deliver_signal paging layout signum tf >>= λ _ k'.
              sys_sigreturn paging layout tf' (user k'))
            k)
  deliver_then_sigreturn signum tf tf' k user h valid cur some_handler top small u =
      Returns-bind _ _ (deliver_signal paging layout signum tf)
        (λ _ k'. sys_sigreturn paging layout tf' (user k')) k
        (deliver_signal-HandlerStarts paging layout pid lo bound pte st locals signum tf k h valid
          cur some_handler top)
        λ r k' s.
          sys_sigreturn-resumed tf' tf.esp tf.eip (user k') h
            (ap running_in (u.tables k') ∙ s.still ∙ cur) (omega (arith, top, st.high)) small
            (LeavesContext-IsSaved user tf.esp tf.eip k' u s.saved)
