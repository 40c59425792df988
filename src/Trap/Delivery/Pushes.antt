-- ===== src/Trap/Delivery/Pushes.antt =====
-- kern/trap/TTrapHandler: the stack that `deliver_signal` builds for a handler, push by push.
use advanced_synchronization.Base.{
  ℕ, ◌+◌, ◌-◌, ◌*◌, ◌/◌, ◌<◌, ◌≤◌, ◌≡◌, refl, ap, subst, ◌∙◌, inr, lt→ltb, eq→==, num_ids, Returns,
  arith,
}
use advanced_synchronization.Thread.Tcb.{SigState}
use advanced_synchronization.Fs.Inode.{Files}
use advanced_synchronization.Fs.UserCopy.{Paging}
use advanced_synchronization.Fs.UserCopy.Mapped.{phys}
use advanced_synchronization.Trap.Delivery.{
  TrapFrame, Layout, on_threads, tcb_set_signal_context, word_bytes, below, trampoline_bytes,
}
use advanced_synchronization.Trap.Delivery.Stack.{IsStack, Pushed}

-- The kernel's variables end at `bound`.
pub record IsBelow (layout : Layout) (bound : ℕ) : Type 0 where
  pub orig_eip : layout.orig_eip + 4 ≤ bound
  pub orig_esp : layout.orig_esp + 4 ≤ bound
  pub trampoline : layout.trampoline + 12 ≤ bound
  pub sig_arg : layout.sig_arg + 4 ≤ bound
  pub trampoline_addr : layout.trampoline_addr + 4 ≤ bound
  pub saved_esp : layout.saved_esp + 4 ≤ bound
  pub saved_eip : layout.saved_eip + 4 ≤ bound

abbrev pub signals_of : Files → ℕ → SigState
signals_of k pid = (k.vol.sched.tcb_pool pid).sigstate

-- The thread that runs.
abbrev pub running : Files → ℕ
running k = k.vol.sched.curid k.vol.sched.pcpu_idx

-- The word at `lo + o` of the user's memory.
abbrev pub HasWord : (ℕ → ℕ) → Files → ℕ → ℕ → Type 0
HasWord pte k va v = (i : ℕ) → i < 4 → k.mem (phys pte (va + i)) ≡ word_bytes v i

-- `sys_sigreturn` can find these in the two words at the top of the stack.
pub record IsSaved (pte : ℕ → ℕ) (pid lo esp eip : ℕ) (k : Files) : Type 0 where
  pub esp_addr : (signals_of k pid).saved_esp_addr ≡ lo + 24
  pub eip_addr : (signals_of k pid).saved_eip_addr ≡ lo + 28
  pub esp_at : HasWord pte k (lo + 24) esp
  pub eip_at : HasWord pte k (lo + 28) eip

-- The handler starts, with its argument, and with the trampoline as the address to return to.
pub record HandlerStarts (pte : ℕ → ℕ) (pid lo signum handler : ℕ) (tf r : TrapFrame)
    (before k : Files) : Type 0 where
  pub eip : r.eip ≡ handler
  pub regs : r.regs ≡ tf.regs
  pub return_addr : HasWord pte k r.esp (lo + 12)
  pub argument : HasWord pte k (r.esp + 4) signum
  pub code : (i : ℕ) → i < 12 → k.mem (phys pte (lo + 12 + i)) ≡ trampoline_bytes i
  pub saved : IsSaved pte pid lo tf.esp tf.eip k
  pub still : running k ≡ running before

pub context_set :
    (pid a b : ℕ) (k : Files)
    → pid < num_ids
    → Returns
        (λ _ k'.
          (k'.mem ≡ k.mem)
          × ((signals_of k' pid).saved_esp_addr ≡ a)
          × ((signals_of k' pid).saved_eip_addr ≡ b)
          × (running k' ≡ running k))
        (on_threads (tcb_set_signal_context pid a b) k)
unfolding tcb_set_signal_context
context_set pid a b k h =
    rw (lt→ltb pid num_ids h) (
      refl,
      rw (signals_of, eq→== pid pid refl) refl,
      rw (signals_of, eq→== pid pid refl) refl,
      refl,
    )

-- The offset on the stack of the argument; the address to return to is below it.
pub arg_at : ℕ → ℕ
arg_at lo = (lo + 12) / 4 * 4 - 4 - lo

pub arg_bounds : (lo : ℕ) → (5 ≤ arg_at lo) × (arg_at lo ≤ 8)
unfolding arg_at
arg_bounds lo = (omega arith, omega arith)

-- The addresses of the pushes.
abbrev pub eip_place : ℕ → ℕ
eip_place esp = below esp 4

abbrev pub esp_place : ℕ → ℕ
esp_place esp = below (eip_place esp) 4

abbrev pub code_place : ℕ → ℕ
code_place esp = below (esp_place esp) 12

abbrev pub arg_addr : ℕ → ℕ
arg_addr esp = below (code_place esp / 4 * 4) 4

pub record Places (lo esp : ℕ) : Type 0 where
  pub first : eip_place esp ≡ lo + 28
  pub second : esp_place esp ≡ lo + 24
  pub third : code_place esp ≡ lo + 12
  pub fourth : arg_addr esp ≡ lo + arg_at lo
  pub fifth : below (arg_addr esp) 4 ≡ lo + (arg_at lo - 4)

module _ (paging : Paging) (layout : Layout) (pid lo bound : ℕ) (pte : ℕ → ℕ)
    (st : IsStack paging pid lo bound pte) (locals : IsBelow layout bound) where
  pub arg_place : below ((lo + 12) / 4 * 4) 4 ≡ lo + arg_at lo
  unfolding arg_at
  arg_place = omega (arith, st.low, st.high)

  pub below_place : (esp o n : ℕ) → esp ≡ lo + (o + n) → o + n ≤ 32 → below esp n ≡ lo + o
  below_place esp o n e le = omega (arith, e, le, st.high)

  -- The memory after the five pushes.
  pub record Built (signum : ℕ) (tf : TrapFrame) (m : ℕ → ℕ) : Type 0 where
    return_at : (i : ℕ) → i < 4 → m (phys pte (lo + (arg_at lo - 4 + i))) ≡ word_bytes (lo + 12) i
    arg : (i : ℕ) → i < 4 → m (phys pte (lo + (arg_at lo + i))) ≡ word_bytes signum i
    code_at : (i : ℕ) → i < 12 → m (phys pte (lo + (12 + i))) ≡ trampoline_bytes i
    esp_kept : (i : ℕ) → i < 4 → m (phys pte (lo + (24 + i))) ≡ word_bytes tf.esp i
    eip_kept : (i : ℕ) → i < 4 → m (phys pte (lo + (28 + i))) ≡ word_bytes tf.eip i

  pub pushes-Built :
      (signum : ℕ) (tf : TrapFrame) (k k1 k2 k3 k4 k5 : Files)
      → Pushed pte lo 28 4 (word_bytes tf.eip) k k1
      → Pushed pte lo 24 4 (word_bytes tf.esp) k1 k2
      → Pushed pte lo 12 12 trampoline_bytes k2 k3
      → Pushed pte lo (arg_at lo) 4 (word_bytes signum) k3 k4
      → Pushed pte lo (arg_at lo - 4) 4 (word_bytes (lo + 12)) k4 k5
      → Built signum tf k5.mem
  pushes-Built signum tf k k1 k2 k3 k4 k5 p1 p2 p3 p4 p5 = record {
    return_at = λ i l. p5.written i l;
    arg = λ i l.
        late (arg_at lo + i) (omega (arith, (arg_bounds lo).1, l))
          (omega (arith, (arg_bounds lo).0))
        ∙ p4.written i l;
    code_at = λ i l. code_kept (12 + i) (omega (arith, l)) (omega arith) ∙ p3.written i l;
    esp_kept = λ i l. top_kept (24 + i) (omega (arith, l)) (omega arith) ∙ p2.written i l;
    eip_kept = λ i l.
        top_kept (28 + i) (omega (arith, l)) (omega arith)
        ∙ p2.kept (28 + i) (omega (arith, l)) (inr (omega arith))
        ∙ p1.written i l;
  }
    where
      late :
          (j : ℕ) → j < 32 → arg_at lo ≤ j → k5.mem (phys pte (lo + j)) ≡ k4.mem (phys pte (lo + j))
      late j l h = p5.kept j l (inr (omega (arith, h, (arg_bounds lo).0)))

      code_kept :
          (j : ℕ) → j < 32 → 12 ≤ j → k5.mem (phys pte (lo + j)) ≡ k3.mem (phys pte (lo + j))
      code_kept j l h =
          late j l (omega (arith, h, (arg_bounds lo).1))
          ∙ p4.kept j l (inr (omega (arith, h, (arg_bounds lo).1)))

      top_kept : (j : ℕ) → j < 32 → 24 ≤ j → k5.mem (phys pte (lo + j)) ≡ k2.mem (phys pte (lo + j))
      top_kept j l h = code_kept j l (omega (arith, h)) ∙ p3.kept j l (inr (omega (arith, h)))

  -- A place by its address.
  at_place :
      (m : ℕ → ℕ) (a o i v : ℕ)
      → a ≡ lo + o
      → m (phys pte (lo + (o + i))) ≡ v
      → m (phys pte (a + i)) ≡ v
  at_place m a o i v e h = subst (λ t. m (phys pte t) ≡ v) (omega (arith, e)) h

  pub Built-HandlerStarts :
      (signum handler : ℕ) (tf r : TrapFrame) (before k : Files)
      → Built signum tf k.mem
      → r.eip ≡ handler
      → r.regs ≡ tf.regs
      → r.esp ≡ lo + (arg_at lo - 4)
      → (signals_of k pid).saved_esp_addr ≡ lo + 24
      → (signals_of k pid).saved_eip_addr ≡ lo + 28
      → running k ≡ running before
      → HandlerStarts pte pid lo signum handler tf r before k
  Built-HandlerStarts signum handler tf r before k b eip regs esp esp_addr eip_addr still = record {
    still = still;
    eip = eip;
    regs = regs;
    return_addr = λ i l. at_place k.mem r.esp (arg_at lo - 4) i _ esp (b.return_at i l);
    argument = λ i l.
        at_place k.mem (r.esp + 4) (arg_at lo) i _ (omega (arith, esp, (arg_bounds lo).0))
          (b.arg i l);
    code = λ i l. at_place k.mem (lo + 12) 12 i _ refl (b.code_at i l);
    saved = record {
      esp_addr = esp_addr;
      eip_addr = eip_addr;
      esp_at = λ i l. at_place k.mem (lo + 24) 24 i _ refl (b.esp_kept i l);
      eip_at = λ i l. at_place k.mem (lo + 28) 28 i _ refl (b.eip_kept i l);
    };
  }

  pub places : (esp : ℕ) → esp ≡ lo + 32 → Places lo esp
  places esp top = record { first = e1; second = e2; third = e3; fourth = e4; fifth = e5 }
    where
      e1 : eip_place esp ≡ lo + 28
      e1 = below_place esp 28 4 top (omega arith)

      e2 : esp_place esp ≡ lo + 24
      e2 = below_place (eip_place esp) 24 4 e1 (omega arith)

      e3 : code_place esp ≡ lo + 12
      e3 = below_place (esp_place esp) 12 12 e2 (omega arith)

      e4 : arg_addr esp ≡ lo + arg_at lo
      e4 = ap (λ t. below (t / 4 * 4) 4) e3 ∙ arg_place

      e5 : below (arg_addr esp) 4 ≡ lo + (arg_at lo - 4)
      e5 =
          below_place (arg_addr esp) (arg_at lo - 4) 4 (omega (arith, e4, (arg_bounds lo).0))
            (omega (arith, (arg_bounds lo).1))
