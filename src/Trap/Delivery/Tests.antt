-- ===== src/Trap/Delivery/Tests.antt =====
-- The theorems on signals for the thread 0, which runs, with a handler for the signal 10.
use advanced_synchronization.Base.{
  ℕ, ◌<◌, ◌≤◌, ◌≡◌, refl, inl, true, false, ltb, if◌then◌else◌, some, arith, Returns, pure, ◌>>=◌,
}
use advanced_synchronization.Bits.{test_bit}
use advanced_synchronization.Thread.Scheduler.Tests.{tables}
use advanced_synchronization.Fs.Inode.{Files, done}
use advanced_synchronization.Fs.UserCopy.Tests.{identity, identity_paging, identity-IsMapped, files}
use advanced_synchronization.Trap.Delivery.{
  TrapFrame, Layout, deliver_signal, handle_pending_signals, sys_sigreturn,
}
use advanced_synchronization.Trap.Delivery.Stack.{IsStack}
use advanced_synchronization.Trap.Delivery.Pushes.{IsBelow, HandlerStarts}
use advanced_synchronization.Trap.Delivery.Handler.{deliver_signal-HandlerStarts}
use advanced_synchronization.Trap.Delivery.Return.{IsCleared, resumed, deliver_then_sigreturn}
use advanced_synchronization.Trap.Delivery.Pending.{without_pending, lowest_first}

-- The signals 10 and 12 are pending.
abbrev signalled : Files
signalled = record files {
  vol = record files.vol {
    sched = record tables {
      tcb_pool = λ p. record (tables.tcb_pool p) {
        sigstate = record {
          sigactions = λ _. record {
            sa_handler = 1073750000;
            sa_sigaction = 0;
            sa_flags = 0;
            sa_restorer = 0;
            sa_mask = 0;
          };
          pending_signals = 5120;
          signal_block_mask = 0;
          saved_esp_addr = 0;
          saved_eip_addr = 0;
          in_signal_handler = 0;
        };
      };
    };
  };
}

abbrev layout : Layout
layout = record {
  orig_eip = 1000;
  orig_esp = 1004;
  trampoline = 1008;
  sig_arg = 1020;
  trampoline_addr = 1024;
  saved_esp = 1028;
  saved_eip = 1032;
  kern_act = 1036;
  sigactions = λ _ _. 1060;
}

abbrev frame : TrapFrame
frame = record {
  regs = record { edi = 0; esi = 0; ebp = 0; oesp = 0; ebx = 0; edx = 0; ecx = 0; eax = 2 };
  es = 35;
  ds = 35;
  trapno = 48;
  err = 0;
  eip = 1073742000;
  cs = 27;
  eflags = 512;
  esp = 1073750050;
  ss = 35;
}

stack : IsStack identity_paging 0 1073750018 2000 identity
stack = record {
  low = omega arith;
  high = omega arith;
  mapped = identity-IsMapped 0 1073750018 32;
  distinct = λ i j a b e. omega (arith, e);
  above = λ i l. omega arith;
  bound_le = omega arith;
}

locals : IsBelow layout 2000
locals = record {
  orig_eip = omega arith;
  orig_esp = omega arith;
  trampoline = omega arith;
  sig_arg = omega arith;
  trampoline_addr = omega arith;
  saved_esp = omega arith;
  saved_eip = omega arith;
}

deliver_signal-HandlerStarts_example :
    Returns
      (λ r k'. HandlerStarts identity 0 1073750018 10 1073750000 frame r signalled k')
      (deliver_signal identity_paging layout 10 frame signalled)
deliver_signal-HandlerStarts_example =
    deliver_signal-HandlerStarts identity_paging layout 0 1073750018 2000 identity stack locals 10
      frame signalled (omega arith) (omega arith) refl (omega arith) refl

-- The handler clears the memory from 0x50000000 on.
abbrev clears : Files → Files
clears k = record k { mem = λ a. if ltb a 1342177280 then k.mem a else 0 }

deliver_then_sigreturn_example :
    Returns
      (λ r k'. (r ≡ resumed frame 1073750050 1073742000) × IsCleared 0 k')
      ((deliver_signal identity_paging layout 10 frame >>= λ _ k'.
          sys_sigreturn identity_paging layout frame (clears k'))
        signalled)
deliver_then_sigreturn_example =
    deliver_then_sigreturn identity_paging layout 0 1073750018 2000 identity stack locals
      (inl (omega arith)) 10 frame frame signalled clears (omega arith) (omega arith) refl
      (omega arith) refl (omega arith) record { tables = λ k. refl; words = λ k i l. ground arith }

lowest_first_example :
    ((test_bit 5120 10 ≡ true)
      → ((j : ℕ) → 1 ≤ j → j < 10 → test_bit 5120 j ≡ false)
      → handle_pending_signals identity_paging layout frame signalled
        ≡ (deliver_signal identity_paging layout 10 frame >>= λ tf'. pure (done tf'))
            (without_pending 0 10 signalled))
    × (((j : ℕ) → 1 ≤ j → j < 32 → test_bit 5120 j ≡ false)
        → handle_pending_signals identity_paging layout frame signalled
          ≡ some (done frame, signalled))
lowest_first_example =
    lowest_first identity_paging layout frame 0 10 signalled (omega arith) refl (omega arith)
      (omega arith) (omega arith)
