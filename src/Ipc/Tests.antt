-- ===== src/Ipc/Tests.antt =====
-- The theorems on the queue of messages with the messages of 5 and 7 in it.
use advanced_synchronization.Base.{ℕ, ◌≡◌, refl, none, arith, [], ◌∷◌, Returns, ◌==◌, if◌then◌else◌}
use advanced_synchronization.Trap.Frame.{Regs, syscall_set_errno, e_succ}
use advanced_synchronization.Fs.Inode.{done}
use advanced_synchronization.Fs.UserCopy.Tests.{identity_paging, files}
use advanced_synchronization.Ipc.Sync.{Comm, sys_sync_send_resumed, sys_sync_recv_resumed}
use advanced_synchronization.Ipc.Handover.{send_keeps_lock}
use advanced_synchronization.Ipc.{Messages, MsgBlock, msg_enqueue, msg_get_block_by_recv_id}
use advanced_synchronization.Ipc.Lookup.{HoldsMessages, find_receiver_loops}
use advanced_synchronization.Ipc.Order.{SameMessage, msg_enqueue_refines}

abbrev block : ℕ → ℕ → ℕ → ℕ → MsgBlock
block i recv p n = record {
  prev = p;
  next = n;
  send_pid = i;
  recv_pid = recv;
  length = 0;
  buffer_addr = 0;
  recv_cv = 0;
  send_cv = 0;
}

abbrev messages : Messages
messages = record {
  msg_block =
      λ i. if i == 5 then block i 1 64 7 else if i == 7 then block i 2 5 64 else block i 64 64 64;
  msg_queue = record { head = 5; tail = 7 };
  msg_lock = record { lock_holder = 9; lock = 0 };
}

messages-HoldsMessages : HoldsMessages messages (5 ∷ 7 ∷ [])
messages-HoldsMessages = record {
  queue = record {
    head_first = refl;
    tail_last = refl;
    linked = ground arith;
    distinct = ground arith;
  };
  senders = λ a h. ground arith;
}

msg_enqueue_refines_example :
    Returns
      (λ _ m'.
        HoldsMessages m' (5 ∷ 7 ∷ 3 ∷ [])
        × ((a : ℕ) → SameMessage (messages.msg_block a) (m'.msg_block a)))
      (msg_enqueue 3 messages)
msg_enqueue_refines_example =
    msg_enqueue_refines messages 3 (5 ∷ 7 ∷ []) messages-HoldsMessages (ground arith) (omega arith)

find_receiver_loops_example : msg_get_block_by_recv_id 1000 2 messages ≡ none
find_receiver_loops_example = find_receiver_loops messages 2 1000 (omega arith) (λ e. omega arith)

-- No message waits.
abbrev comm : Comm
comm = record {
  messages = record messages { msg_queue = record { head = 64; tail = 64 } };
  files = files;
  blocks_base = 30000;
  msg_buf = 40000;
}

abbrev regs : Regs
regs = record { edi = 0; esi = 0; ebp = 0; oesp = 0; ebx = 2; edx = 8; ecx = 0; eax = 14 }

send_keeps_lock_example :
    Returns
      (λ r c'.
        (r ≡ done (syscall_set_errno e_succ regs))
        × ((q : ℕ) (tf' : Regs)
            → (sys_sync_send_resumed identity_paging q tf' c' ≡ none)
              × (sys_sync_recv_resumed identity_paging q tf' c' ≡ none)))
      (sys_sync_send_resumed identity_paging 3 regs comm)
send_keeps_lock_example = send_keeps_lock identity_paging 3 regs comm (omega arith) refl refl refl
