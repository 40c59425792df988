-- ===== src/Ipc/Handover.antt =====
-- kern/trap/TSyscall: what becomes of `msg_lock` when a sender returns.
use advanced_synchronization.Base.{
  ℕ, ◌<◌, ◌≡◌, refl, ap, ◌∙◌, lt→ltb, Option, none, some, num_ids, M, ◌>>=◌, ◌>>◌, Returns,
  Returns-bind,
}
use advanced_synchronization.Spinlock
use advanced_synchronization.Spinlock.{Spinlock, IsFree}
use advanced_synchronization.Thread.Tcb.{Sched, tcb_set_chan}
use advanced_synchronization.Thread.Scheduler.{acquire_sched, release_sched, thread_sleep_resumed}
use advanced_synchronization.Trap.Frame.{Regs, syscall_set_errno, e_succ}
use advanced_synchronization.Fs.Inode.{done}
use advanced_synchronization.Fs.UserCopy.{Paging}
use advanced_synchronization.Ipc.{Messages, msg_get_block_by_send_id, find_by_send}
use advanced_synchronization.Ipc.Sync.{
  Comm, on_messages, resume, send_pass, sys_sync_send_resumed, sys_sync_recv_resumed,
}

-- A call does not return if what comes last in it never does.
bind-none :
    {S A B : Type 0} (m : M S A) (f : A → M S B) (s : S)
    → ((a : A) (s' : S) → f a s' ≡ none)
    → (m >>= f) s ≡ none
bind-none {S} {A} {B} m f s h = go (m s)
  where
    go :
        (r : Option (A × S))
        → elim r as (λ _. Option (B × S)) [ none ↦ none | some (a, s') ↦ f a s' ] ≡ none
    go none = refl
    go (some (a, s')) = h a s'

-- The lock is taken.
abbrev pub IsTaken : Spinlock → Type 0
IsTaken lk = lk.lock ≡ 1

-- The end of `thread_sleep`.
abbrev retake : Spinlock → M Sched Spinlock
retake lk s = elim (Spinlock.spinlock_acquire s.pcpu_idx lk) [
  | none ↦ none
  | some lk' ↦ some (lk', s)
]

resumed-none :
    (pid : ℕ) (lk : Spinlock) (s : Sched) → IsTaken lk → thread_sleep_resumed pid lk s ≡ none
unfolding thread_sleep_resumed Spinlock.spinlock_acquire
resumed-none pid lk s h =
    bind-none acquire_sched (λ _. tcb_set_chan pid 0 >> (release_sched >> retake lk)) s
      (λ _ s1.
        bind-none (tcb_set_chan pid 0) (λ _. release_sched >> retake lk) s1
          (λ _ s2. bind-none release_sched (λ _. retake lk) s2 (λ _ s3. rw h refl)))

resume-none : (pid : ℕ) (c : Comm) → IsTaken c.messages.msg_lock → resume pid c ≡ none
resume-none pid c h = rw (resume, resumed-none pid c.messages.msg_lock c.files.vol.sched h) refl

no_resumption :
    (paging : Paging) (pid : ℕ) (tf : Regs) (c : Comm)
    → IsTaken c.messages.msg_lock
    → (sys_sync_send_resumed paging pid tf c ≡ none)
      × (sys_sync_recv_resumed paging pid tf c ≡ none)
unfolding sys_sync_send_resumed sys_sync_recv_resumed
no_resumption paging pid tf c h =
    (rw (◌>>◌, ◌>>=◌, resume-none pid c h) refl, rw (◌>>◌, ◌>>=◌, resume-none pid c h) refl)

-- The end of a sleep with both locks free: the message lock is taken, the messages are as before.
resume-Returns :
    (pid : ℕ) (c : Comm)
    → pid < num_ids
    → IsFree c.files.vol.sched.sched_lk
    → IsFree c.messages.msg_lock
    → Returns
        (λ _ c'. IsTaken c'.messages.msg_lock × (c'.messages.msg_queue ≡ c.messages.msg_queue))
        (resume pid c)
unfolding thread_sleep_resumed acquire_sched release_sched Spinlock.spinlock_acquire tcb_set_chan
resume-Returns pid c l sched_free free =
    rw (resume, sched_free, ◌>>◌, ◌>>=◌, lt→ltb pid num_ids l, free) (refl, refl)

empty_lookup :
    (pid : ℕ) (m : Messages)
    → m.msg_queue.head ≡ num_ids
    → msg_get_block_by_send_id pid m ≡ some (num_ids, m)
unfolding msg_get_block_by_send_id find_by_send
empty_lookup pid m e = rw e refl

-- A sender that runs again after its message was received and no other is waiting, with the locks of the
-- scheduler and of the messages free, returns with success and leaves the lock of the messages taken:
-- no other call that slept on that lock can return from its sleep then.
pub send_keeps_lock :
    (paging : Paging) (pid : ℕ) (tf : Regs) (c : Comm)
    → pid < num_ids
    → IsFree c.files.vol.sched.sched_lk
    → IsFree c.messages.msg_lock
    → c.messages.msg_queue.head ≡ num_ids
    → Returns
        (λ r c'.
          (r ≡ done (syscall_set_errno e_succ tf))
          × ((q : ℕ) (tf' : Regs)
              → (sys_sync_send_resumed paging q tf' c' ≡ none)
                × (sys_sync_recv_resumed paging q tf' c' ≡ none)))
        (sys_sync_send_resumed paging pid tf c)
unfolding sys_sync_send_resumed send_pass
send_keeps_lock paging pid tf c l sched_free free empty =
    Returns-bind
      (λ _ c'. IsTaken c'.messages.msg_lock × (c'.messages.msg_queue ≡ c.messages.msg_queue))
      (λ r c'.
        (r ≡ done (syscall_set_errno e_succ tf))
        × ((q : ℕ) (tf' : Regs)
            → (sys_sync_send_resumed paging q tf' c' ≡ none)
              × (sys_sync_recv_resumed paging q tf' c' ≡ none)))
      (resume pid) (λ _. send_pass paging pid tf) c (resume-Returns pid c l sched_free free)
      (λ _ c1 h.
        rw (◌>>=◌, on_messages, empty_lookup pid c1.messages (ap (λ q. q.head) h.1 ∙ empty))
          (refl, λ q tf'. no_resumption paging q tf' c1 h.0))
