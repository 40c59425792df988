-- ===== src/Ipc.antt =====
-- kern/lib/ipc.c: the queue of messages that wait to be received. Numbers of processes stand for
-- `int`s that are not negative.
pub mod Sync
pub mod Handover
pub mod Lookup
pub mod Order
mod Tests
use advanced_synchronization.Base.{
  ℕ, zero, suc, ◌+◌, some, ltb, ◌==◌, if◌then◌else◌, num_ids, update, M, pure, stop, check, ◌>>=◌,
  ◌>>◌,
}
use advanced_synchronization.Spinlock
use advanced_synchronization.Spinlock.{Spinlock}

pub record MsgBlock : Type 0 where
  pub prev : ℕ
  pub next : ℕ
  pub send_pid : ℕ
  pub recv_pid : ℕ
  pub length : ℕ
  pub buffer_addr : ℕ
  pub recv_cv : ℕ
  pub send_cv : ℕ

pub record MsgQueue : Type 0 where
  pub head : ℕ
  pub tail : ℕ

pub record Messages : Type 0 where
  pub msg_block : ℕ → MsgBlock
  pub msg_queue : MsgQueue
  pub msg_lock : Spinlock

abbrev pub block_at : ℕ → M Messages MsgBlock
block_at i m = (check (ltb i num_ids) >>= λ _. pure (m.msg_block i)) m

abbrev pub write_block : ℕ → (MsgBlock → MsgBlock) → M Messages (Unit {0})
write_block i f m =
    (check (ltb i num_ids) >>= λ _ m'.
    some (tt, record m' { msg_block = update m'.msg_block i (f (m'.msg_block i)) }))
      m

abbrev pub write_ends : (MsgQueue → MsgQueue) → M Messages (Unit {0})
write_ends f m = some (tt, record m { msg_queue = f m.msg_queue })

unfoldable pub ipc_init : M Messages (Unit {0})
unfolding Spinlock.spinlock_init
ipc_init m = some (
  tt,
  record {
    msg_block = λ i. record {
      prev = num_ids;
      next = num_ids;
      send_pid = i;
      recv_pid = num_ids;
      length = 0;
      buffer_addr = 0;
      recv_cv = 0;
      send_cv = 0;
    };
    msg_queue = record { head = num_ids; tail = num_ids };
    msg_lock = Spinlock.spinlock_init;
  },
)

unfoldable pub msg_enqueue : ℕ → M Messages (Unit {0})
msg_enqueue send_pid m =
    let tail = m.msg_queue.tail in
    if tail == num_ids
    then (do
      write_block send_pid (λ b. record b { prev = num_ids })
      write_block send_pid (λ b. record b { next = num_ids })
      write_ends (λ _. record { head = send_pid; tail = send_pid }))
        m
    else (do
      write_block tail (λ b. record b { next = send_pid })
      write_block send_pid (λ b. record b { prev = tail })
      write_block send_pid (λ b. record b { next = num_ids })
      write_ends (λ q. record q { tail = send_pid }))
        m

-- The statements of `msg_remove` between the reads of the links and their reset.
unfoldable pub unlink : ℕ → ℕ → M Messages (Unit {0})
unlink prev next =
    if prev == num_ids
    then (if next == num_ids
        then write_ends (λ _. record { head = num_ids; tail = num_ids })
        else (do
          write_ends (λ q. record q { head = next })
          write_block next (λ b. record b { prev = num_ids })))
    else (if next == num_ids
        then (do
          write_ends (λ q. record q { tail = prev })
          write_block prev (λ b. record b { next = num_ids }))
        else (do
          write_block prev (λ b. record b { next = next })
          write_block next (λ b. record b { prev = prev })))

unfoldable pub msg_remove : ℕ → M Messages (Unit {0})
msg_remove send_pid = do
  b ← block_at send_pid
  unlink b.prev b.next
  write_block send_pid (λ b'. record b' { prev = num_ids; next = num_ids })

-- The loop of `msg_getBlockBySendID` at `pid`, on fuel.
unfoldable pub find_by_send : ℕ → ℕ → ℕ → M Messages ℕ
find_by_send zero send_pid pid = stop
find_by_send (suc n) send_pid pid =
    if pid == num_ids
    then pure num_ids
    else (block_at pid >>= λ b.
        let rest = find_by_send n send_pid b.next in
        if b.send_pid == send_pid then pure send_pid else rest)

-- The fuel is one more than the blocks.
unfoldable pub msg_get_block_by_send_id : ℕ → M Messages ℕ
msg_get_block_by_send_id send_pid m = find_by_send (num_ids + 1) send_pid m.msg_queue.head m

-- The loop of `msg_getBlockByRecvID` at `pid`, for `n` rounds.
unfoldable pub find_by_recv : ℕ → ℕ → ℕ → M Messages ℕ
find_by_recv zero recv_pid pid = stop
find_by_recv (suc n) recv_pid pid =
    let again = find_by_recv n recv_pid pid in
    if pid == num_ids
    then pure num_ids
    else (block_at pid >>= λ b. if b.recv_pid == recv_pid then pure b.send_pid else again)

unfoldable pub msg_get_block_by_recv_id : ℕ → ℕ → M Messages ℕ
msg_get_block_by_recv_id n recv_pid m = find_by_recv n recv_pid m.msg_queue.head m
