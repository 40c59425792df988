-- ===== src/Ipc/Order.antt =====
-- `msg_enqueue` against lists.
use advanced_synchronization.Base.{
  ℕ, ◌<◌, ◌≡◌, ◌≢◌, sym, ◌∙◌, subst, inl, inr, num_ids, Returns, Returns-mono, arith, List, [], ◌∷◌,
  ◌++◌, In, NotIn, last_or, last-cases, ne_of_In,
}
use advanced_synchronization.Links.{Linked-lt, IsQueue}
use advanced_synchronization.Links.Enqueue.{Appended, IsQueue-snoc, IsQueue-singleton}
use advanced_synchronization.Ipc.{Messages, MsgBlock, msg_enqueue}
use advanced_synchronization.Ipc.Lookup.{prev_of, next_of, HoldsMessages}

-- What the block says besides its links.
pub record SameMessage (b b' : MsgBlock) : Type 0 where
  pub same_send : b'.send_pid ≡ b.send_pid
  pub same_recv : b'.recv_pid ≡ b.recv_pid
  pub same_length : b'.length ≡ b.length
  pub same_addr : b'.buffer_addr ≡ b.buffer_addr

module _ (m : Messages) (pid : ℕ) (h : pid < num_ids) where
  pub record Queued (m' : Messages) : Type 0 where
    pub head : m'.msg_queue.head ≡ pid
    pub tail : m'.msg_queue.tail ≡ pid
    pub prev_null : prev_of m' pid ≡ num_ids
    pub next_null : next_of m' pid ≡ num_ids
    pub messages : (a : ℕ) → SameMessage (m.msg_block a) (m'.msg_block a)

  enqueue_first : m.msg_queue.tail ≡ num_ids → Returns (λ _ m'. Queued m') (msg_enqueue pid m)
  unfolding msg_enqueue
  enqueue_first e = ground arith

  pub record QueuedBehind (m' : Messages) : Type 0 where
    pub head : m'.msg_queue.head ≡ m.msg_queue.head
    pub tail : m'.msg_queue.tail ≡ pid
    pub appended : Appended (prev_of m) (next_of m) (prev_of m') (next_of m') pid m.msg_queue.tail
    pub messages : (a : ℕ) → SameMessage (m.msg_block a) (m'.msg_block a)

  enqueue_behind :
      m.msg_queue.tail < num_ids
      → pid ≢ m.msg_queue.tail
      → Returns (λ _ m'. QueuedBehind m') (msg_enqueue pid m)
  unfolding msg_enqueue
  enqueue_behind e ne = ground arith

-- On a queue of messages that holds `xs`, `msg_enqueue` of a process whose message is not queued
-- returns: the queue holds `xs` followed by the process, and what the blocks say besides their
-- links is as before.
pub msg_enqueue_refines :
    (m : Messages) (pid : ℕ) (xs : List ℕ)
    → HoldsMessages m xs
    → NotIn pid xs
    → pid < num_ids
    → Returns
        (λ _ m'.
          HoldsMessages m' (xs ++ pid ∷ [])
          × ((a : ℕ) → SameMessage (m.msg_block a) (m'.msg_block a)))
        (msg_enqueue pid m)
msg_enqueue_refines m pid [] q fresh h =
    Returns-mono (λ _ m'. Queued m pid h m')
      (λ _ m'.
        HoldsMessages m' (pid ∷ []) × ((a : ℕ) → SameMessage (m.msg_block a) (m'.msg_block a)))
      _ (enqueue_first m pid h q.queue.tail_last)
      (λ _ m' e. (
        record {
          queue =
              rw (e.head, e.tail)
                (IsQueue-singleton (prev_of m) (next_of m) (prev_of m') (next_of m') pid h
                  e.prev_null e.next_null);
          senders = λ a l. (e.messages a).same_send ∙ q.senders a l;
        },
        e.messages,
      ))
msg_enqueue_refines m pid (x ∷ xs) q fresh h =
    Returns-mono (λ _ m'. QueuedBehind m pid h m')
      (λ _ m'.
        HoldsMessages m' ((x ∷ xs) ++ pid ∷ [])
        × ((a : ℕ) → SameMessage (m.msg_block a) (m'.msg_block a)))
      _
      (enqueue_behind m pid h
        (rw q.queue.tail_last (
          Linked-lt (prev_of m) (next_of m) num_ids (last_or x xs) (x ∷ xs) q.queue.linked tail_in))
        (λ e. ne_of_In (last_or x xs) pid (x ∷ xs) tail_in fresh (sym (e ∙ q.queue.tail_last))))
      (λ _ m' e. (
        record {
          queue =
              rw (e.head, e.tail)
                (IsQueue-snoc (prev_of m) (next_of m) (prev_of m') (next_of m') pid _ x xs
                  (subst (λ t. IsQueue (prev_of m) (next_of m) m.msg_queue.head t (x ∷ xs))
                    q.queue.tail_last q.queue)
                  fresh h
                  (subst (λ t. Appended (prev_of m) (next_of m) (prev_of m') (next_of m') pid t)
                    q.queue.tail_last e.appended));
          senders = λ a l. (e.messages a).same_send ∙ q.senders a l;
        },
        e.messages,
      ))
  where
    tail_in : In (last_or x xs) (x ∷ xs)
    tail_in = elim (last-cases x xs) [ inl e ↦ inl e | inr k ↦ inr k ]
