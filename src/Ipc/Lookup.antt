-- ===== src/Ipc/Lookup.antt =====
-- The two lookups in the message queue.
use advanced_synchronization.Base.{
  ℕ, zero, suc, ◌+◌, ◌<◌, ◌≡◌, ◌≢◌, refl, ap, ◌∙◌, inl, inr, ◌⊎◌, none, some, num_ids, List, [],
  ◌∷◌, In, NotIn, In-cases, length, first_or, length-le_of_Distinct, arith,
}
use advanced_synchronization.Links.{Linked, Linked-lt, IsQueue}
use advanced_synchronization.Ipc.{
  Messages, find_by_send, msg_get_block_by_send_id, find_by_recv, msg_get_block_by_recv_id,
}

abbrev pub prev_of : Messages → ℕ → ℕ
prev_of m a = (m.msg_block a).prev

abbrev pub next_of : Messages → ℕ → ℕ
next_of m a = (m.msg_block a).next

-- The queue of messages holds the blocks `xs`, and the block of a process is its number.
pub record HoldsMessages (m : Messages) (xs : List ℕ) : Type 0 where
  pub queue : IsQueue (prev_of m) (next_of m) m.msg_queue.head m.msg_queue.tail xs
  pub senders : (a : ℕ) → a < num_ids → (m.msg_block a).send_pid ≡ a

module _ (m : Messages) (pid : ℕ)
    (senders : (a : ℕ) → a < num_ids → (m.msg_block a).send_pid ≡ a) where
  find-In :
      (n p : ℕ) (xs : List ℕ)
      → Linked (prev_of m) (next_of m) p xs
      → length xs < n
      → In pid xs
      → find_by_send n pid (first_or num_ids xs) m ≡ some (pid, m)
  unfolding find_by_send
  find-In zero p xs l h i = absurd (omega arith)
  find-In (suc n) p [] l h i = absurd i
  find-In (suc n) p (x ∷ xs) l h (inl e) = ground (arith, l.0, senders x l.0, e)
  find-In (suc n) p (x ∷ xs) l h (inr i) =
      ground (arith, l.0, l.2, senders x l.0, find-In n x xs l.3 (omega arith) i)

  find-NotIn :
      (n p : ℕ) (xs : List ℕ)
      → Linked (prev_of m) (next_of m) p xs
      → length xs < n
      → NotIn pid xs
      → find_by_send n pid (first_or num_ids xs) m ≡ some (num_ids, m)
  unfolding find_by_send
  find-NotIn zero p xs l h i = absurd (omega arith)
  find-NotIn (suc n) p [] l h i = refl
  find-NotIn (suc n) p (x ∷ xs) l h i =
      ground (arith, l.0, l.2, senders x l.0, i.0, find-NotIn n x xs l.3 (omega arith) i.1)

module _ (m : Messages) (xs : List ℕ) (q : HoldsMessages m xs) (pid : ℕ) where
  few : length xs < num_ids + 1
  few = omega (
    arith,
    length-le_of_Distinct num_ids xs q.queue.distinct
        (λ a i. Linked-lt (prev_of m) (next_of m) num_ids a xs q.queue.linked i),
  )

  at_head : msg_get_block_by_send_id pid m ≡ find_by_send (num_ids + 1) pid (first_or num_ids xs) m
  unfolding msg_get_block_by_send_id
  at_head = ap (λ h. find_by_send (num_ids + 1) pid h m) q.queue.head_first

  -- On a queue that holds `xs`, the lookup of a sender ends and changes nothing: it returns the sender
  -- when its message is in the queue, and NUM_IDS when it is not.
  pub find_sender :
      (In pid xs × (msg_get_block_by_send_id pid m ≡ some (pid, m)))
      ⊎ (NotIn pid xs × (msg_get_block_by_send_id pid m ≡ some (num_ids, m)))
  find_sender = elim (In-cases pid xs) [
    | inl i ↦
        inl (i, at_head ∙ find-In m pid q.senders (num_ids + 1) num_ids xs q.queue.linked few i)
    | inr i ↦
        inr (i, at_head ∙ find-NotIn m pid q.senders (num_ids + 1) num_ids xs q.queue.linked few i)
  ]

-- With a message at the head of the queue that is not for `pid`, the lookup of a receiver does not
-- end, in however many rounds, even when a message for `pid` stands behind.
pub find_receiver_loops :
    (m : Messages) (pid n : ℕ)
    → m.msg_queue.head < num_ids
    → (m.msg_block m.msg_queue.head).recv_pid ≢ pid
    → msg_get_block_by_recv_id n pid m ≡ none
unfolding msg_get_block_by_recv_id find_by_recv
find_receiver_loops m pid n h ne = go n
  where
    go : (n : ℕ) → find_by_recv n pid m.msg_queue.head m ≡ none
    go zero = refl
    go (suc n) = ground (arith, h, ne, go n)
