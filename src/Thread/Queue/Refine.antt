-- ===== src/Thread/Queue/Refine.antt =====
-- The thread queues against lists: enqueue appends, dequeue takes the first, remove takes one out.
use advanced_synchronization.Base.{
  ℕ, ◌<◌, ◌≤◌, ◌≡◌, ◌≢◌, ◌⊎◌, refl, sym, ◌∙◌, subst, inl, inr, some, num_ids, Returns, Returns-mono,
  Returns-bind, pure, ◌>>◌, arith, List, [], ◌∷◌, ◌++◌, In, NotIn, remove, last_or, last-cases,
  ne_of_In,
}
use advanced_synchronization.Links.{Linked-lt, Linked-next, Linked-prev, Linked-null, IsQueue}
use advanced_synchronization.Links.Neighbours.{next-ne_self, prev-ne_self, prev-ne-next}
use advanced_synchronization.Links.Enqueue.{Appended, IsQueue-snoc, IsQueue-singleton}
use advanced_synchronization.Links.Removal.{IsQueue-remove, remove_here}
use advanced_synchronization.Thread.Tcb.{Sched}
use advanced_synchronization.Thread.Queue.{tqueue_enqueue, tqueue_dequeue, tqueue_remove}
use advanced_synchronization.Thread.Queue.Laws.{
  prev_of, next_of, queue_of, HoldsQueue, KeepsRest, EnqueuedFirst, enqueue_first, enqueue_last,
  remove_effect, EnqueuedLast, Removed,
}

-- Threads outside the list keep their links.
abbrev pub KeepsLinks : Sched → Sched → List ℕ → Type 0
KeepsLinks s s' xs =
    (a : ℕ) → a < num_ids → NotIn a xs → (prev_of s' a ≡ prev_of s a) × (next_of s' a ≡ next_of s a)

-- In no queue: both links are null.
pub record IsDetached (s : Sched) (pid : ℕ) : Type 0 where
  pub prev_null : prev_of s pid ≡ num_ids
  pub next_null : next_of s pid ≡ num_ids

-- The queue `chid` went from what it was to `ys`, with writes to the threads of `touched` only.
pub record Became (s s' : Sched) (chid : ℕ) (touched ys : List ℕ) : Type 0 where
  pub holds : HoldsQueue s' chid ys
  pub rest : KeepsRest s s' chid
  pub elsewhere : KeepsLinks s s' touched

module _ (s : Sched) (chid : ℕ) (c : chid ≤ num_ids) where
  -- On a queue that holds `xs`, `tqueue_enqueue` of a thread that is not queued returns, and the
  -- queue then holds `xs` followed by that thread; the links of all other threads, their states and
  -- channels, the other queues and the current thread are as before.
  pub enqueue_refines :
      (pid : ℕ) (xs : List ℕ)
      → HoldsQueue s chid xs
      → NotIn pid xs
      → pid < num_ids
      → Returns (λ _ s'. Became s s' chid (pid ∷ xs) (xs ++ pid ∷ [])) (tqueue_enqueue chid pid s)
  enqueue_refines pid [] q fresh h =
      Returns-mono (λ _ s'. EnqueuedFirst s chid pid c h s')
        (λ _ s'. Became s s' chid (pid ∷ []) (pid ∷ [])) _
        (enqueue_first s chid pid c h q.tail_last)
        (λ _ s' e. record {
          holds =
              rw (e.head, e.tail)
                (IsQueue-singleton (prev_of s) (next_of s) (prev_of s') (next_of s') pid h
                  e.detached.prev_null e.detached.next_null);
          rest = e.detached.rest;
          elsewhere = λ a k n. (e.same_prev a n.0, e.same_next a n.0);
        })
  enqueue_refines pid (x ∷ xs) q fresh h =
      Returns-mono (λ _ s'. EnqueuedLast s chid pid c h s')
        (λ _ s'. Became s s' chid (pid ∷ x ∷ xs) ((x ∷ xs) ++ pid ∷ [])) _
        (enqueue_last s chid pid c h
          (rw q.tail_last
            (Linked-lt (prev_of s) (next_of s) num_ids (last_or x xs) (x ∷ xs) q.linked tail_in))
          (λ e. ne_of_In (last_or x xs) pid (x ∷ xs) tail_in fresh (sym (e ∙ q.tail_last))))
        (λ _ s' e. record {
          holds =
              rw (e.head, e.tail)
                (IsQueue-snoc (prev_of s) (next_of s) (prev_of s') (next_of s') pid _ x xs
                  (subst (λ t. IsQueue (prev_of s) (next_of s) (queue_of s chid).head t (x ∷ xs))
                    q.tail_last q)
                  fresh h
                  (subst (λ t. Appended (prev_of s) (next_of s) (prev_of s') (next_of s') pid t)
                    q.tail_last e.appended));
          rest = e.rest;
          elsewhere = λ a k n. (
            e.appended.same_prev a n.0,
            e.appended.same_next a n.0
                (λ f. ne_of_In (last_or x xs) a (x ∷ xs) tail_in n.1 (sym (f ∙ q.tail_last))),
          );
        })
    where
      tail_in : In (last_or x xs) (x ∷ xs)
      tail_in = elim (last-cases x xs) [ inl e ↦ inl e | inr m ↦ inr m ]

  -- On a queue that holds `xs` with the thread `pid` in it, `tqueue_remove` returns: the queue holds the
  -- others in their order, both links of `pid` are null, and the links of the threads outside `xs`, all
  -- states and channels, the other queues and the current thread are as before.
  pub remove_refines :
      (pid : ℕ) (xs : List ℕ)
      → HoldsQueue s chid xs
      → In pid xs
      → Returns
          (λ _ s'. Became s s' chid xs (remove pid xs) × IsDetached s' pid)
          (tqueue_remove chid pid s)
  remove_refines pid xs q h =
      Returns-mono (λ _ s'. Removed s chid pid c pid_lt s')
        (λ _ s'. Became s s' chid xs (remove pid xs) × IsDetached s' pid) _
        (remove_effect s chid pid c pid_lt
          (prev-ne_self (prev_of s) (next_of s) pid num_ids xs q.linked h q.distinct out)
          (next-ne_self (prev_of s) (next_of s) pid num_ids xs q.linked h q.distinct)
          (elim prev_cases [
            | inl e ↦ omega arith
            | inr m ↦ omega (arith, inside (prev_of s pid) m)
          ])
          (elim next_cases [
            | inl e ↦ omega arith
            | inr m ↦ omega (arith, inside (next_of s pid) m)
          ])
          (prev-ne-next (prev_of s) (next_of s) pid num_ids xs q.linked h q.distinct out))
        (λ _ s' r. (
          record {
            holds =
                IsQueue-remove (prev_of s) (next_of s) (prev_of s') (next_of s') pid r.0 _ _ _ _ xs
                  q h r.1.1.head_next r.1.1.head_same r.1.1.tail_prev r.1.1.tail_same;
            rest = r.1.0.rest;
            elsewhere = λ a k n. (
              r.0.same_prev a (apart a n) (λ f. elim next_cases [
                | inl e ↦ omega (arith, f ∙ e)
                | inr m ↦ ne_of_In (next_of s pid) a xs m n (sym f)
              ]),
              r.0.same_next a (apart a n) (λ f. elim prev_cases [
                | inl e ↦ omega (arith, f ∙ e)
                | inr m ↦ ne_of_In (prev_of s pid) a xs m n (sym f)
              ]),
            );
          },
          record { prev_null = r.1.0.prev_null; next_null = r.1.0.next_null },
        ))
    where
      out : NotIn num_ids xs
      out = Linked-null (prev_of s) (next_of s) num_ids xs q.linked

      inside : (a : ℕ) → In a xs → a < num_ids
      inside a m = Linked-lt (prev_of s) (next_of s) num_ids a xs q.linked m

      pid_lt : pid < num_ids
      pid_lt = inside pid h

      prev_cases : (prev_of s pid ≡ num_ids) ⊎ In (prev_of s pid) xs
      prev_cases = Linked-prev (prev_of s) (next_of s) num_ids pid xs q.linked h

      next_cases : (next_of s pid ≡ num_ids) ⊎ In (next_of s pid) xs
      next_cases = Linked-next (prev_of s) (next_of s) num_ids pid xs q.linked h

      apart : (a : ℕ) → NotIn a xs → a ≢ pid
      apart a n f = ne_of_In pid a xs h n (sym f)

  -- At the head, `tqueue_dequeue` makes the writes of `tqueue_remove`.
  dequeue-eq-remove :
      (x : ℕ)
      → (queue_of s chid).head ≡ x
      → x < num_ids
      → prev_of s x ≡ num_ids
      → tqueue_dequeue chid s ≡ (tqueue_remove chid x >> pure x) s
  unfolding tqueue_dequeue tqueue_remove
  dequeue-eq-remove x e h p = ground arith

  pub dequeue_empty : HoldsQueue s chid [] → tqueue_dequeue chid s ≡ some (num_ids, s)
  unfolding tqueue_dequeue
  dequeue_empty q = ground (arith, q.head_first)

  -- On a queue that holds `x` followed by `xs`, `tqueue_dequeue` returns `x`: the queue holds `xs`, both
  -- links of `x` are null, and the links of the threads outside the queue, all states and channels, the
  -- other queues and the current thread are as before.
  pub dequeue_refines :
      (x : ℕ) (xs : List ℕ)
      → HoldsQueue s chid (x ∷ xs)
      → Returns
          (λ pid s'. (pid ≡ x) × Became s s' chid (x ∷ xs) xs × IsDetached s' x)
          (tqueue_dequeue chid s)
  dequeue_refines x xs q = rw (dequeue-eq-remove x q.head_first q.linked.0 q.linked.1) (
      Returns-bind (λ _ s'. Became s s' chid (x ∷ xs) xs × IsDetached s' x) _ (tqueue_remove chid x)
        (λ _. pure x) s
        (subst
          (λ ys.
            Returns (λ _ s'. Became s s' chid (x ∷ xs) ys × IsDetached s' x)
              (tqueue_remove chid x s))
          (remove_here x x xs refl) (remove_refines x (x ∷ xs) q (inl refl)))
        (λ _ s' b. (refl, b.0, b.1)))

  -- `tqueue_remove` of a thread whose links are both null, as they are for a thread in no queue, returns
  -- and leaves the queue empty, whatever it held.
  pub remove_detached :
      (pid : ℕ)
      → pid < num_ids
      → prev_of s pid ≡ num_ids
      → next_of s pid ≡ num_ids
      → Returns (λ _ s'. HoldsQueue s' chid []) (tqueue_remove chid pid s)
  unfolding tqueue_remove
  remove_detached pid h p n = ground arith
