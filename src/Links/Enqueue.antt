-- ===== src/Links/Enqueue.antt =====
-- Appending a node at the tail of a linked list.
use advanced_synchronization.Base.{
  ℕ, ◌<◌, ◌≡◌, ◌≢◌, refl, sym, ◌∙◌, inl, inr, List, [], ◌∷◌, ◌++◌, num_ids, NotIn, Distinct,
  Distinct-snoc, last_or, last-snoc, last-cases, ne_of_In,
}
use advanced_synchronization.Links.{Linked, IsQueue}

module _ (prev next prev' next' : ℕ → ℕ) (pid : ℕ) where
  -- `prev'` and `next'` are the links after `pid` was written behind the node `tail`.
  pub record Appended (tail : ℕ) : Type 0 where
    pub tail_next : next' tail ≡ pid
    pub new_prev : prev' pid ≡ tail
    pub new_next : next' pid ≡ num_ids
    pub same_prev : (a : ℕ) → a ≢ pid → prev' a ≡ prev a
    pub same_next : (a : ℕ) → a ≢ pid → a ≢ tail → next' a ≡ next a

  Linked-snoc :
      (p x : ℕ) (xs : List ℕ)
      → Linked prev next p (x ∷ xs)
      → Distinct (x ∷ xs)
      → NotIn pid (x ∷ xs)
      → pid < num_ids
      → Appended (last_or x xs)
      → Linked prev' next' p ((x ∷ xs) ++ pid ∷ [])
  Linked-snoc p x [] l d fresh h w = (
    l.0,
    w.same_prev x (λ e. fresh.0 (sym e)) ∙ l.1,
    w.tail_next,
    (h, w.new_prev, w.new_next, tt),
  )
  Linked-snoc p x (y ∷ ys) l d fresh h w = (
    l.0,
    w.same_prev x (λ e. fresh.0 (sym e)) ∙ l.1,
    w.same_next x (λ e. fresh.0 (sym e)) x≢last ∙ l.2,
    Linked-snoc x y ys l.3 d.1 fresh.1 h w,
  )
    where
      x≢last : x ≢ last_or y ys
      x≢last e = elim (last-cases y ys) [
        | inl f ↦ d.0.0 (e ∙ f)
        | inr m ↦ ne_of_In (last_or y ys) x ys m d.0.1 (sym e)
      ]

  pub IsQueue-snoc :
      (head x : ℕ) (xs : List ℕ)
      → IsQueue prev next head (last_or x xs) (x ∷ xs)
      → NotIn pid (x ∷ xs)
      → pid < num_ids
      → Appended (last_or x xs)
      → IsQueue prev' next' head pid ((x ∷ xs) ++ pid ∷ [])
  IsQueue-snoc head x xs q fresh h w = record {
    head_first = q.head_first;
    tail_last = sym (last-snoc x pid xs);
    linked = Linked-snoc num_ids x xs q.linked q.distinct fresh h w;
    distinct = Distinct-snoc (x ∷ xs) pid q.distinct fresh;
  }

  -- The first node of an empty queue.
  pub IsQueue-singleton :
      pid < num_ids
      → prev' pid ≡ num_ids
      → next' pid ≡ num_ids
      → IsQueue prev' next' pid pid (pid ∷ [])
  IsQueue-singleton h hp hn = record {
    head_first = refl;
    tail_last = refl;
    linked = (h, hp, hn, tt);
    distinct = (tt, tt);
  }
