-- ===== src/Links.antt =====
-- Doubly linked lists kept by index in a table, with `num_ids` for the null index. Both the thread
-- queues (kern/thread) and the message queue (kern/lib/ipc.c) link their tables this way.
pub mod Enqueue
pub mod Neighbours
pub mod Removal
use advanced_synchronization.Base.{
  ℕ, ◌<◌, ◌≡◌, refl, ◌∙◌, ◌⊎◌, inl, inr, List, [], ◌∷◌, num_ids, Distinct, In, NotIn, arith,
  first_or, last_or,
}

module _ (prev next : ℕ → ℕ) where
  -- From the node `p` on, the nodes `xs` are linked in this order, both ways.
  abbrev pub Linked : ℕ → List ℕ → Type 0
  Linked p [] = Unit
  Linked p (x ∷ xs) = (x < num_ids) × (prev x ≡ p) × (next x ≡ first_or num_ids xs) × Linked x xs

  -- The queue with these ends holds exactly `xs`, in order.
  pub record IsQueue (head tail : ℕ) (xs : List ℕ) : Type 0 where
    pub head_first : head ≡ first_or num_ids xs
    pub tail_last : tail ≡ last_or num_ids xs
    pub linked : Linked num_ids xs
    pub distinct : Distinct xs

  pub Linked-lt : (p a : ℕ) (xs : List ℕ) → Linked p xs → In a xs → a < num_ids
  Linked-lt p a [] l h = absurd h
  Linked-lt p a (x ∷ xs) l (inl e) = rw e l.0
  Linked-lt p a (x ∷ xs) l (inr h) = Linked-lt x a xs l.3 h

  pub Linked-null : (p : ℕ) (xs : List ℕ) → Linked p xs → NotIn num_ids xs
  Linked-null p [] l = tt
  Linked-null p (x ∷ xs) l = (omega (arith, l.0), Linked-null x xs l.3)

  -- The neighbours of a node are the null index or nodes of the list.
  pub Linked-next :
      (p a : ℕ) (xs : List ℕ) → Linked p xs → In a xs → (next a ≡ num_ids) ⊎ In (next a) xs
  Linked-next p a [] l h = absurd h
  Linked-next p a (x ∷ []) l (inl e) = inl (rw e l.2)
  Linked-next p a (x ∷ []) l (inr h) = absurd h
  Linked-next p a (x ∷ y ∷ ys) l (inl e) = inr (inr (inl (rw e l.2)))
  Linked-next p a (x ∷ y ∷ ys) l (inr h) = elim (Linked-next x a (y ∷ ys) l.3 h) [
    | inl e ↦ inl e
    | inr k ↦ inr (inr k)
  ]

  pub Linked-prev : (p a : ℕ) (xs : List ℕ) → Linked p xs → In a xs → (prev a ≡ p) ⊎ In (prev a) xs
  Linked-prev p a [] l h = absurd h
  Linked-prev p a (x ∷ xs) l (inl e) = inl (rw e l.1)
  Linked-prev p a (x ∷ xs) l (inr h) = elim (Linked-prev x a xs l.3 h) [
    | inl e ↦ inr (inl e)
    | inr k ↦ inr (inr k)
  ]

-- A list is not affected by writes to other nodes.
pub Linked-frame :
    (prev next prev' next' : ℕ → ℕ) (p : ℕ) (xs : List ℕ)
    → Linked prev next p xs
    → ((a : ℕ) → In a xs → (prev' a ≡ prev a) × (next' a ≡ next a))
    → Linked prev' next' p xs
Linked-frame prev next prev' next' p [] l same = tt
Linked-frame prev next prev' next' p (x ∷ xs) l same = (
  l.0,
  (same x (inl refl)).0 ∙ l.1,
  (same x (inl refl)).1 ∙ l.2,
  Linked-frame prev next prev' next' x xs l.3 (λ a h. same a (inr h)),
)

pub IsQueue-frame :
    (prev next prev' next' : ℕ → ℕ) (head tail : ℕ) (xs : List ℕ)
    → IsQueue prev next head tail xs
    → ((a : ℕ) → In a xs → (prev' a ≡ prev a) × (next' a ≡ next a))
    → IsQueue prev' next' head tail xs
IsQueue-frame prev next prev' next' head tail xs q same = record {
  head_first = q.head_first;
  tail_last = q.tail_last;
  linked = Linked-frame prev next prev' next' num_ids xs q.linked same;
  distinct = q.distinct;
}
