-- ===== src/Links/Removal.antt =====
-- Taking a node out of a linked list, wherever it stands.
use advanced_synchronization.Base.{
  ℕ, ◌≡◌, ◌≢◌, refl, sym, ◌∙◌, inl, inr, List, [], ◌∷◌, num_ids, In, NotIn, Distinct,
  Distinct-remove, first_or, last_or, remove, arith, eq→==, ne→==, ne_of_In, ap,
}
use native.Mathlib.Decide.{ℕ_discrete}
use advanced_synchronization.Links.{
  Linked, IsQueue, Linked-frame, Linked-next, Linked-prev, Linked-lt, Linked-null,
}

-- How `remove` meets the node it looks for, and another one.
pub remove_here : (a x : ℕ) (xs : List ℕ) → a ≡ x → remove a (x ∷ xs) ≡ xs
remove_here a x xs e = rw (eq→== x a (sym e))

pub remove_later : (a x : ℕ) (xs : List ℕ) → x ≢ a → remove a (x ∷ xs) ≡ x ∷ remove a xs
remove_later a x xs n = rw (ne→== x a n)

module _ (prev next : ℕ → ℕ) (pid : ℕ) where
  pub last-remove_end :
      (p : ℕ) (xs : List ℕ)
      → Linked prev next p xs
      → In pid xs
      → Distinct xs
      → next pid ≡ num_ids
      → last_or p (remove pid xs) ≡ prev pid
  last-remove_end p [] l h d e = absurd h
  last-remove_end p (x ∷ []) l (inl i) d e = rw (remove_here pid x [] i, i, l.1)
  last-remove_end p (x ∷ []) l (inr h) d e = absurd h
  last-remove_end p (x ∷ y ∷ ys) l (inl i) d e =
      absurd (omega (arith, l.3.0, sym l.2 ∙ ap next (sym i) ∙ e))
  last-remove_end p (x ∷ y ∷ ys) l (inr h) d e =
      rw (remove_later pid x (y ∷ ys) (λ f. ne_of_In pid x (y ∷ ys) h d.0 (sym f)))
        (last-remove_end x (y ∷ ys) l.3 h d.1 e)

  pub last-remove_mid :
      (p : ℕ) (xs : List ℕ)
      → Linked prev next p xs
      → In pid xs
      → Distinct xs
      → next pid ≢ num_ids
      → last_or p (remove pid xs) ≡ last_or p xs
  last-remove_mid p [] l h d e = absurd h
  last-remove_mid p (x ∷ []) l (inl i) d e = absurd (e (ap next i ∙ l.2))
  last-remove_mid p (x ∷ []) l (inr h) d e = absurd h
  last-remove_mid p (x ∷ y ∷ ys) l (inl i) d e = rw (remove_here pid x (y ∷ ys) i)
  last-remove_mid p (x ∷ y ∷ ys) l (inr h) d e =
      rw (remove_later pid x (y ∷ ys) (λ f. ne_of_In pid x (y ∷ ys) h d.0 (sym f)))
        (last-remove_mid x (y ∷ ys) l.3 h d.1 e)

  -- The node without a predecessor is the head.
  head_of_no_prev :
      (x : ℕ) (xs : List ℕ)
      → Linked prev next num_ids (x ∷ xs)
      → In pid (x ∷ xs)
      → prev pid ≡ num_ids
      → pid ≡ x
  head_of_no_prev x xs l (inl i) e = i
  head_of_no_prev x xs l (inr h) e = elim (Linked-prev prev next x pid xs l.3 h) [
    | inl f ↦ absurd (omega (arith, l.0, sym f ∙ e))
    | inr k ↦ absurd (omega (arith, Linked-lt prev next x (prev pid) xs l.3 k))
  ]

  pub first-remove_head :
      (xs : List ℕ)
      → Linked prev next num_ids xs
      → In pid xs
      → prev pid ≡ num_ids
      → first_or num_ids (remove pid xs) ≡ next pid
  first-remove_head [] l h e = absurd h
  first-remove_head (x ∷ xs) l h e =
      let i : pid ≡ x = head_of_no_prev x xs l h e in
      rw (remove_here pid x xs i) (sym (ap next i ∙ l.2))

  pub first-remove_mid :
      (xs : List ℕ)
      → Linked prev next num_ids xs
      → prev pid ≢ num_ids
      → first_or num_ids (remove pid xs) ≡ first_or num_ids xs
  first-remove_mid [] l e = refl
  first-remove_mid (x ∷ xs) l e = rw (remove_later pid x xs (λ f. e (ap prev (sym f) ∙ l.1)))

module _ (prev next prev' next' : ℕ → ℕ) (pid : ℕ) where
  -- `prev'` and `next'` are the links after the neighbours of `pid` were joined.
  pub record Joined : Type 0 where
    pub joined_prev : next pid ≢ num_ids → prev' (next pid) ≡ prev pid
    pub joined_next : prev pid ≢ num_ids → next' (prev pid) ≡ next pid
    pub same_prev : (a : ℕ) → a ≢ pid → a ≢ next pid → prev' a ≡ prev a
    pub same_next : (a : ℕ) → a ≢ pid → a ≢ prev pid → next' a ≡ next a

  module _ (j : Joined) where
    remove_at_head :
        (p x : ℕ) (xs : List ℕ)
        → Linked prev next p (x ∷ xs)
        → pid ≡ x
        → Distinct (x ∷ xs)
        → NotIn p (x ∷ xs)
        → Linked prev' next' p xs
    remove_at_head p x [] l i d fresh = tt
    remove_at_head p x (y ∷ ys) l i d fresh = (
      l.3.0,
      ap prev' (sym next_y) ∙ j.joined_prev (omega (arith, l.3.0, next_y)) ∙ prev_p,
      j.same_next y y≢pid (λ f. fresh.1.0 (sym (f ∙ prev_p))) ∙ l.3.2,
      Linked-frame prev next prev' next' y ys l.3.3 (λ a m. (
        j.same_prev a (away a m) (λ f. ne_of_In a y ys m d.1.0 (f ∙ next_y)),
        j.same_next a (away a m) (λ f. ne_of_In a p ys m fresh.1.1 (f ∙ prev_p)),
      )),
    )
      where
        next_y : next pid ≡ y
        next_y = ap next i ∙ l.2

        prev_p : prev pid ≡ p
        prev_p = ap prev i ∙ l.1

        y≢pid : y ≢ pid
        y≢pid f = d.0.0 (sym (f ∙ i))

        away : (a : ℕ) → In a ys → a ≢ pid
        away a m f = ne_of_In a x ys m d.0.1 (f ∙ i)

    -- A node before `pid` gets the successor that the shortened list gives it.
    next_before :
        (p x : ℕ) (xs : List ℕ)
        → Linked prev next p (x ∷ xs)
        → In pid xs
        → Distinct (x ∷ xs)
        → next' x ≡ first_or num_ids (remove pid xs)
    next_before p x [] l h d = absurd h
    next_before p x (y ∷ ys) l (inl i) d =
        rw (remove_here pid y ys i)
          (ap next' (sym prev_x) ∙ j.joined_next (omega (arith, l.0, prev_x)) ∙ ap next i ∙ l.3.2)
      where
        prev_x : prev pid ≡ x
        prev_x = ap prev i ∙ l.3.1
    next_before p x (y ∷ ys) l (inr h) d =
        rw (remove_later pid y ys (λ f. ne_of_In pid y ys h d.1.0 (sym f)))
          (j.same_next x (λ f. ne_of_In pid x ys h d.0.1 (sym f)) x≢prev ∙ l.2)
      where
        x≢prev : x ≢ prev pid
        x≢prev f = elim (Linked-prev prev next y pid ys l.3.3 h) [
          | inl g ↦ d.0.0 (f ∙ g)
          | inr m ↦ ne_of_In (prev pid) x ys m d.0.1 (sym f)
        ]

    Linked-remove :
        (p : ℕ) (xs : List ℕ)
        → Linked prev next p xs
        → In pid xs
        → Distinct xs
        → NotIn p xs
        → Linked prev' next' p (remove pid xs)
    Linked-remove p [] l h d fresh = tt
    Linked-remove p (x ∷ xs) l (inl i) d fresh =
        rw (remove_here pid x xs i) (remove_at_head p x xs l i d fresh)
    Linked-remove p (x ∷ xs) l (inr h) d fresh = rw (remove_later pid x xs x≢pid) (
      l.0,
      j.same_prev x x≢pid x≢next ∙ l.1,
      next_before p x xs l h d,
      Linked-remove x xs l.3 h d.1 d.0,
    )
      where
        x≢pid : x ≢ pid
        x≢pid f = ne_of_In pid x xs h d.0 (sym f)

        x≢next : x ≢ next pid
        x≢next f = elim (Linked-next prev next x pid xs l.3 h) [
          | inl g ↦ omega (arith, l.0, f ∙ g)
          | inr m ↦ ne_of_In (next pid) x xs m d.0 (sym f)
        ]

    -- The queue without `pid`, with the ends that the removal leaves.
    pub IsQueue-remove :
        (head tail head' tail' : ℕ) (xs : List ℕ)
        → IsQueue prev next head tail xs
        → In pid xs
        → (prev pid ≡ num_ids → head' ≡ next pid)
        → (prev pid ≢ num_ids → head' ≡ head)
        → (next pid ≡ num_ids → tail' ≡ prev pid)
        → (next pid ≢ num_ids → tail' ≡ tail)
        → IsQueue prev' next' head' tail' (remove pid xs)
    IsQueue-remove head tail head' tail' xs q h h1 h2 t1 t2 = record {
      head_first = elim (ℕ_discrete (prev pid) num_ids) [
        | yes e ↦ h1 e ∙ sym (first-remove_head prev next pid xs q.linked h e)
        | no e ↦ h2 e ∙ q.head_first ∙ sym (first-remove_mid prev next pid xs q.linked e)
      ];
      tail_last = elim (ℕ_discrete (next pid) num_ids) [
        | yes e ↦ t1 e ∙ sym (last-remove_end prev next pid num_ids xs q.linked h q.distinct e)
        | no e ↦
            t2 e
            ∙ q.tail_last
            ∙ sym (last-remove_mid prev next pid num_ids xs q.linked h q.distinct e)
      ];
      linked =
          Linked-remove num_ids xs q.linked h q.distinct
            (Linked-null prev next num_ids xs q.linked);
      distinct = Distinct-remove pid xs q.distinct;
    }
