-- ===== src/Links/Neighbours.antt =====
-- The two neighbours of a node differ from it and from each other.
use advanced_synchronization.Base.{
  ℕ, ◌≢◌, sym, ap, ◌∙◌, inl, inr, List, [], ◌∷◌, num_ids, In, NotIn, Distinct, arith,
}
use advanced_synchronization.Links.{Linked}

module _ (prev next : ℕ → ℕ) (a : ℕ) where
  pub next-ne_self :
      (p : ℕ) (xs : List ℕ) → Linked prev next p xs → In a xs → Distinct xs → next a ≢ a
  next-ne_self p [] l h d = absurd h
  next-ne_self p (x ∷ []) l (inl i) d = omega (arith, l.0, ap next i ∙ l.2)
  next-ne_self p (x ∷ []) l (inr h) d = absurd h
  next-ne_self p (x ∷ y ∷ ys) l (inl i) d = λ e. d.0.0 (sym i ∙ sym e ∙ ap next i ∙ l.2)
  next-ne_self p (x ∷ y ∷ ys) l (inr h) d = next-ne_self x (y ∷ ys) l.3 h d.1

  pub prev-ne_self :
      (p : ℕ) (xs : List ℕ)
      → Linked prev next p xs
      → In a xs
      → Distinct xs
      → NotIn p xs
      → prev a ≢ a
  prev-ne_self p [] l h d n = absurd h
  prev-ne_self p (x ∷ xs) l (inl i) d n = λ e. n.0 (sym (ap prev i ∙ l.1) ∙ e ∙ i)
  prev-ne_self p (x ∷ xs) l (inr h) d n = prev-ne_self x xs l.3 h d.1 d.0

  pub prev-ne-next :
      (p : ℕ) (xs : List ℕ)
      → Linked prev next p xs
      → In a xs
      → Distinct xs
      → NotIn p xs
      → next a ≢ num_ids
      → prev a ≢ next a
  prev-ne-next p [] l h d n t = absurd h
  prev-ne-next p (x ∷ []) l (inl i) d n t = absurd (t (ap next i ∙ l.2))
  prev-ne-next p (x ∷ []) l (inr h) d n t = absurd h
  prev-ne-next p (x ∷ y ∷ ys) l (inl i) d n t =
      λ e. n.1.0 (sym (ap prev i ∙ l.1) ∙ e ∙ ap next i ∙ l.2)
  prev-ne-next p (x ∷ y ∷ ys) l (inr h) d n t = prev-ne-next x (y ∷ ys) l.3 h d.1 d.0 t
