-- ===== src/Base/Pigeonhole.antt =====
-- A list of distinct numbers below a bound is no longer than the bound.
use Prim.Native.Nat.{ℕ, zero, suc, ◌≤◌, ◌<◌}
use mathlib.Core.Path.{◌≡◌, refl, sym, ap}
use mathlib.Core.Logic.{◌⊎◌, inl, inr}
use mathlib.Core.List.{List, [], ◌∷◌}
use native.Mathlib.Omega.{arith}
use native.Mathlib.Decide.{ℕ_discrete}
use advanced_synchronization.Base.Tests.{◌==◌, Bool-cases, ==→eq, ==→ne}
use advanced_synchronization.Base.Lists.{length, In, NotIn, Distinct, remove, ne_of_In}

-- Is the number in the list?
pub In-cases : (a : ℕ) (xs : List ℕ) → In a xs ⊎ NotIn a xs
In-cases a [] = inr tt
In-cases a (x ∷ xs) = elim (ℕ_discrete a x) [
  | yes e ↦ inl (inl e)
  | no e ↦ elim (In-cases a xs) [ inl m ↦ inl (inr m) | inr n ↦ inr (e, n) ]
]

length-remove : (a : ℕ) (xs : List ℕ) → In a xs → length xs ≡ suc (length (remove a xs))
length-remove a [] m = absurd m
length-remove a (x ∷ xs) m = elim (Bool-cases (x == a)) [
  | inl e ↦ rw e
  | inr e ↦
      rw e
        (elim m [ inl f ↦ absurd (==→ne x a e (sym f)) | inr m' ↦ ap suc (length-remove a xs m') ])
]

In-remove : (a b : ℕ) (xs : List ℕ) → In b (remove a xs) → In b xs
In-remove a b [] m = m
In-remove a b (x ∷ xs) m = elim (Bool-cases (x == a)) [
  | inl e ↦ inr (rw e at m)
  | inr e ↦
      let m' : (b ≡ x) ⊎ In b (remove a xs) = rw e at m in
      elim m' [ inl f ↦ inl f | inr n ↦ inr (In-remove a b xs n) ]
]

pub NotIn-remove : (a b : ℕ) (xs : List ℕ) → NotIn a xs → NotIn a (remove b xs)
NotIn-remove a b [] h = tt
NotIn-remove a b (x ∷ xs) h = elim (Bool-cases (x == b)) [
  | inl e ↦ rw e h.1
  | inr e ↦ rw e (h.0, NotIn-remove a b xs h.1)
]

pub Distinct-remove : (a : ℕ) (xs : List ℕ) → Distinct xs → Distinct (remove a xs)
Distinct-remove a [] d = tt
Distinct-remove a (x ∷ xs) d = elim (Bool-cases (x == a)) [
  | inl e ↦ rw e d.1
  | inr e ↦ rw e (NotIn-remove x a xs d.0, Distinct-remove a xs d.1)
]

-- The removed number is gone.
pub remove-gone : (a : ℕ) (xs : List ℕ) → Distinct xs → NotIn a (remove a xs)
remove-gone a [] d = tt
remove-gone a (x ∷ xs) d = elim (Bool-cases (x == a)) [
  | inl e ↦ rw e (rw (← ==→eq x a e) d.0)
  | inr e ↦ rw e (λ f. ==→ne x a e (sym f), remove-gone a xs d.1)
]

pub length-le_of_Distinct :
    (n : ℕ) (xs : List ℕ) → Distinct xs → ((a : ℕ) → In a xs → a < n) → length xs ≤ n
length-le_of_Distinct zero [] d h = omega arith
length-le_of_Distinct zero (x ∷ xs) d h = absurd (omega (arith, h x (inl refl)))
length-le_of_Distinct (suc n) xs d h = elim (In-cases n xs) [
  | inl m ↦
      let shorter : length (remove n xs) ≤ n =
        length-le_of_Distinct n (remove n xs) (Distinct-remove n xs d) (λ a k.
          omega
            (arith, h a (In-remove n a xs k), ne_of_In a n (remove n xs) k (remove-gone n xs d))) in
      omega (arith, length-remove n xs m, shorter)
  | inr o ↦
      let shorter : length xs ≤ n =
        length-le_of_Distinct n xs d (λ a k. omega (arith, h a k, ne_of_In a n xs k o)) in
      omega (arith, shorter)
]
