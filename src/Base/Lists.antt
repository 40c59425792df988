-- ===== src/Base/Lists.antt =====
-- Lists measured by native numbers, membership as a test, and its laws.
use Prim.Native.Nat.{ℕ, suc, ◌+◌}
use mathlib.Core.Path.{◌≡◌, refl, sym, subst}
use mathlib.Core.Logic.{◌≢◌, ◌⊎◌, inl, inr}
use mathlib.Core.List.{List, [], ◌∷◌, ◌++◌}
use native.Mathlib.Omega.{arith}
use advanced_synchronization.Base.Tests.{◌==◌, if◌then◌else◌}

abbrev pub length {ℓ} : {A : Type ℓ} → List A → ℕ
length [] = 0
length (x ∷ xs) = suc (length xs)

pub length-append {ℓ} : {A : Type ℓ} (xs ys : List A) → length (xs ++ ys) ≡ length xs + length ys
length-append [] ys = omega arith
length-append (x ∷ xs) ys = omega (arith, length-append xs ys)

-- Membership of a number in a list, and its absence, by recursion.
abbrev pub In : ℕ → List ℕ → Type 0
In a [] = ⊥
In a (x ∷ xs) = (a ≡ x) ⊎ In a xs

abbrev pub NotIn : ℕ → List ℕ → Type 0
NotIn a [] = Unit
NotIn a (x ∷ xs) = (a ≢ x) × NotIn a xs

pub not_in : (a : ℕ) (xs : List ℕ) → In a xs → NotIn a xs → ⊥
not_in a [] h n = h
not_in a (x ∷ xs) (inl e) n = n.0 e
not_in a (x ∷ xs) (inr h) n = not_in a xs h n.1

-- A member differs from what is no member.
pub ne_of_In : (a b : ℕ) (xs : List ℕ) → In a xs → NotIn b xs → a ≢ b
ne_of_In a b xs h n e = not_in b xs (subst (λ c. In c xs) e h) n

pub In-append_left : (a : ℕ) (xs ys : List ℕ) → In a xs → In a (xs ++ ys)
In-append_left a [] ys h = absurd h
In-append_left a (x ∷ xs) ys (inl e) = inl e
In-append_left a (x ∷ xs) ys (inr h) = inr (In-append_left a xs ys h)

pub In-append_right : (a : ℕ) (xs ys : List ℕ) → In a ys → In a (xs ++ ys)
In-append_right a [] ys h = h
In-append_right a (x ∷ xs) ys h = inr (In-append_right a xs ys h)

pub In-append : (a : ℕ) (xs ys : List ℕ) → In a (xs ++ ys) → In a xs ⊎ In a ys
In-append a [] ys h = inr h
In-append a (x ∷ xs) ys (inl e) = inl (inl e)
In-append a (x ∷ xs) ys (inr h) = elim (In-append a xs ys h) [ inl k ↦ inl (inr k) | inr k ↦ inr k ]

pub NotIn-append : (a : ℕ) (xs ys : List ℕ) → NotIn a xs → NotIn a ys → NotIn a (xs ++ ys)
NotIn-append a [] ys h k = k
NotIn-append a (x ∷ xs) ys h k = (h.0, NotIn-append a xs ys h.1 k)

pub NotIn-append_left : (a : ℕ) (xs ys : List ℕ) → NotIn a (xs ++ ys) → NotIn a xs
NotIn-append_left a [] ys h = tt
NotIn-append_left a (x ∷ xs) ys h = (h.0, NotIn-append_left a xs ys h.1)

pub NotIn-append_right : (a : ℕ) (xs ys : List ℕ) → NotIn a (xs ++ ys) → NotIn a ys
NotIn-append_right a [] ys h = h
NotIn-append_right a (x ∷ xs) ys h = NotIn-append_right a xs ys h.1

-- No number stands twice in the list.
abbrev pub Distinct : List ℕ → Type 0
Distinct [] = Unit
Distinct (x ∷ xs) = NotIn x xs × Distinct xs

pub Distinct-snoc : (xs : List ℕ) (a : ℕ) → Distinct xs → NotIn a xs → Distinct (xs ++ a ∷ [])
Distinct-snoc [] a d n = (tt, tt)
Distinct-snoc (x ∷ xs) a d n =
    (NotIn-append x xs (a ∷ []) d.0 (λ e. n.0 (sym e), tt), Distinct-snoc xs a d.1 n.1)

abbrev pub All {ℓ κ} : {A : Type ℓ} → (A → Type κ) → List A → Type κ
All P [] = Unit
All P (x ∷ xs) = P x × All P xs

pub All-append {ℓ κ} :
    {A : Type ℓ} (P : A → Type κ) (xs ys : List A) → All P xs → All P ys → All P (xs ++ ys)
All-append P [] ys hx hy = hy
All-append P (x ∷ xs) ys hx hy = (hx.0, All-append P xs ys hx.1 hy)

-- The first and the last element, with a default for the empty list.
abbrev pub first_or : ℕ → List ℕ → ℕ
first_or d [] = d
first_or d (x ∷ xs) = x

abbrev pub last_or : ℕ → List ℕ → ℕ
last_or d [] = d
last_or d (x ∷ xs) = last_or x xs

pub last-snoc : (p a : ℕ) (xs : List ℕ) → last_or p (xs ++ a ∷ []) ≡ a
last-snoc p a [] = refl
last-snoc p a (x ∷ xs) = last-snoc x a xs

pub last-cases : (p : ℕ) (xs : List ℕ) → (last_or p xs ≡ p) ⊎ In (last_or p xs) xs
last-cases p [] = inl refl
last-cases p (x ∷ xs) = elim (last-cases x xs) [ inl e ↦ inr (inl e) | inr h ↦ inr (inr h) ]

-- The list without the number `a`.
abbrev pub remove : ℕ → List ℕ → List ℕ
remove a [] = []
remove a (x ∷ xs) = if x == a then xs else x ∷ remove a xs
