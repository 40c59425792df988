-- ===== src/Base/Fault.antt =====
-- State passing with failure. `none` is a call that does not return: a panic, an access outside an
-- array, or a spin on a lock that is held.
use mathlib.Core.Option.{Option, none, some}
use mathlib.Core.Bool.{Bool, true, false}
use mathlib.Core.Path.{◌≡◌, refl}

abbrev pub M : Type 0 → Type 0 → Type 0
M S A = S → Option (A × S)

abbrev pub pure : {S A : Type 0} → A → M S A
pure a s = some (a, s)

abbrev pub stop : {S A : Type 0} → M S A
stop s = none

infixl 5 ◌>>=◌ ◌>>◌
abbrev pub ◌>>=◌ : {S A B : Type 0} → M S A → (A → M S B) → M S B
◌>>=◌ m f s = elim (m s) [ none ↦ none | some (a, s') ↦ f a s' ]

abbrev pub ◌>>◌ : {S B : Type 0} → M S (Unit {0}) → M S B → M S B
m >> k = m >>= λ _. k

-- An array access in range, or a stop.
abbrev pub check : {S : Type 0} → Bool → M S (Unit {0})
check true s = some (tt, s)
check false s = none

-- The call returns, and what it returns satisfies `P`.
abbrev pub Returns : {S A : Type 0} → (A → S → Type 0) → Option (A × S) → Type 0
Returns P none = ⊥
Returns P (some (a, s)) = P a s

pub Returns-bind :
    {S A B : Type 0} (P : A → S → Type 0) (Q : B → S → Type 0) (m : M S A) (f : A → M S B) (s : S)
    → Returns P (m s)
    → ((a : A) (s' : S) → P a s' → Returns Q (f a s'))
    → Returns Q ((m >>= f) s)
Returns-bind {S} {A} {B} P Q m f s h k = go (m s) h
  where
    go :
        (r : Option (A × S))
        → Returns P r
        → Returns Q (elim r [ none ↦ none | some (a, s') ↦ f a s' ])
    go none h = h
    go (some (a, s')) h = k a s' h

pub Returns-mono :
    {S A : Type 0} (P Q : A → S → Type 0) (r : Option (A × S))
    → Returns P r
    → ((a : A) (s : S) → P a s → Returns Q (some (a, s)))
    → Returns Q r
Returns-mono P Q none h k = h
Returns-mono P Q (some (a, s)) h k = k a s h

pub Returns-both :
    {S A : Type 0} (P Q : A → S → Type 0) (r : Option (A × S))
    → Returns P r
    → Returns Q r
    → Returns (λ a s. P a s × Q a s) r
Returns-both P Q none h k = h
Returns-both P Q (some (a, s)) h k = (h, k)

pub Returns-all :
    {S A I : Type 0} (P : I → A → S → Type 0) (r : Option (A × S)) (i : I)
    → ((i : I) → Returns (P i) r)
    → Returns (λ a s. (i : I) → P i a s) r
Returns-all P none i h = h i
Returns-all P (some (a, s)) i h = h

-- A first step whose result is known.
pub Returns-step :
    {S A B : Type 0} (Q : B → S → Type 0) (m : M S A) (f : A → M S B) (s s' : S) (a : A)
    → m s ≡ some (a, s')
    → Returns Q (f a s')
    → Returns Q ((m >>= f) s)
Returns-step Q m f s s' a e h = rw (◌>>=◌, e) h

pub run-step :
    {S A B : Type 0} (m : M S A) (f : A → M S B) (s s' : S) (a : A)
    → m s ≡ some (a, s')
    → (m >>= f) s ≡ f a s'
run-step m f s s' a e = rw (◌>>=◌, e) refl
