-- ===== src/Strings/Lengths.antt =====
-- The length of a string, with and without a bound.
use advanced_synchronization.Base.{
  ℕ, zero, suc, ◌+◌, ◌<◌, ◌≤◌, ◌≡◌, ◌≢◌, ◌⊎◌, inl, inr, refl, ap, ◌∙◌, some, arith,
}
use advanced_synchronization.Strings.{Bytes, strnlen, strlen_from, strlen}

-- The string at `s` has `k` bytes before its terminating 0.
abbrev pub IsString : Bytes → ℕ → ℕ → Type 0
IsString m s zero = m s ≡ 0
IsString m s (suc k) = (m s ≢ 0) × IsString m (s + 1) k

strlen_from_lem :
    (n : ℕ) (m : Bytes) (s k cnt : ℕ)
    → IsString m s k
    → k < n
    → strlen_from n m s cnt ≡ some (cnt + k)
unfolding strlen_from
strlen_from_lem zero m s k cnt h l = absurd (omega arith)
strlen_from_lem (suc n) m s zero cnt h l = rw h (ap some (omega arith))
strlen_from_lem (suc n) m s (suc k) cnt h l =
    ground (arith, h.0, strlen_from_lem n m (s + 1) k (cnt + 1) h.1 (omega arith))

strnlen_lem :
    (m : Bytes) (s k size : ℕ)
    → IsString m s k
    → ((size ≤ k) × (strnlen m s size ≡ size)) ⊎ ((k < size) × (strnlen m s size ≡ k))
unfolding strnlen
strnlen_lem m s k zero h = inl (omega arith, refl)
strnlen_lem m s zero (suc size) h = inr (omega arith, ground (arith, h))
strnlen_lem m s (suc k) (suc size) h = elim (strnlen_lem m (s + 1) k size h.1) [
  | inl (l, e) ↦ inl (omega arith, ground (arith, h.0, e))
  | inr (l, e) ↦ inr (omega arith, ground (arith, h.0, e))
]

-- On a string of `k` bytes: `strlen` ends within `k + 1` rounds and returns `k`, and `strnlen` returns
-- the smaller of `k` and the bound.
pub lengths_agree :
    (m : Bytes) (s k n size : ℕ)
    → IsString m s k
    → k < n
    → (strlen n m s ≡ some k)
      × (((size ≤ k) × (strnlen m s size ≡ size)) ⊎ ((k < size) × (strnlen m s size ≡ k)))
unfolding strlen
lengths_agree m s k n size h l =
    (strlen_from_lem n m s k 0 h l ∙ ap some (omega arith), strnlen_lem m s k size h)
