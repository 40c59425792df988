-- ===== src/Fs/Block/Search.antt =====
-- The inner loop of `block_alloc`.
use native.Mathlib.Decide.{ℕ_discrete}
use advanced_synchronization.Base.{
  ap, ◌∙◌, ℕ, zero, suc, ◌+◌, ◌/◌, ◌%◌, ◌<◌, ◌≤◌, ◌≡◌, inl, inr, Bool, Option, none, some, true,
  false, Bool-cases, arith,
}
use advanced_synchronization.Bits.{test_bit}
use advanced_synchronization.Fs.Disk.{Block}
use advanced_synchronization.Fs.Block.{find_free}

-- The bit `i` of a bitmap.
abbrev pub bit_at : Block → ℕ → Bool
bit_at d i = test_bit (d (i / 8)) (i % 8)

-- What the search gives over the bits from `i` to `k`.
abbrev pub IsFirst : Block → ℕ → ℕ → Option ℕ → Type 0
IsFirst d i k none = (t : ℕ) → i ≤ t → t < k → bit_at d t ≡ true
IsFirst d i k (some a) =
    (i ≤ a) × (a < k) × (bit_at d a ≡ false) × ((t : ℕ) → i ≤ t → t < a → bit_at d t ≡ true)

used_before :
    (d : Block) (i k : ℕ) (r : Option ℕ)
    → bit_at d i ≡ true
    → IsFirst d (i + 1) k r
    → IsFirst d i k r
used_before d i k none e h =
    λ t l u. elim (ℕ_discrete t i) [ yes f ↦ ap (bit_at d) f ∙ e | no f ↦ h t (omega arith) u ]
used_before d i k (some a) e h = (
  omega (arith, h.0),
  h.1,
  h.2,
  λ t l u. elim (ℕ_discrete t i) [ yes f ↦ ap (bit_at d) f ∙ e | no f ↦ h.3 t (omega arith) u ],
)

pub find_free-IsFirst : (n i k : ℕ) (d : Block) → k ≡ i + n → IsFirst d i k (find_free n i d)
unfolding find_free
find_free-IsFirst zero i k d e = λ t l u. absurd (omega arith)
find_free-IsFirst (suc n) i k d e = elim (Bool-cases (bit_at d i)) [
  | inl f ↦
      rw f (
        used_before d i k (find_free n (i + 1) d) f (find_free-IsFirst n (i + 1) k d (omega arith)))
  | inr f ↦ rw f (omega arith, omega arith, f, λ t l u. absurd (omega arith))
]
