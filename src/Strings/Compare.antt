-- ===== src/Strings/Compare.antt =====
-- The comparisons return 0 on equal bytes only.
use advanced_synchronization.Base.{
  ℕ, zero, suc, ◌+◌, ◌<◌, ◌≡◌, ◌↔◌, inl, inr, refl, sym, ap, ◌∙◌, ◌==◌, pos, arith, Bool-cases,
  ==→ne, eq→==,
}
use advanced_synchronization.Strings.{Bytes, byte_diff, memcmp}

-- The `n` bytes from the two addresses on are the same.
abbrev pub SameBytes : Bytes → ℕ → ℕ → ℕ → Type 0
SameBytes m v1 v2 n = (i : ℕ) → i < n → m (v1 + i) ≡ m (v2 + i)

byte_diff-zero : (a b : ℕ) → byte_diff a b ≡ pos 0 → a ≡ b
unfolding byte_diff
byte_diff-zero a b e = ground (arith, e)

cons_same :
    (m : Bytes) (v1 v2 n : ℕ)
    → m v1 ≡ m v2
    → SameBytes m (v1 + 1) (v2 + 1) n
    → SameBytes m v1 v2 (suc n)
cons_same m v1 v2 n e h zero l = rw (zero_right v1, zero_right v2) e
  where
    zero_right : (a : ℕ) → a + 0 ≡ a
    zero_right a = omega arith
cons_same m v1 v2 n e h (suc i) l = ap m (shift v1) ∙ h i (omega arith) ∙ ap m (sym (shift v2))
  where
    shift : (a : ℕ) → a + suc i ≡ a + 1 + i
    shift a = omega arith

head_same : (m : Bytes) (v1 v2 n : ℕ) → SameBytes m v1 v2 (suc n) → m v1 ≡ m v2
head_same m v1 v2 n h = ap m (sym (zero_right v1)) ∙ h 0 (omega arith) ∙ ap m (zero_right v2)
  where
    zero_right : (a : ℕ) → a + 0 ≡ a
    zero_right a = omega arith

tail_same : (m : Bytes) (v1 v2 n : ℕ) → SameBytes m v1 v2 (suc n) → SameBytes m (v1 + 1) (v2 + 1) n
tail_same m v1 v2 n h i l = ap m (shift v1) ∙ h (i + 1) (omega arith) ∙ ap m (sym (shift v2))
  where
    shift : (a : ℕ) → a + 1 + i ≡ a + (i + 1)
    shift a = omega arith

memcmp-SameBytes : (m : Bytes) (v1 v2 n : ℕ) → memcmp m v1 v2 n ≡ pos 0 → SameBytes m v1 v2 n
unfolding memcmp
memcmp-SameBytes m v1 v2 zero e = λ i l. absurd (omega arith)
memcmp-SameBytes m v1 v2 (suc n) e = elim (Bool-cases (m v1 == m v2)) [
  | inl b ↦
      cons_same m v1 v2 n (ground (arith, b))
        (memcmp-SameBytes m (v1 + 1) (v2 + 1) n (ground (arith, e, b)))
  | inr b ↦ absurd (==→ne (m v1) (m v2) b (byte_diff-zero (m v1) (m v2) (ground (arith, e, b))))
]

SameBytes-memcmp : (m : Bytes) (v1 v2 n : ℕ) → SameBytes m v1 v2 n → memcmp m v1 v2 n ≡ pos 0
unfolding memcmp
SameBytes-memcmp m v1 v2 zero h = refl
SameBytes-memcmp m v1 v2 (suc n) h =
    rw (eq→== (m v1) (m v2) (head_same m v1 v2 n h))
      (SameBytes-memcmp m (v1 + 1) (v2 + 1) n (tail_same m v1 v2 n h))

-- `memcmp` returns 0 exactly when the `n` bytes are the same.
pub memcmp-zero_iff : (m : Bytes) (v1 v2 n : ℕ) → (memcmp m v1 v2 n ≡ pos 0) ↔ SameBytes m v1 v2 n
memcmp-zero_iff m v1 v2 n = (memcmp-SameBytes m v1 v2 n, SameBytes-memcmp m v1 v2 n)
