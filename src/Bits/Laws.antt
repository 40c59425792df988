-- ===== src/Bits/Laws.antt =====
-- What setting and clearing one bit of a byte does to its bits.
use native.Mathlib.Decide.{ℕ_discrete}
use advanced_synchronization.Base.{ℕ, suc, ◌<◌, ◌≡◌, ◌≢◌, sym, subst, true, false, arith}
use advanced_synchronization.Bits.{test_bit, set_bit, clear_bit}

below_suc : (P : ℕ → Type 0) (n : ℕ) → P n → ((i : ℕ) → i < n → P i) → (i : ℕ) → i < suc n → P i
below_suc P n p h i l = elim (ℕ_discrete i n) [
  | yes e ↦ subst P (sym e) p
  | no e ↦ h i (omega arith)
]

below8 : (P : ℕ → Type 0) → P 0 → P 1 → P 2 → P 3 → P 4 → P 5 → P 6 → P 7 → (i : ℕ) → i < 8 → P i
below8 P a b c d e f g h = below_suc P 7 h (
    below_suc P 6 g (
      below_suc P 5 f (
        below_suc P 4 e (
          below_suc P 3 d
            (below_suc P 2 c (below_suc P 1 b (below_suc P 0 a (λ i l. absurd (omega arith)))))))))

pub set_same : (w i : ℕ) → i < 8 → test_bit (set_bit w i) i ≡ true
unfolding test_bit set_bit
set_same w =
    below8 (λ i. test_bit (set_bit w i) i ≡ true) (ground arith) (ground arith) (ground arith)
      (ground arith) (ground arith) (ground arith) (ground arith) (ground arith)

pub clear_same : (w i : ℕ) → i < 8 → test_bit (clear_bit w i) i ≡ false
unfolding test_bit clear_bit
clear_same w =
    below8 (λ i. test_bit (clear_bit w i) i ≡ false) (ground arith) (ground arith) (ground arith)
      (ground arith) (ground arith) (ground arith) (ground arith) (ground arith)

set_0 : (w j : ℕ) → j < 8 → j ≢ 0 → test_bit (set_bit w 0) j ≡ test_bit w j
unfolding test_bit set_bit
set_0 w =
    below8 (λ j. j ≢ 0 → test_bit (set_bit w 0) j ≡ test_bit w j) (λ n. ground (arith, n))
      (λ n. ground (arith, n)) (λ n. ground (arith, n)) (λ n. ground (arith, n))
      (λ n. ground (arith, n)) (λ n. ground (arith, n)) (λ n. ground (arith, n))
      (λ n. ground (arith, n))

set_1 : (w j : ℕ) → j < 8 → j ≢ 1 → test_bit (set_bit w 1) j ≡ test_bit w j
unfolding test_bit set_bit
set_1 w =
    below8 (λ j. j ≢ 1 → test_bit (set_bit w 1) j ≡ test_bit w j) (λ n. ground (arith, n))
      (λ n. ground (arith, n)) (λ n. ground (arith, n)) (λ n. ground (arith, n))
      (λ n. ground (arith, n)) (λ n. ground (arith, n)) (λ n. ground (arith, n))
      (λ n. ground (arith, n))

set_2 : (w j : ℕ) → j < 8 → j ≢ 2 → test_bit (set_bit w 2) j ≡ test_bit w j
unfolding test_bit set_bit
set_2 w =
    below8 (λ j. j ≢ 2 → test_bit (set_bit w 2) j ≡ test_bit w j) (λ n. ground (arith, n))
      (λ n. ground (arith, n)) (λ n. ground (arith, n)) (λ n. ground (arith, n))
      (λ n. ground (arith, n)) (λ n. ground (arith, n)) (λ n. ground (arith, n))
      (λ n. ground (arith, n))

set_3 : (w j : ℕ) → j < 8 → j ≢ 3 → test_bit (set_bit w 3) j ≡ test_bit w j
unfolding test_bit set_bit
set_3 w =
    below8 (λ j. j ≢ 3 → test_bit (set_bit w 3) j ≡ test_bit w j) (λ n. ground (arith, n))
      (λ n. ground (arith, n)) (λ n. ground (arith, n)) (λ n. ground (arith, n))
      (λ n. ground (arith, n)) (λ n. ground (arith, n)) (λ n. ground (arith, n))
      (λ n. ground (arith, n))

set_4 : (w j : ℕ) → j < 8 → j ≢ 4 → test_bit (set_bit w 4) j ≡ test_bit w j
unfolding test_bit set_bit
set_4 w =
    below8 (λ j. j ≢ 4 → test_bit (set_bit w 4) j ≡ test_bit w j) (λ n. ground (arith, n))
      (λ n. ground (arith, n)) (λ n. ground (arith, n)) (λ n. ground (arith, n))
      (λ n. ground (arith, n)) (λ n. ground (arith, n)) (λ n. ground (arith, n))
      (λ n. ground (arith, n))

set_5 : (w j : ℕ) → j < 8 → j ≢ 5 → test_bit (set_bit w 5) j ≡ test_bit w j
unfolding test_bit set_bit
set_5 w =
    below8 (λ j. j ≢ 5 → test_bit (set_bit w 5) j ≡ test_bit w j) (λ n. ground (arith, n))
      (λ n. ground (arith, n)) (λ n. ground (arith, n)) (λ n. ground (arith, n))
      (λ n. ground (arith, n)) (λ n. ground (arith, n)) (λ n. ground (arith, n))
      (λ n. ground (arith, n))

set_6 : (w j : ℕ) → j < 8 → j ≢ 6 → test_bit (set_bit w 6) j ≡ test_bit w j
unfolding test_bit set_bit
set_6 w =
    below8 (λ j. j ≢ 6 → test_bit (set_bit w 6) j ≡ test_bit w j) (λ n. ground (arith, n))
      (λ n. ground (arith, n)) (λ n. ground (arith, n)) (λ n. ground (arith, n))
      (λ n. ground (arith, n)) (λ n. ground (arith, n)) (λ n. ground (arith, n))
      (λ n. ground (arith, n))

set_7 : (w j : ℕ) → j < 8 → j ≢ 7 → test_bit (set_bit w 7) j ≡ test_bit w j
unfolding test_bit set_bit
set_7 w =
    below8 (λ j. j ≢ 7 → test_bit (set_bit w 7) j ≡ test_bit w j) (λ n. ground (arith, n))
      (λ n. ground (arith, n)) (λ n. ground (arith, n)) (λ n. ground (arith, n))
      (λ n. ground (arith, n)) (λ n. ground (arith, n)) (λ n. ground (arith, n))
      (λ n. ground (arith, n))

pub set_other :
    (w i : ℕ) → i < 8 → (j : ℕ) → j < 8 → j ≢ i → test_bit (set_bit w i) j ≡ test_bit w j
set_other w =
    below8 (λ i. (j : ℕ) → j < 8 → j ≢ i → test_bit (set_bit w i) j ≡ test_bit w j) (set_0 w)
      (set_1 w) (set_2 w) (set_3 w) (set_4 w) (set_5 w) (set_6 w) (set_7 w)

clear_0 : (w j : ℕ) → j < 8 → j ≢ 0 → test_bit (clear_bit w 0) j ≡ test_bit w j
unfolding test_bit clear_bit
clear_0 w =
    below8 (λ j. j ≢ 0 → test_bit (clear_bit w 0) j ≡ test_bit w j) (λ n. ground (arith, n))
      (λ n. ground (arith, n)) (λ n. ground (arith, n)) (λ n. ground (arith, n))
      (λ n. ground (arith, n)) (λ n. ground (arith, n)) (λ n. ground (arith, n))
      (λ n. ground (arith, n))

clear_1 : (w j : ℕ) → j < 8 → j ≢ 1 → test_bit (clear_bit w 1) j ≡ test_bit w j
unfolding test_bit clear_bit
clear_1 w =
    below8 (λ j. j ≢ 1 → test_bit (clear_bit w 1) j ≡ test_bit w j) (λ n. ground (arith, n))
      (λ n. ground (arith, n)) (λ n. ground (arith, n)) (λ n. ground (arith, n))
      (λ n. ground (arith, n)) (λ n. ground (arith, n)) (λ n. ground (arith, n))
      (λ n. ground (arith, n))

clear_2 : (w j : ℕ) → j < 8 → j ≢ 2 → test_bit (clear_bit w 2) j ≡ test_bit w j
unfolding test_bit clear_bit
clear_2 w =
    below8 (λ j. j ≢ 2 → test_bit (clear_bit w 2) j ≡ test_bit w j) (λ n. ground (arith, n))
      (λ n. ground (arith, n)) (λ n. ground (arith, n)) (λ n. ground (arith, n))
      (λ n. ground (arith, n)) (λ n. ground (arith, n)) (λ n. ground (arith, n))
      (λ n. ground (arith, n))

clear_3 : (w j : ℕ) → j < 8 → j ≢ 3 → test_bit (clear_bit w 3) j ≡ test_bit w j
unfolding test_bit clear_bit
clear_3 w =
    below8 (λ j. j ≢ 3 → test_bit (clear_bit w 3) j ≡ test_bit w j) (λ n. ground (arith, n))
      (λ n. ground (arith, n)) (λ n. ground (arith, n)) (λ n. ground (arith, n))
      (λ n. ground (arith, n)) (λ n. ground (arith, n)) (λ n. ground (arith, n))
      (λ n. ground (arith, n))

clear_4 : (w j : ℕ) → j < 8 → j ≢ 4 → test_bit (clear_bit w 4) j ≡ test_bit w j
unfolding test_bit clear_bit
clear_4 w =
    below8 (λ j. j ≢ 4 → test_bit (clear_bit w 4) j ≡ test_bit w j) (λ n. ground (arith, n))
      (λ n. ground (arith, n)) (λ n. ground (arith, n)) (λ n. ground (arith, n))
      (λ n. ground (arith, n)) (λ n. ground (arith, n)) (λ n. ground (arith, n))
      (λ n. ground (arith, n))

clear_5 : (w j : ℕ) → j < 8 → j ≢ 5 → test_bit (clear_bit w 5) j ≡ test_bit w j
unfolding test_bit clear_bit
clear_5 w =
    below8 (λ j. j ≢ 5 → test_bit (clear_bit w 5) j ≡ test_bit w j) (λ n. ground (arith, n))
      (λ n. ground (arith, n)) (λ n. ground (arith, n)) (λ n. ground (arith, n))
      (λ n. ground (arith, n)) (λ n. ground (arith, n)) (λ n. ground (arith, n))
      (λ n. ground (arith, n))

clear_6 : (w j : ℕ) → j < 8 → j ≢ 6 → test_bit (clear_bit w 6) j ≡ test_bit w j
unfolding test_bit clear_bit
clear_6 w =
    below8 (λ j. j ≢ 6 → test_bit (clear_bit w 6) j ≡ test_bit w j) (λ n. ground (arith, n))
      (λ n. ground (arith, n)) (λ n. ground (arith, n)) (λ n. ground (arith, n))
      (λ n. ground (arith, n)) (λ n. ground (arith, n)) (λ n. ground (arith, n))
      (λ n. ground (arith, n))

clear_7 : (w j : ℕ) → j < 8 → j ≢ 7 → test_bit (clear_bit w 7) j ≡ test_bit w j
unfolding test_bit clear_bit
clear_7 w =
    below8 (λ j. j ≢ 7 → test_bit (clear_bit w 7) j ≡ test_bit w j) (λ n. ground (arith, n))
      (λ n. ground (arith, n)) (λ n. ground (arith, n)) (λ n. ground (arith, n))
      (λ n. ground (arith, n)) (λ n. ground (arith, n)) (λ n. ground (arith, n))
      (λ n. ground (arith, n))

pub clear_other :
    (w i : ℕ) → i < 8 → (j : ℕ) → j < 8 → j ≢ i → test_bit (clear_bit w i) j ≡ test_bit w j
clear_other w =
    below8 (λ i. (j : ℕ) → j < 8 → j ≢ i → test_bit (clear_bit w i) j ≡ test_bit w j) (clear_0 w)
      (clear_1 w) (clear_2 w) (clear_3 w) (clear_4 w) (clear_5 w) (clear_6 w) (clear_7 w)
