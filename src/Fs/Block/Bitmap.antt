-- ===== src/Fs/Block/Bitmap.antt =====
-- The bitmap with one bit set or cleared.
use native.Mathlib.Decide.{ℕ_discrete}
use advanced_synchronization.Base.{
  ℕ, ◌/◌, ◌%◌, ◌<◌, ◌≡◌, ◌≢◌, sym, ap, ◌∙◌, true, false, update, arith,
}
use advanced_synchronization.Bits.{test_bit, set_bit, clear_bit}
use advanced_synchronization.Bits.Laws.{set_same, set_other, clear_same, clear_other}
use advanced_synchronization.Fs.Disk.{Block}
use advanced_synchronization.Fs.Block.Search.{bit_at}

module _ (f : ℕ → ℕ → ℕ) where
  -- The bitmap `d` with `f` at the bit `i`.
  abbrev pub changed : Block → ℕ → Block
  changed d i = update d (i / 8) (f (d (i / 8)) (i % 8))

  changed_same :
      (d : Block) (i : ℕ) → bit_at (changed d i) i ≡ test_bit (f (d (i / 8)) (i % 8)) (i % 8)
  changed_same d i = ground arith

  changed_other :
      ((w i : ℕ) → i < 8 → (j : ℕ) → j < 8 → j ≢ i → test_bit (f w i) j ≡ test_bit w j)
      → (d : Block) (i j : ℕ) → j ≢ i
      → bit_at (changed d i) j ≡ bit_at d j
  changed_other law d i j ne = elim (ℕ_discrete (j / 8) (i / 8)) [
    | yes e ↦
        ap (λ w. test_bit w (j % 8)) (at_index e)
        ∙ law (d (i / 8)) (i % 8) (omega arith) (j % 8) (omega arith) (λ h. ne (omega arith))
        ∙ ap (λ a. test_bit (d a) (j % 8)) (sym e)
    | no h ↦ ap (λ w. test_bit w (j % 8)) (off_index h)
  ]
    where
      at_index : j / 8 ≡ i / 8 → changed d i (j / 8) ≡ f (d (i / 8)) (i % 8)
      at_index e = ground (arith, e)

      off_index : j / 8 ≢ i / 8 → changed d i (j / 8) ≡ d (j / 8)
      off_index h = ground (arith, h)

pub set-bit_at : (d : Block) (i : ℕ) → bit_at (changed set_bit d i) i ≡ true
set-bit_at d i = changed_same set_bit d i ∙ set_same (d (i / 8)) (i % 8) (omega arith)

pub set-bit_at_ne : (d : Block) (i j : ℕ) → j ≢ i → bit_at (changed set_bit d i) j ≡ bit_at d j
set-bit_at_ne = changed_other set_bit set_other

pub clear-bit_at : (d : Block) (i : ℕ) → bit_at (changed clear_bit d i) i ≡ false
clear-bit_at d i = changed_same clear_bit d i ∙ clear_same (d (i / 8)) (i % 8) (omega arith)

pub clear-bit_at_ne : (d : Block) (i j : ℕ) → j ≢ i → bit_at (changed clear_bit d i) j ≡ bit_at d j
clear-bit_at_ne = changed_other clear_bit clear_other
