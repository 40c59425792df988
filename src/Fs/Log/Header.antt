-- ===== src/Fs/Log/Header.antt =====
-- The log's header on the disk: what `write_head` writes, `read_head` reads.
use native.Mathlib.Decide.{ℕ_discrete}
use advanced_synchronization.Base.{ℕ, zero, suc, ◌+◌, ◌<◌, ◌≤◌, ◌≡◌, ◌^◌, refl, ◌∙◌, arith}
use advanced_synchronization.Fs.Disk.{Block, get32, set32, get32-set32, get32-set32_ne}
use advanced_synchronization.Fs.Log.{fill_head}

-- The block `hb` is the header of `n` sectors.
pub record IsHeader (hb : Block) (n : ℕ) (sector : ℕ → ℕ) : Type 0 where
  pub count : get32 hb 0 ≡ n
  pub sectors : (i : ℕ) → i < n → get32 hb (i + 1) ≡ sector i

fill_before :
    (n i : ℕ) (sector : ℕ → ℕ) (hb : Block) (j : ℕ)
    → j < i + 1
    → get32 (fill_head n i sector hb) j ≡ get32 hb j
unfolding fill_head
fill_before zero i sector hb j h = refl
fill_before (suc n) i sector hb j h =
    fill_before n (i + 1) sector (set32 hb (i + 1) (sector i)) j (omega arith)
    ∙ get32-set32_ne hb (i + 1) j (sector i) (λ e. omega arith)

fill_inside :
    (n i : ℕ) (sector : ℕ → ℕ) (hb : Block) (j : ℕ)
    → i ≤ j
    → j < i + n
    → ((k : ℕ) → i ≤ k → k < i + n → sector k < 2 ^ 32)
    → get32 (fill_head n i sector hb) (j + 1) ≡ sector j
unfolding fill_head
fill_inside zero i sector hb j l u b = absurd (omega arith)
fill_inside (suc n) i sector hb j l u b = elim (ℕ_discrete j i) [
  | yes e ↦ rw e (
      fill_before n (i + 1) sector (set32 hb (i + 1) (sector i)) (i + 1) (omega arith)
      ∙ get32-set32 hb (i + 1) (sector i) (b i (omega arith) (omega arith)))
  | no e ↦
      fill_inside n (i + 1) sector (set32 hb (i + 1) (sector i)) j (omega arith) (omega arith)
        (λ k x y. b k (omega arith) (omega arith))
]

pub fill_head-IsHeader :
    (n : ℕ) (sector : ℕ → ℕ) (hb : Block)
    → n < 2 ^ 32
    → ((i : ℕ) → i < n → sector i < 2 ^ 32)
    → IsHeader (fill_head n 0 sector (set32 hb 0 n)) n sector
fill_head-IsHeader n sector hb h b = record {
  count = fill_before n 0 sector (set32 hb 0 n) 0 (omega arith) ∙ get32-set32 hb 0 n h;
  sectors = λ i l.
      fill_inside n 0 sector (set32 hb 0 n) i (omega arith) (omega arith)
        (λ k _ u. b k (omega arith));
}
