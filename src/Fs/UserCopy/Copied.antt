-- ===== src/Fs/UserCopy/Copied.antt =====
-- What a copy of bytes comes to, from the places `src` to the places `dst`: `memcpy`, and two copies in
-- a row.
use advanced_synchronization.Base.{
  ℕ, ◌+◌, ◌-◌, ◌<◌, ◌≤◌, ◌≡◌, ◌≢◌, sym, subst, ◌∙◌, inl, inr, ltb, leb, ◌&&◌, if◌then◌else◌,
  Bool-cases, ltb→lt, arith,
}

pub record Copied (src dst : ℕ → ℕ) (len : ℕ) (m m' : ℕ → ℕ) : Type 0 where
  pub moved : (i : ℕ) → i < len → m' (dst i) ≡ m (src i)
  pub kept : (a : ℕ) → ((i : ℕ) → i < len → a ≢ dst i) → m' a ≡ m a

-- The source and the target have no byte in common, and the target no byte twice.
pub record IsApart (src dst : ℕ → ℕ) (len : ℕ) : Type 0 where
  pub disjoint : (i j : ℕ) → i < len → j < len → src i ≢ dst j
  pub distinct : (i j : ℕ) → i < len → j < len → dst i ≡ dst j → i ≡ j

-- The memory after `memcpy(d, s, n)`.
abbrev pub copied : ℕ → ℕ → ℕ → (ℕ → ℕ) → ℕ → ℕ
copied d s n m a = if leb d a && ltb a (d + n) then m (s + (a - d)) else m a

copied_in : (d s n i : ℕ) (m : ℕ → ℕ) → i < n → copied d s n m (d + i) ≡ m (s + i)
copied_in d s n i m h = ground arith

copied_out : (d s n a : ℕ) (m : ℕ → ℕ) → ((i : ℕ) → i < n → a ≢ d + i) → copied d s n m a ≡ m a
copied_out d s n a m h = ground (arith, h (a - d))

pub copied-Copied :
    (src dst : ℕ → ℕ) (d s n : ℕ) (m : ℕ → ℕ)
    → ((i : ℕ) → i < n → (src i ≡ s + i) × (dst i ≡ d + i))
    → Copied src dst n m (copied d s n m)
copied-Copied src dst d s n m h = record {
  moved = λ i l. rw ((h i l).0, (h i l).1) (copied_in d s n i m l);
  kept = λ a out. copied_out d s n a m (λ i l e. out i l (e ∙ sym (h i l).1));
}

-- The first `n` bytes, then the rest.
pub Copied-append :
    (src dst : ℕ → ℕ) (n len : ℕ) (m m' m'' : ℕ → ℕ)
    → n ≤ len
    → IsApart src dst len
    → Copied src dst n m m'
    → Copied (λ i. src (n + i)) (λ i. dst (n + i)) (len - n) m' m''
    → Copied src dst len m m''
Copied-append src dst n len m m' m'' le apart first rest = record {
  moved = λ i l. elim (Bool-cases (ltb i n)) [
    | inl e ↦
        rest.kept (dst i) (λ j k same.
          omega
            (arith, ltb→lt i n e, l, k, le, apart.distinct i (n + j) l (omega (arith, k, le)) same))
        ∙ first.moved i (ltb→lt i n e)
    | inr e ↦ after i l (ground (arith, e))
  ];
  kept = λ a out.
      rest.kept a (λ j k. out (n + j) (omega (arith, k, le)))
      ∙ first.kept a (λ j k. out j (omega (arith, k, le)));
}
  where
    after : (i : ℕ) → i < len → n ≤ i → m'' (dst i) ≡ m (src i)
    after i l h =
        subst (λ t. m'' (dst t) ≡ m (src t)) split
          (rest.moved (i - n) (omega (arith, l, h))
            ∙ first.kept (src (n + (i - n))) (λ j k.
              apart.disjoint (n + (i - n)) j (omega (arith, l, h)) (omega (arith, k, le))))
      where
        split : n + (i - n) ≡ i
        split = omega (arith, h)

pub IsApart-drop :
    (src dst : ℕ → ℕ) (n len : ℕ)
    → n ≤ len
    → IsApart src dst len
    → IsApart (λ i. src (n + i)) (λ i. dst (n + i)) (len - n)
IsApart-drop src dst n len le apart = record {
  disjoint = λ i j a b. apart.disjoint (n + i) (n + j) (omega (arith, a)) (omega (arith, b));
  distinct = λ i j a b e.
      omega (arith, apart.distinct (n + i) (n + j) (omega (arith, a)) (omega (arith, b)) e);
}
