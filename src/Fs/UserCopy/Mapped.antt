-- ===== src/Fs/UserCopy/Mapped.antt =====
-- kern/lib/pmap.c: copies between the kernel and user pages that are present.
use advanced_synchronization.Base.{
  ℕ, zero, suc, ◌+◌, ◌-◌, ◌*◌, ◌/◌, ◌%◌, ◌^◌, ◌<◌, ◌≤◌, ◌≡◌, refl, subst, ◌∙◌, true, some, inl, inr,
  ◌==◌, ==→eq, ==→ne, ne→==, ap, Returns-mono, Bool-cases, Returns, ◌>>=◌, u32, arith,
}
use advanced_synchronization.Bits.{test_bit}
use advanced_synchronization.Fs.Inode.{Files}
use advanced_synchronization.Fs.UserCopy.{
  Paging, page_bytes, page_chunk, user_address, copyin_from, copyout_from,
}
use advanced_synchronization.Fs.UserCopy.Copied.{
  Copied, IsApart, copied, copied-Copied, Copied-append, IsApart-drop,
}

-- The physical address behind a user's address, with the entry of its page.
abbrev pub phys : (ℕ → ℕ) → ℕ → ℕ
phys pte va = pte va / page_bytes * page_bytes + va % page_bytes

-- The pages of the `len` bytes from `uva` on are present, with the entries `pte`.
pub record IsMapped (paging : Paging) (pid uva len : ℕ) (pte : ℕ → ℕ) : Type 0 where
  pub entry :
      (i : ℕ) (k : Files)
      → i < len
      → paging.get_ptbl_entry_by_va pid (uva + i) k ≡ some (pte (uva + i), k)
  pub present : (i : ℕ) → i < len → test_bit (pte (uva + i)) 0 ≡ true
  pub page :
      (i j : ℕ)
      → i < len
      → j < len
      → (uva + i) / page_bytes ≡ (uva + j) / page_bytes
      → pte (uva + i) ≡ pte (uva + j)

-- The bytes of a round lie in the page of the first.
chunk_phys :
    (pte : ℕ → ℕ) (uva len i : ℕ)
    → i < page_chunk len (phys pte uva)
    → ((uva + i) / page_bytes ≡ uva / page_bytes)
      × (i < len)
      × ((uva + i) % page_bytes ≡ uva % page_bytes + i)
chunk_phys pte uva len i h = ground (arith, h)

add_zero : (n : ℕ) → n + 0 ≡ n
add_zero n = omega arith

chunk_le : (len pa : ℕ) → page_chunk len pa ≤ len
chunk_le len pa = ground arith

chunk_pos : (len pa : ℕ) → 0 < len → 0 < page_chunk len pa
chunk_pos len pa h = ground arith

-- Only the memory changes, by the copy.
abbrev pub OnlyCopied : (ℕ → ℕ) → (ℕ → ℕ) → ℕ → Files → Unit {0} → Files → Type 0
OnlyCopied src dst len k _ k' = (k' ≡ record k { mem = k'.mem }) × Copied src dst len k.mem k'.mem

module _ (paging : Paging) (pid : ℕ) (pte : ℕ → ℕ) where
  IsMapped-drop :
      (uva n len : ℕ)
      → n ≤ len
      → IsMapped paging pid uva len pte
      → IsMapped paging pid (uva + n) (len - n) pte
  IsMapped-drop uva n len le h = record {
    entry = λ i k l. rw (assoc i) (h.entry (n + i) k (omega (arith, l)));
    present = λ i l. rw (assoc i) (h.present (n + i) (omega (arith, l)));
    page = λ i j a b e.
        rw (assoc i, assoc j)
          (h.page (n + i) (n + j) (omega (arith, a)) (omega (arith, b)) (omega (arith, e)));
  }
    where
      assoc : (i : ℕ) → uva + n + i ≡ uva + (n + i)
      assoc i = omega arith

  user_address-phys :
      (uva len : ℕ) (k : Files)
      → 0 < len
      → IsMapped paging pid uva len pte
      → user_address paging pid uva k ≡ some (phys pte uva, k)
  unfolding user_address
  user_address-phys uva len k pos h = rw (entry, ◌>>=◌, present) refl
    where
      entry : paging.get_ptbl_entry_by_va pid uva k ≡ some (pte uva, k)
      entry =
          subst (λ v. paging.get_ptbl_entry_by_va pid v k ≡ some (pte v, k)) (add_zero uva)
            (h.entry 0 k pos)

      present : test_bit (pte uva) 0 ≡ true
      present = subst (λ v. test_bit (pte v) 0 ≡ true) (add_zero uva) (h.present 0 pos)

  abbrev round_size : ℕ → ℕ → ℕ
  round_size uva len = page_chunk len (phys pte uva)

  -- The addresses of the next round, which do not wrap around.
  advance :
      (a uva len : ℕ) → a + len < 2 ^ 32 → u32 (a + round_size uva len) ≡ a + round_size uva len
  advance a uva len small = omega (arith, small, chunk_le len (phys pte uva))

  -- The addresses of a round.
  chunk_places :
      (uva len i : ℕ)
      → IsMapped paging pid uva len pte
      → i < page_chunk len (phys pte uva)
      → phys pte (uva + i) ≡ phys pte uva + i
  chunk_places uva len i h l = rw (same, places.2) (omega arith)
    where
      places :
          ((uva + i) / page_bytes ≡ uva / page_bytes)
          × (i < len)
          × ((uva + i) % page_bytes ≡ uva % page_bytes + i)
      places = chunk_phys pte uva len i l

      same : pte (uva + i) ≡ pte uva
      same =
          subst (λ v. pte (uva + i) ≡ pte v) (add_zero uva)
            (h.page i 0 places.1 (omega (arith, l, places.1)) (rw (add_zero uva) places.0))

  OnlyCopied-none :
      (src dst : ℕ → ℕ) (len : ℕ) (k : Files) → len ≡ 0 → OnlyCopied src dst len k tt k
  OnlyCopied-none src dst len k e =
      (refl, record { moved = λ i l. absurd (omega (arith, e, l)); kept = λ a out. refl })

  OnlyCopied-append :
      (src dst : ℕ → ℕ) (n len d s : ℕ) (k k' : Files)
      → n ≤ len
      → IsApart src dst len
      → ((i : ℕ) → i < n → (src i ≡ s + i) × (dst i ≡ d + i))
      → OnlyCopied
          (λ i. src (n + i))
          (λ i. dst (n + i))
          (len - n)
          (record k { mem = copied d s n k.mem })
          tt
          k'
      → OnlyCopied src dst len k tt k'
  OnlyCopied-append src dst n len d s k k' le apart places rest = (
    rest.0,
    Copied-append src dst n len k.mem (copied d s n k.mem) k'.mem le apart
        (copied-Copied src dst d s n k.mem places) rest.1,
  )

  -- The places of the bytes that are left after a round.
  rest_places :
      (a va n len : ℕ) (at to : ℕ → ℕ)
      → n ≤ len
      → ((i : ℕ) → i < len → (at i ≡ a + i) × (to i ≡ phys pte (va + i)))
      → (i : ℕ) → i < len - n
      → (at (n + i) ≡ a + n + i) × (to (n + i) ≡ phys pte (va + n + i))
  rest_places a va n len at to le places i l = (
    (places (n + i) (omega (arith, l))).0 ∙ omega arith,
    (places (n + i) (omega (arith, l))).1 ∙ ap (phys pte) (omega arith),
  )

  copyout-round :
      (fuel kva uva len : ℕ) (src dst : ℕ → ℕ) (k : Files)
      → 0 < len
      → kva + len < 2 ^ 32
      → uva + len < 2 ^ 32
      → IsMapped paging pid uva len pte
      → IsApart src dst len
      → ((i : ℕ) → i < len → (src i ≡ kva + i) × (dst i ≡ phys pte (uva + i)))
      → Returns
          (OnlyCopied
            (λ i. src (round_size uva len + i))
            (λ i. dst (round_size uva len + i))
            (len - round_size uva len)
            (record k { mem = copied (phys pte uva) kva (round_size uva len) k.mem }))
          (copyout_from paging fuel
            (kva + round_size uva len)
            pid
            (uva + round_size uva len)
            (len - round_size uva len)
            (record k { mem = copied (phys pte uva) kva (round_size uva len) k.mem }))
      → Returns (OnlyCopied src dst len k) (copyout_from paging (suc fuel) kva pid uva len k)
  unfolding copyout_from
  copyout-round fuel kva uva len src dst k pos small small' h apart places rest =
      rw
        (
          ne→== len 0 (omega (arith, pos)),
          ◌>>=◌,
          user_address-phys uva len k pos h,
          ◌>>=◌,
          advance kva uva len small,
          advance uva uva len small',
        )
        (Returns-mono _ _ _ rest λ _ k' r.
          OnlyCopied-append src dst (round_size uva len) len (phys pte uva) kva k k' le apart chunk
            r)
    where
      le : round_size uva len ≤ len
      le = chunk_le len (phys pte uva)

      chunk : (i : ℕ) → i < round_size uva len → (src i ≡ kva + i) × (dst i ≡ phys pte uva + i)
      chunk i l = (
        (places i (omega (arith, l, le))).0,
        (places i (omega (arith, l, le))).1 ∙ chunk_places uva len i h l,
      )

  pub copyout-Copied :
      (fuel kva uva len : ℕ) (src dst : ℕ → ℕ) (k : Files)
      → len ≤ fuel
      → kva + len < 2 ^ 32
      → uva + len < 2 ^ 32
      → IsMapped paging pid uva len pte
      → IsApart src dst len
      → ((i : ℕ) → i < len → (src i ≡ kva + i) × (dst i ≡ phys pte (uva + i)))
      → Returns (OnlyCopied src dst len k) (copyout_from paging fuel kva pid uva len k)
  unfolding copyout_from
  copyout-Copied zero kva uva len src dst k f small small' h apart places =
      OnlyCopied-none src dst len k (omega (arith, f))
  copyout-Copied (suc fuel) kva uva len src dst k f small small' h apart places =
      elim (Bool-cases (len == 0)) [
        | inl e ↦ rw e (OnlyCopied-none src dst len k (==→eq len 0 e))
        | inr e ↦
            copyout-round fuel kva uva len src dst k (omega (arith, ==→ne len 0 e)) small small' h
              apart places
              (copyout-Copied fuel (kva + round_size uva len) (uva + round_size uva len)
                (len - round_size uva len) (λ i. src (round_size uva len + i))
                (λ i. dst (round_size uva len + i))
                (record k { mem = copied (phys pte uva) kva (round_size uva len) k.mem })
                (omega (arith, f, ==→ne len 0 e, chunk_pos len (phys pte uva)))
                (omega (arith, small, chunk_le len (phys pte uva)))
                (omega (arith, small', chunk_le len (phys pte uva)))
                (IsMapped-drop uva (round_size uva len) len (chunk_le len (phys pte uva)) h)
                (IsApart-drop src dst (round_size uva len) len (chunk_le len (phys pte uva)) apart)
                (rest_places kva uva (round_size uva len) len src dst (chunk_le len (phys pte uva))
                  places))
      ]

  copyin-round :
      (fuel kva uva len : ℕ) (src dst : ℕ → ℕ) (k : Files)
      → 0 < len
      → kva + len < 2 ^ 32
      → uva + len < 2 ^ 32
      → IsMapped paging pid uva len pte
      → IsApart src dst len
      → ((i : ℕ) → i < len → (dst i ≡ kva + i) × (src i ≡ phys pte (uva + i)))
      → Returns
          (OnlyCopied
            (λ i. src (round_size uva len + i))
            (λ i. dst (round_size uva len + i))
            (len - round_size uva len)
            (record k { mem = copied kva (phys pte uva) (round_size uva len) k.mem }))
          (copyin_from paging fuel pid
            (uva + round_size uva len)
            (kva + round_size uva len)
            (len - round_size uva len)
            (record k { mem = copied kva (phys pte uva) (round_size uva len) k.mem }))
      → Returns (OnlyCopied src dst len k) (copyin_from paging (suc fuel) pid uva kva len k)
  unfolding copyin_from
  copyin-round fuel kva uva len src dst k pos small small' h apart places rest =
      rw
        (
          ne→== len 0 (omega (arith, pos)),
          ◌>>=◌,
          user_address-phys uva len k pos h,
          ◌>>=◌,
          advance kva uva len small,
          advance uva uva len small',
        )
        (Returns-mono _ _ _ rest λ _ k' r.
          OnlyCopied-append src dst (round_size uva len) len kva (phys pte uva) k k' le apart chunk
            r)
    where
      le : round_size uva len ≤ len
      le = chunk_le len (phys pte uva)

      chunk : (i : ℕ) → i < round_size uva len → (src i ≡ phys pte uva + i) × (dst i ≡ kva + i)
      chunk i l = (
        (places i (omega (arith, l, le))).1 ∙ chunk_places uva len i h l,
        (places i (omega (arith, l, le))).0,
      )

  pub copyin-Copied :
      (fuel kva uva len : ℕ) (src dst : ℕ → ℕ) (k : Files)
      → len ≤ fuel
      → kva + len < 2 ^ 32
      → uva + len < 2 ^ 32
      → IsMapped paging pid uva len pte
      → IsApart src dst len
      → ((i : ℕ) → i < len → (dst i ≡ kva + i) × (src i ≡ phys pte (uva + i)))
      → Returns (OnlyCopied src dst len k) (copyin_from paging fuel pid uva kva len k)
  unfolding copyin_from
  copyin-Copied zero kva uva len src dst k f small small' h apart places =
      OnlyCopied-none src dst len k (omega (arith, f))
  copyin-Copied (suc fuel) kva uva len src dst k f small small' h apart places =
      elim (Bool-cases (len == 0)) [
        | inl e ↦ rw e (OnlyCopied-none src dst len k (==→eq len 0 e))
        | inr e ↦
            copyin-round fuel kva uva len src dst k (omega (arith, ==→ne len 0 e)) small small' h
              apart places
              (copyin-Copied fuel (kva + round_size uva len) (uva + round_size uva len)
                (len - round_size uva len) (λ i. src (round_size uva len + i))
                (λ i. dst (round_size uva len + i))
                (record k { mem = copied kva (phys pte uva) (round_size uva len) k.mem })
                (omega (arith, f, ==→ne len 0 e, chunk_pos len (phys pte uva)))
                (omega (arith, small, chunk_le len (phys pte uva)))
                (omega (arith, small', chunk_le len (phys pte uva)))
                (IsMapped-drop uva (round_size uva len) len (chunk_le len (phys pte uva)) h)
                (IsApart-drop src dst (round_size uva len) len (chunk_le len (phys pte uva)) apart)
                (rest_places kva uva (round_size uva len) len dst src (chunk_le len (phys pte uva))
                  places))
      ]

  -- A part of the range.
  pub IsMapped-part :
      (uva len va n : ℕ)
      → uva ≤ va
      → va + n ≤ uva + len
      → IsMapped paging pid uva len pte
      → IsMapped paging pid va n pte
  IsMapped-part uva len va n low high h = record {
    entry = λ i k l.
        subst (λ v. paging.get_ptbl_entry_by_va pid v k ≡ some (pte v, k)) (split i)
          (h.entry (va - uva + i) k (omega (arith, l)));
    present = λ i l.
        subst (λ v. test_bit (pte v) 0 ≡ true) (split i)
          (h.present (va - uva + i) (omega (arith, l)));
    page = λ i j a b e.
        subst (λ v. pte v ≡ pte (va + j)) (split i)
          (subst (λ v. pte (uva + (va - uva + i)) ≡ pte v) (split j)
            (h.page (va - uva + i) (va - uva + j) (omega (arith, a)) (omega (arith, b))
              (rw (split i, split j) e)));
  }
    where
      split : (i : ℕ) → uva + (va - uva + i) ≡ va + i
      split i = omega (arith, low)
