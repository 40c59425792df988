-- ===== src/Fs/UserCopy/Transfer.antt =====
-- kern/lib/pmap.c: `pt_copyout` and `pt_copyin` on a range of the user's addresses whose pages are
-- present, and on ranges that they refuse.
use advanced_synchronization.Base.{
  ℕ, ◌+◌, ◌<◌, ◌≤◌, ◌≡◌, refl, ◌∙◌, ltb, leb, not, false, ◌&&◌, u32, Returns, Returns-bind, pure,
  ◌>>=◌, arith,
}
use advanced_synchronization.Fs.Inode.{Files}
use advanced_synchronization.Fs.UserCopy.{
  Paging, vm_userhi, vm_userlo, copyout_from, copyin_from, pt_copyin, pt_copyout,
}
use advanced_synchronization.Fs.UserCopy.Copied.{IsApart}
use advanced_synchronization.Fs.UserCopy.Mapped.{
  phys, IsMapped, OnlyCopied, copyout-Copied, copyin-Copied,
}

-- The user's and the kernel's `len` bytes lie below VM_USERHI, the user's from VM_USERLO on.
pub record IsInRange (uva kva len : ℕ) : Type 0 where
  pub low : vm_userlo ≤ uva
  pub high : uva + len ≤ vm_userhi
  pub kernel : kva + len ≤ vm_userhi

in_range :
    (uva kva len : ℕ)
    → IsInRange uva kva len
    → ((not (leb vm_userlo uva && leb (u32 (uva + len)) vm_userhi)) ≡ false)
      × (ltb vm_userhi (u32 (kva + len)) ≡ false)
in_range uva kva len h = (ground (arith, h.low, h.high), ground (arith, h.kernel))

-- The places of the bytes of the user, from the address `uva` on, and of the kernel.
abbrev pub user_at : (ℕ → ℕ) → ℕ → ℕ → ℕ
user_at pte uva i = phys pte (uva + i)

abbrev pub kernel_at : ℕ → ℕ → ℕ
kernel_at kva i = kva + i

module _ (paging : Paging) (pid : ℕ) (pte : ℕ → ℕ) where
  pub pt_copyout-Copied :
      (kva uva len : ℕ) (k : Files)
      → IsInRange uva kva len
      → IsMapped paging pid uva len pte
      → IsApart (kernel_at kva) (user_at pte uva) len
      → Returns
          (λ n k'. (n ≡ len) × OnlyCopied (kernel_at kva) (user_at pte uva) len k tt k')
          (pt_copyout paging kva pid uva len k)
  unfolding pt_copyout
  pt_copyout-Copied kva uva len k r h apart =
      rw ((in_range uva kva len r).0, (in_range uva kva len r).1)
        (Returns-bind (OnlyCopied (kernel_at kva) (user_at pte uva) len k) _
          (copyout_from paging len kva pid uva len) (λ _. pure len) k
          (copyout-Copied paging pid pte len kva uva len (kernel_at kva) (user_at pte uva) k
            (omega arith) (omega (arith, r.kernel)) (omega (arith, r.high)) h apart
            (λ i l. (refl, refl)))
          (λ _ k' o. (refl, o)))

  pub pt_copyin-Copied :
      (uva kva len : ℕ) (k : Files)
      → IsInRange uva kva len
      → IsMapped paging pid uva len pte
      → IsApart (user_at pte uva) (kernel_at kva) len
      → Returns
          (λ n k'. (n ≡ len) × OnlyCopied (user_at pte uva) (kernel_at kva) len k tt k')
          (pt_copyin paging pid uva kva len k)
  unfolding pt_copyin
  pt_copyin-Copied uva kva len k r h apart =
      rw ((in_range uva kva len r).0, (in_range uva kva len r).1)
        (Returns-bind (OnlyCopied (user_at pte uva) (kernel_at kva) len k) _
          (copyin_from paging len pid uva kva len) (λ _. pure len) k
          (copyin-Copied paging pid pte len kva uva len (user_at pte uva) (kernel_at kva) k
            (omega arith) (omega (arith, r.kernel)) (omega (arith, r.high)) h apart
            (λ i l. (refl, refl)))
          (λ _ k' o. (refl, o)))

  -- Bytes that `pt_copyout` puts into user pages that are present, across any page boundaries, come
  -- back by `pt_copyin` into a second kernel buffer as they were, when both ranges are in bounds and
  -- neither buffer shares a byte with the user's pages, and no two of the user's bytes are at one
  -- physical address. Both calls report that all bytes are copied.
  pub copyout_then_copyin :
      (kva kva' uva len : ℕ) (k : Files)
      → IsInRange uva kva len
      → IsInRange uva kva' len
      → IsMapped paging pid uva len pte
      → IsApart (kernel_at kva) (user_at pte uva) len
      → IsApart (user_at pte uva) (kernel_at kva') len
      → Returns {A = ℕ × ℕ}
          (λ n k'. (n ≡ (len, len)) × ((i : ℕ) → i < len → k'.mem (kva' + i) ≡ k.mem (kva + i)))
          ((pt_copyout paging kva pid uva len >>= λ out.
              pt_copyin paging pid uva kva' len >>= λ back. pure (out, back))
            k)
  copyout_then_copyin kva kva' uva len k r r' h apart apart' =
      Returns-bind _ _ (pt_copyout paging kva pid uva len) _ k
        (pt_copyout-Copied kva uva len k r h apart)
        λ out k' o.
          Returns-bind _ _ (pt_copyin paging pid uva kva' len) _ k'
            (pt_copyin-Copied uva kva' len k' r' h apart')
            λ back k'' b. (rw (o.0, b.0) refl, λ i l. b.1.1.moved i l ∙ o.1.1.moved i l)
