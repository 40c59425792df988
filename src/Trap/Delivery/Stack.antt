-- ===== src/Trap/Delivery/Stack.antt =====
-- kern/trap/TTrapHandler: a word or a piece of code on the user's stack, where its pages are present.
use advanced_synchronization.Base.{
  ℕ, ◌+◌, ◌-◌, ◌<◌, ◌≤◌, ◌≡◌, ◌≢◌, sym, ap, subst, ◌∙◌, ◌⊎◌, inl, inr, ltb, leb, ◌&&◌,
  if◌then◌else◌, Returns, Returns-mono, Returns-bind, arith,
}
use advanced_synchronization.Fs.Inode.{Files}
use advanced_synchronization.Fs.UserCopy.{Paging, vm_userhi, vm_userlo, pt_copyin, pt_copyout}
use advanced_synchronization.Fs.UserCopy.Copied.{IsApart}
use advanced_synchronization.Fs.UserCopy.Mapped.{phys, IsMapped, IsMapped-part}
use advanced_synchronization.Fs.UserCopy.Transfer.{
  kernel_at, user_at, pt_copyin-Copied, pt_copyout-Copied,
}
use advanced_synchronization.Trap.Delivery.{push}

-- The 32 bytes from `lo` on, below the stack pointer `lo + 32`: user memory whose pages are present and
-- distinct, with physical addresses above those of the kernel's variables, which end at `bound`.
pub record IsStack (paging : Paging) (pid lo bound : ℕ) (pte : ℕ → ℕ) : Type 0 where
  pub low : vm_userlo ≤ lo
  pub high : lo + 32 ≤ vm_userhi
  pub mapped : IsMapped paging pid lo 32 pte
  pub distinct : (i j : ℕ) → i < 32 → j < 32 → phys pte (lo + i) ≡ phys pte (lo + j) → i ≡ j
  pub above : (i : ℕ) → i < 32 → bound ≤ phys pte (lo + i)
  pub bound_le : bound ≤ vm_userhi

-- The `n` bytes at `lo + o` are written; the others of the stack are kept, and all but the memory.
pub record Pushed (pte : ℕ → ℕ) (lo o n : ℕ) (bytes : ℕ → ℕ) (k k' : Files) : Type 0 where
  pub vol : k'.vol ≡ k.vol
  pub written : (i : ℕ) → i < n → k'.mem (phys pte (lo + (o + i))) ≡ bytes i
  pub kept :
      (i : ℕ)
      → i < 32
      → (i < o) ⊎ (o + n ≤ i)
      → k'.mem (phys pte (lo + i)) ≡ k.mem (phys pte (lo + i))

-- The variable at `at` has the four bytes at `lo + o`; the rest of the memory is kept.
pub record Pulled (pte : ℕ → ℕ) (lo o at : ℕ) (k k' : Files) : Type 0 where
  pub vol : k'.vol ≡ k.vol
  pub read : (i : ℕ) → i < 4 → k'.mem (at + i) ≡ k.mem (phys pte (lo + (o + i)))
  pub unread : (a : ℕ) → (a < at) ⊎ (at + 4 ≤ a) → k'.mem a ≡ k.mem a

abbrev stored : ℕ → ℕ → (ℕ → ℕ) → Files → Files
stored at n bytes k = record k {
  mem = λ a. if leb at a && ltb a (at + n) then bytes (a - at) else k.mem a;
}

stored_in :
    (at n i : ℕ) (bytes : ℕ → ℕ) (k : Files) → i < n → (stored at n bytes k).mem (at + i) ≡ bytes i
stored_in at n i bytes k l = ground arith

stored_out :
    (at n a : ℕ) (bytes : ℕ → ℕ) (k : Files) → at + n ≤ a → (stored at n bytes k).mem a ≡ k.mem a
stored_out at n a bytes k l = ground arith

module _ (paging : Paging) (pid lo bound : ℕ) (pte : ℕ → ℕ)
    (st : IsStack paging pid lo bound pte) where
  -- A place of the stack from the offset `o` on.
  part-IsApart :
      (at o n : ℕ) → o + n ≤ 32 → at + n ≤ bound → IsApart (kernel_at at) (user_at pte (lo + o)) n
  part-IsApart at o n le small = record {
    disjoint = λ i j a b e. omega (arith, a, e, small, above j b);
    distinct = λ i j a b e. omega (
      arith,
      st.distinct (o + i) (o + j) (omega (arith, a, le)) (omega (arith, b, le))
          (rw (assoc o i, assoc o j) e),
    );
  }
    where
      assoc : (o i : ℕ) → lo + (o + i) ≡ lo + o + i
      assoc o i = omega arith

      above : (j : ℕ) → j < n → bound ≤ phys pte (lo + o + j)
      above j b =
          subst (λ v. bound ≤ phys pte v) (assoc o j) (st.above (o + j) (omega (arith, b, le)))

  pub push-Pushed :
      (o n uva at : ℕ) (bytes : ℕ → ℕ) (k : Files)
      → uva ≡ lo + o
      → o + n ≤ 32
      → at + n ≤ bound
      → Returns (λ _ k'. Pushed pte lo o n bytes k k') (push paging pid uva at n bytes k)
  push-Pushed o n uva at bytes k place le small = rw place (
      Returns-bind _ _ (pt_copyout paging at pid (lo + o) n) _ (stored at n bytes k)
        (pt_copyout-Copied paging pid pte at (lo + o) n (stored at n bytes k)
          record {
            low = omega (arith, st.low);
            high = omega (arith, st.high, le);
            kernel = omega (arith, small, st.bound_le);
          }
          (IsMapped-part paging pid pte lo 32 (lo + o) n (omega arith) (omega (arith, le))
            st.mapped)
          (part-IsApart at o n le small))
        λ _ k' c. record {
          vol = ap (λ t. t.vol) c.1.0;
          written = λ i l.
              ap k'.mem (ap (phys pte) (assoc i)) ∙ c.1.1.moved i l ∙ stored_in at n i bytes k l;
          kept = λ i l out.
              c.1.1.kept (phys pte (lo + i)) (λ j m e. outside i j out m (
                st.distinct i (o + j) l (omega (arith, m, le)) (e ∙ ap (phys pte) (sym (assoc j)))))
              ∙ stored_out at n (phys pte (lo + i)) bytes k (omega (arith, small, st.above i l));
        })
    where
      assoc : (i : ℕ) → lo + (o + i) ≡ lo + o + i
      assoc i = omega arith

      outside : (i j : ℕ) → (i < o) ⊎ (o + n ≤ i) → j < n → i ≢ o + j
      outside i j out m e = elim out [
        | inl h ↦ omega (arith, h, e)
        | inr h ↦ omega (arith, h, e, m)
      ]

  -- Four bytes of the stack in the variable at `at`.
  pub pull-Pulled :
      (o uva at : ℕ) (k : Files)
      → uva ≡ lo + o
      → o + 4 ≤ 32
      → at + 4 ≤ bound
      → Returns (λ n k'. (n ≡ 4) × Pulled pte lo o at k k') (pt_copyin paging pid uva at 4 k)
  pull-Pulled o uva at k place le small = rw place (
      Returns-mono _ (λ n k'. (n ≡ 4) × Pulled pte lo o at k k') _
        (pt_copyin-Copied paging pid pte (lo + o) at 4 k
          record {
            low = omega (arith, st.low);
            high = omega (arith, st.high, le);
            kernel = omega (arith, small, st.bound_le);
          }
          (IsMapped-part paging pid pte lo 32 (lo + o) 4 (omega arith) (omega (arith, le))
            st.mapped)
          record {
            disjoint = λ i j a b e. omega (arith, above i a, e, small, b);
            distinct = λ i j a b e. omega (arith, e);
          })
        λ n k' c. (
          c.0,
          record {
            vol = ap (λ t. t.vol) c.1.0;
            read = λ i l. c.1.1.moved i l ∙ ap k.mem (ap (phys pte) (assoc i));
            unread = λ a out. c.1.1.kept a (λ i l e. outside i a out l e);
          },
        ))
    where
      assoc : (i : ℕ) → lo + o + i ≡ lo + (o + i)
      assoc i = omega arith

      above : (i : ℕ) → i < 4 → bound ≤ phys pte (lo + o + i)
      above i l =
          subst (λ v. bound ≤ phys pte v) (sym (assoc i)) (st.above (o + i) (omega (arith, l, le)))

      outside : (i a : ℕ) → (a < at) ⊎ (at + 4 ≤ a) → i < 4 → a ≢ at + i
      outside i a out l e = elim out [
        | inl h ↦ omega (arith, h, e)
        | inr h ↦ omega (arith, h, e, l)
      ]
