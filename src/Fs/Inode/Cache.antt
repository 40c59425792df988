-- ===== src/Fs/Inode/Cache.antt =====
-- The cache of inodes: `inode_get` keeps one entry for an inode.
use native.Mathlib.Decide.{ℕ_discrete}
use advanced_synchronization.Base.{
  ℕ, zero, suc, ◌+◌, ◌<◌, ◌≡◌, ◌≢◌, ◌⊎◌, ◌^◌, inl, inr, refl, sym, ap, ◌∙◌, subst, true, false,
  ◌&&◌, ◌==◌, Option, none, some, lt→ltb, u32, update, arith, Returns, Bool-cases,
}
use advanced_synchronization.Spinlock
use advanced_synchronization.Spinlock.{Spinlock, IsFree}
use advanced_synchronization.Fs.Inode.{
  ninode, Inode, Files, is_positive, find_inode, find_empty, recycled, get_entry, inode_get,
}

-- The entry is that of the inode.
abbrev pub IsOf : Inode → ℕ → ℕ → Type 0
IsOf ip dev inum = (is_positive ip.ref ≡ true) × (ip.dev ≡ dev) × (ip.inum ≡ inum)

abbrev pub Found : (ℕ → Inode) → ℕ → ℕ → ℕ → Option ℕ → Type 0
Found inodes dev inum n none = (i : ℕ) → i < n → IsOf (inodes i) dev inum → ⊥
Found inodes dev inum n (some i) = (i < n) × IsOf (inodes i) dev inum

abbrev pub FoundEmpty : (ℕ → Inode) → ℕ → Option ℕ → Type 0
FoundEmpty inodes n none = (i : ℕ) → i < n → (inodes i).ref ≢ 0
FoundEmpty inodes n (some i) = (i < n) × ((inodes i).ref ≡ 0)

find_inode-Found :
    (n i m : ℕ) (inodes : ℕ → Inode) (dev inum : ℕ)
    → m ≡ i + n
    → ((j : ℕ) → j < i → IsOf (inodes j) dev inum → ⊥)
    → Found inodes dev inum m (find_inode n i inodes dev inum)
unfolding find_inode
find_inode-Found zero i m inodes dev inum e h = λ j l. h j (omega arith)
find_inode-Found (suc n) i m inodes dev inum e h =
    elim (Bool-cases
      (is_positive (inodes i).ref && (inodes i).dev == dev && (inodes i).inum == inum)) [
        | inl f ↦ rw f (omega arith, (ground (arith, f), ground (arith, f), ground (arith, f)))
        | inr f ↦ rw f (
            find_inode-Found n (i + 1) m inodes dev inum (omega arith) (λ j l q.
              elim (ℕ_discrete j i) [
                | yes g ↦ absurd (no_entry f (subst (λ a. IsOf (inodes a) dev inum) g q))
                | no g ↦ h j (omega arith) q
              ]))
      ]
  where
    no_entry :
        (is_positive (inodes i).ref && (inodes i).dev == dev && (inodes i).inum == inum) ≡ false
        → IsOf (inodes i) dev inum
        → ⊥
    no_entry f q = ground (arith, f, q.0, q.1, q.2)

find_empty-Found :
    (n i m : ℕ) (inodes : ℕ → Inode)
    → m ≡ i + n
    → ((j : ℕ) → j < i → (inodes j).ref ≢ 0)
    → FoundEmpty inodes m (find_empty n i inodes)
unfolding find_empty
find_empty-Found zero i m inodes e h = λ j l. h j (omega arith)
find_empty-Found (suc n) i m inodes e h = elim (Bool-cases ((inodes i).ref == 0)) [
  | inl f ↦ rw f (omega arith, ground (arith, f))
  | inr f ↦ rw f (
      find_empty-Found n (i + 1) m inodes (omega arith) (λ j l. elim (ℕ_discrete j i) [
        | yes g ↦ rw g (λ z. ground (arith, f, z))
        | no g ↦ h j (omega arith)
      ]))
]

-- No two entries are those of one inode.
abbrev pub IsUnique : (ℕ → Inode) → Type 0
IsUnique inodes =
    (i j dev inum : ℕ)
    → i < ninode
    → j < ninode
    → IsOf (inodes i) dev inum
    → IsOf (inodes j) dev inum
    → i ≡ j

-- The entry `i` is that of the inode, with one reference more, or with the first one.
pub record Got (k k' : Files) (dev inum i : ℕ) : Type 0 where
  pub entry_lt : i < ninode
  pub entry : IsOf (k'.inodes i) dev inum
  pub counted :
      (IsOf (k.inodes i) dev inum × ((k'.inodes i).ref ≡ (k.inodes i).ref + 1))
      ⊎ (((k.inodes i).ref ≡ 0)
          × (k'.inodes i ≡ record (k.inodes i) { dev = dev; inum = inum; ref = 1; flags = 0 }))
  pub others : (j : ℕ) → j ≢ i → k'.inodes j ≡ k.inodes j
  pub unique : IsUnique k'.inodes
  pub unlocked : IsFree k'.cache_lock
  pub same_volume : k'.vol ≡ k.vol

-- One entry made that of an inode that no other entry is of.
update-IsUnique :
    (inodes : ℕ → Inode) (i : ℕ) (ip : Inode)
    → IsUnique inodes
    → ((j : ℕ) → j < ninode → j ≢ i → IsOf (inodes j) ip.dev ip.inum → ⊥)
    → IsUnique (update inodes i ip)
update-IsUnique inodes i ip u alone a b dev inum la lb qa qb = elim (ℕ_discrete a i) [
  | yes e ↦ elim (ℕ_discrete b i) [
    | yes f ↦ e ∙ sym f
    | no f ↦ absurd (clash b lb f (kept b f qb) (made a e qa))
  ]
  | no e ↦ elim (ℕ_discrete b i) [
    | yes f ↦ absurd (clash a la e (kept a e qa) (made b f qb))
    | no f ↦ u a b dev inum la lb (kept a e qa) (kept b f qb)
  ]
]
  where
    kept : (j : ℕ) → j ≢ i → IsOf (update inodes i ip j) dev inum → IsOf (inodes j) dev inum
    kept j ne q = subst (λ x. IsOf x dev inum) (off j ne) q
      where
        off : (j : ℕ) → j ≢ i → update inodes i ip j ≡ inodes j
        off j ne = ground (arith, ne)

    made :
        (j : ℕ) → j ≡ i → IsOf (update inodes i ip j) dev inum → (ip.dev ≡ dev) × (ip.inum ≡ inum)
    made j e q = (
      sym (ap (λ (x : Inode). x.dev) (at j e)) ∙ q.1,
      sym (ap (λ (x : Inode). x.inum) (at j e)) ∙ q.2,
    )
      where
        at : (j : ℕ) → j ≡ i → update inodes i ip j ≡ ip
        at j e = ground (arith, e)

    clash :
        (j : ℕ)
        → j < ninode
        → j ≢ i
        → IsOf (inodes j) dev inum
        → (ip.dev ≡ dev) × (ip.inum ≡ inum)
        → ⊥
    clash j l ne q m = alone j l ne (q.0, q.1 ∙ sym m.0, q.2 ∙ sym m.1)

abbrev held : Files → Spinlock
held k = record { lock_holder = k.vol.sched.pcpu_idx; lock = 1 }

get_entry-Got :
    (k : Files) (dev inum f : ℕ) (lk : Spinlock) (a b : Option ℕ)
    → IsUnique k.inodes
    → ((i : ℕ) → i < ninode → (k.inodes i).ref + 1 < 2 ^ 31)
    → f < ninode
    → ((k.inodes f).ref ≡ 0) ⊎ IsOf (k.inodes f) dev inum
    → Found k.inodes dev inum ninode a
    → FoundEmpty k.inodes ninode b
    → Returns (λ i k'. Got k k' dev inum i) (get_entry dev inum a b (record k { cache_lock = lk }))
unfolding get_entry Spinlock.spinlock_release
get_entry-Got k dev inum f lk (some i) b u room l slot x y =
    rw (Returns, lt→ltb i ninode x.0)
      (record {
        entry_lt = x.0;
        entry = (ground (arith, x.1.0, room i x.0), ground (arith, x.1.1), ground (arith, x.1.2));
        counted = inl (x.1, ground (arith, room i x.0));
        others = λ j ne. ground (arith, ne);
        unique =
            update-IsUnique k.inodes i (record (k.inodes i) { ref = u32 ((k.inodes i).ref + 1) }) u
              (λ j h ne q. ne (u j i dev inum h x.0 (q.0, q.1 ∙ x.1.1, q.2 ∙ x.1.2) x.1));
        unlocked = refl;
        same_volume = refl;
      })
get_entry-Got k dev inum f lk none (some i) u room l slot x y =
    rw (Returns, lt→ltb i ninode y.0)
      (record {
        entry_lt = y.0;
        entry = (ground arith, ground arith, ground arith);
        counted = inr (y.1, ground arith);
        others = λ j ne. ground (arith, ne);
        unique =
            update-IsUnique k.inodes i (recycled dev inum (k.inodes i)) u (λ j h ne q. x j h q);
        unlocked = refl;
        same_volume = refl;
      })
get_entry-Got k dev inum f lk none none u room l slot x y = elim slot [
  | inl e ↦ y f l e
  | inr q ↦ x f l q
]

inode_get-eq :
    (k : Files) (dev inum : ℕ)
    → IsFree k.cache_lock
    → inode_get dev inum k
      ≡ get_entry dev inum
          (find_inode ninode 0 k.inodes dev inum)
          (find_empty ninode 0 k.inodes)
          (record k { cache_lock = held k })
unfolding inode_get Spinlock.spinlock_acquire
inode_get-eq k dev inum free = ground (arith, free)

-- On a free lock and a cache with one entry for an inode at most, and fewer than 2 ^ 31 - 1
-- references to each, `inode_get` returns when the inode has an entry or one is free: it gives the
-- entry of the inode, with one reference more, or a free entry that is made that of the inode, with
-- one reference and no flags; the cache still has one entry for an inode at most, and no other entry changed.
pub inode_get-Got :
    (k : Files) (dev inum f : ℕ)
    → IsFree k.cache_lock
    → IsUnique k.inodes
    → ((i : ℕ) → i < ninode → (k.inodes i).ref + 1 < 2 ^ 31)
    → f < ninode
    → ((k.inodes f).ref ≡ 0) ⊎ IsOf (k.inodes f) dev inum
    → Returns (λ i k'. Got k k' dev inum i) (inode_get dev inum k)
inode_get-Got k dev inum f free u room l slot = rw (inode_get-eq k dev inum free) (
    get_entry-Got k dev inum f (held k) (find_inode ninode 0 k.inodes dev inum)
      (find_empty ninode 0 k.inodes) u room l slot
      (find_inode-Found ninode 0 ninode k.inodes dev inum (omega arith)
        (λ j h. absurd (omega arith)))
      (find_empty-Found ninode 0 ninode k.inodes (omega arith) (λ j h. absurd (omega arith))))
