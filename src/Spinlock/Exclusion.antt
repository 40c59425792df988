-- ===== src/Spinlock/Exclusion.antt =====
-- kern/lib/spinlock.c: who owns the lock in a reachable state of the processors.
use advanced_synchronization.Base.{
  ℕ, ◌+◌, ◌<◌, ◌≡◌, ◌≢◌, ◌↔◌, refl, sym, ap, subst, ◌∙◌, ◌⊎◌, inl, inr, Bool, true, false, ◌==◌,
  Bool-cases, ==→eq, ==→ne, eq→==, ne→==, update, num_cpus, arith,
}
use advanced_synchronization.Spinlock.{Spinlock, xchg, spinlock_holding, spinlock_init}
use advanced_synchronization.Spinlock.Processors.{
  Pc, outside, spinning, taken, critical, leaving, owns, after_xchg, System, Move, call, try, note,
  reset, free, Reach, here, next,
}

-- Nobody owns the lock.
record IsUnowned (s : System) : Type 0 where
  word : s.lk.lock ≡ 0
  holder : s.lk.lock_holder ≡ num_cpus + 1
  others : (i : ℕ) → owns (s.pc i) ≡ false

-- `j` alone owns the lock, which names it while it is in its critical section.
record IsOwned (s : System) (j : ℕ) : Type 0 where
  small : j < num_cpus
  word : s.lk.lock ≡ 1
  owner : owns (s.pc j) ≡ true
  holder :
      (s.lk.lock_holder ≡ j) × (s.pc j ≡ critical)
      ⊎ (s.lk.lock_holder ≡ num_cpus + 1) × (s.pc j ≢ critical)
  others : (i : ℕ) → i ≢ j → owns (s.pc i) ≡ false

data Owner (s : System) : Type 0 where
  nobody : IsUnowned s → Owner s
  somebody : (j : ℕ) → IsOwned s j → Owner s

record Inv (s : System) : Type 0 where
  active : (i : ℕ) → s.pc i ≢ outside → i < num_cpus
  owner : Owner s

unowned_not : {s : System} (i : ℕ) → IsUnowned s → owns (s.pc i) ≡ true → ⊥
unowned_not i u h = cc (u.others i, h)

-- A write to the program counter of `cpu`.
update_same : (pc : ℕ → Pc) (cpu : ℕ) (p : Pc) → update pc cpu p cpu ≡ p
update_same pc cpu p = ground arith

update_other : (pc : ℕ → Pc) (cpu i : ℕ) (p : Pc) → i ≢ cpu → update pc cpu p i ≡ pc i
update_other pc cpu i p h = rw (ne→== i cpu h) refl

-- The processors other than `cpu` keep what they own; so does `cpu`, if it owns nothing before and after.
owns_other :
    (pc : ℕ → Pc) (cpu : ℕ) (p : Pc) (i : ℕ) (b : Bool)
    → owns (pc i) ≡ b
    → (i ≡ cpu → owns p ≡ b)
    → owns (update pc cpu p i) ≡ b
owns_other pc cpu p i b h k = elim (Bool-cases (i == cpu)) [
  | inl e ↦ rw e (k (==→eq i cpu e))
  | inr e ↦ rw e h
]

active_other :
    (pc : ℕ → Pc) (cpu : ℕ) (p : Pc)
    → cpu < num_cpus
    → ((i : ℕ) → pc i ≢ outside → i < num_cpus)
    → (i : ℕ) → update pc cpu p i ≢ outside
    → i < num_cpus
active_other pc cpu p c h i = elim (Bool-cases (i == cpu)) [
  | inl e ↦ rw (==→eq i cpu e) λ _. c
  | inr e ↦ rw e (h i)
]

-- Of the processors only the owner has a program counter that owns.
owner_is : {s : System} (j i : ℕ) → IsOwned s j → owns (s.pc i) ≡ true → i ≡ j
owner_is j i o h = elim (Bool-cases (i == j)) [
  | inl e ↦ ==→eq i j e
  | inr e ↦ absurd (cc (o.others i (==→ne i j e), h))
]

-- A processor that owns nothing, before and after, changes nothing for the others.
IsUnowned-quiet :
    (s : System) (cpu : ℕ) (p : Pc)
    → owns p ≡ false
    → IsUnowned s
    → IsUnowned (record { lk = s.lk; pc = update s.pc cpu p })
IsUnowned-quiet s cpu p h u = record {
  word = u.word;
  holder = u.holder;
  others = λ i. owns_other s.pc cpu p i false (u.others i) (λ _. h);
}

IsOwned-quiet :
    (s : System) (cpu j : ℕ) (p : Pc) (lk : Spinlock)
    → lk.lock ≡ 1
    → lk.lock_holder ≡ s.lk.lock_holder
    → owns (s.pc cpu) ≡ false
    → owns p ≡ false
    → IsOwned s j
    → IsOwned (record { lk = lk; pc = update s.pc cpu p }) j
IsOwned-quiet s cpu j p lk word kept q h o = record {
  small = o.small;
  word = word;
  owner = rw (update_other s.pc cpu j p apart) o.owner;
  holder = rw (update_other s.pc cpu j p apart, kept) o.holder;
  others = λ i k. owns_other s.pc cpu p i false (o.others i k) (λ _. h);
}
  where
    apart : j ≢ cpu
    apart e = cc (o.owner, q, e)

-- The owner moves on to a point where it still owns the lock.
IsOwned-moves :
    (s : System) (j h : ℕ) (p : Pc)
    → owns p ≡ true
    → (h ≡ j) × (p ≡ critical) ⊎ (h ≡ num_cpus + 1) × (p ≢ critical)
    → IsOwned s j
    → IsOwned (record { lk = record s.lk { lock_holder = h }; pc = update s.pc j p }) j
IsOwned-moves s j h p own named o = record {
  small = o.small;
  word = o.word;
  owner = rw (update_same s.pc j p) own;
  holder = rw (update_same s.pc j p) named;
  others = λ i k. rw (update_other s.pc j i p k) (o.others i k);
}

-- The owner, with the program counter given, is the processor that steps.
Owner-of :
    (s : System) (cpu : ℕ) (P : Type 0) → owns (s.pc cpu) ≡ true → Owner s → (IsOwned s cpu → P) → P
Owner-of s cpu P h (nobody u) k = absurd (unowned_not cpu u h)
Owner-of s cpu P h (somebody j o) k = k (subst (IsOwned s) (sym (owner_is j cpu o h)) o)

-- The winner of the `xchg` becomes the owner.
try-Owner :
    (s : System) (cpu : ℕ)
    → cpu < num_cpus
    → owns (s.pc cpu) ≡ false
    → Owner s
    → Owner (record { lk = (xchg s.lk 1).1; pc = update s.pc cpu (after_xchg (xchg s.lk 1).0) })
unfolding xchg after_xchg owns
try-Owner s cpu c e (nobody u) = rw u.word (
    somebody cpu record {
      small = c;
      word = refl;
      owner = rw (update_same s.pc cpu taken) refl;
      holder = inr (u.holder, rw (update_same s.pc cpu taken) (λ k. cc k));
      others = λ i k. rw (update_other s.pc cpu i taken k) (u.others i);
    })
try-Owner s cpu c e (somebody j o) =
    rw o.word
      (somebody j (IsOwned-quiet s cpu j spinning (record s.lk { lock = 1 }) refl refl e refl o))

Move-Inv : {s t : System} → Move s t → Inv s → Inv t
unfolding xchg owns
Move-Inv {s} (call cpu c e) inv = record {
  active = active_other s.pc cpu spinning c inv.active;
  owner = elim inv.owner [
    | nobody u ↦ nobody (IsUnowned-quiet s cpu spinning refl u)
    | somebody j o ↦ somebody j (IsOwned-quiet s cpu j spinning s.lk o.word refl (ap owns e) refl o)
  ];
}
Move-Inv {s} (try cpu e) inv = record {
  active =
      active_other s.pc cpu (after_xchg (xchg s.lk 1).0) (inv.active cpu (λ k. cc (e, k)))
        inv.active;
  owner = try-Owner s cpu (inv.active cpu (λ k. cc (e, k))) (ap owns e) inv.owner;
}
Move-Inv {s} (note cpu e) inv = record {
  active = active_other s.pc cpu critical (inv.active cpu (λ k. cc (e, k))) inv.active;
  owner =
      Owner-of s cpu (Owner _) (ap owns e) inv.owner
        λ o. somebody cpu (IsOwned-moves s cpu cpu critical refl (inl (refl, refl)) o);
}
Move-Inv {s} (reset cpu e) inv = record {
  active = active_other s.pc cpu leaving (inv.active cpu (λ k. cc (e, k))) inv.active;
  owner =
      Owner-of s cpu (Owner _) (ap owns e) inv.owner λ o.
        somebody cpu (IsOwned-moves s cpu (num_cpus + 1) leaving refl (inr (refl, λ k. cc k)) o);
}
Move-Inv {s} (free cpu e) inv = record {
  active = active_other s.pc cpu outside (inv.active cpu (λ k. cc (e, k))) inv.active;
  owner = Owner-of s cpu (Owner _) (ap owns e) inv.owner λ o. nobody record {
    word = refl;
    holder = elim o.holder [ inl (a, b) ↦ absurd (cc (e, b)) | inr (a, b) ↦ a ];
    others = λ i. elim (Bool-cases (i == cpu)) [
      | inl k ↦ rw k refl
      | inr k ↦ rw k (o.others i (==→ne i cpu k))
    ];
  };
}

Reach-Inv : {s : System} → Reach s → Inv s
unfolding spinlock_init owns
Reach-Inv here = record {
  active = λ i h. absurd (h refl);
  owner = nobody record { word = refl; holder = refl; others = λ i. refl };
}
Reach-Inv (next r st) = Move-Inv st (Reach-Inv r)

-- However the accesses of the processors to the lock interleave, at most one of them is between the
-- `xchg` that found 0 and the `xchg` of the release that puts 0 back.
pub mutual_exclusion :
    {s : System} → Reach s → (i j : ℕ) → owns (s.pc i) ≡ true → owns (s.pc j) ≡ true → i ≡ j
mutual_exclusion r i j a b = elim (Reach-Inv r).owner [
  | nobody u ↦ absurd (unowned_not i u a)
  | somebody k o ↦ owner_is k i o a ∙ sym (owner_is k j o b)
]

-- In a reachable state `spinlock_holding` answers true to a processor exactly if the processor is
-- between the end of its acquire and the start of its release; while no processor owns the lock, the
-- lock word is 0, so that the next `xchg` takes it.
pub holding_is_critical :
    {s : System}
    → Reach s
    → ((i : ℕ) → i < num_cpus → (spinlock_holding i s.lk ≡ true) ↔ (s.pc i ≡ critical))
      × (((i : ℕ) → owns (s.pc i) ≡ false) → s.lk.lock ≡ 0)
unfolding spinlock_holding owns
holding_is_critical {s} r = elim (Reach-Inv r).owner [
  | nobody u ↦
      (λ i c. (rw u.word λ h. absurd (cc h), λ h. absurd (cc (u.others i, h))), λ h. u.word)
  | somebody j o ↦ (
    λ i c. rw o.word (
      λ h. elim o.holder [
        | inl (a, b) ↦ cc (==→eq s.lk.lock_holder i h, a, b)
        | inr (a, b) ↦ absurd (omega (arith, ==→eq s.lk.lock_holder i h, a, c))
      ],
      λ h. elim o.holder [
        | inl (a, b) ↦ eq→== s.lk.lock_holder i (cc (a, owner_is j i o (ap owns h)))
        | inr (a, b) ↦ absurd (b (cc (h, owner_is j i o (ap owns h))))
      ],
    ),
    λ h. absurd (cc (h j, o.owner)),
  )
]
