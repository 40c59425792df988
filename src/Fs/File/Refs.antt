-- ===== src/Fs/File/Refs.antt =====
-- The references to open files.
use native.Mathlib.Decide.{ℕ_discrete}
use advanced_synchronization.Base.{
  ℕ, zero, suc, ◌+◌, ◌-◌, ◌<◌, ◌≡◌, ◌≢◌, ◌^◌, inl, inr, refl, true, ◌==◌, Option, none, some,
  lt→ltb, u32, update, arith, Returns, Bool-cases, ◌>>=◌, ◌>>◌,
}
use advanced_synchronization.Spinlock
use advanced_synchronization.Spinlock.{Spinlock, IsFree}
use advanced_synchronization.Fs.Inode.{done, is_positive}
use advanced_synchronization.Fs.File.{
  nfile, File, Ftable, find_file, alloc_found, file_alloc, file_dup, drop_ref, file_close,
}

-- A file that is referenced, and can be once more.
abbrev pub IsOpen : File → Type 0
IsOpen f = (0 < f.ref) × (f.ref + 1 < 2 ^ 31)

-- What the search for a free entry gives over the entries below `n`.
abbrev pub FirstFree : (ℕ → File) → ℕ → Option ℕ → Type 0
FirstFree file n none = (g : ℕ) → g < n → (file g).ref ≢ 0
FirstFree file n (some f) = (f < n) × ((file f).ref ≡ 0) × ((g : ℕ) → g < f → (file g).ref ≢ 0)

find_file-FirstFree :
    (n f m : ℕ) (file : ℕ → File)
    → m ≡ f + n
    → ((g : ℕ) → g < f → (file g).ref ≢ 0)
    → FirstFree file m (find_file n f file)
unfolding find_file
find_file-FirstFree zero f m file e h = λ g l. h g (omega arith)
find_file-FirstFree (suc n) f m file e h = elim (Bool-cases ((file f).ref == 0)) [
  | inl a ↦ rw a (omega arith, ground (arith, a), h)
  | inr a ↦ rw a (
      find_file-FirstFree n (f + 1) m file (omega arith) (λ g l. elim (ℕ_discrete g f) [
        | yes b ↦ rw b (λ z. ground (arith, a, z))
        | no b ↦ h g (omega arith)
      ]))
]

-- The tables agree on every file, and the lock is free.
pub record SameFiles (t t' : Ftable) : Type 0 where
  pub same : (g : ℕ) → t'.file g ≡ t.file g
  pub unlocked : IsFree t'.lock
  pub same_rest : t'.files ≡ t.files

abbrev with_ref : Ftable → ℕ → ℕ → Ftable
with_ref t f r = record t {
  file = update t.file f (record (t.file f) { ref = r });
  lock = Spinlock.spinlock_release t.lock;
}

positive : (r : ℕ) → 0 < r → r < 2 ^ 31 → is_positive r ≡ true
positive r a b = ground (arith, a, b)

file_dup-eq :
    (t : Ftable) (f : ℕ)
    → f < nfile
    → IsOpen (t.file f)
    → IsFree t.lock
    → file_dup f t ≡ some (f, with_ref t f (u32 ((t.file f).ref + 1)))
unfolding file_dup Spinlock.spinlock_acquire Spinlock.spinlock_release
file_dup-eq t f l o free =
    rw
      (
        ◌>>◌,
        ◌>>=◌,
        free,
        lt→ltb f nfile l,
        positive (t.file f).ref o.0 (omega arith),
        ◌>>◌,
        ◌>>=◌,
        lt→ltb f nfile l,
      )
      refl

-- `file_close` of a file with several references.
close_one-eq :
    (t : Ftable) (f : ℕ)
    → f < nfile
    → 1 < (t.file f).ref
    → (t.file f).ref < 2 ^ 31
    → IsFree t.lock
    → file_close f t ≡ some (done tt, with_ref t f ((t.file f).ref - 1))
unfolding file_close drop_ref Spinlock.spinlock_acquire Spinlock.spinlock_release
close_one-eq t f l a b free =
    rw
      (
        ◌>>◌,
        ◌>>=◌,
        free,
        lt→ltb f nfile l,
        positive (t.file f).ref (omega arith) b,
        lt→ltb 1 (t.file f).ref a,
        ◌>>◌,
        ◌>>=◌,
        lt→ltb f nfile l,
      )
      refl

-- On a free lock, `file_dup` of an open file with fewer than 2 ^ 31 - 1 references, and `file_close` of
-- it, return, and every file is as before.
pub close_after_dup :
    (t : Ftable) (f : ℕ)
    → f < nfile
    → IsOpen (t.file f)
    → IsFree t.lock
    → Returns (λ _ t'. SameFiles t t') ((file_dup f >>= file_close) t)
unfolding Spinlock.spinlock_release
close_after_dup t f l o free =
    rw
      (
        ◌>>=◌,
        file_dup-eq t f l o free,
        close_one-eq (with_ref t f (u32 ((t.file f).ref + 1))) f l more few refl,
      )
      (record { same = back; unlocked = refl; same_rest = refl })
  where
    dup : Ftable
    dup = with_ref t f (u32 ((t.file f).ref + 1))

    more : 1 < (dup.file f).ref
    more = ground (arith, o.0, o.1)

    few : (dup.file f).ref < 2 ^ 31
    few = ground (arith, o.0, o.1)

    count : (dup.file f).ref - 1 ≡ (t.file f).ref
    count = ground (arith, o.0, o.1)

    back : (g : ℕ) → (with_ref dup f ((dup.file f).ref - 1)).file g ≡ t.file g
    back g = elim (ℕ_discrete g f) [
      | yes e ↦ rw (e, count) (ground arith)
      | no e ↦ ground (arith, e)
    ]

-- What `file_alloc` gives for the result of its search.
pub record Opened (t t' : Ftable) (f : ℕ) : Type 0 where
  pub file_lt : f < nfile
  pub was_free : (t.file f).ref ≡ 0
  pub referenced : t'.file f ≡ record (t.file f) { ref = 1 }
  pub lowest : (g : ℕ) → g < f → (t.file g).ref ≢ 0
  pub others : (g : ℕ) → g ≢ f → t'.file g ≡ t.file g
  pub unlocked : IsFree t'.lock

abbrev pub Alloced : Ftable → Option ℕ → Ftable → Type 0
Alloced t none t' = SameFiles t t' × ((g : ℕ) → g < nfile → (t.file g).ref ≢ 0)
Alloced t (some f) t' = Opened t t' f

alloc_go :
    (t : Ftable) (lk : Spinlock) (r : Option ℕ)
    → FirstFree t.file nfile r
    → Returns (Alloced t) (alloc_found r (record t { lock = lk }))
unfolding alloc_found Spinlock.spinlock_release
alloc_go t lk none h = (record { same = λ g. refl; unlocked = refl; same_rest = refl }, h)
alloc_go t lk (some f) h =
    rw (Returns, lt→ltb f nfile h.0)
      (record {
        file_lt = h.0;
        was_free = h.1;
        referenced = ground arith;
        lowest = h.2;
        others = λ g ne. ground (arith, ne);
        unlocked = refl;
      })

abbrev pub held : Ftable → Spinlock
held t = record { lock_holder = t.files.vol.sched.pcpu_idx; lock = 1 }

pub file_alloc-eq :
    (t : Ftable)
    → IsFree t.lock
    → file_alloc t ≡ alloc_found (find_file nfile 0 t.file) (record t { lock = held t })
unfolding file_alloc Spinlock.spinlock_acquire
file_alloc-eq t free = ground (arith, free)

-- On a free lock, `file_alloc` returns: the first entry without references has one and all others are
-- as before, or every entry has references, the result is 0, and all are as before.
pub file_alloc-Alloced : (t : Ftable) → IsFree t.lock → Returns (Alloced t) (file_alloc t)
file_alloc-Alloced t free = rw (file_alloc-eq t free) (
    alloc_go t (held t) (find_file nfile 0 t.file)
      (find_file-FirstFree nfile 0 nfile t.file (omega arith) (λ g l. absurd (omega arith))))
