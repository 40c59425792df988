-- ===== src/Pmm/Scan.antt =====
-- The page allocator: what it returns, what it writes, and when it finds nothing.
use native.Mathlib.Decide.{ℕ_discrete}
use native.Mathlib.Nat.{mod-eq_of_lt}
use advanced_synchronization.Base.{
  ℕ, zero, suc, ◌+◌, ◌-◌, ◌<◌, ◌≤◌, ◌≡◌, ◌≢◌, ◌⊎◌, inl, inr, refl, Bool, true, false, ◌&&◌, ◌==◌,
  if◌then◌else◌, u32, some, Bool-cases, arith, Returns, Returns-mono, update,
}
use advanced_synchronization.Spinlock.{IsFree}
use advanced_synchronization.Pmm.Pages.{Memory, AtStruct, norm_flag, allocated_flag, max_pages}
use advanced_synchronization.Pmm.Alloc.{scan_pages, palloc_none, palloc_found, palloc}

-- A normal page that is not allocated.
unfoldable pub is_free : AtStruct → Bool
is_free a = (norm_flag a == 1) && (allocated_flag a == 0)

-- The first free page of the `n` from `i` on, or `d`.
pub first_free : (ℕ → AtStruct) → ℕ → ℕ → ℕ → ℕ
first_free t d zero i = d
first_free t d (suc n) i = if is_free (t i) then i else first_free t d n (i + 1)

scan_pages_lem :
    (n i tnps : ℕ) (m : Memory)
    → i + n ≤ max_pages
    → scan_pages n i tnps m ≡ some (first_free m.at_table tnps n i, m)
unfolding scan_pages first_free is_free
scan_pages_lem zero i tnps m h = refl
scan_pages_lem (suc n) i tnps m h = ground (arith, scan_pages_lem n (i + 1) tnps m, h)

first_free-cases :
    (t : ℕ → AtStruct) (d n i : ℕ)
    → ((first_free t d n i ≡ d) × ((a : ℕ) → i ≤ a → a < i + n → is_free (t a) ≡ false))
      ⊎ ((i ≤ first_free t d n i)
          × (first_free t d n i < i + n)
          × (is_free (t (first_free t d n i)) ≡ true)
          × ((a : ℕ) → i ≤ a → a < first_free t d n i → is_free (t a) ≡ false))
unfolding first_free
first_free-cases t d zero i = inl (refl, λ a l u. absurd (omega arith))
first_free-cases t d (suc n) i = elim (Bool-cases (is_free (t i))) [
  | inl e ↦ rw e (inr (omega arith, omega arith, e, λ a l u. absurd (omega arith)))
  | inr e ↦ rw e (elim (first_free-cases t d n (i + 1)) [
    | inl (f, nothing) ↦ inl (
      f,
      λ a l u. elim (ℕ_discrete a i) [
        | yes z ↦ rw z e
        | no z ↦ nothing a (omega arith) (omega arith)
      ],
    )
    | inr (l1, l2, f, nothing) ↦ inr (
      omega arith,
      omega arith,
      f,
      λ a l u. elim (ℕ_discrete a i) [
        | yes z ↦ rw z e
        | no z ↦ nothing a (omega arith) (omega arith)
      ],
    )
  ])
]

-- Between two calls: the lock is free and the hint is a page of the machine.
pub record IsIdle (m : Memory) : Type 0 where
  pub unlocked : IsFree m.mem_lk
  pub pages_le : m.num_pages ≤ max_pages
  pub last_lt : m.last_palloc_index < m.num_pages

-- The page `p` was taken: the first free one behind the hint.
pub record Took (m m' : Memory) (p : ℕ) : Type 0 where
  pub behind : m.last_palloc_index < p
  pub below : p < m.num_pages
  pub was_free : is_free (m.at_table p) ≡ true
  pub first : (a : ℕ) → m.last_palloc_index < a → a < p → is_free (m.at_table a) ≡ false
  pub now_allocated : m'.at_table p ≡ record (m.at_table p) { allocated = 1 }
  pub others : (a : ℕ) → a ≢ p → m'.at_table a ≡ m.at_table a
  pub hint : m'.last_palloc_index ≡ p
  pub same_pages : m'.num_pages ≡ m.num_pages
  pub same_containers : m'.containers ≡ m.containers
  pub unlocked : IsFree m'.mem_lk

-- No page behind the hint is free: nothing is taken and the hint goes back to 0.
pub record Missed (m m' : Memory) (p : ℕ) : Type 0 where
  pub zero_index : p ≡ 0
  pub none_behind :
      (a : ℕ) → m.last_palloc_index < a → a < m.num_pages → is_free (m.at_table a) ≡ false
  pub same_table : m'.at_table ≡ m.at_table
  pub hint : m'.last_palloc_index ≡ 0
  pub same_pages : m'.num_pages ≡ m.num_pages
  pub same_containers : m'.containers ≡ m.containers
  pub unlocked : IsFree m'.mem_lk

module _ (m : Memory) (i : IsIdle m) where
  abbrev start : ℕ
  start = u32 (m.last_palloc_index + 1)

  start-eq : start ≡ m.last_palloc_index + 1
  start-eq = omega (arith, i.pages_le, i.last_lt)

  abbrev found : ℕ
  found = first_free m.at_table m.num_pages (m.num_pages - start) start

  abbrev locked : Memory
  locked = record m { mem_lk = record { lock_holder = m.pcpu_idx; lock = 1 } }

  scan-eq : scan_pages (m.num_pages - start) start m.num_pages locked ≡ some (found, locked)
  scan-eq =
      scan_pages_lem (m.num_pages - start) start m.num_pages locked
        (omega (arith, i.pages_le, i.last_lt))

  palloc-eq :
      palloc m
      ≡ (if found == m.num_pages then palloc_none m.num_pages else palloc_found found m.num_pages)
          locked
  unfolding palloc
  palloc-eq = ground (arith, i.unlocked, scan-eq)

  none-eq :
      palloc_none m.num_pages locked
      ≡ some (
        0,
        record (record locked { last_palloc_index = 0 }) {
          mem_lk = record { lock_holder = 9; lock = 0 };
        },
      )
  unfolding palloc_none
  none-eq = ground (arith, i.last_lt)

  palloc-Missed :
      found ≡ m.num_pages
      → ((a : ℕ) → start ≤ a → a < start + (m.num_pages - start) → is_free (m.at_table a) ≡ false)
      → Returns (λ p m'. Missed m m' p) (palloc m)
  palloc-Missed e nothing =
      let hit : (found == m.num_pages) ≡ true = ground arith in
      rw (palloc-eq, hit, none-eq)
        (record {
          zero_index = refl;
          none_behind = λ a l u. nothing a (omega (arith, start-eq)) (omega (arith, start-eq));
          same_table = refl;
          hint = refl;
          same_pages = refl;
          same_containers = refl;
          unlocked = refl;
        })

  after : Memory
  after =
      record (record locked {
        at_table = update m.at_table found (record (m.at_table found) { allocated = 1 });
      }) { last_palloc_index = found; mem_lk = record { lock_holder = 9; lock = 0 } }

  found-eq : found < m.num_pages → palloc_found found m.num_pages locked ≡ some (found, after)
  unfolding palloc_found after
  found-eq l = ground (arith, i.pages_le, mod-eq_of_lt {n = found} {m = m.num_pages} l)

  palloc-Took :
      start ≤ found
      → found < start + (m.num_pages - start)
      → is_free (m.at_table found) ≡ true
      → ((a : ℕ) → start ≤ a → a < found → is_free (m.at_table a) ≡ false)
      → Returns (λ p m'. Took m m' p) (palloc m)
  unfolding after
  palloc-Took l u f nothing =
      let below : found < m.num_pages = omega (arith, start-eq) in
      let missed : (found == m.num_pages) ≡ false = ground arith in
      rw (palloc-eq, missed, found-eq below)
        (record {
          behind = omega (arith, start-eq);
          below = below;
          was_free = f;
          first = λ a l u. nothing a (omega (arith, start-eq)) u;
          now_allocated = ground arith;
          others = λ a ne. ground arith;
          hint = refl;
          same_pages = refl;
          same_containers = refl;
          unlocked = refl;
        })

  -- With the lock free and the hint a page of the machine, `palloc` returns. Either it returns the
  -- first free page behind the hint, marks it allocated and makes it the hint; or no page behind the
  -- hint is free, and it returns 0, leaves the table as it is and sets the hint to 0.
  pub palloc_outcome : Returns (λ p m'. Took m m' p ⊎ Missed m m' p) (palloc m)
  palloc_outcome = elim (first_free-cases m.at_table m.num_pages (m.num_pages - start) start) [
    | inl (e, nothing) ↦
        Returns-mono (λ p m'. Missed m m' p) (λ p m'. Took m m' p ⊎ Missed m m' p) (palloc m)
          (palloc-Missed e nothing) (λ p m' q. inr q)
    | inr (l, u, f, nothing) ↦
        Returns-mono (λ p m'. Took m m' p) (λ p m'. Took m m' p ⊎ Missed m m' p) (palloc m)
          (palloc-Took l u f nothing) (λ p m' q. inl q)
  ]
