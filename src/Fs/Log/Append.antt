-- ===== src/Fs/Log/Append.antt =====
-- `log_write`: a block joins the transaction.
use native.Mathlib.Decide.{ℕ_discrete}
use advanced_synchronization.Base.{
  ℕ, zero, suc, ◌+◌, ◌-◌, ◌<◌, ◌≤◌, ◌≡◌, ◌≢◌, ◌⊎◌, inl, inr, refl, sym, ap, ◌∙◌, some, false, ◌==◌,
  if◌then◌else◌, update, arith, [], ◌∷◌, ◌++◌, Returns, subst, Bool-cases,
}
use advanced_synchronization.Fs.Disk.{Buf, Volume, get32}
use advanced_synchronization.Fs.Log.{logsize, absorb_from, log_at, log_write}
use advanced_synchronization.Fs.Log.Crash.{InTransaction}

-- The entry that the loop of `log_write` ends with: the first with the sector, or the end.
pub record IsEntry (n : ℕ) (sector : ℕ → ℕ) (x i : ℕ) : Type 0 where
  pub entry_le : i ≤ n
  pub found : (i ≡ n) ⊎ (sector i ≡ x)
  pub first : (t : ℕ) → t < i → sector t ≢ x

absorb_lem :
    (n i : ℕ) (sector : ℕ → ℕ) (x : ℕ)
    → ((t : ℕ) → t < i → sector t ≢ x)
    → IsEntry (i + n) sector x (absorb_from n i sector x)
unfolding absorb_from
absorb_lem zero i sector x h = record {
  entry_le = omega arith;
  found = inl (omega arith);
  first = h;
}
absorb_lem (suc n) i sector x h = elim (Bool-cases (sector i == x)) [
  | inl e ↦ rw e (record { entry_le = omega arith; found = inr (ground (arith, e)); first = h })
  | inr e ↦
      let q : IsEntry (i + 1 + n) sector x (absorb_from n (i + 1) sector x) =
        absorb_lem n (i + 1) sector x (below e) in
      rw e (record {
        entry_le = omega (arith, q.entry_le);
        found = elim q.found [ inl f ↦ inl (omega (arith, f)) | inr f ↦ inr f ];
        first = q.first;
      })
]
  where
    below : (sector i == x) ≡ false → (t : ℕ) → t < i + 1 → sector t ≢ x
    below e t l = elim (ℕ_discrete t i) [
      | yes f ↦ rw f (λ z. ground (arith, e, z))
      | no f ↦ h t (omega arith)
    ]

absorb_found : (n : ℕ) (sector : ℕ → ℕ) (x : ℕ) → IsEntry n sector x (absorb_from n 0 sector x)
absorb_found n sector x =
    subst (λ m. IsEntry m sector x (absorb_from n 0 sector x)) (omega arith)
      (absorb_lem n 0 sector x (λ s l. absurd (omega arith)))

module _ (v : Volume) (b : Buf) where
  -- The block of `b` at the entry `i` of the log.
  abbrev logged : ℕ → Volume
  logged i = record v {
    log = record v.log {
      lh = record {
        n = if i == v.log.lh.n then v.log.lh.n + 1 else v.log.lh.n;
        sector = update v.log.lh.sector i b.sector;
      };
    };
    disk = update v.disk (v.log.start + i + 1) b.content;
    view = update (update v.view (v.log.start + i + 1) b.content) b.sector b.content;
    writes = v.writes ++ (v.log.start + i + 1, b.content) ∷ [];
  }

  log_at-eq : (i : ℕ) → i < logsize → log_at i b v ≡ some (tt, logged i)
  unfolding log_at
  log_at-eq i h = elim (Bool-cases (i == v.log.lh.n)) [
    | inl e ↦ ground (arith, h, e)
    | inr e ↦ ground (arith, h, e)
  ]

  log_write-eq :
      v.log.lh.n < logsize
      → v.log.lh.n < v.log.size - 1
      → 0 < v.log.busy
      → log_write b v ≡ log_at (absorb_from v.log.lh.n 0 v.log.lh.sector b.sector) b v
  unfolding log_write
  log_write-eq h s y = ground (arith, h, s, y)

  module _ (i : ℕ) (t : InTransaction v) (q : IsEntry v.log.lh.n v.log.lh.sector b.sector i)
      (room : v.log.lh.n < logsize) (home : b.sector < v.log.start) where
    abbrev v' : Volume
    v' = logged i

    count' :
        (v'.log.lh.n ≡ v.log.lh.n + 1) × (i ≡ v.log.lh.n)
        ⊎ ((v'.log.lh.n ≡ v.log.lh.n) × (i < v.log.lh.n) × (v.log.lh.sector i ≡ b.sector))
    count' = elim q.found [
      | inl e ↦ inl (ground (arith, e), e)
      | inr f ↦ elim (ℕ_discrete i v.log.lh.n) [
        | yes e ↦ inl (ground (arith, e), e)
        | no e ↦ inr (ground (arith, e), omega (arith, q.entry_le), f)
      ]
    ]

    here : v'.log.lh.sector i ≡ b.sector
    here = ground arith

    there : (s : ℕ) → s ≢ i → v'.log.lh.sector s ≡ v.log.lh.sector s
    there s h = ground arith

    -- An entry other than `i` is an old one, with another sector.
    old_entry :
        (s : ℕ) → s < v'.log.lh.n → s ≢ i → (s < v.log.lh.n) × (v.log.lh.sector s ≢ b.sector)
    old_entry s l h = elim count' [
      | inl (c, e) ↦ (omega (arith, c), λ f. q.first s (omega (arith, c)) f)
      | inr (c, u, e) ↦
          (omega (arith, c), λ f. h (t.are_home.distinct s i (omega (arith, c)) u (f ∙ sym e)))
    ]

    view_b : v'.view b.sector ≡ b.content
    view_b = ground arith

    view_log : v'.view (v.log.start + i + 1) ≡ b.content
    view_log = ground (arith, home)

    view_else : (x : ℕ) → x ≢ b.sector → x ≢ v.log.start + i + 1 → v'.view x ≡ v.view x
    view_else x h g = ground arith

    disk_log : v'.disk (v.log.start + i + 1) ≡ b.content
    disk_log = ground arith

    disk_else : (x : ℕ) → x ≢ v.log.start + i + 1 → v'.disk x ≡ v.disk x
    disk_else x h = ground arith

    i_lt : i < v'.log.lh.n
    i_lt = elim count' [ inl c ↦ omega (arith, c.0) | inr c ↦ omega (arith, c.0) ]

    count_le' : v.log.lh.n ≤ v'.log.lh.n
    count_le' = elim count' [ inl c ↦ omega (arith, c.0) | inr c ↦ omega (arith, c.0) ]

    logged_entry :
        (s : ℕ) → s < v'.log.lh.n → v'.disk (v.log.start + s + 1) ≡ v'.view (v'.log.lh.sector s)
    logged_entry s l = elim (ℕ_discrete s i) [
      | yes e ↦ rw e (disk_log ∙ sym view_b ∙ ap v'.view (sym here))
      | no e ↦
          disk_else (v.log.start + s + 1) (λ f. e (omega arith))
          ∙ t.logged s (old_entry s l e).0
          ∙ sym (
              view_else (v.log.lh.sector s) (old_entry s l e).1
                (λ f. omega (arith, t.are_home.home s (old_entry s l e).0)))
          ∙ ap v'.view (sym (there s e))
    ]

    unmodified' :
        (x : ℕ)
        → x < v.log.start
        → ((s : ℕ) → s < v'.log.lh.n → x ≢ v'.log.lh.sector s)
        → v'.view x ≡ v'.disk x
    unmodified' x l h =
        view_else x x≢b (λ f. omega arith)
        ∙ t.unmodified x l old
        ∙ sym (disk_else x (λ f. omega arith))
      where
        x≢b : x ≢ b.sector
        x≢b f = h i i_lt (f ∙ sym here)

        old : (s : ℕ) → s < v.log.lh.n → x ≢ v.log.lh.sector s
        old s u f = elim (ℕ_discrete s i) [
          | yes e ↦ elim count' [
            | inl c ↦ omega (arith, c.1)
            | inr c ↦ x≢b (f ∙ ap v.log.lh.sector e ∙ c.2)
          ]
          | no e ↦ h s (omega (arith, count_le')) (f ∙ sym (there s e))
        ]

    log_clean' : (x : ℕ) → v.log.start ≤ x → v'.view x ≡ v'.disk x
    log_clean' x l = elim (ℕ_discrete x (v.log.start + i + 1)) [
      | yes e ↦ rw e (view_log ∙ sym disk_log)
      | no e ↦ view_else x (λ f. omega (arith, home)) e ∙ t.log_clean x l ∙ sym (disk_else x e)
    ]

    logged-InTransaction : InTransaction v'
    logged-InTransaction = record {
      count_le = elim count' [ inl c ↦ omega (arith, c.0) | inr c ↦ omega (arith, c.0) ];
      start_lt = t.start_lt;
      are_home = record {
        home = λ s l. elim (ℕ_discrete s i) [
          | yes e ↦ omega (arith, here, home, ap v'.log.lh.sector e)
          | no e ↦ omega (arith, there s e, t.are_home.home s (old_entry s l e).0)
        ];
        distinct = λ s u l m e. elim (ℕ_discrete s i) [
          | yes f ↦ elim (ℕ_discrete u i) [
            | yes g ↦ f ∙ sym g
            | no g ↦
                absurd
                  ((old_entry u m g).1 (sym (there u g) ∙ sym e ∙ ap v'.log.lh.sector f ∙ here))
          ]
          | no f ↦ elim (ℕ_discrete u i) [
            | yes g ↦
                absurd ((old_entry s l f).1 (sym (there s f) ∙ e ∙ ap v'.log.lh.sector g ∙ here))
            | no g ↦
                t.are_home.distinct s u (old_entry s l f).0 (old_entry u m g).0
                  (sym (there s f) ∙ e ∙ there u g)
          ]
        ];
      };
      logged = logged_entry;
      unmodified = unmodified';
      log_clean = log_clean';
      uncommitted = ap (λ d. get32 d 0) (disk_else v.log.start (λ f. omega arith)) ∙ t.uncommitted;
    }

-- The transaction of `v` with the block of `b`.
pub record IsLogged (v v' : Volume) (b : Buf) : Type 0 where
  pub in_transaction : InTransaction v'
  pub now : v'.view b.sector ≡ b.content
  pub others : (x : ℕ) → x < v.log.start → x ≢ b.sector → v'.view x ≡ v.view x
  pub count_le : v'.log.lh.n ≤ v.log.lh.n + 1
  pub same_size : v'.log.size ≡ v.log.size
  pub durable : (x : ℕ) → x < v.log.start → v'.disk x ≡ v.disk x
  pub same_start : v'.log.start ≡ v.log.start
  pub same_busy : v'.log.busy ≡ v.log.busy

-- In a transaction with room in the log, `log_write` of a block before the log returns: it is read as it
-- was written from then on, all other blocks before the log are read as before, the transaction goes
-- on, and nothing before the log is written to the disk.
pub log_write-IsLogged :
    (v : Volume) (b : Buf)
    → InTransaction v
    → 0 < v.log.busy
    → v.log.lh.n < logsize
    → v.log.lh.n < v.log.size - 1
    → b.sector < v.log.start
    → Returns (λ _ v'. IsLogged v v' b) (log_write b v)
log_write-IsLogged v b t y room size home =
    let i : ℕ = absorb_from v.log.lh.n 0 v.log.lh.sector b.sector in
    let q : IsEntry v.log.lh.n v.log.lh.sector b.sector i =
      absorb_found v.log.lh.n v.log.lh.sector b.sector in
    rw (log_write-eq v b room size y, log_at-eq v b i (omega (arith, q.entry_le)))
      (record {
        in_transaction = logged-InTransaction v b i t q room home;
        now = view_b v b i t q room home;
        others = λ x l h. view_else v b i t q room home x h (λ f. omega arith);
        durable = λ x l. disk_else v b i t q room home x (λ f. omega arith);
        count_le = ground arith;
        same_size = refl;
        same_start = refl;
        same_busy = refl;
      })
