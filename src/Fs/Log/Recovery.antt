-- ===== src/Fs/Log/Recovery.antt =====
-- `recover_from_log`: what it makes of the disk.
use native.Mathlib.Decide.{ℕ_discrete}
use advanced_synchronization.Base.{
  ℕ, zero, suc, ◌+◌, ◌<◌, ◌≤◌, ◌≡◌, ◌≢◌, refl, sym, ap, ◌∙◌, some, update, arith, ◌>>=◌, ◌>>◌, List,
  [], ◌∷◌, Returns, Returns-bind, Returns-mono,
}
use advanced_synchronization.Fs.Disk.{Block, Log, Volume, get32, set32, get32-set32}
use advanced_synchronization.Fs.Log.{
  header_count, fill_head, set_lh_sector, read_sectors, read_head, install_trans, write_head,
  recover_from_log, logsize,
}
use advanced_synchronization.Fs.Log.Writes.{
  apply_writes, Wrote, install_writes, install_from-Wrote, write_head-Wrote, head_block, AreHome,
  installs_outside, take-installs, installs_inside,
}

-- Only the header in memory differs.
pub record SameDisk (v v' : Volume) : Type 0 where
  pub disk : v'.disk ≡ v.disk
  pub view : v'.view ≡ v.view
  pub writes : v'.writes ≡ v.writes
  pub start : v'.log.start ≡ v.log.start

-- After the loop over the `n` sectors from `i` on.
pub record SectorsRead (v v' : Volume) (n i : ℕ) (hb : Block) : Type 0 where
  pub same : SameDisk v v'
  pub count : v'.log.lh.n ≡ v.log.lh.n
  pub inside : (j : ℕ) → i ≤ j → j < i + n → v'.log.lh.sector j ≡ get32 hb (j + 1)
  pub outside : (j : ℕ) → j < i → v'.log.lh.sector j ≡ v.log.lh.sector j

abbrev with_sector : Volume → ℕ → ℕ → Volume
with_sector v i x = record v {
  log = record v.log { lh = record v.log.lh { sector = update v.log.lh.sector i x } };
}

set_sector-eq :
    (v : Volume) (i x : ℕ) → i < logsize → set_lh_sector i x v ≡ some (tt, with_sector v i x)
set_sector-eq v i x h = ground arith

with_here : (v : Volume) (i x : ℕ) → (with_sector v i x).log.lh.sector i ≡ x
with_here v i x = ground arith

with_there :
    (v : Volume) (i x j : ℕ) → j ≢ i → (with_sector v i x).log.lh.sector j ≡ v.log.lh.sector j
with_there v i x j h = ground arith

read_sectors-SectorsRead :
    (n i : ℕ) (hb : Block) (v : Volume)
    → i + n ≤ logsize
    → Returns (λ _ v'. SectorsRead v v' n i hb) (read_sectors n i hb v)
unfolding read_sectors
read_sectors-SectorsRead zero i hb v h = record {
  same = record { disk = refl; view = refl; writes = refl; start = refl };
  count = refl;
  inside = λ j l u. absurd (omega arith);
  outside = λ j l. refl;
}
read_sectors-SectorsRead (suc n) i hb v h =
    rw (◌>>◌, ◌>>=◌, set_sector-eq v i (get32 hb (i + 1)) (omega arith))
      (Returns-mono (λ _ v'. SectorsRead (with_sector v i (get32 hb (i + 1))) v' n (i + 1) hb)
        (λ _ v'. SectorsRead v v' (suc n) i hb)
        (read_sectors n (i + 1) hb (with_sector v i (get32 hb (i + 1))))
        (read_sectors-SectorsRead n (i + 1) hb (with_sector v i (get32 hb (i + 1))) (omega arith))
        (λ _ v' q. record {
          same = record {
            disk = q.same.disk;
            view = q.same.view;
            writes = q.same.writes;
            start = q.same.start;
          };
          count = q.count;
          inside = λ j l u. elim (ℕ_discrete j i) [
            | yes e ↦ rw e (q.outside i (omega arith) ∙ with_here v i (get32 hb (i + 1)))
            | no e ↦ q.inside j (omega arith) (omega arith)
          ];
          outside = λ j l.
              q.outside j (omega arith) ∙ with_there v i (get32 hb (i + 1)) j (λ e. omega arith);
        }))

-- What the header on the disk says.
abbrev pub count_of : Volume → ℕ
count_of v = header_count (v.view v.log.start)

abbrev pub sector_of : Volume → ℕ → ℕ
sector_of v i = get32 (v.view v.log.start) (i + 1)

pub record HeadRead (v v' : Volume) : Type 0 where
  pub same : SameDisk v v'
  pub count : v'.log.lh.n ≡ count_of v
  pub sectors : (j : ℕ) → j < count_of v → v'.log.lh.sector j ≡ sector_of v j

read_head-HeadRead :
    (v : Volume) → count_of v ≤ logsize → Returns (λ _ v'. HeadRead v v') (read_head v)
unfolding read_head
read_head-HeadRead v h =
    let counted : Volume = record v {
      log = record v.log { lh = record v.log.lh { n = count_of v } };
    } in
    Returns-mono (λ _ v'. SectorsRead counted v' (count_of v) 0 (v.view v.log.start))
      (λ _ v'. HeadRead v v') (read_sectors (count_of v) 0 (v.view v.log.start) counted)
      (read_sectors-SectorsRead (count_of v) 0 (v.view v.log.start) counted (omega arith))
      (λ _ v' q. record {
        same = record {
          disk = q.same.disk;
          view = q.same.view;
          writes = q.same.writes;
          start = q.same.start;
        };
        count = q.count;
        sectors = λ j l. q.inside j (omega arith) (omega arith);
      })

-- The disk once the log is applied and erased.
pub record Recovered (v r : Volume) : Type 0 where
  pub outside :
      (x : ℕ)
      → x < v.log.start
      → ((t : ℕ) → t < count_of v → x ≢ sector_of v t)
      → r.disk x ≡ v.disk x
  pub inside : (t : ℕ) → t < count_of v → r.disk (sector_of v t) ≡ v.view (v.log.start + t + 1)
  pub erased : get32 (r.disk v.log.start) 0 ≡ 0

module _ (v : Volume) (h : count_of v ≤ logsize)
    (a : AreHome v.log.start (count_of v) (sector_of v)) where
  module _ (v1 : Volume) (q : HeadRead v v1) where
    abbrev installs : List (ℕ × Block)
    installs = install_writes v1.log v1.view v1.log.lh.n 0

    home1 : AreHome v1.log.start (count_of v) v1.log.lh.sector
    home1 = record {
      home = λ t l. omega (arith, q.sectors t l, q.same.start, a.home t l);
      distinct = λ s t l u e. a.distinct s t l u (sym (q.sectors s l) ∙ e ∙ q.sectors t u);
    }

    module _ (v2 : Volume) (w : Wrote v1 v2 installs) where
      abbrev emptied : Volume
      emptied = record v2 { log = record v2.log { lh = record v2.log.lh { n = 0 } } }

      start2 : v2.log.start ≡ v.log.start
      start2 = ap (λ (l : Log). l.start) w.same_log ∙ q.same.start

      module _ (r : Volume) (z : Wrote emptied r ((v2.log.start, head_block emptied) ∷ [])) where
        disk_before : (x : ℕ) → x < v.log.start → r.disk x ≡ apply_writes v1.disk installs x
        unfolding apply_writes
        disk_before x l = ap (λ d. d x) z.disk ∙ below x l ∙ ap (λ d. d x) w.disk
          where
            below :
                (x : ℕ)
                → x < v.log.start
                → update v2.disk v2.log.start (head_block emptied) x ≡ v2.disk x
            below x l = ground (arith, start2, l)

        at_start : r.disk v.log.start ≡ set32 (v2.view v2.log.start) 0 0
        unfolding apply_writes fill_head
        at_start = ap (λ d. d v.log.start) z.disk ∙ ground (arith, start2)

        recovered : Recovered v r
        recovered = record {
          outside = λ x l n.
              disk_before x l
              ∙ ap (λ ws. apply_writes v1.disk ws x)
                  (sym (take-installs v1.log.lh.n 0 v1.log.lh.n v1.log v1.view (omega arith)))
              ∙ installs_outside v1.log.lh.n v1.log.lh.n 0 x v1.log v1.view v1.disk (λ t i u e.
                n t (omega (arith, q.count)) (e ∙ q.sectors t (omega (arith, q.count))))
              ∙ ap (λ d. d x) q.same.disk;
          inside = λ t l.
              disk_before (sector_of v t) (a.home t l)
              ∙ ap (apply_writes v1.disk installs) (sym (q.sectors t l))
              ∙ installs_inside v1.log.lh.n 0 t (count_of v) v1.log v1.view v1.disk home1
                  (omega (arith, q.count)) (omega arith) (omega (arith, q.count, l))
              ∙ ap (λ d. d (v1.log.start + t + 1)) q.same.view
              ∙ ap (λ s. v.view (s + t + 1)) q.same.start;
          erased =
              ap (λ d. get32 d 0) at_start ∙ get32-set32 (v2.view v2.log.start) 0 0 (omega arith);
        }

  -- With a header on the disk that has at most LOGSIZE different sectors, all before the log,
  -- `recover_from_log` returns: each of these sectors has its block of the log, the other sectors
  -- before the log are as they were, and the header is empty.
  pub recover_from_log-Recovered : Returns (λ _ r. Recovered v r) (recover_from_log v)
  unfolding recover_from_log install_trans
  recover_from_log-Recovered =
      Returns-bind (λ _ v1. HeadRead v v1) _ read_head _ v (read_head-HeadRead v h)
        (λ _ v1 q.
          Returns-bind (λ _ v2. Wrote v1 v2 (installs v1 q)) _ install_trans _ v1
            (install_from-Wrote v1.log.lh.n 0 v1)
            (λ _ v2 w.
              Returns-mono
                (λ _ r.
                  Wrote (emptied v1 q v2 w) r ((v2.log.start, head_block (emptied v1 q v2 w)) ∷ []))
                (λ _ r. Recovered v r) (write_head (emptied v1 q v2 w))
                (write_head-Wrote (emptied v1 q v2 w)) (λ _ r z. recovered v1 q v2 w r z)))
