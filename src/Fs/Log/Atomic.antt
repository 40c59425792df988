-- ===== src/Fs/Log/Atomic.antt =====
-- Transactions as a whole: each `log_write` extends one, and `commit_trans` makes it durable at once.
use mathlib.Core.List.{append-nil, append_assoc}
use advanced_synchronization.Base.{
  ℕ, zero, suc, ◌<◌, ◌≡◌, inl, inr, sym, ap, ◌∙◌, false, ltb, arith, List, [], ◌∷◌, ◌++◌, Returns,
  Returns-bind, Returns-mono, subst, Bool-cases,
}
use advanced_synchronization.Fs.Disk.{Block, Log, Volume, get32, get32-set32}
use advanced_synchronization.Fs.Log.{
  fill_head, install_trans, write_head, recover_from_log, write_trans,
}
use advanced_synchronization.Fs.Log.Writes.{
  apply_writes, take, Wrote, Wrote-append, install_writes, install_from-Wrote, write_head-Wrote,
  head_block,
}
use advanced_synchronization.Fs.Log.Crash.{
  InTransaction, rebooted, AllOrNothing, nothing, recover_empty,
}
use advanced_synchronization.Fs.Log.Commit.{
  survives, installs, ws, installed, update_here, update_there,
}

-- The transaction of `v` is committed: `log_writes` are the writes, of which a crash may lose the last.
pub record Committed (v v' : Volume) : Type 0 where
  pub log_writes : List (ℕ × Block)
  pub writes : v'.writes ≡ v.writes ++ log_writes
  pub survives :
      (k : ℕ)
      → Returns
          (λ _ r. AllOrNothing v r.disk)
          (recover_from_log (rebooted v (apply_writes v.disk (take k log_writes))))
  pub disk : (x : ℕ) → x < v.log.start → v'.disk x ≡ v.view x
  pub empty : v'.log.lh.n ≡ 0
  pub erased : get32 (v'.disk v.log.start) 0 ≡ 0

module _ (v : Volume) (i : InTransaction v) where
  nothing_to_write : v.log.lh.n ≡ 0 → Committed v v
  unfolding take apply_writes
  nothing_to_write e = record {
    log_writes = [];
    writes = sym (append-nil v.writes);
    survives = λ k. none_survives k;
    disk = λ x l. sym (i.unmodified x l (λ t u. absurd (omega arith)));
    empty = e;
    erased = i.uncommitted;
  }
    where
      none_survives :
          (k : ℕ)
          → Returns
              (λ _ r. AllOrNothing v r.disk)
              (recover_from_log (rebooted v (apply_writes v.disk (take k []))))
      none_survives zero =
          Returns-mono (λ _ r. (x : ℕ) → x < v.log.start → r.disk x ≡ v.disk x) _
            (recover_from_log (rebooted v v.disk)) (recover_empty v v.disk i.uncommitted)
            (λ _ r q. nothing q)
      none_survives (suc k) =
          Returns-mono (λ _ r. (x : ℕ) → x < v.log.start → r.disk x ≡ v.disk x) _
            (recover_from_log (rebooted v v.disk)) (recover_empty v v.disk i.uncommitted)
            (λ _ r q. nothing q)

  module _ (v1 v2 : Volume) (a : Wrote v v1 ((v.log.start, head_block v) ∷ []))
      (b : Wrote v1 v2 (install_writes v1.log v1.view v1.log.lh.n 0)) where
    both : Wrote v v2 ((v.log.start, head_block v) ∷ installs v i)
    unfolding apply_writes
    both = Wrote-append v v1 v2 _ _ a same
      where
        same : Wrote v1 v2 (installs v i)
        same =
            subst (λ w. Wrote v1 v2 (install_writes v.log w v.log.lh.n 0)) a.view
              (subst (λ l. Wrote v1 v2 (install_writes l v1.view l.lh.n 0)) a.same_log b)

    abbrev emptied : Volume
    emptied = record v2 { log = record v2.log { lh = record v2.log.lh { n = 0 } } }

    erased_head : get32 (head_block emptied) 0 ≡ 0
    unfolding fill_head
    erased_head = get32-set32 (v2.view v2.log.start) 0 0 (omega arith)

    start2 : v2.log.start ≡ v.log.start
    start2 = ap (λ (l : Log). l.start) both.same_log

    module _ (v' : Volume) (z : Wrote emptied v' ((v2.log.start, head_block emptied) ∷ [])) where
      final_disk : (x : ℕ) → x < v.log.start → v'.disk x ≡ v.view x
      unfolding apply_writes
      final_disk x l =
          ap (λ d. d x) z.disk
          ∙ update_there v2.disk v2.log.start x (head_block emptied) (λ e. omega (arith, start2))
          ∙ ap (λ d. d x) both.disk
          ∙ installed v i x l

      erased_disk : get32 (v'.disk v.log.start) 0 ≡ 0
      unfolding apply_writes
      erased_disk =
          ap (λ x. get32 (v'.disk x) 0) (sym start2)
          ∙ ap (λ d. get32 (d v2.log.start) 0) z.disk
          ∙ ap (λ b. get32 b 0) (update_here v2.disk v2.log.start (head_block emptied))
          ∙ erased_head

      committed : Committed v v'
      committed = record {
        log_writes = ws v i (head_block emptied) erased_head;
        writes =
            z.writes
            ∙ ap (λ s. v2.writes ++ (s, head_block emptied) ∷ []) start2
            ∙ ap (λ us. us ++ (v.log.start, head_block emptied) ∷ []) both.writes
            ∙ append_assoc v.writes ((v.log.start, head_block v) ∷ installs v i)
                ((v.log.start, head_block emptied) ∷ []);
        survives = survives v i (head_block emptied) erased_head;
        disk = final_disk;
        empty = ap (λ (l : Log). l.lh.n) z.same_log;
        erased = erased_disk;
      }

  none_of : ltb 0 v.log.lh.n ≡ false → v.log.lh.n ≡ 0
  none_of p = ground (arith, p)

  -- In a transaction, the writes of `commit_trans` end with the disk before the log as it was read, and
  -- with a log that is empty both in memory and in its header on the disk. And whichever number of these writes is on the disk when the machine
  -- stops, recovery at the next start gives a disk that is, before the log, the one from before
  -- the transaction or the one with all of it.
  pub commit_atomic : Returns (λ _ v'. Committed v v') (write_trans v)
  unfolding write_trans install_trans
  commit_atomic = elim (Bool-cases (ltb 0 v.log.lh.n)) [
    | inl p ↦ rw p (
        Returns-bind (λ _ v1. Wrote v v1 ((v.log.start, head_block v) ∷ [])) _ write_head _ v
          (write_head-Wrote v)
          (λ _ v1 a.
            Returns-bind (λ _ v2. Wrote v1 v2 (install_writes v1.log v1.view v1.log.lh.n 0)) _
              install_trans _ v1 (install_from-Wrote v1.log.lh.n 0 v1)
              (λ _ v2 b.
                Returns-mono
                  (λ _ v'.
                    Wrote (emptied v1 v2 a b) v'
                      ((v2.log.start, head_block (emptied v1 v2 a b)) ∷ []))
                  (λ _ v'. Committed v v') (write_head (emptied v1 v2 a b))
                  (write_head-Wrote (emptied v1 v2 a b)) (λ _ v' z. committed v1 v2 a b v' z))))
    | inr p ↦ rw p (nothing_to_write (none_of p))
  ]
