-- ===== src/Fs/Tests.antt =====
-- The theorems on the log at a transaction of the sectors 3 and 4 of a disk whose log starts at 100.
use advanced_synchronization.Base.{ℕ, refl, ◌==◌, if◌then◌else◌, arith, [], Returns}
use advanced_synchronization.Thread.Scheduler.Tests.{tables, free_lock}
use advanced_synchronization.Fs.Disk.{Block, Buf, Volume}
use advanced_synchronization.Fs.Log.{log_write, write_trans}
use advanced_synchronization.Fs.Log.Crash.{InTransaction}
use advanced_synchronization.Fs.Log.Atomic.{Committed, commit_atomic}
use advanced_synchronization.Fs.Log.Append.{IsLogged, log_write-IsLogged}

abbrev filled : ℕ → Block
filled n _ = n

abbrev volume : Volume
volume = record {
  disk = λ x. if x == 101 then filled 7 else if x == 102 then filled 8 else filled 0;
  view = λ x.
      if x == 101
      then filled 7
      else if x == 102
      then filled 8
      else if x == 3
      then filled 7
      else if x == 4
      then filled 8
      else filled 0;
  writes = [];
  log = record {
    lock = free_lock;
    start = 100;
    size = 8;
    busy = 1;
    lh = record { n = 2; sector = λ t. if t == 0 then 3 else 4 };
  };
  log_addr = 5000;
  sched = tables;
}

volume-InTransaction : InTransaction volume
volume-InTransaction = record {
  count_le = omega arith;
  start_lt = omega arith;
  are_home = record { home = λ t l. ground arith; distinct = λ s t l u e. ground (arith, e) };
  logged = λ t l. ground arith;
  unmodified = λ x l h. ground (arith, h 0, h 1);
  log_clean = λ x l. ground arith;
  uncommitted = refl;
}

commit_atomic_example : Returns (λ _ v'. Committed volume v') (write_trans volume)
commit_atomic_example = commit_atomic volume volume-InTransaction

abbrev block_nine : Buf
block_nine = record { sector = 9; content = filled 9 }

log_write-IsLogged_example :
    Returns (λ _ v'. IsLogged volume v' block_nine) (log_write block_nine volume)
log_write-IsLogged_example =
    log_write-IsLogged volume block_nine volume-InTransaction (omega arith) (omega arith)
      (omega arith) (omega arith)

-- A log that was committed and not installed, with one sector.
abbrev crashed : Volume
crashed = record volume {
  disk = λ x. filled 0;
  view = λ x.
      if x == 100
      then (λ i. if i == 0 then 1 else if i == 4 then 3 else 0)
      else if x == 101
      then filled 7
      else filled 0;
}
