-- ===== src/Fs/Log.antt =====
-- kern/fs/log.c: transactions. The calls of `bufcache_release` are left out: they change neither what
-- is on the disk nor what a read gives.
pub mod Header
pub mod Writes
pub mod Recovery
pub mod Crash
pub mod Commit
pub mod Atomic
pub mod Append
use advanced_synchronization.Base.{
  ℕ, zero, suc, ◌+◌, ◌-◌, ltb, leb, ◌==◌, ◌||◌, if◌then◌else◌, ◌^◌, none, some, update, M, pure,
  stop, check, ◌>>=◌, ◌>>◌,
}
use advanced_synchronization.Spinlock
use advanced_synchronization.Spinlock.{Spinlock}
use advanced_synchronization.Thread.Tcb.{Sched}
use advanced_synchronization.Thread.Scheduler.{thread_sleep, thread_sleep_resumed, thread_wakeup}
use advanced_synchronization.Fs.Disk.{
  Block, get32, set32, Buf, LogHeader, Log, Volume, bufcache_read, bufcache_write, pin,
}

abbrev pub logsize : ℕ
logsize = 10

abbrev pub get_log : M Volume Log
get_log v = some (v.log, v)

abbrev pub set_lh_n : ℕ → M Volume (Unit {0})
set_lh_n n v = some (tt, record v { log = record v.log { lh = record v.log.lh { n = n } } })

-- `log.lh.sector[i] = x`, with the bound of the array.
abbrev pub set_lh_sector : ℕ → ℕ → M Volume (Unit {0})
set_lh_sector i x = check (ltb i logsize) >>= λ _ v. some (
  tt,
  record v { log = record v.log { lh = record v.log.lh { sector = update v.log.lh.sector i x } } },
)

-- The body of the loop of `install_trans`.
unfoldable pub install_one : ℕ → M Volume (Unit {0})
unfolding bufcache_read bufcache_write
install_one tail = do
  log ← get_log
  lbuf ← bufcache_read (log.start + tail + 1)
  dbuf ← bufcache_read (log.lh.sector tail)
  bufcache_write (record dbuf { content = lbuf.content })

unfoldable pub install_from : ℕ → ℕ → M Volume (Unit {0})
install_from zero tail = pure tt
install_from (suc n) tail = install_one tail >> install_from n (tail + 1)

unfoldable pub install_trans : M Volume (Unit {0})
install_trans = do log ← get_log; install_from log.lh.n 0

-- The loop of `read_head` over the sectors from `i` on.
unfoldable pub read_sectors : ℕ → ℕ → Block → M Volume (Unit {0})
read_sectors zero i lh = pure tt
read_sectors (suc n) i lh = set_lh_sector i (get32 lh (i + 1)) >> read_sectors n (i + 1) lh

-- A number read from the disk that is negative as an `int` is taken for 0: no loop goes round.
abbrev pub header_count : Block → ℕ
header_count lh = if ltb (get32 lh 0) (2 ^ 31) then get32 lh 0 else 0

unfoldable pub read_head : M Volume (Unit {0})
unfolding bufcache_read
read_head = do
  log ← get_log
  buf ← bufcache_read log.start
  set_lh_n (header_count buf.content)
  read_sectors (header_count buf.content) 0 buf.content

-- The loop of `write_head` over the sectors from `i` on.
unfoldable pub fill_head : ℕ → ℕ → (ℕ → ℕ) → Block → Block
fill_head zero i sector hb = hb
fill_head (suc n) i sector hb = fill_head n (i + 1) sector (set32 hb (i + 1) (sector i))

unfoldable pub write_head : M Volume (Unit {0})
unfolding bufcache_read bufcache_write
write_head = do
  log ← get_log
  buf ← bufcache_read log.start
  let hb = fill_head log.lh.n 0 log.lh.sector (set32 buf.content 0 log.lh.n)
  bufcache_write (record buf { content = hb })

unfoldable pub recover_from_log : M Volume (Unit {0})
recover_from_log = do read_head; install_trans; set_lh_n 0; write_head

abbrev pub acquire_log : M Volume (Unit {0})
acquire_log v = elim (Spinlock.spinlock_acquire v.sched.pcpu_idx v.log.lock) [
  | none ↦ none
  | some lk ↦ some (tt, record v { log = record v.log { lock = lk } })
]

abbrev pub release_log : M Volume (Unit {0})
release_log v =
    some (tt, record v { log = record v.log { lock = Spinlock.spinlock_release v.log.lock } })

abbrev pub set_busy : ℕ → M Volume (Unit {0})
set_busy b v = some (tt, record v { log = record v.log { busy = b } })

-- What a pass of `begin_trans` comes to: the transaction, or the switch to another thread.
pub data Begun : Type 0 where
  begun waits : Begun

-- A pass of the loop of `begin_trans`, the lock held.
unfoldable pub begin_pass : M Volume Begun
unfolding Spinlock.spinlock_release
begin_pass v =
    if v.log.busy == 0
    then (do set_busy 1; release_log; pure begun) v
    else elim (thread_sleep v.log_addr v.log.lock v.sched) [
      | none ↦ none
      | some (lk, s) ↦
          some (waits, record (record v { sched = s }) { log = record v.log { lock = lk } })
    ]

unfoldable pub begin_trans : M Volume Begun
unfolding Spinlock.spinlock_acquire
begin_trans = do acquire_log; begin_pass

-- The thread `pid` runs again after the switch, and goes round the loop.
unfoldable pub begin_trans_resumed : ℕ → M Volume Begun
begin_trans_resumed pid v = elim (thread_sleep_resumed pid v.log.lock v.sched) [
  | none ↦ none
  | some (lk, s) ↦ begin_pass (record (record v { sched = s }) { log = record v.log { lock = lk } })
]

-- The writes of `commit_trans`.
unfoldable pub write_trans : M Volume (Unit {0})
write_trans = do
  log ← get_log
  if ltb 0 log.lh.n then (do write_head; install_trans; set_lh_n 0; write_head) else pure tt

abbrev pub wake_waiters : M Volume (Unit {0})
wake_waiters v = elim (thread_wakeup v.log_addr v.sched) [
  | none ↦ none
  | some (_, s) ↦ some (tt, record v { sched = s })
]

unfoldable pub commit_trans : M Volume (Unit {0})
unfolding Spinlock.spinlock_acquire Spinlock.spinlock_release
commit_trans = do write_trans; acquire_log; set_busy 0; wake_waiters; release_log

-- The loop of `log_write`: the first of the `n` entries from `i` on with the sector, or their end.
unfoldable pub absorb_from : ℕ → ℕ → (ℕ → ℕ) → ℕ → ℕ
absorb_from zero i sector x = i
absorb_from (suc n) i sector x =
    let rest = absorb_from n (i + 1) sector x in if sector i == x then i else rest

-- The statements of `log_write` behind the loop.
unfoldable pub log_at : ℕ → Buf → M Volume (Unit {0})
unfolding bufcache_read bufcache_write pin
log_at i b = do
  set_lh_sector i b.sector
  log ← get_log
  lbuf ← bufcache_read (log.start + i + 1)
  bufcache_write (record lbuf { content = b.content })
  if i == log.lh.n then set_lh_n (log.lh.n + 1) else pure tt
  pin b

unfoldable pub log_write : Buf → M Volume (Unit {0})
log_write b = do
  log ← get_log
  check (ltb log.lh.n logsize)
  check (ltb log.lh.n (log.size - 1))
  check (ltb 0 log.busy)
  log_at (absorb_from log.lh.n 0 log.lh.sector b.sector) b
