-- ===== src/Thread/Scheduler/Tests.antt =====
-- The scheduler's theorems on tables with a running thread, two ready ones and a sleeper.
use advanced_synchronization.Base.{ℕ, refl, ◌==◌, if◌then◌else◌, arith, [], ◌∷◌, Returns}
use advanced_synchronization.Spinlock.{Spinlock}
use advanced_synchronization.Thread.Tcb.{Sched, Tcb, ThreadState, ready, run, sleep, dead, SigState}
use advanced_synchronization.Thread.Scheduler.{thread_yield, thread_sleep, thread_wakeup}
use advanced_synchronization.Thread.Scheduler.Invariant.{IsScheduled}
use advanced_synchronization.Thread.Scheduler.Turns.{RunsFirst, yield_round_robin}
use advanced_synchronization.Thread.Scheduler.Sleep.{Slept, sleep_switches}
use advanced_synchronization.Thread.Scheduler.Wakeup.{WokeAll, wakeup_wakes_all}

abbrev pub free_lock : Spinlock
free_lock = record { lock_holder = 9; lock = 0 }

abbrev no_signals : SigState
no_signals = record {
  sigactions =
      λ _. record { sa_handler = 0; sa_sigaction = 0; sa_flags = 0; sa_restorer = 0; sa_mask = 0 };
  pending_signals = 0;
  signal_block_mask = 0;
  saved_esp_addr = 0;
  saved_eip_addr = 0;
  in_signal_handler = 0;
}

abbrev thread : ThreadState → ℕ → ℕ → ℕ → Tcb
thread st p n ch = record {
  state = st;
  prev = p;
  next = n;
  channel = ch;
  openfiles = λ _. 0;
  cwd = 0;
  sigstate = no_signals;
}

-- Thread 0 runs, 1 and 2 are ready, 3 sleeps on the channel 1048, the others are dead.
abbrev threads : ℕ → Tcb
threads a =
    if a == 0
    then thread run 64 64 0
    else if a == 1
    then thread ready 64 2 0
    else if a == 2
    then thread ready 1 64 0
    else if a == 3
    then thread sleep 64 64 1048
    else thread dead 64 64 0

abbrev pub tables : Sched
tables = record {
  tcb_pool = threads;
  tqueue_pool = λ _ chid.
      if chid == 64 then record { head = 1; tail = 2 } else record { head = 64; tail = 64 };
  curid = λ _. 0;
  sched_ticks = λ _. 0;
  sched_lk = free_lock;
  pcpu_idx = 0;
}

pub tables-IsScheduled : IsScheduled tables (1 ∷ 2 ∷ [])
tables-IsScheduled = record {
  ready_queue = record {
    queue = record {
      head_first = refl;
      tail_last = refl;
      linked = ground arith;
      distinct = ground arith;
    };
    queued = λ a m. ground (arith, m);
    ready_in = λ a h e. ground (arith, e);
    detached = λ a h n. record { prev_null = ground (arith, n); next_null = ground (arith, n) };
  };
  current_lt = omega arith;
  current_run = refl;
  lock_free = refl;
}

yield_round_robin_example : Returns (λ _ s'. RunsFirst s' (1 ∷ 2 ∷ 0 ∷ [])) (thread_yield tables)
yield_round_robin_example = yield_round_robin tables (1 ∷ 2 ∷ []) tables-IsScheduled

sleep_switches_example :
    Returns
      (λ lk s'. Slept s' 0 7 lk 1 (2 ∷ []))
      (thread_sleep 7 (record { lock_holder = 0; lock = 1 }) tables)
sleep_switches_example =
    sleep_switches tables 1 (2 ∷ []) tables-IsScheduled 7 (record { lock_holder = 0; lock = 1 })

wakeup_wakes_all_example :
    Returns (λ _ s'. WokeAll tables s' 1048 (1 ∷ 2 ∷ [])) (thread_wakeup 1048 tables)
wakeup_wakes_all_example = wakeup_wakes_all tables 1048 (1 ∷ 2 ∷ []) tables-IsScheduled
