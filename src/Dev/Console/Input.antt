-- ===== src/Dev/Console/Input.antt =====
-- What an interrupt of a device puts in the ring, and what `cons_getc` takes from it.
use mathlib.Core.List.{append-nil}
use advanced_synchronization.Base.{
  ℕ, ◌+◌, ◌<◌, ◌≡◌, refl, List, ◌++◌, length, length-append, some, none, Option, arith, Returns,
  Returns-bind, Returns-mono, ◌>>=◌, ◌>>◌, pure, subst, sym, Bool, true, false, if◌then◌else◌, [],
}
use advanced_synchronization.Spinlock
use advanced_synchronization.Spinlock.{Spinlock, IsFree}
use advanced_synchronization.Thread.Scheduler.Invariant.{IsScheduled}
use advanced_synchronization.Waitobj.State.{Kernel}
use advanced_synchronization.Waitobj.Console.{AfterKey, console_input_wakes}
use advanced_synchronization.Waitobj.Notify.{waitobj_console_input_notify}
use advanced_synchronization.Dev.Console.{
  console_buffer_size, Console, put_chars, take_char, notified, notify_input, release_cons, taking,
  cons_intr, serial_intr, cons_getc,
}
use advanced_synchronization.Dev.Console.Fifo.{
  Holds, nonzero, SameRest, put_chars-Holds, first, rest, take_char-Holds,
}

abbrev held : Console → Console
held c = record c { cons_lk = record { lock_holder = c.kernel.sched.pcpu_idx; lock = 1 } }

abbrev free : Console → Console
free c = record c { cons_lk = Spinlock.spinlock_release c.cons_lk }

-- The ring holds `xs`, its lock is free, and the threads and sources are as after a key.
pub record AfterInput (c c' : Console) (xs : List ℕ) : Type 0 where
  pub holds : Holds c' xs
  pub unlocked : IsFree c'.cons_lk
  pub key : AfterKey c.kernel c'.kernel

notified-Returns :
    (c : Console) (P : Unit {0} → Kernel → Type 0) (Q : Unit {0} → Console → Type 0)
    (o : Option (Unit {0} × Kernel))
    → Returns P o
    → ((k : Kernel) → P tt k → Q tt (record c { kernel = k }))
    → Returns Q (notified c o)
notified-Returns c P Q none r q = r
notified-Returns c P Q (some (tt, k)) r q = q k r

cons_intr-eq :
    (c : Console) (chs : List ℕ)
    → IsFree c.cons_lk
    → cons_intr chs c ≡ (put_chars chs >>= λ _. release_cons >> notify_input) (held c)
unfolding cons_intr Spinlock.spinlock_acquire
cons_intr-eq c chs h = rw h refl

-- On scheduled tables, a free lock and a ring that has room for them, `cons_intr` returns: the
-- characters other than 0 stand behind those that the ring held, and the sources that await a key are
-- ready and their waiters awake, as after `waitobj_console_input_notify`.
pub cons_intr-AfterInput :
    (c : Console) (chs xs ys : List ℕ)
    → IsFree c.cons_lk
    → IsScheduled c.kernel.sched ys
    → length xs + length (nonzero chs) < console_buffer_size
    → Holds c xs
    → Returns (λ _ c'. AfterInput c c' (xs ++ nonzero chs)) (cons_intr chs c)
unfolding Spinlock.spinlock_release
cons_intr-AfterInput c chs xs ys lk sch room h = rw (cons_intr-eq c chs lk) (
    Returns-bind (λ _ c1. Holds c1 (xs ++ nonzero chs) × SameRest (held c) c1)
      (λ _ c'. AfterInput c c' (xs ++ nonzero chs)) (put_chars chs)
      (λ _. release_cons >> notify_input) (held c)
      (put_chars-Holds chs (held c) xs room
        (record { rpos_lt = h.rpos_lt; wpos_lt = h.wpos_lt; few = h.few; between = h.between }))
      (λ _ c1 q.
        notified-Returns (free c1) (λ _ k. AfterKey c1.kernel k)
          (λ _ c'. AfterInput c c' (xs ++ nonzero chs)) (waitobj_console_input_notify c1.kernel)
          (console_input_wakes c1.kernel ys
            (subst (λ (k : Kernel). IsScheduled k.sched ys) (sym q.1.same_kernel) sch))
          (λ k a. record {
            holds = record {
              rpos_lt = q.0.rpos_lt;
              wpos_lt = q.0.wpos_lt;
              few = q.0.few;
              between = q.0.between;
            };
            unlocked = refl;
            key = subst (λ k'. AfterKey k' k) q.1.same_kernel a;
          })))

-- What `cons_getc` leaves: the character `r`, the first of `xs`, is taken, and the others stay.
pub record Taken (c' : Console) (r : ℕ) (xs : List ℕ) : Type 0 where
  pub char : r ≡ first xs
  pub holds : Holds c' (rest xs)
  pub unlocked : IsFree c'.cons_lk
  pub scheduled : (ys : List ℕ) × IsScheduled c'.kernel.sched ys

cons_getc-eq :
    (c : Console) (exists : Bool) (serial keys : List ℕ)
    → cons_getc exists serial keys c
      ≡ (serial_intr exists serial >>= λ _. cons_intr keys >>= λ _. taking) c
unfolding cons_getc
cons_getc-eq c exists serial keys = refl

-- What comes over the serial line, if there is one.
abbrev pub heard : Bool → List ℕ → List ℕ
heard exists serial = if exists then nonzero serial else []

-- The ring holds `xs`, its lock is free, and the tables are scheduled.
record Heard (c' : Console) (xs : List ℕ) : Type 0 where
  holds : Holds c' xs
  unlocked : IsFree c'.cons_lk
  scheduled : (ys : List ℕ) × IsScheduled c'.kernel.sched ys

serial_intr-Heard :
    (exists : Bool) (c : Console) (serial xs ys : List ℕ)
    → IsFree c.cons_lk
    → IsScheduled c.kernel.sched ys
    → length xs + length (heard exists serial) < console_buffer_size
    → Holds c xs
    → Returns (λ _ c'. Heard c' (xs ++ heard exists serial)) (serial_intr exists serial c)
unfolding serial_intr
serial_intr-Heard true c serial xs ys lk sch room h =
    Returns-mono (λ _ c'. AfterInput c c' (xs ++ nonzero serial)) _ (cons_intr serial c)
      (cons_intr-AfterInput c serial xs ys lk sch room h)
      (λ _ c' a. record { holds = a.holds; unlocked = a.unlocked; scheduled = a.key.scheduled })
serial_intr-Heard false c serial xs ys lk sch room h = record {
  holds = subst (Holds c) (sym (append-nil xs)) h;
  unlocked = lk;
  scheduled = (ys, sch);
}

taking-Taken :
    (c : Console) (xs ys : List ℕ)
    → IsFree c.cons_lk
    → IsScheduled c.kernel.sched ys
    → Holds c xs
    → Returns (λ r c'. Taken c' r xs) (taking c)
unfolding taking Spinlock.spinlock_acquire Spinlock.spinlock_release
taking-Taken c xs ys lk sch h = rw lk (
    Returns-bind (λ r c1. (r ≡ first xs) × Holds c1 (rest xs) × SameRest (held c) c1)
      (λ r c'. Taken c' r xs) take_char (λ ch. release_cons >> pure ch) (held c)
      (take_char-Holds (held c) xs
        (record { rpos_lt = h.rpos_lt; wpos_lt = h.wpos_lt; few = h.few; between = h.between }))
      (λ r c1 q. record {
        char = q.0;
        holds = record {
          rpos_lt = q.1.rpos_lt;
          wpos_lt = q.1.wpos_lt;
          few = q.1.few;
          between = q.1.between;
        };
        unlocked = refl;
        scheduled = (ys, subst (λ (k : Kernel). IsScheduled k.sched ys) (sym q.2.same_kernel) sch);
      }))

-- On scheduled tables, a free lock and a ring that has room for them, `cons_getc` polls the devices and
-- returns the first of the characters that the ring held, followed by those other than 0 of the serial
-- line, if there is one, and of the keyboard; the ring holds the others in their order. With none it
-- returns 0.
pub cons_getc-Taken :
    (c : Console) (exists : Bool) (serial keys xs ys : List ℕ)
    → IsFree c.cons_lk
    → IsScheduled c.kernel.sched ys
    → length xs + length (heard exists serial) + length (nonzero keys) < console_buffer_size
    → Holds c xs
    → Returns
        (λ r c'. Taken c' r ((xs ++ heard exists serial) ++ nonzero keys))
        (cons_getc exists serial keys c)
cons_getc-Taken c exists serial keys xs ys lk sch room h = rw (cons_getc-eq c exists serial keys) (
    Returns-bind (λ _ c1. Heard c1 (xs ++ heard exists serial))
      (λ r c'. Taken c' r ((xs ++ heard exists serial) ++ nonzero keys)) (serial_intr exists serial)
      (λ _. cons_intr keys >>= λ _. taking) c
      (serial_intr-Heard exists c serial xs ys lk sch (omega arith) h)
      (λ _ c1 a.
        Returns-bind (λ _ c2. AfterInput c1 c2 ((xs ++ heard exists serial) ++ nonzero keys))
          (λ r c'. Taken c' r ((xs ++ heard exists serial) ++ nonzero keys)) (cons_intr keys)
          (λ _. taking) c1
          (cons_intr-AfterInput c1 keys (xs ++ heard exists serial) a.scheduled.0 a.unlocked
            a.scheduled.1 (omega (arith, length-append xs (heard exists serial))) a.holds)
          (λ _ c2 b.
            taking-Taken c2 ((xs ++ heard exists serial) ++ nonzero keys) b.key.scheduled.0
              b.unlocked b.key.scheduled.1 b.holds)))
