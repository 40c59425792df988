-- ===== src/Dev/Console.antt =====
-- kern/dev/console.c: the ring of typed characters, and the line editor. What a device gives is the list
-- of the values of its function up to the -1, which are bytes; a `char` holds the bits of its number.
-- What is printed is left out.
pub mod Fifo
pub mod Input
use advanced_synchronization.Base.{
  ℕ, zero, suc, ◌+◌, ◌-◌, leb, ltb, ◌==◌, ◌&&◌, ◌||◌, not, if◌then◌else◌, Bool, Option, none, some,
  List, [], ◌∷◌, update, M, pure, stop, ◌>>=◌, ◌>>◌,
}
use advanced_synchronization.Spinlock
use advanced_synchronization.Spinlock.{Spinlock}
use advanced_synchronization.Waitobj.State.{Kernel}
use advanced_synchronization.Waitobj.Notify.{waitobj_console_input_notify}

abbrev pub console_buffer_size : ℕ
console_buffer_size = 512

pub record Console : Type 0 where
  pub cons_lk : Spinlock
  pub buf : ℕ → ℕ
  pub rpos : ℕ
  pub wpos : ℕ
  pub kernel : Kernel

abbrev pub acquire_cons : M Console (Unit {0})
acquire_cons c = elim (Spinlock.spinlock_acquire c.kernel.sched.pcpu_idx c.cons_lk) [
  | none ↦ none
  | some lk ↦ some (tt, record c { cons_lk = lk })
]

abbrev pub release_cons : M Console (Unit {0})
release_cons c = some (tt, record c { cons_lk = Spinlock.spinlock_release c.cons_lk })

-- A position behind `p`, in the ring.
abbrev pub next_pos : ℕ → ℕ
next_pos p = if p + 1 == console_buffer_size then 0 else p + 1

-- The body of the loop of `cons_intr`: a zero is skipped.
unfoldable pub put_char : ℕ → M Console (Unit {0})
put_char ch c =
    if ch == 0
    then some (tt, c)
    else if ltb c.wpos console_buffer_size
    then some (tt, record c { buf = update c.buf c.wpos ch; wpos = next_pos c.wpos })
    else none

unfoldable pub put_chars : List ℕ → M Console (Unit {0})
put_chars [] = pure tt
put_chars (ch ∷ chs) = put_char ch >> put_chars chs

abbrev pub notified : Console → Option (Unit {0} × Kernel) → Option (Unit {0} × Console)
notified c none = none
notified c (some (_, k)) = some (tt, record c { kernel = k })

abbrev pub notify_input : M Console (Unit {0})
notify_input c = notified c (waitobj_console_input_notify c.kernel)

unfoldable pub cons_intr : List ℕ → M Console (Unit {0})
unfolding Spinlock.spinlock_acquire Spinlock.spinlock_release
cons_intr chs = do acquire_cons; put_chars chs; release_cons; notify_input

-- What `cons_getc` does behind the polls, with the lock held and in all.
unfoldable pub take_char : M Console ℕ
take_char c =
    if c.rpos == c.wpos
    then some (0, c)
    else if ltb c.rpos console_buffer_size
    then some (c.buf c.rpos, record c { rpos = next_pos c.rpos })
    else none

unfoldable pub taking : M Console ℕ
unfolding Spinlock.spinlock_acquire Spinlock.spinlock_release
taking = do acquire_cons; ch ← take_char; release_cons; pure ch

-- Of kern/dev/serial.c: `exists` is `serial_exists`.
unfoldable pub serial_intr : Bool → List ℕ → M Console (Unit {0})
serial_intr exists serial = if exists then cons_intr serial else pure tt

-- `serial` and `keys` are what the polls of the serial line and of the keyboard give.
unfoldable pub cons_getc : Bool → List ℕ → List ℕ → M Console ℕ
cons_getc exists serial keys = do serial_intr exists serial; cons_intr keys; taking

abbrev pub buflen : ℕ
buflen = 1024

-- What a line comes to: the line with its length, an error, or no end yet.
pub data Line : Type 0 where
  entered : (ℕ → ℕ) → ℕ → Line
  read_error : Line
  unfinished : Line

-- The loop of `readline` with `i` characters in `linebuf`, on the characters that `getchar` gives; they
-- are bytes, and those from 128 on are negative as a `char`.
unfoldable pub readline_from : List ℕ → ℕ → (ℕ → ℕ) → Line
readline_from [] i linebuf = unfinished
readline_from (c ∷ cs) i linebuf =
    let erased = readline_from cs (i - 1) linebuf in
    let typed = readline_from cs (i + 1) (update linebuf i c) in
    let skipped = readline_from cs i linebuf in
    if leb 128 c
    then read_error
    else if (c == 8 || c == 127) && ltb 0 i
    then erased
    else if leb 32 c && ltb i (buflen - 1)
    then typed
    else if c == 10 || c == 13
    then entered (update linebuf i 0) i
    else skipped

unfoldable pub readline : List ℕ → (ℕ → ℕ) → Line
readline cs linebuf = readline_from cs 0 linebuf
