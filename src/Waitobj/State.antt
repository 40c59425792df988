-- ===== src/Waitobj/State.antt =====
-- kern/sync/waitobj.h: the two pools, the tick counter, and access to them. A channel is the address
-- of a wait object in its pool, which stands at `wobjs_base`.
use advanced_synchronization.Base.{
  ℕ, ◌+◌, ◌*◌, Option, none, some, ltb, update, M, pure, check, ◌>>=◌, Returns,
}
use advanced_synchronization.Spinlock
use advanced_synchronization.Spinlock.{Spinlock}
use advanced_synchronization.Thread.Tcb.{Sched}

abbrev pub event_timer : ℕ
event_timer = 1

abbrev pub event_keyboard : ℕ
event_keyboard = 2

abbrev pub event_software : ℕ
event_software = 3

abbrev pub max_wait_objects : ℕ
max_wait_objects = 16

abbrev pub max_event_sources : ℕ
max_event_sources = 32

-- `kind` is the field `type`; `parent` and `next` are indices of the pools, `none` for NULL.
pub record EventSource : Type 0 where
  pub id : ℕ
  pub kind : ℕ
  pub ready : ℕ
  pub period_ms : ℕ
  pub next_fire_tick : ℕ
  pub parent : Option ℕ
  pub next : Option ℕ

pub record WaitObject : Type 0 where
  pub wid : ℕ
  pub owner_pid : ℕ
  pub in_use : ℕ
  pub lk : Spinlock
  pub sources : Option ℕ

pub record Kernel : Type 0 where
  pub sched : Sched
  pub waitobj_ticks : ℕ
  pub wobjs : ℕ → WaitObject
  pub esrc : ℕ → EventSource
  pub wobjs_base : ℕ

-- `sizeof(wait_object_t)` is 24.
abbrev pub wobj_addr : Kernel → ℕ → ℕ
wobj_addr k w = k.wobjs_base + 24 * w

abbrev pub get_ticks : M Kernel ℕ
get_ticks k = some (k.waitobj_ticks, k)

abbrev pub source_at : ℕ → M Kernel EventSource
source_at i k = (check (ltb i max_event_sources) >>= λ _. pure (k.esrc i)) k

abbrev pub write_source : ℕ → (EventSource → EventSource) → M Kernel (Unit {0})
write_source i f k =
    (check (ltb i max_event_sources) >>= λ _ k'.
    some (tt, record k' { esrc = update k'.esrc i (f (k'.esrc i)) }))
      k

abbrev pub object_at : ℕ → M Kernel WaitObject
object_at w k = (check (ltb w max_wait_objects) >>= λ _. pure (k.wobjs w)) k

abbrev pub write_object : ℕ → (WaitObject → WaitObject) → M Kernel (Unit {0})
write_object w f k =
    (check (ltb w max_wait_objects) >>= λ _ k'.
    some (tt, record k' { wobjs = update k'.wobjs w (f (k'.wobjs w)) }))
      k

-- A call into the scheduler.
abbrev pub with_sched : {A : Type 0} → Kernel → Option (A × Sched) → Option (A × Kernel)
with_sched k none = none
with_sched k (some (a, s)) = some (a, record k { sched = s })

abbrev pub on_sched : {A : Type 0} → M Sched A → M Kernel A
on_sched m k = with_sched k (m k.sched)

pub with_sched-Returns :
    {A : Type 0} (k : Kernel) (P : A → Sched → Type 0) (Q : A → Kernel → Type 0)
    (o : Option (A × Sched))
    → Returns P o
    → ((a : A) (s : Sched) → P a s → Q a (record k { sched = s }))
    → Returns Q (with_sched k o)
with_sched-Returns k P Q none r q = r
with_sched-Returns k P Q (some (a, s)) r q = q a s r

unfoldable pub acquire_object : ℕ → M Kernel (Unit {0})
unfolding Spinlock.spinlock_acquire
acquire_object w k = elim (Spinlock.spinlock_acquire k.sched.pcpu_idx (k.wobjs w).lk) [
  | none ↦ none
  | some lk ↦ write_object w (λ o. record o { lk = lk }) k
]

unfoldable pub release_object : ℕ → M Kernel (Unit {0})
unfolding Spinlock.spinlock_release
release_object w = write_object w (λ o. record o { lk = Spinlock.spinlock_release o.lk })
