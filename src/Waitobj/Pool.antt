-- ===== src/Waitobj/Pool.antt =====
-- kern/sync/waitobj.c: initialisation, and the calls that take entries of the pools.
use advanced_synchronization.Base.{
  ℕ, zero, suc, ◌+◌, Option, none, some, ◌==◌, leb, if◌then◌else◌, ◌&&◌, u32, is_null, num_ids, ℤ,
  pos, negsuc, M, pure, ◌>>=◌, ◌>>◌,
}
use advanced_synchronization.Spinlock
use advanced_synchronization.Waitobj.State.{
  Kernel, EventSource, max_wait_objects, max_event_sources, event_timer, write_source, object_at,
  write_object, get_ticks, acquire_object, release_object,
}

unfoldable pub waitobj_init : M Kernel (Unit {0})
unfolding Spinlock.spinlock_init
waitobj_init k = some (
  tt,
  record (record (record k { waitobj_ticks = 0 }) {
    wobjs = λ i. record {
      wid = i;
      owner_pid = num_ids;
      in_use = 0;
      lk = Spinlock.spinlock_init;
      sources = none;
    };
  }) {
    esrc = λ i. record {
      id = 0;
      kind = 0;
      ready = 0;
      period_ms = 0;
      next_fire_tick = 0;
      parent = none;
      next = none;
    };
  },
)

-- The first of the `n` entries from `i` on that is free.
unfoldable pub free_source_from : (ℕ → EventSource) → ℕ → ℕ → Option ℕ
free_source_from esrc zero i = none
free_source_from esrc (suc n) i =
    let rest = free_source_from esrc n (i + 1) in
    if is_null (esrc i).parent && (esrc i).id == 0 then some i else rest

unfoldable pub alloc_source : M Kernel (Option ℕ)
alloc_source k = some (free_source_from k.esrc max_event_sources 0, k)

-- `none` for NULL.
unfoldable pub get_wo : ℤ → M Kernel (Option ℕ)
get_wo (negsuc _) k = some (none, k)
get_wo (pos wid) k =
    if leb max_wait_objects wid
    then some (none, k)
    else if (k.wobjs wid).in_use == 0
    then some (none, k)
    else some (some wid, k)

-- for (i = ...; ...; i++) of `waitobj_create`, by the rounds left.
unfoldable pub create_from : ℕ → ℕ → ℕ → M Kernel ℤ
unfolding acquire_object release_object
create_from zero owner_pid i = pure (negsuc 0)
create_from (suc n) owner_pid i =
    let rest = create_from n owner_pid (i + 1) in
    object_at i >>= λ o.
    if o.in_use == 0
    then (do
      acquire_object i
      write_object i (λ o'. record o' { in_use = 1; owner_pid = owner_pid; sources = none })
      release_object i
      pure (pos i))
    else rest

unfoldable pub waitobj_create : ℕ → M Kernel ℤ
waitobj_create owner_pid = create_from max_wait_objects owner_pid 0

-- The fields that `waitobj_add` gives the source at index `i`, the new head of the list of `w`.
abbrev pub added : ℕ → ℕ → ℕ → ℕ → ℕ → Option ℕ → EventSource
added now i w kind arg_ms head =
    let period = if arg_ms == 0 then 1 else arg_ms in
    record {
      id = i + 1;
      kind = kind;
      ready = 0;
      period_ms = if kind == event_timer then period else 0;
      next_fire_tick = if kind == event_timer then u32 (now + period) else 0;
      parent = some w;
      next = head;
    }

-- What `waitobj_add` does with the free entry that it found.
unfoldable pub add_at : ℕ → ℕ → ℕ → ℕ → M Kernel ℤ
unfolding acquire_object release_object
add_at w i kind arg_ms = do
  acquire_object w
  now ← get_ticks
  o ← object_at w
  write_source i (λ _. added now i w kind arg_ms o.sources)
  write_object w (λ o'. record o' { sources = some i })
  release_object w
  pure (pos (i + 1))

unfoldable pub waitobj_add : ℕ → ℤ → ℕ → ℕ → M Kernel ℤ
unfolding alloc_source
waitobj_add owner_pid wid kind arg_ms = do
  wo ← get_wo wid
  elim wo [
    | none ↦ pure (negsuc 0)
    | some w ↦ (do
      o ← object_at w
      if o.owner_pid == owner_pid
          then (alloc_source >>= λ s. elim s [
            | none ↦ pure (negsuc 0)
            | some i ↦ add_at w i kind arg_ms
          ])
          else pure (negsuc 0))
  ]
