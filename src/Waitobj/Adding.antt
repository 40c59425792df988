-- ===== src/Waitobj/Adding.antt =====
-- `waitobj_add`: the entry it takes, the list it extends, and when a timer that it armed fires.
use native.Mathlib.Decide.{ℕ_discrete}
use advanced_synchronization.Base.{
  ℕ, zero, suc, ◌+◌, ◌<◌, ◌≤◌, ◌≡◌, ◌≢◌, ◌↔◌, inl, inr, refl, sym, ap, ◌∙◌, Option, none, some,
  List, [], ◌∷◌, ◌%◌, ◌^◌, true, ◌==◌, if◌then◌else◌, u32, arith, In, NotIn, ne_of_In, Returns,
  Returns-mono, ℤ, pos, negsuc,
}
use advanced_synchronization.Spinlock.{IsFree}
use advanced_synchronization.Waitobj.State.{
  Kernel, EventSource, max_event_sources, max_wait_objects, event_timer,
}
use advanced_synchronization.Waitobj.Pool.{free_source_from, get_wo, added, add_at, waitobj_add}
use advanced_synchronization.Waitobj.Chain.{Chain, Chain-cong}
use advanced_synchronization.Waitobj.Delivery.{HasSources}
use advanced_synchronization.Waitobj.Outcomes.{IsOwned, get_wo-used}
use advanced_synchronization.Waitobj.Wait.{returned, waitobj_wait}
use advanced_synchronization.Waitobj.Firing.{is_due}

abbrev pub IsUnused : EventSource → Type 0
IsUnused s = (s.parent ≡ none) × (s.id ≡ 0)

free_source_from-some :
    (e : ℕ → EventSource) (n i j : ℕ)
    → free_source_from e n i ≡ some j
    → (i ≤ j) × (j < i + n) × IsUnused (e j)
unfolding free_source_from
free_source_from-some e zero i j h = cc
free_source_from-some e (suc n) i j h = ground (arith, free_source_from-some e n (i + 1) j)

not_member :
    (e : ℕ → EventSource) (w i : ℕ) (xs : List ℕ)
    → ((a : ℕ) → In a xs → (e a).parent ≡ some w)
    → (e i).parent ≡ none
    → NotIn i xs
not_member e w i [] p h = tt
not_member e w i (x ∷ xs) p h = (
  λ f. none≢some (sym h ∙ ap (λ a. (e a).parent) f ∙ p x (inl refl)),
  not_member e w i xs (λ a m. p a (inr m)) h,
)
  where
    none≢some : none ≡ some w → ⊥
    none≢some q = cc

-- A source with the number `i` of the object `w`, in front of the source `head`: it has the given type
-- and is not ready. A timer has the period `arg_ms`, or 1 for 0, and fires a period behind `now` on the
-- 32-bit counter; other sources have no period and no tick to fire at.
pub record IsFresh (s : EventSource) (now i w kind arg_ms : ℕ) (head : Option ℕ) : Type 0 where
  pub numbered : s.id ≡ i + 1
  pub typed : s.kind ≡ kind
  pub not_ready : s.ready ≡ 0
  pub of_object : s.parent ≡ some w
  pub in_front : s.next ≡ head
  pub period : kind ≡ 1 → 0 < arg_ms → s.period_ms ≡ arg_ms
  pub default_period : kind ≡ 1 → arg_ms ≡ 0 → s.period_ms ≡ 1
  pub fires : kind ≡ 1 → s.next_fire_tick ≡ (now + s.period_ms) % 2 ^ 32
  pub no_timer : kind ≢ 1 → (s.period_ms ≡ 0) × (s.next_fire_tick ≡ 0)

added-IsFresh :
    (now i w kind arg_ms : ℕ) (head : Option ℕ)
    → IsFresh (added now i w kind arg_ms head) now i w kind arg_ms head
added-IsFresh now i w kind arg_ms head = record {
  numbered = refl;
  typed = refl;
  not_ready = refl;
  of_object = refl;
  in_front = refl;
  period = λ e l. ground (arith, e, l);
  default_period = λ e l. ground (arith, e, l);
  fires = λ e. ground (arith, e);
  no_timer = λ ne. (ground (arith, ne), ground (arith, ne));
}

-- The source `i` is set up for the object `w` at the head of its list; nothing else changed.
pub record SetUp (k k' : Kernel) (w i kind arg_ms : ℕ) : Type 0 where
  pub source : IsFresh (k'.esrc i) k.waitobj_ticks i w kind arg_ms (k.wobjs w).sources
  pub other_sources : (a : ℕ) → a ≢ i → k'.esrc a ≡ k.esrc a
  pub head : (k'.wobjs w).sources ≡ some i
  pub same_use : (k'.wobjs w).in_use ≡ (k.wobjs w).in_use
  pub same_owner : (k'.wobjs w).owner_pid ≡ (k.wobjs w).owner_pid
  pub unlocked : IsFree (k'.wobjs w).lk
  pub other_objects : (v : ℕ) → v ≢ w → k'.wobjs v ≡ k.wobjs v
  pub same_sched : k'.sched ≡ k.sched
  pub same_ticks : k'.waitobj_ticks ≡ k.waitobj_ticks

add_at_lem :
    (k : Kernel) (w i kind arg_ms : ℕ)
    → w < max_wait_objects
    → i < max_event_sources
    → IsFree (k.wobjs w).lk
    → Returns (λ r k'. (r ≡ pos (i + 1)) × SetUp k k' w i kind arg_ms) (add_at w i kind arg_ms k)
unfolding add_at
add_at_lem k w i kind arg h l f =
    ground (arith, added-IsFresh k.waitobj_ticks i w kind arg (k.wobjs w).sources)

-- The lists of all objects survive the set-up of an unused source.
module _ (k k' : Kernel) (w i kind arg_ms : ℕ) (u : (k.esrc i).parent ≡ none)
    (l : i < max_event_sources) (q : SetUp k k' w i kind arg_ms) where
  Chain-kept :
      (p : Option ℕ) (v : ℕ) (ys : List ℕ)
      → ((a : ℕ) → In a ys → (k.esrc a).parent ≡ some v)
      → Chain k.esrc p ys
      → Chain k'.esrc p ys
  Chain-kept p v ys par c =
      Chain-cong k.esrc k'.esrc p ys
        (λ a m.
          ap (λ (s : EventSource). s.next)
            (q.other_sources a (ne_of_In a i ys m (not_member k.esrc v i ys par u))))
        c

  parents_kept :
      (v : ℕ) (ys : List ℕ)
      → ((a : ℕ) → In a ys → (k.esrc a).parent ≡ some v)
      → (a : ℕ) → In a ys
      → (k'.esrc a).parent ≡ some v
  parents_kept v ys par a m =
      ap (λ (s : EventSource). s.parent)
        (q.other_sources a (ne_of_In a i ys m (not_member k.esrc v i ys par u)))
      ∙ par a m

  other_kept : (v : ℕ) (ys : List ℕ) → v ≢ w → HasSources k v ys → HasSources k' v ys
  other_kept v ys ne h = record {
    object_lt = h.object_lt;
    chain = rw (q.other_objects v ne) (Chain-kept (k.wobjs v).sources v ys h.parents h.chain);
    distinct = h.distinct;
    parents = parents_kept v ys h.parents;
  }

  extended : (xs : List ℕ) → HasSources k w xs → HasSources k' w (i ∷ xs)
  extended xs h = record {
    object_lt = h.object_lt;
    chain =
        (q.head, l, rw q.source.in_front (Chain-kept (k.wobjs w).sources w xs h.parents h.chain));
    distinct = (not_member k.esrc w i xs h.parents u, h.distinct);
    parents =
        λ a m. elim m [ inl e ↦ rw e q.source.of_object | inr n ↦ parents_kept w xs h.parents a n ];
  }

module _ (k : Kernel) (owner w : ℕ) (xs : List ℕ) (o : IsOwned k owner w xs) (kind arg_ms : ℕ) where
  add-eq :
      (i : ℕ)
      → free_source_from k.esrc max_event_sources 0 ≡ some i
      → waitobj_add owner (pos w) kind arg_ms k ≡ add_at w i kind arg_ms k
  unfolding waitobj_add
  add-eq i e =
      ground (arith, get_wo-used k w o.sources.object_lt o.used, o.sources.object_lt, o.owned, e)

  -- With no free entry left, `waitobj_add` returns -1 and changes nothing.
  pub add_full :
      free_source_from k.esrc max_event_sources 0 ≡ none
      → waitobj_add owner (pos w) kind arg_ms k ≡ some (negsuc 0, k)
  unfolding waitobj_add
  add_full e =
      ground (arith, get_wo-used k w o.sources.object_lt o.used, o.sources.object_lt, o.owned, e)

  pub record AddedTo (i : ℕ) (k' : Kernel) : Type 0 where
    pub set_up : SetUp k k' w i kind arg_ms
    pub owned : IsOwned k' owner w (i ∷ xs)
    pub others_kept : (v : ℕ) (ys : List ℕ) → v ≢ w → HasSources k v ys → HasSources k' v ys

  -- On an object that is in use, belongs to the caller and is not locked, with the free entry `i`
  -- found first: `waitobj_add` returns `i + 1`; the entry has the given type and is not ready,
  -- and a timer has the given period, or 1 for 0, and fires one period from now on the 32-bit
  -- counter; it stands before the sources that the object had; the object stays the caller's, the lists of
  -- all other objects are as before, and so are the other entries, the scheduler and the ticks.
  pub add_extends :
      (i : ℕ)
      → free_source_from k.esrc max_event_sources 0 ≡ some i
      → Returns (λ r k'. (r ≡ pos (i + 1)) × AddedTo i k') (waitobj_add owner (pos w) kind arg_ms k)
  add_extends i e =
      let free : (0 ≤ i) × (i < max_event_sources) × IsUnused (k.esrc i) =
        free_source_from-some k.esrc max_event_sources 0 i e in
      rw (add-eq i e) (
        Returns-mono (λ r k'. (r ≡ pos (i + 1)) × SetUp k k' w i kind arg_ms)
          (λ r k'. (r ≡ pos (i + 1)) × AddedTo i k') (add_at w i kind arg_ms k)
          (add_at_lem k w i kind arg_ms o.sources.object_lt free.1 o.unlocked)
          (λ r k' q. (
            q.0,
            record {
              set_up = q.1;
              owned = record {
                sources = extended k k' w i kind arg_ms free.2.0 free.1 q.1 xs o.sources;
                used = λ z. o.used (sym q.1.same_use ∙ z);
                owned = q.1.same_owner ∙ o.owned;
                unlocked = q.1.unlocked;
              };
              others_kept = other_kept k k' w i kind arg_ms free.2.0 free.1 q.1;
            },
          )))

-- A call that names no object, one that is not in use, or another process's object.
pub data IsRefused (k : Kernel) (owner : ℕ) : ℤ → Type 0 where
  negative : (n : ℕ) → IsRefused k owner (negsuc n)
  too_large : (w : ℕ) → max_wait_objects ≤ w → IsRefused k owner (pos w)
  unused : (w : ℕ) → (k.wobjs w).in_use ≡ 0 → IsRefused k owner (pos w)
  foreign :
      (w : ℕ) → w < max_wait_objects → (k.wobjs w).owner_pid ≢ owner → IsRefused k owner (pos w)

module _ (k : Kernel) (owner kind arg_ms timeout_ms : ℕ) where
  abbrev Refuses : ℤ → Type 0
  Refuses wid =
      (waitobj_add owner wid kind arg_ms k ≡ some (negsuc 0, k))
      × (waitobj_wait owner wid timeout_ms k ≡ some (returned (negsuc 1) none, k))

  refused_null : (wid : ℤ) → get_wo wid k ≡ some (none, k) → Refuses wid
  unfolding waitobj_add waitobj_wait
  refused_null wid e = (ground (arith, e), ground (arith, e))

  refused_foreign :
      (w : ℕ)
      → w < max_wait_objects
      → (k.wobjs w).owner_pid ≢ owner
      → get_wo (pos w) k ≡ some (some w, k)
      → Refuses (pos w)
  unfolding waitobj_add waitobj_wait
  refused_foreign w l h e = (ground (arith, l, h, e), ground (arith, l, h, e))

  get_wo-unused : (w : ℕ) → (k.wobjs w).in_use ≡ 0 → get_wo (pos w) k ≡ some (none, k)
  unfolding get_wo
  get_wo-unused w h = ground (arith, h)

  get_wo-too_large : (w : ℕ) → max_wait_objects ≤ w → get_wo (pos w) k ≡ some (none, k)
  unfolding get_wo
  get_wo-too_large w h = ground (arith, h)

  get_wo-negative : (n : ℕ) → get_wo (negsuc n) k ≡ some (none, k)
  unfolding get_wo
  get_wo-negative n = refl

  -- A call with a negative or too large number of an object, with an object that is not in use, or
  -- with another process's object returns -1 from `waitobj_add` and -2 from `waitobj_wait`, and
  -- changes nothing.
  pub refused_calls :
      (wid : ℤ)
      → IsRefused k owner wid
      → (waitobj_add owner wid kind arg_ms k ≡ some (negsuc 0, k))
        × (waitobj_wait owner wid timeout_ms k ≡ some (returned (negsuc 1) none, k))
  refused_calls _ (negative n) = refused_null (negsuc n) (get_wo-negative n)
  refused_calls _ (too_large w h) = refused_null (pos w) (get_wo-too_large w h)
  refused_calls _ (unused w h) = refused_null (pos w) (get_wo-unused w h)
  refused_calls _ (foreign w l h) = elim (ℕ_discrete (k.wobjs w).in_use 0) [
    | yes z ↦ refused_null (pos w) (get_wo-unused w z)
    | no u ↦ refused_foreign w l h (get_wo-used k w l u)
  ]

-- A timer armed at the tick `now` with a period that does not take the counter past 2 ^ 32: a later
-- tick `t` finds it due exactly from `now + period` on, with period 1 for the argument 0.
pub armed_timer_due :
    (now t i w arg_ms : ℕ) (head : Option ℕ)
    → now + arg_ms + 1 < 2 ^ 32
    → (is_due t (added now i w event_timer arg_ms head) ≡ true)
      ↔ (now + (if arg_ms == 0 then 1 else arg_ms) ≤ t)
unfolding is_due
armed_timer_due now t i w arg head h = ground arith

-- A timer armed at the tick `now` with a period below 2 ^ 32 such that the deadline reaches 2 ^ 32
-- is due at the very next tick, when that tick itself does not wrap.
pub wrapped_timer_due_at_once :
    (now i w arg_ms : ℕ) (head : Option ℕ)
    → now + 1 < 2 ^ 32
    → 0 < arg_ms
    → arg_ms < 2 ^ 32
    → 2 ^ 32 ≤ now + arg_ms
    → is_due (u32 (now + 1)) (added now i w event_timer arg_ms head) ≡ true
unfolding is_due
wrapped_timer_due_at_once now i w arg head h p a o = ground arith
