-- ===== src/Waitobj/Chain.antt =====
-- The list of sources of a wait object, and what the two walks of `waitobj_wait` over it do.
use mathlib.Core.Path.{fun_ext}
use advanced_synchronization.Base.{
  ℕ, zero, suc, ◌+◌, ◌<◌, ◌≡◌, ◌≢◌, refl, ap, ◌∙◌, inl, inr, Option, none, some, List, [], ◌∷◌,
  ◌==◌, if◌then◌else◌, In, NotIn, Distinct, length, update, u32, Bool-cases, arith, ne_of_In,
}
use advanced_synchronization.Waitobj.State.{Kernel, EventSource, max_event_sources, event_timer}
use advanced_synchronization.Waitobj.Wait.{first_ready_from, reschedule_from}

-- From the pointer `p` on, the `next` fields lead through the sources `xs` to NULL.
abbrev pub Chain : (ℕ → EventSource) → Option ℕ → List ℕ → Type 0
Chain e p [] = p ≡ none
Chain e p (x ∷ xs) = (p ≡ some x) × (x < max_event_sources) × Chain e (e x).next xs

pub Chain-cong :
    (e f : ℕ → EventSource) (p : Option ℕ) (xs : List ℕ)
    → ((a : ℕ) → In a xs → (f a).next ≡ (e a).next)
    → Chain e p xs
    → Chain f p xs
Chain-cong e f p [] same c = c
Chain-cong e f p (x ∷ xs) same c =
    (c.0, c.1, rw (same x (inl refl)) (Chain-cong e f (e x).next xs (λ a m. same a (inr m)) c.2))

-- The first source of the list that is ready.
unfoldable pub first_ready : (ℕ → EventSource) → List ℕ → Option ℕ
first_ready e [] = none
first_ready e (x ∷ xs) = if (e x).ready == 0 then first_ready e xs else some x

pub first_ready-lt :
    (e : ℕ → EventSource) (p : Option ℕ) (xs : List ℕ) (i : ℕ)
    → Chain e p xs
    → first_ready e xs ≡ some i
    → i < max_event_sources
unfolding first_ready
first_ready-lt e p [] i c f = cc
first_ready-lt e p (x ∷ xs) i c f = ground (arith, c.1, first_ready-lt e (e x).next xs i c.2)

pub first_ready_from_lem :
    (n : ℕ) (k : Kernel) (p : Option ℕ) (xs : List ℕ)
    → Chain k.esrc p xs
    → length xs < n
    → first_ready_from n p k ≡ some (first_ready k.esrc xs, k)
unfolding first_ready_from first_ready
first_ready_from_lem zero k p xs c h = absurd (omega arith)
first_ready_from_lem (suc n) k p [] c h = rw c
first_ready_from_lem (suc n) k p (x ∷ xs) c h =
    rw c.0 (ground (arith, c.1, first_ready_from_lem n k (k.esrc x).next xs c.2 (omega arith)))

-- What a reset of the timers does to one source.
abbrev pub reset_timer : ℕ → EventSource → EventSource
reset_timer now s =
    if s.kind == event_timer
    then record s { ready = 0; next_fire_tick = u32 (now + s.period_ms) }
    else s

unfoldable pub reset_timers : ℕ → List ℕ → (ℕ → EventSource) → ℕ → EventSource
reset_timers now [] e = e
reset_timers now (x ∷ xs) e = reset_timers now xs (update e x (reset_timer now (e x)))

pub reset_timers_out :
    (now : ℕ) (xs : List ℕ) (e : ℕ → EventSource) (a : ℕ)
    → NotIn a xs
    → reset_timers now xs e a ≡ e a
unfolding reset_timers
reset_timers_out now [] e a n = refl
reset_timers_out now (x ∷ xs) e a n =
    reset_timers_out now xs (update e x (reset_timer now (e x))) a n.1 ∙ ground (arith, n.0)

update_ne : (e : ℕ → EventSource) (x a : ℕ) (v : EventSource) → a ≢ x → update e x v a ≡ e a
update_ne e x a v ne = ground arith

pub reset_timers-In :
    (now : ℕ) (xs : List ℕ) (e : ℕ → EventSource) (a : ℕ)
    → Distinct xs
    → In a xs
    → reset_timers now xs e a ≡ reset_timer now (e a)
unfolding reset_timers
reset_timers-In now [] e a d m = absurd m
reset_timers-In now (x ∷ xs) e a d (inl i) =
    rw i (reset_timers_out now xs (update e x (reset_timer now (e x))) x d.0 ∙ ground arith)
reset_timers-In now (x ∷ xs) e a d (inr m) =
    reset_timers-In now xs (update e x (reset_timer now (e x))) a d.1 m
    ∙ ap (reset_timer now) (update_ne e x a (reset_timer now (e x)) (ne_of_In a x xs m d.0))

reset_next :
    (now x : ℕ) (e : ℕ → EventSource) (a : ℕ)
    → (update e x (reset_timer now (e x)) a).next ≡ (e a).next
reset_next now x e a = ground arith

update_same : (e : ℕ → EventSource) (x : ℕ) → update e x (e x) ≡ e
update_same e x = fun_ext λ a. ground arith

reschedule_step :
    (n : ℕ) (k : Kernel) (now x : ℕ)
    → x < max_event_sources
    → reschedule_from (suc n) now (some x) k
      ≡ reschedule_from n now
          (k.esrc x).next
          (record k { esrc = update k.esrc x (reset_timer now (k.esrc x)) })
unfolding reschedule_from
reschedule_step n k now x h = elim (Bool-cases ((k.esrc x).kind == event_timer)) [
  | inl t ↦ ground (arith, h)
  | inr t ↦ rw (t, update_same k.esrc x) (ground (arith, h))
]

pub reschedule_from_lem :
    (n : ℕ) (k : Kernel) (now : ℕ) (p : Option ℕ) (xs : List ℕ)
    → Chain k.esrc p xs
    → length xs < n
    → reschedule_from n now p k ≡ some (tt, record k { esrc = reset_timers now xs k.esrc })
unfolding reschedule_from reset_timers
reschedule_from_lem zero k now p xs c h = absurd (omega arith)
reschedule_from_lem (suc n) k now p [] c h = rw c
reschedule_from_lem (suc n) k now p (x ∷ xs) c h = rw c.0 (
    reschedule_step n k now x c.1
    ∙ reschedule_from_lem n k' now (k.esrc x).next xs
        (Chain-cong k.esrc k'.esrc (k.esrc x).next xs (λ a _. reset_next now x k.esrc a) c.2)
        (omega arith))
  where
    k' : Kernel
    k' = record k { esrc = update k.esrc x (reset_timer now (k.esrc x)) }
