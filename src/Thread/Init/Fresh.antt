-- ===== src/Thread/Init/Fresh.antt =====
-- kern/thread: the loops of `thread_init` over the tables.
use advanced_synchronization.Base.{
  ℕ, zero, suc, ◌+◌, ◌<◌, ◌≤◌, ◌≡◌, ◌≢◌, refl, sym, subst, ap, ◌∙◌, inl, inr, true, leb, ◌==◌,
  Bool-cases, ==→eq, ==→ne, eq→==, ne→==, lt→ltb, update, num_ids, num_cpus, Returns, Returns-bind,
  Returns-step, Returns-mono, arith,
}
use advanced_synchronization.Thread.Tcb.{Sched, write_thread}
use advanced_synchronization.Thread.Init.{
  fresh_tcb, tcb_init_at_id, tcb_init_from, tcb_init, empty_queue, tqueue_init_at_id, init_queues,
  init_cpus, tqueue_init,
}

-- The threads that the second arguments name in the rounds from `p` to `p + n` are fresh; those that are
-- not named, and all but the threads, are as before.
record ThreadsFresh (second : ℕ → ℕ) (s s' : Sched) (p n : ℕ) : Type 0 where
  fresh : (a : ℕ) → p ≤ a → a < p + n → s'.tcb_pool (second a) ≡ fresh_tcb
  stays : (b : ℕ) → s.tcb_pool b ≡ fresh_tcb → s'.tcb_pool b ≡ fresh_tcb
  unnamed : (b : ℕ) → ((a : ℕ) → p ≤ a → a < p + n → second a ≢ b) → s'.tcb_pool b ≡ s.tcb_pool b
  rest : s' ≡ record s { tcb_pool = s'.tcb_pool }

tcb_init_from-Fresh :
    (second : ℕ → ℕ) (n p : ℕ) (s : Sched)
    → ((a : ℕ) → a < num_ids → second a < num_ids)
    → p + n ≤ num_ids
    → Returns (λ _ s'. ThreadsFresh second s s' p n) (tcb_init_from second n p s)
unfolding tcb_init_from tcb_init_at_id
tcb_init_from-Fresh second zero p s e le = record {
  fresh = λ a l h. absurd (omega (arith, l, h));
  stays = λ b h. h;
  unnamed = λ b h. refl;
  rest = refl;
}
tcb_init_from-Fresh second (suc n) p s e le =
    Returns-step _ (tcb_init_at_id p (second p)) (λ _. tcb_init_from second n (p + 1)) s
      (with_fresh s) tt
      (rw (write_thread, lt→ltb (second p) num_ids (e p (omega (arith, le)))) refl)
      (Returns-mono (λ _ s'. ThreadsFresh second (with_fresh s) s' (p + 1) n)
        (λ _ s'. ThreadsFresh second s s' p (suc n)) _
        (tcb_init_from-Fresh second n (p + 1) (with_fresh s) e (omega (arith, le)))
        λ _ s' f. record {
          fresh = λ a l h. elim (Bool-cases (a == p)) [
            | inl q ↦ f.stays (second a) (rw (==→eq a p q) here)
            | inr q ↦ f.fresh a (omega (arith, ==→ne a p q, l)) (omega (arith, h))
          ];
          stays = λ b h.
              f.stays b (elim (Bool-cases (b == second p)) [ inl q ↦ rw q refl | inr q ↦ rw q h ]);
          unnamed = λ b h.
              f.unnamed b (λ a l u. h a (omega (arith, l)) (omega (arith, u)))
              ∙ rw (ne→== b (second p) (λ q. h p (omega arith) (omega arith) (sym q))) refl;
          rest = f.rest;
        })
  where
    with_fresh : Sched → Sched
    with_fresh s = record s { tcb_pool = update s.tcb_pool (second p) fresh_tcb }

    here : (with_fresh s).tcb_pool (second p) ≡ fresh_tcb
    here = rw (eq→== (second p) (second p) refl) refl

-- Of the processor `cpu`, the queues from `p` to `p + n` are empty.
record QueuesFresh (s s' : Sched) (cpu p n : ℕ) : Type 0 where
  fresh : (c : ℕ) → p ≤ c → c < p + n → s'.tqueue_pool cpu c ≡ empty_queue
  before : (c : ℕ) → c < p → s'.tqueue_pool cpu c ≡ s.tqueue_pool cpu c
  others : (i : ℕ) → i ≢ cpu → s'.tqueue_pool i ≡ s.tqueue_pool i
  rest : s' ≡ record s { tqueue_pool = s'.tqueue_pool }

abbrev with_empty : ℕ → ℕ → Sched → Sched
with_empty cpu p s = record s {
  tqueue_pool = update s.tqueue_pool cpu (update (s.tqueue_pool cpu) p empty_queue);
}

init_queues-Fresh :
    (n cpu p : ℕ) (s : Sched)
    → cpu < num_cpus
    → p + n ≤ num_ids + 1
    → Returns (λ _ s'. QueuesFresh s s' cpu p n) (init_queues n cpu p s)
unfolding init_queues tqueue_init_at_id
init_queues-Fresh zero cpu p s l le = record {
  fresh = λ c a b. absurd (omega (arith, a, b));
  before = λ c a. refl;
  others = λ i ne. refl;
  rest = refl;
}
init_queues-Fresh (suc n) cpu p s l le =
    Returns-step _ (tqueue_init_at_id cpu p) (λ _. init_queues n cpu (p + 1)) s (with_empty cpu p s)
      tt (rw (lt→ltb cpu num_cpus l, in_range) refl)
      (Returns-mono (λ _ s'. QueuesFresh (with_empty cpu p s) s' cpu (p + 1) n)
        (λ _ s'. QueuesFresh s s' cpu p (suc n)) _
        (init_queues-Fresh n cpu (p + 1) (with_empty cpu p s) l (omega (arith, le)))
        λ _ s' f. record {
          fresh = λ c a b. elim (Bool-cases (c == p)) [
            | inl q ↦ f.before c (omega (arith, ==→eq c p q)) ∙ rw (eq→== cpu cpu refl, q) refl
            | inr q ↦ f.fresh c (omega (arith, ==→ne c p q, a)) (omega (arith, b))
          ];
          before = λ c a.
              f.before c (omega (arith, a))
              ∙ rw (eq→== cpu cpu refl, ne→== c p (omega (arith, a))) refl;
          others = λ i ne. f.others i ne ∙ rw (ne→== i cpu ne) refl;
          rest = f.rest;
        })
  where
    in_range : leb p num_ids ≡ true
    in_range = ground (arith, le)

-- All queues of the processors from `p` to `p + n` are empty.
record CpusFresh (s s' : Sched) (p n : ℕ) : Type 0 where
  fresh : (i c : ℕ) → p ≤ i → i < p + n → c ≤ num_ids → s'.tqueue_pool i c ≡ empty_queue
  before : (i : ℕ) → i < p → s'.tqueue_pool i ≡ s.tqueue_pool i
  rest : s' ≡ record s { tqueue_pool = s'.tqueue_pool }

init_cpus-Fresh :
    (n p : ℕ) (s : Sched)
    → p + n ≤ num_cpus
    → Returns (λ _ s'. CpusFresh s s' p n) (init_cpus n p s)
unfolding init_cpus
init_cpus-Fresh zero p s le = record {
  fresh = λ i c a b h. absurd (omega (arith, a, b));
  before = λ i a. refl;
  rest = refl;
}
init_cpus-Fresh (suc n) p s le =
    Returns-bind (λ _ s1. QueuesFresh s s1 p 0 (num_ids + 1)) (λ _ s'. CpusFresh s s' p (suc n))
      (init_queues (num_ids + 1) p 0) (λ _. init_cpus n (p + 1)) s
      (init_queues-Fresh (num_ids + 1) p 0 s (omega (arith, le)) (omega arith))
      λ _ s1 q.
        Returns-mono (λ _ s'. CpusFresh s1 s' (p + 1) n) (λ _ s'. CpusFresh s s' p (suc n)) _
          (init_cpus-Fresh n (p + 1) s1 (omega (arith, le)))
          λ _ s' f. record {
            fresh = λ i c a b h. elim (Bool-cases (i == p)) [
              | inl e ↦
                  ap (λ t. t c) (f.before i (omega (arith, ==→eq i p e)))
                  ∙ subst (λ t. s1.tqueue_pool t c ≡ empty_queue) (sym (==→eq i p e))
                      (q.fresh c (omega arith) (omega (arith, h)))
              | inr e ↦ f.fresh i c (omega (arith, ==→ne i p e, a)) (omega (arith, b)) h
            ];
            before = λ i a. f.before i (omega (arith, a)) ∙ q.others i (omega (arith, a));
            rest = f.rest ∙ ap {A = Sched} (λ t. record t { tqueue_pool = s'.tqueue_pool }) q.rest;
          }

-- The tables before `set_curid` and `tcb_set_state`.
pub record TablesFresh (second : ℕ → ℕ) (s s' : Sched) : Type 0 where
  pub threads : (a : ℕ) → a < num_ids → s'.tcb_pool (second a) ≡ fresh_tcb
  pub unnamed : (b : ℕ) → ((a : ℕ) → a < num_ids → second a ≢ b) → s'.tcb_pool b ≡ s.tcb_pool b
  pub queues : (i c : ℕ) → i < num_cpus → c ≤ num_ids → s'.tqueue_pool i c ≡ empty_queue
  pub ticks : s'.sched_ticks ≡ s.sched_ticks
  pub lock : s'.sched_lk ≡ s.sched_lk
  pub cpu : s'.pcpu_idx ≡ s.pcpu_idx

pub tqueue_init-Fresh :
    (second : ℕ → ℕ) (s : Sched)
    → ((a : ℕ) → a < num_ids → second a < num_ids)
    → Returns (λ _ s'. TablesFresh second s s') (tqueue_init second s)
unfolding tqueue_init tcb_init
tqueue_init-Fresh second s e =
    Returns-bind (λ _ s1. ThreadsFresh second s s1 0 num_ids) (λ _ s'. TablesFresh second s s')
      (tcb_init_from second num_ids 0) (λ _. init_cpus num_cpus 0) s
      (tcb_init_from-Fresh second num_ids 0 s e (omega arith))
      λ _ s1 t.
        Returns-mono (λ _ s'. CpusFresh s1 s' 0 num_cpus) (λ _ s'. TablesFresh second s s') _
          (init_cpus-Fresh num_cpus 0 s1 (omega arith))
          λ _ s' q. record {
            threads = λ a l.
                ap (λ r. r.tcb_pool (second a)) q.rest ∙ t.fresh a (omega arith) (omega (arith, l));
            unnamed = λ b h. ap (λ r. r.tcb_pool b) q.rest ∙ t.unnamed b (λ a _ u. h a u);
            queues = λ i c l h. q.fresh i c (omega arith) (omega (arith, l)) h;
            ticks = ap (λ r. r.sched_ticks) q.rest ∙ ap (λ r. r.sched_ticks) t.rest;
            lock = ap (λ r. r.sched_lk) q.rest ∙ ap (λ r. r.sched_lk) t.rest;
            cpu = ap (λ r. r.pcpu_idx) q.rest ∙ ap (λ r. r.pcpu_idx) t.rest;
          }
