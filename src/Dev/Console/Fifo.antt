-- ===== src/Dev/Console/Fifo.antt =====
-- The ring of the console is a queue of characters.
use mathlib.Core.List.{append-nil, append_assoc}
use advanced_synchronization.Base.{
  ℕ, suc, ◌+◌, ◌%◌, ◌<◌, ◌≡◌, ◌≢◌, inl, inr, refl, sym, ap, ◌∙◌, subst, some, true, false, ◌==◌,
  if◌then◌else◌, List, [], ◌∷◌, ◌++◌, length, length-append, update, arith, Returns, Returns-mono,
  Returns-bind, Bool-cases, ◌>>=◌, ◌>>◌, lt→ltb, ne→==, eq→==, ==→ne,
}
use advanced_synchronization.Dev.Console.{
  console_buffer_size, Console, next_pos, put_char, put_chars, take_char,
}

-- From the position `p` on, the ring holds `xs` up to `q`.
abbrev pub Between : (ℕ → ℕ) → ℕ → ℕ → List ℕ → Type 0
Between buf p q [] = p ≡ q
Between buf p q (x ∷ xs) = (buf p ≡ x) × Between buf (next_pos p) q xs

-- The ring holds `xs`, with at least one place free.
pub record Holds (c : Console) (xs : List ℕ) : Type 0 where
  pub rpos_lt : c.rpos < console_buffer_size
  pub wpos_lt : c.wpos < console_buffer_size
  pub few : length xs < console_buffer_size
  pub between : Between c.buf c.rpos c.wpos xs

-- The characters that are not zero.
abbrev pub nonzero : List ℕ → List ℕ
nonzero [] = []
nonzero (ch ∷ chs) = if ch == 0 then nonzero chs else ch ∷ nonzero chs

-- The position `n` places behind `p`.
abbrev ahead : ℕ → ℕ → ℕ
ahead p n = (p + n) % console_buffer_size

end_position :
    (buf : ℕ → ℕ) (p q : ℕ) (xs : List ℕ)
    → p < console_buffer_size
    → Between buf p q xs
    → q ≡ ahead p (length xs)
end_position buf p q [] l h = omega (arith, h)
end_position buf p q (x ∷ xs) l h = end_position buf (next_pos p) q xs (ground arith) h.1 ∙ wrap
  where
    wrap : ahead (next_pos p) (length xs) ≡ ahead p (suc (length xs))
    wrap = ground arith

-- A character put at the end of the ring.
append_at_end :
    (buf : ℕ → ℕ) (p q a : ℕ) (xs : List ℕ)
    → p < console_buffer_size
    → length xs + 1 < console_buffer_size
    → Between buf p q xs
    → Between (update buf q a) p (next_pos q) (xs ++ a ∷ [])
append_at_end buf p q a [] l f h = (ground (arith, h), ap next_pos h)
append_at_end buf p q a (x ∷ xs) l f h = (
  ground (arith, p≢q) ∙ h.0,
  append_at_end buf (next_pos p) q a xs (ground arith) (omega arith) h.1,
)
  where
    p≢q : p ≢ q
    p≢q e = omega (arith, e, end_position buf p q (x ∷ xs) l h)

-- The rest of the console is as it was.
pub record SameRest (c c' : Console) : Type 0 where
  pub same_lock : c'.cons_lk ≡ c.cons_lk
  pub same_kernel : c'.kernel ≡ c.kernel

put_char-eq :
    (c : Console) (ch : ℕ)
    → ch ≢ 0
    → c.wpos < console_buffer_size
    → put_char ch c ≡ some (tt, record c { buf = update c.buf c.wpos ch; wpos = next_pos c.wpos })
unfolding put_char
put_char-eq c ch ne l = rw (ne→== ch 0 ne, lt→ltb c.wpos console_buffer_size l) refl

put_char-Holds :
    (c : Console) (ch : ℕ) (xs : List ℕ)
    → ch ≢ 0
    → length xs + 1 < console_buffer_size
    → Holds c xs
    → Returns (λ _ c'. Holds c' (xs ++ ch ∷ []) × SameRest c c') (put_char ch c)
put_char-Holds c ch xs ne f h = rw (put_char-eq c ch ne h.wpos_lt) (
  record {
    rpos_lt = h.rpos_lt;
    wpos_lt = ground (arith, h.wpos_lt);
    few = omega (arith, length-append xs (ch ∷ []));
    between = append_at_end c.buf c.rpos c.wpos ch xs h.rpos_lt f h.between;
  },
  record { same_lock = refl; same_kernel = refl },
)

skipped : (ch : ℕ) (chs : List ℕ) → (ch == 0) ≡ true → nonzero (ch ∷ chs) ≡ nonzero chs
skipped ch chs e = rw e refl

kept : (ch : ℕ) (chs : List ℕ) → (ch == 0) ≡ false → nonzero (ch ∷ chs) ≡ ch ∷ nonzero chs
kept ch chs e = rw e refl

pub put_chars-Holds :
    (chs : List ℕ) (c : Console) (xs : List ℕ)
    → length xs + length (nonzero chs) < console_buffer_size
    → Holds c xs
    → Returns (λ _ c'. Holds c' (xs ++ nonzero chs) × SameRest c c') (put_chars chs c)
unfolding put_chars put_char
put_chars-Holds [] c xs f h =
    (subst (Holds c) (sym (append-nil xs)) h, record { same_lock = refl; same_kernel = refl })
put_chars-Holds (ch ∷ chs) c xs f h = elim (Bool-cases (ch == 0)) [
  | inl e ↦
      rw (e, ◌>>◌, ◌>>=◌)
        (put_chars-Holds chs c xs (omega (arith, f, ap length (skipped ch chs e))) h)
  | inr e ↦ rw e (
      Returns-bind (λ _ c1. Holds c1 (xs ++ ch ∷ []) × SameRest c c1)
        (λ _ c'. Holds c' (xs ++ ch ∷ nonzero chs) × SameRest c c') (put_char ch)
        (λ _. put_chars chs) c
        (put_char-Holds c ch xs (==→ne ch 0 e) (omega (arith, f, ap length (kept ch chs e))) h)
        (λ _ c1 q.
          Returns-mono (λ _ c'. Holds c' ((xs ++ ch ∷ []) ++ nonzero chs) × SameRest c1 c')
            (λ _ c'. Holds c' (xs ++ ch ∷ nonzero chs) × SameRest c c') (put_chars chs c1)
            (put_chars-Holds chs c1 (xs ++ ch ∷ [])
              (omega (arith, f, ap length (kept ch chs e), length-append xs (ch ∷ []))) q.0)
            (λ _ c' r. (
              subst (Holds c') (append_assoc xs (ch ∷ []) (nonzero chs)) r.0,
              record {
                same_lock = r.1.same_lock ∙ q.1.same_lock;
                same_kernel = r.1.same_kernel ∙ q.1.same_kernel;
              },
            ))))
]

-- The first character of a list, or the 0 for none, and the rest.
abbrev pub first : List ℕ → ℕ
first [] = 0
first (x ∷ xs) = x

abbrev pub rest : List ℕ → List ℕ
rest [] = []
rest (x ∷ xs) = xs

pub take_char-Holds :
    (c : Console) (xs : List ℕ)
    → Holds c xs
    → Returns (λ r c'. (r ≡ first xs) × Holds c' (rest xs) × SameRest c c') (take_char c)
unfolding take_char
take_char-Holds c [] h =
    rw (eq→== c.rpos c.wpos h.between) (refl, h, record { same_lock = refl; same_kernel = refl })
take_char-Holds c (x ∷ xs) h =
    rw (ne→== c.rpos c.wpos apart, lt→ltb c.rpos console_buffer_size h.rpos_lt)
      (
        h.between.0,
        record {
          rpos_lt = ground (arith, h.rpos_lt);
          wpos_lt = h.wpos_lt;
          few = omega (arith, h.few);
          between = h.between.1;
        },
        record { same_lock = refl; same_kernel = refl },
      )
  where
    apart : c.rpos ≢ c.wpos
    apart e =
        omega (
          arith,
          e,
          h.rpos_lt,
          h.few,
          end_position c.buf c.rpos c.wpos (x ∷ xs) h.rpos_lt h.between,
        )
