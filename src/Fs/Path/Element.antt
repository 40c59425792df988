-- ===== src/Fs/Path/Element.antt =====
-- What `skipelem` takes from a path.
use native.Mathlib.Decide.{dec_le}
use advanced_synchronization.Base.{
  ℕ, zero, suc, ◌+◌, ◌-◌, ◌<◌, ◌≤◌, ◌≡◌, ◌≢◌, ◌⊎◌, inl, inr, refl, sym, subst, ap, ◌∙◌, true, false,
  ◌==◌, ◌||◌, some, update, arith, Returns, Bool-cases, ◌>>=◌, ◌>>◌, ne→==, eq→==, ==→eq,
}
use advanced_synchronization.Strings.{Bytes, strncpy}
use advanced_synchronization.Fs.Inode.{Files}
use advanced_synchronization.Fs.Dir.{dirsiz}
use advanced_synchronization.Fs.Path.{slash, skip_slashes, skip_name, name_len, copy_elem, skipelem}

-- The bytes from `p` up to `q` are slashes.
abbrev pub Slashes : Bytes → ℕ → ℕ → Type 0
Slashes m p q = (p ≤ q) × ((a : ℕ) → p ≤ a → a < q → m a ≡ slash)

-- The bytes from `p` up to `q` are of one name.
abbrev pub Name : Bytes → ℕ → ℕ → Type 0
Name m p q = (p ≤ q) × ((a : ℕ) → p ≤ a → a < q → (m a ≢ slash) × (m a ≢ 0))

skip_slashes_lem :
    (n : ℕ) (m : Bytes) (p q : ℕ)
    → Slashes m p q
    → m q ≢ slash
    → q < p + n
    → skip_slashes n m p ≡ some q
unfolding skip_slashes
skip_slashes_lem zero m p q s e l = absurd (omega (arith, s.0))
skip_slashes_lem (suc n) m p q s e l = elim (Bool-cases (p == q)) [
  | inl f ↦ rw (ne→== (m p) slash (λ g. e (ap m (sym (==→eq p q f)) ∙ g))) (ap some (==→eq p q f))
  | inr f ↦
      rw (eq→== (m p) slash (s.1 p (omega arith) (omega (arith, before f))))
        (skip_slashes_lem n m (p + 1) q (before f, λ a g h. s.1 a (omega arith) h) e (omega arith))
]
  where
    before : (p == q) ≡ false → p + 1 ≤ q
    before f = ground (arith, f, s.0)

skip_name_lem :
    (n : ℕ) (m : Bytes) (p q : ℕ)
    → Name m p q
    → (m q ≡ slash) ⊎ (m q ≡ 0)
    → q < p + n
    → skip_name n m p ≡ some q
unfolding skip_name
skip_name_lem zero m p q s e l = absurd (omega (arith, s.0))
skip_name_lem (suc n) m p q s e l = elim (Bool-cases (p == q)) [
  | inl f ↦ rw (ap m (==→eq p q f), stops) (ap some (==→eq p q f))
  | inr f ↦
      rw
        (
          ne→== (m p) slash (s.1 p (omega arith) (omega (arith, before f))).0,
          ne→== (m p) 0 (s.1 p (omega arith) (omega (arith, before f))).1,
        )
        (skip_name_lem n m (p + 1) q (before f, λ a g h. s.1 a (omega arith) h) e (omega arith))
]
  where
    before : (p == q) ≡ false → p + 1 ≤ q
    before f = ground (arith, f, s.0)

    stops : (m q == slash || m q == 0) ≡ true
    stops = elim e [ inl g ↦ ground (arith, g) | inr g ↦ ground (arith, g) ]

-- The `n` bytes from `t` on are copied to `s`, and the rest is as before.
pub record Copied (m m' : Bytes) (s t n : ℕ) : Type 0 where
  pub copied : (a : ℕ) → a < n → m' (s + a) ≡ m (t + a)
  pub kept : (a : ℕ) → (a < s) ⊎ (s + n ≤ a) → m' a ≡ m a

-- `strncpy` of bytes none of which is 0, to a place that does not overlap them.
strncpy-Copied :
    (n s t : ℕ) (m : Bytes)
    → ((a : ℕ) → a < n → m (t + a) ≢ 0)
    → (s + n ≤ t) ⊎ (t + n ≤ s)
    → Copied m (strncpy n s t m) s t n
unfolding strncpy
strncpy-Copied zero s t m h d = record { copied = λ a l. absurd (omega arith); kept = λ a l. refl }
strncpy-Copied (suc n) s t m h d =
    rw (ne→== (m t) 0 first) (step (strncpy-Copied n (s + 1) (t + 1) m1 still apart))
  where
    m1 : Bytes
    m1 = update m s (m t)

    first : m t ≢ 0
    first e = h 0 (omega arith) (ap m (omega arith) ∙ e)

    source : (a : ℕ) → a < n → m1 (t + 1 + a) ≡ m (t + suc a)
    source a l = elim d [
      | inl e ↦ off (t + 1 + a) (omega (arith, e)) ∙ ap m (omega arith)
      | inr e ↦ off (t + 1 + a) (omega (arith, e)) ∙ ap m (omega arith)
    ]
      where
        off : (b : ℕ) → b ≢ s → m1 b ≡ m b
        off b ne = ground (arith, ne)

    still : (a : ℕ) → a < n → m1 (t + 1 + a) ≢ 0
    still a l e = h (suc a) (omega arith) (sym (source a l) ∙ e)

    apart : (s + 1 + n ≤ t + 1) ⊎ (t + 1 + n ≤ s + 1)
    apart = elim d [ inl e ↦ inl (omega (arith, e)) | inr e ↦ inr (omega (arith, e)) ]

    here : (a : ℕ) → a ≡ 0 → m1 (s + a) ≡ m (t + a)
    here a e = rw e (ground arith)

    shift : (b a : ℕ) → (a == 0) ≡ false → b + a ≡ b + 1 + (a - 1)
    shift b a e = ground (arith, e)

    back : (a : ℕ) → (a == 0) ≡ false → t + suc (a - 1) ≡ t + a
    back a e = ground (arith, e)

    step :
        Copied m1 (strncpy n (s + 1) (t + 1) m1) (s + 1) (t + 1) n
        → Copied m (strncpy n (s + 1) (t + 1) m1) s t (suc n)
    step r = record {
      copied = λ a l. elim (Bool-cases (a == 0)) [
        | inl e ↦ r.kept (s + a) (inl (ground (arith, e))) ∙ here a (==→eq a 0 e)
        | inr e ↦
            ap (strncpy n (s + 1) (t + 1) m1) (shift s a e)
            ∙ r.copied (a - 1) (ground (arith, e, l))
            ∙ source (a - 1) (ground (arith, e, l))
            ∙ ap m (back a e)
      ];
      kept = λ a l. elim l [
        | inl e ↦ r.kept a (inl (omega (arith, e))) ∙ ground (arith, e)
        | inr e ↦ r.kept a (inr (omega (arith, e))) ∙ ground (arith, e)
      ];
    }

-- A path at `p`: slashes up to `s`, a name up to `e`, and slashes up to `r`.
pub record IsElement (m : Bytes) (p s e r : ℕ) : Type 0 where
  pub leading : Slashes m p s
  pub named : Name m s e
  pub not_empty : s < e
  pub name_end : (m e ≡ slash) ⊎ (m e ≡ 0)
  pub trailing : Slashes m e r
  pub rest_start : m r ≢ slash

-- The `n` bytes from `s` on, ended by a 0, stand at `name`; all other bytes are as before.
pub record Element (m m' : Bytes) (s n name : ℕ) : Type 0 where
  pub copied : (a : ℕ) → a < n → m' (name + a) ≡ m (s + a)
  pub ended : m' (name + n) ≡ 0
  pub kept : (a : ℕ) → (a < name) ⊎ (name + n < a) → m' a ≡ m a

-- The same of a name of `len` bytes, of which 13 are kept at most.
pub data ElementCut (m m' : Bytes) (s len name : ℕ) : Type 0 where
  whole : len ≤ 13 → Element m m' s len name → ElementCut m m' s len name
  cut_off : 13 < len → Element m m' s 13 name → ElementCut m m' s len name

module _ (m : Bytes) (p s e r name : ℕ) (el : IsElement m p s e r)
    (apart : (name + dirsiz ≤ p) ⊎ (r < name)) where
  abbrev n : ℕ
  n = name_len (e - s)

  abbrev copy : Bytes
  copy = update (strncpy n name s m) (name + n) 0

  n_le : n ≤ e - s
  n_le = ground arith

  n_lt : n < dirsiz
  n_lt = ground arith

  copy-Element : Element m copy s n name
  copy-Element = record {
    copied = λ a l. off (name + a) (omega (arith, l)) ∙ c.copied a l;
    ended = ground arith;
    kept = λ a l. elim l [
      | inl h ↦ off a (omega (arith, h)) ∙ c.kept a (inl h)
      | inr h ↦ off a (omega (arith, h)) ∙ c.kept a (inr (omega (arith, h)))
    ];
  }
    where
      off : (a : ℕ) → a ≢ name + n → copy a ≡ strncpy n name s m a
      off a ne = ground (arith, ne)

      c : Copied m (strncpy n name s m) name s n
      c =
          strncpy-Copied n name s m
            (λ a l. (el.named.1 (s + a) (omega arith) (omega (arith, l, n_le, el.not_empty))).1)
            (elim apart [
              | inl h ↦ inl (omega (arith, h, n_lt, el.leading.0))
              | inr h ↦ inr (omega (arith, h, n_le, el.not_empty, el.trailing.0))
            ])

  copy_path : (a : ℕ) → p ≤ a → a ≤ r → copy a ≡ m a
  copy_path a l u = elim apart [
    | inl h ↦ copy-Element.kept a (inr (omega (arith, h, l, n_lt)))
    | inr h ↦ copy-Element.kept a (inl (omega (arith, h, u)))
  ]

  copy_trailing : Slashes copy e r
  copy_trailing = (
    el.trailing.0,
    λ a l u.
        copy_path a (omega (arith, el.leading.0, el.not_empty)) (omega arith) ∙ el.trailing.1 a l u,
  )

  copy_rest : copy r ≢ slash
  copy_rest h = el.rest_start (
      sym (copy_path r (omega (arith, el.leading.0, el.not_empty, el.trailing.0)) (omega arith))
      ∙ h)

  start_not_end : m s ≢ 0
  start_not_end = (el.named.1 s (omega arith) el.not_empty).1

  path_not_end : m p ≢ 0
  path_not_end h = elim (Bool-cases (p == s)) [
    | inl f ↦ start_not_end (ap m (sym (==→eq p s f)) ∙ h)
    | inr f ↦ omega (arith, h, el.leading.1 p (omega arith) (ground (arith, f, el.leading.0)))
  ]

-- On a path that starts with slashes, a name that is not empty and further slashes, with fuel for these
-- bytes and a buffer of DIRSIZ bytes that does not overlap them, `skipelem` returns the address behind
-- the slashes: the first 13 bytes of the name, or all if there are fewer, stand in the buffer with a 0
-- behind them, and nothing else changed.
pub skipelem-Element :
    (k : Files) (fuel p s e r name : ℕ)
    → IsElement k.mem p s e r
    → r < p + fuel
    → (name + dirsiz ≤ p) ⊎ (r < name)
    → Returns
        (λ q k'.
          (q ≡ some r) × ElementCut k.mem k'.mem s (e - s) name × (k' ≡ record k { mem = k'.mem }))
        (skipelem fuel p name k)
unfolding skipelem copy_elem
skipelem-Element k fuel p s e r name el f apart =
    rw
      (
        ◌>>=◌,
        ◌>>◌,
        ne→== (k.mem p) 0 (path_not_end k.mem p s e r name el apart),
        skip_slashes_lem fuel k.mem p s el.leading name_start s_lt,
        ne→== (k.mem s) 0 (start_not_end k.mem p s e r name el apart),
        skip_name_lem fuel k.mem s e el.named el.name_end e_lt,
        skip_slashes_lem fuel (copy k.mem p s e r name el apart) e r
            (copy_trailing k.mem p s e r name el apart) (copy_rest k.mem p s e r name el apart)
            r_lt,
      )
      (refl, kept_part, refl)
  where
    name_start : k.mem s ≢ slash
    name_start = (el.named.1 s (omega arith) el.not_empty).0

    s_lt : s < p + fuel
    s_lt = omega (arith, f, el.not_empty, el.trailing.0)

    e_lt : e < s + fuel
    e_lt = omega (arith, f, el.leading.0, el.trailing.0)

    r_lt : r < e + fuel
    r_lt = omega (arith, f, el.leading.0, el.not_empty)

    of_length :
        (n : ℕ) → name_len (e - s) ≡ n → Element k.mem (copy k.mem p s e r name el apart) s n name
    of_length n h =
        subst (λ x. Element k.mem (copy k.mem p s e r name el apart) s x name) h
          (copy-Element k.mem p s e r name el apart)

    kept_part : ElementCut k.mem (copy k.mem p s e r name el apart) s (e - s) name
    kept_part = elim (dec_le (e - s) 13) [
      | yes l ↦ whole l (of_length (e - s) (ground (arith, l)))
      | no h ↦ cut_off (omega (arith, h)) (of_length 13 (ground (arith, h)))
    ]
