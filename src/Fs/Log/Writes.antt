-- ===== src/Fs/Log/Writes.antt =====
-- Which sectors the log writes, and what the disk holds after some of the writes.
use native.Mathlib.Decide.{ℕ_discrete}
use advanced_synchronization.Base.{
  ℕ, zero, suc, ◌+◌, ◌<◌, ◌≤◌, ◌≡◌, ◌≢◌, refl, sym, ap, ◌∙◌, update, arith, List, [], ◌∷◌, ◌++◌,
  subst, Returns, Returns-bind, Returns-mono,
}
use mathlib.Core.List.{append-nil, append_assoc}
use advanced_synchronization.Fs.Disk.{Block, Log, Volume, set32}
use advanced_synchronization.Fs.Log.{fill_head, install_one, install_from, write_head}

-- The disk after the writes.
unfoldable pub apply_writes : (ℕ → Block) → List (ℕ × Block) → ℕ → Block
apply_writes d [] = d
apply_writes d (w ∷ ws) = apply_writes (update d w.0 w.1) ws

unfoldable pub take {ℓ} : {A : Type ℓ} → ℕ → List A → List A
take zero xs = []
take (suc n) [] = []
take (suc n) (x ∷ xs) = x ∷ take n xs

apply_writes-append :
    (d : ℕ → Block) (ws ws' : List (ℕ × Block))
    → apply_writes d (ws ++ ws') ≡ apply_writes (apply_writes d ws) ws'
unfolding apply_writes
apply_writes-append d [] ws' = refl
apply_writes-append d (w ∷ ws) ws' = apply_writes-append (update d w.0 w.1) ws ws'

-- `v'` is `v` after the writes `ws`, with the same log in memory.
pub record Wrote (v v' : Volume) (ws : List (ℕ × Block)) : Type 0 where
  pub writes : v'.writes ≡ v.writes ++ ws
  pub disk : v'.disk ≡ apply_writes v.disk ws
  pub view : v'.view ≡ apply_writes v.view ws
  pub same_log : v'.log ≡ v.log
  pub same_sched : v'.sched ≡ v.sched
  pub same_addr : v'.log_addr ≡ v.log_addr

pub Wrote-append :
    (v v1 v2 : Volume) (ws ws' : List (ℕ × Block))
    → Wrote v v1 ws
    → Wrote v1 v2 ws'
    → Wrote v v2 (ws ++ ws')
Wrote-append v v1 v2 ws ws' a b = record {
  writes = b.writes ∙ ap (λ l. l ++ ws') a.writes ∙ append_assoc v.writes ws ws';
  disk = b.disk ∙ ap (λ d. apply_writes d ws') a.disk ∙ sym (apply_writes-append v.disk ws ws');
  view = b.view ∙ ap (λ d. apply_writes d ws') a.view ∙ sym (apply_writes-append v.view ws ws');
  same_log = b.same_log ∙ a.same_log;
  same_sched = b.same_sched ∙ a.same_sched;
  same_addr = b.same_addr ∙ a.same_addr;
}

-- The writes of the loop of `install_trans`.
unfoldable pub install_writes : Log → (ℕ → Block) → ℕ → ℕ → List (ℕ × Block)
install_writes log view zero tail = []
install_writes log view (suc n) tail =
    (log.lh.sector tail, view (log.start + tail + 1))
    ∷ install_writes log (update view (log.lh.sector tail) (view (log.start + tail + 1))) n
        (tail + 1)

install_one-Wrote :
    (tail : ℕ) (v : Volume)
    → Returns
        (λ _ v'. Wrote v v' ((v.log.lh.sector tail, v.view (v.log.start + tail + 1)) ∷ []))
        (install_one tail v)
unfolding install_one apply_writes
install_one-Wrote tail v = record {
  writes = refl;
  disk = refl;
  view = refl;
  same_log = refl;
  same_sched = refl;
  same_addr = refl;
}

pub install_from-Wrote :
    (n tail : ℕ) (v : Volume)
    → Returns (λ _ v'. Wrote v v' (install_writes v.log v.view n tail)) (install_from n tail v)
unfolding install_from install_writes apply_writes
install_from-Wrote zero tail v = record {
  writes = sym (append-nil v.writes);
  disk = refl;
  view = refl;
  same_log = refl;
  same_sched = refl;
  same_addr = refl;
}
install_from-Wrote (suc n) tail v =
    Returns-bind (λ _ v1. Wrote v v1 ((v.log.lh.sector tail, v.view (v.log.start + tail + 1)) ∷ []))
      _ (install_one tail) (λ _. install_from n (tail + 1)) v (install_one-Wrote tail v)
      (λ _ v1 a.
        Returns-mono (λ _ v2. Wrote v1 v2 (install_writes v1.log v1.view n (tail + 1))) _
          (install_from n (tail + 1) v1) (install_from-Wrote n (tail + 1) v1)
          (λ _ v2 b. Wrote-append v v1 v2 _ _ a (
            subst (λ w. Wrote v1 v2 (install_writes v.log w n (tail + 1))) a.view
              (subst (λ l. Wrote v1 v2 (install_writes l v1.view n (tail + 1))) a.same_log b))))

-- The block that `write_head` writes.
abbrev pub head_block : Volume → Block
head_block v = fill_head v.log.lh.n 0 v.log.lh.sector (set32 (v.view v.log.start) 0 v.log.lh.n)

pub write_head-Wrote :
    (v : Volume) → Returns (λ _ v'. Wrote v v' ((v.log.start, head_block v) ∷ [])) (write_head v)
unfolding write_head apply_writes
write_head-Wrote v = record {
  writes = refl;
  disk = refl;
  view = refl;
  same_log = refl;
  same_sched = refl;
  same_addr = refl;
}

-- The `n` sectors of the header lie before the log and are different.
pub record AreHome (start n : ℕ) (sector : ℕ → ℕ) : Type 0 where
  pub home : (t : ℕ) → t < n → sector t < start
  pub distinct : (s t : ℕ) → s < n → t < n → sector s ≡ sector t → s ≡ t

update_ne : (d : ℕ → Block) (s x : ℕ) (b : Block) → x ≢ s → update d s b x ≡ d x
update_ne d s x b h = ground arith

update_eq : (d : ℕ → Block) (s x : ℕ) (b : Block) → x ≡ s → update d s b x ≡ b
update_eq d s x b h = ground arith

-- Some of the installs leave the sectors alone that are not among theirs.
pub installs_outside :
    (k n tail x : ℕ) (log : Log) (view d : ℕ → Block)
    → ((t : ℕ) → tail ≤ t → t < tail + n → x ≢ log.lh.sector t)
    → apply_writes d (take k (install_writes log view n tail)) x ≡ d x
unfolding apply_writes take install_writes
installs_outside zero n tail x log view d h = refl
installs_outside (suc k) zero tail x log view d h = refl
installs_outside (suc k) (suc n) tail x log view d h =
    installs_outside k n (tail + 1) x log
      (update view (log.lh.sector tail) (view (log.start + tail + 1)))
      (update d (log.lh.sector tail) (view (log.start + tail + 1)))
      (λ t l u. h t (omega arith) (omega arith))
    ∙ update_ne d (log.lh.sector tail) x (view (log.start + tail + 1))
        (h tail (omega arith) (omega arith))

pub take-installs :
    (n tail k : ℕ) (log : Log) (view : ℕ → Block)
    → n ≤ k
    → take k (install_writes log view n tail) ≡ install_writes log view n tail
unfolding take install_writes
take-installs zero tail zero log view h = refl
take-installs zero tail (suc k) log view h = refl
take-installs (suc n) tail zero log view h = absurd (omega arith)
take-installs (suc n) tail (suc k) log view h =
    ap (λ ws. (log.lh.sector tail, view (log.start + tail + 1)) ∷ ws)
      (take-installs n (tail + 1) k log
        (update view (log.lh.sector tail) (view (log.start + tail + 1))) (omega arith))

-- All installs together put the block `t` of the log at the sector `t`.
pub installs_inside :
    (n tail t m : ℕ) (log : Log) (view d : ℕ → Block)
    → AreHome log.start m log.lh.sector
    → tail + n ≤ m
    → tail ≤ t
    → t < tail + n
    → apply_writes d (install_writes log view n tail) (log.lh.sector t) ≡ view (log.start + t + 1)
unfolding apply_writes install_writes
installs_inside zero tail t m log view d a h l u = absurd (omega arith)
installs_inside (suc n) tail t m log view d a h l u = elim (ℕ_discrete t tail) [
  | yes e ↦
      ap
        (λ ws.
          apply_writes (update d (log.lh.sector tail) (view (log.start + tail + 1))) ws
            (log.lh.sector t))
        (sym (take-installs n (tail + 1) n log _ (omega arith)))
      ∙ installs_outside n n (tail + 1) (log.lh.sector t) log _
          (update d (log.lh.sector tail) (view (log.start + tail + 1)))
          (λ s x y f. absurd (omega (arith, a.distinct t s (omega arith) (omega arith) f)))
      ∙ update_eq d (log.lh.sector tail) (log.lh.sector t) (view (log.start + tail + 1))
          (ap log.lh.sector e)
      ∙ ap (λ i. view (log.start + i + 1)) (sym e)
  | no e ↦
      installs_inside n (tail + 1) t m log
        (update view (log.lh.sector tail) (view (log.start + tail + 1)))
        (update d (log.lh.sector tail) (view (log.start + tail + 1))) a (omega arith) (omega arith)
        (omega arith)
      ∙ update_ne view (log.lh.sector tail) (log.start + t + 1) (view (log.start + tail + 1))
          (λ f. omega (arith, a.home tail (omega arith)))
]
