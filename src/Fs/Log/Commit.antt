-- ===== src/Fs/Log/Commit.antt =====
-- `commit_trans`: the writes it makes, and the disk after any number of them.
use native.Mathlib.Decide.{dec_le}
use advanced_synchronization.Base.{
  ℕ, zero, suc, ◌+◌, ◌<◌, ◌≤◌, ◌≡◌, ◌≢◌, inl, inr, refl, sym, ap, ◌∙◌, update, arith, List, [], ◌∷◌,
  ◌++◌, Returns, Returns-mono, subst,
}
use advanced_synchronization.Fs.Disk.{Block, Log, Volume, get32}
use advanced_synchronization.Fs.Log.{recover_from_log}
use advanced_synchronization.Fs.Log.Header.{IsHeader, fill_head-IsHeader}
use advanced_synchronization.Fs.Log.Writes.{
  apply_writes, take, install_writes, head_block, installs_outside, take-installs, installs_inside,
}
use advanced_synchronization.Fs.Log.Crash.{
  InTransaction, rebooted, AllOrNothing, nothing, all, is_logged, recover_empty, recover_full,
}

-- The write behind the installs comes last.
take-before :
    (n tail k : ℕ) (log : Log) (view : ℕ → Block) (w : ℕ × Block)
    → k ≤ n
    → take k (install_writes log view n tail ++ w ∷ []) ≡ take k (install_writes log view n tail)
unfolding take install_writes
take-before n tail zero log view w h = refl
take-before zero tail (suc k) log view w h = absurd (omega arith)
take-before (suc n) tail (suc k) log view w h =
    ap (λ ws. (log.lh.sector tail, view (log.start + tail + 1)) ∷ ws)
      (take-before n (tail + 1) k log
        (update view (log.lh.sector tail) (view (log.start + tail + 1))) w (omega arith))

take-behind :
    (n tail k : ℕ) (log : Log) (view : ℕ → Block) (w : ℕ × Block)
    → n < k
    → take k (install_writes log view n tail ++ w ∷ []) ≡ install_writes log view n tail ++ w ∷ []
unfolding take install_writes
take-behind n tail zero log view w h = absurd (omega arith)
take-behind zero tail (suc zero) log view w h = refl
take-behind zero tail (suc (suc k)) log view w h = refl
take-behind (suc n) tail (suc k) log view w h =
    ap (λ ws. (log.lh.sector tail, view (log.start + tail + 1)) ∷ ws)
      (take-behind n (tail + 1) k log
        (update view (log.lh.sector tail) (view (log.start + tail + 1))) w (omega arith))

apply_last :
    (d : ℕ → Block) (ws : List (ℕ × Block)) (s : ℕ) (b : Block)
    → apply_writes d (ws ++ (s, b) ∷ []) ≡ update (apply_writes d ws) s b
unfolding apply_writes
apply_last d [] s b = refl
apply_last d (w ∷ ws) s b = apply_last (update d w.0 w.1) ws s b

pub update_here : (d : ℕ → Block) (s : ℕ) (b : Block) → update d s b s ≡ b
update_here d s b = ground arith

pub update_there : (d : ℕ → Block) (s x : ℕ) (b : Block) → x ≢ s → update d s b x ≡ d x
update_there d s x b h = ground arith

module _ (v : Volume) (i : InTransaction v) where
  abbrev pub n : ℕ
  n = v.log.lh.n

  abbrev pub start : ℕ
  start = v.log.start

  -- With the header written.
  abbrev pub view1 : ℕ → Block
  view1 = update v.view start (head_block v)

  abbrev pub disk1 : ℕ → Block
  disk1 = update v.disk start (head_block v)

  abbrev pub installs : List (ℕ × Block)
  installs = install_writes v.log view1 n 0

  header : IsHeader (head_block v) n v.log.lh.sector
  header =
      fill_head-IsHeader n v.log.lh.sector (v.view start) (omega (arith, i.count_le))
        (λ t l. omega (arith, i.are_home.home t l, i.start_lt))

  not_home : (x : ℕ) → start ≤ x → (t : ℕ) → t < n → x ≢ v.log.lh.sector t
  not_home x l t u e = omega (arith, i.are_home.home t u)

  -- The disk after the header and `k` of the installs.
  abbrev pub partial : ℕ → ℕ → Block
  partial k = apply_writes disk1 (take k installs)

  partial_outside : (k x : ℕ) → ((t : ℕ) → t < n → x ≢ v.log.lh.sector t) → partial k x ≡ disk1 x
  partial_outside k x h = installs_outside k n 0 x v.log view1 disk1 (λ t l u. h t (omega arith))

  partial_survives :
      (k : ℕ) → Returns (λ _ r. AllOrNothing v r.disk) (recover_from_log (rebooted v (partial k)))
  partial_survives k =
      Returns-mono (λ _ r. (x : ℕ) → x < start → r.disk x ≡ v.view x) _
        (recover_from_log (rebooted v (partial k)))
        (recover_full v (partial k) i
          (subst (λ b. IsHeader b n v.log.lh.sector)
            (sym (
              partial_outside k start (not_home start (omega arith))
              ∙ update_here v.disk start (head_block v)))
            header)
          (λ x l h.
            partial_outside k x h ∙ update_there v.disk start x (head_block v) (λ e. omega arith))
          (λ t l.
            partial_outside k (start + t + 1) (not_home (start + t + 1) (omega arith))
            ∙ update_there v.disk start (start + t + 1) (head_block v) (λ e. omega arith)))
        (λ _ r q. all q)

  -- All installed.
  pub installed : (x : ℕ) → x < start → apply_writes disk1 installs x ≡ v.view x
  installed x l = elim (is_logged n v.log.lh.sector x) [
    | inl (t, u, e) ↦
        ap (apply_writes disk1 installs) e
        ∙ installs_inside n 0 t n v.log view1 disk1 i.are_home (omega arith) (omega arith)
            (omega arith)
        ∙ update_there v.view start (start + t + 1) (head_block v) (λ f. omega arith)
        ∙ i.log_clean (start + t + 1) (omega arith)
        ∙ i.logged t u
        ∙ ap v.view (sym e)
    | inr h ↦
        ap (λ ws. apply_writes disk1 ws x) (sym (take-installs n 0 n v.log view1 (omega arith)))
        ∙ partial_outside n x h
        ∙ update_there v.disk start x (head_block v) (λ e. omega arith)
        ∙ sym (i.unmodified x l h)
  ]

  module _ (hb : Block) (e : get32 hb 0 ≡ 0) where
    abbrev pub ws : List (ℕ × Block)
    ws = (start, head_block v) ∷ (installs ++ (start, hb) ∷ [])

    done : ℕ → Block
    done = apply_writes v.disk ws

    done-eq : done ≡ update (apply_writes disk1 installs) start hb
    unfolding done apply_writes
    done-eq = apply_last disk1 installs start hb

    done_home : (x : ℕ) → x < start → done x ≡ v.view x
    done_home x l =
        ap (λ d. d x) done-eq
        ∙ update_there (apply_writes disk1 installs) start x hb (λ f. omega arith)
        ∙ installed x l

    done_survives : Returns (λ _ r. AllOrNothing v r.disk) (recover_from_log (rebooted v done))
    done_survives =
        Returns-mono (λ _ r. (x : ℕ) → x < start → r.disk x ≡ done x) _
          (recover_from_log (rebooted v done))
          (recover_empty v done (
            ap (λ d. get32 (d start) 0) done-eq
            ∙ ap (λ b. get32 b 0) (update_here (apply_writes disk1 installs) start hb)
            ∙ e))
          (λ _ r q. all (λ x l. q x l ∙ done_home x l))

    pub survives :
        (k : ℕ)
        → Returns
            (λ _ r. AllOrNothing v r.disk)
            (recover_from_log (rebooted v (apply_writes v.disk (take k ws))))
    unfolding take apply_writes
    survives zero =
        Returns-mono (λ _ r. (x : ℕ) → x < start → r.disk x ≡ v.disk x) _
          (recover_from_log (rebooted v v.disk)) (recover_empty v v.disk i.uncommitted)
          (λ _ r q. nothing q)
    survives (suc k) = elim (dec_le k n) [
      | yes l ↦
          subst
            (λ us.
              Returns (λ _ r. AllOrNothing v r.disk)
                (recover_from_log (rebooted v (apply_writes disk1 us))))
            (sym (take-before n 0 k v.log view1 (start, hb) l)) (partial_survives k)
      | no f ↦
          subst
            (λ us.
              Returns (λ _ r. AllOrNothing v r.disk)
                (recover_from_log (rebooted v (apply_writes disk1 us))))
            (sym (take-behind n 0 k v.log view1 (start, hb) (omega arith)))
            (unfold done in done_survives)
    ]
