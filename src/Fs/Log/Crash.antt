-- ===== src/Fs/Log/Crash.antt =====
-- A crash while a transaction commits: recovery gives all of its writes or none.
use native.Mathlib.Decide.{ℕ_discrete}
use advanced_synchronization.Base.{
  ℕ, zero, suc, ◌+◌, ◌<◌, ◌≤◌, ◌≡◌, ◌≢◌, ◌⊎◌, ◌^◌, inl, inr, sym, ap, ◌∙◌, arith, [], Returns,
  Returns-mono,
}
use advanced_synchronization.Fs.Disk.{Block, Volume, get32}
use advanced_synchronization.Fs.Log.{header_count, recover_from_log, logsize}
use advanced_synchronization.Fs.Log.Header.{IsHeader}
use advanced_synchronization.Fs.Log.Writes.{AreHome}
use advanced_synchronization.Fs.Log.Recovery.{
  count_of, sector_of, Recovered, recover_from_log-Recovered,
}

-- In a transaction: the header on the disk is empty; the header in memory has the sectors before the
-- log that are modified, each with its block in the log.
pub record InTransaction (v : Volume) : Type 0 where
  pub count_le : v.log.lh.n ≤ logsize
  pub start_lt : v.log.start < 2 ^ 31
  pub are_home : AreHome v.log.start v.log.lh.n v.log.lh.sector
  pub logged : (t : ℕ) → t < v.log.lh.n → v.disk (v.log.start + t + 1) ≡ v.view (v.log.lh.sector t)
  pub unmodified :
      (x : ℕ)
      → x < v.log.start
      → ((t : ℕ) → t < v.log.lh.n → x ≢ v.log.lh.sector t)
      → v.view x ≡ v.disk x
  pub log_clean : (x : ℕ) → v.log.start ≤ x → v.view x ≡ v.disk x
  pub uncommitted : get32 (v.disk v.log.start) 0 ≡ 0

-- The machine starts again with the disk `d`: nothing is cached, and the log in memory has its place
-- only. The fields that recovery does not read are those of `v`.
abbrev pub rebooted : Volume → (ℕ → Block) → Volume
rebooted v d = record (record v { disk = d; view = d; writes = [] }) {
  log = record v.log { busy = 0; lh = record { n = 0; sector = λ _. 0 } };
}

-- Before the log, the disk `d` is the disk of `v` from before the transaction, or all that `v` reads.
pub data AllOrNothing (v : Volume) (d : ℕ → Block) : Type 0 where
  nothing : ((x : ℕ) → x < v.log.start → d x ≡ v.disk x) → AllOrNothing v d
  all : ((x : ℕ) → x < v.log.start → d x ≡ v.view x) → AllOrNothing v d

-- A sector is one of the first `n`, or none.
pub is_logged :
    (n : ℕ) (sector : ℕ → ℕ) (x : ℕ)
    → ((t : ℕ) × (t < n) × (x ≡ sector t)) ⊎ ((t : ℕ) → t < n → x ≢ sector t)
is_logged zero sector x = inr (λ t l. absurd (omega arith))
is_logged (suc n) sector x = elim (ℕ_discrete x (sector n)) [
  | yes e ↦ inl (n, omega arith, e)
  | no f ↦ elim (is_logged n sector x) [
    | inl (t, l, e) ↦ inl (t, omega arith, e)
    | inr g ↦ inr (λ t l. elim (ℕ_discrete t n) [ yes z ↦ rw z f | no z ↦ g t (omega arith) ])
  ]
]

header_count-eq : (b : Block) (n : ℕ) → get32 b 0 ≡ n → n < 2 ^ 31 → header_count b ≡ n
header_count-eq b n e h = ground (arith, e, h)

-- With an empty header, recovery changes nothing before the log.
pub recover_empty :
    (v : Volume) (d : ℕ → Block)
    → get32 (d v.log.start) 0 ≡ 0
    → Returns (λ _ r. (x : ℕ) → x < v.log.start → r.disk x ≡ d x) (recover_from_log (rebooted v d))
recover_empty v d e =
    let c : count_of (rebooted v d) ≡ 0 = header_count-eq (d v.log.start) 0 e (omega arith) in
    Returns-mono (λ _ r. Recovered (rebooted v d) r) _ (recover_from_log (rebooted v d))
      (recover_from_log-Recovered (rebooted v d) (omega (arith, c)) (record {
        home = λ t l. absurd (omega (arith, c));
        distinct = λ s t l u f. absurd (omega (arith, c));
      }))
      (λ _ r q x l. q.outside x l (λ t u. absurd (omega (arith, c))))

-- With the header of the transaction on the disk and its blocks in the log, recovery gives what `v`
-- reads, whichever of the sectors were written before.
pub recover_full :
    (v : Volume) (d : ℕ → Block)
    → InTransaction v
    → IsHeader (d v.log.start) v.log.lh.n v.log.lh.sector
    → ((x : ℕ)
        → x < v.log.start
        → ((t : ℕ) → t < v.log.lh.n → x ≢ v.log.lh.sector t)
        → d x ≡ v.disk x)
    → ((t : ℕ) → t < v.log.lh.n → d (v.log.start + t + 1) ≡ v.disk (v.log.start + t + 1))
    → Returns
        (λ _ r. (x : ℕ) → x < v.log.start → r.disk x ≡ v.view x)
        (recover_from_log (rebooted v d))
recover_full v d i hd out ins =
    Returns-mono (λ _ r. Recovered (rebooted v d) r) _ (recover_from_log (rebooted v d))
      (recover_from_log-Recovered (rebooted v d) (omega (arith, c, i.count_le)) (record {
        home = λ t l. omega (arith, sec t l, i.are_home.home t (omega (arith, c)));
        distinct = λ s t l u f.
            i.are_home.distinct s t (omega (arith, c)) (omega (arith, c))
              (sym (sec s l) ∙ f ∙ sec t u);
      }))
      (λ _ r q x l. final r q x l)
  where
    c : count_of (rebooted v d) ≡ v.log.lh.n
    c = header_count-eq (d v.log.start) v.log.lh.n hd.count (omega (arith, i.count_le))

    sec : (t : ℕ) → t < count_of (rebooted v d) → sector_of (rebooted v d) t ≡ v.log.lh.sector t
    sec t l = hd.sectors t (omega (arith, c))

    final :
        (r : Volume) → Recovered (rebooted v d) r → (x : ℕ) → x < v.log.start → r.disk x ≡ v.view x
    final r q x l = elim (is_logged v.log.lh.n v.log.lh.sector x) [
      | inl (t, u, e) ↦
          ap r.disk (e ∙ sym (sec t (omega (arith, c))))
          ∙ q.inside t (omega (arith, c))
          ∙ ins t u
          ∙ i.logged t u
          ∙ ap v.view (sym e)
      | inr n ↦
          q.outside x l (λ t u f. n t (omega (arith, c)) (f ∙ sec t u))
          ∙ out x l n
          ∙ sym (i.unmodified x l n)
    ]
