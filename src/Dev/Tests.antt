-- ===== src/Dev/Tests.antt =====
-- The console's theorem on a ring that holds one character, at its last place.
use advanced_synchronization.Base.{refl, true, ◌==◌, if◌then◌else◌, arith, [], ◌∷◌, Returns}
use advanced_synchronization.Thread.Scheduler.Tests.{tables-IsScheduled, free_lock}
use advanced_synchronization.Waitobj.Tests.{kernel}
use advanced_synchronization.Dev.Console.{Console, cons_getc}
use advanced_synchronization.Dev.Console.Input.{Taken, cons_getc-Taken}

abbrev console : Console
console = record {
  cons_lk = free_lock;
  buf = λ p. if p == 511 then 97 else 0;
  rpos = 511;
  wpos = 0;
  kernel = kernel 99 0;
}

cons_getc-Taken_example :
    Returns
      (λ r c'. Taken c' r (97 ∷ 98 ∷ 99 ∷ 100 ∷ []))
      (cons_getc true (98 ∷ 0 ∷ 99 ∷ []) (100 ∷ []) console)
cons_getc-Taken_example =
    cons_getc-Taken console true (98 ∷ 0 ∷ 99 ∷ []) (100 ∷ []) (97 ∷ []) (1 ∷ 2 ∷ []) refl
      tables-IsScheduled (omega arith)
      (record {
        rpos_lt = omega arith;
        wpos_lt = omega arith;
        few = omega arith;
        between = (refl, refl);
      })
