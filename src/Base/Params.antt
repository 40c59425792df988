-- ===== src/Base/Params.antt =====
-- The limits of kern/lib/x86.h.
use Prim.Native.Nat.{ℕ}

abbrev pub num_ids : ℕ
num_ids = 64

abbrev pub num_cpus : ℕ
num_cpus = 8

abbrev pub max_children : ℕ
max_children = 3
