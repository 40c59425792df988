-- ===== src/Strings.antt =====
-- kern/lib/string.c: the string functions that are written in C, over a memory of bytes by address.
pub mod Format
pub mod Compare
pub mod Lengths
mod Tests
use advanced_synchronization.Base.{
  ℕ, zero, suc, ◌+◌, ◌-◌, Bool, leb, ◌==◌, ◌&&◌, not, if◌then◌else◌, Option, none, some, ℤ, pos,
  negsuc, update,
}

abbrev pub Bytes : Type 0
Bytes = ℕ → ℕ

-- (int) a - (int) b for two bytes.
unfoldable pub byte_diff : ℕ → ℕ → ℤ
byte_diff a b = if leb b a then pos (a - b) else negsuc (b - a - 1)

unfoldable pub strncmp : Bytes → ℕ → ℕ → ℕ → ℤ
strncmp m p q zero = pos 0
strncmp m p q (suc n) =
    let rest = strncmp m (p + 1) (q + 1) n in
    if not (m p == 0) && (m p == m q) then rest else byte_diff (m p) (m q)

-- The memory after `while (n-- > 0) *s++ = 0`, and after `strncpy`.
unfoldable pub fill_zeros : ℕ → ℕ → Bytes → Bytes
fill_zeros zero s m = m
fill_zeros (suc n) s m = fill_zeros n (s + 1) (update m s 0)

unfoldable pub strncpy : ℕ → ℕ → ℕ → Bytes → Bytes
strncpy zero s t m = m
strncpy (suc n) s t m =
    let more = strncpy n (s + 1) (t + 1) (update m s (m t)) in
    let ended = fill_zeros n (s + 1) (update m s (m t)) in if m t == 0 then ended else more

unfoldable pub strnlen : Bytes → ℕ → ℕ → ℕ
strnlen m s zero = 0
strnlen m s (suc size) = let rest = strnlen m (s + 1) size in if m s == 0 then 0 else rest + 1

unfoldable pub memcmp : Bytes → ℕ → ℕ → ℕ → ℤ
memcmp m v1 v2 zero = pos 0
memcmp m v1 v2 (suc n) =
    let rest = memcmp m (v1 + 1) (v2 + 1) n in
    if m v1 == m v2 then rest else byte_diff (m v1) (m v2)

-- The loops that end at a terminating 0 run on fuel.
unfoldable pub strcmp : ℕ → Bytes → ℕ → ℕ → Option ℤ
strcmp zero m p q = none
strcmp (suc n) m p q =
    let rest = strcmp n m (p + 1) (q + 1) in
    if not (m p == 0) && (m p == m q) then rest else some (byte_diff (m p) (m q))

-- The address found, or `none` for a null pointer.
unfoldable pub strchr : ℕ → Bytes → ℕ → ℕ → Option (Option ℕ)
strchr zero m s c = none
strchr (suc n) m s c =
    let rest = strchr n m (s + 1) c in
    if m s == 0 then some none else if m s == c then some (some s) else rest

-- The loop of `strlen` at `s`, with the count so far.
unfoldable pub strlen_from : ℕ → Bytes → ℕ → ℕ → Option ℕ
strlen_from zero m s cnt = none
strlen_from (suc n) m s cnt =
    let rest = strlen_from n m (s + 1) (cnt + 1) in if m s == 0 then some cnt else rest

unfoldable pub strlen : ℕ → Bytes → ℕ → Option ℕ
strlen n m s = strlen_from n m s 0
