-- ===== src/Trap/Frame.antt =====
-- kern/trap/TSyscallArg: the arguments, the error number and the results in the saved registers.
use advanced_synchronization.Base.{
  ℕ, ◌-◌, ◌<◌, ◌≡◌, ◌^◌, refl, ltb, if◌then◌else◌, ℤ, pos, negsuc, Bool-cases, inl, inr, arith,
}

-- `tf->regs`.
pub record Regs : Type 0 where
  pub edi : ℕ
  pub esi : ℕ
  pub ebp : ℕ
  pub oesp : ℕ
  pub ebx : ℕ
  pub edx : ℕ
  pub ecx : ℕ
  pub eax : ℕ

unfoldable pub syscall_get_arg1 : Regs → ℕ
syscall_get_arg1 tf = tf.eax

unfoldable pub syscall_get_arg2 : Regs → ℕ
syscall_get_arg2 tf = tf.ebx

unfoldable pub syscall_get_arg3 : Regs → ℕ
syscall_get_arg3 tf = tf.ecx

unfoldable pub syscall_get_arg4 : Regs → ℕ
syscall_get_arg4 tf = tf.edx

unfoldable pub syscall_get_arg5 : Regs → ℕ
syscall_get_arg5 tf = tf.esi

unfoldable pub syscall_get_arg6 : Regs → ℕ
syscall_get_arg6 tf = tf.edi

unfoldable pub syscall_set_errno : ℕ → Regs → Regs
syscall_set_errno errno tf = record tf { eax = errno }

unfoldable pub syscall_set_retval1 : ℕ → Regs → Regs
syscall_set_retval1 retval tf = record tf { ebx = retval }

unfoldable pub syscall_set_retval2 : ℕ → Regs → Regs
syscall_set_retval2 retval tf = record tf { ecx = retval }

unfoldable pub syscall_set_retval3 : ℕ → Regs → Regs
syscall_set_retval3 retval tf = record tf { edx = retval }

unfoldable pub syscall_set_retval4 : ℕ → Regs → Regs
syscall_set_retval4 retval tf = record tf { esi = retval }

unfoldable pub syscall_set_retval5 : ℕ → Regs → Regs
syscall_set_retval5 retval tf = record tf { edi = retval }

abbrev pub e_succ : ℕ
e_succ = 0

abbrev pub e_mem : ℕ
e_mem = 1

abbrev pub e_inval_pid : ℕ
e_inval_pid = 5

abbrev pub e_inval_id : ℕ
e_inval_id = 12

abbrev pub e_inval_signum : ℕ
e_inval_signum = 30

abbrev pub e_wait_timeout : ℕ
e_wait_timeout = 32

-- A register read as `int`, and an `int` stored in a register.
unfoldable pub to_int : ℕ → ℤ
to_int n = if ltb n (2 ^ 31) then pos n else negsuc (2 ^ 32 - 1 - n)

unfoldable pub to_word : ℤ → ℕ
to_word (pos n) = n
to_word (negsuc n) = 2 ^ 32 - 1 - n

pub to_word-to_int : (n : ℕ) → n < 2 ^ 32 → to_word (to_int n) ≡ n
unfolding to_word to_int
to_word-to_int n h = elim (Bool-cases (ltb n (2 ^ 31))) [
  | inl e ↦ rw e refl
  | inr e ↦ rw e (omega arith)
]
