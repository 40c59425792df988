-- ===== src/Trap/Dispatch.antt =====
-- kern/trap/TDispatch: which functions a system call runs, by its number in `eax`.
use advanced_synchronization.Base.{ℕ, ◌≤◌, ◌≡◌, refl, ◌==◌, if◌then◌else◌, List, [], ◌∷◌, arith}
use advanced_synchronization.Trap.Frame.{Regs, syscall_get_arg1}

-- The functions of the system calls, in the order of `enum __syscall_nr`.
pub data Handler : Type 0 where
  puts_call spawn_call yield_call produce_call consume_call open_call close_call read_call : Handler
  write_call mkdir_call chdir_call link_call unlink_call stat_call sync_send_call : Handler
  sync_recv_call is_dir_call ls_call mv_call rm_call pwd_call cp_call cat_call touch_call : Handler
  readline_call sigaction_call kill_call pause_call sigreturn_call waitobj_create_call : Handler
  waitobj_add_call waitobj_wait_call waitobj_signal_call : Handler

abbrev pub max_syscall_nr : ℕ
max_syscall_nr = 33

-- What a case of the switch does: it calls a function on the registers, switches the interrupts, or
-- calls `syscall_set_errno` with its first argument, the address of the registers, and without the other.
pub data Action : Type 0 where
  call : Handler → Action
  intr_local_enable intr_local_disable : Action
  set_errno_at : ℕ → Action

abbrev pub e_inval_callnr : ℕ
e_inval_callnr = 3

-- The place of a call in `enum __syscall_nr`.
unfoldable pub number_of : Handler → ℕ
number_of puts_call = 0
number_of spawn_call = 1
number_of yield_call = 2
number_of produce_call = 3
number_of consume_call = 4
number_of open_call = 5
number_of close_call = 6
number_of read_call = 7
number_of write_call = 8
number_of mkdir_call = 9
number_of chdir_call = 10
number_of link_call = 11
number_of unlink_call = 12
number_of stat_call = 13
number_of sync_send_call = 14
number_of sync_recv_call = 15
number_of is_dir_call = 16
number_of ls_call = 17
number_of mv_call = 18
number_of rm_call = 19
number_of pwd_call = 20
number_of cp_call = 21
number_of cat_call = 22
number_of touch_call = 23
number_of readline_call = 24
number_of sigaction_call = 25
number_of kill_call = 26
number_of pause_call = 27
number_of sigreturn_call = 28
number_of waitobj_create_call = 29
number_of waitobj_add_call = 30
number_of waitobj_wait_call = 31
number_of waitobj_signal_call = 32

-- The cases of the switch, in their order. That of SYS_touch does not end with a break; the default one
-- passes E_INVAL_CALLNR in place of the registers.
unfoldable pub handlers_of : ℕ → List Action
handlers_of nr =
    if nr == 14
    then call sync_send_call ∷ []
    else if nr == 15
    then call sync_recv_call ∷ []
    else if nr == 16
    then call is_dir_call ∷ []
    else if nr == 17
    then call ls_call ∷ []
    else if nr == 20
    then call pwd_call ∷ []
    else if nr == 21
    then call cp_call ∷ []
    else if nr == 18
    then call mv_call ∷ []
    else if nr == 19
    then call rm_call ∷ []
    else if nr == 22
    then call cat_call ∷ []
    else if nr == 23
    then call touch_call ∷ call readline_call ∷ []
    else if nr == 24
    then call readline_call ∷ []
    else if nr == 0
    then call puts_call ∷ []
    else if nr == 1
    then call spawn_call ∷ []
    else if nr == 2
    then call yield_call ∷ []
    else if nr == 3
    then intr_local_enable ∷ call produce_call ∷ intr_local_disable ∷ []
    else if nr == 4
    then intr_local_enable ∷ call consume_call ∷ intr_local_disable ∷ []
    else if nr == 5
    then call open_call ∷ []
    else if nr == 6
    then call close_call ∷ []
    else if nr == 7
    then call read_call ∷ []
    else if nr == 8
    then call write_call ∷ []
    else if nr == 9
    then call mkdir_call ∷ []
    else if nr == 10
    then call chdir_call ∷ []
    else if nr == 11
    then call link_call ∷ []
    else if nr == 12
    then call unlink_call ∷ []
    else if nr == 13
    then call stat_call ∷ []
    else if nr == 25
    then call sigaction_call ∷ []
    else if nr == 26
    then call kill_call ∷ []
    else if nr == 27
    then call pause_call ∷ []
    else if nr == 28
    then call sigreturn_call ∷ []
    else if nr == 29
    then call waitobj_create_call ∷ []
    else if nr == 30
    then call waitobj_add_call ∷ []
    else if nr == 31
    then call waitobj_wait_call ∷ []
    else if nr == 32
    then call waitobj_signal_call ∷ []
    else set_errno_at e_inval_callnr ∷ []

unfoldable pub syscall_dispatch : Regs → List Action
unfolding syscall_get_arg1
syscall_dispatch tf = handlers_of (syscall_get_arg1 tf)

-- What is done for a call.
abbrev pub runs : Handler → List Action
runs touch_call = call touch_call ∷ call readline_call ∷ []
runs produce_call = intr_local_enable ∷ call produce_call ∷ intr_local_disable ∷ []
runs consume_call = intr_local_enable ∷ call consume_call ∷ intr_local_disable ∷ []
runs h = call h ∷ []

called : (h : Handler) → handlers_of (number_of h) ≡ runs h
unfolding handlers_of number_of
called puts_call = refl
called spawn_call = refl
called yield_call = refl
called produce_call = refl
called consume_call = refl
called open_call = refl
called close_call = refl
called read_call = refl
called write_call = refl
called mkdir_call = refl
called chdir_call = refl
called link_call = refl
called unlink_call = refl
called stat_call = refl
called sync_send_call = refl
called sync_recv_call = refl
called is_dir_call = refl
called ls_call = refl
called mv_call = refl
called rm_call = refl
called pwd_call = refl
called cp_call = refl
called cat_call = refl
called touch_call = refl
called readline_call = refl
called sigaction_call = refl
called kill_call = refl
called pause_call = refl
called sigreturn_call = refl
called waitobj_create_call = refl
called waitobj_add_call = refl
called waitobj_wait_call = refl
called waitobj_signal_call = refl

unknown : (nr : ℕ) → max_syscall_nr ≤ nr → handlers_of nr ≡ set_errno_at e_inval_callnr ∷ []
unfolding handlers_of
unknown nr h = ground (arith, h)

-- The number of each system call selects its own function and no other, but for the number of SYS_touch,
-- which goes on into `sys_readline`; a number from MAX_SYSCALL_NR on selects the default case.
dispatch_selects :
    (tf : Regs)
    → ((h : Handler) → syscall_get_arg1 tf ≡ number_of h → syscall_dispatch tf ≡ runs h)
      × (max_syscall_nr ≤ syscall_get_arg1 tf
          → syscall_dispatch tf ≡ set_errno_at e_inval_callnr ∷ [])
unfolding syscall_dispatch
dispatch_selects tf = (λ h e. rw e (called h), unknown (syscall_get_arg1 tf))
