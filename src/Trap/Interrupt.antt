-- ===== src/Trap/Interrupt.antt =====
-- kern/trap/TTrapHandler: the interrupts. Acknowledging them to the controller is left out.
pub mod Timer
use advanced_synchronization.Base.{
  ℕ, ◌+◌, Bool, true, false, ◌==◌, if◌then◌else◌, M, pure, ◌>>=◌, ◌>>◌,
}
use advanced_synchronization.Thread.Tcb.{get_curid}
use advanced_synchronization.Thread.Scheduler.{sched_update}
use advanced_synchronization.Waitobj.State.{Kernel, on_sched}
use advanced_synchronization.Waitobj.Notify.{waitobj_on_timer_irq}

abbrev pub t_irq0 : ℕ
t_irq0 = 32

abbrev pub irq_timer : ℕ
irq_timer = 0

abbrev pub irq_kbd : ℕ
irq_kbd = 1

abbrev pub irq_spurious : ℕ
irq_spurious = 7

abbrev pub irq_ide1 : ℕ
irq_ide1 = 14

abbrev pub irq_ide2 : ℕ
irq_ide2 = 15

-- The interrupt up to a switch of contexts, which ends the call before the wait objects get their tick;
-- has it come to its end?
unfoldable pub timer_intr_handler : M Kernel Bool
unfolding get_curid sched_update waitobj_on_timer_irq
timer_intr_handler = do
  interrupted ← on_sched get_curid
  on_sched sched_update
  running ← on_sched get_curid
  if running == interrupted then (do waitobj_on_timer_irq; pure true) else pure false

-- What is left of an interrupt that was cut, when the interrupted thread runs again.
unfoldable pub timer_intr_resumed : M Kernel (Unit {0})
unfolding waitobj_on_timer_irq
timer_intr_resumed = waitobj_on_timer_irq

pub data Interrupt : Type 0 where
  spurious timer keyboard disk second_disk other : Interrupt

-- The handler that `interrupt_handler` picks.
unfoldable pub interrupt_handler : ℕ → Interrupt
interrupt_handler trapno =
    if trapno == t_irq0 + irq_spurious
    then spurious
    else if trapno == t_irq0 + irq_timer
    then timer
    else if trapno == t_irq0 + irq_kbd
    then keyboard
    else if trapno == t_irq0 + irq_ide1
    then disk
    else if trapno == t_irq0 + irq_ide2
    then second_disk
    else other
