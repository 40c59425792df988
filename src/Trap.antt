-- ===== src/Trap.antt =====
-- kern/trap: the registers of a system call, signals, and the calls on wait objects.
pub mod Frame
pub mod Dispatch
pub mod Interrupt
pub mod Delivery
pub mod Signal
pub mod Pause
pub mod Calls
pub mod Outcomes
mod Tests
