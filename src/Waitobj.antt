-- ===== src/Waitobj.antt =====
-- kern/sync/waitobj.c: the pools of wait objects and event sources, and every operation on them.
-- Pointers into a pool are indices. A call that sleeps is cut at the switch of contexts.
pub mod State
pub mod Pool
pub mod Wait
pub mod Notify
pub mod Chain
pub mod Delivery
pub mod Outcomes
pub mod Resume
pub mod Waking
pub mod Scan
pub mod Firing
pub mod Console
pub mod Adding
pub mod Tests
