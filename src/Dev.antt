-- ===== src/Dev.antt =====
-- kern/dev: the console, the one device driver with state of its own.
pub mod Console
mod Tests
