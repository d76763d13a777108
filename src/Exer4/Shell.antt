-- ===== src/Exer4/Shell.antt =====
-- exer4/shell/scheduler-shell.c: the scheduler that a shell controls.
pub mod Defs
pub mod Handlers
pub mod Simulates
mod Tests
