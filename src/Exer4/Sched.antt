-- ===== src/Exer4/Sched.antt =====
-- exer4/sched/scheduler.c: the round-robin scheduler.
pub mod Defs
pub mod Boot
pub mod Good
pub mod Rounds
mod Tests
