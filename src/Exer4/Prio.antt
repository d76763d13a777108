-- ===== src/Exer4/Prio.antt =====
-- exer4/prio: the scheduler with high and low priority.
pub mod Defs
pub mod Invariant
pub mod Requests
pub mod Create
pub mod Dispatch
pub mod Started
pub mod Children
pub mod Main
pub mod Tests
