-- ===== src/Exer4/Plist.antt =====
-- exer4/*/plist.c: the circular list of processes.
pub mod Memory
pub mod Ring
pub mod Ops
pub mod Unlink
pub mod Delete
pub mod Append
pub mod Earlier
pub mod Search
mod Tests
