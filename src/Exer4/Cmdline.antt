-- ===== src/Exer4/Cmdline.antt =====
-- exer4/prio/shell.c: the shell that reads command lines and turns them into requests.
pub mod Defs
pub mod Reading
pub mod Requests
mod Tests
