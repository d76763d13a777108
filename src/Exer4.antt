-- ===== src/Exer4.antt =====
-- exer4: the process list, the schedulers and the shell.
pub mod Plist
pub mod Os
pub mod Safe
pub mod Prio
pub mod Sched
pub mod Shell
pub mod Cmdline
pub mod Session
