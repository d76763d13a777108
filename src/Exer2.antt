-- ===== src/Exer2.antt =====
-- exer2: trees of processes.
pub mod Tree
pub mod TreeFile
pub mod ExprRv
pub mod ExprPipe
pub mod Signals
pub mod ForkTree
