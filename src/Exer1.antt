-- ===== src/Exer1.antt =====
-- exer1: concatenation of files, and a greeting.
pub mod Fconc
pub mod Zing
