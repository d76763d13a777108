-- ===== src/Exer3.antt =====
-- exer3: threads that share memory.
pub mod Kgarten
pub mod Mandel
pub mod Simplesync
