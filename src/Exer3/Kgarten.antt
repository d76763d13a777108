-- ===== src/Exer3/Kgarten.antt =====
-- exer3/kgarten/kgarten.c: the kindergarten of children and teachers.
pub mod Defs
pub mod Local
pub mod Safety
pub mod Signals
pub mod Main
mod Tests
