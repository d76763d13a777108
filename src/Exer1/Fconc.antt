-- ===== src/Exer1/Fconc.antt =====
-- exer1/fconc: defs.c, fconc.c and fconc2.c.
pub mod Defs
pub mod Copies
pub mod Partial
pub mod Program
mod Tests
