-- ===== src/Exer2/TreeFile.antt =====
-- exer2/*/tree.c: reading and printing trees (the four copies of the file are equal).
pub mod Defs
pub mod Terminates
pub mod Writer
pub mod RoundTrip
mod Tests
