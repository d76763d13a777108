-- ===== src/Exer3/Mandel.antt =====
-- exer3/mandel: threads that draw the lines of the Mandelbrot set in turns.
pub mod Colors
pub mod Output
pub mod Turns
pub mod Lines
