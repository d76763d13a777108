-- ===== src/Exer2/ExprPipe.antt =====
-- exer2/ask2-expr/ask2-expr.c: an expression tree, computed by processes that write to pipes.
pub mod Defs
pub mod Value
pub mod Program
mod Tests
