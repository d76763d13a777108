-- ===== src/Exer2/ExprRv.antt =====
-- exer2/ask2-expr-rv/ask2-expr.c: an expression tree, computed by processes that exit with values.
pub mod Defs
pub mod Value
mod Tests
