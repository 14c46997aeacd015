-- ===== src/Compiler/Taken.antt =====
-- What the functions of the compiler take off the line: the tokens, the factors, the levels of an
-- expression.
pub mod Tokens
pub mod Factor
pub mod Expr
pub mod Lines
pub mod NextLine
pub mod Stmt
pub mod Block
pub mod Dispatch
pub mod Program
pub mod Ends
