-- ===== src/Compiler.antt =====
-- src/nc_compiler.c: the one-pass compiler. State is its state, Program has `nc_compile`; the modules
-- from Contract on are about what the functions take off the program, and OnVm about their code.
pub mod State
pub mod Tokens
pub mod Symbols
pub mod Lexer
pub mod Emit
pub mod Call
pub mod Factor
pub mod Expr
pub mod Stmt
pub mod Block
pub mod Function
pub mod Dispatch
pub mod Program
pub mod Contract
pub mod Takes
pub mod Whole
pub mod Still
pub mod Taken
pub mod OnVm
pub mod Interning
pub mod Patches
mod Tests
