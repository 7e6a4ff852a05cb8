-- ===== src/Lexer.antt =====
-- parser/lexer.rs: the lexer, one child module for each group of its methods.
pub mod State
pub mod Layout
pub mod Quoted
pub mod Number
pub mod Token
