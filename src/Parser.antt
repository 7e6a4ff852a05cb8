-- ===== src/Parser.antt =====
-- parser/parser.rs: the operator precedence parser, one child module for each group of its methods.
pub mod Operators
pub mod PartialString
pub mod State
pub mod ReduceOp
pub mod Compound
pub mod Lists
pub mod Brackets
pub mod Shift
pub mod Read
pub mod Invariant
