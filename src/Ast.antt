-- ===== src/Ast.antt =====
-- parser/ast.rs: operators, small integers, parser errors, literals and terms.
pub mod OpDeclSpec
pub mod Flags
pub mod OpDir
pub mod Fixnum
pub mod Error
pub mod Term
