-- ===== src/Arithmetic.antt =====
-- Arithmetic evaluation: src/machine/arithmetic_ops.rs, and the parts of src/arithmetic.rs and
-- src/forms.rs that it stands on.
pub mod Interface
pub mod Number
pub mod Float
pub mod Sum
pub mod Division
pub mod Bitwise
pub mod Gcd
pub mod Power
pub mod Rounding
pub mod Order
pub mod Eval
pub mod Iterator
pub mod Compile
