-- ===== src/Arithmetic/Division/Errors.antt =====
-- The errors of the integer divisions of src/machine/arithmetic_ops.rs.
use contrib_scryer_prolog.Base.{◌≡◌, refl, true, false, some, if◌then◌else◌}
use contrib_scryer_prolog.Base.Text.{Text, codes}
use contrib_scryer_prolog.Base.Int.{ℤ, is_zero}
use contrib_scryer_prolog.Numerics.{Numerics}
use contrib_scryer_prolog.Arithmetic.Interface.{Arithmetic}
use contrib_scryer_prolog.Arithmetic.Number.{
  Number, float, integer, rational, fixnum, is_integer, integer_value, Result, err, ArithmeticError,
  evaluation, type_error, zero_divisor, integer_type,
}
use contrib_scryer_prolog.Arithmetic.Sum.Exact.{some_eq}
use contrib_scryer_prolog.Arithmetic.Division.{idiv, modulus, remainder, int_floor_div, unless_zero}

module _ ⦃n : Numerics⦄ ⦃a : Arithmetic⦄ where
  raises_zero :
      (name : Text) (d v : ℤ) (z : Number)
      → some d ≡ some v
      → is_zero v ≡ true
      → unless_zero name d z ≡ err (evaluation zero_divisor (name, 2))
  raises_zero name d v z e h = rw (some_eq d v e, h) refl

  abbrev pub Refuses : (Number → Number → Result ArithmeticError Number) → Text → Type 0
  Refuses operation name =
      (x y : Number) (u v : ℤ)
      → integer_value x ≡ some u
      → integer_value y ≡ some v
      → is_zero v ≡ true
      → operation x y ≡ err (evaluation zero_divisor (name, 2))

  idiv-zero : Refuses idiv (codes "//")
  unfolding idiv integer_value
  idiv-zero (fixnum x) (fixnum y) u v e f h = raises_zero _ _ v _ f h
  idiv-zero (fixnum x) (integer j) u v e f h = raises_zero _ _ v _ f h
  idiv-zero (integer i) (fixnum y) u v e f h = raises_zero _ _ v _ f h
  idiv-zero (integer i) (integer j) u v e f h = raises_zero _ _ v _ f h
  idiv-zero (float _) y u v e f h = cc
  idiv-zero (rational _) y u v e f h = cc
  idiv-zero (fixnum x) (float _) u v e f h = cc
  idiv-zero (fixnum x) (rational _) u v e f h = cc
  idiv-zero (integer x) (float _) u v e f h = cc
  idiv-zero (integer x) (rational _) u v e f h = cc

  modulus-zero : Refuses modulus (codes "mod")
  unfolding modulus integer_value
  modulus-zero (fixnum x) (fixnum y) u v e f h = raises_zero _ _ v _ f h
  modulus-zero (fixnum x) (integer j) u v e f h = raises_zero _ _ v _ f h
  modulus-zero (integer i) (fixnum y) u v e f h = raises_zero _ _ v _ f h
  modulus-zero (integer i) (integer j) u v e f h = raises_zero _ _ v _ f h
  modulus-zero (float _) y u v e f h = cc
  modulus-zero (rational _) y u v e f h = cc
  modulus-zero (fixnum x) (float _) u v e f h = cc
  modulus-zero (fixnum x) (rational _) u v e f h = cc
  modulus-zero (integer x) (float _) u v e f h = cc
  modulus-zero (integer x) (rational _) u v e f h = cc

  remainder-zero : Refuses remainder (codes "rem")
  unfolding remainder integer_value
  remainder-zero (fixnum x) (fixnum y) u v e f h = raises_zero _ _ v _ f h
  remainder-zero (fixnum x) (integer j) u v e f h = raises_zero _ _ v _ f h
  remainder-zero (integer i) (fixnum y) u v e f h = raises_zero _ _ v _ f h
  remainder-zero (integer i) (integer j) u v e f h = raises_zero _ _ v _ f h
  remainder-zero (float _) y u v e f h = cc
  remainder-zero (rational _) y u v e f h = cc
  remainder-zero (fixnum x) (float _) u v e f h = cc
  remainder-zero (fixnum x) (rational _) u v e f h = cc
  remainder-zero (integer x) (float _) u v e f h = cc
  remainder-zero (integer x) (rational _) u v e f h = cc

  pub int_floor_div-error :
      (x y : Number) (e : ArithmeticError) → modulus x y ≡ err e → int_floor_div x y ≡ err e
  unfolding int_floor_div
  int_floor_div-error x y e h = rw h refl

  -- An integer divided by zero, in either representation, raises an evaluation error that names the
  -- operation; the error of `div` is that of the `mod` it starts with.
  pub division_by_zero :
      (x y : Number) (u v : ℤ)
      → integer_value x ≡ some u
      → integer_value y ≡ some v
      → is_zero v ≡ true
      → (idiv x y ≡ err (evaluation zero_divisor (codes "//", 2)))
        × (remainder x y ≡ err (evaluation zero_divisor (codes "rem", 2)))
        × (modulus x y ≡ err (evaluation zero_divisor (codes "mod", 2)))
        × (int_floor_div x y ≡ err (evaluation zero_divisor (codes "mod", 2)))
  division_by_zero x y u v e f h = (
    idiv-zero x y u v e f h,
    remainder-zero x y u v e f h,
    modulus-zero x y u v e f h,
    int_floor_div-error x y _ (modulus-zero x y u v e f h),
  )

  -- The first operand that is no integer, and the second one where both are integers.
  abbrev pub culprit : Number → Number → Number
  culprit x y = if is_integer x then y else x

  abbrev pub Checks : (Number → Number → Result ArithmeticError Number) → Text → Type 0
  Checks operation name =
      (x y : Number)
      → is_integer (culprit x y) ≡ false
      → operation x y ≡ err (type_error integer_type (culprit x y) (name, 2))

  pub idiv-type : Checks idiv (codes "//")
  unfolding idiv is_integer
  idiv-type (float _) y h = refl
  idiv-type (rational _) y h = refl
  idiv-type (fixnum x) (float _) h = refl
  idiv-type (fixnum x) (rational _) h = refl
  idiv-type (integer x) (float _) h = refl
  idiv-type (integer x) (rational _) h = refl
  idiv-type (fixnum x) (fixnum _) h = cc
  idiv-type (fixnum x) (integer _) h = cc
  idiv-type (integer x) (fixnum _) h = cc
  idiv-type (integer x) (integer _) h = cc

  pub modulus-type : Checks modulus (codes "mod")
  unfolding modulus is_integer
  modulus-type (float _) y h = refl
  modulus-type (rational _) y h = refl
  modulus-type (fixnum x) (float _) h = refl
  modulus-type (fixnum x) (rational _) h = refl
  modulus-type (integer x) (float _) h = refl
  modulus-type (integer x) (rational _) h = refl
  modulus-type (fixnum x) (fixnum _) h = cc
  modulus-type (fixnum x) (integer _) h = cc
  modulus-type (integer x) (fixnum _) h = cc
  modulus-type (integer x) (integer _) h = cc

  pub remainder-type : Checks remainder (codes "rem")
  unfolding remainder is_integer
  remainder-type (float _) y h = refl
  remainder-type (rational _) y h = refl
  remainder-type (fixnum x) (float _) h = refl
  remainder-type (fixnum x) (rational _) h = refl
  remainder-type (integer x) (float _) h = refl
  remainder-type (integer x) (rational _) h = refl
  remainder-type (fixnum x) (fixnum _) h = cc
  remainder-type (fixnum x) (integer _) h = cc
  remainder-type (integer x) (fixnum _) h = cc
  remainder-type (integer x) (integer _) h = cc
