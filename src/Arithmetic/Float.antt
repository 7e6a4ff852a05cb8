-- ===== src/Arithmetic/Float.antt =====
-- The conversions to floats and the float operations with their errors, src/arithmetic.rs, and the
-- functions of one float of src/machine/arithmetic_ops.rs.
use contrib_scryer_prolog.Base.{Bool, false, if◌then◌else◌}
use contrib_scryer_prolog.Base.Text.{codes}
use contrib_scryer_prolog.Base.Int.{ℤ}
use contrib_scryer_prolog.Numerics.{Numerics}
use contrib_scryer_prolog.Ast.Fixnum.{get_num}
use contrib_scryer_prolog.Arithmetic.Interface.{
  Arithmetic, fp_nan, fp_infinite, fp_zero, FloatFn, sqrt_fn,
}
use contrib_scryer_prolog.Arithmetic.Number.{
  Number, EvalError, float_overflow, undefined, zero_divisor, Result, ok, err, ◌>>=◌,
  ArithmeticError, evaluation, try_numeric_result, is_zero_number, is_negative,
}

module _ ⦃n : Numerics⦄ ⦃a : Arithmetic⦄ where
  unfoldable pub classify_float : n.F64 → Result EvalError n.F64
  classify_float x = elim (a.classify x) [
    | fp_infinite ↦ if a.is_max x then ok x else err float_overflow
    | fp_nan ↦ err undefined
    | _ ↦ ok x
  ]

  unfoldable pub rnd_f : Number → n.F64
  rnd_f (Number.fixnum x) = a.f64_of_i64 (get_num x)
  rnd_f (Number.integer i) = a.f64_of_int i
  rnd_f (Number.float x) = x
  rnd_f (Number.rational r) = a.f64_of_rat r

  unfoldable pub result_f : Number → Result EvalError n.F64
  unfolding classify_float rnd_f
  result_f x = classify_float (rnd_f x)

  unfoldable pub float_fn_to_f : ℤ → Result EvalError n.F64
  unfolding classify_float
  float_fn_to_f v = classify_float (a.f64_of_i64 v)

  unfoldable pub float_i_to_f : n.Integer → Result EvalError n.F64
  unfolding classify_float
  float_i_to_f i = classify_float (a.f64_of_int i)

  unfoldable pub float_r_to_f : n.Rational → Result EvalError n.F64
  unfolding classify_float
  float_r_to_f r = classify_float (a.f64_of_rat r)

  unfoldable pub add_f : n.F64 → n.F64 → Result EvalError n.F64
  unfolding classify_float
  add_f x y = classify_float (a.f64_add x y)

  unfoldable pub mul_f : n.F64 → n.F64 → Result EvalError n.F64
  unfolding classify_float
  mul_f x y = classify_float (a.f64_mul x y)

  unfoldable pub div_f : n.F64 → n.F64 → Result EvalError n.F64
  unfolding classify_float
  div_f x y = elim (a.classify y) [
    | fp_zero ↦ err zero_divisor
    | _ ↦ classify_float (a.f64_div x y)
  ]

  -- An operand of the division: a float is taken as it is, anything else is converted and checked.
  unfoldable pub operand_f : Number → Result EvalError n.F64
  unfolding float_fn_to_f float_i_to_f float_r_to_f
  operand_f (Number.fixnum x) = float_fn_to_f (get_num x)
  operand_f (Number.integer i) = float_i_to_f i
  operand_f (Number.rational r) = float_r_to_f r
  operand_f (Number.float x) = ok x

  -- `Div for Number`
  unfoldable pub div_number : Number → Number → Result EvalError Number
  unfolding operand_f div_f
  div_number x y = do f1 ← operand_f x; f2 ← operand_f y; f ← div_f f1 f2; ok (Number.float f)

  unfoldable pub div : Number → Number → Result ArithmeticError Number
  unfolding div_number is_zero_number
  div x y =
      if is_zero_number y
      then err (evaluation zero_divisor (codes "/", 2))
      else try_numeric_result (div_number x y) (codes "/", 2)

  -- `float`, and the errors of `is/2`.
  unfoldable pub to_float : Number → Result ArithmeticError n.F64
  unfolding result_f
  to_float x = try_numeric_result (result_f x) (codes "is", 2)

  unfoldable pub unary_float_fn_template : Number → (n.F64 → n.F64) → Result ArithmeticError n.F64
  unfolding result_f
  unary_float_fn_template x f = do
    f1 ← try_numeric_result (result_f x) (codes "is", 2)
    try_numeric_result (result_f (Number.float (f f1))) (codes "is", 2)

  -- `sin`, `cos`, `tan`, `log`, `exp`, `asin`, `acos`, `atan`, `float_fractional_part` and
  -- `float_integer_part`
  unfoldable pub float_fn : FloatFn → Number → Result ArithmeticError n.F64
  unfolding unary_float_fn_template
  float_fn f x = unary_float_fn_template x (a.f64_fn f)

  unfoldable pub sqrt : Number → Result ArithmeticError n.F64
  unfolding is_negative float_fn
  sqrt x = if is_negative x then err (evaluation undefined (codes "is", 2)) else float_fn sqrt_fn x

  abbrev pub both_zero : Number → Number → Bool
  unfolding is_zero_number
  both_zero x y = if is_zero_number x then is_zero_number y else false

  unfoldable pub atan2 : Number → Number → Result ArithmeticError n.F64
  unfolding both_zero to_float unary_float_fn_template
  atan2 x y = if both_zero x y then err (evaluation undefined (codes "is", 2)) else do
    f1 ← to_float x
    f2 ← to_float y
    unary_float_fn_template (Number.float f1) (λ f. a.f64_atan2 f f2)

  unfoldable pub float_pow : Number → Number → Result ArithmeticError Number
  unfolding result_f
  float_pow x y = do
    f1 ← try_numeric_result (result_f x) (codes "**", 2)
    f2 ← try_numeric_result (result_f y) (codes "**", 2)
    f ← try_numeric_result (result_f (Number.float (a.f64_pow f1 f2))) (codes "**", 2)
    ok (Number.float f)
