-- ===== src/Arithmetic/Sum.antt =====
-- `add`, `neg`, `abs`, `sub` and `mul` of src/machine/arithmetic_ops.rs.
pub mod Exact
use contrib_scryer_prolog.Base.{ℕ, ◌+◌, ◌-◌, ◌^◌, Option, none, some}
use contrib_scryer_prolog.Base.Int.{ℤ, pos, neg_ℤ, ◌+ℤ◌, ◌*ℤ◌}
use contrib_scryer_prolog.Numerics.{Numerics}
use contrib_scryer_prolog.Ast.Fixnum.{Fixnum, get_num, checked_abs}
use contrib_scryer_prolog.Arithmetic.Interface.{Arithmetic}
use contrib_scryer_prolog.Arithmetic.Number.{
  Number, float, integer, rational, fixnum, EvalError, Result, ok, err, ◌>>=◌, checked, or_big,
  int_of,
}
use contrib_scryer_prolog.Arithmetic.Float.{float_fn_to_f, float_i_to_f, float_r_to_f, add_f, mul_f}

module _ ⦃n : Numerics⦄ ⦃a : Arithmetic⦄ where
  -- `Number::Float` of a float operation.
  abbrev pub float_result : Result EvalError n.F64 → Result EvalError Number
  float_result r = do x ← r; ok (float x)

  unfoldable pub add_fixnums : Fixnum → Fixnum → Number
  unfolding checked or_big ◌+ℤ◌
  add_fixnums x y = or_big (checked (get_num x +ℤ get_num y)) (a.int_add (int_of x) (int_of y))

  unfoldable pub add : Number → Number → Result EvalError Number
  unfolding add_fixnums float_fn_to_f float_i_to_f float_r_to_f add_f
  add (fixnum x) (fixnum y) = ok (add_fixnums x y)
  add (fixnum x) (integer j) = ok (integer (a.int_add (int_of x) j))
  add (integer i) (fixnum y) = ok (integer (a.int_add (int_of y) i))
  add (fixnum x) (rational s) = ok (rational (a.rat_add (a.rat_from (int_of x)) s))
  add (rational r) (fixnum y) = ok (rational (a.rat_add (a.rat_from (int_of y)) r))
  add (fixnum x) (float g) = float_result (float_fn_to_f (get_num x) >>= λ f. add_f f g)
  add (float f) (fixnum y) = float_result (float_fn_to_f (get_num y) >>= λ g. add_f g f)
  add (integer i) (integer j) = ok (integer (a.int_add i j))
  add (integer i) (float g) = float_result (float_i_to_f i >>= λ f. add_f f g)
  add (float f) (integer j) = float_result (float_i_to_f j >>= λ g. add_f g f)
  add (integer i) (rational s) = ok (rational (a.rat_add (a.rat_from i) s))
  add (rational r) (integer j) = ok (rational (a.rat_add (a.rat_from j) r))
  add (rational r) (float g) = float_result (float_r_to_f r >>= λ f. add_f f g)
  add (float f) (rational s) = float_result (float_r_to_f s >>= λ g. add_f g f)
  add (float f) (float g) = float_result (add_f f g)
  add (rational r) (rational s) = ok (rational (a.rat_add r s))

  unfoldable pub neg : Number → Number
  unfolding checked or_big
  neg (fixnum x) = or_big (checked (neg_ℤ (get_num x))) (n.int_neg (int_of x))
  neg (integer i) = integer (n.int_neg i)
  neg (float f) = float (n.float_neg f)
  neg (rational r) = rational (n.rat_neg r)

  -- `Fixnum::MAX + 1` is 2 ^ 55.
  abbrev pub or_past_max : Option Fixnum → Number
  or_past_max (some y) = fixnum y
  or_past_max none = integer (n.int_from (pos (2 ^ 55)))

  unfoldable pub abs : Number → Number
  unfolding checked_abs
  abs (fixnum x) = or_past_max (checked_abs x)
  abs (integer i) = integer (a.int_abs i)
  abs (float f) = float (a.f64_abs f)
  abs (rational r) = rational (a.rat_abs r)

  unfoldable pub sub : Number → Number → Result EvalError Number
  unfolding add neg
  sub x y = add x (neg y)

  unfoldable pub mul_fixnums : Fixnum → Fixnum → Number
  unfolding checked or_big ◌*ℤ◌
  mul_fixnums x y = or_big (checked (get_num x *ℤ get_num y)) (a.int_mul (int_of x) (int_of y))

  unfoldable pub mul : Number → Number → Result EvalError Number
  unfolding mul_fixnums float_fn_to_f float_i_to_f float_r_to_f mul_f
  mul (fixnum x) (fixnum y) = ok (mul_fixnums x y)
  mul (fixnum x) (integer j) = ok (integer (a.int_mul (int_of x) j))
  mul (integer i) (fixnum y) = ok (integer (a.int_mul (int_of y) i))
  mul (fixnum x) (rational s) = ok (rational (a.rat_mul (a.rat_from (int_of x)) s))
  mul (rational r) (fixnum y) = ok (rational (a.rat_mul (a.rat_from (int_of y)) r))
  mul (fixnum x) (float g) = float_result (float_fn_to_f (get_num x) >>= λ f. mul_f f g)
  mul (float f) (fixnum y) = float_result (float_fn_to_f (get_num y) >>= λ g. mul_f g f)
  mul (integer i) (integer j) = ok (integer (a.int_mul i j))
  mul (integer i) (float g) = float_result (float_i_to_f i >>= λ f. mul_f f g)
  mul (float f) (integer j) = float_result (float_i_to_f j >>= λ g. mul_f g f)
  mul (integer i) (rational s) = ok (rational (a.rat_mul (a.rat_from i) s))
  mul (rational r) (integer j) = ok (rational (a.rat_mul (a.rat_from j) r))
  mul (rational r) (float g) = float_result (float_r_to_f r >>= λ f. mul_f f g)
  mul (float f) (rational s) = float_result (float_r_to_f s >>= λ g. mul_f g f)
  mul (float f) (float g) = float_result (mul_f f g)
  mul (rational r) (rational s) = ok (rational (a.rat_mul r s))
