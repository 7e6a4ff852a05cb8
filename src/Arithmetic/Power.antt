-- ===== src/Arithmetic/Power.antt =====
-- `binary_pow` of src/arithmetic.rs; `int_pow` and `pow` of src/machine/arithmetic_ops.rs.
pub mod Exact
use contrib_scryer_prolog.Base.{
  ℕ, zero, suc, ◌+◌, ◌-◌, ◌/◌, ◌%◌, ◌^◌, Bool, true, false, not, ◌&&◌, ◌||◌, Option, none, some,
  ltb, leb, ◌==◌, if◌then◌else◌,
}
use contrib_scryer_prolog.Base.Text.{Text, codes}
use contrib_scryer_prolog.Base.Int.{ℤ, pos, negsuc, is_neg, nat_abs}
use contrib_scryer_prolog.Base.Int.Power.{pow_ℤ}
use contrib_scryer_prolog.Numerics.{Numerics}
use contrib_scryer_prolog.Ast.Fixnum.{Fixnum, get_num}
use contrib_scryer_prolog.Arithmetic.Interface.{Arithmetic}
use contrib_scryer_prolog.Arithmetic.Number.{
  Number, float, integer, rational, fixnum, undefined, float_type, Result, ok, err, ◌>>=◌,
  ArithmeticError, evaluation, type_error, checked, from_i64, int_of, is_negative, is_zero_number,
}
use contrib_scryer_prolog.Arithmetic.Float.{to_float, unary_float_fn_template, float_pow}

-- 1, 0 and -1, whose powers by a negative number are integers or undefined.
abbrev pub is_unit : ℤ → Bool
is_unit (pos k) = leb k 1
is_unit (negsuc k) = k == 0

module _ ⦃n : Numerics⦄ ⦃a : Arithmetic⦄ where
  -- `while power > 1`
  unfoldable pub pow_loop : ℕ → n.Integer → n.Integer → ℕ → n.Integer
  pow_loop zero base oddand power = a.int_mul base oddand
  pow_loop (suc fuel) base oddand power =
      let rest =
        pow_loop fuel (a.int_square base) (if power % 2 == 1 then a.int_mul oddand base else oddand)
          (power / 2) in
      if ltb 1 power then rest else a.int_mul base oddand

  -- The sign of the power is ignored; the power itself is fuel enough.
  unfoldable pub binary_pow : n.Integer → ℤ → n.Integer
  unfolding pow_loop
  binary_pow base power =
      if nat_abs power == 0
      then n.int_from (pos 1)
      else pow_loop (nat_abs power) base (n.int_from (pos 1)) (nat_abs power)

  abbrev pub or_binary_pow : Option ℤ → Fixnum → Fixnum → Number
  unfolding from_i64 binary_pow
  or_binary_pow (some v) x y = from_i64 v
  or_binary_pow none x y = integer (binary_pow (int_of x) (get_num y))

  -- `checked_pow`, where the power is a `u32`.
  abbrev pub checked_pow : ℤ → ℤ → Option ℤ
  unfolding checked pow_ℤ
  checked_pow x (pos k) = if leb k (2 ^ 32 - 1) then checked (pow_ℤ x k) else none
  checked_pow x (negsuc k) = none

  -- A negative power of an integer that is no unit is a type error, which names the integer.
  abbrev pub unless_fraction : Number → ℤ → ℤ → Number → Result ArithmeticError Number
  unless_fraction x base power result =
      if not (is_unit base) && is_neg power
      then err (type_error float_type x (codes "^", 2))
      else ok result

  abbrev pub power_of_floats : Number → n.F64 → Result ArithmeticError Number
  unfolding to_float unary_float_fn_template
  power_of_floats x f2 = do
    f1 ← to_float x
    f ← unary_float_fn_template (float f1) (λ f. a.f64_pow f f2)
    ok (float f)

  abbrev pub float_int_pow : Number → Number → Result ArithmeticError Number
  unfolding power_of_floats is_negative
  float_int_pow x (integer j) = do
    f1 ← to_float x
    f2 ← to_float (integer j)
    f ← unary_float_fn_template (float f1) (λ f. a.f64_pow f f2)
    ok (float f)
  float_int_pow x y = do
    f2 ← to_float y
    if is_negative x && not (a.f64_eq f2 (a.f64_floor f2))
        then err (evaluation undefined (codes "^", 2))
        else power_of_floats x f2

  abbrev pub power_of : Number → Number → Result ArithmeticError Number
  unfolding or_binary_pow checked_pow binary_pow float_int_pow
  power_of (fixnum x) (fixnum y) =
      unless_fraction (fixnum x) (get_num x) (get_num y)
        (or_binary_pow (checked_pow (get_num x) (get_num y)) x y)
  power_of (fixnum x) (integer j) =
      unless_fraction (fixnum x) (get_num x) (a.value j)
        (integer (binary_pow (int_of x) (a.value j)))
  power_of (integer i) (fixnum y) =
      unless_fraction (integer i) (a.value i) (get_num y) (integer (binary_pow i (get_num y)))
  power_of (integer i) (integer j) =
      unless_fraction (integer i) (a.value i) (a.value j) (integer (binary_pow i (a.value j)))
  power_of x y = float_int_pow x y

  unfoldable pub int_pow : Number → Number → Result ArithmeticError Number
  unfolding power_of is_zero_number is_negative
  int_pow x y =
      if is_zero_number x && is_negative y
      then err (evaluation undefined (codes "is", 2))
      else power_of x y

  unfoldable pub pow : Number → Number → Text → Result ArithmeticError Number
  unfolding float_pow is_zero_number is_negative
  pow x y culprit =
      if is_negative y && is_zero_number x
      then err (evaluation undefined (culprit, 2))
      else float_pow x y
