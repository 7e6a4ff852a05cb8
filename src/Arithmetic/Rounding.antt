-- ===== src/Arithmetic/Rounding.antt =====
-- `rnd_i` of src/arithmetic.rs; `floor`, `ceiling`, `truncate` and `round` of
-- src/machine/arithmetic_ops.rs.
use contrib_scryer_prolog.Base.{
  ◌-◌, ◌^◌, Bool, true, false, ◌&&◌, Option, none, some, if◌then◌else◌,
}
use contrib_scryer_prolog.Base.Text.{codes}
use contrib_scryer_prolog.Base.Int.{pos, negsuc}
use contrib_scryer_prolog.Numerics.{Numerics}
use contrib_scryer_prolog.Ast.Fixnum.{Fixnum, build_with_checked, build_with_unchecked}
use contrib_scryer_prolog.Arithmetic.Interface.{Arithmetic, Order, greater}
use contrib_scryer_prolog.Arithmetic.Number.{
  Number, float, integer, rational, fixnum, EvalError, Result, ok, err, ◌>>=◌, ArithmeticError,
  try_numeric_result, is_negative,
}
use contrib_scryer_prolog.Arithmetic.Float.{classify_float}
use contrib_scryer_prolog.Arithmetic.Sum.{neg, abs}

abbrev pub is_le : Order → Bool
is_le greater = false
is_le _ = true

module _ ⦃n : Numerics⦄ ⦃a : Arithmetic⦄ where
  -- `Fixnum::build_with_checked` of a big integer.
  abbrev pub fixnum_or : Option Fixnum → n.Integer → Number
  fixnum_or (some x) big = fixnum x
  fixnum_or none big = integer big

  abbrev pub in_fixnum_range : n.F64 → Bool
  in_fixnum_range f =
      is_le (a.f64_compare (a.f64_of_i64 (negsuc (2 ^ 55 - 1))) f)
      && is_le (a.f64_compare f (a.f64_of_i64 (pos (2 ^ 55 - 1))))

  unfoldable pub rnd_i : Number → Result EvalError Number
  unfolding build_with_checked build_with_unchecked classify_float
  rnd_i (integer i) = ok (fixnum_or (build_with_checked (a.value i)) i)
  rnd_i (fixnum x) = ok (fixnum x)
  rnd_i (float f) =
      if in_fixnum_range (a.f64_floor f)
      then ok (fixnum (build_with_unchecked (a.i64_of_f64 (a.f64_floor f))))
      else (do g ← classify_float (a.f64_floor f); ok (integer (a.int_of_f64 g)))
  rnd_i (rational r) = ok (fixnum_or (build_with_checked (a.value (a.rat_floor r))) (a.rat_floor r))

  abbrev pub or_todo : Result EvalError Number → Option Number
  or_todo (ok x) = some x
  or_todo (err e) = none

  -- `none` is the panic of `todo!`.
  unfoldable pub floor : Number → Option Number
  unfolding rnd_i
  floor x = or_todo (rnd_i x)

  abbrev pub neg_result : Option Number → Option Number
  unfolding neg
  neg_result (some x) = some (neg x)
  neg_result none = none

  unfoldable pub ceiling : Number → Option Number
  unfolding floor neg_result
  ceiling x = neg_result (floor (neg x))

  unfoldable pub truncate : Number → Option Number
  unfolding floor neg_result abs is_negative
  truncate x = if is_negative x then neg_result (floor (abs x)) else floor x

  abbrev pub rounded : Number → Number
  rounded (rational r) = integer (a.rat_round r)
  rounded (float f) = float (a.f64_round f)
  rounded x = x

  unfoldable pub round : Number → Result ArithmeticError Number
  unfolding rnd_i
  round x = try_numeric_result (rnd_i (rounded x)) (codes "round", 1)
