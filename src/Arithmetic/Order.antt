-- ===== src/Arithmetic/Order.antt =====
-- `Ord for Number` of src/arithmetic.rs; `max` and `min` of src/machine/arithmetic_ops.rs.
pub mod Exact
use contrib_scryer_prolog.Base.{ℕ, Bool, true, false, Option, none, some, if◌then◌else◌}
use contrib_scryer_prolog.Base.Text.{codes}
use contrib_scryer_prolog.Base.Int.{ℤ, ltb_ℤ}
use contrib_scryer_prolog.Numerics.{Numerics}
use contrib_scryer_prolog.Ast.Fixnum.{get_num}
use contrib_scryer_prolog.Arithmetic.Interface.{Arithmetic, Order, less, same, greater}
use contrib_scryer_prolog.Arithmetic.Number.{
  Number, float, integer, rational, fixnum, Result, ok, err, ◌>>=◌, ArithmeticError,
  try_numeric_result, int_of,
}
use contrib_scryer_prolog.Arithmetic.Float.{result_f}

-- The order of `i64` and of big integers.
unfoldable pub compare_ℤ : ℤ → ℤ → Order
compare_ℤ x y = if ltb_ℤ x y then less else if ltb_ℤ y x then greater else same

abbrev pub or_less : Option Order → Order
or_less (some o) = o
or_less none = less

module _ ⦃n : Numerics⦄ ⦃a : Arithmetic⦄ where
  unfoldable pub cmp : Number → Number → Order
  unfolding compare_ℤ
  cmp (fixnum x) (fixnum y) = compare_ℤ (get_num x) (get_num y)
  cmp (fixnum x) (integer j) = compare_ℤ (a.value (int_of x)) (a.value j)
  cmp (integer i) (fixnum y) = compare_ℤ (a.value i) (a.value (int_of y))
  cmp (fixnum x) (rational s) = a.rat_compare (a.rat_from (int_of x)) s
  cmp (rational r) (fixnum y) = a.rat_compare r (a.rat_from (int_of y))
  cmp (fixnum x) (float g) = a.f64_compare (a.f64_of_i64 (get_num x)) g
  cmp (float f) (fixnum y) = a.f64_compare f (a.f64_of_i64 (get_num y))
  cmp (integer i) (integer j) = compare_ℤ (a.value i) (a.value j)
  cmp (integer i) (float g) = a.f64_compare (a.f64_of_int i) g
  cmp (float f) (integer j) = a.f64_compare f (a.f64_of_int j)
  cmp (integer i) (rational s) = or_less (a.int_rat_compare i s)
  cmp (rational r) (integer j) = or_less (a.rat_int_compare r j)
  cmp (rational r) (float g) = a.f64_compare (a.f64_of_rat r) g
  cmp (float f) (rational s) = a.f64_compare f (a.f64_of_rat s)
  cmp (float f) (float g) = a.f64_compare f g
  cmp (rational r) (rational s) = a.rat_compare r s

  -- `cmp::max` gives its second argument where the two are equal, `cmp::min` its first.
  abbrev pub by_order : Order → Number → Number → Number → Number
  by_order less x y z = x
  by_order same x y z = y
  by_order greater x y z = z

  abbrev pub max_of_floats : Number → Number → Result ArithmeticError Number
  unfolding result_f
  max_of_floats x y = do
    f1 ← try_numeric_result (result_f x) (codes "max", 2)
    f2 ← try_numeric_result (result_f y) (codes "max", 2)
    ok (by_order (a.f64_compare f1 f2) y (float f2) x)

  unfoldable pub max : Number → Number → Result ArithmeticError Number
  unfolding max_of_floats
  max (fixnum x) (fixnum y) = ok (if ltb_ℤ (get_num y) (get_num x) then fixnum x else fixnum y)
  max (fixnum x) (integer j) = ok (if ltb_ℤ (get_num x) (a.value j) then integer j else fixnum x)
  max (integer i) (fixnum y) = ok (if ltb_ℤ (get_num y) (a.value i) then integer i else fixnum y)
  max (integer i) (integer j) = ok (if ltb_ℤ (a.value j) (a.value i) then integer i else integer j)
  max (rational r) (rational s) =
      ok (by_order (a.rat_compare r s) (rational s) (rational s) (rational r))
  max x y = max_of_floats x y

  abbrev pub min_of_floats : Number → Number → Result ArithmeticError Number
  unfolding result_f
  min_of_floats x y = do
    f1 ← try_numeric_result (result_f x) (codes "min", 2)
    f2 ← try_numeric_result (result_f y) (codes "min", 2)
    ok (by_order (a.f64_compare f1 f2) x (float f1) y)

  unfoldable pub min : Number → Number → Result ArithmeticError Number
  unfolding min_of_floats
  min (fixnum x) (fixnum y) = ok (if ltb_ℤ (get_num x) (get_num y) then fixnum x else fixnum y)
  min (fixnum x) (integer j) = ok (if ltb_ℤ (a.value j) (get_num x) then integer j else fixnum x)
  min (integer i) (fixnum y) = ok (if ltb_ℤ (a.value i) (get_num y) then integer i else fixnum y)
  min (integer i) (integer j) = ok (if ltb_ℤ (a.value j) (a.value i) then integer j else integer i)
  min (rational r) (rational s) =
      ok (by_order (a.rat_compare r s) (rational r) (rational r) (rational s))
  min x y = min_of_floats x y
