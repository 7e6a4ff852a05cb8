-- ===== src/Arithmetic/Division.antt =====
-- `rational_from_number`, `rdiv`, `idiv`, `modulus`, `remainder` and `int_floor_div` of
-- src/machine/arithmetic_ops.rs.
pub mod Exact
pub mod Floor
pub mod Errors
use contrib_scryer_prolog.Base.{ℕ, Bool, true, false, Option, none, some, if◌then◌else◌}
use contrib_scryer_prolog.Base.Text.{Text, codes}
use contrib_scryer_prolog.Base.Int.{ℤ, pos, negsuc, is_zero, is_neg, nat_abs, div_ℤ, rem_ℤ}
use contrib_scryer_prolog.Numerics.{Numerics}
use contrib_scryer_prolog.Ast.Fixnum.{Fixnum, get_num}
use contrib_scryer_prolog.Arithmetic.Interface.{Arithmetic}
use contrib_scryer_prolog.Arithmetic.Number.{
  Number, float, integer, rational, fixnum, zero_divisor, integer_type, Result, ok, err, ◌>>=◌,
  ArithmeticError, evaluation, type_error, instantiation, Stub, try_numeric_result, checked, or_big,
  from_i64, int_of,
}
use contrib_scryer_prolog.Arithmetic.Sum.{sub}

module _ ⦃n : Numerics⦄ ⦃a : Arithmetic⦄ where
  unfoldable pub rational_from_number : Number → Stub → Result ArithmeticError n.Rational
  rational_from_number (fixnum x) stub = ok (a.rat_from (int_of x))
  rational_from_number (rational r) stub = ok r
  rational_from_number (float f) stub = elim (a.rat_of_float f) [
    | some r ↦ ok r
    | none ↦ err (instantiation stub)
  ]
  rational_from_number (integer i) stub = ok (a.rat_from i)

  unfoldable pub rdiv : n.Rational → n.Rational → Result ArithmeticError n.Rational
  rdiv r s =
      if a.rat_is_zero s
      then err (evaluation zero_divisor (codes "rdiv", 2))
      else ok (a.rat_div r s)

  -- A division by an integer, where it is not zero.
  abbrev pub unless_zero : Text → ℤ → Number → Result ArithmeticError Number
  unless_zero name divisor result =
      if is_zero divisor then err (evaluation zero_divisor (name, 2)) else ok result

  -- `checked_div` of `i64`, with a divisor that is not zero.
  abbrev pub quotient_fixnums : Fixnum → Fixnum → Number
  unfolding div_ℤ checked or_big
  quotient_fixnums x y =
      or_big (checked (div_ℤ (get_num x) (get_num y))) (a.int_div (int_of x) (int_of y))

  -- The type error names the operand that is no integer, the second one first if the first is one.
  abbrev pub not_integers : Text → Number → Number → Result ArithmeticError Number
  not_integers name (fixnum _) y = err (type_error integer_type y (name, 2))
  not_integers name (integer _) y = err (type_error integer_type y (name, 2))
  not_integers name x y = err (type_error integer_type x (name, 2))

  unfoldable pub idiv : Number → Number → Result ArithmeticError Number
  unfolding quotient_fixnums
  idiv (fixnum x) (fixnum y) = unless_zero (codes "//") (get_num y) (quotient_fixnums x y)
  idiv (fixnum x) (integer j) =
      unless_zero (codes "//") (a.value j) (integer (a.int_div (int_of x) j))
  idiv (integer i) (fixnum y) =
      unless_zero (codes "//") (get_num y) (integer (a.int_div i (int_of y)))
  idiv (integer i) (integer j) = unless_zero (codes "//") (a.value j) (integer (a.int_div i j))
  idiv x y = not_integers (codes "//") x y

  -- `unsigned_result + n2`, for a negative `n2`.
  unfoldable pub ibig_rem_floor : n.Integer → n.Integer → n.Integer
  ibig_rem_floor i j =
      let unsigned_result : n.Integer = a.int_residue i (nat_abs (a.value j)) in
      if is_neg (a.value j)
      then (if is_zero (a.value unsigned_result)
          then unsigned_result
          else a.int_add unsigned_result j)
      else unsigned_result

  unfoldable pub modulus : Number → Number → Result ArithmeticError Number
  unfolding ibig_rem_floor from_i64
  modulus (fixnum x) (fixnum y) =
      unless_zero (codes "mod") (get_num y) (from_i64 (a.rem_floor (get_num x) (get_num y)))
  modulus (fixnum x) (integer j) =
      unless_zero (codes "mod") (a.value j) (integer (ibig_rem_floor (int_of x) j))
  modulus (integer i) (fixnum y) =
      unless_zero (codes "mod") (get_num y) (integer (ibig_rem_floor i (int_of y)))
  modulus (integer i) (integer j) =
      unless_zero (codes "mod") (a.value j) (integer (ibig_rem_floor i j))
  modulus x y = not_integers (codes "mod") x y

  unfoldable pub remainder : Number → Number → Result ArithmeticError Number
  unfolding rem_ℤ from_i64
  remainder (fixnum x) (fixnum y) =
      unless_zero (codes "rem") (get_num y) (from_i64 (rem_ℤ (get_num x) (get_num y)))
  remainder (fixnum x) (integer j) =
      unless_zero (codes "rem") (a.value j) (integer (a.int_rem (int_of x) j))
  remainder (integer i) (fixnum y) =
      unless_zero (codes "rem") (get_num y) (integer (a.int_rem i (int_of y)))
  remainder (integer i) (integer j) =
      unless_zero (codes "rem") (a.value j) (integer (a.int_rem i j))
  remainder x y = not_integers (codes "rem") x y

  unfoldable pub int_floor_div : Number → Number → Result ArithmeticError Number
  unfolding modulus sub idiv
  int_floor_div x y = do
    m ← modulus x y
    x' ← try_numeric_result (sub x m) (codes "div", 2)
    idiv x' y
