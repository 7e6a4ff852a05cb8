-- ===== src/Arithmetic/Number.antt =====
-- `Number` of src/forms.rs, the errors of src/machine/machine_errors.rs that arithmetic raises, and
-- the `i64` operations that report an overflow.
use contrib_scryer_prolog.Base.{
  ℕ, ◌-◌, ◌^◌, Bool, true, false, not, ◌&&◌, Option, none, some, leb, if◌then◌else◌,
}
use contrib_scryer_prolog.Base.Text.{Text}
use contrib_scryer_prolog.Base.Int.{ℤ, pos, negsuc, is_neg, is_zero}
use contrib_scryer_prolog.Numerics.{Numerics}
use contrib_scryer_prolog.Ast.Fixnum.{Fixnum, build_with_checked, build_with_unchecked, get_num}
use contrib_scryer_prolog.Arithmetic.Interface.{Arithmetic}

pub data EvalError : Type 0 where
  float_overflow undefined zero_divisor : EvalError

-- Those of `ValidType` that arithmetic names.
pub data ValidType : Type 0 where
  float_type integer_type evaluable_type : ValidType

-- `-2^63 ..= 2^63 - 1`
unfoldable pub in_i64 : ℤ → Bool
in_i64 (pos k) = leb k (2 ^ 63 - 1)
in_i64 (negsuc k) = leb k (2 ^ 63 - 1)

-- The result of a checked `i64` operation whose exact result is `v`.
unfoldable pub checked : ℤ → Option ℤ
unfolding in_i64
checked v = if in_i64 v then some v else none

module _ ⦃n : Numerics⦄ where
  pub data Number : Type 0 where
    float : n.F64 → Number
    integer : n.Integer → Number
    rational : n.Rational → Number
    fixnum : Fixnum → Number

  -- The functor of the predicate that raises the error: its name and arity.
  abbrev pub Stub : Type 0
  Stub = Text × ℕ

  -- What the source raises, before it is written to the heap.
  pub data ArithmeticError : Type 0 where
    evaluation : EvalError → Stub → ArithmeticError
    type_error : ValidType → Number → Stub → ArithmeticError
    evaluable : Text → ℕ → Stub → ArithmeticError
    not_evaluable : Stub → ArithmeticError
    instantiation : Stub → ArithmeticError

  pub data Result {ℓ} (E : Type 0) (A : Type ℓ) : Type ℓ where
    ok : A → Result E A
    err : E → Result E A

  infixl 5 ◌>>=◌
  abbrev pub ◌>>=◌ : {E A B : Type 0} → Result E A → (A → Result E B) → Result E B
  ok a >>= f = f a
  err e >>= f = err e

  -- `try_numeric_result!`
  abbrev pub try_numeric_result :
      {A : Type 0} → Result EvalError A → Stub → Result ArithmeticError A
  try_numeric_result (ok a) stub = ok a
  try_numeric_result (err e) stub = err (evaluation e stub)

  -- `fixnum!`, and `ArenaFrom<i64>`, which computes the same.
  unfoldable pub from_i64 : ℤ → Number
  unfolding build_with_checked
  from_i64 v = elim (build_with_checked v) [ some x ↦ fixnum x | none ↦ integer (n.int_from v) ]

  -- The result of a checked operation, or that of the big integers.
  unfoldable pub or_big : Option ℤ → n.Integer → Number
  unfolding from_i64
  or_big (some v) big = from_i64 v
  or_big none big = integer big

  -- `Integer::from` a `Fixnum`
  abbrev pub int_of : Fixnum → n.Integer
  int_of x = n.int_from (get_num x)

  unfoldable pub is_integer : Number → Bool
  is_integer (fixnum x) = true
  is_integer (integer i) = true
  is_integer _ = false

  module _ ⦃a : Arithmetic⦄ where
    unfoldable pub is_positive : Number → Bool
    is_positive (fixnum x) = not (is_neg (get_num x)) && not (is_zero (get_num x))
    is_positive (integer i) = not (is_neg (a.value i)) && not (is_zero (a.value i))
    is_positive (float x) = not (a.f64_sign_negative x)
    is_positive (rational r) = a.rat_is_positive r

    unfoldable pub is_negative : Number → Bool
    is_negative (fixnum x) = is_neg (get_num x)
    is_negative (integer i) = is_neg (a.value i)
    is_negative (float x) = a.f64_sign_negative x && not (a.f64_eq x a.f64_zero)
    is_negative (rational r) = a.rat_is_negative r

    unfoldable pub is_zero_number : Number → Bool
    is_zero_number (fixnum x) = is_zero (get_num x)
    is_zero_number (integer i) = is_zero (a.value i)
    is_zero_number (float x) = a.f64_eq x a.f64_zero
    is_zero_number (rational r) = a.rat_is_zero r

    abbrev pub small : ℤ → Number
    unfolding build_with_unchecked
    small v = fixnum (build_with_unchecked v)

    unfoldable pub sign : Number → Number
    unfolding is_positive is_negative is_zero_number
    sign (float x) = if a.f64_eq x a.f64_zero then float a.f64_zero else float (a.f64_signum x)
    sign x =
        if is_positive x
        then (if is_zero_number x then small (pos 0) else small (pos 1))
        else if is_negative x
        then small (negsuc 0)
        else small (pos 0)

    -- The integer that a number stands for.
    unfoldable pub integer_value : Number → Option ℤ
    integer_value (fixnum x) = some (get_num x)
    integer_value (integer i) = some (a.value i)
    integer_value _ = none
