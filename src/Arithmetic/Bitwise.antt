-- ===== src/Arithmetic/Bitwise.antt =====
-- `shr`, `shl`, `and`, `or`, `xor` and `bitwise_complement` of src/machine/arithmetic_ops.rs.
pub mod Blame
pub mod Errors
pub mod Shift
use Prim.Native.Nat.{bit_and, bit_or, bit_xor}
use contrib_scryer_prolog.Base.{
  ℕ, zero, suc, ◌+◌, ◌-◌, ◌*◌, ◌/◌, ◌%◌, ◌^◌, Bool, true, false, ◌&&◌, Option, none, some, ltb, leb,
  ◌==◌, if◌then◌else◌,
}
use contrib_scryer_prolog.Base.Text.{Text, codes}
use contrib_scryer_prolog.Base.Int.{ℤ, pos, negsuc, neg_ℤ}
use contrib_scryer_prolog.Numerics.{Numerics}
use contrib_scryer_prolog.Ast.Fixnum.{Fixnum, get_num, u64_of_i64, bit_not}
use contrib_scryer_prolog.Arithmetic.Interface.{Arithmetic}
use contrib_scryer_prolog.Arithmetic.Number.{
  Number, float, integer, rational, fixnum, integer_type, Result, ok, err, ArithmeticError,
  type_error, checked, from_i64, int_of, is_integer, is_negative,
}
use contrib_scryer_prolog.Arithmetic.Sum.{neg}
use contrib_scryer_prolog.Arithmetic.Division.{not_integers}

abbrev pub i64_of_u64 : ℕ → ℤ
i64_of_u64 w = if ltb w (2 ^ 63) then pos w else negsuc (2 ^ 64 - 1 - w)

-- A bit operation on two `i64`, by their bit patterns.
abbrev pub on_bits : (ℕ → ℕ → ℕ) → ℤ → ℤ → ℤ
on_bits f x y = i64_of_u64 (f (u64_of_i64 x) (u64_of_i64 y))

-- `x >> k` of an `i64`, which keeps the sign.
abbrev pub shr_i64 : ℤ → ℕ → ℤ
shr_i64 (pos m) k = pos (m / 2 ^ k)
shr_i64 (negsuc m) k = negsuc (m / 2 ^ k)

-- `checked_shr(k).unwrap_or(0)`
abbrev pub shr_or_zero : ℤ → ℕ → ℤ
shr_or_zero x k = if ltb k 64 then shr_i64 x k else pos 0

-- `try_into().unwrap_or(max)` for an unsigned type.
abbrev pub clamp_to : ℕ → ℤ → ℕ
clamp_to max (pos v) = if leb v max then v else max
clamp_to max (negsuc v) = max

-- `x << k` of an `i64` that is not negative, for `k` below 64: the high bits are dropped.
abbrev pub shl_i64 : ℕ → ℕ → ℤ
shl_i64 x k = i64_of_u64 (x * 2 ^ k % 2 ^ 64)

-- For `x >= 0`, `k < x.leading_zeros()` says that `x` has at most `63 - k` binary digits.
unfoldable pub checked_shl : ℕ → ℕ → Option ℤ
checked_shl x k =
    if k == 0
    then some (pos x)
    else if ltb k 64 && ltb x (2 ^ (63 - k))
    then some (shl_i64 x k)
    else none

abbrev pub then_neg : Option ℤ → Option ℤ
unfolding checked
then_neg (some v) = checked (neg_ℤ v)
then_neg none = none

-- For a negative number, the shift of its absolute value, which is an `i64` unless it is -2^63.
unfoldable pub checked_signed_shl : ℤ → ℕ → Option ℤ
unfolding checked_shl then_neg
checked_signed_shl (pos x) k = checked_shl x k
checked_signed_shl (negsuc x) k =
    if k == 0
    then some (negsuc x)
    else if ltb (suc x) (2 ^ 63)
    then then_neg (checked_shl (suc x) k)
    else none

pub data Direction : Type 0 where
  leftward rightward : Direction

abbrev pub opposite : Direction → Direction
opposite leftward = rightward
opposite rightward = leftward

module _ ⦃n : Numerics⦄ ⦃a : Arithmetic⦄ where
  -- The shift as an unsigned number of at most `max`; `none` is no integer.
  abbrev pub amount : ℕ → Number → Option ℕ
  amount max (fixnum y) = some (clamp_to max (get_num y))
  amount max (integer j) = some (clamp_to max (a.value j))
  amount max _ = none

  abbrev pub not_integer : Text → Number → Result ArithmeticError Number
  not_integer name x = err (type_error integer_type x (name, 2))

  abbrev pub with_amount : Text → Number → Option ℕ → (ℕ → Number) → Result ArithmeticError Number
  with_amount name y (some k) f = ok (f k)
  with_amount name y none f = not_integer name y

  -- `shr` after its test of a negative shift: by `u32`, or by `usize` for a big integer.
  unfoldable pub shift_right : Number → Number → Result ArithmeticError Number
  unfolding from_i64
  shift_right (fixnum x) y =
      with_amount (codes ">>") y (amount (2 ^ 32 - 1) y) (λ k. from_i64 (shr_or_zero (get_num x) k))
  shift_right (integer i) y =
      with_amount (codes ">>") y (amount (2 ^ 64 - 1) y) (λ k. integer (a.int_shr i k))
  shift_right x y = not_integer (codes ">>") x

  abbrev pub or_big_shl : Option ℤ → n.Integer → Number
  unfolding from_i64
  or_big_shl (some v) big = from_i64 v
  or_big_shl none big = integer big

  abbrev pub shl_by : Number → ℕ → Result ArithmeticError Number
  unfolding checked_signed_shl or_big_shl
  shl_by (fixnum x) k = ok (or_big_shl (checked_signed_shl (get_num x) k) (a.int_shl (int_of x) k))
  shl_by (integer i) k = ok (integer (a.int_shl i k))
  shl_by x k = not_integer (codes "<<") x

  -- `shl` after its test: here the shift is looked at first.
  abbrev pub shl_amount : Number → Number → Option ℕ → Result ArithmeticError Number
  unfolding shl_by
  shl_amount x y (some k) = shl_by x k
  shl_amount x y none = not_integer (codes "<<") y

  unfoldable pub shift_left : Number → Number → Result ArithmeticError Number
  unfolding shl_amount
  shift_left x y = shl_amount x y (amount (2 ^ 64 - 1) y)

  abbrev pub shift_by : Direction → Number → Number → Result ArithmeticError Number
  unfolding shift_left shift_right
  shift_by leftward x y = shift_left x y
  shift_by rightward x y = shift_right x y

  -- `shr` and `shl` call one another on a negative shift; `none` is a call that is cut off.
  unfoldable pub shift_toward :
      ℕ → Direction → Number → Number → Option (Result ArithmeticError Number)
  unfolding is_integer is_negative neg shift_by
  shift_toward zero d x y = none
  shift_toward (suc calls) d x y = elim (is_integer y && is_negative y) [
    | true ↦ shift_toward calls (opposite d) x (neg y)
    | false ↦ some (shift_by d x y)
  ]

  unfoldable pub shr : Number → Number → Option (Result ArithmeticError Number)
  unfolding shift_toward
  shr = shift_toward 2 rightward

  unfoldable pub shl : Number → Number → Option (Result ArithmeticError Number)
  unfolding shift_toward
  shl = shift_toward 2 leftward

  -- The three operations on bits differ in their names and functions alone.
  unfoldable pub bit_operation :
      Text
      → (ℕ → ℕ → ℕ)
      → (n.Integer → n.Integer → n.Integer)
      → Number
      → Number
      → Result ArithmeticError Number
  unfolding from_i64
  bit_operation name bits big (fixnum x) (fixnum y) =
      ok (from_i64 (on_bits bits (get_num x) (get_num y)))
  bit_operation name bits big (fixnum x) (integer j) = ok (integer (big (int_of x) j))
  bit_operation name bits big (integer i) (fixnum y) = ok (integer (big i (int_of y)))
  bit_operation name bits big (integer i) (integer j) = ok (integer (big i j))
  bit_operation name bits big x y = not_integers name x y

  unfoldable pub and : Number → Number → Result ArithmeticError Number
  unfolding bit_operation
  and = bit_operation (codes "/\\") bit_and a.int_and

  unfoldable pub or : Number → Number → Result ArithmeticError Number
  unfolding bit_operation
  or = bit_operation (codes "\\/") bit_or a.int_or

  unfoldable pub xor : Number → Number → Result ArithmeticError Number
  unfolding bit_operation
  xor = bit_operation (codes "xor") bit_xor a.int_xor

  unfoldable pub bitwise_complement : Number → Result ArithmeticError Number
  unfolding bit_not
  bitwise_complement (fixnum x) = ok (fixnum (bit_not x))
  bitwise_complement (integer i) = ok (integer (a.int_not i))
  bitwise_complement x = not_integer (codes "\\") x
