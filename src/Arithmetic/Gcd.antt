-- ===== src/Arithmetic/Gcd.antt =====
-- `isize_gcd` and `gcd` of src/machine/arithmetic_ops.rs: Stein's algorithm, which divides by two
-- and subtracts.
pub mod Divisors
pub mod Exact
use contrib_scryer_prolog.Base.{
  ℕ, zero, suc, ◌+◌, ◌-◌, ◌*◌, ◌/◌, ◌%◌, ◌^◌, Bool, true, false, ◌&&◌, Option, none, some, ltb,
  ◌==◌, if◌then◌else◌,
}
use contrib_scryer_prolog.Base.Text.{codes}
use contrib_scryer_prolog.Base.Int.{ℤ, pos, is_zero, nat_abs}
use contrib_scryer_prolog.Numerics.{Numerics}
use contrib_scryer_prolog.Ast.Fixnum.{Fixnum, get_num}
use contrib_scryer_prolog.Arithmetic.Interface.{Arithmetic}
use contrib_scryer_prolog.Arithmetic.Number.{
  Number, float, integer, rational, fixnum, integer_type, Result, ok, err, ArithmeticError,
  type_error, checked, or_big, int_of,
}
use contrib_scryer_prolog.Arithmetic.Bitwise.{i64_of_u64}

-- `(x & 1) == 0`
abbrev pub is_even : ℕ → Bool
is_even x = x % 2 == 0

-- `while (x & 1) == 0 { x >>= 1 }`
unfoldable pub strip_twos : ℕ → ℕ → ℕ
strip_twos zero x = x
strip_twos (suc fuel) x = elim (is_even x) [ true ↦ strip_twos fuel (x / 2) | false ↦ x ]

-- The first loop: the two numbers without their common factors of two, and how many there are.
unfoldable pub common_twos : ℕ → ℕ → ℕ → ℕ → ℕ × ℕ × ℕ
common_twos zero x y shift = (x, y, shift)
common_twos (suc fuel) x y shift = elim (is_even x && is_even y) [
  | true ↦ common_twos fuel (x / 2) (y / 2) (shift + 1)
  | false ↦ (x, y, shift)
]

abbrev pub min_of : ℕ → ℕ → ℕ
min_of x y = if ltb y x then y else x

abbrev pub max_of : ℕ → ℕ → ℕ
max_of x y = if ltb y x then x else y

-- The last loop: `x` is odd. The smaller number is kept, and subtracted from the larger one.
unfoldable pub subtract_loop : ℕ → ℕ → ℕ → ℕ
unfolding strip_twos
subtract_loop zero x y = x
subtract_loop (suc fuel) x y =
    let y' = strip_twos y y in
    let rest = subtract_loop fuel (min_of x y') (max_of x y' - min_of x y') in
    if max_of x y' - min_of x y' == 0 then min_of x y' else rest

-- Of two numbers that are not zero. Every round makes one of them smaller, so their sum is fuel
-- enough; a number that is not zero has fewer factors of two than its value.
unfoldable pub binary_gcd : ℕ → ℕ → ℕ
unfolding common_twos subtract_loop
binary_gcd m k =
    let (x, y, shift) = common_twos m m k 0 in
    let x' = strip_twos x x in subtract_loop (x' + y) x' y * 2 ^ shift

-- `n1 << shift`, as the bit pattern that it leaves.
unfoldable pub isize_gcd : ℤ → ℤ → Option ℤ
unfolding checked binary_gcd
isize_gcd m k =
    if is_zero m
    then checked (pos (nat_abs k))
    else if is_zero k
    then checked (pos (nat_abs m))
    else (do
      m' ← checked (pos (nat_abs m))
      k' ← checked (pos (nat_abs k))
      some (i64_of_u64 (binary_gcd (nat_abs m') (nat_abs k') % 2 ^ 64)))
  where
    infixl 5 ◌>>=◌
    ◌>>=◌ : {A B : Type 0} → Option A → (A → Option B) → Option B
    none >>= f = none
    some x >>= f = f x

module _ ⦃n : Numerics⦄ ⦃a : Arithmetic⦄ where
  unfoldable pub gcd : Number → Number → Result ArithmeticError Number
  unfolding isize_gcd or_big
  gcd (fixnum x) (fixnum y) =
      ok (or_big (isize_gcd (get_num x) (get_num y)) (a.int_gcd (int_of x) (int_of y)))
  gcd (fixnum x) (integer j) = ok (integer (a.int_gcd j (int_of x)))
  gcd (integer i) (fixnum y) = ok (integer (a.int_gcd i (int_of y)))
  gcd (integer i) (integer j) = ok (integer (a.int_gcd i j))
  gcd (float f) y = err (type_error integer_type (float f) (codes "gcd", 2))
  gcd x (float g) = err (type_error integer_type (float g) (codes "gcd", 2))
  gcd (rational r) y = err (type_error integer_type (rational r) (codes "gcd", 2))
  gcd x (rational s) = err (type_error integer_type (rational s) (codes "gcd", 2))
