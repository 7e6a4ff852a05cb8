-- ===== src/Example/Arithmetic/Tests.antt =====
-- Runs of arithmetic on numbers of both representations, and the theorems at concrete inputs.
use contrib_scryer_prolog.Base.{false, [], ◌∷◌, ℕ, ◌≡◌, refl, none, some, ◌-◌, ◌^◌, arith}
use contrib_scryer_prolog.Base.Text.{codes}
use contrib_scryer_prolog.Base.Int.{
  pos, negsuc, neg_ℤ, ◌+ℤ◌, ◌*ℤ◌, div_ℤ, rem_ℤ, mod_floor, residue, nat_abs,
}
use contrib_scryer_prolog.Base.Int.Division.{div_floor}
use contrib_scryer_prolog.Base.Int.Power.{pow_ℤ}
use contrib_scryer_prolog.Ast.Fixnum.{build_with_unchecked, get_num}
use contrib_scryer_prolog.Arithmetic.Number.{
  Number, float, rational, integer, fixnum, integer_value, ok, err, is_integer, is_negative,
  evaluation, zero_divisor, type_error, integer_type, float_type, checked, in_i64,
}
use contrib_scryer_prolog.Arithmetic.Sum.{add, neg, abs, sub, mul}
use contrib_scryer_prolog.Arithmetic.Sum.Exact.{Gives, ring-exact}
use contrib_scryer_prolog.Arithmetic.Division.{idiv, modulus, remainder, int_floor_div}
use contrib_scryer_prolog.Arithmetic.Division.Exact.{Yields}
use contrib_scryer_prolog.Arithmetic.Division.Floor.{division-exact}
use contrib_scryer_prolog.Arithmetic.Division.Errors.{division_by_zero}
use contrib_scryer_prolog.Arithmetic.Bitwise.Errors.{type_errors}
use contrib_scryer_prolog.Arithmetic.Bitwise.{
  checked_shl, checked_signed_shl, and, or, xor, shr, shl, shift_left, shift_right,
}
use contrib_scryer_prolog.Arithmetic.Bitwise.Shift.{shift_left-exact, shift_right-exact, shr-shl}
use contrib_scryer_prolog.Arithmetic.Gcd.{
  gcd, isize_gcd, binary_gcd, common_twos, subtract_loop, strip_twos,
}
use contrib_scryer_prolog.Arithmetic.Gcd.Divisors.{IsGcd}
use contrib_scryer_prolog.Arithmetic.Gcd.Exact.{gcd-IsGcd}
use contrib_scryer_prolog.Arithmetic.Power.{int_pow}
use contrib_scryer_prolog.Arithmetic.Power.Exact.{int_pow-exact, int_pow-error}
use contrib_scryer_prolog.Arithmetic.Order.{cmp, max, min, compare_ℤ}
use contrib_scryer_prolog.Arithmetic.Order.Exact.{order-exact}
use contrib_scryer_prolog.Arithmetic.Eval.{arith_eval_by_metacall}
use contrib_scryer_prolog.Arithmetic.Eval.Tree.{
  Expression, compound, number, more_args, no_args, post_order, evaluate,
  arith_eval_by_metacall-post_order,
}
use contrib_scryer_prolog.Arithmetic.Eval.{unary, binary}
use contrib_scryer_prolog.Ast.Term.{
  Literal, Term, clause, literal, var, named, more_terms, no_terms, terms_length,
}
use contrib_scryer_prolog.Arithmetic.Iterator.{
  ArithTermRef, items, items_from, rounds, pop_state, subterm_to_state, subterm, child_level,
  literal_ref, var_ref, op_ref, deep, shallow, complete,
}
use contrib_scryer_prolog.Arithmetic.Iterator.PostOrder
use contrib_scryer_prolog.Arithmetic.Iterator.PostOrder.{items-post_order}
use contrib_scryer_prolog.Arithmetic.Compile.{get_unary_instr, get_binary_instr}
use contrib_scryer_prolog.Arithmetic.Compile.Agreement.{
  compiled_unary, compiled_binary, without_context, execute_unary_lem, execute_binary_lem,
}
use contrib_scryer_prolog.Example.{decimal_numerics}
use contrib_scryer_prolog.Example.Arithmetic.{plain_arithmetic}

-- The largest and the smallest fixnum, and two small ones.
abbrev largest : Number
largest = fixnum (build_with_unchecked (pos (2 ^ 55 - 1)))

abbrev smallest : Number
smallest = fixnum (build_with_unchecked (negsuc (2 ^ 55 - 1)))

abbrev minus_seven : Number
minus_seven = fixnum (build_with_unchecked (negsuc 6))

abbrev two : Number
two = fixnum (build_with_unchecked (pos 2))

abbrev nothing : Number
nothing = fixnum (build_with_unchecked (pos 0))

abbrev seventy : Number
seventy = fixnum (build_with_unchecked (pos 70))

abbrev sixty_four : Number
sixty_four = fixnum (build_with_unchecked (pos 64))

-- An integer that is no machine word.
abbrev huge : Number
unfolding decimal_numerics
huge = integer (pos (2 ^ 70))

ring-exact_example :
    Gives (add smallest huge) (negsuc (2 ^ 55 - 1) +ℤ pos (2 ^ 70))
    × Gives (sub smallest huge) (negsuc (2 ^ 55 - 1) +ℤ neg_ℤ (pos (2 ^ 70)))
    × Gives (mul smallest huge) (negsuc (2 ^ 55 - 1) *ℤ pos (2 ^ 70))
    × (integer_value (neg smallest) ≡ some (neg_ℤ (negsuc (2 ^ 55 - 1))))
    × (integer_value (abs smallest) ≡ some (pos (nat_abs (negsuc (2 ^ 55 - 1)))))
unfolding integer_value get_num build_with_unchecked decimal_numerics plain_arithmetic
ring-exact_example = ring-exact smallest huge (negsuc (2 ^ 55 - 1)) (pos (2 ^ 70)) refl refl

division-exact_example :
    Yields (idiv minus_seven two) (div_ℤ (negsuc 6) (pos 2))
    × Yields (remainder minus_seven two) (rem_ℤ (negsuc 6) (pos 2))
    × Yields (modulus minus_seven two) (mod_floor (negsuc 6) (pos 2))
    × Yields (int_floor_div minus_seven two) (div_floor (negsuc 6) (pos 2))
unfolding integer_value get_num build_with_unchecked decimal_numerics plain_arithmetic
division-exact_example = division-exact minus_seven two (negsuc 6) (pos 2) refl refl refl

-- The results of the example's divisions, from -7 and 2.
divisions :
    (div_ℤ (negsuc 6) (pos 2) ≡ negsuc 2)
    × (rem_ℤ (negsuc 6) (pos 2) ≡ negsuc 0)
    × (mod_floor (negsuc 6) (pos 2) ≡ pos 1)
    × (div_floor (negsuc 6) (pos 2) ≡ negsuc 3)
unfolding div_ℤ rem_ℤ mod_floor residue div_floor
divisions = (refl, refl, refl, refl)

gcd_run : binary_gcd 12 18 ≡ 6
unfolding binary_gcd common_twos subtract_loop strip_twos
gcd_run = refl

gcd_zero_run : isize_gcd (negsuc 4) (pos 0) ≡ some (pos 5)
unfolding isize_gcd checked in_i64
gcd_zero_run = refl

shl_run : checked_signed_shl (negsuc 0) 55 ≡ some (negsuc (2 ^ 55 - 1))
unfolding checked_signed_shl checked_shl checked in_i64
shl_run = refl

-- A word with its sign has 63 binary digits for the magnitude.
shl_overflow_run : checked_signed_shl (pos 2) 62 ≡ none
unfolding checked_signed_shl checked_shl
shl_overflow_run = refl

division_by_zero_example :
    (idiv huge nothing ≡ err (evaluation zero_divisor (codes "//", 2)))
    × (remainder huge nothing ≡ err (evaluation zero_divisor (codes "rem", 2)))
    × (modulus huge nothing ≡ err (evaluation zero_divisor (codes "mod", 2)))
    × (int_floor_div huge nothing ≡ err (evaluation zero_divisor (codes "mod", 2)))
unfolding integer_value get_num build_with_unchecked decimal_numerics plain_arithmetic
division_by_zero_example = division_by_zero huge nothing (pos (2 ^ 70)) (pos 0) refl refl refl

-- A rational, which is no integer.
abbrev half : Number
unfolding decimal_numerics
half = rational (pos 1, 2)

-- 1.5
abbrev one_and_half : Number
unfolding decimal_numerics
one_and_half = float (false, codes "1.5")

type_errors_example :
    (idiv half one_and_half ≡ err (type_error integer_type half (codes "//", 2)))
    × (modulus half one_and_half ≡ err (type_error integer_type half (codes "mod", 2)))
    × (remainder half one_and_half ≡ err (type_error integer_type half (codes "rem", 2)))
    × (int_floor_div half one_and_half ≡ err (type_error integer_type half (codes "mod", 2)))
    × (and half one_and_half ≡ err (type_error integer_type half (codes "/\\", 2)))
    × (or half one_and_half ≡ err (type_error integer_type half (codes "\\/", 2)))
    × (xor half one_and_half ≡ err (type_error integer_type half (codes "xor", 2)))
    × (shr half one_and_half ≡ some (err (type_error integer_type half (codes ">>", 2))))
    × (shl half one_and_half ≡ some (err (type_error integer_type one_and_half (codes "<<", 2))))
    × (gcd half one_and_half ≡ err (type_error integer_type one_and_half (codes "gcd", 2)))
unfolding is_integer half one_and_half decimal_numerics
type_errors_example = type_errors half one_and_half half one_and_half refl refl

-- A negative shift is done, and blamed, in the name of the opposite shift.
shr_type_run : shr half minus_seven ≡ some (err (type_error integer_type half (codes "<<", 2)))
unfolding shr half is_integer is_negative decimal_numerics plain_arithmetic get_num
    build_with_unchecked neg
shr_type_run = refl

shift_left-exact_example : Yields (shift_left minus_seven two) (negsuc 6 *ℤ pos (2 ^ 2))
unfolding integer_value get_num build_with_unchecked decimal_numerics plain_arithmetic
shift_left-exact_example = shift_left-exact minus_seven two (negsuc 6) 2 refl refl (omega arith)

shift_right-exact_example : Yields (shift_right minus_seven sixty_four) (pos 0)
unfolding integer_value get_num build_with_unchecked decimal_numerics plain_arithmetic
shift_right-exact_example =
    shift_right-exact minus_seven sixty_four (negsuc 6) 64 refl refl (omega arith)

shr-shl_example :
    (shr two minus_seven ≡ some (shift_left two (neg minus_seven)))
    × (shl two minus_seven ≡ some (shift_right two (neg minus_seven)))
unfolding is_integer is_negative get_num build_with_unchecked decimal_numerics plain_arithmetic
shr-shl_example = shr-shl two minus_seven

gcd-IsGcd_example :
    (d : ℕ) × (z : Number) × (gcd
        (fixnum (build_with_unchecked (negsuc 11)))
        (fixnum (build_with_unchecked (pos 18)))
      ≡ ok z)
    × (integer_value z ≡ some (pos d))
    × IsGcd d
        (nat_abs (get_num (build_with_unchecked (negsuc 11))))
        (nat_abs (get_num (build_with_unchecked (pos 18))))
gcd-IsGcd_example = gcd-IsGcd (build_with_unchecked (negsuc 11)) (build_with_unchecked (pos 18))

int_pow-exact_example : Yields (int_pow minus_seven seventy) (pow_ℤ (negsuc 6) 70)
unfolding integer_value get_num build_with_unchecked decimal_numerics plain_arithmetic
int_pow-exact_example = int_pow-exact minus_seven seventy (negsuc 6) (pos 70) refl refl refl refl

int_pow-error_example : int_pow two minus_seven ≡ err (type_error float_type two (codes "^", 2))
unfolding integer_value get_num build_with_unchecked decimal_numerics plain_arithmetic
int_pow-error_example = int_pow-error two minus_seven (pos 2) (negsuc 6) refl refl refl refl

order-exact_example :
    (cmp minus_seven huge ≡ compare_ℤ (negsuc 6) (pos (2 ^ 70)))
    × Yields (max minus_seven huge) (pos (2 ^ 70))
    × Yields (min minus_seven huge) (negsuc 6)
unfolding integer_value get_num build_with_unchecked decimal_numerics plain_arithmetic
order-exact_example = order-exact minus_seven huge (negsuc 6) (pos (2 ^ 70)) refl refl

-- `-7 // 2 + 2`
abbrev expression : Expression
expression = compound (codes "+") (
    more_args
      (compound (codes "//") (more_args (number minus_seven) (more_args (number two) no_args)))
      (more_args (number two) no_args))

arith_eval_by_metacall-post_order_example :
    arith_eval_by_metacall (post_order expression) ≡ evaluate expression
arith_eval_by_metacall-post_order_example = arith_eval_by_metacall-post_order expression

-- `1 + X`
abbrev sum_term : Term
sum_term = clause (codes "+") (
    more_terms (literal (Literal.fixnum (build_with_unchecked (pos 1))))
      (more_terms (var (named (codes "X"))) no_terms))

abbrev one_ref : ArithTermRef
one_ref = literal_ref (Literal.fixnum (build_with_unchecked (pos 1)))

items_run :
    items sum_term
    ≡ (one_ref ∷ var_ref deep (named (codes "X")) ∷ op_ref shallow (codes "+") 2 ∷ [], complete)
unfolding items items_from rounds pop_state subterm_to_state subterm terms_length child_level
items_run = refl

items-post_order_example : items sum_term ≡ PostOrder.post_order shallow sum_term
items-post_order_example = items-post_order sum_term

execute_unary_lem_example :
    compiled_unary (codes "abs") minus_seven (get_unary_instr (codes "abs"))
    ≡ unary (codes "abs") minus_seven
execute_unary_lem_example = execute_unary_lem (codes "abs") minus_seven

execute_binary_lem_example :
    without_context (compiled_binary (codes "mod") minus_seven two (get_binary_instr (codes "mod")))
    ≡ without_context (binary (codes "mod") minus_seven two)
execute_binary_lem_example = execute_binary_lem (codes "mod") minus_seven two
