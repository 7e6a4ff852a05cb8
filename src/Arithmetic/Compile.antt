-- ===== src/Arithmetic/Compile.antt =====
-- The instructions of arithmetic: their choice in src/arithmetic.rs, and what they compute in
-- src/machine/dispatch.rs.
pub mod Agreement
use contrib_scryer_prolog.Base.{Option, none, some, if◌then◌else◌}
use contrib_scryer_prolog.Base.Text.{Text, codes, text_eq}
use contrib_scryer_prolog.Numerics.{Numerics}
use contrib_scryer_prolog.Arithmetic.Interface.{
  Arithmetic, sin_fn, cos_fn, tan_fn, log_fn, exp_fn, asin_fn, acos_fn, atan_fn, fract_fn, trunc_fn,
}
use contrib_scryer_prolog.Arithmetic.Number.{
  Number, rational, Result, ok, err, ◌>>=◌, ArithmeticError, Stub, sign,
}
use contrib_scryer_prolog.Arithmetic.Float.{div, to_float, float_fn, sqrt, atan2}
use contrib_scryer_prolog.Arithmetic.Sum.{add, sub, mul, neg, abs}
use contrib_scryer_prolog.Arithmetic.Division.{
  rational_from_number, rdiv, idiv, int_floor_div, modulus, remainder,
}
use contrib_scryer_prolog.Arithmetic.Bitwise.{shr, shl, and, or, xor, bitwise_complement}
use contrib_scryer_prolog.Arithmetic.Gcd.{gcd}
use contrib_scryer_prolog.Arithmetic.Power.{pow, int_pow}
use contrib_scryer_prolog.Arithmetic.Rounding.{truncate, round, ceiling, floor}
use contrib_scryer_prolog.Arithmetic.Order.{max, min}
use contrib_scryer_prolog.Arithmetic.Eval.{
  Evaluated, done, raised, of_result, of_option, of_shift, of_eval, of_float,
}

-- The instructions with one operand and a target, by their names; the registers are left out.
pub data UnaryInstr : Type 0 where
  abs_op neg_op plus_op cos_op sin_op tan_op log_op exp_op sqrt_op acos_op asin_op atan_op float_op
        truncate_op round_op ceiling_op floor_op float_integer_part_op float_fractional_part_op
        sign_op bitwise_complement_op :
      UnaryInstr

pub data BinaryInstr : Type 0 where
  add_op sub_op div_op idiv_op max_op min_op int_floor_div_op rdiv_op mul_op pow_op int_pow_op
        shr_op shl_op and_op or_op xor_op mod_op rem_op gcd_op atan2_op :
      BinaryInstr

-- `none` is the error `NonEvaluableFunctor` of the name and its arity.
unfoldable pub get_unary_instr : Text → Option UnaryInstr
get_unary_instr name =
    if text_eq name (codes "abs")
    then some abs_op
    else if text_eq name (codes "-")
    then some neg_op
    else if text_eq name (codes "+")
    then some plus_op
    else if text_eq name (codes "cos")
    then some cos_op
    else if text_eq name (codes "sin")
    then some sin_op
    else if text_eq name (codes "tan")
    then some tan_op
    else if text_eq name (codes "log")
    then some log_op
    else if text_eq name (codes "exp")
    then some exp_op
    else if text_eq name (codes "sqrt")
    then some sqrt_op
    else if text_eq name (codes "acos")
    then some acos_op
    else if text_eq name (codes "asin")
    then some asin_op
    else if text_eq name (codes "atan")
    then some atan_op
    else if text_eq name (codes "float")
    then some float_op
    else if text_eq name (codes "truncate")
    then some truncate_op
    else if text_eq name (codes "round")
    then some round_op
    else if text_eq name (codes "ceiling")
    then some ceiling_op
    else if text_eq name (codes "floor")
    then some floor_op
    else if text_eq name (codes "float_integer_part")
    then some float_integer_part_op
    else if text_eq name (codes "float_fractional_part")
    then some float_fractional_part_op
    else if text_eq name (codes "sign")
    then some sign_op
    else if text_eq name (codes "\\")
    then some bitwise_complement_op
    else none

unfoldable pub get_binary_instr : Text → Option BinaryInstr
get_binary_instr name =
    if text_eq name (codes "+")
    then some add_op
    else if text_eq name (codes "-")
    then some sub_op
    else if text_eq name (codes "/")
    then some div_op
    else if text_eq name (codes "//")
    then some idiv_op
    else if text_eq name (codes "max")
    then some max_op
    else if text_eq name (codes "min")
    then some min_op
    else if text_eq name (codes "div")
    then some int_floor_div_op
    else if text_eq name (codes "rdiv")
    then some rdiv_op
    else if text_eq name (codes "*")
    then some mul_op
    else if text_eq name (codes "**")
    then some pow_op
    else if text_eq name (codes "^")
    then some int_pow_op
    else if text_eq name (codes ">>")
    then some shr_op
    else if text_eq name (codes "<<")
    then some shl_op
    else if text_eq name (codes "/\\")
    then some and_op
    else if text_eq name (codes "\\/")
    then some or_op
    else if text_eq name (codes "xor")
    then some xor_op
    else if text_eq name (codes "mod")
    then some mod_op
    else if text_eq name (codes "rem")
    then some rem_op
    else if text_eq name (codes "gcd")
    then some gcd_op
    else if text_eq name (codes "atan2")
    then some atan2_op
    else none

module _ ⦃n : Numerics⦄ ⦃a : Arithmetic⦄ where
  -- `get_rational` of the two operands; the source spells the name with its parentheses.
  abbrev pub rdiv_stub : Stub
  rdiv_stub = (codes "(rdiv)", 2)

  unfoldable pub rdiv_rationals : Number → Number → Result ArithmeticError Number
  unfolding rational_from_number rdiv
  rdiv_rationals x y = do
    r ← rational_from_number x rdiv_stub
    s ← rational_from_number y rdiv_stub
    q ← rdiv r s
    ok (rational q)

  -- What an instruction writes to its target, from the numbers of its operands.
  unfoldable pub execute_unary : UnaryInstr → Number → Evaluated Number
  unfolding neg float_fn sqrt abs to_float truncate round ceiling floor bitwise_complement sign
  execute_unary abs_op x = done (abs x)
  execute_unary neg_op x = done (neg x)
  execute_unary plus_op x = done x
  execute_unary cos_op x = of_float (float_fn cos_fn x)
  execute_unary sin_op x = of_float (float_fn sin_fn x)
  execute_unary tan_op x = of_float (float_fn tan_fn x)
  execute_unary log_op x = of_float (float_fn log_fn x)
  execute_unary exp_op x = of_float (float_fn exp_fn x)
  execute_unary sqrt_op x = of_float (sqrt x)
  execute_unary acos_op x = of_float (float_fn acos_fn x)
  execute_unary asin_op x = of_float (float_fn asin_fn x)
  execute_unary atan_op x = of_float (float_fn atan_fn x)
  execute_unary float_op x = of_float (to_float x)
  execute_unary truncate_op x = of_option (truncate x)
  execute_unary round_op x = of_result (round x)
  execute_unary ceiling_op x = of_option (ceiling x)
  execute_unary floor_op x = of_option (floor x)
  execute_unary float_integer_part_op x = of_float (float_fn trunc_fn x)
  execute_unary float_fractional_part_op x = of_float (float_fn fract_fn x)
  execute_unary sign_op x = done (sign x)
  execute_unary bitwise_complement_op x = of_result (bitwise_complement x)

  unfoldable pub execute_binary : BinaryInstr → Number → Number → Evaluated Number
  unfolding add sub mul div pow int_pow max min rdiv_rationals idiv int_floor_div shr shl and or xor
      modulus remainder atan2 gcd
  execute_binary add_op x y = of_eval (add x y)
  execute_binary sub_op x y = of_eval (sub x y)
  execute_binary div_op x y = of_result (div x y)
  execute_binary idiv_op x y = of_result (idiv x y)
  execute_binary max_op x y = of_result (max x y)
  execute_binary min_op x y = of_result (min x y)
  execute_binary int_floor_div_op x y = of_result (int_floor_div x y)
  execute_binary rdiv_op x y = of_result (rdiv_rationals x y)
  execute_binary mul_op x y = of_eval (mul x y)
  execute_binary pow_op x y = of_result (pow x y (codes "**"))
  execute_binary int_pow_op x y = of_result (int_pow x y)
  execute_binary shr_op x y = of_shift (shr x y)
  execute_binary shl_op x y = of_shift (shl x y)
  execute_binary and_op x y = of_result (and x y)
  execute_binary or_op x y = of_result (or x y)
  execute_binary xor_op x y = of_result (xor x y)
  execute_binary mod_op x y = of_result (modulus x y)
  execute_binary rem_op x y = of_result (remainder x y)
  execute_binary gcd_op x y = of_result (gcd x y)
  execute_binary atan2_op x y = of_float (atan2 x y)
