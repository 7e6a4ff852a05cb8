-- ===== src/Arithmetic/Eval.antt =====
-- `arith_eval_by_metacall` of src/machine/arithmetic_ops.rs: a stack machine on the cells of a term
-- in post-order. The iterator over the heap (src/heap_iter.rs) is its argument: the list of what it
-- gives.
pub mod Tree
use contrib_scryer_prolog.Base.{
  ℕ, zero, suc, Bool, true, false, Option, none, some, List, [], ◌∷◌, ◌++◌, ◌==◌, if◌then◌else◌,
}
use contrib_scryer_prolog.Base.Text.{Text, codes, text_eq}
use contrib_scryer_prolog.Numerics.{Numerics}
use contrib_scryer_prolog.Arithmetic.Interface.{
  Arithmetic, FloatFn, sin_fn, cos_fn, tan_fn, log_fn, exp_fn, asin_fn, acos_fn, atan_fn, fract_fn,
  trunc_fn,
}
use contrib_scryer_prolog.Arithmetic.Number.{
  Number, float, integer, rational, EvalError, Result, ok, err, ◌>>=◌, ArithmeticError, evaluation,
  evaluable, not_evaluable, instantiation, Stub, try_numeric_result, sign,
}
use contrib_scryer_prolog.Arithmetic.Float.{div, to_float, float_fn, sqrt, atan2}
use contrib_scryer_prolog.Arithmetic.Sum.{add, sub, mul, neg, abs}
use contrib_scryer_prolog.Arithmetic.Division.{
  rational_from_number, rdiv, idiv, int_floor_div, modulus, remainder,
}
use contrib_scryer_prolog.Arithmetic.Bitwise.{shr, shl, and, or, xor, bitwise_complement}
use contrib_scryer_prolog.Arithmetic.Gcd.{gcd}
use contrib_scryer_prolog.Arithmetic.Power.{pow, int_pow}
use contrib_scryer_prolog.Arithmetic.Rounding.{truncate, round, ceiling, floor}
use contrib_scryer_prolog.Arithmetic.Order.{max, min}

module _ ⦃n : Numerics⦄ where
  -- A value, a Prolog error, or a panic of the program.
  pub data Evaluated (A : Type 0) : Type 0 where
    done : A → Evaluated A
    raised : ArithmeticError → Evaluated A
    panicked : Evaluated A

  infixl 5 ◌then◌
  abbrev pub ◌then◌ : {A B : Type 0} → Evaluated A → (A → Evaluated B) → Evaluated B
  done v then k = k v
  raised e then k = raised e
  panicked then k = panicked

  abbrev pub of_result : {A : Type 0} → Result ArithmeticError A → Evaluated A
  of_result (ok v) = done v
  of_result (err e) = raised e

  abbrev pub of_option : {A : Type 0} → Option A → Evaluated A
  of_option (some v) = done v
  of_option none = panicked

  abbrev pub of_shift : Option (Result ArithmeticError Number) → Evaluated Number
  of_shift (some r) = of_result r
  of_shift none = panicked

  abbrev pub is_stub : Stub
  is_stub = (codes "is", 2)

  -- A cell as the iterator gives it. One with the forwarding bit closes a cycle.
  pub data Item : Type 0 where
    functor_item : Text → ℕ → Item
    number_item : Number → Item
    variable_item : Item
    cyclic_item : Text → ℕ → Item
    cyclic_variable : Item
    other_item : Item

  module _ ⦃a : Arithmetic⦄ where
    abbrev pub of_eval : Result EvalError Number → Evaluated Number
    of_eval r = of_result (try_numeric_result r is_stub)

    abbrev pub of_float : Result ArithmeticError n.F64 → Evaluated Number
    of_float r = of_result (do x ← r; ok (float x))

    unfoldable pub rdiv_numbers : Number → Number → Result ArithmeticError Number
    unfolding rational_from_number rdiv
    rdiv_numbers x y = do
      r ← rational_from_number x is_stub
      s ← rational_from_number y is_stub
      q ← rdiv r s
      ok (rational q)

    unfoldable pub binary : Text → Number → Number → Evaluated Number
    unfolding add sub mul div pow int_pow max min rdiv_numbers idiv int_floor_div shr shl and or xor
        modulus remainder atan2 gcd
    binary name x y =
        if text_eq name (codes "+")
        then of_eval (add x y)
        else if text_eq name (codes "-")
        then of_eval (sub x y)
        else if text_eq name (codes "*")
        then of_eval (mul x y)
        else if text_eq name (codes "/")
        then of_result (div x y)
        else if text_eq name (codes "**")
        then of_result (pow x y (codes "is"))
        else if text_eq name (codes "^")
        then of_result (int_pow x y)
        else if text_eq name (codes "max")
        then of_result (max x y)
        else if text_eq name (codes "min")
        then of_result (min x y)
        else if text_eq name (codes "rdiv")
        then of_result (rdiv_numbers x y)
        else if text_eq name (codes "//")
        then of_result (idiv x y)
        else if text_eq name (codes "div")
        then of_result (int_floor_div x y)
        else if text_eq name (codes ">>")
        then of_shift (shr x y)
        else if text_eq name (codes "<<")
        then of_shift (shl x y)
        else if text_eq name (codes "/\\")
        then of_result (and x y)
        else if text_eq name (codes "\\/")
        then of_result (or x y)
        else if text_eq name (codes "xor")
        then of_result (xor x y)
        else if text_eq name (codes "mod")
        then of_result (modulus x y)
        else if text_eq name (codes "rem")
        then of_result (remainder x y)
        else if text_eq name (codes "atan2")
        then of_float (atan2 x y)
        else if text_eq name (codes "gcd")
        then of_result (gcd x y)
        else raised (evaluable name 2 is_stub)

    unfoldable pub unary : Text → Number → Evaluated Number
    unfolding neg float_fn sqrt abs to_float truncate round ceiling floor bitwise_complement sign
    unary name x =
        if text_eq name (codes "-")
        then done (neg x)
        else if text_eq name (codes "+")
        then done x
        else if text_eq name (codes "cos")
        then of_float (float_fn cos_fn x)
        else if text_eq name (codes "sin")
        then of_float (float_fn sin_fn x)
        else if text_eq name (codes "tan")
        then of_float (float_fn tan_fn x)
        else if text_eq name (codes "float_fractional_part")
        then of_float (float_fn fract_fn x)
        else if text_eq name (codes "float_integer_part")
        then of_float (float_fn trunc_fn x)
        else if text_eq name (codes "sqrt")
        then of_float (sqrt x)
        else if text_eq name (codes "log")
        then of_float (float_fn log_fn x)
        else if text_eq name (codes "exp")
        then of_float (float_fn exp_fn x)
        else if text_eq name (codes "acos")
        then of_float (float_fn acos_fn x)
        else if text_eq name (codes "asin")
        then of_float (float_fn asin_fn x)
        else if text_eq name (codes "atan")
        then of_float (float_fn atan_fn x)
        else if text_eq name (codes "abs")
        then done (abs x)
        else if text_eq name (codes "float")
        then of_float (to_float x)
        else if text_eq name (codes "truncate")
        then of_option (truncate x)
        else if text_eq name (codes "round")
        then of_result (round x)
        else if text_eq name (codes "ceiling")
        then of_option (ceiling x)
        else if text_eq name (codes "floor")
        then of_option (floor x)
        else if text_eq name (codes "\\")
        then of_result (bitwise_complement x)
        else if text_eq name (codes "sign")
        then done (sign x)
        else raised (evaluable name 1 is_stub)

    unfoldable pub constant : Text → Evaluated Number
    constant name =
        if text_eq name (codes "pi")
        then done (float a.f64_pi)
        else if text_eq name (codes "e")
        then done (float a.f64_e)
        else if text_eq name (codes "epsilon")
        then done (float a.f64_epsilon)
        else raised (evaluable name 0 is_stub)

    -- An atom with its arity takes its arguments from the top of the stack; `unwrap` panics.
    unfoldable pub apply : Text → ℕ → List Number → Evaluated (List Number)
    unfolding constant unary binary
    apply name zero stack = constant name then λ v. done (v ∷ stack)
    apply name (suc zero) (x ∷ stack) = unary name x then λ v. done (v ∷ stack)
    apply name (suc zero) [] = panicked
    apply name (suc (suc zero)) (y ∷ x ∷ stack) = binary name x y then λ v. done (v ∷ stack)
    apply name (suc (suc zero)) _ = panicked
    apply name arity stack = raised (evaluable name arity is_stub)

    -- One round of the loop.
    unfoldable pub step : Item → List Number → Evaluated (List Number)
    unfolding apply
    step (functor_item name arity) stack = apply name arity stack
    step (number_item v) stack = done (v ∷ stack)
    step variable_item stack = raised (instantiation is_stub)
    step (cyclic_item name arity) stack = raised (evaluable name arity is_stub)
    step cyclic_variable stack = raised (instantiation is_stub)
    step other_item stack = raised (not_evaluable is_stub)

    unfoldable pub run : List Item → List Number → Evaluated (List Number)
    unfolding step
    run [] stack = done stack
    run (item ∷ items) stack = step item stack then run items

    abbrev pub top : List Number → Evaluated Number
    top (v ∷ _) = done v
    top [] = panicked

    unfoldable pub arith_eval_by_metacall : List Item → Evaluated Number
    unfolding run
    arith_eval_by_metacall items = run items [] then top
