-- ===== src/Parser/ReduceOp.antt =====
-- `reduce_op` of src/parser/parser.rs: reductions by the priorities on top of the stack.
pub mod Normal
use contrib_scryer_prolog.Base.{
  ℕ, zero, suc, Bool, ◌&&◌, ◌||◌, Option, none, some, List, [], ◌∷◌, ltb, leb, ◌==◌, if◌then◌else◌,
  length,
}
use contrib_scryer_prolog.Numerics.{Numerics}
use contrib_scryer_prolog.Ast.OpDeclSpec.{xf, yf, fx, fy}
use contrib_scryer_prolog.Ast.Flags.{
  term, lterm, is_term, is_lterm, is_xfx, is_xfy, is_yfx, is_xf, is_yf, is_fx, is_fy,
}
use contrib_scryer_prolog.Parser.State.{TokenDesc, Parser, push_binary_op, push_unary_op}

unfoldable pub affirm_xfx : ℕ → TokenDesc → TokenDesc → TokenDesc → Bool
affirm_xfx priority d2 d3 d1 =
    leb d2.priority priority
    && is_term d3.spec
    && is_term d1.spec
    && ltb d3.priority d2.priority
    && ltb d1.priority d2.priority

unfoldable pub affirm_yfx : ℕ → TokenDesc → TokenDesc → TokenDesc → Bool
affirm_yfx priority d2 d3 d1 =
    leb d2.priority priority
    && ((is_term d3.spec && ltb d3.priority d2.priority)
        || (is_lterm d3.spec && (d3.priority == d2.priority)))
    && is_term d1.spec
    && ltb d1.priority d2.priority

unfoldable pub affirm_xfy : ℕ → TokenDesc → TokenDesc → TokenDesc → Bool
affirm_xfy priority d2 d3 d1 =
    ltb d2.priority priority
    && is_term d3.spec
    && ltb d3.priority d2.priority
    && is_term d1.spec
    && leb d1.priority d2.priority

unfoldable pub affirm_yf : TokenDesc → TokenDesc → Bool
affirm_yf d1 d2 =
    (is_term d2.spec && ltb d2.priority d1.priority)
    || (is_lterm d2.spec && (d2.priority == d1.priority))

unfoldable pub affirm_xf : TokenDesc → TokenDesc → Bool
affirm_xf d1 d2 = is_term d2.spec && ltb d2.priority d1.priority

unfoldable pub affirm_fy : ℕ → TokenDesc → TokenDesc → Bool
affirm_fy priority d1 d2 =
    ltb d2.priority priority && is_term d1.spec && leb d1.priority d2.priority

unfoldable pub affirm_fx : ℕ → TokenDesc → TokenDesc → Bool
affirm_fx priority d1 d2 =
    leb d2.priority priority && is_term d1.spec && ltb d1.priority d2.priority

module _ ⦃n : Numerics⦄ where
  -- The second half of the loop's body, over the top two entries.
  unfoldable pub unary_step : ℕ → TokenDesc → TokenDesc → Parser → Option Parser
  unary_step priority d1 d2 p =
      if is_yf d1.spec && affirm_yf d1 d2
      then some (push_unary_op d1 lterm yf p)
      else if is_xf d1.spec && affirm_xf d1 d2
      then some (push_unary_op d1 lterm xf p)
      else if is_fy d2.spec && affirm_fy priority d1 d2
      then some (push_unary_op d2 term fy p)
      else if is_fx d2.spec && affirm_fx priority d1 d2
      then some (push_unary_op d2 term fx p)
      else none

  unfoldable pub step_on : ℕ → List TokenDesc → Parser → Option Parser
  unfolding unary_step
  step_on priority (d1 ∷ d2 ∷ d3 ∷ rest) p =
      if (is_xfx d2.spec && affirm_xfx priority d2 d3 d1)
        || (is_yfx d2.spec && affirm_yfx priority d2 d3 d1)
      then some (push_binary_op d2 lterm (record p { stack = rest }))
      else if is_xfy d2.spec && affirm_xfy priority d2 d3 d1
      then some (push_binary_op d2 term (record p { stack = rest }))
      else unary_step priority d1 d2 (record p { stack = d3 ∷ rest })
  step_on priority (d1 ∷ d2 ∷ []) p = unary_step priority d1 d2 (record p { stack = [] })
  step_on priority _ p = none

  -- One round of the loop: `none` is its `break`, with the stack as it was.
  unfoldable pub reduce_step : ℕ → Parser → Option Parser
  unfolding step_on
  reduce_step priority p = step_on priority p.stack p

  unfoldable pub reduce_loop : ℕ → ℕ → Parser → Parser
  reduce_loop zero priority p = p
  reduce_loop (suc fuel) priority p = elim (reduce_step priority p) [
    | some p' ↦ reduce_loop fuel priority p'
    | none ↦ p
  ]

  -- A round that goes on leaves a shorter stack, so its length is fuel enough.
  unfoldable pub reduce_op : ℕ → Parser → Parser
  unfolding reduce_loop
  reduce_op priority p = reduce_loop (length p.stack) priority p
