-- ===== src/Parser/Operators.antt =====
-- `get_op_desc` of src/parser/parser.rs: what an atom is as an operator.
pub mod Default
use Prim.Native.Nat.{bit_or}
use contrib_scryer_prolog.Base.{ℕ, ◌+◌, not, ◌&&◌, Option, none, some, ltb, ◌==◌, if◌then◌else◌}
use contrib_scryer_prolog.Base.Text.{Text, codes, text_eq}
use contrib_scryer_prolog.Ast.OpDeclSpec.{value, prefix_op, postfix_op, infix_op}
use contrib_scryer_prolog.Ast.Flags.{negative_sign, is_negate}
use contrib_scryer_prolog.Ast.OpDir.{OpDesc, IndexMap, CompositeOpDir, composite_get}

pub record CompositeOpDesc : Type 0 where
  pub pre : ℕ
  pub inf : ℕ
  pub post : ℕ
  pub spec : ℕ

abbrev pub no_op : CompositeOpDesc
no_op = record { pre = 0; inf = 0; post = 0; spec = 0 }

-- A prefix `-` of priority 0 is a sign that is read as an atom, not an operator.
abbrev pub with_prefix : Text → Option OpDesc → CompositeOpDesc → CompositeOpDesc
with_prefix name (some cell) d =
    if ltb 0 cell.prec
    then record d { pre = cell.prec; spec = bit_or d.spec (value cell.spec) }
    else if text_eq name (codes "-")
    then record d { spec = bit_or d.spec negative_sign }
    else d
with_prefix name none d = d

abbrev pub with_postfix : Option OpDesc → CompositeOpDesc → CompositeOpDesc
with_postfix (some cell) d =
    if ltb 0 cell.prec
    then record d { post = cell.prec; spec = bit_or d.spec (value cell.spec) }
    else d
with_postfix none d = d

abbrev pub with_infix : Option OpDesc → CompositeOpDesc → CompositeOpDesc
with_infix (some cell) d =
    if ltb 0 cell.prec
    then record d { inf = cell.prec; spec = bit_or d.spec (value cell.spec) }
    else d
with_infix none d = d

module _ ⦃i : IndexMap⦄ where
  unfoldable pub get_op_desc : Text → CompositeOpDir → Option CompositeOpDesc
  unfolding composite_get is_negate
  get_op_desc name op_dir =
      let d₁ = with_prefix name (composite_get op_dir name prefix_op) no_op in
      let d₂ = with_postfix (composite_get op_dir name postfix_op) d₁ in
      let d = with_infix (composite_get op_dir name infix_op) d₂ in
      if (d.pre + d.post + d.inf == 0) && not (is_negate d.spec) then none else some d
