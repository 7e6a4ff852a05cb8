-- ===== src/Example/Tests.antt =====
-- Runs of the reader on short texts, and the theorems at concrete inputs.
use contrib_scryer_prolog.Base.{
  ℕ, ◌≡◌, refl, none, some, List, [], ◌∷◌, ◌++◌, true, false, ◌-◌, ◌^◌, ◌||◌, ◌⊎◌,
}
use contrib_scryer_prolog.Base.Text.{Text, codes}
use contrib_scryer_prolog.Base.Int.{pos, negsuc, neg_ℤ}
use contrib_scryer_prolog.Ast.Fixnum.{build_with_unchecked}
use contrib_scryer_prolog.Ast.Term.{
  Term, atom, fixnum, clause, cons, literal, var, named, no_terms, more_terms,
}
use contrib_scryer_prolog.Chars.{Unicode}
use contrib_scryer_prolog.Lexer.Layout.{bracketed_comment}
use contrib_scryer_prolog.Lexer.Layout.Comment.{contains_end, bracketed_comment-skips}
use contrib_scryer_prolog.Lexer.State.{Outcome, ok}
use contrib_scryer_prolog.Lexer.Token.{
  Token, var_token, literal_token, open_token, open_ct_token, open_list_token, close_list_token,
  open_curly_token, head_tail_separator_token, comma_token, end_token,
}
use contrib_scryer_prolog.Parser.Read.{new, read_term, read_provided, shift_tokens}
use contrib_scryer_prolog.Parser.Operators.{get_op_desc}
use contrib_scryer_prolog.Parser.Shift.{shift_token}
use contrib_scryer_prolog.Parser.Invariant.{variables, stacked_variables, Holds, empty}
use contrib_scryer_prolog.Parser.Read.{read_tokens}
use contrib_scryer_prolog.Parser.Invariant.Read.{
  read_term-variables, read_provided-variables, shift_tokens-Keeps, shift_token-Keeps,
  all_variables,
}
use contrib_scryer_prolog.Ast.Term.{unfold_by_str}
use contrib_scryer_prolog.Ast.Term.Unfold.{chain, unfold_by_str-chain}
use contrib_scryer_prolog.Chars.{single_quote_char, backslash_char}
use contrib_scryer_prolog.Lexer.State.{Lexer}
use contrib_scryer_prolog.Lexer.Token.{name_token}
use contrib_scryer_prolog.Lexer.Token.QuotedName.{quoted, all_quotable, name_token-quoted}
use contrib_scryer_prolog.Parser.State.{Parser}
use contrib_scryer_prolog.Ast.Fixnum.{
  Fixnum, get_num, neg, bit_not, not_i64, in_range, build_with_checked, debug_neg, debug_bit_not,
}
use contrib_scryer_prolog.Ast.Fixnum.Range.{
  is_min, get_num-neg, get_num-bit_not, build_with_checked_lem,
}
use contrib_scryer_prolog.Ast.OpDeclSpec
use contrib_scryer_prolog.Ast.OpDeclSpec.{
  value, fy, yfx, xfy, infix_op, prefix_op, try_from_u8, try_from_atom, get_spec, try_from-value,
}
use contrib_scryer_prolog.Ast.Flags
use contrib_scryer_prolog.Ast.Flags.{is_yf, is_xf, is_op, is_term, is_lterm, value-flags}
use contrib_scryer_prolog.Example.Directory.{entries, lookup}
use contrib_scryer_prolog.Parser.Operators.Default.{
  default_desc, with_comma, with_primary, get_op_desc-default,
}
use contrib_scryer_prolog.Parser.PartialString.{nil, as_partial_string, term_of}
use contrib_scryer_prolog.Parser.ReduceOp.{reduce_op, reduce_step}
use contrib_scryer_prolog.Parser.ReduceOp.Normal.{reduce_op-normal}
use contrib_scryer_prolog.Parser.Compound.{reduce_term}
use contrib_scryer_prolog.Parser.Lists.{reduce_list}
use contrib_scryer_prolog.Parser.Brackets.{reduce_curly, reduce_brackets}
use contrib_scryer_prolog.Parser.Invariant.ReduceOp.{reduce_op-Keeps}
use contrib_scryer_prolog.Parser.Invariant.Strings.{as_partial_string-variables}
use contrib_scryer_prolog.Parser.Invariant.Compound.{reduce_term-Keeps}
use contrib_scryer_prolog.Parser.Invariant.Lists.{reduce_list-Keeps}
use contrib_scryer_prolog.Parser.Invariant.Brackets.{reduce_curly-Keeps, reduce_brackets-Keeps}
use contrib_scryer_prolog.Example.{
  arithmetic_ops, decimal_numerics, ascii, lexer_on, op_dir, bar_op_dir,
}

abbrev read : Text → Outcome Term
unfolding read_term
read text = (read_term op_dir (new (lexer_on text))).0

abbrev number : ℕ → Term
unfolding build_with_unchecked
number k = literal (fixnum (build_with_unchecked (pos k)))

abbrev operands : Text → Term → Term → Outcome Term
operands name a b = ok (clause name (more_terms a (more_terms b no_terms)))

abbrev x_var : Term
x_var = var (named (codes "X"))

abbrev y_var : Term
y_var = var (named (codes "Y"))

read-number : read (codes "42.") ≡ ok (number 42)
unfolding read_term contrib_scryer_prolog.Chars.layout_char
    contrib_scryer_prolog.Chars.end_line_comment_char
    contrib_scryer_prolog.Chars.capital_letter_char
    contrib_scryer_prolog.Chars.variable_indicator_char
    contrib_scryer_prolog.Chars.decimal_point_char
    contrib_scryer_prolog.Ast.Fixnum.build_with_checked
    contrib_scryer_prolog.Parser.ReduceOp.reduce_step
read-number = refl

-- An unbalanced bracket on a list bracket is read as an atom.
read_bracketed : read (codes "([).") ≡ ok (literal (atom (codes "[")))
unfolding read_term contrib_scryer_prolog.Chars.layout_char
    contrib_scryer_prolog.Chars.end_line_comment_char
    contrib_scryer_prolog.Chars.capital_letter_char
    contrib_scryer_prolog.Chars.variable_indicator_char
    contrib_scryer_prolog.Parser.ReduceOp.reduce_step contrib_scryer_prolog.Ast.Flags.is_yf
    contrib_scryer_prolog.Ast.Flags.is_xf contrib_scryer_prolog.Ast.Flags.is_fy
    contrib_scryer_prolog.Ast.Flags.is_fx
read_bracketed = refl

abbrev x_token : Token
x_token = var_token (codes "X")

abbrev y_token : Token
y_token = var_token (codes "Y")

abbrev minus_token : Token
minus_token = literal_token (atom (codes "-"))

abbrev f_token : Token
f_token = literal_token (atom (codes "f"))

abbrev difference : List Token
difference = x_token ∷ minus_token ∷ y_token ∷ end_token ∷ []

abbrev from_tokens : List Token → Outcome Term
unfolding read_provided
from_tokens tokens = (read_provided op_dir tokens (new (lexer_on []))).0

read_difference : from_tokens difference ≡ operands (codes "-") x_var y_var
unfolding read_provided contrib_scryer_prolog.Example.Directory.lookup
    contrib_scryer_prolog.Example.arithmetic_ops contrib_scryer_prolog.Parser.ReduceOp.reduce_step
    contrib_scryer_prolog.Ast.Flags.is_xfx contrib_scryer_prolog.Ast.Flags.is_yfx
    contrib_scryer_prolog.Parser.ReduceOp.affirm_yfx
    contrib_scryer_prolog.Parser.State.push_binary_op
read_difference = refl

no_bar : get_op_desc (codes "|") op_dir ≡ none
unfolding get_op_desc contrib_scryer_prolog.Example.Directory.lookup
    contrib_scryer_prolog.Example.arithmetic_ops
no_bar = refl

read_provided-variables_example :
    variables (clause (codes "-") (more_terms x_var (more_terms y_var no_terms)))
    ≡ codes "X" ∷ codes "Y" ∷ []
unfolding variables read_provided from_tokens
read_provided-variables_example =
    read_provided-variables op_dir no_bar (lexer_on []) difference
      (clause (codes "-") (more_terms x_var (more_terms y_var no_terms))) read_difference

-- The parser after some tokens.
abbrev state : List Token → Parser
state tokens = (shift_tokens tokens op_dir (new (lexer_on []))).1

no_variables : Holds [] (new (lexer_on []))
unfolding stacked_variables
no_variables = record { fits = empty; vars = refl }

state-Holds :
    (tokens : List Token)
    → (shift_tokens tokens op_dir (new (lexer_on []))).0 ≡ ok tt
    → Holds (all_variables tokens) (state tokens)
state-Holds tokens h = shift_tokens-Keeps op_dir no_bar tokens (new (lexer_on [])) [] no_variables h

abbrev open_difference : List Token
open_difference = x_token ∷ minus_token ∷ y_token ∷ []

abbrev open_call : List Token
open_call = f_token ∷ open_ct_token ∷ x_token ∷ comma_token ∷ y_token ∷ []

abbrev open_brackets : List Token
open_brackets = open_token ∷ x_token ∷ minus_token ∷ y_token ∷ []

abbrev open_list : List Token
open_list = open_list_token ∷ x_token ∷ head_tail_separator_token ∷ y_token ∷ []

abbrev open_curly : List Token
open_curly = open_curly_token ∷ x_token ∷ minus_token ∷ y_token ∷ []

open_difference_shifted : (shift_tokens open_difference op_dir (new (lexer_on []))).0 ≡ ok tt
unfolding shift_tokens contrib_scryer_prolog.Example.Directory.lookup
    contrib_scryer_prolog.Example.arithmetic_ops
open_difference_shifted = refl

open_call_shifted : (shift_tokens open_call op_dir (new (lexer_on []))).0 ≡ ok tt
unfolding shift_tokens contrib_scryer_prolog.Example.Directory.lookup
    contrib_scryer_prolog.Example.arithmetic_ops
open_call_shifted = refl

open_brackets_shifted : (shift_tokens open_brackets op_dir (new (lexer_on []))).0 ≡ ok tt
unfolding shift_tokens contrib_scryer_prolog.Example.Directory.lookup
    contrib_scryer_prolog.Example.arithmetic_ops
open_brackets_shifted = refl

open_list_shifted : (shift_tokens open_list op_dir (new (lexer_on []))).0 ≡ ok tt
unfolding shift_tokens
open_list_shifted = refl

open_curly_shifted : (shift_tokens open_curly op_dir (new (lexer_on []))).0 ≡ ok tt
unfolding shift_tokens contrib_scryer_prolog.Example.Directory.lookup
    contrib_scryer_prolog.Example.arithmetic_ops
open_curly_shifted = refl

list_closes : (shift_token close_list_token op_dir (state open_list)).0 ≡ ok tt
unfolding shift_token contrib_scryer_prolog.Parser.ReduceOp.reduce_step
    contrib_scryer_prolog.Ast.Flags.is_yf contrib_scryer_prolog.Ast.Flags.is_xf
    contrib_scryer_prolog.Ast.Flags.is_fy contrib_scryer_prolog.Ast.Flags.is_fx
    contrib_scryer_prolog.Ast.Flags.is_xfx contrib_scryer_prolog.Example.Directory.lookup
    contrib_scryer_prolog.Example.arithmetic_ops contrib_scryer_prolog.Ast.Flags.is_yfx
    contrib_scryer_prolog.Ast.Flags.is_xfy shift_tokens
list_closes = refl

shift_token-Keeps_example :
    Holds (all_variables open_list) (shift_token close_list_token op_dir (state open_list)).1
unfolding variables
shift_token-Keeps_example =
    shift_token-Keeps op_dir no_bar close_list_token (state open_list) (all_variables open_list)
      (state-Holds open_list open_list_shifted) list_closes

reduce_op-Keeps_example :
    Holds (all_variables open_difference) (reduce_op 999 (state open_difference))
reduce_op-Keeps_example =
    reduce_op-Keeps 999 (state open_difference) (all_variables open_difference)
      (state-Holds open_difference open_difference_shifted)

reduce_term-Keeps_example : Holds (all_variables open_call) (reduce_term (state open_call)).1
reduce_term-Keeps_example =
    reduce_term-Keeps (state open_call) (all_variables open_call)
      (state-Holds open_call open_call_shifted)

reduce_op-normal_example : reduce_step 999 (reduce_op 999 (state open_difference)) ≡ none
reduce_op-normal_example = reduce_op-normal 999 (state open_difference)

list_reduces : (reduce_list (state open_list)).0 ≡ ok true
unfolding reduce_list shift_tokens reduce_step is_yf is_xf Flags.is_fy Flags.is_fx Flags.is_xfx
    lookup arithmetic_ops Flags.is_yfx Flags.is_xfy
list_reduces = refl

reduce_list-Keeps_example : Holds (all_variables open_list) (reduce_list (state open_list)).1
reduce_list-Keeps_example =
    reduce_list-Keeps (state open_list) (all_variables open_list)
      (state-Holds open_list open_list_shifted) list_reduces

curly_reduces : (reduce_curly (state open_curly)).0 ≡ ok true
unfolding reduce_curly shift_tokens lookup arithmetic_ops reduce_step is_yf is_xf Flags.is_fy
    Flags.is_fx Flags.is_xfx Flags.is_yfx contrib_scryer_prolog.Parser.ReduceOp.affirm_yfx
    contrib_scryer_prolog.Parser.State.push_binary_op
curly_reduces = refl

reduce_curly-Keeps_example : Holds (all_variables open_curly) (reduce_curly (state open_curly)).1
reduce_curly-Keeps_example =
    reduce_curly-Keeps (state open_curly) (all_variables open_curly)
      (state-Holds open_curly open_curly_shifted) curly_reduces

brackets_reduce : (reduce_brackets (state open_brackets)).0 ≡ true
unfolding reduce_brackets shift_tokens lookup arithmetic_ops reduce_step is_yf is_xf Flags.is_fy
    Flags.is_fx Flags.is_xfx Flags.is_yfx contrib_scryer_prolog.Parser.ReduceOp.affirm_yfx
    contrib_scryer_prolog.Parser.State.push_binary_op
brackets_reduce = refl

reduce_brackets-Keeps_example :
    Holds (all_variables open_brackets) (reduce_brackets (state open_brackets)).1
reduce_brackets-Keeps_example =
    reduce_brackets-Keeps (state open_brackets) (all_variables open_brackets)
      (state-Holds open_brackets open_brackets_shifted) brackets_reduce

as_partial_string-variables_example :
    variables (
      term_of
        (as_partial_string (literal (atom (codes "a"))) (cons (literal (atom (codes "b"))) x_var)))
    ≡ variables (literal (atom (codes "a"))) ++ variables (cons (literal (atom (codes "b"))) x_var)
as_partial_string-variables_example =
    as_partial_string-variables (literal (atom (codes "a")))
      (cons (literal (atom (codes "b"))) x_var)

get_op_desc-default_example :
    (get_op_desc (codes ":-") (with_primary none) ≡ default_desc (codes ":-"))
    × (get_op_desc (codes ":-") (with_primary (some [])) ≡ default_desc (codes ":-"))
    × (get_op_desc (codes ",") (with_primary (some (with_comma 0 xfy))) ≡ none)
get_op_desc-default_example = get_op_desc-default (codes ":-") 0 xfy

abbrev smallest : Fixnum
smallest = build_with_unchecked (negsuc (2 ^ 55 - 1))

get_num-neg_example :
    (is_min (get_num smallest) ≡ false)
      × (debug_neg smallest ≡ some (neg smallest))
      × (get_num (neg smallest) ≡ neg_ℤ (get_num smallest))
    ⊎ (get_num smallest ≡ negsuc (2 ^ 55 - 1))
      × (debug_neg smallest ≡ none)
      × (get_num (neg smallest) ≡ get_num smallest)
get_num-neg_example = get_num-neg smallest

get_num-bit_not_example :
    (get_num (bit_not smallest) ≡ not_i64 (get_num smallest))
    × (get_num (bit_not (bit_not smallest)) ≡ get_num smallest)
    × (debug_bit_not smallest ≡ some (bit_not smallest))
get_num-bit_not_example = get_num-bit_not smallest

build_with_checked_lem_example :
    (in_range (negsuc 6) ≡ true)
      × (build_with_checked (negsuc 6) ≡ some (build_with_unchecked (negsuc 6)))
      × (get_num (build_with_unchecked (negsuc 6)) ≡ negsuc 6)
    ⊎ (in_range (negsuc 6) ≡ false) × (build_with_checked (negsuc 6) ≡ none)
build_with_checked_lem_example = build_with_checked_lem (negsuc 6)

value-flags_example :
    (Flags.is_prefix (value fy) ≡ OpDeclSpec.is_prefix fy)
    × (Flags.is_infix (value fy) ≡ OpDeclSpec.is_infix fy)
    × (is_yf (value fy) || is_xf (value fy) ≡ OpDeclSpec.is_postfix fy)
    × (is_op (value fy) ≡ true)
    × (is_term (value fy) ≡ false)
    × (is_lterm (value fy) ≡ false)
value-flags_example = value-flags fy

try_from-value_example :
    (try_from_u8 (value yfx) ≡ some yfx) × (try_from_atom (get_spec yfx) ≡ some yfx)
try_from-value_example = try_from-value yfx

all_plain : all_quotable (codes "it's") ≡ true
unfolding single_quote_char backslash_char contrib_scryer_prolog.Chars.double_quote_char
    contrib_scryer_prolog.Chars.back_quote_char contrib_scryer_prolog.Chars.graphic_char
    contrib_scryer_prolog.Chars.alpha_numeric_char contrib_scryer_prolog.Chars.graphic_token_char
    contrib_scryer_prolog.Chars.layout_char contrib_scryer_prolog.Chars.meta_char
    contrib_scryer_prolog.Chars.solo_char
all_plain = refl

no_quote : single_quote_char b',' ≡ false
unfolding single_quote_char
no_quote = refl

abbrev quoted_lexer : Lexer
unfolding single_quote_char backslash_char
quoted_lexer = lexer_on (codes "'it''s', x.")

same_text : quoted_lexer.chars ≡ 0x27 ∷ quoted (codes "it's") (0x27 ∷ b',' ∷ codes " x.")
unfolding single_quote_char backslash_char
same_text = refl

name_token-quoted_example :
    ((name_token 0x27 quoted_lexer).0 ≡ ok (literal_token (atom (codes "it's"))))
    × ((name_token 0x27 quoted_lexer).1.chars ≡ codes ", x.")
name_token-quoted_example =
    name_token-quoted (codes "it's") b',' (codes " x.") quoted_lexer all_plain no_quote same_text

-- The second pair has the code index that the compiler adds.
unfold_by_str-chain_example :
    unfold_by_str (chain (codes ",") ((y_var, none) ∷ (number 1, some 3) ∷ []) x_var) (codes ",")
    ≡ y_var ∷ number 1 ∷ x_var ∷ []
unfold_by_str-chain_example =
    unfold_by_str-chain (codes ",") ((y_var, none) ∷ (number 1, some 3) ∷ []) x_var refl

-- A comment with a star and a slash in its body.
abbrev comment_lexer : Lexer
comment_lexer = lexer_on (codes "/* 2 * 3 / x **/y.")

no_end : contains_end (codes " 2 * 3 / x *" ++ codes "*") ≡ false
no_end = refl

bracketed_comment-skips_example :
    ((bracketed_comment comment_lexer).0 ≡ ok true)
    × ((bracketed_comment comment_lexer).1.chars ≡ codes "y.")
bracketed_comment-skips_example =
    bracketed_comment-skips (codes " 2 * 3 / x *") (codes "y.") comment_lexer no_end refl

-- A list of a variable.
abbrev list_text : Lexer
list_text = lexer_on (codes "[X].")

read-list : (read_term op_dir (new list_text)).0 ≡ ok (cons x_var nil)
unfolding read_term contrib_scryer_prolog.Chars.layout_char
    contrib_scryer_prolog.Chars.end_line_comment_char
    contrib_scryer_prolog.Chars.capital_letter_char
    contrib_scryer_prolog.Chars.variable_indicator_char
    contrib_scryer_prolog.Chars.alpha_numeric_char contrib_scryer_prolog.Chars.graphic_token_char
    contrib_scryer_prolog.Chars.meta_char contrib_scryer_prolog.Chars.solo_char reduce_step is_yf
    is_xf Flags.is_fy Flags.is_fx
read-list = refl

read_term-variables_example :
    (tokens : List Token) × ((read_tokens list_text).0 ≡ ok tokens)
    × (variables (cons x_var nil) ≡ all_variables tokens)
read_term-variables_example = read_term-variables op_dir no_bar list_text (cons x_var nil) read-list
