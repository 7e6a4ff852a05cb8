-- ===== src/Example.antt =====
-- A concrete environment for the reader: the ASCII part of the Unicode tables, and numbers that
-- stand for themselves. The witnesses of the theorems are stated in it.
pub mod Directory
pub mod Tests
pub mod Arithmetic
pub mod Bytes
use contrib_scryer_prolog.Base.{
  ℕ, ◌<◌, ◌≡◌, refl, Bool, true, false, not, ◌&&◌, ◌||◌, Option, none, some, List, [], ◌∷◌, ltb,
  ◌==◌, arith,
}
use contrib_scryer_prolog.Base.Text.{Text, codes}
use contrib_scryer_prolog.Base.Int.{ℤ, pos, neg_ℤ}
use contrib_scryer_prolog.Numerics.{Numerics}
use contrib_scryer_prolog.Ast.OpDeclSpec.{xfy, yfx, fy, xfx, infix_op, prefix_op}
use contrib_scryer_prolog.Ast.OpDir.{CompositeOpDir, build_with, default_op_dir}
use contrib_scryer_prolog.Example.Directory.{Entries, entries, insert}
use contrib_scryer_prolog.Chars.{Unicode, between, decimal_digit_char}
use contrib_scryer_prolog.Lexer.State.{Lexer, chars_flag}
use contrib_scryer_prolog.Lexer.Quoted.{numeral_value}

-- A float is a sign and a numeral; a rational is its numerator and denominator.
instance abbrev pub decimal_numerics : Numerics
unfolding numeral_value
decimal_numerics = record {
  Integer = ℤ;
  Rational = ℤ × ℕ;
  F64 = Bool × Text;
  int_from = λ v. v;
  int_from_str_radix = λ t r. elim (numeral_value r t) [ some v ↦ some (pos v) | none ↦ none ];
  int_neg = neg_ℤ;
  rat_neg = λ q. (neg_ℤ q.0, q.1);
  float_parse = λ t. some (false, t);
  float_neg = λ x. (not x.0, x.1);
  is_infinite = λ x. false;
}

instance abbrev pub ascii : Unicode
ascii = record {
  is_numeric = decimal_digit_char;
  is_whitespace = λ c. between 9 13 c || c == 32;
  is_control = λ c. ltb c 32 || c == 127;
  is_uppercase = between b'A' b'Z';
  is_alphabetic = λ c. between b'A' b'Z' c || between b'a' b'z' c;
  numeric_ascii = λ c h. refl;
  whitespace_ascii = λ c h. refl;
  control_ascii = λ c h. refl;
  uppercase_ascii = λ c h. refl;
  alphabetic_ascii = λ c h. refl;
}

abbrev pub lexer_on : Text → Lexer
lexer_on text = record {
  chars = text;
  fails = false;
  line_num = 0;
  col_num = 0;
  double_quotes = chars_flag;
}

-- The default operators and a few of the library's.
abbrev pub arithmetic_ops : Entries
unfolding default_op_dir insert
arithmetic_ops =
    insert
      (insert
        (insert
          (insert (insert default_op_dir (codes "-", prefix_op) (build_with 200 fy))
            (codes "-", infix_op) (build_with 500 yfx))
          (codes "+", infix_op) (build_with 500 yfx))
        (codes "*", infix_op) (build_with 400 yfx))
      (codes ";", infix_op) (build_with 1100 xfy)

abbrev pub op_dir : CompositeOpDir
op_dir = record { primary_op_dir = none; secondary_op_dir = arithmetic_ops }

-- With `|` as an infix operator, as lib/dcgs.pl declares it.
abbrev pub bar_op_dir : CompositeOpDir
unfolding insert
bar_op_dir = record {
  primary_op_dir = some (insert [] (codes "|", infix_op) (build_with 1105 xfy));
  secondary_op_dir = arithmetic_ops;
}
