-- ===== src/Numerics.antt =====
-- What the reader takes from outside the repository, as an interface: big integers, rationals and
-- floats with the operations that the lexer and the parser call on them. `Integer` and `Rational`
-- are those of the `dashu` crate, `float_parse` is the call of the `lexical` crate.
use contrib_scryer_prolog.Base.{ℕ, Bool, Option}
use contrib_scryer_prolog.Base.Text.{Text}
use contrib_scryer_prolog.Base.Int.{ℤ}

pub record Numerics : Type 1 where
  pub Integer : Type 0
  pub Rational : Type 0
  pub F64 : Type 0
  -- `Integer::from`, `Integer::from_str_radix` (`none` is its error), `Neg`
  pub int_from : ℤ → Integer
  pub int_from_str_radix : Text → ℕ → Option Integer
  pub int_neg : Integer → Integer
  pub rat_neg : Rational → Rational
  -- `none` is a `lexical::Error`
  pub float_parse : Text → Option F64
  pub float_neg : F64 → F64
  pub is_infinite : F64 → Bool
