-- ===== src/Parser/Invariant.antt =====
-- The invariant of the parser of src/parser/parser.rs: which entries of the stack stand for a term,
-- and what the terms still hold of the tokens read.
pub mod ReduceOp
pub mod Strings
pub mod Compound
pub mod Lists
pub mod Brackets
pub mod Shift
pub mod Read
use contrib_scryer_prolog.Base.{ℕ, ◌≡◌, Bool, true, false, ◌&&◌, ◌||◌, List, [], ◌∷◌, ◌++◌, ltb}
use contrib_scryer_prolog.Base.Text.{Text, codes}
use contrib_scryer_prolog.Numerics.{Numerics}
use contrib_scryer_prolog.Ast.Flags.{delimiter, is_xfx, is_xfy, is_yfx, is_xf, is_yf, is_fx, is_fy}
use contrib_scryer_prolog.Ast.Term.{
  Term, Terms, no_terms, more_terms, anon_var, clause, cons, literal, partial_string,
  complete_string, var, named, atom,
}
use contrib_scryer_prolog.Parser.State.{
  TokenDesc, TokenType, term_type, comma_type, is_term_type, is_comma, is_head_tail_separator,
  Parser,
}

-- Some flag of an operator is set.
abbrev pub any_op : ℕ → Bool
any_op spec =
    is_xfx spec
    || is_yfx spec
    || is_xfy spec
    || is_yf spec
    || is_xf spec
    || is_fy spec
    || is_fx spec

-- An entry that stands for no term: a bracket, a `|` that is no operator, or a comma.
pub data IsMark (d : TokenDesc) : Type 0 where
  delimits :
      is_term_type d.tt ≡ false
      → is_comma d.tt ≡ false
      → (is_head_tail_separator d.tt && ltb 1000 d.priority) ≡ false
      → d.spec ≡ delimiter
      → IsMark d
  separates : d.tt ≡ comma_type → d.spec ≡ 0x0002 → IsMark d

module _ ⦃n : Numerics⦄ where
  abbrev pub IsAtom : Term → Type 0
  IsAtom (literal (atom a)) = Unit
  IsAtom _ = ⊥

  -- The entries that are no marks stand for the terms one by one, operators for atoms.
  pub data Fits : List TokenDesc → List Term → Type 0 where
    empty : Fits [] []
    entry :
        {d : TokenDesc} {ds : List TokenDesc} {t : Term} {ts : List Term}
        → d.tt ≡ term_type
        → (any_op d.spec ≡ true → IsAtom t)
        → Fits ds ts
        → Fits (d ∷ ds) (t ∷ ts)
    mark :
        {d : TokenDesc} {ds : List TokenDesc} {ts : List Term}
        → IsMark d
        → Fits ds ts
        → Fits (d ∷ ds) ts

  -- The variables of a term from left to right.
  unfoldable mutual
    pub variables : Term → List Text
    variables anon_var = codes "_" ∷ []
    variables (var (named v)) = v ∷ []
    variables (clause _ ts) = variables_of ts
    variables (cons head tail) = variables head ++ variables tail
    variables (partial_string _ tail) = variables tail
    variables _ = []

    pub variables_of : Terms → List Text
    variables_of no_terms = []
    variables_of (more_terms t ts) = variables t ++ variables_of ts

  -- Of the vector of terms, whose last one stands first.
  unfoldable pub stacked_variables : List Term → List Text
  unfolding variables
  stacked_variables [] = []
  stacked_variables (t ∷ ts) = stacked_variables ts ++ variables t

  pub record Keeps (vs : List Text) (stack : List TokenDesc) (terms : List Term) : Type 0 where
    pub fits : Fits stack terms
    pub vars : stacked_variables terms ≡ vs

  abbrev pub Holds : List Text → Parser → Type 0
  Holds vs p = Keeps vs p.stack p.terms
