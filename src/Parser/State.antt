-- ===== src/Parser/State.antt =====
-- The state of the parser of src/parser/parser.rs. The last entry of the vectors `stack` and
-- `terms` stands first in the list, and so does the token that is read next.
use contrib_scryer_prolog.Base.{
  ℕ, Bool, true, false, Option, none, some, List, [], ◌∷◌, if◌then◌else◌,
}
use contrib_scryer_prolog.Base.Text.{Text, codes}
use contrib_scryer_prolog.Numerics.{Numerics}
use contrib_scryer_prolog.Ast.OpDeclSpec.{OpDeclSpec, is_postfix}
use contrib_scryer_prolog.Ast.Flags.{term}
use contrib_scryer_prolog.Ast.Term.{Term, literal, atom, clause, no_terms, more_terms}
use contrib_scryer_prolog.Lexer.State.{Lexer}
use contrib_scryer_prolog.Lexer.Token.{Token}

pub data TokenType : Type 0 where
  term_type open_type open_ct_type open_list_type open_curly_type : TokenType
  head_tail_separator_type comma_type : TokenType
  close_type close_list_type close_curly_type end_type : TokenType

abbrev pub is_sep : TokenType → Bool
is_sep term_type = false
is_sep end_type = false
is_sep _ = true

abbrev pub sep_to_atom : TokenType → Option Text
sep_to_atom open_type = some (codes "(")
sep_to_atom open_ct_type = some (codes "(")
sep_to_atom close_type = some (codes ")")
sep_to_atom open_list_type = some (codes "[")
sep_to_atom close_list_type = some (codes "]")
sep_to_atom open_curly_type = some (codes "{")
sep_to_atom close_curly_type = some (codes "}")
sep_to_atom head_tail_separator_type = some (codes "|")
sep_to_atom comma_type = some (codes ",")
sep_to_atom end_type = some (codes ".")
sep_to_atom term_type = none

abbrev pub is_term_type : TokenType → Bool
is_term_type term_type = true
is_term_type _ = false

abbrev pub is_comma : TokenType → Bool
is_comma comma_type = true
is_comma _ = false

abbrev pub is_open_ct : TokenType → Bool
is_open_ct open_ct_type = true
is_open_ct _ = false

abbrev pub is_open : TokenType → Bool
is_open open_type = true
is_open open_ct_type = true
is_open _ = false

abbrev pub is_open_list : TokenType → Bool
is_open_list open_list_type = true
is_open_list _ = false

abbrev pub is_open_curly : TokenType → Bool
is_open_curly open_curly_type = true
is_open_curly _ = false

abbrev pub is_head_tail_separator : TokenType → Bool
is_head_tail_separator head_tail_separator_type = true
is_head_tail_separator _ = false

pub record TokenDesc : Type 0 where
  pub tt : TokenType
  pub priority : ℕ
  pub spec : ℕ
  pub unfold_bounds : ℕ

abbrev pub token_desc : TokenType → ℕ → ℕ → TokenDesc
token_desc tt priority spec = record {
  tt = tt;
  priority = priority;
  spec = spec;
  unfold_bounds = 0;
}

abbrev pub is_empty : List TokenDesc → Bool
is_empty [] = true
is_empty (_ ∷ _) = false

-- The type of the entry on top satisfies a test.
abbrev pub top_is : (TokenType → Bool) → List TokenDesc → Bool
top_is test [] = false
top_is test (td ∷ _) = test td.tt

-- The entry on top becomes a term of priority 0.
abbrev pub set_top_term : List TokenDesc → List TokenDesc
set_top_term [] = []
set_top_term (td ∷ rest) = record td { tt = term_type; priority = 0; spec = term } ∷ rest

module _ ⦃n : Numerics⦄ where
  pub record Parser : Type 0 where
    pub lexer : Lexer
    pub tokens : List Token
    pub stack : List TokenDesc
    pub terms : List Term

  abbrev pub clause₁ : Text → Term → Term
  clause₁ name arg = clause name (more_terms arg no_terms)

  abbrev pub clause₂ : Text → Term → Term → Term
  clause₂ name arg₁ arg₂ = clause name (more_terms arg₁ (more_terms arg₂ no_terms))

  abbrev pub atomize_term : Term → Option Text
  atomize_term (literal (atom a)) = some a
  atomize_term _ = none

  abbrev pub pop_atom : List Term → Option Text × List Term
  pop_atom (literal (atom a) ∷ ts) = (some a, ts)
  pop_atom ts = (none, ts)

  -- The name, and the terms as the call leaves them.
  unfoldable pub get_term_name : TokenDesc → List Term → Option Text × List Term
  get_term_name td terms = elim td.tt [
    | head_tail_separator_type ↦ (some (codes "|"), terms)
    | comma_type ↦ (some (codes ","), terms)
    | term_type ↦ pop_atom terms
    | _ ↦ (none, terms)
  ]

  abbrev pub term_desc : ℕ → ℕ → TokenDesc
  term_desc priority spec = token_desc term_type priority spec

  abbrev pub join_binary : TokenDesc → ℕ → Term → Option Text × List Term → Parser → Parser
  join_binary td spec arg₂ (some name, arg₁ ∷ ts) p = record p {
    terms = clause₂ name arg₁ arg₂ ∷ ts;
    stack = term_desc td.priority spec ∷ p.stack;
  }
  join_binary td spec arg₂ (some name, []) p = record p { terms = [] }
  join_binary td spec arg₂ (none, ts) p = record p { terms = ts }

  abbrev pub binary_op : TokenDesc → ℕ → List Term → Parser → Parser
  binary_op td spec [] p = p
  binary_op td spec (arg₂ ∷ ts) p = join_binary td spec arg₂ (get_term_name td ts) p

  unfoldable pub push_binary_op : TokenDesc → ℕ → Parser → Parser
  unfolding get_term_name
  push_binary_op td spec p = binary_op td spec p.terms p

  abbrev pub join_unary : TokenDesc → ℕ → Term → Term → List Term → Parser → Parser
  join_unary td spec arg (literal (atom name)) ts p = record p {
    terms = clause₁ name arg ∷ ts;
    stack = term_desc td.priority spec ∷ p.stack;
  }
  join_unary td spec arg _ ts p = record p { terms = ts }

  abbrev pub unary_op : TokenDesc → ℕ → OpDeclSpec → List Term → Parser → Parser
  unary_op td spec assoc [] p = p
  unary_op td spec assoc (arg₁ ∷ []) p = record p { terms = [] }
  unary_op td spec assoc (arg₁ ∷ name ∷ ts) p =
      if is_postfix assoc
      then join_unary td spec name arg₁ ts p
      else join_unary td spec arg₁ name ts p

  unfoldable pub push_unary_op : TokenDesc → ℕ → OpDeclSpec → Parser → Parser
  unfolding is_postfix
  push_unary_op td spec assoc p = unary_op td spec assoc p.terms p

  unfoldable pub promote_atom_op : Text → ℕ → ℕ → Parser → Parser
  promote_atom_op name priority assoc p = record p {
    terms = literal (atom name) ∷ p.terms;
    stack = term_desc priority assoc ∷ p.stack;
  }
