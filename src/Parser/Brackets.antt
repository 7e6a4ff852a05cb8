-- ===== src/Parser/Brackets.antt =====
-- `reduce_curly` and `reduce_brackets` of src/parser/parser.rs.
use contrib_scryer_prolog.Base.{
  Bool, true, false, not, Option, none, some, List, [], ◌∷◌, if◌then◌else◌,
}
use contrib_scryer_prolog.Base.Text.{Text, codes}
use contrib_scryer_prolog.Numerics.{Numerics}
use contrib_scryer_prolog.Ast.Flags.{bterm}
use contrib_scryer_prolog.Ast.Term.{Term, literal, atom}
use contrib_scryer_prolog.Lexer.State.{Outcome, ok}
use contrib_scryer_prolog.Parser.State.{
  term_type, TokenDesc, Parser, is_comma, is_empty, top_is, set_top_term, is_open, is_open_curly,
  is_term_type, sep_to_atom, clause₁,
}
use contrib_scryer_prolog.Parser.ReduceOp.{reduce_op}
use contrib_scryer_prolog.Parser.Lists.{incomplete}

module _ ⦃n : Numerics⦄ where
  abbrev pub close_curly : TokenDesc → List TokenDesc → List Term → Parser → Outcome Bool × Parser
  close_curly oc rest [] p = incomplete (record p { stack = set_top_term (oc ∷ rest) })
  close_curly oc rest (t ∷ ts) p =
      (ok true, record p { terms = clause₁ (codes "{}") t ∷ ts; stack = set_top_term (oc ∷ rest) })

  -- After the reduction; the top entry is popped as soon as there are two.
  abbrev pub curly_on : List TokenDesc → Parser → Outcome Bool × Parser
  curly_on (td ∷ oc ∷ rest) p =
      if not (is_term_type td.tt)
      then (ok false, record p { stack = oc ∷ rest })
      else if is_open_curly oc.tt
      then close_curly oc rest p.terms p
      else (ok false, record p { stack = oc ∷ rest })
  curly_on _ p = (ok false, p)

  unfoldable pub reduce_curly : Parser → Outcome Bool × Parser
  unfolding reduce_op
  reduce_curly p =
      if is_empty p.stack
      then (ok false, p)
      else if top_is is_open_curly p.stack
      then (
        ok true,
        record p { terms = literal (atom (codes "{}")) ∷ p.terms; stack = set_top_term p.stack },
      )
      else (let p' = reduce_op 1201 p in curly_on p'.stack p')

  abbrev pub push_separator : Option Text → List Term → List Term
  push_separator (some a) ts = literal (atom a) ∷ ts
  push_separator none ts = ts

  abbrev pub as_bracketed : TokenDesc → TokenDesc
  as_bracketed td = record td { spec = bterm; tt = term_type; priority = 0 }

  -- The entry under the top is removed before its type is looked at.
  abbrev pub brackets_on : List TokenDesc → Parser → Bool × Parser
  brackets_on (top ∷ td ∷ rest) p =
      if is_open top.tt
      then (false, p)
      else if not (is_open td.tt)
      then (false, record p { stack = top ∷ rest })
      else if is_comma top.tt
      then (false, record p { stack = top ∷ rest })
      else (
        true,
        record p {
          terms = push_separator (sep_to_atom top.tt) p.terms;
          stack = as_bracketed top ∷ rest;
        },
      )
  brackets_on _ p = (false, p)

  unfoldable pub reduce_brackets : Parser → Bool × Parser
  unfolding reduce_op
  reduce_brackets p =
      if is_empty p.stack
      then (false, p)
      else (let p' = reduce_op 1400 p in brackets_on p'.stack p')
