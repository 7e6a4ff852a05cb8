-- ===== src/Parser/Compound.antt =====
-- `reduce_term` of src/parser/parser.rs: a compound term in functional notation.
use contrib_scryer_prolog.Base.{
  ℕ, ◌+◌, ◌*◌, Bool, true, false, not, ◌&&◌, ◌||◌, Option, none, some, List, [], ◌∷◌, reverse, ltb,
  ◌==◌, if◌then◌else◌, length, get_elem?, take, drop,
}
use contrib_scryer_prolog.Base.Text.{Text, codes, text_eq}
use contrib_scryer_prolog.Numerics.{Numerics}
use contrib_scryer_prolog.Ast.Flags.{term, bterm, is_term, is_op, is_negate, is_infix}
use contrib_scryer_prolog.Ast.Term.{Term, clause, terms_of}
use contrib_scryer_prolog.Parser.State.{
  TokenDesc, Parser, is_comma, is_open_ct, is_empty, is_sep, is_term_type, term_desc, atomize_term,
}
use contrib_scryer_prolog.Parser.PartialString.{as_partial_string, term_of}
use contrib_scryer_prolog.Parser.ReduceOp.{reduce_op}

-- A term or a non-comma operator.
abbrev pub is_operand : TokenDesc → Bool
is_operand desc = is_term desc.spec || is_op desc.spec || is_negate desc.spec

-- The loop over the stack from its top; operands and separators take turns.
unfoldable pub arity_at_operand : List TokenDesc → Bool → ℕ → Option ℕ
arity_at_operand [] operand arity = none
arity_at_operand (desc ∷ rest) true arity =
    if is_comma desc.tt
    then none
    else if is_operand desc
    then arity_at_operand rest false (arity + 1)
    else none
arity_at_operand (desc ∷ rest) false arity =
    if is_open_ct desc.tt
    then some arity
    else if is_comma desc.tt
    then arity_at_operand rest true arity
    else none

module _ ⦃n : Numerics⦄ where
  unfoldable pub compute_arity_in_brackets : Parser → Option ℕ
  unfolding arity_at_operand
  compute_arity_in_brackets p = arity_at_operand p.stack true 0

  -- The entry under the functor's forbids a compound: the functor is an infix operator there.
  abbrev pub is_misplaced : TokenDesc → Option TokenDesc → Bool
  is_misplaced desc none = false
  is_misplaced desc (some below) =
      is_infix desc.spec && not (is_op below.spec) && not (is_sep below.tt)

  -- `vec![head, tail]` under `'.'` is a cons cell, and a string if it has only characters.
  abbrev pub compound : Text → List Term → Term
  compound name (head ∷ tail ∷ []) =
      if text_eq name (codes ".")
      then term_of (as_partial_string head tail)
      else clause name (terms_of (head ∷ tail ∷ []))
  compound name subterms = clause name (terms_of subterms)

  -- A bracketed functor is no functor: the compound stays, and the reduction fails.
  abbrev pub close_compound : Term → List Term → List TokenDesc → Parser → Bool × Parser
  close_compound t ts [] p = (true, record p { terms = t ∷ ts; stack = [] })
  close_compound t ts (desc ∷ rest) p =
      if desc.spec == bterm
      then (false, record p { terms = t ∷ ts; stack = desc ∷ rest })
      else (true, record p { terms = t ∷ ts; stack = term_desc 0 term ∷ rest })

  -- The name of the functor, where its entry is a term and the term an atom.
  abbrev pub functor_of : TokenDesc → Term → Option Text
  functor_of desc functor = if is_term_type desc.tt then atomize_term functor else none

  abbrev pub with_functor :
      Option Text → TokenDesc → List Term → List Term → List TokenDesc → Parser → Bool × Parser
  with_functor none desc subterms ts rest p = (false, p)
  with_functor (some name) desc subterms ts rest p =
      close_compound (compound name subterms) ts (desc ∷ rest) p

  -- At the entry of the functor, with the subterms and the terms under them.
  abbrev pub functor_term :
      TokenDesc → List Term → List Term → List TokenDesc → Parser → Bool × Parser
  functor_term desc subterms [] rest p = (false, p)
  functor_term desc subterms (functor ∷ ts) rest p =
      with_functor (functor_of desc functor) desc subterms ts rest p

  abbrev pub compound_on : ℕ → List TokenDesc → Parser → Bool × Parser
  compound_on arity [] p = (false, p)
  compound_on arity (desc ∷ rest) p =
      if is_misplaced desc (get_elem? rest 0)
      then (false, p)
      else if ltb (length p.terms) (1 + arity)
      then (false, p)
      else functor_term desc (reverse (take arity p.terms)) (drop arity p.terms) rest p

  abbrev pub compound_of : Option ℕ → Parser → Bool × Parser
  compound_of none p = (false, p)
  compound_of (some arity) p = compound_on arity (drop (2 * arity) p.stack) p

  unfoldable pub reduce_term : Parser → Bool × Parser
  unfolding reduce_op compute_arity_in_brackets as_partial_string is_term is_op is_negate is_infix
      terms_of
  reduce_term p =
      if is_empty p.stack
      then (false, p)
      else (let p' = reduce_op 999 p in compound_of (compute_arity_in_brackets p') p')
