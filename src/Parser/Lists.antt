-- ===== src/Parser/Lists.antt =====
-- `reduce_list` of src/parser/parser.rs and what it calls. `usize` is 64 bits wide, and its
-- arithmetic wraps around, as in a release build.
use contrib_scryer_prolog.Base.{
  ℕ, zero, suc, ◌+◌, ◌-◌, ◌*◌, ◌%◌, ◌^◌, Bool, true, false, not, ◌&&◌, ◌||◌, Option, none, some,
  List, [], ◌∷◌, ◌++◌, reverse, ltb, ◌==◌, if◌then◌else◌, length, get_elem?, take, drop,
}
use contrib_scryer_prolog.Base.Text.{Text, codes, text_eq}
use contrib_scryer_prolog.Numerics.{Numerics}
use contrib_scryer_prolog.Ast.Error.{incomplete_reduction}
use contrib_scryer_prolog.Ast.Flags.{term, is_term, is_op, is_negate}
use contrib_scryer_prolog.Ast.Term
use contrib_scryer_prolog.Ast.Term.{Term, cons, size, unfold_by_str, unfold_by_str_once}
use contrib_scryer_prolog.Lexer.State.{Outcome, ok, err}
use contrib_scryer_prolog.Parser.State.{
  TokenDesc, Parser, is_comma, is_empty, top_is, set_top_term, is_open_list, is_head_tail_separator,
  term_desc,
}
use contrib_scryer_prolog.Parser.PartialString.{nil, as_partial_string, term_of}
use contrib_scryer_prolog.Parser.ReduceOp.{reduce_op}
use contrib_scryer_prolog.Parser.Compound.{is_operand}

unfoldable pub list_arity : List TokenDesc → Bool → ℕ → Option ℕ
list_arity [] operand arity = none
list_arity (desc ∷ rest) true arity =
    if is_comma desc.tt
    then none
    else if is_operand desc
    then list_arity rest false (arity + 1)
    else none
list_arity (desc ∷ rest) false arity =
    if is_head_tail_separator desc.tt && not (arity == 1)
    then none
    else if is_open_list desc.tt
    then some arity
    else if is_head_tail_separator desc.tt || is_comma desc.tt
    then list_arity rest true arity
    else none

-- `unfold_bounds -= 2`
abbrev pub minus_two : ℕ → ℕ
minus_two bounds = (bounds + (2 ^ 64 - 2)) % 2 ^ 64

module _ ⦃n : Numerics⦄ where
  unfoldable pub compute_arity_in_list : Parser → Option ℕ
  unfolding list_arity
  compute_arity_in_list p = list_arity p.stack true 0

  -- The loop that unfolds as often as the `|` compacted; the fuel is the size of the term.
  unfoldable pub unfold_bounded : ℕ → ℕ → Term → List Term
  unfolding unfold_by_str_once
  unfold_bounded zero bounds t = t ∷ []
  unfold_bounded (suc fuel) bounds t = elim (unfold_by_str_once t (codes ",")).0 [
    | none ↦ (unfold_by_str_once t (codes ",")).1 ∷ []
    | some (fst, snd) ↦ elim (minus_two bounds == 0) [
      | true ↦ fst ∷ snd ∷ []
      | false ↦ fst ∷ unfold_bounded fuel (minus_two bounds) snd
    ]
  ]

  -- `(Some(atom!(",")), 2) = (term.name(), term.arity())`
  abbrev pub is_name : Text → Option Text → Bool
  is_name s (some a) = text_eq a s
  is_name s none = false

  abbrev pub is_comma_term : Term → Bool
  is_comma_term t = is_name (codes ",") (Term.name t) && (Term.arity t == 2)

  abbrev pub unfold_commas : ℕ → Term → List Term
  unfold_commas bounds t =
      if bounds == 0 then unfold_by_str t (codes ",") else unfold_bounded (size t) bounds t

  abbrev pub extend : List Term → List Term → ℕ × List Term
  extend items ts = (length items - 1, reverse items ++ ts)

  -- On the entries above the open bracket: the separator and the operand under it.
  abbrev pub expand_terms : Option TokenDesc → Option TokenDesc → List Term → ℕ × List Term
  expand_terms (some sep) (some op_desc) (t ∷ ts) =
      if ltb 0 op_desc.priority && ltb op_desc.priority sep.priority && is_comma_term t
      then extend (unfold_commas op_desc.unfold_bounds t) ts
      else (0, t ∷ ts)
  expand_terms _ _ ts = (0, ts)

  -- `expand_comma_compacted_terms` at the entry under the top: the arity that it adds, and the
  -- terms.
  unfoldable pub expand_comma_compacted_terms : Parser → ℕ × List Term
  unfolding unfold_bounded unfold_by_str size Term.name Term.arity
  expand_comma_compacted_terms p = expand_terms (get_elem? p.stack 1) (get_elem? p.stack 2) p.terms

  -- `drain(idx..).rev().fold(end_term, …)`, the last term first.
  unfoldable pub fold_list : List Term → Term → Term
  fold_list [] acc = acc
  fold_list (t ∷ ts) acc = fold_list ts (cons t acc)

  abbrev pub list_term : Term → Term
  list_term (cons head tail) = term_of (as_partial_string head tail)
  list_term t = t

  abbrev pub incomplete : {A : Type 0} → Parser → Outcome A × Parser
  incomplete p = (err (incomplete_reduction p.lexer.line_num p.lexer.col_num), p)

  -- The list of `arity` terms before `end_term`, in place of the entries down to the bracket.
  abbrev pub build_list : ℕ → List TokenDesc → Term → List Term → Parser → Outcome Bool × Parser
  build_list arity below end_term ts p =
      if ltb (length ts) arity then incomplete (record p { terms = ts }) else (
        ok true,
        record p {
          terms = list_term (fold_list (take arity ts) end_term) ∷ drop arity ts;
          stack = term_desc 0 term ∷ below;
        },
      )

  abbrev pub is_tail_separator : Option TokenDesc → Bool
  is_tail_separator (some sep) = is_head_tail_separator sep.tt
  is_tail_separator none = false

  -- `|` with a priority above 1000 may have compacted the elements before it.
  abbrev pub expands : Option TokenDesc → Bool
  expands (some sep) = ltb 1000 sep.priority
  expands none = false

  abbrev pub with_tail : ℕ → List TokenDesc → List Term → Parser → Outcome Bool × Parser
  with_tail arity below [] p = incomplete p
  with_tail arity below (end_term ∷ ts) p =
      let (added, ts') =
        (if expands (get_elem? p.stack 1)
          then expand_comma_compacted_terms (record p { terms = ts })
          else (0, ts)) in
      build_list (arity + added - 1) below end_term ts' p

  abbrev pub list_of_arity : Option ℕ → Parser → Outcome Bool × Parser
  list_of_arity none p = (ok false, p)
  list_of_arity (some arity) p =
      if is_tail_separator (get_elem? p.stack 1)
      then with_tail arity (drop (2 * arity) p.stack) p.terms p
      else build_list arity (drop (2 * arity) p.stack) nil p.terms p

  unfoldable pub reduce_list : Parser → Outcome Bool × Parser
  unfolding reduce_op compute_arity_in_list expand_comma_compacted_terms fold_list as_partial_string
      is_term is_op is_negate
  reduce_list p =
      if is_empty p.stack
      then (ok false, p)
      else if top_is is_open_list p.stack
      then (ok true, record p { terms = nil ∷ p.terms; stack = set_top_term p.stack })
      else (let p' = reduce_op 1000 p in list_of_arity (compute_arity_in_list p') p')
