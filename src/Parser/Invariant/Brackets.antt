-- ===== src/Parser/Invariant/Brackets.antt =====
-- The invariant across `reduce_curly` and `reduce_brackets` of src/parser/parser.rs.
use mathlib.Core.List.{append-nil}
use mathlib.Core.Bool.{false≢true}
use contrib_scryer_prolog.Base.{
  ◌≡◌, refl, sym, ◌∙◌, ap, Bool, true, false, some, List, [], ◌∷◌, inl, inr, arith, Bool-cases,
}
use contrib_scryer_prolog.Base.Text.{Text, codes}
use contrib_scryer_prolog.Numerics.{Numerics}
use contrib_scryer_prolog.Ast.Term.{Term, literal, atom}
use contrib_scryer_prolog.Lexer.State.{ok}
use contrib_scryer_prolog.Parser.State.{
  TokenDesc, TokenType, term_type, open_type, open_ct_type, open_list_type, open_curly_type,
  head_tail_separator_type, comma_type, close_type, close_list_type, close_curly_type, end_type,
  is_comma, is_open, is_open_curly, is_term_type, sep_to_atom, is_empty, top_is, Parser, clause₁,
}
use contrib_scryer_prolog.Parser.ReduceOp.{reduce_op}
use contrib_scryer_prolog.Parser.Brackets.{
  close_curly, curly_on, reduce_curly, push_separator, as_bracketed, brackets_on, reduce_brackets,
}
use contrib_scryer_prolog.Parser.Invariant.{
  IsMark, delimits, separates, Fits, entry, mark, variables, stacked_variables, Keeps, Holds,
}
use contrib_scryer_prolog.Parser.Invariant.ReduceOp.{reduce_op-Keeps}
use contrib_scryer_prolog.Parser.Invariant.Compound.{
  separator_Fits, any_op-term, any_op-bterm, stacked_variables-atom,
}
use contrib_scryer_prolog.Parser.Invariant.Lists.{IsKept, closed_Fits}

module _ ⦃n : Numerics⦄ where
  curly_variables :
      (t : Term) (ts : List Term)
      → stacked_variables (clause₁ (codes "{}") t ∷ ts) ≡ stacked_variables (t ∷ ts)
  unfolding stacked_variables variables
  curly_variables t ts = simp append-nil

  no_term_of_curly : (k : TokenType) → is_open_curly k ≡ true → is_term_type k ≡ false
  no_term_of_curly k h = ground arith

  no_term_of_open : (k : TokenType) → is_open k ≡ true → is_term_type k ≡ false
  no_term_of_open k h = ground arith

  close_curly-Keeps :
      (td oc : TokenDesc) (rest : List TokenDesc) (ts : List Term) (p : Parser) (vs : List Text)
      → is_term_type td.tt ≡ true
      → is_open_curly oc.tt ≡ true
      → Fits (td ∷ oc ∷ rest) ts
      → stacked_variables ts ≡ vs
      → IsKept vs (close_curly oc rest ts p)
  close_curly-Keeps td oc rest [] p vs typed curly fits e = λ k. cc
  close_curly-Keeps td oc rest (t ∷ ts) p vs typed curly (entry _ op fits) e = λ k. record {
    fits =
        entry refl (λ o. absurd (false≢true (sym any_op-term ∙ o)))
          (separator_Fits fits (no_term_of_curly oc.tt curly));
    vars = curly_variables t ts ∙ e;
  }
  close_curly-Keeps td oc rest (t ∷ ts) p vs typed curly (mark (delimits no_term _ _ _) fits) e =
      absurd (false≢true (sym no_term ∙ typed))
  close_curly-Keeps td oc rest (t ∷ ts) p vs typed curly (mark (separates comma _) fits) e =
      absurd (false≢true (ap is_term_type (sym comma) ∙ typed))

  curly_on-Keeps :
      (stack : List TokenDesc) (p : Parser) (vs : List Text)
      → Fits stack p.terms
      → stacked_variables p.terms ≡ vs
      → IsKept vs (curly_on stack p)
  curly_on-Keeps [] p vs fits e = λ k. cc
  curly_on-Keeps (td ∷ []) p vs fits e = λ k. cc
  curly_on-Keeps (td ∷ oc ∷ rest) p vs fits e = elim (Bool-cases (is_term_type td.tt)) [
    | inr h ↦ rw h λ k. cc
    | inl h ↦ rw h (elim (Bool-cases (is_open_curly oc.tt)) [
      | inr c ↦ rw c λ k. cc
      | inl c ↦ rw c (close_curly-Keeps td oc rest p.terms p vs h c fits e)
    ])
  ]

  -- Where the stack fits the terms and `reduce_curly` succeeds, it keeps the stack so, and the
  -- variables with it.
  pub reduce_curly-Keeps :
      (p : Parser) (vs : List Text)
      → Holds vs p
      → (reduce_curly p).0 ≡ ok true
      → Holds vs (reduce_curly p).1
  unfolding reduce_curly
  reduce_curly-Keeps p vs keeps = elim (Bool-cases (is_empty p.stack)) [
    | inl h ↦ rw h λ k. cc
    | inr h ↦ rw h (elim (Bool-cases (top_is is_open_curly p.stack)) [
      | inl o ↦ rw o λ k. record {
        fits =
            closed_Fits is_open_curly p.stack (literal (atom (codes "{}"))) p.terms refl o
              keeps.fits;
        vars = stacked_variables-atom p.terms (codes "{}") ∙ keeps.vars;
      }
      | inr o ↦ rw o (
          let k = reduce_op-Keeps 1201 p vs keeps in
          curly_on-Keeps (reduce_op 1201 p).stack (reduce_op 1201 p) vs k.fits k.vars)
    ])
  ]

  abbrev pub IsTrueKept : List Text → Bool × Parser → Type 0
  IsTrueKept vs r = r.0 ≡ true → Holds vs r.1

  pushed_atom : (k : TokenType) → is_term_type k ≡ false → (a : Text) × (sep_to_atom k ≡ some a)
  pushed_atom term_type h = absurd (false≢true (sym h))
  pushed_atom open_type h = (_, refl)
  pushed_atom open_ct_type h = (_, refl)
  pushed_atom close_type h = (_, refl)
  pushed_atom open_list_type h = (_, refl)
  pushed_atom close_list_type h = (_, refl)
  pushed_atom open_curly_type h = (_, refl)
  pushed_atom close_curly_type h = (_, refl)
  pushed_atom head_tail_separator_type h = (_, refl)
  pushed_atom comma_type h = (_, refl)
  pushed_atom end_type h = (_, refl)

  -- An entry in brackets that is a term for another one.
  as_bracketed-Fits :
      (top : TokenDesc) (t : Term) {rest : List TokenDesc} {ts : List Term}
      → Fits rest ts
      → Fits (as_bracketed top ∷ rest) (t ∷ ts)
  as_bracketed-Fits top t fits = entry refl (λ o. absurd (false≢true (sym any_op-bterm ∙ o))) fits

  IsMark-no_term : {d : TokenDesc} → IsMark d → is_term_type d.tt ≡ false
  IsMark-no_term (delimits h _ _ _) = h
  IsMark-no_term (separates comma _) = ap is_term_type comma

  -- What stands alone in brackets is a term, or is read as an atom.
  bracketed-Keeps :
      (top td : TokenDesc) (rest : List TokenDesc) (ts : List Term) (vs : List Text)
      → is_term_type td.tt ≡ false
      → Fits (top ∷ td ∷ rest) ts
      → stacked_variables ts ≡ vs
      → Keeps vs (as_bracketed top ∷ rest) (push_separator (sep_to_atom top.tt) ts)
  bracketed-Keeps top td rest (t ∷ ts) vs h (entry typed op fits) e =
      rw typed (record { fits = as_bracketed-Fits top t (separator_Fits fits h); vars = e })
  bracketed-Keeps top td rest ts vs h (mark m fits) e =
      let (a, pushed) = pushed_atom top.tt (IsMark-no_term m) in
      rw pushed (record {
        fits = as_bracketed-Fits top (literal (atom a)) (separator_Fits fits h);
        vars = stacked_variables-atom ts a ∙ e;
      })

  brackets_on-Keeps :
      (stack : List TokenDesc) (p : Parser) (vs : List Text)
      → Fits stack p.terms
      → stacked_variables p.terms ≡ vs
      → IsTrueKept vs (brackets_on stack p)
  brackets_on-Keeps [] p vs fits e = λ k. cc
  brackets_on-Keeps (top ∷ []) p vs fits e = λ k. cc
  brackets_on-Keeps (top ∷ td ∷ rest) p vs fits e = elim (Bool-cases (is_open top.tt)) [
    | inl h ↦ rw h λ k. cc
    | inr h ↦ rw h (elim (Bool-cases (is_open td.tt)) [
      | inr o ↦ rw o λ k. cc
      | inl o ↦ rw o (elim (Bool-cases (is_comma top.tt)) [
        | inl c ↦ rw c λ k. cc
        | inr c ↦ rw c λ k. bracketed-Keeps top td rest p.terms vs (no_term_of_open td.tt o) fits e
      ])
    ])
  ]

  -- Where the stack fits the terms and `reduce_brackets` gives `true`, it keeps the stack so, and
  -- the variables with it.
  pub reduce_brackets-Keeps :
      (p : Parser) (vs : List Text)
      → Holds vs p
      → (reduce_brackets p).0 ≡ true
      → Holds vs (reduce_brackets p).1
  unfolding reduce_brackets
  reduce_brackets-Keeps p vs keeps = elim (Bool-cases (is_empty p.stack)) [
    | inl h ↦ rw h λ k. cc
    | inr h ↦ rw h (
        let k = reduce_op-Keeps 1400 p vs keeps in
        brackets_on-Keeps (reduce_op 1400 p).stack (reduce_op 1400 p) vs k.fits k.vars)
  ]
