-- ===== src/Parser/Invariant/Shift.antt =====
-- The invariant across what src/parser/parser.rs shifts without a reduction of brackets: atoms,
-- operators, numbers and `|`.
use mathlib.Core.List.{append-nil}
use mathlib.Core.Bool.{false≢true, and-eq-true_iff}
use contrib_scryer_prolog.Base.{
  ℕ, ◌≡◌, ◌+◌, ◌-◌, refl, sym, ◌∙◌, ap, true, false, ◌&&◌, ◌||◌, List, [], ◌∷◌, ◌++◌, inl, inr,
  Bool-cases, Option-cases, length, ltb,
}
use contrib_scryer_prolog.Base.Text.{Text, codes, text_eq}
use contrib_scryer_prolog.Numerics.{Numerics}
use contrib_scryer_prolog.Chars.{Unicode}
use contrib_scryer_prolog.Ast.Flags.{delimiter, term, is_prefix, is_negate}
use contrib_scryer_prolog.Ast.OpDir.{IndexMap, CompositeOpDir}
use contrib_scryer_prolog.Ast.Term.{Term, Literal, literal, atom}
use contrib_scryer_prolog.Lexer.State.{DoubleQuotes, is_codes}
use contrib_scryer_prolog.Lexer.Token.{Token, literal_token, open_ct_token}
use contrib_scryer_prolog.Parser.State.{TokenDesc, token_desc, term_type, Parser, promote_atom_op}
use contrib_scryer_prolog.Parser.Operators.{CompositeOpDesc, get_op_desc}
use contrib_scryer_prolog.Parser.ReduceOp.{reduce_op}
use contrib_scryer_prolog.Parser.Shift.{
  code_list, string_term, shift, shift_ambiguous, shift_before, shift_described, shift_op, is_sign,
  pop, negate_number, shift_separator, set_bounds, top_is_term,
}
use contrib_scryer_prolog.Parser.Invariant.{
  IsMark, delimits, separates, Fits, empty, entry, mark, variables, stacked_variables, Keeps, Holds,
}
use contrib_scryer_prolog.Parser.Invariant.ReduceOp.{reduce_op-Keeps}
use contrib_scryer_prolog.Parser.Invariant.Compound.{any_op-term, stacked_variables-atom}

module _ ⦃n : Numerics⦄ where
  code_list-variables : (s : Text) → variables (code_list s) ≡ []
  unfolding code_list variables
  code_list-variables [] = refl
  code_list-variables (c ∷ cs) = code_list-variables cs

  pub string_term-variables : (flag : DoubleQuotes) (s : Text) → variables (string_term flag s) ≡ []
  string_term-variables flag s = elim (Bool-cases (is_codes flag)) [
    | inl h ↦ rw h (code_list-variables s)
    | inr h ↦ rw h (unfold variables in refl)
  ]

  pub literal-variables : (c : Literal) → variables (literal c) ≡ []
  unfolding variables
  literal-variables c = refl

  -- A term that is pushed with its entry.
  pub pushed-Keeps :
      {vs : List Text} {stack : List TokenDesc} {ts : List Term} (priority : ℕ) (t : Term)
      → Keeps vs stack ts
      → Keeps (vs ++ variables t) (token_desc term_type priority term ∷ stack) (t ∷ ts)
  unfolding stacked_variables
  pushed-Keeps priority t keeps = record {
    fits = entry refl (λ o. absurd (false≢true (sym any_op-term ∙ o))) keeps.fits;
    vars = ap (λ ws. ws ++ variables t) keeps.vars;
  }

  -- A constant that is pushed adds no variable.
  pub constant-Keeps :
      {vs : List Text} {stack : List TokenDesc} {ts : List Term} (priority : ℕ) (t : Term)
      → variables t ≡ []
      → Keeps vs stack ts
      → Keeps vs (token_desc term_type priority term ∷ stack) (t ∷ ts)
  constant-Keeps {vs} {stack} {ts} priority t e keeps =
      let k : Keeps (vs ++ variables t) (token_desc term_type priority term ∷ stack) (t ∷ ts) =
        pushed-Keeps priority t keeps in
      record { fits = k.fits; vars = k.vars ∙ ap (λ ws. vs ++ ws) e ∙ append-nil vs }

  pub promote_atom_op-Keeps :
      (name : Text) (priority spec : ℕ) (p : Parser) (vs : List Text)
      → Holds vs p
      → Holds vs (promote_atom_op name priority spec p)
  unfolding promote_atom_op
  promote_atom_op-Keeps name priority spec p vs keeps = record {
    fits = entry refl (λ o. tt) keeps.fits;
    vars = stacked_variables-atom p.terms name ∙ keeps.vars;
  }

  module _ ⦃u : Unicode⦄ where
    pub shift_literal-Keeps :
        (c : Literal) (p : Parser) (vs : List Text)
        → Holds vs p
        → Holds vs (shift (literal_token c) 0 term p)
    unfolding shift
    shift_literal-Keeps c p vs keeps = constant-Keeps 0 (literal c) (literal-variables c) keeps

    shift_ambiguous-Keeps :
        (name : Text) (d : CompositeOpDesc) (next : Token) (p : Parser) (vs : List Text)
        → Holds vs p
        → Holds vs (shift_ambiguous name d next p)
    shift_ambiguous-Keeps name d open_ct_token p vs keeps =
        promote_atom_op-Keeps name _ _ (reduce_op (d.inf + d.post) p) vs
          (reduce_op-Keeps (d.inf + d.post) p vs keeps)
    shift_ambiguous-Keeps name d _ p vs keeps =
        let k = reduce_op-Keeps (d.inf + d.post) p vs keeps in
        elim (Bool-cases (top_is_term (reduce_op (d.inf + d.post) p).stack)) [
          | inl h ↦ rw h (promote_atom_op-Keeps name _ _ (reduce_op (d.inf + d.post) p) vs k)
          | inr h ↦ rw h (promote_atom_op-Keeps name _ _ (reduce_op (d.inf + d.post) p) vs k)
        ]

    shift_described-Keeps :
        (name : Text) (d : CompositeOpDesc) (p : Parser) (vs : List Text)
        → Holds vs p
        → Holds vs (shift_described name d p).1
    shift_described-Keeps name d p vs keeps =
        elim (Bool-cases ((ltb 0 d.pre && ltb 0 (d.inf + d.post)) || is_negate d.spec)) [
          | inl h ↦ rw h (next_token-Keeps p.tokens)
          | inr h ↦ rw h (
              promote_atom_op-Keeps name _ _ (reduce_op (d.pre + d.inf + d.post) p) vs
                (reduce_op-Keeps (d.pre + d.inf + d.post) p vs keeps))
        ]
      where
        next_token-Keeps : (tokens : List Token) → Holds vs (shift_before tokens name d p).1
        next_token-Keeps [] = keeps
        next_token-Keeps (next ∷ _) = shift_ambiguous-Keeps name d next p vs keeps

    module _ ⦃i : IndexMap⦄ where
      -- `shift_op` keeps the invariant, whatever it gives.
      pub shift_op-Keeps :
          (name : Text) (op_dir : CompositeOpDir) (p : Parser) (vs : List Text)
          → Holds vs p
          → Holds vs (shift_op name op_dir p).1
      unfolding shift_op
      shift_op-Keeps name op_dir p vs keeps = elim (Option-cases (get_op_desc name op_dir)) [
        | inl e ↦ rw (e, shift_op) keeps
        | inr (d, e) ↦ rw (e, shift_op) (shift_described-Keeps name d p vs keeps)
      ]

    sign_no_mark : {d : TokenDesc} → IsMark d → (is_prefix d.spec || is_negate d.spec) ≡ false
    unfolding is_prefix is_negate
    sign_no_mark (delimits _ _ _ e) = rw e
    sign_no_mark (separates _ e) = rw e

    -- The `-` that is taken from the stack is an atom, with the entry of a term.
    unsigned-Keeps :
        (stack : List TokenDesc) (ts : List Term) (vs : List Text)
        → is_sign stack ts ≡ true
        → Keeps vs stack ts
        → Keeps vs (pop stack) (pop ts)
    unsigned-Keeps [] ts vs h keeps = absurd (false≢true h)
    unsigned-Keeps (d ∷ ds) (literal (atom a) ∷ ts) vs h keeps = record {
      fits = under_sign keeps.fits (
          ((and-eq-true_iff (text_eq a (codes "-")) (is_prefix d.spec || is_negate d.spec)).0 h).1);
      vars = sym (stacked_variables-atom ts a) ∙ keeps.vars;
    }
      where
        under_sign :
            Fits (d ∷ ds) (literal (atom a) ∷ ts)
            → (is_prefix d.spec || is_negate d.spec) ≡ true
            → Fits ds ts
        under_sign (entry typed op fits) sign = fits
        under_sign (mark m fits) sign = absurd (false≢true (sym (sign_no_mark m) ∙ sign))
    unsigned-Keeps (d ∷ ds) _ vs h keeps = cc

    -- `negate_number` keeps the invariant.
    pub negate_number-Keeps :
        (plain negated : Literal) (p : Parser) (vs : List Text)
        → Holds vs p
        → Holds vs (negate_number plain negated p)
    unfolding negate_number
    negate_number-Keeps plain negated p vs keeps = elim (Bool-cases (is_sign p.stack p.terms)) [
      | inl h ↦ rw h (
          shift_literal-Keeps negated (record p { stack = pop p.stack; terms = pop p.terms }) vs
            (unsigned-Keeps p.stack p.terms vs h keeps))
      | inr h ↦ rw h (shift_literal-Keeps plain p vs keeps)
    ]

    bounds-IsMark :
        {d : TokenDesc} (bounds : ℕ) → IsMark d → IsMark (record d { unfold_bounds = bounds })
    bounds-IsMark bounds (delimits a b c e) = delimits a b c e
    bounds-IsMark bounds (separates a e) = separates a e

    bounded_Fits :
        (bounds : ℕ) {stack : List TokenDesc} {ts : List Term}
        → Fits stack ts
        → Fits (set_bounds bounds stack) ts
    bounded_Fits bounds empty = empty
    bounded_Fits bounds (entry typed op fits) = entry typed op fits
    bounded_Fits bounds (mark m fits) = mark (bounds-IsMark bounds m) fits

    -- A `|` that is no operator is shifted as a mark.
    pub shift_separator-Keeps :
        (p : Parser) (vs : List Text) → Holds vs p → Holds vs (shift_separator (1000, delimiter) p)
    unfolding shift
    shift_separator-Keeps p vs keeps =
        let k = reduce_op-Keeps 1000 p vs keeps in
        record {
          fits =
              mark (delimits refl refl refl refl)
                (bounded_Fits (length p.stack - length (reduce_op 1000 p).stack) k.fits);
          vars = k.vars;
        }
