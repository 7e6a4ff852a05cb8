-- ===== src/Parser/Invariant/Read.antt =====
-- The invariant across `shift_token` and `read_term` of src/parser/parser.rs.
use mathlib.Core.Path.{subst}
use contrib_scryer_prolog.Ast.Fixnum
use mathlib.Core.List.{append-nil, append_assoc}
use contrib_scryer_prolog.Base.{
  ◌≡◌, refl, sym, ◌∙◌, ap, Bool, true, false, ◌||◌, none, List, [], ◌∷◌, ◌++◌, inl, inr, Bool-cases,
  length, ltb,
}
use contrib_scryer_prolog.Base.Text.{Text, codes}
use contrib_scryer_prolog.Numerics.{Numerics}
use contrib_scryer_prolog.Ast.Error.{ParserError}
use contrib_scryer_prolog.Chars.{Unicode}
use contrib_scryer_prolog.Ast.OpDir.{IndexMap, CompositeOpDir}
use contrib_scryer_prolog.Ast.Term.{Term, atom, integer, rational, f64, fixnum, code_index_offset}
use contrib_scryer_prolog.Lexer.State.{Outcome, ok, err, out_of_fuel, Lexer}
use contrib_scryer_prolog.Lexer.Token.{
  Token, literal_token, var_token, string_token, open_token, open_ct_token, close_token,
  open_list_token, close_list_token, open_curly_token, close_curly_token, head_tail_separator_token,
  comma_token, end_token,
}
use contrib_scryer_prolog.Parser.Read.{read_with, read_term, read_tokens}
use contrib_scryer_prolog.Parser.State.{TokenDesc, Parser}
use contrib_scryer_prolog.Parser.Operators.{get_op_desc}
use contrib_scryer_prolog.Parser.ReduceOp.{reduce_op}
use contrib_scryer_prolog.Parser.Lists.{reduce_list}
use contrib_scryer_prolog.Parser.Brackets.{reduce_brackets, reduce_curly}
use contrib_scryer_prolog.Parser.Shift.{
  string_term, variable_term, shift, shift_op, operator_or_atom, required, close_with, forbids_end,
  separator_of, shift_separator, shift_float, shift_token,
}
use contrib_scryer_prolog.Parser.Read.{
  new, after_token, shift_tokens, take_term, finish_term, read_provided,
}
use contrib_scryer_prolog.Parser.Invariant.{
  IsMark, delimits, separates, empty, mark, variables, stacked_variables, Keeps, Holds,
}
use contrib_scryer_prolog.Parser.Invariant.ReduceOp.{reduce_op-Keeps}
use contrib_scryer_prolog.Parser.Invariant.Compound.{reduce_term-Keeps}
use contrib_scryer_prolog.Parser.Invariant.Lists.{IsKept, reduce_list-Keeps}
use contrib_scryer_prolog.Parser.Invariant.Brackets.{
  IsTrueKept, reduce_curly-Keeps, reduce_brackets-Keeps,
}
use contrib_scryer_prolog.Parser.Invariant.Shift.{
  string_term-variables, pushed-Keeps, constant-Keeps, shift_literal-Keeps, shift_op-Keeps,
  negate_number-Keeps, shift_separator-Keeps,
}

module _ ⦃n : Numerics⦄ ⦃u : Unicode⦄ where
  -- The variables that a token brings.
  abbrev pub token_variables : Token → List Text
  token_variables (var_token v) = variables (variable_term v)
  token_variables _ = []

  abbrev pub all_variables : List Token → List Text
  all_variables [] = []
  all_variables (token ∷ rest) = token_variables token ++ all_variables rest

  -- A step that gives no error keeps the invariant.
  abbrev IsShifted : List Text → Outcome (Unit {0}) × Parser → Type 0
  IsShifted vs r = r.0 ≡ ok tt → Holds vs r.1

  required-Keeps :
      (vs : List Text) (r : Outcome Bool × Parser) → IsKept vs r → IsShifted vs (required r)
  required-Keeps vs (ok true, p) k h = k refl
  required-Keeps vs (ok false, p) k h = cc
  required-Keeps vs (err e, p) k h = cc
  required-Keeps vs (out_of_fuel, p) k h = cc

  required_true-Keeps :
      (vs : List Text) (r : Bool × Parser) → IsTrueKept vs r → IsShifted vs (required (ok r.0, r.1))
  required_true-Keeps vs (true, p) k h = k refl
  required_true-Keeps vs (false, p) k h = cc

  close_with-Keeps :
      (vs : List Text) (r : Bool × Parser) → Holds vs r.1 → IsShifted vs (close_with r)
  close_with-Keeps vs (true, p) k h = k
  close_with-Keeps vs (false, p) k h =
      required_true-Keeps vs (reduce_brackets p) (reduce_brackets-Keeps p vs k) h

  operator_or_atom-Keeps :
      (vs : List Text) (name : Text) (r : Outcome Bool × Parser)
      → Holds vs r.1
      → IsShifted vs (operator_or_atom name r)
  operator_or_atom-Keeps vs name (ok true, p) k h = k
  operator_or_atom-Keeps vs name (ok false, p) k h = shift_literal-Keeps (atom name) p vs k
  operator_or_atom-Keeps vs name (err e, p) k h = k
  operator_or_atom-Keeps vs name (out_of_fuel, p) k h = k

  shift_float-Keeps :
      (x : n.F64) (p : Parser) (vs : List Text) → Holds vs p → IsShifted vs (shift_float x p)
  shift_float-Keeps x p vs k = elim (Bool-cases (n.is_infinite x)) [
    | inl h ↦ rw h λ e. cc
    | inr h ↦ rw h λ e. negate_number-Keeps (f64 x) (f64 (n.float_neg x)) p vs k
  ]

  delimiter-Keeps :
      {vs : List Text} {stack : List TokenDesc} {ts : List Term} (d : TokenDesc)
      → IsMark d
      → Keeps vs stack ts
      → Keeps vs (d ∷ stack) ts
  delimiter-Keeps d m k = record { fits = mark m k.fits; vars = k.vars }

  module _ ⦃i : IndexMap⦄ (op_dir : CompositeOpDir)
      (bar : get_op_desc (codes "|") op_dir ≡ none) where
    -- What a token adds where no variable comes with it.
    plain_token-Keeps :
        (token : Token) (p : Parser) (vs : List Text)
        → token_variables token ≡ []
        → Holds vs p
        → IsShifted vs (shift_token token op_dir p)
    unfolding shift_token shift
    plain_token-Keeps (string_token s) p vs none_in k h =
        constant-Keeps 0 (string_term p.lexer.double_quotes s)
          (string_term-variables p.lexer.double_quotes s) k
    plain_token-Keeps (literal_token (integer i)) p vs none_in k h =
        negate_number-Keeps (integer i) (integer (n.int_neg i)) p vs k
    plain_token-Keeps (literal_token (rational r)) p vs none_in k h =
        negate_number-Keeps (rational r) (rational (n.rat_neg r)) p vs k
    plain_token-Keeps (literal_token (f64 x)) p vs none_in k h = shift_float-Keeps x p vs k h
    plain_token-Keeps (literal_token (fixnum x)) p vs none_in k h =
        negate_number-Keeps (fixnum x) (fixnum (Fixnum.neg x)) p vs k
    plain_token-Keeps (literal_token (atom name)) p vs none_in k h =
        operator_or_atom-Keeps vs name (shift_op name op_dir p) (shift_op-Keeps name op_dir p vs k)
          h
    plain_token-Keeps (literal_token (code_index_offset i)) p vs none_in k h =
        shift_literal-Keeps (code_index_offset i) p vs k
    plain_token-Keeps (var_token v) p vs none_in k h = constant-Keeps 0 (variable_term v) none_in k
    plain_token-Keeps open_token p vs none_in k h =
        delimiter-Keeps _ (delimits refl refl refl refl) k
    plain_token-Keeps open_ct_token p vs none_in k h =
        delimiter-Keeps _ (delimits refl refl refl refl) k
    plain_token-Keeps close_token p vs none_in k h =
        close_with-Keeps vs _ (reduce_term-Keeps p vs k) h
    plain_token-Keeps open_list_token p vs none_in k h =
        delimiter-Keeps _ (delimits refl refl refl refl) k
    plain_token-Keeps close_list_token p vs none_in k h =
        required-Keeps vs (reduce_list p) (reduce_list-Keeps p vs k) h
    plain_token-Keeps open_curly_token p vs none_in k h =
        delimiter-Keeps _ (delimits refl refl refl refl) k
    plain_token-Keeps close_curly_token p vs none_in k h =
        required-Keeps vs (reduce_curly p) (reduce_curly-Keeps p vs k) h
    plain_token-Keeps head_tail_separator_token p vs none_in k h =
        subst (λ d. Holds vs (shift_separator (separator_of d) p)) (sym bar)
          (shift_separator-Keeps p vs k)
    plain_token-Keeps comma_token p vs none_in k h =
        delimiter-Keeps _ (separates refl refl) (reduce_op-Keeps 1000 p vs k)
    plain_token-Keeps end_token p vs none_in k h = end-Keeps p vs k h
      where
        end-Keeps :
            (p : Parser) (vs : List Text)
            → Holds vs p
            → IsShifted vs (shift_token end_token op_dir p)
        end-Keeps p vs k = elim (Bool-cases (forbids_end p.stack)) [
          | inl f ↦ rw f λ e. cc
          | inr f ↦ rw f λ e. k
        ]

    variable_token-Keeps :
        (v : Text) (p : Parser) (vs : List Text)
        → Holds vs p
        → Holds (vs ++ variables (variable_term v)) (shift_token (var_token v) op_dir p).1
    unfolding shift_token shift
    variable_token-Keeps v p vs k = pushed-Keeps 0 (variable_term v) k

    -- Where `|` is not declared an operator and the stack fits the terms, a token that is shifted
    -- without an error leaves the stack so, and adds its own variables after those there.
    pub shift_token-Keeps :
        (token : Token) (p : Parser) (vs : List Text)
        → Holds vs p
        → (shift_token token op_dir p).0 ≡ ok tt
        → Holds (vs ++ token_variables token) (shift_token token op_dir p).1
    shift_token-Keeps (var_token v) p vs k h = variable_token-Keeps v p vs k
    shift_token-Keeps _ p vs k h = rw (append-nil vs) (plain_token-Keeps _ p vs refl k h)

    after-Keeps :
        (vs ws : List Text) (r : Outcome (Unit {0}) × Parser)
        (rest : Parser → Outcome (Unit {0}) × Parser)
        → (r.0 ≡ ok tt → Holds vs r.1)
        → ((q : Parser) → Holds vs q → (rest q).0 ≡ ok tt → Holds ws (rest q).1)
        → (after_token r rest).0 ≡ ok tt
        → Holds ws (after_token r rest).1
    after-Keeps vs ws (ok _, q) rest k again h = again q (k refl) h
    after-Keeps vs ws (err e, q) rest k again h = cc
    after-Keeps vs ws (out_of_fuel, q) rest k again h = cc

    pub shift_tokens-Keeps :
        (tokens : List Token) (p : Parser) (vs : List Text)
        → Holds vs p
        → (shift_tokens tokens op_dir p).0 ≡ ok tt
        → Holds (vs ++ all_variables tokens) (shift_tokens tokens op_dir p).1
    unfolding shift_tokens
    shift_tokens-Keeps [] p vs k h = rw (append-nil vs) k
    shift_tokens-Keeps (token ∷ rest) p vs k h =
        let again = shift_tokens-Keeps rest in
        rw (sym (append_assoc vs (token_variables token) (all_variables rest))) (
          after-Keeps (vs ++ token_variables token)
            ((vs ++ token_variables token) ++ all_variables rest)
            (shift_token token op_dir (record p { tokens = rest })) (shift_tokens rest op_dir)
            (shift_token-Keeps token (record p { tokens = rest }) vs k)
            (λ q. again q (vs ++ token_variables token)) h)

    one_term : (t : Term) → stacked_variables (t ∷ []) ≡ variables t
    unfolding stacked_variables
    one_term t = refl

    take_term-variables :
        (ts : List Term) (p : Parser) (t : Term) → (take_term ts p).0 ≡ ok t → ts ≡ t ∷ []
    take_term-variables [] p t h = cc
    take_term-variables (s ∷ []) p t h = cc
    take_term-variables (s ∷ s' ∷ ts) p t h = cc

    finish_term-variables :
        (r : Outcome (Unit {0}) × Parser) (vs : List Text) (t : Term)
        → (r.0 ≡ ok tt → Holds vs r.1)
        → (finish_term r).0 ≡ ok t
        → variables t ≡ vs
    finish_term-variables (ok _, p) vs t k h =
        let kept = reduce_op-Keeps 1400 p vs (k refl) in reduced_term kept h
      where
        failed : {e : ParserError} → err e ≡ ok t → ⊥
        failed e = cc

        reduced_term :
            Holds vs (reduce_op 1400 p) → (finish_term (ok tt, p)).0 ≡ ok t → variables t ≡ vs
        reduced_term kept h =
            elim (Bool-cases (
              ltb 1 (length (reduce_op 1400 p).terms) || ltb 1 (length (reduce_op 1400 p).stack))) [
                | inl many ↦ absurd (failed (rw many at h))
                | inr one ↦
                    let single =
                      take_term-variables (reduce_op 1400 p).terms (reduce_op 1400 p) t
                        (rw one at h) in
                    sym (one_term t) ∙ ap stacked_variables (sym single) ∙ kept.vars
              ]
    finish_term-variables (err e, p) vs t k h = cc
    finish_term-variables (out_of_fuel, p) vs t k h = cc

    no_variables : stacked_variables [] ≡ []
    unfolding stacked_variables
    no_variables = refl

    -- A term that is read from tokens has their variables, each as often as it stands there and in
    -- the same order, where `|` is not declared an operator.
    pub read_provided-variables :
        (lexer : Lexer) (tokens : List Token) (t : Term)
        → (read_provided op_dir tokens (new lexer)).0 ≡ ok t
        → variables t ≡ all_variables tokens
    unfolding read_provided
    read_provided-variables lexer tokens t h =
        finish_term-variables (shift_tokens tokens op_dir (new lexer)) (all_variables tokens) t
          (shift_tokens-Keeps tokens (new lexer) [] (record { fits = empty; vars = no_variables }))
          h

    read_with-variables :
        (r : Outcome (List Token) × Lexer) (lexer : Lexer) (t : Term)
        → (read_with op_dir r (new lexer)).0 ≡ ok t
        → (tokens : List Token) × (r.0 ≡ ok tokens) × (variables t ≡ all_variables tokens)
    read_with-variables (ok tokens, lx) lexer t h =
        (tokens, refl, read_provided-variables lx tokens t h)
    read_with-variables (err e, lx) lexer t h = cc
    read_with-variables (out_of_fuel, lx) lexer t h = cc

    -- A term that is read from characters comes from tokens that the lexer read, and has their
    -- variables, each as often as it stands there and in the same order, where `|` is not declared
    -- an operator.
    pub read_term-variables :
        (lexer : Lexer) (t : Term)
        → (read_term op_dir (new lexer)).0 ≡ ok t
        → (tokens : List Token) × ((read_tokens lexer).0 ≡ ok tokens)
          × (variables t ≡ all_variables tokens)
    unfolding read_term
    read_term-variables lexer t h = read_with-variables (read_tokens lexer) lexer t h
