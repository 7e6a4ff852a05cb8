-- ===== src/Parser/Read.antt =====
-- `read_tokens` and `read_term` of src/parser/parser.rs.
use contrib_scryer_prolog.Base.{
  ℕ, zero, suc, ◌+◌, Bool, true, false, ◌&&◌, ◌||◌, List, [], ◌∷◌, ltb, if◌then◌else◌, length,
}
use contrib_scryer_prolog.Numerics.{Numerics}
use contrib_scryer_prolog.Ast.Error.{ParserError, is_unexpected_eof, incomplete_reduction}
use contrib_scryer_prolog.Ast.OpDir.{IndexMap, CompositeOpDir}
use contrib_scryer_prolog.Ast.Term.{Term}
use contrib_scryer_prolog.Chars.{Unicode}
use contrib_scryer_prolog.Lexer.State.{
  Lexer, Outcome, ok, err, out_of_fuel, Lex, pure, raise, raise_here, ◌>>=◌, exhausted,
}
use contrib_scryer_prolog.Lexer.Token.{Token, is_end, next_token}
use contrib_scryer_prolog.Parser.State.{Parser}
use contrib_scryer_prolog.Parser.ReduceOp.{reduce_op}
use contrib_scryer_prolog.Parser.Lists.{incomplete}
use contrib_scryer_prolog.Parser.Shift.{shift_token}

module _ ⦃n : Numerics⦄ where
  abbrev pub new : Lexer → Parser
  new lexer = record { lexer = lexer; tokens = []; stack = []; terms = [] }

  -- `Parser::reset` clears the stack alone.
  unfoldable pub reset : Parser → Parser
  reset p = record p { stack = [] }

  unfoldable pub add_lines_read : ℕ → Parser → Parser
  add_lines_read lines_read p = record p {
    lexer = record (p.lexer) { line_num = p.lexer.line_num + lines_read };
  }

  abbrev pub lines_read : Parser → ℕ
  lines_read p = p.lexer.line_num

  module _ ⦃u : Unicode⦄ where
    -- An end of the input after the first token is an incomplete reduction.
    abbrev pub token_error : Bool → ParserError → Lex (List Token)
    token_error started e =
        if is_unexpected_eof e && started then raise_here incomplete_reduction else raise e

    abbrev pub collect : Bool → Outcome Token → Lex (List Token) → Lex (List Token)
    collect started (ok token) rest =
        if is_end token then pure (token ∷ []) else rest >>= λ tokens. pure (token ∷ tokens)
    collect started (err e) rest = token_error started e
    collect started out_of_fuel rest = exhausted

    -- The tokens up to the end token, in the order in which they are read. The source reverses
    -- the vector, and takes tokens from its end.
    unfoldable pub read_loop : ℕ → Bool → Lex (List Token)
    unfolding next_token is_end
    read_loop zero started lx = (out_of_fuel, lx)
    read_loop (suc fuel) started lx =
        let rest : Lex (List Token) = read_loop fuel true in
        collect started (next_token lx).0 rest (next_token lx).1

    -- A token consumes a character at least.
    unfoldable pub read_tokens : Lex (List Token)
    unfolding read_loop
    read_tokens lx = read_loop (suc (length lx.chars)) false lx

    abbrev pub after_token :
        Outcome (Unit {0}) × Parser
        → (Parser → Outcome (Unit {0}) × Parser)
        → Outcome (Unit {0}) × Parser
    after_token (ok _, p) k = k p
    after_token (err e, p) k = (err e, p)
    after_token (out_of_fuel, p) k = (out_of_fuel, p)

    module _ ⦃i : IndexMap⦄ where
      -- `while let Some(token) = self.tokens.pop()`
      unfoldable pub shift_tokens :
          List Token → CompositeOpDir → Parser → Outcome (Unit {0}) × Parser
      unfolding shift_token
      shift_tokens [] op_dir p = (ok tt, record p { tokens = [] })
      shift_tokens (token ∷ rest) op_dir p =
          after_token (shift_token token op_dir (record p { tokens = rest }))
            (shift_tokens rest op_dir)

    -- `self.terms.pop()`, which must leave no term.
    abbrev pub take_term : List Term → Parser → Outcome Term × Parser
    take_term (t ∷ []) p = (ok t, record p { terms = [] })
    take_term _ p = incomplete p

    abbrev pub finish_term : Outcome (Unit {0}) × Parser → Outcome Term × Parser
    finish_term (ok _, p) =
        let p' = reduce_op 1400 p in
        if ltb 1 (length p'.terms) || ltb 1 (length p'.stack)
        then incomplete p'
        else take_term p'.terms p'
    finish_term (err e, p) = (err e, p)
    finish_term (out_of_fuel, p) = (out_of_fuel, p)

    module _ ⦃i : IndexMap⦄ where
      -- `Tokens::Provided`
      unfoldable pub read_provided : CompositeOpDir → List Token → Parser → Outcome Term × Parser
      unfolding shift_tokens reduce_op
      read_provided op_dir tokens p = finish_term (shift_tokens tokens op_dir p)

      abbrev pub read_with :
          CompositeOpDir → Outcome (List Token) × Lexer → Parser → Outcome Term × Parser
      read_with op_dir (ok tokens, lx) p = read_provided op_dir tokens (record p { lexer = lx })
      read_with op_dir (err e, lx) p = (err e, record p { lexer = lx })
      read_with op_dir (out_of_fuel, lx) p = (out_of_fuel, record p { lexer = lx })

      -- `Tokens::Default`
      unfoldable pub read_term : CompositeOpDir → Parser → Outcome Term × Parser
      unfolding read_tokens read_provided
      read_term op_dir p = read_with op_dir (read_tokens p.lexer) p
