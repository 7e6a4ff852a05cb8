-- ===== src/Lexer/Token.antt =====
-- Tokens and `next_token`, src/parser/lexer.rs. An atom is its text: the inlined and the interned
-- form of one text are one atom.
pub mod QuotedName
use contrib_scryer_prolog.Base.{
  ℕ, Bool, true, false, ◌||◌, Option, none, some, [], ◌∷◌, ◌==◌, if◌then◌else◌,
}
use contrib_scryer_prolog.Base.Text.{Text}
use contrib_scryer_prolog.Numerics.{Numerics}
use contrib_scryer_prolog.Ast.Error.{
  unexpected_eof, back_quoted_string, invalid_single_quoted_character,
}
use contrib_scryer_prolog.Ast.Term.{Literal, atom, fixnum, integer, f64}
use contrib_scryer_prolog.Chars.{
  Unicode, alpha_numeric_char, capital_letter_char, cut_char, decimal_digit_char,
  graphic_token_char, layout_char, new_line_char, semicolon_char, single_quote_char,
  small_letter_char, variable_indicator_char,
}
use contrib_scryer_prolog.Lexer.State.{
  DoubleQuotes, atom_flag, Outcome, Lex, pure, raise, raise_here, ◌>>=◌, ◌>>◌, attempt,
  lookahead_char, read_char, return_char, skip_char, scan_while, consume_chars_with,
}
use contrib_scryer_prolog.Lexer.Layout.{scan_for_layout}
use contrib_scryer_prolog.Lexer.Quoted.{
  get_back_quoted_string, get_single_quoted_item, char_code_list_token,
}
use contrib_scryer_prolog.Lexer.Number.{
  GInteger, big, small, NumberToken, integer_token, float_token, partial, parse_integer,
  parse_float_lossy, number_token,
}

module _ ⦃n : Numerics⦄ where
  pub data Token : Type 0 where
    literal_token : Literal → Token
    var_token : Text → Token
    string_token : Text → Token
    open_token open_ct_token close_token : Token
    open_list_token close_list_token : Token
    open_curly_token close_curly_token : Token
    head_tail_separator_token comma_token end_token : Token

  unfoldable pub is_end : Token → Bool
  is_end end_token = true
  is_end _ = false

  unfoldable pub to_literal : GInteger → Literal
  to_literal (big i) = integer i
  to_literal (small x) = fixnum x

  -- `NumberToken::to_token`
  unfoldable pub to_token : NumberToken → Option Token
  unfolding to_literal
  to_token (float_token x) = some (literal_token (f64 x))
  to_token (integer_token i) = some (literal_token (to_literal i))
  to_token (partial _) = none

  abbrev pub atom_token : Text → Token
  atom_token token = literal_token (atom token)

  -- `DoubleQuotes::Atom` reads a double quoted item as an atom.
  abbrev pub quoted_token : DoubleQuotes → Text → Token
  quoted_token atom_flag s = atom_token s
  quoted_token _ s = string_token s

  module _ ⦃u : Unicode⦄ where
    unfoldable pub variable_token : Lex Token
    unfolding read_char scan_while lookahead_char
    variable_token = do
      c ← read_char
      s ← scan_while alpha_numeric_char
      lookahead_char
      pure (var_token (c ∷ s))

    -- A name is its first character and what follows of the same class.
    unfoldable pub name_of : (ℕ → Bool) → ℕ → Lex Token
    unfolding skip_char scan_while lookahead_char
    name_of p c = do skip_char c; s ← scan_while p; lookahead_char; pure (atom_token (c ∷ s))

    unfoldable pub quoted_name : ℕ → Lex Token
    unfolding skip_char consume_chars_with get_single_quoted_item lookahead_char
    quoted_name c = do
      skip_char c
      token ← consume_chars_with get_single_quoted_item
      c' ← lookahead_char
      if single_quote_char c'
          then (do skip_char c'; pure (atom_token token))
          else raise (invalid_single_quoted_character c')

    unfoldable pub name_token : ℕ → Lex Token
    unfolding name_of quoted_name skip_char get_back_quoted_string
    name_token c =
        if small_letter_char c
        then name_of alpha_numeric_char c
        else if graphic_token_char c
        then name_of graphic_token_char c
        else if cut_char c || semicolon_char c
        then (do skip_char c; pure (atom_token (c ∷ [])))
        else if single_quote_char c
        then quoted_name c
        else (do get_back_quoted_string; raise_here back_quoted_string)

    abbrev pub number_of_partial : Text → Outcome GInteger → Lex Token
    number_of_partial s (Outcome.ok i) = pure (literal_token (to_literal i))
    number_of_partial s (Outcome.err _) = do x ← parse_float_lossy s; pure (literal_token (f64 x))
    number_of_partial s Outcome.out_of_fuel = λ lx. (Outcome.out_of_fuel, lx)

    abbrev pub partial_number : Text → Lex Token
    partial_number s lx = let (r, lx') = parse_integer s lx in number_of_partial s r lx'

    abbrev pub finish_number : NumberToken → Lex Token
    finish_number (partial s) = partial_number s
    finish_number (float_token x) = pure (literal_token (f64 x))
    finish_number (integer_token i) = pure (literal_token (to_literal i))

    unfoldable pub next_number_token : Lex Token
    unfolding scan_for_layout lookahead_char name_token number_token to_literal
    next_number_token = do
      scan_for_layout
      c ← lookahead_char
      if decimal_digit_char c then (do nt ← number_token c; finish_number nt) else name_token c

    -- A point before layout, a comment or the end of the input ends the clause.
    abbrev pub ends_clause : Option ℕ → Bool
    ends_clause (some c) = layout_char c || c == b'%'
    ends_clause none = true

    abbrev pub skip_new_line : Option ℕ → Lex (Unit {0})
    skip_new_line (some c) = if new_line_char c then skip_char c else pure tt
    skip_new_line none = pure tt

    unfoldable pub point_token : ℕ → Lex Token
    unfolding skip_char lookahead_char return_char name_token
    point_token c = do
      skip_char c
      next ← attempt lookahead_char
      if ends_clause next
          then (do skip_new_line next; pure end_token)
          else (do return_char b'.'; name_token c)

    abbrev pub token_or_eof : Option Token → Lex Token
    token_or_eof (some t) = pure t
    token_or_eof none = raise unexpected_eof

    unfoldable pub double_quoted_token : ℕ → Lex Token
    unfolding char_code_list_token
    double_quoted_token c = do
      s ← char_code_list_token c
      λ lx. (Outcome.ok (quoted_token lx.double_quotes s), lx)

    -- The token that `c` begins, after the layout.
    unfoldable pub token_at : Bool → ℕ → Lex Token
    unfolding variable_token skip_char point_token number_token to_token double_quoted_token
        name_token
    token_at layout_inserted c =
        if capital_letter_char c || variable_indicator_char c
        then variable_token
        else if c == b','
        then (do skip_char c; pure comma_token)
        else if c == b')'
        then (do skip_char c; pure close_token)
        else if c == b'('
        then (do skip_char c; pure (if layout_inserted then open_token else open_ct_token))
        else if c == b'.'
        then point_token c
        else if decimal_digit_char c
        then (do nt ← number_token c; token_or_eof (to_token nt))
        else if c == b']'
        then (do skip_char c; pure close_list_token)
        else if c == b'['
        then (do skip_char c; pure open_list_token)
        else if c == b'|'
        then (do skip_char c; pure head_tail_separator_token)
        else if c == b'{'
        then (do skip_char c; pure open_curly_token)
        else if c == b'}'
        then (do skip_char c; pure close_curly_token)
        else if c == 0x22
        then double_quoted_token c
        else if c == 0
        then raise unexpected_eof
        else name_token c

    unfoldable pub next_token : Lex Token
    unfolding scan_for_layout lookahead_char token_at
    next_token = do
      layout_inserted ← scan_for_layout
      c ← lookahead_char
      token_at layout_inserted c
