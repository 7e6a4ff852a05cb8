-- ===== src/Lexer/Number.antt =====
-- Numbers, src/parser/lexer.rs. A `GInteger` in the arena is its value.
use contrib_scryer_prolog.Base.{
  ℕ, zero, suc, Bool, true, false, not, ◌&&◌, Option, none, some, [], ◌∷◌, ◌++◌, ◌==◌,
  if◌then◌else◌, length,
}
use contrib_scryer_prolog.Base.Text.{Text, codes, text_eq}
use contrib_scryer_prolog.Base.Int.{pos}
use contrib_scryer_prolog.Numerics.{Numerics}
use contrib_scryer_prolog.Ast.Error.{ParserError, parse_big_int, unexpected_char, lexical_error}
use contrib_scryer_prolog.Ast.Fixnum.{
  Fixnum, build_with_char, build_with_checked, build_with_unchecked,
}
use contrib_scryer_prolog.Chars.{
  Unicode, backslash_char, binary_digit_char, decimal_digit_char, decimal_point_char, exponent_char,
  hexadecimal_digit_char, new_line_char, octal_digit_char, sign_char, single_quote_char,
}
use contrib_scryer_prolog.Lexer.State.{
  Lex, pure, raise, raise_here, ◌>>=◌, ◌>>◌, catch, unless_eof, attempt, exhausted, at_end,
  lookahead_char, read_char, return_char, skip_char, scan_while,
}
use contrib_scryer_prolog.Lexer.Layout.{scan_for_layout}
use contrib_scryer_prolog.Lexer.Quoted.{i64_from_str_radix, get_single_quoted_char}

abbrev pub push : ℕ → Text → Text
push c token = token ++ c ∷ []

abbrev pub last_of : Text → ℕ
last_of [] = 0
last_of (c ∷ []) = c
last_of (c ∷ d ∷ t) = last_of (d ∷ t)

abbrev pub init_of : Text → Text
init_of [] = []
init_of (c ∷ []) = []
init_of (c ∷ d ∷ t) = c ∷ init_of (d ∷ t)

module _ ⦃n : Numerics⦄ where
  pub data GInteger : Type 0 where
    big : n.Integer → GInteger
    small : Fixnum → GInteger

  pub data NumberToken : Type 0 where
    integer_token : GInteger → NumberToken
    float_token : n.F64 → NumberToken
    partial : Text → NumberToken

  unfoldable pub parse_integer_by_radix : Text → ℕ → Lex GInteger
  parse_integer_by_radix token radix = elim (i64_from_str_radix token radix) [
    | some v ↦ elim (build_with_checked (pos v)) [
      | some x ↦ pure (small x)
      | none ↦ pure (big (n.int_from (pos v)))
    ]
    | none ↦ elim (n.int_from_str_radix token radix) [
      | some v ↦ pure (big v)
      | none ↦ raise_here parse_big_int
    ]
  ]

  unfoldable pub parse_integer : Text → Lex GInteger
  unfolding parse_integer_by_radix
  parse_integer token = parse_integer_by_radix token 10

  unfoldable pub integer_of : Text → Lex NumberToken
  unfolding parse_integer
  integer_of token = do i ← parse_integer token; pure (integer_token i)

  unfoldable pub parse_float_lossy : Text → Lex n.F64
  parse_float_lossy token = elim (n.float_parse token) [
    | some x ↦ pure x
    | none ↦ raise lexical_error
  ]

  unfoldable pub float_of : Text → Lex NumberToken
  unfolding parse_float_lossy
  float_of token = do x ← parse_float_lossy token; pure (float_token x)

  -- The token's last character is put back, and the rest is the float.
  unfoldable pub vacate_with_float : Text → Lex NumberToken
  unfolding return_char float_of
  vacate_with_float token = do return_char (last_of token); float_of (init_of token)

  -- The body that the three radix prefixes share: the digits after `start`.
  unfoldable pub radix_constant : (ℕ → Bool) → ℕ → ℕ → Lex NumberToken
  unfolding skip_char lookahead_char return_char scan_while parse_integer_by_radix
  radix_constant is_digit radix start = do
    skip_char start
    c ← lookahead_char
    if is_digit c
        then (do
          token ← scan_while is_digit
          i ← parse_integer_by_radix token radix
          pure (integer_token i))
        else (do return_char start; raise_here parse_big_int)

  unfoldable pub hexadecimal_constant : ℕ → Lex NumberToken
  unfolding radix_constant
  hexadecimal_constant = radix_constant hexadecimal_digit_char 16

  unfoldable pub octal_constant : ℕ → Lex NumberToken
  unfolding radix_constant
  octal_constant = radix_constant octal_digit_char 8

  unfoldable pub binary_constant : ℕ → Lex NumberToken
  unfolding radix_constant
  binary_constant = radix_constant binary_digit_char 2

  -- A prefix without digits leaves the number before it.
  abbrev pub or_integer : Text → ParserError → Lex NumberToken
  or_integer token (ParserError.parse_big_int _ _) = integer_of token
  or_integer token e = raise e

  -- The end of the input inside a number gives what has been read of it.
  abbrev pub with_digits : Text → Option ℕ → (ℕ → Lex NumberToken) → Lex NumberToken
  with_digits token (some c) k = k c
  with_digits token none k = pure (partial token)

  -- After the sign, if there is one: `token` ends in the exponent character or the sign.
  unfoldable pub exponent_digits : Text → Lex NumberToken
  unfolding lookahead_char skip_char scan_while float_of vacate_with_float
  exponent_digits token = do
    c ← lookahead_char
    if decimal_digit_char c
        then (do
          digits ← scan_while decimal_digit_char
          end ← unless_eof lookahead_char
          with_digits (token ++ digits) end (λ _. float_of (token ++ digits)))
        else vacate_with_float token

  -- `token` ends in the exponent character, which has been skipped.
  unfoldable pub exponent_part : Text → Lex NumberToken
  unfolding lookahead_char skip_char return_char exponent_digits vacate_with_float
  exponent_part token = do
    next ← attempt lookahead_char
    elim next [
      | none ↦ vacate_with_float token
      | some c ↦
          if not (sign_char c) && not (decimal_digit_char c)
          then vacate_with_float token
          else if sign_char c
          then (do
            skip_char c
            next' ← attempt lookahead_char
            elim next' [
              | none ↦ do return_char c; vacate_with_float token
              | some c' ↦
                  if not (decimal_digit_char c')
                  then (do return_char c; vacate_with_float token)
                  else exponent_digits (push c token)
            ])
          else exponent_digits token
    ]

  -- After the point, at a digit.
  unfoldable pub fraction_part : Text → Lex NumberToken
  unfolding read_char lookahead_char skip_char scan_while exponent_part float_of
  fraction_part token = do
    d ← read_char
    digits ← scan_while decimal_digit_char
    let token' = push d (push b'.' token) ++ digits
    end ← unless_eof lookahead_char
    with_digits token' end (λ c.
        if exponent_char c
        then (do skip_char c; exponent_part (push c token'))
        else float_of token')

  -- At the point.
  unfoldable pub after_point : Text → ℕ → Lex NumberToken
  unfolding skip_char at_end return_char lookahead_char integer_of fraction_part
  after_point token c = do
    skip_char c
    ended ← at_end
    if ended then (do return_char b'.'; integer_of token) else (do
      d ← lookahead_char
      if decimal_digit_char d then fraction_part token else (do return_char b'.'; integer_of token))

  module _ ⦃u : Unicode⦄ where
    unfoldable pub skip_underscore_in_number : Lex ℕ
    unfolding lookahead_char skip_char scan_for_layout
    skip_underscore_in_number = do
      c ← lookahead_char
      if c == b'_'
          then (do
            skip_char c
            scan_for_layout
            c' ← lookahead_char
            if decimal_digit_char c' then pure c' else raise_here parse_big_int)
          else pure c

    -- The token, and the character after it unless the input has ended.
    unfoldable pub digits_loop : ℕ → Text → Lex (Text × Option ℕ)
    unfolding skip_underscore_in_number skip_char
    digits_loop zero token = exhausted
    digits_loop (suc fuel) token = do
      next ← unless_eof skip_underscore_in_number
      elim next [
        | none ↦ pure (token, none)
        | some c ↦ elim (decimal_digit_char c) [
          | true ↦ do skip_char c; digits_loop fuel (push c token)
          | false ↦ pure (token, some c)
        ]
      ]

    -- A single quote that is not doubled ends the number before it.
    abbrev pub or_quote : ℕ → Text → ParserError → Lex NumberToken
    or_quote c token (ParserError.unexpected_char d l k) =
        if single_quote_char d
        then (do return_char c; integer_of token)
        else raise (unexpected_char d l k)
    or_quote c token e = raise e

    -- `0'c`, after the quote.
    unfoldable pub char_constant : Text → ℕ → Lex NumberToken
    unfolding get_single_quoted_char return_char
    char_constant token c =
        catch (do d ← get_single_quoted_char; pure (integer_token (small (build_with_char d))))
          (or_quote c token)

    unfoldable pub quote_constant : Text → ℕ → Lex NumberToken
    unfolding skip_char lookahead_char return_char char_constant
    quote_constant token quote = do
      skip_char quote
      c ← lookahead_char
      if backslash_char c
          then (do
            skip_char c
            c' ← lookahead_char
            if new_line_char c'
                then (do
                  skip_char c'
                  return_char 0x27
                  pure (integer_token (small (build_with_unchecked (pos 0)))))
                else (do return_char 0x5c; char_constant token c))
          else char_constant token c

    -- What follows the digits `token`, at `c`.
    unfoldable pub after_digits : Text → ℕ → Lex NumberToken
    unfolding after_point hexadecimal_constant octal_constant binary_constant quote_constant
        integer_of
    after_digits token c =
        if decimal_point_char c
        then after_point token c
        else if text_eq token (codes "0")
        then (if c == b'x'
            then catch (hexadecimal_constant c) (or_integer token)
            else if c == b'o'
            then catch (octal_constant c) (or_integer token)
            else if c == b'b'
            then catch (binary_constant c) (or_integer token)
            else if single_quote_char c
            then quote_constant token c
            else integer_of token)
        else integer_of token

    -- Each digit consumes a character, so the fuel is enough.
    unfoldable pub number_token : ℕ → Lex NumberToken
    unfolding skip_char digits_loop after_digits
    number_token leading_c lx =
        (do
          skip_char leading_c
          (token, next) ← digits_loop (suc (length lx.chars)) (leading_c ∷ [])
          with_digits token next (after_digits token))
          lx
