-- ===== src/Lexer/Quoted.antt =====
-- Quoted items and escape sequences, src/parser/lexer.rs.
use contrib_scryer_prolog.Base.{
  ℕ, ◌+◌, ◌-◌, ◌*◌, ◌^◌, Bool, not, ◌||◌, Option, none, some, [], ◌∷◌, ltb, leb, ◌==◌,
  if◌then◌else◌,
}
use contrib_scryer_prolog.Base.Text.{Text}
use contrib_scryer_prolog.Ast.Error.{
  incomplete_reduction, missing_quote, parse_big_int, unexpected_char, utf8_error,
}
use contrib_scryer_prolog.Chars.{
  Unicode, between, alpha_numeric_char, backslash_char, back_quote_char, double_quote_char,
  graphic_char, hexadecimal_digit_char, meta_char, new_line_char, octal_digit_char,
  single_quote_char, solo_char, space_char, symbolic_hexadecimal_char,
}
use contrib_scryer_prolog.Lexer.State.{
  Lex, pure, raise_here, ◌>>=◌, ◌>>◌, lookahead_char, read_char, return_char, skip_char, scan_while,
  consume_chars_with,
}

-- The value of a digit in a radix, and of a numeral, most significant digit first. `none` is an
-- invalid digit or an empty numeral. (The standard library takes a sign too, which the lexer never
-- passes.)
unfoldable pub digit_value : ℕ → ℕ → Option ℕ
digit_value radix c =
    let v : ℕ =
      if between b'0' b'9' c
      then c - b'0'
      else if between b'a' b'z' c
      then c - b'a' + 10
      else if between b'A' b'Z' c
      then c - b'A' + 10
      else radix in
    if ltb v radix then some v else none

unfoldable pub digits_value : ℕ → ℕ → Text → Option ℕ
unfolding digit_value
digits_value radix acc [] = some acc
digits_value radix acc (c ∷ cs) = elim (digit_value radix c) [
  | none ↦ none
  | some v ↦ digits_value radix (acc * radix + v) cs
]

unfoldable pub numeral_value : ℕ → Text → Option ℕ
unfolding digits_value
numeral_value radix [] = none
numeral_value radix (c ∷ cs) = digits_value radix 0 (c ∷ cs)

-- `u32::from_str_radix` and `i64::from_str_radix` of a numeral without a sign.
abbrev pub at_most : ℕ → Option ℕ → Option ℕ
at_most top (some n) = if leb n top then some n else none
at_most top none = none

abbrev pub u32_from_str_radix : Text → ℕ → Option ℕ
u32_from_str_radix token radix = at_most (2 ^ 32 - 1) (numeral_value radix token)

abbrev pub i64_from_str_radix : Text → ℕ → Option ℕ
i64_from_str_radix token radix = at_most (2 ^ 63 - 1) (numeral_value radix token)

-- `char::try_from(u32)`: no surrogates, and nothing above U+10FFFF.
unfoldable pub is_char : ℕ → Bool
is_char n = ltb n 0xd800 || between 0xe000 0x10ffff n

unfoldable pub char_of_token : Text → ℕ → Lex ℕ
unfolding is_char numeral_value
char_of_token token radix = elim (u32_from_str_radix token radix) [
  | none ↦ raise_here parse_big_int
  | some n ↦ if is_char n then pure n else raise_here utf8_error
]

-- The character at the reader's head is taken whatever it is.
unfoldable pub escape_sequence_to_char : (ℕ → Bool) → ℕ → Lex ℕ
unfolding lookahead_char skip_char scan_while char_of_token backslash_char
escape_sequence_to_char accept_char radix = do
  c ← lookahead_char
  skip_char c
  token ← scan_while accept_char
  c' ← lookahead_char
  if backslash_char c'
      then (do skip_char c'; char_of_token (c ∷ token) radix)
      else raise_here incomplete_reduction

unfoldable pub get_octal_escape_sequence : Lex ℕ
unfolding escape_sequence_to_char
get_octal_escape_sequence = escape_sequence_to_char octal_digit_char 8

unfoldable pub get_hexadecimal_escape_sequence : ℕ → Lex ℕ
unfolding skip_char lookahead_char escape_sequence_to_char
get_hexadecimal_escape_sequence start = do
  skip_char start
  c ← lookahead_char
  if hexadecimal_digit_char c
      then escape_sequence_to_char hexadecimal_digit_char 16
      else raise_here incomplete_reduction

unfoldable pub control_escape : ℕ → Option ℕ
control_escape c =
    if c == b'a'
    then some 0x07
    else if c == b'b'
    then some 0x08
    else if c == b'v'
    then some 0x0b
    else if c == b'f'
    then some 0x0c
    else if c == b't'
    then some 0x09
    else if c == b'n'
    then some 0x0a
    else if c == b'r'
    then some 0x0d
    else none

unfoldable pub get_control_escape_sequence : Lex ℕ
unfolding lookahead_char skip_char control_escape
get_control_escape_sequence = do
  c ← lookahead_char
  elim (control_escape c) [
    | none ↦ raise_here (unexpected_char c)
    | some escaped ↦ do skip_char c; pure escaped
  ]

module _ ⦃u : Unicode⦄ where
  unfoldable pub get_non_quote_char : Lex ℕ
  unfolding lookahead_char skip_char get_octal_escape_sequence get_hexadecimal_escape_sequence
      get_control_escape_sequence
  get_non_quote_char = do
    c ← lookahead_char
    if graphic_char c || alpha_numeric_char c || solo_char c || space_char c
        then (do skip_char c; pure c)
        else if not (backslash_char c)
        then raise_here (unexpected_char c)
        else (do
          skip_char c
          c' ← lookahead_char
          if meta_char c'
              then (do skip_char c'; pure c')
              else if octal_digit_char c'
              then get_octal_escape_sequence
              else if symbolic_hexadecimal_char c'
              then get_hexadecimal_escape_sequence c'
              else get_control_escape_sequence)

  -- A quote that is doubled stands for itself, a single one is put back as the end of the item.
  unfoldable pub doubled_quote : (ℕ → Bool) → ℕ → Lex ℕ
  unfolding lookahead_char skip_char return_char
  doubled_quote is_quote c = do
    skip_char c
    c' ← lookahead_char
    if not (is_quote c')
        then (do return_char c; raise_here (unexpected_char c))
        else (do skip_char c'; pure c')

  unfoldable pub get_single_quoted_char : Lex ℕ
  unfolding lookahead_char skip_char doubled_quote get_non_quote_char
  get_single_quoted_char = do
    c ← lookahead_char
    if single_quote_char c
        then doubled_quote single_quote_char c
        else if double_quote_char c || back_quote_char c
        then (do skip_char c; pure c)
        else get_non_quote_char

  unfoldable pub get_double_quoted_char : Lex ℕ
  unfolding lookahead_char skip_char doubled_quote get_non_quote_char
  get_double_quoted_char = do
    c ← lookahead_char
    if double_quote_char c
        then doubled_quote double_quote_char c
        else if single_quote_char c || back_quote_char c
        then (do skip_char c; pure c)
        else get_non_quote_char

  unfoldable pub get_back_quoted_char : Lex ℕ
  unfolding lookahead_char read_char skip_char doubled_quote get_non_quote_char
  get_back_quoted_char = do
    c ← lookahead_char
    if back_quote_char c
        then doubled_quote back_quote_char c
        else if single_quote_char c
        then (do skip_char c; read_char)
        else get_non_quote_char

  -- A backslash before a line break joins the lines; before anything else it is put back.
  unfoldable pub quoted_item : Lex ℕ → Lex (Option ℕ)
  unfolding lookahead_char skip_char return_char
  quoted_item get_char = do
    c ← lookahead_char
    if backslash_char c
        then (do
          skip_char c
          c' ← lookahead_char
          if new_line_char c'
              then (do skip_char c'; pure none)
              else (do return_char c; d ← get_char; pure (some d)))
        else (do d ← get_char; pure (some d))

  unfoldable pub get_single_quoted_item : Lex (Option ℕ)
  unfolding quoted_item get_single_quoted_char
  get_single_quoted_item = quoted_item get_single_quoted_char

  unfoldable pub get_double_quoted_item : Lex (Option ℕ)
  unfolding quoted_item get_double_quoted_char
  get_double_quoted_item = quoted_item get_double_quoted_char

  -- Here any other character after a backslash is an error.
  unfoldable pub get_back_quoted_item : Lex (Option ℕ)
  unfolding lookahead_char skip_char return_char get_back_quoted_char
  get_back_quoted_item = do
    c ← lookahead_char
    if backslash_char c
        then (do
          skip_char c
          c' ← lookahead_char
          if new_line_char c'
              then (do skip_char c'; pure none)
              else (do return_char c; raise_here (unexpected_char c)))
        else (do d ← get_back_quoted_char; pure (some d))

  unfoldable pub get_back_quoted_string : Lex Text
  unfolding lookahead_char skip_char consume_chars_with get_back_quoted_item
  get_back_quoted_string = do
    c ← lookahead_char
    if back_quote_char c
        then (do
          skip_char c
          token ← consume_chars_with get_back_quoted_item
          c' ← lookahead_char
          if back_quote_char c' then (do skip_char c'; pure token) else raise_here missing_quote)
        else raise_here (unexpected_char c)

  unfoldable pub char_code_list_token : ℕ → Lex Text
  unfolding lookahead_char skip_char consume_chars_with get_double_quoted_item
  char_code_list_token start = do
    skip_char start
    token ← consume_chars_with get_double_quoted_item
    c ← lookahead_char
    if double_quote_char c then (do skip_char c; pure token) else raise_here missing_quote
