-- ===== src/Ast/Error.antt =====
-- `ParserError` of src/parser/ast.rs. An I/O error is its kind; the payload of a lexical error is
-- the `lexical` crate's and is left out.
use contrib_scryer_prolog.Base.{ℕ, Bool, true, false, Option, none, some}
use contrib_scryer_prolog.Base.Text.{Text, codes}

pub data ErrorKind : Type 0 where
  unexpected_eof_kind invalid_data_kind other_kind : ErrorKind

pub data ParserError : Type 0 where
  back_quoted_string : ℕ → ℕ → ParserError
  io : ErrorKind → ParserError
  incomplete_reduction : ℕ → ℕ → ParserError
  infinite_float : ℕ → ℕ → ParserError
  invalid_single_quoted_character : ℕ → ParserError
  lexical_error : ParserError
  missing_quote : ℕ → ℕ → ParserError
  non_prolog_char : ℕ → ℕ → ParserError
  parse_big_int : ℕ → ℕ → ParserError
  unexpected_char : ℕ → ℕ → ℕ → ParserError
  utf8_error : ℕ → ℕ → ParserError

unfoldable pub line_and_col_num : ParserError → Option (ℕ × ℕ)
line_and_col_num (back_quoted_string l c) = some (l, c)
line_and_col_num (incomplete_reduction l c) = some (l, c)
line_and_col_num (infinite_float l c) = some (l, c)
line_and_col_num (missing_quote l c) = some (l, c)
line_and_col_num (non_prolog_char l c) = some (l, c)
line_and_col_num (parse_big_int l c) = some (l, c)
line_and_col_num (unexpected_char _ l c) = some (l, c)
line_and_col_num (utf8_error l c) = some (l, c)
line_and_col_num _ = none

unfoldable pub as_atom : ParserError → Text
as_atom (back_quoted_string _ _) = codes "back_quoted_string"
as_atom (incomplete_reduction _ _) = codes "incomplete_reduction"
as_atom (invalid_single_quoted_character _) = codes "invalid_single_quoted_character"
as_atom (infinite_float _ _) = codes "infinite_float"
as_atom (io unexpected_eof_kind) = codes "unexpected_end_of_file"
as_atom (io invalid_data_kind) = codes "invalid_data"
as_atom (io other_kind) = codes "input_output_error"
as_atom lexical_error = codes "lexical_error"
as_atom (missing_quote _ _) = codes "missing_quote"
as_atom (non_prolog_char _ _) = codes "non_prolog_character"
as_atom (parse_big_int _ _) = codes "cannot_parse_big_int"
as_atom (unexpected_char _ _ _) = codes "unexpected_char"
as_atom (utf8_error _ _) = codes "utf8_conversion_error"

abbrev pub unexpected_eof : ParserError
unexpected_eof = io unexpected_eof_kind

abbrev pub is_unexpected_eof : ParserError → Bool
is_unexpected_eof (io unexpected_eof_kind) = true
is_unexpected_eof _ = false
