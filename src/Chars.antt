-- ===== src/Chars.antt =====
-- parser/macros.rs: the character classes. A `char` is its code point. The Unicode tables of the
-- standard library are an interface, with what it documents of them over ASCII.
use contrib_scryer_prolog.Base.{ℕ, ◌<◌, ◌≡◌, Bool, false, not, ◌&&◌, ◌||◌, [], ◌∷◌, ltb, leb, ◌==◌}
use contrib_scryer_prolog.Base.Text.{Text, codes}

abbrev pub between : ℕ → ℕ → ℕ → Bool
between lo hi c = leb lo c && leb c hi

-- `char::is_ascii_digit`
abbrev pub decimal_digit_char : ℕ → Bool
decimal_digit_char c = between b'0' b'9' c

pub record Unicode : Type 0 where
  pub is_numeric : ℕ → Bool
  pub is_whitespace : ℕ → Bool
  pub is_control : ℕ → Bool
  pub is_uppercase : ℕ → Bool
  pub is_alphabetic : ℕ → Bool
  pub numeric_ascii : (c : ℕ) → c < 128 → is_numeric c ≡ decimal_digit_char c
  pub whitespace_ascii : (c : ℕ) → c < 128 → is_whitespace c ≡ (between 9 13 c || c == 32)
  pub control_ascii : (c : ℕ) → c < 128 → is_control c ≡ (ltb c 32 || c == 127)
  pub uppercase_ascii : (c : ℕ) → c < 128 → is_uppercase c ≡ between b'A' b'Z' c
  pub alphabetic_ascii :
      (c : ℕ) → c < 128 → is_alphabetic c ≡ (between b'A' b'Z' c || between b'a' b'z' c)

-- `char_class!`
abbrev pub char_class : ℕ → Text → Bool
char_class c [] = false
char_class c (d ∷ ds) = c == d || char_class c ds

unfoldable pub backslash_char : ℕ → Bool
backslash_char c = c == 0x5c

unfoldable pub back_quote_char : ℕ → Bool
back_quote_char c = c == b'`'

unfoldable pub octet_char : ℕ → Bool
octet_char c = leb c 0xff

unfoldable pub comment_1_char : ℕ → Bool
comment_1_char c = c == b'/'

unfoldable pub comment_2_char : ℕ → Bool
comment_2_char c = c == b'*'

unfoldable pub cut_char : ℕ → Bool
cut_char c = c == b'!'

unfoldable pub decimal_point_char : ℕ → Bool
decimal_point_char c = c == b'.'

unfoldable pub double_quote_char : ℕ → Bool
double_quote_char c = c == 0x22

unfoldable pub end_line_comment_char : ℕ → Bool
end_line_comment_char c = c == b'%'

unfoldable pub exponent_char : ℕ → Bool
exponent_char c = c == b'e' || c == b'E'

unfoldable pub graphic_char : ℕ → Bool
graphic_char c = char_class c (codes "#$&*+-./:<=>?@^~")

unfoldable pub graphic_token_char : ℕ → Bool
unfolding graphic_char backslash_char
graphic_token_char c = graphic_char c || backslash_char c

unfoldable pub hexadecimal_digit_char : ℕ → Bool
hexadecimal_digit_char c = decimal_digit_char c || between b'A' b'F' c || between b'a' b'f' c

-- space, carriage return, line feed, tab, vertical tab and form feed
unfoldable pub layout_char : ℕ → Bool
layout_char c = char_class c (32 ∷ 13 ∷ 10 ∷ 9 ∷ 11 ∷ 12 ∷ [])

-- backslash and the three quotes
unfoldable pub meta_char : ℕ → Bool
meta_char c = char_class c (0x5c ∷ 0x27 ∷ 0x22 ∷ 0x60 ∷ [])

unfoldable pub new_line_char : ℕ → Bool
new_line_char c = c == 10

unfoldable pub octal_digit_char : ℕ → Bool
octal_digit_char c = between b'0' b'7' c

unfoldable pub binary_digit_char : ℕ → Bool
binary_digit_char c = c == b'0' || c == b'1'

unfoldable pub semicolon_char : ℕ → Bool
semicolon_char c = c == b';'

unfoldable pub sign_char : ℕ → Bool
sign_char c = c == b'-' || c == b'+'

unfoldable pub single_quote_char : ℕ → Bool
single_quote_char c = c == 0x27

unfoldable pub solo_char : ℕ → Bool
solo_char c = char_class c (codes "!(),;[]{}|%")

unfoldable pub space_char : ℕ → Bool
space_char c = c == 32

unfoldable pub symbolic_control_char : ℕ → Bool
symbolic_control_char c = char_class c (codes "abfnrtv0")

unfoldable pub symbolic_hexadecimal_char : ℕ → Bool
symbolic_hexadecimal_char c = c == b'x'

unfoldable pub variable_indicator_char : ℕ → Bool
variable_indicator_char c = c == b'_'

module _ ⦃u : Unicode⦄ where
  unfoldable pub alpha_char : ℕ → Bool
  alpha_char c =
      (not (u.is_numeric c)
        && not (u.is_whitespace c)
        && not (u.is_control c)
        && not (graphic_token_char c)
        && not (layout_char c)
        && not (meta_char c)
        && not (solo_char c))
      || c == b'_'

  unfoldable pub alpha_numeric_char : ℕ → Bool
  unfolding alpha_char
  alpha_numeric_char c = alpha_char c || u.is_numeric c

  unfoldable pub capital_letter_char : ℕ → Bool
  capital_letter_char c = u.is_uppercase c

  unfoldable pub prolog_char : ℕ → Bool
  prolog_char c =
      graphic_char c || alpha_numeric_char c || solo_char c || layout_char c || meta_char c

  unfoldable pub small_letter_char : ℕ → Bool
  small_letter_char c = u.is_alphabetic c && not (u.is_uppercase c)
