-- ===== src/CharReader/Utf8.antt =====
-- The UTF-8 of Rust's standard library as src/parser/char_reader.rs uses it: `str::from_utf8` with
-- `Utf8Error::valid_up_to`, `char::encode_utf8` and `char::len_utf8`. A byte is a number.
pub mod Encode
pub mod Decode
pub mod Valid
use contrib_scryer_prolog.Base.{
  ℕ, zero, suc, ◌+◌, ◌-◌, ◌*◌, ◌/◌, ◌%◌, ◌≤◌, ◌<◌, ◌≡◌, refl, sym, ◌∙◌, ap, Bool, true, false, ◌&&◌,
  ◌||◌, Option, none, some, List, [], ◌∷◌, ◌++◌, ltb, leb, ◌==◌, if◌then◌else◌, length, arith,
  Bool-cases, inl, inr, ◌⊎◌,
}
use contrib_scryer_prolog.Chars.{between}

-- A byte after the first one holds six bits.
abbrev pub continuation : ℕ → ℕ
continuation c = 128 + c % 64

unfoldable pub encode_utf8 : ℕ → List ℕ
encode_utf8 c =
    if ltb c 128
    then c ∷ []
    else if ltb c 2048
    then (192 + c / 64) ∷ continuation c ∷ []
    else if ltb c 65536
    then (224 + c / 4096) ∷ continuation (c / 64) ∷ continuation c ∷ []
    else (240 + c / 262144) ∷ continuation (c / 4096) ∷ continuation (c / 64) ∷ continuation c ∷ []

unfoldable pub len_utf8 : ℕ → ℕ
len_utf8 c = if ltb c 128 then 1 else if ltb c 2048 then 2 else if ltb c 65536 then 3 else 4

abbrev pub is_continuation : ℕ → Bool
is_continuation = between 128 191

-- The second byte by the first: no form longer than needed, no surrogate, nothing past 0x10ffff.
abbrev pub second_of_three : ℕ → ℕ → Bool
second_of_three b₀ b₁ =
    if b₀ == 224
    then between 160 191 b₁
    else if b₀ == 237
    then between 128 159 b₁
    else is_continuation b₁

abbrev pub second_of_four : ℕ → ℕ → Bool
second_of_four b₀ b₁ =
    if b₀ == 240
    then between 144 191 b₁
    else if b₀ == 244
    then between 128 143 b₁
    else is_continuation b₁

abbrev pub two_bytes : ℕ → List ℕ → Option (ℕ × List ℕ)
two_bytes b₀ (b₁ ∷ rest) =
    if is_continuation b₁ then some ((b₀ - 192) * 64 + (b₁ - 128), rest) else none
two_bytes b₀ [] = none

abbrev pub three_bytes : ℕ → List ℕ → Option (ℕ × List ℕ)
three_bytes b₀ (b₁ ∷ b₂ ∷ rest) =
    if second_of_three b₀ b₁ && is_continuation b₂
    then some ((b₀ - 224) * 4096 + (b₁ - 128) * 64 + (b₂ - 128), rest)
    else none
three_bytes b₀ _ = none

abbrev pub four_bytes : ℕ → List ℕ → Option (ℕ × List ℕ)
four_bytes b₀ (b₁ ∷ b₂ ∷ b₃ ∷ rest) =
    if second_of_four b₀ b₁ && is_continuation b₂ && is_continuation b₃
    then some ((b₀ - 240) * 262144 + (b₁ - 128) * 4096 + (b₂ - 128) * 64 + (b₃ - 128), rest)
    else none
four_bytes b₀ _ = none

-- The first character and the bytes after it, where the bytes start with a character.
unfoldable pub decode : List ℕ → Option (ℕ × List ℕ)
decode [] = none
decode (b ∷ rest) =
    if ltb b 128
    then some (b, rest)
    else if between 194 223 b
    then two_bytes b rest
    else if between 224 239 b
    then three_bytes b rest
    else if between 240 244 b
    then four_bytes b rest
    else none

-- The characters of the bytes, or how many bytes are valid.
pub data Utf8 : Type 0 where
  valid : List ℕ → Utf8
  invalid : ℕ → Utf8

abbrev pub push_char : ℕ → Utf8 → Utf8
push_char c (valid cs) = valid (c ∷ cs)
push_char c (invalid n) = invalid (len_utf8 c + n)

-- A character takes a byte, so that the number of bytes is fuel enough.
unfoldable pub utf8_from : ℕ → List ℕ → Utf8
unfolding decode len_utf8
utf8_from fuel [] = valid []
utf8_from zero (b ∷ bs) = invalid 0
utf8_from (suc fuel) (b ∷ bs) = elim (decode (b ∷ bs)) [
  | none ↦ invalid 0
  | some r ↦ push_char r.0 (utf8_from fuel r.1)
]

unfoldable pub from_utf8 : List ℕ → Utf8
unfolding utf8_from
from_utf8 bs = utf8_from (length bs) bs

-- The Unicode scalar values.
abbrev pub is_char : ℕ → Bool
is_char c = ltb c 55296 || between 57344 1114111 c
