-- ===== src/Example/Bytes.antt =====
-- A reader of bytes in memory, runs of the character reader on it, and the theorems at concrete
-- inputs.
use contrib_scryer_prolog.Base.{
  ℕ, zero, suc, ◌≤◌, ◌≡◌, ◌≢◌, refl, sym, ◌∙◌, ap, List, [], ◌∷◌, ◌++◌, length, take, drop, arith,
}
use contrib_scryer_prolog.CharReader.Utf8.{encode_utf8, decode, from_utf8, utf8_from, len_utf8}
use contrib_scryer_prolog.CharReader.Reader.{
  Got, bytes, refused, Read, CharReader, char, failed, bad_utf8, out_of_fuel, new, contents,
  peek_char, read_char, read_bytes, refresh_buffer, unless_refused, peek_loop, peek_round, decoded,
  fill, bad_bytes_error, bad_length, then_consume,
}
use contrib_scryer_prolog.CharReader.Contents.{
  take-drop, peek_char-contents, given, given-read_bytes,
}
use contrib_scryer_prolog.CharReader.Contents.Chars.{read_char-contents}
use contrib_scryer_prolog.CharReader.Rounds.{peek_char_ends}

both_parts :
    (a c r s : List ℕ) → ◌≡◌ {A = Got (List ℕ) (List ℕ)} (bytes a r) (bytes c s) → (a ≡ c) × (r ≡ s)
both_parts a c r s h = (cc, cc)

length-take : (k : ℕ) (bs : List ℕ) → length (take k bs) ≤ k
length-take zero bs = omega arith
length-take (suc k) [] = omega arith
length-take (suc k) (b ∷ bs) = omega (arith, length-take k bs)

no_more :
    (k : ℕ) (r r' bs : List ℕ)
    → ◌≡◌ {A = Got (List ℕ) (List ℕ)} (bytes (take k r) (drop k r)) (bytes bs r')
    → (r ≡ bs ++ r') × (length bs ≤ k)
no_more k r r' bs h =
    let (e, f) = both_parts (take k r) bs (drop k r) r' h in
    (
      sym (take-drop k r) ∙ ap (λ l. l ++ drop k r) e ∙ ap (λ l. bs ++ l) f,
      rw (← e) (length-take k r),
    )

never :
    (k : ℕ) (r r' e : List ℕ)
    → ◌≡◌ {A = Got (List ℕ) (List ℕ)} (bytes (take k r) (drop k r)) (refused e r')
    → r ≡ r'
never k r r' e h = cc

-- As many bytes as asked for, while there are some.
instance abbrev memory : Read
memory = record {
  R = List ℕ;
  IoError = List ℕ;
  read = λ k r. bytes (take k r) (drop k r);
  pending = λ r. r;
  read-bytes = no_more;
  read-refused = never;
}

-- `aé€` and a character of four bytes.
abbrev text : List ℕ
text = 97 ∷ 195 ∷ 169 ∷ 226 ∷ 130 ∷ 172 ∷ 240 ∷ 159 ∷ 152 ∷ 128 ∷ []

abbrev start : CharReader
start = new text

-- `a` has been read.
abbrev second : CharReader
second = record { inner = drop 4 text; buf = take 4 text; pos = 1 }

first_run : (read_char start).0 ≡ char 97
unfolding read_char peek_char refresh_buffer peek_loop peek_round decoded fill from_utf8 utf8_from
    decode unless_refused then_consume
first_run = refl

second_run : (read_char second).0 ≡ char 233
unfolding read_char peek_char refresh_buffer peek_loop peek_round decoded fill from_utf8 utf8_from
    decode unless_refused then_consume
second_run = refl

-- The character before bytes that end too early is not given, where both are read at once.
early_end_run : (read_char (new (97 ∷ 195 ∷ []))).0 ≡ failed (bad_utf8 (97 ∷ 195 ∷ []))
unfolding read_char peek_char refresh_buffer peek_loop peek_round decoded fill from_utf8 utf8_from
    decode unless_refused then_consume bad_bytes_error bad_length len_utf8
early_end_run = refl

peek_char-contents_example : contents (peek_char start).1 ≡ contents start
peek_char-contents_example = peek_char-contents start

read_char-contents_example : contents second ≡ encode_utf8 233 ++ contents (read_char second).1
read_char-contents_example = read_char-contents second 233 second_run

given-read_bytes_example : given (read_bytes 3 second) ≡ contents second
given-read_bytes_example = given-read_bytes 3 second

peek_char_ends_example : (peek_char second).0 ≢ out_of_fuel
peek_char_ends_example = peek_char_ends second
