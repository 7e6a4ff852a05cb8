-- ===== src/CharReader/Contents/Chars.antt =====
-- The characters that CharReader of src/parser/char_reader.rs gives, and the bytes they come from.
use mathlib.Core.List.{append_assoc}
use contrib_scryer_prolog.Base.{
  ℕ, zero, suc, ◌-◌, ◌≤◌, ◌≡◌, refl, sym, ◌∙◌, ap, ◌&&◌, Option, none, some, List, [], ◌∷◌, ◌++◌,
  ltb, leb, ◌==◌, length, take, drop, Bool-cases, le→leb, inl, inr, drop-length-append,
}
use contrib_scryer_prolog.CharReader.Utf8.{encode_utf8, len_utf8, Utf8, valid, invalid, from_utf8}
use contrib_scryer_prolog.CharReader.Utf8.Encode.{length-encode_utf8}
use contrib_scryer_prolog.CharReader.Utf8.Valid.{first_char}
use contrib_scryer_prolog.CharReader.Contents.{peek_char-contents, drop-drop, take-drop}
use contrib_scryer_prolog.CharReader.Reader.{
  Got, bytes, refused, Read, CharReader, ReadError, Peeked, end_of_input, unwrapped_none,
  out_of_fuel, char, failed, buffer, refresh_buffer, bad_bytes_error, first_of, prefix_char, Round,
  returns, goes_on, resume, peek_round, compacted, put_back_char, consume, returns, goes_on,
  with_more, compacted, fill, decoded, peek_round, peek_loop, resume, unless_refused, peek_char,
  consume, then_consume, read_char, put_back_char, contents,
}

module _ ⦃i : Read⦄ where
  -- A character that is found is encoded at the start of the buffer.
  abbrev pub Starts : Peeked → CharReader → Type 0
  Starts (char c) s = (rest : List ℕ) × (buffer s ≡ encode_utf8 c ++ rest)
  Starts _ s = Unit

  abbrev pub StartsAfter : Round → Type 0
  StartsAfter (returns p s) = Starts p s
  StartsAfter (goes_on s) = Unit

  first_of-Starts :
      (s : CharReader) (cs : List ℕ) → from_utf8 (buffer s) ≡ valid cs → Starts (first_of cs) s
  unfolding from_utf8
  first_of-Starts s [] h = tt
  first_of-Starts s (c ∷ cs) h = first_char (length (buffer s)) c cs (buffer s) h

  prefix_char-Starts :
      (s : CharReader) (n : ℕ) (u : Utf8)
      → from_utf8 (take n (buffer s)) ≡ u
      → Starts (prefix_char (take n (buffer s)) u) s
  unfolding from_utf8
  prefix_char-Starts s n (invalid m) h = tt
  prefix_char-Starts s n (valid []) h = tt
  prefix_char-Starts s n (valid (c ∷ cs)) h =
      let (rest, e) = first_char (length (take n (buffer s))) c cs (take n (buffer s)) h in
      (
        rest ++ drop n (buffer s),
        sym (take-drop n (buffer s))
            ∙ ap (λ l. l ++ drop n (buffer s)) e
            ∙ append_assoc (encode_utf8 c) rest (drop n (buffer s)),
      )

  with_more-Starts : (s : CharReader) (g : Got i.R i.IoError) → StartsAfter (with_more s g)
  unfolding bad_bytes_error
  with_more-Starts s (refused e r) = tt
  with_more-Starts s (bytes [] r) = tt
  with_more-Starts s (bytes (b ∷ bs) r) = tt

  fill-Starts : (s : CharReader) → StartsAfter (fill s)
  unfolding fill
  fill-Starts s = elim (Bool-cases (leb 4 (length s.buf))) [
    | inl h ↦ rw h tt
    | inr h ↦ rw h (with_more-Starts s (i.read (4 - length s.buf) s.inner))
  ]

  decoded-Starts :
      (s : CharReader) (u : Utf8) → from_utf8 (buffer s) ≡ u → StartsAfter (decoded s u)
  unfolding decoded bad_bytes_error
  decoded-Starts s (valid cs) e = first_of-Starts s cs e
  decoded-Starts s (invalid n) e = elim (Bool-cases (leb 4 (length (buffer s) - n))) [
    | inl h ↦ rw h tt
    | inr h ↦ elim (Bool-cases (leb (length s.buf) s.pos)) [
      | inl k ↦ rw (h, k) tt
      | inr k ↦ elim (Bool-cases (leb 4 (length s.buf - s.pos) && ltb s.pos n)) [
        | inl l ↦ rw (h, k, l) (prefix_char-Starts s n (from_utf8 (take n (buffer s))) refl)
        | inr l ↦ rw (h, k, l) (fill-Starts (compacted s))
      ]
    ]
  ]

  peek_round-Starts : (s : CharReader) → StartsAfter (peek_round s)
  unfolding peek_round
  peek_round-Starts s = elim (Bool-cases (length (buffer s) == 0)) [
    | inl h ↦ rw h tt
    | inr h ↦ rw h (decoded-Starts s (from_utf8 (buffer s)) refl)
  ]

  resume-Starts :
      (go_on : CharReader → Peeked × CharReader) (r : Round)
      → ((s : CharReader) → Starts (go_on s).0 (go_on s).1)
      → StartsAfter r
      → Starts (resume go_on r).0 (resume go_on r).1
  resume-Starts go_on (returns p s) h k = k
  resume-Starts go_on (goes_on s) h k = h s

  peek_loop-Starts : (fuel : ℕ) (s : CharReader) → Starts (peek_loop fuel s).0 (peek_loop fuel s).1
  unfolding peek_loop
  peek_loop-Starts zero s = tt
  peek_loop-Starts (suc fuel) s =
      resume-Starts (peek_loop fuel) (peek_round s) (peek_loop-Starts fuel) (peek_round-Starts s)

  unless_refused-Starts :
      (r : Option ReadError × CharReader) → Starts (unless_refused r).0 (unless_refused r).1
  unfolding unless_refused
  unless_refused-Starts (some e, s) = tt
  unless_refused-Starts (none, s) = peek_loop-Starts 5 s

  same_char : (d c : ℕ) → ◌≡◌ {A = Peeked} (char d) (char c) → d ≡ c
  same_char d c e = cc

  past :
      (s : CharReader) (d : ℕ) (rest : List ℕ)
      → buffer s ≡ encode_utf8 d ++ rest
      → buffer (consume (len_utf8 d) s) ≡ rest
  past s d rest h =
      drop-drop s.pos (len_utf8 d) s.buf
      ∙ ap (drop (len_utf8 d)) h
      ∙ ap (λ k. drop k (encode_utf8 d ++ rest)) (sym (length-encode_utf8 d))
      ∙ drop-length-append (encode_utf8 d) rest

  then_consume-contents :
      (r : Peeked × CharReader) (c : ℕ)
      → Starts r.0 r.1
      → (then_consume r).0 ≡ char c
      → contents r.1 ≡ encode_utf8 c ++ contents (then_consume r).1
  unfolding then_consume
  then_consume-contents (char d, s) c (rest, h) e =
      ap (λ l. l ++ i.pending s.inner) h
      ∙ append_assoc (encode_utf8 d) rest (i.pending s.inner)
      ∙ ap (λ k. encode_utf8 k ++ (rest ++ i.pending s.inner)) (same_char d c e)
      ∙ ap (λ l. encode_utf8 c ++ (l ++ i.pending s.inner)) (sym (past s d rest h))
  then_consume-contents (end_of_input, s) c h e = cc
  then_consume-contents (unwrapped_none, s) c h e = cc
  then_consume-contents (out_of_fuel, s) c h e = cc
  then_consume-contents (failed x, s) c h e = cc

  -- A character that is read is what the bytes that were unread start with, and the bytes after it
  -- are unread still, however the reader below hands out its bytes.
  pub read_char-contents :
      (s : CharReader) (c : ℕ)
      → (read_char s).0 ≡ char c
      → contents s ≡ encode_utf8 c ++ contents (read_char s).1
  unfolding read_char peek_char
  read_char-contents s c e =
      sym (peek_char-contents s)
      ∙ then_consume-contents (peek_char s) c (unless_refused-Starts (refresh_buffer s)) e

  -- A character that is put back is what the unread bytes start with; up to 32 bytes may be buffered.
  pub put_back_char-contents :
      (s : CharReader) (c : ℕ)
      → length (buffer s) ≤ 32
      → (s' : CharReader) × (put_back_char c s ≡ some s')
        × (contents s' ≡ encode_utf8 c ++ contents s)
  unfolding put_back_char
  put_back_char-contents s c h = (
    record s { buf = encode_utf8 c ++ buffer s; pos = 0 },
    rw (le→leb (length (buffer s)) 32 h) refl,
    append_assoc (encode_utf8 c) (buffer s) (i.pending s.inner),
  )
