-- ===== src/CharReader/Contents.antt =====
-- What the operations of CharReader in src/parser/char_reader.rs do to the bytes that are unread.
pub mod Chars
use mathlib.Core.List.{append_assoc}
use contrib_scryer_prolog.Base.{
  ℕ, zero, suc, ◌+◌, ◌-◌, ◌≤◌, ◌≡◌, refl, sym, ◌∙◌, ap, true, ◌&&◌, Option, none, some, List, [],
  ◌∷◌, ◌++◌, ltb, leb, ◌==◌, length, take, drop, arith, Bool-cases, Option-cases, le→leb, ◌≢◌, inl,
  inr, drop-length-append,
}
use contrib_scryer_prolog.CharReader.Utf8.{
  encode_utf8, len_utf8, decode, Utf8, valid, invalid, utf8_from, from_utf8, push_char,
}
use contrib_scryer_prolog.CharReader.Utf8.Encode.{length-encode_utf8}
use contrib_scryer_prolog.CharReader.Utf8.Decode.{decode-Decodes}
use contrib_scryer_prolog.CharReader.Reader.{
  Got, bytes, refused, Read, CharReader, ReadError, Peeked, end_of_input, unwrapped_none,
  out_of_fuel, char, failed, buffer, refreshed, refresh_buffer, bad_bytes_error, first_of,
  prefix_char, Round, returns, goes_on, with_more, compacted, fill, decoded, peek_round, peek_loop,
  resume, unless_refused, peek_char, consume, then_consume, read_char, put_back_char, read_bytes,
  copy_out, contents,
}

nothing_left : (p : ℕ) (bs : List ℕ) → leb (length bs) p ≡ true → drop p bs ≡ []
nothing_left zero [] h = refl
nothing_left zero (b ∷ bs) h = absurd (ground arith)
nothing_left (suc p) [] h = refl
nothing_left (suc p) (b ∷ bs) h = nothing_left p bs (ground arith)

drop_nil : (p : ℕ) → drop {A = ℕ} p [] ≡ []
drop_nil zero = refl
drop_nil (suc p) = refl

pub take-drop : (n : ℕ) (bs : List ℕ) → take n bs ++ drop n bs ≡ bs
take-drop zero bs = refl
take-drop (suc n) [] = refl
take-drop (suc n) (b ∷ bs) = ap (λ l. b ∷ l) (take-drop n bs)

pub drop-drop : (p n : ℕ) (bs : List ℕ) → drop (p + n) bs ≡ drop n (drop p bs)
drop-drop zero n bs = ap (λ k. drop k bs) {x = 0 + n} {y = n} (omega arith)
drop-drop (suc p) n [] = drop_nil (suc p + n) ∙ sym (drop_nil n)
drop-drop (suc p) n (b ∷ bs) =
    ap (λ k. drop k (b ∷ bs)) {x = suc p + n} {y = suc (p + n)} (omega arith) ∙ drop-drop p n bs

drop_taken : (k : ℕ) (bs : List ℕ) → drop (length (take k bs)) bs ≡ drop k bs
drop_taken zero bs = refl
drop_taken (suc k) [] = refl
drop_taken (suc k) (b ∷ bs) = drop_taken k bs

module _ ⦃i : Read⦄ where
  refreshed-contents :
      (s : CharReader)
      → leb (length s.buf) s.pos ≡ true
      → (g : Got i.R i.IoError) → i.read 4 s.inner ≡ g
      → contents (refreshed s g).1 ≡ contents s
  refreshed-contents s h (bytes bs r) e = sym (
      ap (λ l. l ++ i.pending s.inner) (nothing_left s.pos s.buf h)
      ∙ (i.read-bytes 4 s.inner r bs e).0)
  refreshed-contents s h (refused e r) f =
      ap (λ l. l ++ i.pending r) (drop_nil s.pos)
      ∙ sym (
          ap (λ l. l ++ i.pending s.inner) (nothing_left s.pos s.buf h)
          ∙ i.read-refused 4 s.inner r e f)

  refresh_buffer-contents : (s : CharReader) → contents (refresh_buffer s).1 ≡ contents s
  unfolding refresh_buffer
  refresh_buffer-contents s = elim (Bool-cases (leb (length s.buf) s.pos)) [
    | inl h ↦ rw h (refreshed-contents s h (i.read 4 s.inner) refl)
    | inr h ↦ rw h refl
  ]

  -- The reader after a round.
  abbrev pub after : Round → CharReader
  after (returns p s) = s
  after (goes_on s) = s

  with_more-contents :
      (s : CharReader) (k : ℕ) (g : Got i.R i.IoError)
      → s.pos ≡ 0
      → i.read k s.inner ≡ g
      → contents (after (with_more s g)) ≡ contents s
  with_more-contents s k (refused e r) z h =
      ap (λ l. buffer s ++ l) (sym (i.read-refused k s.inner r e h))
  with_more-contents s k (bytes [] r) z h =
      ap (λ l. buffer s ++ l) (sym (i.read-bytes k s.inner r [] h).0)
  with_more-contents s k (bytes (b ∷ bs) r) z h = rw z (
      append_assoc s.buf (b ∷ bs) (i.pending r)
      ∙ ap (λ l. s.buf ++ l) (sym (i.read-bytes k s.inner r (b ∷ bs) h).0))

  fill-contents : (s : CharReader) → s.pos ≡ 0 → contents (after (fill s)) ≡ contents s
  unfolding fill
  fill-contents s z = elim (Bool-cases (leb 4 (length s.buf))) [
    | inl h ↦ rw h refl
    | inr h ↦
        rw h (with_more-contents s (4 - length s.buf) (i.read (4 - length s.buf) s.inner) z refl)
  ]

  decoded-contents : (s : CharReader) (u : Utf8) → contents (after (decoded s u)) ≡ contents s
  unfolding decoded
  decoded-contents s (valid cs) = refl
  decoded-contents s (invalid n) = elim (Bool-cases (leb 4 (length (buffer s) - n))) [
    | inl h ↦ rw h refl
    | inr h ↦ elim (Bool-cases (leb (length s.buf) s.pos)) [
      | inl k ↦ rw (h, k) refl
      | inr k ↦ elim (Bool-cases (leb 4 (length s.buf - s.pos) && ltb s.pos n)) [
        | inl l ↦ rw (h, k, l) refl
        | inr l ↦ rw (h, k, l) (fill-contents (compacted s) refl)
      ]
    ]
  ]

  peek_round-contents : (s : CharReader) → contents (after (peek_round s)) ≡ contents s
  unfolding peek_round
  peek_round-contents s = elim (Bool-cases (length (buffer s) == 0)) [
    | inl h ↦ rw h refl
    | inr h ↦ rw h (decoded-contents s (from_utf8 (buffer s)))
  ]

  resume-contents :
      (go_on : CharReader → Peeked × CharReader) (r : Round)
      → ((s : CharReader) → contents (go_on s).1 ≡ contents s)
      → contents (resume go_on r).1 ≡ contents (after r)
  resume-contents go_on (returns p s) h = refl
  resume-contents go_on (goes_on s) h = h s

  peek_loop-contents : (fuel : ℕ) (s : CharReader) → contents (peek_loop fuel s).1 ≡ contents s
  unfolding peek_loop
  peek_loop-contents zero s = refl
  peek_loop-contents (suc fuel) s =
      resume-contents (peek_loop fuel) (peek_round s) (peek_loop-contents fuel)
      ∙ peek_round-contents s

  unless_refused-contents :
      (r : Option ReadError × CharReader) → contents (unless_refused r).1 ≡ contents r.1
  unfolding unless_refused
  unless_refused-contents (some e, s) = refl
  unless_refused-contents (none, s) = peek_loop-contents 5 s

  -- Looking at the next character, with whatever result, loses no byte and moves none.
  pub peek_char-contents : (s : CharReader) → contents (peek_char s).1 ≡ contents s
  unfolding peek_char
  peek_char-contents s = unless_refused-contents (refresh_buffer s) ∙ refresh_buffer-contents s

  -- What a read gives, before the unread bytes of the reader after it.
  abbrev pub given : Got CharReader ReadError → List ℕ
  given (bytes bs s) = bs ++ contents s
  given (refused e s) = contents s

  copied :
      (k : ℕ) (s : CharReader)
      → take k (buffer s) ++ drop (s.pos + length (take k (buffer s))) s.buf ≡ buffer s
  copied k s =
      ap (λ l. take k (buffer s) ++ l)
        (drop-drop s.pos (length (take k (buffer s))) s.buf ∙ drop_taken k (buffer s))
      ∙ take-drop k (buffer s)

  given-copy_out : (k : ℕ) (r : Option ReadError × CharReader) → given (copy_out k r) ≡ contents r.1
  given-copy_out k (some e, s) = refl
  given-copy_out k (none, s) =
      sym (
        append_assoc (take k (buffer s)) (buffer (consume (length (take k (buffer s))) s))
          (i.pending s.inner))
      ∙ ap (λ l. l ++ i.pending s.inner) (copied k s)

  -- Reading bytes past the character level gives the unread bytes in order, and after an error they
  -- are unread still.
  pub given-read_bytes : (k : ℕ) (s : CharReader) → given (read_bytes k s) ≡ contents s
  unfolding read_bytes
  given-read_bytes k s = given-copy_out k (refresh_buffer s) ∙ refresh_buffer-contents s
