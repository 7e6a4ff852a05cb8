-- ===== src/CharReader/Reader.antt =====
-- The methods of CharReader in src/parser/char_reader.rs. The reader below it, of `std::io::Read`, is
-- an interface.
use contrib_scryer_prolog.Base.{
  ℕ, zero, suc, ◌+◌, ◌-◌, ◌≤◌, ◌≡◌, ◌&&◌, Option, none, some, List, [], ◌∷◌, ◌++◌, ltb, leb, ◌==◌,
  if◌then◌else◌, length, take, drop,
}
use contrib_scryer_prolog.CharReader.Utf8.{encode_utf8, len_utf8, Utf8, valid, invalid, from_utf8}

-- What `read` gives, and the reader after it.
pub data Got (R E : Type 0) : Type 0 where
  bytes : List ℕ → R → Got R E
  refused : E → R → Got R E

-- A source of bytes. `pending` is what is still to be read. The laws are those of `Read::read`: no
-- more bytes than asked for, in order, and none if an error is returned.
pub record Read : Type 1 where
  pub R : Type 0
  pub IoError : Type 0
  pub read : ℕ → R → Got R IoError
  pub pending : R → List ℕ
  pub read-bytes :
      (k : ℕ) (r r' : R) (bs : List ℕ)
      → read k r ≡ bytes bs r'
      → (pending r ≡ bs ++ pending r') × (length bs ≤ k)
  pub read-refused :
      (k : ℕ) (r r' : R) (e : IoError) → read k r ≡ refused e r' → pending r ≡ pending r'

module _ ⦃i : Read⦄ where
  pub record CharReader : Type 0 where
    pub inner : i.R
    pub buf : List ℕ
    pub pos : ℕ

  -- `io::Error`: of the reader below, or `InvalidData` with the bytes of a `BadUtf8Error`.
  pub data ReadError : Type 0 where
    io_error : i.IoError → ReadError
    bad_utf8 : List ℕ → ReadError

  -- `Option<io::Result<char>>`; `unwrapped_none` is a panic, and `out_of_fuel` a loop that is cut off.
  pub data Peeked : Type 0 where
    end_of_input unwrapped_none out_of_fuel : Peeked
    char : ℕ → Peeked
    failed : ReadError → Peeked

  -- `CharReader::new`
  abbrev pub new : i.R → CharReader
  new r = record { inner = r; buf = []; pos = 0 }

  -- `&self.buf[self.pos..]`
  abbrev pub buffer : CharReader → List ℕ
  buffer s = drop s.pos s.buf

  abbrev pub rem_buf_len : CharReader → ℕ
  rem_buf_len s = length s.buf - s.pos

  abbrev pub reset_buffer : CharReader → CharReader
  reset_buffer s = record s { buf = []; pos = 0 }

  -- The error leaves the buffer cleared, and the position where it was.
  abbrev pub refreshed : CharReader → Got i.R i.IoError → Option ReadError × CharReader
  refreshed s (bytes bs r) = (none, record { inner = r; buf = bs; pos = 0 })
  refreshed s (refused e r) = (some (io_error e), record s { inner = r; buf = [] })

  unfoldable pub refresh_buffer : CharReader → Option ReadError × CharReader
  refresh_buffer s = if leb (length s.buf) s.pos then refreshed s (i.read 4 s.inner) else (none, s)

  -- How many bytes go before the rest is valid or empty; there is a byte to look at in each round.
  unfoldable pub bad_length : List ℕ → ℕ → ℕ
  unfolding from_utf8
  bad_length [] n = n
  bad_length (b ∷ rest) n =
      let more = bad_length rest (suc n) in
      elim (from_utf8 rest) [ valid _ ↦ suc n | invalid _ ↦ more ]

  unfoldable pub bad_bytes_error : List ℕ → Peeked
  unfolding bad_length
  bad_bytes_error buf = failed (bad_utf8 (take (bad_length buf 0) buf))

  abbrev pub first_of : List ℕ → Peeked
  first_of (c ∷ cs) = char c
  first_of [] = unwrapped_none

  -- The first character of the valid prefix.
  abbrev pub prefix_char : List ℕ → Utf8 → Peeked
  prefix_char buf (valid cs) = first_of cs
  prefix_char buf (invalid n) = failed (bad_utf8 buf)

  -- One round of the `loop` of `peek_char`: it returns, or goes on with another buffer.
  pub data Round : Type 0 where
    returns : Peeked → CharReader → Round
    goes_on : CharReader → Round

  abbrev pub with_more : CharReader → Got i.R i.IoError → Round
  with_more s (refused e r) = returns (failed (io_error e)) (record s { inner = r })
  with_more s (bytes [] r) = returns (bad_bytes_error s.buf) (record s { inner = r })
  with_more s (bytes (b ∷ bs) r) = goes_on (record s { inner = r; buf = s.buf ++ b ∷ bs })

  -- The bytes that are left move to the front.
  abbrev pub compacted : CharReader → CharReader
  compacted s = record s { buf = buffer s; pos = 0 }

  unfoldable pub fill : CharReader → Round
  fill s =
      if leb 4 (length s.buf) then goes_on s else with_more s (i.read (4 - length s.buf) s.inner)

  unfoldable pub decoded : CharReader → Utf8 → Round
  unfolding bad_bytes_error from_utf8 fill
  decoded s (valid cs) = returns (first_of cs) s
  decoded s (invalid n) =
      if leb 4 (length (buffer s) - n)
      then returns (bad_bytes_error (buffer s)) s
      else if leb (length s.buf) s.pos
      then returns end_of_input s
      else if leb 4 (length s.buf - s.pos) && ltb s.pos n
      then returns (prefix_char (take n (buffer s)) (from_utf8 (take n (buffer s)))) s
      else fill (compacted s)

  unfoldable pub peek_round : CharReader → Round
  unfolding decoded from_utf8
  peek_round s =
      if length (buffer s) == 0 then returns end_of_input s else decoded s (from_utf8 (buffer s))

  abbrev pub resume : (CharReader → Peeked × CharReader) → Round → Peeked × CharReader
  resume go_on (returns p s) = (p, s)
  resume go_on (goes_on s) = go_on s

  unfoldable pub peek_loop : ℕ → CharReader → Peeked × CharReader
  unfolding peek_round
  peek_loop zero s = (out_of_fuel, s)
  peek_loop (suc fuel) s = resume (peek_loop fuel) (peek_round s)

  unfoldable pub unless_refused : Option ReadError × CharReader → Peeked × CharReader
  unfolding peek_loop
  unless_refused (some e, s) = (failed e, s)
  unless_refused (none, s) = peek_loop 5 s

  -- Three reads of a byte, a round that moves the bytes, and one that returns.
  unfoldable pub peek_char : CharReader → Peeked × CharReader
  unfolding refresh_buffer unless_refused
  peek_char s = unless_refused (refresh_buffer s)

  abbrev pub consume : ℕ → CharReader → CharReader
  consume n s = record s { pos = s.pos + n }

  unfoldable pub then_consume : Peeked × CharReader → Peeked × CharReader
  unfolding len_utf8
  then_consume (char c, s) = (char c, consume (len_utf8 c) s)
  then_consume (p, s) = (p, s)

  -- `CharRead::read_char`
  unfoldable pub read_char : CharReader → Peeked × CharReader
  unfolding peek_char then_consume
  read_char s = then_consume (peek_char s)

  -- `Option<io::Result<u8>>`
  pub data PeekedByte : Type 0 where
    no_byte : PeekedByte
    byte : ℕ → PeekedByte
    byte_failed : ReadError → PeekedByte

  abbrev pub first_byte : List ℕ → PeekedByte
  first_byte [] = no_byte
  first_byte (b ∷ bs) = byte b

  abbrev pub byte_of : Option ReadError × CharReader → PeekedByte × CharReader
  byte_of (some e, s) = (byte_failed e, s)
  byte_of (none, s) = (first_byte (buffer s), s)

  unfoldable pub peek_byte : CharReader → PeekedByte × CharReader
  unfolding refresh_buffer
  peek_byte s = byte_of (refresh_buffer s)

  abbrev pub copy_out : ℕ → Option ReadError × CharReader → Got CharReader ReadError
  copy_out k (some e, s) = refused e s
  copy_out k (none, s) = bytes (take k (buffer s)) (consume (length (take k (buffer s))) s)

  -- `Read::read` into an array of `k` bytes
  unfoldable pub read_bytes : ℕ → CharReader → Got CharReader ReadError
  unfolding refresh_buffer
  read_bytes k s = copy_out k (refresh_buffer s)

  -- The bytes that are left pass through an array of 32; `none` is the panic of a slice past its end.
  -- They are never more than the capacity of their vector, as a debug build asserts.
  unfoldable pub put_back_char : ℕ → CharReader → Option CharReader
  unfolding encode_utf8
  put_back_char c s =
      if leb (length (buffer s)) 32
      then some (record s { buf = encode_utf8 c ++ buffer s; pos = 0 })
      else none

  -- The bytes that have not been read, here or below.
  abbrev pub contents : CharReader → List ℕ
  contents s = buffer s ++ i.pending s.inner
