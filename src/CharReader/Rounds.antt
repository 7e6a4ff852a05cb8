-- ===== src/CharReader/Rounds.antt =====
-- The loop of `peek_char` of src/parser/char_reader.rs ends.
use contrib_scryer_prolog.Base.{
  ℕ, zero, suc, ◌+◌, ◌-◌, ◌≤◌, ◌<◌, ◌≡◌, refl, sym, ◌∙◌, ap, Bool, true, false, ◌&&◌, Option, none,
  some, List, [], ◌∷◌, ltb, leb, ◌==◌, length, take, drop, arith, Bool-cases, ◌≢◌, inl, inr, ◌⊎◌,
  length-append,
}
use contrib_scryer_prolog.CharReader.Utf8.{Utf8, valid, invalid, from_utf8}
use contrib_scryer_prolog.CharReader.Reader.{
  Got, bytes, refused, Read, CharReader, ReadError, Peeked, out_of_fuel, buffer, bad_bytes_error,
  first_of, prefix_char, Round, returns, goes_on, with_more, compacted, fill, decoded, peek_round,
  resume, peek_loop, unless_refused, refresh_buffer, peek_char,
}

length-drop : (p : ℕ) (bs : List ℕ) → length (drop p bs) ≡ length bs - p
length-drop zero bs = omega arith
length-drop (suc p) [] = omega arith
length-drop (suc p) (b ∷ bs) = length-drop p bs ∙ omega arith

module _ ⦃i : Read⦄ where
  abbrev pub is_cut : Peeked → Bool
  is_cut out_of_fuel = true
  is_cut _ = false

  -- A round that goes on was not at the front of four bytes, and brings the reader closer to there.
  abbrev pub Advances : CharReader → Round → Type 0
  Advances s (returns p s') = is_cut p ≡ false
  Advances s (goes_on s') =
      (s'.pos ≡ 0)
      × ((4 ≤ length s'.buf) ⊎ (length (buffer s) < length s'.buf))
      × (s.pos ≡ 0 → length s.buf < 4)

  with_more-Advances :
      (s : CharReader) (g : Got i.R i.IoError)
      → (s.pos ≡ 0 → length s.buf < 4)
      → Advances s (with_more (compacted s) g)
  unfolding bad_bytes_error
  with_more-Advances s (refused e r) h = refl
  with_more-Advances s (bytes [] r) h = refl
  with_more-Advances s (bytes (b ∷ bs) r) h =
      (refl, inr (omega (arith, length-append (buffer s) (b ∷ bs))), h)

  fill-Advances :
      (s : CharReader) → (s.pos ≡ 0 → length s.buf < 4) → Advances s (fill (compacted s))
  unfolding fill
  fill-Advances s h = elim (Bool-cases (leb 4 (length (buffer s)))) [
    | inl k ↦ rw k (refl, inl (ground arith), h)
    | inr k ↦ rw k (with_more-Advances s (i.read (4 - length (buffer s)) s.inner) h)
  ]

  first_of_ends : (cs : List ℕ) → is_cut (first_of cs) ≡ false
  first_of_ends [] = refl
  first_of_ends (c ∷ cs) = refl

  prefix_char_ends : (buf : List ℕ) (u : Utf8) → is_cut (prefix_char buf u) ≡ false
  prefix_char_ends buf (valid cs) = first_of_ends cs
  prefix_char_ends buf (invalid n) = refl

  -- At the front of four bytes, one of the tests before has succeeded.
  not_at_front :
      (p len rest n : ℕ)
      → rest ≡ len - p
      → leb 4 (rest - n) ≡ false
      → (leb 4 (len - p) && ltb p n) ≡ false
      → p ≡ 0
      → len < 4
  not_at_front p len rest n e h k z = ground arith

  decoded-Advances : (s : CharReader) (u : Utf8) → Advances s (decoded s u)
  unfolding decoded bad_bytes_error
  decoded-Advances s (valid cs) = first_of_ends cs
  decoded-Advances s (invalid n) = elim (Bool-cases (leb 4 (length (buffer s) - n))) [
    | inl h ↦ rw h refl
    | inr h ↦ elim (Bool-cases (leb (length s.buf) s.pos)) [
      | inl k ↦ rw (h, k) refl
      | inr k ↦ elim (Bool-cases (leb 4 (length s.buf - s.pos) && ltb s.pos n)) [
        | inl l ↦
            rw (h, k, l) (prefix_char_ends (take n (buffer s)) (from_utf8 (take n (buffer s))))
        | inr l ↦
            rw (h, k, l)
              (fill-Advances s (
                not_at_front s.pos (length s.buf) (length (buffer s)) n (length-drop s.pos s.buf) h
                  l))
      ]
    ]
  ]

  peek_round-Advances : (s : CharReader) → Advances s (peek_round s)
  unfolding peek_round
  peek_round-Advances s = elim (Bool-cases (length (buffer s) == 0)) [
    | inl h ↦ rw h refl
    | inr h ↦ rw h (decoded-Advances s (from_utf8 (buffer s)))
  ]

  -- Where the loop has fuel enough.
  abbrev pub Enough : ℕ → CharReader → Type 0
  Enough fuel s =
      ((s.pos ≡ 0) × (4 ≤ length s.buf) × (1 ≤ fuel))
      ⊎ ((2 ≤ fuel) × (6 ≤ fuel + length (buffer s)))

  less_needed :
      (fuel : ℕ) (s s' : CharReader)
      → Enough (suc fuel) s
      → Advances s (goes_on s')
      → Enough fuel s'
  less_needed fuel s s' (inl (z, l, f)) (z', c, h) = absurd (let k = h z in omega arith)
  less_needed fuel s s' (inr (f, g)) (z', inl l, h) = inl (z', l, omega arith)
  less_needed fuel s s' (inr (f, g)) (z', inr l, h) = elim (Bool-cases (leb 4 (length s'.buf))) [
    | inl k ↦ inl (z', ground arith, omega arith)
    | inr k ↦ inr (ground arith, grind (arith, length-drop s'.pos s'.buf))
  ]

  resume_ends :
      (fuel : ℕ) (s : CharReader) (r : Round)
      → ((s' : CharReader) → Enough fuel s' → is_cut (peek_loop fuel s').0 ≡ false)
      → Enough (suc fuel) s
      → Advances s r
      → is_cut (resume (peek_loop fuel) r).0 ≡ false
  resume_ends fuel s (returns p s') h e a = a
  resume_ends fuel s (goes_on s') h e a = h s' (less_needed fuel s s' e a)

  peek_loop_ends : (fuel : ℕ) (s : CharReader) → Enough fuel s → is_cut (peek_loop fuel s).0 ≡ false
  unfolding peek_loop
  peek_loop_ends zero s (inl (z, l, f)) = absurd (omega arith)
  peek_loop_ends zero s (inr (f, g)) = absurd (omega arith)
  peek_loop_ends (suc fuel) s e =
      resume_ends fuel s (peek_round s) (peek_loop_ends fuel) e (peek_round-Advances s)

  empty_ends :
      (fuel : ℕ) (s : CharReader)
      → length (buffer s) ≡ 0
      → is_cut (peek_loop (suc fuel) s).0 ≡ false
  unfolding peek_loop peek_round
  empty_ends fuel s h = rw h refl

  five_rounds : (s : CharReader) → is_cut (peek_loop 5 s).0 ≡ false
  five_rounds s = elim (Bool-cases (length (buffer s) == 0)) [
    | inl h ↦ empty_ends 4 s (ground arith)
    | inr h ↦ peek_loop_ends 5 s (inr (omega arith, ground arith))
  ]

  unless_refused_ends : (r : Option ReadError × CharReader) → is_cut (unless_refused r).0 ≡ false
  unfolding unless_refused
  unless_refused_ends (some e, s) = refl
  unless_refused_ends (none, s) = five_rounds s

  -- The loop of `peek_char` returns within five rounds, whatever is buffered and whatever the reader
  -- below gives.
  pub peek_char_ends : (s : CharReader) → (peek_char s).0 ≢ out_of_fuel
  unfolding peek_char
  peek_char_ends s h =
      let cut : true ≡ false = ap is_cut (sym h) ∙ unless_refused_ends (refresh_buffer s) in cc
