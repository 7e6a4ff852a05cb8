-- ===== src/Lexer/Token/QuotedName.antt =====
-- Single quoted names of src/parser/lexer.rs: their text, and `name_token` on it.
use mathlib.Core.Path.{subst}
use mathlib.Core.Bool.{and-eq-true_iff}
use contrib_scryer_prolog.Base.{
  ℕ, zero, suc, ◌≤◌, ◌<◌, ◌≡◌, refl, sym, ◌∙◌, ap, Bool, true, false, ◌&&◌, ◌||◌, Option, some, [],
  ◌∷◌, length, arith, if◌then◌else◌, inl, inr, Bool-cases, ==_iff,
}
use contrib_scryer_prolog.Base.Text.{Text}
use contrib_scryer_prolog.Numerics.{Numerics}
use contrib_scryer_prolog.Ast.Error.{unexpected_char, invalid_single_quoted_character}
use contrib_scryer_prolog.Lexer.Token.{Token, literal_token, atom_token, quoted_name, name_token}
use contrib_scryer_prolog.Ast.Term.{atom}
use contrib_scryer_prolog.Chars.{
  Unicode, single_quote_char, backslash_char, double_quote_char, back_quote_char, graphic_char,
  alpha_numeric_char, solo_char, space_char, meta_char, new_line_char, graphic_token_char, cut_char,
  semicolon_char, small_letter_char,
}
use contrib_scryer_prolog.Lexer.State.{
  Lexer, Outcome, ok, err, lookahead_char, skip_char, advance, consume_loop, consume_chars_with,
  continue, rest_of, pure, raise, ◌>>=◌, ◌>>◌,
}
use contrib_scryer_prolog.Lexer.Quoted.{get_single_quoted_item}

-- The text of a character in single quotes: a quote and a backslash are doubled.
abbrev pub quoted_char : ℕ → Text → Text
quoted_char c rest = if single_quote_char c || backslash_char c then c ∷ c ∷ rest else c ∷ rest

abbrev pub quoted : Text → Text → Text
quoted [] rest = rest
quoted (c ∷ cs) rest = quoted_char c (quoted cs rest)

advance-chars : (c : ℕ) (lx : Lexer) → (advance c lx).chars ≡ lx.chars
unfolding advance
advance-chars c lx = elim (Bool-cases (new_line_char c)) [ inl h ↦ rw h refl | inr h ↦ rw h refl ]

abbrev on : Text → Lexer → Lexer
on text lx = record lx { chars = text }

module _ ⦃u : Unicode⦄ where
  -- The characters that stand for themselves in single quotes, and those that are doubled.
  abbrev pub is_quotable : ℕ → Bool
  is_quotable c =
      single_quote_char c
      || backslash_char c
      || double_quote_char c
      || back_quote_char c
      || graphic_char c
      || alpha_numeric_char c
      || solo_char c
      || space_char c

  abbrev Gives : ℕ → Text → Outcome (Option ℕ) × Lexer → Type 0
  Gives c rest r = (r.0 ≡ ok (some c)) × (r.1.chars ≡ rest)

  quote_item :
      (rest : Text) (lx : Lexer)
      → Gives 0x27 rest (get_single_quoted_item (on (0x27 ∷ 0x27 ∷ rest) lx))
  unfolding get_single_quoted_item backslash_char new_line_char single_quote_char
  quote_item rest lx = (refl, refl)

  backslash_no_alpha : alpha_numeric_char 0x5c ≡ false
  unfolding alpha_numeric_char graphic_token_char
  backslash_no_alpha =
      rw
        (
          u.numeric_ascii 0x5c (omega arith),
          u.whitespace_ascii 0x5c (omega arith),
          u.control_ascii 0x5c (omega arith),
        )
        refl

  backslash_item :
      (rest : Text) (lx : Lexer)
      → Gives 0x5c rest (get_single_quoted_item (on (0x5c ∷ 0x5c ∷ rest) lx))
  unfolding get_single_quoted_item backslash_char new_line_char single_quote_char double_quote_char
      back_quote_char graphic_char solo_char space_char meta_char
  backslash_item rest lx = rw backslash_no_alpha (refl, refl)

  plain_item :
      (c : ℕ) (rest : Text) (lx : Lexer)
      → is_quotable c ≡ true
      → single_quote_char c ≡ false
      → backslash_char c ≡ false
      → Gives c rest (get_single_quoted_item (on (c ∷ rest) lx))
  unfolding get_single_quoted_item
  plain_item c rest lx q h k =
      rw (k, h)
        (elim (Bool-cases (double_quote_char c || back_quote_char c)) [
          | inl d ↦ rw d (refl, advance-chars c (on rest lx))
          | inr d ↦
              let plain : (graphic_char c || alpha_numeric_char c || solo_char c || space_char c)
                  ≡ true =
                ground arith in
              rw (d, plain) (refl, advance-chars c (on rest lx))
        ])

  -- An item is read from the text of its character, wherever the lexer stands.
  quoted_char_item :
      (c : ℕ) (rest : Text) (lx : Lexer)
      → is_quotable c ≡ true
      → Gives c rest (get_single_quoted_item (on (quoted_char c rest) lx))
  quoted_char_item c rest lx q = elim (Bool-cases (single_quote_char c)) [
    | inl h ↦ quote_text c h
    | inr h ↦ elim (Bool-cases (backslash_char c)) [
      | inl k ↦ backslash_text c h k
      | inr k ↦ rw (h, k) (plain_item c rest lx q h k)
    ]
  ]
    where
      quote_text :
          (c : ℕ)
          → single_quote_char c ≡ true
          → Gives c rest (get_single_quoted_item (on (quoted_char c rest) lx))
      quote_text c h =
          let e : c ≡ 0x27 = (==_iff c 0x27).0 (unfold single_quote_char in h) in
          rw h (
            subst (λ d. Gives d rest (get_single_quoted_item (on (d ∷ d ∷ rest) lx))) (sym e)
              (quote_item rest lx))

      backslash_text :
          (c : ℕ)
          → single_quote_char c ≡ false
          → backslash_char c ≡ true
          → Gives c rest (get_single_quoted_item (on (quoted_char c rest) lx))
      backslash_text c h k =
          let e : c ≡ 0x5c = (==_iff c 0x5c).0 (unfold backslash_char in k) in
          rw (h, k)
            (subst (λ d. Gives d rest (get_single_quoted_item (on (d ∷ d ∷ rest) lx))) (sym e)
              (backslash_item rest lx))

  abbrev Stops : ℕ → Text → Outcome (Option ℕ) × Lexer → Type 0
  Stops d rest r =
      ((l : ℕ) × (k : ℕ) × (r.0 ≡ err (unexpected_char 0x27 l k))) × (r.1.chars ≡ 0x27 ∷ d ∷ rest)

  -- A quote that is not doubled is no item, and is left to the caller.
  closing_item :
      (d : ℕ) (rest : Text) (lx : Lexer)
      → single_quote_char d ≡ false
      → Stops d rest (get_single_quoted_item (on (0x27 ∷ d ∷ rest) lx))
  unfolding get_single_quoted_item backslash_char new_line_char single_quote_char
  closing_item d rest lx h = rw h ((_, _, refl), refl)

  abbrev pub all_quotable : Text → Bool
  all_quotable [] = true
  all_quotable (c ∷ cs) = is_quotable c && all_quotable cs

  abbrev Collects : Text → Text → Outcome Text × Lexer → Type 0
  Collects s rest r = (r.0 ≡ ok s) × (r.1.chars ≡ rest)

  quoted_loop :
      (fuel : ℕ) (s : Text) (d : ℕ) (rest : Text) (lx : Lexer)
      → length s < fuel
      → all_quotable s ≡ true
      → single_quote_char d ≡ false
      → lx.chars ≡ quoted s (0x27 ∷ d ∷ rest)
      → Collects s (0x27 ∷ d ∷ rest) (consume_loop fuel get_single_quoted_item lx)
  unfolding consume_loop
  quoted_loop zero s d rest lx few q h e = absurd (omega arith)
  quoted_loop (suc fuel) [] d rest lx few q h e =
      let ((l, k, stopped), left) =
        subst (λ text. Stops d rest (get_single_quoted_item (on text lx))) (sym e)
          (closing_item d rest lx h) in
      rw (stopped, consume_loop) (refl, left)
  quoted_loop (suc fuel) (c ∷ cs) d rest lx few q h e =
      let (this, others) = (and-eq-true_iff (is_quotable c) (all_quotable cs)).0 q in
      let (given, left) =
        subst (λ text. Gives c (quoted cs (0x27 ∷ d ∷ rest)) (get_single_quoted_item (on text lx)))
          (sym e) (quoted_char_item c (quoted cs (0x27 ∷ d ∷ rest)) lx this) in
      let (collected, end) =
        quoted_loop fuel cs d rest (get_single_quoted_item lx).1 (omega arith) others h left in
      rw (given, consume_loop) (rw collected (refl, end))

  length-quoted : (s rest : Text) → length s ≤ length (quoted s rest)
  length-quoted [] rest = omega arith
  length-quoted (c ∷ cs) rest = elim (Bool-cases (single_quote_char c || backslash_char c)) [
    | inl h ↦ rw h (omega (arith, length-quoted cs rest))
    | inr h ↦ rw h (omega (arith, length-quoted cs rest))
  ]

  collected :
      (s : Text) (d : ℕ) (rest : Text) (lx : Lexer)
      → all_quotable s ≡ true
      → single_quote_char d ≡ false
      → lx.chars ≡ quoted s (0x27 ∷ d ∷ rest)
      → Collects s (0x27 ∷ d ∷ rest) (consume_chars_with get_single_quoted_item lx)
  unfolding consume_chars_with
  collected s d rest lx q h e =
      quoted_loop (suc (length lx.chars)) s d rest lx
        (let enough : length s ≤ length lx.chars = rw e (length-quoted s (0x27 ∷ d ∷ rest)) in
          omega arith)
        q h e

module _ ⦃n : Numerics⦄ ⦃u : Unicode⦄ where
  abbrev Names : Text → Text → Outcome Token × Lexer → Type 0
  Names s rest r = (r.0 ≡ ok (atom_token s)) × (r.1.chars ≡ rest)

  -- The rest of `quoted_name` after the name's characters.
  closing_quote :
      (s : Text) (d : ℕ) (rest : Text) (r : Outcome Text × Lexer)
      → Collects s (0x27 ∷ d ∷ rest) r
      → Names s (d ∷ rest) (
          continue r.0
            (λ token. do
              c' ← lookahead_char
              if single_quote_char c'
                  then (do skip_char c'; pure (atom_token token))
                  else raise (invalid_single_quoted_character c'))
            r.1)
  unfolding lookahead_char skip_char single_quote_char new_line_char
  closing_quote s d rest r (e, left) = rw e (rw left (refl, refl))

  quoted_name-quoted :
      (s : Text) (d : ℕ) (rest : Text) (lx : Lexer)
      → all_quotable s ≡ true
      → single_quote_char d ≡ false
      → lx.chars ≡ 0x27 ∷ quoted s (0x27 ∷ d ∷ rest)
      → Names s (d ∷ rest) (quoted_name 0x27 lx)
  unfolding quoted_name skip_char
  quoted_name-quoted s d rest lx q h e =
      closing_quote s d rest (consume_chars_with get_single_quoted_item (skip_char 0x27 lx).1) (
        collected s d rest (skip_char 0x27 lx).1 q h
          (advance-chars 0x27 (on (rest_of lx.chars) lx) ∙ ap rest_of e))

  quote_no_letter : small_letter_char 0x27 ≡ false
  unfolding small_letter_char
  quote_no_letter = rw (u.alphabetic_ascii 0x27 (omega arith)) refl

  -- A name that is written in single quotes, with its quotes and backslashes doubled, is read back
  -- by `name_token`, and what follows the closing quote is left, where all its characters may stand
  -- in quotes and the character that follows is no quote.
  pub name_token-quoted :
      (s : Text) (d : ℕ) (rest : Text) (lx : Lexer)
      → all_quotable s ≡ true
      → single_quote_char d ≡ false
      → lx.chars ≡ 0x27 ∷ quoted s (0x27 ∷ d ∷ rest)
      → ((name_token 0x27 lx).0 ≡ ok (literal_token (atom s)))
        × ((name_token 0x27 lx).1.chars ≡ d ∷ rest)
  unfolding name_token graphic_token_char cut_char semicolon_char single_quote_char
  name_token-quoted s d rest lx q h e = rw quote_no_letter (quoted_name-quoted s d rest lx q h e)
