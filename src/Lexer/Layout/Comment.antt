-- ===== src/Lexer/Layout/Comment.antt =====
-- `bracketed_comment` of src/parser/lexer.rs on the text of a comment.
use mathlib.Core.Path.{subst}
use contrib_scryer_prolog.Base.{
  ℕ, ◌≡◌, refl, sym, Bool, true, false, ◌&&◌, ◌||◌, [], ◌∷◌, ◌++◌, ◌==◌, if◌then◌else◌, arith,
}
use contrib_scryer_prolog.Base.Text.{Text}
use contrib_scryer_prolog.Chars.{
  Unicode, comment_1_char, comment_2_char, prolog_char, graphic_char, new_line_char,
}
use contrib_scryer_prolog.Lexer.State.{
  Lexer, Outcome, ok, advance, skip_char, continue, pure, raise_here, ◌>>◌,
}
use contrib_scryer_prolog.Ast.Error.{non_prolog_char}
use contrib_scryer_prolog.Lexer.Layout.{comment_loop, finish_comment, bracketed_comment}

-- A text has a `*` with a `/` right after it.
abbrev pub contains_end : Text → Bool
contains_end (c ∷ d ∷ cs) = (c == b'*' && d == b'/') || contains_end (d ∷ cs)
contains_end _ = false

abbrev Closed : Text → Outcome ℕ × Lexer → Type 0
Closed rest r = (r.0 ≡ ok b'/') × (r.1.chars ≡ b'/' ∷ rest)

closing :
    (starred : Bool) (rest : Text) (lx : Lexer)
    → Closed rest (comment_loop starred (b'*' ∷ b'/' ∷ rest) lx)
unfolding comment_loop comment_1_char comment_2_char
closing true rest lx = (refl, refl)
closing false rest lx = (refl, refl)

comment_loop-body :
    (p : ℕ) (body rest : Text) (lx : Lexer)
    → contains_end (p ∷ body ++ b'*' ∷ []) ≡ false
    → Closed rest (comment_loop (comment_2_char p) (body ++ b'*' ∷ b'/' ∷ rest) lx)
unfolding comment_loop comment_1_char comment_2_char
comment_loop-body p [] rest lx h = closing (p == b'*') rest lx
comment_loop-body p (c ∷ cs) rest lx h =
    let goes_on : (p == b'*' && c == b'/') ≡ false = ground arith in
    let later : contains_end (c ∷ cs ++ b'*' ∷ []) ≡ false = ground arith in
    rw goes_on (
      comment_loop-body c cs rest (advance c (record lx { chars = cs ++ b'*' ∷ b'/' ∷ rest }))
        later)

abbrev on : Text → Lexer → Lexer
on text lx = record lx { chars = text }

finish_comment-body :
    (body rest : Text) (lx : Lexer)
    → contains_end (body ++ b'*' ∷ []) ≡ false
    → Closed rest (finish_comment (on (body ++ b'*' ∷ b'/' ∷ rest) lx))
unfolding comment_2_char comment_loop
finish_comment-body body rest lx h =
    let (closed, left) =
      comment_loop-body 0x20 body rest (on (body ++ b'*' ∷ b'/' ∷ rest) lx) (space_before body h) in
    rw closed (refl, left)
  where
    space_before :
        (body : Text)
        → contains_end (body ++ b'*' ∷ []) ≡ false
        → contains_end (0x20 ∷ body ++ b'*' ∷ []) ≡ false
    space_before [] h = h
    space_before (c ∷ cs) h = h

-- The lexer after the two characters that open a comment.
abbrev opened : Text → Lexer → Lexer
opened text lx = (skip_char b'*' (skip_char b'/' (on (b'/' ∷ b'*' ∷ text) lx)).1).1

module _ ⦃u : Unicode⦄ where
  abbrev Skipped : Text → Outcome Bool × Lexer → Type 0
  Skipped rest r = (r.0 ≡ ok true) × (r.1.chars ≡ rest)

  finished :
      (rest : Text) (r : Outcome ℕ × Lexer)
      → Closed rest r
      → Skipped rest (
          continue r.0
            (λ c. if prolog_char c then (do skip_char c; pure true) else raise_here non_prolog_char)
            r.1)
  unfolding prolog_char graphic_char skip_char new_line_char
  finished rest r (closed, left) = rw closed (rw left (refl, refl))

  comment_text :
      (body rest : Text) (lx : Lexer)
      → contains_end (body ++ b'*' ∷ []) ≡ false
      → Skipped rest (bracketed_comment (on (b'/' ∷ b'*' ∷ body ++ b'*' ∷ b'/' ∷ rest) lx))
  unfolding bracketed_comment comment_2_char skip_char new_line_char
  comment_text [] rest lx h =
      let inside = opened (b'*' ∷ b'/' ∷ rest) lx in
      finished rest (finish_comment inside) (finish_comment-body [] rest inside h)
  comment_text (c ∷ cs) rest lx h =
      let inside = opened (c ∷ cs ++ b'*' ∷ b'/' ∷ rest) lx in
      finished rest (finish_comment inside) (finish_comment-body (c ∷ cs) rest inside h)

  -- A bracketed comment is skipped with its end and nothing after it, where its body, followed by
  -- a star, contains no `*/`.
  pub bracketed_comment-skips :
      (body rest : Text) (lx : Lexer)
      → contains_end (body ++ b'*' ∷ []) ≡ false
      → lx.chars ≡ b'/' ∷ b'*' ∷ body ++ b'*' ∷ b'/' ∷ rest
      → ((bracketed_comment lx).0 ≡ ok true) × ((bracketed_comment lx).1.chars ≡ rest)
  bracketed_comment-skips body rest lx h e =
      subst (λ text. Skipped rest (bracketed_comment (on text lx))) (sym e)
        (comment_text body rest lx h)
