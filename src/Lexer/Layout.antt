-- ===== src/Lexer/Layout.antt =====
-- Comments and layout, src/parser/lexer.rs.
pub mod Comment
use contrib_scryer_prolog.Base.{
  ℕ, zero, suc, Bool, true, false, ◌&&◌, Option, none, some, [], ◌∷◌, if◌then◌else◌, length,
}
use contrib_scryer_prolog.Base.Text.{Text}
use contrib_scryer_prolog.Ast.Error.{
  unexpected_eof, is_unexpected_eof, incomplete_reduction, non_prolog_char,
}
use contrib_scryer_prolog.Chars.{
  Unicode, comment_1_char, comment_2_char, end_line_comment_char, layout_char, new_line_char,
  prolog_char,
}
use contrib_scryer_prolog.Lexer.State.{
  Outcome, ok, err, out_of_fuel, Lex, pure, raise, raise_here, ◌>>=◌, ◌>>◌, lookahead_char,
  return_char, skip_char, advance, exhausted, attempt,
}

pub record LayoutInfo : Type 0 where
  pub inserted : Bool
  pub more : Bool

unfoldable pub line_comment_from : Text → Lex (Unit {0})
unfolding advance new_line_char
line_comment_from [] lx = (if lx.fails then err unexpected_eof else ok tt, record lx { chars = [] })
line_comment_from (c ∷ cs) lx =
    let lx' = advance c (record lx { chars = cs }) in
    if new_line_char c then (ok tt, lx') else line_comment_from cs lx'

unfoldable pub single_line_comment : Lex (Unit {0})
unfolding line_comment_from
single_line_comment lx = line_comment_from lx.chars lx

-- `comment_loop`: skips up to the `/` that follows a `*`, and gives it. `starred` says that the
-- character skipped last is a `*`.
unfoldable pub comment_loop : Bool → Text → Lex ℕ
unfolding advance comment_1_char comment_2_char
comment_loop starred [] lx = (err unexpected_eof, record lx { chars = [] })
comment_loop starred (c ∷ cs) lx =
    if starred && comment_1_char c
    then (ok c, record lx { chars = c ∷ cs })
    else comment_loop (comment_2_char c) cs (advance c (record lx { chars = cs }))

-- The end of the input inside a comment is reported as an incomplete reduction.
abbrev pub closed_comment : Outcome ℕ → Lex ℕ
closed_comment (err e) = if is_unexpected_eof e then raise_here incomplete_reduction else raise e
closed_comment (ok c) = pure c
closed_comment out_of_fuel = exhausted

abbrev pub finish_comment : Lex ℕ
finish_comment lx = let (r, lx') = comment_loop false lx.chars lx in closed_comment r lx'

module _ ⦃u : Unicode⦄ where
  unfoldable pub bracketed_comment : Lex Bool
  unfolding lookahead_char skip_char return_char comment_loop comment_2_char
  bracketed_comment = do
    skip_char b'/'
    c ← lookahead_char
    if comment_2_char c
        then (do
          skip_char c
          lookahead_char
          c' ← finish_comment
          if prolog_char c' then (do skip_char c'; pure true) else raise_here non_prolog_char)
        else (do return_char b'/'; pure false)

  -- What `consume_layout` does with `layout_info` is returned.
  unfoldable pub consume_layout : Option ℕ → LayoutInfo → Lex LayoutInfo
  unfolding skip_char single_line_comment bracketed_comment
  consume_layout (some c) info =
      if layout_char c
      then (do skip_char c; pure (record info { inserted = true }))
      else if end_line_comment_char c
      then (do single_line_comment; pure (record info { inserted = true }))
      else if comment_1_char c
      then (do
        skipped ← bracketed_comment
        pure (if skipped then record info { inserted = true } else record info { more = false }))
      else pure (record info { more = false })
  consume_layout none info = pure (record info { more = false })

  unfoldable pub layout_loop : ℕ → Option ℕ → LayoutInfo → Lex Bool
  unfolding lookahead_char consume_layout
  layout_loop zero cr info = exhausted
  layout_loop (suc fuel) cr info = do
    info' ← consume_layout cr info
    elim info'.more [
      | false ↦ pure info'.inserted
      | true ↦ do cr' ← attempt lookahead_char; layout_loop fuel cr' info'
    ]

  -- Each round but the last consumes a character, so this fuel is enough.
  unfoldable pub scan_for_layout : Lex Bool
  unfolding lookahead_char layout_loop
  scan_for_layout lx =
      (do
        c ← lookahead_char
        layout_loop (suc (suc (length lx.chars))) (some c)
            (record { inserted = false; more = true }))
        lx
