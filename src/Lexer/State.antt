-- ===== src/Lexer/State.antt =====
-- The state of the lexer of src/parser/lexer.rs and the calls that change it. The reader is the
-- characters that it has still to give; after them it is at its end, or fails for good. What a
-- failing action has consumed stays consumed, so the state comes back beside an error too.
use contrib_scryer_prolog.Base.{
  ℕ, zero, suc, ◌+◌, Bool, true, false, not, Option, none, some, [], ◌∷◌, if◌then◌else◌, length,
}
use contrib_scryer_prolog.Base.Text.{Text}
use contrib_scryer_prolog.Ast.Error.{ParserError, unexpected_eof, is_unexpected_eof}
use contrib_scryer_prolog.Chars.{new_line_char}

pub data DoubleQuotes : Type 0 where
  atom_flag chars_flag codes_flag : DoubleQuotes

abbrev pub is_chars : DoubleQuotes → Bool
is_chars chars_flag = true
is_chars _ = false

abbrev pub is_codes : DoubleQuotes → Bool
is_codes codes_flag = true
is_codes _ = false

pub record Lexer : Type 0 where
  pub chars : Text
  pub fails : Bool
  pub line_num : ℕ
  pub col_num : ℕ
  pub double_quotes : DoubleQuotes

-- `out_of_fuel` is no result of the program: it marks a loop of the model that was cut off.
pub data Outcome {ℓ} (A : Type ℓ) : Type ℓ where
  ok : A → Outcome A
  err : ParserError → Outcome A
  out_of_fuel : Outcome A

abbrev pub Lex {ℓ} : Type ℓ → Type ℓ
Lex A = Lexer → Outcome A × Lexer

abbrev pub pure : {A : Type 0} → A → Lex A
pure a lx = (ok a, lx)

abbrev pub raise : {A : Type 0} → ParserError → Lex A
raise e lx = (err e, lx)

abbrev pub exhausted : {A : Type 0} → Lex A
exhausted lx = (out_of_fuel, lx)

abbrev pub continue : {A B : Type 0} → Outcome A → (A → Lex B) → Lex B
continue (ok a) f lx = f a lx
continue (err e) f lx = (err e, lx)
continue out_of_fuel f lx = (out_of_fuel, lx)

infixl 5 ◌>>=◌ ◌>>◌
abbrev pub ◌>>=◌ : {A B : Type 0} → Lex A → (A → Lex B) → Lex B
◌>>=◌ m f lx = continue (m lx).0 f (m lx).1

abbrev pub ◌>>◌ : {A B : Type 0} → Lex A → Lex B → Lex B
m >> k = m >>= λ _. k

-- `or_else`
abbrev pub handle : {A : Type 0} → Outcome A → (ParserError → Lex A) → Lex A
handle (err e) f lx = f e lx
handle r f lx = (r, lx)

abbrev pub catch : {A : Type 0} → Lex A → (ParserError → Lex A) → Lex A
catch m f lx = handle (m lx).0 f (m lx).1

-- An end of the input becomes `none`; every other error is raised.
abbrev pub or_none : {A : Type 0} → Outcome A → Outcome (Option A)
or_none (ok a) = ok (some a)
or_none (err e) = if is_unexpected_eof e then ok none else err e
or_none out_of_fuel = out_of_fuel

abbrev pub unless_eof : {A : Type 0} → Lex A → Lex (Option A)
unless_eof m lx = (or_none (m lx).0, (m lx).1)

-- Any error becomes `none`.
abbrev pub or_failed : {A : Type 0} → Outcome A → Outcome (Option A)
or_failed (ok a) = ok (some a)
or_failed (err e) = ok none
or_failed out_of_fuel = out_of_fuel

abbrev pub attempt : {A : Type 0} → Lex A → Lex (Option A)
attempt m lx = (or_failed (m lx).0, (m lx).1)

-- An error that names the place where it stands.
abbrev pub raise_here : {A : Type 0} → (ℕ → ℕ → ParserError) → Lex A
raise_here e lx = (err (e lx.line_num lx.col_num), lx)

abbrev pub first_char : Text → Outcome ℕ
first_char (c ∷ _) = ok c
first_char [] = err unexpected_eof

abbrev pub rest_of : Text → Text
rest_of (_ ∷ cs) = cs
rest_of [] = []

-- At its end and at a failure alike the reader gives no character.
unfoldable pub lookahead_char : Lex ℕ
lookahead_char lx = (first_char lx.chars, lx)

unfoldable pub read_char : Lex ℕ
read_char lx = (first_char lx.chars, record lx { chars = rest_of lx.chars })

-- `self.reader.peek_char().is_none()`
unfoldable pub at_end : Lex Bool
at_end lx = (ok (elim lx.chars [ [] ↦ not lx.fails | c ∷ cs ↦ false ]), lx)

unfoldable pub return_char : ℕ → Lex (Unit {0})
return_char c lx = (ok tt, record lx { chars = c ∷ lx.chars })

-- The position after `c`.
unfoldable pub advance : ℕ → Lexer → Lexer
unfolding new_line_char
advance c lx =
    if new_line_char c
    then record lx { line_num = lx.line_num + 1; col_num = 0 }
    else record lx { col_num = lx.col_num + 1 }

-- `c` is the character that the reader gives next; `consume` takes its bytes.
unfoldable pub skip_char : ℕ → Lex (Unit {0})
unfolding advance
skip_char c lx = (ok tt, advance c (record lx { chars = rest_of lx.chars }))

-- The loops that skip and collect the characters of a class, one at a time.
unfoldable pub scan_from : (ℕ → Bool) → Text → Lexer → Text × Lexer
unfolding advance
scan_from p [] lx = ([], record lx { chars = [] })
scan_from p (c ∷ cs) lx =
    if p c
    then (let (token, lx') = scan_from p cs (advance c lx) in (c ∷ token, lx'))
    else ([], record lx { chars = c ∷ cs })

unfoldable pub scan_while : (ℕ → Bool) → Lex Text
unfolding scan_from
scan_while p lx = let (token, lx') = scan_from p lx.chars lx in (ok token, lx')

-- `consume_chars_with!`: an item is a character or a skipped line break, and an unexpected
-- character ends the loop.
abbrev pub pushed : Option ℕ → Text → Text
pushed (some c) token = c ∷ token
pushed none token = token

abbrev pub stop_at_unexpected : ParserError → Lex Text
stop_at_unexpected (ParserError.unexpected_char _ _ _) = pure []
stop_at_unexpected e = raise e

abbrev pub consume_next : Outcome (Option ℕ) → Lex Text → Lex Text
consume_next (ok item) rest = rest >>= λ token. pure (pushed item token)
consume_next (err e) rest = stop_at_unexpected e
consume_next out_of_fuel rest = exhausted

unfoldable pub consume_loop : ℕ → Lex (Option ℕ) → Lex Text
consume_loop zero item lx = (out_of_fuel, lx)
consume_loop (suc fuel) item lx =
    let rest : Lex Text = consume_loop fuel item in consume_next (item lx).0 rest (item lx).1

-- Every item that is given consumes a character at least, so this fuel is enough.
unfoldable pub consume_chars_with : Lex (Option ℕ) → Lex Text
unfolding consume_loop
consume_chars_with item lx = consume_loop (suc (length lx.chars)) item lx
