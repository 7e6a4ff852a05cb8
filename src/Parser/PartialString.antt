-- ===== src/Parser/PartialString.antt =====
-- `as_partial_string` of src/parser/parser.rs: a list of characters as a string.
use contrib_scryer_prolog.Base.{ℕ, Option, none, some, [], ◌∷◌, ◌++◌, if◌then◌else◌}
use contrib_scryer_prolog.Base.Text.{Text, codes, text_eq}
use contrib_scryer_prolog.Numerics.{Numerics}
use contrib_scryer_prolog.Ast.Term.{Term, cons, literal, partial_string, complete_string, atom}

-- `Atom::as_char`: the character of an atom that is one character long.
abbrev pub as_char : Text → Option ℕ
as_char (c ∷ []) = some c
as_char _ = none

module _ ⦃n : Numerics⦄ where
  abbrev pub nil : Term
  nil = literal (atom (codes "[]"))

  -- The character of a literal, `some none` where the term is no atom, `none` for a longer atom.
  abbrev pub char_of : Term → Option (Option ℕ)
  char_of (literal (atom a)) = elim (as_char a) [ some c ↦ some (some c) | none ↦ none ]
  char_of _ = some none

  -- The loop over the tail: the string so far and what is left, or `none` where an element is an
  -- atom but no character.
  unfoldable pub string_loop : Text → Term → Option (Text × Term)
  string_loop acc (cons prev succ) = elim (char_of prev) [
    | none ↦ none
    | some none ↦ some (acc, cons prev succ)
    | some (some c) ↦ string_loop (acc ++ c ∷ []) succ
  ]
  string_loop acc (partial_string s tail) = string_loop (acc ++ s) tail
  string_loop acc (complete_string s) = some (acc ++ s, nil)
  string_loop acc tail = some (acc, tail)

  -- The final match on the tail.
  abbrev pub finish_string : Text → Term → Text × Option Term
  finish_string string (literal (atom a)) =
      if text_eq a (codes "[]") then (string, none) else (string, some (literal (atom a)))
  finish_string string (complete_string s) = (string ++ s, none)
  finish_string string (partial_string s tail) = (string ++ s, some tail)
  finish_string string tail = (string, some tail)

  pub data StringResult : Type 0 where
    is_string : Text → Option Term → StringResult
    no_string : Term → StringResult

  unfoldable pub as_partial_string : Term → Term → StringResult
  unfolding string_loop
  as_partial_string head tail = elim (char_of head) [
    | some (some c) ↦ elim (string_loop (c ∷ []) tail) [
      | none ↦ no_string (cons head tail)
      | some (string, rest) ↦ let (s, t) = finish_string string rest in is_string s t
    ]
    | _ ↦ no_string (cons head tail)
  ]

  -- How the callers build a term from the result.
  abbrev pub term_of : StringResult → Term
  term_of (is_string s (some tail)) = partial_string s tail
  term_of (is_string s none) = complete_string s
  term_of (no_string t) = t
