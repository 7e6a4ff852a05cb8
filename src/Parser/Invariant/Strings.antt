-- ===== src/Parser/Invariant/Strings.antt =====
-- Building a string from a list of characters keeps the variables.
use contrib_scryer_prolog.Base.{
  ◌≡◌, refl, ◌∙◌, some, [], ◌∷◌, ◌++◌, inl, inr, arith, Bool-cases, Option-cases,
}
use contrib_scryer_prolog.Base.Text.{Text, codes, text_eq}
use contrib_scryer_prolog.Numerics.{Numerics}
use contrib_scryer_prolog.Ast.Term.{Term, literal, atom, cons, partial_string, complete_string}
use contrib_scryer_prolog.Parser.PartialString.{
  string_loop, finish_string, as_partial_string, term_of, is_string,
}
use contrib_scryer_prolog.Parser.Invariant.{variables}

module _ ⦃n : Numerics⦄ where
  string_loop-variables :
      (acc : Text) (t : Term) (s : Text) (r : Term)
      → string_loop acc t ≡ some (s, r)
      → variables r ≡ variables t
  unfolding string_loop variables
  string_loop-variables acc (cons (literal (atom [])) succ) s r h = cc
  string_loop-variables acc (cons (literal (atom (c ∷ []))) succ) s r h =
      string_loop-variables (acc ++ c ∷ []) succ s r h
  string_loop-variables acc (cons (literal (atom (c ∷ d ∷ a))) succ) s r h = cc
  string_loop-variables acc (cons _ succ) s r h = ground arith
  string_loop-variables acc (partial_string p tail) s r h =
      string_loop-variables (acc ++ p) tail s r h
  string_loop-variables acc (complete_string p) s r h = ground arith
  string_loop-variables acc _ s r h = ground arith

  finish_string-variables :
      (s : Text) (t : Term)
      → variables (term_of (let (s', t') = finish_string s t in is_string s' t')) ≡ variables t
  unfolding variables
  finish_string-variables s (literal (atom a)) = elim (Bool-cases (text_eq a (codes "[]"))) [
    | inl h ↦ rw h refl
    | inr h ↦ rw h refl
  ]
  finish_string-variables s _ = refl

  -- Whether a list of characters becomes a string, in part or not at all, its variables stay.
  pub as_partial_string-variables :
      (head tail : Term)
      → variables (term_of (as_partial_string head tail)) ≡ variables head ++ variables tail
  unfolding as_partial_string variables
  as_partial_string-variables (literal (atom [])) tail = refl
  as_partial_string-variables (literal (atom (c ∷ d ∷ a))) tail = refl
  as_partial_string-variables (literal (atom (c ∷ []))) tail =
      elim (Option-cases (string_loop (c ∷ []) tail)) [
        | inl e ↦ rw (e, as_partial_string) refl
        | inr ((s, r), e) ↦
            rw (e, as_partial_string)
              (finish_string-variables s r ∙ string_loop-variables (c ∷ []) tail s r e)
      ]
  as_partial_string-variables _ tail = refl
