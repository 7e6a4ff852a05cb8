-- ===== src/Parser/Invariant/Lists.antt =====
-- The invariant across `reduce_list` of src/parser/parser.rs.
use mathlib.Core.List.{append_assoc, reverse-append}
use mathlib.Core.Bool.{false≢true}
use mathlib.Core.Path.{subst}
use contrib_scryer_prolog.Base.{
  ℕ, zero, suc, ◌+◌, ◌-◌, ◌*◌, ◌<◌, ◌≡◌, refl, sym, ◌∙◌, ap, Bool, true, false, ◌&&◌, ◌||◌, some,
  List, [], ◌∷◌, ◌++◌, reverse, inl, inr, arith, Bool-cases, Option-cases, if_cases, length, take,
  drop, ltb, ◌==◌, get_elem?, not,
}
use contrib_scryer_prolog.Base.Text.{Text, codes}
use contrib_scryer_prolog.Numerics.{Numerics}
use contrib_scryer_prolog.Ast.Term.{Term, literal, cons, terms_of}
use contrib_scryer_prolog.Lexer.State.{Outcome, ok}
use contrib_scryer_prolog.Parser.State.{
  TokenDesc, TokenType, term_type, is_comma, is_open_list, is_head_tail_separator, is_empty, top_is,
  Parser, set_top_term,
}
use contrib_scryer_prolog.Parser.PartialString.{nil}
use contrib_scryer_prolog.Parser.ReduceOp.{reduce_op}
use contrib_scryer_prolog.Parser.Compound.{is_operand}
use contrib_scryer_prolog.Parser.Lists.{
  list_arity, compute_arity_in_list, fold_list, list_term, build_list, is_tail_separator, expands,
  with_tail, list_of_arity, reduce_list,
}
use contrib_scryer_prolog.Parser.Invariant.{
  delimits, separates, Fits, entry, mark, variables, variables_of, stacked_variables, Holds,
}
use contrib_scryer_prolog.Parser.Invariant.ReduceOp.{reduce_op-Keeps}
use contrib_scryer_prolog.Parser.Invariant.Strings.{as_partial_string-variables}
use contrib_scryer_prolog.Parser.Invariant.Compound.{
  operand_Fits, separator_Fits, ArgumentsFit, one_more, last_one, stacked_variables-split,
  any_op-term, variables-terms_of-append, append-variables-atom, stacked_variables-atom,
}

module _ ⦃n : Numerics⦄ where
  items_Fits :
      (stack : List TokenDesc) (ts : List Term) (k a : ℕ)
      → Fits stack ts
      → list_arity stack true k ≡ some a
      → ArgumentsFit stack ts k a
  unfolding list_arity
  items_Fits [] ts k a fits h = cc
  items_Fits (d ∷ []) ts k a fits h = absurd (ground arith)
  items_Fits (d ∷ e ∷ rest) ts k a fits h =
      let again = items_Fits rest in
      if_cases (is_comma d.tt) h (λ _ k'. cc)
        λ c h2.
          if_cases (is_operand d) h2
            (λ o h3.
              let (t, ts', split, typed, fits') = operand_Fits fits c o in
              subst (λ us. ArgumentsFit (d ∷ e ∷ rest) us k a) (sym split)
                (if_cases (is_head_tail_separator e.tt && not (k + 1 == 1)) h3 (λ _ h4. cc)
                  λ _ h4.
                    if_cases (is_open_list e.tt) h4
                      (λ l h5.
                        last_one d e rest t ts' k a (ground arith)
                          (separator_Fits fits' (ground arith)))
                      λ _ h5.
                        if_cases (is_head_tail_separator e.tt || is_comma e.tt) h5
                          (λ cm h6.
                            one_more d e rest t ts' k a
                              (again ts' (k + 1) a (separator_Fits fits' (ground arith)) h6))
                          λ _ h6. cc))
            λ _ k'. cc

  fold_list-variables :
      (ts : List Term) (acc : Term)
      → variables (fold_list ts acc) ≡ variables_of (terms_of (reverse ts)) ++ variables acc
  unfolding fold_list
  fold_list-variables [] acc = unfold variables terms_of in refl
  fold_list-variables (t ∷ ts) acc =
      rw (reverse-append (t ∷ []) ts, variables-terms_of-append (reverse ts) t)
        (fold_list-variables ts (cons t acc)
          ∙ (unfold variables in
              sym (
                append_assoc (variables_of (terms_of (reverse ts))) (variables t) (variables acc))))

  list_term-variables : (t : Term) → variables (list_term t) ≡ variables t
  list_term-variables (cons head tail) =
      as_partial_string-variables head tail ∙ (unfold variables in refl)
  list_term-variables (literal _) = refl
  list_term-variables _ = refl

  built_variables :
      (arity : ℕ) (end_term : Term) (ts : List Term)
      → stacked_variables (list_term (fold_list (take arity ts) end_term) ∷ drop arity ts)
        ≡ stacked_variables ts ++ variables end_term
  unfolding stacked_variables
  built_variables arity end_term ts =
      ap (λ vs. stacked_variables (drop arity ts) ++ vs)
        (list_term-variables (fold_list (take arity ts) end_term)
          ∙ fold_list-variables (take arity ts) end_term)
      ∙ sym (
          append_assoc (stacked_variables (drop arity ts))
            (variables_of (terms_of (reverse (take arity ts)))) (variables end_term))
      ∙ ap (λ vs. vs ++ variables end_term) (sym (stacked_variables-split arity ts))

  abbrev pub IsKept : List Text → Outcome Bool × Parser → Type 0
  IsKept vs r = r.0 ≡ ok true → Holds vs r.1

  build_list-Keeps :
      (arity : ℕ) (below : List TokenDesc) (end_term : Term) (ts : List Term) (p : Parser)
      (vs : List Text)
      → Fits below (drop arity ts)
      → (stacked_variables ts ++ variables end_term) ≡ vs
      → IsKept vs (build_list arity below end_term ts p)
  build_list-Keeps arity below end_term ts p vs fits e = elim (Bool-cases (ltb (length ts) arity)) [
    | inl h ↦ rw h λ k. cc
    | inr h ↦ rw h λ k. record {
      fits = entry refl (λ o. absurd (false≢true (sym any_op-term ∙ o))) fits;
      vars = built_variables arity end_term ts ∙ e;
    }
  ]

  -- A `|` in a list has compacted nothing, since it is no operator.
  under_Fits :
      {d : TokenDesc} {ds : List TokenDesc} {ts : List Term}
      → Fits (d ∷ ds) ts
      → (us : List Term) × Fits ds us
  under_Fits (entry {ts = ts} typed op fits) = (ts, fits)
  under_Fits (mark {ts = ts} m fits) = (ts, fits)

  separator_expands :
      {d : TokenDesc} {ds : List TokenDesc} {ts : List Term}
      → Fits (d ∷ ds) ts
      → is_head_tail_separator d.tt ≡ true
      → ltb 1000 d.priority ≡ false
  separator_expands (entry typed op fits) h =
      absurd (false≢true (sym (ap is_head_tail_separator typed) ∙ h))
  separator_expands (mark (delimits _ _ low _) fits) h = ground arith
  separator_expands (mark (separates comma _) fits) h =
      absurd (false≢true (sym (ap is_head_tail_separator comma) ∙ h))

  tail_expands :
      (stack : List TokenDesc) (ts : List Term)
      → Fits stack ts
      → is_tail_separator (get_elem? stack 1) ≡ true
      → expands (get_elem? stack 1) ≡ false
  tail_expands [] ts fits h = cc
  tail_expands (d ∷ []) ts fits h = cc
  tail_expands (d ∷ sep ∷ rest) ts fits h = separator_expands (under_Fits fits).1 h

  with_tail-Keeps :
      (arity : ℕ) (below : List TokenDesc) (ts : List Term) (p : Parser) (vs : List Text)
      → expands (get_elem? p.stack 1) ≡ false
      → 0 < arity
      → Fits below (drop arity ts)
      → stacked_variables ts ≡ vs
      → IsKept vs (with_tail arity below ts p)
  with_tail-Keeps arity below [] p vs low some_arity fits e = λ k. cc
  with_tail-Keeps zero below (t ∷ ts) p vs low some_arity fits e = absurd (omega arith)
  with_tail-Keeps (suc k) below (t ∷ ts) p vs low some_arity fits e =
      let same : suc k + 0 - 1 ≡ k = omega arith in
      rw (low, same) (build_list-Keeps k below t ts p vs fits (unfold stacked_variables in e))

  list_of_arity-Keeps :
      (p : Parser) (vs : List Text)
      → Holds vs p
      → IsKept vs (list_of_arity (compute_arity_in_list p) p)
  unfolding compute_arity_in_list
  list_of_arity-Keeps p vs keeps = elim (Option-cases (list_arity p.stack true 0)) [
    | inl e ↦ rw e λ k. cc
    | inr (arity, e) ↦ rw e (
        let (j, sum, some_j, fits) = items_Fits p.stack p.terms 0 arity keeps.fits e in
        let same : j ≡ arity = omega arith in
        let fits' = (rw same at fits) in
        elim (Bool-cases (is_tail_separator (get_elem? p.stack 1))) [
          | inl bar ↦ rw bar (
              with_tail-Keeps arity (drop (2 * arity) p.stack) p.terms p vs
                (tail_expands p.stack p.terms keeps.fits bar) (omega arith) fits' keeps.vars)
          | inr plain ↦ rw plain (
              build_list-Keeps arity (drop (2 * arity) p.stack) nil p.terms p vs fits'
                (append-variables-atom p.terms (codes "[]") ∙ keeps.vars))
        ])
  ]

  -- An open bracket on top becomes a term.
  pub closed_Fits :
      (test : TokenType → Bool) (stack : List TokenDesc) (t : Term) (ts : List Term)
      → test term_type ≡ false
      → top_is test stack ≡ true
      → Fits stack ts
      → Fits (set_top_term stack) (t ∷ ts)
  closed_Fits test [] t ts no_test h fits = absurd (false≢true h)
  closed_Fits test (d ∷ ds) t ts no_test h (entry typed op fits) =
      absurd (false≢true (sym no_test ∙ ap test (sym typed) ∙ h))
  closed_Fits test (d ∷ ds) t ts no_test h (mark m fits) =
      entry refl (λ o. absurd (false≢true (sym any_op-term ∙ o))) fits

  -- Where the stack fits the terms and `reduce_list` succeeds, it keeps the stack so, and the
  -- variables with it.
  pub reduce_list-Keeps :
      (p : Parser) (vs : List Text)
      → Holds vs p
      → (reduce_list p).0 ≡ ok true
      → Holds vs (reduce_list p).1
  unfolding reduce_list
  reduce_list-Keeps p vs keeps = elim (Bool-cases (is_empty p.stack)) [
    | inl h ↦ rw h λ k. cc
    | inr h ↦ rw h (elim (Bool-cases (top_is is_open_list p.stack)) [
      | inl o ↦ rw o λ k. record {
        fits = closed_Fits is_open_list p.stack nil p.terms refl o keeps.fits;
        vars = stacked_variables-atom p.terms (codes "[]") ∙ keeps.vars;
      }
      | inr o ↦ rw o (list_of_arity-Keeps (reduce_op 1000 p) vs (reduce_op-Keeps 1000 p vs keeps))
    ])
  ]
