-- ===== src/Parser/Invariant/Compound.antt =====
-- The invariant across `reduce_term` of src/parser/parser.rs.
use mathlib.Core.List.{append_assoc, append-nil, reverse-append}
use mathlib.Core.Bool.{false≢true}
use mathlib.Core.Path.{subst}
use contrib_scryer_prolog.Base.{
  ℕ, zero, suc, ◌+◌, ◌*◌, ◌<◌, ◌≡◌, refl, sym, ◌∙◌, ap, true, false, some, List, [], ◌∷◌, ◌++◌,
  reverse, inl, inr, arith, Bool-cases, Option-cases, if_cases, ==_iff, length, take, drop, ltb,
  ◌==◌, get_elem?,
}
use contrib_scryer_prolog.Base.Text.{Text, codes, text_eq}
use contrib_scryer_prolog.Numerics.{Numerics}
use contrib_scryer_prolog.Ast.Flags.{
  term, bterm, is_term, is_op, is_negate, is_xfx, is_xfy, is_yfx, is_xf, is_yf, is_fx, is_fy,
}
use contrib_scryer_prolog.Ast.Term.{Term, literal, atom, terms_of}
use contrib_scryer_prolog.Parser.State.{
  TokenDesc, TokenType, term_type, is_comma, is_open_ct, is_term_type, is_empty, Parser,
  atomize_term,
}
use contrib_scryer_prolog.Parser.ReduceOp.{reduce_op}
use contrib_scryer_prolog.Parser.Compound.{
  is_operand, arity_at_operand, compute_arity_in_brackets, is_misplaced, compound, close_compound,
  functor_of, functor_term, compound_on, compound_of, reduce_term,
}
use contrib_scryer_prolog.Parser.Invariant.{
  any_op, IsMark, delimits, separates, Fits, entry, mark, variables, variables_of,
  stacked_variables, Holds,
}
use contrib_scryer_prolog.Parser.Invariant.ReduceOp.{reduce_op-Keeps}
use contrib_scryer_prolog.Parser.Invariant.Strings.{as_partial_string-variables}

pub IsMark-no_operand_entry :
    {d : TokenDesc} → IsMark d → is_comma d.tt ≡ false → is_operand d ≡ false
unfolding is_term is_op is_negate
IsMark-no_operand_entry (delimits _ _ _ e) h = rw e
IsMark-no_operand_entry {d} (separates e _) h = absurd (false≢true (sym h ∙ ap is_comma e))

pub any_op-bterm : (any_op bterm ≡ false)
unfolding is_xfx is_yfx is_xfy is_yf is_xf is_fy is_fx
any_op-bterm = refl

pub any_op-term : (any_op term ≡ false)
unfolding is_xfx is_yfx is_xfy is_yf is_xf is_fy is_fx
any_op-term = refl

module _ ⦃n : Numerics⦄ where
  pub append-variables-atom :
      (ts : List Term) (a : Text)
      → stacked_variables ts ++ variables (literal (atom a)) ≡ stacked_variables ts
  unfolding variables
  append-variables-atom ts a = append-nil _

  pub stacked_variables-atom :
      (ts : List Term) (a : Text) → stacked_variables (literal (atom a) ∷ ts) ≡ stacked_variables ts
  unfolding stacked_variables variables
  stacked_variables-atom ts a = append-nil _

  -- An operand stands for a term, which leaves the rest to the entries under it.
  pub operand_Fits :
      {d : TokenDesc} {ds : List TokenDesc} {ts : List Term}
      → Fits (d ∷ ds) ts
      → is_comma d.tt ≡ false
      → is_operand d ≡ true
      → (t : Term) × (ts' : List Term) × (ts ≡ t ∷ ts') × (d.tt ≡ term_type) × Fits ds ts'
  operand_Fits (entry {t = t} {ts = ts} typed op fits) c h = (t, ts, refl, typed, fits)
  operand_Fits (mark m fits) c h = absurd (false≢true (sym (IsMark-no_operand_entry m c) ∙ h))

  -- What is no term has no term.
  pub separator_Fits :
      {d : TokenDesc} {ds : List TokenDesc} {ts : List Term}
      → Fits (d ∷ ds) ts
      → is_term_type d.tt ≡ false
      → Fits ds ts
  separator_Fits (mark m fits) h = fits
  separator_Fits (entry typed op fits) h = absurd (false≢true (sym h ∙ ap is_term_type typed))

  abbrev pub ArgumentsFit : List TokenDesc → List Term → ℕ → ℕ → Type 0
  ArgumentsFit stack ts k a =
      (j : ℕ) × (a ≡ k + j) × (0 < j) × Fits (drop (2 * j) stack) (drop j ts)

  pub one_more :
      (d e : TokenDesc) (rest : List TokenDesc) (t : Term) (ts : List Term) (k a : ℕ)
      → ArgumentsFit rest ts (k + 1) a
      → ArgumentsFit (d ∷ e ∷ rest) (t ∷ ts) k a
  one_more d e rest t ts k a (j, sum, some_j, fits) = (
    suc j,
    omega arith,
    omega arith,
    (let two : 2 * suc j ≡ suc (suc (2 * j)) = omega arith in rw two fits),
  )

  pub last_one :
      (d e : TokenDesc) (rest : List TokenDesc) (t : Term) (ts : List Term) (k a : ℕ)
      → k + 1 ≡ a
      → Fits rest ts
      → ArgumentsFit (d ∷ e ∷ rest) (t ∷ ts) k a
  last_one d e rest t ts k a h fits = (1, omega arith, omega arith, fits)

  -- Under the operands of an argument list the stack fits the terms under theirs.
  pub arguments_Fits :
      (stack : List TokenDesc) (ts : List Term) (k a : ℕ)
      → Fits stack ts
      → arity_at_operand stack true k ≡ some a
      → ArgumentsFit stack ts k a
  unfolding arity_at_operand
  arguments_Fits [] ts k a fits h = cc
  arguments_Fits (d ∷ []) ts k a fits h = absurd (ground arith)
  arguments_Fits (d ∷ e ∷ rest) ts k a fits h =
      let again = arguments_Fits rest in
      if_cases (is_comma d.tt) h (λ _ k'. cc)
        λ c h2.
          if_cases (is_operand d) h2
            (λ o h3.
              let (t, ts', split, typed, fits') = operand_Fits fits c o in
              subst (λ us. ArgumentsFit (d ∷ e ∷ rest) us k a) (sym split)
                (if_cases (is_open_ct e.tt) h3
                  (λ ct h4.
                    last_one d e rest t ts' k a (ground arith)
                      (separator_Fits fits' (ground arith)))
                  λ _ h4.
                    if_cases (is_comma e.tt) h4
                      (λ cm h5.
                        one_more d e rest t ts' k a
                          (again ts' (k + 1) a (separator_Fits fits' (ground arith)) h5))
                      λ _ h5. cc))
            λ _ k'. cc

  pub variables-terms_of-append :
      (xs : List Term) (t : Term)
      → variables_of (terms_of (xs ++ t ∷ [])) ≡ variables_of (terms_of xs) ++ variables t
  unfolding terms_of variables
  variables-terms_of-append [] t = append-nil _
  variables-terms_of-append (x ∷ xs) t = simp (variables-terms_of-append xs t, append_assoc)

  -- The terms on top, in the order of the vector, and those under them.
  pub stacked_variables-split :
      (k : ℕ) (ts : List Term)
      → stacked_variables ts
        ≡ stacked_variables (drop k ts) ++ variables_of (terms_of (reverse (take k ts)))
  unfolding stacked_variables
  stacked_variables-split zero ts = unfold variables terms_of in sym (append-nil _)
  stacked_variables-split (suc k) [] = unfold variables terms_of in refl
  stacked_variables-split (suc k) (t ∷ ts) =
      rw (reverse-append (t ∷ []) (take k ts), variables-terms_of-append (reverse (take k ts)) t)
        (ap (λ vs. vs ++ variables t) (stacked_variables-split k ts)
          ∙ append_assoc (stacked_variables (drop k ts))
              (variables_of (terms_of (reverse (take k ts)))) (variables t))

  variables-compound :
      (name : Text) (subterms : List Term)
      → variables (compound name subterms) ≡ variables_of (terms_of subterms)
  unfolding variables terms_of
  variables-compound name [] = refl
  variables-compound name (a ∷ []) = refl
  variables-compound name (a ∷ b ∷ []) = elim (Bool-cases (text_eq name (codes "."))) [
    | inl h ↦ rw h (as_partial_string-variables a b ∙ simp append-nil)
    | inr h ↦ rw h refl
  ]
  variables-compound name (a ∷ b ∷ c ∷ r) = refl

  functor_of-eq :
      (desc : TokenDesc) (t : Term) (name : Text)
      → functor_of desc t ≡ some name
      → (desc.tt ≡ term_type) × (variables t ≡ [])
  functor_of-eq desc t name h =
      if_cases (is_term_type desc.tt) h
        (λ typed e. (eq_of_is_term_type desc.tt typed, atom_variables t name e)) λ _ e. cc
    where
      eq_of_is_term_type : (k : TokenType) → is_term_type k ≡ true → k ≡ term_type
      eq_of_is_term_type term_type e = refl
      eq_of_is_term_type _ e = cc

      atom_variables : (u : Term) (a : Text) → atomize_term u ≡ some a → variables u ≡ []
      atom_variables (literal (atom b)) a e = unfold variables in refl
      atom_variables _ a e = cc

  functor_Fits :
      {desc : TokenDesc} {rest : List TokenDesc} {t : Term} {ts : List Term}
      → Fits (desc ∷ rest) (t ∷ ts)
      → desc.tt ≡ term_type
      → Fits rest ts
  functor_Fits (entry typed op fits) e = fits
  functor_Fits (mark (delimits no_term _ _ _) fits) e =
      absurd (false≢true (sym no_term ∙ ap is_term_type e))
  functor_Fits (mark (separates comma _) fits) e =
      absurd (false≢true (ap is_term_type (sym comma ∙ e)))

  functor_variables :
      (t : Term) (ts : List Term) (name : Text) (subterms : List Term)
      → variables t ≡ []
      → stacked_variables (compound name subterms ∷ ts)
        ≡ stacked_variables (t ∷ ts) ++ variables_of (terms_of subterms)
  unfolding stacked_variables
  functor_variables t ts name subterms e = rw (variables-compound name subterms, e, append-nil) refl

  module _ (p : Parser) (vs : List Text) (keeps : Holds vs p) where
    close_compound-Keeps :
        (c : Term) (ts : List Term) (desc : TokenDesc) (rest : List TokenDesc)
        → desc.tt ≡ term_type
        → Fits rest ts
        → stacked_variables (c ∷ ts) ≡ vs
        → Holds vs (close_compound c ts (desc ∷ rest) p).1
    close_compound-Keeps c ts desc rest typed fits e = elim (Bool-cases (desc.spec == bterm)) [
      | inl h ↦ rw h (record {
        fits = entry typed (λ o. absurd (false≢true (sym (not_op h) ∙ o))) fits;
        vars = e;
      })
      | inr h ↦ rw h (record {
        fits = entry refl (λ o. absurd (false≢true (sym any_op-term ∙ o))) fits;
        vars = e;
      })
    ]
      where
        not_op : (desc.spec == bterm) ≡ true → any_op desc.spec ≡ false
        not_op h = ap any_op ((==_iff desc.spec bterm).0 h) ∙ any_op-bterm

    functor_term-Keeps :
        (arity : ℕ) (desc : TokenDesc) (rest : List TokenDesc) (ts : List Term)
        → Fits (desc ∷ rest) ts
        → (stacked_variables ts ++ variables_of (terms_of (reverse (take arity p.terms)))) ≡ vs
        → Holds vs (functor_term desc (reverse (take arity p.terms)) ts rest p).1
    functor_term-Keeps arity desc rest [] fits e = keeps
    functor_term-Keeps arity desc rest (t ∷ ts) fits e = elim (Option-cases (functor_of desc t)) [
      | inl no_functor ↦ rw no_functor keeps
      | inr (name, functor) ↦
          let (typed, none_in) = functor_of-eq desc t name functor in
          rw functor (
            close_compound-Keeps (compound name (reverse (take arity p.terms))) ts desc rest typed
              (functor_Fits fits typed)
              (functor_variables t ts name (reverse (take arity p.terms)) none_in ∙ e))
    ]

    compound_on-Keeps :
        (arity : ℕ) (stack : List TokenDesc)
        → Fits stack (drop arity p.terms)
        → Holds vs (compound_on arity stack p).1
    compound_on-Keeps arity [] fits = keeps
    compound_on-Keeps arity (desc ∷ rest) fits =
        elim (Bool-cases (is_misplaced desc (get_elem? rest 0))) [
          | inl h ↦ rw h keeps
          | inr h ↦ rw h (elim (Bool-cases (ltb (length p.terms) (1 + arity))) [
            | inl few ↦ rw few keeps
            | inr enough ↦ rw enough (
                functor_term-Keeps arity desc rest (drop arity p.terms) fits
                  (sym (stacked_variables-split arity p.terms) ∙ keeps.vars))
          ])
        ]

    compound_of-Keeps : Holds vs (compound_of (compute_arity_in_brackets p) p).1
    unfolding compute_arity_in_brackets
    compound_of-Keeps = elim (Option-cases (arity_at_operand p.stack true 0)) [
      | inl e ↦ rw e keeps
      | inr (arity, e) ↦ rw e (
          let (j, sum, some_j, fits) = arguments_Fits p.stack p.terms 0 arity keeps.fits e in
          let same : j ≡ arity = omega arith in
          compound_on-Keeps arity (drop (2 * arity) p.stack) (rw same at fits))
    ]

  -- Where the stack fits the terms, `reduce_term` keeps it so, and the variables with it, whether
  -- it gives `true` or `false`.
  pub reduce_term-Keeps : (p : Parser) (vs : List Text) → Holds vs p → Holds vs (reduce_term p).1
  unfolding reduce_term
  reduce_term-Keeps p vs keeps = elim (Bool-cases (is_empty p.stack)) [
    | inl h ↦ rw h keeps
    | inr h ↦ rw h (compound_of-Keeps (reduce_op 999 p) vs (reduce_op-Keeps 999 p vs keeps))
  ]
