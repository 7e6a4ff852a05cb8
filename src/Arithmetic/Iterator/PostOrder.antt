-- ===== src/Arithmetic/Iterator/PostOrder.antt =====
-- The iterator of src/arithmetic.rs gives the post-order of a term.
use mathlib.Core.List.{append_assoc, append-nil}
use contrib_scryer_prolog.Base.{
  ℕ, zero, suc, ◌+◌, ◌≤◌, ◌≡◌, refl, sym, ◌∙◌, ap, true, false, some, List, [], ◌∷◌, ◌++◌, ◌==◌,
  arith,
}
use contrib_scryer_prolog.Base.Text.{Text}
use contrib_scryer_prolog.Numerics.{Numerics}
use contrib_scryer_prolog.Ast.Term.{
  Term, anon_var, clause, cons, literal, partial_string, complete_string, var, Terms, no_terms,
  more_terms, terms_length,
}
use contrib_scryer_prolog.Arithmetic.Iterator.{
  Level, shallow, child_level, uninstantiated_var, TermIterState, clause_state, literal_ref, op_ref,
  var_ref, subterm_to_state, dot_error, subterm, yields, descends, push_subterm, pop_state,
  complete, cut_off, panicked, stopped, Items, collected, items_from, rounds, rounds_terms, items,
}

module _ ⦃n : Numerics⦄ where
  infixl 5 ◌andthen◌
  abbrev pub ◌andthen◌ : Items → Items → Items
  (rs, complete) andthen (qs, e) = (rs ++ qs, e)
  (rs, cut_off) andthen more = (rs, cut_off)
  (rs, panicked) andthen more = (rs, panicked)
  (rs, stopped e) andthen more = (rs, stopped e)

  -- The post-order, up to the first sub-term that is no part of an arithmetic term.
  unfoldable mutual
    unfolding child_level terms_length

    pub post_order : Level → Term → Items
    post_order lvl anon_var = ([], stopped uninstantiated_var)
    post_order lvl (clause name ts) =
        post_order_terms (child_level lvl) ts
        andthen (op_ref lvl name (terms_length ts) ∷ [], complete)
    post_order lvl (literal c) = (literal_ref c ∷ [], complete)
    post_order lvl (var v) = (var_ref lvl v ∷ [], complete)
    post_order lvl _ = ([], stopped dot_error)

    pub post_order_terms : Level → Terms → Items
    post_order_terms lvl no_terms = ([], complete)
    post_order_terms lvl (more_terms t ts) = post_order lvl t andthen post_order_terms lvl ts

  andthen_assoc : (a b c : Items) → ((a andthen b) andthen c) ≡ (a andthen (b andthen c))
  andthen_assoc (rs, complete) (qs, complete) (ps, e) = ap (λ l. (l, e)) (append_assoc rs qs ps)
  andthen_assoc (rs, complete) (qs, cut_off) c = refl
  andthen_assoc (rs, complete) (qs, panicked) c = refl
  andthen_assoc (rs, complete) (qs, stopped e) c = refl
  andthen_assoc (rs, cut_off) b c = refl
  andthen_assoc (rs, panicked) b c = refl
  andthen_assoc (rs, stopped e) b c = refl

  -- The terms from a position on.
  terms_from : ℕ → Terms → Terms
  terms_from zero ts = ts
  terms_from (suc i) no_terms = no_terms
  terms_from (suc i) (more_terms t ts) = terms_from i ts

  subterm-terms_from :
      (i : ℕ) (ts us : Terms) (t : Term)
      → terms_from i ts ≡ more_terms t us
      → (subterm ts i ≡ some t) × (terms_from (suc i) ts ≡ us) × ((i == terms_length ts) ≡ false)
  unfolding terms_from subterm terms_length
  subterm-terms_from zero no_terms us t h = cc
  subterm-terms_from zero (more_terms u ts) us t h = (cc, cc, ground arith)
  subterm-terms_from (suc i) no_terms us t h = cc
  subterm-terms_from (suc i) (more_terms u ts) us t h =
      let (a, b, c) = subterm-terms_from i ts us t h in (a, b, ground arith)

  at_end :
      (i : ℕ) (ts : Terms)
      → i ≤ terms_length ts
      → terms_from i ts ≡ no_terms
      → (i == terms_length ts) ≡ true
  unfolding terms_from terms_length
  at_end zero no_terms l h = refl
  at_end zero (more_terms t ts) l h = cc
  at_end (suc i) no_terms l h = absurd (omega arith)
  at_end (suc i) (more_terms t ts) l h = let e = at_end i ts (omega arith) h in ground arith

  spend :
      (g f : ℕ) (st : TermIterState) (stack : List TermIterState)
      → g ≡ suc f
      → items_from g (st ∷ stack) ≡ collected (items_from f) (pop_state st stack)
  unfolding items_from
  spend g f st stack e = ap (λ k. items_from k (st ∷ stack)) e

  -- The state of a functor with a sub-term left, and with none.
  pop_more :
      (lvl : Level) (i : ℕ) (name : Text) (ts us : Terms) (t : Term) (stack : List TermIterState)
      → terms_from i ts ≡ more_terms t us
      → pop_state (clause_state lvl i name ts) stack
        ≡ descends (subterm_to_state (child_level lvl) t ∷ clause_state lvl (suc i) name ts ∷ stack)
  unfolding pop_state push_subterm
  pop_more lvl i name ts us t stack h =
      let (a, b, c) = subterm-terms_from i ts us t h in rw (c, a) refl

  pop_last :
      (lvl : Level) (i : ℕ) (name : Text) (ts : Terms) (stack : List TermIterState)
      → i ≤ terms_length ts
      → terms_from i ts ≡ no_terms
      → pop_state (clause_state lvl i name ts) stack
        ≡ yields (op_ref lvl name (terms_length ts)) stack
  unfolding pop_state
  pop_last lvl i name ts stack l h = rw (at_end i ts l h) refl

  in_bounds :
      (i : ℕ) (ts us : Terms) (t : Term)
      → terms_from i ts ≡ more_terms t us
      → suc i ≤ terms_length ts
  unfolding terms_from terms_length
  in_bounds zero no_terms us t h = cc
  in_bounds zero (more_terms u ts) us t h = omega arith
  in_bounds (suc i) no_terms us t h = cc
  in_bounds (suc i) (more_terms u ts) us t h = omega (arith, in_bounds i ts us t h)

  andthen_congr : (a b c : Items) → b ≡ c → (a andthen b) ≡ (a andthen c)
  andthen_congr a b c h = ap (λ x. a andthen x) h

  from_zero : (ts : Terms) → terms_from 0 ts ≡ ts
  unfolding terms_from
  from_zero ts = refl

  -- A state that yields an item or fails at once.
  at_once :
      (t : Term) (lvl : Level) (f g : ℕ) (stack : List TermIterState)
      → rounds t ≡ 1
      → g ≡ rounds t + f
      → collected (items_from f) (pop_state (subterm_to_state lvl t) stack)
        ≡ (post_order lvl t andthen items_from f stack)
      → items_from g (subterm_to_state lvl t ∷ stack)
        ≡ (post_order lvl t andthen items_from f stack)
  at_once t lvl f g stack r e h = spend g f (subterm_to_state lvl t) stack (omega arith) ∙ h

  mutual
    unfolding rounds post_order subterm_to_state pop_state

    run_term :
        (t : Term) (lvl : Level) (f g : ℕ) (stack : List TermIterState)
        → g ≡ rounds t + f
        → items_from g (subterm_to_state lvl t ∷ stack)
          ≡ (post_order lvl t andthen items_from f stack)
    run_term anon_var lvl f g stack e = at_once anon_var lvl f g stack refl e refl
    run_term (literal c) lvl f g stack e = at_once (literal c) lvl f g stack refl e refl
    run_term (var v) lvl f g stack e = at_once (var v) lvl f g stack refl e refl
    run_term (cons a b) lvl f g stack e = at_once (cons a b) lvl f g stack refl e refl
    run_term (partial_string s a) lvl f g stack e =
        at_once (partial_string s a) lvl f g stack refl e refl
    run_term (complete_string s) lvl f g stack e =
        at_once (complete_string s) lvl f g stack refl e refl
    run_term (clause name ts) lvl f g stack e =
        run_terms ts lvl 0 name ts f g stack (from_zero ts) (omega arith) e

    run_terms :
        (us : Terms) (lvl : Level) (i : ℕ) (name : Text) (ts : Terms) (f g : ℕ)
        (stack : List TermIterState)
        → terms_from i ts ≡ us
        → i ≤ terms_length ts
        → g ≡ suc (rounds_terms us) + f
        → items_from g (clause_state lvl i name ts ∷ stack) ≡ (
            (post_order_terms (child_level lvl) us
              andthen (op_ref lvl name (terms_length ts) ∷ [], complete))
            andthen items_from f stack)
    run_terms no_terms lvl i name ts f g stack h l e =
        spend g f (clause_state lvl i name ts) stack (omega arith)
        ∙ ap (collected (items_from f)) (pop_last lvl i name ts stack l h)
    run_terms (more_terms t us) lvl i name ts f g stack h l e =
        let g' : ℕ = rounds t + (suc (rounds_terms us) + f) in
        let e' : g ≡ suc g' = omega arith in
        let op : Items = (op_ref lvl name (terms_length ts) ∷ [], complete) in
        let (_, rest, _) = subterm-terms_from i ts us t h in
        spend g g' (clause_state lvl i name ts) stack e'
        ∙ ap (collected (items_from g')) (pop_more lvl i name ts us t stack h)
        ∙ run_term t (child_level lvl) (suc (rounds_terms us) + f) g'
            (clause_state lvl (suc i) name ts ∷ stack) refl
        ∙ andthen_congr (post_order (child_level lvl) t) _ _ (
            run_terms us lvl (suc i) name ts f (suc (rounds_terms us) + f) stack rest
              (in_bounds i ts us t h) refl)
        ∙ sym (
            andthen_assoc (post_order (child_level lvl) t)
              (post_order_terms (child_level lvl) us andthen op) (items_from f stack))
        ∙ ap (λ x. x andthen items_from f stack)
            (sym (
              andthen_assoc (post_order (child_level lvl) t) (post_order_terms (child_level lvl) us)
                op))

  nothing_after : (a : Items) → (a andthen ([], complete)) ≡ a
  nothing_after (rs, complete) = ap (λ l. (l, complete)) (append-nil rs)
  nothing_after (rs, cut_off) = refl
  nothing_after (rs, panicked) = refl
  nothing_after (rs, stopped e) = refl

  empty_stack : items_from 1 [] ≡ ([], complete)
  unfolding items_from
  empty_stack = refl

  whole :
      (t : Term)
      → items_from (rounds t + 1) (subterm_to_state shallow t ∷ []) ≡ post_order shallow t
  whole t =
      run_term t shallow 1 (rounds t + 1) [] refl
      ∙ andthen_congr (post_order shallow t) (items_from 1 []) ([], complete) empty_stack
      ∙ nothing_after (post_order shallow t)

  -- The iterator gives the sub-terms of a term in post-order, each functor after its arguments, up to
  -- the first one that no number can stand for, with its error; it indexes no argument out of bounds,
  -- and ends.
  pub items-post_order : (t : Term) → items t ≡ post_order shallow t
  unfolding items subterm_to_state post_order rounds
  items-post_order anon_var = refl
  items-post_order (cons a b) = refl
  items-post_order (partial_string s a) = refl
  items-post_order (complete_string s) = refl
  items-post_order (literal c) = whole (literal c)
  items-post_order (var v) = whole (var v)
  items-post_order (clause name ts) = whole (clause name ts)
