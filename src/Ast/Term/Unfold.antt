-- ===== src/Ast/Term/Unfold.antt =====
-- `unfold_by_str` of src/parser/ast.rs on the chains of a right-associative operator.
use contrib_scryer_prolog.Base.{
  ℕ, zero, suc, ◌≤◌, ◌<◌, ◌≡◌, refl, ap, ◌∙◌, Bool, true, false, not, ◌&&◌, Option, none, some,
  List, [], ◌∷◌, ◌++◌, length, arith,
}
use contrib_scryer_prolog.Base.Text.{Text, text_eq, text_eq_refl}
use contrib_scryer_prolog.Numerics.{Numerics}
use contrib_scryer_prolog.Ast.Term.{
  Term, Terms, no_terms, more_terms, clause, literal, code_index_offset, cons, partial_string,
  pop_code_index, split_pair, unfold_by_str_once, size, unfold_loop, unfold_by_str,
}

module _ ⦃n : Numerics⦄ where
  abbrev pub is_code_index : Term → Bool
  is_code_index (literal (code_index_offset _)) = true
  is_code_index _ = false

  abbrev pub ends_in_index : Terms → Bool
  ends_in_index no_terms = false
  ends_in_index (more_terms t no_terms) = is_code_index t
  ends_in_index (more_terms t (more_terms u ts)) = ends_in_index (more_terms u ts)

  -- A term that ends a chain of the operator `s`: no code index, and neither a term with a code
  -- index at its end nor a pair of the operator.
  abbrev pub ends_chain : Text → Term → Bool
  ends_chain s (literal (code_index_offset _)) = false
  ends_chain s (clause a (more_terms t (more_terms u no_terms))) =
      not (is_code_index u) && not (text_eq a s)
  ends_chain s (clause a ts) = not (ends_in_index ts)
  ends_chain s _ = true

  -- A pair of the operator `s`, with or without the code index that the compiler adds.
  abbrev pub pair : Text → Term → Option ℕ → Term → Term
  pair s t none u = clause s (more_terms t (more_terms u no_terms))
  pair s t (some index) u =
      clause s
        (more_terms t (more_terms u (more_terms (literal (code_index_offset index)) no_terms)))

  -- The terms of `ts` before `last`, joined by the operator `s` from the right.
  abbrev pub chain : Text → List (Term × Option ℕ) → Term → Term
  chain s [] last = last
  chain s ((t, index) ∷ ts) last = pair s t index (chain s ts last)

  abbrev pub terms : List (Term × Option ℕ) → List Term
  terms [] = []
  terms ((t, _) ∷ ts) = t ∷ terms ts

  pop_more :
      (t u : Term) (ts : Terms)
      → pop_code_index (more_terms t (more_terms u ts))
        ≡ more_terms t (pop_code_index (more_terms u ts))
  unfolding pop_code_index
  pop_more (literal (code_index_offset _)) u ts = refl
  pop_more _ u ts = refl

  pop_last :
      (u : Term)
      → is_code_index u ≡ false
      → pop_code_index (more_terms u no_terms) ≡ more_terms u no_terms
  unfolding pop_code_index
  pop_last (literal (code_index_offset _)) h = cc
  pop_last (literal _) h = refl
  pop_last _ h = refl

  pop_none : (ts : Terms) → ends_in_index ts ≡ false → pop_code_index ts ≡ ts
  pop_none no_terms h = unfold pop_code_index in refl
  pop_none (more_terms t no_terms) h = pop_last t h
  pop_none (more_terms t (more_terms u ts)) h =
      pop_more t u ts ∙ ap (more_terms t) (pop_none (more_terms u ts) h)

  pop_index :
      (t u : Term) (index : ℕ)
      → pop_code_index
          (more_terms t (more_terms u (more_terms (literal (code_index_offset index)) no_terms)))
        ≡ more_terms t (more_terms u no_terms)
  pop_index t u index =
      rw
        (
          pop_more t u (more_terms (literal (code_index_offset index)) no_terms),
          pop_more u (literal (code_index_offset index)) no_terms,
        )
        (unfold pop_code_index in refl)

  pop_second :
      (t u : Term)
      → is_code_index u ≡ false
      → pop_code_index (more_terms t (more_terms u no_terms)) ≡ more_terms t (more_terms u no_terms)
  pop_second t u h = pop_none (more_terms t (more_terms u no_terms)) h

  -- A pair of the operator comes apart.
  unfold_by_str_once-pair :
      (s : Text) (t : Term) (index : Option ℕ) (u : Term)
      → is_code_index u ≡ false
      → (unfold_by_str_once (pair s t index u) s).0 ≡ some (t, u)
  unfolding unfold_by_str_once split_pair
  unfold_by_str_once-pair s t none u h = rw (pop_second t u h, text_eq_refl s, split_pair) refl
  unfold_by_str_once-pair s t (some index) u h =
      rw (pop_index t u index, text_eq_refl s, split_pair) refl

  end_no_index : (s : Text) (last : Term) → ends_chain s last ≡ true → is_code_index last ≡ false
  end_no_index s (literal (code_index_offset _)) h = cc
  end_no_index s (literal _) h = refl
  end_no_index s _ h = refl

  refused : (b : Bool) → not b ≡ true → b ≡ false
  refused true h = cc
  refused false h = refl

  both_refused : (b c : Bool) → (not b && not c) ≡ true → (b ≡ false) × (c ≡ false)
  both_refused true c h = cc
  both_refused false true h = cc
  both_refused false false h = (refl, refl)

  -- A term that ends a chain stays whole.
  unfold_by_str_once-end :
      (s : Text) (last : Term) → ends_chain s last ≡ true → unfold_by_str_once last s ≡ (none, last)
  unfolding unfold_by_str_once split_pair
  unfold_by_str_once-end s (clause a no_terms) h = refl
  unfold_by_str_once-end s (clause a (more_terms t no_terms)) h =
      rw (pop_none (more_terms t no_terms) (refused _ h)) refl
  unfold_by_str_once-end s (clause a (more_terms t (more_terms u no_terms))) h =
      let (no_index, other) = both_refused (is_code_index u) (text_eq a s) h in
      rw (pop_second t u no_index, other, split_pair) refl
  unfold_by_str_once-end s (clause a (more_terms t (more_terms u (more_terms v ts)))) h =
      rw (pop_none (more_terms t (more_terms u (more_terms v ts))) (refused _ h)) refl
  unfold_by_str_once-end s (literal _) h = refl
  unfold_by_str_once-end s _ h = refl

  chain_no_index :
      (s : Text) (ts : List (Term × Option ℕ)) (last : Term)
      → is_code_index last ≡ false
      → is_code_index (chain s ts last) ≡ false
  chain_no_index s [] last h = h
  chain_no_index s ((t, none) ∷ ts) last h = refl
  chain_no_index s ((t, some _) ∷ ts) last h = refl

  unfold_loop-chain :
      (fuel : ℕ) (s : Text) (ts : List (Term × Option ℕ)) (last : Term)
      → length ts < fuel
      → ends_chain s last ≡ true
      → unfold_loop fuel (chain s ts last) s ≡ terms ts ++ last ∷ []
  unfolding unfold_loop
  unfold_loop-chain zero s ts last few h = absurd (omega arith)
  unfold_loop-chain (suc fuel) s [] last few h =
      rw (ap (λ r. r.0) (unfold_by_str_once-end s last h), unfold_loop)
        (ap (λ r. r.1 ∷ []) (unfold_by_str_once-end s last h))
  unfold_loop-chain (suc fuel) s ((t, index) ∷ ts) last few h =
      let whole = chain_no_index s ts last (end_no_index s last h) in
      rw (unfold_by_str_once-pair s t index (chain s ts last) whole, unfold_loop)
        (ap (λ us. t ∷ us) (unfold_loop-chain fuel s ts last (omega arith) h))

  some_size : (t : Term) → 1 ≤ size t
  unfolding size
  some_size (clause _ ts) = omega arith
  some_size (cons t u) = omega arith
  some_size (partial_string _ t) = omega arith
  some_size _ = omega arith

  size-pair : (s : Text) (t : Term) (index : Option ℕ) (u : Term) → size u < size (pair s t index u)
  unfolding size
  size-pair s t none u = omega (arith, some_size t)
  size-pair s t (some index) u = omega (arith, some_size t)

  size-chain :
      (s : Text) (ts : List (Term × Option ℕ)) (last : Term) → length ts < size (chain s ts last)
  size-chain s [] last = omega (arith, some_size last)
  size-chain s ((t, index) ∷ ts) last =
      omega (arith, size-chain s ts last, size-pair s t index (chain s ts last))

  -- A chain of an operator comes apart into its terms, in order, without the code indices of its
  -- pairs and with its last term unchanged, where that term is no code index, has none at its end
  -- and is no pair of the operator.
  pub unfold_by_str-chain :
      (s : Text) (ts : List (Term × Option ℕ)) (last : Term)
      → ends_chain s last ≡ true
      → unfold_by_str (chain s ts last) s ≡ terms ts ++ last ∷ []
  unfolding unfold_by_str
  unfold_by_str-chain s ts last h =
      unfold_loop-chain (size (chain s ts last)) s ts last (size-chain s ts last) h
