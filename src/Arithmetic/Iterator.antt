-- ===== src/Arithmetic/Iterator.antt =====
-- ArithInstructionIterator of src/arithmetic.rs: the sub-terms of an arithmetic term in the order in
-- which instructions are made of them. The register cells of the term are left out.
pub mod PostOrder
use contrib_scryer_prolog.Base.{
  ℕ, zero, suc, ◌+◌, Option, none, some, List, [], ◌∷◌, ◌++◌, ◌==◌, if◌then◌else◌,
}
use contrib_scryer_prolog.Base.Text.{Text, codes}
use contrib_scryer_prolog.Numerics.{Numerics}
use contrib_scryer_prolog.Ast.Term.{
  Literal, atom, Term, anon_var, clause, cons, literal, partial_string, complete_string, var, Terms,
  no_terms, more_terms, terms_length, Var,
}

pub data Level : Type 0 where
  deep root shallow : Level

unfoldable pub child_level : Level → Level
child_level root = shallow
child_level _ = deep

module _ ⦃n : Numerics⦄ where
  -- `ArithmeticError`
  pub data CompileError : Type 0 where
    non_evaluable_functor : Literal → ℕ → CompileError
    uninstantiated_var : CompileError

  -- The states that the iterator pushes: those of a pair or a string are the initial ones.
  pub data TermIterState : Type 0 where
    anon_var_state : Level → TermIterState
    clause_state : Level → ℕ → Text → Terms → TermIterState
    literal_state : Level → Literal → TermIterState
    cons_state : Level → Term → Term → TermIterState
    partial_string_state : Level → Text → Term → TermIterState
    complete_string_state : Level → Text → TermIterState
    var_state : Level → Var → TermIterState

  pub data ArithTermRef : Type 0 where
    literal_ref : Literal → ArithTermRef
    op_ref : Level → Text → ℕ → ArithTermRef
    var_ref : Level → Var → ArithTermRef

  unfoldable pub subterm_to_state : Level → Term → TermIterState
  subterm_to_state lvl anon_var = anon_var_state lvl
  subterm_to_state lvl (clause name ts) = clause_state lvl 0 name ts
  subterm_to_state lvl (cons head tail) = cons_state lvl head tail
  subterm_to_state lvl (literal c) = literal_state lvl c
  subterm_to_state lvl (partial_string s tail) = partial_string_state lvl s tail
  subterm_to_state lvl (complete_string s) = complete_string_state lvl s
  subterm_to_state lvl (var v) = var_state lvl v

  -- `NonEvaluableFunctor` of a list or a string.
  abbrev pub dot_error : CompileError
  dot_error = non_evaluable_functor (atom (codes ".")) 2

  -- `subterms[child_num]`
  unfoldable pub subterm : Terms → ℕ → Option Term
  subterm no_terms i = none
  subterm (more_terms t ts) zero = some t
  subterm (more_terms t ts) (suc i) = subterm ts i

  -- What one round of the loop of `next` does with the stack below the state that it pops.
  pub data Popped : Type 0 where
    yields : ArithTermRef → List TermIterState → Popped
    fails : CompileError → Popped
    descends : List TermIterState → Popped
    out_of_bounds : Popped

  abbrev pub push_subterm : Level → ℕ → Text → Terms → List TermIterState → Option Term → Popped
  unfolding child_level subterm_to_state
  push_subterm lvl child_num name ts stack (some t) =
      descends
        (subterm_to_state (child_level lvl) t ∷ clause_state lvl (suc child_num) name ts ∷ stack)
  push_subterm lvl child_num name ts stack none = out_of_bounds

  unfoldable pub pop_state : TermIterState → List TermIterState → Popped
  unfolding terms_length subterm push_subterm
  pop_state (anon_var_state lvl) stack = fails uninstantiated_var
  pop_state (clause_state lvl child_num name ts) stack =
      if child_num == terms_length ts
      then yields (op_ref lvl name (terms_length ts)) stack
      else push_subterm lvl child_num name ts stack (subterm ts child_num)
  pop_state (literal_state lvl c) stack = yields (literal_ref c) stack
  pop_state (var_state lvl v) stack = yields (var_ref lvl v) stack
  pop_state _ stack = fails dot_error

  -- How an iteration ends; `cut_off` is one that runs out of fuel.
  pub data Ending : Type 0 where
    complete cut_off panicked : Ending
    stopped : CompileError → Ending

  abbrev pub Items : Type 0
  Items = List ArithTermRef × Ending

  abbrev pub add_item : ArithTermRef → Items → Items
  add_item r (rs, e) = (r ∷ rs, e)

  abbrev pub collected : (List TermIterState → Items) → Popped → Items
  collected go_on (yields r stack) = add_item r (go_on stack)
  collected go_on (fails e) = ([], stopped e)
  collected go_on (descends stack) = go_on stack
  collected go_on out_of_bounds = ([], panicked)

  -- The loop that asks for the next item up to the first error, together with the loop of `next`.
  unfoldable pub items_from : ℕ → List TermIterState → Items
  unfolding pop_state
  items_from zero stack = ([], cut_off)
  items_from (suc fuel) [] = ([], complete)
  items_from (suc fuel) (st ∷ stack) = collected (items_from fuel) (pop_state st stack)

  -- The rounds for a term: one for each state that is popped.
  unfoldable mutual
    pub rounds : Term → ℕ
    rounds (clause _ ts) = suc (rounds_terms ts)
    rounds _ = 1

    pub rounds_terms : Terms → ℕ
    rounds_terms no_terms = 0
    rounds_terms (more_terms t ts) = suc (rounds t + rounds_terms ts)

  -- `ArithInstructionIterator::from` and the iteration.
  unfoldable pub items : Term → Items
  unfolding items_from rounds
  items anon_var = ([], stopped uninstantiated_var)
  items (clause name ts) =
      items_from (rounds (clause name ts) + 1) (clause_state shallow 0 name ts ∷ [])
  items (literal c) = items_from 2 (literal_state shallow c ∷ [])
  items (var v) = items_from 2 (var_state shallow v ∷ [])
  items _ = ([], stopped dot_error)
