-- ===== src/Ast/Term.antt =====
-- Literals, variables and terms of src/parser/ast.rs. The register cells that the code generator
-- fills in later hold their default while a term is read, and are left out; so are the arena's
-- offsets beside a float. A `VarPtr` is the variable that it points to.
pub mod Unfold
use contrib_scryer_prolog.Base.{ℕ, zero, suc, ◌+◌, Option, none, some, List, [], ◌∷◌, if◌then◌else◌}
use contrib_scryer_prolog.Base.Text.{Text, text_eq}
use contrib_scryer_prolog.Numerics.{Numerics}
use contrib_scryer_prolog.Ast.Fixnum.{Fixnum}

pub data Var : Type 0 where
  generated in_situ : ℕ → Var
  named : Text → Var

module _ ⦃n : Numerics⦄ where
  pub data Literal : Type 0 where
    atom : Text → Literal
    code_index_offset : ℕ → Literal
    fixnum : Fixnum → Literal
    integer : n.Integer → Literal
    rational : n.Rational → Literal
    f64 : n.F64 → Literal

  -- `Vec<Term>` is the list type of the block.
  mutual
    pub data Term : Type 0 where
      anon_var : Term
      clause : Text → Terms → Term
      cons : Term → Term → Term
      literal : Literal → Term
      partial_string : Text → Term → Term
      complete_string : Text → Term
      var : Var → Term

    pub data Terms : Type 0 where
      no_terms : Terms
      more_terms : Term → Terms → Terms

  unfoldable pub terms_of : List Term → Terms
  terms_of [] = no_terms
  terms_of (t ∷ ts) = more_terms t (terms_of ts)

  unfoldable pub terms_length : Terms → ℕ
  terms_length no_terms = 0
  terms_length (more_terms t ts) = suc (terms_length ts)

  unfoldable pub first_arg : Term → Option Term
  first_arg (clause _ (more_terms t _)) = some t
  first_arg _ = none

  unfoldable pub name : Term → Option Text
  name (literal (atom a)) = some a
  name (clause a _) = some a
  name _ = none

  unfoldable pub arity : Term → ℕ
  unfolding terms_length
  arity (clause _ ts) = terms_length ts
  arity _ = 0

  -- `if let Some(Literal(CodeIndexOffset(_))) = subterms.last() { subterms.pop(); }`
  unfoldable pub pop_code_index : Terms → Terms
  pop_code_index no_terms = no_terms
  pop_code_index (more_terms (literal (code_index_offset _)) no_terms) = no_terms
  pop_code_index (more_terms t ts) = more_terms t (pop_code_index ts)

  unfoldable pub split_pair : Text → Text → Terms → Option (Term × Term) × Term
  split_pair a s (more_terms fst (more_terms snd no_terms)) =
      if text_eq a s
      then (some (fst, snd), clause a no_terms)
      else (none, clause a (more_terms fst (more_terms snd no_terms)))
  split_pair a s ts = (none, clause a ts)

  -- The result, and the term as the call leaves it.
  unfoldable pub unfold_by_str_once : Term → Text → Option (Term × Term) × Term
  unfolding split_pair pop_code_index
  unfold_by_str_once (clause a ts) s = split_pair a s (pop_code_index ts)
  unfold_by_str_once t s = (none, t)

  -- The number of nodes of a term, more than any chain of second arguments is long.
  unfoldable mutual
    pub size : Term → ℕ
    size (clause _ ts) = suc (size_terms ts)
    size (cons t u) = suc (size t + size u)
    size (partial_string _ t) = suc (size t)
    size _ = 1

    pub size_terms : Terms → ℕ
    size_terms no_terms = 0
    size_terms (more_terms t ts) = size t + size_terms ts

  unfoldable pub unfold_loop : ℕ → Term → Text → List Term
  unfolding unfold_by_str_once
  unfold_loop zero t s = t ∷ []
  unfold_loop (suc fuel) t s = elim (unfold_by_str_once t s).0 [
    | some (fst, snd) ↦ fst ∷ unfold_loop fuel snd s
    | none ↦ (unfold_by_str_once t s).1 ∷ []
  ]

  unfoldable pub unfold_by_str : Term → Text → List Term
  unfolding unfold_loop size
  unfold_by_str t s = unfold_loop (size t) t s
