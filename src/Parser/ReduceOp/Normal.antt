-- ===== src/Parser/ReduceOp/Normal.antt =====
-- Where `reduce_op` of src/parser/parser.rs stops, and induction over its rounds.
use contrib_scryer_prolog.Base.{
  ℕ, zero, suc, ◌+◌, ◌≤◌, ◌<◌, ◌≡◌, Option, none, some, List, [], ◌∷◌, inl, inr, length, arith,
  Option-cases, Bool-cases,
}
use contrib_scryer_prolog.Numerics.{Numerics}
use contrib_scryer_prolog.Ast.Term.{Term, literal, atom}
use contrib_scryer_prolog.Ast.OpDeclSpec.{OpDeclSpec, is_postfix, xf, yf, fx, fy}
use contrib_scryer_prolog.Ast.Flags.{term, lterm}
use contrib_scryer_prolog.Base.Text.{Text}
use contrib_scryer_prolog.Parser.State.{
  TokenDesc, Parser, push_binary_op, push_unary_op, binary_op, unary_op, get_term_name, join_binary,
  join_unary,
}
use contrib_scryer_prolog.Parser.ReduceOp.{unary_step, step_on, reduce_step, reduce_loop, reduce_op}

module _ ⦃n : Numerics⦄ where
  -- A reduction pushes one entry at most.
  length-join_binary :
      (td : TokenDesc) (spec : ℕ) (arg : Term) (r : Option Text × List Term) (p : Parser)
      → length (join_binary td spec arg r p).stack ≤ length p.stack + 1
  length-join_binary td spec arg (some name, t ∷ ts) p = omega arith
  length-join_binary td spec arg (some name, []) p = omega arith
  length-join_binary td spec arg (none, ts) p = omega arith

  binary_length :
      (td : TokenDesc) (spec : ℕ) (ts : List Term) (p : Parser)
      → length (binary_op td spec ts p).stack ≤ length p.stack + 1
  binary_length td spec [] p = omega arith
  binary_length td spec (t ∷ ts) p = length-join_binary td spec t (get_term_name td ts) p

  push_binary_op-length :
      (td : TokenDesc) (spec : ℕ) (p : Parser)
      → length (push_binary_op td spec p).stack ≤ length p.stack + 1
  unfolding push_binary_op
  push_binary_op-length td spec p = binary_length td spec p.terms p

  length-join_unary :
      (td : TokenDesc) (spec : ℕ) (arg name : Term) (ts : List Term) (p : Parser)
      → length (join_unary td spec arg name ts p).stack ≤ length p.stack + 1
  length-join_unary td spec arg (literal (atom a)) ts p = omega arith
  length-join_unary td spec arg _ ts p = omega arith

  unary_length :
      (td : TokenDesc) (spec : ℕ) (assoc : OpDeclSpec) (ts : List Term) (p : Parser)
      → length (unary_op td spec assoc ts p).stack ≤ length p.stack + 1
  unary_length td spec assoc [] p = omega arith
  unary_length td spec assoc (a ∷ []) p = omega arith
  unary_length td spec assoc (a ∷ b ∷ ts) p = elim (Bool-cases (is_postfix assoc)) [
    | inl h ↦ rw h (length-join_unary td spec b a ts p)
    | inr h ↦ rw h (length-join_unary td spec a b ts p)
  ]

  push_unary_op-length :
      (td : TokenDesc) (spec : ℕ) (assoc : OpDeclSpec) (p : Parser)
      → length (push_unary_op td spec assoc p).stack ≤ length p.stack + 1
  unfolding push_unary_op
  push_unary_op-length td spec assoc p = unary_length td spec assoc p.terms p

  unary_step-length :
      (priority : ℕ) (d1 d2 : TokenDesc) (p p' : Parser)
      → unary_step priority d1 d2 p ≡ some p'
      → length p'.stack ≤ length p.stack + 1
  unfolding unary_step
  unary_step-length priority d1 d2 p p' h = ground (
    arith,
    push_unary_op-length d1 lterm yf p,
    push_unary_op-length d1 lterm xf p,
    push_unary_op-length d2 term fy p,
    push_unary_op-length d2 term fx p,
  )

  step_on-length :
      (priority : ℕ) (stack : List TokenDesc) (p p' : Parser)
      → step_on priority stack p ≡ some p'
      → length p'.stack < length stack
  unfolding step_on
  step_on-length priority [] p p' h = cc
  step_on-length priority (d1 ∷ []) p p' h = cc
  step_on-length priority (d1 ∷ d2 ∷ []) p p' h =
      omega (arith, unary_step-length priority d1 d2 (record p { stack = [] }) p' h)
  step_on-length priority (d1 ∷ d2 ∷ d3 ∷ rest) p p' h = ground (
    arith,
    push_binary_op-length d2 lterm (record p { stack = rest }),
    push_binary_op-length d2 term (record p { stack = rest }),
    unary_step-length priority d1 d2 (record p { stack = d3 ∷ rest }) p',
  )

  pub reduce_step-length :
      (priority : ℕ) (p p' : Parser)
      → reduce_step priority p ≡ some p'
      → length p'.stack < length p.stack
  unfolding reduce_step
  reduce_step-length priority p p' h = step_on-length priority p.stack p p' h

  reduce_loop-normal :
      (fuel priority : ℕ) (p : Parser)
      → length p.stack ≤ fuel
      → reduce_step priority (reduce_loop fuel priority p) ≡ none
  unfolding reduce_loop
  reduce_loop-normal zero priority p h = elim (Option-cases (reduce_step priority p)) [
    | inl stop ↦ stop
    | inr (p', go) ↦ absurd (omega (arith, reduce_step-length priority p p' go))
  ]
  reduce_loop-normal (suc fuel) priority p h = elim (Option-cases (reduce_step priority p)) [
    | inl stop ↦ rw (stop, reduce_loop) stop
    | inr (p', go) ↦
        rw (go, reduce_loop)
          (reduce_loop-normal fuel priority p' (omega (arith, reduce_step-length priority p p' go)))
  ]

  -- The loop of `reduce_op` comes to its `break`: where it stops no reduction is left, for any
  -- priority and any state.
  pub reduce_op-normal :
      (priority : ℕ) (p : Parser) → reduce_step priority (reduce_op priority p) ≡ none
  unfolding reduce_op
  reduce_op-normal priority p = reduce_loop-normal (length p.stack) priority p (omega arith)

  -- What every reduction keeps, the whole of `reduce_op` keeps.
  module _ {ℓ} (P : Parser → Type ℓ) where
    reduce_loop_induction :
        (fuel priority : ℕ) (p : Parser)
        → ((q q' : Parser) → P q → reduce_step priority q ≡ some q' → P q')
        → P p
        → P (reduce_loop fuel priority p)
    unfolding reduce_loop
    reduce_loop_induction zero priority p keep h = h
    reduce_loop_induction (suc fuel) priority p keep h =
        elim (Option-cases (reduce_step priority p)) [
          | inl stop ↦ rw (stop, reduce_loop) h
          | inr (p', go) ↦
              rw (go, reduce_loop) (reduce_loop_induction fuel priority p' keep (keep p p' h go))
        ]

    pub reduce_op_induction :
        (priority : ℕ) (p : Parser)
        → ((q q' : Parser) → P q → reduce_step priority q ≡ some q' → P q')
        → P p
        → P (reduce_op priority p)
    unfolding reduce_op
    reduce_op_induction priority p = reduce_loop_induction (length p.stack) priority p
