-- ===== src/Parser/Invariant/ReduceOp.antt =====
-- The invariant across `reduce_op` of src/parser/parser.rs.
use mathlib.Core.Path.{subst}
use mathlib.Core.List.{append_assoc, append-nil}
use mathlib.Core.Bool.{false≢true}
use contrib_scryer_prolog.Base.{
  ℕ, ◌≡◌, refl, sym, ◌∙◌, ap, Bool, true, false, ◌&&◌, ◌||◌, some, List, [], ◌∷◌, arith, if_cases,
}
use contrib_scryer_prolog.Base.Text.{Text, codes}
use contrib_scryer_prolog.Numerics.{Numerics}
use contrib_scryer_prolog.Ast.OpDeclSpec.{OpDeclSpec, is_postfix, xf, yf, fx, fy}
use contrib_scryer_prolog.Ast.Flags.{
  term, lterm, delimiter, is_term, is_lterm, is_negate, is_xfx, is_xfy, is_yfx, is_xf, is_yf, is_fx,
  is_fy,
}
use contrib_scryer_prolog.Ast.Term.{Term, literal, atom}
use contrib_scryer_prolog.Parser.State.{
  TokenDesc, term_type, comma_type, Parser, push_binary_op, push_unary_op, binary_op, unary_op,
  get_term_name, clause₂, clause₁, term_desc, pop_atom,
}
use contrib_scryer_prolog.Parser.ReduceOp.{
  unary_step, step_on, reduce_step, reduce_op, affirm_xfx, affirm_yfx, affirm_xfy, affirm_yf,
  affirm_xf, affirm_fy, affirm_fx,
}
use contrib_scryer_prolog.Parser.ReduceOp.Normal.{reduce_op_induction}
use contrib_scryer_prolog.Parser.Invariant.{
  any_op, IsMark, delimits, separates, IsAtom, Fits, entry, mark, variables, stacked_variables,
  Keeps, Holds,
}

-- What is a term by its flags.
abbrev operand_flag : ℕ → Bool
operand_flag spec = is_term spec || is_lterm spec

abbrev unary_flag : ℕ → Bool
unary_flag spec = is_yf spec || is_xf spec || is_fy spec || is_fx spec

abbrev binary_flag : ℕ → Bool
binary_flag spec = is_xfx spec || is_yfx spec || is_xfy spec

pub IsMark-no_operand : {d : TokenDesc} → IsMark d → (is_term d.spec || is_lterm d.spec) ≡ false
unfolding is_term is_lterm is_negate
IsMark-no_operand (delimits _ _ _ e) = rw e
IsMark-no_operand (separates _ e) = rw e

IsMark-no_unary : {d : TokenDesc} → IsMark d → unary_flag d.spec ≡ false
unfolding is_yf is_xf is_fy is_fx
IsMark-no_unary (delimits _ _ _ e) = rw e
IsMark-no_unary (separates _ e) = rw e

delimiter-no_binary : binary_flag delimiter ≡ false
unfolding is_xfx is_yfx is_xfy
delimiter-no_binary = refl

any_op-term : (any_op term ≡ false) × (any_op lterm ≡ false)
unfolding is_xfx is_yfx is_xfy is_yf is_xf is_fy is_fx
any_op-term = (refl, refl)

any_op_of_binary : (s : ℕ) → binary_flag s ≡ true → any_op s ≡ true
any_op_of_binary s h = ground arith

any_op_of_unary : (s : ℕ) → unary_flag s ≡ true → any_op s ≡ true
any_op_of_unary s h = ground arith

module _ ⦃n : Numerics⦄ where
  -- The entry of an operand stands for a term.
  operand_entry :
      {d : TokenDesc} {ds : List TokenDesc} {ts : List Term}
      → Fits (d ∷ ds) ts
      → operand_flag d.spec ≡ true
      → (t : Term) × (ts' : List Term) × (ts ≡ t ∷ ts') × (d.tt ≡ term_type) × Fits ds ts'
  operand_entry (entry {t = t} {ts = ts} typed op fits) h = (t, ts, refl, typed, fits)
  operand_entry (mark m fits) h = absurd (false≢true (sym (IsMark-no_operand m) ∙ h))

  get_term_name-term :
      (d : TokenDesc) (ts : List Term) → d.tt ≡ term_type → get_term_name d ts ≡ pop_atom ts
  unfolding get_term_name
  get_term_name-term d ts e = rw (e, get_term_name)

  get_term_name-comma :
      (d : TokenDesc) (ts : List Term)
      → d.tt ≡ comma_type
      → get_term_name d ts ≡ (some (codes ","), ts)
  unfolding get_term_name
  get_term_name-comma d ts e = rw (e, get_term_name)

  -- A new entry over a compound that holds the variables of the terms that it joins.
  joined :
      (spec : ℕ) {ds : List TokenDesc} {ts : List Term} {vs : List Text} (priority : ℕ) (t : Term)
      → any_op spec ≡ false
      → Fits ds ts
      → stacked_variables (t ∷ ts) ≡ vs
      → Keeps vs (term_desc priority spec ∷ ds) (t ∷ ts)
  joined spec priority t none_set fits e = record {
    fits = entry refl (λ set. absurd (false≢true (sym none_set ∙ set))) fits;
    vars = e;
  }

  binary_variables :
      (a : Text) (t1 t3 : Term) (ts : List Term)
      → (stacked_variables (clause₂ a t3 t1 ∷ ts)
          ≡ stacked_variables (t1 ∷ literal (atom a) ∷ t3 ∷ ts))
        × (stacked_variables (clause₂ a t3 t1 ∷ ts) ≡ stacked_variables (t1 ∷ t3 ∷ ts))
  unfolding stacked_variables variables
  binary_variables a t1 t3 ts = (simp (append_assoc, append-nil), simp (append_assoc, append-nil))

  unary_variables :
      (a : Text) (t : Term) (ts : List Term)
      → (stacked_variables (clause₁ a t ∷ ts) ≡ stacked_variables (t ∷ literal (atom a) ∷ ts))
        × (stacked_variables (clause₁ a t ∷ ts) ≡ stacked_variables (literal (atom a) ∷ t ∷ ts))
  unfolding stacked_variables variables
  unary_variables a t ts = (simp append-nil, simp append-nil)

  module _ (d1 d2 d3 : TokenDesc) (rest : List TokenDesc) (spec : ℕ) (p : Parser) (vs : List Text)
      (term1 : operand_flag d1.spec ≡ true) (term3 : operand_flag d3.spec ≡ true)
      (infix2 : binary_flag d2.spec ≡ true) (fresh : any_op spec ≡ false) where
    abbrev pub JoinsBinary : List Term → Type 0
    JoinsBinary ts =
        Keeps vs (binary_op d2 spec ts (record p { stack = rest })).stack
          (binary_op d2 spec ts (record p { stack = rest })).terms

    binary_atom :
        (t1 t2 t3 : Term) (ts : List Term)
        → d2.tt ≡ term_type
        → IsAtom t2
        → Fits rest ts
        → stacked_variables (t1 ∷ t2 ∷ t3 ∷ ts) ≡ vs
        → JoinsBinary (t1 ∷ t2 ∷ t3 ∷ ts)
    binary_atom t1 (literal (atom a)) t3 ts typed atomic fits e =
        rw (get_term_name-term d2 (literal (atom a) ∷ t3 ∷ ts) typed) (
          joined spec d2.priority (clause₂ a t3 t1) fresh fits
            ((binary_variables a t1 t3 ts).0 ∙ e))
    binary_atom t1 _ t3 ts typed atomic fits e = absurd atomic

    binary_comma :
        (t1 t3 : Term) (ts : List Term)
        → d2.tt ≡ comma_type
        → Fits rest ts
        → stacked_variables (t1 ∷ t3 ∷ ts) ≡ vs
        → JoinsBinary (t1 ∷ t3 ∷ ts)
    binary_comma t1 t3 ts typed fits e = rw (get_term_name-comma d2 (t3 ∷ ts) typed) (
        joined spec d2.priority (clause₂ (codes ",") t3 t1) fresh fits
          ((binary_variables (codes ",") t1 t3 ts).1 ∙ e))

    binary_over :
        (t1 : Term) (ts : List Term)
        → Fits (d2 ∷ d3 ∷ rest) ts
        → stacked_variables (t1 ∷ ts) ≡ vs
        → JoinsBinary (t1 ∷ ts)
    binary_over t1 ts (entry {t = t2} typed op fits) e =
        let (t3, ts3, split, tt3, fits3) = operand_entry fits term3 in
        subst (λ us. stacked_variables (t1 ∷ t2 ∷ us) ≡ vs → JoinsBinary (t1 ∷ t2 ∷ us)) (sym split)
          (binary_atom t1 t2 t3 ts3 typed (op (any_op_of_binary d2.spec infix2)) fits3) e
    binary_over t1 ts (mark (separates typed s) fits) e =
        let (t3, ts3, split, tt3, fits3) = operand_entry fits term3 in
        subst (λ us. stacked_variables (t1 ∷ us) ≡ vs → JoinsBinary (t1 ∷ us)) (sym split)
          (binary_comma t1 t3 ts3 typed fits3) e
    binary_over t1 ts (mark (delimits _ _ _ s) fits) e =
        absurd (false≢true (sym delimiter-no_binary ∙ sym (ap (λ k. binary_flag k) s) ∙ infix2))

    pub binary-Keeps :
        (ts : List Term)
        → Fits (d1 ∷ d2 ∷ d3 ∷ rest) ts
        → stacked_variables ts ≡ vs
        → JoinsBinary ts
    binary-Keeps ts fits e =
        let (t1, ts1, split, tt1, fits1) = operand_entry fits term1 in
        subst (λ us. stacked_variables us ≡ vs → JoinsBinary us) (sym split)
          (binary_over t1 ts1 fits1) e

  module _ (d op : TokenDesc) (rest : List TokenDesc) (spec : ℕ) (assoc : OpDeclSpec) (p : Parser)
      (vs : List Text) (fresh : any_op spec ≡ false) where
    abbrev pub JoinsUnary : List Term → Type 0
    JoinsUnary ts =
        Keeps vs (unary_op op spec assoc ts (record p { stack = rest })).stack
          (unary_op op spec assoc ts (record p { stack = rest })).terms

    prefix_atom :
        (t1 t2 : Term) (ts : List Term)
        → is_postfix assoc ≡ false
        → IsAtom t2
        → Fits rest ts
        → stacked_variables (t1 ∷ t2 ∷ ts) ≡ vs
        → JoinsUnary (t1 ∷ t2 ∷ ts)
    prefix_atom t1 (literal (atom a)) ts pre atomic fits e =
        rw pre (joined spec op.priority (clause₁ a t1) fresh fits ((unary_variables a t1 ts).0 ∙ e))
    prefix_atom t1 _ ts pre atomic fits e = absurd atomic

    postfix_atom :
        (t1 t2 : Term) (ts : List Term)
        → is_postfix assoc ≡ true
        → IsAtom t1
        → Fits rest ts
        → stacked_variables (t1 ∷ t2 ∷ ts) ≡ vs
        → JoinsUnary (t1 ∷ t2 ∷ ts)
    postfix_atom (literal (atom a)) t2 ts post atomic fits e =
        rw post
          (joined spec op.priority (clause₁ a t2) fresh fits ((unary_variables a t2 ts).1 ∙ e))
    postfix_atom _ t2 ts post atomic fits e = absurd atomic

    pub prefix-Keeps :
        (ts : List Term)
        → is_postfix assoc ≡ false
        → operand_flag d.spec ≡ true
        → unary_flag op.spec ≡ true
        → Fits (d ∷ op ∷ rest) ts
        → stacked_variables ts ≡ vs
        → JoinsUnary ts
    prefix-Keeps ts pre term1 unary fits e =
        let (t1, ts1, split, typed, fits1) = operand_entry fits term1 in
        subst (λ us. stacked_variables us ≡ vs → JoinsUnary us) (sym split) (over t1 ts1 fits1) e
      where
        over :
            (t1 : Term) (ts1 : List Term)
            → Fits (op ∷ rest) ts1
            → stacked_variables (t1 ∷ ts1) ≡ vs
            → JoinsUnary (t1 ∷ ts1)
        over t1 ts1 (entry {t = t2} {ts = ts2} typed atomic fits2) e2 =
            prefix_atom t1 t2 ts2 pre (atomic (any_op_of_unary op.spec unary)) fits2 e2
        over t1 ts1 (mark m fits2) e2 = absurd (false≢true (sym (IsMark-no_unary m) ∙ unary))

    pub postfix-Keeps :
        (ts : List Term)
        → is_postfix assoc ≡ true
        → operand_flag d.spec ≡ true
        → unary_flag op.spec ≡ true
        → Fits (op ∷ d ∷ rest) ts
        → stacked_variables ts ≡ vs
        → JoinsUnary ts
    postfix-Keeps ts post term2 unary (mark m fits) e =
        absurd (false≢true (sym (IsMark-no_unary m) ∙ unary))
    postfix-Keeps ts post term2 unary (entry {t = t1} {ts = ts1} typed atomic fits) e =
        let (t2, ts2, split, typed2, fits2) = operand_entry fits term2 in
        subst (λ us. stacked_variables (t1 ∷ us) ≡ vs → JoinsUnary (t1 ∷ us)) (sym split)
          (postfix_atom t1 t2 ts2 post (atomic (any_op_of_unary op.spec unary)) fits2) e

  and_left : (a b : Bool) → (a && b) ≡ true → a ≡ true
  and_left a b h = ground arith

  module _ (priority : ℕ) (d1 d2 : TokenDesc) (rest : List TokenDesc) (p p' : Parser)
      (vs : List Text) where
    stopped : {q : Parser} → some q ≡ some p' → Holds vs q → Holds vs p'
    stopped {q} e h = let k : q ≡ p' = cc in subst (λ r. Holds vs r) k h

    unary_step-Keeps :
        Fits (d1 ∷ d2 ∷ rest) p.terms
        → stacked_variables p.terms ≡ vs
        → unary_step priority d1 d2 (record p { stack = rest }) ≡ some p'
        → Holds vs p'
    unfolding unary_step push_unary_op affirm_yf affirm_xf affirm_fy affirm_fx is_postfix
    unary_step-Keeps fits e h =
        if_cases (is_yf d1.spec && affirm_yf d1 d2) h
          (λ c k. stopped k (
            postfix-Keeps d2 d1 rest lterm yf p vs any_op-term.1 p.terms refl (ground arith)
              (ground arith) fits e))
          λ _ h2.
            if_cases (is_xf d1.spec && affirm_xf d1 d2) h2
              (λ c k. stopped k (
                postfix-Keeps d2 d1 rest lterm xf p vs any_op-term.1 p.terms refl (ground arith)
                  (ground arith) fits e))
              λ _ h3.
                if_cases (is_fy d2.spec && affirm_fy priority d1 d2) h3
                  (λ c k. stopped k (
                    prefix-Keeps d1 d2 rest term fy p vs any_op-term.0 p.terms refl (ground arith)
                      (ground arith) fits e))
                  λ _ h4.
                    if_cases (is_fx d2.spec && affirm_fx priority d1 d2) h4
                      (λ c k. stopped k (
                        prefix-Keeps d1 d2 rest term fx p vs any_op-term.0 p.terms refl
                          (ground arith) (ground arith) fits e))
                      λ _ k. cc

  module _ (priority : ℕ) (p p' : Parser) (vs : List Text) where
    step_on-Keeps :
        (stack : List TokenDesc)
        → Fits stack p.terms
        → stacked_variables p.terms ≡ vs
        → step_on priority stack p ≡ some p'
        → Holds vs p'
    unfolding step_on push_binary_op affirm_xfx affirm_yfx affirm_xfy
    step_on-Keeps [] fits e h = cc
    step_on-Keeps (d1 ∷ []) fits e h = cc
    step_on-Keeps (d1 ∷ d2 ∷ []) fits e h = unary_step-Keeps priority d1 d2 [] p p' vs fits e h
    step_on-Keeps (d1 ∷ d2 ∷ d3 ∷ rest) fits e h =
        if_cases
          ((is_xfx d2.spec && affirm_xfx priority d2 d3 d1)
            || (is_yfx d2.spec && affirm_yfx priority d2 d3 d1))
          h
          (λ c k. stopped priority d1 d2 rest p p' vs k (
            binary-Keeps d1 d2 d3 rest lterm p vs (ground arith) (ground arith) (ground arith)
              any_op-term.1 p.terms fits e))
          λ _ h2.
            if_cases (is_xfy d2.spec && affirm_xfy priority d2 d3 d1) h2
              (λ c k. stopped priority d1 d2 rest p p' vs k (
                binary-Keeps d1 d2 d3 rest term p vs (ground arith) (ground arith) (ground arith)
                  any_op-term.0 p.terms fits e))
              λ _ h3. unary_step-Keeps priority d1 d2 (d3 ∷ rest) p p' vs fits e h3

    reduce_step-Keeps : Holds vs p → reduce_step priority p ≡ some p' → Holds vs p'
    unfolding reduce_step
    reduce_step-Keeps k h = step_on-Keeps p.stack k.fits k.vars h

  -- Where the stack fits the terms, `reduce_op` keeps it so, and the variables with it.
  pub reduce_op-Keeps :
      (priority : ℕ) (p : Parser) (vs : List Text) → Holds vs p → Holds vs (reduce_op priority p)
  reduce_op-Keeps priority p vs =
      reduce_op_induction (Holds vs) priority p (λ q q' k h. reduce_step-Keeps priority q q' vs k h)
