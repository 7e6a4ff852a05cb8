-- ===== src/Arithmetic/Compile/Agreement.antt =====
-- Compiled arithmetic against arith_eval_by_metacall, operation by operation.
use mathlib.Core.Path.{subst}
use contrib_scryer_prolog.Base.{
  ◌≡◌, refl, sym, false, ◌&&◌, Option, none, some, inl, inr, ◌⊎◌, Bool-cases, Option-cases,
}
use contrib_scryer_prolog.Base.Text.{Text, codes, text_eq, eq_of_text_eq}
use contrib_scryer_prolog.Numerics.{Numerics}
use contrib_scryer_prolog.Arithmetic.Interface.{Arithmetic}
use contrib_scryer_prolog.Arithmetic.Number.{
  Number, float, integer, rational, fixnum, ok, err, evaluation, type_error, evaluable,
  not_evaluable, instantiation, is_negative, is_zero_number, Stub, int_of,
}
use contrib_scryer_prolog.Arithmetic.Division.{rational_from_number}
use contrib_scryer_prolog.Arithmetic.Power.{pow}
use contrib_scryer_prolog.Arithmetic.Eval.{
  Evaluated, done, raised, panicked, is_stub, unary, binary, of_result, rdiv_numbers,
}
use contrib_scryer_prolog.Arithmetic.Compile.{
  UnaryInstr, BinaryInstr, get_unary_instr, get_binary_instr, execute_unary, execute_binary,
  rdiv_rationals, rdiv_stub,
}

-- A property of a name that is shown for one name, and then for the names that differ from it.
data OneName (P : Text → Type 0) (name known : Text) : Type 0 where
  holds : P known → OneName P name known

abbrev one_name : (P : Text → Type 0) (name known : Text) → P known → OneName P name known
one_name P name known p = holds p

infixl 5 ◌>>=◌
◌>>=◌ :
    {P : Text → Type 0} {name known : Text}
    → OneName P name known
    → (text_eq name known ≡ false → P name)
    → P name
◌>>=◌ {P = P} {name = name} {known = known} (holds p) others =
    elim (Bool-cases (text_eq name known)) [
      | inl e ↦ subst P (sym (eq_of_text_eq name known e)) p
      | inr e ↦ others e
    ]

module _ ⦃n : Numerics⦄ ⦃a : Arithmetic⦄ where
  -- The instruction for a name, or the error that the compiler gives for it.
  abbrev pub compiled_unary : Text → Number → Option UnaryInstr → Evaluated Number
  unfolding execute_unary
  compiled_unary name x (some op) = execute_unary op x
  compiled_unary name x none = raised (evaluable name 1 is_stub)

  abbrev pub compiled_binary : Text → Number → Number → Option BinaryInstr → Evaluated Number
  unfolding execute_binary
  compiled_binary name x y (some op) = execute_binary op x y
  compiled_binary name x y none = raised (evaluable name 2 is_stub)

  -- A result with the context of its error, which names the predicate, left out.
  abbrev pub without_context : Evaluated Number → Evaluated Number
  without_context (done v) = done v
  without_context panicked = panicked
  without_context (raised (evaluation e stub)) = raised (evaluation e is_stub)
  without_context (raised (type_error t x stub)) = raised (type_error t x is_stub)
  without_context (raised (evaluable name k stub)) = raised (evaluable name k is_stub)
  without_context (raised (not_evaluable stub)) = raised (not_evaluable is_stub)
  without_context (raised (instantiation stub)) = raised (instantiation is_stub)

  AgreesUnary : Number → Text → Type 0
  AgreesUnary x name = compiled_unary name x (get_unary_instr name) ≡ unary name x

  AgreesBinary : Number → Number → Text → Type 0
  AgreesBinary x y name =
      without_context (compiled_binary name x y (get_binary_instr name))
      ≡ without_context (binary name x y)

  -- An instruction with one operand computes what its name is evaluated to, with the same error, and
  -- a name that has no instruction has no value.
  pub execute_unary_lem :
      (name : Text) (x : Number) → compiled_unary name x (get_unary_instr name) ≡ unary name x
  unfolding get_unary_instr unary AgreesUnary compiled_unary execute_unary
  execute_unary_lem name x = do
    h0 ← one_name (AgreesUnary x) name (codes "abs") refl
    h1 ← one_name (AgreesUnary x) name (codes "-") refl
    h2 ← one_name (AgreesUnary x) name (codes "+") refl
    h3 ← one_name (AgreesUnary x) name (codes "cos") refl
    h4 ← one_name (AgreesUnary x) name (codes "sin") refl
    h5 ← one_name (AgreesUnary x) name (codes "tan") refl
    h6 ← one_name (AgreesUnary x) name (codes "log") refl
    h7 ← one_name (AgreesUnary x) name (codes "exp") refl
    h8 ← one_name (AgreesUnary x) name (codes "sqrt") refl
    h9 ← one_name (AgreesUnary x) name (codes "acos") refl
    h10 ← one_name (AgreesUnary x) name (codes "asin") refl
    h11 ← one_name (AgreesUnary x) name (codes "atan") refl
    h12 ← one_name (AgreesUnary x) name (codes "float") refl
    h13 ← one_name (AgreesUnary x) name (codes "truncate") refl
    h14 ← one_name (AgreesUnary x) name (codes "round") refl
    h15 ← one_name (AgreesUnary x) name (codes "ceiling") refl
    h16 ← one_name (AgreesUnary x) name (codes "floor") refl
    h17 ← one_name (AgreesUnary x) name (codes "float_integer_part") refl
    h18 ← one_name (AgreesUnary x) name (codes "float_fractional_part") refl
    h19 ← one_name (AgreesUnary x) name (codes "sign") refl
    h20 ← one_name (AgreesUnary x) name (codes "\\") refl
    rw
        (
          h0, h1, h2, h3, h4, h5, h6, h7, h8, h9, h10, h11, h12, h13, h14, h15, h16, h17, h18, h19,
          h20,
        )
        refl

  -- Whether a number is taken for a rational does not depend on the context of the error.
  rational-cases :
      (x : Number)
      → ((r : n.Rational) × ((stub : Stub) → rational_from_number x stub ≡ ok r))
        ⊎ ((stub : Stub) → rational_from_number x stub ≡ err (instantiation stub))
  unfolding rational_from_number
  rational-cases (fixnum k) = inl (a.rat_from (int_of k), λ stub. refl)
  rational-cases (integer k) = inl (a.rat_from k, λ stub. refl)
  rational-cases (rational r) = inl (r, λ stub. refl)
  rational-cases (float f) = elim (Option-cases (a.rat_of_float f)) [
    | inl e ↦ inr (λ stub. rw (e, rational_from_number) refl)
    | inr (r, e) ↦ inl (r, λ stub. rw (e, rational_from_number) refl)
  ]

  rdiv_agrees :
      (x y : Number)
      → without_context (of_result (rdiv_rationals x y))
        ≡ without_context (of_result (rdiv_numbers x y))
  unfolding rdiv_rationals rdiv_numbers
  rdiv_agrees x y = elim (rational-cases x) [
    | inr e ↦ rw (e rdiv_stub, e is_stub) refl
    | inl (r, e) ↦ elim (rational-cases y) [
      | inr f ↦ rw (e rdiv_stub, e is_stub, f rdiv_stub, f is_stub) refl
      | inl (q, f) ↦ rw (e rdiv_stub, e is_stub, f rdiv_stub, f is_stub) refl
    ]
  ]

  pow_agrees :
      (x y : Number)
      → without_context (of_result (pow x y (codes "**")))
        ≡ without_context (of_result (pow x y (codes "is")))
  unfolding pow
  pow_agrees x y = elim (Bool-cases (is_negative y && is_zero_number x)) [
    | inl h ↦ rw h refl
    | inr h ↦ rw h refl
  ]

  -- An instruction with two operands computes what its name is evaluated to, and a name that has no
  -- instruction has no value. The errors are the same but for the predicate that their context names.
  pub execute_binary_lem :
      (name : Text) (x y : Number)
      → without_context (compiled_binary name x y (get_binary_instr name))
        ≡ without_context (binary name x y)
  unfolding get_binary_instr binary AgreesBinary compiled_binary execute_binary
  execute_binary_lem name x y = do
    h0 ← one_name (AgreesBinary x y) name (codes "+") refl
    h1 ← one_name (AgreesBinary x y) name (codes "-") refl
    h2 ← one_name (AgreesBinary x y) name (codes "/") refl
    h3 ← one_name (AgreesBinary x y) name (codes "//") refl
    h4 ← one_name (AgreesBinary x y) name (codes "max") refl
    h5 ← one_name (AgreesBinary x y) name (codes "min") refl
    h6 ← one_name (AgreesBinary x y) name (codes "div") refl
    h7 ← one_name (AgreesBinary x y) name (codes "rdiv") (rdiv_agrees x y)
    h8 ← one_name (AgreesBinary x y) name (codes "*") refl
    h9 ← one_name (AgreesBinary x y) name (codes "**") (pow_agrees x y)
    h10 ← one_name (AgreesBinary x y) name (codes "^") refl
    h11 ← one_name (AgreesBinary x y) name (codes ">>") refl
    h12 ← one_name (AgreesBinary x y) name (codes "<<") refl
    h13 ← one_name (AgreesBinary x y) name (codes "/\\") refl
    h14 ← one_name (AgreesBinary x y) name (codes "\\/") refl
    h15 ← one_name (AgreesBinary x y) name (codes "xor") refl
    h16 ← one_name (AgreesBinary x y) name (codes "mod") refl
    h17 ← one_name (AgreesBinary x y) name (codes "rem") refl
    h18 ← one_name (AgreesBinary x y) name (codes "gcd") refl
    h19 ← one_name (AgreesBinary x y) name (codes "atan2") refl
    rw (h0, h1, h2, h3, h4, h5, h6, h7, h8, h9, h10, h11, h12, h13, h14, h15, h16, h17, h18, h19)
        refl
