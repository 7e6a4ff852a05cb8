-- ===== src/Arithmetic/Eval/Tree.antt =====
-- The stack machine of src/machine/arithmetic_ops.rs on the post-order of an expression.
use contrib_scryer_prolog.Base.{ℕ, suc, ◌≡◌, refl, sym, ◌∙◌, ap, List, [], ◌∷◌, ◌++◌, length}
use contrib_scryer_prolog.Base.Text.{Text}
use contrib_scryer_prolog.Numerics.{Numerics}
use contrib_scryer_prolog.Arithmetic.Interface.{Arithmetic}
use contrib_scryer_prolog.Arithmetic.Number.{Number, instantiation, not_evaluable, evaluable}
use contrib_scryer_prolog.Arithmetic.Eval.{
  Evaluated, done, raised, panicked, ◌then◌, is_stub, Item, functor_item, number_item,
  variable_item, other_item, binary, unary, constant, apply, step, run, top, arith_eval_by_metacall,
}

module _ ⦃n : Numerics⦄ where
  mutual
    pub data Expression : Type 0 where
      number : Number → Expression
      variable : Expression
      other : Expression
      compound : Text → Expressions → Expression

    pub data Expressions : Type 0 where
      no_args : Expressions
      more_args : Expression → Expressions → Expressions

  unfoldable pub args_length : Expressions → ℕ
  args_length no_args = 0
  args_length (more_args _ es) = suc (args_length es)

  -- What the iterator gives for an expression: the arguments before their functor.
  unfoldable mutual
    unfolding args_length

    pub post_order : Expression → List Item
    post_order (number v) = number_item v ∷ []
    post_order variable = variable_item ∷ []
    post_order other = other_item ∷ []
    post_order (compound name es) = post_order_args es ++ functor_item name (args_length es) ∷ []

    pub post_order_args : Expressions → List Item
    post_order_args no_args = []
    post_order_args (more_args e es) = post_order e ++ post_order_args es

  module _ ⦃a : Arithmetic⦄ where
    -- The value of a functor on the values of its arguments.
    unfoldable pub call : Text → List Number → Evaluated Number
    unfolding constant unary binary
    call name [] = constant name
    call name (x ∷ []) = unary name x
    call name (x ∷ y ∷ []) = binary name x y
    call name vs = raised (evaluable name (length vs) is_stub)

    -- Evaluation by recursion, from left to right.
    unfoldable mutual
      unfolding call

      pub evaluate : Expression → Evaluated Number
      evaluate (number v) = done v
      evaluate variable = raised (instantiation is_stub)
      evaluate other = raised (not_evaluable is_stub)
      evaluate (compound name es) = evaluate_args es then call name

      pub evaluate_args : Expressions → Evaluated (List Number)
      evaluate_args no_args = done []
      evaluate_args (more_args e es) =
          evaluate e then λ v. evaluate_args es then λ vs. done (v ∷ vs)

    then_assoc :
        {A B C : Type 0} (m : Evaluated A) (f : A → Evaluated B) (g : B → Evaluated C)
        → ((m then f) then g) ≡ (m then λ x. f x then g)
    then_assoc (done v) f g = refl
    then_assoc (raised e) f g = refl
    then_assoc panicked f g = refl

    -- Two continuations that agree on the value, if there is one.
    then_congr :
        {A B : Type 0} (m : Evaluated A) (f g : A → Evaluated B)
        → ((v : A) → m ≡ done v → f v ≡ g v)
        → (m then f) ≡ (m then g)
    then_congr (done v) f g h = h v refl
    then_congr (raised e) f g h = refl
    then_congr panicked f g h = refl

    run-append :
        (xs ys : List Item) (stack : List Number)
        → run (xs ++ ys) stack ≡ (run xs stack then run ys)
    unfolding run
    run-append [] ys stack = refl
    run-append (x ∷ xs) ys stack =
        let again = run-append xs ys in
        then_congr (step x stack) (run (xs ++ ys)) (λ s. run xs s then run ys) (λ s _. again s)
        ∙ sym (then_assoc (step x stack) (run xs) (run ys))

    abbrev pub push_all : List Number → List Number → List Number
    push_all [] stack = stack
    push_all (v ∷ vs) stack = push_all vs (v ∷ stack)

    apply-call :
        (name : Text) (vs stack : List Number)
        → apply name (length vs) (push_all vs stack) ≡ (call name vs then λ v. done (v ∷ stack))
    unfolding apply call
    apply-call name [] stack = refl
    apply-call name (x ∷ []) stack = refl
    apply-call name (x ∷ y ∷ []) stack = refl
    apply-call name (x ∷ y ∷ z ∷ vs) stack = refl

    done_eq : (x y : List Number) → ◌≡◌ {A = Evaluated (List Number)} (done x) (done y) → x ≡ y
    done_eq x y p = cc

    length_of_args :
        (e : Expression) (es : Expressions) (vs : List Number) (m : Evaluated Number)
        (k : Evaluated (List Number))
        → ((ws : List Number) → k ≡ done ws → length ws ≡ args_length es)
        → (m then λ v. k then λ ws. done (v ∷ ws)) ≡ done vs
        → length vs ≡ suc (args_length es)
    length_of_args e es vs (done v) (done ws) ih h =
        ap length (sym (done_eq (v ∷ ws) vs h)) ∙ ap suc (ih ws refl)
    length_of_args e es vs (done v) (raised _) ih h = cc
    length_of_args e es vs (done v) panicked ih h = cc
    length_of_args e es vs (raised _) k ih h = cc
    length_of_args e es vs panicked k ih h = cc

    evaluate_args-length :
        (es : Expressions) (vs : List Number)
        → evaluate_args es ≡ done vs
        → length vs ≡ args_length es
    unfolding evaluate args_length
    evaluate_args-length no_args [] h = refl
    evaluate_args-length no_args (v ∷ vs) h = cc
    evaluate_args-length (more_args e es) vs h =
        let again = evaluate_args-length es in
        length_of_args e es vs (evaluate e) (evaluate_args es) again h

    one_item : (x : Item) (stack : List Number) → run (x ∷ []) stack ≡ step x stack
    unfolding run
    one_item x stack = finish (step x stack)
      where
        finish : (m : Evaluated (List Number)) → (m then λ s. done s) ≡ m
        finish (done s) = refl
        finish (raised e) = refl
        finish panicked = refl

    number_run :
        (v : Number) (stack : List Number) → run (number_item v ∷ []) stack ≡ done (v ∷ stack)
    unfolding step
    number_run v stack = one_item (number_item v) stack

    variable_run :
        (stack : List Number) → run (variable_item ∷ []) stack ≡ raised (instantiation is_stub)
    unfolding step
    variable_run stack = one_item variable_item stack

    other_run : (stack : List Number) → run (other_item ∷ []) stack ≡ raised (not_evaluable is_stub)
    unfolding step
    other_run stack = one_item other_item stack

    empty_run : (stack : List Number) → run [] stack ≡ done stack
    unfolding run
    empty_run stack = refl

    called :
        (name : Text) (es : Expressions) (stack vs : List Number)
        → evaluate_args es ≡ done vs
        → run (functor_item name (args_length es) ∷ []) (push_all vs stack)
          ≡ (call name vs then λ v. done (v ∷ stack))
    unfolding step
    called name es stack vs h =
        one_item (functor_item name (args_length es)) (push_all vs stack)
        ∙ ap (λ k. apply name k (push_all vs stack)) (sym (evaluate_args-length es vs h))
        ∙ apply-call name vs stack

    mutual
      unfolding post_order evaluate args_length

      -- The stack machine puts the value of an expression on its stack, or stops with its error.
      run-post_order :
          (e : Expression) (stack : List Number)
          → run (post_order e) stack ≡ (evaluate e then λ v. done (v ∷ stack))
      run-post_order (number v) stack = number_run v stack
      run-post_order variable stack = variable_run stack
      run-post_order other stack = other_run stack
      run-post_order (compound name es) stack =
          let f : Item = functor_item name (args_length es) in
          run-append (post_order_args es) (f ∷ []) stack
          ∙ ap (λ m. m then run (f ∷ [])) (run-post_order_args es stack)
          ∙ then_assoc (evaluate_args es) (λ vs. done (push_all vs stack)) (run (f ∷ []))
          ∙ then_congr (evaluate_args es) (λ vs. run (f ∷ []) (push_all vs stack))
              (λ vs. call name vs then λ v. done (v ∷ stack)) (called name es stack)
          ∙ sym (then_assoc (evaluate_args es) (call name) (λ v. done (v ∷ stack)))

      run-post_order_args :
          (es : Expressions) (stack : List Number)
          → run (post_order_args es) stack ≡ (evaluate_args es then λ vs. done (push_all vs stack))
      run-post_order_args no_args stack = empty_run stack
      run-post_order_args (more_args e es) stack =
          run-append (post_order e) (post_order_args es) stack
          ∙ ap (λ m. m then run (post_order_args es)) (run-post_order e stack)
          ∙ then_assoc (evaluate e) (λ v. done (v ∷ stack)) (run (post_order_args es))
          ∙ then_congr (evaluate e) (λ v. run (post_order_args es) (v ∷ stack))
              (λ v. (evaluate_args es then λ vs. done (v ∷ vs)) then λ vs. done (push_all vs stack))
              (λ v _.
                run-post_order_args es (v ∷ stack)
                ∙ sym (
                    then_assoc (evaluate_args es) (λ vs. done (v ∷ vs))
                      (λ vs. done (push_all vs stack))))
          ∙ sym (
              then_assoc (evaluate e) (λ v. evaluate_args es then λ vs. done (v ∷ vs))
                (λ vs. done (push_all vs stack)))

    top_of_value : (m : Evaluated Number) → ((m then λ v. done (v ∷ [])) then top) ≡ m
    top_of_value (done v) = refl
    top_of_value (raised e) = refl
    top_of_value panicked = refl

    -- On the cells of an expression in post-order, `arith_eval_by_metacall` gives what evaluation
    -- by recursion gives: the value, or the first error from left to right, and no `unwrap` of an
    -- empty stack.
    pub arith_eval_by_metacall-post_order :
        (e : Expression) → arith_eval_by_metacall (post_order e) ≡ evaluate e
    unfolding arith_eval_by_metacall
    arith_eval_by_metacall-post_order e =
        ap (λ m. m then top) (run-post_order e []) ∙ top_of_value (evaluate e)
