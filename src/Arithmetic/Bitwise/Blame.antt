-- ===== src/Arithmetic/Bitwise/Blame.antt =====
-- Which operand an operation on integers blames, in src/machine/arithmetic_ops.rs.
use contrib_scryer_prolog.Base.{
  ℕ, ◌≡◌, refl, Bool, true, false, ◌&&◌, Option, some, none, List, [], ◌∷◌, if◌then◌else◌,
  Bool-cases, inl, inr, ◌⊎◌, ◌-◌, ◌^◌,
}
use contrib_scryer_prolog.Base.Text.{Text, codes}
use contrib_scryer_prolog.Base.Int.{ℤ}
use contrib_scryer_prolog.Numerics.{Numerics}
use contrib_scryer_prolog.Arithmetic.Interface.{Arithmetic}
use contrib_scryer_prolog.Arithmetic.Number.{
  Number, float, integer, rational, fixnum, is_integer, is_negative, integer_value, Result, err,
  ArithmeticError, type_error, integer_type,
}
use contrib_scryer_prolog.Arithmetic.Division.Errors.{Checks}
use contrib_scryer_prolog.Arithmetic.Bitwise.{bit_operation, shift_left, shift_right, amount}

module _ ⦃n : Numerics⦄ ⦃a : Arithmetic⦄ where
  pub bit_operation-type :
      (name : Text) (bits : ℕ → ℕ → ℕ) (big : n.Integer → n.Integer → n.Integer)
      → Checks (bit_operation name bits big) name
  unfolding bit_operation is_integer
  bit_operation-type name bits big (float _) y h = refl
  bit_operation-type name bits big (rational _) y h = refl
  bit_operation-type name bits big (fixnum x) (float _) h = refl
  bit_operation-type name bits big (fixnum x) (rational _) h = refl
  bit_operation-type name bits big (integer x) (float _) h = refl
  bit_operation-type name bits big (integer x) (rational _) h = refl
  bit_operation-type name bits big (fixnum x) (fixnum _) h = cc
  bit_operation-type name bits big (fixnum x) (integer _) h = cc
  bit_operation-type name bits big (integer x) (fixnum _) h = cc
  bit_operation-type name bits big (integer x) (integer _) h = cc

  -- The first operand, in an order, that fails a test.
  abbrev pub first_not : (Number → Bool) → List Number → Option Number
  first_not test [] = none
  first_not test (x ∷ xs) = if test x then first_not test xs else some x

  abbrev pub no_float : Number → Bool
  no_float (float _) = false
  no_float _ = true

  abbrev pub first_or : Option Number → Number → Number
  first_or (some x) y = x
  first_or none y = y

  -- The name in a shift's error: a negative shift is the opposite shift.
  abbrev pub shift_name : Number → Text → Text → Text
  shift_name y name opposite = if is_integer y && is_negative y then opposite else name

  abbrev pub Blames : Result ArithmeticError Number → Number → Text → Type 0
  Blames r z name = r ≡ err (type_error integer_type z (name, 2))

  pub blamed :
      (x y z : Number)
      → first_not is_integer (x ∷ y ∷ []) ≡ some z
      → ((is_integer x ≡ false) × (x ≡ z))
        ⊎ ((is_integer x ≡ true) × (is_integer y ≡ false) × (y ≡ z))
  blamed x y z e = elim (Bool-cases (is_integer x)) [
    | inr h ↦ inl (h, same x z (rw h at e))
    | inl h ↦ elim (Bool-cases (is_integer y)) [
      | inr k ↦ inr (h, k, same y z (rw (h, k) at e))
      | inl k ↦ absurd (nobody z (rw (h, k) at e))
    ]
  ]
    where
      same : (v w : Number) → some v ≡ some w → v ≡ w
      same v w e = cc

      nobody : (w : Number) → none ≡ some w → ⊥
      nobody w e = cc

  -- An operation that looks at its first operand first.
  pub in_order :
      (operation : Number → Number → Result ArithmeticError Number) (name : Text)
      → Checks operation name
      → (x y z : Number) → first_not is_integer (x ∷ y ∷ []) ≡ some z
      → Blames (operation x y) z name
  in_order operation name checks x y z e = elim (blamed x y z e) [
    | inl (h, same) ↦ rw (← same) (rw h at (checks x y (rw (h, h) refl)))
    | inr (h, k, same) ↦ rw (← same) (rw h at (checks x y (rw (h, k) refl)))
  ]

  amount_known :
      (max : ℕ) (y : Number) (v : ℤ) → integer_value y ≡ some v → (k : ℕ) × (amount max y ≡ some k)
  unfolding integer_value
  amount_known max (fixnum y) v e = (_, refl)
  amount_known max (integer j) v e = (_, refl)
  amount_known max (float _) v e = cc
  amount_known max (rational _) v e = cc

  amount_unknown : (max : ℕ) (y : Number) → is_integer y ≡ false → amount max y ≡ none
  unfolding is_integer
  amount_unknown max (fixnum y) e = cc
  amount_unknown max (integer j) e = cc
  amount_unknown max (float _) e = refl
  amount_unknown max (rational _) e = refl

  pub shift_left-first :
      (x y : Number) (v : ℤ)
      → is_integer x ≡ false
      → integer_value y ≡ some v
      → Blames (shift_left x y) x (codes "<<")
  unfolding shift_left is_integer
  shift_left-first (fixnum x) y v h e = cc
  shift_left-first (integer x) y v h e = cc
  shift_left-first (float x) y v h e =
      let (k, known) = amount_known (2 ^ 64 - 1) y v e in rw known refl
  shift_left-first (rational x) y v h e =
      let (k, known) = amount_known (2 ^ 64 - 1) y v e in rw known refl

  pub shift_left-second :
      (x y : Number) → is_integer y ≡ false → Blames (shift_left x y) y (codes "<<")
  unfolding shift_left
  shift_left-second x y h = rw (amount_unknown (2 ^ 64 - 1) y h) refl

  pub shift_right-type : Checks shift_right (codes ">>")
  unfolding shift_right is_integer
  shift_right-type (float _) y h = refl
  shift_right-type (rational _) y h = refl
  shift_right-type (fixnum x) y h = rw (amount_unknown (2 ^ 32 - 1) y h) refl
  shift_right-type (integer x) y h = rw (amount_unknown (2 ^ 64 - 1) y h) refl

  pub no_value : (y : Number) (v : ℤ) → is_integer y ≡ false → integer_value y ≡ some v → ⊥
  unfolding is_integer integer_value
  no_value (fixnum y) v h e = cc
  no_value (integer j) v h e = cc
  no_value (float _) v h e = cc
  no_value (rational _) v h e = cc

  pub has_value : (y : Number) → is_integer y ≡ true → (v : ℤ) × (integer_value y ≡ some v)
  unfolding is_integer integer_value
  has_value (fixnum y) h = (_, refl)
  has_value (integer j) h = (_, refl)
  has_value (float _) h = cc
  has_value (rational _) h = cc

  pub shift_right-first :
      (x y : Number) → is_integer x ≡ false → Blames (shift_right x y) x (codes ">>")
  shift_right-first x y h = rw h at (shift_right-type x y (rw (h, h) refl))
