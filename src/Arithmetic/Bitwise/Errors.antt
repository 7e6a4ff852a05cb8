-- ===== src/Arithmetic/Bitwise/Errors.antt =====
-- The type errors of the operations on integers of src/machine/arithmetic_ops.rs.
use Prim.Native.Nat.{bit_and, bit_or, bit_xor}
use contrib_scryer_prolog.Base.{
  suc, ◌≡◌, refl, true, false, ◌&&◌, some, [], ◌∷◌, Bool-cases, inl, inr, ◌∙◌, ap, ◌⊎◌,
}
use contrib_scryer_prolog.Base.Text.{codes}
use contrib_scryer_prolog.Base.Int.{pos, negsuc}
use contrib_scryer_prolog.Numerics.{Numerics}
use contrib_scryer_prolog.Arithmetic.Interface.{Arithmetic}
use contrib_scryer_prolog.Arithmetic.Number.{
  Number, float, integer, rational, fixnum, is_integer, is_negative, err, type_error, integer_type,
}
use contrib_scryer_prolog.Arithmetic.Sum.{neg}
use contrib_scryer_prolog.Arithmetic.Sum.Exact.{neg-exact}
use contrib_scryer_prolog.Arithmetic.Division.{idiv, modulus, remainder, int_floor_div}
use contrib_scryer_prolog.Arithmetic.Division.Errors.{
  idiv-type, modulus-type, remainder-type, int_floor_div-error,
}
use contrib_scryer_prolog.Arithmetic.Bitwise.{and, or, xor, shr, shl, shift_left, shift_right}
use contrib_scryer_prolog.Arithmetic.Bitwise.Shift.{shr-shl, negative_value}
use contrib_scryer_prolog.Arithmetic.Gcd.{gcd}
use contrib_scryer_prolog.Arithmetic.Bitwise.Blame.{
  first_not, no_float, first_or, shift_name, Blames, bit_operation-type, blamed, in_order,
  shift_left-first, shift_left-second, shift_right-type, no_value, has_value, shift_right-first,
}

module _ ⦃n : Numerics⦄ ⦃a : Arithmetic⦄ where
  named :
      (r z : Number)
      → some r ≡ some z
      → Blames (err (type_error integer_type r (codes "gcd", 2))) z (codes "gcd")
  named r z e = cc

  gcd-type :
      (x y z : Number)
      → first_not is_integer (x ∷ y ∷ []) ≡ some z
      → Blames (gcd x y) (first_or (first_not no_float (x ∷ y ∷ [])) z) (codes "gcd")
  unfolding gcd is_integer
  gcd-type (float _) y z e = refl
  gcd-type (rational _) (float _) z e = refl
  gcd-type (rational r) (fixnum _) z e = named (rational r) z e
  gcd-type (rational r) (integer _) z e = named (rational r) z e
  gcd-type (rational r) (rational _) z e = named (rational r) z e
  gcd-type (fixnum _) (float _) z e = refl
  gcd-type (integer _) (float _) z e = refl
  gcd-type (fixnum _) (rational s) z e = named (rational s) z e
  gcd-type (integer _) (rational s) z e = named (rational s) z e
  gcd-type (fixnum _) (fixnum _) z e = cc
  gcd-type (fixnum _) (integer _) z e = cc
  gcd-type (integer _) (fixnum _) z e = cc
  gcd-type (integer _) (integer _) z e = cc

  shr-type :
      (x y z : Number)
      → first_not is_integer (x ∷ y ∷ []) ≡ some z
      → shr x y ≡ some (err (type_error integer_type z (shift_name y (codes ">>") (codes "<<"), 2)))
  shr-type x y z e = elim (Bool-cases (is_integer y && is_negative y)) [
    | inr h ↦
        (shr-shl x y).0
        ∙ rw h (ap some (in_order shift_right (codes ">>") shift_right-type x y z e))
    | inl h ↦
        let (k, value) = negative_value y h in
        elim (blamed x y z e) [
          | inr (_, none_there, _) ↦ absurd (no_value y (negsuc k) none_there value)
          | inl (apart, same) ↦
              (shr-shl x y).0
              ∙ rw (h, ← same)
                  (ap some
                    (shift_left-first x (neg y) (pos (suc k)) apart (neg-exact y (negsuc k) value)))
        ]
  ]

  shl-type :
      (x y w : Number)
      → first_not is_integer (y ∷ x ∷ []) ≡ some w
      → shl x y ≡ some (err (type_error integer_type w (shift_name y (codes "<<") (codes ">>"), 2)))
  shl-type x y w e = elim (Bool-cases (is_integer y && is_negative y)) [
    | inr h ↦ (shr-shl x y).1 ∙ rw h (ap some (unshifted (blamed y x w e)))
    | inl h ↦
        let (k, value) = negative_value y h in
        elim (blamed y x w e) [
          | inl (none_there, _) ↦ absurd (no_value y (negsuc k) none_there value)
          | inr (_, apart, same) ↦
              (shr-shl x y).1 ∙ rw (h, ← same) (ap some (shift_right-first x (neg y) apart))
        ]
  ]
    where
      unshifted :
          ((is_integer y ≡ false) × (y ≡ w))
            ⊎ ((is_integer y ≡ true) × (is_integer x ≡ false) × (x ≡ w))
          → Blames (shift_left x y) w (codes "<<")
      unshifted (inl (apart, same)) = rw (← same) (shift_left-second x y apart)
      unshifted (inr (there, apart, same)) =
          let (v, value) = has_value y there in rw (← same) (shift_left-first x y v apart value)

  -- Where an operand is no integer, each operation on two integers raises a type error. It names the
  -- first operand that is none, but `<<` looks at the shift first, and `gcd` blames a float before a
  -- rational. The error is raised in the name of the operation, but that of `div` in the name of
  -- `mod`, and that of a negative shift in the name of the opposite shift.
  pub type_errors :
      (x y z w : Number)
      → first_not is_integer (x ∷ y ∷ []) ≡ some z
      → first_not is_integer (y ∷ x ∷ []) ≡ some w
      → (idiv x y ≡ err (type_error integer_type z (codes "//", 2)))
        × (modulus x y ≡ err (type_error integer_type z (codes "mod", 2)))
        × (remainder x y ≡ err (type_error integer_type z (codes "rem", 2)))
        × (int_floor_div x y ≡ err (type_error integer_type z (codes "mod", 2)))
        × (and x y ≡ err (type_error integer_type z (codes "/\\", 2)))
        × (or x y ≡ err (type_error integer_type z (codes "\\/", 2)))
        × (xor x y ≡ err (type_error integer_type z (codes "xor", 2)))
        × (shr x y
            ≡ some (err (type_error integer_type z (shift_name y (codes ">>") (codes "<<"), 2))))
        × (shl x y
            ≡ some (err (type_error integer_type w (shift_name y (codes "<<") (codes ">>"), 2))))
        × (gcd x y
            ≡ err (
                type_error integer_type
                  (first_or (first_not no_float (x ∷ y ∷ [])) z)
                  (codes "gcd", 2)))
  unfolding and or xor
  type_errors x y z w e f = (
    in_order idiv _ idiv-type x y z e,
    in_order modulus _ modulus-type x y z e,
    in_order remainder _ remainder-type x y z e,
    int_floor_div-error x y _ (in_order modulus _ modulus-type x y z e),
    in_order _ _ (bit_operation-type _ bit_and a.int_and) x y z e,
    in_order _ _ (bit_operation-type _ bit_or a.int_or) x y z e,
    in_order _ _ (bit_operation-type _ bit_xor a.int_xor) x y z e,
    shr-type x y z e,
    shl-type x y w f,
    gcd-type x y z e,
  )
