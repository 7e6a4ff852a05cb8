-- ===== src/Arithmetic/Division/Exact.antt =====
-- The integer divisions of src/machine/arithmetic_ops.rs against those of the integers.
use contrib_scryer_prolog.Base.{
  ℕ, zero, suc, ◌<◌, ◌≡◌, refl, ◌∙◌, ap, true, false, some, inl, inr, arith, Bool-cases, ◌-◌, ◌==◌,
}
use contrib_scryer_prolog.Base.Text.{Text, codes}
use contrib_scryer_prolog.Base.Int.{
  ℤ, pos, negsuc, is_zero, ◌+ℤ◌, div_ℤ, rem_ℤ, mod_floor, residue, residue-lt,
}
use contrib_scryer_prolog.Numerics.{Numerics}
use contrib_scryer_prolog.Ast.Fixnum.{get_num}
use contrib_scryer_prolog.Arithmetic.Interface.{Arithmetic}
use contrib_scryer_prolog.Arithmetic.Number.{
  Number, float, integer, rational, fixnum, Result, ok, ArithmeticError, int_of, integer_value,
}
use contrib_scryer_prolog.Arithmetic.Sum.Exact.{
  integer_value-from_i64, integer_value-integer, integer_value-or_big, value-int_of, some_eq,
}
use contrib_scryer_prolog.Arithmetic.Division.{
  idiv, modulus, remainder, ibig_rem_floor, unless_zero, quotient_fixnums,
}

module _ ⦃n : Numerics⦄ ⦃a : Arithmetic⦄ where
  abbrev pub Yields : Result ArithmeticError Number → ℤ → Type 0
  Yields r v = (z : Number) × (r ≡ ok z) × (integer_value z ≡ some v)

  divided :
      (name : Text) (d v : ℤ) (z : Number)
      → is_zero d ≡ false
      → integer_value z ≡ some v
      → Yields (unless_zero name d z) v
  divided name d v z h e = (z, rw h refl, e)

  not_zero : (d v : ℤ) → d ≡ v → is_zero v ≡ false → is_zero d ≡ false
  not_zero d v e h = ap is_zero e ∙ h

  quotient_of :
      (i j : n.Integer) (u v : ℤ)
      → a.value i ≡ u
      → a.value j ≡ v
      → is_zero v ≡ false
      → integer_value (integer (a.int_div i j)) ≡ some (div_ℤ u v)
  quotient_of i j u v e f h =
      integer_value-integer (a.int_div i j) (div_ℤ u v)
        (a.value-div i j (not_zero (a.value j) v f h) ∙ (rw (e, f) refl))

  rest_of :
      (i j : n.Integer) (u v : ℤ)
      → a.value i ≡ u
      → a.value j ≡ v
      → is_zero v ≡ false
      → integer_value (integer (a.int_rem i j)) ≡ some (rem_ℤ u v)
  rest_of i j u v e f h =
      integer_value-integer (a.int_rem i j) (rem_ℤ u v)
        (a.value-rem i j (not_zero (a.value j) v f h) ∙ (rw (e, f) refl))

  -- A residue by a negative divisor, moved below zero.
  below_zero : (r k : ℕ) → r < suc k → (r == 0) ≡ false → pos r +ℤ negsuc k ≡ negsuc (k - r)
  unfolding ◌+ℤ◌
  below_zero r k h z = ground arith

  -- The remainder that `ConstDivisor` gives is moved to the side of the divisor.
  value-ibig_rem_floor :
      (i j : n.Integer) (v : ℤ)
      → a.value j ≡ v
      → is_zero v ≡ false
      → a.value (ibig_rem_floor i j) ≡ mod_floor (a.value i) v
  unfolding ibig_rem_floor mod_floor
  value-ibig_rem_floor i j (pos zero) e h = cc
  value-ibig_rem_floor i j (pos (suc k)) e h = rw e (a.value-residue i (suc k) (omega arith))
  value-ibig_rem_floor i j (negsuc k) e h =
      let r = a.value-residue i (suc k) (omega arith) in
      elim (Bool-cases (residue (a.value i) (suc k) == 0)) [
        | inl z ↦ rw (e, r, z) (r ∙ ap pos (is_nothing (residue (a.value i) (suc k)) z))
        | inr z ↦
            rw (e, r, z)
              (a.value-add (a.int_residue i (suc k)) j
                ∙ (rw (r, e)
                    (below_zero (residue (a.value i) (suc k)) k
                      (residue-lt (a.value i) (suc k) (omega arith)) z)))
      ]
    where
      is_nothing : (r : ℕ) → (r == 0) ≡ true → r ≡ 0
      is_nothing r z = ground arith

  modulus_of :
      (i j : n.Integer) (u v : ℤ)
      → a.value i ≡ u
      → a.value j ≡ v
      → is_zero v ≡ false
      → integer_value (integer (ibig_rem_floor i j)) ≡ some (mod_floor u v)
  modulus_of i j u v e f h =
      integer_value-integer (ibig_rem_floor i j) (mod_floor u v)
        (value-ibig_rem_floor i j v f h ∙ ap (λ w. mod_floor w v) e)

  -- `//` of two integers by one that is not zero rounds towards zero, without an overflow.
  pub idiv-exact :
      (x y : Number) (u v : ℤ)
      → integer_value x ≡ some u
      → integer_value y ≡ some v
      → is_zero v ≡ false
      → Yields (idiv x y) (div_ℤ u v)
  unfolding idiv integer_value
  idiv-exact (fixnum x) (fixnum y) u v e f h =
      divided (codes "//") (get_num y) (div_ℤ u v) (quotient_fixnums x y)
        (not_zero (get_num y) v (some_eq _ v f) h)
        (rw (← some_eq _ u e, ← some_eq _ v f)
          (integer_value-or_big (div_ℤ (get_num x) (get_num y)) (a.int_div (int_of x) (int_of y)) (
            a.value-div (int_of x) (int_of y)
              (not_zero (a.value (int_of y)) v (value-int_of y ∙ some_eq _ v f) h)
            ∙ (rw (value-int_of x, value-int_of y) refl))))
  idiv-exact (fixnum x) (integer j) u v e f h =
      divided (codes "//") (a.value j) (div_ℤ u v) _ (not_zero (a.value j) v (some_eq _ v f) h)
        (quotient_of (int_of x) j u v (value-int_of x ∙ some_eq _ u e) (some_eq _ v f) h)
  idiv-exact (integer i) (fixnum y) u v e f h =
      divided (codes "//") (get_num y) (div_ℤ u v) _ (not_zero (get_num y) v (some_eq _ v f) h)
        (quotient_of i (int_of y) u v (some_eq _ u e) (value-int_of y ∙ some_eq _ v f) h)
  idiv-exact (integer i) (integer j) u v e f h =
      divided (codes "//") (a.value j) (div_ℤ u v) _ (not_zero (a.value j) v (some_eq _ v f) h)
        (quotient_of i j u v (some_eq _ u e) (some_eq _ v f) h)
  idiv-exact (float _) y u v e f h = cc
  idiv-exact (rational _) y u v e f h = cc
  idiv-exact (fixnum x) (float _) u v e f h = cc
  idiv-exact (fixnum x) (rational _) u v e f h = cc
  idiv-exact (integer x) (float _) u v e f h = cc
  idiv-exact (integer x) (rational _) u v e f h = cc

  -- `mod` of two integers by one that is not zero has the sign of the divisor.
  pub modulus-exact :
      (x y : Number) (u v : ℤ)
      → integer_value x ≡ some u
      → integer_value y ≡ some v
      → is_zero v ≡ false
      → Yields (modulus x y) (mod_floor u v)
  unfolding modulus integer_value
  modulus-exact (fixnum x) (fixnum y) u v e f h =
      divided (codes "mod") (get_num y) (mod_floor u v) _ (not_zero (get_num y) v (some_eq _ v f) h)
        (integer_value-from_i64 (a.rem_floor (get_num x) (get_num y))
          ∙ ap some (
              a.rem_floor_lem (get_num x) (get_num y) (not_zero (get_num y) v (some_eq _ v f) h)
              ∙ (rw (some_eq _ u e, some_eq _ v f) refl)))
  modulus-exact (fixnum x) (integer j) u v e f h =
      divided (codes "mod") (a.value j) (mod_floor u v) _ (not_zero (a.value j) v (some_eq _ v f) h)
        (modulus_of (int_of x) j u v (value-int_of x ∙ some_eq _ u e) (some_eq _ v f) h)
  modulus-exact (integer i) (fixnum y) u v e f h =
      divided (codes "mod") (get_num y) (mod_floor u v) _ (not_zero (get_num y) v (some_eq _ v f) h)
        (modulus_of i (int_of y) u v (some_eq _ u e) (value-int_of y ∙ some_eq _ v f) h)
  modulus-exact (integer i) (integer j) u v e f h =
      divided (codes "mod") (a.value j) (mod_floor u v) _ (not_zero (a.value j) v (some_eq _ v f) h)
        (modulus_of i j u v (some_eq _ u e) (some_eq _ v f) h)
  modulus-exact (float _) y u v e f h = cc
  modulus-exact (rational _) y u v e f h = cc
  modulus-exact (fixnum x) (float _) u v e f h = cc
  modulus-exact (fixnum x) (rational _) u v e f h = cc
  modulus-exact (integer x) (float _) u v e f h = cc
  modulus-exact (integer x) (rational _) u v e f h = cc

  -- `rem` of two integers by one that is not zero has the sign of the dividend.
  pub remainder-exact :
      (x y : Number) (u v : ℤ)
      → integer_value x ≡ some u
      → integer_value y ≡ some v
      → is_zero v ≡ false
      → Yields (remainder x y) (rem_ℤ u v)
  unfolding remainder integer_value
  remainder-exact (fixnum x) (fixnum y) u v e f h =
      divided (codes "rem") (get_num y) (rem_ℤ u v) _ (not_zero (get_num y) v (some_eq _ v f) h) (
        integer_value-from_i64 (rem_ℤ (get_num x) (get_num y))
        ∙ (rw (some_eq _ u e, some_eq _ v f) refl))
  remainder-exact (fixnum x) (integer j) u v e f h =
      divided (codes "rem") (a.value j) (rem_ℤ u v) _ (not_zero (a.value j) v (some_eq _ v f) h)
        (rest_of (int_of x) j u v (value-int_of x ∙ some_eq _ u e) (some_eq _ v f) h)
  remainder-exact (integer i) (fixnum y) u v e f h =
      divided (codes "rem") (get_num y) (rem_ℤ u v) _ (not_zero (get_num y) v (some_eq _ v f) h)
        (rest_of i (int_of y) u v (some_eq _ u e) (value-int_of y ∙ some_eq _ v f) h)
  remainder-exact (integer i) (integer j) u v e f h =
      divided (codes "rem") (a.value j) (rem_ℤ u v) _ (not_zero (a.value j) v (some_eq _ v f) h)
        (rest_of i j u v (some_eq _ u e) (some_eq _ v f) h)
  remainder-exact (float _) y u v e f h = cc
  remainder-exact (rational _) y u v e f h = cc
  remainder-exact (fixnum x) (float _) u v e f h = cc
  remainder-exact (fixnum x) (rational _) u v e f h = cc
  remainder-exact (integer x) (float _) u v e f h = cc
  remainder-exact (integer x) (rational _) u v e f h = cc
