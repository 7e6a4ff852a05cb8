-- ===== src/Arithmetic/Power/Exact.antt =====
-- `binary_pow` of src/arithmetic.rs and `int_pow` of src/machine/arithmetic_ops.rs against the power
-- that multiplies.
use contrib_scryer_prolog.Base.{
  ℕ, zero, suc, ◌≡◌, refl, sym, ◌∙◌, ap, Bool, true, false, not, ◌&&◌, ◌||◌, some, none, inl, inr,
  arith, Bool-cases, ◌+◌, ◌-◌, ◌/◌, ◌%◌, ◌^◌, ◌≤◌, ◌<◌, ◌==◌, ltb, leb, if◌then◌else◌,
}
use contrib_scryer_prolog.Base.Text.{codes}
use contrib_scryer_prolog.Base.Int.{ℤ, pos, negsuc, nat_abs, is_neg, is_zero, ◌*ℤ◌, *ℤ_comm}
use contrib_scryer_prolog.Base.Int.Power.{pow_ℤ, one-*ℤ, pow_ℤ-square, *ℤ_swap}
use contrib_scryer_prolog.Numerics.{Numerics}
use contrib_scryer_prolog.Ast.Fixnum.{Fixnum, get_num}
use contrib_scryer_prolog.Arithmetic.Interface.{Arithmetic}
use contrib_scryer_prolog.Arithmetic.Number.{
  Number, float, integer, rational, fixnum, integer_value, is_zero_number, is_negative, err,
  evaluation, undefined, type_error, float_type, checked, in_i64, int_of,
}
use contrib_scryer_prolog.Arithmetic.Sum.Exact.{
  some_eq, integer_value-from_i64, integer_value-integer, value-int_of,
}
use contrib_scryer_prolog.Arithmetic.Division.Exact.{Yields}
use contrib_scryer_prolog.Arithmetic.Power.{
  pow_loop, binary_pow, or_binary_pow, checked_pow, unless_fraction, power_of, int_pow, is_unit,
}

-- The power by the half, squared, and the odd factor.
by_halves :
    (x o : ℤ) (p : ℕ) → (p % 2 == 1) ≡ true → pow_ℤ (x *ℤ x) (p / 2) *ℤ (o *ℤ x) ≡ pow_ℤ x p *ℤ o
unfolding pow_ℤ
by_halves x o p h =
    ap (λ z. z *ℤ (o *ℤ x)) (pow_ℤ-square x (p / 2))
    ∙ *ℤ_swap (pow_ℤ x (p / 2 + p / 2)) o x
    ∙ ap (λ k. pow_ℤ x k *ℤ o) {x = suc (p / 2 + p / 2)} {y = p} (ground arith)

by_half : (x : ℤ) (p : ℕ) → (p % 2 == 1) ≡ false → pow_ℤ (x *ℤ x) (p / 2) ≡ pow_ℤ x p
by_half x p h = pow_ℤ-square x (p / 2) ∙ ap (pow_ℤ x) {x = p / 2 + p / 2} {y = p} (ground arith)

only_one : (p : ℕ) → 0 < p → ltb 1 p ≡ false → 1 ≡ p
only_one p h l = ground arith

half_positive : (p : ℕ) → ltb 1 p ≡ true → 0 < p / 2
half_positive p l = ground arith

half_less : (p fuel : ℕ) → ltb 1 p ≡ true → p ≤ suc fuel → p / 2 ≤ fuel
half_less p fuel l f = ground arith

pow_one : (x : ℤ) → pow_ℤ x 1 ≡ x
unfolding pow_ℤ
pow_one x = *ℤ_comm x (pos 1) ∙ one-*ℤ x

module _ ⦃n : Numerics⦄ ⦃a : Arithmetic⦄ where
  odd_part : n.Integer → n.Integer → ℕ → n.Integer
  odd_part base oddand p = if p % 2 == 1 then a.int_mul oddand base else oddand

  last_factor :
      (fuel : ℕ) (base oddand : n.Integer) (p : ℕ)
      → ltb 1 p ≡ false
      → pow_loop (suc fuel) base oddand p ≡ a.int_mul base oddand
  unfolding pow_loop
  last_factor fuel base oddand p h = rw h refl

  next_factor :
      (fuel : ℕ) (base oddand : n.Integer) (p : ℕ)
      → ltb 1 p ≡ true
      → pow_loop (suc fuel) base oddand p
        ≡ pow_loop fuel (a.int_square base) (odd_part base oddand p) (p / 2)
  unfolding pow_loop odd_part
  next_factor fuel base oddand p h = rw h refl

  squared :
      (base oddand : n.Integer) (p : ℕ)
      → pow_ℤ (a.value base *ℤ a.value base) (p / 2) *ℤ a.value (odd_part base oddand p)
        ≡ pow_ℤ (a.value base) p *ℤ a.value oddand
  unfolding odd_part
  squared base oddand p = elim (Bool-cases (p % 2 == 1)) [
    | inl h ↦ rw (h, a.value-mul oddand base) (by_halves (a.value base) (a.value oddand) p h)
    | inr h ↦ rw h (ap (λ z. z *ℤ a.value oddand) (by_half (a.value base) p h))
  ]

  value-pow_loop :
      (fuel : ℕ) (base oddand : n.Integer) (p : ℕ)
      → 0 < p
      → p ≤ fuel
      → a.value (pow_loop fuel base oddand p) ≡ pow_ℤ (a.value base) p *ℤ a.value oddand
  value-pow_loop zero base oddand p h f = absurd (omega arith)
  value-pow_loop (suc fuel) base oddand p h f = elim (Bool-cases (ltb 1 p)) [
    | inl l ↦ rw (next_factor fuel base oddand p l) (
        value-pow_loop fuel (a.int_square base) (odd_part base oddand p) (p / 2) (half_positive p l)
          (half_less p fuel l f)
        ∙ (rw (a.value-square base) (squared base oddand p)))
    | inr l ↦
        rw (last_factor fuel base oddand p l, a.value-mul base oddand)
          (ap (λ z. z *ℤ a.value oddand)
            (sym (pow_one (a.value base)) ∙ ap (pow_ℤ (a.value base)) (only_one p h l)))
  ]

  no_power : (x : ℤ) (p : ℕ) → (p == 0) ≡ true → pos 1 ≡ pow_ℤ x p
  unfolding pow_ℤ
  no_power x zero h = refl
  no_power x (suc p) h = absurd (ground arith)

  some_power : (p : ℕ) → (p == 0) ≡ false → 0 < p
  some_power p h = ground arith

  -- Squaring computes the power: the fuel is enough for every power.
  pub value-binary_pow :
      (base : n.Integer) (p : ℤ) → a.value (binary_pow base p) ≡ pow_ℤ (a.value base) (nat_abs p)
  unfolding binary_pow
  value-binary_pow base p = elim (Bool-cases (nat_abs p == 0)) [
    | inl h ↦ rw h (a.value-from (pos 1) ∙ no_power (a.value base) (nat_abs p) h)
    | inr h ↦ rw h (
        value-pow_loop (nat_abs p) base (n.int_from (pos 1)) (nat_abs p) (some_power (nat_abs p) h)
          (omega arith)
        ∙ ap (λ z. pow_ℤ (a.value base) (nat_abs p) *ℤ z) (a.value-from (pos 1))
        ∙ *ℤ_comm (pow_ℤ (a.value base) (nat_abs p)) (pos 1)
        ∙ one-*ℤ (pow_ℤ (a.value base) (nat_abs p)))
  ]

  zero_value : (x : Number) (u : ℤ) → integer_value x ≡ some u → is_zero_number x ≡ is_zero u
  unfolding is_zero_number integer_value
  zero_value (fixnum x) u e = ap is_zero (some_eq _ u e)
  zero_value (integer i) u e = ap is_zero (some_eq _ u e)
  zero_value (float _) u e = cc
  zero_value (rational _) u e = cc

  negative_value : (x : Number) (u : ℤ) → integer_value x ≡ some u → is_negative x ≡ is_neg u
  unfolding is_negative integer_value
  negative_value (fixnum x) u e = ap is_neg (some_eq _ u e)
  negative_value (integer i) u e = ap is_neg (some_eq _ u e)
  negative_value (float _) u e = cc
  negative_value (rational _) u e = cc

  checked_or_big :
      (v : ℤ) (x y : Fixnum)
      → a.value (binary_pow (int_of x) (get_num y)) ≡ v
      → integer_value (or_binary_pow (checked v) x y) ≡ some v
  unfolding checked or_binary_pow
  checked_or_big v x y h = elim (Bool-cases (in_i64 v)) [
    | inl e ↦ rw e (integer_value-from_i64 v)
    | inr e ↦ rw e (integer_value-integer _ v h)
  ]

  value-power :
      (x y : Fixnum)
      → a.value (binary_pow (int_of x) (get_num y)) ≡ pow_ℤ (get_num x) (nat_abs (get_num y))
  value-power x y =
      value-binary_pow (int_of x) (get_num y)
      ∙ ap (λ z. pow_ℤ z (nat_abs (get_num y))) (value-int_of x)

  big_power :
      (x y : Fixnum) (p : ℤ)
      → get_num y ≡ p
      → integer_value (or_binary_pow none x y) ≡ some (pow_ℤ (get_num x) (nat_abs p))
  unfolding or_binary_pow
  big_power x y p e =
      integer_value-integer _ _ (value-power x y ∙ ap (λ z. pow_ℤ (get_num x) (nat_abs z)) e)

  powers : (x u p v : ℤ) → x ≡ u → p ≡ v → pow_ℤ x (nat_abs p) ≡ pow_ℤ u (nat_abs v)
  powers x u p v e f = rw (e, f) refl

  or_binary_pow-exact :
      (x y : Fixnum) (p : ℤ)
      → get_num y ≡ p
      → integer_value (or_binary_pow (checked_pow (get_num x) p) x y)
        ≡ some (pow_ℤ (get_num x) (nat_abs p))
  unfolding checked_pow
  or_binary_pow-exact x y (pos k) e = elim (Bool-cases (leb k (2 ^ 32 - 1))) [
    | inl l ↦ rw l (
        checked_or_big (pow_ℤ (get_num x) k) x y
          (value-power x y ∙ ap (λ z. pow_ℤ (get_num x) (nat_abs z)) e))
    | inr l ↦ rw l (big_power x y (pos k) e)
  ]
  or_binary_pow-exact x y (negsuc k) e = big_power x y (negsuc k) e

  permitted :
      (x z : Number) (base p u v w : ℤ)
      → base ≡ u
      → p ≡ v
      → (not (is_unit u) && is_neg v) ≡ false
      → integer_value z ≡ some w
      → Yields (unless_fraction x base p z) w
  permitted x z base p u v w e f h g = (z, rw (e, f, h) refl, g)

  power_of-exact :
      (x y : Number) (u v : ℤ)
      → integer_value x ≡ some u
      → integer_value y ≡ some v
      → (not (is_unit u) && is_neg v) ≡ false
      → Yields (power_of x y) (pow_ℤ u (nat_abs v))
  unfolding power_of integer_value
  power_of-exact (fixnum x) (fixnum y) u v e f h =
      permitted (fixnum x) _ (get_num x) (get_num y) u v _ (some_eq _ u e) (some_eq _ v f) h (
        or_binary_pow-exact x y (get_num y) refl
        ∙ ap some (powers (get_num x) u (get_num y) v (some_eq _ u e) (some_eq _ v f)))
  power_of-exact (fixnum x) (integer j) u v e f h =
      permitted (fixnum x) _ (get_num x) (a.value j) u v _ (some_eq _ u e) (some_eq _ v f) h (
        integer_value-integer _ _ (
          value-binary_pow (int_of x) (a.value j)
          ∙ powers (a.value (int_of x)) u (a.value j) v (value-int_of x ∙ some_eq _ u e)
              (some_eq _ v f)))
  power_of-exact (integer i) (fixnum y) u v e f h =
      permitted (integer i) _ (a.value i) (get_num y) u v _ (some_eq _ u e) (some_eq _ v f) h (
        integer_value-integer _ _ (
          value-binary_pow i (get_num y)
          ∙ powers (a.value i) u (get_num y) v (some_eq _ u e) (some_eq _ v f)))
  power_of-exact (integer i) (integer j) u v e f h =
      permitted (integer i) _ (a.value i) (a.value j) u v _ (some_eq _ u e) (some_eq _ v f) h (
        integer_value-integer _ _ (
          value-binary_pow i (a.value j)
          ∙ powers (a.value i) u (a.value j) v (some_eq _ u e) (some_eq _ v f)))
  power_of-exact (float _) y u v e f h = cc
  power_of-exact (rational _) y u v e f h = cc
  power_of-exact (fixnum x) (float _) u v e f h = cc
  power_of-exact (fixnum x) (rational _) u v e f h = cc
  power_of-exact (integer x) (float _) u v e f h = cc
  power_of-exact (integer x) (rational _) u v e f h = cc

  -- `^` of two integers is the power by the magnitude of the second, exact whatever its size. A
  -- negative second integer is allowed for 1 and -1 alone.
  pub int_pow-exact :
      (x y : Number) (u v : ℤ)
      → integer_value x ≡ some u
      → integer_value y ≡ some v
      → (is_zero u && is_neg v) ≡ false
      → (not (is_unit u) && is_neg v) ≡ false
      → Yields (int_pow x y) (pow_ℤ u (nat_abs v))
  unfolding int_pow
  int_pow-exact x y u v e f z h =
      rw (zero_value x u e, negative_value y v f, z) (power_of-exact x y u v e f h)

  power_of-error :
      (x y : Number) (u v : ℤ)
      → integer_value x ≡ some u
      → integer_value y ≡ some v
      → (not (is_unit u) && is_neg v) ≡ true
      → power_of x y ≡ err (type_error float_type x (codes "^", 2))
  unfolding power_of integer_value
  power_of-error (fixnum x) (fixnum y) u v e f h = rw (some_eq _ u e, some_eq _ v f, h) refl
  power_of-error (fixnum x) (integer j) u v e f h = rw (some_eq _ u e, some_eq _ v f, h) refl
  power_of-error (integer i) (fixnum y) u v e f h = rw (some_eq _ u e, some_eq _ v f, h) refl
  power_of-error (integer i) (integer j) u v e f h = rw (some_eq _ u e, some_eq _ v f, h) refl
  power_of-error (float _) y u v e f h = cc
  power_of-error (rational _) y u v e f h = cc
  power_of-error (fixnum x) (float _) u v e f h = cc
  power_of-error (fixnum x) (rational _) u v e f h = cc
  power_of-error (integer x) (float _) u v e f h = cc
  power_of-error (integer x) (rational _) u v e f h = cc

  -- A negative power of an integer is an error unless the integer is 1 or -1: undefined for 0, and
  -- otherwise a type error that names the integer.
  pub int_pow-error :
      (x y : Number) (u v : ℤ)
      → integer_value x ≡ some u
      → integer_value y ≡ some v
      → is_neg v ≡ true
      → (is_zero u || not (is_unit u)) ≡ true
      → int_pow x y
        ≡ err (
            if is_zero u
            then evaluation undefined (codes "is", 2)
            else type_error float_type x (codes "^", 2))
  unfolding int_pow
  int_pow-error x y u v e f neg h = elim (Bool-cases (is_zero u)) [
    | inl z ↦ rw (zero_value x u e, negative_value y v f, z, neg) refl
    | inr z ↦
        rw (zero_value x u e, negative_value y v f, z)
          (power_of-error x y u v e f (not_unit (is_zero u) (is_unit u) (is_neg v) z h neg))
  ]
    where
      not_unit : (z b c : Bool) → z ≡ false → (z || not b) ≡ true → c ≡ true → (not b && c) ≡ true
      not_unit true b c e h k = cc
      not_unit false true c e h k = cc
      not_unit false false c e h k = k
