-- ===== src/Arithmetic/Sum/Exact.antt =====
-- The integer operations of src/machine/arithmetic_ops.rs against those of the integers.
use contrib_scryer_prolog.Base.{
  ◌≡◌, refl, sym, ◌∙◌, ap, true, false, some, inl, inr, arith, Bool-cases, ◌^◌,
}
use contrib_scryer_prolog.Base.Int.{ℤ, pos, negsuc, neg_ℤ, nat_abs, ◌+ℤ◌, ◌*ℤ◌, +ℤ_comm, *ℤ_comm}
use contrib_scryer_prolog.Numerics.{Numerics}
use contrib_scryer_prolog.Ast.Fixnum.{
  Fixnum, get_num, build_with_checked, in_range, checked_abs, abs_i64,
}
use contrib_scryer_prolog.Ast.Fixnum.Range.{build_with_checked_lem, get_num-InRange}
use contrib_scryer_prolog.Arithmetic.Interface.{Arithmetic}
use contrib_scryer_prolog.Arithmetic.Number.{
  Number, float, integer, rational, fixnum, EvalError, Result, ok, in_i64, checked, from_i64,
  or_big, int_of, integer_value,
}
use contrib_scryer_prolog.Arithmetic.Sum.{
  add, neg, abs, sub, mul, add_fixnums, mul_fixnums, or_past_max,
}

module _ ⦃n : Numerics⦄ ⦃a : Arithmetic⦄ where
  -- A machine integer stands for itself, whether it becomes a fixnum or a big integer.
  pub integer_value-from_i64 : (v : ℤ) → integer_value (from_i64 v) ≡ some v
  unfolding from_i64 integer_value
  integer_value-from_i64 v = elim (build_with_checked_lem v) [
    | inl (range, built, read) ↦ rw (built, from_i64) (ap some read)
    | inr (range, refused) ↦ rw (refused, from_i64) (ap some (a.value-from v))
  ]

  pub integer_value-integer :
      (i : n.Integer) (v : ℤ) → a.value i ≡ v → integer_value (integer i) ≡ some v
  unfolding integer_value
  integer_value-integer i v e = ap some e

  -- An overflow of the machine integers changes the representation, not the value.
  pub integer_value-or_big :
      (v : ℤ) (big : n.Integer) → a.value big ≡ v → integer_value (or_big (checked v) big) ≡ some v
  unfolding checked or_big
  integer_value-or_big v big e = elim (Bool-cases (in_i64 v)) [
    | inl h ↦ rw h (integer_value-from_i64 v)
    | inr h ↦ rw h (integer_value-integer big v e)
  ]

  -- Equal values of the two operands, by their kinds.
  pub value-int_of : (x : Fixnum) → a.value (int_of x) ≡ get_num x
  value-int_of x = a.value-from (get_num x)

  -- The number `r` is the integer `v`.
  abbrev pub Gives : Result EvalError Number → ℤ → Type 0
  Gives r v = (z : Number) × (r ≡ ok z) × (integer_value z ≡ some v)

  add_fixnums-exact :
      (x y : Fixnum) → integer_value (add_fixnums x y) ≡ some (get_num x +ℤ get_num y)
  unfolding add_fixnums
  add_fixnums-exact x y =
      integer_value-or_big (get_num x +ℤ get_num y) (a.int_add (int_of x) (int_of y))
        (rw (a.value-add (int_of x) (int_of y), value-int_of x, value-int_of y) refl)

  mul_fixnums-exact :
      (x y : Fixnum) → integer_value (mul_fixnums x y) ≡ some (get_num x *ℤ get_num y)
  unfolding mul_fixnums
  mul_fixnums-exact x y =
      integer_value-or_big (get_num x *ℤ get_num y) (a.int_mul (int_of x) (int_of y))
        (rw (a.value-mul (int_of x) (int_of y), value-int_of x, value-int_of y) refl)

  pub some_eq : (u v : ℤ) → some u ≡ some v → u ≡ v
  some_eq u v h = cc

  sum_of :
      (i j : n.Integer) (u v : ℤ)
      → a.value i ≡ u
      → a.value j ≡ v
      → integer_value (integer (a.int_add i j)) ≡ some (u +ℤ v)
  sum_of i j u v e f =
      integer_value-integer (a.int_add i j) (u +ℤ v) (a.value-add i j ∙ (rw (e, f) refl))

  product_of :
      (i j : n.Integer) (u v : ℤ)
      → a.value i ≡ u
      → a.value j ≡ v
      → integer_value (integer (a.int_mul i j)) ≡ some (u *ℤ v)
  product_of i j u v e f =
      integer_value-integer (a.int_mul i j) (u *ℤ v) (a.value-mul i j ∙ (rw (e, f) refl))

  -- The sum of two integers, fixnums or not, is an integer, and exact: no overflow is lost.
  pub add-exact :
      (x y : Number) (u v : ℤ)
      → integer_value x ≡ some u
      → integer_value y ≡ some v
      → Gives (add x y) (u +ℤ v)
  unfolding add integer_value
  add-exact (fixnum x) (fixnum y) u v e f =
      (_, refl, rw (← some_eq _ u e, ← some_eq _ v f) (add_fixnums-exact x y))
  add-exact (fixnum x) (integer j) u v e f =
      (_, refl, sum_of (int_of x) j u v (value-int_of x ∙ some_eq _ u e) (some_eq _ v f))
  add-exact (integer i) (fixnum y) u v e f = (
    _,
    refl,
    sum_of (int_of y) i v u (value-int_of y ∙ some_eq _ v f) (some_eq _ u e)
        ∙ ap some (+ℤ_comm v u),
  )
  add-exact (integer i) (integer j) u v e f =
      (_, refl, sum_of i j u v (some_eq _ u e) (some_eq _ v f))
  add-exact (float _) y u v e f = cc
  add-exact (rational _) y u v e f = cc
  add-exact (fixnum x) (float _) u v e f = cc
  add-exact (fixnum x) (rational _) u v e f = cc
  add-exact (integer x) (float _) u v e f = cc
  add-exact (integer x) (rational _) u v e f = cc

  -- The product of two integers, fixnums or not, is an integer, and exact.
  pub mul-exact :
      (x y : Number) (u v : ℤ)
      → integer_value x ≡ some u
      → integer_value y ≡ some v
      → Gives (mul x y) (u *ℤ v)
  unfolding mul integer_value
  mul-exact (fixnum x) (fixnum y) u v e f =
      (_, refl, rw (← some_eq _ u e, ← some_eq _ v f) (mul_fixnums-exact x y))
  mul-exact (fixnum x) (integer j) u v e f =
      (_, refl, product_of (int_of x) j u v (value-int_of x ∙ some_eq _ u e) (some_eq _ v f))
  mul-exact (integer i) (fixnum y) u v e f = (
    _,
    refl,
    product_of (int_of y) i v u (value-int_of y ∙ some_eq _ v f) (some_eq _ u e)
        ∙ ap some (*ℤ_comm v u),
  )
  mul-exact (integer i) (integer j) u v e f =
      (_, refl, product_of i j u v (some_eq _ u e) (some_eq _ v f))
  mul-exact (float _) y u v e f = cc
  mul-exact (rational _) y u v e f = cc
  mul-exact (fixnum x) (float _) u v e f = cc
  mul-exact (fixnum x) (rational _) u v e f = cc
  mul-exact (integer x) (float _) u v e f = cc
  mul-exact (integer x) (rational _) u v e f = cc

  -- The negation of an integer is exact, at the smallest fixnum too.
  pub neg-exact :
      (x : Number) (u : ℤ) → integer_value x ≡ some u → integer_value (neg x) ≡ some (neg_ℤ u)
  unfolding neg integer_value
  neg-exact (fixnum x) u e = rw (← some_eq _ u e) (
      integer_value-or_big (neg_ℤ (get_num x)) (n.int_neg (int_of x))
        (a.value-neg (int_of x) ∙ ap neg_ℤ (value-int_of x)))
  neg-exact (integer i) u e = rw (← some_eq _ u e) (ap some (a.value-neg i))
  neg-exact _ u e = cc

  -- The difference of two integers is exact.
  pub sub-exact :
      (x y : Number) (u v : ℤ)
      → integer_value x ≡ some u
      → integer_value y ≡ some v
      → Gives (sub x y) (u +ℤ neg_ℤ v)
  unfolding sub
  sub-exact x y u v e f = add-exact x (neg y) u (neg_ℤ v) e (neg-exact y v f)

  abs_i64-nat_abs : (v : ℤ) → abs_i64 v ≡ pos (nat_abs v)
  abs_i64-nat_abs (pos k) = refl
  abs_i64-nat_abs (negsuc k) = ap pos (omega arith)

  -- Only -2^55 has an absolute value that is no fixnum.
  past_max : (v : ℤ) → in_range v ≡ true → in_range (pos (nat_abs v)) ≡ false → nat_abs v ≡ 2 ^ 55
  unfolding in_range
  past_max (pos k) h g = absurd (ground arith)
  past_max (negsuc k) h g = ground arith

  abs_fixnum :
      (v : ℤ)
      → in_range v ≡ true
      → integer_value (or_past_max (build_with_checked (pos (nat_abs v)))) ≡ some (pos (nat_abs v))
  unfolding integer_value
  abs_fixnum v h = elim (build_with_checked_lem (pos (nat_abs v))) [
    | inl (range, built, read) ↦ rw built (ap some read)
    | inr (range, refused) ↦
        rw refused (ap some (a.value-from (pos (2 ^ 55)) ∙ ap pos (sym (past_max v h range))))
  ]

  -- The absolute value of an integer is exact, at the smallest fixnum too.
  pub abs-exact :
      (x : Number) (u : ℤ)
      → integer_value x ≡ some u
      → integer_value (abs x) ≡ some (pos (nat_abs u))
  unfolding abs integer_value checked_abs
  abs-exact (fixnum x) u e =
      rw (← some_eq _ u e, abs_i64-nat_abs (get_num x)) (abs_fixnum (get_num x) (get_num-InRange x))
  abs-exact (integer i) u e = rw (← some_eq _ u e) (ap some (a.value-abs i))
  abs-exact _ u e = cc

  -- On two integers, fixnums or not, the sum, the difference, the product, the negation and the
  -- absolute value are those of the integers: an overflow of the machine words changes the
  -- representation of the result, not its value.
  pub ring-exact :
      (x y : Number) (u v : ℤ)
      → integer_value x ≡ some u
      → integer_value y ≡ some v
      → Gives (add x y) (u +ℤ v)
        × Gives (sub x y) (u +ℤ neg_ℤ v)
        × Gives (mul x y) (u *ℤ v)
        × (integer_value (neg x) ≡ some (neg_ℤ u))
        × (integer_value (abs x) ≡ some (pos (nat_abs u)))
  ring-exact x y u v e f = (
    add-exact x y u v e f,
    sub-exact x y u v e f,
    mul-exact x y u v e f,
    neg-exact x u e,
    abs-exact x u e,
  )
