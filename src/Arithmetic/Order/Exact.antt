-- ===== src/Arithmetic/Order/Exact.antt =====
-- The order of src/arithmetic.rs, and `max` and `min` of src/machine/arithmetic_ops.rs, on integers.
use contrib_scryer_prolog.Base.{◌≡◌, refl, ◌∙◌, ap, Bool, true, false, some, arith, if◌then◌else◌}
use contrib_scryer_prolog.Base.Int.{ℤ, ltb_ℤ}
use contrib_scryer_prolog.Numerics.{Numerics}
use contrib_scryer_prolog.Ast.Fixnum.{get_num}
use contrib_scryer_prolog.Arithmetic.Interface.{Arithmetic}
use contrib_scryer_prolog.Arithmetic.Number.{
  Number, float, integer, rational, fixnum, integer_value, ok,
}
use contrib_scryer_prolog.Arithmetic.Sum.Exact.{some_eq, value-int_of}
use contrib_scryer_prolog.Arithmetic.Division.Exact.{Yields}
use contrib_scryer_prolog.Arithmetic.Order.{cmp, max, min, compare_ℤ}

-- The larger and the smaller of two integers.
abbrev pub larger : ℤ → ℤ → ℤ
larger u v = if ltb_ℤ u v then v else u

abbrev pub smaller : ℤ → ℤ → ℤ
smaller u v = if ltb_ℤ v u then v else u

larger_comm : (u v : ℤ) → larger u v ≡ larger v u
larger_comm u v = ground arith

smaller_comm : (u v : ℤ) → smaller u v ≡ smaller v u
smaller_comm u v = ground arith

module _ ⦃n : Numerics⦄ ⦃a : Arithmetic⦄ where
  chosen :
      (b : Bool) (x y : Number) (u v : ℤ)
      → integer_value x ≡ some u
      → integer_value y ≡ some v
      → integer_value (if b then x else y) ≡ some (if b then u else v)
  chosen true x y u v e f = e
  chosen false x y u v e f = f

  decided :
      (b : Bool) (x y : Number) (u v w : ℤ)
      → integer_value x ≡ some u
      → integer_value y ≡ some v
      → (if b then u else v) ≡ w
      → Yields (ok (if b then x else y)) w
  decided b x y u v w e f h = (_, refl, chosen b x y u v e f ∙ ap some h)

  max-exact :
      (x y : Number) (u v : ℤ)
      → integer_value x ≡ some u
      → integer_value y ≡ some v
      → Yields (max x y) (larger u v)
  unfolding max integer_value
  max-exact (fixnum x) (fixnum y) u v e f =
      decided (ltb_ℤ (get_num y) (get_num x)) (fixnum x) (fixnum y) u v (larger u v) e f
        (rw (some_eq _ u e, some_eq _ v f) (larger_comm v u))
  max-exact (fixnum x) (integer j) u v e f =
      decided (ltb_ℤ (get_num x) (a.value j)) (integer j) (fixnum x) v u (larger u v) f e
        (rw (some_eq _ u e, some_eq _ v f) (refl))
  max-exact (integer i) (fixnum y) u v e f =
      decided (ltb_ℤ (get_num y) (a.value i)) (integer i) (fixnum y) u v (larger u v) e f
        (rw (some_eq _ u e, some_eq _ v f) (larger_comm v u))
  max-exact (integer i) (integer j) u v e f =
      decided (ltb_ℤ (a.value j) (a.value i)) (integer i) (integer j) u v (larger u v) e f
        (rw (some_eq _ u e, some_eq _ v f) (larger_comm v u))
  max-exact (float _) y u v e f = cc
  max-exact (rational _) y u v e f = cc
  max-exact (fixnum x) (float _) u v e f = cc
  max-exact (fixnum x) (rational _) u v e f = cc
  max-exact (integer x) (float _) u v e f = cc
  max-exact (integer x) (rational _) u v e f = cc

  min-exact :
      (x y : Number) (u v : ℤ)
      → integer_value x ≡ some u
      → integer_value y ≡ some v
      → Yields (min x y) (smaller u v)
  unfolding min integer_value
  min-exact (fixnum x) (fixnum y) u v e f =
      decided (ltb_ℤ (get_num x) (get_num y)) (fixnum x) (fixnum y) u v (smaller u v) e f
        (rw (some_eq _ u e, some_eq _ v f) (smaller_comm v u))
  min-exact (fixnum x) (integer j) u v e f =
      decided (ltb_ℤ (a.value j) (get_num x)) (integer j) (fixnum x) v u (smaller u v) f e
        (rw (some_eq _ u e, some_eq _ v f) (refl))
  min-exact (integer i) (fixnum y) u v e f =
      decided (ltb_ℤ (a.value i) (get_num y)) (integer i) (fixnum y) u v (smaller u v) e f
        (rw (some_eq _ u e, some_eq _ v f) (smaller_comm v u))
  min-exact (integer i) (integer j) u v e f =
      decided (ltb_ℤ (a.value j) (a.value i)) (integer j) (integer i) v u (smaller u v) f e
        (rw (some_eq _ u e, some_eq _ v f) (refl))
  min-exact (float _) y u v e f = cc
  min-exact (rational _) y u v e f = cc
  min-exact (fixnum x) (float _) u v e f = cc
  min-exact (fixnum x) (rational _) u v e f = cc
  min-exact (integer x) (float _) u v e f = cc
  min-exact (integer x) (rational _) u v e f = cc

  cmp-exact :
      (x y : Number) (u v : ℤ)
      → integer_value x ≡ some u
      → integer_value y ≡ some v
      → cmp x y ≡ compare_ℤ u v
  unfolding cmp integer_value
  cmp-exact (fixnum x) (fixnum y) u v e f = rw (some_eq _ u e, some_eq _ v f) refl
  cmp-exact (fixnum x) (integer j) u v e f = rw (value-int_of x, some_eq _ u e, some_eq _ v f) refl
  cmp-exact (integer i) (fixnum y) u v e f = rw (value-int_of y, some_eq _ u e, some_eq _ v f) refl
  cmp-exact (integer i) (integer j) u v e f = rw (some_eq _ u e, some_eq _ v f) refl
  cmp-exact (float _) y u v e f = cc
  cmp-exact (rational _) y u v e f = cc
  cmp-exact (fixnum x) (float _) u v e f = cc
  cmp-exact (fixnum x) (rational _) u v e f = cc
  cmp-exact (integer x) (float _) u v e f = cc
  cmp-exact (integer x) (rational _) u v e f = cc

  -- Two integers in any representation are compared by the integers they stand for, and `max` and
  -- `min` give the larger and the smaller one.
  pub order-exact :
      (x y : Number) (u v : ℤ)
      → integer_value x ≡ some u
      → integer_value y ≡ some v
      → (cmp x y ≡ compare_ℤ u v) × Yields (max x y) (larger u v) × Yields (min x y) (smaller u v)
  order-exact x y u v e f = (cmp-exact x y u v e f, max-exact x y u v e f, min-exact x y u v e f)
