-- ===== src/Arithmetic/Division/Floor.antt =====
-- `int_floor_div` of src/machine/arithmetic_ops.rs: a subtraction and a division that is exact.
use contrib_scryer_prolog.Base.{◌≡◌, ◌∙◌, ap, false, some, arith}
use contrib_scryer_prolog.Base.Int.{
  ℤ, neg_ℤ, is_zero, ◌+ℤ◌, ◌*ℤ◌, div_ℤ, rem_ℤ, mod_floor, eq_of_parts, +ℤ_parts, neg_ℤ_parts,
}
use contrib_scryer_prolog.Base.Int.Division.{div_floor, div_floor-mod_floor, div_ℤ-*ℤ}
use contrib_scryer_prolog.Numerics.{Numerics}
use contrib_scryer_prolog.Arithmetic.Interface.{Arithmetic}
use contrib_scryer_prolog.Arithmetic.Number.{Number, integer_value, ok}
use contrib_scryer_prolog.Arithmetic.Sum.{sub}
use contrib_scryer_prolog.Arithmetic.Sum.Exact.{sub-exact}
use contrib_scryer_prolog.Arithmetic.Division.{int_floor_div, modulus, idiv, remainder}
use contrib_scryer_prolog.Arithmetic.Division.Exact.{
  Yields, modulus-exact, idiv-exact, remainder-exact,
}

undo : (p m : ℤ) → p +ℤ m +ℤ neg_ℤ m ≡ p
undo p m =
    eq_of_parts (p +ℤ m +ℤ neg_ℤ m) p
      (omega (arith, +ℤ_parts p m, +ℤ_parts (p +ℤ m) (neg_ℤ m), neg_ℤ_parts m))

without_rest : (u m p : ℤ) → p +ℤ m ≡ u → u +ℤ neg_ℤ m ≡ p
without_rest u m p e = rw (← e) (undo p m)

floor_of_difference :
    (u v : ℤ) → is_zero v ≡ false → div_ℤ (u +ℤ neg_ℤ (mod_floor u v)) v ≡ div_floor u v
floor_of_difference u v h =
    rw (without_rest u (mod_floor u v) (div_floor u v *ℤ v) (div_floor-mod_floor u v h))
      (div_ℤ-*ℤ (div_floor u v) v h)

module _ ⦃n : Numerics⦄ ⦃a : Arithmetic⦄ where
  three_steps :
      (x y m d z : Number)
      → modulus x y ≡ ok m
      → sub x m ≡ ok d
      → idiv d y ≡ ok z
      → int_floor_div x y ≡ ok z
  unfolding int_floor_div
  three_steps x y m d z e f g = rw (e, f) g

  -- `div` of two integers by one that is not zero is the quotient rounded down.
  pub int_floor_div-exact :
      (x y : Number) (u v : ℤ)
      → integer_value x ≡ some u
      → integer_value y ≡ some v
      → is_zero v ≡ false
      → Yields (int_floor_div x y) (div_floor u v)
  int_floor_div-exact x y u v e f h =
      let (m, by_mod, m_lem) = modulus-exact x y u v e f h in
      let (d, by_sub, d_lem) = sub-exact x m u (mod_floor u v) e m_lem in
      let (z, by_idiv, z_lem) = idiv-exact d y (u +ℤ neg_ℤ (mod_floor u v)) v d_lem f h in
      (z, three_steps x y m d z by_mod by_sub by_idiv, z_lem ∙ ap some (floor_of_difference u v h))

  -- On two integers, fixnums or not, of which the second is not zero: `//` rounds towards zero, `rem`
  -- has the sign of the dividend, `mod` has the sign of the divisor, and `div`, which subtracts the
  -- `mod` and divides, rounds down. The results are exact, the quotient of the smallest machine word
  -- by -1 included.
  pub division-exact :
      (x y : Number) (u v : ℤ)
      → integer_value x ≡ some u
      → integer_value y ≡ some v
      → is_zero v ≡ false
      → Yields (idiv x y) (div_ℤ u v)
        × Yields (remainder x y) (rem_ℤ u v)
        × Yields (modulus x y) (mod_floor u v)
        × Yields (int_floor_div x y) (div_floor u v)
  division-exact x y u v e f h = (
    idiv-exact x y u v e f h,
    remainder-exact x y u v e f h,
    modulus-exact x y u v e f h,
    int_floor_div-exact x y u v e f h,
  )
