-- ===== src/Arithmetic/Interface.antt =====
-- What arithmetic calls outside the repository: the integers and rationals of the `dashu` crate,
-- the floor remainder of `divrem`, and the floating point operations of the processor. The laws say
-- that the integers are exact, as `dashu` and `divrem` document.
use contrib_scryer_prolog.Base.{ℕ, ◌^◌, ◌<◌, ◌≡◌, Bool, false, Option}
use contrib_scryer_prolog.Base.Int.{
  ℤ, pos, neg_ℤ, ◌+ℤ◌, ◌*ℤ◌, div_ℤ, rem_ℤ, mod_floor, residue, nat_abs, is_zero,
}
use contrib_scryer_prolog.Base.Int.Division.{div_floor}
use contrib_scryer_prolog.Numerics.{Numerics}

pub data FpCategory : Type 0 where
  fp_nan fp_infinite fp_zero fp_subnormal fp_normal : FpCategory

-- `std::cmp::Ordering`
pub data Order : Type 0 where
  less same greater : Order

-- A function of one `f64`, by its name in Rust.
pub data FloatFn : Type 0 where
  sin_fn cos_fn tan_fn log_fn exp_fn asin_fn acos_fn atan_fn fract_fn trunc_fn sqrt_fn : FloatFn

module _ ⦃n : Numerics⦄ where
  pub record Arithmetic : Type 0 where
    -- The integer that an `Integer` stands for.
    pub value : n.Integer → ℤ
    pub int_add : n.Integer → n.Integer → n.Integer
    pub int_mul : n.Integer → n.Integer → n.Integer
    pub int_div : n.Integer → n.Integer → n.Integer
    pub int_rem : n.Integer → n.Integer → n.Integer
    pub int_and : n.Integer → n.Integer → n.Integer
    pub int_or : n.Integer → n.Integer → n.Integer
    pub int_xor : n.Integer → n.Integer → n.Integer
    pub int_not : n.Integer → n.Integer
    pub int_gcd : n.Integer → n.Integer → n.Integer
    pub int_abs : n.Integer → n.Integer
    -- `pow(2)`
    pub int_square : n.Integer → n.Integer
    pub int_shl : n.Integer → ℕ → n.Integer
    pub int_shr : n.Integer → ℕ → n.Integer
    -- `ConstDivisor::new(k).reduce(n).residue()`
    pub int_residue : n.Integer → ℕ → n.Integer
    -- `RemFloor::rem_floor` on `i64`
    pub rem_floor : ℤ → ℤ → ℤ
    pub rat_from : n.Integer → n.Rational
    pub rat_add : n.Rational → n.Rational → n.Rational
    pub rat_mul : n.Rational → n.Rational → n.Rational
    pub rat_div : n.Rational → n.Rational → n.Rational
    pub rat_abs : n.Rational → n.Rational
    pub rat_floor : n.Rational → n.Integer
    pub rat_round : n.Rational → n.Integer
    pub rat_compare : n.Rational → n.Rational → Order
    -- `num_partial_cmp` of an integer and a rational
    pub int_rat_compare : n.Integer → n.Rational → Option Order
    pub rat_int_compare : n.Rational → n.Integer → Option Order
    pub rat_is_zero : n.Rational → Bool
    pub rat_is_positive : n.Rational → Bool
    pub rat_is_negative : n.Rational → Bool
    -- `Rational::try_from`; `none` is an error
    pub rat_of_float : n.F64 → Option n.Rational
    pub f64_of_i64 : ℤ → n.F64
    pub f64_of_int : n.Integer → n.F64
    pub f64_of_rat : n.Rational → n.F64
    -- `f as i64` and `Integer::try_from(f)`, on a float that is a whole number
    pub i64_of_f64 : n.F64 → ℤ
    pub int_of_f64 : n.F64 → n.Integer
    pub classify : n.F64 → FpCategory
    pub is_max : n.F64 → Bool
    pub f64_add : n.F64 → n.F64 → n.F64
    pub f64_mul : n.F64 → n.F64 → n.F64
    pub f64_div : n.F64 → n.F64 → n.F64
    pub f64_abs : n.F64 → n.F64
    pub f64_floor : n.F64 → n.F64
    pub f64_round : n.F64 → n.F64
    pub f64_signum : n.F64 → n.F64
    pub f64_pow : n.F64 → n.F64 → n.F64
    pub f64_atan2 : n.F64 → n.F64 → n.F64
    pub f64_fn : FloatFn → n.F64 → n.F64
    -- `==` of `f64`, and the order of `OrderedFloat`
    pub f64_eq : n.F64 → n.F64 → Bool
    pub f64_compare : n.F64 → n.F64 → Order
    pub f64_sign_negative : n.F64 → Bool
    pub f64_zero : n.F64
    pub f64_pi : n.F64
    pub f64_e : n.F64
    pub f64_epsilon : n.F64
    pub value-from : (v : ℤ) → value (n.int_from v) ≡ v
    pub value-neg : (i : n.Integer) → value (n.int_neg i) ≡ neg_ℤ (value i)
    pub value-add : (i j : n.Integer) → value (int_add i j) ≡ value i +ℤ value j
    pub value-mul : (i j : n.Integer) → value (int_mul i j) ≡ value i *ℤ value j
    pub value-square : (i : n.Integer) → value (int_square i) ≡ value i *ℤ value i
    pub value-div :
        (i j : n.Integer)
        → is_zero (value j) ≡ false
        → value (int_div i j) ≡ div_ℤ (value i) (value j)
    pub value-rem :
        (i j : n.Integer)
        → is_zero (value j) ≡ false
        → value (int_rem i j) ≡ rem_ℤ (value i) (value j)
    pub value-abs : (i : n.Integer) → value (int_abs i) ≡ pos (nat_abs (value i))
    pub value-residue :
        (i : n.Integer) (k : ℕ) → 0 < k → value (int_residue i k) ≡ pos (residue (value i) k)
    pub rem_floor_lem : (a b : ℤ) → is_zero b ≡ false → rem_floor a b ≡ mod_floor a b
    pub value-shl : (i : n.Integer) (k : ℕ) → value (int_shl i k) ≡ value i *ℤ pos (2 ^ k)
    -- A shift to the right rounds down.
    pub value-shr :
        (i : n.Integer) (k : ℕ) → value (int_shr i k) ≡ div_floor (value i) (pos (2 ^ k))
