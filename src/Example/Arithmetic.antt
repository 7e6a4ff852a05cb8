-- ===== src/Example/Arithmetic.antt =====
-- A concrete environment for arithmetic: an integer stands for itself, a rational is a numerator
-- over a denominator that need not be reduced, and no float is computed with.
pub mod Tests
use Prim.Native.Nat.{bit_and, bit_or, bit_xor}
use contrib_scryer_prolog.Base.{
  ℕ, List, [], ◌+◌, ◌*◌, ◌/◌, ◌%◌, ◌^◌, ◌<◌, ◌≡◌, refl, sym, ap, Bool, true, false, not, Option,
  none, some, ◌==◌, if◌then◌else◌,
}
use contrib_scryer_prolog.Base.Int.{
  ℤ, pos, negsuc, neg_ℤ, ◌+ℤ◌, ◌*ℤ◌, div_ℤ, rem_ℤ, mod_floor, residue, nat_abs, is_zero, is_neg,
}
use contrib_scryer_prolog.Base.Int.Division.{div_floor}
use contrib_scryer_prolog.Arithmetic.Interface.{
  Arithmetic, Order, less, same, greater, FloatFn, FpCategory, fp_normal,
}
use contrib_scryer_prolog.Arithmetic.Bitwise.{on_bits}
use contrib_scryer_prolog.Arithmetic.Gcd.{binary_gcd}
use contrib_scryer_prolog.Arithmetic.Order.{compare_ℤ}
use contrib_scryer_prolog.Example.{decimal_numerics}

abbrev pub rat_difference : ℤ × ℕ → ℤ × ℕ → Order
unfolding compare_ℤ ◌*ℤ◌
rat_difference q r = compare_ℤ (q.0 *ℤ pos r.1) (r.0 *ℤ pos q.1)

abbrev pub rat_quotient : ℤ × ℕ → ℤ × ℕ → ℤ × ℕ
unfolding ◌*ℤ◌
rat_quotient q (pos k, m) = (q.0 *ℤ pos m, q.1 * k)
rat_quotient q (negsuc k, m) = (neg_ℤ (q.0 *ℤ pos m), q.1 * (k + 1))

instance abbrev pub plain_arithmetic : Arithmetic
unfolding decimal_numerics
plain_arithmetic = record {
  value = λ v. v;
  int_add = λ i j. i +ℤ j;
  int_mul = λ i j. i *ℤ j;
  int_div = div_ℤ;
  int_rem = rem_ℤ;
  int_and = on_bits bit_and;
  int_or = on_bits bit_or;
  int_xor = on_bits bit_xor;
  int_not = λ i. neg_ℤ i +ℤ negsuc 0;
  int_gcd = λ i j. pos (binary_gcd (nat_abs i) (nat_abs j));
  int_abs = λ i. pos (nat_abs i);
  int_square = λ i. i *ℤ i;
  int_shl = λ i k. i *ℤ pos (2 ^ k);
  int_shr = λ i k. div_floor i (pos (2 ^ k));
  int_residue = λ i k. pos (residue i k);
  rem_floor = mod_floor;
  rat_from = λ i. (i, 1);
  rat_add = λ q r. (q.0 *ℤ pos r.1 +ℤ r.0 *ℤ pos q.1, q.1 * r.1);
  rat_mul = λ q r. (q.0 *ℤ r.0, q.1 * r.1);
  rat_div = rat_quotient;
  rat_abs = λ q. (pos (nat_abs q.0), q.1);
  rat_floor = λ q. div_floor q.0 (pos q.1);
  rat_round = λ q. div_floor (q.0 *ℤ pos 2 +ℤ pos q.1) (pos (2 * q.1));
  rat_compare = rat_difference;
  int_rat_compare = λ i r. some (rat_difference (i, 1) r);
  rat_int_compare = λ q j. some (rat_difference q (j, 1));
  rat_is_zero = λ q. is_zero q.0;
  rat_is_positive = λ q. is_neg (neg_ℤ q.0);
  rat_is_negative = λ q. is_neg q.0;
  rat_of_float = λ f. none;
  f64_of_i64 = λ v. (is_neg v, []);
  f64_of_int = λ v. (is_neg v, []);
  f64_of_rat = λ q. (is_neg q.0, []);
  i64_of_f64 = λ f. pos 0;
  int_of_f64 = λ f. pos 0;
  classify = λ f. fp_normal;
  is_max = λ f. false;
  f64_add = λ f g. f;
  f64_mul = λ f g. f;
  f64_div = λ f g. f;
  f64_abs = λ f. (false, f.1);
  f64_floor = λ f. f;
  f64_round = λ f. f;
  f64_signum = λ f. f;
  f64_pow = λ f g. f;
  f64_atan2 = λ f g. f;
  f64_fn = λ name f. f;
  f64_eq = λ f g. false;
  f64_compare = λ f g. same;
  f64_sign_negative = λ f. f.0;
  f64_zero = (false, []);
  f64_pi = (false, []);
  f64_e = (false, []);
  f64_epsilon = (false, []);
  value-from = λ v. refl;
  value-neg = λ i. refl;
  value-add = λ i j. refl;
  value-mul = λ i j. refl;
  value-square = λ i. refl;
  value-div = λ i j h. refl;
  value-rem = λ i j h. refl;
  value-abs = λ i. refl;
  value-residue = λ i k h. refl;
  rem_floor_lem = λ i j h. refl;
  value-shl = λ i k. refl;
  value-shr = λ i k. refl;
}
