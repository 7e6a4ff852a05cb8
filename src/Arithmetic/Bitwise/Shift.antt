-- ===== src/Arithmetic/Bitwise/Shift.antt =====
-- The shifts of src/machine/arithmetic_ops.rs against products and quotients by powers of two.
use native.Mathlib.Numerals.{unary_clauses}
use contrib_scryer_prolog.Base.{
  ℕ, zero, suc, ◌≡◌, refl, sym, ◌∙◌, ap, Bool, true, false, Option, some, none, inl, inr, arith,
  Bool-cases, ◌+◌, ◌-◌, ◌*◌, ◌^◌, ◌≤◌, ◌<◌, ◌==◌, ltb, ◌&&◌, if◌then◌else◌,
}
use contrib_scryer_prolog.Base.Int.{ℤ, pos, negsuc, neg_ℤ, is_neg, ◌*ℤ◌, pos-*ℤ, negsuc-*ℤ-pos}
use contrib_scryer_prolog.Base.Int.Division.{div_floor}
use contrib_scryer_prolog.Numerics.{Numerics}
use contrib_scryer_prolog.Ast.Fixnum.{get_num}
use contrib_scryer_prolog.Arithmetic.Interface.{Arithmetic}
use contrib_scryer_prolog.Arithmetic.Number.{
  Number, float, integer, rational, fixnum, is_integer, is_negative, integer_value, checked, int_of,
}
use contrib_scryer_prolog.Arithmetic.Sum.{neg}
use contrib_scryer_prolog.Arithmetic.Sum.Exact.{
  some_eq, integer_value-from_i64, integer_value-integer, value-int_of, neg-exact,
}
use contrib_scryer_prolog.Arithmetic.Division.Exact.{Yields}
use contrib_scryer_prolog.Arithmetic.Bitwise.{
  shl_i64, checked_shl, checked_signed_shl, then_neg, shift_toward, shr, shl, shift_left,
  shift_right, shift_by, shl_by, or_big_shl, amount, clamp_to, shr_or_zero, shr_i64, Direction,
  leftward, rightward, opposite,
}

two_powers : (j k : ℕ) → 2 ^ j * 2 ^ k ≡ 2 ^ (j + k)
two_powers j zero = simp unary_clauses (omega arith)
two_powers j (suc k) = simp unary_clauses (grind (arith, two_powers j k))

-- A number that leaves room for the shift stays below the sign bit, so no bit of it is dropped.
room : (x k : ℕ) → k < 64 → x < 2 ^ (63 - k) → x * 2 ^ k < 2 ^ 63
room x k h g =
    let whole : 2 ^ (63 - k) * 2 ^ k ≡ 2 ^ 63 =
      two_powers (63 - k) k ∙ ap (λ m. 2 ^ m) {x = 63 - k + k} {y = 63} (omega arith) in
    grind (arith, whole)

shl_i64_lem : (x k : ℕ) → (ltb k 64 && ltb x (2 ^ (63 - k))) ≡ true → shl_i64 x k ≡ pos (x * 2 ^ k)
shl_i64_lem x k h = let small = room x k (ground arith) (ground arith) in ground (arith, small)

guarded : (b : Bool) (o : Option ℤ) (w : ℤ) → (if b then o else none) ≡ some w → o ≡ some w
guarded true o w e = e
guarded false o w e = cc

equal : (u v : ℤ) → some u ≡ some v → v ≡ u
equal u v e = cc

within : (b : Bool) (u w : ℤ) → (if b then some u else none) ≡ some w → (b ≡ true) × (w ≡ u)
within true u w e = (refl, equal u w e)
within false u w e = cc

not_by_zero : (k : ℕ) → (suc k == 0) ≡ false
not_by_zero k = ground arith

-- The `else` of a test for a shift by 0.
otherwise : (k : ℕ) (p o : Option ℤ) (w : ℤ) → (if suc k == 0 then p else o) ≡ some w → o ≡ some w
otherwise k p o w e = rw (not_by_zero k) at e

checked_shl_lem : (x k : ℕ) (w : ℤ) → checked_shl x k ≡ some w → w ≡ pos (x * 2 ^ k)
unfolding checked_shl
checked_shl_lem x zero w e = grind arith
checked_shl_lem x (suc k) w e =
    let (h, v) = within _ _ w (otherwise k (some (pos x)) _ w e) in v ∙ shl_i64_lem x (suc k) h

then_neg_lem :
    (o : Option ℤ) (w m : ℤ) → ((v : ℤ) → o ≡ some v → v ≡ m) → then_neg o ≡ some w → w ≡ neg_ℤ m
unfolding then_neg checked
then_neg_lem none w m h e = cc
then_neg_lem (some v) w m h e = equal _ w (guarded _ _ w e) ∙ ap neg_ℤ (h v refl)

shift_none : (x : ℕ) → negsuc x ≡ neg_ℤ (pos (suc x * 2 ^ 0))
shift_none x = ap (λ m. neg_ℤ (pos m)) {x = suc x} {y = suc x * 2 ^ 0} (omega arith)

-- The checked shift of a machine integer is the product by a power of two, where it gives a result.
pub checked_signed_shl_lem :
    (v : ℤ) (k : ℕ) (w : ℤ) → checked_signed_shl v k ≡ some w → w ≡ v *ℤ pos (2 ^ k)
unfolding checked_signed_shl
checked_signed_shl_lem (pos x) k w e = checked_shl_lem x k w e ∙ sym (pos-*ℤ x (2 ^ k))
checked_signed_shl_lem (negsuc x) zero w e =
    rw (negsuc-*ℤ-pos x (2 ^ 0)) (equal _ w e ∙ shift_none x)
checked_signed_shl_lem (negsuc x) (suc k) w e =
    then_neg_lem (checked_shl (suc x) (suc k)) w (pos (suc x * 2 ^ suc k))
      (checked_shl_lem (suc x) (suc k))
      (guarded (ltb (suc x) (2 ^ 63)) (then_neg (checked_shl (suc x) (suc k))) w
        (otherwise k (some (negsuc x)) _ w e))
    ∙ sym (negsuc-*ℤ-pos x (2 ^ suc k))

-- Rounding down by a power of two.
shr_i64_lem : (v : ℤ) (k : ℕ) → shr_i64 v k ≡ div_floor v (pos (2 ^ k))
unfolding div_floor
shr_i64_lem (pos m) k = refl
shr_i64_lem (negsuc m) k = refl

shr_or_zero_lem :
    (v u : ℤ) (k : ℕ)
    → v ≡ u
    → shr_or_zero v k ≡ (if ltb k 64 then div_floor u (pos (2 ^ k)) else pos 0)
shr_or_zero_lem v u k e = rw (shr_i64_lem v k, e) refl

module _ ⦃n : Numerics⦄ ⦃a : Arithmetic⦄ where
  value-or_big_shl :
      (o : Option ℤ) (v : ℤ) (big : n.Integer)
      → ((w : ℤ) → o ≡ some w → w ≡ v)
      → a.value big ≡ v
      → integer_value (or_big_shl o big) ≡ some v
  unfolding or_big_shl
  value-or_big_shl (some w) v big h e = integer_value-from_i64 w ∙ ap some (h w refl)
  value-or_big_shl none v big h e = integer_value-integer big v e

  shl_by-exact :
      (x : Number) (u : ℤ) (k : ℕ)
      → integer_value x ≡ some u
      → Yields (shl_by x k) (u *ℤ pos (2 ^ k))
  unfolding integer_value shl_by
  shl_by-exact (fixnum x) u k e = (
    _,
    refl,
    rw (← some_eq _ u e) (
        value-or_big_shl (checked_signed_shl (get_num x) k) (get_num x *ℤ pos (2 ^ k))
          (a.int_shl (int_of x) k) (checked_signed_shl_lem (get_num x) k)
          (a.value-shl (int_of x) k ∙ ap (λ v. v *ℤ pos (2 ^ k)) (value-int_of x))),
  )
  shl_by-exact (integer i) u k e = (
    _,
    refl,
    integer_value-integer _ _ (a.value-shl i k ∙ ap (λ v. v *ℤ pos (2 ^ k)) (some_eq _ u e)),
  )
  shl_by-exact (float _) u k e = cc
  shl_by-exact (rational _) u k e = cc

  clamp : (max k : ℕ) → k ≤ max → clamp_to max (pos k) ≡ k
  clamp max k h = ground arith

  amount_lem :
      (max k : ℕ) (y : Number) → integer_value y ≡ some (pos k) → k ≤ max → amount max y ≡ some k
  unfolding integer_value
  amount_lem max k (fixnum y) e h =
      ap (λ v. some (clamp_to max v)) (some_eq _ _ e) ∙ ap some (clamp max k h)
  amount_lem max k (integer j) e h =
      ap (λ v. some (clamp_to max v)) (some_eq _ _ e) ∙ ap some (clamp max k h)
  amount_lem max k (float _) e h = cc
  amount_lem max k (rational _) e h = cc

  -- A shift to the left is the product by a power of two, whatever the size of the result, for a
  -- shift that a machine word can hold.
  pub shift_left-exact :
      (x y : Number) (u : ℤ) (k : ℕ)
      → integer_value x ≡ some u
      → integer_value y ≡ some (pos k)
      → k < 2 ^ 64
      → Yields (shift_left x y) (u *ℤ pos (2 ^ k))
  unfolding shift_left
  shift_left-exact x y u k e f h =
      rw (amount_lem (2 ^ 64 - 1) k y f (omega arith)) (shl_by-exact x u k e)

  -- The value of a fixnum or a big integer shifted to the right.
  abbrev pub shifted_right : Number → ℤ → ℕ → ℤ
  shifted_right (fixnum x) u k = if ltb k 64 then div_floor u (pos (2 ^ k)) else pos 0
  shifted_right _ u k = div_floor u (pos (2 ^ k))

  -- A shift to the right by less than 2^32 rounds the quotient by a power of two down, but a fixnum
  -- that is shifted by 64 or more becomes 0, also where it is negative.
  pub shift_right-exact :
      (x y : Number) (u : ℤ) (k : ℕ)
      → integer_value x ≡ some u
      → integer_value y ≡ some (pos k)
      → k < 2 ^ 32
      → Yields (shift_right x y) (shifted_right x u k)
  unfolding shift_right integer_value
  shift_right-exact (fixnum x) y u k e f h = rw (amount_lem (2 ^ 32 - 1) k y f (omega arith)) (
    _,
    refl,
    integer_value-from_i64 (shr_or_zero (get_num x) k)
        ∙ ap some (shr_or_zero_lem (get_num x) u k (some_eq _ u e)),
  )
  shift_right-exact (integer i) y u k e f h = rw (amount_lem (2 ^ 64 - 1) k y f (omega arith)) (
    _,
    refl,
    integer_value-integer _ _
        (a.value-shr i k ∙ ap (λ v. div_floor v (pos (2 ^ k))) (some_eq _ u e)),
  )
  shift_right-exact (float _) y u k e f h = cc
  shift_right-exact (rational _) y u k e f h = cc

  below : (v : ℤ) → is_neg v ≡ true → (k : ℕ) × (some v ≡ some (negsuc k))
  below (pos k) h = cc
  below (negsuc k) h = (k, refl)

  pub negative_value :
      (y : Number)
      → (is_integer y && is_negative y) ≡ true
      → (k : ℕ) × (integer_value y ≡ some (negsuc k))
  unfolding is_integer is_negative integer_value
  negative_value (fixnum y) h = below (get_num y) h
  negative_value (integer j) h = below (a.value j) h
  negative_value (float _) h = cc
  negative_value (rational _) h = cc

  positive : (y : Number) (k : ℕ) → integer_value y ≡ some (pos k) → is_negative y ≡ false
  unfolding is_negative integer_value
  positive (fixnum y) k h = ap is_neg (some_eq _ _ h)
  positive (integer j) k h = ap is_neg (some_eq _ _ h)
  positive (float _) k h = cc
  positive (rational _) k h = cc

  calls_other :
      (calls : ℕ) (d : Direction) (x y : Number)
      → (is_integer y && is_negative y) ≡ true
      → shift_toward (suc calls) d x y ≡ shift_toward calls (opposite d) x (neg y)
  unfolding shift_toward
  calls_other calls d x y h = rw (h, shift_toward) refl

  shifts :
      (calls : ℕ) (d : Direction) (x y : Number)
      → (is_integer y && is_negative y) ≡ false
      → shift_toward (suc calls) d x y ≡ some (shift_by d x y)
  unfolding shift_toward
  shifts calls d x y h = rw (h, shift_toward) refl

  not_again :
      (y : Number)
      → (is_integer y && is_negative y) ≡ true
      → (is_integer (neg y) && is_negative (neg y)) ≡ false
  not_again y h =
      let (k, e) = negative_value y h in
      stays (is_integer (neg y)) (is_negative (neg y))
        (positive (neg y) (suc k) (neg-exact y (negsuc k) e))
    where
      stays : (b c : Bool) → c ≡ false → (b && c) ≡ false
      stays true c e = e
      stays false c e = refl

  turned :
      (d : Direction) (x y : Number)
      → (is_integer y && is_negative y) ≡ true
      → shift_toward 2 d x y ≡ some (shift_by (opposite d) x (neg y))
  turned d x y h = calls_other 1 d x y h ∙ shifts 0 (opposite d) x (neg y) (not_again y h)

  -- The mutual calls of `shr` and `shl` end, on every pair of numbers, at the second call at the
  -- latest, and a negative shift is the opposite shift by its negation.
  pub shr-shl :
      (x y : Number)
      → (shr x y
          ≡ some (if is_integer y && is_negative y then shift_left x (neg y) else shift_right x y))
        × (shl x y
            ≡ some
                (if is_integer y && is_negative y then shift_right x (neg y) else shift_left x y))
  unfolding shr shl
  shr-shl x y = elim (Bool-cases (is_integer y && is_negative y)) [
    | inl h ↦ rw h (turned rightward x y h, turned leftward x y h)
    | inr h ↦ rw h (shifts 1 rightward x y h, shifts 1 leftward x y h)
  ]
