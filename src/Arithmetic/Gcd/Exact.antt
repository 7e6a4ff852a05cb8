-- ===== src/Arithmetic/Gcd/Exact.antt =====
-- `isize_gcd` and `gcd` of src/machine/arithmetic_ops.rs against divisibility.
use Prim.Native.Nat.{◌∣◌}
use mathlib.Core.Path.{subst}
use native.Mathlib.Nat
use contrib_scryer_prolog.Base.{
  ℕ, zero, suc, ◌≡◌, refl, sym, ◌∙◌, ap, Bool, true, false, ◌&&◌, some, inl, inr, arith, Bool-cases,
  ◌+◌, ◌-◌, ◌*◌, ◌/◌, ◌%◌, ◌^◌, ◌≤◌, ◌<◌, ◌==◌,
}
use contrib_scryer_prolog.Base.Int.{ℤ, pos, negsuc, nat_abs, is_zero}
use contrib_scryer_prolog.Numerics.{Numerics}
use contrib_scryer_prolog.Ast.Fixnum.{Fixnum, get_num, in_range}
use contrib_scryer_prolog.Ast.Fixnum.Range.{get_num-InRange}
use contrib_scryer_prolog.Arithmetic.Interface.{Arithmetic}
use contrib_scryer_prolog.Arithmetic.Number.{
  Number, fixnum, integer_value, ok, checked, in_i64, from_i64, or_big,
}
use contrib_scryer_prolog.Arithmetic.Sum.Exact.{integer_value-from_i64}
use contrib_scryer_prolog.Arithmetic.Bitwise.{i64_of_u64}
use contrib_scryer_prolog.Arithmetic.Gcd.{
  is_even, strip_twos, common_twos, min_of, max_of, subtract_loop, binary_gcd, isize_gcd, gcd,
}
use contrib_scryer_prolog.Arithmetic.Gcd.Divisors.{
  IsGcd, IsGcd-sym, IsGcd-refl, IsGcd-double, IsGcd-twice, IsGcd-difference, halved, odd_of_test,
}

strip_even : (fuel y : ℕ) → is_even y ≡ true → strip_twos (suc fuel) y ≡ strip_twos fuel (y / 2)
unfolding strip_twos
strip_even fuel y e = rw (e, strip_twos) refl

strip_odd : (fuel y : ℕ) → is_even y ≡ false → strip_twos fuel y ≡ y
unfolding strip_twos
strip_odd zero y e = refl
strip_odd (suc fuel) y e = rw (e, strip_twos) refl

-- With fuel for every factor of two, what is left of a number that is not zero is odd.
strip_twos-odd : (fuel y : ℕ) → 0 < y → y ≤ fuel → strip_twos fuel y % 2 ≡ 1
strip_twos-odd zero y p f = omega arith
strip_twos-odd (suc fuel) y p f = elim (Bool-cases (is_even y)) [
  | inl e ↦ rw (strip_even fuel y e) (strip_twos-odd fuel (y / 2) (halves y e p) (omega arith))
  | inr e ↦ rw (strip_odd (suc fuel) y e) (odd_of_test y e)
]
  where
    halves : (z : ℕ) → is_even z ≡ true → 0 < z → 0 < z / 2
    halves z e p = ground arith

strip_twos-le : (fuel y : ℕ) → strip_twos fuel y ≤ y
unfolding strip_twos
strip_twos-le zero y = omega arith
strip_twos-le (suc fuel) y = elim (Bool-cases (is_even y)) [
  | inl e ↦ rw (strip_even fuel y e) (let h = strip_twos-le fuel (y / 2) in omega arith)
  | inr e ↦ rw (strip_odd (suc fuel) y e) (omega arith)
]

IsGcd-strip_twos : (fuel g x y : ℕ) → x % 2 ≡ 1 → IsGcd g x (strip_twos fuel y) → IsGcd g x y
unfolding strip_twos
IsGcd-strip_twos zero g x y odd h = h
IsGcd-strip_twos (suc fuel) g x y odd h = elim (Bool-cases (is_even y)) [
  | inl e ↦ subst (IsGcd g x) (sym (halved y e)) (
      IsGcd-double g x (y / 2) odd
        (IsGcd-strip_twos fuel g x (y / 2) odd (subst (IsGcd g x) (strip_even fuel y e) h)))
  | inr e ↦ subst (IsGcd g x) (strip_odd (suc fuel) y e) h
]

odd_min : (x y : ℕ) → x % 2 ≡ 1 → y % 2 ≡ 1 → min_of x y % 2 ≡ 1
odd_min x y p q = ground arith

-- The two branches of the last loop.
last_round :
    (fuel x y : ℕ)
    → (max_of x (strip_twos y y) - min_of x (strip_twos y y) == 0) ≡ true
    → subtract_loop (suc fuel) x y ≡ min_of x (strip_twos y y)
unfolding subtract_loop
last_round fuel x y h = rw h refl

next_round :
    (fuel x y : ℕ)
    → (max_of x (strip_twos y y) - min_of x (strip_twos y y) == 0) ≡ false
    → subtract_loop (suc fuel) x y
      ≡ subtract_loop fuel
          (min_of x (strip_twos y y))
          (max_of x (strip_twos y y) - min_of x (strip_twos y y))
unfolding subtract_loop
next_round fuel x y h = rw h refl

is_nothing : (m : ℕ) → (m == 0) ≡ true → m ≡ 0
is_nothing m h = ground arith

something : (m : ℕ) → (m == 0) ≡ false → 0 < m
something m h = ground arith

-- The sum of the two numbers falls.
falls :
    (x y z fuel : ℕ)
    → x % 2 ≡ 1
    → z % 2 ≡ 1
    → z ≤ y
    → x + y ≤ suc fuel
    → min_of x z + (max_of x z - min_of x z) ≤ fuel
falls x y z fuel p q l f = ground arith

IsGcd-subtract_loop :
    (fuel x y : ℕ) → x % 2 ≡ 1 → 0 < y → x + y ≤ fuel → IsGcd (subtract_loop fuel x y) x y
IsGcd-subtract_loop zero x y odd p f = absurd (omega arith)
IsGcd-subtract_loop (suc fuel) x y odd p f =
    let z = strip_twos y y in
    let odd_z : z % 2 ≡ 1 = strip_twos-odd y y p (omega arith) in
    IsGcd-strip_twos y _ x y odd (
      IsGcd-difference _ x z (elim (Bool-cases (max_of x z - min_of x z == 0)) [
        | inl h ↦
            rw (last_round fuel x y h, is_nothing (max_of x z - min_of x z) h)
              (IsGcd-refl (min_of x z))
        | inr h ↦ rw (next_round fuel x y h) (
            IsGcd-subtract_loop fuel (min_of x z) (max_of x z - min_of x z) (odd_min x z odd odd_z)
              (something (max_of x z - min_of x z) h)
              (falls x y z fuel odd odd_z (strip_twos-le y y) f))
      ]))

-- What the first loop has found when it ends at `r`, from `x`, `y` and a shift of `s`.
abbrev pub TwosOf : ℕ → ℕ → ℕ → ℕ × ℕ × ℕ → Type 0
TwosOf x y s (x', y', s') =
    (0 < x')
    × (0 < y')
    × ((is_even x' && is_even y') ≡ false)
    × ((t : ℕ) × (s' ≡ s + t) × ((g : ℕ) → IsGcd g x' y' → IsGcd (g * 2 ^ t) x y))

once_more :
    (x y s : ℕ) (r : ℕ × ℕ × ℕ)
    → is_even x ≡ true
    → is_even y ≡ true
    → TwosOf (x / 2) (y / 2) (s + 1) r
    → TwosOf x y s r
once_more x y s (x', y', s') ex ey (p, q, not_both, (t, e, lift)) = (
  p,
  q,
  not_both,
  (
    suc t,
    omega arith,
    λ g h.
        subst (λ m. IsGcd m x y) (power g t)
          (subst (λ m. IsGcd (2 * (g * 2 ^ t)) m y) (sym (halved x ex))
            (subst (IsGcd (2 * (g * 2 ^ t)) (2 * (x / 2))) (sym (halved y ey))
              (IsGcd-twice (g * 2 ^ t) (x / 2) (y / 2) (lift g h)))),
  ),
)
  where
    commute : (g k : ℕ) → 2 * (g * k) ≡ g * (2 * k)
    commute g k = grind arith

    power : (g t : ℕ) → 2 * (g * 2 ^ t) ≡ g * 2 ^ suc t
    power g t =
        commute g (2 ^ t)
        ∙ ap (λ k. g * k) {x = 2 * 2 ^ t} {y = 2 ^ suc t} (omega (arith, Nat.pow-suc 2 t))

both : (b c : Bool) → (b && c) ≡ true → (b ≡ true) × (c ≡ true)
both true c h = (refl, h)
both false c h = cc

halves : (x : ℕ) → is_even x ≡ true → 0 < x → 0 < x / 2
halves x e p = ground arith

common_twos-even :
    (fuel x y s : ℕ)
    → (is_even x && is_even y) ≡ true
    → common_twos (suc fuel) x y s ≡ common_twos fuel (x / 2) (y / 2) (s + 1)
unfolding common_twos
common_twos-even fuel x y s h = rw (h, common_twos) refl

common_twos-odd :
    (fuel x y s : ℕ) → (is_even x && is_even y) ≡ false → common_twos (suc fuel) x y s ≡ (x, y, s)
unfolding common_twos
common_twos-odd fuel x y s h = rw (h, common_twos) refl

common_twos_lem :
    (fuel x y s : ℕ) → 0 < x → 0 < y → x ≤ fuel → TwosOf x y s (common_twos fuel x y s)
unfolding common_twos
common_twos_lem zero x y s p q f = absurd (omega arith)
common_twos_lem (suc fuel) x y s p q f = elim (Bool-cases (is_even x && is_even y)) [
  | inl h ↦
      let (ex, ey) = both (is_even x) (is_even y) h in
      subst (TwosOf x y s) (sym (common_twos-even fuel x y s h)) (
        once_more x y s (common_twos fuel (x / 2) (y / 2) (s + 1)) ex ey (
          common_twos_lem fuel (x / 2) (y / 2) (s + 1) (halves x ex p) (halves y ey q)
            (omega arith)))
  | inr h ↦ subst (TwosOf x y s) (sym (common_twos-odd fuel x y s h)) (
    p,
    q,
    h,
    (0, omega arith, λ g e. subst (λ m. IsGcd m x y) {x = g} {y = g * 2 ^ 0} (omega arith) e),
  )
]

-- One of the two numbers is odd, so that the factors of two of the first are no common ones.
IsGcd-strip_first :
    (g x y : ℕ) → (is_even x && is_even y) ≡ false → IsGcd g (strip_twos x x) y → IsGcd g x y
IsGcd-strip_first g x y h e = elim (Bool-cases (is_even y)) [
  | inl ey ↦ subst (λ m. IsGcd g m y) (strip_odd x x (first_odd (is_even x) (is_even y) h ey)) e
  | inr ey ↦
      IsGcd-sym g y x
        (IsGcd-strip_twos x g y x (odd_of_test y ey) (IsGcd-sym g (strip_twos x x) y e))
]
  where
    first_odd : (b c : Bool) → (b && c) ≡ false → c ≡ true → b ≡ false
    first_odd true c h k = cc
    first_odd false c h k = refl

plain : (s t : ℕ) → s ≡ 0 + t → s ≡ t
plain s t e = omega arith

of_twos :
    (x y : ℕ) (r : ℕ × ℕ × ℕ)
    → TwosOf x y 0 r
    → IsGcd (subtract_loop (strip_twos r.0 r.0 + r.1) (strip_twos r.0 r.0) r.1 * 2 ^ r.2) x y
of_twos x y (x', y', s) (p, q, h, (t, e, lift)) = rw (plain s t e) (
    lift _ (
      IsGcd-strip_first _ x' y' h (
        IsGcd-subtract_loop (strip_twos x' x' + y') (strip_twos x' x') y'
          (strip_twos-odd x' x' p (omega arith)) q (omega arith))))

-- The fuel is enough, and the loops compute the greatest common divisor of two numbers that are not 0.
pub IsGcd-binary_gcd : (x y : ℕ) → 0 < x → 0 < y → IsGcd (binary_gcd x y) x y
unfolding binary_gcd
IsGcd-binary_gcd x y p q =
    of_twos x y (common_twos x x y 0) (common_twos_lem x x y 0 p q (omega arith))

-- The `i64` that a gcd is read back as.
in_word : (g x : ℕ) → g ∣ x → 0 < x → x < 2 ^ 63 → i64_of_u64 (g % 2 ^ 64) ≡ pos g
in_word g x h p l = let le = Nat.le_of_dvd p h in ground arith

checked_word : (v : ℤ) → nat_abs v < 2 ^ 63 → checked (pos (nat_abs v)) ≡ some (pos (nat_abs v))
unfolding checked in_i64
checked_word v l = ground arith

IsGcd-zero : (v w : ℤ) → is_zero v ≡ true → IsGcd (nat_abs w) (nat_abs v) (nat_abs w)
IsGcd-zero (pos k) w h =
    rw (is_nothing k h) (IsGcd-sym (nat_abs w) (nat_abs w) 0 (IsGcd-refl (nat_abs w)))
IsGcd-zero (negsuc k) w h = cc

nat_abs-pos : (v : ℤ) → is_zero v ≡ false → 0 < nat_abs v
nat_abs-pos v h = ground arith

isize_gcd_lem :
    (v w : ℤ)
    → nat_abs v < 2 ^ 63
    → nat_abs w < 2 ^ 63
    → (d : ℕ) × (isize_gcd v w ≡ some (pos d)) × IsGcd d (nat_abs v) (nat_abs w)
unfolding isize_gcd
isize_gcd_lem v w lv lw = elim (Bool-cases (is_zero v)) [
  | inl h ↦ (nat_abs w, rw h (checked_word w lw), IsGcd-zero v w h)
  | inr h ↦ elim (Bool-cases (is_zero w)) [
    | inl k ↦ (
      nat_abs v,
      rw (h, k) (checked_word v lv),
      IsGcd-sym (nat_abs v) (nat_abs w) (nat_abs v) (IsGcd-zero w v k),
    )
    | inr k ↦
        let e = IsGcd-binary_gcd (nat_abs v) (nat_abs w) (nat_abs-pos v h) (nat_abs-pos w k) in
        (
          binary_gcd (nat_abs v) (nat_abs w),
          rw (h, k, checked_word v lv, checked_word w lw)
              (ap some (
                in_word (binary_gcd (nat_abs v) (nat_abs w)) (nat_abs v) e.0 (nat_abs-pos v h) lv)),
          e,
        )
  ]
]

in_fixnum : (v : ℤ) → in_range v ≡ true → nat_abs v < 2 ^ 63
unfolding in_range
in_fixnum v h = ground arith

module _ ⦃n : Numerics⦄ ⦃a : Arithmetic⦄ where
  -- `gcd` of two fixnums, negative or 0 as they may be, is their greatest common divisor: it divides
  -- both, and every number that divides both divides it.
  pub gcd-IsGcd :
      (x y : Fixnum)
      → (d : ℕ) × (z : Number) × (gcd (fixnum x) (fixnum y) ≡ ok z)
        × (integer_value z ≡ some (pos d))
        × IsGcd d (nat_abs (get_num x)) (nat_abs (get_num y))
  unfolding gcd or_big
  gcd-IsGcd x y =
      let (d, e, h) =
        isize_gcd_lem (get_num x) (get_num y) (in_fixnum (get_num x) (get_num-InRange x))
          (in_fixnum (get_num y) (get_num-InRange y)) in
      (d, from_i64 (pos d), rw (e, or_big) refl, integer_value-from_i64 (pos d), h)
