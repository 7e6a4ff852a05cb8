-- ===== src/Arithmetic/Gcd/Divisors.antt =====
-- Greatest common divisors by divisibility, and the steps of `isize_gcd` of
-- src/machine/arithmetic_ops.rs that keep them.
use Prim.Native.Nat.{◌∣◌}
use mathlib.Core.Path.{subst}
use native.Mathlib.Nat
use contrib_scryer_prolog.Base.{
  ℕ, ◌≡◌, sym, ◌∙◌, ap, true, false, inl, inr, arith, Bool-cases, ◌+◌, ◌-◌, ◌*◌, ◌/◌, ◌%◌, ◌≤◌, ltb,
}
use contrib_scryer_prolog.Arithmetic.Gcd.{is_even, min_of, max_of}

-- `g` divides both numbers, and every number that divides both divides `g`.
abbrev pub IsGcd : ℕ → ℕ → ℕ → Type 0
IsGcd g x y = (g ∣ x) × (g ∣ y) × ((d : ℕ) → d ∣ x → d ∣ y → d ∣ g)

pub IsGcd-sym : (g x y : ℕ) → IsGcd g x y → IsGcd g y x
IsGcd-sym g x y (p, q, r) = (q, p, λ d a b. r d b a)

pub halved : (y : ℕ) → is_even y ≡ true → y ≡ 2 * (y / 2)
halved y h = ground arith

pub odd_of_test : (y : ℕ) → is_even y ≡ false → y % 2 ≡ 1
odd_of_test y h = ground arith

two_dvd : (d : ℕ) → is_even d ≡ true → 2 ∣ d
two_dvd d e = Nat.dvd_of_mod-eq-zero 2 (ground arith)

odd_of_dvd : (d x : ℕ) → x % 2 ≡ 1 → d ∣ x → d % 2 ≡ 1
odd_of_dvd d x odd h = elim (Bool-cases (is_even d)) [
  | inl e ↦ let even = Nat.mod-eq-zero_of_dvd 2 (Nat.dvd_trans 2 (two_dvd d e) h) in omega arith
  | inr e ↦ odd_of_test d e
]

odd_dvd-double : (d h : ℕ) → d % 2 ≡ 1 → d ∣ 2 * h → d ∣ h
odd_dvd-double d h odd b =
    (Nat.dvd-add_iff_right d (Nat.dvd-mul_right_of_dvd d b (d / 2))).1
      (subst (◌∣◌ d) whole (Nat.dvd-mul_left d h))
  where
    spread : (m k : ℕ) → m * (2 * k + 1) ≡ 2 * m * k + m
    spread m k = grind arith

    whole : h * d ≡ 2 * h * (d / 2) + h
    whole = ap (λ m. h * m) {x = d} {y = 2 * (d / 2) + 1} (omega arith) ∙ spread h (d / 2)

-- An odd number has no divisor in common with the factor 2 of another number.
pub IsGcd-double : (g x h : ℕ) → x % 2 ≡ 1 → IsGcd g x h → IsGcd g x (2 * h)
IsGcd-double g x h odd (p, q, r) =
    (p, Nat.dvd-mul_left_of_dvd g q 2, λ d a b. r d a (odd_dvd-double d h (odd_of_dvd d x odd a) b))

half : (d z : ℕ) → is_even d ≡ true → d ∣ 2 * z → d / 2 ∣ z
half d z h a =
    Nat.dvd_of_mul-dvd-mul_left {k = 2} (d / 2) (omega arith)
      (subst (λ m. m ∣ 2 * z) (halved d h) a)

-- A factor 2 of both numbers is one of their greatest common divisor.
pub IsGcd-twice : (g x y : ℕ) → IsGcd g x y → IsGcd (2 * g) (2 * x) (2 * y)
IsGcd-twice g x y (p, q, r) = (
  Nat.mul-dvd-mul_left g 2 p,
  Nat.mul-dvd-mul_left g 2 q,
  λ d a b. elim (Bool-cases (is_even d)) [
    | inl h ↦
        subst (λ m. m ∣ 2 * g) (sym (halved d h))
          (Nat.mul-dvd-mul_left (d / 2) 2 (r (d / 2) (half d x h a) (half d y h b)))
    | inr h ↦
        Nat.dvd-mul_left_of_dvd d
          (r d (odd_dvd-double d x (odd_of_test d h) a) (odd_dvd-double d y (odd_of_test d h) b)) 2
  ],
)

less : (g x y : ℕ) → x ≤ y → IsGcd g x (y - x) → IsGcd g x y
less g x y h (p, q, r) =
    (p, subst (◌∣◌ g) back (Nat.dvd-add g p q), λ d a b. r d a (Nat.dvd-sub d b a))
  where
    back : x + (y - x) ≡ y
    back = omega arith

-- The smaller number and the difference have the divisors of the two numbers.
pub IsGcd-difference : (g x y : ℕ) → IsGcd g (min_of x y) (max_of x y - min_of x y) → IsGcd g x y
IsGcd-difference g x y h = elim (Bool-cases (ltb y x)) [
  | inl t ↦ IsGcd-sym g y x (less g y x (ground arith) (rw t at h))
  | inr t ↦ less g x y (ground arith) (rw t at h)
]

pub IsGcd-refl : (x : ℕ) → IsGcd x x 0
IsGcd-refl x = (Nat.dvd_refl x, Nat.dvd-zero x, λ d a b. a)
