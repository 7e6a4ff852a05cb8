-- ===== src/Base/Int.antt =====
-- Signed integers over the native numbers, under the library's names.
pub mod Division
pub mod Power
use Prim.Native.Nat.{ℕ, zero, suc, ◌+◌, ◌-◌, ◌*◌, ◌/◌, ◌%◌, ◌≤◌, ◌<◌}
use mathlib.Core.Path.{◌≡◌, refl, sym, ap, ◌∙◌}
use mathlib.Core.Bool.{Bool, true, false}
use native.Mathlib.Omega.{arith}
use contrib_scryer_prolog.Base.Tests.{ltb, leb, ◌==◌, if◌then◌else◌}

-- `negsuc n` is -(n + 1).
pub data ℤ : Type 0 where
  pos : ℕ → ℤ
  negsuc : ℕ → ℤ

abbrev pub neg_ℤ : ℤ → ℤ
neg_ℤ (pos zero) = pos 0
neg_ℤ (pos (suc n)) = negsuc n
neg_ℤ (negsuc n) = pos (suc n)

abbrev pub pos_part : ℤ → ℕ
pos_part (pos n) = n
pos_part (negsuc n) = 0

abbrev pub neg_part : ℤ → ℕ
neg_part (pos n) = 0
neg_part (negsuc n) = suc n

-- a - b, as an integer.
abbrev pub sub_ℕ : ℕ → ℕ → ℤ
sub_ℕ a b = if leb b a then pos (a - b) else negsuc (b - a - 1)

infixl 65 ◌+ℤ◌
infixl 70 ◌*ℤ◌
unfoldable pub ◌+ℤ◌ : ℤ → ℤ → ℤ
a +ℤ b = sub_ℕ (pos_part a + pos_part b) (neg_part a + neg_part b)

unfoldable pub ◌*ℤ◌ : ℤ → ℤ → ℤ
a *ℤ b =
    sub_ℕ (pos_part a * pos_part b + neg_part a * neg_part b)
      (pos_part a * neg_part b + neg_part a * pos_part b)

abbrev pub ltb_ℤ : ℤ → ℤ → Bool
ltb_ℤ a b = ltb (pos_part a + neg_part b) (pos_part b + neg_part a)

abbrev pub is_neg : ℤ → Bool
is_neg (pos n) = false
is_neg (negsuc n) = true

abbrev pub is_zero : ℤ → Bool
is_zero (pos n) = n == 0
is_zero (negsuc n) = false

abbrev pub nat_abs : ℤ → ℕ
nat_abs (pos n) = n
nat_abs (negsuc n) = suc n

-- The number `n` with a sign.
abbrev pub signed : Bool → ℕ → ℤ
signed true n = neg_ℤ (pos n)
signed false n = pos n

abbrev pub xor_bool : Bool → Bool → Bool
xor_bool true true = false
xor_bool true false = true
xor_bool false b = b

-- Division towards zero, with the remainder of the dividend's sign: `/` and `%` of Rust.
unfoldable pub div_ℤ : ℤ → ℤ → ℤ
div_ℤ a b = signed (xor_bool (is_neg a) (is_neg b)) (nat_abs a / nat_abs b)

unfoldable pub rem_ℤ : ℤ → ℤ → ℤ
rem_ℤ a b = signed (is_neg a) (nat_abs a % nat_abs b)

-- The remainder of `a` by `k` that is not negative.
unfoldable pub residue : ℤ → ℕ → ℕ
residue (pos n) k = n % k
residue (negsuc n) k = k - 1 - n % k

-- The remainder of the divisor's sign.
unfoldable pub mod_floor : ℤ → ℤ → ℤ
unfolding residue
mod_floor a (pos k) = pos (residue a k)
mod_floor a (negsuc k) = if residue a (suc k) == 0 then pos 0 else negsuc (k - residue a (suc k))

pub +ℤ_comm : (a b : ℤ) → a +ℤ b ≡ b +ℤ a
unfolding ◌+ℤ◌
+ℤ_comm a b = ground arith

pub +ℤ_parts :
    (a b : ℤ)
    → pos_part (a +ℤ b) + neg_part a + neg_part b ≡ neg_part (a +ℤ b) + pos_part a + pos_part b
unfolding ◌+ℤ◌
+ℤ_parts a b = ground arith

pub eq_of_parts : (a b : ℤ) → pos_part a + neg_part b ≡ pos_part b + neg_part a → a ≡ b
eq_of_parts a b h = ground arith

pub ruleset int_laws = (arith, +ℤ_parts, eq_of_parts)

pub neg_ℤ_parts : (a : ℤ) → pos_part (neg_ℤ a) + pos_part a ≡ neg_part (neg_ℤ a) + neg_part a
neg_ℤ_parts (pos zero) = omega arith
neg_ℤ_parts (pos (suc n)) = omega arith
neg_ℤ_parts (negsuc n) = omega arith

pub *ℤ_comm : (a b : ℤ) → a *ℤ b ≡ b *ℤ a
unfolding ◌*ℤ◌
*ℤ_comm a b = grind arith

-- Products by the signs of their factors.
pub pos-*ℤ : (a b : ℕ) → pos a *ℤ pos b ≡ pos (a * b)
unfolding ◌*ℤ◌
pos-*ℤ a b = grind arith

pub pos-*ℤ-negsuc : (a b : ℕ) → pos a *ℤ negsuc b ≡ neg_ℤ (pos (a * suc b))
unfolding ◌*ℤ◌
pos-*ℤ-negsuc a b = grind arith

pub negsuc-*ℤ-pos : (a b : ℕ) → negsuc a *ℤ pos b ≡ neg_ℤ (pos (suc a * b))
unfolding ◌*ℤ◌
negsuc-*ℤ-pos a b = grind arith

pub negsuc-*ℤ : (a b : ℕ) → negsuc a *ℤ negsuc b ≡ pos (suc a * suc b)
unfolding ◌*ℤ◌
negsuc-*ℤ a b = grind arith

pub residue-lt : (a : ℤ) (k : ℕ) → 0 < k → residue a k < k
unfolding residue
residue-lt (pos n) k h = grind arith
residue-lt (negsuc n) k h = omega arith
