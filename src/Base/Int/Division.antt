-- ===== src/Base/Int/Division.antt =====
-- Floor division of integers over the native numbers.
use Prim.Native.Nat.{ℕ, zero, suc, ◌+◌, ◌*◌, ◌/◌, ◌%◌, ◌<◌}
use mathlib.Core.Path.{◌≡◌, refl, ap, ◌∙◌}
use mathlib.Core.Bool.{Bool, true, false}
use mathlib.Core.Logic.{inl, inr}
use native.Mathlib.Nat
use native.Mathlib.Omega.{arith}
use contrib_scryer_prolog.Base.Tests.{◌==◌, if◌then◌else◌, Bool-cases, ==_iff}
use contrib_scryer_prolog.Base.Int.{
  ℤ, pos, negsuc, neg_ℤ, ◌+ℤ◌, ◌*ℤ◌, div_ℤ, mod_floor, residue, is_zero, signed, nat_abs, is_neg,
  xor_bool, neg_ℤ_parts, pos-*ℤ, pos-*ℤ-negsuc, negsuc-*ℤ-pos, negsuc-*ℤ,
}

-- The greatest integer that is at most the quotient.
unfoldable pub div_floor : ℤ → ℤ → ℤ
div_floor (pos n) (pos k) = pos (n / k)
div_floor (negsuc n) (pos k) = negsuc (n / k)
div_floor (pos zero) (negsuc k) = pos 0
div_floor (pos (suc n)) (negsuc k) = negsuc (n / suc k)
div_floor (negsuc n) (negsuc k) = pos (suc n / suc k)

split : (n k : ℕ) → n / k * k + n % k ≡ n
split n k = grind (arith, Nat.div-add-mod n k)

suc_mod : (n k : ℕ) → suc n % suc k ≡ (if n % suc k == k then 0 else suc (n % suc k))
suc_mod n k = whole ∙ small (n % suc k) (omega arith)
  where
    whole : suc n % suc k ≡ suc (n % suc k) % suc k
    whole =
        let e : suc n ≡ suc (n % suc k) + suc k * (n / suc k) =
          omega (arith, Nat.div-add-mod n (suc k)) in
        ap (λ m. m % suc k) e ∙ Nat.add-mul-mod_self_left (suc (n % suc k)) (suc k) (n / suc k)

    small : (r : ℕ) → r < suc k → suc r % suc k ≡ (if r == k then 0 else suc r)
    small r h = elim (Bool-cases (r == k)) [
      | inl e ↦ rw e (ap (λ m. suc m % suc k) ((==_iff r k).0 e) ∙ Nat.mod_self (suc k))
      | inr e ↦ rw e (Nat.mod-eq_of_lt {n = suc r} {m = suc k} (ground arith))
    ]

-- A quotient and its remainder make up the dividend.
pub div_floor-mod_floor : (a b : ℤ) → is_zero b ≡ false → div_floor a b *ℤ b +ℤ mod_floor a b ≡ a
unfolding div_floor mod_floor residue ◌+ℤ◌
div_floor-mod_floor (pos n) (pos k) h = rw (pos-*ℤ (n / k) k) (grind (arith, split n k))
div_floor-mod_floor (negsuc n) (pos k) h =
    rw (negsuc-*ℤ-pos (n / k) k) (grind (arith, split n k, neg_ℤ_parts (pos (suc (n / k) * k))))
div_floor-mod_floor (pos zero) (negsuc k) h =
    rw (pos-*ℤ-negsuc 0 k) (grind (arith, neg_ℤ_parts (pos (0 * suc k))))
div_floor-mod_floor (pos (suc n)) (negsuc k) h =
    rw (negsuc-*ℤ (n / suc k) k)
      (grind (arith, split n (suc k), suc_mod n k, Nat.suc-mul (n / suc k) (suc k)))
div_floor-mod_floor (negsuc n) (negsuc k) h =
    rw (pos-*ℤ-negsuc (suc n / suc k) k)
      (grind (arith, split (suc n) (suc k), suc_mod n k, neg_ℤ_parts (pos (suc n / suc k * suc k))))

cancel : (m a k : ℕ) → m ≡ suc a * suc k → m / suc k ≡ suc a
cancel m a k e = ap (λ x. x / suc k) e ∙ Nat.mul-div_cancel (suc a) {n = suc k} (omega arith)

-- A negative number by a number with a given sign.
neg_div :
    (m a k : ℕ) (s : Bool)
    → m ≡ suc a * suc k
    → signed (xor_bool (is_neg (neg_ℤ (pos m))) s) (nat_abs (neg_ℤ (pos m)) / suc k)
      ≡ signed (xor_bool true s) (suc a)
neg_div zero a k s e = absurd (grind (arith, Nat.suc-mul a (suc k)))
neg_div (suc m) a k s e = ap (signed (xor_bool true s)) (cancel (suc m) a k e)

-- Division towards zero is exact on multiples.
pub div_ℤ-*ℤ : (q b : ℤ) → is_zero b ≡ false → div_ℤ (q *ℤ b) b ≡ q
unfolding div_ℤ
div_ℤ-*ℤ q (pos zero) h = cc
div_ℤ-*ℤ (pos a) (pos (suc k)) h =
    rw (pos-*ℤ a (suc k)) (ap pos (Nat.mul-div_cancel a {n = suc k} (omega arith)))
div_ℤ-*ℤ (negsuc a) (pos (suc k)) h =
    rw (negsuc-*ℤ-pos a (suc k)) (neg_div (suc a * suc k) a k false refl)
div_ℤ-*ℤ (pos zero) (negsuc k) h = rw (pos-*ℤ-negsuc 0 k) (no_part (0 * suc k) (omega arith))
  where
    neg_zero : (d : ℕ) → d ≡ 0 → neg_ℤ (pos d) ≡ pos 0
    neg_zero zero e = refl
    neg_zero (suc d) e = absurd (omega arith)

    no_part :
        (m : ℕ)
        → m ≡ 0
        → signed (xor_bool (is_neg (neg_ℤ (pos m))) true) (nat_abs (neg_ℤ (pos m)) / suc k) ≡ pos 0
    no_part zero e = neg_zero (0 / suc k) (grind arith)
    no_part (suc m) e = absurd (omega arith)
div_ℤ-*ℤ (pos (suc a)) (negsuc k) h =
    rw (pos-*ℤ-negsuc (suc a) k) (neg_div (suc a * suc k) a k true refl)
div_ℤ-*ℤ (negsuc a) (negsuc k) h =
    rw (negsuc-*ℤ a k) (ap (λ d. neg_ℤ (pos d)) (cancel (suc a * suc k) a k refl))
