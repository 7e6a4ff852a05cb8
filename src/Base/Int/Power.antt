-- ===== src/Base/Int/Power.antt =====
-- Products of integers, and their powers.
use Prim.Native.Nat.{ℕ, zero, suc, ◌+◌, ◌*◌}
use mathlib.Core.Path.{◌≡◌, refl, sym, ap, ◌∙◌}
use native.Mathlib.Nat
use native.Mathlib.Omega.{arith}
use contrib_scryer_prolog.Base.Int.{ℤ, pos, negsuc, neg_ℤ, ◌*ℤ◌, *ℤ_comm, pos-*ℤ}

neg-*ℤ : (a b : ℤ) → neg_ℤ a *ℤ b ≡ neg_ℤ (a *ℤ b)
unfolding ◌*ℤ◌
neg-*ℤ a b = grind arith

*ℤ-neg : (a b : ℤ) → a *ℤ neg_ℤ b ≡ neg_ℤ (a *ℤ b)
*ℤ-neg a b = *ℤ_comm a (neg_ℤ b) ∙ neg-*ℤ b a ∙ ap neg_ℤ (*ℤ_comm b a)

pos_assoc : (k m l : ℕ) → pos k *ℤ pos m *ℤ pos l ≡ pos k *ℤ (pos m *ℤ pos l)
pos_assoc k m l =
    rw (pos-*ℤ k m, pos-*ℤ (k * m) l, pos-*ℤ m l, pos-*ℤ k (m * l)) (ap pos (Nat.mul_assoc k m l))

pos_assoc_any : (k m : ℕ) (c : ℤ) → pos k *ℤ pos m *ℤ c ≡ pos k *ℤ (pos m *ℤ c)
pos_assoc_any k m (pos l) = pos_assoc k m l
pos_assoc_any k m (negsuc l) =
    *ℤ-neg (pos k *ℤ pos m) (pos (suc l))
    ∙ ap neg_ℤ (pos_assoc k m (suc l))
    ∙ sym (
        ap (λ z. pos k *ℤ z) (*ℤ-neg (pos m) (pos (suc l))) ∙ *ℤ-neg (pos k) (pos m *ℤ pos (suc l)))

assoc_neg : (a b c : ℤ) → a *ℤ b *ℤ c ≡ a *ℤ (b *ℤ c) → neg_ℤ a *ℤ b *ℤ c ≡ neg_ℤ a *ℤ (b *ℤ c)
assoc_neg a b c h =
    ap (λ z. z *ℤ c) (neg-*ℤ a b) ∙ neg-*ℤ (a *ℤ b) c ∙ ap neg_ℤ h ∙ sym (neg-*ℤ a (b *ℤ c))

assoc_neg_second :
    (a b c : ℤ) → a *ℤ b *ℤ c ≡ a *ℤ (b *ℤ c) → a *ℤ neg_ℤ b *ℤ c ≡ a *ℤ (neg_ℤ b *ℤ c)
assoc_neg_second a b c h =
    ap (λ z. z *ℤ c) (*ℤ-neg a b)
    ∙ neg-*ℤ (a *ℤ b) c
    ∙ ap neg_ℤ h
    ∙ sym (ap (λ z. a *ℤ z) (neg-*ℤ b c) ∙ *ℤ-neg a (b *ℤ c))

pos_first : (k : ℕ) (b c : ℤ) → pos k *ℤ b *ℤ c ≡ pos k *ℤ (b *ℤ c)
pos_first k (pos m) c = pos_assoc_any k m c
pos_first k (negsuc m) c = assoc_neg_second (pos k) (pos (suc m)) c (pos_assoc_any k (suc m) c)

pub *ℤ_assoc : (a b c : ℤ) → a *ℤ b *ℤ c ≡ a *ℤ (b *ℤ c)
*ℤ_assoc (pos k) b c = pos_first k b c
*ℤ_assoc (negsuc k) b c = assoc_neg (pos (suc k)) b c (pos_first (suc k) b c)

pub one-*ℤ : (a : ℤ) → pos 1 *ℤ a ≡ a
unfolding ◌*ℤ◌
one-*ℤ a = grind arith

-- `x` multiplied by itself `k` times.
unfoldable pub pow_ℤ : ℤ → ℕ → ℤ
unfolding ◌*ℤ◌
pow_ℤ x zero = pos 1
pow_ℤ x (suc k) = x *ℤ pow_ℤ x k

pub pow_ℤ-square : (x : ℤ) (k : ℕ) → pow_ℤ (x *ℤ x) k ≡ pow_ℤ x (k + k)
unfolding pow_ℤ
pow_ℤ-square x zero = refl
pow_ℤ-square x (suc k) =
    ap (λ z. x *ℤ x *ℤ z) (pow_ℤ-square x k)
    ∙ *ℤ_assoc x x (pow_ℤ x (k + k))
    ∙ ap (pow_ℤ x) {x = suc (suc (k + k))} {y = suc k + suc k} (omega arith)

-- A factor that is moved out of a product with another one.
pub *ℤ_swap : (x o b : ℤ) → x *ℤ (o *ℤ b) ≡ b *ℤ x *ℤ o
*ℤ_swap x o b =
    ap (λ z. x *ℤ z) (*ℤ_comm o b) ∙ sym (*ℤ_assoc x b o) ∙ ap (λ z. z *ℤ o) (*ℤ_comm x b)
