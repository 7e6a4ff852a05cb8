-- ===== src/Ast/Fixnum/Range.antt =====
-- The range of the 56-bit integers of src/parser/ast.rs, and the operations at its edges.
use contrib_scryer_prolog.Base.{
  ◌-◌, ◌^◌, ◌≡◌, refl, Bool, true, false, none, some, arith, ◌==◌, Bool-cases, ◌⊎◌, inl, inr, ◌∙◌,
  ap,
}
use contrib_scryer_prolog.Base.Int.{ℤ, pos, negsuc, neg_ℤ}
use contrib_scryer_prolog.Ast.Fixnum.{
  Fixnum, in_range, build_with_unchecked, build_with_checked, get_num, neg, bit_not, not_i64,
  debug_build, debug_neg, debug_bit_not,
}

pub get_num-build : (n : ℤ) → in_range n ≡ true → get_num (build_with_unchecked n) ≡ n
unfolding get_num build_with_unchecked in_range
get_num-build (pos n) h = ground arith
get_num-build (negsuc n) h = ground arith

pub get_num-InRange : (x : Fixnum) → in_range (get_num x) ≡ true
unfolding get_num in_range
get_num-InRange x = ground arith

-- An integer in the range is stored and read back unchanged, and any other is refused.
pub build_with_checked_lem :
    (n : ℤ)
    → (in_range n ≡ true)
        × (build_with_checked n ≡ some (build_with_unchecked n))
        × (get_num (build_with_unchecked n) ≡ n)
      ⊎ (in_range n ≡ false) × (build_with_checked n ≡ none)
unfolding build_with_checked
build_with_checked_lem n = elim (Bool-cases (in_range n)) [
  | inl h ↦ inl (h, rw (h, build_with_checked), get_num-build n h)
  | inr h ↦ inr (h, rw (h, build_with_checked))
]

abbrev pub is_min : ℤ → Bool
is_min (pos n) = false
is_min (negsuc n) = n == 2 ^ 55 - 1

neg-InRange : (n : ℤ) → in_range n ≡ true → is_min n ≡ false → in_range (neg_ℤ n) ≡ true
unfolding in_range
neg-InRange (pos n) h k = ground arith
neg-InRange (negsuc n) h k = ground arith

not-InRange : (n : ℤ) → in_range n ≡ true → in_range (not_i64 n) ≡ true
unfolding in_range
not-InRange (pos n) h = h
not-InRange (negsuc n) h = h

min_eq : (n : ℤ) → is_min n ≡ true → n ≡ negsuc (2 ^ 55 - 1)
min_eq (pos n) h = cc
min_eq (negsuc n) h = ground arith

neg_at_min : get_num (build_with_unchecked (neg_ℤ (negsuc (2 ^ 55 - 1)))) ≡ negsuc (2 ^ 55 - 1)
unfolding get_num build_with_unchecked
neg_at_min = refl

-- The assertion of a debug build holds in the range, and fails outside.
debug_build-in : (n : ℤ) → in_range n ≡ true → debug_build n ≡ some (build_with_unchecked n)
unfolding debug_build
debug_build-in n h = rw (h, debug_build) refl

debug_build-out : (n : ℤ) → in_range n ≡ false → debug_build n ≡ none
unfolding debug_build
debug_build-out n h = rw (h, debug_build) refl

above_max : (n : ℤ) → is_min n ≡ true → in_range (neg_ℤ n) ≡ false
unfolding in_range
above_max (pos n) h = cc
above_max (negsuc n) h = ground arith

-- Above the smallest value negation is exact and its debug assertion holds. At the smallest value the
-- assertion fails, so that a debug build panics, and a release build gives the value back.
pub get_num-neg :
    (x : Fixnum)
    → (is_min (get_num x) ≡ false)
        × (debug_neg x ≡ some (neg x))
        × (get_num (neg x) ≡ neg_ℤ (get_num x))
      ⊎ (get_num x ≡ negsuc (2 ^ 55 - 1)) × (debug_neg x ≡ none) × (get_num (neg x) ≡ get_num x)
unfolding neg debug_neg
get_num-neg x = elim (Bool-cases (is_min (get_num x))) [
  | inl h ↦
      let least = min_eq (get_num x) h in
      let outside = above_max (get_num x) h in
      inr (least, debug_build-out (neg_ℤ (get_num x)) outside, rw least neg_at_min)
  | inr h ↦
      let inside = neg-InRange (get_num x) (get_num-InRange x) h in
      inl (h, debug_build-in (neg_ℤ (get_num x)) inside, get_num-build (neg_ℤ (get_num x)) inside)
]

-- The bitwise complement is exact at every value, and complements twice to the value itself; the
-- assertion of a debug build always holds.
pub get_num-bit_not :
    (x : Fixnum)
    → (get_num (bit_not x) ≡ not_i64 (get_num x))
      × (get_num (bit_not (bit_not x)) ≡ get_num x)
      × (debug_bit_not x ≡ some (bit_not x))
get_num-bit_not x = (once x, once (bit_not x) ∙ ap not_i64 (once x) ∙ twice (get_num x), asserted)
  where
    once : (y : Fixnum) → get_num (bit_not y) ≡ not_i64 (get_num y)
    once y = unfold bit_not in get_num-build _ (not-InRange _ (get_num-InRange y))

    twice : (n : ℤ) → not_i64 (not_i64 n) ≡ n
    twice (pos n) = refl
    twice (negsuc n) = refl

    inside : in_range (not_i64 (get_num x)) ≡ true
    inside = not-InRange (get_num x) (get_num-InRange x)

    asserted : debug_bit_not x ≡ some (bit_not x)
    asserted = unfold bit_not debug_bit_not in debug_build-in (not_i64 (get_num x)) inside
