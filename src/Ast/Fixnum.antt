-- ===== src/Ast/Fixnum.antt =====
-- `Fixnum`, the 56-bit integers of src/parser/ast.rs. An `i64` is an integer in its range, a `u64`
-- a native number below 2 ^ 64.
pub mod Range
use contrib_scryer_prolog.Base.{
  ℕ, ◌+◌, ◌-◌, ◌*◌, ◌/◌, ◌%◌, ◌^◌, ◌≤◌, Bool, false, ◌&&◌, Option, none, some, ltb, leb,
  if◌then◌else◌,
}
use contrib_scryer_prolog.Base.Int.{ℤ, pos, negsuc, neg_ℤ}

pub record Fixnum : Type 0 where
  pub num : ℕ
  pub f : Bool
  pub m : Bool
  pub tag : ℕ

-- `HeapCellValueTag::Fixnum`
abbrev pub fixnum_tag : ℕ
fixnum_tag = 0b011001

-- `HeapCellValueTag::CutPoint`
abbrev pub cut_point_tag : ℕ
cut_point_tag = 0b011101

-- `Fixnum::MIN..=Fixnum::MAX`, from -(1 << 55) to (1 << 55) - 1.
unfoldable pub in_range : ℤ → Bool
in_range (pos n) = leb n (2 ^ 55 - 1)
in_range (negsuc n) = leb n (2 ^ 55 - 1)

-- `u64::from_ne_bytes(num.to_ne_bytes())`
abbrev pub u64_of_i64 : ℤ → ℕ
u64_of_i64 (pos n) = n
u64_of_i64 (negsuc n) = 2 ^ 64 - 1 - n

-- `build_with_unchecked` of a release build, which leaves its debug assertion out; `debug_build` has
-- it. `& ((1 << 56) - 1)` is the remainder by 2 ^ 56.
unfoldable pub build_with_unchecked : ℤ → Fixnum
build_with_unchecked n = record {
  num = u64_of_i64 n % 2 ^ 56;
  f = false;
  m = false;
  tag = fixnum_tag;
}

-- `build_with_unchecked` of a debug build, which panics (`none`) where the assertion
-- `RANGE.contains(&num)` fails.
unfoldable pub debug_build : ℤ → Option Fixnum
unfolding in_range build_with_unchecked
debug_build n = if in_range n then some (build_with_unchecked n) else none

-- `build_with` for a `char`
abbrev pub build_with_char : ℕ → Fixnum
build_with_char c = build_with_unchecked (pos c)

-- `try_into_i56` of an `i64`
unfoldable pub try_into_i56 : ℤ → Option ℤ
unfolding in_range
try_into_i56 n = if in_range n then some n else none

-- `none` is `Err(OutOfBounds)`.
unfoldable pub build_with_checked : ℤ → Option Fixnum
unfolding try_into_i56 build_with_unchecked
build_with_checked n = elim (try_into_i56 n) [
  | some v ↦ some (build_with_unchecked v)
  | none ↦ none
]

unfoldable pub as_cutpoint : Fixnum → Fixnum
as_cutpoint x = record x { tag = cut_point_tag }

-- `n << 8` on an `i64`, as its bit pattern.
abbrev pub shl8 : ℕ → ℕ
shl8 w = w * 256 % 2 ^ 64

-- The arithmetic `>> 8` of the `i64` with the bit pattern `w`.
abbrev pub sar8 : ℕ → ℤ
sar8 w = if ltb w (2 ^ 63) then pos (w / 256) else negsuc ((2 ^ 64 - 1 - w) / 256)

-- The assertion of a debug build, that a shift by 8 does not overflow, always holds.
unfoldable pub get_num : Fixnum → ℤ
get_num x = sar8 (shl8 x.num)

abbrev pub abs_i64 : ℤ → ℤ
abs_i64 (pos n) = pos n
abs_i64 (negsuc n) = pos (n + 1)

unfoldable pub checked_abs : Fixnum → Option Fixnum
unfolding build_with_checked get_num
checked_abs x = build_with_checked (abs_i64 (get_num x))

unfoldable pub neg : Fixnum → Fixnum
unfolding build_with_unchecked get_num
neg x = build_with_unchecked (neg_ℤ (get_num x))

-- `neg` of a debug build
unfoldable pub debug_neg : Fixnum → Option Fixnum
unfolding debug_build get_num
debug_neg x = debug_build (neg_ℤ (get_num x))

-- `!n` on an `i64`
abbrev pub not_i64 : ℤ → ℤ
not_i64 (pos n) = negsuc n
not_i64 (negsuc n) = pos n

unfoldable pub bit_not : Fixnum → Fixnum
unfolding build_with_unchecked get_num
bit_not x = build_with_unchecked (not_i64 (get_num x))

-- `not` of a debug build
unfoldable pub debug_bit_not : Fixnum → Option Fixnum
unfolding debug_build get_num
debug_bit_not x = debug_build (not_i64 (get_num x))
