-- ===== src/Base/Bits.antt =====
-- Tests of single bits of a flag word.
use Prim.Native.Nat.{ℕ, bit_and}
use mathlib.Core.Bool.{Bool, not}
use contrib_scryer_prolog.Base.Tests.{◌==◌}

-- `x & mask != 0`
abbrev pub any_bit : ℕ → ℕ → Bool
any_bit x mask = not (bit_and x mask == 0)
