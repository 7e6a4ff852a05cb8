-- ===== src/Ast/Flags.antt =====
-- The specifier word of a token descriptor, src/parser/ast.rs: its constants and test macros.
use contrib_scryer_prolog.Base.{ℕ, ◌≡◌, refl, Bool, true, false, ◌||◌}
use contrib_scryer_prolog.Base.Bits.{any_bit}
use contrib_scryer_prolog.Ast.OpDeclSpec
use contrib_scryer_prolog.Ast.OpDeclSpec.{OpDeclSpec, value, xfx, xfy, yfx, xf, yf, fx, fy}

abbrev pub delimiter : ℕ
delimiter = 0x0100

abbrev pub term : ℕ
term = 0x1000

abbrev pub lterm : ℕ
lterm = 0x3000

abbrev pub bterm : ℕ
bterm = 0x11000

abbrev pub negative_sign : ℕ
negative_sign = 0x0200

-- XFX | XFY | YFX, FX | FY, and all seven kinds.
abbrev pub infix_bits : ℕ
infix_bits = 0x0007

abbrev pub prefix_bits : ℕ
prefix_bits = 0x00c0

abbrev pub op_bits : ℕ
op_bits = 0x00f7

unfoldable pub is_negate : ℕ → Bool
is_negate x = any_bit x negative_sign

unfoldable pub is_term : ℕ → Bool
is_term x = any_bit x term || is_negate x

unfoldable pub is_lterm : ℕ → Bool
is_lterm x = any_bit x lterm || is_negate x

unfoldable pub is_op : ℕ → Bool
is_op x = any_bit x op_bits

unfoldable pub is_prefix : ℕ → Bool
is_prefix x = any_bit x prefix_bits

unfoldable pub is_infix : ℕ → Bool
is_infix x = any_bit x infix_bits

unfoldable pub is_xfx : ℕ → Bool
is_xfx x = any_bit x (value xfx)

unfoldable pub is_xfy : ℕ → Bool
is_xfy x = any_bit x (value xfy)

unfoldable pub is_yfx : ℕ → Bool
is_yfx x = any_bit x (value yfx)

unfoldable pub is_yf : ℕ → Bool
is_yf x = any_bit x (value yf)

unfoldable pub is_xf : ℕ → Bool
is_xf x = any_bit x (value xf)

unfoldable pub is_fx : ℕ → Bool
is_fx x = any_bit x (value fx)

unfoldable pub is_fy : ℕ → Bool
is_fy x = any_bit x (value fy)

-- The flag tests on the word of a specifier agree with its methods, and take it for an operator
-- and for no term.
pub value-flags :
    (s : OpDeclSpec)
    → (is_prefix (value s) ≡ OpDeclSpec.is_prefix s)
      × (is_infix (value s) ≡ OpDeclSpec.is_infix s)
      × (is_yf (value s) || is_xf (value s) ≡ OpDeclSpec.is_postfix s)
      × (is_op (value s) ≡ true)
      × (is_term (value s) ≡ false)
      × (is_lterm (value s) ≡ false)
unfolding is_prefix is_infix is_yf is_xf is_op is_term is_lterm is_negate OpDeclSpec.is_prefix
    OpDeclSpec.is_infix OpDeclSpec.is_postfix
value-flags xfx = (refl, refl, refl, refl, refl, refl)
value-flags _ = (refl, refl, refl, refl, refl, refl)
