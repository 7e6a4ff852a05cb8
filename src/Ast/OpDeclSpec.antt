-- ===== src/Ast/OpDeclSpec.antt =====
-- `OpDeclSpec` and `Fixity` of src/parser/ast.rs. An atom is its text.
use contrib_scryer_prolog.Base.{
  ℕ, ◌≡◌, refl, Bool, true, false, Option, none, some, ◌==◌, if◌then◌else◌,
}
use contrib_scryer_prolog.Base.Text.{Text, codes, text_eq}

pub data OpDeclSpec : Type 0 where
  xfx xfy yfx xf yf fx fy : OpDeclSpec

pub data Fixity : Type 0 where
  infix_op postfix_op prefix_op : Fixity

-- `self as u32`
abbrev pub value : OpDeclSpec → ℕ
value xfx = 0x0001
value xfy = 0x0002
value yfx = 0x0004
value xf = 0x0010
value yf = 0x0020
value fx = 0x0040
value fy = 0x0080

unfoldable pub get_spec : OpDeclSpec → Text
get_spec xfx = codes "xfx"
get_spec xfy = codes "xfy"
get_spec yfx = codes "yfx"
get_spec fx = codes "fx"
get_spec fy = codes "fy"
get_spec xf = codes "xf"
get_spec yf = codes "yf"

unfoldable pub is_prefix : OpDeclSpec → Bool
is_prefix fx = true
is_prefix fy = true
is_prefix _ = false

unfoldable pub is_postfix : OpDeclSpec → Bool
is_postfix xf = true
is_postfix yf = true
is_postfix _ = false

unfoldable pub is_infix : OpDeclSpec → Bool
is_infix xfx = true
is_infix xfy = true
is_infix yfx = true
is_infix _ = false

unfoldable pub is_strict_left : OpDeclSpec → Bool
is_strict_left xfx = true
is_strict_left xfy = true
is_strict_left xf = true
is_strict_left _ = false

unfoldable pub is_strict_right : OpDeclSpec → Bool
is_strict_right xfx = true
is_strict_right yfx = true
is_strict_right fx = true
is_strict_right _ = false

unfoldable pub fixity : OpDeclSpec → Fixity
fixity xfy = infix_op
fixity xfx = infix_op
fixity yfx = infix_op
fixity xf = postfix_op
fixity yf = postfix_op
fixity fx = prefix_op
fixity fy = prefix_op

-- `TryFrom<u8>`: `none` is `Err(())`.
unfoldable pub try_from_u8 : ℕ → Option OpDeclSpec
try_from_u8 v =
    if v == 0x0001
    then some xfx
    else if v == 0x0002
    then some xfy
    else if v == 0x0004
    then some yfx
    else if v == 0x0010
    then some xf
    else if v == 0x0020
    then some yf
    else if v == 0x0040
    then some fx
    else if v == 0x0080
    then some fy
    else none

-- `TryFrom<Atom>`
unfoldable pub try_from_atom : Text → Option OpDeclSpec
try_from_atom a =
    if text_eq a (codes "xfx")
    then some xfx
    else if text_eq a (codes "xfy")
    then some xfy
    else if text_eq a (codes "yfx")
    then some yfx
    else if text_eq a (codes "fx")
    then some fx
    else if text_eq a (codes "fy")
    then some fy
    else if text_eq a (codes "xf")
    then some xf
    else if text_eq a (codes "yf")
    then some yf
    else none

-- A specifier is recovered from its byte and from its name.
pub try_from-value :
    (s : OpDeclSpec) → (try_from_u8 (value s) ≡ some s) × (try_from_atom (get_spec s) ≡ some s)
unfolding try_from_u8 try_from_atom get_spec
try_from-value xfx = (refl, refl)
try_from-value _ = (refl, refl)
