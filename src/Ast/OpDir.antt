-- ===== src/Ast/OpDir.antt =====
-- Operator descriptors and directories, src/parser/ast.rs. `OpDir` is an `IndexMap` of the
-- `indexmap` crate, which is an interface here; the bit packing of `OpDesc` is the `bitfield`
-- macro's, so a descriptor holds its two fields decoded.
use contrib_scryer_prolog.Base.{
  ℕ, ◌≡◌, Bool, true, false, not, ◌&&◌, Option, none, some, if◌then◌else◌,
}
use contrib_scryer_prolog.Base.Text.{Text, codes, text_eq}
use contrib_scryer_prolog.Ast.OpDeclSpec.{
  OpDeclSpec, xfx, xfy, fx, Fixity, infix_op, postfix_op, prefix_op, is_infix,
}

pub record OpDesc : Type 0 where
  pub prec : ℕ
  pub spec : OpDeclSpec

abbrev pub build_with : ℕ → OpDeclSpec → OpDesc
build_with prec spec = record { prec = prec; spec = spec }

abbrev pub get : OpDesc → ℕ × OpDeclSpec
get d = (d.prec, d.spec)

unfoldable pub arity : OpDesc → ℕ
unfolding is_infix
arity d = if not (is_infix d.spec) then 1 else 2

abbrev pub fixity_eq : Fixity → Fixity → Bool
fixity_eq infix_op infix_op = true
fixity_eq postfix_op postfix_op = true
fixity_eq prefix_op prefix_op = true
fixity_eq _ _ = false

-- The equality of keys, as `Eq` is derived for them.
abbrev pub same_key : Text × Fixity → Text × Fixity → Bool
same_key (n, f) (m, g) = text_eq n m && fixity_eq f g

-- What the source calls of the `indexmap` crate for the type `OpDir`. An insertion replaces the
-- value of a key that is there, and leaves the other keys alone.
pub record IndexMap : Type 1 where
  pub OpDir : Type 0
  pub new : OpDir
  pub get_at : OpDir → Text × Fixity → Option OpDesc
  pub insert : OpDir → Text × Fixity → OpDesc → OpDir
  pub get_at-new : (key : Text × Fixity) → get_at new key ≡ none
  pub get_at-insert :
      (dir : OpDir) (key other : Text × Fixity) (desc : OpDesc)
      → get_at (insert dir key desc) other
        ≡ (if same_key key other then some desc else get_at dir other)

abbrev or_else : Option OpDesc → Option OpDesc → Option OpDesc
or_else (some d) other = some d
or_else none other = other

module _ ⦃i : IndexMap⦄ where
  unfoldable pub default_op_dir : i.OpDir
  default_op_dir =
      i.insert
        (i.insert
          (i.insert (i.insert i.new (codes ":-", infix_op) (build_with 1200 xfx))
            (codes ":-", prefix_op) (build_with 1200 fx))
          (codes "?-", prefix_op) (build_with 1200 fx))
        (codes ",", infix_op) (build_with 1000 xfy)

  pub record CompositeOpDir : Type 0 where
    pub primary_op_dir : Option i.OpDir
    pub secondary_op_dir : i.OpDir

  -- `CompositeOpDir::get`
  unfoldable pub composite_get : CompositeOpDir → Text → Fixity → Option OpDesc
  composite_get dir name fix =
      let entry : Option OpDesc = elim dir.primary_op_dir [
        | some primary ↦ i.get_at primary (name, fix)
        | none ↦ none
      ] in
      or_else entry (i.get_at dir.secondary_op_dir (name, fix))
