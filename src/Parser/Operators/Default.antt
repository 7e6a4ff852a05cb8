-- ===== src/Parser/Operators/Default.antt =====
-- `get_op_desc` of src/parser/parser.rs in the directory that `default_op_dir` of src/parser/ast.rs
-- fills.
use mathlib.Core.Path.{subst}
use Prim.Native.Nat.{bit_or}
use contrib_scryer_prolog.Base.{
  ap, ℕ, zero, suc, ltb, arith, false, ◌≡◌, refl, true, Option, none, some, if◌then◌else◌,
  Bool-cases, inl, inr, ◌+◌, ◌==◌, ◌&&◌, not,
}
use contrib_scryer_prolog.Base.Text.{Text, codes, text_eq, eq_of_text_eq}
use contrib_scryer_prolog.Ast.OpDeclSpec.{
  OpDeclSpec, value, Fixity, infix_op, postfix_op, prefix_op, xfx, fx, xfy,
}
use contrib_scryer_prolog.Ast.Flags.{is_negate}
use contrib_scryer_prolog.Ast.OpDir.{
  IndexMap, CompositeOpDir, OpDesc, build_with, default_op_dir, same_key, fixity_eq, composite_get,
}
use contrib_scryer_prolog.Parser.Operators.{
  CompositeOpDesc, get_op_desc, no_op, with_prefix, with_postfix, with_infix,
}

-- The operators that are there before any program is read: `:-` and `?-` before a directive or a
-- query, `:-` in a rule, and the comma.
abbrev pub default_desc : Text → Option CompositeOpDesc
default_desc name =
    if text_eq (codes ":-") name
    then some (record { pre = 1200; inf = 1200; post = 0; spec = 0x0041 })
    else if text_eq (codes "?-") name
    then some (record { pre = 1200; inf = 0; post = 0; spec = 0x0040 })
    else if text_eq (codes ",") name
    then some (record { pre = 0; inf = 1000; post = 0; spec = 0x0002 })
    else none

abbrev entry : Text → Fixity → Option OpDesc
entry name fix =
    if same_key (codes ",", infix_op) (name, fix)
    then some (build_with 1000 xfy)
    else if same_key (codes "?-", prefix_op) (name, fix)
    then some (build_with 1200 fx)
    else if same_key (codes ":-", prefix_op) (name, fix)
    then some (build_with 1200 fx)
    else if same_key (codes ":-", infix_op) (name, fix)
    then some (build_with 1200 xfx)
    else none

bits_of : (spec : OpDeclSpec) → bit_or 0 (value spec) ≡ value spec
bits_of xfx = refl
bits_of _ = refl

-- `get_op_desc` of a name, from the three entries of the name.
abbrev described : Text → Option OpDesc → Option OpDesc → Option OpDesc → Option CompositeOpDesc
described name pre post inf =
    let d = with_infix inf (with_postfix post (with_prefix name pre no_op)) in
    if (d.pre + d.post + d.inf == 0) && not (is_negate d.spec) then none else some d

abbrev IsFound : Text → Type 0
IsFound name =
    described name (entry name prefix_op) (entry name postfix_op) (entry name infix_op)
    ≡ default_desc name

at_operator :
    (operator name : Text) → text_eq operator name ≡ true → IsFound operator → IsFound name
at_operator operator name h found = subst IsFound (eq_of_text_eq operator name h) found

entries_desc : (name : Text) → IsFound name
unfolding is_negate
entries_desc name = elim (Bool-cases (text_eq (codes ":-") name)) [
  | inl h ↦ at_operator (codes ":-") name h refl
  | inr h ↦ elim (Bool-cases (text_eq (codes "?-") name)) [
    | inl q ↦ at_operator (codes "?-") name q refl
    | inr q ↦ elim (Bool-cases (text_eq (codes ",") name)) [
      | inl c ↦ at_operator (codes ",") name c refl
      | inr c ↦ rw (h, q, c) refl
    ]
  ]
]

module _ ⦃i : IndexMap⦄ where
  abbrev pub with_primary : Option i.OpDir → CompositeOpDir
  with_primary primary = record { primary_op_dir = primary; secondary_op_dir = default_op_dir }

  get_at-default :
      (name : Text) (fix : Fixity) → i.get_at default_op_dir (name, fix) ≡ entry name fix
  unfolding default_op_dir
  get_at-default name fix =
      rw
        (
          i.get_at-insert _ (codes ",", infix_op) (name, fix) _,
          i.get_at-insert _ (codes "?-", prefix_op) (name, fix) _,
          i.get_at-insert _ (codes ":-", prefix_op) (name, fix) _,
          i.get_at-insert _ (codes ":-", infix_op) (name, fix) _,
          i.get_at-new (name, fix),
        )
        refl

  composite_get-default :
      (name : Text) (fix : Fixity) → composite_get (with_primary none) name fix ≡ entry name fix
  unfolding composite_get
  composite_get-default name fix = get_at-default name fix

  composite_get-empty :
      (name : Text) (fix : Fixity)
      → composite_get (with_primary (some i.new)) name fix ≡ entry name fix
  unfolding composite_get
  composite_get-empty name fix = rw (i.get_at-new (name, fix)) (get_at-default name fix)

  from_entries :
      (dir : CompositeOpDir) (name : Text)
      → ((fix : Fixity) → composite_get dir name fix ≡ entry name fix)
      → get_op_desc name dir ≡ default_desc name
  unfolding get_op_desc
  from_entries dir name e =
      rw (get_op_desc, e prefix_op, e postfix_op, e infix_op) (entries_desc name)

  -- A directory with one declaration of an infix comma.
  abbrev pub with_comma : ℕ → OpDeclSpec → i.OpDir
  with_comma prec spec = i.insert i.new (codes ",", infix_op) (build_with prec spec)

  get_at-with_comma :
      (prec : ℕ) (spec : OpDeclSpec) (fix : Fixity)
      → i.get_at (with_comma prec spec) (codes ",", fix)
        ≡ (if fixity_eq infix_op fix then some (build_with prec spec) else none)
  get_at-with_comma prec spec fix =
      rw
        (
          i.get_at-insert i.new (codes ",", infix_op) (codes ",", fix) (build_with prec spec),
          i.get_at-new (codes ",", fix),
        )
        refl

  composite_get-comma :
      (prec : ℕ) (spec : OpDeclSpec) (fix : Fixity)
      → composite_get (with_primary (some (with_comma prec spec))) (codes ",") fix
        ≡ (if fixity_eq infix_op fix then some (build_with prec spec) else none)
  unfolding composite_get
  composite_get-comma prec spec infix_op = rw (get_at-with_comma prec spec infix_op) refl
  composite_get-comma prec spec prefix_op =
      rw (get_at-with_comma prec spec prefix_op) (get_at-default (codes ",") prefix_op)
  composite_get-comma prec spec postfix_op =
      rw (get_at-with_comma prec spec postfix_op) (get_at-default (codes ",") postfix_op)

  -- A declared comma: at priority 0 it is no operator.
  abbrev pub comma_desc : ℕ → OpDeclSpec → Option CompositeOpDesc
  comma_desc prec spec =
      if prec == 0 then none else some (record { pre = 0; inf = prec; post = 0; spec = value spec })

  comma_entries :
      (prec : ℕ) (spec : OpDeclSpec)
      → described (codes ",") none none (some (build_with prec spec)) ≡ comma_desc prec spec
  unfolding is_negate
  comma_entries zero spec = refl
  comma_entries (suc prec) spec =
      let positive : ltb 0 (suc prec) ≡ true = ground arith in
      let sum : (0 + 0 + suc prec == 0) ≡ false = ground arith in
      let not_zero : (suc prec == 0) ≡ false = ground arith in
      rw (positive, sum, not_zero)
        (ap (λ bits. some (record { pre = 0; inf = suc prec; post = 0; spec = bits }))
          (bits_of spec))

  get_op_desc-comma :
      (prec : ℕ) (spec : OpDeclSpec)
      → get_op_desc (codes ",") (with_primary (some (with_comma prec spec))) ≡ comma_desc prec spec
  unfolding get_op_desc
  get_op_desc-comma prec spec =
      let e = composite_get-comma prec spec in
      rw (get_op_desc, e prefix_op, e postfix_op, e infix_op) (comma_entries prec spec)

  -- Before an operator is declared, `:-`, `?-` and the comma are the operators, at their priorities
  -- and with their kinds, and no other name is one, without a primary directory and with an empty
  -- one. An infix comma that the primary directory declares takes the place of the default one, and
  -- at priority 0 the comma is no operator.
  pub get_op_desc-default :
      (name : Text) (prec : ℕ) (spec : OpDeclSpec)
      → (get_op_desc name (with_primary none) ≡ default_desc name)
        × (get_op_desc name (with_primary (some i.new)) ≡ default_desc name)
        × (get_op_desc (codes ",") (with_primary (some (with_comma prec spec)))
            ≡ comma_desc prec spec)
  get_op_desc-default name prec spec = (
    from_entries (with_primary none) name (composite_get-default name),
    from_entries (with_primary (some i.new)) name (composite_get-empty name),
    get_op_desc-comma prec spec,
  )
