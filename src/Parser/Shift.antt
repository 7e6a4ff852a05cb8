-- ===== src/Parser/Shift.antt =====
-- `shift`, `shift_op`, `negate_number` and `shift_token` of src/parser/parser.rs.
use Prim.Native.Nat.{bit_and}
use contrib_scryer_prolog.Base.{
  ℕ, ◌+◌, ◌-◌, Bool, true, false, ◌&&◌, ◌||◌, Option, none, some, List, [], ◌∷◌, ltb, if◌then◌else◌,
  length, reverse,
}
use contrib_scryer_prolog.Base.Text.{Text, codes, text_eq}
use contrib_scryer_prolog.Numerics.{Numerics}
use contrib_scryer_prolog.Ast.Error.{unexpected_eof, infinite_float}
use contrib_scryer_prolog.Ast.Fixnum
use contrib_scryer_prolog.Ast.Fixnum.{Fixnum, build_with_char}
use contrib_scryer_prolog.Ast.Flags.{delimiter, term, is_term, is_prefix, is_negate}
use contrib_scryer_prolog.Ast.OpDir.{IndexMap, CompositeOpDir}
use contrib_scryer_prolog.Ast.Term.{
  Term, anon_var, cons, literal, complete_string, var, named, Literal, atom, fixnum, integer,
  rational, f64, code_index_offset,
}
use contrib_scryer_prolog.Chars.{Unicode}
use contrib_scryer_prolog.Lexer.State.{Outcome, ok, err, DoubleQuotes, is_codes}
use contrib_scryer_prolog.Lexer.Token.{
  Token, literal_token, var_token, string_token, open_token, open_ct_token, close_token,
  open_list_token, close_list_token, open_curly_token, close_curly_token, head_tail_separator_token,
  comma_token, end_token,
}
use contrib_scryer_prolog.Parser.Operators.{CompositeOpDesc, get_op_desc}
use contrib_scryer_prolog.Parser.State.{
  TokenType, term_type, open_type, open_ct_type, open_list_type, open_curly_type,
  head_tail_separator_type, comma_type, close_type, close_list_type, close_curly_type, end_type,
  TokenDesc, token_desc, Parser, promote_atom_op,
}
use contrib_scryer_prolog.Parser.PartialString.{nil}
use contrib_scryer_prolog.Parser.ReduceOp.{reduce_op}
use contrib_scryer_prolog.Parser.Compound.{reduce_term}
use contrib_scryer_prolog.Parser.Lists.{reduce_list, incomplete}
use contrib_scryer_prolog.Parser.Brackets.{reduce_brackets, reduce_curly}

-- XFX | XFY | YFX | XF | YF
abbrev pub infix_or_postfix_bits : ℕ
infix_or_postfix_bits = 0x0037

-- FX | FY | NEGATIVE_SIGN
abbrev pub prefix_or_sign_bits : ℕ
prefix_or_sign_bits = 0x02c0

-- `str::trim`, for a class of white space.
abbrev pub trim_start : (ℕ → Bool) → Text → Text
trim_start p [] = []
trim_start p (c ∷ cs) = if p c then trim_start p cs else c ∷ cs

abbrev pub trim : (ℕ → Bool) → Text → Text
trim p s = reverse (trim_start p (reverse (trim_start p s)))

module _ ⦃n : Numerics⦄ where
  -- `double_quotes = codes`: a list of character codes.
  unfoldable pub code_list : Text → Term
  unfolding Fixnum.build_with_unchecked
  code_list [] = nil
  code_list (c ∷ cs) = cons (literal (fixnum (build_with_char c))) (code_list cs)

  -- A string that is no list of codes stays a string. A debug build asserts that the flag is `chars`;
  -- with `atom` the lexer gives no such token.
  abbrev pub string_term : DoubleQuotes → Text → Term
  string_term flag s = if is_codes flag then code_list s else complete_string s

  -- The type of the entry that a token is shifted as, and the term that is pushed with it.
  module _ ⦃u : Unicode⦄ where
    abbrev pub variable_term : Text → Term
    variable_term v =
        if text_eq (trim u.is_whitespace v) (codes "_") then anon_var else var (named v)

    abbrev pub shifted : DoubleQuotes → Token → TokenType × Option Term
    shifted flag (string_token s) = (term_type, some (string_term flag s))
    shifted flag (literal_token c) = (term_type, some (literal c))
    shifted flag (var_token v) = (term_type, some (variable_term v))
    shifted flag comma_token = (comma_type, none)
    shifted flag open_token = (open_type, none)
    shifted flag close_token = (close_type, none)
    shifted flag open_ct_token = (open_ct_type, none)
    shifted flag head_tail_separator_token = (head_tail_separator_type, none)
    shifted flag open_list_token = (open_list_type, none)
    shifted flag close_list_token = (close_list_type, none)
    shifted flag open_curly_token = (open_curly_type, none)
    shifted flag close_curly_token = (close_curly_type, none)
    shifted flag end_token = (end_type, none)

    abbrev pub push_term : Option Term → List Term → List Term
    push_term (some t) ts = t ∷ ts
    push_term none ts = ts

    unfoldable pub shift : Token → ℕ → ℕ → Parser → Parser
    unfolding code_list
    shift token priority spec p =
        let (tt, t) = shifted p.lexer.double_quotes token in
        record p { terms = push_term t p.terms; stack = token_desc tt priority spec ∷ p.stack }

    abbrev pub top_is_term : List TokenDesc → Bool
    top_is_term (td ∷ _) = is_term td.spec
    top_is_term [] = false

    -- An atom that may be prefix and something else, or a sign.
    abbrev pub shift_ambiguous : Text → CompositeOpDesc → Token → Parser → Parser
    shift_ambiguous name d open_ct_token p =
        promote_atom_op name (d.inf + d.post) (bit_and d.spec infix_or_postfix_bits)
          (reduce_op (d.inf + d.post) p)
    shift_ambiguous name d _ p =
        let p' = reduce_op (d.inf + d.post) p in
        if top_is_term p'.stack
        then promote_atom_op name (d.inf + d.post) (bit_and d.spec infix_or_postfix_bits) p'
        else promote_atom_op name d.pre (bit_and d.spec prefix_or_sign_bits) p'

    abbrev pub shift_before : List Token → Text → CompositeOpDesc → Parser → Outcome Bool × Parser
    shift_before [] name d p = (err unexpected_eof, p)
    shift_before (next ∷ _) name d p = (ok true, shift_ambiguous name d next p)

    abbrev pub shift_described : Text → CompositeOpDesc → Parser → Outcome Bool × Parser
    shift_described name d p =
        if (ltb 0 d.pre && ltb 0 (d.inf + d.post)) || is_negate d.spec
        then shift_before p.tokens name d p
        else (
          ok true,
          promote_atom_op name (d.pre + d.inf + d.post) d.spec
              (reduce_op (d.pre + d.inf + d.post) p),
        )

    module _ ⦃i : IndexMap⦄ where
      unfoldable pub shift_op : Text → CompositeOpDir → Parser → Outcome Bool × Parser
      unfolding get_op_desc promote_atom_op reduce_op is_term is_negate
      shift_op name op_dir p = elim (get_op_desc name op_dir) [
        | some d ↦ shift_described name d p
        | none ↦ (ok false, p)
      ]

    -- Whether the number is negated: `-` is on top, read as a prefix operator or as a sign.
    abbrev pub is_sign : List TokenDesc → List Term → Bool
    is_sign (desc ∷ _) (literal (atom name) ∷ _) =
        text_eq name (codes "-") && (is_prefix desc.spec || is_negate desc.spec)
    is_sign _ _ = false

    abbrev pub pop : {A : Type 0} → List A → List A
    pop (_ ∷ xs) = xs
    pop [] = []

    -- `negated` is `constr(negator(n))`, `plain` is `constr(n)`.
    unfoldable pub negate_number : Literal → Literal → Parser → Parser
    unfolding shift is_prefix is_negate
    negate_number plain negated p =
        if is_sign p.stack p.terms
        then shift (literal_token negated) 0 term
            (record p { stack = pop p.stack; terms = pop p.terms })
        else shift (literal_token plain) 0 term p

    abbrev pub done : Parser → Outcome (Unit {0}) × Parser
    done p = (ok tt, p)

    -- A reduction that gives `false` is an incomplete one.
    abbrev pub required : Outcome Bool × Parser → Outcome (Unit {0}) × Parser
    required (ok true, p) = (ok tt, p)
    required (ok false, p) = incomplete p
    required (err e, p) = (err e, p)
    required (Outcome.out_of_fuel, p) = (Outcome.out_of_fuel, p)

    abbrev pub close_with : Bool × Parser → Outcome (Unit {0}) × Parser
    close_with (true, p) = (ok tt, p)
    close_with (false, p) = let (closed, p') = reduce_brackets p in required (ok closed, p')

    abbrev pub operator_or_atom : Text → Outcome Bool × Parser → Outcome (Unit {0}) × Parser
    operator_or_atom name (ok true, p) = (ok tt, p)
    operator_or_atom name (ok false, p) = done (shift (literal_token (atom name)) 0 term p)
    operator_or_atom name (err e, p) = (err e, p)
    operator_or_atom name (Outcome.out_of_fuel, p) = (Outcome.out_of_fuel, p)

    -- The priority and the specifier of `|`.
    abbrev pub separator_of : Option CompositeOpDesc → ℕ × ℕ
    separator_of (some d) = (d.inf, d.spec)
    separator_of none = (1000, delimiter)

    abbrev pub set_bounds : ℕ → List TokenDesc → List TokenDesc
    set_bounds bounds (td ∷ rest) = record td { unfold_bounds = bounds } ∷ rest
    set_bounds bounds [] = []

    abbrev pub shift_separator : ℕ × ℕ → Parser → Parser
    shift_separator (priority, spec) p =
        let p' = reduce_op priority p in
        shift head_tail_separator_token priority spec
          (record p' { stack = set_bounds (length p.stack - length p'.stack) p'.stack })

    abbrev pub forbids_end : List TokenDesc → Bool
    forbids_end [] = false
    forbids_end (td ∷ _) = elim td.tt [
      | open_type ↦ true
      | open_ct_type ↦ true
      | open_list_type ↦ true
      | open_curly_type ↦ true
      | head_tail_separator_type ↦ true
      | comma_type ↦ true
      | _ ↦ false
    ]

    abbrev pub shift_float : n.F64 → Parser → Outcome (Unit {0}) × Parser
    shift_float x p =
        if n.is_infinite x
        then (err (infinite_float p.lexer.line_num p.lexer.col_num), p)
        else done (negate_number (f64 x) (f64 (n.float_neg x)) p)

    module _ ⦃i : IndexMap⦄ where
      unfoldable pub shift_token : Token → CompositeOpDir → Parser → Outcome (Unit {0}) × Parser
      unfolding shift negate_number shift_op reduce_term reduce_brackets reduce_list reduce_curly
          reduce_op get_op_desc Fixnum.neg
      shift_token (string_token s) op_dir p = done (shift (string_token s) 0 term p)
      shift_token (literal_token (integer i)) op_dir p =
          done (negate_number (integer i) (integer (n.int_neg i)) p)
      shift_token (literal_token (rational r)) op_dir p =
          done (negate_number (rational r) (rational (n.rat_neg r)) p)
      shift_token (literal_token (f64 x)) op_dir p = shift_float x p
      shift_token (literal_token (fixnum x)) op_dir p =
          done (negate_number (fixnum x) (fixnum (Fixnum.neg x)) p)
      shift_token (literal_token (atom name)) op_dir p =
          operator_or_atom name (shift_op name op_dir p)
      shift_token (literal_token (code_index_offset i)) op_dir p =
          done (shift (literal_token (code_index_offset i)) 0 term p)
      shift_token (var_token v) op_dir p = done (shift (var_token v) 0 term p)
      shift_token open_token op_dir p = done (shift open_token 1300 delimiter p)
      shift_token open_ct_token op_dir p = done (shift open_ct_token 1300 delimiter p)
      shift_token close_token op_dir p = close_with (reduce_term p)
      shift_token open_list_token op_dir p = done (shift open_list_token 1300 delimiter p)
      shift_token close_list_token op_dir p = required (reduce_list p)
      shift_token open_curly_token op_dir p = done (shift open_curly_token 1300 delimiter p)
      shift_token close_curly_token op_dir p = required (reduce_curly p)
      shift_token head_tail_separator_token op_dir p =
          done (shift_separator (separator_of (get_op_desc (codes "|") op_dir)) p)
      -- XFY
      shift_token comma_token op_dir p = done (shift comma_token 1000 0x0002 (reduce_op 1000 p))
      shift_token end_token op_dir p = if forbids_end p.stack then incomplete p else done p
