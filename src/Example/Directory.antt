-- ===== src/Example/Directory.antt =====
-- A concrete `IndexMap`: an association list, on which the tests run.
use mathlib.Core.Path.{subst}
use mathlib.Core.Bool.{and-eq-true_iff, false≢true}
use contrib_scryer_prolog.Base.{
  ◌≡◌, refl, true, false, Option, none, some, List, [], ◌∷◌, if◌then◌else◌, arith, Bool-cases, inl,
  inr, sym, ◌∙◌,
}
use contrib_scryer_prolog.Base.Text.{Text, text_eq, text_eq_refl, eq_of_text_eq}
use contrib_scryer_prolog.Ast.OpDeclSpec.{Fixity, infix_op, postfix_op, prefix_op}
use contrib_scryer_prolog.Ast.OpDir.{OpDesc, IndexMap, same_key, fixity_eq}

abbrev pub Entries : Type 0
Entries = List ((Text × Fixity) × OpDesc)

unfoldable pub lookup : Entries → Text × Fixity → Option OpDesc
lookup [] key = none
lookup ((k, d) ∷ dir) key = if same_key k key then some d else lookup dir key

unfoldable pub insert : Entries → Text × Fixity → OpDesc → Entries
insert [] key desc = (key, desc) ∷ []
insert ((k, d) ∷ dir) key desc =
    if same_key k key then (key, desc) ∷ dir else (k, d) ∷ insert dir key desc

fixity_eq_refl : (f : Fixity) → fixity_eq f f ≡ true
fixity_eq_refl infix_op = refl
fixity_eq_refl _ = refl

eq_of_fixity_eq : (f g : Fixity) → fixity_eq f g ≡ true → f ≡ g
eq_of_fixity_eq infix_op infix_op h = refl
eq_of_fixity_eq prefix_op prefix_op h = refl
eq_of_fixity_eq postfix_op postfix_op h = refl
eq_of_fixity_eq infix_op _ h = cc
eq_of_fixity_eq _ _ h = cc

eq_of_same_key : (k l : Text × Fixity) → same_key k l ≡ true → k ≡ l
eq_of_same_key (n, f) (m, g) e =
    let (p, q) = (and-eq-true_iff (text_eq n m) (fixity_eq f g)).0 e in
    let texts : n ≡ m = eq_of_text_eq n m p in
    let fixities : f ≡ g = eq_of_fixity_eq f g q in cc (texts, fixities)

same_key_refl : (k : Text × Fixity) → same_key k k ≡ true
same_key_refl (n, f) =
    (and-eq-true_iff (text_eq n n) (fixity_eq f f)).1 (text_eq_refl n, fixity_eq_refl f)

same_key_of_eq : (k l : Text × Fixity) → k ≡ l → same_key k l ≡ true
same_key_of_eq k l e = subst (λ m. same_key k m ≡ true) e (same_key_refl k)

same_key_replace :
    (k key other : Text × Fixity) → same_key k key ≡ true → same_key k other ≡ same_key key other
same_key_replace k key other h = let e = eq_of_same_key k key h in cc e

same_key_exclusive :
    (k key other : Text × Fixity)
    → same_key k key ≡ false
    → same_key k other ≡ true
    → same_key key other ≡ false
same_key_exclusive k key other apart first = elim (Bool-cases (same_key key other)) [
  | inr e ↦ e
  | inl e ↦
      let same = eq_of_same_key k other first ∙ sym (eq_of_same_key key other e) in
      absurd (false≢true (sym apart ∙ same_key_of_eq k key same))
]

pub lookup-insert :
    (dir : Entries) (key other : Text × Fixity) (desc : OpDesc)
    → lookup (insert dir key desc) other
      ≡ (if same_key key other then some desc else lookup dir other)
unfolding lookup insert
lookup-insert [] key other desc = refl
lookup-insert ((k, d) ∷ dir) key other desc = elim (Bool-cases (same_key k key)) [
  | inl same ↦ rw same (ground (arith, same_key_replace k key other same))
  | inr apart ↦ rw apart (elim (Bool-cases (same_key k other)) [
    | inl first ↦ rw (first, same_key_exclusive k key other apart first) refl
    | inr later ↦ rw later (lookup-insert dir key other desc)
  ])
]

pub lookup-empty : (key : Text × Fixity) → lookup [] key ≡ none
unfolding lookup
lookup-empty key = refl

instance abbrev pub entries : IndexMap
entries = record {
  OpDir = Entries;
  new = [];
  get_at = lookup;
  insert = insert;
  get_at-new = lookup-empty;
  get_at-insert = lookup-insert;
}
