-- ===== src/CharReader/Utf8/Valid.antt =====
-- Valid bytes, and their characters.
use contrib_scryer_prolog.Base.{
  ℕ, zero, suc, ◌≤◌, ◌<◌, ◌≡◌, refl, sym, ◌∙◌, ap, true, none, some, List, [], ◌∷◌, ◌++◌, length,
  arith, Option-cases, ◌≢◌, inl, inr, length-append,
}
use contrib_scryer_prolog.CharReader.Utf8.{
  encode_utf8, len_utf8, decode, is_char, Utf8, valid, invalid, utf8_from, from_utf8, push_char,
}
use contrib_scryer_prolog.CharReader.Utf8.Encode.{length-encode_utf8, decode-encode_utf8}
use contrib_scryer_prolog.CharReader.Utf8.Decode.{decode-Decodes}

no_char : (c : ℕ) (cs : List ℕ) → invalid 0 ≢ valid (c ∷ cs)
no_char c cs h = cc

pushed : (d c : ℕ) (cs : List ℕ) (u : Utf8) → push_char d u ≡ valid (c ∷ cs) → d ≡ c
pushed d c cs (valid ds) h = cc
pushed d c cs (invalid n) h = cc

utf8_from-none :
    (fuel b : ℕ) (bs : List ℕ) → decode (b ∷ bs) ≡ none → utf8_from (suc fuel) (b ∷ bs) ≡ invalid 0
unfolding utf8_from
utf8_from-none fuel b bs h = rw (h, utf8_from) refl

utf8_from-some :
    (fuel b : ℕ) (bs : List ℕ) (d : ℕ) (rest : List ℕ)
    → decode (b ∷ bs) ≡ some (d, rest)
    → utf8_from (suc fuel) (b ∷ bs) ≡ push_char d (utf8_from fuel rest)
unfolding utf8_from
utf8_from-some fuel b bs d rest h = rw (h, utf8_from) refl

-- Valid bytes start with the encoding of their first character.
pub first_char :
    (fuel c : ℕ) (cs bs : List ℕ)
    → utf8_from fuel bs ≡ valid (c ∷ cs)
    → (rest : List ℕ) × (bs ≡ encode_utf8 c ++ rest)
unfolding utf8_from
first_char fuel c cs [] h = cc
first_char zero c cs (b ∷ bs) h = cc
first_char (suc fuel) c cs (b ∷ bs) h = elim (Option-cases (decode (b ∷ bs))) [
  | inl e ↦ absurd (no_char c cs (sym (utf8_from-none fuel b bs e) ∙ h))
  | inr ((d, rest), e) ↦ (
    rest,
    sym (
        decode-Decodes (b ∷ bs) c rest (
          e
          ∙ ap (λ k. some (k, rest))
              (pushed d c cs (utf8_from fuel rest) (sym (utf8_from-some fuel b bs d rest e) ∙ h)))),
  )
]

length-encode_utf8-pos : (c : ℕ) → 0 < len_utf8 c
unfolding len_utf8
length-encode_utf8-pos c = ground arith

shorter : (bs rest : List ℕ) (c : ℕ) → decode bs ≡ some (c, rest) → length rest < length bs
shorter bs rest c h =
    let e = ap length (decode-Decodes bs c rest h) in
    omega
      (arith, length-append (encode_utf8 c) rest, length-encode_utf8 c, length-encode_utf8-pos c)

-- More fuel than bytes makes no difference.
utf8_from-fuel :
    (f g : ℕ) (bs : List ℕ) → length bs ≤ f → length bs ≤ g → utf8_from f bs ≡ utf8_from g bs
unfolding utf8_from
utf8_from-fuel f g [] h k = refl
utf8_from-fuel zero g (b ∷ bs) h k = absurd (omega arith)
utf8_from-fuel (suc f) zero (b ∷ bs) h k = absurd (omega arith)
utf8_from-fuel (suc f) (suc g) (b ∷ bs) h k = elim (Option-cases (decode (b ∷ bs))) [
  | inl e ↦ utf8_from-none f b bs e ∙ sym (utf8_from-none g b bs e)
  | inr ((d, rest), e) ↦
      let l : length rest < suc (length bs) = shorter (b ∷ bs) rest d e in
      utf8_from-some f b bs d rest e
      ∙ ap (push_char d) (utf8_from-fuel f g rest (omega arith) (omega arith))
      ∙ sym (utf8_from-some g b bs d rest e)
]

from_utf8-decode :
    (l : List ℕ) (c : ℕ) (rest : List ℕ)
    → decode l ≡ some (c, rest)
    → from_utf8 l ≡ push_char c (from_utf8 rest)
unfolding from_utf8 decode
from_utf8-decode [] c rest h = cc
from_utf8-decode (b ∷ bs) c rest h =
    let k : length rest < suc (length bs) = shorter (b ∷ bs) rest c h in
    utf8_from-some (length bs) b bs c rest h
    ∙ ap (push_char c) (utf8_from-fuel (length bs) (length rest) rest (omega arith) (omega arith))

-- A character in front of valid bytes.
pub from_utf8-encode_utf8 :
    (c : ℕ) (bs cs : List ℕ)
    → is_char c ≡ true
    → from_utf8 bs ≡ valid cs
    → from_utf8 (encode_utf8 c ++ bs) ≡ valid (c ∷ cs)
from_utf8-encode_utf8 c bs cs h e =
    from_utf8-decode (encode_utf8 c ++ bs) c bs (decode-encode_utf8 c bs h) ∙ ap (push_char c) e

pub is_nonempty : (c : ℕ) (bs : List ℕ) → 0 < length (encode_utf8 c ++ bs)
is_nonempty c bs =
    omega (arith, length-append (encode_utf8 c) bs, length-encode_utf8 c, length-encode_utf8-pos c)
