-- ===== src/CharReader/Utf8/Decode.antt =====
-- Bytes that are decoded as UTF-8 are the encoding of what they give.
use contrib_scryer_prolog.Base.{
  ℕ, ◌+◌, ◌-◌, ◌*◌, ◌/◌, ◌≤◌, ◌<◌, ◌≡◌, refl, ◌∙◌, ap, Bool, true, false, ◌&&◌, Option, none, some,
  List, [], ◌∷◌, ◌++◌, ltb, if◌then◌else◌, arith, Bool-cases, inl, inr,
}
use contrib_scryer_prolog.Chars.{between}
use contrib_scryer_prolog.CharReader.Utf8.{
  continuation, encode_utf8, is_continuation, second_of_three, second_of_four, two_bytes,
  three_bytes, four_bytes, decode,
}

byte_two :
    (b b₁ : ℕ)
    → between 194 223 b ≡ true
    → is_continuation b₁ ≡ true
    → encode_utf8 ((b - 192) * 64 + (b₁ - 128)) ≡ b ∷ b₁ ∷ []
unfolding encode_utf8
byte_two b b₁ h k = ground arith

in_three :
    (b b₁ b₂ c : ℕ)
    → between 224 239 b ≡ true
    → second_of_three b b₁ ≡ true
    → is_continuation b₂ ≡ true
    → c ≡ (b - 224) * 4096 + (b₁ - 128) * 64 + (b₂ - 128)
    → (2048 ≤ c)
      × (c < 65536)
      × (224 + c / 4096 ≡ b)
      × (continuation (c / 64) ≡ b₁)
      × (continuation c ≡ b₂)
in_three b b₁ b₂ c h k l e = (ground arith, ground arith, ground arith, ground arith, ground arith)

in_four :
    (b b₁ b₂ b₃ c : ℕ)
    → between 240 244 b ≡ true
    → second_of_four b b₁ ≡ true
    → is_continuation b₂ ≡ true
    → is_continuation b₃ ≡ true
    → c ≡ (b - 240) * 262144 + (b₁ - 128) * 4096 + (b₂ - 128) * 64 + (b₃ - 128)
    → (65536 ≤ c)
      × (240 + c / 262144 ≡ b)
      × (continuation (c / 4096) ≡ b₁)
      × (continuation (c / 64) ≡ b₂)
      × (continuation c ≡ b₃)
in_four b b₁ b₂ b₃ c h k l m e =
    (ground arith, ground arith, ground arith, ground arith, ground arith)

encode_three :
    (c : ℕ)
    → 2048 ≤ c
    → c < 65536
    → encode_utf8 c ≡ (224 + c / 4096) ∷ continuation (c / 64) ∷ continuation c ∷ []
unfolding encode_utf8
encode_three c l u = ground arith

encode_four :
    (c : ℕ)
    → 65536 ≤ c
    → encode_utf8 c
      ≡ (240 + c / 262144) ∷ continuation (c / 4096) ∷ continuation (c / 64) ∷ continuation c ∷ []
unfolding encode_utf8
encode_four c l = ground arith

byte_three :
    (b b₁ b₂ : ℕ)
    → between 224 239 b ≡ true
    → second_of_three b b₁ ≡ true
    → is_continuation b₂ ≡ true
    → encode_utf8 ((b - 224) * 4096 + (b₁ - 128) * 64 + (b₂ - 128)) ≡ b ∷ b₁ ∷ b₂ ∷ []
byte_three b b₁ b₂ h k l =
    let (p, q, r, s, t) =
      in_three b b₁ b₂ ((b - 224) * 4096 + (b₁ - 128) * 64 + (b₂ - 128)) h k l refl in
    encode_three ((b - 224) * 4096 + (b₁ - 128) * 64 + (b₂ - 128)) p q ∙ (rw (r, s, t) refl)

byte_four :
    (b b₁ b₂ b₃ : ℕ)
    → between 240 244 b ≡ true
    → second_of_four b b₁ ≡ true
    → is_continuation b₂ ≡ true
    → is_continuation b₃ ≡ true
    → encode_utf8 ((b - 240) * 262144 + (b₁ - 128) * 4096 + (b₂ - 128) * 64 + (b₃ - 128))
      ≡ b ∷ b₁ ∷ b₂ ∷ b₃ ∷ []
byte_four b b₁ b₂ b₃ h k l m =
    let (p, q, r, s, t) =
      in_four b b₁ b₂ b₃ ((b - 240) * 262144 + (b₁ - 128) * 4096 + (b₂ - 128) * 64 + (b₃ - 128)) h k
        l m refl in
    encode_four ((b - 240) * 262144 + (b₁ - 128) * 4096 + (b₂ - 128) * 64 + (b₃ - 128)) p
    ∙ (rw (q, r, s, t) refl)

both : (b c : Bool) → (b && c) ≡ true → (b ≡ true) × (c ≡ true)
both true c h = (refl, h)
both false c h = cc

-- What a decoder gives is encoded as the bytes it has taken.
abbrev pub Decodes : List ℕ → Option (ℕ × List ℕ) → Type 0
Decodes bs o = (c : ℕ) (rest : List ℕ) → o ≡ some (c, rest) → encode_utf8 c ++ rest ≡ bs

taken :
    (bs : List ℕ) (c c' : ℕ) (r r' : List ℕ)
    → encode_utf8 c ++ r ≡ bs
    → ◌≡◌ {A = Option (ℕ × List ℕ)} (some (c, r)) (some (c', r'))
    → encode_utf8 c' ++ r' ≡ bs
taken bs c c' r r' h e = cc

Decodes-if :
    (bs : List ℕ) (b : Bool) (c : ℕ) (r : List ℕ)
    → (b ≡ true → encode_utf8 c ++ r ≡ bs)
    → Decodes bs (if b then some (c, r) else none)
Decodes-if bs true c r h c' r' e = taken bs c c' r r' (h refl) e
Decodes-if bs false c r h c' r' e = cc

two_Decodes : (b : ℕ) (bs : List ℕ) → between 194 223 b ≡ true → Decodes (b ∷ bs) (two_bytes b bs)
two_Decodes b [] h = λ c rest e. cc
two_Decodes b (b₁ ∷ bs) h =
    Decodes-if (b ∷ b₁ ∷ bs) (is_continuation b₁) ((b - 192) * 64 + (b₁ - 128)) bs
      (λ k. ap (λ l. l ++ bs) (byte_two b b₁ h k))

three_Decodes :
    (b : ℕ) (bs : List ℕ) → between 224 239 b ≡ true → Decodes (b ∷ bs) (three_bytes b bs)
three_Decodes b [] h = λ c rest e. cc
three_Decodes b (b₁ ∷ []) h = λ c rest e. cc
three_Decodes b (b₁ ∷ b₂ ∷ bs) h =
    Decodes-if (b ∷ b₁ ∷ b₂ ∷ bs) (second_of_three b b₁ && is_continuation b₂) _ bs (λ k.
      let (p, q) = both (second_of_three b b₁) (is_continuation b₂) k in
      ap (λ l. l ++ bs) (byte_three b b₁ b₂ h p q))

four_Decodes : (b : ℕ) (bs : List ℕ) → between 240 244 b ≡ true → Decodes (b ∷ bs) (four_bytes b bs)
four_Decodes b [] h = λ c rest e. cc
four_Decodes b (b₁ ∷ []) h = λ c rest e. cc
four_Decodes b (b₁ ∷ b₂ ∷ []) h = λ c rest e. cc
four_Decodes b (b₁ ∷ b₂ ∷ b₃ ∷ bs) h =
    Decodes-if (b ∷ b₁ ∷ b₂ ∷ b₃ ∷ bs)
      (second_of_four b b₁ && is_continuation b₂ && is_continuation b₃) _ bs
      (λ k.
        let (p, t) = both (second_of_four b b₁ && is_continuation b₂) (is_continuation b₃) k in
        let (q, r) = both (second_of_four b b₁) (is_continuation b₂) p in
        ap (λ l. l ++ bs) (byte_four b b₁ b₂ b₃ h q r t))

one_byte : (b : ℕ) → ltb b 128 ≡ true → encode_utf8 b ≡ b ∷ []
unfolding encode_utf8
one_byte b h = rw h refl

-- Bytes that are decoded are the encoding of the character and the bytes that are left.
pub decode-Decodes : (bs : List ℕ) → Decodes bs (decode bs)
unfolding decode
decode-Decodes [] c rest e = cc
decode-Decodes (b ∷ bs) c rest e = elim (Bool-cases (ltb b 128)) [
  | inl h ↦ taken (b ∷ bs) b c bs rest (ap (λ l. l ++ bs) (one_byte b h)) (rw h at e)
  | inr h ↦ elim (Bool-cases (between 194 223 b)) [
    | inl k ↦ two_Decodes b bs k c rest (rw (h, k) at e)
    | inr k ↦ elim (Bool-cases (between 224 239 b)) [
      | inl l ↦ three_Decodes b bs l c rest (rw (h, k, l) at e)
      | inr l ↦ elim (Bool-cases (between 240 244 b)) [
        | inl m ↦ four_Decodes b bs m c rest (rw (h, k, l, m) at e)
        | inr m ↦
            let absent : ◌≡◌ {A = Option (ℕ × List ℕ)} none (some (c, rest)) =
              rw (h, k, l, m) at e in
            cc
      ]
    ]
  ]
]
