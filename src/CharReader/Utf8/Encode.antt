-- ===== src/CharReader/Utf8/Encode.antt =====
-- Characters in UTF-8 are decoded again.
use contrib_scryer_prolog.Base.{
  ℕ, ◌+◌, ◌-◌, ◌*◌, ◌/◌, ◌%◌, ◌≤◌, ◌<◌, ◌≡◌, refl, ap, true, false, some, List, ◌∷◌, ◌++◌, ltb,
  length, arith, Bool-cases, inl, inr,
}
use contrib_scryer_prolog.Chars.{between}
use contrib_scryer_prolog.CharReader.Utf8.{
  continuation, encode_utf8, len_utf8, is_continuation, second_of_three, second_of_four, two_bytes,
  three_bytes, four_bytes, decode, is_char,
}

pub length-encode_utf8 : (c : ℕ) → length (encode_utf8 c) ≡ len_utf8 c
unfolding encode_utf8 len_utf8
length-encode_utf8 c = ground arith

tail_byte : (c : ℕ) → is_continuation (continuation c) ≡ true
tail_byte c = ground arith

tail_value : (c : ℕ) → continuation c - 128 ≡ c % 64
tail_value c = omega arith

three_value :
    (c : ℕ)
    → c < 65536
    → (224 + c / 4096 - 224) * 4096 + (continuation (c / 64) - 128) * 64 + (continuation c - 128)
      ≡ c
three_value c h = omega arith

four_value :
    (c : ℕ)
    → (240 + c / 262144 - 240) * 262144
        + (continuation (c / 4096) - 128) * 4096
        + (continuation (c / 64) - 128) * 64
        + (continuation c - 128)
      ≡ c
four_value c = omega arith

second_three :
    (c : ℕ)
    → 2048 ≤ c
    → c < 65536
    → is_char c ≡ true
    → second_of_three (224 + c / 4096) (continuation (c / 64)) ≡ true
second_three c l u h = ground arith

second_four :
    (c : ℕ)
    → 65536 ≤ c
    → is_char c ≡ true
    → second_of_four (240 + c / 262144) (continuation (c / 4096)) ≡ true
second_four c l h = ground arith

two :
    (c : ℕ) (rest : List ℕ)
    → 128 ≤ c
    → c < 2048
    → two_bytes (192 + c / 64) (continuation c ∷ rest) ≡ some (c, rest)
two c rest l u = rw (tail_byte c) (ap (λ v. some (v, rest)) (value c))
  where
    value : (c : ℕ) → (192 + c / 64 - 192) * 64 + (continuation c - 128) ≡ c
    value c = omega arith

three :
    (c : ℕ) (rest : List ℕ)
    → 2048 ≤ c
    → c < 65536
    → is_char c ≡ true
    → three_bytes (224 + c / 4096) (continuation (c / 64) ∷ continuation c ∷ rest) ≡ some (c, rest)
three c rest l u h =
    rw (second_three c l u h, tail_byte c) (ap (λ v. some (v, rest)) (three_value c u))

four :
    (c : ℕ) (rest : List ℕ)
    → 65536 ≤ c
    → is_char c ≡ true
    → four_bytes
        (240 + c / 262144)
        (continuation (c / 4096) ∷ continuation (c / 64) ∷ continuation c ∷ rest)
      ≡ some (c, rest)
four c rest l h =
    rw (second_four c l h, tail_byte c, tail_byte (c / 64))
      (ap (λ v. some (v, rest)) (four_value c))

first_three :
    (c : ℕ)
    → 2048 ≤ c
    → c < 65536
    → (ltb (224 + c / 4096) 128 ≡ false)
      × (between 194 223 (224 + c / 4096) ≡ false)
      × (between 224 239 (224 + c / 4096) ≡ true)
first_three c l u = (ground arith, ground arith, ground arith)

first_two :
    (c : ℕ)
    → 128 ≤ c
    → c < 2048
    → (ltb (192 + c / 64) 128 ≡ false) × (between 194 223 (192 + c / 64) ≡ true)
first_two c l u = (ground arith, ground arith)

first_four :
    (c : ℕ)
    → 65536 ≤ c
    → is_char c ≡ true
    → (ltb (240 + c / 262144) 128 ≡ false)
      × (between 194 223 (240 + c / 262144) ≡ false)
      × (between 224 239 (240 + c / 262144) ≡ false)
      × (between 240 244 (240 + c / 262144) ≡ true)
first_four c l h = (ground arith, ground arith, ground arith, ground arith)

-- A character that is encoded is decoded, whatever bytes follow it.
pub decode-encode_utf8 :
    (c : ℕ) (rest : List ℕ) → is_char c ≡ true → decode (encode_utf8 c ++ rest) ≡ some (c, rest)
unfolding decode encode_utf8
decode-encode_utf8 c rest h = elim (Bool-cases (ltb c 128)) [
  | inl k ↦ rw (k, k) refl
  | inr k ↦ elim (Bool-cases (ltb c 2048)) [
    | inl l ↦
        let (p, q) = first_two c (ground arith) (ground arith) in
        rw (k, l, p, q) (two c rest (ground arith) (ground arith))
    | inr l ↦ elim (Bool-cases (ltb c 65536)) [
      | inl m ↦
          let (p, q, r) = first_three c (ground arith) (ground arith) in
          rw (k, l, m, p, q, r) (three c rest (ground arith) (ground arith) h)
      | inr m ↦
          let (p, q, r, t) = first_four c (ground arith) h in
          rw (k, l, m, p, q, r, t) (four c rest (ground arith) h)
    ]
  ]
]
