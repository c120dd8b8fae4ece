-- ===== src/Encoding/Utf8.antt =====
-- The validation of UTF-8 decides exactly the encodings of scalar values.
use repotraverse.Prelude.{
  ℕ, zero, suc, ◌+◌, ◌*◌, ◌%◌, ◌≤◌, ◌<◌, ◌≡◌, refl, ap, ◌∙◌, ◌≢◌, ◌↔◌, ◌⊎◌, inl, inr, true, List,
  [], ◌∷◌, ◌++◌, arith, ltb, within, Bool-cases, Bytes, length, drop, length-append, drop-append,
  All,
}
use repotraverse.Encoding.{utf8_bytes, utf8_sequence, multi_byte, valid_loop, valid_utf8}

-- A Unicode scalar value: a code point that is no surrogate.
abbrev pub IsScalar : ℕ → Type 0
IsScalar v = (v < 0xd800) ⊎ ((0xe000 ≤ v) × (v ≤ 0x10ffff))

one_byte :
    (v : ℕ) (rest : Bytes) → v < 0x80 → utf8_sequence (utf8_bytes v ++ rest) ≡ length (utf8_bytes v)
unfolding utf8_sequence multi_byte utf8_bytes
one_byte v rest h = ground arith

two_bytes :
    (v : ℕ) (rest : Bytes)
    → 0x80 ≤ v
    → v < 0x800
    → utf8_sequence (utf8_bytes v ++ rest) ≡ length (utf8_bytes v)
unfolding utf8_sequence multi_byte utf8_bytes
two_bytes v rest h k = ground arith

three_bytes :
    (v : ℕ) (rest : Bytes)
    → IsScalar v
    → 0x800 ≤ v
    → v < 0x10000
    → utf8_sequence (utf8_bytes v ++ rest) ≡ length (utf8_bytes v)
unfolding utf8_sequence multi_byte utf8_bytes
three_bytes v rest sc h k = ground arith

four_bytes :
    (v : ℕ) (rest : Bytes)
    → 0x10000 ≤ v
    → v < 0x110000
    → utf8_sequence (utf8_bytes v ++ rest) ≡ length (utf8_bytes v)
unfolding utf8_sequence multi_byte utf8_bytes
four_bytes v rest h k = ground arith

-- The first `n` bytes of the text are the sequence of a scalar value.
abbrev pub Decodes : Bytes → ℕ → Type 0
Decodes s n = (v : ℕ) × IsScalar v × (s ≡ utf8_bytes v ++ drop n s) × (n ≡ length (utf8_bytes v))

multi_byte_two :
    (a : ℕ) (s : Bytes)
    → 0xc2 ≤ a
    → a ≤ 0xdf
    → multi_byte 2 (a % 32) s ≢ 0
    → Decodes (a ∷ s) (multi_byte 2 (a % 32) s)
unfolding multi_byte utf8_bytes
multi_byte_two a [] h k e = ground arith
multi_byte_two a (b ∷ t) h k e = (a % 32 * 64 + b % 64, ground arith, ground arith, ground arith)

multi_byte_three :
    (a : ℕ) (s : Bytes)
    → 0xe0 ≤ a
    → a ≤ 0xef
    → multi_byte 3 (a % 16) s ≢ 0
    → Decodes (a ∷ s) (multi_byte 3 (a % 16) s)
unfolding multi_byte utf8_bytes
multi_byte_three a [] h k e = ground arith
multi_byte_three a (b ∷ []) h k e = ground arith
multi_byte_three a (b ∷ c ∷ t) h k e =
    ((a % 16 * 64 + b % 64) * 64 + c % 64, ground arith, ground arith, ground arith)

multi_byte_four :
    (a : ℕ) (s : Bytes)
    → 0xf0 ≤ a
    → a ≤ 0xf4
    → multi_byte 4 (a % 8) s ≢ 0
    → Decodes (a ∷ s) (multi_byte 4 (a % 8) s)
unfolding multi_byte utf8_bytes
multi_byte_four a [] h k e = ground arith
multi_byte_four a (b ∷ []) h k e = ground arith
multi_byte_four a (b ∷ c ∷ []) h k e = ground arith
multi_byte_four a (b ∷ c ∷ d ∷ t) h k e =
    (((a % 8 * 64 + b % 64) * 64 + c % 64) * 64 + d % 64, ground arith, ground arith, ground arith)

-- A length that is not 0 is the length of the sequence of a scalar value, which the text starts with.
pub utf8_sequence_sound : (s : Bytes) → utf8_sequence s ≢ 0 → Decodes s (utf8_sequence s)
unfolding utf8_sequence utf8_bytes
utf8_sequence_sound [] h = absurd (h refl)
utf8_sequence_sound (a ∷ s) h = elim (Bool-cases (ltb a 0x80)) [
  | inl p ↦ rw p (a, ground arith, ground arith, ground arith)
  | inr p ↦ elim (Bool-cases (within 0xc2 0xdf a)) [
    | inl q ↦ rw (p, q) (multi_byte_two a s (ground arith) (ground arith) (ground arith))
    | inr q ↦ elim (Bool-cases (within 0xe0 0xef a)) [
      | inl r ↦ rw (p, q, r) (multi_byte_three a s (ground arith) (ground arith) (ground arith))
      | inr r ↦ elim (Bool-cases (within 0xf0 0xf4 a)) [
        | inl t ↦ rw (p, q, r, t) (multi_byte_four a s (ground arith) (ground arith) (ground arith))
        | inr t ↦ absurd (ground arith)
      ]
    ]
  ]
]

pub utf8_sequence-utf8_bytes :
    (v : ℕ) (rest : Bytes)
    → IsScalar v
    → utf8_sequence (utf8_bytes v ++ rest) ≡ length (utf8_bytes v)
utf8_sequence-utf8_bytes v rest h =
    ground (arith, one_byte v rest, two_bytes v rest, three_bytes v rest, four_bytes v rest)

-- The UTF-8 form of a sequence of code points.
abbrev pub encode : List ℕ → Bytes
encode [] = []
encode (v ∷ vs) = utf8_bytes v ++ encode vs

-- A text is well formed if it is the UTF-8 form of scalar values.
abbrev pub IsUtf8 : Bytes → Type 0
IsUtf8 s = (vs : List ℕ) × All IsScalar vs × (s ≡ encode vs)

pub utf8_bytes_pos : (v : ℕ) → 0 < length (utf8_bytes v)
unfolding utf8_bytes
utf8_bytes_pos v = ground arith

valid_loop_sound : (fuel : ℕ) (s : Bytes) → valid_loop fuel s ≡ true → IsUtf8 s
unfolding valid_loop
valid_loop_sound fuel [] h = ([], tt, refl)
valid_loop_sound zero (c ∷ s) h = cc
valid_loop_sound (suc fuel) (c ∷ s) h =
    let (v, sc, e, n) = utf8_sequence_sound (c ∷ s) (ground arith) in
    let (vs, scs, e') =
      valid_loop_sound fuel (drop (utf8_sequence (c ∷ s)) (c ∷ s)) (ground arith) in
    (v ∷ vs, (sc, scs), e ∙ ap (λ t. utf8_bytes v ++ t) e')

valid_loop-suc :
    (fuel : ℕ) (s : Bytes)
    → s ≢ []
    → utf8_sequence s ≢ 0
    → valid_loop (suc fuel) s ≡ valid_loop fuel (drop (utf8_sequence s) s)
unfolding valid_loop
valid_loop-suc fuel [] h k = absurd (h refl)
valid_loop-suc fuel (c ∷ s) h k = ground arith

append-ne-nil : (s t : Bytes) → 0 < length s → s ++ t ≢ []
append-ne-nil [] t h = absurd (omega arith)
append-ne-nil (c ∷ s) t h = ground arith

valid_loop-nil : (fuel : ℕ) → valid_loop fuel [] ≡ true
unfolding valid_loop
valid_loop-nil zero = refl
valid_loop-nil (suc n) = refl

valid_loop-encode :
    (fuel : ℕ) (vs : List ℕ)
    → All IsScalar vs
    → length (encode vs) ≤ fuel
    → valid_loop fuel (encode vs) ≡ true
valid_loop-encode fuel [] sc h = valid_loop-nil fuel
valid_loop-encode zero (v ∷ vs) sc h =
    absurd (omega (arith, utf8_bytes_pos v, length-append (utf8_bytes v) (encode vs)))
valid_loop-encode (suc fuel) (v ∷ vs) sc h =
    let n = utf8_sequence-utf8_bytes v (encode vs) sc.0 in
    let pos = utf8_bytes_pos v in
    valid_loop-suc fuel _ (append-ne-nil (utf8_bytes v) (encode vs) pos) (omega arith)
    ∙ rw (n, drop-append (utf8_bytes v) (encode vs))
        (valid_loop-encode fuel vs sc.1 (omega (arith, length-append (utf8_bytes v) (encode vs))))

-- `valid_utf8` accepts a text exactly when it is the UTF-8 form of a sequence of scalar values.
pub valid_utf8_iff : (s : Bytes) → (valid_utf8 s ≡ true) ↔ IsUtf8 s
unfolding valid_utf8
valid_utf8_iff s = (
  valid_loop_sound (length s) s,
  λ (vs, sc, e). rw e (valid_loop-encode (length (encode vs)) vs sc (omega arith)),
)
