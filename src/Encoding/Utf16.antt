-- ===== src/Encoding/Utf16.antt =====
-- UTF-16 decoding is the inverse of UTF-16 encoding.
use repotraverse.Prelude.{
  ℕ, ◌+◌, ◌-◌, ◌*◌, ◌/◌, ◌%◌, ◌<◌, ◌≡◌, refl, sym, ap, ◌∙◌, inl, inr, Bool, true, false, List, [],
  ◌∷◌, ◌++◌, append_assoc, append-nil, arith, ltb, within, if◌then◌else◌, lt→ltb, Bool-cases, Bytes,
  length, length-append, All,
}
use mathlib.Core.Path.{ap₂}
use repotraverse.Encoding.{
  utf8_bytes, decode_utf16, ok, utf16_loop, code_unit, append_utf8, Bool, Bytes, List, ◌∷◌,
}
use repotraverse.Encoding.Utf8.{IsScalar, encode}

-- The two bytes of a code unit, in the order in which they stand.
pub first_byte : Bool → ℕ → ℕ
first_byte true u = u % 256
first_byte false u = u / 256

pub second_byte : Bool → ℕ → ℕ
second_byte true u = u / 256
second_byte false u = u % 256

abbrev pub unit_bytes : Bool → ℕ → Bytes
unit_bytes little u = first_byte little u ∷ second_byte little u ∷ []

-- The UTF-16 form of a code point: one unit, or a surrogate pair.
pub utf16_bytes : Bool → ℕ → Bytes
utf16_bytes little v =
    if ltb v 0x10000
    then unit_bytes little v
    else unit_bytes little (0xd800 + (v - 0x10000) / 1024)
      ++ unit_bytes little (0xdc00 + (v - 0x10000) % 1024)

abbrev pub encode16 : Bool → List ℕ → Bytes
encode16 little [] = []
encode16 little (v ∷ vs) = utf16_bytes little v ++ encode16 little vs

append_utf8_lem : (out : Bytes) (v : ℕ) → append_utf8 out v ≡ out ++ utf8_bytes v
unfolding append_utf8
append_utf8_lem out v = refl

code_unit_lem :
    (little : Bool) (u : ℕ) → code_unit little (first_byte little u) (second_byte little u) ≡ u
unfolding code_unit first_byte second_byte
code_unit_lem true u = omega arith
code_unit_lem false u = omega arith

basic_unit :
    (little : Bool) (v : ℕ) (s out : Bytes)
    → v < 0x10000
    → IsScalar v
    → utf16_loop little (unit_bytes little v ++ s) out ≡ utf16_loop little s (append_utf8 out v)
unfolding utf16_loop
basic_unit little v [] out h sc = ground (arith, code_unit_lem little v)
basic_unit little v (c ∷ []) out h sc = ground (arith, code_unit_lem little v)
basic_unit little v (c ∷ d ∷ s) out h sc = ground (arith, code_unit_lem little v)

surrogate_pair :
    (little : Bool) (v hi lo : ℕ) (s out : Bytes)
    → hi < 1024
    → lo < 1024
    → v ≡ 0x10000 + hi * 1024 + lo
    → utf16_loop little
        (unit_bytes little (0xd800 + hi) ++ (unit_bytes little (0xdc00 + lo) ++ s))
        out
      ≡ utf16_loop little s (append_utf8 out v)
unfolding utf16_loop
surrogate_pair little v hi lo s out h k e =
    let value : 0x10000 + (0xd800 + hi - 0xd800) * 1024 + (0xdc00 + lo - 0xdc00) ≡ v =
      omega arith in
    rw (code_unit_lem little (0xd800 + hi), code_unit_lem little (0xdc00 + lo), value)
      (ground arith)

loop-utf16_bytes :
    (little : Bool) (v : ℕ) (s out : Bytes)
    → IsScalar v
    → utf16_loop little (utf16_bytes little v ++ s) out ≡ utf16_loop little s (append_utf8 out v)
unfolding utf16_bytes
loop-utf16_bytes little v s out sc = elim (Bool-cases (ltb v 0x10000)) [
  | inl p ↦ rw p (basic_unit little v s out (ground arith) sc)
  | inr p ↦ rw p (
      surrogate_pair little v ((v - 0x10000) / 1024) ((v - 0x10000) % 1024) s out (ground arith)
        (omega arith) (ground arith))
]

utf16_loop-nil : (little : Bool) (out : Bytes) → utf16_loop little [] out ≡ ok out
unfolding utf16_loop
utf16_loop-nil little out = refl

utf16_loop-encode16 :
    (little : Bool) (vs : List ℕ) (out : Bytes)
    → All IsScalar vs
    → utf16_loop little (encode16 little vs) out ≡ ok (out ++ encode vs)
utf16_loop-encode16 little [] out sc = utf16_loop-nil little out ∙ ap ok (sym (append-nil out))
utf16_loop-encode16 little (v ∷ vs) out (sc, scs) =
    loop-utf16_bytes little v (encode16 little vs) out sc
    ∙ utf16_loop-encode16 little vs _ scs
    ∙ ap ok (
        ap (λ x. x ++ encode vs) (append_utf8_lem out v)
        ∙ append_assoc out (utf8_bytes v) (encode vs))

length-utf16_bytes : (little : Bool) (v : ℕ) → length (utf16_bytes little v) % 2 ≡ 0
unfolding utf16_bytes
length-utf16_bytes little v = ground arith

length-encode16 : (little : Bool) (vs : List ℕ) → length (encode16 little vs) % 2 ≡ 0
length-encode16 little [] = omega arith
length-encode16 little (v ∷ vs) = omega (
  arith,
  length-append (utf16_bytes little v) (encode16 little vs),
  length-utf16_bytes little v,
  length-encode16 little vs,
)

-- Decoding the UTF-16 form of scalar values, in either byte order, gives their UTF-8 form.
pub decode_utf16-encode16 :
    (little : Bool) (vs : List ℕ)
    → All IsScalar vs
    → decode_utf16 (encode16 little vs) little ≡ ok (encode vs)
unfolding decode_utf16
decode_utf16-encode16 little vs sc =
    rw (length-encode16 little vs) (utf16_loop-encode16 little vs [] sc)

abbrev pub IsByte : ℕ → Type 0
IsByte c = c < 256

unit_bytes_lem :
    (little : Bool) (a b : ℕ)
    → IsByte a
    → IsByte b
    → (unit_bytes little (code_unit little a b) ≡ a ∷ b ∷ []) × (code_unit little a b < 0x10000)
unfolding code_unit first_byte second_byte
unit_bytes_lem true a b p q = ground arith
unit_bytes_lem false a b p q = ground arith

basic_bytes :
    (little : Bool) (a b : ℕ)
    → IsByte a
    → IsByte b
    → a ∷ b ∷ [] ≡ utf16_bytes little (code_unit little a b)
unfolding utf16_bytes
basic_bytes little a b p q =
    let (e, lt) = unit_bytes_lem little a b p q in rw (lt→ltb _ _ lt) (sym e)

pair_value : ℕ → ℕ → ℕ
pair_value hi lo = 0x10000 + (hi - 0xd800) * 1024 + (lo - 0xdc00)

pair_bytes :
    (little : Bool) (a b c d : ℕ)
    → All IsByte (a ∷ b ∷ c ∷ d ∷ [])
    → within 0xd800 0xdbff (code_unit little a b) ≡ true
    → within 0xdc00 0xdfff (code_unit little c d) ≡ true
    → a ∷ b ∷ c ∷ d ∷ []
      ≡ utf16_bytes little (pair_value (code_unit little a b) (code_unit little c d))
unfolding utf16_bytes pair_value
pair_bytes little a b c d (p, (q, (r, (s, _)))) h k =
    let hi = code_unit little a b in
    let lo = code_unit little c d in
    let (e, _) = unit_bytes_lem little a b p q in
    let (e', _) = unit_bytes_lem little c d r s in
    let top : 0xd800 + (0x10000 + (hi - 0xd800) * 1024 + (lo - 0xdc00) - 0x10000) / 1024 ≡ hi =
      ground arith in
    let low : 0xdc00 + (0x10000 + (hi - 0xd800) * 1024 + (lo - 0xdc00) - 0x10000) % 1024 ≡ lo =
      ground arith in
    let big : ltb (0x10000 + (hi - 0xd800) * 1024 + (lo - 0xdc00)) 0x10000 ≡ false = ground arith in
    rw (big, top, low) (ap₂ (λ x y. x ++ y) (sym e) (sym e'))

abbrev Reads : Bool → Bytes → Bytes → Bytes → Type 0
Reads little s out t =
    (vs : List ℕ) × All IsScalar vs × (s ≡ encode16 little vs) × (t ≡ out ++ encode vs)

Reads-cons :
    (little : Bool) (v : ℕ) (u s out t : Bytes)
    → IsScalar v
    → u ≡ utf16_bytes little v
    → Reads little s (append_utf8 out v) t
    → Reads little (u ++ s) out t
Reads-cons little v u s out t sc e (vs, scs, e', k) = (
  v ∷ vs,
  (sc, scs),
  ap₂ (λ x y. x ++ y) e e',
  k
      ∙ ap (λ x. x ++ encode vs) (append_utf8_lem out v)
      ∙ append_assoc out (utf8_bytes v) (encode vs),
)

pair_value-IsScalar :
    (hi lo : ℕ)
    → within 0xd800 0xdbff hi ≡ true
    → within 0xdc00 0xdfff lo ≡ true
    → IsScalar (pair_value hi lo)
unfolding pair_value
pair_value-IsScalar hi lo p q = ground arith

utf16_loop_sound :
    (little : Bool) (s out : Bytes) {t : Bytes}
    → All IsByte s
    → utf16_loop little s out ≡ ok t
    → Reads little s out t
unfolding utf16_loop
utf16_loop_sound little [] out ha h = ([], tt, refl, ground (arith, append-nil out))
utf16_loop_sound little (a ∷ []) out ha h = cc
utf16_loop_sound little (a ∷ b ∷ []) out {t} ha h =
    Reads-cons little (code_unit little a b) (a ∷ b ∷ []) [] out t
      (ground (arith, unit_bytes_lem little a b)) (basic_bytes little a b ha.0 ha.1.0)
      ([], tt, refl, ground (arith, append-nil (append_utf8 out (code_unit little a b))))
utf16_loop_sound little (a ∷ b ∷ c ∷ []) out ha h = cc
utf16_loop_sound little (a ∷ b ∷ c ∷ d ∷ s) out {t} ha h =
    elim (Bool-cases (within 0xd800 0xdbff (code_unit little a b))) [
      | inl p ↦
          let q : within 0xdc00 0xdfff (code_unit little c d) ≡ true = ground arith in
          Reads-cons little (pair_value (code_unit little a b) (code_unit little c d))
            (a ∷ b ∷ c ∷ d ∷ []) s out t (pair_value-IsScalar _ _ p q)
            (pair_bytes little a b c d (ha.0, (ha.1.0, (ha.1.1.0, (ha.1.1.1.0, tt)))) p q)
            (utf16_loop_sound little s
              (append_utf8 out (pair_value (code_unit little a b) (code_unit little c d)))
              ha.1.1.1.1 (unfold pair_value in ground arith))
      | inr p ↦
          Reads-cons little (code_unit little a b) (a ∷ b ∷ []) (c ∷ d ∷ s) out t
            (ground (arith, unit_bytes_lem little a b)) (basic_bytes little a b ha.0 ha.1.0)
            (utf16_loop_sound little (c ∷ d ∷ s) _ ha.1.1 (ground arith))
    ]

-- What is decoded was the UTF-16 form of scalar values, and the result is their UTF-8 form.
pub decode_utf16_sound :
    (little : Bool) (s : Bytes) {t : Bytes}
    → All IsByte s
    → decode_utf16 s little ≡ ok t
    → (vs : List ℕ) × All IsScalar vs × (s ≡ encode16 little vs) × (t ≡ encode vs)
unfolding decode_utf16
decode_utf16_sound little s ha h = utf16_loop_sound little s [] ha (ground arith)
