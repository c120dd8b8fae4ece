-- ===== src/Encoding/Examples.antt =====
-- Tests of encoding.cpp, and its theorems at concrete inputs: "é€" and a text with a stray byte.
use repotraverse.Prelude.{ℕ, ◌≡◌, refl, ◌↔◌, true, false, List, [], ◌∷◌, arith, Bytes, codes, All}
use repotraverse.Encoding.{
  ok, err, incomplete_surrogate, decode_text, decode_utf16, utf8_lossy, valid_utf8, utf8_sequence,
  multi_byte, valid_loop, lossy_loop, utf8_bytes, utf16_loop, code_unit, append_utf8, starts_with,
}
use repotraverse.Encoding.Utf8.{IsScalar, IsUtf8, encode, valid_utf8_iff}
use repotraverse.Encoding.Utf16.{IsByte, encode16, decode_utf16_sound, decode_utf16-encode16}
use repotraverse.Encoding.Lossy.{Repairs, utf8_lossy-Repairs, utf8_lossy-valid_utf8}
use repotraverse.Encoding.Decode.{decode_text-valid_utf8, decode_text_marked}

abbrev sample : List ℕ
sample = 0xe9 ∷ 0x20ac ∷ 0x1f600 ∷ []

abbrev sample_bytes : Bytes
sample_bytes = 0xc3 ∷ 0xa9 ∷ 0xe2 ∷ 0x82 ∷ 0xac ∷ 0xf0 ∷ 0x9f ∷ 0x98 ∷ 0x80 ∷ []

sample-IsScalar : All IsScalar sample
sample-IsScalar = omega arith

encode_runs : encode sample ≡ sample_bytes
unfolding utf8_bytes
encode_runs = refl

valid_utf8_runs : valid_utf8 sample_bytes ≡ true
unfolding valid_utf8 valid_loop utf8_sequence multi_byte
valid_utf8_runs = refl

overlong : valid_utf8 (0xc0 ∷ 0x80 ∷ []) ≡ false
unfolding valid_utf8 valid_loop utf8_sequence multi_byte
overlong = refl

lossy_runs : utf8_lossy (0x61 ∷ 0xff ∷ 0x62 ∷ []) ≡ 0x61 ∷ 0xef ∷ 0xbf ∷ 0xbd ∷ 0x62 ∷ []
unfolding utf8_lossy lossy_loop utf8_sequence
lossy_runs = refl

valid_utf8_iff_example : (valid_utf8 sample_bytes ≡ true) ↔ IsUtf8 sample_bytes
valid_utf8_iff_example = valid_utf8_iff sample_bytes

utf8_lossy-Repairs_example : Repairs (0x61 ∷ 0xff ∷ []) (utf8_lossy (0x61 ∷ 0xff ∷ []))
utf8_lossy-Repairs_example = utf8_lossy-Repairs (0x61 ∷ 0xff ∷ [])

utf8_lossy-valid_utf8_example : valid_utf8 (utf8_lossy (0x61 ∷ 0xff ∷ [])) ≡ true
utf8_lossy-valid_utf8_example = utf8_lossy-valid_utf8 (0x61 ∷ 0xff ∷ [])

decode_utf16-encode16_example : decode_utf16 (encode16 true sample) true ≡ ok (encode sample)
decode_utf16-encode16_example = decode_utf16-encode16 true sample sample-IsScalar

sample_utf16 : Bytes
sample_utf16 = 0x3d ∷ 0xd8 ∷ 0x00 ∷ 0xde ∷ []

sample_utf16-decode : decode_utf16 sample_utf16 true ≡ ok (0xf0 ∷ 0x9f ∷ 0x98 ∷ 0x80 ∷ [])
unfolding sample_utf16 decode_utf16 utf16_loop code_unit append_utf8 utf8_bytes
sample_utf16-decode = refl

half_pair : decode_utf16 (0x3d ∷ 0xd8 ∷ []) true ≡ err incomplete_surrogate
unfolding decode_utf16 utf16_loop code_unit
half_pair = refl

sample_utf16-IsByte : All IsByte sample_utf16
unfolding sample_utf16
sample_utf16-IsByte = omega arith

decode_utf16_sound_example :
    (vs : List ℕ) × All IsScalar vs
    × (sample_utf16 ≡ encode16 true vs)
    × (0xf0 ∷ 0x9f ∷ 0x98 ∷ 0x80 ∷ [] ≡ encode vs)
decode_utf16_sound_example =
    decode_utf16_sound true sample_utf16 sample_utf16-IsByte sample_utf16-decode

decode_text-valid_utf8_example : valid_utf8 sample_bytes ≡ true
decode_text-valid_utf8_example =
    decode_text-valid_utf8 sample_bytes
      {r = record { text = sample_bytes; encoding = codes "utf-8" }} (omega arith) decodes
  where
    decodes :
        decode_text sample_bytes ≡ ok (record { text = sample_bytes; encoding = codes "utf-8" })
    decodes = unfold decode_text starts_with valid_utf8 valid_loop utf8_sequence multi_byte in refl

decode_text_marked_example :
    decode_text (0xff ∷ 0xfe ∷ encode16 true sample)
    ≡ ok (record { text = encode sample; encoding = codes "utf-16le" })
decode_text_marked_example = (decode_text_marked sample sample-IsScalar).1
