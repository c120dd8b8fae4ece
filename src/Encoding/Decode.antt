-- ===== src/Encoding/Decode.antt =====
-- What `decode_text` returns, by the mark at the head of its input.
use repotraverse.Prelude.{
  ℕ, zero, suc, ◌≡◌, refl, Bool, true, false, List, [], ◌∷◌, arith, Bytes, codes, drop, All,
}
use repotraverse.Encoding.{
  decoded, Result, ok, err, valid_utf8, starts_with, decode_text, decode_utf16, DecodedText,
}
use repotraverse.Encoding.Utf8.{IsScalar, encode, valid_utf8_iff}
use repotraverse.Encoding.Utf16.{IsByte, encode16, decode_utf16_sound, decode_utf16-encode16}

All-drop : (n : ℕ) (s : Bytes) → All IsByte s → All IsByte (drop n s)
All-drop zero s h = h
All-drop (suc n) [] h = tt
All-drop (suc n) (c ∷ s) h = All-drop n s h.1

decoded_text :
    (encoding : Bytes) (x : Result Bytes) {r : DecodedText}
    → decoded encoding x ≡ ok r
    → x ≡ ok r.text
unfolding decoded
decoded_text encoding (ok t) h = ground arith
decoded_text encoding (err e) h = cc

decoded_valid :
    (encoding s : Bytes) (little : Bool) {r : DecodedText}
    → All IsByte s
    → decoded encoding (decode_utf16 s little) ≡ ok r
    → valid_utf8 r.text ≡ true
decoded_valid encoding s little h e =
    let (vs, sc, _, k) = decode_utf16_sound little s h (decoded_text encoding _ e) in
    (valid_utf8_iff _).1 (vs, sc, k)

-- Every text that `decode_text` returns is valid UTF-8.
pub decode_text-valid_utf8 :
    (input : Bytes) {r : DecodedText}
    → All IsByte input
    → decode_text input ≡ ok r
    → valid_utf8 r.text ≡ true
unfolding decode_text
decode_text-valid_utf8 input {r} h e = ground (
  arith,
  decoded_valid (codes "utf-16le") (drop 2 input) true {r = r} (All-drop 2 input h),
  decoded_valid (codes "utf-16be") (drop 2 input) false {r = r} (All-drop 2 input h),
)

-- A sequence of scalar values is read back, as UTF-8 text, from each of the three marked forms.
pub decode_text_marked :
    (vs : List ℕ)
    → All IsScalar vs
    → (decode_text (0xef ∷ 0xbb ∷ 0xbf ∷ encode vs)
        ≡ ok (record { text = encode vs; encoding = codes "utf-8-bom" }))
      × (decode_text (0xff ∷ 0xfe ∷ encode16 true vs)
          ≡ ok (record { text = encode vs; encoding = codes "utf-16le" }))
      × (decode_text (0xfe ∷ 0xff ∷ encode16 false vs)
          ≡ ok (record { text = encode vs; encoding = codes "utf-16be" }))
unfolding decode_text starts_with decoded
decode_text_marked vs sc =
    let v : valid_utf8 (encode vs) ≡ true = (valid_utf8_iff _).1 (vs, sc, refl) in
    (rw v, rw (decode_utf16-encode16 true vs sc), rw (decode_utf16-encode16 false vs sc))
