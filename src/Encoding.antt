-- ===== src/Encoding.antt =====
-- src/encoding.cpp: UTF-8 validation and repair, UTF-16 decoding, and the choice between them.
-- A text is the list of its bytes. A loop over `offset` is a recursion on the bytes from `offset` on,
-- so `offset += n` is `drop n`; its fuel is the length of the text, which is enough since each round
-- drops a byte at least. `x & (2^k - 1)` is `x % 2^k`, `x & 0xc0` of a byte is `x / 64 * 64`, and an
-- `|` of disjoint bits is a sum.
pub mod Utf8
pub mod Lossy
pub mod Utf16
pub mod Decode
mod Examples
use repotraverse.Prelude.{
  ℕ, zero, suc, ◌+◌, ◌-◌, ◌*◌, ◌/◌, ◌%◌, Bool, true, false, ◌&&◌, ◌||◌, List, [], ◌∷◌, ◌++◌, Option,
  none, some, Bytes, codes, length, take, drop, ltb, leb, ◌==◌, within, if◌then◌else◌,
}

unfoldable pub continuation : ℕ → Bool
continuation value = value / 64 * 64 == 0x80

-- The loop over `index`: `n` continuation bytes are left to read.
read_continuations : ℕ → ℕ → Bytes → Option ℕ
read_continuations zero codepoint rest = some codepoint
read_continuations (suc n) codepoint [] = none
read_continuations (suc n) codepoint (next ∷ rest) =
    let more = read_continuations n (codepoint * 64 + next % 64) rest in
    if continuation next then more else none

-- The test behind the loop: overlong forms, surrogates, and values behind the last code point.
is_refused : ℕ → ℕ → Bool
is_refused len codepoint =
    (len == 3 && ltb codepoint 0x800)
    || (len == 4 && ltb codepoint 0x10000)
    || within 0xd800 0xdfff codepoint
    || ltb 0x10ffff codepoint

multi_byte : ℕ → ℕ → Bytes → ℕ
unfolding read_continuations is_refused continuation
multi_byte len codepoint rest =
    if ltb (length rest + 1) len then 0 else elim (read_continuations (len - 1) codepoint rest) [
      | none ↦ 0
      | some value ↦ if is_refused len value then 0 else len
    ]

-- The length of the sequence at the head of the text; 0 if it is malformed.
-- It is not called at the end of the text.
pub utf8_sequence : Bytes → ℕ
utf8_sequence [] = 0
utf8_sequence (first ∷ rest) =
    if ltb first 0x80
    then 1
    else if within 0xc2 0xdf first
    then multi_byte 2 (first % 32) rest
    else if within 0xe0 0xef first
    then multi_byte 3 (first % 16) rest
    else if within 0xf0 0xf4 first
    then multi_byte 4 (first % 8) rest
    else 0

-- What `append_utf8` appends.
unfoldable pub utf8_bytes : ℕ → Bytes
utf8_bytes value =
    if leb value 0x7f
    then value ∷ []
    else if leb value 0x7ff
    then (0xc0 + value / 64) ∷ (0x80 + value % 64) ∷ []
    else if leb value 0xffff
    then (0xe0 + value / 4096) ∷ (0x80 + value / 64 % 64) ∷ (0x80 + value % 64) ∷ []
    else (0xf0 + value / 262144)
      ∷ (0x80 + value / 4096 % 64)
      ∷ (0x80 + value / 64 % 64)
      ∷ (0x80 + value % 64)
      ∷ []

unfoldable pub append_utf8 : Bytes → ℕ → Bytes
unfolding utf8_bytes
append_utf8 output value = output ++ utf8_bytes value

-- `for (offset = 0; offset < value.size();) { ... }` of `valid_utf8`.
valid_loop : ℕ → Bytes → Bool
valid_loop fuel [] = true
valid_loop zero (c ∷ s) = false
valid_loop (suc fuel) (c ∷ s) =
    let len = utf8_sequence (c ∷ s) in
    let rest = valid_loop fuel (drop len (c ∷ s)) in if len == 0 then false else rest

pub valid_utf8 : Bytes → Bool
valid_utf8 value = valid_loop (length value) value

-- The replacement character, U+FFFD.
abbrev pub replacement : Bytes
replacement = 0xef ∷ 0xbf ∷ 0xbd ∷ []

lossy_loop : ℕ → Bytes → Bytes → Bytes
lossy_loop fuel [] output = output
lossy_loop zero (c ∷ s) output = output
lossy_loop (suc fuel) (c ∷ s) output =
    let len = utf8_sequence (c ∷ s) in
    let skip = lossy_loop fuel s (output ++ replacement) in
    let copy = lossy_loop fuel (drop len (c ∷ s)) (output ++ take len (c ∷ s)) in
    if len == 0 then skip else copy

pub utf8_lossy : Bytes → Bytes
utf8_lossy value = lossy_loop (length value) value []

-- What a `std::runtime_error` of this file says.
pub data Error : Type 0 where
  incomplete_unit incomplete_surrogate invalid_surrogate malformed_utf8 not_text : Error
  not_utf8 : Bytes → Error

pub data Result {ℓ} (A : Type ℓ) : Type ℓ where
  ok : A → Result A
  err : Error → Result A

infixl 5 ◌>>=◌
abbrev pub ◌>>=◌ {ℓ κ} : {A : Type ℓ} {B : Type κ} → Result A → (A → Result B) → Result B
ok a >>= f = f a
err e >>= f = err e

pub require_utf8 : Bytes → Bytes → Result (Unit {0})
require_utf8 value role = if valid_utf8 value then ok tt else err (not_utf8 role)

-- `unit(offset)`, of the two bytes there.
code_unit : Bool → ℕ → ℕ → ℕ
code_unit true first second = first + second * 256
code_unit false first second = first * 256 + second

-- The loop of `decode_utf16`. Its input has an even length, so that a lone last byte does not occur.
utf16_loop : Bool → Bytes → Bytes → Result Bytes
utf16_loop little [] output = ok output
utf16_loop little (a ∷ []) output = err incomplete_unit
utf16_loop little (a ∷ b ∷ []) output =
    let value = code_unit little a b in
    if within 0xd800 0xdbff value
    then err incomplete_surrogate
    else if within 0xdc00 0xdfff value
    then err invalid_surrogate
    else ok (append_utf8 output value)
utf16_loop little (a ∷ b ∷ c ∷ []) output = err incomplete_unit
utf16_loop little (a ∷ b ∷ c ∷ d ∷ s) output =
    let value = code_unit little a b in
    let low = code_unit little c d in
    let pair =
      utf16_loop little s
        (append_utf8 output (0x10000 + (value - 0xd800) * 1024 + (low - 0xdc00))) in
    let single = utf16_loop little (c ∷ d ∷ s) (append_utf8 output value) in
    if within 0xd800 0xdbff value
    then if ltb low 0xdc00 || ltb 0xdfff low then err invalid_surrogate else pair
    else if within 0xdc00 0xdfff value
    then err invalid_surrogate
    else single

pub decode_utf16 : Bytes → Bool → Result Bytes
decode_utf16 input little =
    if length input % 2 == 0 then utf16_loop little input [] else err incomplete_unit

pub record DecodedText : Type 0 where
  pub text : Bytes
  pub encoding : Bytes

starts_with : Bytes → Bytes → Bool
starts_with s [] = true
starts_with [] (p ∷ ps) = false
starts_with (c ∷ s) (p ∷ ps) = c == p && starts_with s ps

decoded : Bytes → Result Bytes → Result DecodedText
decoded encoding r = do text ← r; ok (record { text = text; encoding = encoding })

-- `decode_text` as it is built off Windows, where `allow_windows_legacy` has no effect.
pub decode_text : Bytes → Result DecodedText
decode_text input =
    if starts_with input (0xef ∷ 0xbb ∷ 0xbf ∷ [])
    then (if valid_utf8 (drop 3 input)
        then ok (record { text = drop 3 input; encoding = codes "utf-8-bom" })
        else err malformed_utf8)
    else if starts_with input (0xff ∷ 0xfe ∷ [])
    then decoded (codes "utf-16le") (decode_utf16 (drop 2 input) true)
    else if starts_with input (0xfe ∷ 0xff ∷ [])
    then decoded (codes "utf-16be") (decode_utf16 (drop 2 input) false)
    else if valid_utf8 input
    then ok (record { text = input; encoding = codes "utf-8" })
    else err not_text
