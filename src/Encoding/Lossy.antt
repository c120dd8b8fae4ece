-- ===== src/Encoding/Lossy.antt =====
-- The repair of malformed UTF-8, against a relation that says what becomes of each byte.
use repotraverse.Prelude.{
  ℕ, zero, suc, ◌≤◌, ◌≡◌, refl, sym, ap, ◌∙◌, ◌≢◌, inl, inr, true, [], ◌∷◌, ◌++◌, append_assoc,
  append-nil, arith, ◌==◌, ==_iff, Bool-cases, Bytes, length, take, drop, take-append,
}
use mathlib.Core.Path.{ap₂}
use repotraverse.Encoding.{
  utf8_lossy, lossy_loop, utf8_bytes, utf8_sequence, replacement, Bytes, [], valid_utf8, length,
  true, drop,
}
use repotraverse.Encoding.Utf8.{
  IsScalar, IsUtf8, utf8_sequence_sound, utf8_sequence-utf8_bytes, utf8_bytes_pos, valid_utf8_iff,
}

-- A well-formed sequence is copied whole; a byte at which none starts is replaced, alone.
pub data Repairs : Bytes → Bytes → Type 0 where
  done : Repairs [] []
  copy :
      (v : ℕ) {s t s' t' : Bytes}
      → IsScalar v
      → s' ≡ utf8_bytes v ++ s
      → t' ≡ utf8_bytes v ++ t
      → Repairs s t
      → Repairs s' t'
  replace :
      (c : ℕ) {s t t' : Bytes}
      → ((v : ℕ) (r : Bytes) → IsScalar v → c ∷ s ≢ utf8_bytes v ++ r)
      → t' ≡ replacement ++ t
      → Repairs s t
      → Repairs (c ∷ s) t'

length-drop-le : (n : ℕ) (s : Bytes) → length (drop n s) ≤ length s
length-drop-le zero s = omega arith
length-drop-le (suc n) [] = omega arith
length-drop-le (suc n) (c ∷ s) = omega (arith, length-drop-le n s)

length-drop-lt : (n c : ℕ) (s : Bytes) → n ≢ 0 → length (drop n (c ∷ s)) ≤ length s
length-drop-lt zero c s h = absurd (h refl)
length-drop-lt (suc n) c s h = length-drop-le n s

-- Where the code finds no sequence, none stands.
none_starts :
    (s : Bytes) → utf8_sequence s ≡ 0 → (v : ℕ) (r : Bytes) → IsScalar v → s ≢ utf8_bytes v ++ r
none_starts s z v r h e =
    let len : utf8_sequence s ≡ length (utf8_bytes v) =
      ap utf8_sequence e ∙ utf8_sequence-utf8_bytes v r h in
    let pos = utf8_bytes_pos v in omega (arith, len, z, pos)

lossy_loop-Repairs :
    (fuel : ℕ) (s out : Bytes)
    → length s ≤ fuel
    → (t : Bytes) × Repairs s t × (lossy_loop fuel s out ≡ out ++ t)
unfolding lossy_loop
lossy_loop-Repairs fuel [] out h = ([], done, sym (append-nil out))
lossy_loop-Repairs zero (c ∷ s) out h = absurd (omega arith)
lossy_loop-Repairs (suc fuel) (c ∷ s) out h = elim (Bool-cases (utf8_sequence (c ∷ s) == 0)) [
  | inl z ↦
      let (t, r, e) = lossy_loop-Repairs fuel s (out ++ replacement) (omega arith) in
      (
        replacement ++ t,
        replace c (none_starts (c ∷ s) ((==_iff _ 0).0 z)) refl r,
        rw z (e ∙ append_assoc out replacement t),
      )
  | inr z ↦
      let n = utf8_sequence (c ∷ s) in
      let ne : n ≢ 0 = ground (arith) in
      let (v, sc, split, len) = utf8_sequence_sound (c ∷ s) ne in
      let (t, r, e) =
        lossy_loop-Repairs fuel (drop n (c ∷ s)) (out ++ take n (c ∷ s))
          (omega (arith, length-drop-lt n c s ne)) in
      (
        utf8_bytes v ++ t,
        copy v sc split refl r,
        rw z (
            e
            ∙ append_assoc out (take n (c ∷ s)) t
            ∙ ap (λ x. out ++ (x ++ t)) (taken v n (c ∷ s) (drop n (c ∷ s)) split len)),
      )
]
  where
    taken :
        (v n : ℕ) (s r : Bytes)
        → s ≡ utf8_bytes v ++ r
        → n ≡ length (utf8_bytes v)
        → take n s ≡ utf8_bytes v
    taken v n s r e l = rw (e, l) (take-append (utf8_bytes v) r)

-- utf8_lossy stands in the repair relation to its input: sequences of scalar values are copied whole, each
-- byte at which none starts becomes U+FFFD, and no byte is left out.
pub utf8_lossy-Repairs : (s : Bytes) → Repairs s (utf8_lossy s)
unfolding utf8_lossy
utf8_lossy-Repairs s = let (t, r, e) = lossy_loop-Repairs (length s) s [] (omega arith) in rw e r

replacement-encode : replacement ≡ utf8_bytes 0xfffd
unfolding utf8_bytes
replacement-encode = refl

Repairs-IsUtf8 : {s t : Bytes} → Repairs s t → IsUtf8 t
Repairs-IsUtf8 done = ([], tt, refl)
Repairs-IsUtf8 (copy v sc e e' r) =
    let (vs, scs, k) = Repairs-IsUtf8 r in (v ∷ vs, (sc, scs), e' ∙ ap (λ x. utf8_bytes v ++ x) k)
Repairs-IsUtf8 (replace c z e' r) =
    let (vs, scs, k) = Repairs-IsUtf8 r in
    (0xfffd ∷ vs, (omega arith, scs), e' ∙ ap₂ (λ x y. x ++ y) replacement-encode k)

-- The repaired text is valid UTF-8, whatever the bytes were.
pub utf8_lossy-valid_utf8 : (s : Bytes) → valid_utf8 (utf8_lossy s) ≡ true
utf8_lossy-valid_utf8 s = (valid_utf8_iff _).1 (Repairs-IsUtf8 (utf8_lossy-Repairs s))
