-- ===== src/Progressive/Wildcard.antt =====
-- What a pattern matches.
use repotraverse.Prelude.{
  ℕ, suc, ◌+◌, ◌≡◌, refl, sym, ap, ◌∙◌, subst, ◌↔◌, inl, inr, Bool, true, false, ◌&&◌, ◌||◌, List,
  [], ◌∷◌, arith, ◌==◌, if◌then◌else◌, ==_iff, Bool-cases, Bytes, is_empty, length,
}
use repotraverse.Progressive.{or_scan, shift, wildcard, next_row, pattern_rows, falses, last_of}

-- `?` matches any byte, `*` any bytes, and every other byte itself.
pub data Matches : Bytes → Bytes → Type 0 where
  done : Matches [] []
  any : {p v : Bytes} (c : ℕ) → Matches p v → Matches (b'?' ∷ p) (c ∷ v)
  same : {p v : Bytes} (c : ℕ) → Matches p v → Matches (c ∷ p) (c ∷ v)
  star_none : {p v : Bytes} → Matches p v → Matches (b'*' ∷ p) v
  star_more : {p v : Bytes} (c : ℕ) → Matches (b'*' ∷ p) v → Matches (b'*' ∷ p) (c ∷ v)

-- The same as a test: the cases of the first token.
glob_star : (Bytes → Bool) → Bytes → Bool
glob_star rest [] = rest []
glob_star rest (c ∷ v) = rest (c ∷ v) || glob_star rest v

glob_one : ℕ → (Bytes → Bool) → Bytes → Bool
glob_one t rest [] = false
glob_one t rest (c ∷ v) = (t == b'?' || t == c) && rest v

glob : Bytes → Bytes → Bool
glob [] = is_empty
glob (t ∷ p) = let rest = glob p in if t == b'*' then glob_star rest else glob_one t rest

-- From some place that the row marks, the rest of the pattern matches the rest of the value.
reach : List Bool → (Bytes → Bool) → Bytes → Bool
reach [] rest v = false
reach (b ∷ bs) rest [] = b && rest []
reach (b ∷ bs) rest (c ∷ v) = (b && rest (c ∷ v)) || reach bs rest v

or_rotate : (a b c d : Bool) → (((a || b) && c) || d) ≡ ((b && c) || ((a && c) || d))
or_rotate a b c d = ground arith

reach-or_scan :
    (left : Bool) (r : List Bool) (rest : Bytes → Bool) (v : Bytes)
    → length r ≡ length v + 1
    → reach (or_scan left r) rest v ≡ ((left && glob_star rest v) || reach r (glob_star rest) v)
unfolding reach or_scan glob_star
reach-or_scan left [] rest v e = absurd (ground arith)
reach-or_scan left (b ∷ r) rest [] e = ground arith
reach-or_scan left (b ∷ r) rest (c ∷ v) e =
    let ih = reach-or_scan (b || left) r rest v (omega arith) in ground arith

reach-shift :
    (t : ℕ) (r : List Bool) (rest : Bytes → Bool) (v : Bytes)
    → length r ≡ length v + 1
    → reach (false ∷ shift t r v) rest v ≡ reach r (glob_one t rest) v
unfolding reach shift glob_one
reach-shift t [] rest v e = absurd (ground arith)
reach-shift t (b ∷ r) rest [] e = ground arith
reach-shift t (b ∷ []) rest (c ∷ v) e = absurd (ground arith)
reach-shift t (b ∷ d ∷ r) rest (c ∷ []) e = ground arith
reach-shift t (b ∷ d ∷ r) rest (c ∷ x ∷ v) e =
    let ih = reach-shift t (d ∷ r) rest (x ∷ v) (omega arith) in ground arith

length-or_scan : (left : Bool) (r : List Bool) → length (or_scan left r) ≡ length r
unfolding or_scan
length-or_scan left [] = refl
length-or_scan left (p ∷ r) = ap suc (length-or_scan (p || left) r)

length-shift :
    (t : ℕ) (r : List Bool) (v : Bytes) → length r ≡ length v + 1 → length (shift t r v) ≡ length v
unfolding shift
length-shift t [] v e = absurd (ground arith)
length-shift t (p ∷ r) [] e = refl
length-shift t (p ∷ []) (c ∷ v) e = absurd (ground arith)
length-shift t (p ∷ q ∷ r) (c ∷ v) e = ap suc (length-shift t (q ∷ r) v (omega arith))

next_row_lem :
    (t : ℕ) (p : Bytes) (r : List Bool) (v : Bytes)
    → length r ≡ length v + 1
    → (length (next_row t r v) ≡ length v + 1)
      × (reach (next_row t r v) (glob p) v ≡ reach r (glob (t ∷ p)) v)
unfolding next_row glob
next_row_lem t p r v e = elim (Bool-cases (t == b'*')) [
  | inl k ↦ rw k (length-or_scan false r ∙ e, reach-or_scan false r (glob p) v e)
  | inr k ↦ rw k ((let h = length-shift t r v e in omega arith), reach-shift t r (glob p) v e)
]

last_of-reach :
    (r : List Bool) (v : Bytes) → length r ≡ length v + 1 → last_of r ≡ reach r (glob []) v
unfolding last_of reach glob is_empty
last_of-reach [] v e = absurd (ground arith)
last_of-reach (b ∷ []) [] e = ground arith
last_of-reach (b ∷ []) (c ∷ v) e = absurd (ground arith)
last_of-reach (b ∷ d ∷ r) [] e = absurd (ground arith)
last_of-reach (b ∷ d ∷ r) (c ∷ v) e = let ih = last_of-reach (d ∷ r) v (omega arith) in ground arith

pattern_rows-reach :
    (p : Bytes) (r : List Bool) (v : Bytes)
    → length r ≡ length v + 1
    → last_of (pattern_rows p r v) ≡ reach r (glob p) v
unfolding pattern_rows
pattern_rows-reach [] r v e = last_of-reach r v e
pattern_rows-reach (t ∷ p) r v e =
    let (n, equal) = next_row_lem t p r v e in pattern_rows-reach p (next_row t r v) v n ∙ equal

length-falses : (v : Bytes) → length (falses v) ≡ length v
unfolding falses
length-falses [] = refl
length-falses (c ∷ v) = ap suc (length-falses v)

reach-falses : (rest : Bytes → Bool) (d : ℕ) (v : Bytes) → reach (falses (d ∷ v)) rest v ≡ false
unfolding reach falses
reach-falses rest d [] = refl
reach-falses rest d (c ∷ v) = reach-falses rest c v

from_start : (rest : Bytes → Bool) (v : Bytes) → reach (true ∷ falses v) rest v ≡ rest v
unfolding reach falses
from_start rest [] = refl
from_start rest (c ∷ w) = let h = reach-falses rest c w in ground arith

wildcard-glob : (p v : Bytes) → wildcard p v ≡ glob p v
unfolding wildcard
wildcard-glob p v =
    pattern_rows-reach p (true ∷ falses v) v (let h = length-falses v in omega arith)
    ∙ from_start (glob p) v

glob_star-Matches :
    (p v : Bytes)
    → ((w : Bytes) → glob p w ≡ true → Matches p w)
    → glob_star (glob p) v ≡ true
    → Matches (b'*' ∷ p) v
unfolding glob_star
glob_star-Matches p [] f h = star_none (f [] h)
glob_star-Matches p (c ∷ v) f h = elim (Bool-cases (glob p (c ∷ v))) [
  | inl e ↦ star_none (f (c ∷ v) e)
  | inr e ↦ star_more c (glob_star-Matches p v f (ground arith))
]

glob_one-Matches :
    (t : ℕ) (p v : Bytes)
    → ((w : Bytes) → glob p w ≡ true → Matches p w)
    → glob_one t (glob p) v ≡ true
    → Matches (t ∷ p) v
unfolding glob_one
glob_one-Matches t p [] f h = absurd (ground arith)
glob_one-Matches t p (c ∷ v) f h =
    let rest = f v (ground arith) in
    elim (Bool-cases (t == b'?')) [
      | inl e ↦ subst (λ x. Matches (x ∷ p) (c ∷ v)) (sym ((==_iff t b'?').0 e)) (any c rest)
      | inr e ↦
          let k : t ≡ c = (==_iff t c).0 (ground arith) in
          subst (λ x. Matches (x ∷ p) (c ∷ v)) (sym k) (same c rest)
    ]

glob_sound : (p v : Bytes) → glob p v ≡ true → Matches p v
unfolding glob is_empty
glob_sound [] [] h = done
glob_sound [] (c ∷ v) h = absurd (ground arith)
glob_sound (t ∷ p) v h = elim (Bool-cases (t == b'*')) [
  | inl e ↦
      subst (λ x. Matches (x ∷ p) v) (sym ((==_iff t b'*').0 e))
        (glob_star-Matches p v (glob_sound p) (ground arith))
  | inr e ↦ glob_one-Matches t p v (glob_sound p) (ground arith)
]

glob_star_here : (rest : Bytes → Bool) (v : Bytes) → rest v ≡ true → glob_star rest v ≡ true
unfolding glob_star
glob_star_here rest [] h = h
glob_star_here rest (c ∷ v) h = ground arith

glob_star_more :
    (rest : Bytes → Bool) (c : ℕ) (v : Bytes)
    → glob_star rest v ≡ true
    → glob_star rest (c ∷ v) ≡ true
unfolding glob_star
glob_star_more rest c v h = elim (Bool-cases (rest (c ∷ v))) [ inl e ↦ rw e | inr e ↦ rw (e, h) ]

glob_same : (c : ℕ) (p v : Bytes) → glob p v ≡ true → glob (c ∷ p) (c ∷ v) ≡ true
unfolding glob glob_one
glob_same c p v h = elim (Bool-cases (c == b'*')) [
  | inl e ↦ rw e (glob_star_more (glob p) c v (glob_star_here (glob p) v h))
  | inr e ↦ let k : (c == c) ≡ true = ground arith in rw (e, k, h) (ground arith)
]

glob_any : (c : ℕ) (p v : Bytes) → glob p v ≡ true → glob (b'?' ∷ p) (c ∷ v) ≡ true
unfolding glob glob_one
glob_any c p v h = h

glob_more : (c : ℕ) (p v : Bytes) → glob (b'*' ∷ p) v ≡ true → glob (b'*' ∷ p) (c ∷ v) ≡ true
unfolding glob
glob_more c p v h = glob_star_more (glob p) c v h

glob_none : (p v : Bytes) → glob p v ≡ true → glob (b'*' ∷ p) v ≡ true
unfolding glob
glob_none p v h = glob_star_here (glob p) v h

glob_complete : (p v : Bytes) → Matches p v → glob p v ≡ true
glob_complete _ _ done = unfold glob is_empty in refl
glob_complete _ _ (any {p} {v} c m) = glob_any c p v (glob_complete p v m)
glob_complete _ _ (same {p} {v} c m) = glob_same c p v (glob_complete p v m)
glob_complete _ _ (star_none {p} {v} m) = glob_none p v (glob_complete p v m)
glob_complete _ _ (star_more {p} {v} c m) = glob_more c p v (glob_complete (b'*' ∷ p) v m)

-- A pattern is found to match a value exactly if it does.
pub wildcard_iff : (p v : Bytes) → (wildcard p v ≡ true) ↔ Matches p v
wildcard_iff p v = (
  (λ h. glob_sound p v (sym (wildcard-glob p v) ∙ h)),
  (λ m. wildcard-glob p v ∙ glob_complete p v m),
)
