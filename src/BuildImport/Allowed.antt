-- ===== src/BuildImport/Allowed.antt =====
-- src/build_import.cpp and src/worker.cpp: words that the worker lets through to the extractor.
use repotraverse.Prelude.{
  ◌≡◌, refl, sym, subst, inl, inr, Bool, true, ◌||◌, some, List, [], ◌∷◌, ◌++◌, arith, ==_iff,
  Bool-cases, Option-cases, Bytes, codes, text_eq, text_eq_iff, is_empty, contains, has_prefix, All,
}
use repotraverse.Worker.{safe_frontend_argument, all_safe}
use repotraverse.BuildImport.Normalize.{
  Action, emits, emits_next, pair_next, path_next, is_kept, find_text, translations, translated_or,
}

-- The options whose value is a word of its own.
abbrev pub value_options : List Bytes
value_options =
    codes "-include"
    ∷ codes "-I"
    ∷ codes "-isystem"
    ∷ codes "-D"
    ∷ codes "-U"
    ∷ codes "-x"
    ∷ codes "--sysroot"
    ∷ []

-- A command line of words that the worker lets through, and of options with a value each.
pub data IsFrontend : List Bytes → Type 0 where
  ends : IsFrontend []
  word :
      {a : Bytes} {rest : List Bytes}
      → safe_frontend_argument a ≡ true
      → IsFrontend rest
      → IsFrontend (a ∷ rest)
  option :
      {a v : Bytes} {rest : List Bytes}
      → contains value_options a ≡ true
      → IsFrontend rest
      → IsFrontend (a ∷ v ∷ rest)

prefix_split : (s p : Bytes) → has_prefix s p ≡ true → (r : Bytes) × (s ≡ p ++ r)
unfolding has_prefix
prefix_split s [] h = (s, refl)
prefix_split [] (c ∷ p) h = absurd (ground arith)
prefix_split (d ∷ s) (c ∷ p) h =
    let (r, e) = prefix_split s p (ground arith) in
    let same : d ≡ c = (==_iff d c).0 (ground arith) in (r, rw (same, e) refl)

safe_D : (r : Bytes) → safe_frontend_argument (codes "-D" ++ r) ≡ true
unfolding safe_frontend_argument has_prefix text_eq is_empty
safe_D r = ground arith

safe_U : (r : Bytes) → safe_frontend_argument (codes "-U" ++ r) ≡ true
unfolding safe_frontend_argument has_prefix text_eq is_empty
safe_U r = ground arith

pub safe_I : (r : Bytes) → safe_frontend_argument (codes "-I" ++ r) ≡ true
unfolding safe_frontend_argument has_prefix text_eq is_empty
safe_I r = ground arith

safe_std : (r : Bytes) → safe_frontend_argument (codes "-std=" ++ r) ≡ true
unfolding safe_frontend_argument has_prefix text_eq is_empty
safe_std r = ground arith

safe_target : (r : Bytes) → safe_frontend_argument (codes "--target=" ++ r) ≡ true
unfolding safe_frontend_argument has_prefix text_eq is_empty
safe_target r = ground arith

pub safe_m : (r : Bytes) → safe_frontend_argument (codes "-m" ++ r) ≡ true
unfolding safe_frontend_argument has_prefix text_eq is_empty
safe_m r = ground arith

-- What an action puts out goes through.
abbrev joined_prefixes : List Bytes
joined_prefixes = codes "-mcpu=" ∷ codes "-mfpu=" ∷ codes "--target=" ∷ []

abbrev pub is_sound : Action → Bool
is_sound (emits ws) = all_safe ws
is_sound (emits_next prefix) = contains joined_prefixes prefix
is_sound (pair_next o) = contains value_options o
is_sound (path_next o) = contains value_options o
is_sound _ = true

by_prefix :
    (a p : Bytes)
    → ((r : Bytes) → safe_frontend_argument (p ++ r) ≡ true)
    → has_prefix a p ≡ true
    → safe_frontend_argument a ≡ true
by_prefix a p safe h = let (r, e) = prefix_split a p h in rw e (safe r)

by_text :
    (a p : Bytes)
    → safe_frontend_argument p ≡ true
    → text_eq a p ≡ true
    → safe_frontend_argument a ≡ true
by_text a p safe h = rw ((text_eq_iff a p).0 h) safe

pub is_kept-safe : (a : Bytes) → is_kept a ≡ true → safe_frontend_argument a ≡ true
unfolding is_kept
is_kept-safe a h =
    let d = by_prefix a (codes "-D") safe_D in
    let u = by_prefix a (codes "-U") safe_U in
    let std = by_prefix a (codes "-std=") safe_std in
    let target = by_prefix a (codes "--target=") safe_target in
    let thumb = by_text a (codes "-mthumb") (safe_m (codes "thumb")) in
    let arm = by_text a (codes "-marm") (safe_m (codes "arm")) in
    let big = by_text a (codes "-mbig-endian") (safe_m (codes "big-endian")) in
    let little = by_text a (codes "-mlittle-endian") (safe_m (codes "little-endian")) in
    let cpu = by_prefix a (codes "-mcpu=") (λ r. safe_m (codes "cpu=" ++ r)) in
    let fpu = by_prefix a (codes "-mfpu=") (λ r. safe_m (codes "fpu=" ++ r)) in
    let float = by_prefix a (codes "-mfloat-abi=") (λ r. safe_m (codes "float-abi=" ++ r)) in
    ground arith

is_option :
    (a p : Bytes)
    → contains value_options p ≡ true
    → text_eq a p ≡ true
    → contains value_options a ≡ true
is_option a p h e = subst (λ x. contains value_options x ≡ true) (sym ((text_eq_iff a p).0 e)) h

pub either_option :
    (a p q r : Bytes)
    → contains value_options p ≡ true
    → contains value_options q ≡ true
    → contains value_options r ≡ true
    → (text_eq a p || text_eq a q || text_eq a r) ≡ true
    → contains value_options a ≡ true
either_option a p q r x y z h =
    let f = is_option a p x in let g = is_option a q y in let k = is_option a r z in ground arith

find_text-All :
    (P : Bytes → Type 0) (key v : Bytes) (kvs : List (Bytes × Bytes))
    → All (λ (kv : Bytes × Bytes). P kv.1) kvs
    → find_text key kvs ≡ some v
    → P v
unfolding find_text
find_text-All P key v [] h e = cc
find_text-All P key v ((k, w) ∷ kvs) (h, hs) e = elim (Bool-cases (text_eq k key)) [
  | inl f ↦ let same : w ≡ v = ground arith in subst P same h
  | inr f ↦ find_text-All P key v kvs hs (ground arith)
]

translations_safe : All (λ (kv : Bytes × Bytes). safe_frontend_argument kv.1 ≡ true) translations
unfolding safe_frontend_argument text_eq has_prefix is_empty
translations_safe = (refl, (refl, (refl, (refl, (refl, (refl, (refl, (refl, tt))))))))

pub translated_or-is_sound :
    (a : Bytes) (other : Action)
    → is_sound other ≡ true
    → is_sound (translated_or other (find_text a translations)) ≡ true
unfolding translated_or all_safe
translated_or-is_sound a other h = elim (Option-cases (find_text a translations)) [
  | inl e ↦ rw e h
  | inr (w, e) ↦
      let safe =
        find_text-All (λ v. safe_frontend_argument v ≡ true) a w translations translations_safe e in
      rw (e, safe) refl
]

by_start :
    (q p v : Bytes)
    → safe_frontend_argument (q ++ v) ≡ true
    → text_eq q p ≡ true
    → safe_frontend_argument (p ++ v) ≡ true
by_start q p v h e = subst (λ x. safe_frontend_argument (x ++ v) ≡ true) ((text_eq_iff q p).0 e) h

pub joined_safe :
    (p v : Bytes) → contains joined_prefixes p ≡ true → safe_frontend_argument (p ++ v) ≡ true
joined_safe p v h =
    let cpu = by_start (codes "-mcpu=") p v (safe_m (codes "cpu=" ++ v)) in
    let fpu = by_start (codes "-mfpu=") p v (safe_m (codes "fpu=" ++ v)) in
    let target = by_start (codes "--target=") p v (safe_target v) in ground arith
