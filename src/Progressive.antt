-- ===== src/Progressive.antt =====
-- src/progressive.cpp: the patterns of paths and the labels that a partition gives to a path.
pub mod Wildcard
pub mod Labels
mod Examples
use repotraverse.Prelude.{
  ℕ, zero, suc, ◌+◌, ◌-◌, ◌*◌, ◌/◌, ◌%◌, ◌^◌, ◌≤◌, ◌<◌, ◌≡◌, refl, sym, ap, ◌∙◌, subst, ◌≢◌, ◌↔◌,
  ◌⊎◌, inl, inr, Bool, true, false, ◌&&◌, ◌||◌, not, Option, none, some, List, [], ◌∷◌, ◌++◌, map,
  append_assoc, append-nil, arith, ltb, leb, ◌==◌, within, if◌then◌else◌, ltb→lt, lt→ltb, leb→le,
  ==_iff, Bool-cases, Option-cases, Bytes, codes, text_eq, text_eq_iff, is_empty, contains, length,
  take, drop, length-append, take-append, drop-append, All, All-append, get_elem?, All-get_elem?,
  Listed,
}

-- The row of a `*`: `current[index] = previous[index] || current[index - 1]`.
or_scan : Bool → List Bool → List Bool
or_scan left [] = []
or_scan left (p ∷ ps) = (p || left) ∷ or_scan (p || left) ps

-- The row of any other token, from its index 1 on.
shift : ℕ → List Bool → Bytes → List Bool
shift token [] value = []
shift token (p ∷ ps) [] = []
shift token (p ∷ ps) (c ∷ value) = (p && (token == b'?' || token == c)) ∷ shift token ps value

next_row : ℕ → List Bool → Bytes → List Bool
unfolding or_scan shift
next_row token previous value =
    if token == b'*' then or_scan false previous else false ∷ shift token previous value

pattern_rows : Bytes → List Bool → Bytes → List Bool
pattern_rows [] previous value = previous
pattern_rows (token ∷ pattern) previous value =
    pattern_rows pattern (next_row token previous value) value

falses : Bytes → List Bool
falses [] = []
falses (c ∷ value) = false ∷ falses value

-- `previous[value.size()]`.
last_of : List Bool → Bool
last_of [] = false
last_of (b ∷ []) = b
last_of (b ∷ c ∷ bs) = last_of (c ∷ bs)

pub wildcard : Bytes → Bytes → Bool
unfolding pattern_rows falses last_of
wildcard pattern value = last_of (pattern_rows pattern (true ∷ falses value) value)

-- `none` is a value that is no array; patterns that are no strings are left out.
pub matches : Option (List Bytes) → Bytes → Bool
matches none path = false
matches (some []) path = false
matches (some (p ∷ ps)) path = wildcard p path || matches (some ps) path

pub record Partition : Type 0 where
  pub exclude : Option (List Bytes)
  pub stable : Option (List Bytes)
  pub variable : Option (List Bytes)

label_of : Bool → Bool → Bool → Bytes
label_of true common variable = codes "excluded"
label_of false true true = codes "conflict"
label_of false true false = codes "common"
label_of false false true = codes "variable"
label_of false false false = codes "unlabeled"

pub developer_label : Partition → Bytes → Bytes
developer_label p path =
    label_of (matches p.exclude path) (matches p.stable path) (matches p.variable path)
