-- ===== src/HistoryPlan/Records.antt =====
-- src/history_plan.cpp: `read_git_history`, on what `git log -z --name-status` writes. The commits
-- that it hands to `consume` are a list here, and `stoll` reads a commit time.
pub mod Log
pub mod RoundTrip
mod Examples
use repotraverse.Prelude.{
  ℕ, zero, suc, ◌+◌, ◌-◌, ◌*◌, ◌/◌, ◌%◌, ◌^◌, ◌≤◌, ◌<◌, ◌≡◌, refl, sym, ap, ◌∙◌, subst, ◌≢◌, ◌↔◌,
  ◌⊎◌, inl, inr, Bool, true, false, ◌&&◌, ◌||◌, not, Option, none, some, List, [], ◌∷◌, ◌++◌, map,
  append_assoc, append-nil, arith, ltb, leb, ◌==◌, within, if◌then◌else◌, ltb→lt, lt→ltb, leb→le,
  ==_iff, Bool-cases, Option-cases, Bytes, codes, text_eq, text_eq_iff, is_empty, length, take,
  drop, length-append, take-append, drop-append, All, All-append, get_elem?, All-get_elem?, Listed,
}
use repotraverse.Encoding.{valid_utf8}

pub record ChangedPath : Type 0 where
  pub status : Bytes
  pub path : Bytes
  pub old_path : Bytes

pub record CommitRecord (Time : Type 0) : Type 0 where
  pub commit : Bytes
  pub parent : Bytes
  pub tree : Bytes
  pub committer_time : Time
  pub subject : Bytes
  pub changes : List ChangedPath

pub data Error : Type 0 where
  invalid_record path_before_commit missing_path missing_renamed_path not_utf8 bad_time : Error

pub data Result {ℓ} (A : Type ℓ) : Type ℓ where
  ok : A → Result A
  err : Error → Result A

infixl 5 ◌>>=◌
abbrev pub ◌>>=◌ {ℓ κ} : {A : Type ℓ} {B : Type κ} → Result A → (A → Result B) → Result B
ok a >>= f = f a
err e >>= f = err e

abbrev pub or_fail {ℓ} : {A : Type ℓ} → Option A → Error → Result A
or_fail none e = err e
or_fail (some a) e = ok a

abbrev guard : Bool → Error → Result (Unit {0})
guard true e = ok tt
guard false e = err e

prepend : ℕ → List Bytes → List Bytes
prepend c [] = (c ∷ []) ∷ []
prepend c (t ∷ ts) = (c ∷ t) ∷ ts

-- The results of `next_token` up to the end of the input.
pub tokens : Bytes → List Bytes
tokens [] = []
tokens (c ∷ s) = let rest = tokens s in if c == 0 then [] ∷ rest else prepend c rest

pub strip_record_prefix : Bytes → Bytes
strip_record_prefix [] = []
strip_record_prefix (c ∷ s) =
    let rest = strip_record_prefix s in if c == b'\n' || c == b'\r' then rest else c ∷ s

-- The text before the first byte `c`, and the text behind it: `value.find(c, begin)`.
pub cut_at : ℕ → Bytes → Option (Bytes × Bytes)
cut_at c [] = none
cut_at c (d ∷ s) = elim (d == c) [
  | true ↦ some ([], s)
  | false ↦ elim (cut_at c s) [ none ↦ none | some (before, after) ↦ some (d ∷ before, after) ]
]

-- The loop over `count`: the fields up to a tab each, then the rest of the header.
header_fields : ℕ → Bytes → Result (List Bytes)
header_fields zero rest = ok (rest ∷ [])
header_fields (suc count) rest = do
  (field, behind) ← or_fail (cut_at b'\t' rest) invalid_record
  fields ← header_fields count behind
  ok (field ∷ fields)

split_header : Bytes → Result (List Bytes)
unfolding header_fields cut_at
split_header value = header_fields 5 value

-- `fields[2].substr(0, fields[2].find(' '))`.
pub first_parent : Bytes → Bytes
first_parent [] = []
first_parent (c ∷ s) = let rest = first_parent s in if c == b' ' then [] else c ∷ rest

pub is_header : Bytes → Bool
is_header [] = false
is_header (c ∷ []) = false
is_header (c ∷ d ∷ s) = c == b'C' && d == b'\t'

-- `change.status.front() == 'R' || ... == 'C'`.
pub is_rename : Bytes → Bool
is_rename [] = false
is_rename (c ∷ s) = c == b'R' || c == b'C'

require_paths : ChangedPath → Result ChangedPath
require_paths change = do
  _ ← guard (valid_utf8 change.path) not_utf8
  _ ← guard (is_empty change.old_path || valid_utf8 change.old_path) not_utf8
  ok change

module _ {Time : Type 0} (stoll : Bytes → Option Time) where
  commit_of : List Bytes → Result (CommitRecord Time)
  commit_of (mark ∷ commit ∷ parents ∷ tree ∷ time ∷ subject ∷ []) = do
    seconds ← or_fail (stoll time) bad_time
    _ ← guard (valid_utf8 subject) not_utf8
    ok (record {
      commit = commit;
      parent = first_parent parents;
      tree = tree;
      committer_time = seconds;
      subject = subject;
      changes = [];
    })
  commit_of fields = err invalid_record

  abbrev consumed : Option (CommitRecord Time) → List (CommitRecord Time)
  consumed none = []
  consumed (some c) = c ∷ []

  add_change : CommitRecord Time → ChangedPath → CommitRecord Time
  add_change c change = record c { changes = c.changes ++ change ∷ [] }

  -- The paths behind a status, and the tokens behind them.
  read_change : Bytes → List Bytes → Result (ChangedPath × List Bytes)
  read_change status [] = err missing_path
  read_change status (first ∷ []) = if is_rename status then err missing_renamed_path else (do
    change ← require_paths (record { status = status; path = first; old_path = [] })
    ok (change, []))
  read_change status (first ∷ second ∷ rest) =
      if is_rename status
      then (do
        change ← require_paths (record { status = status; path = second; old_path = first })
        ok (change, rest))
      else (do
        change ← require_paths (record { status = status; path = first; old_path = [] })
        ok (change, second ∷ rest))

  -- The loop of `read_git_history`; the fuel bounds the tokens.
  read_tokens : ℕ → Option (CommitRecord Time) → List Bytes → Result (List (CommitRecord Time))
  read_tokens fuel current [] = ok (consumed current)
  read_tokens zero current (t ∷ ts) = err invalid_record
  read_tokens (suc fuel) current (t ∷ ts) =
      let token = strip_record_prefix t in
      let skip = read_tokens fuel current ts in
      let next = (do
        fields ← split_header token
        c ← commit_of fields
        rest ← read_tokens fuel (some c) ts
        ok (consumed current ++ rest)) in
      let change = (do
        c ← or_fail current path_before_commit
        (read, rest) ← read_change token ts
        read_tokens fuel (some (add_change c read)) rest) in
      if is_empty token then skip else if is_header token then next else change

  pub read_git_history : Bytes → Result (List (CommitRecord Time))
  read_git_history input = read_tokens (length (tokens input)) none (tokens input)
