-- ===== src/HistoryPlan/Records/Log.antt =====
-- What `git log` writes for a list of commits, and how its fields are found again.
use repotraverse.Prelude.{
  ℕ, ◌≡◌, refl, ap, ◌≢◌, ◌⊎◌, true, false, some, List, [], ◌∷◌, ◌++◌, arith, ◌==◌, if◌then◌else◌,
  Bytes, All,
}
use repotraverse.Encoding.{valid_utf8}
use repotraverse.HistoryPlan.Records.{
  ChangedPath, tokens, prepend, strip_record_prefix, cut_at, first_parent, is_header, is_rename,
}

-- A commit as Git knows it: its time is text, and the first of its parents is the one that is followed.
-- `gap` is what the log has before the header, and each change comes with what the log has before it.
pub record LogEntry : Type 0 where
  pub gap : Bytes
  pub commit : Bytes
  pub parent : Bytes
  pub others : List Bytes
  pub tree : Bytes
  pub time : Bytes
  pub subject : Bytes
  pub changes : List (Bytes × ChangedPath)

abbrev pub spaced : List Bytes → Bytes
spaced [] = []
spaced (p ∷ ps) = b' ' ∷ (p ++ spaced ps)

abbrev pub header : LogEntry → Bytes
header e =
    b'C'
    ∷ b'\t'
    ∷ (e.commit
        ++ b'\t'
          ∷ ((e.parent ++ spaced e.others)
              ++ b'\t' ∷ (e.tree ++ b'\t' ∷ (e.time ++ b'\t' ∷ e.subject))))

abbrev pub change_tokens : Bytes × ChangedPath → List Bytes
change_tokens (gap, c) =
    (gap ++ c.status) ∷ (if is_rename c.status then c.old_path ∷ c.path ∷ [] else c.path ∷ [])

abbrev pub changes_tokens : List (Bytes × ChangedPath) → List Bytes
changes_tokens [] = []
changes_tokens (c ∷ cs) = change_tokens c ++ changes_tokens cs

abbrev pub log_tokens : List LogEntry → List Bytes
log_tokens [] = []
log_tokens (e ∷ es) = (e.gap ++ header e) ∷ (changes_tokens e.changes ++ log_tokens es)

-- The tokens, each ended by a NUL.
abbrev pub write_tokens : List Bytes → Bytes
write_tokens [] = []
write_tokens (t ∷ ts) = t ++ 0 ∷ write_tokens ts

abbrev pub Lacks : ℕ → Bytes → Type 0
Lacks b = All λ c. c ≢ b

abbrev pub IsLineEnd : ℕ → Type 0
IsLineEnd c = (c ≡ b'\n') ⊎ (c ≡ b'\r')

-- The text begins with a byte that is no line end.
abbrev pub StartsPlain : Bytes → Type 0
StartsPlain [] = ⊥
StartsPlain (c ∷ s) = (c ≢ b'\n') × (c ≢ b'\r')

pub record IsChange (c : ChangedPath) : Type 0 where
  pub plain : StartsPlain c.status
  pub no_header : is_header c.status ≡ false
  pub path_valid : valid_utf8 c.path ≡ true
  pub old_valid : valid_utf8 c.old_path ≡ true
  pub not_renamed : is_rename c.status ≡ false → c.old_path ≡ []

pub tokens-write_tokens : (ts : List Bytes) → All (Lacks 0) ts → tokens (write_tokens ts) ≡ ts
unfolding tokens prepend
tokens-write_tokens [] h = refl
tokens-write_tokens ([] ∷ ts) h = ap (λ r. [] ∷ r) (tokens-write_tokens ts h.1)
tokens-write_tokens ((c ∷ t) ∷ ts) (h, hs) =
    let ih : tokens (write_tokens (t ∷ ts)) ≡ t ∷ ts = tokens-write_tokens (t ∷ ts) (h.1, hs) in
    let no : (c == 0) ≡ false = ground arith in rw (no, ih)

pub strip-append :
    (gap t : Bytes) → All IsLineEnd gap → StartsPlain t → strip_record_prefix (gap ++ t) ≡ t
unfolding strip_record_prefix
strip-append [] [] h p = absurd p
strip-append [] (c ∷ t) h p = ground arith
strip-append (c ∷ gap) t h p = let ih = strip-append gap t h.1 p in ground arith

pub cut_at-append : (b : ℕ) (x rest : Bytes) → Lacks b x → cut_at b (x ++ b ∷ rest) ≡ some (x, rest)
unfolding cut_at
cut_at-append b [] rest h = ground arith
cut_at-append b (c ∷ x) rest h = let ih = cut_at-append b x rest h.1 in ground arith

pub first_parent-append :
    (x : Bytes) (others : List Bytes) → Lacks b' ' x → first_parent (x ++ spaced others) ≡ x
unfolding first_parent
first_parent-append [] [] h = refl
first_parent-append [] (p ∷ ps) h = refl
first_parent-append (c ∷ x) others h = let ih = first_parent-append x others h.1 in ground arith
