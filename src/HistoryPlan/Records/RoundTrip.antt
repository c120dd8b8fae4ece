-- ===== src/HistoryPlan/Records/RoundTrip.antt =====
-- What `git log` writes for a list of commits is read back as those commits.
use repotraverse.Prelude.{
  ℕ, zero, suc, ◌≤◌, ◌≡◌, refl, sym, ap, ◌∙◌, inl, inr, true, false, Option, none, some, List, [],
  ◌∷◌, ◌++◌, map, append_assoc, append-nil, arith, if◌then◌else◌, Bool-cases, Bytes, is_empty,
  length, length-append, All,
}
use repotraverse.Encoding.{valid_utf8}
use repotraverse.HistoryPlan.Records.{
  ChangedPath, CommitRecord, ok, strip_record_prefix, header_fields, split_header, is_header,
  is_rename, require_paths, commit_of, consumed, add_change, read_change, read_tokens,
  read_git_history,
}
use repotraverse.HistoryPlan.Records.Log.{
  LogEntry, spaced, header, changes_tokens, log_tokens, write_tokens, Lacks, IsLineEnd, StartsPlain,
  IsChange, tokens-write_tokens, strip-append, cut_at-append, first_parent-append,
}

split_header-header :
    (e : LogEntry)
    → Lacks b'\t' e.commit
    → Lacks b'\t' (e.parent ++ spaced e.others)
    → Lacks b'\t' e.tree
    → Lacks b'\t' e.time
    → split_header (header e)
      ≡ ok (
          (b'C' ∷ []) ∷ e.commit ∷ (e.parent ++ spaced e.others) ∷ e.tree ∷ e.time ∷ e.subject ∷ [])
unfolding split_header header_fields
split_header-header e a b c d = rw (
  cut_at-append b'\t' e.commit _ a,
  cut_at-append b'\t' (e.parent ++ spaced e.others) _ b,
  cut_at-append b'\t' e.tree _ c,
  cut_at-append b'\t' e.time _ d,
)

module _ {Time : Type 0} (stoll : Bytes → Option Time) where
  header_step :
      (fuel : ℕ) (current : Option (CommitRecord Time)) (t : Bytes) (ts fields : List Bytes)
      (c : CommitRecord Time) (out : List (CommitRecord Time)) (h : Bytes)
      → strip_record_prefix t ≡ h
      → is_empty h ≡ false
      → is_header h ≡ true
      → split_header h ≡ ok fields
      → commit_of stoll fields ≡ ok c
      → read_tokens stoll fuel (some c) ts ≡ ok out
      → read_tokens stoll (suc fuel) current (t ∷ ts) ≡ ok (consumed stoll current ++ out)
  unfolding read_tokens
  header_step fuel current t ts fields c out h p q r s u v = rw (p, q, r, s, u, v)

  change_step :
      (fuel : ℕ) (c : CommitRecord Time) (t : Bytes) (ts rest : List Bytes) (change : ChangedPath)
      (h : Bytes)
      → strip_record_prefix t ≡ h
      → is_empty h ≡ false
      → is_header h ≡ false
      → read_change stoll h ts ≡ ok (change, rest)
      → read_tokens stoll (suc fuel) (some c) (t ∷ ts)
        ≡ read_tokens stoll fuel (some (add_change stoll c change)) rest
  unfolding read_tokens
  change_step fuel c t ts rest change h p q r s = rw (p, q, r, s)

  require_paths_lem :
      (c : ChangedPath)
      → valid_utf8 c.path ≡ true
      → valid_utf8 c.old_path ≡ true
      → require_paths c ≡ ok c
  unfolding require_paths
  require_paths_lem c p q = ground arith

  without_old :
      (c : ChangedPath)
      → c.old_path ≡ []
      → ◌≡◌ {A = ChangedPath} (record { status = c.status; path = c.path; old_path = [] }) c
  without_old c e = λ i. record { status = c.status; path = c.path; old_path = sym e i }

  one_path :
      (c : ChangedPath) (rest : List Bytes)
      → IsChange c
      → is_rename c.status ≡ false
      → read_change stoll c.status (c.path ∷ rest) ≡ ok (c, rest)
  unfolding read_change
  one_path c [] w p =
      rw (p, without_old c (w.not_renamed p), require_paths_lem c w.path_valid w.old_valid)
  one_path c (t ∷ rest) w p =
      rw (p, without_old c (w.not_renamed p), require_paths_lem c w.path_valid w.old_valid)

  read_change-tokens :
      (c : ChangedPath) (rest : List Bytes)
      → IsChange c
      → read_change stoll c.status
          ((if is_rename c.status then c.old_path ∷ c.path ∷ [] else c.path ∷ []) ++ rest)
        ≡ ok (c, rest)
  read_change-tokens c rest w = elim (Bool-cases (is_rename c.status)) [
    | inl p ↦ rw p (unfold read_change in rw (p, require_paths_lem c w.path_valid w.old_valid))
    | inr p ↦ rw p (one_path c rest w p)
  ]

module _ {Time : Type 0} (stoll : Bytes → Option Time) (seconds : Bytes → Time) where
  -- Line ends alone stand before a change.
  abbrev pub IsLogChange : Bytes × ChangedPath → Type 0
  IsLogChange p = All IsLineEnd p.0 × IsChange p.1

  abbrev pub change_of : Bytes × ChangedPath → ChangedPath
  change_of p = p.1

  -- The fields of an entry can be told apart, its texts are valid, and line ends
  -- alone stand before its header.
  pub record IsEntry (e : LogEntry) : Type 0 where
    pub commit_plain : Lacks b'\t' e.commit
    pub parents_plain : Lacks b'\t' (e.parent ++ spaced e.others)
    pub parent_plain : Lacks b' ' e.parent
    pub tree_plain : Lacks b'\t' e.tree
    pub time_plain : Lacks b'\t' e.time
    pub time_read : stoll e.time ≡ some (seconds e.time)
    pub subject_valid : valid_utf8 e.subject ≡ true
    pub line_ends : All IsLineEnd e.gap
    pub all_changes : All IsLogChange e.changes

  -- The record of an entry.
  abbrev pub record_of : LogEntry → CommitRecord Time
  record_of e = record {
    commit = e.commit;
    parent = e.parent;
    tree = e.tree;
    committer_time = seconds e.time;
    subject = e.subject;
    changes = map change_of e.changes;
  }

  abbrev without_changes : LogEntry → CommitRecord Time
  without_changes e = record (record_of e) { changes = [] }

  commit_of_lem :
      (e : LogEntry)
      → IsEntry e
      → commit_of stoll (
          (b'C' ∷ []) ∷ e.commit ∷ (e.parent ++ spaced e.others) ∷ e.tree ∷ e.time ∷ e.subject ∷ [])
        ≡ ok (without_changes e)
  unfolding commit_of
  commit_of_lem e w =
      rw (w.time_read, w.subject_valid, first_parent-append e.parent e.others w.parent_plain)

  abbrev add_changes : CommitRecord Time → List (Bytes × ChangedPath) → CommitRecord Time
  add_changes c chs = record c { changes = c.changes ++ map change_of chs }

  no_more : (c : CommitRecord Time) → c ≡ add_changes c []
  no_more c = λ i. record c { changes = sym (append-nil c.changes) i }

  one_more :
      (c : CommitRecord Time) (ch : Bytes × ChangedPath) (chs : List (Bytes × ChangedPath))
      → add_changes (add_change stoll c ch.1) chs ≡ add_changes c (ch ∷ chs)
  unfolding add_change
  one_more c ch chs =
      λ i. record c { changes = append_assoc c.changes (ch.1 ∷ []) (map change_of chs) i }

  read_tokens-nil :
      (fuel : ℕ) (current : Option (CommitRecord Time))
      → read_tokens stoll fuel current [] ≡ ok (consumed stoll current)
  unfolding read_tokens
  read_tokens-nil zero current = refl
  read_tokens-nil (suc fuel) current = refl

  header_flags : (e : LogEntry) → (is_empty (header e) ≡ false) × (is_header (header e) ≡ true)
  unfolding is_empty is_header
  header_flags e = (refl, refl)

  StartsPlain-is_empty : (s : Bytes) → StartsPlain s → is_empty s ≡ false
  unfolding is_empty
  StartsPlain-is_empty [] h = absurd h
  StartsPlain-is_empty (c ∷ s) h = refl

  read_log :
      (fuel : ℕ) (c : CommitRecord Time) (chs : List (Bytes × ChangedPath)) (es : List LogEntry)
      → All IsLogChange chs
      → All IsEntry es
      → length (changes_tokens chs ++ log_tokens es) ≤ fuel
      → read_tokens stoll fuel (some c) (changes_tokens chs ++ log_tokens es)
        ≡ ok (add_changes c chs ∷ map record_of es)
  read_log fuel c [] [] w v h = read_tokens-nil fuel (some c) ∙ ap (λ x. ok (x ∷ [])) (no_more c)
  read_log zero c [] (e ∷ es) w v h = absurd (omega arith)
  read_log (suc fuel) c [] (e ∷ es) w (v, vs) h =
      header_step stoll fuel (some c) _ _ _ (without_changes e) (map record_of (e ∷ es)) (header e)
        (strip-append e.gap (header e) v.line_ends ((λ x. ground arith), (λ x. ground arith)))
        ((header_flags e).0) ((header_flags e).1)
        (split_header-header e v.commit_plain v.parents_plain v.tree_plain v.time_plain)
        (commit_of_lem e v)
        (read_log fuel (without_changes e) e.changes es v.all_changes vs (omega arith))
      ∙ ap (λ x. ok (x ∷ map record_of (e ∷ es))) (no_more c)
  read_log zero c (ch ∷ chs) es w v h = absurd (omega arith)
  read_log (suc fuel) c ((gap, ch) ∷ chs) es ((ends, w), ws) v h =
      let paths : List Bytes =
        if is_rename ch.status then ch.old_path ∷ ch.path ∷ [] else ch.path ∷ [] in
      let later = changes_tokens chs ++ log_tokens es in
      let split : (paths ++ changes_tokens chs) ++ log_tokens es ≡ paths ++ later =
        append_assoc paths (changes_tokens chs) (log_tokens es) in
      change_step stoll fuel c _ _ later ch ch.status (strip-append gap ch.status ends w.plain)
        (StartsPlain-is_empty ch.status w.plain) w.no_header
        (rw split (read_change-tokens stoll ch later w))
      ∙ read_log fuel (add_change stoll c ch) chs es ws v
          (omega (arith, ap length split, length-append paths later))
      ∙ ap (λ x. ok (x ∷ map record_of es)) (one_more c (gap, ch) chs)

  -- A log of one or more well-formed commits (no tab or NUL where the format has none, texts in UTF-8,
  -- times that `stoll` reads) is read back in order, whatever line ends stand before each of its headers
  -- and changes.
  pub read_git_history-write_tokens :
      (e : LogEntry) (es : List LogEntry)
      → All IsEntry (e ∷ es)
      → All (Lacks 0) (log_tokens (e ∷ es))
      → read_git_history stoll (write_tokens (log_tokens (e ∷ es))) ≡ ok (map record_of (e ∷ es))
  unfolding read_git_history
  read_git_history-write_tokens e es (w, ws) nul =
      rw (tokens-write_tokens (log_tokens (e ∷ es)) nul) (
        header_step stoll _ none _ _ _ (without_changes e) (map record_of (e ∷ es)) (header e)
          (strip-append e.gap (header e) w.line_ends ((λ x. ground arith), (λ x. ground arith)))
          ((header_flags e).0) ((header_flags e).1)
          (split_header-header e w.commit_plain w.parents_plain w.tree_plain w.time_plain)
          (commit_of_lem e w)
          (read_log _ (without_changes e) e.changes es w.all_changes ws (omega arith)))
