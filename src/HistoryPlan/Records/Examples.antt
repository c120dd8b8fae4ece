-- ===== src/HistoryPlan/Records/Examples.antt =====
-- A log of two commits as Git writes it, with a line end before the first change of each, read back.
use repotraverse.Prelude.{
  ℕ, ◌≡◌, refl, inl, true, Option, some, [], ◌∷◌, ◌++◌, arith, Bytes, codes, is_empty, length, All,
}
use repotraverse.Encoding.{valid_utf8, utf8_bytes}
use repotraverse.HistoryPlan.Records.{
  ok, err, path_before_commit, read_git_history, read_tokens, tokens, prepend, strip_record_prefix,
  is_header, is_rename,
}
use repotraverse.HistoryPlan.Records.Log.{LogEntry, write_tokens, log_tokens, IsChange, Lacks}
use repotraverse.HistoryPlan.Records.RoundTrip.{IsEntry, record_of, read_git_history-write_tokens}
use repotraverse.Encoding.Utf8.{IsScalar, encode, valid_utf8_iff}

abbrev stoll : Bytes → Option ℕ
stoll s = some (length s)

abbrev first_entry : LogEntry
first_entry = record {
  gap = [];
  commit = codes "aa";
  parent = codes "00";
  others = codes "bb" ∷ [];
  tree = codes "t";
  time = codes "17";
  subject = codes "start now";
  changes =
      (b'\n' ∷ [], record { status = codes "R100"; path = codes "y.c"; old_path = codes "x.c" })
      ∷ ([], record { status = codes "M"; path = codes "y.c"; old_path = [] })
      ∷ [];
}

abbrev second_entry : LogEntry
second_entry = record {
  gap = [];
  commit = codes "cc";
  parent = codes "aa";
  others = [];
  tree = codes "u";
  time = codes "18";
  subject = [];
  changes = (b'\n' ∷ [], record { status = codes "M"; path = codes "y.c"; old_path = [] }) ∷ [];
}

abbrev entries_log : Bytes
entries_log = write_tokens (log_tokens (first_entry ∷ second_entry ∷ []))

valid : (s : Bytes) → All IsScalar s → s ≡ encode s → valid_utf8 s ≡ true
valid s h e = (valid_utf8_iff s).1 (s, h, e)

rename-IsChange :
    IsChange (record { status = codes "R100"; path = codes "y.c"; old_path = codes "x.c" })
unfolding is_header is_rename utf8_bytes
rename-IsChange = record {
  plain = omega arith;
  no_header = refl;
  path_valid = valid (codes "y.c") (omega arith) refl;
  old_valid = valid (codes "x.c") (omega arith) refl;
  not_renamed = λ e. absurd (ground arith);
}

modify-IsChange : IsChange (record { status = codes "M"; path = codes "y.c"; old_path = [] })
unfolding is_header is_rename utf8_bytes
modify-IsChange = record {
  plain = omega arith;
  no_header = refl;
  path_valid = valid (codes "y.c") (omega arith) refl;
  old_valid = valid [] tt refl;
  not_renamed = λ e. refl;
}

first-IsEntry : IsEntry stoll length first_entry
unfolding utf8_bytes
first-IsEntry = record {
  commit_plain = omega arith;
  parents_plain = omega arith;
  parent_plain = omega arith;
  tree_plain = omega arith;
  time_plain = omega arith;
  time_read = refl;
  subject_valid = valid (codes "start now") (omega arith) refl;
  line_ends = tt;
  all_changes = (((inl refl, tt), rename-IsChange), ((tt, modify-IsChange), tt));
}

second-IsEntry : IsEntry stoll length second_entry
unfolding utf8_bytes
second-IsEntry = record {
  commit_plain = omega arith;
  parents_plain = omega arith;
  parent_plain = omega arith;
  tree_plain = omega arith;
  time_plain = omega arith;
  time_read = refl;
  subject_valid = valid [] tt refl;
  line_ends = tt;
  all_changes = (((inl refl, tt), modify-IsChange), tt);
}

lines-Lacks : All (Lacks 0) (log_tokens (first_entry ∷ second_entry ∷ []))
unfolding is_rename
lines-Lacks = omega arith

read_git_history-write_tokens_example :
    read_git_history stoll entries_log
    ≡ ok (record_of stoll length first_entry ∷ record_of stoll length second_entry ∷ [])
read_git_history-write_tokens_example =
    read_git_history-write_tokens stoll length first_entry (second_entry ∷ [])
      (first-IsEntry, (second-IsEntry, tt)) lines-Lacks

stray_path : read_git_history stoll (codes "M" ++ 0 ∷ codes "y.c") ≡ err path_before_commit
unfolding read_git_history read_tokens tokens prepend strip_record_prefix is_empty is_header
stray_path = refl
