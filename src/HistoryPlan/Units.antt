-- ===== src/HistoryPlan/Units.antt =====
-- src/history_plan.cpp: `write_history_plan` from the commits to the units and totals that it writes.
-- A match of a pull request is what the imported facts hold of it, with the text of its identity and
-- the kind of its association; so is the evidence that there is none. `net` are the net changes between two revisions, which Git computes
-- and which may fail; `dump` is canonical JSON of commits, and `dump_ids` that of the pull requests.
pub mod Rounds
pub mod Partition
pub mod Counts
pub mod Total
mod Examples
use repotraverse.Prelude.{
  ℕ, zero, suc, ◌+◌, ◌-◌, ◌*◌, ◌/◌, ◌%◌, ◌^◌, ◌≤◌, ◌<◌, ◌≡◌, refl, sym, ap, ◌∙◌, subst, ◌≢◌, ◌↔◌,
  ◌⊎◌, inl, inr, Bool, true, false, ◌&&◌, ◌||◌, not, Option, none, some, List, [], ◌∷◌, ◌++◌, map,
  append_assoc, append-nil, arith, ltb, leb, ◌==◌, within, if◌then◌else◌, ltb→lt, lt→ltb, leb→le,
  ==_iff, Bool-cases, Option-cases, Bytes, codes, text_eq, text_eq_iff, is_empty, length, take,
  drop, length-append, take-append, drop-append, All, All-append, get_elem?, All-get_elem?, Listed,
}
use repotraverse.HistoryPlan.Records.{ChangedPath, CommitRecord}
use repotraverse.HistoryPlan.Paths.{any_path}

infixl 5 ◌>>=◌
abbrev ◌>>=◌ {ℓ κ} : {A : Type ℓ} {B : Type κ} → Option A → (A → Option B) → Option B
none >>= f = none
some a >>= f = f a

-- The values of `grouping_status`.
pub data Grouping : Type 0 where
  identified compound ambiguous no_pr unknown : Grouping

-- `association_status`.
abbrev pub association_status : Grouping → Bytes
association_status identified = codes "confirmed_pr"
association_status compound = codes "compound"
association_status ambiguous = codes "ambiguous"
association_status no_pr = codes "no_pr"
association_status unknown = codes "unknown"

pub record Totals : Type 0 where
  pub commits : ℕ
  pub units : ℕ
  pub commit_path_records : ℕ
  pub net_changed_paths : ℕ
  pub identified_commits : ℕ
  pub ambiguous_commits : ℕ
  pub compound_commits : ℕ
  pub no_pr_commits : ℕ
  pub unknown_commits : ℕ
  pub source_units : ℕ
  pub build_units : ℕ
  pub resolved_head : Bytes

module _ (Time Match : Type 0) where
  -- The JSON object `pending`; `result_commit` is its head, and `integrated_commits` its commits.
  pub record Pending : Type 0 where
    pub base_commit : Bytes
    pub head_commit : Bytes
    pub commits : List Bytes
    pub tree : Bytes
    pub committer_time : Time
    pub subject : Bytes
    pub grouping_status : Grouping
    pub pr_matches : List Match
    pub association_evidence : List Match
    pub changes : List ChangedPath
    pub has_source_changes : Bool
    pub has_build_changes : Bool

  -- What `flush` writes.
  pub record IntegrationUnit : Type 0 where
    pub unit : Pending
    pub net_changed_path_count : ℕ
    pub integration_unit_id : Bytes
    pub sequence : ℕ

  pub record PlanState : Type 0 where
    pub pending : Option Pending
    pub pending_pr : Bytes
    pub totals : Totals
    pub output : List IntegrationUnit

abbrev count_if : Bool → ℕ → ℕ
count_if true n = n + 1
count_if false n = n

abbrev no_totals : Totals
no_totals = record {
  commits = 0;
  units = 0;
  commit_path_records = 0;
  net_changed_paths = 0;
  identified_commits = 0;
  ambiguous_commits = 0;
  compound_commits = 0;
  no_pr_commits = 0;
  unknown_commits = 0;
  source_units = 0;
  build_units = 0;
  resolved_head = [];
}

pub record Settings (Time Match : Type 0) : Type 0 where
  pub repository_id : Bytes
  pub ref : Bytes
  pub matches : Bytes → List Match
  pub confirmed_no_pr : Bytes → Bool
  pub no_pr_evidence : Bytes → Option Match
  pub pr_key : Match → Bytes
  pub association_kind : Match → Bytes
  pub net : Bytes → Bytes → Option (List ChangedPath)
  pub source_path : Bytes → Bool
  pub build_path : Bytes → Bool
  pub stable_hash : Bytes → Bytes
  pub dump : List Bytes → Bytes
  pub dump_ids : List Match → Bytes

module _ {Time Match : Type 0} (o : Settings Time Match) where
  all_compound : List Match → Bool
  all_compound [] = true
  all_compound (m ∷ ms) = text_eq (o.association_kind m) (codes "compound") && all_compound ms

  grouping_of : List Match → Bool → Grouping
  grouping_of [] confirmed = if confirmed then no_pr else unknown
  grouping_of (m ∷ []) confirmed = identified
  grouping_of (m ∷ n ∷ rest) confirmed = if all_compound (m ∷ n ∷ rest) then compound else ambiguous

  -- The identity of the only match; empty if there is none, or several.
  pub single_key : List Match → Bytes
  single_key [] = []
  single_key (m ∷ []) = o.pr_key m
  single_key (m ∷ n ∷ rest) = []

  pub exact_pr : Bytes → Bytes
  exact_pr commit = single_key (o.matches commit)

  -- The chain that counts a commit by its matches.
  count_matches : List Match → Bool → Totals → Totals
  count_matches ms true t = record t { no_pr_commits = t.no_pr_commits + 1 }
  count_matches [] false t = record t { unknown_commits = t.unknown_commits + 1 }
  count_matches (m ∷ []) false t = record t { identified_commits = t.identified_commits + 1 }
  count_matches (m ∷ n ∷ rest) false t =
      if all_compound (m ∷ n ∷ rest)
      then record t { compound_commits = t.compound_commits + 1 }
      else record t { ambiguous_commits = t.ambiguous_commits + 1 }

  pub count_commit : CommitRecord Time → Totals → Totals
  count_commit c t = count_matches (o.matches c.commit) (o.confirmed_no_pr c.commit) (record t {
    commits = t.commits + 1;
    resolved_head = c.commit;
    commit_path_records = t.commit_path_records + length c.changes;
  })

  unit_id : Pending Time Match → Bytes
  unit_id p = o.stable_hash (
      o.repository_id
      ++ b'\n'
        ∷ (o.ref
            ++ b'\n'
              ∷ (p.base_commit
                  ++ b'\n'
                    ∷ (p.head_commit
                        ++ b'\n'
                          ∷ (o.dump p.commits
                              ++ b'\n'
                                ∷ (association_status p.grouping_status
                                    ++ b'\n' ∷ o.dump_ids p.pr_matches))))))

  -- The pending object with its net changes.
  pub with_net : Pending Time Match → List ChangedPath → Pending Time Match
  with_net p changes = record p {
    changes = changes;
    has_source_changes = any_path o.source_path changes;
    has_build_changes = any_path o.build_path changes;
  }

  pub write_unit :
      Pending Time Match → List ChangedPath → PlanState Time Match → PlanState Time Match
  write_unit p changes s = record s {
    pending = none;
    pending_pr = [];
    totals = record s.totals {
      net_changed_paths = s.totals.net_changed_paths + length changes;
      source_units = count_if (any_path o.source_path changes) s.totals.source_units;
      build_units = count_if (any_path o.build_path changes) s.totals.build_units;
      units = s.totals.units + 1;
    };
    output =
        s.output
        ++ record {
          unit = with_net p changes;
          net_changed_path_count = length changes;
          integration_unit_id = unit_id p;
          sequence = s.totals.units;
        }
          ∷ [];
  }

  flush_pending : Option (Pending Time Match) → PlanState Time Match → Option (PlanState Time Match)
  flush_pending none s = some s
  flush_pending (some p) s = do
    changes ← o.net p.base_commit p.head_commit
    some (write_unit p changes s)

  -- `none` if the diff of Git fails.
  pub flush : PlanState Time Match → Option (PlanState Time Match)
  flush s = flush_pending s.pending s

  evidence_of : List Match → Option Match → List Match
  evidence_of [] none = []
  evidence_of [] (some e) = e ∷ []
  evidence_of (m ∷ ms) e = m ∷ ms

  pub open_unit : CommitRecord Time → PlanState Time Match → PlanState Time Match
  open_unit c s = record s {
    pending_pr = exact_pr c.commit;
    pending = some (record {
      base_commit = c.parent;
      head_commit = c.commit;
      commits = c.commit ∷ [];
      tree = c.tree;
      committer_time = c.committer_time;
      subject = c.subject;
      grouping_status = grouping_of (o.matches c.commit) (o.confirmed_no_pr c.commit);
      pr_matches = o.matches c.commit;
      association_evidence = evidence_of (o.matches c.commit) (o.no_pr_evidence c.commit);
      changes = c.changes;
      has_source_changes = any_path o.source_path c.changes;
      has_build_changes = any_path o.build_path c.changes;
    });
  }

  pub extend_unit : CommitRecord Time → Pending Time Match → Pending Time Match
  extend_unit c p = record p {
    head_commit = c.commit;
    tree = c.tree;
    committer_time = c.committer_time;
    subject = c.subject;
    commits = p.commits ++ c.commit ∷ [];
  }

  place :
      Option (Pending Time Match)
      → CommitRecord Time
      → PlanState Time Match
      → Option (PlanState Time Match)
  place none c s = some (open_unit c s)
  place (some p) c s =
      if not (is_empty (exact_pr c.commit)) && text_eq s.pending_pr (exact_pr c.commit)
      then some (record s { pending = some (extend_unit c p) })
      else (do t ← flush s; some (open_unit c t))

  -- The callback of `read_git_history`.
  pub consume : CommitRecord Time → PlanState Time Match → Option (PlanState Time Match)
  consume c s =
      let counted = record s { totals = count_commit c s.totals } in place s.pending c counted

  pub consume_all : List (CommitRecord Time) → PlanState Time Match → Option (PlanState Time Match)
  consume_all [] s = some s
  consume_all (c ∷ cs) s = do t ← consume c s; consume_all cs t

  abbrev start : PlanState Time Match
  start = record { pending = none; pending_pr = []; totals = no_totals; output = [] }

  pub plan_units : List (CommitRecord Time) → Option (PlanState Time Match)
  plan_units cs = do s ← consume_all cs start; flush s
