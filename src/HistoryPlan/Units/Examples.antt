-- ===== src/HistoryPlan/Units/Examples.antt =====
-- A history of four commits: two of one pull request, one confirmed to have none, one unknown.
use repotraverse.Prelude.{
  ℕ, ◌≡◌, refl, true, false, ◌||◌, none, some, List, [], ◌∷◌, map, if◌then◌else◌, Bytes, codes,
  text_eq, is_empty, All,
}
use repotraverse.HistoryPlan.Records.{CommitRecord}
use repotraverse.HistoryPlan.Units.{
  Settings, PlanState, plan_units, consume_all, consume, place, flush, flush_pending, open_unit,
  write_unit, with_net, extend_unit, exact_pr, single_key,
}
use repotraverse.HistoryPlan.Units.Partition.{
  unit_commits, commit_ids, IsUniform, plan_units_partition,
}
use repotraverse.HistoryPlan.Units.Counts.{Tallies, plan_units-Tallies}
use repotraverse.HistoryPlan.Units.Total.{NetTotal, plan_units_total}
use mathlib.Core.Option

abbrev commit : Bytes → Bytes → CommitRecord ℕ
commit parent id = record {
  commit = id;
  parent = parent;
  tree = [];
  committer_time = 0;
  subject = [];
  changes = [];
}

abbrev history : List (CommitRecord ℕ)
history =
    commit (codes "0") (codes "1")
    ∷ commit (codes "1") (codes "2")
    ∷ commit (codes "2") (codes "3")
    ∷ commit (codes "3") (codes "4")
    ∷ []

-- The pull request of the first two commits is 7.
matches : Bytes → List Bytes
matches s = if text_eq s (codes "1") || text_eq s (codes "2") then codes "7" ∷ [] else []

abbrev settings : Settings ℕ Bytes
settings = record {
  repository_id = codes "r";
  ref = codes "main";
  matches = matches;
  confirmed_no_pr = λ s. text_eq s (codes "3");
  no_pr_evidence = λ s. none;
  pr_key = λ s. s;
  association_kind = λ s. [];
  net = λ base head. some (record { status = codes "M"; path = head; old_path = [] } ∷ []);
  source_path = λ s. true;
  build_path = λ s. false;
  stable_hash = λ s. s;
  dump = λ ids. [];
  dump_ids = λ ids. [];
}

settings-NetTotal : NetTotal settings
settings-NetTotal base head = (_, refl)

plan : PlanState ℕ Bytes
plan = (plan_units_total settings settings-NetTotal history).0

plan_lem : plan_units settings history ≡ some plan
unfolding plan
plan_lem = (plan_units_total settings settings-NetTotal history).1

plan_runs :
    Option.map (λ s. map (λ u. u.unit.commits) s.output) (plan_units settings history)
    ≡ some ((codes "1" ∷ codes "2" ∷ []) ∷ (codes "3" ∷ []) ∷ (codes "4" ∷ []) ∷ [])
unfolding plan_units consume_all consume place flush flush_pending open_unit write_unit with_net
    extend_unit exact_pr single_key matches text_eq is_empty
plan_runs = refl

plan_units_partition_example :
    (unit_commits plan.output ≡ commit_ids history) × All (IsUniform settings) plan.output
plan_units_partition_example = plan_units_partition settings history plan plan_lem

plan_units-Tallies_example : Tallies 4 plan
plan_units-Tallies_example = plan_units-Tallies settings history plan plan_lem

plan_units_total_example :
    (t : PlanState ℕ Bytes) × (plan_units settings history ≡ some t)
    × (unit_commits t.output ≡ commit_ids history)
plan_units_total_example = plan_units_total settings settings-NetTotal history
