-- ===== src/Catalog/Steps.antt =====
-- src/catalog.cpp: the calls of programs that share a catalog, in the order in which SQLite admits
-- them. A call that throws leaves the tables as they were.
use repotraverse.Prelude.{ℕ, Bool, Option, none, some, List, [], ◌∷◌, Bytes}
use repotraverse.Catalog.Tables.{Queue}
use repotraverse.Catalog.Work.{
  WorkRequest, enqueue_work, schedule_task, complete_work, fail_work, fail_task, set_task_state,
  cancel_work,
}
use repotraverse.Catalog.Facts.{
  CacheLimits, store_fact, fact_for_task, mark_task_published, next_pending_task,
}
use repotraverse.Catalog.Runner.{
  Process, claim_runner_launch, configure_launch, clear_failed_launch, adopt_runner,
  heartbeat_runner, claim_next_work, release_runner_if_empty,
}

-- A call; its time is given with it.
pub data Op : Type 0 where
  enqueues : Bytes → WorkRequest → Op
  schedules : Bytes → Bytes → Bytes → Bytes → Op
  configures : List Bytes → Bytes → Bytes → Op
  launches : Bytes → List Bytes → Bytes → Bytes → Op
  clears : Bytes → Op
  adopts : Bytes → Process → Op
  beats : Bytes → Op
  claims : Bytes → Bytes → List Bytes → Op
  completes : Bytes → Bytes → Bytes → Op
  fails : Bytes → Bytes → Bytes → ℕ → Op
  cancels : Bytes → Op
  releases : Bytes → Op
  sets_state : Bytes → Bytes → Op
  fails_task : Bytes → Bytes → ℕ → Op
  stores : CacheLimits → Bytes → Bytes → ℕ → Bool → Op
  reads_fact : Bytes → Op
  publishes : Bytes → Op
  picks : Op

unfoldable pub or_same {ℓ} : {A : Type ℓ} → Queue → (A → Queue) → Option A → Queue
or_same q f none = q
or_same q f (some a) = f a

unfoldable pub step : ℕ → Op → Queue → Queue
unfolding or_same
step now (enqueues token r) q = or_same q (λ x. x.0) (enqueue_work now token r q)
step now (schedules token id task request) q = schedule_task now token id task request q
step now (configures capabilities executable config) q =
    configure_launch capabilities executable config q
step now (launches token capabilities executable config) q =
    (claim_runner_launch now token capabilities executable config q).0
step now (clears token) q = (clear_failed_launch token q).0
step now (adopts token p) q = (adopt_runner now token p q).0
step now (beats owner) q = (heartbeat_runner now owner q).0
step now (claims failure owner capabilities) q =
    or_same q (λ x. x.0) (claim_next_work now failure owner capabilities q)
step now (completes id owner progress) q = complete_work now id owner progress q
step now (fails id owner fingerprint maximum) q = (fail_work now id owner fingerprint maximum q).0
step now (cancels id) q = (cancel_work now id q).0
step now (releases owner) q = (release_runner_if_empty now owner q).0
step now (sets_state id state) q = or_same q (λ x. x) (set_task_state now id state q)
step now (fails_task id diagnostic maximum) q = (fail_task now id diagnostic maximum q).0
step now (stores limits id task size readable) q =
    or_same q (λ x. x) (store_fact now limits id task size readable q)
step now (reads_fact task) q = (fact_for_task now task q).0
step now (publishes id) q = mark_task_published id q
step now picks q = (next_pending_task now q).0

unfoldable pub run : List (ℕ × Op) → Queue → Queue
run [] q = q
run ((now, op) ∷ ops) q = run ops (step now op q)

-- The tables as `Catalog` creates them.
abbrev pub empty_queue : Queue
empty_queue = record {
  items = [];
  dependencies = [];
  invocations = [];
  lease = none;
  facts = [];
  published = [];
  launch_capabilities = [];
  launch_executable_identity = [];
  launch_config_identity = [];
}
