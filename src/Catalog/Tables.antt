-- ===== src/Catalog/Tables.antt =====
-- src/catalog.cpp: the tables of the queue. A table is the list of its rows, and an `UPDATE` a map over
-- them. Times are seconds; a statement's `strftime('%s','now')` is an argument `now`.
use repotraverse.Prelude.{
  ℕ, ◌+◌, Bool, true, false, ◌&&◌, ◌||◌, not, Option, none, some, List, [], ◌∷◌, ◌++◌, ltb, leb,
  if◌then◌else◌, Bytes, text_eq,
}

-- The states that the `CHECK` of work_items admits.
pub data State : Type 0 where
  pending running waiting_for_credential retry_wait completed failed cancelled : State

pub record WorkItem : Type 0 where
  pub work_id : Bytes
  pub kind : Bytes
  pub parameters : Bytes
  pub credential_reference : Bytes
  pub fifo_sequence : ℕ
  pub state : State
  pub owner : Bytes
  pub attempt_count : ℕ
  pub next_attempt_at : ℕ
  pub cancellation_requested : Bool
  pub maintenance : Bool
  pub progress : Bytes
  pub error_fingerprint : Bytes
  pub created_at : ℕ
  pub updated_at : ℕ

pub data RunnerState : Type 0 where
  launching active : RunnerState

pub record RunnerLease : Type 0 where
  pub state : RunnerState
  pub adoption_token : Bytes
  pub owner : Bytes
  pub pid : ℕ
  pub process_start_identity : Bytes
  pub executable_identity : Bytes
  pub schema_identity : Bytes
  pub config_identity : Bytes
  pub credential_capabilities : List Bytes
  pub heartbeat_at : ℕ
  pub created_at : ℕ

-- A row of facts; of the text of a fact, its size.
pub record Fact : Type 0 where
  pub fact_id : Bytes
  pub task_id : Bytes
  pub size : ℕ
  pub created_at : ℕ
  pub accessed_at : ℕ

-- The tables, `work_id` first in a pair, and what `configure_launch` sets. The lease is a singleton, and
-- `published` is published_tasks.
pub record Queue : Type 0 where
  pub items : List WorkItem
  pub dependencies : List (Bytes × Bytes)
  pub invocations : List (Bytes × Bytes)
  pub lease : Option RunnerLease
  pub facts : List Fact
  pub published : List Bytes
  pub launch_capabilities : List Bytes
  pub launch_executable_identity : Bytes
  pub launch_config_identity : Bytes

abbrev pub is_running : State → Bool
is_running running = true
is_running _ = false

abbrev pub is_completed : State → Bool
is_completed completed = true
is_completed _ = false

abbrev pub is_pending : State → Bool
is_pending pending = true
is_pending _ = false

-- `IN ('failed','cancelled')`.
abbrev pub is_dropped : State → Bool
is_dropped failed = true
is_dropped cancelled = true
is_dropped _ = false

-- `IN ('pending','retry_wait','waiting_for_credential')`.
abbrev pub is_waiting : State → Bool
is_waiting pending = true
is_waiting retry_wait = true
is_waiting waiting_for_credential = true
is_waiting _ = false

-- `IN ('pending','retry_wait')`.
abbrev pub is_unclaimed : State → Bool
is_unclaimed pending = true
is_unclaimed retry_wait = true
is_unclaimed _ = false

-- `IN ('completed','failed','cancelled')`.
abbrev pub is_settled : State → Bool
is_settled completed = true
is_settled failed = true
is_settled cancelled = true
is_settled _ = false

abbrev pub is_active : RunnerState → Bool
is_active active = true
is_active launching = false

-- `UPDATE work_items SET change WHERE test`.
unfoldable pub update_where :
    (WorkItem → Bool) → (WorkItem → WorkItem) → List WorkItem → List WorkItem
update_where test change [] = []
update_where test change (w ∷ ws) = (if test w then change w else w) ∷ update_where test change ws

-- Some row passes the test: `EXISTS`, or `sqlite3_changes(...) != 0` of an update.
unfoldable pub any_item : (WorkItem → Bool) → List WorkItem → Bool
any_item test [] = false
any_item test (w ∷ ws) = test w || any_item test ws

-- `WHERE work_id=?`.
abbrev pub has_id : Bytes → WorkItem → Bool
has_id id w = text_eq w.work_id id

unfoldable pub find_item : Bytes → List WorkItem → Option WorkItem
find_item id [] = none
find_item id (w ∷ ws) = if text_eq w.work_id id then some w else find_item id ws

unfoldable pub count_running : List WorkItem → ℕ
count_running [] = 0
count_running (w ∷ ws) = if is_running w.state then count_running ws + 1 else count_running ws

-- The unique index one_running_work: a statement that leaves two running rows throws.
unfoldable pub one_running : List WorkItem → Option (List WorkItem)
one_running ws = if leb (count_running ws) 1 then some ws else none

-- `max(fifo_sequence)`.
unfoldable pub max_sequence : List WorkItem → ℕ
max_sequence [] = 0
max_sequence (w ∷ ws) =
    if leb (max_sequence ws) w.fifo_sequence then w.fifo_sequence else max_sequence ws

-- `SELECT 1 FROM work_dependencies d JOIN work_items p ON p.work_id=d.depends_on WHERE
-- d.work_id=w.work_id AND test(p)`.
unfoldable pub depends_on : (WorkItem → Bool) → List WorkItem → List (Bytes × Bytes) → Bytes → Bool
depends_on test items [] id = false
depends_on test items ((w, d) ∷ deps) id =
    (text_eq w id && any_item (λ p. has_id d p && test p) items) || depends_on test items deps id

abbrev pub not_completed : WorkItem → Bool
not_completed p = not (is_completed p.state)

abbrev pub was_dropped : WorkItem → Bool
was_dropped p = is_dropped p.state

-- The item waits, its time has come, and nothing that it depends on is left to do.
unfoldable pub is_runnable : ℕ → Queue → WorkItem → Bool
is_runnable now q w =
    is_waiting w.state
    && leb w.next_attempt_at now
    && not w.cancellation_requested
    && not (depends_on not_completed q.items q.dependencies w.work_id)

-- `heartbeat_at<strftime('%s','now')-30`.
abbrev pub is_stale : ℕ → RunnerLease → Bool
is_stale now l = ltb (l.heartbeat_at + 30) now

-- `DELETE FROM runner_lease WHERE singleton=1 AND ` the lease is stale.
unfoldable pub drop_stale : ℕ → Option RunnerLease → Option RunnerLease
drop_stale now none = none
drop_stale now (some l) = if is_stale now l then none else some l

-- The pair is there already: `INSERT OR IGNORE` on the primary key.
unfoldable pub has_pair : Bytes → Bytes → List (Bytes × Bytes) → Bool
has_pair a b [] = false
has_pair a b ((c, d) ∷ ps) = (text_eq a c && text_eq b d) || has_pair a b ps

unfoldable pub insert_pair : Bytes → Bytes → List (Bytes × Bytes) → List (Bytes × Bytes)
insert_pair a b ps = if has_pair a b ps then ps else ps ++ (a, b) ∷ []
