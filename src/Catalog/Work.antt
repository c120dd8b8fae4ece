-- ===== src/Catalog/Work.antt =====
-- src/catalog.cpp: what puts work into the queue, and what its end does to it. `none` is an exception;
-- the transaction is rolled back then. Digests, the random token and canonical JSON are arguments.
use repotraverse.Prelude.{
  ℕ, ◌+◌, ◌^◌, Bool, true, false, ◌&&◌, ◌||◌, not, Option, none, some, List, [], ◌∷◌, ◌++◌, leb,
  ◌==◌, if◌then◌else◌, Bytes, codes, text_eq, is_empty, contains,
}
use repotraverse.Catalog.Tables.{
  State, pending, running, waiting_for_credential, retry_wait, completed, failed, cancelled,
  WorkItem, RunnerLease, launching, Queue, is_running, is_dropped, is_settled, update_where,
  any_item, has_id, find_item, one_running, max_sequence, drop_stale, insert_pair,
}

-- A row that is inserted; `INSERT OR IGNORE` leaves a row of the same id alone.
unfoldable pub new_item : ℕ → Bytes → Bytes → Bytes → Bytes → Bool → List WorkItem → WorkItem
new_item now id kind parameters credential maintenance items = record {
  work_id = id;
  kind = kind;
  parameters = parameters;
  credential_reference = credential;
  fifo_sequence = max_sequence items + 1;
  state = pending;
  owner = [];
  attempt_count = 0;
  next_attempt_at = 0;
  cancellation_requested = false;
  maintenance = maintenance;
  progress = codes "{}";
  error_fingerprint = [];
  created_at = now;
  updated_at = now;
}

-- The update of an item that is there already: one that failed or was cancelled runs again.
unfoldable pub rerun : ℕ → WorkItem → WorkItem
rerun now w = record w {
  state = pending;
  attempt_count = 0;
  next_attempt_at = 0;
  cancellation_requested = false;
  error_fingerprint = [];
  updated_at = now;
}

unfoldable pub add_item : ℕ → Bytes → Bytes → Bytes → Bytes → Bool → List WorkItem → List WorkItem
add_item now id kind parameters credential maintenance items =
    if any_item (has_id id) items
    then update_where (λ w. has_id id w && is_dropped w.state) (rerun now) items
    else items ++ new_item now id kind parameters credential maintenance items ∷ []

-- `if (!invocation_id.empty())` the item is linked to it.
unfoldable pub link : Bytes → Bytes → List (Bytes × Bytes) → List (Bytes × Bytes)
link id invocation ps = if is_empty invocation then ps else insert_pair id invocation ps

-- The foreign keys want a row for both ends.
unfoldable pub add_dependencies :
    Bytes → List Bytes → List WorkItem → List (Bytes × Bytes) → Option (List (Bytes × Bytes))
add_dependencies id [] items deps = some deps
add_dependencies id (d ∷ ds) items deps =
    let rest = add_dependencies id ds items (insert_pair id d deps) in
    if any_item (has_id d) items then rest else none

unfoldable pub launch_lease : ℕ → Bytes → List Bytes → Bytes → Bytes → RunnerLease
launch_lease now token capabilities executable config = record {
  state = launching;
  adoption_token = token;
  owner = [];
  pid = 0;
  process_start_identity = [];
  executable_identity = executable;
  schema_identity = codes "1";
  config_identity = config;
  credential_capabilities = capabilities;
  heartbeat_at = now;
  created_at = now;
}

-- `INSERT OR IGNORE INTO runner_lease`.
unfoldable pub insert_lease : RunnerLease → Option RunnerLease → Option RunnerLease
insert_lease new none = some new
insert_lease new (some l) = some l

-- A stale lease is replaced by one that is launching.
unfoldable pub launch : ℕ → Bytes → Queue → Queue
launch now token q = record q {
  lease =
      insert_lease
        (launch_lease now token q.launch_capabilities q.launch_executable_identity
          q.launch_config_identity)
        (drop_stale now q.lease);
}

-- `credential_reference.empty() || launch_credential_capabilities_.contains(credential_reference)`.
abbrev pub can_launch : Bytes → Queue → Bool
can_launch credential q =
    not (is_empty q.launch_executable_identity)
    && (is_empty credential || contains q.launch_capabilities credential)

pub record Enqueued : Type 0 where
  pub work_id : Bytes
  pub inserted : Bool

-- What is asked for, after `contains_secret_material` and with the id that the digest gives.
pub record WorkRequest : Type 0 where
  pub kind : Bytes
  pub parameters : Bytes
  pub has_secret : Bool
  pub work_id : Bytes
  pub invocation_id : Bytes
  pub credential_reference : Bytes
  pub maintenance : Bool
  pub dependencies : List Bytes

-- The row with its links, and a lease that is launching.
unfoldable pub link_row :
    ℕ
    → Bytes
    → WorkRequest
    → Queue
    → List WorkItem
    → Option (List (Bytes × Bytes))
    → Option (Queue × Enqueued)
link_row now token r q items none = none
link_row now token r q items (some deps) =
    let linked : Queue = record q {
      items = items;
      dependencies = deps;
      invocations = link r.work_id r.invocation_id q.invocations;
    } in
    some (
      (if can_launch r.credential_reference q then launch now token linked else linked),
      record { work_id = r.work_id; inserted = not (any_item (has_id r.work_id) q.items) },
    )

unfoldable pub enqueue_row : ℕ → Bytes → WorkRequest → Queue → Option (Queue × Enqueued)
enqueue_row now token r q =
    let items =
      add_item now r.work_id r.kind r.parameters r.credential_reference r.maintenance q.items in
    link_row now token r q items (add_dependencies r.work_id r.dependencies items q.dependencies)

unfoldable pub enqueue_work : ℕ → Bytes → WorkRequest → Queue → Option (Queue × Enqueued)
enqueue_work now token r q =
    if is_empty r.kind || r.has_secret then none else enqueue_row now token r q

unfoldable pub add_task : ℕ → Bytes → Bytes → List WorkItem → List WorkItem
add_task now id task items =
    if any_item (has_id id) items
    then items
    else items ++ new_item now id (codes "extraction") task [] false items ∷ []

-- An extraction; `schedule_task` launches a runner whatever its credentials.
unfoldable pub schedule_task : ℕ → Bytes → Bytes → Bytes → Bytes → Queue → Queue
schedule_task now token id task request q =
    let linked : Queue = record q {
      items = add_task now id task q.items;
      invocations = link id request q.invocations;
    } in
    if is_empty q.launch_executable_identity then linked else launch now token linked

-- `min(300,(1 << min(attempt_count,8)))`.
unfoldable pub backoff : ℕ → ℕ
backoff attempts =
    let delay = 2 ^ (if leb attempts 8 then attempts else 8) in if leb delay 300 then delay else 300

abbrev pub owns : Bytes → Bytes → WorkItem → Bool
owns id owner w = has_id id w && is_running w.state && text_eq w.owner owner

unfoldable pub completed_item : ℕ → Bytes → WorkItem → WorkItem
completed_item now progress w = record w {
  state = if w.cancellation_requested then cancelled else completed;
  owner = [];
  progress = progress;
  updated_at = now;
}

unfoldable pub complete_work : ℕ → Bytes → Bytes → Bytes → Queue → Queue
complete_work now id owner progress q = record q {
  items = update_where (owns id owner) (completed_item now progress) q.items;
}

unfoldable pub failed_state : ℕ → WorkItem → State
failed_state maximum w = if leb maximum (w.attempt_count + 1) then failed else retry_wait

unfoldable pub failed_item : ℕ → Bytes → ℕ → WorkItem → WorkItem
failed_item now fingerprint maximum w = record w {
  attempt_count = w.attempt_count + 1;
  owner = [];
  state = if w.cancellation_requested then cancelled else failed_state maximum w;
  error_fingerprint = fingerprint;
  next_attempt_at = now + backoff w.attempt_count;
  updated_at = now;
}

-- The row that `RETURNING` gives; where there is none, the source reads a null text.
unfoldable pub fail_work : ℕ → Bytes → Bytes → Bytes → ℕ → Queue → Queue × Option WorkItem
fail_work now id owner fingerprint maximum q =
    let items = update_where (owns id owner) (failed_item now fingerprint maximum) q.items in
    (
      record q { items = items },
      (if any_item (owns id owner) q.items then find_item id items else none),
    )

unfoldable pub failed_task : ℕ → Bytes → ℕ → WorkItem → WorkItem
failed_task now diagnostic maximum w = record w {
  attempt_count = w.attempt_count + 1;
  state = failed_state maximum w;
  error_fingerprint = diagnostic;
  next_attempt_at = now + backoff w.attempt_count;
  updated_at = now;
}

unfoldable pub fail_task : ℕ → Bytes → Bytes → ℕ → Queue → Queue × Option WorkItem
fail_task now id diagnostic maximum q =
    let items = update_where (has_id id) (failed_task now diagnostic maximum) q.items in
    (record q { items = items }, find_item id items)

-- The states of a worker and those of the queue; `none` fails the `CHECK`.
unfoldable pub queue_state : Bytes → Option State
queue_state state =
    if text_eq state (codes "processing") || text_eq state (codes "dispatching")
    then some running
    else if text_eq state (codes "waiting") || text_eq state (codes "pending")
    then some pending
    else if text_eq state (codes "incompatible_worker")
    then some waiting_for_credential
    else if text_eq state (codes "transient_failure")
    then some retry_wait
    else if text_eq state (codes "quarantined") || text_eq state (codes "failed")
    then some failed
    else if text_eq state (codes "running")
    then some running
    else if text_eq state (codes "waiting_for_credential")
    then some waiting_for_credential
    else if text_eq state (codes "retry_wait")
    then some retry_wait
    else if text_eq state (codes "completed")
    then some completed
    else if text_eq state (codes "cancelled")
    then some cancelled
    else none

unfoldable pub with_state : ℕ → State → WorkItem → WorkItem
with_state now state w = record w { state = state; updated_at = now }

-- The row of the task, if there is one, gets the state.
unfoldable pub put_state : ℕ → Bytes → State → Queue → Option Queue
put_state now id state q =
    elim (one_running (update_where (has_id id) (with_state now state) q.items)) [
      | none ↦ none
      | some items ↦ some (record q { items = items })
    ]

unfoldable pub set_task_state : ℕ → Bytes → Bytes → Queue → Option Queue
set_task_state now id state q = elim (queue_state state) [
  | none ↦ if any_item (has_id id) q.items then none else some q
  | some s ↦ put_state now id s q
]

abbrev pub can_cancel : Bytes → WorkItem → Bool
can_cancel id w = has_id id w && not (is_settled w.state)

unfoldable pub cancelled_item : ℕ → WorkItem → WorkItem
cancelled_item now w = record w {
  cancellation_requested = true;
  state = if is_running w.state then w.state else cancelled;
  updated_at = now;
}

unfoldable pub cancel_work : ℕ → Bytes → Queue → Queue × Bool
cancel_work now id q = (
  record q { items = update_where (can_cancel id) (cancelled_item now) q.items },
  any_item (can_cancel id) q.items,
)

unfoldable pub work_cancellation_requested : Bytes → Queue → Bool
work_cancellation_requested id q = elim (find_item id q.items) [
  | none ↦ false
  | some w ↦ w.cancellation_requested
]

-- `SELECT count(*)` of the invocation's items that are not settled, row by row of the join.
unfoldable pub count_unsettled : Bytes → List WorkItem → ℕ
count_unsettled id [] = 0
count_unsettled id (w ∷ ws) =
    (if has_id id w && not (is_settled w.state) then 1 else 0) + count_unsettled id ws

unfoldable pub unsettled_links : Bytes → List WorkItem → List (Bytes × Bytes) → ℕ
unsettled_links invocation items [] = 0
unsettled_links invocation items ((w, i) ∷ ps) =
    (if text_eq i invocation then count_unsettled w items else 0)
    + unsettled_links invocation items ps

unfoldable pub invocation_settled : Bytes → Queue → Bool
invocation_settled invocation q = unsettled_links invocation q.items q.invocations == 0
