-- ===== src/Catalog/Runner.antt =====
-- src/catalog.cpp: the lease of the one runner, and the work that it takes.
use repotraverse.Prelude.{
  ℕ, Bool, true, false, ◌&&◌, ◌||◌, not, Option, none, some, List, [], ◌∷◌, leb, if◌then◌else◌,
  Bytes, codes, text_eq, is_empty, contains,
}
use repotraverse.Catalog.Tables.{
  pending, running, waiting_for_credential, failed, WorkItem, RunnerLease, active, Queue,
  is_running, is_waiting, is_unclaimed, is_active, was_dropped, update_where, any_item, has_id,
  one_running, depends_on, is_runnable, is_stale, drop_stale,
}
use repotraverse.Catalog.Work.{launch_lease}

-- `ORDER BY maintenance,fifo_sequence`: the first stands before the second.
unfoldable pub precedes : WorkItem → WorkItem → Bool
precedes a b =
    if a.maintenance
    then b.maintenance && leb a.fifo_sequence b.fifo_sequence
    else b.maintenance || leb a.fifo_sequence b.fifo_sequence

unfoldable pub insert_ordered : WorkItem → List WorkItem → List WorkItem
insert_ordered w [] = w ∷ []
insert_ordered w (v ∷ vs) =
    let rest = v ∷ insert_ordered w vs in if precedes w v then w ∷ v ∷ vs else rest

unfoldable pub ordered : List WorkItem → List WorkItem
ordered [] = []
ordered (w ∷ ws) = insert_ordered w (ordered ws)

unfoldable pub select_runnable : ℕ → Queue → List WorkItem → List WorkItem
select_runnable now q [] = []
select_runnable now q (w ∷ ws) =
    let rest = select_runnable now q ws in if is_runnable now q w then w ∷ rest else rest

-- The rows that a query for runnable work gives.
unfoldable pub runnable_rows : ℕ → Queue → List WorkItem
runnable_rows now q = ordered (select_runnable now q q.items)

abbrev pub is_compatible : List Bytes → WorkItem → Bool
is_compatible capabilities w =
    is_empty w.credential_reference || contains capabilities w.credential_reference

unfoldable pub any_compatible : List Bytes → List WorkItem → Bool
any_compatible capabilities [] = false
any_compatible capabilities (w ∷ ws) =
    is_compatible capabilities w || any_compatible capabilities ws

-- The loop over the rows: those that are passed over, and the one that is taken.
unfoldable pub scan : List Bytes → List WorkItem → List Bytes × Option WorkItem
scan capabilities [] = ([], none)
scan capabilities (w ∷ ws) =
    let (passed, taken) = scan capabilities ws in
    if is_compatible capabilities w then ([], some w) else (w.work_id ∷ passed, taken)

-- `NOT EXISTS(SELECT 1 FROM runner_lease WHERE singleton=1 AND heartbeat_at>=...-30)`.
unfoldable pub no_fresh_lease : ℕ → Option RunnerLease → Bool
no_fresh_lease now none = true
no_fresh_lease now (some l) = is_stale now l

unfoldable pub recovered : ℕ → WorkItem → WorkItem
recovered now w = record w { state = pending; owner = []; updated_at = now }

-- Work whose runner is gone waits again, and its lease is dropped.
unfoldable pub recover : ℕ → Queue → Queue
recover now q = record q {
  items =
      if no_fresh_lease now q.lease
      then update_where (λ w. is_running w.state) (recovered now) q.items
      else q.items;
  lease = drop_stale now q.lease;
}

abbrev pub lacks_credential : WorkItem → Bool
lacks_credential w = is_unclaimed w.state && not (is_empty w.credential_reference)

unfoldable pub held_back : WorkItem → WorkItem
held_back w = record w { state = waiting_for_credential }

unfoldable pub try_launch :
    ℕ → Bytes → List Bytes → Bytes → Bytes → Queue → Option RunnerLease → Queue × Option Bytes
try_launch now token capabilities executable config q (some l) = (q, none)
try_launch now token capabilities executable config q none =
    if any_compatible capabilities (runnable_rows now q)
    then (
      record q { lease = some (launch_lease now token capabilities executable config) },
      some token,
    )
    else (record q { items = update_where lacks_credential held_back q.items }, none)

unfoldable pub claim_runner_launch :
    ℕ → Bytes → List Bytes → Bytes → Bytes → Queue → Queue × Option Bytes
claim_runner_launch now token capabilities executable config q =
    let fresh = recover now q in
    try_launch now token capabilities executable config fresh fresh.lease

abbrev pub is_launching : RunnerLease → Bool
is_launching l = not (is_active l.state)

-- The token of a launch of this executable and configuration.
unfoldable pub pending_launch_token : Queue → Option Bytes
pending_launch_token q = elim q.lease [
  | none ↦ none
  | some l ↦
      if is_launching l
        && text_eq l.executable_identity q.launch_executable_identity
        && text_eq l.config_identity q.launch_config_identity
      then some l.adoption_token
      else none
]

unfoldable pub configure_launch : List Bytes → Bytes → Bytes → Queue → Queue
configure_launch capabilities executable config q = record q {
  launch_capabilities = capabilities;
  launch_executable_identity = executable;
  launch_config_identity = config;
}

unfoldable pub clear_lease : Bytes → Queue → Option RunnerLease → Queue × Bool
clear_lease token q none = (q, false)
clear_lease token q (some l) =
    if is_launching l && text_eq l.adoption_token token
    then (record q { lease = none }, true)
    else (q, false)

unfoldable pub clear_failed_launch : Bytes → Queue → Queue × Bool
clear_failed_launch token q = clear_lease token q q.lease

-- The process that a launch started, as it presents itself.
pub record Process : Type 0 where
  pub owner : Bytes
  pub pid : ℕ
  pub start_identity : Bytes
  pub executable_identity : Bytes
  pub config_identity : Bytes
  pub credential_capabilities : List Bytes

abbrev pub may_adopt : Bytes → Process → RunnerLease → Bool
may_adopt token p l =
    is_launching l
    && text_eq l.adoption_token token
    && text_eq l.executable_identity p.executable_identity
    && text_eq l.config_identity p.config_identity
    && text_eq l.schema_identity (codes "1")

unfoldable pub adopted : ℕ → Process → RunnerLease → RunnerLease
adopted now p l = record l {
  state = active;
  adoption_token = [];
  owner = p.owner;
  pid = p.pid;
  process_start_identity = p.start_identity;
  credential_capabilities = p.credential_capabilities;
  heartbeat_at = now;
}

unfoldable pub adopt_lease : ℕ → Bytes → Process → Queue → Option RunnerLease → Queue × Bool
adopt_lease now token p q none = (q, false)
adopt_lease now token p q (some l) =
    if may_adopt token p l then (record q { lease = some (adopted now p l) }, true) else (q, false)

unfoldable pub adopt_runner : ℕ → Bytes → Process → Queue → Queue × Bool
adopt_runner now token p q = adopt_lease now token p q q.lease

-- The lease is active, and its owner is this one.
unfoldable pub is_runner : Bytes → Option RunnerLease → Bool
is_runner owner none = false
is_runner owner (some l) = is_active l.state && text_eq l.owner owner

unfoldable pub beat : ℕ → Option RunnerLease → Option RunnerLease
beat now none = none
beat now (some l) = some (record l { heartbeat_at = now })

unfoldable pub heartbeat_runner : ℕ → Bytes → Queue → Queue × Bool
heartbeat_runner now owner q =
    if is_runner owner q.lease then (record q { lease = beat now q.lease }, true) else (q, false)

abbrev pub is_doomed : Queue → WorkItem → Bool
is_doomed q w = is_waiting w.state && depends_on was_dropped q.items q.dependencies w.work_id

unfoldable pub doomed : ℕ → Bytes → WorkItem → WorkItem
doomed now failure w = record w { state = failed; error_fingerprint = failure; updated_at = now }

-- What waits for failed or cancelled work fails; `failure` is the digest of dependency_failed.
unfoldable pub propagate : ℕ → Bytes → Queue → Queue
propagate now failure q = record q {
  items = update_where (is_doomed q) (doomed now failure) q.items;
}

unfoldable pub passed_over : ℕ → WorkItem → WorkItem
passed_over now w = record w { state = waiting_for_credential; updated_at = now }

unfoldable pub mark_passed : ℕ → List Bytes → List WorkItem → List WorkItem
mark_passed now [] items = items
mark_passed now (id ∷ ids) items =
    mark_passed now ids (update_where (has_id id) (passed_over now) items)

unfoldable pub taken_item : ℕ → Bytes → WorkItem → WorkItem
taken_item now owner w = record w { state = running; owner = owner; updated_at = now }

unfoldable pub claim_item : ℕ → Bytes → Queue → Option WorkItem → Option (Queue × Option WorkItem)
claim_item now owner q none = some (q, none)
claim_item now owner q (some w) =
    elim (one_running (update_where (has_id w.work_id) (taken_item now owner) q.items)) [
      | none ↦ none
      | some items ↦ some (record q { items = items }, some w)
    ]

unfoldable pub take_next : ℕ → Bytes → List Bytes → Queue → Option (Queue × Option WorkItem)
take_next now owner capabilities q =
    let (passed, taken) = scan capabilities (runnable_rows now q) in
    claim_item now owner (record q { items = mark_passed now passed q.items }) taken

-- The item as it was read.
unfoldable pub claim_next_work :
    ℕ → Bytes → Bytes → List Bytes → Queue → Option (Queue × Option WorkItem)
claim_next_work now failure owner capabilities q =
    let fresh = propagate now failure q in
    if is_runner owner fresh.lease
    then take_next now owner capabilities fresh
    else some (fresh, none)

-- `release_runner_if_empty` does not count what waits for a credential.
unfoldable pub is_ready : ℕ → Queue → WorkItem → Bool
is_ready now q w = is_unclaimed w.state && is_runnable now q w

unfoldable pub release_runner_if_empty : ℕ → Bytes → Queue → Queue × Bool
release_runner_if_empty now owner q =
    if any_item (is_ready now q) q.items
    then (q, false)
    else if is_runner owner q.lease
    then (record q { lease = none }, true)
    else (q, false)
