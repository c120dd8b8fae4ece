-- ===== src/Catalog/Facts.antt =====
-- src/catalog.cpp: the facts that extractions gave, which are a cache of limited size, and the tasks that
-- were published.
use repotraverse.Prelude.{
  ℕ, zero, suc, ◌+◌, ◌-◌, Bool, true, false, ◌&&◌, ◌||◌, not, Option, none, some, List, [], ◌∷◌,
  ◌++◌, ltb, leb, ◌==◌, if◌then◌else◌, Bytes, codes, text_eq, contains, length,
}
use repotraverse.Catalog.Tables.{
  running, pending, completed, WorkItem, Fact, Queue, is_completed, is_waiting, update_where,
  has_id, one_running, is_pending,
}

-- SQLite compares texts byte by byte.
unfoldable pub text_before : Bytes → Bytes → Bool
text_before [] [] = false
text_before [] (b ∷ t) = true
text_before (a ∷ s) [] = false
text_before (a ∷ s) (b ∷ t) = ltb a b || (a == b && text_before s t)

-- `ORDER BY accessed_at,created_at,fact_id`.
unfoldable pub is_older : Fact → Fact → Bool
is_older f g =
    ltb f.accessed_at g.accessed_at
    || (f.accessed_at == g.accessed_at
        && (ltb f.created_at g.created_at
            || (f.created_at == g.created_at && text_before f.fact_id g.fact_id)))

unfoldable pub count_older : Fact → List Fact → ℕ
count_older g [] = 0
count_older g (f ∷ fs) = (if is_older f g then 1 else 0) + count_older g fs

-- The fact is among the 100 that are first in the order: `LIMIT 100`.
unfoldable pub is_oldest : List Fact → Fact → Bool
is_oldest facts f = ltb (count_older f facts) 100

-- `DELETE FROM facts WHERE fact_id IN ... RETURNING length(fact_json)`: the rows that stay, how many are
-- removed, and their size.
unfoldable pub delete_oldest : List Fact → List Fact → List Fact × (ℕ × ℕ)
delete_oldest facts [] = ([], (0, 0))
delete_oldest facts (f ∷ fs) =
    let (rest, (removed, bytes)) = delete_oldest facts fs in
    if is_oldest facts f
    then (rest, (removed + 1, bytes + f.size))
    else (f ∷ rest, (removed, bytes))

unfoldable pub total_size : List Fact → ℕ
total_size [] = 0
total_size (f ∷ fs) = f.size + total_size fs

-- The constructor's arguments.
pub record CacheLimits : Type 0 where
  pub maximum_cached_facts : ℕ
  pub maximum_cached_fact_bytes : ℕ

-- The loop of `store_fact`, with the count and the size that it keeps.
unfoldable pub evict : ℕ → CacheLimits → ℕ → ℕ → List Fact → List Fact
evict zero limits count bytes facts = facts
evict (suc fuel) limits count bytes facts =
    let (rest, (removed, removed_bytes)) = delete_oldest facts facts in
    let later = evict fuel limits (count - removed) (bytes - removed_bytes) rest in
    if ltb limits.maximum_cached_facts count || ltb limits.maximum_cached_fact_bytes bytes
    then (if removed == 0 then facts else later)
    else facts

unfoldable pub has_fact_id : Bytes → List Fact → Bool
has_fact_id id [] = false
has_fact_id id (f ∷ fs) = text_eq f.fact_id id || has_fact_id id fs

-- `INSERT OR IGNORE INTO facts`.
unfoldable pub insert_fact : Fact → List Fact → List Fact
insert_fact f facts = if has_fact_id f.fact_id facts then facts else facts ++ f ∷ []

-- `EXISTS (SELECT 1 FROM facts WHERE facts.task_id=?)`.
unfoldable pub has_fact : Bytes → List Fact → Bool
has_fact id [] = false
has_fact id (f ∷ fs) = text_eq f.task_id id || has_fact id fs

unfoldable pub stored_item : ℕ → WorkItem → WorkItem
stored_item now w = record w { state = completed; owner = []; updated_at = now }

-- Completed, and without a fact.
abbrev pub lacks_fact : List Fact → WorkItem → Bool
lacks_fact facts w = is_completed w.state && not (has_fact w.work_id facts)

unfoldable pub rescheduled : WorkItem → WorkItem
rescheduled w = record w { state = pending; next_attempt_at = 0 }

-- `SELECT work_id FROM work_items WHERE state='pending'` has the id.
unfoldable pub is_pending_id : Bytes → List WorkItem → Bool
is_pending_id id [] = false
is_pending_id id (w ∷ ws) = (has_id id w && is_pending w.state) || is_pending_id id ws

-- `DELETE FROM published_tasks WHERE task_id IN` the pending items.
unfoldable pub unpublish : List WorkItem → List Bytes → List Bytes
unpublish items [] = []
unpublish items (id ∷ ids) =
    let rest = unpublish items ids in if is_pending_id id items then rest else id ∷ rest

-- The facts after `store_fact`.
unfoldable pub stored_facts : CacheLimits → Fact → List Fact → List Fact
stored_facts limits f facts =
    let all = insert_fact f facts in evict (length all + 1) limits (length all) (total_size all) all

-- The task's item is completed whatever its state; then what is completed without a fact is set back.
unfoldable pub stored_rows : ℕ → Bytes → List Fact → List WorkItem → List WorkItem
stored_rows now task facts items =
    update_where (lacks_fact facts) rescheduled (update_where (has_id task) (stored_item now) items)

-- `readable`: the manifest in the fact, if it has one, can be read and indexed; if not, an exception ends
-- the transaction. The index tables of elements are left out.
unfoldable pub store_fact : ℕ → CacheLimits → Bytes → Bytes → ℕ → Bool → Queue → Option Queue
store_fact now limits id task size readable q =
    let new : Fact = record {
      fact_id = id;
      task_id = task;
      size = size;
      created_at = now;
      accessed_at = now;
    } in
    let facts = stored_facts limits new q.facts in
    let items = stored_rows now task facts q.items in
    if readable
    then some (record q { items = items; facts = facts; published = unpublish items q.published })
    else none

-- `ORDER BY fact_id LIMIT 1`.
unfoldable pub first_fact : Bytes → List Fact → Option Fact
first_fact task [] = none
first_fact task (f ∷ fs) =
    let rest = first_fact task fs in
    if text_eq f.task_id task
    then elim rest [
      | none ↦ some f
      | some g ↦ if text_before g.fact_id f.fact_id then some g else some f
    ]
    else rest

unfoldable pub touch : ℕ → Bytes → List Fact → List Fact
touch now id [] = []
touch now id (f ∷ fs) =
    (if text_eq f.fact_id id then record f { accessed_at = now } else f) ∷ touch now id fs

-- The fact that is found is marked as used now.
unfoldable pub fact_for_task : ℕ → Bytes → Queue → Queue × Option Fact
fact_for_task now task q = elim (first_fact task q.facts) [
  | none ↦ (q, none)
  | some f ↦ (record q { facts = touch now f.fact_id q.facts }, some f)
]

unfoldable pub mark_task_published : Bytes → Queue → Queue
mark_task_published id q = record q {
  published = if contains q.published id then q.published else q.published ++ id ∷ [];
}

-- An extraction that was published waits, and its time has come.
abbrev pub can_pick : ℕ → List Bytes → WorkItem → Bool
can_pick now published w =
    text_eq w.kind (codes "extraction")
    && is_waiting w.state
    && leb w.next_attempt_at now
    && contains published w.work_id

-- `ORDER BY next_attempt_at,fifo_sequence`.
unfoldable pub is_due_before : WorkItem → WorkItem → Bool
is_due_before w v =
    ltb w.next_attempt_at v.next_attempt_at
    || (w.next_attempt_at == v.next_attempt_at && ltb w.fifo_sequence v.fifo_sequence)

unfoldable pub first_due : ℕ → List Bytes → List WorkItem → Option WorkItem
first_due now published [] = none
first_due now published (w ∷ ws) =
    let rest = first_due now published ws in
    if can_pick now published w
    then elim rest [ none ↦ some w | some v ↦ if is_due_before v w then some v else some w ]
    else rest

unfoldable pub picked_item : WorkItem → WorkItem
picked_item w = record w { state = running }

-- A statement that the unique index refuses gives no row, and the
-- code takes that for no task.
unfoldable pub pick_row : Queue → Option WorkItem → Queue × Option WorkItem
pick_row q none = (q, none)
pick_row q (some w) = elim (one_running (update_where (has_id w.work_id) picked_item q.items)) [
  | none ↦ (q, none)
  | some items ↦ (record q { items = items }, some (picked_item w))
]

unfoldable pub next_pending_task : ℕ → Queue → Queue × Option WorkItem
next_pending_task now q = pick_row q (first_due now q.published q.items)
